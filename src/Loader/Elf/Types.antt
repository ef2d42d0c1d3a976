-- ===== src/Loader/Elf/Types.antt =====
-- The types of crates/core/src/loader/elf.rs: SELF and ELF headers and program headers,
-- with the raw numbers of the enumerations.
use anotherps4_emulator.Common.{
  ℕ, ◌/◌, ◌^◌, List, [], ◌∷◌, Option, Bool, true, false, not, ◌==◌, bit_and, if◌then◌else◌,
}
use anotherps4_emulator.Common.Reader.{Bytes}
use anotherps4_emulator.Loader.Elf.Tables.{DynamicEntry}

abbrev pub self_magic : ℕ
self_magic = 0x1D3D_154F

pub record SelfHeader : Type 0 where
  pub magic : ℕ
  pub version : ℕ
  pub mode : ℕ
  pub endian : ℕ
  pub attributes : ℕ
  pub category : ℕ
  pub program_type : ℕ
  pub padding1 : ℕ
  pub header_size : ℕ
  pub meta_size : ℕ
  pub file_size : ℕ
  pub padding2 : ℕ
  pub segment_count : ℕ
  pub unknown_1a : ℕ
  pub padding3 : ℕ

pub record SelfSegmentHeader : Type 0 where
  pub flags : ℕ
  pub file_offset : ℕ
  pub file_size : ℕ
  pub memory_size : ℕ

abbrev pub is_blocked : SelfSegmentHeader → Bool
is_blocked self = not (bit_and self.flags 0x800 == 0)

abbrev pub get_id : SelfSegmentHeader → ℕ
get_id self = bit_and (self.flags / 2 ^ 20) 0xfff

abbrev pub is_ordered : SelfSegmentHeader → Bool
is_ordered self = not (bit_and self.flags 1 == 0)

abbrev pub is_encrypted : SelfSegmentHeader → Bool
is_encrypted self = not (bit_and self.flags 2 == 0)

abbrev pub is_signed : SelfSegmentHeader → Bool
is_signed self = not (bit_and self.flags 4 == 0)

abbrev pub is_compressed : SelfSegmentHeader → Bool
is_compressed self = not (bit_and self.flags 8 == 0)

abbrev pub elf_magic : Bytes
elf_magic = 0x7f ∷ 0x45 ∷ 0x4c ∷ 0x46 ∷ []

pub data ElfType : Type 0 where
  none_type relocatable executable shared_object core : ElfType
  sce_exec sce_stub_lib sce_dyn_exec sce_dynamic : ElfType
  unknown_type : ℕ → ElfType

-- `From<u16> for ElfType`
unfoldable pub elf_type_of : ℕ → ElfType
elf_type_of v =
    if v == 0
    then none_type
    else if v == 1
    then relocatable
    else if v == 2
    then executable
    else if v == 3
    then shared_object
    else if v == 4
    then core
    else if v == 0xfe00
    then sce_exec
    else if v == 0xfe0c
    then sce_stub_lib
    else if v == 0xfe10
    then sce_dyn_exec
    else if v == 0xfe18
    then sce_dynamic
    else unknown_type v

-- The discriminants.
abbrev pub elf_type_value : ElfType → ℕ
elf_type_value none_type = 0
elf_type_value relocatable = 1
elf_type_value executable = 2
elf_type_value shared_object = 3
elf_type_value core = 4
elf_type_value sce_exec = 0xfe00
elf_type_value sce_stub_lib = 0xfe0c
elf_type_value sce_dyn_exec = 0xfe10
elf_type_value sce_dynamic = 0xfe18
elf_type_value (unknown_type v) = v

pub record ElfIdent : Type 0 where
  pub magic : Bytes
  pub class_byte : ℕ
  pub data_byte : ℕ
  pub version : ℕ
  pub os_abi : ℕ
  pub abi_version : ℕ
  pub padding : Bytes

pub record ElfHeader : Type 0 where
  pub ident : ElfIdent
  pub elf_type : ElfType
  pub machine : ℕ
  pub version : ℕ
  pub entry : ℕ
  pub phoff : ℕ
  pub shoff : ℕ
  pub flags : ℕ
  pub ehsize : ℕ
  pub phentsize : ℕ
  pub phnum : ℕ
  pub shentsize : ℕ
  pub shnum : ℕ
  pub shstrndx : ℕ

pub data ProgramType : Type 0 where
  null load dynamic interp note phdr tls : ProgramType
  sce_rela sce_dynlib_data sce_proc_param sce_module_param sce_relro : ProgramType
  gnu_eh_frame gnu_stack gnu_relro sce_comment sce_lib_version : ProgramType
  unknown_program : ℕ → ProgramType

-- `From<u32> for ProgramType`
unfoldable pub program_type_of : ℕ → ProgramType
program_type_of v =
    if v == 0
    then null
    else if v == 1
    then load
    else if v == 2
    then dynamic
    else if v == 3
    then interp
    else if v == 4
    then note
    else if v == 6
    then phdr
    else if v == 7
    then tls
    else if v == 0x6000_0000
    then sce_rela
    else if v == 0x6100_0000
    then sce_dynlib_data
    else if v == 0x6100_0001
    then sce_proc_param
    else if v == 0x6100_0002
    then sce_module_param
    else if v == 0x6100_0010
    then sce_relro
    else if v == 0x6474_e550
    then gnu_eh_frame
    else if v == 0x6474_e551
    then gnu_stack
    else if v == 0x6474_e552
    then gnu_relro
    else if v == 0x6fff_ff00
    then sce_comment
    else if v == 0x6fff_ff01
    then sce_lib_version
    else unknown_program v

abbrev pub program_type_value : ProgramType → ℕ
program_type_value null = 0
program_type_value load = 1
program_type_value dynamic = 2
program_type_value interp = 3
program_type_value note = 4
program_type_value phdr = 6
program_type_value tls = 7
program_type_value sce_rela = 0x6000_0000
program_type_value sce_dynlib_data = 0x6100_0000
program_type_value sce_proc_param = 0x6100_0001
program_type_value sce_module_param = 0x6100_0002
program_type_value sce_relro = 0x6100_0010
program_type_value gnu_eh_frame = 0x6474_e550
program_type_value gnu_stack = 0x6474_e551
program_type_value gnu_relro = 0x6474_e552
program_type_value sce_comment = 0x6fff_ff00
program_type_value sce_lib_version = 0x6fff_ff01
program_type_value (unknown_program v) = v

-- The union of the `ProgramFlags`.
abbrev pub program_flags_bits : ℕ
program_flags_bits = 7

pub record ProgramHeader : Type 0 where
  pub phdr_type : ProgramType
  pub flags : ℕ
  pub offset : ℕ
  pub vaddr : ℕ
  pub paddr : ℕ
  pub filesz : ℕ
  pub memsz : ℕ
  pub align : ℕ

-- `ph.phdr_type == ProgramType::Load`, and so on.
abbrev pub is_load : ProgramHeader → Bool
is_load ph = elim ph.phdr_type [ load ↦ true | _ ↦ false ]

abbrev pub is_dynamic : ProgramHeader → Bool
is_dynamic ph = elim ph.phdr_type [ dynamic ↦ true | _ ↦ false ]

abbrev pub is_dynlib_data : ProgramHeader → Bool
is_dynlib_data ph = elim ph.phdr_type [ sce_dynlib_data ↦ true | _ ↦ false ]

abbrev pub is_tls : ProgramHeader → Bool
is_tls ph = elim ph.phdr_type [ tls ↦ true | _ ↦ false ]

abbrev pub is_proc_param : ProgramHeader → Bool
is_proc_param ph = elim ph.phdr_type [ sce_proc_param ↦ true | _ ↦ false ]

abbrev pub is_eh_frame : ProgramHeader → Bool
is_eh_frame ph = elim ph.phdr_type [ gnu_eh_frame ↦ true | _ ↦ false ]

-- What `parse` can fail with; `panicked` is a slice whose start lies behind its end.
pub data ElfError : Type 0 where
  io not_elf panicked : ElfError
  not_64_bit not_little_endian not_x86_64 : ℕ → ElfError

pub record Elf : Type 0 where
  pub is_self : Bool
  pub self_header : Option SelfHeader
  pub self_segments : List SelfSegmentHeader
  pub header : ElfHeader
  pub program_headers : List ProgramHeader
  pub dynamic_entries : List DynamicEntry
  pub dynlib_data : Bytes
  pub raw_data : Bytes
