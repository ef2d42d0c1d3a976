-- ===== src/Loader/Elf/RoundTrip.antt =====
-- Writing what crates/core/src/loader/elf.rs reads: an ELF header, program headers and SELF segments in front of
-- further bytes.
use anotherps4_emulator.Common.{
  ℕ, ◌^◌, ◌<◌, ◌≡◌, refl, List, [], ◌∷◌, ◌++◌, length, All, arith, bit_and,
}
use anotherps4_emulator.Common.Bits.{bit_and_low}
use anotherps4_emulator.Common.Result.{ok}
use anotherps4_emulator.Common.Reader.{Bytes, ByteOrder, IsLittleEndian, read_exact}
use anotherps4_emulator.Common.Reader.RoundTrip.{put_le, read_le-put_le, read_exact-append}
use anotherps4_emulator.Loader.Elf.Types.{
  ElfIdent, ElfHeader, ProgramHeader, elf_magic, elf_type_of, elf_type_value, program_type_of,
  program_type_value, io,
}
use anotherps4_emulator.Loader.Elf.Read.{
  read_program_header, read_program_headers, read_ident, read_elf_header,
}

-- Every number is the discriminant of what the code takes it for.
pub elf_type_value-elf_type_of : (v : ℕ) → elf_type_value (elf_type_of v) ≡ v
unfolding elf_type_of
elf_type_value-elf_type_of v = ground arith

pub program_type_value-program_type_of : (v : ℕ) → program_type_value (program_type_of v) ≡ v
unfolding program_type_of
program_type_value-program_type_of v = ground arith

-- A program header in its 56 bytes.
unfoldable pub put_program_header : ProgramHeader → Bytes → Bytes
put_program_header ph rest = put_le 4 (program_type_value ph.phdr_type) (
    put_le 4 ph.flags (
      put_le 8 ph.offset (
        put_le 8 ph.vaddr
          (put_le 8 ph.paddr (put_le 8 ph.filesz (put_le 8 ph.memsz (put_le 8 ph.align rest)))))))

-- Each field fits its width, the type is the one that its number stands for, and no unknown flag is set.
pub record FitsProgramHeader (ph : ProgramHeader) : Type 0 where
  pub named : program_type_of (program_type_value ph.phdr_type) ≡ ph.phdr_type
  pub phdr_type : program_type_value ph.phdr_type < 256 ^ 4
  pub flags : ph.flags < 8
  pub offset : ph.offset < 256 ^ 8
  pub vaddr : ph.vaddr < 256 ^ 8
  pub paddr : ph.paddr < 256 ^ 8
  pub filesz : ph.filesz < 256 ^ 8
  pub memsz : ph.memsz < 256 ^ 8
  pub align : ph.align < 256 ^ 8

unfoldable pub put_program_headers : List ProgramHeader → Bytes → Bytes
put_program_headers [] rest = rest
put_program_headers (ph ∷ phs) rest = put_program_header ph (put_program_headers phs rest)

unfoldable pub put_ident : ElfIdent → Bytes → Bytes
put_ident ident rest =
    ident.magic
    ++ put_le 1 ident.class_byte (
        put_le 1 ident.data_byte (
          put_le 1 ident.version
            (put_le 1 ident.os_abi (put_le 1 ident.abi_version (ident.padding ++ rest)))))

-- What the parser asks of the ident, and the widths of the rest of it.
pub record FitsIdent (ident : ElfIdent) : Type 0 where
  pub magic : ident.magic ≡ elf_magic
  pub class_byte : ident.class_byte ≡ 2
  pub data_byte : ident.data_byte ≡ 1
  pub version : ident.version < 256 ^ 1
  pub os_abi : ident.os_abi < 256 ^ 1
  pub abi_version : ident.abi_version < 256 ^ 1
  pub padding : 7 ≡ length ident.padding

-- An ELF header in its 64 bytes.
unfoldable pub put_elf_header : ElfHeader → Bytes → Bytes
put_elf_header h rest = put_ident h.ident (
    put_le 2 (elf_type_value h.elf_type) (
      put_le 2 h.machine (
        put_le 4 h.version (
          put_le 8 h.entry (
            put_le 8 h.phoff (
              put_le 8 h.shoff (
                put_le 4 h.flags (
                  put_le 2 h.ehsize (
                    put_le 2 h.phentsize (
                      put_le 2 h.phnum (
                        put_le 2 h.shentsize
                          (put_le 2 h.shnum (put_le 2 h.shstrndx rest)))))))))))))

pub record FitsHeader (h : ElfHeader) : Type 0 where
  pub ident : FitsIdent h.ident
  pub named : elf_type_of (elf_type_value h.elf_type) ≡ h.elf_type
  pub elf_type : elf_type_value h.elf_type < 256 ^ 2
  pub machine : h.machine ≡ 62
  pub version : h.version < 256 ^ 4
  pub entry : h.entry < 256 ^ 8
  pub phoff : h.phoff < 256 ^ 8
  pub shoff : h.shoff < 256 ^ 8
  pub flags : h.flags < 256 ^ 4
  pub ehsize : h.ehsize < 256 ^ 2
  pub phentsize : h.phentsize < 256 ^ 2
  pub phnum : h.phnum < 256 ^ 2
  pub shentsize : h.shentsize < 256 ^ 2
  pub shnum : h.shnum < 256 ^ 2
  pub shstrndx : h.shstrndx < 256 ^ 2

module _ (order : ByteOrder) (le : IsLittleEndian order) where
  pub read_program_header-put :
      (ph : ProgramHeader) (rest : Bytes)
      → FitsProgramHeader ph
      → read_program_header order (put_program_header ph rest) ≡ ok (ph, rest)
  unfolding read_program_header put_program_header
  read_program_header-put ph rest f =
      let small : ph.flags < 256 ^ 4 = omega (arith, f.flags) in
      let mask : bit_and ph.flags 7 ≡ ph.flags = omega (arith, bit_and_low 3 ph.flags, f.flags) in
      let get = read_le-put_le io order le in
      rw
        (
          get 4 (program_type_value ph.phdr_type) _ f.phdr_type,
          get 4 ph.flags _ small,
          get 8 ph.offset _ f.offset,
          get 8 ph.vaddr _ f.vaddr,
          get 8 ph.paddr _ f.paddr,
          get 8 ph.filesz _ f.filesz,
          get 8 ph.memsz _ f.memsz,
          get 8 ph.align rest f.align,
          f.named,
          mask,
        )
        refl

  -- A table of headers reads back as it was written.
  pub read_program_headers-put :
      (phs : List ProgramHeader) (rest : Bytes)
      → All FitsProgramHeader phs
      → read_program_headers order (length phs) (put_program_headers phs rest) ≡ ok (phs, rest)
  unfolding read_program_headers put_program_headers
  read_program_headers-put [] rest f = refl
  read_program_headers-put (ph ∷ phs) rest f =
      rw
        (
          read_program_header-put ph (put_program_headers phs rest) f.0,
          read_program_headers-put phs rest f.1,
        )
        refl

  pub read_ident-put :
      (ident : ElfIdent) (rest : Bytes)
      → FitsIdent ident
      → read_ident order (put_ident ident rest) ≡ ok (ident, rest)
  unfolding read_ident put_ident
  read_ident-put ident rest f =
      let get = read_le-put_le io order le in
      let m : read_exact io 4 (
            ident.magic
            ++ put_le 1 ident.class_byte (
                put_le 1 ident.data_byte (
                  put_le 1 ident.version
                    (put_le 1 ident.os_abi (put_le 1 ident.abi_version (ident.padding ++ rest))))))
          ≡ ok (ident.magic, _) =
        read_exact-append io 4 ident.magic _ (rw (f.magic) refl) in
      rw
        (
          m,
          f.magic,
          get 1 ident.class_byte _ (omega (arith, f.class_byte)),
          f.class_byte,
          get 1 ident.data_byte _ (omega (arith, f.data_byte)),
          f.data_byte,
          get 1 ident.version _ f.version,
          get 1 ident.os_abi _ f.os_abi,
          get 1 ident.abi_version _ f.abi_version,
          read_exact-append io 7 ident.padding rest f.padding,
        )
        refl

  -- An ELF header of this machine reads back as it was written.
  pub read_elf_header-put :
      (h : ElfHeader) (rest : Bytes)
      → FitsHeader h
      → read_elf_header order (put_elf_header h rest) ≡ ok (h, rest)
  unfolding read_elf_header put_elf_header
  read_elf_header-put h rest f =
      let get = read_le-put_le io order le in
      rw
        (
          read_ident-put h.ident _ f.ident,
          get 2 (elf_type_value h.elf_type) _ f.elf_type,
          get 2 h.machine _ (omega (arith, f.machine)),
          f.machine,
          get 4 h.version _ f.version,
          get 8 h.entry _ f.entry,
          get 8 h.phoff _ f.phoff,
          get 8 h.shoff _ f.shoff,
          get 4 h.flags _ f.flags,
          get 2 h.ehsize _ f.ehsize,
          get 2 h.phentsize _ f.phentsize,
          get 2 h.phnum _ f.phnum,
          get 2 h.shentsize _ f.shentsize,
          get 2 h.shnum _ f.shnum,
          get 2 h.shstrndx rest f.shstrndx,
          f.named,
        )
        refl
