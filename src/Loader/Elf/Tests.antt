-- ===== src/Loader/Elf/Tests.antt =====
-- Runs and witnesses for the loader of ELF and SELF files, on files of one program header.
use anotherps4_emulator.Common.{◌≡◌, refl, List, [], ◌∷◌, none, some, false, length, All, arith}
use anotherps4_emulator.Common.Int.{pos, negsuc}
use anotherps4_emulator.Common.Result.{ok, err}
use anotherps4_emulator.Common.Reader.{
  Bytes, ByteOrder, IsLittleEndian, little_endian, read_le, read_exact,
}
use anotherps4_emulator.Common.Reader.RoundTrip.{put_le}
use anotherps4_emulator.Loader.Elf.{parse, read_self}
use anotherps4_emulator.Loader.Elf.Types.{
  Elf, ElfHeader, ElfType, ProgramHeader, ProgramType, SelfHeader, SelfSegmentHeader, ElfError,
  elf_magic, self_magic, elf_type_of, program_type_of,
}
use anotherps4_emulator.Loader.Elf.Tables.{DynamicEntry}
use anotherps4_emulator.Loader.Elf.Read.{
  read_ident, read_elf_header, read_program_header, read_program_headers,
}
use anotherps4_emulator.Loader.Elf.RoundTrip.{
  FitsHeader, FitsProgramHeader, put_elf_header, put_program_headers, put_program_header, put_ident,
}
use anotherps4_emulator.Loader.Elf.SelfFile.{
  FitsSelfHeader, FitsSelfSegment, put_self_header, put_self_segments, read_self-put,
}
use anotherps4_emulator.Loader.Elf.Parse.{IsSupported, parse-IsSupported}
use anotherps4_emulator.Loader.Elf.Written.{FitsDynamic, put_elf, parse-put_elf}

abbrev order : ByteOrder
order = record { read = little_endian }

order-IsLittleEndian : IsLittleEndian order
order-IsLittleEndian = record { reads = λ n bytes. refl }

abbrev ident_bytes : Bytes
ident_bytes = 0 ∷ 0 ∷ 0 ∷ 0 ∷ 0 ∷ 0 ∷ 0 ∷ []

abbrev header : ElfHeader
header = record {
  ident = record {
    magic = elf_magic;
    class_byte = 2;
    data_byte = 1;
    version = 1;
    os_abi = 9;
    abi_version = 0;
    padding = ident_bytes;
  };
  elf_type = ElfType.sce_dyn_exec;
  machine = 62;
  version = 1;
  entry = 0x40;
  phoff = 64;
  shoff = 0;
  flags = 0;
  ehsize = 64;
  phentsize = 56;
  phnum = 1;
  shentsize = 0;
  shnum = 0;
  shstrndx = 0;
}

header-Fits : FitsHeader header
unfolding elf_type_of
header-Fits = record {
  ident = record {
    magic = refl;
    class_byte = refl;
    data_byte = refl;
    version = omega arith;
    os_abi = omega arith;
    abi_version = omega arith;
    padding = refl;
  };
  named = refl;
  elf_type = omega arith;
  machine = refl;
  version = omega arith;
  entry = omega arith;
  phoff = omega arith;
  shoff = omega arith;
  flags = omega arith;
  ehsize = omega arith;
  phentsize = omega arith;
  phnum = omega arith;
  shentsize = omega arith;
  shnum = omega arith;
  shstrndx = omega arith;
}

abbrev segment : ProgramHeader
segment = record {
  phdr_type = ProgramType.load;
  flags = 5;
  offset = 120;
  vaddr = 0x1000;
  paddr = 0x1000;
  filesz = 3;
  memsz = 0x100;
  align = 0x1000;
}

segment-Fits : FitsProgramHeader segment
unfolding program_type_of
segment-Fits = record {
  named = refl;
  phdr_type = omega arith;
  flags = omega arith;
  offset = omega arith;
  vaddr = omega arith;
  paddr = omega arith;
  filesz = omega arith;
  memsz = omega arith;
  align = omega arith;
}

abbrev code : Bytes
code = 1 ∷ 2 ∷ 3 ∷ []

abbrev segments : List ProgramHeader
segments = segment ∷ []

parse-put_elf_example :
    (elf : Elf) × (parse order (put_elf header segments code) ≡ ok elf)
    × (elf.header ≡ header)
    × (elf.program_headers ≡ segments)
    × (elf.is_self ≡ false)
    × (elf.raw_data ≡ put_elf header segments code)
parse-put_elf_example =
    parse-put_elf order header segments code order-IsLittleEndian header-Fits refl refl
      (segment-Fits, tt) (omega arith, tt)

abbrev loaded : Elf
loaded = record {
  is_self = false;
  self_header = none;
  self_segments = [];
  header = header;
  program_headers = segments;
  dynamic_entries = [];
  dynlib_data = [];
  raw_data = put_elf header segments code;
}

parse_run : parse order (put_elf header segments code) ≡ ok loaded
unfolding parse read_self read_elf_header read_ident read_program_headers read_program_header
    read_le read_exact put_elf_header put_ident put_program_headers put_program_header put_le
    elf_type_of program_type_of
parse_run = refl

parse-IsSupported_example :
    IsSupported header
    × (length segments ≡ 1)
    × (put_elf header segments code ≡ put_elf header segments code)
parse-IsSupported_example = parse-IsSupported order (put_elf header segments code) loaded parse_run

-- A file for 32 bits is refused.
parse_refuses :
    parse order (put_elf (record header { ident = record header.ident { class_byte = 1 } }) [] [])
    ≡ err (ElfError.not_64_bit 1)
unfolding parse read_self read_elf_header read_ident read_le read_exact put_elf_header put_ident
    put_program_headers put_le
parse_refuses = refl

abbrev self_header : SelfHeader
self_header = record {
  magic = self_magic;
  version = 0;
  mode = 1;
  endian = 1;
  attributes = 0x12;
  category = 1;
  program_type = 1;
  padding1 = 0;
  header_size = 64;
  meta_size = 0;
  file_size = 0x200;
  padding2 = 0;
  segment_count = 2;
  unknown_1a = 0x22;
  padding3 = 0;
}

self_header-Fits : FitsSelfHeader self_header
self_header-Fits = record {
  magic = refl;
  version = omega arith;
  mode = omega arith;
  endian = omega arith;
  attributes = omega arith;
  category = omega arith;
  program_type = omega arith;
  padding1 = omega arith;
  header_size = omega arith;
  meta_size = omega arith;
  file_size = omega arith;
  padding2 = omega arith;
  segment_count = omega arith;
  unknown_1a = omega arith;
  padding3 = omega arith;
}

-- A segment of digests, which is not blocked, and the segment of the program header 0.
abbrev digests : SelfSegmentHeader
digests = record { flags = 4; file_offset = 0x80; file_size = 16; memory_size = 16 }

abbrev blocked : SelfSegmentHeader
blocked = record { flags = 0x800; file_offset = 0x100; file_size = 3; memory_size = 3 }

abbrev self_segments : List SelfSegmentHeader
self_segments = digests ∷ blocked ∷ []

self_segments-Fit : All FitsSelfSegment self_segments
self_segments-Fit = (
  record {
    flags = omega arith;
    file_offset = omega arith;
    file_size = omega arith;
    memory_size = omega arith;
  },
  (
    record {
      flags = omega arith;
      file_offset = omega arith;
      file_size = omega arith;
      memory_size = omega arith;
    },
    tt,
  ),
)

read_self-put_example :
    read_self order (put_self_header self_header (put_self_segments self_segments code))
    ≡ ok (some self_header, self_segments, code)
read_self-put_example =
    read_self-put order order-IsLittleEndian self_header self_segments code self_header-Fits refl
      self_segments-Fit

abbrev dynamic_entries : List DynamicEntry
dynamic_entries = record { tag = pos 12; value = 0x500 } ∷ record { tag = negsuc 0; value = 7 } ∷ []

dynamic_entries-Fit : All FitsDynamic dynamic_entries
dynamic_entries-Fit = (
  record { named = refl; tag = omega arith; nonzero = ground arith; value = omega arith },
  (record { named = refl; tag = omega arith; nonzero = ground arith; value = omega arith }, tt),
)
