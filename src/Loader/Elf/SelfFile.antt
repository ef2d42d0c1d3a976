-- ===== src/Loader/Elf/SelfFile.antt =====
-- The SELF wrapper of crates/core/src/loader/elf.rs: its header and segments read back, and the offsets that they
-- lead to.
use anotherps4_emulator.Common.{
  ℕ, ◌^◌, ◌<◌, ◌≡◌, ◌≢◌, ◌⊎◌, refl, List, [], ◌∷◌, ◌++◌, some, true, false, ◌==◌, length, All,
  arith,
}
use anotherps4_emulator.Common.Result.{ok}
use anotherps4_emulator.Common.Reader.{Bytes, ByteOrder, IsLittleEndian}
use anotherps4_emulator.Common.Reader.RoundTrip.{put_le, read_le-put_le}
use anotherps4_emulator.Loader.Elf.{read_self, resolve_file_offset_internal, direct_match}
use anotherps4_emulator.Loader.Elf.Types.{
  SelfHeader, SelfSegmentHeader, ProgramHeader, self_magic, io, is_blocked, get_id,
}
use anotherps4_emulator.Loader.Elf.Read.{read_self_header, read_self_segment, read_self_segments}

-- A SELF header in its 32 bytes: the magic number, and the fields behind it.
unfoldable pub put_self_fields : SelfHeader → Bytes → Bytes
put_self_fields h rest = put_le 1 h.version (
    put_le 1 h.mode (
      put_le 1 h.endian (
        put_le 1 h.attributes (
          put_le 1 h.category (
            put_le 1 h.program_type (
              put_le 2 h.padding1 (
                put_le 2 h.header_size (
                  put_le 2 h.meta_size (
                    put_le 4 h.file_size (
                      put_le 4 h.padding2 (
                        put_le 2 h.segment_count
                          (put_le 2 h.unknown_1a (put_le 4 h.padding3 rest)))))))))))))

abbrev pub put_self_header : SelfHeader → Bytes → Bytes
put_self_header h rest = put_le 4 h.magic (put_self_fields h rest)

pub record FitsSelfHeader (h : SelfHeader) : Type 0 where
  pub magic : h.magic ≡ self_magic
  pub version : h.version < 256 ^ 1
  pub mode : h.mode < 256 ^ 1
  pub endian : h.endian < 256 ^ 1
  pub attributes : h.attributes < 256 ^ 1
  pub category : h.category < 256 ^ 1
  pub program_type : h.program_type < 256 ^ 1
  pub padding1 : h.padding1 < 256 ^ 2
  pub header_size : h.header_size < 256 ^ 2
  pub meta_size : h.meta_size < 256 ^ 2
  pub file_size : h.file_size < 256 ^ 4
  pub padding2 : h.padding2 < 256 ^ 4
  pub segment_count : h.segment_count < 256 ^ 2
  pub unknown_1a : h.unknown_1a < 256 ^ 2
  pub padding3 : h.padding3 < 256 ^ 4

-- The segment headers, each in its 32 bytes.
unfoldable pub put_self_segments : List SelfSegmentHeader → Bytes → Bytes
put_self_segments [] rest = rest
put_self_segments (s ∷ segments) rest = put_le 8 s.flags (
    put_le 8 s.file_offset
      (put_le 8 s.file_size (put_le 8 s.memory_size (put_self_segments segments rest))))

pub record FitsSelfSegment (s : SelfSegmentHeader) : Type 0 where
  pub flags : s.flags < 256 ^ 8
  pub file_offset : s.file_offset < 256 ^ 8
  pub file_size : s.file_size < 256 ^ 8
  pub memory_size : s.memory_size < 256 ^ 8

module _ (order : ByteOrder) (le : IsLittleEndian order) where
  read_self_header-put :
      (h : SelfHeader) (rest : Bytes)
      → FitsSelfHeader h
      → read_self_header order (put_self_header h rest) ≡ ok (h, rest)
  unfolding read_self_header put_self_fields
  read_self_header-put h rest f =
      let get = read_le-put_le io order le in
      rw
        (
          get 4 h.magic _ (omega (arith, f.magic)),
          get 1 h.version _ f.version,
          get 1 h.mode _ f.mode,
          get 1 h.endian _ f.endian,
          get 1 h.attributes _ f.attributes,
          get 1 h.category _ f.category,
          get 1 h.program_type _ f.program_type,
          get 2 h.padding1 _ f.padding1,
          get 2 h.header_size _ f.header_size,
          get 2 h.meta_size _ f.meta_size,
          get 4 h.file_size _ f.file_size,
          get 4 h.padding2 _ f.padding2,
          get 2 h.segment_count _ f.segment_count,
          get 2 h.unknown_1a _ f.unknown_1a,
          get 4 h.padding3 rest f.padding3,
        )
        refl

  read_self_segments-put :
      (segments : List SelfSegmentHeader) (rest : Bytes)
      → All FitsSelfSegment segments
      → read_self_segments order (length segments) (put_self_segments segments rest)
        ≡ ok (segments, rest)
  unfolding read_self_segments read_self_segment put_self_segments
  read_self_segments-put [] rest f = refl
  read_self_segments-put (s ∷ segments) rest f =
      let get = read_le-put_le io order le in
      let h = f.0 in
      rw
        (
          get 8 s.flags _ h.flags,
          get 8 s.file_offset _ h.file_offset,
          get 8 s.file_size _ h.file_size,
          get 8 s.memory_size _ h.memory_size,
          read_self_segments-put segments rest f.1,
        )
        refl

  -- Where the reads are little-endian: a SELF header and its segment headers, with fields that fit
  -- their widths, read back as they were written, and what is behind them is left.
  pub read_self-put :
      (h : SelfHeader) (segments : List SelfSegmentHeader) (rest : Bytes)
      → FitsSelfHeader h
      → h.segment_count ≡ length segments
      → All FitsSelfSegment segments
      → read_self order (put_self_header h (put_self_segments segments rest))
        ≡ ok (some h, segments, rest)
  unfolding read_self
  read_self-put h segments rest f count fs =
      let rest' : Bytes = put_self_segments segments rest in
      let small : h.magic < 256 ^ 4 = omega (arith, f.magic) in
      let is_self_magic : (h.magic == self_magic) ≡ true = ground (arith, f.magic) in
      rw
        (
          read_le-put_le io order le 4 h.magic (put_self_fields h rest') small,
          is_self_magic,
          read_self_header-put h rest' f,
          count,
          read_self_segments-put segments rest fs,
        )
        refl

direct_match_at :
    (before after : List SelfSegmentHeader) (seg : SelfSegmentHeader) (idx : ℕ)
    → All (λ (s : SelfSegmentHeader). (is_blocked s ≡ false) ⊎ (get_id s ≢ idx)) before
    → is_blocked seg ≡ true
    → get_id seg ≡ idx
    → direct_match (before ++ seg ∷ after) idx ≡ some seg.file_offset
unfolding direct_match
direct_match_at [] after seg idx a b e = ground arith
direct_match_at (s ∷ before) after seg idx a b e =
    ground (arith, direct_match_at before after seg idx a.1)

-- The first blocked segment with a header's index gives the header's offset in the file.
pub resolve_direct :
    (before after : List SelfSegmentHeader) (seg : SelfSegmentHeader) (phs : List ProgramHeader)
    (idx elf_off : ℕ) (ph : ProgramHeader)
    → All (λ (s : SelfSegmentHeader). (is_blocked s ≡ false) ⊎ (get_id s ≢ idx)) before
    → is_blocked seg ≡ true
    → get_id seg ≡ idx
    → resolve_file_offset_internal true (before ++ seg ∷ after) phs idx ph elf_off ≡ seg.file_offset
unfolding resolve_file_offset_internal
resolve_direct before after seg phs idx elf_off ph a b e =
    rw (direct_match_at before after seg idx a b e, resolve_file_offset_internal) refl
