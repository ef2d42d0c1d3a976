-- ===== src/Linker/Inside.antt =====
-- Where `Module::load` (crates/core/src/linker/module.rs) writes: inside of the region that it has mapped.
use anotherps4_emulator.Common.{
  ℕ, ◌+◌, ◌-◌, ◌^◌, ◌≤◌, ◌<◌, ◌≡◌, ◌∙◌, inl, inr, min, max, List, [], ◌∷◌, Option, none, some, true,
  ◌&&◌, ltb, leb, length, take, drop, length-take, length-drop, All, arith, Bool-cases,
}
use anotherps4_emulator.Common.Result.{ok, Result-cases}
use anotherps4_emulator.Types.{VAddr, add64, sub64, page_size}
use anotherps4_emulator.Types.Align.{align_up_page}
use anotherps4_emulator.Hle.Bytes
use anotherps4_emulator.Hle.Bytes.{copy}
use anotherps4_emulator.Hle.Bytes.Words.{Outside, copy-Outside}
use anotherps4_emulator.Loader.Elf.Queries.{filter_headers, load_segments, resolve_file_offset}
use anotherps4_emulator.Loader.Elf.Types.{Elf, ProgramHeader, is_load}
use anotherps4_emulator.Linker.Module.{
  LoadState, Module, lowest, highest, slice, copy_segment, copy_segments,
}
use anotherps4_emulator.Linker.Load.{module_size, span, load, load_elf, fill, module_of}
use anotherps4_emulator.Common.Reader.{ByteOrder}
use anotherps4_emulator.Memory.AddressSpace.{Libc}
use anotherps4_emulator.Loader.Symbols.{Str}
use Prim.Native.String.{String}

-- A segment whose range does not wrap and which is not larger in the file than in memory.
abbrev pub IsSane : ProgramHeader → Type 0
IsSane ph = (ph.vaddr + ph.memsz < 2 ^ 64) × (ph.filesz ≤ ph.memsz)

-- A segment within a range of addresses.
abbrev Within : ℕ → ℕ → ProgramHeader → Type 0
Within low high ph = (low ≤ ph.vaddr) × (ph.vaddr + ph.memsz ≤ high) × (ph.filesz ≤ ph.memsz)

lowest_le : (phs : List ProgramHeader) (m : ℕ) → lowest phs m ≤ m
unfolding lowest
lowest_le [] m = omega arith
lowest_le (ph ∷ phs) m = omega (arith, lowest_le phs (min m ph.vaddr))

highest_le : (phs : List ProgramHeader) (m : ℕ) → m ≤ highest phs m
unfolding highest
highest_le [] m = omega arith
highest_le (ph ∷ phs) m = omega (arith, highest_le phs (max m (add64 ph.vaddr ph.memsz)))

Within-all :
    (phs : List ProgramHeader) (low high : ℕ)
    → All IsSane phs
    → All (Within (lowest phs low) (highest phs high)) phs
unfolding lowest highest
Within-all [] low high h = tt
Within-all (ph ∷ phs) low high h =
    let end : add64 ph.vaddr ph.memsz ≡ ph.vaddr + ph.memsz = ground (arith, h.0) in
    let l = lowest_le phs (min low ph.vaddr) in
    let u = highest_le phs (max high (add64 ph.vaddr ph.memsz)) in
    (
      (omega (arith, l), omega (arith, u, end), h.0.1),
      Within-all phs (min low ph.vaddr) (max high (add64 ph.vaddr ph.memsz)) h.1,
    )

-- The headers that are loaded are within; the others are not looked at.
abbrev LoadWithin : ℕ → ℕ → ProgramHeader → Type 0
LoadWithin low high ph = is_load ph ≡ true → Within low high ph

LoadWithin-all :
    (phs : List ProgramHeader) (low high : ℕ)
    → All (Within low high) (filter_headers is_load phs)
    → All (LoadWithin low high) phs
LoadWithin-all [] low high h = tt
LoadWithin-all (ph ∷ phs) low high h = elim (Bool-cases (is_load ph)) [
  | inl yes_load ↦
      let h' : Within low high ph × All (Within low high) (filter_headers is_load phs) =
        rw (filter_headers, yes_load) at h in
      ((λ l. h'.0), LoadWithin-all phs low high h'.1)
  | inr not_load ↦
      let h' : All (Within low high) (filter_headers is_load phs) =
        rw (filter_headers, not_load) at h in
      ((λ l. absurd (ground arith)), LoadWithin-all phs low high h')
]

length-slice :
    (data_bytes part : List ℕ) (start end : ℕ)
    → slice data_bytes start end ≡ ok part
    → length part ≡ end - start
unfolding slice
length-slice data_bytes part start end e =
    let p : part ≡ take (end - start) (drop start data_bytes) = ground arith in
    rw (p) (
      ground
        (arith, length-take (end - start) (drop start data_bytes), length-drop start data_bytes))

copy_segment-Outside :
    (elf : Elf) (base low high idx : ℕ) (ph : ProgramHeader) (bytes bytes' : Bytes.Bytes) (at : ℕ)
    → LoadWithin low high ph
    → base + high < 2 ^ 64
    → Outside at base (high - low)
    → copy_segment elf base low idx ph bytes ≡ ok bytes'
    → bytes' at ≡ bytes at
unfolding copy_segment
copy_segment-Outside elf base low high idx ph bytes bytes' at w room h e =
    elim (Bool-cases (is_load ph)) [
      | inr not_load ↦
          let e' : ok bytes ≡ ok bytes' = rw (copy_segment, not_load) at e in ground arith
      | inl yes_load ↦
          let inside = w yes_load in
          let start : ℕ = resolve_file_offset elf idx ph in
          let dest : sub64 (add64 base ph.vaddr) low ≡ base + ph.vaddr - low =
            ground (arith, inside) in
          elim (Bool-cases (ltb 0 ph.filesz && leb (add64 start ph.filesz) (length elf.raw_data))) [
            | inr skipped ↦
                let e' : ok bytes ≡ ok bytes' = rw (copy_segment, yes_load, skipped) at e in
                ground arith
            | inl copied ↦ elim (Result-cases (slice elf.raw_data start (add64 start ph.filesz))) [
              | inr (x, failed) ↦ absurd (ground arith)
              | inl (src, taken) ↦
                  let size = length-slice elf.raw_data src start (add64 start ph.filesz) taken in
                  let e' : copy src (sub64 (add64 base ph.vaddr) low) bytes ≡ bytes' =
                    ground arith in
                  let outside : Outside at (sub64 (add64 base ph.vaddr) low) (length src) =
                    ground (arith, h, inside, dest, size) in
                  rw (← e') (copy-Outside src (sub64 (add64 base ph.vaddr) low) bytes at outside)
            ]
          ]
    ]

copy_segments-Outside :
    (elf : Elf) (base low high idx : ℕ) (phs : List ProgramHeader) (bytes bytes' : Bytes.Bytes)
    (at : ℕ)
    → All (LoadWithin low high) phs
    → base + high < 2 ^ 64
    → Outside at base (high - low)
    → copy_segments elf base low idx phs bytes ≡ ok bytes'
    → bytes' at ≡ bytes at
unfolding copy_segments
copy_segments-Outside elf base low high idx [] bytes bytes' at w room h e = ground arith
copy_segments-Outside elf base low high idx (ph ∷ phs) bytes bytes' at w room h e =
    elim (Result-cases (copy_segment elf base low idx ph bytes)) [
      | inr (x, failed) ↦ absurd (ground arith)
      | inl (mid, copied) ↦
          copy_segments-Outside elf base low high (idx + 1) phs mid bytes' at w.1 room h
            (rw (copy_segments, copied) at e)
          ∙ copy_segment-Outside elf base low high idx ph bytes mid at w.0 room h copied
    ]

copy_segments_inside :
    (elf : Elf) (base : VAddr) (bytes bytes' : Bytes.Bytes) (at : ℕ)
    → All IsSane (load_segments elf)
    → base + highest (load_segments elf) 0 < 2 ^ 64
    → span elf + page_size ≤ 2 ^ 64
    → Outside at base (module_size elf)
    → copy_segments elf base (lowest (load_segments elf) (2 ^ 64 - 1)) 0 elf.program_headers bytes
      ≡ ok bytes'
    → bytes' at ≡ bytes at
unfolding load_segments
copy_segments_inside elf base bytes bytes' at sane room fits out e =
    let phs : List ProgramHeader = load_segments elf in
    let low : ℕ = lowest phs (2 ^ 64 - 1) in
    let high : ℕ = highest phs 0 in
    let within = LoadWithin-all elf.program_headers low high (Within-all phs (2 ^ 64 - 1) 0 sane) in
    let round : span elf ≤ module_size elf = (align_up_page (span elf) fits).0 in
    let exact : high - low ≤ span elf = ground (arith, room, lowest_le phs (2 ^ 64 - 1)) in
    let out' : Outside at base (high - low) = ground (arith, out, round, exact) in
    copy_segments-Outside elf base low high 0 elf.program_headers bytes bytes' at within room out' e

module _ (libc : Libc) (order : ByteOrder) (label : Str → String) where
  load-copies :
      (name : Str) (file : Option (List ℕ)) (s s' : LoadState) (m : Module)
      → load libc order label name file s ≡ (s', ok m)
      → (copy_segments m.elf m.base_virtual_addr
            (lowest (load_segments m.elf) (2 ^ 64 - 1))
            0
            m.elf.program_headers
            s.bytes
          ≡ ok s'.bytes)
        × (m.aligned_base_size ≡ module_size m.elf)
  unfolding load load_elf fill module_of
  load-copies name none s s' m e = absurd (ground arith)
  load-copies name (some file) s s' m e = ground arith

  -- When load returns a module, whose segments do not wrap and are not larger in the file than in
  -- memory, and its addresses and its size rounded up stay below 2 ^ 64: no byte of memory outside of
  -- the region that it has mapped is changed.
  pub load_inside :
      (name : Str) (file : Option (List ℕ)) (s s' : LoadState) (m : Module) (at : ℕ)
      → load libc order label name file s ≡ (s', ok m)
      → All IsSane (load_segments m.elf)
      → m.base_virtual_addr + highest (load_segments m.elf) 0 < 2 ^ 64
      → span m.elf + page_size ≤ 2 ^ 64
      → Outside at m.base_virtual_addr m.aligned_base_size
      → s'.bytes at ≡ s.bytes at
  load_inside name file s s' m at e sane room fits out =
      let (copied, size) = load-copies name file s s' m e in
      copy_segments_inside m.elf m.base_virtual_addr s.bytes s'.bytes at sane room fits
        (rw (← size) out) copied
