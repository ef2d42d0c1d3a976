-- ===== src/Hle/Bytes/Words.antt =====
-- What stands in memory after the writes of crates/core/src/hle and crates/core/src/linker: the value that was
-- stored, the slice that was copied, and all other bytes as they were.
use anotherps4_emulator.Common.{
  ℕ, zero, suc, ◌+◌, ◌/◌, ◌%◌, ◌^◌, ◌≤◌, ◌<◌, ◌≡◌, refl, ◌∙◌, ◌⊎◌, inl, List, [], ◌∷◌, some, length,
  get_elem?, arith,
}
use anotherps4_emulator.Hle.Bytes.{Bytes, write, store, fetch, copy}

-- An address outside of `size` bytes.
abbrev pub Outside : ℕ → ℕ → ℕ → Type 0
Outside at address size = (at < address) ⊎ (address + size ≤ at)

pub store-Outside :
    (n address value : ℕ) (bytes : Bytes) (at : ℕ)
    → Outside at address n
    → store n address value bytes at ≡ bytes at
unfolding store
store-Outside zero address value bytes at h = refl
store-Outside (suc n) address value bytes at h =
    let later : Outside at (address + 1) n = ground arith in
    let ih =
      store-Outside n (address + 1) (value / 256) (write bytes address (value % 256)) at later in
    let other : write bytes address (value % 256) at ≡ bytes at = ground arith in ih ∙ other

pub fetch-store :
    (n address value : ℕ) (bytes : Bytes)
    → value < 256 ^ n
    → fetch n address (store n address value bytes) ≡ value
unfolding fetch store
fetch-store zero address value bytes h = omega arith
fetch-store (suc n) address value bytes h =
    let bytes' : Bytes = write bytes address (value % 256) in
    let ih = fetch-store n (address + 1) (value / 256) bytes' (omega arith) in
    let first = store-Outside n (address + 1) (value / 256) bytes' address (inl (omega arith)) in
    let here : bytes' address ≡ value % 256 = ground arith in rw (ih, first) (omega (arith, here))

pub copy-Outside :
    (data_bytes : List ℕ) (address : ℕ) (bytes : Bytes) (at : ℕ)
    → Outside at address (length data_bytes)
    → copy data_bytes address bytes at ≡ bytes at
unfolding copy
copy-Outside [] address bytes at h = refl
copy-Outside (b ∷ data_bytes) address bytes at h =
    let later : Outside at (address + 1) (length data_bytes) = ground arith in
    let ih = copy-Outside data_bytes (address + 1) (write bytes address b) at later in
    let other : write bytes address b at ≡ bytes at = ground arith in ih ∙ other

pub copy-get_elem? :
    (data_bytes : List ℕ) (address : ℕ) (bytes : Bytes) (k : ℕ)
    → k < length data_bytes
    → get_elem? data_bytes k ≡ some (copy data_bytes address bytes (address + k))
unfolding copy
copy-get_elem? [] address bytes k h = absurd (omega arith)
copy-get_elem? (b ∷ data_bytes) address bytes zero h =
    let outside =
      copy-Outside data_bytes (address + 1) (write bytes address b) (address + 0)
        (inl (omega arith)) in
    let here : write bytes address b (address + 0) ≡ b = ground arith in rw (outside, here) refl
copy-get_elem? (b ∷ data_bytes) address bytes (suc k) h =
    let ih = copy-get_elem? data_bytes (address + 1) (write bytes address b) k (omega arith) in
    let e : address + suc k ≡ address + 1 + k = omega arith in rw (e) ih

-- A value stands as long as its bytes do.
pub fetch-cong :
    (n address : ℕ) (bytes bytes' : Bytes)
    → ((at : ℕ) → address ≤ at → at < address + n → bytes at ≡ bytes' at)
    → fetch n address bytes ≡ fetch n address bytes'
unfolding fetch
fetch-cong zero address bytes bytes' h = refl
fetch-cong (suc n) address bytes bytes' h =
    let first = h address (omega arith) (omega arith) in
    let later =
      fetch-cong n (address + 1) bytes bytes' (λ at l u. h at (omega arith) (omega arith)) in
    rw (first, later) refl
