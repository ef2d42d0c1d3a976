-- ===== src/Loader/Nids/Found.antt =====
-- What `lookup_known_nid` (crates/core/src/loader/symbols.rs) finds: each row of its table, with or without a suffix.
use anotherps4_emulator.Common.{
  ℕ, zero, suc, ◌≡◌, ◌≢◌, refl, ◌∙◌, ap, [], ◌∷◌, ◌++◌, Option, none, some, Bool, true, false, ◌&&◌,
  get_elem?, All, arith, Option-cases, inl, inr,
}
use anotherps4_emulator.Common.Text.{Str, str_eq, str_eq_lem}
use anotherps4_emulator.Loader.Nids.{Table, before_hash, find_nid, known_nids, lookup_known_nid}

pub before_hash_self : (nid : Str) → All (λ (c : ℕ). c ≢ 35) nid → before_hash nid ≡ nid
unfolding before_hash
before_hash_self [] h = refl
before_hash_self (c ∷ nid) h = ground (arith, before_hash_self nid, h)

pub before_hash-append :
    (nid suffix : Str)
    → All (λ (c : ℕ). c ≢ 35) nid
    → before_hash (nid ++ 35 ∷ suffix) ≡ before_hash nid
unfolding before_hash
before_hash-append [] suffix h = refl
before_hash-append (c ∷ nid) suffix h = ground (arith, before_hash-append nid suffix, h)

abbrev finds : Option Str → Str → Bool
finds none name = false
finds (some found) name = str_eq found name

abbrev all_found : Table → Bool
all_found [] = true
all_found ((nid, name) ∷ rows) = finds (lookup_known_nid nid) name && all_found rows

all_found_known : all_found known_nids ≡ true
unfolding lookup_known_nid find_nid before_hash
all_found_known = refl

all_found-get_elem? :
    (rows : Table) (i : ℕ) (nid name : Str)
    → all_found rows ≡ true
    → get_elem? rows i ≡ some (nid, name)
    → lookup_known_nid nid ≡ some name
all_found-get_elem? [] i nid name h e = absurd (ground arith)
all_found-get_elem? ((n, m) ∷ rows) zero nid name h e =
    let first : (n ≡ nid) × (m ≡ name) = ground arith in
    elim (Option-cases (lookup_known_nid n)) [
      | inl missing ↦ let h' : false ≡ true = rw (missing) at h in absurd (ground arith)
      | inr (found, there) ↦
          let same : str_eq found m ≡ true = ground arith in
          rw (← first.0, ← first.1, ← str_eq_lem found m same) there
    ]
all_found-get_elem? ((n, m) ∷ rows) (suc i) nid name h e =
    let later : all_found rows ≡ true = ground arith in all_found-get_elem? rows i nid name later e

-- Each row of the table is found by its key, alone or with a suffix behind `#`, when the key has no `#` itself.
pub lookup_known_nid_lem :
    (i : ℕ) (nid name suffix : Str)
    → get_elem? known_nids i ≡ some (nid, name)
    → All (λ (c : ℕ). c ≢ 35) nid
    → (lookup_known_nid nid ≡ some name) × (lookup_known_nid (nid ++ 35 ∷ suffix) ≡ some name)
unfolding lookup_known_nid
lookup_known_nid_lem i nid name suffix e h =
    let found = all_found-get_elem? known_nids i nid name all_found_known e in
    (found, ap (find_nid known_nids) (before_hash-append nid suffix h) ∙ found)
