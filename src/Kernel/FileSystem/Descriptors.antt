-- ===== src/Kernel/FileSystem/Descriptors.antt =====
-- File descriptors over their life (crates/core/src/kernel/filesystem.rs): they are fresh, distinct and at least
-- 3, and what is closed is gone.
use anotherps4_emulator.Common.{
  ℕ, ◌+◌, ◌≤◌, ◌<◌, ◌^◌, ◌≡◌, ◌≢◌, ◌⊎◌, inl, inr, refl, ◌∙◌, [], ◌∷◌, Option, none, some, true,
  arith, if◌then◌else◌, Bool-cases, Option-cases,
}
use anotherps4_emulator.Common.Int.{ℤ, pos, negsuc, int_eq}
use anotherps4_emulator.Kernel.Error.{enoent, ebadf}
use anotherps4_emulator.Kernel.FileSystem.{
  FileSystem, Files, File, Host, OpenFile, Str, find, remove, install, next, open_file, close, read,
  resolve_path, starts_with, dev_prefix,
}

-- Every descriptor of the table is a number from 3 up to below `bound`, and none stands there twice.
abbrev pub Listed : ℕ → Files → Type 0
Listed bound [] = Unit
Listed bound ((k, f) ∷ rest) =
    ((n : ℕ) × (k ≡ pos n) × (3 ≤ n) × (n < bound)) × (find rest k ≡ none) × Listed bound rest

-- The counter is a positive `i32`, and the table holds smaller numbers only.
abbrev pub IsSound : FileSystem → Type 0
IsSound self = (n : ℕ) × (self.next_fd ≡ pos n) × (3 ≤ n) × (n < 2 ^ 31) × Listed n self.open_files

int_eq_refl : (a : ℤ) → int_eq a a ≡ true
int_eq_refl (pos n) = ground arith
int_eq_refl (negsuc n) = ground arith

Listed-fresh : (bound : ℕ) (files : Files) → Listed bound files → find files (pos bound) ≡ none
Listed-fresh bound [] l = refl
Listed-fresh bound ((k, f) ∷ rest) l =
    let (n, e, _, lt) = l.0 in rw e (ground (arith, Listed-fresh bound rest l.2))

remove-none : (files : Files) (fd : ℤ) → find files fd ≡ none → remove files fd ≡ files
remove-none [] fd h = refl
remove-none ((k, f) ∷ rest) fd h = ground (arith, remove-none rest fd)

Listed-suc : (bound : ℕ) (files : Files) → Listed bound files → Listed (bound + 1) files
Listed-suc bound [] l = tt
Listed-suc bound ((k, f) ∷ rest) l =
    let (n, e, lo, lt) = l.0 in ((n, e, lo, omega arith), l.1, Listed-suc bound rest l.2)

-- What a successful `open` does: a descriptor that was not in use, from 3 up, now leads to a file at
-- position 0; every other descriptor leads where it led.
pub record Opens (self self' : FileSystem) (fd : ℤ) : Type 0 where
  pub number : ℕ
  pub is_number : fd ≡ pos number
  pub from_three : 3 ≤ number
  pub unused : find self.open_files fd ≡ none
  pub opened : OpenFile
  pub at_start : opened.position ≡ 0
  pub known :
      (other : ℤ)
      → find self'.open_files other
        ≡ (if int_eq fd other then some opened else find self.open_files other)
  pub sound : IsSound self'

install-Opens :
    (self : FileSystem) (f : OpenFile) (n : ℕ)
    → 3 ≤ n
    → n + 1 < 2 ^ 31
    → self.next_fd ≡ pos n
    → Listed n self.open_files
    → f.position ≡ 0
    → Opens self (install self f).0 (install self f).1
install-Opens self f n lo hi e l z =
    let fresh : find self.open_files self.next_fd ≡ none =
      rw e (Listed-fresh n self.open_files l) in
    let kept = remove-none self.open_files self.next_fd fresh in
    let after : next self.next_fd ≡ pos (n + 1) = rw e (ground arith) in
    record {
      number = n;
      is_number = e;
      from_three = lo;
      unused = fresh;
      opened = f;
      at_start = z;
      known = λ other. rw kept refl;
      sound = (
        n + 1,
        after,
        omega arith,
        hi,
        rw kept ((n, e, lo, omega arith), fresh, Listed-suc n self.open_files l),
      );
    }

int_eq_lem : (a b : ℤ) → int_eq a b ≡ true → a ≡ b
int_eq_lem a b h = ground arith

still_none :
    (files : Files) (fd other : ℤ) → find files other ≡ none → find (remove files fd) other ≡ none
still_none [] fd other h = refl
still_none ((k, f) ∷ rest) fd other h = ground (arith, still_none rest fd other)

Listed-remove :
    (bound : ℕ) (files : Files) (fd : ℤ) → Listed bound files → Listed bound (remove files fd)
Listed-remove bound [] fd l = tt
Listed-remove bound ((k, f) ∷ rest) fd l = elim (Bool-cases (int_eq k fd)) [
  | inl same ↦ rw same l.2
  | inr other ↦ rw other (l.0, still_none rest fd k l.1, Listed-remove bound rest fd l.2)
]

-- On a sound table with room for another descriptor, open either answers ENOENT and changes nothing,
-- or returns a descriptor of at least 3 that was not in use, at position 0, leaves every other
-- descriptor as it was and keeps the table sound.
pub open_file_lem :
    (host : Host) (self : FileSystem) (path : Str) (n : ℕ)
    → IsSound self
    → self.next_fd ≡ pos n
    → n + 1 < 2 ^ 31
    → (open_file host self path ≡ (self, enoent))
      ⊎ Opens self (open_file host self path).0 (open_file host self path).1
unfolding open_file
open_file_lem host self path n s e hi =
    let (m, e', lo, _, l') = s in
    let same : m ≡ n = ground arith in
    let l : Listed n self.open_files = rw (← same) l' in
    let lo' : 3 ≤ n = omega arith in
    elim (Option-cases (resolve_path host self path)) [
      | inl missing ↦ elim (Bool-cases (starts_with path dev_prefix)) [
        | inl device ↦
            inr (rw (missing, open_file, device) (install-Opens self _ n lo' hi e l refl))
        | inr unknown ↦ inl (rw (missing, open_file, unknown) refl)
      ]
      | inr (host_path, found) ↦ elim (Option-cases (host.file_open host_path)) [
        | inl refused ↦ inl (rw (found, open_file, refused) refl)
        | inr (file, granted) ↦
            inr (rw (found, open_file, granted) (install-Opens self _ n lo' hi e l refl))
      ]
    ]

find-remove :
    (bound : ℕ) (files : Files) (fd other : ℤ)
    → Listed bound files
    → find (remove files fd) other ≡ (if int_eq fd other then none else find files other)
find-remove bound [] fd other l = ground arith
find-remove bound ((k, f) ∷ rest) fd other l =
    let ih = find-remove bound rest fd other l.2 in
    elim (Bool-cases (int_eq k fd)) [
      | inl same ↦
          let e : k ≡ fd = int_eq_lem k fd same in
          let gone : find rest fd ≡ none = rw (← e) l.1 in rw (same, ← e) (ground (arith, l.1))
      | inr differ ↦ ground (arith, int_eq_lem k fd, int_eq_lem fd other, int_eq_lem k other)
    ]

-- On a sound table, closing a descriptor that is not in use answers EBADF and changes nothing; closing
-- one that is in use answers 0, removes it, leaves every other descriptor as it was and keeps the
-- table sound.
pub close_lem :
    (self : FileSystem) (fd : ℤ)
    → IsSound self
    → (find self.open_files fd ≡ none) × (close self fd ≡ (self, ebadf))
      ⊎ (find self.open_files fd ≢ none)
        × ((close self fd).1 ≡ pos 0)
        × IsSound (close self fd).0
        × ((other : ℤ)
            → find (close self fd).0.open_files other
              ≡ (if int_eq fd other then none else find self.open_files other))
unfolding close
close_lem self fd s = elim (Option-cases (find self.open_files fd)) [
  | inl unused ↦ inl (unused, rw (unused, close) refl)
  | inr (f, used) ↦
      let (n, e, lo, hi, l) = s in
      inr (
        λ h. ground arith,
        rw (used, close) refl,
        rw (used, close) (n, e, lo, hi, Listed-remove n self.open_files fd l),
        λ other. rw (used, close) (find-remove n self.open_files fd other l),
      )
]

-- Once a descriptor of a sound table has been closed, reading from it and closing it again answer
-- EBADF and change nothing.
pub close_ends :
    (self after : FileSystem) (fd : ℤ) (answer : File → Option ℕ)
    → IsSound self
    → close self fd ≡ (after, pos 0)
    → (read after fd answer ≡ (after, ebadf)) × (close after fd ≡ (after, ebadf))
unfolding close read
close_ends self after fd answer s h =
    let (n, _, _, _, l) = s in
    let gone : find after.open_files fd ≡ none = elim (Option-cases (find self.open_files fd)) [
      | inl unused ↦ let e : self ≡ after = ground arith in rw (← e) unused
      | inr (f, used) ↦
          let e : record self { open_files = remove self.open_files fd } ≡ after = ground arith in
          rw (← e) (find-remove n self.open_files fd fd l ∙ rw (int_eq_refl fd) refl)
    ] in
    (rw (gone, read) refl, rw (gone, close) refl)
