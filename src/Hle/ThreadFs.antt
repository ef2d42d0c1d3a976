-- ===== src/Hle/ThreadFs.antt =====
-- crates/core/src/hle/dispatcher.rs: the table of the host's FS bases of the threads. The thread number that the host
-- gives is an argument.
use anotherps4_emulator.Common.{
  ℕ, ◌≡◌, ◌≢◌, List, [], ◌∷◌, Bool, true, false, ◌||◌, ◌==◌, replicate, arith, Bool-cases, inl, inr,
  if◌then◌else◌,
}

abbrev pub FsMap : Type 0
FsMap = List (ℕ × ℕ)

-- `THREAD_FS_MAP`
unfoldable pub thread_fs_map : FsMap
thread_fs_map = replicate 64 (0, 0)

-- The loop writes the first entry that is free or the thread's own.
unfoldable pub register_thread_fs : ℕ → ℕ → FsMap → FsMap
register_thread_fs tid fs_base [] = []
register_thread_fs tid fs_base ((t, fs) ∷ entries) =
    if t == 0 || t == tid
    then (tid, fs_base) ∷ entries
    else (t, fs) ∷ register_thread_fs tid fs_base entries

unfoldable pub get_thread_fs : ℕ → FsMap → ℕ
get_thread_fs tid [] = 0
get_thread_fs tid ((t, fs) ∷ entries) = if t == tid then fs else get_thread_fs tid entries

-- Whether a thread can be entered.
abbrev pub has_room : ℕ → FsMap → Bool
has_room tid [] = false
has_room tid ((t, fs) ∷ entries) = t == 0 || t == tid || has_room tid entries

-- While an entry is free or the thread's own, the FS base of a thread is found as it was registered, and those of
-- all other threads are as they were.
pub register_thread_fs_lem :
    (tid fs_base other : ℕ) (entries : FsMap)
    → has_room tid entries ≡ true
    → other ≢ 0
    → (get_thread_fs tid (register_thread_fs tid fs_base entries) ≡ fs_base)
      × (other ≢ tid
          → get_thread_fs other (register_thread_fs tid fs_base entries)
            ≡ get_thread_fs other entries)
unfolding register_thread_fs get_thread_fs
register_thread_fs_lem tid fs_base other [] h o = absurd (ground arith)
register_thread_fs_lem tid fs_base other ((t, fs) ∷ entries) h o =
    elim (Bool-cases (t == 0 || t == tid)) [
      | inl here ↦ rw (here) (ground arith, λ apart. ground arith)
      | inr later ↦
          let h' : has_room tid entries ≡ true = ground arith in
          let ih = register_thread_fs_lem tid fs_base other entries h' o in
          rw (later) (ground (arith, ih.0), λ apart. ground (arith, ih.1 apart))
    ]
