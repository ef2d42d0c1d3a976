-- ===== src/Kernel/Threading/Ids.antt =====
-- Thread numbers are never given out twice (crates/core/src/kernel/threading.rs).
use anotherps4_emulator.Common.{
  ℕ, ◌+◌, ◌<◌, ◌^◌, ◌≡◌, ◌≢◌, refl, List, [], ◌∷◌, ◌++◌, All, length, length-append, arith,
}
use anotherps4_emulator.Kernel.Threading.{
  ThreadManager, ThreadInfo, ThreadAttr, create_thread, sce_pthread_create,
}

abbrev Differs : ℕ → List ThreadInfo → Type 0
Differs id l = All (λ (t : ThreadInfo). t.id ≢ id) l

-- No two threads of the table have the same number.
abbrev pub Distinct : List ThreadInfo → Type 0
Distinct [] = Unit
Distinct (t ∷ l) = Differs t.id l × Distinct l

-- Every number that was given out lies below the next one.
pub record IsFresh (self : ThreadManager) : Type 0 where
  pub below : All (λ (t : ThreadInfo). t.id < self.next_id) self.threads
  pub distinct : Distinct self.threads

-- The numbers that a run of `create_thread` calls returns.
unfoldable pub create_all : List ThreadAttr → ThreadManager → ThreadManager
create_all [] self = self
create_all (attr ∷ attrs) self = create_all attrs (sce_pthread_create self attr).0

module _ (n : ℕ) where
  All-snoc :
      (l : List ThreadInfo) (t : ThreadInfo)
      → All (λ (u : ThreadInfo). u.id < n) l
      → t.id ≡ n
      → All (λ (u : ThreadInfo). u.id < n + 1) (l ++ t ∷ [])
  All-snoc [] t h e = omega arith
  All-snoc (u ∷ l) t h e = (omega arith, All-snoc l t h.1 e)

  Differs-snoc :
      (id : ℕ) (l : List ThreadInfo) (t : ThreadInfo)
      → Differs id l
      → id < n
      → t.id ≡ n
      → Differs id (l ++ t ∷ [])
  Differs-snoc id [] t d h e = omega arith
  Differs-snoc id (u ∷ l) t d h e = (d.0, Differs-snoc id l t d.1 h e)

  Distinct-snoc :
      (l : List ThreadInfo) (t : ThreadInfo)
      → All (λ (u : ThreadInfo). u.id < n) l
      → Distinct l
      → t.id ≡ n
      → Distinct (l ++ t ∷ [])
  Distinct-snoc [] t h d e = (tt, tt)
  Distinct-snoc (u ∷ l) t h d e = (Differs-snoc u.id l t d.0 h.0 e, Distinct-snoc l t h.1 d.1 e)

create_thread-IsFresh :
    (self : ThreadManager) (attr : ThreadAttr)
    → IsFresh self
    → self.next_id + 1 < 2 ^ 64
    → IsFresh (create_thread self attr).0 × ((create_thread self attr).0.next_id ≡ self.next_id + 1)
unfolding create_thread
create_thread-IsFresh self attr f room =
    let t : ThreadInfo = record { id = self.next_id; name = attr.name } in
    let e : (create_thread self attr).0.next_id ≡ self.next_id + 1 = omega arith in
    (
      record {
        below = rw e (All-snoc self.next_id self.threads t f.below refl);
        distinct = Distinct-snoc self.next_id self.threads t f.below f.distinct refl;
      },
      e,
    )

-- On a table of distinct numbers below the next one, and as long as the counter stays below 2 ^ 64:
-- any number of thread creations keeps the numbers distinct and below the next one, and adds one entry
-- for each.
pub create_all_distinct :
    (attrs : List ThreadAttr) (self : ThreadManager)
    → IsFresh self
    → self.next_id + length attrs < 2 ^ 64
    → IsFresh (create_all attrs self)
      × (length (create_all attrs self).threads ≡ length self.threads + length attrs)
unfolding create_all sce_pthread_create
create_all_distinct [] self f room = (f, omega arith)
create_all_distinct (attr ∷ attrs) self f room =
    let (f', e) = create_thread-IsFresh self attr f (omega arith) in
    let (g, n) = create_all_distinct attrs (create_thread self attr).0 f' (omega arith) in
    let l : length (create_thread self attr).0.threads ≡ length self.threads + 1 =
      unfold create_thread in length-append self.threads _ in
    (g, omega arith)
