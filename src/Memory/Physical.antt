-- ===== src/Memory/Physical.antt =====
-- crates/core/src/memory/physical_memory.rs: the direct-memory allocator. `areas` is the `BTreeMap`
-- from base address to area; a panic of `merge_adjacent` is the result `none`.
pub mod Tiles
pub mod Allocate
pub mod Refine
pub mod Merge
pub mod Free
use anotherps4_emulator.Common.{
  ℕ, max, List, [], ◌∷◌, Option, none, some, Bool, true, false, ◌&&◌, ltb, leb, ◌==◌, if◌then◌else◌,
}
use anotherps4_emulator.Common.Int.{ℤ, pos, int_eq}
use anotherps4_emulator.Types.{PAddr, page_size, add64, sub64, align_up}
use anotherps4_emulator.Memory.Map.{Map, get, insert, remove, modify, keys}

pub data PhysicalMemoryType : Type 0 where
  free_memory allocated mapped pooled committed flexible : PhysicalMemoryType

-- The discriminant, by which the derived `==` compares.
abbrev pub discriminant : PhysicalMemoryType → ℕ
discriminant free_memory = 0
discriminant allocated = 1
discriminant mapped = 2
discriminant pooled = 3
discriminant committed = 4
discriminant flexible = 5

abbrev pub type_eq : PhysicalMemoryType → PhysicalMemoryType → Bool
type_eq a b = discriminant a == discriminant b

pub record PhysicalMemoryArea : Type 0 where
  pub base : PAddr
  pub size : ℕ
  pub memory_type : ℤ
  pub dma_type : PhysicalMemoryType

-- `PhysicalMemoryArea::end`
abbrev pub area_end : PhysicalMemoryArea → PAddr
area_end a = add64 a.base a.size

unfoldable pub can_merge_with : PhysicalMemoryArea → PhysicalMemoryArea → Bool
can_merge_with a next =
    (add64 a.base a.size == next.base)
    && int_eq a.memory_type next.memory_type
    && type_eq a.dma_type next.dma_type

abbrev pub Areas : Type 0
Areas = Map PhysicalMemoryArea

pub record PhysicalMemoryManager : Type 0 where
  pub areas : Areas
  pub total_size : ℕ

-- `PhysicalMemoryManager::new`
unfoldable pub new : ℕ → PhysicalMemoryManager
new total_size = record {
  areas =
      insert 0 (record { base = 0; size = total_size; memory_type = pos 0; dma_type = free_memory })
        [];
  total_size = total_size;
}

-- The address that `allocate` tries in an area.
abbrev pub candidate : PhysicalMemoryArea → PAddr → ℕ → PAddr
candidate area search_start alignment = align_up (max area.base search_start) alignment

-- The tests that `allocate` makes on an area.
abbrev pub fits : PhysicalMemoryArea → PAddr → PAddr → ℕ → ℕ → Bool
fits area search_start search_end size alignment =
    let aligned_base = candidate area search_start alignment in
    let end = add64 aligned_base size in
    type_eq area.dma_type free_memory
    && leb area.base aligned_base
    && leb end (area_end area)
    && leb end search_end

-- The search loop of `allocate`: the address in the first area that fits.
unfoldable pub first_fit : Areas → PAddr → PAddr → ℕ → ℕ → Option PAddr
first_fit [] search_start search_end size alignment = none
first_fit ((_, area) ∷ rest) search_start search_end size alignment =
    if fits area search_start search_end size alignment
    then some (candidate area search_start alignment)
    else first_fit rest search_start search_end size alignment

-- The key of the first area that contains the address.
unfoldable pub containing : Areas → PAddr → Option PAddr
containing [] addr = none
containing ((base, area) ∷ rest) addr =
    if leb base addr && ltb addr (area_end area) then some base else containing rest addr

-- What `carve_area` puts back for the area that it has removed.
abbrev pub put_back : PhysicalMemoryArea → Areas → PAddr → ℕ → Areas
put_back area areas addr size =
    let before =
      if ltb area.base addr
      then insert area.base (record area { size = sub64 addr area.base }) areas
      else areas in
    let carved = insert addr (record area { base = addr; size = size }) before in
    let end = add64 addr size in
    if ltb end (area_end area)
    then insert end (record area { base = end; size = sub64 (area_end area) end }) carved
    else carved

-- `carve_area`; the `unwrap` of the code meets a key that `containing` has just found.
unfoldable pub carve_area : Areas → PAddr → ℕ → Areas
carve_area areas addr size = elim (containing areas addr) [
  | none ↦ areas
  | some containing_addr ↦ elim (get containing_addr areas) [
    | none ↦ areas
    | some area ↦ put_back area (remove containing_addr areas) addr size
  ]
]

abbrev pub mark : PhysicalMemoryType → PhysicalMemoryArea → PhysicalMemoryArea
mark t area = record area { dma_type = t }

unfoldable pub allocate :
    PhysicalMemoryManager → PAddr → PAddr → ℕ → ℕ → PhysicalMemoryManager × Option PAddr
allocate self search_start search_end size requested_alignment =
    let alignment = max requested_alignment page_size in
    elim (first_fit self.areas search_start search_end size alignment) [
      | none ↦ (self, none)
      | some addr ↦ (
        record self { areas = modify addr (mark allocated) (carve_area self.areas addr size) },
        some addr,
      )
    ]

-- The body of the loop of `merge_adjacent` at one pair of keys; `none` is the panic of the index
-- `self.areas[&key]` on a key that is gone.
unfoldable pub merge_pair : PAddr → PAddr → Areas → Option Areas
merge_pair current_key next_key areas = elim (get current_key areas) [
  | none ↦ none
  | some current ↦ elim (get next_key areas) [
    | none ↦ none
    | some next ↦ some (
        if can_merge_with current next
        then modify current_key (λ a. record a { size = add64 a.size next.size })
            (remove next_key areas)
        else areas)
  ]
]

-- The loop over the keys that were collected before it.
unfoldable pub merge_keys : List PAddr → Areas → Option Areas
merge_keys [] areas = some areas
merge_keys (last ∷ []) areas = some areas
merge_keys (current_key ∷ next_key ∷ rest) areas = elim (merge_pair current_key next_key areas) [
  | none ↦ none
  | some areas' ↦ merge_keys (next_key ∷ rest) areas'
]

unfoldable pub merge_adjacent : Areas → Option Areas
merge_adjacent areas = merge_keys (keys areas) areas

-- `PhysicalMemoryManager::free`; `none` is a panic.
unfoldable pub free : PhysicalMemoryManager → PAddr → ℕ → Option (PhysicalMemoryManager × Bool)
free self addr size = elim (get addr self.areas) [
  | none ↦ some (self, false)
  | some area ↦
      if area.size == size
      then elim (merge_adjacent (modify addr (mark free_memory) self.areas)) [
        | none ↦ none
        | some areas' ↦ some (record self { areas = areas' }, true)
      ]
      else some (self, false)
]
