-- ===== src/Linker/Terminates.antt =====
-- How much fuel `load_module` (crates/core/src/linker/mod.rs) needs: each module that it loads takes a file name of
-- the disk away, whatever the modules need of each other.
use anotherps4_emulator.Common.{
  ℕ, zero, suc, ◌+◌, ◌%◌, ◌^◌, ◌≤◌, ◌<◌, ◌≡◌, refl, ap, ◌⊎◌, inl, inr, List, [], ◌∷◌, ◌++◌, Option,
  none, some, Bool, true, false, ◌||◌, length, arith, Bool-cases, Option-cases,
}
use anotherps4_emulator.Common.Result.{Result, ok, err, Result-cases}
use anotherps4_emulator.Common.Reader.{ByteOrder}
use anotherps4_emulator.Memory.AddressSpace.{Libc}
use anotherps4_emulator.Loader.Symbols.{Str, str_eq}
use anotherps4_emulator.Common.Text.{str_eq_lem, str_eq_refl}
use anotherps4_emulator.Loader.Elf.Queries.{needed_modules}
use anotherps4_emulator.Linker.Module.{LoadError, LoadState, Module}
use anotherps4_emulator.Linker.Load.{load}
use anotherps4_emulator.Linker.Modules.{
  Host, Linker, Loaded, position, module_name, dependency_path, load_dependencies, load_module,
  go_on, is_panic, or_else,
}
use anotherps4_emulator.Linker.Names.{Extends}
use anotherps4_emulator.Linker.Loaded.{load_lem, load_module-Extends, pushed}
use Prim.Native.String.{String}

-- The names that no module has.
unfoldable pub unloaded : List Str → List Module → ℕ
unloaded [] modules = 0
unloaded (n ∷ names) modules =
    let rest = unloaded names modules in
    elim (position modules n) [ none ↦ suc rest | some _ ↦ rest ]

abbrev pub is_in : Str → List Str → Bool
is_in name [] = false
is_in name (n ∷ names) = str_eq n name || is_in name names

position-longer :
    (modules more : List Module) (name : Str) (i : ℕ)
    → position modules name ≡ some i
    → position (modules ++ more) name ≡ some i
unfolding position
position-longer [] more name i e = absurd (ground arith)
position-longer (m ∷ modules) more name i e = elim (Bool-cases (str_eq m.name name)) [
  | inl same ↦ rw (same) (rw (position, same) at e)
  | inr other ↦ elim (Option-cases (position modules name)) [
    | inl absent ↦ absurd (ground arith)
    | inr (j, there) ↦
        let later = position-longer modules more name j there in
        rw (other, later) (rw (position, other, there) at e)
  ]
]

unloaded_mono :
    (names : List Str) (modules more : List Module)
    → unloaded names (modules ++ more) ≤ unloaded names modules
unfolding unloaded
unloaded_mono [] modules more = omega arith
unloaded_mono (n ∷ names) modules more =
    let ih = unloaded_mono names modules more in
    elim (Option-cases (position modules n)) [
      | inr (i, there) ↦ rw (unloaded, there, position-longer modules more n i there) ih
      | inl absent ↦ elim (Option-cases (position (modules ++ more) n)) [
        | inl still ↦ rw (unloaded, absent, still) (omega (arith, ih))
        | inr (i, there) ↦ rw (unloaded, absent, there) (omega (arith, ih))
      ]
    ]

position-last :
    (modules : List Module) (m : Module) → (i : ℕ) × (position (modules ++ m ∷ []) m.name ≡ some i)
unfolding position
position-last [] m = (0, rw (str_eq_refl m.name) refl)
position-last (x ∷ modules) m = elim (Bool-cases (str_eq x.name m.name)) [
  | inl same ↦ (0, rw (same) refl)
  | inr other ↦ let (i, there) = position-last modules m in (i + 1, rw (other, there) refl)
]

-- A new module takes its name away.
unloaded-less :
    (names : List Str) (modules : List Module) (m : Module)
    → is_in m.name names ≡ true
    → position modules m.name ≡ none
    → unloaded names (modules ++ m ∷ []) < unloaded names modules
unfolding unloaded
unloaded-less [] modules m h absent = absurd (ground arith)
unloaded-less (n ∷ names) modules m h absent = elim (Bool-cases (str_eq n m.name)) [
  | inl same ↦
      let e : n ≡ m.name = str_eq_lem n m.name same in
      let (i, there) = position-last modules m in
      rw (e, unloaded, absent, there) (omega (arith, unloaded_mono names modules (m ∷ [])))
  | inr other ↦
      let ih = unloaded-less names modules m (rw (other) at h) absent in
      elim (Option-cases (position modules n)) [
        | inr (i, there) ↦ rw (unloaded, there, position-longer modules (m ∷ []) n i there) ih
        | inl free ↦ elim (Option-cases (position (modules ++ m ∷ []) n)) [
          | inl still ↦ rw (unloaded, free, still) (omega (arith, ih))
          | inr (i, there) ↦ rw (unloaded, free, there) (omega (arith, ih))
        ]
      ]
]

go_on-total :
    (mid : Linker) (r : Result LoadError ℕ) (next : Linker → Loaded) (self' : Linker)
    (result : Result LoadError ℕ)
    → next mid ≡ some (self', result)
    → (go_on (some (mid, r)) next ≡ some (self', result))
      ⊎ (go_on (some (mid, r)) next ≡ some (mid, r))
go_on-total mid (ok idx) next self' result e = inl e
go_on-total mid (err x) next self' result e = elim (Bool-cases (is_panic x)) [
  | inl panic ↦ inr (rw (panic) refl)
  | inr logged ↦ inl (rw (logged) e)
]

-- Only a file that was read gives a module.
load_file :
    (libc : Libc) (order : ByteOrder) (label : Str → String) (name : Str) (file : Option (List ℕ))
    (s s' : LoadState) (m : Module)
    → load libc order label name file s ≡ (s', ok m)
    → (bytes : List ℕ) × (file ≡ some bytes)
unfolding load
load_file libc order label name none s s' m e = absurd (ground arith)
load_file libc order label name (some bytes) s s' m e = (bytes, refl)

module _ (host : Host) (names : List Str) where
  load_dependencies-total :
      (load_one : Str → Linker → Loaded) (dir : Str) (needed : List Str) (index fuel : ℕ)
      (self : Linker)
      → ((path : Str) (a b : Linker) (r : Result LoadError ℕ)
          → load_one path a ≡ some (b, r)
          → Extends a b)
      → ((path : Str) (a : Linker)
          → unloaded names a.modules < fuel
          → (b : Linker) × (r : Result LoadError ℕ) × (load_one path a ≡ some (b, r)))
      → unloaded names self.modules < fuel
      → (self' : Linker) × (result : Result LoadError ℕ) × (load_dependencies host load_one dir
            needed index self
          ≡ some (self', result))
  unfolding load_dependencies
  load_dependencies-total load_one dir [] index fuel self h t enough = (self, ok index, refl)
  load_dependencies-total load_one dir (dep ∷ needed) index fuel self h t enough =
      elim (Option-cases (dependency_path host dir dep)) [
        | inl missing ↦
            let (self', result, done) =
              load_dependencies-total load_one dir needed index fuel self h t enough in
            (self', result, rw (load_dependencies, missing) done)
        | inr (path, found) ↦
            let (mid, r, loaded) = t path self enough in
            let ((more, grown), _) = h path self mid r loaded in
            let still : unloaded names mid.modules < fuel =
              rw (grown) (omega (arith, enough, unloaded_mono names self.modules more)) in
            let (self', result, done) =
              load_dependencies-total load_one dir needed index fuel mid h t still in
            elim (go_on-total mid r (load_dependencies host load_one dir needed index) self' result
              done) [
                | inl goes ↦ (self', result, rw (load_dependencies, found, loaded) goes)
                | inr ended ↦ (mid, r, rw (load_dependencies, found, loaded) ended)
              ]
      ]

  module _ (libc : Libc) (order : ByteOrder) (label : Str → String) where
    -- When each path that can be read has its file name in a list, load_module on more fuel than names
    -- in the list that no module has returns a result, even where modules need each other in a circle.
    pub load_module_total :
        ((path : Str) (file : List ℕ)
          → host.read path ≡ some file
          → is_in (module_name host path) names ≡ true)
        → (fuel : ℕ) (path : Str) (self : Linker) → unloaded names self.modules < fuel
        → (self' : Linker) × (result : Result LoadError ℕ) × (load_module host libc order label fuel
              path self
            ≡ some (self', result))
    unfolding load_module
    load_module_total covers zero path self enough = absurd (omega arith)
    load_module_total covers (suc fuel) path self enough =
        let name : Str = module_name host path in
        let result : Result LoadError Module =
          (load libc order label name (host.read path) self.state).1 in
        elim (Option-cases (position self.modules name)) [
          | inr (idx, there) ↦ (self, ok (idx % 2 ^ 32), rw (load_module, there) refl)
          | inl fresh ↦ elim (Result-cases result) [
            | inr (x, failed) ↦ (
              record self { state = (load libc order label name (host.read path) self.state).0 },
              err x,
              rw (load_module, fresh, failed) refl,
            )
            | inl (m, loaded) ↦
                let state : LoadState =
                  (load libc order label name (host.read path) self.state).0 in
                let whole : load libc order label name (host.read path) self.state ≡ (state, ok m) =
                  ap (λ (r : Result LoadError Module). (state, r)) loaded in
                let (file, there) =
                  load_file libc order label name (host.read path) self.state state m whole in
                let named : m.name ≡ name =
                  load_lem host libc order label name (host.read path) self.state state m whole in
                let less =
                  unloaded-less names self.modules m (rw (named) (covers path file there))
                    (rw (named) fresh) in
                let (self', answer, done) =
                  load_dependencies-total (load_module host libc order label fuel)
                    (or_else (host.parent path) []) (needed_modules m.elf)
                    (length self.modules % 2 ^ 32) fuel (pushed host libc order label self m state)
                    (load_module-Extends host libc order label fuel) (load_module_total covers fuel)
                    (omega (arith, less, enough)) in
                (self', answer, rw (load_module, fresh, loaded) done)
          ]
        ]
