-- ===== src/Linker/Loaded.antt =====
-- `Linker::load_module` (crates/core/src/linker/mod.rs): what it does to the list of modules.
use anotherps4_emulator.Common.{
  ℕ, zero, suc, ◌%◌, ◌^◌, ◌<◌, ◌≡◌, refl, sym, ◌∙◌, ◌⊎◌, inl, inr, List, [], ◌∷◌, ◌++◌, Option,
  none, some, length, length-append, get_elem?, arith, Bool-cases, Option-cases,
}
use anotherps4_emulator.Common.Result.{Result, ok, err, Result-cases}
use anotherps4_emulator.Common.Reader.{ByteOrder}
use anotherps4_emulator.Memory.AddressSpace.{Libc}
use anotherps4_emulator.Loader.Symbols.{Str}
use anotherps4_emulator.Loader.Elf.Queries.{needed_modules}
use anotherps4_emulator.Linker.Module.{LoadError, LoadState, Module}
use anotherps4_emulator.Linker.Load.{load, load_elf, fill, module_of}
use anotherps4_emulator.Linker.Modules.{
  Host, Linker, Loaded, position, module_name, dependency_path, load_dependencies, load_module,
  go_on, is_panic, patch_eboot, or_else,
}
use anotherps4_emulator.Linker.Names.{
  Distinct-append, Extends, Extends-refl, Extends-trans, position-get_elem?, get_elem?-append,
}
use mathlib.Core.List.{append-nil}
use Prim.Native.String.{String}

-- Behind a dependency the run goes on, unless a panic has ended it.
go_on-cases :
    (mid self' : Linker) (r result : Result LoadError ℕ) (next : Linker → Loaded)
    → go_on (some (mid, r)) next ≡ some (self', result)
    → ((mid ≡ self') × (x : LoadError) × (result ≡ err x)) ⊎ (next mid ≡ some (self', result))
go_on-cases mid self' (ok idx) result next e = inr e
go_on-cases mid self' (err x) result next e = elim (Bool-cases (is_panic x)) [
  | inl panic ↦ inl (ground arith, x, ground arith)
  | inr logged ↦ inr (rw (logged) at e)
]

module _ (host : Host) where
  pub load_dependencies-Extends :
      (load_one : Str → Linker → Loaded) (dir : Str) (needed : List Str) (index : ℕ)
      (self self' : Linker) (result : Result LoadError ℕ)
      → ((path : Str) (a b : Linker) (r : Result LoadError ℕ)
          → load_one path a ≡ some (b, r)
          → Extends a b)
      → load_dependencies host load_one dir needed index self ≡ some (self', result)
      → Extends self self'
  unfolding load_dependencies
  load_dependencies-Extends load_one dir [] index self self' result h e =
      let same : self ≡ self' = ground arith in rw (← same) (Extends-refl self)
  load_dependencies-Extends load_one dir (dep ∷ needed) index self self' result h e =
      elim (Option-cases (dependency_path host dir dep)) [
        | inl missing ↦
            load_dependencies-Extends load_one dir needed index self self' result h
              (rw (load_dependencies, missing) at e)
        | inr (path, found) ↦ elim (Option-cases (load_one path self)) [
          | inl ended ↦ absurd (ground arith)
          | inr ((mid, r), loaded) ↦
              let first = h path self mid r loaded in
              let e' : go_on (some (mid, r)) (load_dependencies host load_one dir needed index)
                  ≡ some (self', result) =
                rw (load_dependencies, found, loaded) at e in
              elim (go_on-cases mid self' r result
                (load_dependencies host load_one dir needed index) e') [
                  | inl (same, _, _) ↦ rw (← same) first
                  | inr next ↦
                      Extends-trans self mid self' first (
                        load_dependencies-Extends load_one dir needed index mid self' result h next)
                ]
        ]
      ]

  -- The answer behind the dependencies is the index of the module that needs them.
  load_dependencies-index :
      (load_one : Str → Linker → Loaded) (dir : Str) (needed : List Str) (index idx : ℕ)
      (self self' : Linker)
      → load_dependencies host load_one dir needed index self ≡ some (self', ok idx)
      → idx ≡ index
  unfolding load_dependencies
  load_dependencies-index load_one dir [] index idx self self' e = ground arith
  load_dependencies-index load_one dir (dep ∷ needed) index idx self self' e =
      elim (Option-cases (dependency_path host dir dep)) [
        | inl missing ↦
            load_dependencies-index load_one dir needed index idx self self'
              (rw (load_dependencies, missing) at e)
        | inr (path, found) ↦ elim (Option-cases (load_one path self)) [
          | inl ended ↦ absurd (ground arith)
          | inr ((mid, r), loaded) ↦
              let e' : go_on (some (mid, r)) (load_dependencies host load_one dir needed index)
                  ≡ some (self', ok idx) =
                rw (load_dependencies, found, loaded) at e in
              elim (go_on-cases mid self' r (ok idx)
                (load_dependencies host load_one dir needed index) e') [
                  | inl (_, _, failed) ↦ absurd (ground arith)
                  | inr next ↦ load_dependencies-index load_one dir needed index idx mid self' next
                ]
        ]
      ]

  module _ (libc : Libc) (order : ByteOrder) (label : Str → String) where
    pub load_lem :
        (name : Str) (file : Option (List ℕ)) (s s' : LoadState) (m : Module)
        → load libc order label name file s ≡ (s', ok m)
        → m.name ≡ name
    unfolding load load_elf fill module_of
    load_lem name none s s' m e = absurd (ground arith)
    load_lem name (some file) s s' m e = ground arith

    -- The state in which the dependencies of a new module are loaded.
    abbrev pub pushed : Linker → Module → LoadState → Linker
    pushed self m state = record self {
      modules = self.modules ++ (m ∷ []);
      state = patch_eboot m state;
    }

    pub pushed-Extends :
        (self : Linker) (m : Module) (state : LoadState)
        → position self.modules m.name ≡ none
        → Extends self (pushed self m state)
    pushed-Extends self m state fresh =
        ((m ∷ [], refl), λ d. Distinct-append self.modules m d fresh)

    -- What one call does: nothing, a failure to load, or a new module with its dependencies behind it.
    pub load_module-cases :
        (fuel : ℕ) (path : Str) (self self' : Linker) (result : Result LoadError ℕ)
        → load_module host libc order label (suc fuel) path self ≡ some (self', result)
        → ((idx : ℕ) × (position self.modules (module_name host path) ≡ some idx)
            × (self' ≡ self)
            × (result ≡ ok (idx % 2 ^ 32)))
          ⊎ ((self'.modules ≡ self.modules) × (e : LoadError) × (result ≡ err e))
          ⊎ ((m : Module) × (state : LoadState) × (m.name ≡ module_name host path)
              × (position self.modules m.name ≡ none)
              × (load_dependencies host
                    (load_module host libc order label fuel)
                    (or_else (host.parent path) [])
                    (needed_modules m.elf)
                    (length self.modules % 2 ^ 32)
                    (pushed self m state)
                  ≡ some (self', result)))
    unfolding load_module
    load_module-cases fuel path self self' result e =
        let name : Str = module_name host path in
        elim (Option-cases (position self.modules name)) [
          | inr (idx, there) ↦
              let e' : some (self, ok (idx % 2 ^ 32)) ≡ some (self', result) =
                rw (load_module, there) at e in
              inl (idx, there, ground arith, ground arith)
          | inl fresh ↦
              elim (Result-cases (load libc order label name (host.read path) self.state).1) [
                | inr (x, failed) ↦
                    let e' : some (
                      record self {
                        state = (load libc order label name (host.read path) self.state).0;
                      },
                      err x,
                    )
                        ≡ some (self', result) =
                      rw (load_module, fresh, failed) at e in
                    inr (inl (ground arith, x, ground arith))
                | inl (m, loaded) ↦
                    let state : LoadState =
                      (load libc order label name (host.read path) self.state).0 in
                    let named =
                      load_lem name (host.read path) self.state state m (ground (arith, loaded)) in
                    let e' = rw (load_module, fresh, loaded) at e in
                    inr (inr (m, state, named, rw (named) fresh, e'))
              ]
        ]

    load_module-zero :
        (path : Str) (self : Linker) → load_module host libc order label zero path self ≡ none
    unfolding load_module
    load_module-zero path self = refl

    -- Whatever the result of load_module is, the modules that were there stay in front in their order,
    -- and if no two had the same name before, no two have it after.
    pub load_module-Extends :
        (fuel : ℕ) (path : Str) (self self' : Linker) (result : Result LoadError ℕ)
        → load_module host libc order label fuel path self ≡ some (self', result)
        → Extends self self'
    load_module-Extends zero path self self' result e =
        absurd (ground (arith, load_module-zero path self))
    load_module-Extends (suc fuel) path self self' result e =
        elim (load_module-cases fuel path self self' result e) [
          | inl (idx, there, same, _) ↦ rw (same) (Extends-refl self)
          | inr (inl (same, _, _)) ↦ (([], same ∙ sym (append-nil self.modules)), λ d. rw (same) d)
          | inr (inr (m, state, named, fresh, e')) ↦
              Extends-trans self (pushed self m state) self' (pushed-Extends self m state fresh) (
                load_dependencies-Extends (load_module host libc order label fuel)
                  (or_else (host.parent path) []) (needed_modules m.elf)
                  (length self.modules % 2 ^ 32) (pushed self m state) self' result
                  (load_module-Extends fuel) e')
        ]

    -- While fewer than 2 ^ 32 modules are loaded: the index that load_module returns is that of a
    -- module with the file name of the path, behind all the dependencies that were loaded after it.
    pub load_module_lem :
        (fuel : ℕ) (path : Str) (self self' : Linker) (idx : ℕ)
        → load_module host libc order label fuel path self ≡ some (self', ok idx)
        → length self'.modules < 2 ^ 32
        → (m : Module) × (get_elem? self'.modules idx ≡ some m) × (m.name ≡ module_name host path)
    load_module_lem zero path self self' idx e small =
        absurd (ground (arith, load_module-zero path self))
    load_module_lem (suc fuel) path self self' idx e small =
        elim (load_module-cases fuel path self self' (ok idx) e) [
          | inl (i, there, same, answer) ↦
              let (m, at, named, bound) =
                position-get_elem? self.modules (module_name host path) i there in
              let count : length self'.modules ≡ length self.modules = rw (same) refl in
              let here : idx ≡ i = ground arith in (m, rw (same, here) at, named)
          | inr (inl (_, _, failed)) ↦ absurd (ground arith)
          | inr (inr (m, state, named, fresh, e')) ↦
              let load_one = load_module host libc order label fuel in
              let here =
                load_dependencies-index load_one (or_else (host.parent path) [])
                  (needed_modules m.elf) (length self.modules % 2 ^ 32) idx (pushed self m state)
                  self' e' in
              let ((more, grown), _) =
                load_dependencies-Extends load_one (or_else (host.parent path) [])
                  (needed_modules m.elf) (length self.modules % 2 ^ 32) (pushed self m state) self'
                  (ok idx) (load_module-Extends fuel) e' in
              let count : length self'.modules ≡ length ((self.modules ++ m ∷ []) ++ more) =
                rw (grown) refl in
              let below : length self.modules < 2 ^ 32 = omega (
                arith,
                small,
                count,
                length-append (self.modules ++ m ∷ []) more,
                length-append self.modules (m ∷ []),
              ) in
              let index : idx ≡ length self.modules = omega (arith, here, below) in
              (m, rw (grown, index) (get_elem?-append self.modules more m), named)
        ]
