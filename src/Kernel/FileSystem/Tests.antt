-- ===== src/Kernel/FileSystem/Tests.antt =====
-- Runs of the file system (crates/core/src/kernel/filesystem.rs), and its theorems at a concrete state.
use anotherps4_emulator.Common.{◌≡◌, ◌⊎◌, refl, [], ◌∷◌, ◌++◌, none, some, arith}
use anotherps4_emulator.Common.Int.{pos}
use anotherps4_emulator.Kernel.Error.{enoent}
use anotherps4_emulator.Kernel.FileSystem.{
  FileSystem, Host, open_file, close, read, resolve_path, resolve_in,
}
use anotherps4_emulator.Kernel.FileSystem.Descriptors.{IsSound, Opens, open_file_lem}

-- A host on which every file is there.
abbrev host : Host
host = record {
  file_open = λ path. some 8;
  join = λ base path. base ++ (47 ∷ path);
  walk = λ mounts. mounts;
}

-- `/a` is mounted, and descriptor 3 is open at position 10.
abbrev system : FileSystem
system = record {
  mounts = (47 ∷ 97 ∷ [], 104 ∷ []) ∷ [];
  next_fd = pos 4;
  open_files = (pos 3, record { host_path = 104 ∷ []; file = some 7; position = 10 }) ∷ [];
}

system-IsSound : IsSound system
system-IsSound =
    (4, refl, omega arith, omega arith, ((3, refl, omega arith, omega arith), refl, tt))

-- `/a//x` is the file `x` of the mounted directory.
resolve_path_run :
    (resolve_path host system (47 ∷ 97 ∷ 47 ∷ 47 ∷ 120 ∷ []) ≡ some (104 ∷ 47 ∷ 120 ∷ []))
    × (resolve_path host system (47 ∷ 98 ∷ []) ≡ none)
unfolding resolve_path resolve_in
resolve_path_run = (refl, refl)

read_run :
    (read system (pos 3) (λ file. some 5)).0.open_files
    ≡ (pos 3, record { host_path = 104 ∷ []; file = some 7; position = 15 }) ∷ []
unfolding read
read_run = refl

open_file_lem_example :
    (open_file host system (47 ∷ 97 ∷ []) ≡ (system, enoent))
    ⊎ Opens system (open_file host system (47 ∷ 97 ∷ [])).0 (open_file host system (47 ∷ 97 ∷ [])).1
open_file_lem_example = open_file_lem host system (47 ∷ 97 ∷ []) 4 system-IsSound refl (omega arith)

abbrev closed : FileSystem
closed = record system { open_files = [] }

close_run : close system (pos 3) ≡ (closed, pos 0)
unfolding close
close_run = refl
