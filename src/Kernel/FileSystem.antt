-- ===== src/Kernel/FileSystem.antt =====
-- crates/core/src/kernel/filesystem.rs: mount points and file descriptors. A path and a text are their bytes.
-- The two hash maps are lists of entries. The host is a parameter, `Host`: its files, its paths and the order
-- in which it walks a hash map. What the host's read or write answers is an argument of the call.
pub mod Descriptors
mod Tests
pub use anotherps4_emulator.Common.Text.{Str, str_eq}
use anotherps4_emulator.Common.{
  ℕ, zero, suc, ◌+◌, ◌-◌, ◌%◌, ◌^◌, List, [], ◌∷◌, ◌++◌, Option, none, some, Bool, true, false,
  ◌&&◌, ◌==◌, length, drop, if◌then◌else◌,
}
use anotherps4_emulator.Common.Int.{ℤ, pos, negsuc, int_eq}
use anotherps4_emulator.Kernel.Error.{enoent, ebadf}
use anotherps4_emulator.Types.{add64}

-- A handle of the host.
abbrev pub File : Type 0
File = ℕ

-- `file_open` is `fs::File::open`, which answers a file or an error; `join` is
-- `Path::join`, and `walk` lists a hash map's entries in the order of its iterator.
pub record Host : Type 0 where
  pub file_open : Str → Option File
  pub join : Str → Str → Str
  pub walk : List (Str × Str) → List (Str × Str)

pub record OpenFile : Type 0 where
  pub host_path : Str
  pub file : Option File
  pub position : ℕ

abbrev pub Files : Type 0
Files = List (ℤ × OpenFile)

pub record FileSystem : Type 0 where
  pub mounts : List (Str × Str)
  pub next_fd : ℤ
  pub open_files : Files

-- `FileSystem::new`
unfoldable pub new : FileSystem
new = record { mounts = []; next_fd = pos 3; open_files = [] }

-- `insert` of the mounts: the base of a prefix that is there is replaced.
abbrev pub insert_mount : List (Str × Str) → Str → Str → List (Str × Str)
insert_mount [] prefix base = (prefix, base) ∷ []
insert_mount ((p, b) ∷ rest) prefix base =
    if str_eq p prefix then (p, base) ∷ rest else (p, b) ∷ insert_mount rest prefix base

unfoldable pub mount : FileSystem → Str → Str → FileSystem
mount self ps4_path host_path = record self { mounts = insert_mount self.mounts ps4_path host_path }

abbrev pub starts_with : Str → Str → Bool
starts_with path [] = true
starts_with [] (_ ∷ _) = false
starts_with (x ∷ path) (y ∷ prefix) = (x == y) && starts_with path prefix

-- `trim_start_matches('/')`
abbrev pub trim_slashes : Str → Str
trim_slashes [] = []
trim_slashes (c ∷ path) = if c == 47 then trim_slashes path else c ∷ path

-- The loop of `resolve_path` over the mounts.
unfoldable pub resolve_in : Host → List (Str × Str) → Str → Option Str
resolve_in host [] ps4_path = none
resolve_in host ((prefix, host_base) ∷ rest) ps4_path =
    if starts_with ps4_path prefix
    then some (host.join host_base (trim_slashes (drop (length prefix) ps4_path)))
    else resolve_in host rest ps4_path

unfoldable pub resolve_path : Host → FileSystem → Str → Option Str
resolve_path host self ps4_path = resolve_in host (host.walk self.mounts) ps4_path

-- `next_fd + 1` on `i32`, which wraps.
abbrev pub next : ℤ → ℤ
next (pos n) = if n == 2 ^ 31 - 1 then negsuc (2 ^ 31 - 1) else pos (n + 1)
next (negsuc zero) = pos 0
next (negsuc (suc n)) = negsuc n

abbrev pub find : Files → ℤ → Option OpenFile
find [] fd = none
find ((k, f) ∷ rest) fd = if int_eq k fd then some f else find rest fd

abbrev pub remove : Files → ℤ → Files
remove [] fd = []
remove ((k, f) ∷ rest) fd = if int_eq k fd then rest else (k, f) ∷ remove rest fd

abbrev pub insert : Files → ℤ → OpenFile → Files
insert files fd f = (fd, f) ∷ remove files fd

-- A new descriptor for the file.
abbrev pub install : FileSystem → OpenFile → FileSystem × ℤ
install self f = (
  record self { next_fd = next self.next_fd; open_files = insert self.open_files self.next_fd f },
  self.next_fd,
)

-- `/dev/`
abbrev pub dev_prefix : Str
dev_prefix = 47 ∷ 100 ∷ 101 ∷ 118 ∷ 47 ∷ []

-- `FileSystem::open`; the flags and the mode are only traced.
unfoldable pub open_file : Host → FileSystem → Str → FileSystem × ℤ
open_file host self path = elim (resolve_path host self path) [
  | none ↦
      if starts_with path dev_prefix
      then install self (record { host_path = path; file = none; position = 0 })
      else (self, enoent)
  | some host_path ↦ elim (host.file_open host_path) [
    | none ↦ (self, enoent)
    | some file ↦ install self (record { host_path = host_path; file = some file; position = 0 })
  ]
]

unfoldable pub close : FileSystem → ℤ → FileSystem × ℤ
close self fd = elim (find self.open_files fd) [
  | none ↦ (self, ebadf)
  | some _ ↦ (record self { open_files = remove self.open_files fd }, pos 0)
]

-- The entry of a descriptor after `n` bytes have gone through it.
abbrev pub advance : Files → ℤ → ℕ → Files
advance [] fd n = []
advance ((k, f) ∷ rest) fd n =
    if int_eq k fd
    then (k, record f { position = add64 f.position n }) ∷ rest
    else (k, f) ∷ advance rest fd n

-- What `read` and `write` do with the host's answer; `none` is an error.
abbrev pub transferred : FileSystem → ℤ → Option ℕ → FileSystem × ℤ
transferred self fd none = (self, negsuc 0)
transferred self fd (some n) = (record self { open_files = advance self.open_files fd n }, pos n)

-- `FileSystem::read`; `answer` is what the host's read on the file answers. A device answers 0.
unfoldable pub read : FileSystem → ℤ → (File → Option ℕ) → FileSystem × ℤ
read self fd answer = elim (find self.open_files fd) [
  | none ↦ (self, ebadf)
  | some f ↦ elim f.file [ none ↦ (self, pos 0) | some file ↦ transferred self fd (answer file) ]
]

-- `FileSystem::write` of `len` bytes; 1 and 2 go to the terminal, and a device takes all bytes.
unfoldable pub write : FileSystem → ℤ → ℕ → (File → Option ℕ) → FileSystem × ℤ
write self fd len answer =
    if int_eq fd (pos 1)
    then (self, pos len)
    else if int_eq fd (pos 2)
    then (self, pos len)
    else elim (find self.open_files fd) [
      | none ↦ (self, ebadf)
      | some f ↦ elim f.file [
        | none ↦ (self, pos len)
        | some file ↦ transferred self fd (answer file)
      ]
    ]

unfoldable pub open_count : FileSystem → ℕ
open_count self = length self.open_files
