-- ===== src/Tmpfs.antt =====
-- kernel/src/tmpfs.rs: the files of /tmp, in a table of 32 and with a buffer of 8 KiB each. `kmalloc` is
-- called at most once by a call; its result, 0 for null, is the argument `buffer`.
pub mod Path
pub mod Copy
pub mod Dir
pub mod Invariant
pub mod Contents
pub mod Calls
pub mod Names
use dbsos.Common.{
  ℕ, zero, suc, ◌+◌, ◌-◌, ◌^◌, min, Bool, true, false, not, ◌&&◌, ◌||◌, Option, none, some, ◌==◌,
  ltb, leb, if◌then◌else◌, find_from, length, take, drop, replicate, List, [], ◌∷◌, ◌++◌, Array,
  update, bytes_eq, bit_and,
}
use Path.{norm}
use Copy.{load, store}

abbrev pub max_files : ℕ
max_files = 32

abbrev pub max_file_size : ℕ
max_file_size = 8192

abbrev pub max_name : ℕ
max_name = 32

-- `!0usize`, the handle of the root.
abbrev pub root_handle : ℕ
root_handle = 2 ^ 64 - 1

-- `name` is the array of `max_name` bytes. `file_data` is the address of the buffer.
pub record TmpFile : Type 0 where
  pub in_use : Bool
  pub is_dir : Bool
  pub name : List ℕ
  pub name_len : ℕ
  pub file_data : ℕ
  pub size : ℕ
  pub cap : ℕ

abbrev pub empty : TmpFile
empty = record {
  in_use = false;
  is_dir = false;
  name = replicate max_name 0;
  name_len = 0;
  file_data = 0;
  size = 0;
  cap = 0;
}

-- FILES, HANDLES, the bytes of memory, and how many buffers from `kmalloc` are not given back yet.
pub record Tmpfs : Type 0 where
  pub files : Array TmpFile
  pub handles : Array (Option ℕ)
  pub memory : Array ℕ
  pub buffers : ℕ

abbrev pub set_file : ℕ → TmpFile → Tmpfs → Tmpfs
set_file idx f fs = record fs { files = update fs.files idx f }

abbrev pub set_handle : ℕ → Option ℕ → Tmpfs → Tmpfs
set_handle h idx fs = record fs { handles = update fs.handles h idx }

-- The test in `find`.
abbrev pub is_named : List ℕ → TmpFile → Bool
is_named name f =
    f.in_use
    && (not f.is_dir && (f.name_len == length name && bytes_eq (take (length name) f.name) name))

unfoldable pub find : List ℕ → Tmpfs → Option ℕ
find name fs = elim name [
  | [] ↦ none
  | x ∷ xs ↦ find_from max_files 0 (λ i. is_named (x ∷ xs) (fs.files i))
]

unfoldable pub free_slot : Tmpfs → Option ℕ
free_slot fs = find_from max_files 0 (λ i. not (fs.files i).in_use)

abbrev pub is_closed : Option ℕ → Bool
is_closed none = true
is_closed (some idx) = false

-- `(0..MAX_FILES).find(|&h| HANDLES[h].is_none())`
unfoldable pub free_handle : Tmpfs → Option ℕ
free_handle fs = find_from max_files 0 (λ h. is_closed (fs.handles h))

-- O_TRUNC
abbrev pub truncate : (flags idx : ℕ) → Tmpfs → Tmpfs
truncate flags idx fs =
    if bit_and flags 0x200 == 0 then fs else set_file idx (record (fs.files idx) { size = 0 }) fs

-- The path of `tmp_open` where the file exists.
unfoldable pub open_existing : (flags idx : ℕ) → Tmpfs → Tmpfs × Option ℕ
open_existing flags idx fs =
    let fs' = truncate flags idx fs in
    elim (free_handle fs') [ some h ↦ (set_handle h (some idx) fs', some h) | none ↦ (fs', none) ]

abbrev pub new_file : List ℕ → (buffer : ℕ) → TmpFile → TmpFile
new_file name buffer old = record {
  in_use = true;
  is_dir = false;
  name = name ++ drop (length name) old.name;
  name_len = length name;
  file_data = buffer;
  size = 0;
  cap = max_file_size;
}

-- The path of `tmp_open` that creates the file in the slot.
unfoldable pub create : List ℕ → (buffer slot : ℕ) → Tmpfs → Tmpfs × Option ℕ
create name buffer slot fs =
    if buffer == 0
    then (fs, none)
    else let fs' = set_file slot (new_file name buffer (fs.files slot)) fs in
      elim (free_handle fs') [
        | some h ↦ (record (set_handle h (some slot) fs') { buffers = fs.buffers + 1 }, some h)
        | none ↦ (set_file slot empty fs', none)
      ]

unfoldable pub tmp_open : List ℕ → (flags buffer : ℕ) → Tmpfs → Tmpfs × Option ℕ
tmp_open path flags buffer fs =
    let name = norm path in
    if length name == 0
    then (fs, some root_handle)
    else if ltb max_name (length name)
    then (fs, none)
    else elim (find name fs) [
      | some idx ↦ open_existing flags idx fs
      | none ↦
          if bit_and flags 0x100 == 0
          then (fs, none)
          else elim (free_slot fs) [ none ↦ (fs, none) | some slot ↦ create name buffer slot fs ]
    ]

unfoldable pub tmp_close : ℕ → Tmpfs → Tmpfs
tmp_close handle fs =
    if handle == root_handle
    then fs
    else if ltb handle max_files
    then set_handle handle none fs
    else fs

-- The number of bytes read and the bytes, for a buffer of `len` bytes.
unfoldable pub tmp_read : (handle len offset : ℕ) → Tmpfs → Option (ℕ × List ℕ)
tmp_read handle len offset fs =
    if handle == root_handle
    then some (0, [])
    else if leb max_files handle
    then none
    else elim (fs.handles handle) [
      | none ↦ none
      | some idx ↦
          let f = fs.files idx in
          if leb f.size offset
          then some (0, [])
          else let n = min len (f.size - offset) in
            some (n, load n (f.file_data + offset) fs.memory)
    ]

-- `copy_nonoverlapping` to the file, and the new size.
unfoldable pub write_at : (idx : ℕ) → List ℕ → (offset : ℕ) → Tmpfs → Tmpfs × Option ℕ
write_at idx buf offset fs =
    let f = fs.files idx in
    let n = min (length buf) (max_file_size - offset) in
    (
      record fs {
        memory = store (f.file_data + offset) (take n buf) fs.memory;
        files =
            update fs.files idx
              (record f { size = if ltb f.size (offset + n) then offset + n else f.size });
      },
      some n,
    )

unfoldable pub tmp_write : (handle : ℕ) → List ℕ → (offset : ℕ) → Tmpfs → Tmpfs × Option ℕ
tmp_write handle buf offset fs =
    if handle == root_handle
    then (fs, none)
    else if leb max_files handle
    then (fs, none)
    else elim (fs.handles handle) [
      | none ↦ (fs, none)
      | some idx ↦ if ltb max_file_size offset then (fs, none) else write_at idx buf offset fs
    ]
