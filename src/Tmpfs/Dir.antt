-- ===== src/Tmpfs/Dir.antt =====
-- kernel/src/tmpfs.rs: stat, readdir and unlink.
use dbsos.Common.{
  ℕ, zero, suc, ◌-◌, min, Bool, true, false, ◌&&◌, Option, none, some, ◌==◌, ltb, if◌then◌else◌,
  length, take, replicate, List, [], ◌∷◌, ◌++◌, Array,
}
use dbsos.Tmpfs.{TmpFile, Tmpfs, find, set_file, empty, max_files}
use dbsos.Tmpfs.Path.{norm}

pub record StatInfo : Type 0 where
  pub stat_size : ℕ
  pub stat_is_dir : Bool
  pub cluster : ℕ

unfoldable pub tmp_stat : List ℕ → Tmpfs → Option StatInfo
tmp_stat path fs =
    let name = norm path in
    if length name == 0
    then some (record { stat_size = 0; stat_is_dir = true; cluster = 0 })
    else elim (find name fs) [
      | none ↦ none
      | some idx ↦
          some (record { stat_size = (fs.files idx).size; stat_is_dir = false; cluster = idx })
    ]

pub record DirEntry : Type 0 where
  pub entry_name : List ℕ
  pub entry_is_dir : Bool
  pub entry_size : ℕ

abbrev pub dir_entry : TmpFile → DirEntry
dir_entry f =
    let l = min f.name_len 32 in
    record {
      entry_name = take l f.name ++ replicate (32 - l) 0;
      entry_is_dir = false;
      entry_size = f.size;
    }

-- The loop of `tmp_readdir` from slot `i` on, with `k` slots to go and room for `room` entries.
unfoldable pub read_slots : (k i room : ℕ) → Tmpfs → List DirEntry
read_slots zero i room fs = []
read_slots (suc k) i room fs =
    let rest = read_slots k (suc i) room fs in
    let rest_less = read_slots k (suc i) (room - 1) fs in
    if (fs.files i).in_use && ltb 0 room then dir_entry (fs.files i) ∷ rest_less else rest

-- The entries written to the caller's array, which has `room` places.
unfoldable pub tmp_readdir : List ℕ → (room : ℕ) → Tmpfs → Option (List DirEntry)
unfolding read_slots
tmp_readdir path room fs =
    if length (norm path) == 0 then some (read_slots max_files 0 room fs) else none

-- `if HANDLES[h] == Some(idx) { HANDLES[h] = None; }`
abbrev pub close_if : ℕ → Option ℕ → Option ℕ
close_if idx none = none
close_if idx (some i) = if i == idx then none else some i

unfoldable pub close_all : ℕ → Array (Option ℕ) → Array (Option ℕ)
close_all idx handles h = if ltb h max_files then close_if idx (handles h) else handles h

unfoldable pub remove : ℕ → Tmpfs → Tmpfs
remove idx fs = record (set_file idx empty fs) {
  handles = close_all idx fs.handles;
  buffers = if (fs.files idx).file_data == 0 then fs.buffers else fs.buffers - 1;
}

unfoldable pub tmp_unlink : List ℕ → Tmpfs → Tmpfs × Bool
tmp_unlink path fs = elim (find (norm path) fs) [
  | none ↦ (fs, false)
  | some idx ↦ (remove idx fs, true)
]
