-- ===== src/Samples/Mounted.antt =====
-- The theorems about kernel/src/vfs.rs at concrete inputs: the tmpfs at /tmp, where user 5 opens /tmp/a.
use dbsos.Vfs.Mounts.{resolved}
use dbsos.Vfs.Mounts.{panicked}
use dbsos.Common.{◌≢◌}
use dbsos.Common.{
  ℕ, ◌≤◌, ◌<◌, ◌≡◌, refl, true, false, none, some, pos, arith, List, [], ◌∷◌, update, find_from,
  bytes_eq, starts_with,
}
use dbsos.Permissions.{no_perms, can_read, can_write, default_for}
use dbsos.Permissions
use dbsos.Tmpfs.{Tmpfs, empty, tmp_open, tmp_close, tmp_read, tmp_write, find}
use dbsos.Tmpfs
use dbsos.Tmpfs.Path
use dbsos.Tmpfs.Path.{norm}
use dbsos.Tmpfs.Copy.{load, store}
use dbsos.Tmpfs.Dir.{tmp_stat}
use dbsos.Vfs.{
  Vfs, VfsFile, register_driver, mount, get_driver, route, stat, exists, may_open, install,
  open_file, failed,
}
use dbsos.Vfs.Mounts.{
  no_mounts, longest, resolve_mount, strip_prefix, skip_slashes, parent_of, last_slash, covers,
}
use dbsos.Vfs.Mounts
use dbsos.Vfs.Access.{read, write, lseek, file_at}
use dbsos.Vfs.Files.{reported}
use dbsos.Vfs.OverTmpfs.{tmp_ops, init, read_back}
use dbsos.Vfs.Resolve.{resolve_mount-longest}
use dbsos.Vfs.Rights.{Opened, open_file_opens, reader_writes}

setting : Unit {0}
unfolding norm Path.strip_leading Path.strip_trailing Path.trim Path.last_slash bytes_eq starts_with
    find Tmpfs.free_slot Tmpfs.free_handle find_from update tmp_open tmp_read tmp_write Tmpfs.create
    Tmpfs.open_existing Tmpfs.write_at tmp_stat load store register_driver mount get_driver route
    stat exists may_open install open_file Mounts.free_slot Mounts.add longest resolve_mount
    skip_slashes strip_prefix last_slash parent_of file_at read write lseek tmp_ops init
    Permissions.find_entry Permissions.find Permissions.get Permissions.set default_for
    Permissions.gid_of Permissions.allowed can_read can_write
setting = tt

abbrev bare : Vfs Tmpfs
bare = record {
  drivers = λ i. none;
  driver_count = 0;
  mounts = no_mounts;
  open_files = λ i. none;
  perms = no_perms;
  disk = record { files = λ i. empty; handles = λ h. none; memory = λ i. 7; buffers = 0 };
}

kmalloc : Tmpfs → ℕ
kmalloc fs = 65536

unfoldable mounted : Vfs Tmpfs
mounted = (init kmalloc bare).0

abbrev path_a : List ℕ
path_a = 47 ∷ 116 ∷ 109 ∷ 112 ∷ 47 ∷ 97 ∷ []

-- User 5 creates /tmp/a for writing.
unfoldable working : Vfs Tmpfs
working = (open_file 5 path_a 0x101 mounted).0

opened_at_0 : (open_file 5 path_a 0x101 mounted).1 ≡ pos 0
unfolding setting mounted kmalloc
opened_at_0 = refl

-- Only slot 0 is in use, for "/tmp".
mounted_names :
    (m : ℕ) → m < 8 → (mounted.mounts m).in_use ≡ true → (mounted.mounts m).prefix_len ≢ 0
unfolding setting mounted kmalloc
mounted_names m l u z = ground arith

resolve_mount-longest_example :
    (j : ℕ) × (j < 8)
    × (covers path_a (mounted.mounts j) ≡ true)
    × (resolve_mount path_a mounted.mounts
        ≡ resolved (some ((mounted.mounts j).driver_idx, (mounted.mounts j).prefix_len)))
    × ((m : ℕ)
        → m < 8
        → covers path_a (mounted.mounts m) ≡ true
        → (mounted.mounts m).prefix_len ≤ (mounted.mounts j).prefix_len)
unfolding setting mounted kmalloc
resolve_mount-longest_example =
    resolve_mount-longest path_a mounted.mounts 0 mounted_names (omega arith) refl

-- A mount of the empty prefix makes the kernel panic at the next path.
empty_prefix_panics : resolve_mount path_a (mount [] 0 mounted).0.mounts ≡ panicked
unfolding setting mounted kmalloc
empty_prefix_panics = refl

open_file_opens_example :
    (may_open 5 path_a 0x101 mounted ≡ false → open_file 5 path_a 0x101 mounted ≡ (mounted, failed))
    × Opened mounted 0x101 (open_file 5 path_a 0x101 mounted)
open_file_opens_example = open_file_opens mounted 0x101 5 path_a

abbrev file_a : VfsFile
file_a = record { driver_idx = 0; handle = 0; offset = 0; size = 0; flags = 0x101 }

read_back_example :
    ((write (pos 0) (8 ∷ 9 ∷ []) working).1 ≡ pos 2)
    × (reported (read (pos 0) 2 (lseek (pos 0) (pos 0) 0 (write (pos 0) (8 ∷ 9 ∷ []) working).0).0)
        ≡ (pos 2, 8 ∷ 9 ∷ []))
unfolding setting working mounted kmalloc
read_back_example =
    read_back kmalloc working 0 file_a 0 (8 ∷ 9 ∷ []) (omega arith) refl refl refl (omega arith)
      refl (omega arith) (omega arith)

-- User 6, one of the others, may read the file that user 5 has made, and not write it.
reader_writes_example :
    ((open_file 6 path_a 2 working).1 ≡ pos 1)
    × ((write (pos 1) (8 ∷ []) (open_file 6 path_a 2 working).0).1 ≡ pos 1)
unfolding setting working mounted kmalloc
reader_writes_example =
    reader_writes working 6 path_a 0 (tmp_ops kmalloc) (97 ∷ []) 1 1 _ _ (8 ∷ []) 1 refl refl refl
      refl refl refl refl
