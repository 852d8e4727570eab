-- ===== src/Vfs/Access.antt =====
-- kernel/src/vfs.rs: the calls on a descriptor and on a path, after `open`. The results are `i32` and `i64`; a driver
-- hands over the bytes it read.
use dbsos.Common.{
  ℕ, ◌+◌, ◌-◌, ◌%◌, ◌^◌, Bool, false, ◌&&◌, Option, none, some, ℤ, pos, negsuc, ◌==◌, ltb, leb,
  if◌then◌else◌, length, List, [], update, bit_and,
}
use dbsos.Permissions.{Perm, can_read, can_write}
use dbsos.Permissions
use dbsos.Tmpfs.Dir.{DirEntry}
use dbsos.Vfs.Mounts.{parent_of}
use dbsos.Vfs.{Vfs, VfsFile, get_driver, route, failed, max_open_files}

-- `offset as u64` for an `i64`, and the way back.
abbrev pub to_u64 : ℤ → ℕ
to_u64 (pos n) = n
to_u64 (negsuc n) = 2 ^ 64 - 1 - n

abbrev pub to_i64 : ℕ → ℤ
to_i64 n = if ltb n (2 ^ 63) then pos n else negsuc (2 ^ 64 - 1 - n)

-- Where `lseek` goes.
abbrev pub seek_to : VfsFile → (offset : ℤ) (whence : ℕ) → Option ℕ
seek_to f offset whence =
    if whence == 0
    then some (to_u64 offset)
    else if whence == 1
    then some ((f.offset + to_u64 offset) % 2 ^ 64)
    else if whence == 2
    then some ((f.size + to_u64 offset) % 2 ^ 64)
    else none

-- The file after `n` bytes are read, and after they are written.
abbrev pub read_on : ℕ → VfsFile → VfsFile
read_on n f = record f { offset = (f.offset + n) % 2 ^ 64 }

abbrev pub written : ℕ → VfsFile → VfsFile
written n f =
    let end = (f.offset + n) % 2 ^ 64 in
    record f { offset = end; size = if ltb f.size end then end % 2 ^ 32 else f.size }

module _ {D : Type 0} where
  -- The guards that every call on a descriptor begins with.
  unfoldable pub file_at : ℤ → Vfs D → Option (ℕ × VfsFile)
  file_at (negsuc n) v = none
  file_at (pos fd) v =
      if leb max_open_files fd
      then none
      else elim (v.open_files fd) [ none ↦ none | some f ↦ some (fd, f) ]

  abbrev pub set_open : ℕ → Option VfsFile → Vfs D → Vfs D
  set_open fd f v = record v { open_files = update v.open_files fd f }

  abbrev pub set_disk : D → Vfs D → Vfs D
  set_disk d v = record v { disk = d }

  unfoldable pub close : ℤ → Vfs D → Vfs D × ℤ
  unfolding file_at get_driver
  close fd v = elim (file_at fd v) [
    | none ↦ (v, failed)
    | some (i, f) ↦ elim (get_driver f.driver_idx v) [
      | none ↦ (set_open i none v, pos 0)
      | some driver ↦ (set_open i none (set_disk (driver.close_op f.handle v.disk) v), pos 0)
    ]
  ]

  unfoldable pub read : ℤ → (len : ℕ) → Vfs D → Vfs D × ℤ × List ℕ
  unfolding file_at get_driver
  read fd len v = elim (file_at fd v) [
    | none ↦ (v, failed, [])
    | some (i, f) ↦ elim (get_driver f.driver_idx v) [
      | none ↦ (v, failed, [])
      | some driver ↦ elim ((driver.read_op f.handle len f.offset v.disk).1) [
        | none ↦ (set_disk ((driver.read_op f.handle len f.offset v.disk).0) v, failed, [])
        | some (n, bytes) ↦ (
          set_open i (some (read_on n f))
              (set_disk ((driver.read_op f.handle len f.offset v.disk).0) v),
          pos n,
          bytes,
        )
      ]
    ]
  ]

  unfoldable pub write : ℤ → (buf : List ℕ) → Vfs D → Vfs D × ℤ
  unfolding file_at get_driver
  write fd buf v = elim (file_at fd v) [
    | none ↦ (v, failed)
    | some (i, f) ↦
        if bit_and f.flags 3 == 0 then (v, failed) else elim (get_driver f.driver_idx v) [
          | none ↦ (v, failed)
          | some driver ↦ elim ((driver.write_op f.handle buf f.offset v.disk).1) [
            | none ↦ (set_disk ((driver.write_op f.handle buf f.offset v.disk).0) v, failed)
            | some n ↦ (
              set_open i (some (written n f))
                  (set_disk ((driver.write_op f.handle buf f.offset v.disk).0) v),
              pos n,
            )
          ]
        ]
  ]

  unfoldable pub lseek : ℤ → (offset : ℤ) (whence : ℕ) → Vfs D → Vfs D × ℤ
  unfolding file_at
  lseek fd offset whence v = elim (file_at fd v) [
    | none ↦ (v, failed)
    | some (i, f) ↦ elim (seek_to f offset whence) [
      | none ↦ (v, failed)
      | some o ↦ (set_open i (some (record f { offset = o })) v, to_i64 o)
    ]
  ]

  unfoldable pub fstat : ℤ → Vfs D → ℕ
  unfolding file_at
  fstat fd v = elim (file_at fd v) [ none ↦ 0 | some (i, f) ↦ f.size ]

  unfoldable pub readdir : (uid : ℕ) (path : List ℕ) (room : ℕ) → Vfs D → Vfs D × ℤ × List DirEntry
  readdir uid path room v =
      if can_read uid v.perms path uid
      then elim (route path v) [
        | none ↦ (v, failed, [])
        | some (driver_idx, driver, rel) ↦ elim ((driver.readdir_op rel room v.disk).1) [
          | none ↦ (set_disk ((driver.readdir_op rel room v.disk).0) v, failed, [])
          | some entries ↦
              (set_disk ((driver.readdir_op rel room v.disk).0) v, pos (length entries), entries)
        ]
      ]
      else (v, failed, [])

  -- "Record ownership for new directory": where the driver made one.
  abbrev pub own_dir : (uid : ℕ) (path : List ℕ) → D × Bool → Vfs D → Vfs D × Bool
  own_dir uid path (d, ok) v =
      let perm : Perm = record { owner = uid; group = uid; mode = 0o755 } in
      (record v { disk = d; perms = if ok then Permissions.set path perm v.perms else v.perms }, ok)

  unfoldable pub mkdir : (uid : ℕ) (path : List ℕ) → Vfs D → Vfs D × Bool
  mkdir uid path v =
      if can_write uid v.perms (parent_of path) uid
      then elim (route path v) [
        | none ↦ (v, false)
        | some (driver_idx, driver, rel) ↦ own_dir uid path (driver.mkdir_op rel v.disk) v
      ]
      else (v, false)

  -- The permission checks of `rmdir` and `unlink`.
  abbrev pub may_remove : (uid : ℕ) (path : List ℕ) → Vfs D → Bool
  may_remove uid path v =
      can_write uid v.perms path uid && can_write uid v.perms (parent_of path) uid

  unfoldable pub rmdir : (uid : ℕ) (path : List ℕ) → Vfs D → Vfs D × Bool
  rmdir uid path v =
      if may_remove uid path v
      then elim (route path v) [
        | none ↦ (v, false)
        | some (driver_idx, driver, rel) ↦
            (set_disk ((driver.rmdir_op rel v.disk).0) v, (driver.rmdir_op rel v.disk).1)
      ]
      else (v, false)

  unfoldable pub unlink : (uid : ℕ) (path : List ℕ) → Vfs D → Vfs D × Bool
  unlink uid path v =
      if may_remove uid path v
      then elim (route path v) [
        | none ↦ (v, false)
        | some (driver_idx, driver, rel) ↦
            (set_disk ((driver.unlink_op rel v.disk).0) v, (driver.unlink_op rel v.disk).1)
      ]
      else (v, false)
