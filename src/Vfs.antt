-- ===== src/Vfs.antt =====
-- kernel/src/vfs.rs: mounts, open files, and the routing to file-system drivers. A driver is a record of operations
-- on the state `D` that all drivers share. The user that asks is an argument.
pub mod Mounts
pub mod Access
pub mod Resolve
pub mod Rights
pub mod Files
pub mod OverTmpfs
use dbsos.Common.{
  ℕ, zero, suc, ◌+◌, ◌-◌, ◌%◌, ◌^◌, min, Bool, true, false, not, ◌&&◌, ◌||◌, Option, none, some, ℤ,
  pos, negsuc, ◌==◌, ltb, leb, if◌then◌else◌, find_from, length, take, drop, List, [], ◌∷◌, ◌++◌,
  Array, update, bit_and,
}
use dbsos.Permissions.{Perm, Perms, can_read, can_write}
use dbsos.Permissions
use dbsos.Tmpfs.Dir.{StatInfo, DirEntry}
use Mounts.{MountEntry, MountTable, max_mounts, panicked, resolved, resolve_mount, strip_prefix}

abbrev pub max_open_files : ℕ
max_open_files = 64

pub record FsOps (D : Type 0) : Type 0 where
  pub open_op : (path : List ℕ) (flags : ℕ) → D → D × Option ℕ
  pub close_op : (handle : ℕ) → D → D
  pub read_op : (handle len offset : ℕ) → D → D × Option (ℕ × List ℕ)
  pub write_op : (handle : ℕ) (buf : List ℕ) (offset : ℕ) → D → D × Option ℕ
  pub stat_op : (path : List ℕ) → D → Option StatInfo
  pub readdir_op : (path : List ℕ) (room : ℕ) → D → D × Option (List DirEntry)
  pub mkdir_op : (path : List ℕ) → D → D × Bool
  pub rmdir_op : (path : List ℕ) → D → D × Bool
  pub unlink_op : (path : List ℕ) → D → D × Bool

pub record VfsFile : Type 0 where
  pub driver_idx : ℕ
  pub handle : ℕ
  pub offset : ℕ
  pub size : ℕ
  pub flags : ℕ

-- DRIVERS (`none` is a null pointer), DRIVER_COUNT, MOUNTS and OPEN_FILES; the permission table, and the drivers' own state.
pub record Vfs (D : Type 0) : Type 0 where
  pub drivers : Array (Option (FsOps D))
  pub driver_count : ℕ
  pub mounts : MountTable
  pub open_files : Array (Option VfsFile)
  pub perms : Perms
  pub disk : D

-- `i32` and `i64` results: -1.
abbrev pub failed : ℤ
failed = negsuc 0

abbrev pub is_closed : Option VfsFile → Bool
is_closed none = true
is_closed (some f) = false

-- `flags & 0x100 != 0`, and whether `open` asks for the right to write.
abbrev pub is_creat : ℕ → Bool
is_creat flags = not (bit_and flags 0x100 == 0)

abbrev pub need_write : ℕ → Bool
need_write flags = not (bit_and flags 1 == 0) || is_creat flags

abbrev pub size_of : Option StatInfo → ℕ
size_of none = 0
size_of (some info) = info.stat_size

module _ {D : Type 0} where
  -- `!0usize` where the registry is full.
  unfoldable pub register_driver : Option (FsOps D) → Vfs D → Vfs D × ℕ
  register_driver ops v = if leb max_mounts v.driver_count then (v, 2 ^ 64 - 1) else (
    record v { drivers = update v.drivers v.driver_count ops; driver_count = v.driver_count + 1 },
    v.driver_count,
  )

  unfoldable pub get_driver : ℕ → Vfs D → Option (FsOps D)
  get_driver idx v = if leb v.driver_count idx then none else v.drivers idx

  unfoldable pub mount : (prefix : List ℕ) (driver_idx : ℕ) → Vfs D → Vfs D × Bool
  mount prefix driver_idx v =
      if leb v.driver_count driver_idx then (v, false) else elim (Mounts.free_slot v.mounts) [
        | none ↦ (v, false)
        | some slot ↦ (record v { mounts = Mounts.add slot prefix driver_idx v.mounts }, true)
      ]

  -- The driver of a path, and the path below the mount. Where `resolve_mount` panics, the kernel stops, and no operation
  -- returns; the model has no driver there. The kernel mounts only "/", "/tmp" and "/home".
  unfoldable pub route : List ℕ → Vfs D → Option (ℕ × FsOps D × List ℕ)
  unfolding get_driver
  route path v = elim (resolve_mount path v.mounts) [
    | panicked ↦ none
    | resolved none ↦ none
    | resolved (some (driver_idx, prefix_len)) ↦ elim (get_driver driver_idx v) [
      | none ↦ none
      | some driver ↦ some (driver_idx, driver, strip_prefix path prefix_len)
    ]
  ]

  unfoldable pub stat : List ℕ → Vfs D → Option StatInfo
  stat path v = elim (route path v) [
    | none ↦ none
    | some (driver_idx, driver, rel) ↦ driver.stat_op rel v.disk
  ]

  -- `stat` returns 0.
  unfoldable pub exists : List ℕ → Vfs D → Bool
  exists path v = elim (stat path v) [ none ↦ false | some info ↦ true ]

  unfoldable pub is_dir : List ℕ → Vfs D → Bool
  is_dir path v = elim (stat path v) [ none ↦ false | some info ↦ info.stat_is_dir ]

  unfoldable pub file_size : List ℕ → Vfs D → Option ℕ
  file_size path v = elim (stat path v) [ none ↦ none | some info ↦ some info.stat_size ]

  abbrev pub free_fd : Vfs D → Option ℕ
  free_fd v = find_from max_open_files 0 (λ i. is_closed (v.open_files i))

  -- The permission check of `open`.
  unfoldable pub may_open : (uid : ℕ) (path : List ℕ) (flags : ℕ) → Vfs D → Bool
  may_open uid path flags v =
      if need_write flags
      then can_write uid v.perms path uid
        || (is_creat flags
            && (not (exists path v) && can_write uid v.perms (Mounts.parent_of path) uid))
      else can_read uid v.perms path uid

  -- `open` once the driver has opened the file.
  unfoldable pub install :
      (uid : ℕ) (path : List ℕ) (flags : ℕ) (existed_before : Bool) (driver_idx : ℕ)
      → FsOps D
      → (rel : List ℕ) (handle : ℕ) → Vfs D
      → Vfs D × ℤ
  install uid path flags existed_before driver_idx driver rel handle v =
      let size = size_of (driver.stat_op rel v.disk) in
      elim (free_fd v) [
        | none ↦ (record v { disk = driver.close_op handle v.disk }, failed)
        | some fd ↦
            let file : VfsFile = record {
              driver_idx = driver_idx;
              handle = handle;
              offset = 0;
              size = size;
              flags = flags;
            } in
            let perm : Perm = record { owner = uid; group = uid; mode = 0o644 } in
            (
              record v {
                open_files = update v.open_files fd (some file);
                perms =
                    if is_creat flags && not existed_before
                    then Permissions.set path perm v.perms
                    else v.perms;
              },
              pos fd,
            )
      ]

  unfoldable pub open_file : (uid : ℕ) (path : List ℕ) (flags : ℕ) → Vfs D → Vfs D × ℤ
  open_file uid path flags v =
      if may_open uid path flags v
      then elim (route path v) [
        | none ↦ (v, failed)
        | some (driver_idx, driver, rel) ↦ elim ((driver.open_op rel flags v.disk).1) [
          | none ↦ (record v { disk = (driver.open_op rel flags v.disk).0 }, failed)
          | some handle ↦
              install uid path flags (exists path v) driver_idx driver rel handle
                (record v { disk = (driver.open_op rel flags v.disk).0 })
        ]
      ]
      else (v, failed)
