-- ===== src/Vfs/Mounts.antt =====
-- kernel/src/vfs.rs: the mount table, and paths below a mount. 47 is '/'.
use dbsos.Common.{
  ℕ, zero, suc, ◌-◌, min, Bool, true, false, not, ◌&&◌, Option, none, some, ◌==◌, ltb, leb,
  if◌then◌else◌, find_from, length, take, drop, get_or, List, [], ◌∷◌, ◌++◌, Array, update,
  bytes_eq, replicate,
}

abbrev pub max_mounts : ℕ
max_mounts = 8

abbrev pub max_path : ℕ
max_path = 128

pub record MountEntry : Type 0 where
  pub prefix : List ℕ
  pub prefix_len : ℕ
  pub driver_idx : ℕ
  pub in_use : Bool

abbrev pub MountTable : Type 0
MountTable = Array MountEntry

abbrev pub no_mounts : MountTable
no_mounts i = record {
  prefix = replicate max_path 0;
  prefix_len = 0;
  driver_idx = 0;
  in_use = false;
}

unfoldable pub free_slot : MountTable → Option ℕ
free_slot mounts = find_from max_mounts 0 (λ i. not (mounts i).in_use)

-- `mount` once it has a slot: at most 127 bytes of the prefix are kept.
unfoldable pub add : (slot : ℕ) (prefix : List ℕ) (driver_idx : ℕ) → MountTable → MountTable
add slot prefix driver_idx mounts =
    let len = min (length prefix) (max_path - 1) in
    update mounts slot (record {
      prefix = take len prefix ++ drop len (mounts slot).prefix;
      prefix_len = len;
      driver_idx = driver_idx;
      in_use = true;
    })

-- The prefix ends inside a name of the path. `resolve_mount` looks at this only of a prefix that is not empty, or
-- of an empty path: see panics_at.
abbrev pub splits_name : List ℕ → MountEntry → Bool
splits_name path m =
    not (m.prefix_len == 1)
    && (ltb m.prefix_len (length path)
        && (not (get_or (take m.prefix_len m.prefix) (m.prefix_len - 1) 0 == 47)
            && not (get_or path m.prefix_len 0 == 47)))

-- The path lies below the mount.
abbrev pub covers : List ℕ → MountEntry → Bool
covers path m =
    m.in_use
    && (leb m.prefix_len (length path)
        && (bytes_eq (take m.prefix_len path) (take m.prefix_len m.prefix)
            && not (splits_name path m)))

-- The loop of `resolve_mount`, with `k` mounts to go from `i` on: the driver and the length of the longest prefix.
unfoldable pub longest : List ℕ → MountTable → (k i best_len : ℕ) → Option (ℕ × ℕ) → Option (ℕ × ℕ)
longest path mounts zero i best_len best = best
longest path mounts (suc k) i best_len best =
    let m = mounts i in
    let better = covers path m && ltb best_len m.prefix_len in
    longest path mounts k (suc i) (if better then m.prefix_len else best_len)
      (if better then some (m.driver_idx, m.prefix_len) else best)

-- The root mount, which a path falls back to.
abbrev pub is_root : MountEntry → Bool
is_root m = m.in_use && (m.prefix_len == 1 && get_or m.prefix 0 0 == 47)

abbrev pub root_mount : MountTable → Option (ℕ × ℕ)
root_mount mounts = elim (find_from max_mounts 0 (λ i. is_root (mounts i))) [
  | none ↦ none
  | some i ↦ some ((mounts i).driver_idx, 1)
]

-- `pfx[m.prefix_len - 1]` of an empty prefix: the index is out of range. The check is reached, as an empty prefix is a
-- prefix of every path, and shorter than a path that is not empty.
abbrev pub panics_at : List ℕ → MountEntry → Bool
panics_at path m = m.in_use && (m.prefix_len == 0 && ltb 0 (length path))

pub data Resolved : Type 0 where
  panicked : Resolved
  resolved : Option (ℕ × ℕ) → Resolved

-- The loop over the mounts has no early return, so it panics if it does so at any mount.
unfoldable pub resolve_mount : List ℕ → MountTable → Resolved
unfolding longest
resolve_mount path mounts = elim (find_from max_mounts 0 (λ i. panics_at path (mounts i))) [
  | some i ↦ panicked
  | none ↦ resolved (elim (longest path mounts max_mounts 0 0 none) [
    | some best ↦ some best
    | none ↦ root_mount mounts
  ])
]

unfoldable pub skip_slashes : List ℕ → List ℕ
skip_slashes [] = []
skip_slashes (x ∷ xs) = if x == 47 then skip_slashes xs else x ∷ xs

unfoldable pub strip_prefix : List ℕ → ℕ → List ℕ
unfolding skip_slashes
strip_prefix full_path prefix_len = skip_slashes (drop prefix_len full_path)

-- `rposition` of '/'.
unfoldable pub last_slash : List ℕ → Option ℕ
last_slash [] = none
last_slash (x ∷ xs) = elim (last_slash xs) [
  | some i ↦ some (suc i)
  | none ↦ if x == 47 then some 0 else none
]

unfoldable pub parent_of : List ℕ → List ℕ
unfolding last_slash
parent_of path = elim (last_slash path) [
  | none ↦ 47 ∷ []
  | some i ↦ if i == 0 then 47 ∷ [] else take i path
]
