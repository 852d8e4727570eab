-- ===== src/Permissions.antt =====
-- kernel/src/permissions.rs: the side table of owners and modes, and the rwx checks. A path is a list of
-- bytes; the user that asks (`user::current_uid`) is an argument.
pub mod Entries
pub mod Checks
use dbsos.Common.{
  ℕ, ◌+◌, ◌-◌, ◌*◌, ◌/◌, ◌%◌, ◌≤◌, ◌<◌, ◌≡◌, refl, sym, ap, subst, ◌∙◌, ◌≢◌, ◌⊎◌, ◌↔◌, inl, inr,
  Bool, true, false, not, ◌&&◌, ◌||◌, Option, none, some, ℤ, pos, negsuc, arith, ◌==◌, ltb, leb,
  if◌then◌else◌, Bool-cases, Option-cases, find_from, find_from-eq-some, find_from-eq-none,
  find_from_total, find_from_first, update, update_lem, update_self, update_ne, Array, bit_and,
  bytes_eq, starts_with, length, take, min, List, [], ◌∷◌, ◌++◌,
}

-- `mode` holds the nine permission bits.
pub record Perm : Type 0 where
  pub owner : ℕ
  pub group : ℕ
  pub mode : ℕ

abbrev pub max_perms : ℕ
max_perms = 128

-- The path's bytes, and `len` of them.
pub record PermEntry : Type 0 where
  pub path : List ℕ
  pub len : ℕ
  pub perm : Perm

abbrev pub Perms : Type 0
Perms = Array (Option PermEntry)

-- `init`
abbrev pub no_perms : Perms
no_perms i = none

-- "/etc", "/root" and "/home"
abbrev pub etc : List ℕ
etc = 47 ∷ 101 ∷ 116 ∷ 99 ∷ []

abbrev pub root : List ℕ
root = 47 ∷ 114 ∷ 111 ∷ 111 ∷ 116 ∷ []

abbrev pub home : List ℕ
home = 47 ∷ 104 ∷ 111 ∷ 109 ∷ 101 ∷ []

unfoldable pub default_for : (current_uid : ℕ) → List ℕ → Perm
default_for current_uid path = record {
  owner = current_uid;
  group = current_uid;
  mode =
      if starts_with path etc || starts_with path root
      then 0o700
      else if starts_with path home
      then 0o755
      else 0o644;
}

-- `e.len as usize == path.len() && &e.path[..e.len as usize] == path`
abbrev pub names : List ℕ → PermEntry → Bool
names path e = e.len == length path && bytes_eq (take e.len e.path) path

abbrev pub entry_names : List ℕ → Option PermEntry → Bool
entry_names path none = false
entry_names path (some e) = names path e

-- The slot of the first entry for the path.
unfoldable pub find_entry : Perms → List ℕ → Option ℕ
find_entry perms path = find_from max_perms 0 (λ i. entry_names path (perms i))

abbrev pub perm_of : Option PermEntry → Option Perm
perm_of none = none
perm_of (some e) = some e.perm

unfoldable pub find : Perms → List ℕ → Option Perm
find perms path = elim (find_entry perms path) [ none ↦ none | some i ↦ perm_of (perms i) ]

unfoldable pub get : (current_uid : ℕ) → Perms → List ℕ → Perm
get current_uid perms path = elim (find perms path) [
  | none ↦ default_for current_uid path
  | some perm ↦ perm
]

abbrev pub is_none : Option PermEntry → Bool
is_none none = true
is_none (some e) = false

abbrev pub set_perm : Perm → Option PermEntry → Option PermEntry
set_perm perm none = none
set_perm perm (some e) = some (record e { perm = perm })

-- The new entry keeps 64 bytes of the path.
abbrev pub new_entry : List ℕ → Perm → PermEntry
new_entry path perm = record {
  path = take (min (length path) 64) path;
  len = min (length path) 64;
  perm = perm;
}

-- Changes the path's entry, or adds one in the first empty slot; a full table stays as it is.
unfoldable pub set : List ℕ → Perm → Perms → Perms
set path perm perms = elim (find_entry perms path) [
  | some i ↦ update perms i (set_perm perm (perms i))
  | none ↦ elim (find_from max_perms 0 (λ i. is_none (perms i))) [
    | some i ↦ update perms i (some (new_entry path perm))
    | none ↦ perms
  ]
]

-- The group of a user has the user's own number, whether the user is known or not.
unfoldable pub gid_of : ℕ → ℕ
gid_of uid = uid

-- One of the three bits of a right: for the owner, the group and the others.
unfoldable pub allowed : (owner_bit group_bit other_bit : ℕ) → Perm → ℕ → Bool
unfolding gid_of
allowed owner_bit group_bit other_bit perm uid =
    if uid == 0
    then true
    else if uid == perm.owner
    then not (bit_and perm.mode owner_bit == 0)
    else if gid_of uid == perm.group
    then not (bit_and perm.mode group_bit == 0)
    else not (bit_and perm.mode other_bit == 0)

unfoldable pub can_read : (current_uid : ℕ) → Perms → List ℕ → ℕ → Bool
unfolding allowed
can_read current_uid perms path uid = allowed 0o400 0o040 0o004 (get current_uid perms path) uid

unfoldable pub can_write : (current_uid : ℕ) → Perms → List ℕ → ℕ → Bool
unfolding allowed
can_write current_uid perms path uid = allowed 0o200 0o020 0o002 (get current_uid perms path) uid

unfoldable pub can_exec : (current_uid : ℕ) → Perms → List ℕ → ℕ → Bool
unfolding allowed
can_exec current_uid perms path uid = allowed 0o100 0o010 0o001 (get current_uid perms path) uid
