-- ===== src/Permissions/Checks.antt =====
-- kernel/src/permissions.rs: what the checks grant.
use dbsos.Common.{
  ℕ, ◌≤◌, ◌<◌, ◌≡◌, refl, sym, subst, inl, inr, true, ◌||◌, Option, none, some, arith, ◌==◌,
  Option-cases, find_from, bytes_eq_refl, update, length, List,
}
use dbsos.Permissions.{
  Perm, PermEntry, Perms, entry_names, find_entry, find, get, is_none, set_perm, set, default_for,
  allowed, can_read, can_write, can_exec, gid_of,
}
use dbsos.Permissions.Entries.{find_entry-names, get-set}

-- After `set` with mode 0o700 on a path of at most 64 bytes, in a table with an empty slot, the user 0 and the
-- owner may read, write and execute it, and nobody else may.
pub set_private :
    (user : ℕ) (perms : Perms) (p : List ℕ) (perm : Perm) (i uid : ℕ)
    → length p ≤ 64
    → i < 128
    → is_none (perms i) ≡ true
    → perm.mode ≡ 0o700
    → (can_read user (set p perm perms) p uid ≡ (uid == 0 || uid == perm.owner))
      × (can_write user (set p perm perms) p uid ≡ (uid == 0 || uid == perm.owner))
      × (can_exec user (set p perm perms) p uid ≡ (uid == 0 || uid == perm.owner))
unfolding can_read can_write can_exec allowed gid_of
set_private user perms p perm i uid short h free e =
    let r = get-set user perms p p perm i short h free in
    let s = bytes_eq_refl p in rw (r, s, e) (ground arith)

-- A path without an entry is open to the user that asks: whatever the path, the user may read and write it.
pub find-none_grants :
    (user : ℕ) (perms : Perms) (p : List ℕ)
    → find perms p ≡ none
    → (can_read user perms p user ≡ true) × (can_write user perms p user ≡ true)
unfolding can_read can_write allowed get default_for
find-none_grants user perms p e = rw (e, get) (ground arith)

abbrev pub len_of : Option PermEntry → ℕ
len_of none = 0
len_of (some e) = e.len

-- No entry keeps more than 64 bytes.
unfoldable pub IsShort : Perms → Type 0
IsShort perms = (i : ℕ) → len_of (perms i) ≤ 64

update-IsShort :
    (perms : Perms) (i : ℕ) (o : Option PermEntry)
    → len_of o ≤ 64
    → IsShort perms
    → IsShort (update perms i o)
unfolding IsShort update
update-IsShort perms i o a h j = ground (arith, h j)

len_of-set_perm : (perm : Perm) (o : Option PermEntry) → len_of (set_perm perm o) ≡ len_of o
len_of-set_perm perm none = refl
len_of-set_perm perm (some e) = refl

set-IsShort :
    (perms : Perms) (p : List ℕ) (perm : Perm) → IsShort perms → IsShort (set p perm perms)
unfolding set IsShort
set-IsShort perms p perm h = elim (Option-cases (find_entry perms p)) [
  | inr (j, g) ↦ rw (g, set) (update-IsShort perms j _ (short j) h)
  | inl g ↦ elim (Option-cases (find_from 128 0 (λ i. is_none (perms i)))) [
    | inl k ↦ rw (g, k, set) h
    | inr (j, k) ↦ rw (g, k, set) (update-IsShort perms j _ (omega arith) h)
  ]
]
  where
    short : (j : ℕ) → len_of (set_perm perm (perms j)) ≤ 64
    short j = subst (λ n. n ≤ 64) (sym (len_of-set_perm perm (perms j))) (h j)

len_of-names : (p : List ℕ) (o : Option PermEntry) → entry_names p o ≡ true → len_of o ≡ length p
len_of-names p none e = cc
len_of-names p (some x) e = ground arith

find-IsShort : (perms : Perms) (p : List ℕ) → IsShort perms → 64 < length p → find perms p ≡ none
unfolding IsShort find
find-IsShort perms p h l = elim (Option-cases (find_entry perms p)) [
  | inl e ↦ rw (e, find) refl
  | inr (i, e) ↦
      let (a, b) = find_entry-names perms p e in
      absurd (ground (arith, len_of-names p (perms i) b, h i))
]

-- Where every entry keeps at most 64 bytes of its path, `set` with a path of more than 64 bytes keeps that so,
-- and has no effect on that path: `get` reads the default, open to the user that asks.
pub set_long :
    (user : ℕ) (perms : Perms) (p : List ℕ) (perm : Perm)
    → IsShort perms
    → 64 < length p
    → IsShort (set p perm perms)
      × (find (set p perm perms) p ≡ none)
      × (can_read user (set p perm perms) p user ≡ true)
      × (can_write user (set p perm perms) p user ≡ true)
set_long user perms p perm h l =
    let short = set-IsShort perms p perm h in
    let e = find-IsShort (set p perm perms) p short l in
    let (r, w) = find-none_grants user (set p perm perms) p e in (short, e, r, w)
