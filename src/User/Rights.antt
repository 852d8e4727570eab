-- ===== src/User/Rights.antt =====
-- kernel/src/user.rs: who becomes which user.
use dbsos.Common.{
  ℕ, ◌≡◌, refl, ap, ◌⊎◌, inl, inr, ◌||◌, ◌&&◌, true, false, not, none, some, List, ◌==◌, ltb,
  Bool-cases, Option-cases, update_self,
}
use dbsos.Kernel.{Kernel, set_task, current_task}
use dbsos.Scheduler.Task.{free, state_eq, max_tasks}
use dbsos.User.{
  UserDb, find_by_name, authenticate, current_uid, gid_for, set_current_uid, login, is_root,
  known_uid, set_uid_for_current,
}

current_uid_own :
    (uid : ℕ) (db : UserDb) (k : Kernel)
    → db.current ≡ uid
    → (current_task k).uid ≡ uid
    → current_uid db k ≡ uid
unfolding current_uid
current_uid_own uid db k same own =
    elim (Bool-cases (ltb k.current max_tasks && not (state_eq (current_task k).state free))) [
      | inl t ↦
          rw t
            (elim (Bool-cases (
              not ((current_task k).id == 0)
              || not ((current_task k).uid == 0)
              || db.current == 0)) [ inl a ↦ rw a own | inr a ↦ rw a same ])
      | inr t ↦ rw t same
    ]

current_uid_none :
    (uid : ℕ) (db : UserDb) (k : Kernel)
    → db.current ≡ uid
    → ltb k.current max_tasks ≡ false
    → current_uid db k ≡ uid
unfolding current_uid
current_uid_none uid db k same out = rw out same

set_uid_task :
    (uid : ℕ) (db : UserDb) (k : Kernel)
    → (current_task
        (set_task k.current (record (current_task k) { uid = uid; gid = gid_for uid db }) k)).uid
      ≡ uid
set_uid_task uid db k =
    ap (λ t. t.uid)
      (update_self k.tasks k.current (record (current_task k) { uid = uid; gid = gid_for uid db }))

-- Whatever the task and the number, the current user is then the one that was set.
current_uid-set_current_uid :
    (uid : ℕ) (db : UserDb) (k : Kernel)
    → current_uid (set_current_uid uid db k).0 (set_current_uid uid db k).1 ≡ uid
unfolding set_current_uid
current_uid-set_current_uid uid db k = elim (Bool-cases (ltb k.current max_tasks)) [
  | inl t ↦ rw t (
      current_uid_own uid (record db { current = uid })
        (set_task k.current (record (current_task k) { uid = uid; gid = gid_for uid db }) k) refl
        (set_uid_task uid db k))
  | inr t ↦ rw t (current_uid_none uid (record db { current = uid }) k refl t)
]

pub no_user :
    (name password : List ℕ) (db : UserDb)
    → find_by_name name db ≡ none
    → authenticate name password db ≡ false
unfolding authenticate
no_user name password db e = rw (e, authenticate) refl

-- What `login` comes to.
abbrev pub LoggedIn : (name password : List ℕ) → UserDb → Kernel → Type 0
LoggedIn name password db k =
    let (db', k', ok) = login name password db k in
    ((ok ≡ false) × (authenticate name password db ≡ false) × (db' ≡ db) × (k' ≡ k))
    ⊎ ((ok ≡ true)
        × (authenticate name password db ≡ true)
        × ((i : ℕ) × (find_by_name name db ≡ some i) × (current_uid db' k' ≡ (db.users i).uid)))

-- `login` changes nothing and returns false without the user's password. With it, the current user
-- becomes the user of that name, and it returns true.
pub login-LoggedIn :
    (name password : List ℕ) (db : UserDb) (k : Kernel) → LoggedIn name password db k
unfolding login
login-LoggedIn name password db k = elim (Bool-cases (authenticate name password db)) [
  | inl t ↦ elim (Option-cases (find_by_name name db)) [
    | inl e ↦ absurd (cc (t, no_user name password db e))
    | inr (i, e) ↦
        rw (t, e) (inr (refl, refl, (i, refl, current_uid-set_current_uid (db.users i).uid db k)))
  ]
  | inr t ↦ rw t (inl (refl, refl, refl, refl))
]

-- `set_uid_for_current` makes the current user the one that is asked for, if root asks and the
-- number is a user's or 0. Else it changes nothing, and returns false.
pub set_uid_for_current_guarded :
    (uid : ℕ) (db : UserDb) (k : Kernel)
    → ((set_uid_for_current uid db k ≡ (db, k, false))
        × ((is_root db k ≡ false) ⊎ (known_uid uid db ≡ false)))
      ⊎ ((is_root db k ≡ true)
          × (known_uid uid db ≡ true)
          × ((set_uid_for_current uid db k).2 ≡ true)
          × (current_uid (set_uid_for_current uid db k).0 (set_uid_for_current uid db k).1 ≡ uid))
unfolding set_uid_for_current
set_uid_for_current_guarded uid db k = elim (Bool-cases (known_uid uid db)) [
  | inl a ↦ elim (Bool-cases (is_root db k)) [
    | inl b ↦ rw (a, b) (inr (refl, refl, refl, current_uid-set_current_uid uid db k))
    | inr b ↦ rw (a, b) (inl (refl, inl refl))
  ]
  | inr a ↦ rw a (inl (refl, inr refl))
]
