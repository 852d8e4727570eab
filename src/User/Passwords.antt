-- ===== src/User/Passwords.antt =====
-- kernel/src/user.rs: passwords that are set are the ones that authenticate.
use dbsos.Common.{
  ℕ, ◌+◌, ◌≤◌, ◌<◌, ◌≡◌, ◌≢◌, refl, sym, ap, subst, ◌∙◌, inl, inr, true, false, none, some, List,
  [], ◌∷◌, arith, ◌==◌, ==_iff, ltb, lt→ltb, Bool-cases, Option-cases, length, take, take_all,
  find_from-eq-some, find_from-eq-none, find_from_least, find_from_congr, update, update_self,
  update_ne, bytes_eq, bytes_eq→eq, bytes_eq_refl,
}
use dbsos.User.{
  User, UserDb, empty_user, max_users, hash_password_salted, generate_salt, with_password,
  init_user_salted, find_by_name, check_password, authenticate, home_of, add_user, set_password,
}
use dbsos.User.Rights.{no_user}

with_password-name :
    (ticks : ℕ) (name pw : List ℕ) (u : User) → (with_password ticks name pw u).name ≡ u.name
unfolding with_password
with_password-name ticks name [] u = refl
with_password-name ticks name (b ∷ pw) u = refl

-- A user's own password passes, if the salt is not 0.
check_password-with_password :
    (ticks : ℕ) (name pw : List ℕ) (u : User)
    → generate_salt ticks u.uid name ≢ 0
    → check_password (with_password ticks name pw u) pw ≡ true
unfolding with_password check_password
check_password-with_password ticks name [] u nz = refl
check_password-with_password ticks name (b ∷ pw) u nz =
    let salt = generate_salt ticks u.uid name in
    let salted : (salt == 0) ≡ false = ground arith in
    elim (Bool-cases (hash_password_salted (b ∷ pw) salt == 0)) [
      | inl z ↦ rw z refl
      | inr z ↦
          rw (z, salted)
            ((==_iff (hash_password_salted (b ∷ pw) salt) (hash_password_salted (b ∷ pw) salt)).1
              refl)
    ]

authenticate_found :
    (name password : List ℕ) (db : UserDb) (i : ℕ)
    → find_by_name name db ≡ some i
    → authenticate name password db ≡ check_password (db.users i) password
unfolding authenticate
authenticate_found name password db i e = rw (e, authenticate) refl

named :
    (name : List ℕ) (db : UserDb) (i : ℕ) → find_by_name name db ≡ some i → (db.users i).name ≡ name
unfolding find_by_name
named name db i e =
    bytes_eq→eq (db.users i).name name
      (find_from-eq-some (λ j. bytes_eq (db.users j).name name) db.user_count 0 e).2

module _ (ticks : ℕ) (name pw : List ℕ) (db : UserDb) (i : ℕ)
    (e : find_by_name name db ≡ some i) where
  abbrev changed : UserDb
  changed = record db { users = update db.users i (with_password ticks name pw (db.users i)) }

  set_password-changed : set_password ticks name pw db ≡ (changed, true)
  unfolding set_password
  set_password-changed = rw (e, set_password) refl

  name_kept : (j : ℕ) → (changed.users j).name ≡ (db.users j).name
  name_kept j = elim (Bool-cases (i == j)) [
    | inl q ↦
        let at : i ≡ j = ground arith in
        let own : (changed.users i).name ≡ (db.users i).name =
          ap (λ u. u.name) (update_self db.users i (with_password ticks name pw (db.users i)))
          ∙ with_password-name ticks name pw (db.users i) in
        subst (λ k. (changed.users k).name ≡ (db.users k).name) at own
    | inr q ↦
        ap (λ u. u.name)
          (update_ne db.users i j (with_password ticks name pw (db.users i)) (ground arith))
  ]

  found_kept : (other : List ℕ) → find_by_name other changed ≡ find_by_name other db
  unfolding find_by_name
  found_kept other =
      find_from_congr db.user_count 0 _ _ (λ j. ap (λ n. bytes_eq n other) (name_kept j))

  -- After `set_password` for a user, the new password authenticates, if the new salt is not 0; for any
  -- other name, the same passwords do as before.
  pub set_password-authenticate :
      (other q : List ℕ)
      → generate_salt ticks (db.users i).uid name ≢ 0
      → other ≢ name
      → (authenticate name pw (set_password ticks name pw db).0 ≡ true)
        × (authenticate other q (set_password ticks name pw db).0 ≡ authenticate other q db)
  set_password-authenticate other q nz ne = rw set_password-changed (
    authenticate_found name pw changed i (found_kept name ∙ e)
        ∙ ap (λ u. check_password u pw)
            (update_self db.users i (with_password ticks name pw (db.users i)))
        ∙ check_password-with_password ticks name pw (db.users i) nz,
    elim (Option-cases (find_by_name other db)) [
      | inl n ↦ no_user other q changed (found_kept other ∙ n) ∙ sym (no_user other q db n)
      | inr (j, f) ↦
          let apart : i ≢ j = λ z.
            ne (
              sym (named other db j f) ∙ ap (λ k. (db.users k).name) (sym z) ∙ named name db i e) in
          authenticate_found other q changed j (found_kept other ∙ f)
          ∙ ap (λ u. check_password u q)
              (update_ne db.users i j (with_password ticks name pw (db.users i)) apart)
          ∙ sym (authenticate_found other q db j f)
    ],
  )

-- `add_user` of a name that nobody has, where the table is full: it returns true, and the name still
-- does not authenticate, with any password.
pub add_user_full :
    (ticks b : ℕ) (name pw q : List ℕ) (db : UserDb)
    → find_by_name (b ∷ name) db ≡ none
    → max_users ≤ db.user_count
    → ((add_user ticks (b ∷ name) pw db).1 ≡ true)
      × (authenticate (b ∷ name) q (add_user ticks (b ∷ name) pw db).0 ≡ false)
unfolding add_user init_user_salted
add_user_full ticks b name pw q db e l =
    let full : ltb db.user_count max_users ≡ false = ground arith in
    rw (e, add_user) (rw full (refl, no_user (b ∷ name) q db e))

module _ (ticks b : ℕ) (name pw : List ℕ) (db : UserDb) (e : find_by_name (b ∷ name) db ≡ none)
    (room : db.user_count < max_users) (short : length (b ∷ name) ≤ 31) where
  abbrev new_uid : ℕ
  new_uid = 1000 + db.user_count

  abbrev blank : User
  blank = record empty_user {
    uid = new_uid;
    gid = new_uid;
    name = take 31 (b ∷ name);
    home = take 63 (home_of (b ∷ name));
    active = true;
  }

  abbrev new_user : User
  new_user = with_password ticks (b ∷ name) pw blank

  abbrev added : UserDb
  added = record db {
    users = update db.users db.user_count new_user;
    user_count = db.user_count + 1;
  }

  add_user-added : add_user ticks (b ∷ name) pw db ≡ (added, true)
  unfolding add_user init_user_salted
  add_user-added = rw (e, add_user) (rw (lt→ltb db.user_count max_users room) refl)

  new_name : (added.users db.user_count).name ≡ b ∷ name
  new_name =
      ap (λ u. u.name) (update_self db.users db.user_count new_user)
      ∙ with_password-name ticks (b ∷ name) pw blank
      ∙ take_all 31 (b ∷ name) short

  found_added : find_by_name (b ∷ name) added ≡ some db.user_count
  unfolding find_by_name
  found_added =
      find_from_least (λ j. bytes_eq (added.users j).name (b ∷ name)) (db.user_count + 1) 0
        db.user_count (omega arith) (omega arith) (rw new_name (bytes_eq_refl (b ∷ name)))
        (λ m l u. rw (update_ne db.users db.user_count m new_user (λ z. omega arith)) (
          find_from-eq-none (λ j. bytes_eq (db.users j).name (b ∷ name)) db.user_count 0 m e l
            (omega arith)))

  -- `add_user` of a name of 1 to 31 bytes that nobody has, where the table has room: it returns true, and the name
  -- authenticates with the password, if the new salt is not 0.
  pub add_user-authenticate :
      generate_salt ticks (1000 + db.user_count) (b ∷ name) ≢ 0
      → ((add_user ticks (b ∷ name) pw db).1 ≡ true)
        × (authenticate (b ∷ name) pw (add_user ticks (b ∷ name) pw db).0 ≡ true)
  add_user-authenticate nz = rw add_user-added (
    refl,
    authenticate_found (b ∷ name) pw added db.user_count found_added
        ∙ ap (λ u. check_password u pw) (update_self db.users db.user_count new_user)
        ∙ check_password-with_password ticks (b ∷ name) pw blank nz,
  )
