-- ===== src/User.antt =====
-- kernel/src/user.rs: the table of users, their passwords, and the user of the current task. A name is
-- the bytes up to its length. `ticks` is what the timer shows. The shell, which is always /bin/sh, the
-- making of the home directory and the file /etc/passwd are left out, but for the numbers in it.
pub mod Numbers
pub mod Passwd
pub mod Lines
pub mod Saved
pub mod Passwords
pub mod Rights
use Prim.Native.Nat.{bit_xor}
use dbsos.Common.{
  ℕ, zero, suc, ◌+◌, ◌*◌, ◌%◌, ◌^◌, Bool, true, false, not, ◌&&◌, ◌||◌, Option, none, some, List,
  [], ◌∷◌, ◌++◌, length, take, ◌==◌, ltb, if◌then◌else◌, find_from, Array, update, bytes_eq,
}
use dbsos.Kernel.{Kernel, set_task, current_task}
use dbsos.Scheduler.Task.{Task, free, state_eq, max_tasks}

pub record User : Type 0 where
  pub uid : ℕ
  pub gid : ℕ
  pub name : List ℕ
  pub home : List ℕ
  pub password_hash : ℕ
  pub salt : ℕ
  pub active : Bool

abbrev pub max_users : ℕ
max_users = 16

pub record UserDb : Type 0 where
  pub users : Array User
  pub user_count : ℕ
  pub current : ℕ

-- One byte of djb2; `salt` is 0 without a salt.
abbrev pub djb2 : (salt h b : ℕ) → ℕ
djb2 salt h b = (h * 33 + b + salt % 256) % 2 ^ 32

unfoldable pub hash_bytes : (salt h : ℕ) → List ℕ → ℕ
hash_bytes salt h [] = h
hash_bytes salt h (b ∷ pw) = hash_bytes salt (djb2 salt h b) pw

unfoldable pub hash_password : List ℕ → ℕ
unfolding hash_bytes
hash_password pw = hash_bytes 0 5381 pw

-- The rounds behind the hash.
unfoldable pub stretch : (rounds salt h : ℕ) → ℕ
stretch zero salt h = h
stretch (suc k) salt h = stretch k salt (bit_xor (h * 33 % 2 ^ 32) salt)

unfoldable pub hash_password_salted : List ℕ → ℕ → ℕ
unfolding hash_bytes stretch
hash_password_salted pw salt = stretch 100 salt (hash_bytes salt (bit_xor 5381 salt) pw)

unfoldable pub generate_salt : (ticks uid : ℕ) → List ℕ → ℕ
unfolding hash_bytes
generate_salt ticks uid name =
    let start = (ticks % 2 ^ 32 * 2654435761 % 2 ^ 32 + uid * 1597334677 % 2 ^ 32) % 2 ^ 32 in
    let h = hash_bytes 0 start name in if h == 0 then bit_xor 2654435769 uid else h

-- The hash and the salt of a new password; without a password both are 0.
unfoldable pub with_password : (ticks : ℕ) → (name pw : List ℕ) → User → User
with_password ticks name [] u = record u { password_hash = 0; salt = 0 }
with_password ticks name (b ∷ pw) u =
    let salt = generate_salt ticks u.uid name in
    record u { salt = salt; password_hash = hash_password_salted (b ∷ pw) salt }

abbrev pub empty_user : User
empty_user = record {
  uid = 0;
  gid = 0;
  name = [];
  home = [];
  password_hash = 0;
  salt = 0;
  active = false;
}

-- The table is left as it is when it is full.
unfoldable pub init_user_salted : (ticks uid gid : ℕ) → (name home pw : List ℕ) → UserDb → UserDb
init_user_salted ticks uid gid name home pw db =
    let u = record empty_user {
      uid = uid;
      gid = gid;
      name = take 31 name;
      home = take 63 home;
      active = true;
    } in
    if ltb db.user_count max_users
    then record db {
      users = update db.users db.user_count (with_password ticks name pw u);
      user_count = db.user_count + 1;
    }
    else db

abbrev pub no_users : UserDb
no_users = record { users = λ i. empty_user; user_count = 0; current = 0 }

-- The users that `init` makes: root, guest without a password, and user.
unfoldable pub default_users : (ticks : ℕ) → UserDb → UserDb
unfolding init_user_salted
default_users ticks db =
    let root = 114 ∷ 111 ∷ 111 ∷ 116 ∷ [] in
    let guest = 103 ∷ 117 ∷ 101 ∷ 115 ∷ 116 ∷ [] in
    let user = 117 ∷ 115 ∷ 101 ∷ 114 ∷ [] in
    let home = 47 ∷ 104 ∷ 111 ∷ 109 ∷ 101 ∷ 47 ∷ [] in
    let db1 = init_user_salted ticks 0 0 root (47 ∷ root) root db in
    let db2 = init_user_salted ticks 1000 1000 guest (home ++ guest) [] db1 in
    let db3 = init_user_salted ticks 1001 1001 user (home ++ user) user db2 in
    record db3 { current = 0 }

-- `position` in `USERS[..USER_COUNT]`
unfoldable pub find_by_name : List ℕ → UserDb → Option ℕ
find_by_name name db = find_from db.user_count 0 (λ i. bytes_eq (db.users i).name name)

unfoldable pub find_by_uid : ℕ → UserDb → Option ℕ
find_by_uid uid db = find_from db.user_count 0 (λ i. (db.users i).uid == uid)

unfoldable pub check_password : User → List ℕ → Bool
check_password u password =
    if u.password_hash == 0
    then true
    else if u.salt == 0
    then u.password_hash == hash_password password
    else u.password_hash == hash_password_salted password u.salt

unfoldable pub authenticate : (name password : List ℕ) → UserDb → Bool
authenticate name password db = elim (find_by_name name db) [
  | none ↦ false
  | some i ↦ check_password (db.users i) password
]

abbrev pub home_of : List ℕ → List ℕ
home_of name = (47 ∷ 104 ∷ 111 ∷ 109 ∷ 101 ∷ 47 ∷ []) ++ take 58 name

unfoldable pub add_user : (ticks : ℕ) → (name password : List ℕ) → UserDb → UserDb × Bool
add_user ticks [] password db = (db, false)
add_user ticks (b ∷ name) password db = elim (find_by_name (b ∷ name) db) [
  | some i ↦ (db, false)
  | none ↦
      let uid = 1000 + db.user_count in
      (init_user_salted ticks uid uid (b ∷ name) (home_of (b ∷ name)) password db, true)
]

unfoldable pub set_password : (ticks : ℕ) → (name new_pw : List ℕ) → UserDb → UserDb × Bool
set_password ticks name new_pw db = elim (find_by_name name db) [
  | none ↦ (db, false)
  | some i ↦
      (record db { users = update db.users i (with_password ticks name new_pw (db.users i)) }, true)
]

unfoldable pub current_uid : UserDb → Kernel → ℕ
current_uid db k =
    let t = current_task k in
    if ltb k.current max_tasks && not (state_eq t.state free)
    then if not (t.id == 0) || not (t.uid == 0) || db.current == 0 then t.uid else db.current
    else db.current

-- The group that goes with a user; the user's number if nobody has it.
unfoldable pub gid_for : ℕ → UserDb → ℕ
gid_for uid db = elim (find_by_uid uid db) [ none ↦ uid | some i ↦ (db.users i).gid ]

unfoldable pub set_current_uid : ℕ → UserDb → Kernel → UserDb × Kernel
set_current_uid uid db k = (
  record db { current = uid },
  if ltb k.current max_tasks
      then set_task k.current (record (current_task k) { uid = uid; gid = gid_for uid db }) k
      else k,
)

unfoldable pub login : (name password : List ℕ) → UserDb → Kernel → UserDb × Kernel × Bool
login name password db k =
    if authenticate name password db
    then elim (find_by_name name db) [
      | none ↦ (db, k, false)
      | some i ↦ let (db', k') = set_current_uid (db.users i).uid db k in (db', k', true)
    ]
    else (db, k, false)

abbrev pub is_root : UserDb → Kernel → Bool
is_root db k = current_uid db k == 0

abbrev pub known_uid : ℕ → UserDb → Bool
known_uid uid db = elim (find_by_uid uid db) [ none ↦ uid == 0 | some i ↦ true ]

unfoldable pub set_uid_for_current : ℕ → UserDb → Kernel → UserDb × Kernel × Bool
set_uid_for_current uid db k =
    if not (known_uid uid db) || not (is_root db k)
    then (db, k, false)
    else (let (db', k') = set_current_uid uid db k in (db', k', true))
