-- ===== src/User/Passwd.antt =====
-- kernel/src/user.rs: the lines of /etc/passwd. A buffer is the list of the bytes before `pos`.
use dbsos.Common.{
  ℕ, zero, suc, ◌+◌, ◌-◌, Bool, true, false, Option, none, some, List, [], ◌∷◌, ◌++◌, length, take,
  ◌==◌, ltb, if◌then◌else◌, Array, update,
}
use dbsos.User.{User, UserDb, max_users}
use dbsos.User.Numbers.{write_u32, parse_u32}

abbrev pub buf_len : ℕ
buf_len = 2048

abbrev pub colon : ℕ
colon = 58

abbrev pub newline : ℕ
newline = 10

-- `if pos < buf.len() { buf[pos] = c; pos += 1 }`
unfoldable pub put_byte : ℕ → List ℕ → List ℕ
put_byte c out = if ltb (length out) buf_len then out ++ (c ∷ []) else out

unfoldable pub put_number : ℕ → List ℕ → List ℕ
put_number v out = out ++ write_u32 (buf_len - length out) v

-- A slice that does not fit is left out.
unfoldable pub put_slice : List ℕ → List ℕ → List ℕ
put_slice xs out = if ltb (length out + length xs) buf_len then out ++ xs else out

-- One round of the loop of `save_to_disk`.
unfoldable pub put_user : User → List ℕ → List ℕ
put_user u out =
    let o1 = put_byte colon (put_number u.uid out) in
    let o2 = put_byte colon (put_number u.gid o1) in
    let o3 = put_byte colon (put_number u.password_hash o2) in
    let o4 = put_byte colon (put_number u.salt o3) in
    put_byte newline (put_slice u.home (put_byte colon (put_slice u.name o4)))

-- The loop, which stops behind byte 1900, over `k` users from `i` on.
unfoldable pub put_users : (k i : ℕ) → Array User → List ℕ → List ℕ
put_users zero i users out = out
put_users (suc k) i users out =
    let next = put_user (users i) out in
    let rest = put_users k (suc i) users next in if ltb 1900 (length next) then next else rest

unfoldable pub passwd_bytes : UserDb → List ℕ
passwd_bytes db = put_users db.user_count 0 db.users []

-- The pieces between the bytes `c`; `cur` is what the piece has so far.
unfoldable pub pieces : (c : ℕ) → List ℕ → (cur : List ℕ) → List (List ℕ)
pieces c [] cur = cur ∷ []
pieces c (b ∷ bs) cur = if b == c then cur ∷ pieces c bs [] else pieces c bs (cur ++ (b ∷ []))

abbrev pub all_four : Option ℕ → Option ℕ → Option ℕ → Option ℕ → (name home : List ℕ) → Option User
all_four (some uid) (some gid) (some hash) (some salt) name home = some (record {
  uid = uid;
  gid = gid;
  name = take 31 name;
  home = take 63 home;
  password_hash = hash;
  salt = salt;
  active = true;
})
all_four _ _ _ _ name home = none

-- A line has six parts at least; further ones are dropped.
unfoldable pub user_of_parts : List (List ℕ) → Option User
user_of_parts (a ∷ b ∷ c ∷ d ∷ name ∷ home ∷ more) =
    all_four (parse_u32 a) (parse_u32 b) (parse_u32 c) (parse_u32 d) name home
user_of_parts _ = none

unfoldable pub user_of_line : List ℕ → Option User
unfolding user_of_parts pieces
user_of_line line = user_of_parts (pieces colon line [])

-- A line that is a user's goes to the end of the table, if that has room.
unfoldable pub load_line : List ℕ → UserDb → UserDb
load_line [] db = db
load_line (b ∷ line) db = elim (user_of_line (b ∷ line)) [
  | none ↦ db
  | some u ↦
      if ltb db.user_count max_users
      then record db { users = update db.users db.user_count u; user_count = db.user_count + 1 }
      else db
]

unfoldable pub load_lines : List (List ℕ) → UserDb → UserDb
load_lines [] db = db
load_lines (l ∷ ls) db = load_lines ls (load_line l db)

-- `load_from_disk` on the bytes of the file, and whether it loaded a user.
unfoldable pub load_from_disk : List ℕ → UserDb → UserDb × Bool
load_from_disk bytes db =
    let loaded = load_lines (pieces newline bytes []) (record db { user_count = 0 }) in
    if length bytes == 0 then (db, false) else (loaded, ltb 0 loaded.user_count)
