-- ===== src/Samples/Users.antt =====
-- The theorems about kernel/src/user.rs at concrete inputs: the users that init makes.
use dbsos.Common.{
  suc, ◌<◌, ℕ, zero, ◌≡◌, ◌≢◌, refl, ap, length, true, false, none, some, List, [], ◌∷◌, arith,
  find_from, update, bytes_eq,
}
use dbsos.User
use dbsos.User.{
  User, UserDb, empty_user, no_users, max_users, default_users, generate_salt, find_by_name,
  authenticate, add_user, set_password, current_uid, login,
}
use dbsos.User.Numbers
use dbsos.User.Numbers.{write_u32, parse_u32, parse_u32-write_u32}
use dbsos.User.Passwords.{set_password-authenticate, add_user_full}
use dbsos.User.Rights.{LoggedIn, login-LoggedIn}
use dbsos.User.Passwd.{passwd_bytes, load_from_disk}
use dbsos.User.Passwd
use dbsos.User.Saved.{Savable, load_from_disk-passwd_bytes}
use dbsos.Samples.{started}

-- What the calls below compute with.
calls : Unit {0}
unfolding default_users generate_salt find_by_name authenticate add_user set_password current_uid
    login User.init_user_salted User.with_password User.check_password User.hash_password
    User.hash_password_salted User.hash_bytes User.stretch User.set_current_uid User.gid_for
    User.find_by_uid write_u32 parse_u32 Numbers.digits Numbers.parse_from find_from update bytes_eq
calls = tt

abbrev root_name : List ℕ
root_name = 114 ∷ 111 ∷ 111 ∷ 116 ∷ []

abbrev guest : List ℕ
guest = 103 ∷ 117 ∷ 101 ∷ 115 ∷ 116 ∷ []

abbrev wrong : List ℕ
wrong = 114 ∷ 111 ∷ 111 ∷ []

unfoldable db : UserDb
db = default_users 7 no_users

root_result :
    (authenticate root_name root_name db ≡ true) × (authenticate root_name wrong db ≡ false)
unfolding calls db
root_result = (refl, refl)

-- A user without a password passes with any.
guest_result : authenticate guest wrong db ≡ true
unfolding calls db
guest_result = refl

-- A name of more than 31 bytes is cut in the table, and is not found again.
abbrev long_name : List ℕ
long_name =
    97 ∷ 97 ∷ 97 ∷ 97 ∷ 97 ∷ 97 ∷ 97 ∷ 97 ∷ 97 ∷ 97 ∷ 97 ∷ 97 ∷ 97 ∷ 97 ∷ 97 ∷ 97 ∷ 97 ∷ 97 ∷ 97
    ∷ 97 ∷ 97 ∷ 97 ∷ 97 ∷ 97 ∷ 97 ∷ 97 ∷ 97 ∷ 97 ∷ 97 ∷ 97 ∷ 97 ∷ 97 ∷ []

long_result :
    ((add_user 7 long_name root_name db).1 ≡ true)
    × (authenticate long_name root_name (add_user 7 long_name root_name db).0 ≡ false)
unfolding calls db
long_result = (refl, refl)

number_result : write_u32 100 65535 ≡ 54 ∷ 53 ∷ 53 ∷ 51 ∷ 53 ∷ []
unfolding calls
number_result = refl

guest_at : find_by_name guest db ≡ some 1
unfolding calls db
guest_at = refl

salted : generate_salt 9 (db.users 1).uid guest ≢ 0
unfolding calls db
salted z = omega arith

set_password-authenticate_example :
    (authenticate guest wrong (set_password 9 guest wrong db).0 ≡ true)
    × (authenticate root_name root_name (set_password 9 guest wrong db).0
        ≡ authenticate root_name root_name db)
set_password-authenticate_example =
    set_password-authenticate 9 guest wrong db 1 guest_at root_name root_name salted
      (λ e. omega (arith, ap length e))

-- A full table: sixteen users without names.
abbrev full : UserDb
full = record {
  users = λ i. record empty_user { uid = i; active = true };
  user_count = 16;
  current = 0;
}

nobody : find_by_name guest full ≡ none
unfolding calls
nobody = refl

add_user_full_example :
    ((add_user 9 guest root_name full).1 ≡ true)
    × (authenticate guest root_name (add_user 9 guest root_name full).0 ≡ false)
add_user_full_example =
    add_user_full 9 103 (117 ∷ 101 ∷ 115 ∷ 116 ∷ []) root_name root_name full nobody (omega arith)

login_result :
    current_uid (login guest root_name db started).0 (login guest root_name db started).1 ≡ 1000
unfolding calls db started
login_result = refl

login-LoggedIn_example : LoggedIn guest root_name db started
login-LoggedIn_example = login-LoggedIn guest root_name db started

-- One user, with the number 1000 and a password.
unfoldable one_user : UserDb
one_user = (add_user 7 guest wrong no_users).0

one_result :
    passwd_bytes one_user
    ≡ 49 ∷ 48 ∷ 48 ∷ 48 ∷ 58 ∷ 49 ∷ 48 ∷ 48 ∷ 48 ∷ 58 ∷ 49 ∷ 54 ∷ 48 ∷ 56 ∷ 50 ∷ 57 ∷ 57 ∷ 51 ∷ 54
      ∷ 55 ∷ 58 ∷ 51 ∷ 56 ∷ 53 ∷ 52 ∷ 49 ∷ 54 ∷ 56 ∷ 48 ∷ 55 ∷ 58 ∷ 103 ∷ 117 ∷ 101 ∷ 115 ∷ 116 ∷ 58
      ∷ 47 ∷ 104 ∷ 111 ∷ 109 ∷ 101 ∷ 47 ∷ 103 ∷ 117 ∷ 101 ∷ 115 ∷ 116 ∷ 10 ∷ []
unfolding calls one_user passwd_bytes Passwd.put_users Passwd.put_user Passwd.put_byte
    Passwd.put_number Passwd.put_slice
one_result = refl

one_count : one_user.user_count ≡ 1
unfolding calls one_user
one_count = refl

one_user-Savable : (m : ℕ) → m < one_user.user_count → Savable (one_user.users m)
unfolding calls one_user
one_user-Savable zero c = (
  omega arith,
  omega arith,
  omega arith,
  omega arith,
  (
    (λ q. omega arith),
    ((λ q. omega arith), ((λ q. omega arith), ((λ q. omega arith), ((λ q. omega arith), tt)))),
  ),
  (
    (λ q. omega arith),
    ((λ q. omega arith), ((λ q. omega arith), ((λ q. omega arith), ((λ q. omega arith), tt)))),
  ),
  (
    (λ q. omega arith),
    (
      (λ q. omega arith),
      (
        (λ q. omega arith),
        (
          (λ q. omega arith),
          (
            (λ q. omega arith),
            (
              (λ q. omega arith),
              (
                (λ q. omega arith),
                (
                  (λ q. omega arith),
                  ((λ q. omega arith), ((λ q. omega arith), ((λ q. omega arith), tt))),
                ),
              ),
            ),
          ),
        ),
      ),
    ),
  ),
  (
    (λ q. omega arith),
    (
      (λ q. omega arith),
      (
        (λ q. omega arith),
        (
          (λ q. omega arith),
          (
            (λ q. omega arith),
            (
              (λ q. omega arith),
              (
                (λ q. omega arith),
                (
                  (λ q. omega arith),
                  ((λ q. omega arith), ((λ q. omega arith), ((λ q. omega arith), tt))),
                ),
              ),
            ),
          ),
        ),
      ),
    ),
  ),
  omega arith,
  omega arith,
  refl,
)
one_user-Savable (suc m) c = absurd (omega arith)

load_from_disk-passwd_bytes_example :
    ((load_from_disk (passwd_bytes one_user) no_users).1 ≡ true)
    × ((load_from_disk (passwd_bytes one_user) no_users).0.user_count ≡ one_user.user_count)
    × ((load_from_disk (passwd_bytes one_user) no_users).0.users 0 ≡ one_user.users 0)
load_from_disk-passwd_bytes_example =
    load_from_disk-passwd_bytes one_user no_users 0 one_user-Savable (omega (arith, one_count))
      (omega (arith, one_count))
