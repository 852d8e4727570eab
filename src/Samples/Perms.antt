-- ===== src/Samples/Perms.antt =====
-- The theorems about kernel/src/permissions.rs at concrete inputs: an empty table, and a mode for /etc.
use dbsos.Common.{ℕ, ◌≡◌, refl, false, arith, bytes_eq, find_from, update, replicate, List}
use dbsos.Permissions.{Perm, no_perms, etc, home, get, set, find, can_read, can_write, can_exec}
use dbsos.Permissions
use dbsos.Permissions.Entries.{get-set}
use dbsos.Permissions.Checks.{IsShort}

calls : Unit {0}
unfolding set find get can_read can_write can_exec IsShort Permissions.find_entry
    Permissions.allowed Permissions.default_for Permissions.gid_of find_from update bytes_eq
calls = tt

abbrev private_of : ℕ → Perm
private_of owner = record { owner = owner; group = owner; mode = 0o700 }

abbrev long_path : List ℕ
long_path = replicate 65 97

get-set_example : get 9 (set etc (private_of 7) no_perms) home ≡ get 9 no_perms home
unfolding bytes_eq
get-set_example = get-set 9 no_perms etc home (private_of 7) 0 (omega arith) (omega arith) refl

-- Another user is kept out.
other_denied : can_read 9 (set etc (private_of 7) no_perms) etc 8 ≡ false
unfolding calls
other_denied = refl
