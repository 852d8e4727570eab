-- ===== src/User/Saved.antt =====
-- kernel/src/user.rs: load_from_disk reads the table that save_to_disk wrote.
use mathlib.Core.List.{append_assoc, append-nil}
use dbsos.Common.{
  ℕ, zero, suc, ◌+◌, ◌-◌, ◌*◌, ◌^◌, ◌≤◌, ◌<◌, ◌≡◌, ◌≢◌, refl, ap, ◌∙◌, sym, subst, ◌⊎◌, inl, inr,
  true, false, some, List, [], ◌∷◌, ◌++◌, length, length-append, arith, ◌==◌, ltb, lt→ltb,
  Bool-cases, Array, update, update_self, update_ne,
}
use dbsos.User.{User, UserDb, max_users}
use dbsos.User.Numbers.{write_u32, write_u32_room, length-write_u32}
use dbsos.User.Passwd.{
  colon, newline, buf_len, pieces, user_of_line, put_byte, put_number, put_slice, put_user,
  put_users, passwd_bytes, load_line, load_lines, load_from_disk,
}
use dbsos.User.Lines.{Lacks, line_of, Lacks-write_u32, user_of_line-line_of, pieces-append}

-- What the file can hold of a user: numbers of 32 bits, and a name and a home without separators.
abbrev pub Savable : User → Type 0
Savable u =
    (u.uid < 2 ^ 32)
    × (u.gid < 2 ^ 32)
    × (u.password_hash < 2 ^ 32)
    × (u.salt < 2 ^ 32)
    × Lacks colon u.name
    × Lacks newline u.name
    × Lacks colon u.home
    × Lacks newline u.home
    × (length u.name ≤ 31)
    × (length u.home ≤ 63)
    × (u.active ≡ true)

put_byte_room : (c : ℕ) (out : List ℕ) → length out < buf_len → put_byte c out ≡ out ++ (c ∷ [])
unfolding put_byte
put_byte_room c out l = rw (lt→ltb (length out) buf_len l) refl

put_slice_room : (xs out : List ℕ) → length out + length xs < buf_len → put_slice xs out ≡ out ++ xs
unfolding put_slice
put_slice_room xs out l = rw (lt→ltb (length out + length xs) buf_len l) refl

put_field :
    (v : ℕ) (out : List ℕ)
    → length out ≤ 2000
    → put_byte colon (put_number v out) ≡ out ++ (write_u32 10 v ++ (colon ∷ []))
unfolding put_number
put_field v out l =
    let room = write_u32_room (buf_len - length out) v (omega arith) in
    let short : length (out ++ write_u32 10 v) < buf_len =
      omega (arith, length-append out (write_u32 10 v), length-write_u32 v) in
    rw room (
      put_byte_room colon (out ++ write_u32 10 v) short
      ∙ append_assoc out (write_u32 10 v) (colon ∷ []))

length-field : (v : ℕ) → length (write_u32 10 v ++ (colon ∷ [])) ≤ 11
length-field v = omega (arith, length-append (write_u32 10 v) (colon ∷ []), length-write_u32 v)

-- Where there is room, a user's line is written whole.
put_user-line_of :
    (u : User) (out : List ℕ)
    → length u.name ≤ 31
    → length u.home ≤ 63
    → length out ≤ 1900
    → put_user u out ≡ out ++ (line_of u ++ (newline ∷ []))
unfolding put_user
put_user-line_of u out ln lh lo =
    let f1 = write_u32 10 u.uid ++ (colon ∷ []) in
    let f2 = write_u32 10 u.gid ++ (colon ∷ []) in
    let f3 = write_u32 10 u.password_hash ++ (colon ∷ []) in
    let f4 = write_u32 10 u.salt ++ (colon ∷ []) in
    let o1 = out ++ f1 in
    let o2 = o1 ++ f2 in
    let o3 = o2 ++ f3 in
    let o4 = o3 ++ f4 in
    let o5 = o4 ++ u.name in
    let o6 = o5 ++ (colon ∷ []) in
    let o7 = o6 ++ u.home in
    let l1 : length o1 ≤ 1911 = omega (arith, length-append out f1, length-field u.uid) in
    let l2 : length o2 ≤ 1922 = omega (arith, length-append o1 f2, length-field u.gid) in
    let l3 : length o3 ≤ 1933 = omega (arith, length-append o2 f3, length-field u.password_hash) in
    let l4 : length o4 ≤ 1944 = omega (arith, length-append o3 f4, length-field u.salt) in
    let l5 : length o5 ≤ 1975 = omega (arith, length-append o4 u.name) in
    let l6 : length o6 ≤ 1976 = omega (arith, length-append o5 (colon ∷ [])) in
    let l7 : length o7 ≤ 2039 = omega (arith, length-append o6 u.home) in
    rw
      (
        put_field u.uid out (omega arith),
        put_field u.gid o1 (omega arith),
        put_field u.password_hash o2 (omega arith),
        put_field u.salt o3 (omega arith),
        put_slice_room u.name o4 (omega arith),
        put_byte_room colon o5 (omega arith),
        put_slice_room u.home o6 (omega arith),
        put_byte_room newline o7 (omega arith),
      )
      (simp append_assoc)

length-line_of : (u : User) → length u.name ≤ 31 → length u.home ≤ 63 → length (line_of u) ≤ 139
length-line_of u ln lh =
    let t5 : List ℕ = u.name ++ (colon ∷ u.home) in
    let t4 = write_u32 10 u.salt ++ (colon ∷ t5) in
    let t3 = write_u32 10 u.password_hash ++ (colon ∷ t4) in
    let t2 = write_u32 10 u.gid ++ (colon ∷ t3) in
    omega (
      arith,
      length-append u.name (colon ∷ u.home),
      length-append (write_u32 10 u.salt) (colon ∷ t5),
      length-append (write_u32 10 u.password_hash) (colon ∷ t4),
      length-append (write_u32 10 u.gid) (colon ∷ t3),
      length-append (write_u32 10 u.uid) (colon ∷ t2),
      length-write_u32 u.uid,
      length-write_u32 u.gid,
      length-write_u32 u.password_hash,
      length-write_u32 u.salt,
    )

-- The lines of the users from `i` on.
abbrev pub lines : (k i : ℕ) → Array User → List ℕ
lines zero i users = []
lines (suc k) i users = line_of (users i) ++ (newline ∷ lines k (suc i) users)

module _ (users : Array User) where
  put_users-lines :
      (k i : ℕ) (out : List ℕ)
      → ((j : ℕ) → j < i + k → Savable (users j))
      → length out + 140 * k ≤ 1900
      → put_users k i users out ≡ out ++ lines k i users
  unfolding put_users
  put_users-lines zero i out ok l = sym (append-nil out)
  put_users-lines (suc k) i out ok l =
      let (u, g, h, s, cn, nn, ch, nh, ln, lh, act) = ok i (omega arith) in
      let line = line_of (users i) ++ (newline ∷ []) in
      let short : length (out ++ line) ≤ length out + 140 = omega (
        arith,
        length-append out line,
        length-append (line_of (users i)) (newline ∷ []),
        length-line_of (users i) ln lh,
      ) in
      let more : ltb 1900 (length (out ++ line)) ≡ false = ground arith in
      rw
        (
          put_user-line_of (users i) out ln lh (omega arith),
          more,
          put_users-lines k (suc i) (out ++ line) (λ j b. ok j (omega arith)) (omega arith),
        )
        (simp append_assoc)

  Lacks-append : (c : ℕ) (xs ys : List ℕ) → Lacks c xs → Lacks c ys → Lacks c (xs ++ ys)
  Lacks-append c [] ys l m = m
  Lacks-append c (x ∷ xs) ys (n, l) m = (n, Lacks-append c xs ys l m)

  Lacks-line_of :
      (u : User) → Lacks newline u.name → Lacks newline u.home → Lacks newline (line_of u)
  Lacks-line_of u ln lh =
      let out : (newline < 48) ⊎ (57 < newline) = inl (omega arith) in
      let sep : colon ≢ newline = λ q. omega arith in
      Lacks-append newline (write_u32 10 u.uid) _ (Lacks-write_u32 newline u.uid out) (
        sep,
        Lacks-append newline (write_u32 10 u.gid) _ (Lacks-write_u32 newline u.gid out) (
          sep,
          Lacks-append newline (write_u32 10 u.password_hash) _
              (Lacks-write_u32 newline u.password_hash out)
              (
                sep,
                Lacks-append newline (write_u32 10 u.salt) _ (Lacks-write_u32 newline u.salt out)
                    (sep, Lacks-append newline u.name _ ln (sep, lh)),
              ),
        ),
      )

no_user_in_empty : (u : User) → user_of_line [] ≢ some u
unfolding user_of_line
no_user_in_empty u e = cc

active_kept : (u : User) → u.active ≡ true → record u { active = true } ≡ u
active_kept u e = ap (λ a. record u { active = a }) (sym e)

load_line_user :
    (l : List ℕ) (u : User) (db : UserDb)
    → user_of_line l ≡ some u
    → db.user_count < max_users
    → load_line l db
      ≡ record db { users = update db.users db.user_count u; user_count = db.user_count + 1 }
unfolding load_line
load_line_user [] u db e r = absurd (no_user_in_empty u e)
load_line_user (b ∷ l) u db e r = rw (e, load_line) (rw (lt→ltb db.user_count max_users r) refl)

load_line-line_of :
    (u : User) (db : UserDb)
    → Savable u
    → db.user_count < max_users
    → load_line (line_of u) db
      ≡ record db { users = update db.users db.user_count u; user_count = db.user_count + 1 }
load_line-line_of u db (us, g, h, s, cn, nn, ch, nh, ln, lh, act) room =
    load_line_user (line_of u) u db
      (user_of_line-line_of u us g h s cn ch ln lh ∙ ap some (active_kept u act)) room

load_lines-lines :
    (users : Array User) (k i : ℕ) (db : UserDb)
    → ((j : ℕ) → j < i + k → Savable (users j))
    → i + k ≤ max_users
    → db.user_count ≡ i
    → ((load_lines (pieces newline (lines k i users) []) db).user_count ≡ i + k)
      × ((j : ℕ)
          → j < i + k
          → (j < i → db.users j ≡ users j)
          → (load_lines (pieces newline (lines k i users) []) db).users j ≡ users j)
unfolding load_lines load_line pieces
load_lines-lines users zero i db ok room at = (omega arith, λ j b old. old (omega arith))
load_lines-lines users (suc k) i db ok room at =
    let (us, g, h, s, cn, nn, ch, nh, ln, lh, act) = ok i (omega arith) in
    let cut =
      pieces-append newline (line_of (users i)) (lines k (suc i) users) []
        (Lacks-line_of users (users i) nn nh) in
    let db1 : UserDb = record db {
      users = update db.users db.user_count (users i);
      user_count = db.user_count + 1;
    } in
    let (count, same) =
      load_lines-lines users k (suc i) db1 (λ j b. ok j (omega arith)) (omega arith)
        (omega arith) in
    let rest = pieces newline (lines k (suc i) users) [] in
    let step : load_lines (pieces newline (lines (suc k) i users) []) db ≡ load_lines rest db1 =
      ap (λ ls. load_lines ls db) cut
      ∙ ap (load_lines rest) (load_line-line_of (users i) db (ok i (omega arith)) (omega arith)) in
    rw step (
      omega (arith, count),
      λ j b old. same j (omega arith) (λ before. elim (Bool-cases (db.user_count == j)) [
        | inl e ↦
            let q : db.user_count ≡ j = ground arith in
            let here : update db.users db.user_count (users i) db.user_count ≡ users db.user_count =
              update_self db.users db.user_count (users i) ∙ ap users (sym at) in
            subst (λ m. update db.users db.user_count (users i) m ≡ users m) q here
        | inr e ↦
            let ne : db.user_count ≢ j = ground arith in
            update_ne db.users db.user_count j (users i) ne ∙ old (omega arith)
      ]),
    )

passwd_bytes-lines :
    (db : UserDb)
    → ((m : ℕ) → m < db.user_count → Savable (db.users m))
    → db.user_count ≤ 13
    → passwd_bytes db ≡ lines db.user_count 0 db.users
unfolding passwd_bytes
passwd_bytes-lines db ok few =
    put_users-lines db.users db.user_count 0 [] (λ j b. ok j (omega arith)) (omega arith)

length-lines : (k i : ℕ) (users : Array User) → k ≤ length (lines k i users)
length-lines zero i users = omega arith
length-lines (suc k) i users = omega (
  arith,
  length-append (line_of (users i)) (newline ∷ lines k (suc i) users),
  length-lines k (suc i) users,
)

-- For 1 to 13 users whose names and homes have no separators: what `save_to_disk` writes is read by
-- `load_from_disk`, into any table, as the same users in the same places.
pub load_from_disk-passwd_bytes :
    (db other : UserDb) (j : ℕ)
    → ((m : ℕ) → m < db.user_count → Savable (db.users m))
    → db.user_count ≤ 13
    → j < db.user_count
    → ((load_from_disk (passwd_bytes db) other).1 ≡ true)
      × ((load_from_disk (passwd_bytes db) other).0.user_count ≡ db.user_count)
      × ((load_from_disk (passwd_bytes db) other).0.users j ≡ db.users j)
unfolding load_from_disk
load_from_disk-passwd_bytes db other j ok few b =
    let (count, same) =
      load_lines-lines db.users db.user_count 0 (record other { user_count = 0 })
        (λ m c. ok m (omega arith)) (omega arith) refl in
    let some_bytes : (length (lines db.user_count 0 db.users) == 0) ≡ false =
      ground (arith, length-lines db.user_count 0 db.users) in
    let loaded =
      load_lines (pieces newline (lines db.user_count 0 db.users) [])
        (record other { user_count = 0 }) in
    let some_users : ltb 0 loaded.user_count ≡ true = ground arith in
    rw (passwd_bytes-lines db ok few, some_bytes)
      (some_users, omega (arith, count), same j (omega arith) (λ c. absurd (omega arith)))
