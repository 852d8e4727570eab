-- ===== src/User/Lines.antt =====
-- kernel/src/user.rs: a line that save_to_disk writes for a user is the user's when it is read back.
use dbsos.User.Numbers.{length-digits, digits, write_u32, parse_u32-write_u32}
use dbsos.Common.{
  ◌/◌, ℕ, zero, suc, ◌+◌, ◌%◌, ◌⊎◌, ◌^◌, ◌≤◌, ◌<◌, ◌≡◌, ◌≢◌, refl, ap, true, false, some, List, [],
  ◌∷◌, ◌++◌, length, take_all, arith, ◌==◌, ==_iff, Bool-cases, inl, inr,
}
use mathlib.Core.List.{append_assoc, append-nil}
use dbsos.User.{User}
use dbsos.User.Passwd.{colon, pieces, user_of_parts, user_of_line}

-- The byte `c` is not among the bytes.
abbrev pub Lacks : ℕ → List ℕ → Type 0
Lacks c [] = Unit {0}
Lacks c (b ∷ bs) = (b ≢ c) × Lacks c bs

-- A piece ends at the first byte `c`.
pub pieces-append :
    (c : ℕ) (xs rest cur : List ℕ)
    → Lacks c xs
    → pieces c (xs ++ (c ∷ rest)) cur ≡ (cur ++ xs) ∷ pieces c rest []
unfolding pieces
pieces-append c [] rest cur l =
    let hit : (c == c) ≡ true = (==_iff c c).1 refl in rw (hit, append-nil cur) refl
pieces-append c (b ∷ xs) rest cur (ne, l) =
    let miss : (b == c) ≡ false = ground arith in
    rw (miss, pieces-append c xs rest (cur ++ (b ∷ [])) l)
      (ap (λ k. k ∷ pieces c rest []) (append_assoc cur (b ∷ []) xs))

pub pieces_last : (c : ℕ) (xs cur : List ℕ) → Lacks c xs → pieces c xs cur ≡ (cur ++ xs) ∷ []
unfolding pieces
pieces_last c [] cur l = rw (append-nil cur) refl
pieces_last c (b ∷ xs) cur (ne, l) =
    let miss : (b == c) ≡ false = ground arith in
    rw (miss, pieces_last c xs (cur ++ (b ∷ [])) l)
      (ap (λ k. k ∷ []) (append_assoc cur (b ∷ []) xs))

-- The digits of a number are none of the separators.
Lacks-digits : (c k v : ℕ) (s : List ℕ) → (c < 48) ⊎ (57 < c) → Lacks c s → Lacks c (digits k v s)
unfolding digits
Lacks-digits c zero v s out l = l
Lacks-digits c (suc k) v s out l = elim (Bool-cases (v == 0)) [
  | inl e ↦ rw e l
  | inr e ↦ rw e (Lacks-digits c k (v / 10) ((48 + v % 10) ∷ s) out ((λ q. ground arith), l))
]

pub Lacks-write_u32 : (c v : ℕ) → (c < 48) ⊎ (57 < c) → Lacks c (write_u32 10 v)
unfolding write_u32
Lacks-write_u32 c v out = elim (Bool-cases (v == 0)) [
  | inl e ↦ rw e ((λ q. ground arith), tt)
  | inr e ↦
      rw (e, take_all 10 (digits 10 v []) (omega (arith, length-digits 10 v [])))
        (Lacks-digits c 10 v [] out tt)
]

-- The line of a user, where nothing is cut, without the line feed.
abbrev pub line_of : User → List ℕ
line_of u =
    write_u32 10 u.uid
    ++ (colon
        ∷ (write_u32 10 u.gid
            ++ (colon
                ∷ (write_u32 10 u.password_hash
                    ++ (colon ∷ (write_u32 10 u.salt ++ (colon ∷ (u.name ++ (colon ∷ u.home)))))))))

module _ (u : User) (small_uid : u.uid < 2 ^ 32) (small_gid : u.gid < 2 ^ 32)
    (small_hash : u.password_hash < 2 ^ 32) (small_salt : u.salt < 2 ^ 32)
    (plain_name : Lacks colon u.name) (plain_home : Lacks colon u.home)
    (short_name : length u.name ≤ 31) (short_home : length u.home ≤ 63) where
  parts :
      pieces colon (line_of u) []
      ≡ write_u32 10 u.uid
        ∷ write_u32 10 u.gid
        ∷ write_u32 10 u.password_hash
        ∷ write_u32 10 u.salt
        ∷ u.name
        ∷ u.home
        ∷ []
  parts =
      let out : (colon < 48) ⊎ (57 < colon) = inr (omega arith) in
      rw
        (
          pieces-append colon (write_u32 10 u.uid)
              (write_u32 10 u.gid
                ++ (colon
                    ∷ (write_u32 10 u.password_hash
                        ++ (colon
                            ∷ (write_u32 10 u.salt ++ (colon ∷ (u.name ++ (colon ∷ u.home))))))))
              [] (Lacks-write_u32 colon u.uid out),
          pieces-append colon (write_u32 10 u.gid)
              (write_u32 10 u.password_hash
                ++ (colon ∷ (write_u32 10 u.salt ++ (colon ∷ (u.name ++ (colon ∷ u.home))))))
              [] (Lacks-write_u32 colon u.gid out),
          pieces-append colon (write_u32 10 u.password_hash)
              (write_u32 10 u.salt ++ (colon ∷ (u.name ++ (colon ∷ u.home)))) []
              (Lacks-write_u32 colon u.password_hash out),
          pieces-append colon (write_u32 10 u.salt) (u.name ++ (colon ∷ u.home)) []
              (Lacks-write_u32 colon u.salt out),
          pieces-append colon u.name u.home [] plain_name,
          pieces_last colon u.home [] plain_home,
        )
        refl

  pub user_of_line-line_of : user_of_line (line_of u) ≡ some (record u { active = true })
  unfolding user_of_line user_of_parts
  user_of_line-line_of =
      rw
        (
          parts,
          parse_u32-write_u32 10 u.uid small_uid (omega arith),
          parse_u32-write_u32 10 u.gid small_gid (omega arith),
          parse_u32-write_u32 10 u.password_hash small_hash (omega arith),
          parse_u32-write_u32 10 u.salt small_salt (omega arith),
          take_all 31 u.name short_name,
          take_all 63 u.home short_home,
        )
        refl
