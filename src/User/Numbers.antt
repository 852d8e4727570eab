-- ===== src/User/Numbers.antt =====
-- kernel/src/user.rs: the numbers of /etc/passwd, which write_u32 prints and parse_u32 reads.
use dbsos.Common.{
  ℕ, zero, suc, ◌+◌, ◌-◌, ◌*◌, ◌/◌, ◌%◌, ◌^◌, ◌≤◌, ◌<◌, ◌≡◌, refl, ◌||◌, inl, inr, false, Option,
  none, some, List, [], ◌∷◌, arith, length, ◌==◌, ltb, leb, if◌then◌else◌, take, take_all,
  some-injective, ◌∙◌, sym, length-take, Bool-cases,
}

-- The digits of `v` in front of `out`: the loop that fills `tmp`, and the one that reads it backwards.
unfoldable pub digits : (rounds v : ℕ) → List ℕ → List ℕ
digits zero v out = out
digits (suc k) v out =
    let rest = digits k (v / 10) ((48 + v % 10) ∷ out) in if v == 0 then out else rest

-- What `write_u32` writes in `room` bytes: a number is cut where the buffer ends.
unfoldable pub write_u32 : (room v : ℕ) → List ℕ
write_u32 room v = take room (if v == 0 then 48 ∷ [] else digits 10 v [])

-- `v.checked_mul(10)?.checked_add(d)?`
abbrev pub push_digit : (v d : ℕ) → Option ℕ
push_digit v d =
    if leb (2 ^ 32) (v * 10) || leb (2 ^ 32) (v * 10 + d) then none else some (v * 10 + d)

unfoldable pub parse_from : ℕ → List ℕ → Option ℕ
parse_from v [] = some v
parse_from v (c ∷ s) =
    if ltb c 48 || ltb 57 c
    then none
    else elim (push_digit v (c - 48)) [ none ↦ none | some w ↦ parse_from w s ]

unfoldable pub parse_u32 : List ℕ → Option ℕ
unfolding parse_from
parse_u32 [] = none
parse_u32 (c ∷ s) = parse_from 0 (c ∷ s)

-- `v` has at most `k` digits.
abbrev Short : (k v : ℕ) → Type 0
Short zero v = v ≡ 0
Short (suc k) v = Short k (v / 10)

parse_from_digit :
    (v : ℕ) (s : List ℕ) → v < 2 ^ 32 → parse_from (v / 10) ((48 + v % 10) ∷ s) ≡ parse_from v s
unfolding parse_from
parse_from_digit v s m =
    let digit : (ltb (48 + v % 10) 48 || ltb 57 (48 + v % 10)) ≡ false = ground arith in
    let back : v / 10 * 10 + (48 + v % 10 - 48) ≡ v = omega arith in
    let fits : (leb (2 ^ 32) (v / 10 * 10) || leb (2 ^ 32) v) ≡ false = ground arith in
    rw (digit, back, fits) refl

parse_from-digits :
    (k v : ℕ) (s : List ℕ) → Short k v → v < 2 ^ 32 → parse_from 0 (digits k v s) ≡ parse_from v s
unfolding digits
parse_from-digits zero v s l m = rw l refl
parse_from-digits (suc k) v s l m = elim (Bool-cases (v == 0)) [
  | inl e ↦ let zero_v : v ≡ 0 = ground arith in rw (e, zero_v) refl
  | inr e ↦
      rw (e, parse_from-digits k (v / 10) ((48 + v % 10) ∷ s) l (omega arith))
        (parse_from_digit v s m)
]

parse_from_end : (v : ℕ) → parse_from v [] ≡ some v
unfolding parse_from
parse_from_end v = refl

pub length-digits : (k v : ℕ) (s : List ℕ) → length (digits k v s) ≤ k + length s
unfolding digits
length-digits zero v s = omega arith
length-digits (suc k) v s = ground (arith, length-digits k (v / 10) ((48 + v % 10) ∷ s))

parse_u32-parse_from : (s : List ℕ) (v : ℕ) → parse_from 0 s ≡ some v → 0 < v → parse_u32 s ≡ some v
unfolding parse_u32
parse_u32-parse_from [] v e l = let at : 0 ≡ v = some-injective 0 v e in absurd (omega arith)
parse_u32-parse_from (c ∷ s) v e l = e

abbrev zero_text : List ℕ
zero_text = 48 ∷ []

parse_u32_zero : parse_u32 (48 ∷ []) ≡ some 0
unfolding parse_u32
parse_u32_zero = refl

-- A number below 2^32, written with room for ten bytes, is read back.
pub parse_u32-write_u32 :
    (room v : ℕ) → v < 2 ^ 32 → 10 ≤ room → parse_u32 (write_u32 room v) ≡ some v
unfolding write_u32
parse_u32-write_u32 room v m r = elim (Bool-cases (v == 0)) [
  | inl e ↦
      let at : v ≡ 0 = ground arith in
      let zero_text : List ℕ = 48 ∷ [] in
      let all : take room zero_text ≡ zero_text = take_all room (48 ∷ []) (omega arith) in
      rw (e, all, at) parse_u32_zero
  | inr e ↦
      let all : take room (digits 10 v []) ≡ digits 10 v [] =
        take_all room (digits 10 v []) (omega (arith, length-digits 10 v [])) in
      let read = parse_from-digits 10 v [] (omega arith) m in
      rw (e, all) (parse_u32-parse_from (digits 10 v []) v (read ∙ parse_from_end v) (ground arith))
]

-- A number below 2^32 needs ten bytes at most, so more room changes nothing.
pub write_u32_room : (room v : ℕ) → 10 ≤ room → write_u32 room v ≡ write_u32 10 v
unfolding write_u32
write_u32_room room v r = elim (Bool-cases (v == 0)) [
  | inl e ↦ rw e (take_all room zero_text (omega arith))
  | inr e ↦
      let short = length-digits 10 v [] in
      rw e (
        take_all room (digits 10 v []) (omega (arith, short))
        ∙ sym (take_all 10 (digits 10 v []) (omega (arith, short))))
]

pub length-write_u32 : (v : ℕ) → length (write_u32 10 v) ≤ 10
unfolding write_u32
length-write_u32 v = elim (Bool-cases (v == 0)) [
  | inl e ↦ rw e (omega arith)
  | inr e ↦ rw e (omega (arith, length-take 10 (digits 10 v [])))
]
