-- ===== src/Tmpfs/Path.antt =====
-- kernel/src/tmpfs.rs, norm: from a path to the name of a file in the flat root. 47 is '/'.
use dbsos.Common.{
  ℕ, suc, ◌≡◌, refl, sym, ap, subst, inl, inr, Bool, false, ◌||◌, Option, none, some, arith, ◌==◌,
  if◌then◌else◌, Bool-cases, Option-cases, bytes_eq, drop, List, [], ◌∷◌,
}

-- `while p.len() > 1 && p[0] == b'/' { p = &p[1..]; }`
unfoldable pub strip_leading : List ℕ → List ℕ
strip_leading [] = []
strip_leading (x ∷ []) = x ∷ []
strip_leading (x ∷ (y ∷ ys)) =
    let rest = strip_leading (y ∷ ys) in if x == 47 then rest else x ∷ (y ∷ ys)

abbrev pub cons_unless_slash : ℕ → List ℕ → List ℕ
cons_unless_slash x [] = if x == 47 then [] else x ∷ []
cons_unless_slash x (y ∷ ys) = x ∷ (y ∷ ys)

-- Without the slashes at the end, all of them.
unfoldable pub trim : List ℕ → List ℕ
trim [] = []
trim (x ∷ xs) = cons_unless_slash x (trim xs)

-- `while p.len() > 1 && p[p.len()-1] == b'/' { p = &p[..p.len()-1]; }`: the first byte stays.
unfoldable pub strip_trailing : List ℕ → List ℕ
unfolding trim
strip_trailing [] = []
strip_trailing (x ∷ xs) = x ∷ trim xs

-- `p.iter().rposition(|&c| c == b'/')`
unfoldable pub last_slash : List ℕ → Option ℕ
last_slash [] = none
last_slash (x ∷ xs) = elim (last_slash xs) [
  | some i ↦ some (suc i)
  | none ↦ if x == 47 then some 0 else none
]

abbrev pub last_component : List ℕ → List ℕ
last_component p = elim (last_slash p) [ some pos ↦ drop (suc pos) p | none ↦ p ]

unfoldable pub norm : List ℕ → List ℕ
norm path =
    let p = strip_leading path in
    if bytes_eq p (47 ∷ []) then [] else last_component (strip_trailing p)

unfoldable pub has_slash : List ℕ → Bool
has_slash [] = false
has_slash (x ∷ xs) = x == 47 || has_slash xs

last_slash-none : (p : List ℕ) → last_slash p ≡ none → has_slash p ≡ false
unfolding last_slash has_slash
last_slash-none [] e = refl
last_slash-none (x ∷ xs) e = ground (arith, last_slash-none xs)

last_slash-some : (p : List ℕ) (i : ℕ) → last_slash p ≡ some i → has_slash (drop (suc i) p) ≡ false
unfolding last_slash has_slash
last_slash-some [] i e = cc
last_slash-some (x ∷ xs) i e = elim (Option-cases (last_slash xs)) [
  | inl f ↦
      let zero_i : i ≡ 0 = ground arith in
      subst (λ n. has_slash (drop n xs) ≡ false) (sym zero_i) (last_slash-none xs f)
  | inr (j, f) ↦
      let suc_j : i ≡ suc j = ground arith in
      subst (λ n. has_slash (drop n xs) ≡ false) (sym suc_j) (last_slash-some xs j f)
]

last_component_flat : (p : List ℕ) → has_slash (last_component p) ≡ false
last_component_flat p = elim (Option-cases (last_slash p)) [
  | inl e ↦ rw (e, last_component) (last_slash-none p e)
  | inr (i, e) ↦ rw (e, last_component) (last_slash-some p i e)
]

-- A name has no slash.
pub norm_flat : (path : List ℕ) → has_slash (norm path) ≡ false
unfolding norm has_slash
norm_flat path = elim (Bool-cases (bytes_eq (strip_leading path) (47 ∷ []))) [
  | inl e ↦ rw (e, norm) refl
  | inr e ↦ rw (e, norm) (last_component_flat (strip_trailing (strip_leading path)))
]

strip_leading-flat : (p : List ℕ) → has_slash p ≡ false → strip_leading p ≡ p
unfolding strip_leading has_slash
strip_leading-flat [] h = refl
strip_leading-flat (x ∷ []) h = refl
strip_leading-flat (x ∷ (y ∷ ys)) h = ground arith

trim-flat : (p : List ℕ) → has_slash p ≡ false → trim p ≡ p
unfolding trim has_slash
trim-flat [] h = refl
trim-flat (x ∷ []) h = ground arith
trim-flat (x ∷ (y ∷ ys)) h = ap (cons_unless_slash x) (trim-flat (y ∷ ys) (ground arith))

strip_trailing-flat : (p : List ℕ) → has_slash p ≡ false → strip_trailing p ≡ p
unfolding strip_trailing has_slash
strip_trailing-flat [] h = refl
strip_trailing-flat (x ∷ xs) h = ap (λ ys. x ∷ ys) (trim-flat xs (ground arith))

last_slash-flat : (p : List ℕ) → has_slash p ≡ false → last_slash p ≡ none
unfolding last_slash has_slash
last_slash-flat [] h = refl
last_slash-flat (x ∷ xs) h = ground (arith, last_slash-flat xs)

not_root : (p : List ℕ) → has_slash p ≡ false → bytes_eq p (47 ∷ []) ≡ false
unfolding bytes_eq has_slash
not_root [] h = refl
not_root (x ∷ xs) h = ground arith

-- A path without a slash is its own name.
norm-flat : (p : List ℕ) → has_slash p ≡ false → norm p ≡ p
unfolding norm
norm-flat p h =
    rw (strip_leading-flat p h, norm)
      (rw (not_root p h, strip_trailing-flat p h, last_slash-flat p h, last_component)
        (strip_trailing-flat p h))

-- `norm` gives a name without a slash, and a name is its own norm.
pub norm_idempotent :
    (path : List ℕ) → (has_slash (norm path) ≡ false) × (norm (norm path) ≡ norm path)
norm_idempotent path = (norm_flat path, norm-flat (norm path) (norm_flat path))
