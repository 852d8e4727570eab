-- ===== src/Common/Search.antt =====
-- `(a..b).find(p)` and the counted `for` loops that return at the first hit.
use Prim.Native.Nat.{ℕ, zero, suc, ◌+◌, ◌≤◌, ◌<◌}
use mathlib.Core.Path.{◌≡◌, refl, ◌∙◌, ap, fun_ext}
use mathlib.Core.Bool.{Bool, true, false}
use mathlib.Core.Option.{Option, none, some}
use native.Mathlib.Omega.{arith}

eq_of_not_lt : (a b : ℕ) → ¬ (a < b) → ¬ (b < a) → a ≡ b
eq_of_not_lt a b h g = omega arith

-- The first index at or above `i` that passes, among the next `k`.
unfoldable pub find_from : ℕ → ℕ → (ℕ → Bool) → Option ℕ
find_from zero i p = none
find_from (suc k) i p = elim (p i) [ true ↦ some i | false ↦ find_from k (suc i) p ]

module _ (p : ℕ → Bool) where
  -- A hit lies in the range, passes the test, and nothing below it does.
  pub find_from-eq-some :
      (k i : ℕ) {j : ℕ} → find_from k i p ≡ some j → (i ≤ j) × (j < i + k) × (p j ≡ true)
  unfolding find_from
  find_from-eq-some zero i e = cc
  find_from-eq-some (suc k) i {j} e = ground (arith, find_from-eq-some k (suc i) {j = j})

  pub find_from_first : (k i m : ℕ) {j : ℕ} → find_from k i p ≡ some j → i ≤ m → m < j → p m ≡ false
  unfolding find_from
  find_from_first zero i m e h l = cc
  find_from_first (suc k) i m {j} e h l = ground (arith, find_from_first k (suc i) m {j = j})

  pub find_from-eq-none : (k i m : ℕ) → find_from k i p ≡ none → i ≤ m → m < i + k → p m ≡ false
  unfolding find_from
  find_from-eq-none zero i m e h l = absurd (omega arith)
  find_from-eq-none (suc k) i m e h l = ground (arith, find_from-eq-none k (suc i) m)

  -- Where some index of the range passes, the search finds one.
  pub find_from_total :
      (k i m : ℕ) → i ≤ m → m < i + k → p m ≡ true → (j : ℕ) × (find_from k i p ≡ some j)
  find_from_total k i m h l e = go (find_from k i p) refl
    where
      go : (o : Option ℕ) → find_from k i p ≡ o → (j : ℕ) × (find_from k i p ≡ some j)
      go none q = absurd (cc (e, find_from-eq-none k i m q h l))
      go (some j) q = (j, q)

  -- An index that passes, with none below it that does, is the hit.
  pub find_from_least :
      (k i j : ℕ)
      → i ≤ j
      → j < i + k
      → p j ≡ true
      → ((m : ℕ) → i ≤ m → m < j → p m ≡ false)
      → find_from k i p ≡ some j
  find_from_least k i j a b t below =
      let (m, e) = find_from_total k i j a b t in
      let (l, u, s) = find_from-eq-some k i e in
      e
      ∙ ap some
          (eq_of_not_lt m j (λ q. cc (s, below m l q)) (λ q. cc (t, find_from_first k i j e a q)))

pub find_from_congr :
    (k i : ℕ) (p q : ℕ → Bool) → ((m : ℕ) → p m ≡ q m) → find_from k i p ≡ find_from k i q
find_from_congr k i p q h = ap (find_from k i) (fun_ext h)
