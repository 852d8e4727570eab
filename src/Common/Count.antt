-- ===== src/Common/Count.antt =====
-- Sums over a range of indices, and how many indices pass a test.
use Prim.Native.Nat.{ℕ, zero, suc, ◌+◌, ◌≤◌, ◌<◌}
use mathlib.Core.Path.{◌≡◌, refl}
use mathlib.Core.Logic.{◌≢◌, inl, inr}
use mathlib.Core.Bool.{Bool, true, false}
use native.Mathlib.Omega.{arith}
use dbsos.Common.Tests.{◌==◌, Bool-cases}

abbrev pub bit : Bool → ℕ
bit true = 1
bit false = 0

-- f i + … + f (i + k - 1)
unfoldable pub sum_from : ℕ → ℕ → (ℕ → ℕ) → ℕ
sum_from zero i f = 0
sum_from (suc k) i f = f i + sum_from k (suc i) f

unfoldable pub count_from : ℕ → ℕ → (ℕ → Bool) → ℕ
unfolding sum_from
count_from k i p = sum_from k i (λ m. bit (p m))

pub sum_from_congr :
    (k i : ℕ) (f g : ℕ → ℕ)
    → ((m : ℕ) → i ≤ m → m < i + k → f m ≡ g m)
    → sum_from k i f ≡ sum_from k i g
unfolding sum_from
sum_from_congr zero i f g h = refl
sum_from_congr (suc k) i f g h = omega (
  arith,
  h i (omega arith) (omega arith),
  sum_from_congr k (suc i) f g (λ m a b. h m (omega arith) (omega arith)),
)

-- A change at one index of the range changes the sum by that much.
pub sum_from_change :
    (k i j : ℕ) (f g : ℕ → ℕ)
    → i ≤ j
    → j < i + k
    → ((m : ℕ) → m ≢ j → f m ≡ g m)
    → sum_from k i g + f j ≡ sum_from k i f + g j
unfolding sum_from
sum_from_change zero i j f g a b h = absurd (omega arith)
sum_from_change (suc k) i j f g a b h = elim (Bool-cases (i == j)) [
  | inl e ↦ ground (arith, sum_from_congr k (suc i) f g (λ m x y. h m (λ z. ground arith)))
  | inr e ↦
      ground
        (arith, h i (ground arith), sum_from_change k (suc i) j f g (ground arith) (omega arith) h)
]

pub count_from_congr :
    (k i : ℕ) (p q : ℕ → Bool)
    → ((m : ℕ) → i ≤ m → m < i + k → p m ≡ q m)
    → count_from k i p ≡ count_from k i q
unfolding count_from
count_from_congr k i p q h =
    sum_from_congr k i (λ m. bit (p m)) (λ m. bit (q m)) (λ m a b. cc (h m a b))

pub count_from_change :
    (k i j : ℕ) (p q : ℕ → Bool)
    → i ≤ j
    → j < i + k
    → ((m : ℕ) → m ≢ j → p m ≡ q m)
    → count_from k i q + bit (p j) ≡ count_from k i p + bit (q j)
unfolding count_from
count_from_change k i j p q a b h =
    sum_from_change k i j (λ m. bit (p m)) (λ m. bit (q m)) a b (λ m n. cc (h m n))

pub count_from-le : (k i : ℕ) (p : ℕ → Bool) → count_from k i p ≤ k
unfolding count_from
count_from-le zero i p = omega arith
count_from-le (suc k) i p = ground (arith, count_from-le k (suc i) p)

-- Something passes where something is counted.
pub count_from_pos :
    (k i : ℕ) (p : ℕ → Bool) → 0 < count_from k i p → (j : ℕ) × (i ≤ j) × (j < i + k) × (p j ≡ true)
unfolding count_from
count_from_pos zero i p h = absurd (omega arith)
count_from_pos (suc k) i p h = elim (Bool-cases (p i)) [
  | inl e ↦ (i, omega arith, omega arith, e)
  | inr e ↦
      let (j, a, b, c) = count_from_pos k (suc i) p (ground arith) in
      (j, omega arith, omega arith, c)
]

-- Nothing passes where nothing is counted.
pub count_from_none :
    (k i : ℕ) (p : ℕ → Bool) (m : ℕ) → count_from k i p ≡ 0 → i ≤ m → m < i + k → p m ≡ false
unfolding count_from
count_from_none zero i p m e a b = absurd (omega arith)
count_from_none (suc k) i p m e a b = elim (Bool-cases (i == m)) [
  | inl q ↦ ground arith
  | inr q ↦ count_from_none k (suc i) p m (ground arith) (ground arith) (omega arith)
]

pub count_from_all :
    (k i : ℕ) (p : ℕ → Bool) → ((m : ℕ) → i ≤ m → m < i + k → p m ≡ true) → count_from k i p ≡ k
unfolding count_from sum_from
count_from_all zero i p h = refl
count_from_all (suc k) i p h = ground (
  arith,
  h i (omega arith) (omega arith),
  count_from_all k (suc i) p (λ m a b. h m (omega arith) (omega arith)),
)

-- Where all are counted, each passes.
pub count_from_full :
    (k i : ℕ) (p : ℕ → Bool) (m : ℕ) → count_from k i p ≡ k → i ≤ m → m < i + k → p m ≡ true
unfolding count_from sum_from
count_from_full zero i p m e a b = absurd (omega arith)
count_from_full (suc k) i p m e a b =
    let rest = count_from-le k (suc i) p in
    elim (Bool-cases (i == m)) [
      | inl q ↦ ground arith
      | inr q ↦ count_from_full k (suc i) p m (ground (arith, rest)) (ground arith) (omega arith)
    ]
