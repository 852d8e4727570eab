-- ===== src/Common/Arrays.antt =====
-- Static arrays. An array is a function of its index; each use writes its bound out.
use Prim.Native.Nat.{ℕ}
use mathlib.Core.Path.{◌≡◌, refl, fun_ext}
use mathlib.Core.Logic.{◌≢◌, inl, inr}
use native.Mathlib.Omega.{arith}
use dbsos.Common.Tests.{◌==◌, if◌then◌else◌, Bool-cases}

abbrev pub Array {ℓ} : Type ℓ → Type ℓ
Array A = ℕ → A

-- `a[i] = v`
unfoldable pub update {ℓ} : {A : Type ℓ} → Array A → ℕ → A → Array A
update a i v j = if i == j then v else a j

module _ {ℓ} {A : Type ℓ} (a : Array A) where
  pub update_lem : (i j : ℕ) (v : A) → update a i v j ≡ (if i == j then v else a j)
  unfolding update
  update_lem i j v = refl

  pub update_self : (i : ℕ) (v : A) → update a i v i ≡ v
  unfolding update
  update_self i v = ground arith

  pub update_ne : (i j : ℕ) (v : A) → i ≢ j → update a i v j ≡ a j
  unfolding update
  update_ne i j v h = ground arith

  -- What holds of the new element and of an old one holds of the one there afterwards.
  pub update_either {κ} :
      (P : A → Type κ) (i : ℕ) (v : A) (j : ℕ) → P v → P (a j) → P (update a i v j)
  update_either P i v j new old = elim (Bool-cases (i == j)) [
    | inl e ↦ rw (update_lem i j v) (rw e new)
    | inr e ↦ rw (update_lem i j v) (rw e old)
  ]

  pub update_same : (i : ℕ) → update a i (a i) ≡ a
  unfolding update
  update_same i = fun_ext λ j. ground arith

  pub update-update : (i : ℕ) (v w : A) → update (update a i v) i w ≡ update a i w
  unfolding update
  update-update i v w = fun_ext λ j. ground arith
