-- ===== src/Vfs/Resolve.antt =====
-- kernel/src/vfs.rs: which mount `resolve_mount` chooses.
use dbsos.Common.{
  ℕ, zero, suc, ◌+◌, ◌≤◌, ◌<◌, ◌≡◌, refl, subst, ◌≢◌, find_from, find_from-eq-some, Option-cases,
  ◌⊎◌, inl, inr, Bool, true, false, ◌&&◌, Option, none, some, arith, ltb, ltb→lt, lt→ltb,
  Bool-cases, List,
}
use dbsos.Vfs.Mounts.{MountTable, resolved, panics_at, covers, longest, resolve_mount}

and_left : (a b : Bool) → (a && b) ≡ true → a ≡ true
and_left a b e = ground arith

better_le : (b : Bool) (l p : ℕ) → (b && ltb l p) ≡ true → l ≤ p
better_le b l p e = ground (arith, ltb→lt l p)

worse_le : (b : Bool) (l p : ℕ) → (b && ltb l p) ≡ false → b ≡ true → p ≤ l
worse_le b l p e f = ground (arith, lt→ltb l p)

no_panic :
    (path : List ℕ) (mounts : MountTable)
    → ((m : ℕ) → m < 8 → (mounts m).in_use ≡ true → (mounts m).prefix_len ≢ 0)
    → find_from 8 0 (λ m. panics_at path (mounts m)) ≡ none
no_panic path mounts named = elim (Option-cases (find_from 8 0 (λ m. panics_at path (mounts m)))) [
  | inl e ↦ e
  | inr (m, e) ↦
      let (_, low, t) = find_from-eq-some (λ m. panics_at path (mounts m)) 8 0 {j = m} e in
      absurd (ground (arith, named m low))
]

module _ (path : List ℕ) (mounts : MountTable) where
  -- The choice among the first `n` mounts: nothing yet, or one that covers the path.
  Chosen : (n best_len : ℕ) → Option (ℕ × ℕ) → Type 0
  Chosen n best_len best =
      ((best ≡ none) × (best_len ≡ 0))
      ⊎ ((j : ℕ) × (j < n)
          × (covers path (mounts j) ≡ true)
          × (best ≡ some ((mounts j).driver_idx, (mounts j).prefix_len))
          × (best_len ≡ (mounts j).prefix_len))

  Longest : (n best_len : ℕ) → Type 0
  Longest n best_len =
      (m : ℕ) → m < n → covers path (mounts m) ≡ true → (mounts m).prefix_len ≤ best_len

  Chosen-suc : (n l : ℕ) (best : Option (ℕ × ℕ)) → Chosen n l best → Chosen (suc n) l best
  unfolding Chosen
  Chosen-suc n l best (inl p) = inl p
  Chosen-suc n l best (inr (j, s, c, e, q)) = inr (j, omega arith, c, e, q)

  Longest-suc :
      (n l l' : ℕ)
      → Longest n l
      → l ≤ l'
      → (covers path (mounts n) ≡ true → (mounts n).prefix_len ≤ l')
      → Longest (suc n) l'
  unfolding Longest
  Longest-suc n l l' h s here m b c = ground (arith, h m)

  longest-Longest :
      (k i l : ℕ) (best : Option (ℕ × ℕ))
      → Chosen i l best
      → Longest i l
      → (l' : ℕ) × Chosen (i + k) l' (longest path mounts k i l best) × Longest (i + k) l'
  unfolding longest Chosen
  longest-Longest zero i l best c h = let e : i + 0 ≡ i = omega arith in rw e (l, c, h)
  longest-Longest (suc k) i l best c h =
      let e : i + suc k ≡ suc i + k = omega arith in
      rw e (elim (Bool-cases (covers path (mounts i) && ltb l (mounts i).prefix_len)) [
        | inl t ↦ rw t (
            longest-Longest k (suc i) (mounts i).prefix_len _
              (inr (i, omega arith, and_left _ _ t, refl, refl))
              (Longest-suc i l _ h (better_le (covers path (mounts i)) l _ t) (λ q. omega arith)))
        | inr f ↦ rw f (
            longest-Longest k (suc i) l best (Chosen-suc i l best c)
              (Longest-suc i l l h (omega arith) (worse_le (covers path (mounts i)) l _ f)))
      ])

-- Where no mount in use has an empty prefix, and some mount covers the path, `resolve_mount` gives the driver and the
-- length of a mount that covers it, and no mount that covers it has a longer prefix.
pub resolve_mount-longest :
    (path : List ℕ) (mounts : MountTable) (i : ℕ)
    → ((m : ℕ) → m < 8 → (mounts m).in_use ≡ true → (mounts m).prefix_len ≢ 0)
    → i < 8
    → covers path (mounts i) ≡ true
    → (j : ℕ) × (j < 8)
      × (covers path (mounts j) ≡ true)
      × (resolve_mount path mounts ≡ resolved (some ((mounts j).driver_idx, (mounts j).prefix_len)))
      × ((m : ℕ)
          → m < 8
          → covers path (mounts m) ≡ true
          → (mounts m).prefix_len ≤ (mounts j).prefix_len)
unfolding resolve_mount Chosen Longest
resolve_mount-longest path mounts i named s c =
    let returns : find_from 8 0 (λ m. panics_at path (mounts m)) ≡ none =
      no_panic path mounts named in
    let (l, chosen, longest_one) =
      longest-Longest path mounts 8 0 0 none (inl (refl, refl)) (λ m b. absurd (omega arith)) in
    elim chosen [
      | inl (e, z) ↦ absurd (ground (arith, longest_one i, named i))
      | inr (j, b, cov, e, q) ↦ (
        j,
        b,
        cov,
        rw (returns, resolve_mount) (rw e refl),
        λ m sm cm. subst (λ x. (mounts m).prefix_len ≤ x) q (longest_one m sm cm),
      )
    ]
