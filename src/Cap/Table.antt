-- ===== src/Cap/Table.antt =====
-- kernel/src/cap.rs, CapTable: the operations on one process's table, and their laws.
use dbsos.Common.{
  ◌≢◌, refl, update_lem, ℕ, sym, ◌+◌, ◌<◌, ◌≡◌, Bool, true, false, not, ◌&&◌, Option, none, some,
  arith, ◌==◌, ltb, leb, if◌then◌else◌, find_from, find_from-eq-some, update, update_lem,
  update_self, update_ne, bit_and, bit, count_from, count_from_change,
}
use dbsos.Abi.Cap.{Cap, null, is_valid, max_caps_per_process}
use dbsos.Kernel.{CapTable}

abbrev pub new_table : CapTable
new_table i = null

-- The first invalid slot.
abbrev pub free_slot : CapTable → Option ℕ
free_slot t = find_from max_caps_per_process 0 (λ i. not (is_valid (t i)))

unfoldable pub table_alloc : Cap → CapTable → CapTable × Option ℕ
table_alloc c t = elim (free_slot t) [ none ↦ (t, none) | some i ↦ (update t i c, some i) ]

unfoldable pub table_get : CapTable → ℕ → Option Cap
table_get t idx =
    if leb max_caps_per_process idx
    then none
    else if not (is_valid (t idx))
    then none
    else some (t idx)

unfoldable pub table_free : ℕ → CapTable → CapTable
table_free idx t = if ltb idx max_caps_per_process then update t idx null else t

unfoldable pub table_validate : CapTable → ℕ → ℕ → Bool
unfolding table_get
table_validate t idx required = elim (table_get t idx) [
  | none ↦ false
  | some c ↦ bit_and c.rights required == required
]

-- A capability that `table_get` returns stands at that index, which is in range.
pub table_get-eq-some :
    (t : CapTable) (idx : ℕ) {c : Cap}
    → table_get t idx ≡ some c
    → (idx < max_caps_per_process) × (t idx ≡ c) × (is_valid c ≡ true)
unfolding table_get
table_get-eq-some t idx {c} e = ground arith

-- A table that has no room stays as it is.
pub table_alloc-eq-none :
    (c : Cap) (t : CapTable) → (table_alloc c t).1 ≡ none → (table_alloc c t).0 ≡ t
unfolding table_alloc
table_alloc-eq-none c t e = ground arith

-- An allocation overwrites no valid capability.
pub table_get-table_alloc :
    (c : Cap) (t : CapTable) (idx : ℕ) {d : Cap}
    → table_get t idx ≡ some d
    → table_get (table_alloc c t).0 idx ≡ some d
unfolding table_alloc table_get
table_get-table_alloc c t idx {d} e = go (free_slot t) refl
  where
    go : (o : Option ℕ) → free_slot t ≡ o → table_get (table_alloc c t).0 idx ≡ some d
    go none f = ground arith
    go (some i) f = ground (
      arith,
      find_from-eq-some (λ m. not (is_valid (t m))) max_caps_per_process 0 {j = i} f,
      update_lem t i idx c,
    )

-- The new capability stands at the returned index.
pub table_get-table_alloc_self :
    (c : Cap) (t : CapTable) {i : ℕ}
    → is_valid c ≡ true
    → (table_alloc c t).1 ≡ some i
    → table_get (table_alloc c t).0 i ≡ some c
unfolding table_alloc table_get
table_get-table_alloc_self c t {i} v e = ground (
  arith,
  find_from-eq-some (λ m. not (is_valid (t m))) max_caps_per_process 0 {j = i},
  update_self t i c,
)

-- The slot of a new capability held none before.
pub table_alloc_fresh :
    (c : Cap) (t : CapTable) {i : ℕ} → (table_alloc c t).1 ≡ some i → table_get t i ≡ none
unfolding table_alloc table_get
table_alloc_fresh c t {i} e =
    ground (arith, find_from-eq-some (λ m. not (is_valid (t m))) max_caps_per_process 0 {j = i})

pub table_get-table_free_self : (i : ℕ) (t : CapTable) → table_get (table_free i t) i ≡ none
unfolding table_get table_free
table_get-table_free_self i t = ground (arith, update_self t i null)

pub table_get-table_free_ne :
    (i j : ℕ) (t : CapTable) → i ≢ j → table_get (table_free i t) j ≡ table_get t j
unfolding table_get table_free
table_get-table_free_ne i j t n = ground (arith, update_ne t i j null)

-- How many valid capabilities of the table pass `q`.
unfoldable pub holds : (Cap → Bool) → CapTable → ℕ
holds q t = count_from max_caps_per_process 0 (λ i. is_valid (t i) && q (t i))

module _ (q : Cap → Bool) (t : CapTable) where
  pub holds-update :
      (i : ℕ) (c : Cap)
      → i < max_caps_per_process
      → holds q (update t i c) + bit (is_valid (t i) && q (t i))
        ≡ holds q t + bit (is_valid c && q c)
  unfolding holds
  holds-update i c h =
      let moved =
        count_from_change max_caps_per_process 0 i (λ m. is_valid (t m) && q (t m))
          (λ m. is_valid (update t i c m) && q (update t i c m)) (omega arith) (omega arith)
          (λ m n. rw (update_ne t i m c (λ e. n (sym e)))) in
      rw (update_self t i c) at moved

  -- A successful allocation adds the capability, in a slot that was invalid.
  pub holds-table_alloc :
      (c : Cap) {i : ℕ}
      → is_valid c ≡ true
      → (table_alloc c t).1 ≡ some i
      → holds q (table_alloc c t).0 ≡ holds q t + bit (q c)
  unfolding table_alloc
  holds-table_alloc c {i} v e = ground (
    arith,
    find_from-eq-some (λ m. not (is_valid (t m))) max_caps_per_process 0 {j = i},
    holds-update i c,
  )

  pub holds-table_free :
      (i : ℕ) {c : Cap} → table_get t i ≡ some c → holds q (table_free i t) + bit (q c) ≡ holds q t
  unfolding table_free
  holds-table_free i {c} e = ground (arith, table_get-eq-some t i e, holds-update i null)
