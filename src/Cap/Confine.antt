-- ===== src/Cap/Confine.antt =====
-- Capabilities are not forged: `transfer`, `duplicate` and `free_all` of kernel/src/cap.rs only move,
-- copy and drop what some task already holds, whoever calls them in whatever order.
use dbsos.Common.{
  ℕ, ◌≡◌, refl, ◌⊎◌, inl, inr, Option, none, some, List, [], ◌∷◌, arith, ◌==◌, Bool-cases,
  Option-cases, update, update_lem, subst,
}
use dbsos.Abi.Cap.{Cap}
use dbsos.Kernel.{Kernel, CapTable}
use dbsos.Cap.Table.{table_alloc, table_get, table_free, new_table}
use dbsos.Cap.Transfer.{checked, refused, granted}
use dbsos.Cap.{slot_for_task, set_table, alloc_in, hand_over, share, transfer, duplicate, free_all}

-- Every valid capability, in every table, has the property `P`.
abbrev pub Everywhere {ℓ} : (Cap → Type ℓ) → Kernel → Type ℓ
Everywhere P k = (s i : ℕ) (c : Cap) → table_get (k.cap_tables s) i ≡ some c → P c

table_get-table_alloc_inv :
    (c : Cap) (t : CapTable) (i : ℕ) (d : Cap)
    → table_get (table_alloc c t).0 i ≡ some d
    → (c ≡ d) ⊎ (table_get t i ≡ some d)
unfolding table_get table_alloc update
table_get-table_alloc_inv c t i d e = ground arith

table_get-table_free_inv :
    (j : ℕ) (t : CapTable) (i : ℕ) (d : Cap)
    → table_get (table_free j t) i ≡ some d
    → table_get t i ≡ some d
unfolding table_get table_free update
table_get-table_free_inv j t i d e = ground arith

module _ {ℓ} (P : Cap → Type ℓ) (k : Kernel) (all : Everywhere P k) where
  set_table-Everywhere :
      (s : ℕ) (t : CapTable)
      → ((i : ℕ) (c : Cap) → table_get t i ≡ some c → P c)
      → Everywhere P (set_table s t k)
  set_table-Everywhere s t h r i c e = elim (Bool-cases (s == r)) [
    | inl same ↦ h i c (ground (arith, update_lem k.cap_tables s r t))
    | inr other ↦ all r i c (ground (arith, update_lem k.cap_tables s r t))
  ]

  alloc_in-Everywhere : (s : ℕ) (c : Cap) → P c → Everywhere P (alloc_in s c k).0
  unfolding alloc_in
  alloc_in-Everywhere s c p = set_table-Everywhere s (table_alloc c (k.cap_tables s)).0 λ i d e.
      elim (table_get-table_alloc_inv c (k.cap_tables s) i d e) [
        | inl q ↦ subst P q p
        | inr old ↦ all s i d old
      ]

  pub free_all-Everywhere : (task_id : ℕ) → Everywhere P (free_all task_id k)
  unfolding free_all table_get
  free_all-Everywhere task_id = elim (Option-cases (slot_for_task k task_id)) [
    | inl e ↦ rw (e, free_all) all
    | inr (s, e) ↦ rw (e, free_all) (set_table-Everywhere s new_table (λ i c f. ground arith))
  ]

module _ {ℓ} (P : Cap → Type ℓ) (k : Kernel) (all : Everywhere P k) where
  hand_over-Everywhere :
      (s idx : ℕ) (c : Cap) (o : Option ℕ)
      → P c
      → (alloc_in s c k).1 ≡ o
      → Everywhere P (hand_over s idx c k).0
  unfolding hand_over
  hand_over-Everywhere s idx c none p f = rw (f, hand_over) (alloc_in-Everywhere P k all s c p)
  hand_over-Everywhere s idx c (some i) p f =
      let k' = (alloc_in s c k).0 in
      let all' = alloc_in-Everywhere P k all s c p in
      rw (f, hand_over)
        (set_table-Everywhere P k' all' k.current (table_free idx (k'.cap_tables k.current))
          (λ i d e.
            all' k.current i d (table_get-table_free_inv idx (k'.cap_tables k.current) i d e)))

  share-Everywhere : (s : ℕ) (c : Cap) → P c → Everywhere P (share s c k).0
  unfolding share
  share-Everywhere s c p = elim (Option-cases (alloc_in s c k).1) [
    | inl f ↦ rw (f, share) (alloc_in-Everywhere P k all s c p)
    | inr (i, f) ↦ rw (f, share) (alloc_in-Everywhere P k all s c p)
  ]

  pub transfer-Everywhere : (dst idx : ℕ) → Everywhere P (transfer dst idx k).0
  transfer-Everywhere dst idx = elim (checked k dst idx) [
    | refused e t d n ↦ rw t all
    | granted c s e f g t d ↦
        rw t (hand_over-Everywhere s idx c (alloc_in s c k).1 (all k.current idx c e) refl)
  ]

  pub duplicate-Everywhere : (dst idx : ℕ) → Everywhere P (duplicate dst idx k).0
  duplicate-Everywhere dst idx = elim (checked k dst idx) [
    | refused e t d n ↦ rw d all
    | granted c s e f g t d ↦ rw d (share-Everywhere s c (all k.current idx c e))
  ]

-- What tasks do to each other's tables: calls by the current task, and the scheduler's switches.
pub data CapCall : Type 0 where
  transfers duplicates : (dst idx : ℕ) → CapCall
  frees : (task_id : ℕ) → CapCall
  switches : (slot : ℕ) → CapCall

unfoldable pub run_call : CapCall → Kernel → Kernel
run_call (transfers dst idx) k = (transfer dst idx k).0
run_call (duplicates dst idx) k = (duplicate dst idx k).0
run_call (frees task_id) k = free_all task_id k
run_call (switches slot) k = record k { current = slot }

unfoldable pub run_calls : List CapCall → Kernel → Kernel
unfolding run_call
run_calls [] k = k
run_calls (c ∷ cs) k = run_calls cs (run_call c k)

run_call-Everywhere {ℓ} :
    (P : Cap → Type ℓ) (c : CapCall) (k : Kernel) → Everywhere P k → Everywhere P (run_call c k)
unfolding run_call
run_call-Everywhere P (transfers dst idx) k all = transfer-Everywhere P k all dst idx
run_call-Everywhere P (duplicates dst idx) k all = duplicate-Everywhere P k all dst idx
run_call-Everywhere P (frees task_id) k all = free_all-Everywhere P k all task_id
run_call-Everywhere P (switches slot) k all = all

-- No sequence of transfers, duplications, releases and task switches makes a capability: a property
-- of every valid capability before it (a bound on rights, a set of servers) holds of every one after.
pub run_calls-Everywhere :
    (P : Cap → Type 0) (cs : List CapCall) (k : Kernel)
    → Everywhere P k
    → Everywhere P (run_calls cs k)
unfolding run_calls
run_calls-Everywhere P [] k all = all
run_calls-Everywhere P (c ∷ cs) k all =
    run_calls-Everywhere P cs (run_call c k) (run_call-Everywhere P c k all)
