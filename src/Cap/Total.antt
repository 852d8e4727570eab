-- ===== src/Cap/Total.antt =====
-- How many capabilities there are over all tables, and how each operation of cap.rs changes that.
use dbsos.Common.{
  ℕ, ◌+◌, ◌<◌, ◌≡◌, refl, sym, Bool, true, not, ◌&&◌, Option, none, some, arith, ◌==◌,
  find_from-eq-some, update, update_lem, update_self, update_ne, bit, sum_from, sum_from_change,
}
use dbsos.Abi.Cap.{Cap, is_valid}
use dbsos.Kernel.{Kernel, CapTable}
use dbsos.Scheduler.Task.{free, state_eq, max_tasks}
use dbsos.Cap.Table.{
  table_alloc, table_get, table_free, table_get-eq-some, table_alloc-eq-none, table_get-table_alloc,
  holds-table_free, holds, holds-table_alloc,
}
use dbsos.Cap.{slot_for_task, set_table, alloc_in, hand_over}

-- The valid capabilities that pass `q`, over the tables of all tasks.
unfoldable pub total : (Cap → Bool) → Kernel → ℕ
total q k = sum_from max_tasks 0 (λ s. holds q (k.cap_tables s))

pub slot_for_task-lt :
    (k : Kernel) (task_id : ℕ) {s : ℕ} → slot_for_task k task_id ≡ some s → s < max_tasks
unfolding slot_for_task
slot_for_task-lt k task_id {s} e = omega (
  arith,
  find_from-eq-some (λ i. not (state_eq (k.tasks i).state free) && (k.tasks i).id == task_id)
      max_tasks 0 {j = s} e,
)

module _ (q : Cap → Bool) (k : Kernel) where
  pub total-set_table :
      (s : ℕ) (t : CapTable)
      → s < max_tasks
      → total q (set_table s t k) + holds q (k.cap_tables s) ≡ total q k + holds q t
  unfolding total
  total-set_table s t h = rw (update_self k.cap_tables s t) at (
      sum_from_change max_tasks 0 s (λ m. holds q (k.cap_tables m))
        (λ m. holds q (update k.cap_tables s t m)) (omega arith) (omega arith)
        (λ m n. rw (update_ne k.cap_tables s m t (λ e. n (sym e)))))

  -- An allocation adds the capability, or changes no count.
  pub total-alloc_in :
      (s : ℕ) (c : Cap) (idx : Option ℕ)
      → s < max_tasks
      → is_valid c ≡ true
      → (alloc_in s c k).1 ≡ idx
      → total q (alloc_in s c k).0 ≡ total q k + elim idx [ none ↦ 0 | some i ↦ bit (q c) ]
  unfolding alloc_in
  total-alloc_in s c none h v e =
      rw (table_alloc-eq-none c (k.cap_tables s) e)
        (omega (arith, total-set_table s (k.cap_tables s) h))
  total-alloc_in s c (some i) h v e = omega (
    arith,
    total-set_table s (table_alloc c (k.cap_tables s)).0 h,
    holds-table_alloc q (k.cap_tables s) c v e,
  )

-- A capability in place survives any allocation.
pub table_get-alloc_in :
    (s : ℕ) (c : Cap) (k : Kernel) (r idx : ℕ) {d : Cap}
    → table_get (k.cap_tables r) idx ≡ some d
    → table_get ((alloc_in s c k).0.cap_tables r) idx ≡ some d
unfolding alloc_in
table_get-alloc_in s c k r idx {d} e = ground (
  arith,
  update_lem k.cap_tables s r (table_alloc c (k.cap_tables s)).0,
  table_get-table_alloc c (k.cap_tables s) idx {d = d},
)

module _ (q : Cap → Bool) (k : Kernel) (inside : k.current < max_tasks) where
  pub total-hand_over :
      (dst idx : ℕ) {c : Cap}
      → dst < max_tasks
      → table_get (k.cap_tables k.current) idx ≡ some c
      → total q (hand_over dst idx c k).0 ≡ total q k
  unfolding hand_over
  total-hand_over dst idx {c} h e = go (alloc_in dst c k).1 refl
    where
      v : is_valid c ≡ true
      v = (table_get-eq-some (k.cap_tables k.current) idx e).2

      go : (o : Option ℕ) → (alloc_in dst c k).1 ≡ o → total q (hand_over dst idx c k).0 ≡ total q k
      go none f = rw (f, hand_over) (omega (arith, total-alloc_in q k dst c none h v f))
      go (some i) f =
          let k' = (alloc_in dst c k).0 in
          let table = k'.cap_tables k.current in
          let kept = table_get-alloc_in dst c k k.current idx e in
          rw (f, hand_over)
            (omega (
              arith,
              total-set_table q k' k.current (table_free idx table) inside,
              holds-table_free q table idx kept,
              total-alloc_in q k dst c (some i) h v f,
            ))
