-- ===== src/Process/Exit.antt =====
-- kernel/src/scheduler/process.rs: the end of a task.
use dbsos.Common.{
  subst, ℕ, ◌<◌, ◌≡◌, refl, sym, ap, ◌∙◌, ◌≢◌, inl, inr, true, false, ◌&&◌, Option, none, some,
  arith, ◌==◌, ltb, Bool-cases, update_self, update_ne, update_lem,
}
use dbsos.Memory.{PhysAllocator}
use dbsos.Kernel.{Kernel, current_task}
use dbsos.Scheduler.Task.{ready, running, exited, blocked_recv, state_eq, max_tasks}
use dbsos.Scheduler.Switch.{find_ready}
use dbsos.Process.{Machine, exit_with_status, wake_parent, release, died, run_next}
use dbsos.Scheduler.Fair.{find_ready_picks}

died-current_task :
    (status : ℕ) (k : Kernel)
    → ((died status k).current ≡ k.current)
      × ((died status k).tasks k.current
          ≡ record (current_task k) { state = exited; exit_status = status })
unfolding died wake_parent
died-current_task status k =
    let new =
      update_self k.tasks k.current
        (record (current_task k) { state = exited; exit_status = status }) in
    elim (Bool-cases ((current_task k).parent_id == 0)) [
      | inl z ↦ rw z (refl, new)
      | inr z ↦ rw z (refl, rw new (ground arith))
    ]

died-parent :
    (status i : ℕ) (k : Kernel)
    → i < max_tasks
    → i ≢ k.current
    → (k.tasks i).state ≡ blocked_recv
    → (k.tasks i).id ≡ (current_task k).parent_id
    → (current_task k).parent_id ≢ 0
    → (((died status k).tasks i).state ≡ ready)
      × (((died status k).tasks i).ipc_val ≡ (current_task k).id)
unfolding died wake_parent
died-parent status i k h n b p z =
    let old =
      update_ne k.tasks k.current i
        (record (current_task k) { state = exited; exit_status = status }) (λ q. n (sym q)) in
    let y : ((current_task k).parent_id == 0) ≡ false = ground arith in
    let c : (ltb i 32
          && ((k.tasks i).id == (current_task k).parent_id
              && state_eq (k.tasks i).state blocked_recv))
        ≡ true =
      ground arith in
    rw y (rw old (rw c (refl, refl)))

abbrev returned : Machine → Option (Machine × ℕ) → Machine × ℕ
returned m none = (m, 0)
returned m (some x) = x

module _ (destroy_address_space : ℕ → PhysAllocator → PhysAllocator) where
  -- What `exit_with_status` returns, where it returns.
  exit_cases :
      (status sp : ℕ) (m m' : Machine)
      → exit_with_status destroy_address_space status m ≡ some (m', sp)
      → (find_ready (died status m.kernel) ≢ m.kernel.current)
        × (m'.kernel ≡ run_next (find_ready (died status m.kernel)) (died status m.kernel))
        × (sp ≡ ((died status m.kernel).tasks (find_ready (died status m.kernel))).sp)
  unfolding exit_with_status
  exit_cases status sp m m' e =
      elim (Bool-cases (find_ready (died status m.kernel) == m.kernel.current)) [
        | inl q ↦ absurd (cc (e, stays q))
        | inr q ↦
            let r = ap (returned m) (sym e ∙ leaves q) in
            ((λ s. ground arith), ap (λ x. x.0.kernel) r, ap (λ x. x.1) r)
      ]
    where
      stays :
          (find_ready (died status m.kernel) == m.kernel.current) ≡ true
          → exit_with_status destroy_address_space status m ≡ none
      stays q = rw (q, exit_with_status) refl

      leaves :
          (find_ready (died status m.kernel) == m.kernel.current) ≡ false
          → exit_with_status destroy_address_space status m
            ≡ some (
              record m {
                kernel = run_next (find_ready (died status m.kernel)) (died status m.kernel);
                pages = release destroy_address_space (current_task m.kernel) m.pages;
              },
              ((died status m.kernel).tasks (find_ready (died status m.kernel))).sp,
            )
      leaves q = rw (q, exit_with_status) refl

  -- Where `exit_with_status` returns, another task is the current one, it runs, and is resumed at its own stack pointer;
  -- the task that called has ended with the status.
  pub exit_switches :
      (status sp : ℕ) (m m' : Machine)
      → m.kernel.current < max_tasks
      → exit_with_status destroy_address_space status m ≡ some (m', sp)
      → (m'.kernel.current ≢ m.kernel.current)
        × (m'.kernel.current < max_tasks)
        × ((current_task m'.kernel).state ≡ running)
        × ((current_task m'.kernel).sp ≡ sp)
        × ((m'.kernel.tasks m.kernel.current).state ≡ exited)
        × ((m'.kernel.tasks m.kernel.current).exit_status ≡ status)
  exit_switches status sp m m' h e =
      let (n, k, s) = exit_cases status sp m m' e in
      let (cur, dead) = died-current_task status m.kernel in
      let (inside, picks) = find_ready_picks (died status m.kernel) (rw cur h) in
      let next = update_self (died status m.kernel).tasks (find_ready (died status m.kernel)) _ in
      let other =
        update_ne (died status m.kernel).tasks (find_ready (died status m.kernel)) m.kernel.current
          _ n
        ∙ dead in
      rw k (
        n,
        inside,
        ap (λ t. t.state) next,
        ap (λ t. t.sp) next ∙ sym s,
        ap (λ t. t.state) other,
        ap (λ t. t.exit_status) other,
      )

  -- A parent in a receive is woken: after the exit of its child it does not wait, and it holds the child's id.
  pub exit_wakes_parent :
      (status sp i : ℕ) (m m' : Machine)
      → exit_with_status destroy_address_space status m ≡ some (m', sp)
      → i < max_tasks
      → i ≢ m.kernel.current
      → (m.kernel.tasks i).state ≡ blocked_recv
      → (m.kernel.tasks i).id ≡ (current_task m.kernel).parent_id
      → (current_task m.kernel).parent_id ≢ 0
      → ((m'.kernel.tasks i).state ≢ blocked_recv)
        × ((m'.kernel.tasks i).ipc_val ≡ (current_task m.kernel).id)
  exit_wakes_parent status sp i m m' e h n b p z =
      let (other, k, s) = exit_cases status sp m m' e in
      let (woken, told) = died-parent status i m.kernel h n b p z in
      rw k (elim (Bool-cases (find_ready (died status m.kernel) == i)) [
        | inl q ↦
            rw (update_lem (died status m.kernel).tasks (find_ready (died status m.kernel)) i _) (
              rw q (
                (λ r. cc r),
                subst (λ x. ((died status m.kernel).tasks x).ipc_val ≡ (current_task m.kernel).id)
                    (here q) told,
              ))
        | inr q ↦
            rw (update_lem (died status m.kernel).tasks (find_ready (died status m.kernel)) i _)
              (rw q ((λ r. cc (r, woken)), told))
      ])
    where
      here : (find_ready (died status m.kernel) == i) ≡ true → i ≡ find_ready (died status m.kernel)
      here q = ground arith
