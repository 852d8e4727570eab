-- ===== src/Scheduler/Switch.antt =====
-- kernel/src/scheduler/task.rs (find_ready) and kernel/src/scheduler/context.rs (reschedule, which
-- `yield_now` and the timer interrupt call). Address spaces, GDT, TSS and FPU registers are not part
-- of the state here.
use dbsos.Common.{
  Bool, ℕ, ◌+◌, ◌%◌, not, ◌&&◌, ◌||◌, Option, none, some, ◌==◌, if◌then◌else◌, find_from,
}
use dbsos.Kernel.{Kernel, set_task, set_state, current_task}
use dbsos.Scheduler.Task.{ready, running, state_eq, max_tasks, stack_canary}

-- Whether the slot `i` steps ahead of the current one, wrapping round, is ready.
abbrev pub ready_ahead : Kernel → ℕ → Bool
ready_ahead k i = state_eq (k.tasks ((k.current + i) % max_tasks)).state ready

unfoldable pub find_ready : Kernel → ℕ
find_ready k = elim (find_from max_tasks 1 (ready_ahead k)) [
  | none ↦ k.current
  | some i ↦ (k.current + i) % max_tasks
]

-- The switch from the current task, whose stack pointer is `rsp`, to `next`.
abbrev pub switch : ℕ → ℕ → Kernel → Kernel
switch rsp next k =
    let cur = k.tasks k.current in
    let demoted =
      if state_eq cur.state running || state_eq cur.state ready
      then record cur { state = ready; sp = rsp }
      else record cur { sp = rsp } in
    record (set_state next running (set_task k.current demoted k)) { current = next }

-- `read` reads a word of memory. `none` is the halt on a broken stack canary.
unfoldable pub reschedule : (ℕ → ℕ) → ℕ → Kernel → Option (Kernel × ℕ)
reschedule read rsp k =
    let k' = record k { tick_count = k.tick_count + 1 } in
    let cur = current_task k in
    let next = find_ready k in
    if not (cur.stack_base == 0) && not (read cur.stack_base == stack_canary)
    then none
    else if next == k.current
    then some (k', rsp)
    else some (switch rsp next k', (k.tasks next).sp)
