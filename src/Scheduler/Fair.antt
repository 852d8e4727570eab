-- ===== src/Scheduler/Fair.antt =====
-- The round-robin order of kernel/src/scheduler/task.rs (find_ready) and what a switch of
-- kernel/src/scheduler/context.rs (reschedule) does to the states of the tasks.
use dbsos.Common.{
  ◌==◌, Bool-cases, update, some, ◌↔◌, find_from_total, ℕ, ◌+◌, ◌-◌, ◌%◌, ◌≤◌, ◌<◌, ◌≡◌, refl, ◌≢◌,
  ◌⊎◌, inl, inr, true, arith, Option-cases, find_from, find_from-eq-some, find_from_first,
}
use dbsos.Scheduler.Switch.{switch, reschedule, find_ready, ready_ahead}
use dbsos.Kernel.{Kernel}
use dbsos.Scheduler.Task.{TaskState, ready, running, state_eq, max_tasks}

abbrev pub IsReady : Kernel → ℕ → Type 0
IsReady k i = (k.tasks i).state ≡ ready

state_eq-ready : (s : TaskState) → (state_eq s ready ≡ true) ↔ (s ≡ ready)
state_eq-ready s = ground arith

-- At most the current task runs.
pub record IsScheduled (k : Kernel) : Type 0 where
  pub inside : k.current < max_tasks
  pub alone : (i : ℕ) → (k.tasks i).state ≡ running → i ≡ k.current

-- How many steps of the round-robin order lie between the current task and slot `j`.
abbrev pub distance : Kernel → ℕ → ℕ
distance k j = (j + max_tasks - k.current) % max_tasks

not_lt→le : (a b : ℕ) → ¬ (a < b) → b ≤ a
not_lt→le a b h = omega arith

module _ (k : Kernel) (inside : k.current < max_tasks) where
  -- `find_ready` stays inside the table, and what it picks is ready unless it is the current task.
  pub find_ready_picks :
      (find_ready k < max_tasks) × ((find_ready k ≡ k.current) ⊎ IsReady k (find_ready k))
  unfolding find_ready
  find_ready_picks = elim (Option-cases (find_from max_tasks 1 (ready_ahead k))) [
    | inl e ↦ rw (e, find_ready) (inside, inl refl)
    | inr (i, e) ↦
        rw (e, find_ready)
          (
            omega arith,
            inr ((state_eq-ready _).0 (find_from-eq-some (ready_ahead k) max_tasks 1 e).2),
          )
  ]

  ready_ahead-distance :
      (j : ℕ)
      → j < max_tasks
      → j ≢ k.current
      → IsReady k j
      → (0 < distance k j) × (distance k j < max_tasks) × (ready_ahead k (distance k j) ≡ true)
  ready_ahead-distance j h n r =
      let back : (k.current + distance k j) % max_tasks ≡ j = omega arith in
      (omega arith, omega arith, (state_eq-ready _).1 (rw back r))

  -- No ready task is passed over: the pick is at most as far in the round-robin order as any ready
  -- task other than the current one.
  pub find_ready_nearest :
      (j : ℕ)
      → j < max_tasks
      → j ≢ k.current
      → IsReady k j
      → IsReady k (find_ready k)
        × (find_ready k ≢ k.current)
        × (distance k (find_ready k) ≤ distance k j)
  unfolding find_ready
  find_ready_nearest j h n r =
      let (a, b, c) = ready_ahead-distance j h n r in
      let d = distance k j in
      let (i, e) = find_from_total (ready_ahead k) max_tasks 1 d (omega arith) (omega arith) c in
      let (l, m, t) = find_from-eq-some (ready_ahead k) max_tasks 1 e in
      let first : i ≤ d =
        not_lt→le d i
          (λ q. cc (c, find_from_first (ready_ahead k) max_tasks 1 d e (omega arith) q)) in
      rw (e, find_ready) ((state_eq-ready _).0 t, (λ q. omega arith), omega arith)

module _ (read : ℕ → ℕ) (rsp : ℕ) (k : Kernel) where
  -- A reschedule that does not halt either stays with the current task or switches to the pick.
  reschedule-eq-some :
      {k' : Kernel} {rsp' : ℕ}
      → reschedule read rsp k ≡ some (k', rsp')
      → (find_ready k ≡ k.current)
          × (k' ≡ record k { tick_count = k.tick_count + 1 })
          × (rsp' ≡ rsp)
        ⊎ (find_ready k ≢ k.current)
          × (k' ≡ switch rsp (find_ready k) (record k { tick_count = k.tick_count + 1 }))
          × (rsp' ≡ (k.tasks (find_ready k)).sp)
  unfolding reschedule
  reschedule-eq-some {k'} {rsp'} e = ground arith

-- A reschedule keeps the table scheduled: the current slot stays inside the table, and no other
-- task is left running.
pub reschedule-IsScheduled :
    (read : ℕ → ℕ) (rsp : ℕ) (k : Kernel) {k' : Kernel} {rsp' : ℕ}
    → IsScheduled k
    → reschedule read rsp k ≡ some (k', rsp')
    → IsScheduled k'
unfolding update
reschedule-IsScheduled read rsp k {k'} v e = elim (reschedule-eq-some read rsp k e) [
  | inl (a, b, c) ↦ rw b (record { inside = v.inside; alone = v.alone })
  | inr (a, b, c) ↦ rw b (record {
    inside = (find_ready_picks k v.inside).0;
    alone = λ i r. ground (arith, v.alone i);
  })
]

nearer :
    (k : Kernel) (j next : ℕ)
    → k.current < max_tasks
    → j < max_tasks
    → next < max_tasks
    → next ≢ k.current
    → next ≢ j
    → distance k next ≤ distance k j
    → (j + max_tasks - next) % max_tasks < distance k j
nearer k j next a b c d e f = omega arith

-- Round robin: while a task is ready and not the current one, each reschedule that does not halt
-- either switches to it or brings the current slot nearer to it, and leaves it ready.
pub reschedule_nearer :
    (read : ℕ → ℕ) (rsp : ℕ) (k : Kernel) (j : ℕ) {k' : Kernel} {rsp' : ℕ}
    → IsScheduled k
    → j < max_tasks
    → j ≢ k.current
    → IsReady k j
    → reschedule read rsp k ≡ some (k', rsp')
    → (k'.current ≡ j) ⊎ (IsReady k' j × (distance k' j < distance k j))
unfolding update
reschedule_nearer read rsp k j {k'} v h n r e =
    let next = find_ready k in
    let (a, b, c) = find_ready_nearest k v.inside j h n r in
    elim (reschedule-eq-some read rsp k e) [
      | inl (stay, _, _) ↦ absurd (b stay)
      | inr (_, q, _) ↦ elim (Bool-cases (next == j)) [
        | inl same ↦ inl (rw q (ground arith))
        | inr other ↦ inr (
          rw q (ground arith),
          rw q (nearer k j next v.inside h (find_ready_picks k v.inside).0 b (ground arith) c),
        )
      ]
    ]

-- A switch saves the stack pointer of the task that it leaves and resumes the other's.
pub reschedule_saves :
    (read : ℕ → ℕ) (rsp : ℕ) (k : Kernel) {k' : Kernel} {rsp' : ℕ}
    → reschedule read rsp k ≡ some (k', rsp')
    → k'.current ≢ k.current
    → ((k'.tasks k.current).sp ≡ rsp)
      × (rsp' ≡ (k.tasks k'.current).sp)
      × ((k'.tasks k'.current).state ≡ running)
unfolding update
reschedule_saves read rsp k e n = elim (reschedule-eq-some read rsp k e) [
  | inl (stay, q, _) ↦ absurd (n (rw q))
  | inr (m, q, s) ↦ rw (q, s) (ground arith, refl, ground arith)
]
