-- ===== src/Ipc/Legacy.antt =====
-- kernel/src/scheduler/ipc_sched.rs: the messages of one word, without capabilities, over the same task table. A call
-- that reaches `yield_now` stops there with `yields`; `resume` is the rest of a receive.
use dbsos.Common.{
  ℕ, ◌≡◌, refl, ap, ◌∙◌, Bool, true, ◌&&◌, ◌||◌, Option, none, some, ◌==◌, if◌then◌else◌, find_from,
  update_self,
}
use dbsos.Kernel.{Kernel, set_task, current_task}
use dbsos.Scheduler.Task.{
  Task, TaskState, ready, blocked_send, blocked_recv, state_eq, max_tasks, ipc_err, ipc_any,
}
use dbsos.Scheduler.Lookup.{find_task}
use dbsos.Ipc.{Step, done, yields, save_ursave}

-- The task in slot `i` waits in this state for the task `id`, or for any.
abbrev pub waits : TaskState → (id : ℕ) → Task → Bool
waits s id t = state_eq t.state s && (t.ipc_partner == ipc_any || t.ipc_partner == id)

-- `try_match_send` and `try_match_send_u64`: `none` for false.
unfoldable pub try_match_send : (dst_id val : ℕ) → Kernel → Option Kernel
try_match_send dst_id val k = elim (find_task k dst_id) [
  | none ↦ none
  | some dst ↦
      if waits blocked_recv (current_task k).id (k.tasks dst)
      then some (set_task dst (record (k.tasks dst) { ipc_val = val; state = ready }) k)
      else none
]

-- The sender that a receive from `src_id` matches, 0 for any.
unfoldable pub find_source : (src_id : ℕ) → Kernel → Option ℕ
find_source src_id k =
    if src_id == 0
    then find_from max_tasks 0 (λ i. waits blocked_send (current_task k).id (k.tasks i))
    else elim (find_task k src_id) [
      | none ↦ none
      | some s ↦ if waits blocked_send (current_task k).id (k.tasks s) then some s else none
    ]

-- `try_match_recv`; with 0 it is `try_match_recv_u64`.
unfoldable pub try_match_recv : (src_id : ℕ) → Kernel → Option (Kernel × ℕ)
try_match_recv src_id k = elim (find_source src_id k) [
  | none ↦ none
  | some src ↦ some (set_task src (record (k.tasks src) { state = ready }) k, (k.tasks src).ipc_val)
]

-- `ipc_send` and `ipc_send_u64`.
unfoldable pub ipc_send : (ursave dst_id val : ℕ) → Kernel → Kernel × Step ℕ
ipc_send ursave dst_id val k = elim (find_task k dst_id) [
  | none ↦ (k, done ipc_err)
  | some dst ↦ elim (try_match_send dst_id val k) [
    | some k' ↦ (k', done 0)
    | none ↦ (
      set_task k.current
          (save_ursave ursave
            (record (current_task k) { state = blocked_send; ipc_partner = dst_id; ipc_val = val }))
          k,
      yields,
    )
  ]
]

-- `ipc_recv`; with 0 it is `ipc_recv_u64`.
unfoldable pub ipc_recv : (ursave src_id : ℕ) → Kernel → Kernel × Step ℕ
ipc_recv ursave src_id k = elim (try_match_recv src_id k) [
  | some (k', val) ↦ (k', done val)
  | none ↦ (
    set_task k.current
        (save_ursave ursave (record (current_task k) {
          state = blocked_recv;
          ipc_partner = if src_id == 0 then ipc_any else src_id;
        }))
        k,
    yields,
  )
]

-- `ipc_recv` from the return of `yield_now` on.
unfoldable pub resume : Kernel → ℕ
resume k = (current_task k).ipc_val

ipc_send-waits :
    (ursave dst_id val dst : ℕ) (k : Kernel)
    → find_task k dst_id ≡ some dst
    → waits blocked_recv (current_task k).id (k.tasks dst) ≡ true
    → ipc_send ursave dst_id val k
      ≡ (set_task dst (record (k.tasks dst) { ipc_val = val; state = ready }) k, done 0)
unfolding ipc_send try_match_send
ipc_send-waits ursave dst_id val dst k e w =
    let matched : try_match_send dst_id val k
        ≡ some (set_task dst (record (k.tasks dst) { ipc_val = val; state = ready }) k) =
      rw (e, try_match_send) (rw w refl) in
    rw (e, ipc_send) (rw matched refl)

ipc_recv-none :
    (ursave : ℕ) (k : Kernel)
    → try_match_recv 0 k ≡ none
    → ipc_recv ursave 0 k ≡ (
      set_task k.current
          (save_ursave ursave
            (record (current_task k) { state = blocked_recv; ipc_partner = ipc_any }))
          k,
      yields,
    )
unfolding ipc_recv
ipc_recv-none ursave k e = rw (e, ipc_recv) refl

-- Where no sender waits, `ipc_recv` from any puts its task to sleep. When another task, in slot `s`, then sends a word to it, the
-- send returns 0 at once, the receiver is ready, and its receive returns the word.
pub ipc_recv_then_send :
    (ursave ursave' dst_id val s : ℕ) (k : Kernel)
    → try_match_recv 0 k ≡ none
    → find_task (record (ipc_recv ursave 0 k).0 { current = s }) dst_id ≡ some k.current
    → ((ipc_recv ursave 0 k).1 ≡ yields)
      × ((ipc_send ursave' dst_id val (record (ipc_recv ursave 0 k).0 { current = s })).1 ≡ done 0)
      × (((ipc_send ursave' dst_id val (record (ipc_recv ursave 0 k).0 { current = s })).0.tasks
            k.current).state
          ≡ ready)
      × (resume
            (record (ipc_send ursave' dst_id val
              (record (ipc_recv ursave 0 k).0 { current = s })).0 { current = k.current })
          ≡ val)
unfolding resume
ipc_recv_then_send ursave ursave' dst_id val s k e f =
    let slept = ipc_recv-none ursave k e in
    let waiting : waits blocked_recv
          (current_task (record (ipc_recv ursave 0 k).0 { current = s })).id
          ((ipc_recv ursave 0 k).0.tasks k.current)
        ≡ true =
      asleep _ slept in
    let sent =
      ipc_send-waits ursave' dst_id val k.current (record (ipc_recv ursave 0 k).0 { current = s }) f
        waiting in
    let new =
      update_self (ipc_recv ursave 0 k).0.tasks k.current
        (record ((ipc_recv ursave 0 k).0.tasks k.current) { ipc_val = val; state = ready }) in
    (
      ap (λ x. x.1) slept,
      ap (λ x. x.1) sent,
      ap (λ x. (x.0.tasks k.current).state) sent ∙ ap (λ t. t.state) new,
      ap (λ x. (x.0.tasks k.current).ipc_val) sent ∙ ap (λ t. t.ipc_val) new,
    )
  where
    asleep :
        (id : ℕ)
        → ipc_recv ursave 0 k ≡ (
          set_task k.current
              (save_ursave ursave
                (record (current_task k) { state = blocked_recv; ipc_partner = ipc_any }))
              k,
          yields,
        )
        → waits blocked_recv id ((ipc_recv ursave 0 k).0.tasks k.current) ≡ true
    asleep id q = rw q (
        rw
          (update_self k.tasks k.current (
            save_ursave ursave
              (record (current_task k) { state = blocked_recv; ipc_partner = ipc_any })))
          refl)
