-- ===== src/Ipc/Pending.antt =====
-- kernel/src/ipc.rs: what a receive reads where no other task sends: the task's own message, and the
-- buffer that `ipc_val` marks as filled.
use dbsos.Common.{ℕ, ◌<◌, ◌≡◌, refl, ◌∙◌, ◌≢◌, false, none, some, arith, update}
use dbsos.Abi.Cap.{Cap, cap_send, cap_recv, ipc_ok}
use dbsos.Abi.Ipc.{Message, empty}
use dbsos.Kernel.{Kernel, set_state}
use dbsos.Cap.{get}
use dbsos.Scheduler.Task.{running, blocked_send, max_tasks}
use dbsos.Ipc.{
  done, yields, lacks, find_target, find_sender, send_to, send_with_cap, take_pending,
  recv_from_others, recv_with_cap,
}
use dbsos.Ipc.Rendezvous.{send_with_cap-eq, recv_with_cap-eq, send_then_recv_sender}

-- A task that sends to itself does not wait, and its next receive returns the message and clears the
-- slot. The type of the message must not be 0, which marks an empty slot.
pub send_to_self :
    (ux ur idx jdx : ℕ) (msg : Message) (k : Kernel) (c d : Cap)
    → get idx k ≡ some c
    → lacks cap_send c ≡ false
    → find_target k c.server_id ≡ some k.current
    → get jdx k ≡ some d
    → lacks cap_recv d ≡ false
    → msg.msg_type ≢ 0
    → let sent = send_with_cap ux idx msg k in
      let got = recv_with_cap ur jdx sent.0 in
      (sent.1 ≡ done ipc_ok)
      × (got.1 ≡ done (ipc_ok, some msg))
      × (got.0.pending k.current ≡ empty)
      × (got.0.tasks ≡ k.tasks)
unfolding send_to recv_with_cap get update
send_to_self ux ur idx jdx msg k c d g l f g' l' n =
    let goes : send_with_cap ux idx msg k
        ≡ (record k { pending = update k.pending k.current msg }, done ipc_ok) =
      send_with_cap-eq ux idx msg k c k.current g l f ∙ ground arith in
    rw goes (refl, ground (arith, goes), ground (arith, goes), ground (arith, goes))

-- The kernel after a send that sleeps, the receive of task `r` that takes the message, and the switch back to the sender.
abbrev pub after_service : (ux ur idx jdx r : ℕ) → Message → Kernel → Kernel
after_service ux ur idx jdx r msg k =
    let sent = (send_with_cap ux idx msg k).0 in
    let served = (recv_with_cap ur jdx (record sent { current = r })).0 in
    set_state k.current running (record served { current = k.current })

-- A sleeping send leaves the sender's `ipc_val` at 1, and the receive that takes its message does not reset it. So when
-- the sender, running again, receives with a capability for it while nobody has sent to it, itself included, the
-- receive returns IPC_OK with whatever its buffer held before the send, though no message was
-- delivered. The service is as in a send that comes first: no other task waits to send to the
-- receiver, which has a capability and no message to itself.
pub recv_after_sleeping_send :
    (ux ur us idx jdx ldx r : ℕ) (msg : Message) (k : Kernel) (c d e : Cap)
    → k.current < max_tasks
    → get idx k ≡ some c
    → find_target k c.server_id ≡ some r
    → (send_with_cap ux idx msg k).1 ≡ yields
    → ((i : ℕ)
        → i ≢ k.current
        → (k.tasks i).state ≡ blocked_send
        → (k.tasks i).ipc_partner ≢ (k.tasks r).id)
    → get jdx (record (send_with_cap ux idx msg k).0 { current = r }) ≡ some d
    → lacks cap_recv d ≡ false
    → (k.pending r).msg_type ≡ 0
    → let back = after_service ux ur idx jdx r msg k in
      get ldx back ≡ some e
      → lacks cap_recv e ≡ false
      → find_sender back (k.tasks k.current).id ≡ none
      → (back.pending k.current).msg_type ≡ 0
      → (recv_with_cap us ldx back).1 ≡ done (ipc_ok, some (k.tasks k.current).pending_msg)
unfolding recv_from_others take_pending update
recv_after_sleeping_send ux ur us idx jdx ldx r msg k c d e h g f y only g' l z g'' l' n z' =
    let (marked, buffer, name) =
      send_then_recv_sender ux ur idx jdx r msg k c d h g f y only g' l z in
    let back = after_service ux ur idx jdx r msg k in
    rw (recv_with_cap-eq us ldx back e g'' l' z') (ground (arith, marked, buffer, name, n))
