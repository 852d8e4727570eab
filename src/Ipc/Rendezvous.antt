-- ===== src/Ipc/Rendezvous.antt =====
-- A message that is sent arrives: kernel/src/ipc.rs, whichever side comes first.
use dbsos.Common.{
  ℕ, ◌<◌, ◌≡◌, refl, sym, ap, ◌∙◌, ◌≢◌, inl, inr, false, not, ◌&&◌, some, arith, ◌==◌, Bool-cases,
  find_from-eq-some, find_from_total, update,
}
use dbsos.Abi.Cap.{Cap, cap_send, cap_recv, ipc_ok}
use dbsos.Abi.Ipc.{Message}
use dbsos.Kernel.{Kernel}
use dbsos.Cap.{get}
use dbsos.Scheduler.Task.{free, ready, blocked_send, blocked_recv, state_eq, max_tasks}
use dbsos.Ipc.{
  done, yields, any_partner, lacks, find_target, waits_to_send, find_sender, hand_message,
  block_sender, send_to, send_with_cap, take_pending, block_receiver, recv_from_others,
  recv_with_cap, recv_resume,
}
use dbsos.Ipc.Guard.{Sending, sending}

-- The task in slot `r` waits in a receive for a message from anyone.
abbrev pub Waits : Kernel → ℕ → Type 0
Waits k r = ((k.tasks r).state ≡ blocked_recv) × ((k.tasks r).ipc_partner ≡ any_partner)

-- A receive that yields leaves its task waiting.
pub recv_with_cap-Waits :
    (ursave idx : ℕ) (k : Kernel)
    → (recv_with_cap ursave idx k).1 ≡ yields
    → Waits (recv_with_cap ursave idx k).0 k.current
unfolding recv_with_cap recv_from_others block_receiver take_pending update
recv_with_cap-Waits ursave idx k y = ground arith

-- Receive first: the send finds the waiting task, makes it ready and returns at once.
send_to_waiting :
    (ursave target r : ℕ) (msg : Message) (k : Kernel)
    → r ≢ k.current
    → Waits k r
    → send_to ursave target r msg k ≡ (hand_message r msg k, done ipc_ok)
unfolding send_to
send_to_waiting ursave target r msg k n w = ground arith

resume-hand_message :
    (r : ℕ) (msg : Message) (k : Kernel)
    → ((hand_message r msg k).tasks r).state ≡ ready
      × ((recv_resume (record (hand_message r msg k) { current = r })).1 ≡ (ipc_ok, some msg))
      × (((recv_resume (record (hand_message r msg k) { current = r })).0.tasks r).ipc_val ≡ 0)
unfolding hand_message recv_resume take_pending update
resume-hand_message r msg k = ground arith

-- With the capability for it, a send goes to the target's slot.
pub send_with_cap-eq :
    (ursave idx : ℕ) (msg : Message) (k : Kernel) (c : Cap) (s : ℕ)
    → get idx k ≡ some c
    → lacks cap_send c ≡ false
    → find_target k c.server_id ≡ some s
    → send_with_cap ursave idx msg k ≡ send_to ursave c.server_id s msg k
unfolding send_with_cap
send_with_cap-eq ursave idx msg k c s g l f = rw (g, send_with_cap) (rw l (rw f))

-- With the capability for it, and nothing sent by the task to itself, a receive looks at the others.
pub recv_with_cap-eq :
    (ursave idx : ℕ) (k : Kernel) (c : Cap)
    → get idx k ≡ some c
    → lacks cap_recv c ≡ false
    → (k.pending k.current).msg_type ≡ 0
    → recv_with_cap ursave idx k ≡ recv_from_others ursave k
unfolding recv_with_cap
recv_with_cap-eq ursave idx k c g l z = rw (g, recv_with_cap) (rw l (rw z))

-- Receive first: the receive gives up the processor, a task that may send to the receiver sends, and
-- the send returns IPC_OK at once. The receiver is then ready, and its receive goes on to return
-- IPC_OK with exactly the message that was sent.
pub recv_then_send :
    (ur ux idx jdx x : ℕ) (msg : Message) (k : Kernel) (c : Cap)
    → (recv_with_cap ur idx k).1 ≡ yields
    → x ≢ k.current
    → get jdx (record (recv_with_cap ur idx k).0 { current = x }) ≡ some c
    → lacks cap_send c ≡ false
    → find_target (record (recv_with_cap ur idx k).0 { current = x }) c.server_id ≡ some k.current
    → let sent = send_with_cap ux jdx msg (record (recv_with_cap ur idx k).0 { current = x }) in
      (sent.1 ≡ done ipc_ok)
      × ((sent.0.tasks k.current).state ≡ ready)
      × ((recv_resume (record sent.0 { current = k.current })).1 ≡ (ipc_ok, some msg))
recv_then_send ur ux idx jdx x msg k c y n g l f =
    let k' = record (recv_with_cap ur idx k).0 { current = x } in
    let goes = send_with_cap-eq ux jdx msg k' c k.current g l f in
    let at_once =
      send_to_waiting ux c.server_id k.current msg k' (λ e. n (sym e))
        (recv_with_cap-Waits ur idx k y) in
    let (a, b, _) = resume-hand_message k.current msg k' in rw (goes ∙ at_once) (refl, a, b)

-- A send to another task that yields has put its task to sleep with the message.
send_to-yields :
    (ursave target s : ℕ) (msg : Message) (k : Kernel)
    → (send_to ursave target s msg k).1 ≡ yields
    → (s ≢ k.current) × (send_to ursave target s msg k ≡ (block_sender ursave target msg k, yields))
unfolding send_to
send_to-yields ursave target s msg k y = ground arith

find_target-id :
    (k : Kernel) (target_id s : ℕ)
    → find_target k target_id ≡ some s
    → (s < max_tasks) × ((k.tasks s).id ≡ target_id)
unfolding find_target
find_target-id k target_id s e = ground (
  arith,
  find_from-eq-some (λ i. (k.tasks i).id == target_id && not (state_eq (k.tasks i).state free))
      max_tasks 0 e,
)

-- A send that yields has put its task to sleep with the message, for the target's task.
pub send_with_cap-yields :
    (ursave idx : ℕ) (msg : Message) (k : Kernel) (c : Cap) (r : ℕ)
    → get idx k ≡ some c
    → find_target k c.server_id ≡ some r
    → (send_with_cap ursave idx msg k).1 ≡ yields
    → (r ≢ k.current)
      × (send_with_cap ursave idx msg k ≡ (block_sender ursave (k.tasks r).id msg k, yields))
send_with_cap-yields ursave idx msg k c r g f y = elim (sending ursave idx msg k) [
  | Sending.refused e q n ↦ absurd (cc (q, y))
  | Sending.allowed c' s g' l f' q ↦
      let same : c' ≡ c = cc (g, g') in
      let there : s ≡ r = cc (f, f', same) in
      let goes = send_to-yields ursave c.server_id r msg k (cc (q, y, same, there)) in
      (goes.0, cc (q, same, there, goes.1, (find_target-id k c.server_id r f).1))
]

module _ (ux r : ℕ) (msg : Message) (k : Kernel) (inside : k.current < max_tasks)
    (other : r ≢ k.current)
    (only : (i : ℕ)
      → i ≢ k.current
      → (k.tasks i).state ≡ blocked_send
      → (k.tasks i).ipc_partner ≢ (k.tasks r).id) where
  slept : Kernel
  slept = record (block_sender ux (k.tasks r).id msg k) { current = r }

  find_sender-slept : find_sender slept (k.tasks r).id ≡ some k.current
  unfolding find_sender slept block_sender update
  find_sender-slept =
      let test = waits_to_send slept (k.tasks r).id in
      let (j, e) =
        find_from_total test max_tasks 0 k.current (omega arith) (omega arith) (ground arith) in
      let (_, _, t) = find_from-eq-some test max_tasks 0 e in
      elim (Bool-cases (j == k.current)) [
        | inl q ↦ e ∙ ap some (ground arith)
        | inr q ↦ absurd (only j (ground arith) (ground arith) (ground arith))
      ]

  recv_from_others-slept :
      (ur : ℕ)
      → ((recv_from_others ur slept).1 ≡ done (ipc_ok, some msg))
        × (((recv_from_others ur slept).0.tasks k.current).state ≡ ready)
  unfolding recv_from_others slept block_sender update
  recv_from_others-slept ur =
      let at_r : (slept.tasks r).id ≡ (k.tasks r).id = ground arith in
      rw (at_r, recv_from_others) (rw (find_sender-slept) (ground arith, ground arith))

  -- The receive leaves the rest of the sender's record.
  recv_from_others-sender :
      (ur : ℕ)
      → ((recv_from_others ur slept).0.tasks k.current).ipc_val ≡ 1
        × (((recv_from_others ur slept).0.tasks k.current).pending_msg
            ≡ (k.tasks k.current).pending_msg)
        × (((recv_from_others ur slept).0.tasks k.current).id ≡ (k.tasks k.current).id)
  unfolding recv_from_others slept block_sender update
  recv_from_others-sender ur =
      let at_r : (slept.tasks r).id ≡ (k.tasks r).id = ground arith in
      rw (at_r, recv_from_others)
        (rw (find_sender-slept) (ground arith, ground arith, ground arith))

-- Send first: where a send yields, no other task waits to send to the target, and the target runs next,
-- has a capability to receive and no message of its own to itself, its receive returns IPC_OK at
-- once with exactly the message that was sent, and the sender is ready again.
pub send_then_recv :
    (ux ur idx jdx r : ℕ) (msg : Message) (k : Kernel) (c d : Cap)
    → k.current < max_tasks
    → get idx k ≡ some c
    → find_target k c.server_id ≡ some r
    → (send_with_cap ux idx msg k).1 ≡ yields
    → ((i : ℕ)
        → i ≢ k.current
        → (k.tasks i).state ≡ blocked_send
        → (k.tasks i).ipc_partner ≢ (k.tasks r).id)
    → get jdx (record (send_with_cap ux idx msg k).0 { current = r }) ≡ some d
    → lacks cap_recv d ≡ false
    → (k.pending r).msg_type ≡ 0
    → let got = recv_with_cap ur jdx (record (send_with_cap ux idx msg k).0 { current = r }) in
      (got.1 ≡ done (ipc_ok, some msg)) × ((got.0.tasks k.current).state ≡ ready)
unfolding slept block_sender
send_then_recv ux ur idx jdx r msg k c d h g f y only g' l z =
    let (n, q) = send_with_cap-yields ux idx msg k c r g f y in
    let k' = slept ux r msg k h n only in
    let held : get jdx k' ≡ some d = rw q at g' in
    let (a, b) = recv_from_others-slept ux r msg k h n only ur in
    rw (q, recv_with_cap-eq ur jdx k' d held l z) (a, b)

-- Under the same conditions, the receive leaves `ipc_val` of the sender as the send has set it, and the buffer of the
-- sender as it was.
pub send_then_recv_sender :
    (ux ur idx jdx r : ℕ) (msg : Message) (k : Kernel) (c d : Cap)
    → k.current < max_tasks
    → get idx k ≡ some c
    → find_target k c.server_id ≡ some r
    → (send_with_cap ux idx msg k).1 ≡ yields
    → ((i : ℕ)
        → i ≢ k.current
        → (k.tasks i).state ≡ blocked_send
        → (k.tasks i).ipc_partner ≢ (k.tasks r).id)
    → get jdx (record (send_with_cap ux idx msg k).0 { current = r }) ≡ some d
    → lacks cap_recv d ≡ false
    → (k.pending r).msg_type ≡ 0
    → let got = recv_with_cap ur jdx (record (send_with_cap ux idx msg k).0 { current = r }) in
      ((got.0.tasks k.current).ipc_val ≡ 1)
      × ((got.0.tasks k.current).pending_msg ≡ (k.tasks k.current).pending_msg)
      × ((got.0.tasks k.current).id ≡ (k.tasks k.current).id)
unfolding slept block_sender
send_then_recv_sender ux ur idx jdx r msg k c d h g f y only g' l z =
    let (n, q) = send_with_cap-yields ux idx msg k c r g f y in
    let k' = slept ux r msg k h n only in
    let held : get jdx k' ≡ some d = rw q at g' in
    rw (q, recv_with_cap-eq ur jdx k' d held l z) (recv_from_others-sender ux r msg k h n only ur)
