-- ===== src/Ipc/Guard.antt =====
-- The checks of kernel/src/ipc.rs: without a capability a call changes nothing, and with one it
-- touches the tasks that the capability is about.
use dbsos.Common.{
  ℕ, ◌≡◌, refl, ◌≢◌, ◌⊎◌, inl, inr, not, ◌&&◌, Option, none, false, some, ℤ, arith, ◌==◌,
  Bool-cases, Option-cases, update, bit_and, find_from-eq-some,
}
use dbsos.Abi.Cap.{
  Cap, ipc_target, to_u64, cap_send, cap_recv, ipc_ok, ipc_err_bad_cap, ipc_err_no_server,
  ipc_err_denied,
}
use dbsos.Abi.Ipc.{Message, empty}
use dbsos.Kernel.{Kernel}
use dbsos.Scheduler.Task.{free, blocked_send, state_eq, max_tasks}
use dbsos.Cap.{get}
use dbsos.Ipc.{
  done, lacks, find_target, hand_message, block_sender, send_to, send_with_cap, find_sender,
  waits_to_send, recv_from_others, recv_with_cap, take_pending, block_receiver,
}

-- A capability that passes the checks is a message capability with the right.
lacks-false :
    (right : ℕ) (c : Cap)
    → lacks right c ≡ false
    → (c.cap_type ≡ to_u64 ipc_target) × (bit_and c.rights right ≢ 0)
lacks-false right c l = (ground arith, λ z. ground arith)

find_target-names :
    (k : Kernel) (target i : ℕ)
    → find_target k target ≡ some i
    → ((k.tasks i).id ≡ target) × ((k.tasks i).state ≢ free)
unfolding find_target
find_target-names k target i e =
    let (a, b, t) =
      find_from-eq-some (λ i. (k.tasks i).id == target && not (state_eq (k.tasks i).state free))
        max_tasks 0 {j = i} e in
    (ground arith, λ f. ground arith)

find_sender-waits :
    (k : Kernel) (id i : ℕ)
    → find_sender k id ≡ some i
    → ((k.tasks i).state ≡ blocked_send) × ((k.tasks i).ipc_partner ≡ id)
unfolding find_sender
find_sender-waits k id i e =
    let (a, b, t) = find_from-eq-some (waits_to_send k id) max_tasks 0 {j = i} e in
    (ground arith, ground arith)

module _ (ursave idx : ℕ) (msg : Message) (k : Kernel) where
  -- A send is refused with no effect, or goes to the task that the capability names.
  pub data Sending : Type 0 where
    refused : (e : ℤ) → send_with_cap ursave idx msg k ≡ (k, done e) → e ≢ ipc_ok → Sending
    allowed :
        (c : Cap) (s : ℕ)
        → get idx k ≡ some c
        → lacks cap_send c ≡ false
        → find_target k c.server_id ≡ some s
        → send_with_cap ursave idx msg k ≡ send_to ursave c.server_id s msg k
        → Sending

  pub sending : Sending
  unfolding send_with_cap
  sending = elim (Option-cases (get idx k)) [
    | inl e ↦ refused ipc_err_bad_cap (rw (e, send_with_cap)) (λ x. cc)
    | inr (c, e) ↦ elim (Bool-cases (lacks cap_send c)) [
      | inl l ↦ refused ipc_err_denied (rw (e, send_with_cap) (rw l)) (λ x. cc)
      | inr l ↦ elim (Option-cases (find_target k c.server_id)) [
        | inl f ↦ refused ipc_err_no_server (rw (e, send_with_cap) (rw l (rw f))) (λ x. cc)
        | inr (s, f) ↦ allowed c s e l f (rw (e, send_with_cap) (rw l (rw f)))
      ]
    ]
  ]

  send_to_frame :
      (target s i : ℕ)
      → i ≢ k.current
      → ((send_to ursave target s msg k).0.tasks i ≡ k.tasks i) ⊎ (s ≡ i)
  unfolding send_to hand_message block_sender update
  send_to_frame target s i n = elim (Bool-cases (s == i)) [
    | inl e ↦ inr (ground arith)
    | inr e ↦ inl (ground arith)
  ]

  -- A send changes another task only if the caller holds a message capability with the send right whose
  -- server id is that task's id, and the task is not free.
  pub send_with_cap_guarded :
      (i : ℕ)
      → i ≢ k.current
      → ((send_with_cap ursave idx msg k).0.tasks i ≡ k.tasks i)
        ⊎ ((c : Cap) × (get idx k ≡ some c)
            × (c.cap_type ≡ to_u64 ipc_target)
            × (bit_and c.rights cap_send ≢ 0)
            × ((k.tasks i).id ≡ c.server_id)
            × ((k.tasks i).state ≢ free))
  send_with_cap_guarded i n = elim sending [
    | refused e q m ↦ rw q (inl refl)
    | allowed c s g l f q ↦ elim (send_to_frame c.server_id s i n) [
      | inl same ↦ rw q (inl same)
      | inr here ↦
          let (t, r) = lacks-false cap_send c l in
          let (a, b) = find_target-names k c.server_id i (cc (f, here)) in inr (c, g, t, r, a, b)
    ]
  ]

module _ (ursave idx : ℕ) (k : Kernel) where
  -- A receive is refused with no effect, takes the task's own message, or looks at the others.
  pub data Receiving : Type 0 where
    refused : (e : ℤ) → recv_with_cap ursave idx k ≡ (k, done (e, none)) → e ≢ ipc_ok → Receiving
    own :
        (c : Cap)
        → get idx k ≡ some c
        → lacks cap_recv c ≡ false
        → recv_with_cap ursave idx k ≡ (
          record k { pending = update k.pending k.current empty },
          done (ipc_ok, some (k.pending k.current)),
        )
        → Receiving
    others :
        (c : Cap)
        → get idx k ≡ some c
        → lacks cap_recv c ≡ false
        → (k.pending k.current).msg_type ≡ 0
        → recv_with_cap ursave idx k ≡ recv_from_others ursave k
        → Receiving

  pub receiving : Receiving
  unfolding recv_with_cap
  receiving = elim (Option-cases (get idx k)) [
    | inl e ↦ refused ipc_err_bad_cap (rw (e, recv_with_cap)) (λ x. cc)
    | inr (c, e) ↦ elim (Bool-cases (lacks cap_recv c)) [
      | inl l ↦ refused ipc_err_denied (rw (e, recv_with_cap) (rw l)) (λ x. cc)
      | inr l ↦ elim (Bool-cases ((k.pending k.current).msg_type == 0)) [
        | inl z ↦ others c e l (ground arith) (rw (e, recv_with_cap) (rw l (rw z)))
        | inr z ↦ own c e l (rw (e, recv_with_cap) (rw l (rw z)))
      ]
    ]
  ]

  recv_from_others_frame :
      (i : ℕ)
      → i ≢ k.current
      → ((recv_from_others ursave k).0.tasks i ≡ k.tasks i)
        ⊎ (find_sender k (k.tasks k.current).id ≡ some i)
  unfolding recv_from_others take_pending block_receiver update
  recv_from_others_frame i n = go (find_sender k (k.tasks k.current).id) refl
    where
      go :
          (o : Option ℕ)
          → find_sender k (k.tasks k.current).id ≡ o
          → ((recv_from_others ursave k).0.tasks i ≡ k.tasks i)
            ⊎ (find_sender k (k.tasks k.current).id ≡ some i)
      go none f = inl (ground arith)
      go (some s) f = elim (Bool-cases (s == i)) [
        | inl e ↦ inr (ground arith)
        | inr e ↦ inl (ground arith)
      ]

  -- A receive changes another task only if the caller holds a message capability with the receive
  -- right, and that task is blocked in a send to the caller, the first of those.
  pub recv_with_cap_guarded :
      (i : ℕ)
      → i ≢ k.current
      → ((recv_with_cap ursave idx k).0.tasks i ≡ k.tasks i)
        ⊎ ((c : Cap) × (get idx k ≡ some c)
            × (c.cap_type ≡ to_u64 ipc_target)
            × (bit_and c.rights cap_recv ≢ 0)
            × ((k.tasks i).state ≡ blocked_send)
            × ((k.tasks i).ipc_partner ≡ (k.tasks k.current).id)
            × (find_sender k (k.tasks k.current).id ≡ some i))
  recv_with_cap_guarded i n = elim receiving [
    | refused e q m ↦ rw q (inl refl)
    | own c g l q ↦ rw q (inl refl)
    | others c g l z q ↦ elim (recv_from_others_frame i n) [
      | inl same ↦ rw q (inl same)
      | inr here ↦
          let (t, r) = lacks-false cap_recv c l in
          let (a, b) = find_sender-waits k (k.tasks k.current).id i here in
          inr (c, g, t, r, a, b, here)
    ]
  ]
