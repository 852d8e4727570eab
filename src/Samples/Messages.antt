-- ===== src/Samples/Messages.antt =====
-- The theorems about kernel/src/ipc.rs at concrete inputs.
use dbsos.Scheduler.Task.{free, blocked_send, ready}
use dbsos.Common.{◌≢◌, bit_and, ◌≡◌, refl, ◌⊎◌, some, arith, find_from, update}
use dbsos.Abi.Cap.{ipc_target, to_u64, Cap, cap_send, cap_recv, ipc_ok}
use dbsos.Abi.Ipc.{empty}
use dbsos.Ipc.{
  yields, done, lacks, find_target, find_sender, block_sender, send_to, send_with_cap, take_pending,
  recv_from_others, recv_with_cap, recv_resume,
}
use dbsos.Ipc.Legacy
use dbsos.Ipc.Legacy.{ipc_recv, ipc_send, ipc_recv_then_send}
use dbsos.Scheduler.Lookup.{find_task}
use dbsos.Kernel.{Kernel}
use dbsos.Cap.{get}
use dbsos.Cap
use dbsos.Ipc
use dbsos.Ipc.Guard.{send_with_cap_guarded, recv_with_cap_guarded}
use dbsos.Ipc.Rendezvous.{recv_then_send, send_then_recv}
use dbsos.Ipc.Pending.{after_service, recv_after_sleeping_send}
use dbsos.Samples.{started, hello}

-- What the calls below compute with.
calls : Unit {0}
unfolding started get find_target find_sender block_sender send_to send_with_cap take_pending
    recv_from_others recv_with_cap recv_resume Ipc.block_receiver Ipc.hand_message
    Cap.Table.table_get find_from update
calls = tt

legacy_calls : Unit {0}
unfolding ipc_recv Legacy.try_match_recv Legacy.find_source find_task
legacy_calls = tt

-- The server runs.
abbrev serving : Kernel
serving = record started { current = 1 }

abbrev client_cap : Cap
client_cap = record { cap_type = 1; server_id = 1; rights = 1; payload = 0 }

abbrev server_cap : Cap
server_cap = record { cap_type = 1; server_id = 1; rights = 3; payload = 7 }

-- The receiver of the message is asleep, and the sender runs.
abbrev waited : Kernel
waited = record (recv_with_cap 0 0 serving).0 { current = 0 }

recv_then_send_example :
    let sent = send_with_cap 0 2 hello waited in
    (sent.1 ≡ done ipc_ok)
    × ((sent.0.tasks 1).state ≡ ready)
    × ((recv_resume (record sent.0 { current = 1 })).1 ≡ (ipc_ok, some hello))
unfolding calls
recv_then_send_example =
    recv_then_send 0 0 0 2 0 hello serving client_cap refl (omega arith) refl refl refl

send_then_recv_example :
    let got = recv_with_cap 0 0 (record (send_with_cap 0 2 hello started).0 { current = 1 }) in
    (got.1 ≡ done (ipc_ok, some hello)) × ((got.0.tasks 0).state ≡ ready)
unfolding calls
send_then_recv_example =
    send_then_recv 0 0 2 0 1 hello started client_cap server_cap (omega arith) refl refl refl
      (λ i n s. ground arith) refl refl refl

abbrev kernel_cap : Cap
kernel_cap = record { cap_type = 1; server_id = 0; rights = 3; payload = 0 }

-- The kernel task has slept in a send, the server has taken the message, and the kernel task runs.
recv_after_sleeping_send_example :
    (recv_with_cap 0 0 (after_service 0 0 2 0 1 hello started)).1 ≡ done (ipc_ok, some empty)
unfolding calls
recv_after_sleeping_send_example =
    recv_after_sleeping_send 0 0 0 2 0 0 1 hello started client_cap server_cap kernel_cap
      (omega arith) refl refl refl (λ i n s. ground arith) refl refl refl refl refl refl refl

send_with_cap_guarded_example :
    ((send_with_cap 0 2 hello started).0.tasks 1 ≡ started.tasks 1)
    ⊎ ((c : Cap) × (get 2 started ≡ some c)
        × (c.cap_type ≡ to_u64 ipc_target)
        × (bit_and c.rights cap_send ≢ 0)
        × ((started.tasks 1).id ≡ c.server_id)
        × ((started.tasks 1).state ≢ free))
unfolding started
send_with_cap_guarded_example = send_with_cap_guarded 0 2 hello started 1 (omega arith)

recv_with_cap_guarded_example :
    ((recv_with_cap 0 0 serving).0.tasks 0 ≡ serving.tasks 0)
    ⊎ ((c : Cap) × (get 0 serving ≡ some c)
        × (c.cap_type ≡ to_u64 ipc_target)
        × (bit_and c.rights cap_recv ≢ 0)
        × ((serving.tasks 0).state ≡ blocked_send)
        × ((serving.tasks 0).ipc_partner ≡ (serving.tasks serving.current).id)
        × (find_sender serving (serving.tasks serving.current).id ≡ some 0))
unfolding started
recv_with_cap_guarded_example = recv_with_cap_guarded 0 0 serving 0 (omega arith)
