-- ===== src/Ipc.antt =====
-- kernel/src/ipc.rs: messages between tasks, under capabilities. A call that reaches `yield_now` stops
-- there with `yields`: other tasks run, and the call goes on when its task is the current one again
-- (`recv_resume` for a receive; a send then returns IPC_OK).
pub mod Guard
pub mod Rendezvous
pub mod Pending
pub mod Legacy
use dbsos.Common.{
  ℕ, zero, suc, min, Bool, not, ◌&&◌, ◌||◌, Option, none, some, List, ◌++◌, ℤ, ◌==◌, leb,
  if◌then◌else◌, find_from, update, length, take, drop, bit_and, bit_or,
}
use dbsos.Abi.Cap.{
  Cap, ipc_target, to_u64, cap_send, cap_recv, ipc_ok, ipc_err_bad_cap, ipc_err_no_server,
  ipc_err_timeout, ipc_err_denied,
}
use dbsos.Abi.Ipc.{Message, empty, log, to_u16, payload_size, port_kernel, port_console}
use dbsos.Kernel.{Kernel, set_task, current_task}
use dbsos.Scheduler.Task.{Task, free, ready, blocked_send, blocked_recv, state_eq, max_tasks}
use dbsos.Cap
use dbsos.Cap.{get, alloc_for}

abbrev pub any_partner : ℕ
any_partner = 0

pub data Step {ℓ} (A : Type ℓ) : Type ℓ where
  done : A → Step A
  yields : Step A

-- `if TASKS[cur].ring3 { TASKS[cur].sys_ursave = read_sys_ursave() }`
abbrev pub save_ursave : ℕ → Task → Task
save_ursave ursave t = record t { sys_ursave = if t.ring3 then ursave else t.sys_ursave }

-- `deliver_message`
unfoldable pub deliver_message : (dst_slot src_id : ℕ) → Message → Kernel → Kernel
deliver_message dst_slot src_id msg k =
    set_task dst_slot
      (record (k.tasks dst_slot) { ipc_partner = src_id; pending_msg = msg; ipc_val = 1 }) k

-- The destination waits for a message from this sender, or from any.
abbrev pub accepts : Task → ℕ → Bool
accepts dst cur_id =
    state_eq dst.state blocked_recv && (dst.ipc_partner == cur_id || dst.ipc_partner == any_partner)

-- The immediate match: the receiver is made ready, then the message is put into its buffer.
unfoldable pub hand_message : (dst_slot : ℕ) → Message → Kernel → Kernel
unfolding deliver_message
hand_message dst_slot msg k =
    deliver_message dst_slot (current_task k).id msg
      (set_task dst_slot (record (k.tasks dst_slot) { state = ready }) k)

-- The current task waits until a receiver takes the message.
unfoldable pub block_sender : (ursave target_id : ℕ) → Message → Kernel → Kernel
block_sender ursave target_id msg k =
    set_task k.current
      (save_ursave ursave (record (current_task k) {
        state = blocked_send;
        ipc_partner = target_id;
        ipc_msg = msg;
        ipc_val = 1;
      }))
      k

-- `(0..MAX_TASKS).find(|&i| TASKS[i].id == target_id && TASKS[i].state != Free)`
unfoldable pub find_target : Kernel → ℕ → Option ℕ
find_target k target_id =
    find_from max_tasks 0
      (λ i. (k.tasks i).id == target_id && not (state_eq (k.tasks i).state free))

-- `send_with_cap` behind its checks, to the slot of the target.
unfoldable pub send_to : (ursave target_id dst_slot : ℕ) → Message → Kernel → Kernel × Step ℤ
send_to ursave target_id dst_slot msg k =
    if dst_slot == k.current
    then (record k { pending = update k.pending k.current msg }, done ipc_ok)
    else if accepts (k.tasks dst_slot) (current_task k).id
    then (hand_message dst_slot msg k, done ipc_ok)
    else (block_sender ursave target_id msg k, yields)

-- `cap.cap_type != CapType::IpcTarget as u64 || cap.rights & right == 0`
abbrev pub lacks : ℕ → Cap → Bool
lacks right c = not (c.cap_type == to_u64 ipc_target) || bit_and c.rights right == 0

unfoldable pub send_with_cap : (ursave cap_idx : ℕ) → Message → Kernel → Kernel × Step ℤ
send_with_cap ursave cap_idx msg k = elim (get cap_idx k) [
  | none ↦ (k, done ipc_err_bad_cap)
  | some c ↦
      if lacks cap_send c then (k, done ipc_err_denied) else elim (find_target k c.server_id) [
        | none ↦ (k, done ipc_err_no_server)
        | some dst_slot ↦ send_to ursave c.server_id dst_slot msg k
      ]
]

-- `TASKS[i].state == BlockedSend && TASKS[i].ipc_partner == cur_id`
abbrev pub waits_to_send : Kernel → ℕ → ℕ → Bool
waits_to_send k cur_id i =
    state_eq (k.tasks i).state blocked_send && (k.tasks i).ipc_partner == cur_id

-- The first task that waits to send to `cur_id`.
unfoldable pub find_sender : Kernel → ℕ → Option ℕ
find_sender k cur_id = find_from max_tasks 0 (waits_to_send k cur_id)

-- A receive's result: the status, and what was written to the caller's buffer.
abbrev pub Received : Type 0
Received = ℤ × Option Message

-- `*buf = TASKS[cur].pending_msg; TASKS[cur].ipc_val = 0; IPC_OK`
unfoldable pub take_pending : Kernel → Kernel × Received
take_pending k = (
  set_task k.current (record (current_task k) { ipc_val = 0 }) k,
  (ipc_ok, some (current_task k).pending_msg),
)

unfoldable pub block_receiver : (ursave : ℕ) → Kernel → Kernel
block_receiver ursave k =
    set_task k.current
      (save_ursave ursave
        (record (current_task k) { state = blocked_recv; ipc_partner = any_partner }))
      k

-- `recv_with_cap` behind its checks, where nothing was sent by the task to itself.
unfoldable pub recv_from_others : (ursave : ℕ) → Kernel → Kernel × Step Received
recv_from_others ursave k = elim (find_sender k (current_task k).id) [
  | some i ↦
      (set_task i (record (k.tasks i) { state = ready }) k, done (ipc_ok, some (k.tasks i).ipc_msg))
  | none ↦
      if not ((current_task k).ipc_val == 0)
      then ((take_pending k).0, done (take_pending k).1)
      else (block_receiver ursave k, yields)
]

unfoldable pub recv_with_cap : (ursave cap_idx : ℕ) → Kernel → Kernel × Step Received
recv_with_cap ursave cap_idx k = elim (get cap_idx k) [
  | none ↦ (k, done (ipc_err_bad_cap, none))
  | some c ↦
      if lacks cap_recv c
      then (k, done (ipc_err_denied, none))
      else if not ((k.pending k.current).msg_type == 0)
      then (
        record k { pending = update k.pending k.current empty },
        done (ipc_ok, some (k.pending k.current)),
      )
      else recv_from_others ursave k
]

-- `recv_with_cap` from the return of `yield_now` on.
unfoldable pub recv_resume : Kernel → Kernel × Received
recv_resume k =
    if not ((current_task k).ipc_val == 0) then take_pending k else (k, (ipc_err_timeout, none))

-- `send_inner`
unfoldable pub send_inner : (ursave dst_slot : ℕ) → Message → Kernel → Kernel × Step ℤ
send_inner ursave dst_slot msg k =
    if leb max_tasks dst_slot || state_eq (k.tasks dst_slot).state free
    then (k, done ipc_err_no_server)
    else if accepts (k.tasks dst_slot) (current_task k).id
    then (hand_message dst_slot msg k, done ipc_ok)
    else (block_sender ursave (k.tasks dst_slot).id msg k, yields)

-- `broadcast`, from slot `i` on with `n` slots to go. `yields` with the number of slots that are left
-- for when the sender runs again.
unfoldable pub broadcast_from : (ursave n i : ℕ) → Message → Kernel → Kernel × Option ℕ
broadcast_from ursave zero i msg k = (k, none)
broadcast_from ursave (suc n) i msg k =
    let skipped = broadcast_from ursave n (suc i) msg k in
    if not (state_eq (k.tasks i).state free) && not ((k.tasks i).id == 0)
    then elim (send_inner ursave i msg k).1 [
      | done r ↦ broadcast_from ursave n (suc i) msg (send_inner ursave i msg k).0
      | yields ↦ ((send_inner ursave i msg k).0, some n)
    ]
    else skipped

unfoldable pub broadcast : (ursave : ℕ) → Message → Kernel → Kernel × Option ℕ
unfolding broadcast_from
broadcast ursave msg k = broadcast_from ursave max_tasks 0 msg k

unfoldable pub create_server_cap : (task_id server_port : ℕ) → Kernel → Kernel × Option ℕ
create_server_cap task_id server_port = alloc_for task_id (record {
  cap_type = to_u64 ipc_target;
  server_id = task_id;
  rights = bit_or cap_send cap_recv;
  payload = server_port;
})

unfoldable pub create_client_cap : (client_task_id server_task_id : ℕ) → Kernel → Kernel × Option ℕ
create_client_cap client_task_id server_task_id = alloc_for client_task_id (record {
  cap_type = to_u64 ipc_target;
  server_id = server_task_id;
  rights = cap_send;
  payload = 0;
})

-- `ipc::init`
unfoldable pub init : Kernel → Kernel
init k = (create_server_cap 0 port_kernel (Cap.init k)).0

unfoldable pub init_console_client : (server_tid : ℕ) → Kernel → Kernel × Option ℕ
init_console_client server_tid k =
    let (k', idx) = create_client_cap 0 server_tid k in
    elim idx [ none ↦ (k', none) | some cap ↦ (record k' { console_client_cap = cap }, some cap) ]

-- The message that `console_write` sends.
abbrev pub log_message : List ℕ → Message
log_message text =
    let len = min (length text) payload_size in
    record empty {
      msg_type = to_u16 log;
      dst_port = port_console;
      payload = take len text ++ drop len empty.payload;
      length = len;
    }

-- With no console server the text goes to the UART, which is no part of the state.
unfoldable pub console_write : (ursave : ℕ) → List ℕ → Kernel → Kernel × Step ℤ
console_write ursave text k =
    if k.console_client_cap == 0
    then (k, done ipc_ok)
    else send_with_cap ursave k.console_client_cap (log_message text) k
