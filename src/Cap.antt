-- ===== src/Cap.antt =====
-- kernel/src/cap.rs: the capability tables, one for each slot of the task table.
pub mod Table
pub mod Total
pub mod Transfer
pub mod Confine
use dbsos.Common.{
  ℕ, ◌≡◌, Bool, true, false, not, ◌&&◌, Option, none, some, ℤ, ◌==◌, ltb, if◌then◌else◌, find_from,
  update, bit_or,
}
use dbsos.Abi.Cap.{
  Cap, null, is_valid, ipc_target, to_u64, cap_send, cap_recv, ipc_ok, ipc_err_bad_cap,
  ipc_err_no_server, ipc_err_no_mem, ipc_err_denied,
}
use dbsos.Kernel.{Kernel, CapTable}
use dbsos.Scheduler.Task.{free, state_eq, max_tasks}
use Table.{table_alloc, table_get, table_free, table_validate, new_table}

-- `slot_for_task`
unfoldable pub slot_for_task : Kernel → ℕ → Option ℕ
slot_for_task k task_id =
    find_from max_tasks 0 (λ i. not (state_eq (k.tasks i).state free) && (k.tasks i).id == task_id)

-- `CAP_TABLES[slot] = table`
abbrev pub set_table : ℕ → CapTable → Kernel → Kernel
set_table slot t k = record k { cap_tables = update k.cap_tables slot t }

-- `CAP_TABLES[slot].alloc(..)`
unfoldable pub alloc_in : ℕ → Cap → Kernel → Kernel × Option ℕ
alloc_in slot c k = let (t, idx) = table_alloc c (k.cap_tables slot) in (set_table slot t k, idx)

unfoldable pub alloc : Cap → Kernel → Kernel × Option ℕ
alloc c k = alloc_in k.current c k

unfoldable pub alloc_for : ℕ → Cap → Kernel → Kernel × Option ℕ
alloc_for task_id c k = elim (slot_for_task k task_id) [
  | none ↦ (k, none)
  | some slot ↦ alloc_in slot c k
]

unfoldable pub get : ℕ → Kernel → Option Cap
get idx k = table_get (k.cap_tables k.current) idx

unfoldable pub validate : ℕ → ℕ → Kernel → Bool
validate idx required k = table_validate (k.cap_tables k.current) idx required

-- `src_uid != 0 && src_uid != dst_uid`
abbrev pub crosses_users : Kernel → ℕ → Bool
crosses_users k dst_slot =
    let src_uid = (k.tasks k.current).uid in
    not (src_uid == 0) && not (src_uid == (k.tasks dst_slot).uid)

-- The tail of `transfer`: allocate in the destination's table, then give up the own slot.
unfoldable pub hand_over : ℕ → ℕ → Cap → Kernel → Kernel × ℤ
hand_over dst_slot cap_idx c k =
    let (k', idx) = alloc_in dst_slot c k in
    elim idx [
      | none ↦ (k', ipc_err_no_mem)
      | some i ↦ (set_table k.current (table_free cap_idx (k'.cap_tables k.current)) k', ipc_ok)
    ]

unfoldable pub transfer : ℕ → ℕ → Kernel → Kernel × ℤ
transfer dst_task_id cap_idx k = elim (table_get (k.cap_tables k.current) cap_idx) [
  | none ↦ (k, ipc_err_bad_cap)
  | some c ↦ elim (slot_for_task k dst_task_id) [
    | none ↦ (k, ipc_err_no_server)
    | some dst_slot ↦
        if crosses_users k dst_slot then (k, ipc_err_denied) else hand_over dst_slot cap_idx c k
  ]
]

-- The tail of `duplicate`.
unfoldable pub share : ℕ → Cap → Kernel → Kernel × ℤ
share dst_slot c k =
    let (k', idx) = alloc_in dst_slot c k in
    elim idx [ none ↦ (k', ipc_err_no_mem) | some i ↦ (k', ipc_ok) ]

unfoldable pub duplicate : ℕ → ℕ → Kernel → Kernel × ℤ
duplicate dst_task_id cap_idx k = elim (get cap_idx k) [
  | none ↦ (k, ipc_err_bad_cap)
  | some c ↦ elim (slot_for_task k dst_task_id) [
    | none ↦ (k, ipc_err_no_server)
    | some dst_slot ↦ if crosses_users k dst_slot then (k, ipc_err_denied) else share dst_slot c k
  ]
]

unfoldable pub free_all : ℕ → Kernel → Kernel
free_all task_id k = elim (slot_for_task k task_id) [
  | none ↦ k
  | some slot ↦ set_table slot new_table k
]

-- `cap::init`: task 0 may message itself. (1 | 2 = 3.)
unfoldable pub init : Kernel → Kernel
init k =
    (alloc_in 0
      (record {
        cap_type = to_u64 ipc_target;
        server_id = 0;
        rights = bit_or cap_send cap_recv;
        payload = 0;
      })
      k).0
