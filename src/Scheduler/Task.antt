-- ===== src/Scheduler/Task.antt =====
-- The task table's data: kernel/src/scheduler/mod.rs (TaskState, FdEntry, Task, the constants) and
-- kernel/src/scheduler/vma.rs (Vma). A pointer or a physical address is a number, 0 for null.
use dbsos.Common.{ℕ, ◌-◌, ◌^◌, Bool, true, false, List, ◌∷◌, replicate, Array}
use dbsos.Abi.Ipc.{Message}
use dbsos.Abi.Ipc

abbrev pub stack_size : ℕ
stack_size = 65536

abbrev pub max_tasks : ℕ
max_tasks = 32

abbrev pub max_tasks_per_user : ℕ
max_tasks_per_user = 8

abbrev pub max_fds : ℕ
max_fds = 16

abbrev pub stack_canary : ℕ
stack_canary = 0xDEADBEEFCAFEBABE

-- `!1u64` and `!0u64`
abbrev pub ipc_err : ℕ
ipc_err = 2 ^ 64 - 2

abbrev pub ipc_any : ℕ
ipc_any = 2 ^ 64 - 1

pub data TaskState : Type 0 where
  free ready running exited blocked_send blocked_recv : TaskState

-- The derived `PartialEq`.
abbrev pub state_eq : TaskState → TaskState → Bool
state_eq s free = elim s [ free ↦ true | _ ↦ false ]
state_eq s ready = elim s [ ready ↦ true | _ ↦ false ]
state_eq s running = elim s [ running ↦ true | _ ↦ false ]
state_eq s exited = elim s [ exited ↦ true | _ ↦ false ]
state_eq s blocked_send = elim s [ blocked_send ↦ true | _ ↦ false ]
state_eq s blocked_recv = elim s [ blocked_recv ↦ true | _ ↦ false ]

pub record FdEntry : Type 0 where
  pub in_use : Bool
  pub path : List ℕ
  pub offset : ℕ
  pub size : ℕ
  pub flags : ℕ

abbrev pub empty_fd : FdEntry
empty_fd = record { in_use = false; path = replicate 128 0; offset = 0; size = 0; flags = 0 }

abbrev pub vma_none : ℕ
vma_none = 0

abbrev pub max_vmas : ℕ
max_vmas = 8

pub record Vma : Type 0 where
  pub start : ℕ
  pub end : ℕ
  pub kind : ℕ
  pub flags : ℕ

abbrev pub empty_vma : Vma
empty_vma = record { start = 0; end = 0; kind = vma_none; flags = 0 }

pub record Task : Type 0 where
  pub state : TaskState
  pub stack_base : ℕ
  pub sp : ℕ
  pub id : ℕ
  pub parent_id : ℕ
  pub exit_status : ℕ
  pub ipc_partner : ℕ
  pub ipc_val : ℕ
  pub ipc_msg : Message
  pub pml4 : ℕ
  pub pml4_phys : ℕ
  pub gdt_phys : ℕ
  pub tss_phys : ℕ
  pub ring3 : Bool
  pub sys_ursave : ℕ
  pub code_phys : ℕ
  pub user_stack_phys : ℕ
  pub kstack_phys : ℕ
  pub fpu_buf_phys : ℕ
  pub pending_msg : Message
  pub fds : Array FdEntry
  pub vmas : Array Vma
  pub vma_count : ℕ
  pub uid : ℕ
  pub gid : ℕ
  pub cwd : List ℕ
  pub cwd_len : ℕ

-- `Task::free()`
abbrev pub free_task : Task
free_task = record {
  state = free;
  stack_base = 0;
  sp = 0;
  id = 0;
  parent_id = 0;
  exit_status = 0;
  ipc_partner = 0;
  ipc_val = 0;
  ipc_msg = Ipc.empty;
  pml4 = 0;
  pml4_phys = 0;
  gdt_phys = 0;
  tss_phys = 0;
  ring3 = false;
  sys_ursave = 0;
  code_phys = 0;
  user_stack_phys = 0;
  kstack_phys = 0;
  fpu_buf_phys = 0;
  pending_msg = Ipc.empty;
  fds = λ i. empty_fd;
  vmas = λ i. empty_vma;
  vma_count = 0;
  uid = 0;
  gid = 0;
  cwd = replicate 128 0;
  cwd_len = 1;
}

-- The entry that `scheduler::init` writes for task 0: running, and its directory is "/".
abbrev pub kernel_task : Task
kernel_task = record free_task { state = running; cwd = b'/' ∷ replicate 127 0 }
