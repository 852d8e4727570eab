-- ===== src/Kernel.antt =====
-- The kernel's shared state: the `static mut` variables of kernel/src/scheduler (TASKS, CURRENT,
-- NEXT_ID, TICK_COUNT), kernel/src/cap.rs (CAP_TABLES) and kernel/src/ipc.rs (PENDING,
-- CONSOLE_CLIENT_CAP). A table is a function of its index.
use dbsos.Common.{ℕ, Array, update}
use dbsos.Abi.Cap.{Cap, null}
use dbsos.Abi.Ipc.{Message}
use dbsos.Abi.Ipc
use dbsos.Scheduler.Task.{Task, TaskState, free_task, kernel_task}

-- One process's table, of `max_caps_per_process` slots.
abbrev pub CapTable : Type 0
CapTable = Array Cap

pub record Kernel : Type 0 where
  pub tasks : Array Task
  pub current : ℕ
  pub next_id : ℕ
  pub tick_count : ℕ
  pub cap_tables : Array CapTable
  pub pending : Array Message
  pub console_client_cap : ℕ

abbrev pub set_task : ℕ → Task → Kernel → Kernel
set_task i t k = record k { tasks = update k.tasks i t }

abbrev pub set_state : ℕ → TaskState → Kernel → Kernel
set_state i s k = set_task i (record (k.tasks i) { state = s }) k

abbrev pub current_task : Kernel → Task
current_task k = k.tasks k.current

-- The values that the statics start with.
abbrev pub boot : Kernel
boot = record {
  tasks = λ i. free_task;
  current = 0;
  next_id = 1;
  tick_count = 0;
  cap_tables = λ i j. null;
  pending = λ i. Ipc.empty;
  console_client_cap = 0;
}

-- `scheduler::init`, without the FPU's control registers.
unfoldable pub init_scheduler : Kernel → Kernel
init_scheduler k = record k { current = 0; tasks = update k.tasks 0 kernel_task }
