-- ===== src/Samples.antt =====
-- A small system to run the model on: the kernel task, with id 0, and a server with id 1. The tests and
-- the theorems at concrete inputs stand in the modules below.
pub mod Caps
pub mod Switches
pub mod Messages
pub mod Pages
pub mod Perms
pub mod Files
pub mod Tasks
pub mod Events
pub mod Mounted
pub mod Sockets
pub mod Lookups
pub mod Heaps
pub mod Users
use dbsos.Common.{ℕ, update, find_from, bit_or}
use dbsos.Abi.Ipc.{Message, ping_message}
use dbsos.Kernel.{Kernel, boot, init_scheduler, set_task}
use dbsos.Scheduler.Task.{Task, ready, free_task}
use dbsos.Cap
use dbsos.Ipc
use dbsos.Ipc.{create_server_cap, create_client_cap}

abbrev pub server : Task
server = record free_task { state = ready; id = 1; sp = 4096; uid = 5 }

-- The kernel task holds message capabilities for itself at 0 and 1, and for the server at 2. The server
-- holds one for itself at 0.
unfoldable pub started : Kernel
unfolding init_scheduler Ipc.init Cap.init create_server_cap create_client_cap Cap.alloc_for
    Cap.alloc_in Cap.slot_for_task Cap.Table.table_alloc Cap.Table.table_get find_from update
started =
    (create_client_cap 0 1
      (create_server_cap 1 7 (set_task 1 server (Ipc.init (init_scheduler boot)))).0).0

abbrev pub hello : Message
hello = ping_message 0 7
