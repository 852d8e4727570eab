-- ===== src/Lib.antt =====
-- DBSos, a kernel with capabilities: the parts of it that decide who may do what, and who runs.
--
-- Parts and files.
-- * Abi follows libs/dbsos-abi/src: Abi/Cap is cap.rs (capabilities, rights, status codes) and Abi/Ipc
--   is ipc.rs (messages). Where the source calls a field `data`, it is `payload` here.
-- * Kernel holds the `static mut` variables of the scheduler, the capability manager and the IPC in one
--   record, which every operation takes and returns.
-- * Scheduler follows kernel/src/scheduler: Task (the types of mod.rs and vma.rs), Lookup (find_task,
--   current_cwd_slice, set_current_cwd and others of mod.rs), Areas (add and find of vma.rs), Switch
--   (find_ready of task.rs, reschedule of context.rs); Fair has the proofs.
-- * Cap follows kernel/src/cap.rs. Cap/Table is the impl of CapTable, and Cap has the functions over all
--   tables; `transfer` and `duplicate` end in `hand_over` and `share`. The tables belong to slots of the
--   task table, and each call works on the table of the current slot.
-- * Ipc follows kernel/src/ipc.rs. Sends and receives check a capability by Cap, find their partner in
--   the task table and change the two tasks. A call that reaches `yield_now` stops there and returns
--   `yields`; what other tasks do meanwhile is the sequence of calls that follows, and `recv_resume` is
--   the rest of a receive.
-- * Memory follows kernel/src/memory.rs, the bitmap allocator of physical pages: Bits has the bit tests
--   on bytes, Invariant, Calls, Pages and Runs the proofs, Overrun the run that wraps. A static ALLOC is
--   a record that each call takes and returns.
-- * Heap follows init, grow_heap, kmalloc and heap_stats of kernel/src/heap.rs: Heap itself has the
--   headers, the doubly linked free list and the split, and Grow has init, grow_heap and kmalloc. The
--   memory is an array for each field of a header and of a list node, so that what a client writes into
--   its payload is left out. The loops over the list have a round for each byte of the heap, enough for
--   a list that is shorter; how often kmalloc may grow the heap is an argument. kfree is left out: it
--   merges a block with what block_next points at, which can be inside of a block. palloc, pfree and
--   vm::map_page are parameters. Chain, FreeList, Search, FirstFit and Overrun have the proofs.
-- * Permissions follows kernel/src/permissions.rs, owners and modes of paths: Entries has the proofs
--   about the table, Checks those about the access checks. The user that asks is an argument.
-- * User follows kernel/src/user.rs, the accounts: Passwords has the proofs about passwords, Rights those
--   about who becomes which user, Numbers and Passwd what /etc/passwd holds, Lines and Saved the proofs
--   about it. The clock is an argument. A number of 32 bits has ten digits at most, so that many rounds
--   are enough for write_u32.
-- * Tmpfs follows kernel/src/tmpfs.rs: Path (norm), Copy (bytes between a buffer and memory), Tmpfs
--   itself (open, close, read, write), Dir (stat, readdir, unlink); Invariant, Calls, Contents and Names
--   have the proofs. The address that kmalloc returns is an argument, and the buffers that are held are
--   counted.
-- * Process follows spawn and spawn_user of kernel/src/scheduler/spawn.rs and exit_with_status of
--   process.rs, over the task table, the page allocator and the words of memory: Frame has the pushes on
--   a new stack, Fork follows fork of mod.rs (without page tables), Start, Stack and Exit the proofs.
--   What fxsave64 stores is a field of the machine (`fpu`), and fpu_alloc_buf writes it (`save_fpu`).
--   vm::destroy_address_space is a parameter.
-- * Ipc/Legacy follows kernel/src/scheduler/ipc_sched.rs, the older messages of one word over the same
--   task table.
-- * Event follows kernel/src/event.rs, the rings of input events that interrupt handlers fill: Queue
--   compares a ring with a queue, Interrupt a pop with one that interrupt handlers break into: between
--   its two loads, before the read of the event, and before the store.
-- * Vfs follows kernel/src/vfs.rs: Mounts (the mount table and paths below a mount), Vfs itself (the
--   registry, stat and open), Access (the other calls); OverTmpfs is the table of operations of tmpfs.rs
--   and its init. Resolve, Rights and Files have the proofs. A driver is a record of operations on a
--   state that all drivers share, and a stat leaves that state as it is. readdir_to_buf, which prints a
--   listing, is left out. resolve_mount panics on an empty prefix (`panicked`); the kernel, which mounts
--   none, would stop there, and the operations that go through it (`route`) have no driver then.
-- * Tcp follows kernel/src/driver/tcp.rs: Tcp itself has the table of connections and what is sent, Wire
--   the bytes of a segment, Input the segments that arrive (`in_state` is the `match` of
--   handle_segment), Api the calls and check_retransmit. Checksum, Invariant, Calls, Delivery, Closing
--   and Number have the proofs. The packets handed to the card are a list; what the card answers, the
--   clock and the MAC address that connect looks up are arguments. A peer at our own address, whose
--   segments the source feeds back into `input`, the Ethernet and IP headers and the loops that wait for
--   the clock are left out. Two rounds are enough for the loop that folds the checksum.
-- * Dns follows kernel/src/driver/dns.rs: encode_name, read_qname_len, the bytes of a query and the
--   reading of an answer. Names and Length have the proofs. `encode` is the loop of encode_name over the
--   rest of the name; the loop of read_qname_len has as many rounds as the packet has bytes, and one
--   more: further ones would change nothing. The loop that waits for an answer over UDP is left out.
-- * Common has the shared names: tests, searches (`find_from` is `(a..b).find(..)`), counts, arrays.
-- * Samples runs the model on a small system.
--
-- Conventions. A number is a natural number. A static array is a function of its index; the loops over
-- it write its length out, and an index that a loop or a search gives is proved to be below it.
-- Pointers and physical addresses are numbers, 0 for null. Status codes of type i64 are integers.
-- Searches over a table take the table's length as their bound; where another loop has a number of
-- rounds, the part's entry above says why they are enough.
--
-- Not modelled: hardware (page tables, GDT and TSS, the FPU but for what it stores, APIC, UART),
-- device drivers, UDP and DHCP, other file systems, graphics, the shell and the Linux layer. A halt on
-- a broken stack canary is `none` of `reschedule`; reading the canary is a parameter. Interrupts are
-- off in the modelled sections.
pub mod Common
pub mod Abi
pub mod Kernel
pub mod Scheduler
pub mod Cap
pub mod Heap
pub mod Ipc
pub mod User
pub mod Samples
pub mod Memory
pub mod Permissions
pub mod Tmpfs
pub mod Process
pub mod Event
pub mod Vfs
pub mod Tcp
pub mod Dns
