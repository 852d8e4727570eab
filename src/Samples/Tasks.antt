-- ===== src/Samples/Tasks.antt =====
-- The theorems about kernel/src/scheduler/spawn.rs and process.rs at concrete inputs: the kernel task spawns a task in
-- slot 1, whose record still names the old stack of the task before; a child in slot 1 ends while its parent waits.
use dbsos.Common.{
  ℕ, ◌+◌, ◌≤◌, ◌<◌, ◌≡◌, refl, ◌⊎◌, inr, some, arith, ◌==◌, if◌then◌else◌, find_from, count_from,
  update,
}
use dbsos.Kernel.{boot, init_scheduler, set_task, current_task}
use dbsos.Scheduler.Task.{ready, running, free, blocked_recv, free_task, stack_canary, stack_size}
use dbsos.Scheduler.Lookup.{find_free, find_task, task_count_for_uid}
use dbsos.Scheduler.Switch.{find_ready}
use dbsos.Memory.{PhysAllocator, palloc_n, palloc, pfree, pfree_n, lay_out, page_size}
use dbsos.Memory
use dbsos.Memory.Bits
use dbsos.Memory.Invariant.{Inv}
use dbsos.Memory.Pages.{lay_out-Inv}
use dbsos.Process.{
  Machine, spawn, start, save_fpu, exit_with_status, frame, died, wake_parent, release,
}
use dbsos.Process.Frame.{push_all, pop_all}
use dbsos.Process.Start.{spawn_starts}
use dbsos.Process.Stack.{spawn_frees_own_stack}
use dbsos.Process.Fork.{fork, clone}

calls : Unit {0}
unfolding spawn start save_fpu exit_with_status died wake_parent find_free find_ready find_from
    update task_count_for_uid count_from init_scheduler palloc palloc_n pfree_n pfree push_all
    pop_all lay_out release Memory.find_page Memory.page_at Memory.scan_run Memory.mark_run
    Bits.bit_test Bits.bit_set Bits.set_byte
calls = tt

abbrev pages : PhysAllocator
pages = lay_out 8192 40 (λ i. 0)

pages-Inv : Inv pages
pages-Inv =
    (lay_out-Inv (λ i. 0) 8192 40 (omega arith) (omega arith) (omega arith) (λ i. omega arith)).0

-- The kernel task is the only one; slot 1 is free, and names an old stack.
abbrev idle : Machine
idle = record {
  kernel = set_task 1 (record free_task { kstack_phys = 12288 }) (init_scheduler boot);
  pages = pages;
  words = λ i. 0;
  fpu = λ i. 0x37F;
}

-- No slot names an old stack.
abbrev fresh : Machine
fresh = record idle { kernel = init_scheduler boot }

spawn_starts_example :
    (1 < 32)
    × ((fresh.kernel.tasks 1).state ≡ free)
    × (((current_task fresh.kernel).uid ≡ 0)
        ⊎ (task_count_for_uid fresh.kernel (current_task fresh.kernel).uid < 8))
    × (1 ≡ fresh.kernel.next_id)
    × ((spawn 4096 fresh).0.kernel.next_id ≡ 2)
    × ((i : ℕ)
        → (spawn 4096 fresh).0.kernel.tasks i
          ≡ (if 1 == i then (spawn 4096 fresh).0.kernel.tasks 1 else fresh.kernel.tasks i))
    × (((spawn 4096 fresh).0.kernel.tasks 1).state ≡ ready)
    × (((spawn 4096 fresh).0.kernel.tasks 1).id ≡ 1)
    × (((spawn 4096 fresh).0.kernel.tasks 1).uid ≡ (current_task fresh.kernel).uid)
    × ((spawn 4096 fresh).0.words ((spawn 4096 fresh).0.kernel.tasks 1).stack_base ≡ stack_canary)
    × (pop_all 20 ((spawn 4096 fresh).0.kernel.tasks 1).sp (spawn 4096 fresh).0.words
        ≡ frame 0x10
            (((spawn 4096 fresh).0.kernel.tasks 1).stack_base + stack_size)
            0x200
            0x08
            4096)
unfolding calls
spawn_starts_example = spawn_starts 4096 1 1 fresh refl refl (inr (inr (omega arith)))

-- The first page of the old stack is the first of the new one, and the page that holds the FPU's registers: what they
-- begin with is where the canary was.
overwritten_canary :
    (((spawn 4096 idle).0.kernel.tasks 1).fpu_buf_phys
      ≡ ((spawn 4096 idle).0.kernel.tasks 1).stack_base)
    × ((spawn 4096 idle).0.words ((spawn 4096 idle).0.kernel.tasks 1).stack_base ≡ 0x37F)
unfolding calls
overwritten_canary = (refl, refl)

spawn_frees_own_stack_example :
    ((spawn 4096 idle).1 ≡ some idle.kernel.next_id)
    × (((spawn 4096 idle).0.kernel.tasks 1).stack_base ≡ (palloc_n 16 pages).1)
    × (pages.free_pages ≤ (spawn 4096 idle).0.pages.free_pages + 1)
unfolding calls
spawn_frees_own_stack_example =
    spawn_frees_own_stack 4096 1 idle pages-Inv refl refl (λ q. cc q) (omega arith) refl

-- The task in slot 1 is current, and its parent in slot 0 waits.
abbrev child : Machine
child = record {
  kernel =
      record (set_task 0 (record free_task { state = blocked_recv; id = 9; sp = 500 })
        (set_task 1 (record free_task { state = running; id = 5; parent_id = 9 }) boot)) {
          current = 1;
        };
  pages = pages;
  words = λ i. 0;
  fpu = λ i. 0x37F;
}

-- Frees the page-table page alone.
abbrev destroy : ℕ → PhysAllocator → PhysAllocator
destroy = pfree

-- The machine after the exit of the child with status 3: the parent runs.
abbrev parent : Machine
parent = record {
  kernel =
      record (set_task 0 (record ((died 3 child.kernel).tasks 0) { state = running })
        (died 3 child.kernel)) { current = 0 };
  pages = pages;
  words = λ i. 0;
  fpu = λ i. 0x37F;
}

exit_result : exit_with_status destroy 3 child ≡ some (parent, 500)
unfolding calls
exit_result = refl

forked_id : (fork 0 idle).1 ≡ 1
unfolding calls fork clone find_task
forked_id = refl
