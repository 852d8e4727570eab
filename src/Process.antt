-- ===== src/Process.antt =====
-- kernel/src/scheduler/spawn.rs (spawn, spawn_user) and kernel/src/scheduler/process.rs (exit_with_status): the life of a
-- task, over the task table, the page allocator and the words of memory that make up stacks.
pub mod Frame
pub mod Start
pub mod Stack
pub mod Exit
pub mod Fork
use dbsos.Common.{
  ◌-◌, true, ℕ, ◌+◌, ◌/◌, ◌≡◌, Bool, not, ◌&&◌, Option, none, some, ◌==◌, ltb, leb, if◌then◌else◌,
  List, [], ◌∷◌, ◌++◌, replicate, Array, update,
}
use dbsos.Kernel.{Kernel, set_task, set_state, current_task}
use dbsos.Scheduler.Task.{
  Task, free_task, ready, running, exited, blocked_recv, state_eq, max_tasks, max_tasks_per_user,
  stack_size, stack_canary,
}
use dbsos.Scheduler.Lookup.{find_free, task_count_for_uid}
use dbsos.Scheduler.Switch.{find_ready}
use dbsos.Memory.{PhysAllocator, page_size, palloc, palloc_n, pfree, pfree_n}
use Frame.{push_all}

-- The memory is words at their addresses. `fpu` is what `fxsave64` stores of the registers of the FPU, at each offset.
pub record Machine : Type 0 where
  pub kernel : Kernel
  pub pages : PhysAllocator
  pub words : Array ℕ
  pub fpu : Array ℕ

-- `fpu_alloc_buf` with the page `buf` from palloc: 512 bytes are stored, unless it is null.
unfoldable pub save_fpu : (buf : ℕ) → (fpu words : Array ℕ) → Array ℕ
save_fpu buf fpu words i =
    if buf == 0 then words i else if leb buf i && ltb i (buf + 512) then fpu (i - buf) else words i

abbrev pub kstack_pages : ℕ
kstack_pages = stack_size / page_size

abbrev pub gdt_sel_user_code : ℕ
gdt_sel_user_code = 0x23

abbrev pub gdt_sel_user_data : ℕ
gdt_sel_user_data = 0x2B

-- A user other than 0 has a limited number of tasks.
abbrev pub at_limit : Kernel → Bool
at_limit k =
    let uid = (current_task k).uid in
    not (uid == 0) && leb max_tasks_per_user (task_count_for_uid k uid)

-- What the first switch to a new task pops: fifteen registers, and the frame of `iretq`. Pushed from the last on.
abbrev pub frame : (ss sp rflags cs entry : ℕ) → List ℕ
frame ss sp rflags cs entry = ss ∷ sp ∷ rflags ∷ cs ∷ entry ∷ replicate 15 0

-- `if prev.kstack_phys != 0 { pfree_n(prev.kstack_phys, KSTACK_PAGES); }`
abbrev pub free_old_stack : Task → PhysAllocator → PhysAllocator
free_old_stack prev a = if prev.kstack_phys == 0 then a else pfree_n kstack_pages prev.kstack_phys a

-- The task's record: a new one's fields, and those of the current task that it inherits.
abbrev pub new_task : Task → (stack sp id fpu_buf : ℕ) → Task
new_task cur stack sp id fpu_buf = record free_task {
  state = ready;
  stack_base = stack;
  sp = sp;
  id = id;
  kstack_phys = stack;
  fpu_buf_phys = fpu_buf;
  uid = cur.uid;
  gid = cur.gid;
  cwd = cur.cwd;
  cwd_len = cur.cwd_len;
}

-- `spawn` once it has a slot and a stack.
unfoldable pub start : (entry slot stack : ℕ) → Machine → Machine × Option ℕ
unfolding save_fpu
start entry slot stack m =
    let k = m.kernel in
    let ksp = stack + stack_size in
    let pushed =
      push_all (frame 0x10 ksp 0x200 0x08 entry) (ksp - 8) (update m.words stack stack_canary) in
    let fpu = palloc (free_old_stack (k.tasks slot) m.pages) in
    let task = new_task (current_task k) stack pushed.0 k.next_id fpu.1 in
    (
      record m {
        kernel = record (set_task slot task k) { next_id = k.next_id + 1 };
        pages = fpu.0;
        words = save_fpu fpu.1 m.fpu pushed.1;
      },
      some k.next_id,
    )

unfoldable pub spawn : (entry : ℕ) → Machine → Machine × Option ℕ
spawn entry m = if at_limit m.kernel then (m, none) else elim (find_free m.kernel) [
  | none ↦ (m, none)
  | some slot ↦
      let (a, stack) = palloc_n kstack_pages m.pages in
      let m' = record m { pages = a } in
      if stack == 0 then (m', none) else start entry slot stack m'
]

-- What `elf` and `vm` have prepared for a user task.
pub record Image : Type 0 where
  pub entry : ℕ
  pub user_rsp : ℕ
  pub pml4 : ℕ
  pub gdt_phys : ℕ
  pub tss_phys : ℕ
  pub code_phys : ℕ
  pub user_stack_phys : ℕ

-- `spawn_user` once it has a slot and a stack.
unfoldable pub start_user : Image → (slot stack : ℕ) → Machine → Machine × Option ℕ
unfolding save_fpu
start_user image slot stack m =
    let k = m.kernel in
    let pushed =
      push_all (frame gdt_sel_user_data image.user_rsp 0x202 gdt_sel_user_code image.entry)
        (stack + stack_size) (update m.words stack stack_canary) in
    let fpu = palloc m.pages in
    let task = record (new_task (current_task k) stack pushed.0 k.next_id fpu.1) {
      pml4 = image.pml4;
      pml4_phys = image.pml4;
      gdt_phys = image.gdt_phys;
      tss_phys = image.tss_phys;
      ring3 = true;
      sys_ursave = image.user_rsp;
      code_phys = image.code_phys;
      user_stack_phys = image.user_stack_phys;
    } in
    (
      record m {
        kernel = record (set_task slot task k) { next_id = k.next_id + 1 };
        pages = fpu.0;
        words = save_fpu fpu.1 m.fpu pushed.1;
      },
      some k.next_id,
    )

unfoldable pub spawn_user : Image → Machine → Machine × Option ℕ
spawn_user image m = if at_limit m.kernel then (m, none) else elim (find_free m.kernel) [
  | none ↦ (m, none)
  | some slot ↦
      let (a, stack) = palloc_n kstack_pages (free_old_stack (m.kernel.tasks slot) m.pages) in
      let m' = record m { pages = a } in
      if stack == 0 then (m', none) else start_user image slot stack m'
]

-- A task in slot `i` that is the parent and waits in a receive is made ready and gets the id of the child.
abbrev pub wake : (parent_id child_id i : ℕ) → Task → Task
wake parent_id child_id i t =
    if ltb i max_tasks && (t.id == parent_id && state_eq t.state blocked_recv)
    then record t { state = ready; ipc_val = child_id }
    else t

unfoldable pub wake_parent : (parent_id child_id : ℕ) → Kernel → Kernel
wake_parent parent_id child_id k =
    if parent_id == 0 then k else record k { tasks = λ i. wake parent_id child_id i (k.tasks i) }

-- Steps 1 and 2 of `exit_with_status`: the current task is gone, and its parent is woken.
unfoldable pub died : (status : ℕ) → Kernel → Kernel
died status k =
    let t = current_task k in
    wake_parent t.parent_id t.id
      (set_task k.current (record t { state = exited; exit_status = status }) k)

-- Step 4.
abbrev pub run_next : ℕ → Kernel → Kernel
run_next next k = record (set_state next running k) { current = next }

abbrev pub free_page : ℕ → PhysAllocator → PhysAllocator
free_page p a = if p == 0 then a else pfree p a

module _ (destroy_address_space : ℕ → PhysAllocator → PhysAllocator) where
  -- Step 5 of `exit_with_status`. `destroy_address_space` is that of vm.rs, which walks page tables.
  unfoldable pub release : Task → PhysAllocator → PhysAllocator
  release t a =
      let b =
        free_page t.tss_phys
          (free_page t.gdt_phys (free_page t.user_stack_phys (free_page t.code_phys a))) in
      let c = if t.pml4_phys == 0 then b else destroy_address_space t.pml4_phys b in
      free_old_stack t (free_page t.fpu_buf_phys c)

  -- The next task's stack pointer; `none` is the halt where no other task is ready.
  unfoldable pub exit_with_status : (status : ℕ) → Machine → Option (Machine × ℕ)
  exit_with_status status m =
      let woken = died status m.kernel in
      let next = find_ready woken in
      if next == m.kernel.current
      then none
      else some (
        record m { kernel = run_next next woken; pages = release (current_task m.kernel) m.pages },
        (woken.tasks next).sp,
      )
