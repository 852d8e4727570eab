-- ===== src/Process/Fork.antt =====
-- kernel/src/scheduler/mod.rs, fork: a second task with the first one's stack, files and user. The page tables of the new
-- task are the virtual memory's, and left out.
use dbsos.Common.{false}
use dbsos.Common.{
  ℕ, ◌+◌, ◌-◌, ◌≡◌, ◌≢◌, ◌⊎◌, Bool, true, not, ◌&&◌, none, some, ◌==◌, ltb, leb, if◌then◌else◌,
  Array, update,
}
use dbsos.Kernel.{Kernel, set_task}
use dbsos.Scheduler.Task.{
  Task, free_task, free, ready, state_eq, max_tasks_per_user, stack_size, stack_canary,
}
use dbsos.Scheduler.Lookup.{find_free, find_task, task_count_for_uid}
use dbsos.Memory.{palloc, palloc_n, pfree_n}
use dbsos.Process.{Machine, kstack_pages, save_fpu}

-- `copy_nonoverlapping` of `n` bytes.
unfoldable pub copy_words : (from to n : ℕ) → Array ℕ → Array ℕ
copy_words from to n words i =
    if leb to i && ltb i (to + n) then words (from + (i - to)) else words i

-- The user of the parent has its number of tasks.
abbrev pub parent_at_limit : Kernel → Task → Bool
parent_at_limit k parent =
    not (parent.uid == 0) && leb max_tasks_per_user (task_count_for_uid k parent.uid)

abbrev pub child_task : Task → (parent_id stack pml4 fpu id : ℕ) → Task
child_task parent parent_id stack pml4 fpu id = record free_task {
  state = ready;
  stack_base = stack;
  sp = stack + (parent.sp - parent.stack_base);
  id = id;
  parent_id = parent_id;
  pml4 = pml4;
  pml4_phys = pml4;
  ring3 = parent.ring3;
  sys_ursave = parent.sys_ursave;
  code_phys = parent.code_phys;
  user_stack_phys = parent.user_stack_phys;
  fpu_buf_phys = fpu;
  fds = parent.fds;
  uid = parent.uid;
  gid = parent.gid;
  cwd = parent.cwd;
  cwd_len = parent.cwd_len;
}

-- The FPU's registers are copied if both buffers are there.
abbrev pub copy_fpu : (from to : ℕ) → Array ℕ → Array ℕ
copy_fpu from to words =
    if from == 0 then words else if to == 0 then words else copy_words from to 512 words

-- `fork` once it has a slot, a stack and a page for the PML4.
unfoldable pub clone : (parent_id parent_idx slot stack pml4 : ℕ) → Machine → Machine × ℕ
unfolding copy_words save_fpu
clone parent_id parent_idx slot stack pml4 m =
    let k = m.kernel in
    let parent = k.tasks parent_idx in
    let copied =
      update (copy_words parent.stack_base stack stack_size m.words) stack stack_canary in
    let fpu = (palloc m.pages).1 in
    (
      record m {
        kernel = record (set_task slot (child_task parent parent_id stack pml4 fpu k.next_id) k) {
          next_id = k.next_id + 1;
        };
        pages = (palloc m.pages).0;
        words = copy_fpu parent.fpu_buf_phys fpu (save_fpu fpu m.fpu copied);
      },
      k.next_id,
    )

-- The new task's id, or 0.
unfoldable pub fork : (parent_id : ℕ) → Machine → Machine × ℕ
unfolding clone
fork parent_id m = elim (find_task m.kernel parent_id) [
  | none ↦ (m, 0)
  | some parent_idx ↦
      if parent_at_limit m.kernel (m.kernel.tasks parent_idx)
      then (m, 0)
      else elim (find_free m.kernel) [
        | none ↦ (m, 0)
        | some slot ↦
            let a = (palloc_n kstack_pages m.pages).0 in
            let stack = (palloc_n kstack_pages m.pages).1 in
            if stack == 0
            then (record m { pages = a }, 0)
            else if (palloc a).1 == 0
            then (record m { pages = pfree_n kstack_pages stack (palloc a).0 }, 0)
            else clone parent_id parent_idx slot stack (palloc a).1
                (record m { pages = (palloc a).0 })
      ]
]

module _ (parent_id : ℕ) (m : Machine) where
  -- There is no such task, or its user is at the limit, or no slot is free, or no stack, or no page behind the stack.
  unfoldable pub Refused : Type 0
  Refused =
      (find_task m.kernel parent_id ≡ none)
      ⊎ (((p : ℕ) × (find_task m.kernel parent_id ≡ some p)
            × (parent_at_limit m.kernel (m.kernel.tasks p) ≡ true))
          ⊎ ((find_free m.kernel ≡ none)
              ⊎ (((palloc_n kstack_pages m.pages).1 == 0) ≡ true
                  ⊎ ((palloc (palloc_n kstack_pages m.pages).0).1 == 0) ≡ true)))

  -- Refused, and the tasks stay as they are and the result is 0; or the parent is below the limit, there are a stack and
  -- a page behind it, and a free slot holds a ready child of the parent on that stack, under the next id, with the
  -- parent's files and user, and the other slots stay.
  unfoldable pub Forked : Machine × ℕ → Type 0
  Forked (m', result) =
      (Refused × (result ≡ 0) × (m'.kernel ≡ m.kernel))
      ⊎ ((p : ℕ) × (slot : ℕ) × (find_task m.kernel parent_id ≡ some p)
          × (parent_at_limit m.kernel (m.kernel.tasks p) ≡ false)
          × (((palloc_n kstack_pages m.pages).1 == 0) ≡ false)
          × (((palloc (palloc_n kstack_pages m.pages).0).1 == 0) ≡ false)
          × ((m'.kernel.tasks slot).stack_base ≡ (palloc_n kstack_pages m.pages).1)
          × (state_eq (m.kernel.tasks slot).state free ≡ true)
          × (result ≡ m.kernel.next_id)
          × (m'.kernel.next_id ≡ m.kernel.next_id + 1)
          × ((m'.kernel.tasks slot).state ≡ ready)
          × ((m'.kernel.tasks slot).id ≡ m.kernel.next_id)
          × ((m'.kernel.tasks slot).parent_id ≡ parent_id)
          × ((m'.kernel.tasks slot).uid ≡ (m.kernel.tasks p).uid)
          × ((m'.kernel.tasks slot).fds ≡ (m.kernel.tasks p).fds)
          × ((m'.kernel.tasks slot).sp
              ≡ (m'.kernel.tasks slot).stack_base
                + ((m.kernel.tasks p).sp - (m.kernel.tasks p).stack_base))
          × ((m'.kernel.tasks slot).code_phys ≡ (m.kernel.tasks p).code_phys)
          × ((i : ℕ) → i ≢ slot → m'.kernel.tasks i ≡ m.kernel.tasks i))
