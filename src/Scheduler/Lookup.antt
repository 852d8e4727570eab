-- ===== src/Scheduler/Lookup.antt =====
-- kernel/src/scheduler/mod.rs: lookups over the task table, ids, and the working directory.
use dbsos.Common.{
  ℕ, ◌+◌, min, Bool, not, ◌&&◌, ◌||◌, Option, List, [], ◌∷◌, ◌++◌, ◌==◌, if◌then◌else◌, find_from,
  count_from, length, set, take, drop, get_or,
}
use dbsos.Kernel.{Kernel, set_task, current_task}
use dbsos.Scheduler.Task.{free, state_eq, max_tasks}

abbrev pub is_task : Kernel → ℕ → ℕ → Bool
is_task k id i = not (state_eq (k.tasks i).state free) && (k.tasks i).id == id

unfoldable pub find_task : Kernel → ℕ → Option ℕ
find_task k id = find_from max_tasks 0 (is_task k id)

unfoldable pub current_task_id : Kernel → ℕ
current_task_id k = (current_task k).id

unfoldable pub next_task_id : Kernel → Kernel × ℕ
next_task_id k = (record k { next_id = k.next_id + 1 }, k.next_id)

unfoldable pub find_free : Kernel → Option ℕ
find_free k = find_from max_tasks 0 (λ i. state_eq (k.tasks i).state free)

unfoldable pub task_count_for_uid : Kernel → ℕ → ℕ
task_count_for_uid k uid =
    count_from max_tasks 0 (λ i. not (state_eq (k.tasks i).state free) && (k.tasks i).uid == uid)

unfoldable pub current_cwd_slice : Kernel → List ℕ
current_cwd_slice k =
    let t = current_task k in
    if t.cwd_len == 0 || get_or t.cwd 0 0 == 0 then b'/' ∷ [] else take t.cwd_len t.cwd

-- The two writes of `set_current_cwd`: the truncated path with its NUL, and "/" for an empty one.
abbrev cwd_after : List ℕ → List ℕ → List ℕ
cwd_after path cwd =
    let len = min (length path) 127 in
    let copied = set (take len path ++ drop len cwd) len 0 in
    if len == 0 then set (set copied 0 b'/') 1 0 else copied

unfoldable pub set_current_cwd : List ℕ → Kernel → Kernel
set_current_cwd path k =
    let t = current_task k in
    let len = min (length path) 127 in
    set_task k.current
      (record t { cwd = cwd_after path t.cwd; cwd_len = if len == 0 then 1 else len }) k
