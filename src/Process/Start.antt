-- ===== src/Process/Start.antt =====
-- kernel/src/scheduler/spawn.rs: what a new task starts with.
use dbsos.Common.{
  ◌+◌, ◌-◌, ◌<◌, ◌≡◌, refl, sym, ap, ◌∙◌, ◌≢◌, ◌⊎◌, inl, inr, false, none, some, arith, ◌==◌,
  if◌then◌else◌, Bool-cases, Option-cases, update, update_self, ℕ, zero, suc, ◌*◌, ◌≤◌, subst,
  some-injective, Array, update_lem, find_from-eq-some,
}
use dbsos.Memory.{palloc, palloc_n}
use dbsos.Kernel.{Kernel, current_task}
use dbsos.Scheduler.Task.{ready, free, state_eq, stack_canary, stack_size, max_tasks}
use dbsos.Scheduler.Lookup.{find_free, task_count_for_uid}
use dbsos.Process.{Machine, at_limit, spawn, start, frame, save_fpu, free_old_stack}
use dbsos.Process.Frame.{push_all, pop_all, push_all-sp, pop_all-push_all, push_all_below}

-- What a successful `spawn` was: a slot, and a stack for it.
spawn_cases :
    (entry : ℕ) (m : Machine)
    → ((spawn entry m).1 ≡ none) × ((spawn entry m).0.kernel ≡ m.kernel)
      ⊎ ((slot : ℕ) × (at_limit m.kernel ≡ false)
          × (find_free m.kernel ≡ some slot)
          × ((palloc_n 16 m.pages).1 ≢ 0)
          × (spawn entry m
              ≡ start entry slot
                  (palloc_n 16 m.pages).1
                  (record m { pages = (palloc_n 16 m.pages).0 })))
unfolding spawn
spawn_cases entry m = elim (Bool-cases (at_limit m.kernel)) [
  | inl l ↦ inl (rw (l, spawn) (refl, refl))
  | inr l ↦ elim (Option-cases (find_free m.kernel)) [
    | inl f ↦ inl (rw (l, spawn) (rw f (refl, refl)))
    | inr (slot, f) ↦ elim (Bool-cases ((palloc_n 16 m.pages).1 == 0)) [
      | inl z ↦ inl (rw (l, spawn) (rw f (rw z (refl, refl))))
      | inr z ↦ inr (slot, l, f, (λ q. ground arith), rw (l, spawn) (rw f (rw z refl)))
    ]
  ]
]

-- The 512 bytes at `buf`, where there is a buffer, and the stack do not overlap.
abbrev pub Apart : (stack buf : ℕ) → Type 0
Apart stack buf = (buf ≡ 0) ⊎ ((buf + 512 ≤ stack) ⊎ (stack + stack_size ≤ buf))

save_fpu-Apart :
    (stack buf : ℕ) (fpu words : Array ℕ) (i : ℕ)
    → Apart stack buf
    → stack ≤ i
    → i < stack + stack_size
    → save_fpu buf fpu words i ≡ words i
unfolding save_fpu
save_fpu-Apart stack buf fpu words i a l h = ground arith

pop_all_congr :
    (n sp : ℕ) (v w : Array ℕ)
    → ((i : ℕ) → sp ≤ i → i < sp + 8 * n → v i ≡ w i)
    → pop_all n sp v ≡ pop_all n sp w
unfolding pop_all
pop_all_congr zero sp v w h = refl
pop_all_congr (suc n) sp v w h =
    let rest = pop_all_congr n sp v w (λ i a b. h i a (omega arith)) in
    cc (rest, h (sp + 8 * n) (omega arith) (omega arith))

module _ (entry slot stack : ℕ) (m : Machine) where
  started_fpu : ℕ
  started_fpu = (palloc (free_old_stack (m.kernel.tasks slot) m.pages)).1

  -- The words of a new task's stack, where the page for the FPU lies elsewhere.
  start_frame :
      Apart stack started_fpu
      → (((start entry slot stack m).0.words stack) ≡ stack_canary)
        × (pop_all 20
              ((start entry slot stack m).0.kernel.tasks slot).sp
              (start entry slot stack m).0.words
            ≡ frame 0x10 (stack + stack_size) 0x200 0x08 entry)
  unfolding start started_fpu
  start_frame apart =
      let values = frame 0x10 (stack + stack_size) 0x200 0x08 entry in
      let words = update m.words stack stack_canary in
      let pushed = push_all values (stack + stack_size - 8) words in
      let sp : pushed.0 ≡ stack + stack_size - 168 =
        omega (arith, push_all-sp values (stack + stack_size - 8) words) in
      (
        save_fpu-Apart stack started_fpu m.fpu pushed.1 stack apart (omega arith) (omega arith)
            ∙ push_all_below values (stack + stack_size - 8) words stack (omega arith)
            ∙ update_self m.words stack stack_canary,
        rw (update_self m.kernel.tasks slot _) (
            pop_all_congr 20 pushed.0 (save_fpu started_fpu m.fpu pushed.1) pushed.1 (λ i a b.
              save_fpu-Apart stack started_fpu m.fpu pushed.1 i apart (omega (arith, sp))
                (omega (arith, sp)))
            ∙ pop_all-push_all values (stack + stack_size - 8) words (omega arith)),
      )

  start_id : (start entry slot stack m).1 ≡ some m.kernel.next_id
  unfolding start
  start_id = refl

  start_task :
      (((start entry slot stack m).0.kernel.tasks slot).state ≡ ready)
      × (((start entry slot stack m).0.kernel.tasks slot).id ≡ m.kernel.next_id)
      × (((start entry slot stack m).0.kernel.tasks slot).uid ≡ (current_task m.kernel).uid)
      × (((start entry slot stack m).0.kernel.tasks slot).stack_base ≡ stack)
      × (((start entry slot stack m).0.kernel.tasks slot).fpu_buf_phys ≡ started_fpu)
      × ((i : ℕ)
          → (start entry slot stack m).0.kernel.tasks i ≡ (
              if slot == i
              then (start entry slot stack m).0.kernel.tasks slot
              else m.kernel.tasks i))
      × ((start entry slot stack m).0.kernel.next_id ≡ m.kernel.next_id + 1)
  unfolding start started_fpu
  start_task =
      let new = update_self m.kernel.tasks slot _ in
      (
        ap (λ t. t.state) new,
        ap (λ t. t.id) new,
        ap (λ t. t.uid) new,
        ap (λ t. t.stack_base) new,
        ap (λ t. t.fpu_buf_phys) new,
        λ i. rw (update_self m.kernel.tasks slot _) (update_lem m.kernel.tasks slot i _),
        refl,
      )

find_free_lem :
    (k : Kernel) (slot : ℕ) → find_free k ≡ some slot → (slot < 32) × ((k.tasks slot).state ≡ free)
unfolding find_free
find_free_lem k slot e =
    let (a, b, c) = find_from-eq-some (λ i. state_eq (k.tasks i).state free) 32 0 {j = slot} e in
    (b, ground arith)

under_limit :
    (k : Kernel)
    → at_limit k ≡ false
    → ((current_task k).uid ≡ 0) ⊎ (task_count_for_uid k (current_task k).uid < 8)
under_limit k l = ground arith

-- A `spawn` that returns an id, where the page for the FPU is not one of the new stack, has put a ready task with that id
-- into the first free slot, and changed no other task. The id is the next one of the counter; the task has the caller's
-- user, and a user other than 0 had less than 8 tasks. The first switch to it pops fifteen zeros, the entry point, the
-- kernel's code segment, the flags, the top of its stack and the data segment, and its canary is in place. (The page can be
-- one of the stack where the slot names an old stack, which is freed once the new one is taken.)
pub spawn_starts :
    (entry id slot : ℕ) (m : Machine)
    → (spawn entry m).1 ≡ some id
    → find_free m.kernel ≡ some slot
    → Apart
        ((spawn entry m).0.kernel.tasks slot).stack_base
        ((spawn entry m).0.kernel.tasks slot).fpu_buf_phys
    → (slot < max_tasks)
      × ((m.kernel.tasks slot).state ≡ free)
      × (((current_task m.kernel).uid ≡ 0)
          ⊎ (task_count_for_uid m.kernel (current_task m.kernel).uid < 8))
      × (id ≡ m.kernel.next_id)
      × ((spawn entry m).0.kernel.next_id ≡ id + 1)
      × ((i : ℕ)
          → (spawn entry m).0.kernel.tasks i
            ≡ (if slot == i then (spawn entry m).0.kernel.tasks slot else m.kernel.tasks i))
      × (((spawn entry m).0.kernel.tasks slot).state ≡ ready)
      × (((spawn entry m).0.kernel.tasks slot).id ≡ id)
      × (((spawn entry m).0.kernel.tasks slot).uid ≡ (current_task m.kernel).uid)
      × ((spawn entry m).0.words ((spawn entry m).0.kernel.tasks slot).stack_base ≡ stack_canary)
      × (pop_all 20 ((spawn entry m).0.kernel.tasks slot).sp (spawn entry m).0.words
          ≡ frame 0x10
              (((spawn entry m).0.kernel.tasks slot).stack_base + stack_size)
              0x200
              0x08
              entry)
spawn_starts entry id slot m e found apart = elim (spawn_cases entry m) [
  | inl (n, k) ↦ absurd (cc (e, n))
  | inr (slot', l, f, z, q) ↦
      let stack = (palloc_n 16 m.pages).1 in
      let m' = record m { pages = (palloc_n 16 m.pages).0 } in
      let here : slot' ≡ slot = some-injective slot' slot (sym f ∙ found) in
      let q' : spawn entry m ≡ start entry slot stack m' =
        subst (λ x. spawn entry m ≡ start entry x stack m') here q in
      let (low, unused) = find_free_lem m.kernel slot found in
      let next : id ≡ m.kernel.next_id = cc (e, ap (λ x. x.1) q', start_id entry slot stack m') in
      let (state, name, user, base, buf, others, counter) = start_task entry slot stack m' in
      let apart' : Apart stack (started_fpu entry slot stack m') =
        subst (λ x. Apart x (started_fpu entry slot stack m')) base
          (subst (λ x. Apart ((start entry slot stack m').0.kernel.tasks slot).stack_base x) buf
            (subst
              (λ x. Apart (x.0.kernel.tasks slot).stack_base (x.0.kernel.tasks slot).fpu_buf_phys)
              q' apart)) in
      let (canary, popped) = start_frame entry slot stack m' apart' in
      rw q' (
        low,
        unused,
        under_limit m.kernel l,
        next,
        counter ∙ ap (λ n. n + 1) (sym next),
        others,
        state,
        name ∙ sym next,
        user,
        rw base canary,
        rw base popped,
      )
]
