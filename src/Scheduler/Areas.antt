-- ===== src/Scheduler/Areas.antt =====
-- kernel/src/scheduler/vma.rs, add and find: the areas of memory that a task has declared.
use dbsos.Common.{
  ℕ, zero, suc, ◌+◌, ◌≡◌, refl, sym, ap, ◌∙◌, arith, Bool, true, false, ◌&&◌, ◌||◌, inl, inr,
  Option, none, some, ltb, leb, if◌then◌else◌, Bool-cases, find_from, Array, update, update_self,
  update_ne,
}
use dbsos.Kernel.{Kernel, set_task}
use dbsos.Scheduler.Task.{Task, Vma, free, state_eq, max_tasks, max_vmas}

-- What `add` refuses.
abbrev pub refuses : (slot start stop : ℕ) → Kernel → Bool
refuses slot start stop k =
    leb max_tasks slot
    || (state_eq (k.tasks slot).state free
        || (leb stop start || leb max_vmas (k.tasks slot).vma_count))

-- The source's `end` is `stop` here.
unfoldable pub add_area : (slot start stop kind flags : ℕ) → Kernel → Kernel × Bool
add_area slot start stop kind flags k =
    let t = k.tasks slot in
    let area : Vma = record { start = start; end = stop; kind = kind; flags = flags } in
    if refuses slot start stop k then (k, false) else (
      set_task slot
          (record t { vmas = update t.vmas t.vma_count area; vma_count = t.vma_count + 1 }) k,
      true,
    )

abbrev pub contains : (addr : ℕ) → Vma → Bool
contains addr v = leb v.start addr && ltb addr v.end

abbrev pub found : (n i addr : ℕ) → Array Vma → Option Vma
found n i addr vmas = elim (find_from n i (λ j. contains addr (vmas j))) [
  | none ↦ none
  | some j ↦ some (vmas j)
]

unfoldable pub find_area : (slot addr : ℕ) → Kernel → Option Vma
find_area slot addr k =
    if leb max_tasks slot then none else found (k.tasks slot).vma_count 0 addr (k.tasks slot).vmas

-- The area found after an addition, from the one found before.
abbrev pub or_else : Option Vma → Option Vma → Option Vma
or_else (some v) w = some v
or_else none w = w

found_here :
    (n i addr : ℕ) (vmas : Array Vma)
    → contains addr (vmas i) ≡ true
    → found (suc n) i addr vmas ≡ some (vmas i)
unfolding find_from
found_here n i addr vmas t = rw (t, found) refl

found_next :
    (n i addr : ℕ) (vmas : Array Vma)
    → contains addr (vmas i) ≡ false
    → found (suc n) i addr vmas ≡ found n (suc i) addr vmas
unfolding find_from
found_next n i addr vmas f = rw (f, found) refl

-- A search that goes one further, where only the last area is new.
found_add :
    (n i addr : ℕ) (vmas : Array Vma) (v : Vma)
    → found (suc n) i addr (update vmas (i + n) v)
      ≡ or_else (found n i addr vmas) (if contains addr v then some v else none)
unfolding find_from
found_add zero i addr vmas v =
    let at : i + 0 ≡ i = omega arith in
    rw at (elim (Bool-cases (contains addr v)) [
      | inl t ↦ rw (update_self vmas i v, found) (rw t (ap some (update_self vmas i v)))
      | inr f ↦ rw (update_self vmas i v, found) (rw f refl)
    ])
found_add (suc n) i addr vmas v =
    let at : i + suc n ≡ suc i + n = omega arith in
    let here : update vmas (suc i + n) v i ≡ vmas i =
      update_ne vmas (suc i + n) i v (λ q. omega arith) in
    rw at (elim (Bool-cases (contains addr (vmas i))) [
      | inl t ↦
          found_here (suc n) i addr (update vmas (suc i + n) v) (ap (contains addr) here ∙ t)
          ∙ (ap some here
              ∙ sym (
                  ap (λ o. or_else o (if contains addr v then some v else none))
                    (found_here n i addr vmas t)))
      | inr f ↦
          found_next (suc n) i addr (update vmas (suc i + n) v) (ap (contains addr) here ∙ f)
          ∙ (found_add n (suc i) addr vmas v
              ∙ sym (
                  ap (λ o. or_else o (if contains addr v then some v else none))
                    (found_next n i addr vmas f)))
    ])

find_area-found :
    (slot addr : ℕ) (k : Kernel)
    → leb max_tasks slot ≡ false
    → find_area slot addr k ≡ found (k.tasks slot).vma_count 0 addr (k.tasks slot).vmas
unfolding find_area
find_area-found slot addr k low = rw (low, find_area) refl

-- Where `add` is not refused, `find` at an address gives afterwards what it gave before, and where it gave nothing and
-- the new area contains the address, the new area.
pub find_area-add_area :
    (slot start stop kind flags addr : ℕ) (k : Kernel)
    → refuses slot start stop k ≡ false
    → find_area slot addr (add_area slot start stop kind flags k).0
      ≡ or_else (find_area slot addr k) (
          if leb start addr && ltb addr stop
          then some (record { start = start; end = stop; kind = kind; flags = flags })
          else none)
unfolding add_area
find_area-add_area slot start stop kind flags addr k r =
    let t = k.tasks slot in
    let area : Vma = record { start = start; end = stop; kind = kind; flags = flags } in
    let low : leb max_tasks slot ≡ false = ground arith in
    let grown : Task = record t {
      vmas = update t.vmas t.vma_count area;
      vma_count = t.vma_count + 1;
    } in
    let there : (add_area slot start stop kind flags k).0.tasks slot ≡ grown =
      rw (r, add_area) (update_self k.tasks slot grown) in
    let more : t.vma_count + 1 ≡ suc t.vma_count = omega arith in
    let at : t.vma_count ≡ 0 + t.vma_count = omega arith in
    let new : Option Vma = if contains addr area then some area else none in
    find_area-found slot addr _ low
    ∙ (ap (λ x. found x.vma_count 0 addr x.vmas) there
        ∙ (ap (λ n. found n 0 addr (update t.vmas t.vma_count area)) more
            ∙ (ap (λ n. found (suc t.vma_count) 0 addr (update t.vmas n area)) at
                ∙ (found_add t.vma_count 0 addr t.vmas area
                    ∙ ap (λ o. or_else o new) (sym (find_area-found slot addr k low))))))
