-- ===== src/Process/Stack.antt =====
-- kernel/src/scheduler/spawn.rs: the old stack that `spawn` frees.
use dbsos.Common.{
  ℕ, zero, suc, ◌+◌, ◌-◌, ◌*◌, ◌/◌, ◌≤◌, ◌<◌, ◌≡◌, refl, sym, ap, subst, ◌∙◌, ◌≢◌, inl, inr, true,
  false, ◌&&◌, some, arith, ◌==◌, ltb, leb, if◌then◌else◌, Bool-cases, count_from_congr,
  update_self,
}
use dbsos.Memory.{PhysAllocator, page_size, palloc, palloc_n, pfree, pfree_n, is_free}
use dbsos.Memory.Invariant.{Inv, is_free-give_page, pfree-Inv, palloc_takes}
use dbsos.Memory.Runs.{palloc_n_takes}
use dbsos.Process.{Machine, at_limit, spawn, start}
use dbsos.Scheduler.Lookup.{find_free}

-- Freeing a page of the region sets it free.
is_free-pfree :
    (a : PhysAllocator) (s j : ℕ)
    → Inv a
    → s < a.total_pages
    → is_free (pfree (a.phys_start + s * page_size) a) j ≡ (if s == j then true else is_free a j)
unfolding pfree
is_free-pfree a s j v h =
    let page : (a.phys_start + s * 4096 - a.phys_start) / 4096 ≡ s = omega arith in
    rw page (ground (arith, is_free-give_page a v s j, v.mapped))

pfree_fields :
    (a : PhysAllocator) (phys : ℕ)
    → ((pfree phys a).phys_start ≡ a.phys_start) × ((pfree phys a).total_pages ≡ a.total_pages)
unfolding pfree
pfree_fields a phys = ground arith

pfree_n_lem :
    (n s : ℕ) (a : PhysAllocator)
    → Inv a
    → s + n ≤ a.total_pages
    → Inv (pfree_n n (a.phys_start + s * page_size) a)
      × ((pfree_n n (a.phys_start + s * page_size) a).total_pages ≡ a.total_pages)
      × ((j : ℕ)
          → is_free (pfree_n n (a.phys_start + s * page_size) a) j
            ≡ (if leb s j && ltb j (s + n) then true else is_free a j))
unfolding pfree_n
pfree_n_lem zero s a v h = (v, refl, λ j. ground arith)
pfree_n_lem (suc n) s a v h =
    let phys = a.phys_start + s * page_size in
    let (start_same, total_same) = pfree_fields a phys in
    let addr : (pfree phys a).phys_start + suc s * page_size ≡ phys + page_size =
      omega (arith, start_same) in
    let (inv, total, bits) =
      subst
        (λ x.
          Inv (pfree_n n x (pfree phys a))
          × ((pfree_n n x (pfree phys a)).total_pages ≡ (pfree phys a).total_pages)
          × ((j : ℕ)
              → is_free (pfree_n n x (pfree phys a)) j
                ≡ (if leb (suc s) j && ltb j (suc s + n) then true else is_free (pfree phys a) j)))
        addr
        (pfree_n_lem n (suc s) (pfree phys a) (pfree-Inv a v phys) (omega (arith, total_same))) in
    (inv, total ∙ total_same, λ j. bits j ∙ both j (is_free-pfree a s j v (omega arith)))
  where
    both :
        (j : ℕ)
        → is_free (pfree (a.phys_start + s * page_size) a) j
          ≡ (if s == j then true else is_free a j)
        → (if leb (suc s) j && ltb j (suc s + n)
            then true
            else is_free (pfree (a.phys_start + s * page_size) a) j)
          ≡ (if leb s j && ltb j (s + suc n) then true else is_free a j)
    both j e = rw e (ground arith)

palloc_n_fields :
    (n : ℕ) (a : PhysAllocator)
    → ((palloc_n n a).0.phys_start ≡ a.phys_start) × ((palloc_n n a).0.total_pages ≡ a.total_pages)
unfolding palloc_n
palloc_n_fields n a = ground arith

-- The pages that `palloc_n` takes, given back.
pfree_n-palloc_n :
    (n : ℕ) (a : PhysAllocator)
    → Inv a
    → 0 < n
    → (palloc_n n a).1 ≢ 0
    → (palloc_n n a).1 + n * page_size ≤ a.phys_start + a.total_pages * page_size
    → Inv (pfree_n n (palloc_n n a).1 (palloc_n n a).0)
      × ((j : ℕ) → is_free (pfree_n n (palloc_n n a).1 (palloc_n n a).0) j ≡ is_free a j)
      × ((pfree_n n (palloc_n n a).1 (palloc_n n a).0).free_pages ≡ a.free_pages)
pfree_n-palloc_n n a v p ok fits =
    let (s, addr, was_free, taken, count, inv) = palloc_n_takes n a v p ok fits in
    let (start_same, total_same) = palloc_n_fields n a in
    let here : (palloc_n n a).0.phys_start + s * page_size ≡ (palloc_n n a).1 =
      omega (arith, start_same, addr) in
    let (kept, total, bits) =
      subst
        (λ x.
          Inv (pfree_n n x (palloc_n n a).0)
          × ((pfree_n n x (palloc_n n a).0).total_pages ≡ (palloc_n n a).0.total_pages)
          × ((j : ℕ)
              → is_free (pfree_n n x (palloc_n n a).0) j
                ≡ (if leb s j && ltb j (s + n) then true else is_free (palloc_n n a).0 j)))
        here
        (pfree_n_lem n s (palloc_n n a).0 inv
          (omega (arith, start_same, total_same, addr, fits))) in
    let same : (j : ℕ) → is_free (pfree_n n (palloc_n n a).1 (palloc_n n a).0) j ≡ is_free a j =
      λ j. bits j ∙ both j (taken j) (was_free j) in
    (
      kept,
      same,
      Inv.counted kept
          ∙ rw (total ∙ total_same) (count_from_congr a.total_pages 0 _ _ (λ j l u. same j))
          ∙ sym (Inv.counted v),
    )
  where
    both :
        {s : ℕ} (j : ℕ)
        → is_free (palloc_n n a).0 j ≡ (if leb s j && ltb j (s + n) then false else is_free a j)
        → (s ≤ j → j < s + n → is_free a j ≡ true)
        → (if leb s j && ltb j (s + n) then true else is_free (palloc_n n a).0 j) ≡ is_free a j
    both {s} j e f = elim (Bool-cases (leb s j && ltb j (s + n))) [
      | inl t ↦ rw t (sym (f (ground arith) (ground arith)))
      | inr t ↦ rw t (rw e (rw t refl))
    ]

palloc_takes_one : (a : PhysAllocator) → Inv a → a.free_pages ≤ (palloc a).0.free_pages + 1
palloc_takes_one a v = elim (palloc_takes a v) [
  | inl (z, e) ↦ rw e (omega arith)
  | inr (i, l, f, b, p, q, c) ↦ omega (arith, c)
]

-- Where the slot that `spawn` takes still names, as its old stack, the very pages that `palloc_n` returns for the new one,
-- and these lie in the region, `spawn` succeeds, the new task runs on that stack, and the allocator has lost at most one page: it
-- counts the stack as free.
pub spawn_frees_own_stack :
    (entry slot : ℕ) (m : Machine)
    → Inv m.pages
    → at_limit m.kernel ≡ false
    → find_free m.kernel ≡ some slot
    → (palloc_n 16 m.pages).1 ≢ 0
    → (palloc_n 16 m.pages).1 + 16 * page_size
      ≤ m.pages.phys_start + m.pages.total_pages * page_size
    → (m.kernel.tasks slot).kstack_phys ≡ (palloc_n 16 m.pages).1
    → ((spawn entry m).1 ≡ some m.kernel.next_id)
      × (((spawn entry m).0.kernel.tasks slot).stack_base ≡ (palloc_n 16 m.pages).1)
      × (m.pages.free_pages ≤ (spawn entry m).0.pages.free_pages + 1)
unfolding spawn start
spawn_frees_own_stack entry slot m v limit free ok fits old =
    let (inv, same, count) = pfree_n-palloc_n 16 m.pages v (omega arith) ok fits in
    let z : ((palloc_n 16 m.pages).1 == 0) ≡ false = ground arith in
    rw (limit, spawn)
      (rw free (
        rw z (
          rw (old, start)
            (
              refl,
              ap (λ t. t.stack_base) (update_self m.kernel.tasks slot _),
              rw z (omega (arith, count, palloc_takes_one _ inv)),
            ))))
