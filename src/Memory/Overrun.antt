-- ===== src/Memory/Overrun.antt =====
-- kernel/src/memory.rs, palloc_n: the counter wraps round at the end of the region, and the run that it
-- counts goes on across the wrap.
use dbsos.Common.{
  ℕ, ◌+◌, ◌-◌, ◌*◌, ◌≤◌, ◌<◌, ◌≡◌, ap, ◌∙◌, inl, inr, true, false, ◌||◌, some, arith, ◌==◌, ltb,
  leb, Bool-cases, zero, suc,
}
use dbsos.Memory.Invariant.{Inv, page_addr-eq}
use dbsos.Memory.Runs.{scan_run-full, scan_run-more, run_start, mark_run-bits}
use dbsos.Memory.{PhysAllocator, page_size, is_free, page_at, scan_run, palloc_n}

module _ (a : PhysAllocator) (n : ℕ) where
  run_start_again :
      (i start len : ℕ)
      → run_start a (i + 1) (run_start a i start len) (len + 1) ≡ run_start a i start len
  unfolding run_start
  run_start_again i start len = ground arith

  -- Where the next pages are all free, the loop ends with the run that it is in.
  scan_run-clear :
      (k i start len : ℕ)
      → len < n
      → n ≤ len + k
      → ((j : ℕ) → i ≤ j → j < i + (n - len) → is_free a (page_at a j) ≡ true)
      → scan_run a n k i start len ≡ some (run_start a i start len)
  scan_run-clear zero i start len h l free = absurd (omega arith)
  scan_run-clear (suc k) i start len h l free =
      let here = free i (omega arith) (omega arith) in
      elim (Bool-cases (leb n (len + 1))) [
        | inl full ↦ scan_run-full a n k i start len here full
        | inr more ↦
            scan_run-more a n k i start len here more
            ∙ scan_run-clear k (i + 1) (run_start a i start len) (len + 1) (ground arith)
                (omega arith) (λ j p q. free j (omega arith) (ground arith))
            ∙ ap some (run_start_again i start len)
      ]

page_at_wrapped :
    (a : PhysAllocator) (i : ℕ) → leb a.total_pages i ≡ true → page_at a i ≡ i - a.total_pages
unfolding page_at
page_at_wrapped a i w = rw w

page_at_inside : (a : PhysAllocator) (i : ℕ) → leb a.total_pages i ≡ false → page_at a i ≡ i
unfolding page_at
page_at_inside a i w = rw w

-- Where the pages from the hint to the end of the region and the first pages of the region are free,
-- and the first part alone is too short for the request, `palloc_n` returns the page of the hint: the
-- run that it hands out ends behind the region.
pub palloc_n_overruns :
    (n : ℕ) (a : PhysAllocator)
    → Inv a
    → a.first_page < a.total_pages
    → a.total_pages < a.first_page + n
    → n ≤ a.total_pages
    → n ≤ a.free_pages
    → ((j : ℕ) → a.first_page ≤ j → j < a.total_pages → is_free a j ≡ true)
    → ((j : ℕ) → j < n + a.first_page - a.total_pages → is_free a j ≡ true)
    → ((palloc_n n a).1 ≡ a.phys_start + a.first_page * page_size)
      × (a.phys_start + a.total_pages * page_size < (palloc_n n a).1 + n * page_size)
      × (is_free (palloc_n n a).0 a.total_pages ≡ false)
unfolding palloc_n run_start
palloc_n_overruns n a v h l m f high low =
    let enough : (ltb a.free_pages n || a.bitmap_addr == 0) ≡ false = ground (arith, v.mapped) in
    let free : (j : ℕ)
        → a.first_page ≤ j
        → j < a.first_page + (n - 0)
        → is_free a (page_at a j) ≡ true =
      λ j p q. elim (Bool-cases (leb a.total_pages j)) [
        | inl wrapped ↦ rw (page_at_wrapped a j wrapped) (low (j - a.total_pages) (ground arith))
        | inr inside ↦ rw (page_at_inside a j inside) (high j p (ground arith))
      ] in
    let found =
      scan_run-clear a n a.total_pages a.first_page a.first_page 0 (omega arith) (omega arith)
        free in
    let start : run_start a a.first_page a.first_page 0 ≡ a.first_page =
      page_at_inside a a.first_page (ground arith) in
    let got : scan_run a n a.total_pages a.first_page a.first_page 0 ≡ some a.first_page =
      found ∙ ap some start in
    let addr = page_addr-eq a v a.first_page h in
    let (_, bits) = mark_run-bits n a.first_page a.bitmap v.bytes in
    rw enough (rw got (addr, omega (arith, addr), ground (arith, bits a.total_pages)))
