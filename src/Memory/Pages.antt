-- ===== src/Memory/Pages.antt =====
-- kernel/src/memory.rs: how allocating and freeing single pages fit together, and the start-up state.
use dbsos.Common.{
  false, ◌==◌, min, Array, count_from_all, ltb, sym, ℕ, ◌+◌, ◌-◌, ◌*◌, ◌/◌, ◌≤◌, ◌<◌, ◌≡◌, ap,
  subst, ◌≢◌, inl, inr, true, arith,
}
use native.Mathlib.Nat.{zero-div, div-mul-le_self, lt-mul-div-succ, mul_comm}
use dbsos.Memory.Bits.{IsBytes}
use dbsos.Memory.Invariant.{
  Inv, palloc-Inv, palloc_cases, pfree_cases, is_free-give_page, is_free-take_page, page_addr-eq,
}
use dbsos.Memory.{
  PhysAllocator, page_size, u64_mod, is_free, page_addr, take_page, palloc, pfree, give_page,
  pressure, lay_out, bitmap_bytes, bitmap_pages, bit_test,
}

module _ (a : PhysAllocator) (v : Inv a) where
  pfree-take_page :
      (i : ℕ)
      → i < a.total_pages
      → pfree (page_addr a i) (take_page i a) ≡ give_page i (take_page i a)
  unfolding pfree
  pfree-take_page i l =
      let page : (page_addr a i - a.phys_start) / page_size ≡ i =
        omega (arith, page_addr-eq a v i l) in
      ground (arith, page, v.mapped, page_addr-eq a v i l, is_free-take_page a v i i)

  pfree-give_page :
      (phys : ℕ)
      → pfree phys (give_page ((phys - a.phys_start) / page_size) a)
        ≡ give_page ((phys - a.phys_start) / page_size) a
  unfolding pfree
  pfree-give_page phys =
      let i = (phys - a.phys_start) / page_size in ground (arith, is_free-give_page a v i i)

-- A page that is allocated and freed again leaves every page and the counter as they were.
pub pfree-palloc :
    (a : PhysAllocator)
    → Inv a
    → (palloc a).1 ≢ 0
    → ((j : ℕ) → is_free (pfree (palloc a).1 (palloc a).0) j ≡ is_free a j)
      × ((pfree (palloc a).1 (palloc a).0).free_pages ≡ a.free_pages)
pfree-palloc a v n = elim (palloc_cases a v) [
  | inl (z, e) ↦ absurd (n (rw e))
  | inr (i, l, t, e, p) ↦
      let v' : Inv (take_page i a) = subst (λ r. Inv r.0) e (palloc-Inv a v) in
      rw (e, pfree-take_page a v i l)
        (
          (λ j.
              ground (arith, is_free-give_page (take_page i a) v' i j, is_free-take_page a v i j)),
          omega arith,
        )
]

-- A second free of the same address changes nothing.
pub pfree_twice : (a : PhysAllocator) (phys : ℕ) → Inv a → pfree phys (pfree phys a) ≡ pfree phys a
pfree_twice a phys v = elim (pfree_cases a v phys) [
  | inl e ↦ ap (pfree phys) e
  | inr (_, _, _, e) ↦ rw e (pfree-give_page a v phys)
]

-- Two allocations in a row never give out the same page.
pub palloc_apart :
    (a : PhysAllocator)
    → Inv a
    → (palloc (palloc a).0).1 ≢ 0
    → (palloc (palloc a).0).1 ≢ (palloc a).1
palloc_apart a v n = elim (palloc_cases a v) [
  | inl (z, e) ↦ absurd (n (cc e))
  | inr (i, l, t, e, p) ↦
      let v' : Inv (take_page i a) = subst (λ r. Inv r.0) e (palloc-Inv a v) in
      elim (palloc_cases (take_page i a) v') [
        | inl (z, e') ↦ absurd (n (rw (e, e')))
        | inr (j, l', t', e', _) ↦
            let apart : i ≢ j = λ q. ground (arith, is_free-take_page a v i j) in
            rw (e, e')
              (λ q. omega (arith, page_addr-eq a v i l, page_addr-eq (take_page i a) v' j l'))
      ]
]

percent-le : (used pages : ℕ) → used ≤ pages → 0 < pages → used * 100 / pages ≤ 100
percent-le used pages h p = let most = div-mul-le_self (used * 100) pages in grind (arith, most)

-- With pages in the region, the pressure is the percentage of the used ones, rounded down.
pub pressure-le :
    (a : PhysAllocator)
    → Inv a
    → 0 < a.total_pages
    → (pressure a ≤ 100)
      × (pressure a * a.total_pages ≤ (a.total_pages - a.free_pages) * 100)
      × ((a.total_pages - a.free_pages) * 100 < (pressure a + 1) * a.total_pages)
unfolding pressure
pressure-le a v p =
    let used = a.total_pages - a.free_pages in
    let some_pages : (a.total_pages == 0) ≡ false = ground arith in
    let top : min (used * 100 / a.total_pages) 100 ≡ used * 100 / a.total_pages =
      omega (arith, percent-le used a.total_pages (omega arith) p) in
    rw some_pages (
      rw top (
        percent-le used a.total_pages (omega arith) p,
        div-mul-le_self (used * 100) a.total_pages,
        ground (
          arith,
          lt-mul-div-succ (used * 100) p,
          mul_comm a.total_pages (used * 100 / a.total_pages + 1),
        ),
      ))

module _ (memory : Array ℕ) (start pages : ℕ) where
  is_free-lay_out : (i : ℕ) → i < pages → is_free (lay_out start pages memory) i ≡ true
  unfolding lay_out bit_test
  is_free-lay_out i h =
      let inside : ltb (i / 8) (bitmap_bytes pages) ≡ true = ground arith in rw (inside, zero-div)

  -- At start-up, with the largest region of `pages` pages at `start` (not 0, ending below 2^64) and
  -- memory that holds bytes, the bitmap fits into the pages that are set aside for it, the other pages
  -- of the region are all free, they end where the region ends, and the invariant holds.
  pub lay_out-Inv :
      start ≢ 0
      → pages ≢ 0
      → start + pages * page_size ≤ u64_mod
      → IsBytes memory
      → let a = lay_out start pages memory in
        Inv a
        × (bitmap_bytes pages ≤ bitmap_pages pages * page_size)
        × ((i : ℕ) → i < a.total_pages → is_free a i ≡ true)
        × (a.phys_start + a.total_pages * page_size ≡ start + pages * page_size)
  unfolding lay_out
  lay_out-Inv n m b bytes = (
    record {
      bytes = λ i. ground (arith, bytes i);
      counted = sym (
          count_from_all (pages - bitmap_pages pages) 0 (is_free (lay_out start pages memory))
            (λ i _ l. is_free-lay_out i (omega arith)));
      hint = omega arith;
      mapped = n;
      based = omega arith;
      bounded = omega arith;
    },
    omega arith,
    (λ i l. is_free-lay_out i (omega arith)),
    omega arith,
  )
