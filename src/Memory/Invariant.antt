-- ===== src/Memory/Invariant.antt =====
-- kernel/src/memory.rs: the allocator's counter agrees with its bitmap, and every operation on single
-- pages keeps that.
use dbsos.Common.{
  ℕ, ◌+◌, ◌-◌, ◌*◌, ◌/◌, ◌≤◌, ◌<◌, ◌≡◌, ◌≢◌, ◌⊎◌, inl, inr, true, false, some, arith, ◌==◌,
  if◌then◌else◌, Bool-cases, Option-cases, find_from, find_from-eq-some, find_from-eq-none,
  find_from_total, count_from, count_from_change, count_from_pos,
}
use dbsos.Memory.Bits.{
  IsBytes, bit_test-bit_set, bit_test-bit_clear, bit_set-IsBytes, bit_clear-IsBytes,
}
use dbsos.Memory.{
  PhysAllocator, page_size, u64_mod, is_free, page_addr, find_page, take_page, palloc, pfree,
  give_page, give_page,
}

-- The bitmap is there and holds bytes, the counter is the number of clear bits, the hint is inside,
-- and the pages end below 2^64.
pub record Inv (a : PhysAllocator) : Type 0 where
  pub bytes : IsBytes a.bitmap
  pub counted : a.free_pages ≡ count_from a.total_pages 0 (is_free a)
  pub hint : a.first_page ≤ a.total_pages
  pub mapped : a.bitmap_addr ≢ 0
  pub based : 0 < a.phys_start
  pub bounded : a.phys_start + a.total_pages * page_size ≤ u64_mod

not_le→lt : (a b : ℕ) → ¬ (a ≤ b) → b < a
not_le→lt a b h = omega arith

-- What `find_page` returns is a free page of the region.
find_page-eq-some :
    (a : PhysAllocator) (i : ℕ)
    → a.first_page ≤ a.total_pages
    → find_page a ≡ some i
    → (i < a.total_pages) × (is_free a i ≡ true)
unfolding find_page
find_page-eq-some a i h e =
    elim (Option-cases (find_from (a.total_pages - a.first_page) a.first_page (is_free a))) [
      | inl f ↦
          let low : find_from a.first_page 0 (is_free a) ≡ some i = rw (f, find_page) at e in
          let (_, l, t) = find_from-eq-some (is_free a) a.first_page 0 low in (omega arith, t)
      | inr (j, f) ↦
          let same : j ≡ i = cc (rw (f, find_page) at e) in
          let (_, l, t) =
            find_from-eq-some (is_free a) (a.total_pages - a.first_page) a.first_page f in
          (omega arith, rw same at t)
    ]

-- Where a page is free, `find_page` finds one.
find_page_total :
    (a : PhysAllocator)
    → a.first_page ≤ a.total_pages
    → 0 < count_from a.total_pages 0 (is_free a)
    → (i : ℕ) × (find_page a ≡ some i)
unfolding find_page
find_page_total a h c =
    let (j, _, l, t) = count_from_pos a.total_pages 0 (is_free a) c in
    let high = find_from (a.total_pages - a.first_page) a.first_page (is_free a) in
    elim (Option-cases high) [
      | inr (i, f) ↦ (i, rw (f, find_page))
      | inl f ↦
          let below : j < a.first_page = not_le→lt a.first_page j (λ q. cc (
            t,
            find_from-eq-none (is_free a) (a.total_pages - a.first_page) a.first_page j f q
                (omega arith),
          )) in
          let (i, g) = find_from_total (is_free a) a.first_page 0 j (omega arith) (omega arith) t in
          (i, rw (f, find_page) g)
    ]

module _ (a : PhysAllocator) (v : Inv a) where
  pub is_free-take_page :
      (i j : ℕ) → is_free (take_page i a) j ≡ (if i == j then false else is_free a j)
  is_free-take_page i j = ground (arith, bit_test-bit_set a.bitmap v.bytes i j)

  take_page-Inv : (i : ℕ) → i < a.total_pages → is_free a i ≡ true → Inv (take_page i a)
  take_page-Inv i h t =
      let moved =
        count_from_change a.total_pages 0 i (is_free a) (is_free (take_page i a)) (omega arith)
          (omega arith) (λ m n. ground (arith, is_free-take_page i m)) in
      record {
        bytes = bit_set-IsBytes a.bitmap v.bytes i;
        counted = ground (arith, moved, v.counted, is_free-take_page i i);
        hint = ground (arith, v.hint);
        mapped = v.mapped;
        based = v.based;
        bounded = v.bounded;
      }

  pub palloc_cases :
      ((a.free_pages ≡ 0) × (palloc a ≡ (a, 0)))
      ⊎ ((i : ℕ) × (i < a.total_pages)
          × (is_free a i ≡ true)
          × (palloc a ≡ (take_page i a, page_addr a i))
          × (0 < a.free_pages))
  unfolding palloc
  palloc_cases = elim (Bool-cases (a.free_pages == 0)) [
    | inl z ↦ inl (ground arith, ground arith)
    | inr z ↦
        let (i, e) = find_page_total a v.hint (ground (arith, v.counted)) in
        let (l, t) = find_page-eq-some a i v.hint e in
        inr (i, l, t, ground (arith, e, v.mapped), ground arith)
  ]

  pub page_addr-eq : (i : ℕ) → i < a.total_pages → page_addr a i ≡ a.phys_start + i * page_size
  page_addr-eq i h = omega (arith, v.bounded)

  -- With no page free, an allocation returns 0 and changes nothing. Otherwise it takes one page: it was
  -- free and is used then, no other page changes, and the address is the page's own, not 0.
  pub palloc_takes :
      ((a.free_pages ≡ 0) × (palloc a ≡ (a, 0)))
      ⊎ ((i : ℕ) × (i < a.total_pages)
          × (is_free a i ≡ true)
          × ((j : ℕ) → is_free (palloc a).0 j ≡ (if i == j then false else is_free a j))
          × ((palloc a).1 ≡ a.phys_start + i * page_size)
          × ((palloc a).1 ≢ 0)
          × ((palloc a).0.free_pages + 1 ≡ a.free_pages))
  palloc_takes = elim palloc_cases [
    | inl none_free ↦ inl none_free
    | inr (i, l, t, e, p) ↦ inr (
      i,
      l,
      t,
      (λ j. rw e (is_free-take_page i j)),
      rw e (page_addr-eq i l),
      rw e (omega (arith, page_addr-eq i l, v.based)),
      rw e (omega arith),
    )
  ]

  -- An allocation keeps the counter equal to the number of free pages, the hint inside the region and
  -- the bitmap well formed.
  pub palloc-Inv : Inv (palloc a).0
  palloc-Inv = elim palloc_cases [
    | inl (z, e) ↦ rw e v
    | inr (i, l, t, e, p) ↦ rw e (take_page-Inv i l t)
  ]

  -- Which page a call of `pfree` gives back, if any.
  pub pfree_cases :
      (phys : ℕ)
      → (pfree phys a ≡ a)
        ⊎ ((a.phys_start ≤ phys)
            × ((phys - a.phys_start) / page_size < a.total_pages)
            × (is_free a ((phys - a.phys_start) / page_size) ≡ false)
            × (pfree phys a ≡ give_page ((phys - a.phys_start) / page_size) a))
  unfolding pfree
  pfree_cases phys = ground (arith, v.mapped)

  pub is_free-give_page :
      (i j : ℕ) → is_free (give_page i a) j ≡ (if i == j then true else is_free a j)
  is_free-give_page i j = ground (arith, bit_test-bit_clear a.bitmap v.bytes i j)

  give_page-Inv : (i : ℕ) → i < a.total_pages → is_free a i ≡ false → Inv (give_page i a)
  give_page-Inv i h t =
      let moved =
        count_from_change a.total_pages 0 i (is_free a) (is_free (give_page i a)) (omega arith)
          (omega arith) (λ m n. ground (arith, is_free-give_page i m)) in
      record {
        bytes = bit_clear-IsBytes a.bitmap v.bytes i;
        counted = ground (arith, moved, v.counted, is_free-give_page i i);
        hint = ground (arith, v.hint);
        mapped = v.mapped;
        based = v.based;
        bounded = v.bounded;
      }

  -- Freeing any address, also one outside the region or in a free page, keeps the invariant.
  pub pfree-Inv : (phys : ℕ) → Inv (pfree phys a)
  pfree-Inv phys = elim (pfree_cases phys) [
    | inl e ↦ rw e v
    | inr (_, l, t, e) ↦ rw e (give_page-Inv _ l t)
  ]
