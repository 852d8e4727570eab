-- ===== src/Heap/Overrun.antt =====
-- kernel/src/heap.rs: a header has 8 bytes and payloads are rounded up to 16, so a block whose payload size is what is
-- left of a number of 16-byte units, less the header, is taken to be 8 bytes longer than it is.
use dbsos.Common.{
  ℕ, zero, suc, ◌+◌, ◌-◌, ◌*◌, ◌%◌, ◌^◌, ◌≤◌, ◌<◌, ◌≡◌, ◌≢◌, refl, ap, ◌∙◌, inl, inr, Bool, true,
  false, some, arith, ◌==◌, leb, ◌||◌, not, Bool-cases, update,
}
use dbsos.Heap.{
  page_size, heap_base, heap_max_size, min_block, Heap, block_total, block_next, payload_to_header,
  header_to_payload, set_size, set_used, free_list_insert, free_list_remove, find_fit, take_block,
  split,
}
use dbsos.Heap.FreeList.{remove-SameBlocks}
use dbsos.Heap.Grow.{extend, init_pages, init, kmalloc}

module _ (hdr size : ℕ) (h : Heap)
    (large : block_total size + (block_total 0 + min_block) ≤ block_total (h.size hdr)) where
  carved : Heap
  carved = set_used hdr 1 (
      split hdr (block_total size) size (block_total (h.size hdr) - block_total size)
        (free_list_remove (header_to_payload hdr) h))

-- The block that grow_heap adds for new pages ends 8 bytes behind the new end of the heap.
extend_overruns :
    (allocated : ℕ) (h : Heap)
    → 0 < allocated
    → allocated * page_size ≤ heap_max_size
    → (block_next (extend allocated h) h.heap_end ≡ (extend allocated h).heap_end + 8)
      × ((extend allocated h).used h.heap_end ≡ 0)
      × ((extend allocated h).free_list ≡ header_to_payload h.heap_end)
unfolding extend set_size set_used free_list_insert block_next update block_total
extend_overruns allocated h p l = (ground arith, ground arith, ground arith)

-- One free block that fills the heap is taken to have room for as many bytes as the heap.
whole_heap_fits :
    (n : ℕ)
    → 0 < n
    → n * page_size ≤ heap_max_size
    → leb (block_total (n * page_size)) (block_total (n * page_size - 8)) ≡ true
unfolding block_total
whole_heap_fits n p l = ground arith

take_block_end : (node size : ℕ) (h : Heap) → (take_block node size h).heap_end ≡ h.heap_end
unfolding take_block split set_size set_used free_list_insert
take_block_end node size h = ground (arith, remove-SameBlocks node h)

module _ {S : Type 0} (palloc : S → S × ℕ) (pfree : ℕ → S → S)
    (map_page : (phys virt : ℕ) → S → S × Bool) where
  init_pages_end :
      (k base : ℕ) (s : S)
      → (n : ℕ) × (n ≤ k) × ((init_pages palloc pfree map_page k base s).1 ≡ base + n * page_size)
  unfolding init_pages
  init_pages_end zero base s = (0, omega arith, omega arith)
  init_pages_end (suc k) base s =
      let s1 = (palloc s).0 in
      let s2 = (map_page (palloc s).1 base s1).0 in
      let (n, le, e) = init_pages_end k (base + page_size) s2 in
      elim (Bool-cases ((palloc s).1 == 0)) [
        | inl t ↦ rw t (0, omega arith, omega arith)
        | inr t ↦ rw t (suc n, omega arith, omega (arith, e))
      ]

  init_pages_some :
      (k base : ℕ) (s : S)
      → 0 < k
      → (palloc s).1 ≢ 0
      → base < (init_pages palloc pfree map_page k base s).1
  unfolding init_pages
  init_pages_some zero base s l nz = absurd (omega arith)
  init_pages_some (suc k) base s l nz =
      let t : ((palloc s).1 == 0) ≡ false = ground arith in
      let s2 = (map_page (palloc s).1 base (palloc s).0).0 in
      let (n, le, e) = init_pages_end k (base + page_size) s2 in rw t (omega (arith, e))

  init_lem :
      (heap_pages : ℕ) (h : Heap) (s : S)
      → 0 < heap_pages
      → heap_pages * page_size ≤ heap_max_size
      → (palloc s).1 ≢ 0
      → let g = (init palloc pfree map_page heap_pages h s).0 in
        (n : ℕ) × (0 < n)
        × (n ≤ heap_pages)
        × (g.heap_end ≡ heap_base + n * page_size)
        × (g.heap_start ≡ heap_base)
        × (g.ready ≡ true)
        × (g.free_list ≡ heap_base + 8)
        × (g.size heap_base ≡ n * page_size - 8)
  unfolding init set_used set_size free_list_insert update
  init_lem heap_pages h s pos le nz =
      let some_pages : (heap_pages == 0) ≡ false = ground arith in
      let (n, nk, e) = init_pages_end heap_pages heap_base s in
      let grows = init_pages_some heap_pages heap_base s pos nz in
      let end = (init_pages palloc pfree map_page heap_pages heap_base s).1 in
      let stored : (end - heap_base + 2 ^ 64 - 8) % 2 ^ 64 % 2 ^ 32 ≡ n * page_size - 8 =
        omega (arith, e, grows, nk, le) in
      rw some_pages (n, omega (arith, e, grows), nk, e, refl, refl, refl, stored)

  -- Where the first block of the list has room, kmalloc takes it.
  kmalloc-first :
      (fuel size : ℕ) (h : Heap) (s : S)
      → (size == 0) ≡ false
      → h.ready ≡ true
      → (h.free_list == 0) ≡ false
      → leb (block_total size) (block_total (h.size (payload_to_header h.free_list))) ≡ true
      → kmalloc palloc pfree map_page (suc fuel) size h s
        ≡ some (h.free_list, take_block h.free_list size h, s)
  unfolding kmalloc find_fit
  kmalloc-first fuel size h s z r l fits =
      let usable : (size == 0 || not h.ready) ≡ false = ground arith in
      rw (usable, kmalloc) (rw (l, find_fit) (rw fits refl))

  -- After init with at least one page, up to the heap's limit, kmalloc of as many bytes as the whole heap has, header
  -- included, succeeds at once: the pointer is behind the first header, and the last 8 bytes lie behind the heap's end.
  pub kmalloc_overruns :
      (heap_pages fuel : ℕ) (h : Heap) (s s' : S)
      → 0 < heap_pages
      → heap_pages * page_size ≤ heap_max_size
      → (palloc s).1 ≢ 0
      → let g = (init palloc pfree map_page heap_pages h s).0 in
        (ptr : ℕ) × (g' : Heap) × (kmalloc palloc pfree map_page
            (suc fuel)
            (g.heap_end - g.heap_start)
            g
            s'
          ≡ some (ptr, g', s'))
        × (ptr ≡ heap_base + 8)
        × (ptr + (g.heap_end - g.heap_start) ≡ g'.heap_end + 8)
  kmalloc_overruns heap_pages fuel h s s' pos le nz =
      let g = (init palloc pfree map_page heap_pages h s).0 in
      let (n, p, nk, end, start, is_ready, list, bytes) = init_lem heap_pages h s pos le nz in
      let size = g.heap_end - g.heap_start in
      let all : size ≡ n * page_size = omega (arith, end, start) in
      let first : g.size (payload_to_header g.free_list) ≡ n * page_size - 8 =
        ap g.size (omega (arith, list)) ∙ bytes in
      let room : leb (block_total size) (block_total (g.size (payload_to_header g.free_list)))
          ≡ true =
        rw all (rw first (whole_heap_fits n p (omega arith))) in
      let takes =
        kmalloc-first fuel size g s' (ground (arith, all, p)) is_ready (ground (arith, list))
          room in
      (
        g.free_list,
        take_block g.free_list size g,
        takes,
        list,
        omega (arith, take_block_end g.free_list size g, all, list, end),
      )
