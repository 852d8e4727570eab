-- ===== src/Heap/Grow.antt =====
-- kernel/src/heap.rs: init, grow_heap and kmalloc, which take pages from the page allocator.
-- memory::palloc, memory::pfree and vm::map_page are parameters over the state `S` of theirs;
-- `map_page` says whether it mapped the page.
use dbsos.Common.{
  ℕ, zero, suc, ◌+◌, ◌-◌, ◌*◌, ◌/◌, ◌%◌, ◌^◌, Bool, true, false, not, ◌&&◌, ◌||◌, Option, none,
  some, ◌==◌, ltb, leb, if◌then◌else◌,
}
use dbsos.Heap.{
  page_size, heap_base, heap_max_size, header_size, min_block, Heap, block_total, header_to_payload,
  set_size, set_used, free_list_insert, find_fit, list_fuel, take_block,
}

-- The pages of `grow_heap`: at least `min_pages`, a quarter of the heap and 4; cut at the limit.
unfoldable pub growth : (min_pages current_size : ℕ) → ℕ
growth min_pages current_size =
    let quarter = current_size / page_size / 4 in
    let p1 = if ltb min_pages quarter then quarter else min_pages in
    let p2 = if ltb p1 4 then 4 else p1 in
    if ltb heap_max_size (current_size + p2 * page_size)
    then (heap_max_size - current_size) / page_size
    else p2

-- The new pages as one free block behind the others.
unfoldable pub extend : (allocated : ℕ) → Heap → Heap
extend allocated h =
    let new_end = h.heap_end + allocated * page_size in
    let payload_size = new_end - h.heap_end - header_size in
    let h1 =
      if leb (h.heap_end + block_total 0) new_end && leb min_block payload_size
      then (free_list_insert (header_to_payload h.heap_end)
          (set_used h.heap_end 0 (set_size h.heap_end payload_size h)))
      else h in
    record h1 { heap_end = new_end }

-- The page allocator and the page tables, which `S` is the state of.
module _ {S : Type 0} (palloc : S → S × ℕ) (pfree : ℕ → S → S)
    (map_page : (phys virt : ℕ) → S → S × Bool) where
  -- The loop of `grow_heap` with `k` rounds to go: the pages that it got.
  unfoldable pub map_pages : (k end allocated : ℕ) → S → S × ℕ
  map_pages zero end allocated s = (s, allocated)
  map_pages (suc k) end allocated s =
      let (s1, phys) = palloc s in
      let (s2, mapped) = map_page phys (end + allocated) s1 in
      let rest = map_pages k end (allocated + 1) s2 in
      if phys == 0 then (s1, allocated) else if mapped then rest else (pfree phys s2, allocated)

  unfoldable pub grow_heap : (min_pages : ℕ) → Heap → S → Bool × Heap × S
  unfolding growth map_pages extend
  grow_heap min_pages h s =
      let pages = growth min_pages (h.heap_end - heap_base) in
      let (s1, allocated) = map_pages pages h.heap_end 0 s in
      if allocated == 0 then (false, h, s1) else (true, extend allocated h, s1)

  -- The loop of `init`, which does not look at what `map_page` returns.
  unfoldable pub init_pages : (k base : ℕ) → S → S × ℕ
  init_pages zero base s = (s, base)
  init_pages (suc k) base s =
      let (s1, phys) = palloc s in
      let rest = init_pages k (base + page_size) (map_page phys base s1).0 in
      if phys == 0 then (s1, base) else rest

  unfoldable pub init : (heap_pages : ℕ) → Heap → S → Heap × S
  unfolding init_pages set_size set_used free_list_insert
  init heap_pages h s =
      let (s1, end) = init_pages heap_pages heap_base s in
      let payload = (end - heap_base + 2 ^ 64 - header_size) % 2 ^ 64 in
      let h1 : Heap = record h { heap_start = heap_base; heap_end = end; free_list = 0 } in
      let h2 = set_used heap_base 0 (set_size heap_base payload h1) in
      let h3 = free_list_insert (header_to_payload heap_base) h2 in
      if heap_pages == 0 then (h, s) else (record h3 { ready = true }, s1)

  -- A run of `kmalloc` that grows the heap less than `fuel` times; `none` if that is not enough.
  unfoldable pub kmalloc : (fuel size : ℕ) → Heap → S → Option (ℕ × Heap × S)
  kmalloc zero size h s = none
  kmalloc (suc fuel) size h s =
      let (grown, h1, s1) = grow_heap ((block_total size + page_size - 1) / page_size) h s in
      let again = if grown then kmalloc fuel size h1 s1 else some (0, h1, s1) in
      if size == 0 || not h.ready
      then some (0, h, s)
      else elim (find_fit (list_fuel h) h h.free_list (block_total size)) [
        | some node ↦ some (node, take_block node size h, s)
        | none ↦ again
      ]
