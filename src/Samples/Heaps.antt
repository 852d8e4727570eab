-- ===== src/Samples/Heaps.antt =====
-- The theorems about kernel/src/heap.rs at concrete inputs: a heap of two pages over the page allocator
-- of kernel/src/memory.rs, with a page table that takes every page.
use dbsos.Common.{Option}
use dbsos.Common.{
  ℕ, ◌+◌, ◌-◌, ◌^◌, ◌≡◌, ◌≢◌, refl, Bool, true, false, none, some, [], ◌∷◌, arith, find_from,
  update, Array,
}
use dbsos.Memory
use dbsos.Memory.Bits
use dbsos.Memory.{PhysAllocator, lay_out, palloc, pfree}
use dbsos.Heap
use dbsos.Heap.{
  page_size, Heap, heap_base, heap_max_size, block_total, block_next, free_list_remove, find_fit,
  list_fuel, heap_stats, take_block, header_to_payload,
}
use dbsos.Heap.FreeList.{Linked, free_list_remove-erase}
use dbsos.Heap.Search.{first_fit, fits}
use dbsos.Heap.FirstFit.{left_over}
use dbsos.Heap.Grow.{init, kmalloc, extend}
use dbsos.Heap.Grow
use dbsos.Heap.Overrun.{kmalloc_overruns}

-- What the calls below compute with.
calls : Unit {0}
unfolding palloc pfree lay_out Memory.find_page Bits.bit_test Bits.bit_set Bits.set_byte find_from
    update block_total block_next free_list_remove find_fit heap_stats Heap.set_size Heap.set_used
    Heap.free_list_insert Heap.unlink_prev Heap.unlink_next Heap.split take_block Heap.free_bytes
    first_fit fits init kmalloc Grow.init_pages Grow.map_pages Grow.growth Grow.extend
    Grow.grow_heap
calls = tt

abbrev cleared : Array ℕ
cleared i = 0

abbrev empty : Heap
empty = record {
  ready = false;
  heap_start = 0;
  heap_end = 0;
  free_list = 0;
  size = cleared;
  used = cleared;
  next = cleared;
  prev = cleared;
}

abbrev pages : PhysAllocator
pages = lay_out 8192 9 cleared

abbrev map_page : (phys virt : ℕ) → PhysAllocator → PhysAllocator × Bool
map_page phys virt a = (a, true)

unfoldable booted : Heap × PhysAllocator
booted = init palloc pfree map_page 2 empty pages

stats_result : heap_stats booted.0 ≡ (8192, 8192)
unfolding calls booted
stats_result = refl

first_page : (palloc pages).1 ≢ 0
unfolding calls
first_page z = omega arith

booted-Linked : Linked booted.0 ((heap_base + 8) ∷ [])
unfolding calls booted
booted-Linked = (refl, λ z. omega arith, refl, refl, refl)

-- The heap after a call of kmalloc, and the pointer that it hands out.
abbrev given : Option (ℕ × Heap × PhysAllocator) → ℕ × Heap
given none = (0, empty)
given (some (ptr, h, s)) = (ptr, h)

-- A block of more than the heap has makes it grow by 4 pages, behind the free block.
grown_result :
    ((given (kmalloc palloc pfree map_page 9 9000 booted.0 booted.1)).0 ≡ heap_base + 8200)
    × ((given (kmalloc palloc pfree map_page 9 9000 booted.0 booted.1)).1.heap_end
        ≡ heap_base + 24576)
unfolding calls booted
grown_result = (refl, refl)

-- A size at the top of the range wraps around in align_up, and a small block is handed out.
wrapped_result :
    (given (kmalloc palloc pfree map_page 9 (2 ^ 64 - 1) booted.0 booted.1)).0 ≡ heap_base + 8
unfolding calls booted
wrapped_result = refl

kmalloc_overruns_example :
    (ptr : ℕ) × (g : Heap) × (kmalloc palloc pfree map_page 1
        (booted.0.heap_end - booted.0.heap_start)
        booted.0
        booted.1
      ≡ some (ptr, g, booted.1))
    × (ptr ≡ heap_base + 8)
    × (ptr + (booted.0.heap_end - booted.0.heap_start) ≡ g.heap_end + 8)
unfolding booted
kmalloc_overruns_example =
    kmalloc_overruns palloc pfree map_page 2 0 empty pages booted.1 (omega arith) (omega arith)
      first_page

-- Behind the 40 bytes, rounded up to 48, and the header.
left_over_result :
    left_over (heap_base + 8) 40 booted.0 ((heap_base + 8) ∷ []) ≡ (heap_base + 64) ∷ []
unfolding calls booted
left_over_result = refl

free_list_remove-erase_example : Linked (free_list_remove (heap_base + 8) booted.0) []
free_list_remove-erase_example =
    free_list_remove-erase booted.0 (heap_base + 8) ((heap_base + 8) ∷ []) booted-Linked refl
