-- ===== src/Memory.antt =====
-- kernel/src/memory.rs: the allocator of physical pages, over a bitmap with a set bit for a used page.
-- `bitmap` is the memory from `bitmap_addr` on, byte by byte. All sections run with interrupts off.
pub mod Bits
pub mod Invariant
pub mod Calls
pub mod Pages
pub mod Runs
pub mod Overrun
use dbsos.Common.{
  ℕ, zero, suc, ◌+◌, ◌-◌, ◌*◌, ◌/◌, ◌%◌, ◌^◌, min, Bool, true, false, not, ◌&&◌, ◌||◌, Option, none,
  some, List, [], ◌∷◌, ◌==◌, ltb, leb, if◌then◌else◌, find_from, Array, update,
}
unfoldable pub use Bits.{bit_test, bit_set}

abbrev pub page_size : ℕ
page_size = 4096

abbrev pub u64_mod : ℕ
u64_mod = 2 ^ 64

pub record PhysAllocator : Type 0 where
  pub bitmap_addr : ℕ
  pub bitmap : Array ℕ
  pub phys_start : ℕ
  pub total_pages : ℕ
  pub free_pages : ℕ
  pub first_page : ℕ

-- The static's value before `init`.
abbrev pub no_memory : PhysAllocator
no_memory = record {
  bitmap_addr = 0;
  bitmap = λ i. 0;
  phys_start = 0;
  total_pages = 0;
  free_pages = 0;
  first_page = 0;
}

-- An entry of the UEFI memory map.
pub record Region : Type 0 where
  pub conventional : Bool
  pub region_start : ℕ
  pub page_count : ℕ

-- The start and size of the largest conventional region; `(0, 0)` if there is none.
unfoldable pub largest : List Region → ℕ × ℕ → ℕ × ℕ
largest [] best = best
largest (e ∷ es) (start, pages) = largest es (
    if e.conventional && ltb pages e.page_count
    then (e.region_start, e.page_count)
    else (start, pages))

abbrev pub bitmap_bytes : ℕ → ℕ
bitmap_bytes pages = (pages + 7) / 8

abbrev pub bitmap_pages : ℕ → ℕ
bitmap_pages pages = (bitmap_bytes pages + page_size - 1) / page_size

-- The bitmap takes the first pages of the region, and is cleared.
unfoldable pub lay_out : (start pages : ℕ) → Array ℕ → PhysAllocator
lay_out start pages memory = record {
  bitmap_addr = start;
  bitmap = λ i. if ltb i (bitmap_bytes pages) then 0 else memory i;
  phys_start = start + bitmap_pages pages * page_size;
  total_pages = pages - bitmap_pages pages;
  free_pages = pages - bitmap_pages pages;
  first_page = 0;
}

-- `memory` is what the memory at the start of the region holds.
unfoldable pub init_region : ℕ × ℕ → Array ℕ → PhysAllocator → PhysAllocator
init_region (start, pages) memory a =
    if pages == 0 || start == 0 then a else lay_out start pages memory

unfoldable pub init : List Region → Array ℕ → PhysAllocator → PhysAllocator
unfolding init_region
init mmap memory a = init_region (largest mmap (0, 0)) memory a

-- `bit_test(a.bitmap_addr, i) == 0`
abbrev pub is_free : PhysAllocator → ℕ → Bool
is_free a i = bit_test a.bitmap i == 0

-- `a.phys_start + (i as u64) * PAGE_SIZE`
abbrev pub page_addr : PhysAllocator → ℕ → ℕ
page_addr a i = (a.phys_start + i * page_size) % u64_mod

-- The page that `palloc` takes: from the hint to the end, and then from the start to the hint.
unfoldable pub find_page : PhysAllocator → Option ℕ
find_page a = elim (find_from (a.total_pages - a.first_page) a.first_page (is_free a)) [
  | some i ↦ some i
  | none ↦ find_from a.first_page 0 (is_free a)
]

-- Marks page `i`. The hint moves on only if the page was found at or behind it.
abbrev pub take_page : ℕ → PhysAllocator → PhysAllocator
take_page i a = record a {
  bitmap = bit_set a.bitmap i 1;
  free_pages = a.free_pages - 1;
  first_page = if leb a.first_page i then i + 1 else a.first_page;
}

-- The address of a page, 0 if there is none.
unfoldable pub palloc : PhysAllocator → PhysAllocator × ℕ
palloc a =
    if a.free_pages == 0 || a.bitmap_addr == 0
    then (a, 0)
    else elim (find_page a) [ none ↦ (a, 0) | some i ↦ (take_page i a, page_addr a i) ]

-- The page that the loop of `palloc_n` looks at when its counter is `i`.
unfoldable pub page_at : PhysAllocator → ℕ → ℕ
page_at a i = if leb a.total_pages i then i - a.total_pages else i

-- The loop of `palloc_n`, with `k` rounds to go at counter `i`: the start of the first run of `n`.
unfoldable pub scan_run : PhysAllocator → (n k i run_start run_len : ℕ) → Option ℕ
scan_run a n zero i run_start run_len = none
scan_run a n (suc k) i run_start run_len =
    let idx = page_at a i in
    let free = is_free a idx in
    let start = if free && run_len == 0 then idx else run_start in
    let len = if free then run_len + 1 else 0 in
    let rest = scan_run a n k (i + 1) start len in if free && leb n len then some start else rest

-- `for j in start..(start + n) { bit_set(bitmap, j, 1) }`
unfoldable pub mark_run : (n start : ℕ) → Array ℕ → Array ℕ
mark_run zero start bitmap = bitmap
mark_run (suc n) start bitmap = mark_run n (suc start) (bit_set bitmap start 1)

unfoldable pub palloc_n : (n : ℕ) → PhysAllocator → PhysAllocator × ℕ
palloc_n n a =
    if ltb a.free_pages n || a.bitmap_addr == 0
    then (a, 0)
    else elim (scan_run a n a.total_pages a.first_page a.first_page 0) [
      | none ↦ (a, 0)
      | some start ↦ (
        record a {
          bitmap = mark_run n start a.bitmap;
          free_pages = a.free_pages - n;
          first_page = start + n;
        },
        page_addr a start,
      )
    ]

-- Clears the bit of page `i`; the hint moves back to it.
abbrev pub give_page : ℕ → PhysAllocator → PhysAllocator
give_page i a = record a {
  bitmap = bit_set a.bitmap i 0;
  free_pages = a.free_pages + 1;
  first_page = if ltb i a.first_page then i else a.first_page;
}

-- Frees the page that the address lies in; an address outside, or in a free page, changes nothing.
unfoldable pub pfree : (phys : ℕ) → PhysAllocator → PhysAllocator
pfree phys a =
    let page = (phys - a.phys_start) / page_size in
    if ltb phys a.phys_start
    then a
    else if leb a.total_pages page || a.bitmap_addr == 0
    then a
    else if is_free a page
    then a
    else give_page page a

unfoldable pub pfree_n : (n phys : ℕ) → PhysAllocator → PhysAllocator
pfree_n zero phys a = a
pfree_n (suc n) phys a = pfree_n n (phys + page_size) (pfree phys a)

unfoldable pub free_count : PhysAllocator → ℕ
free_count a = a.free_pages

-- The share of used pages in percent.
unfoldable pub pressure : PhysAllocator → ℕ
pressure a =
    if a.total_pages == 0
    then 100
    else min ((a.total_pages - a.free_pages) * 100 / a.total_pages) 100
