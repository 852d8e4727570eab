-- ===== src/Heap.antt =====
-- kernel/src/heap.rs: the allocator of kernel memory, a doubly linked free list of blocks.
-- The memory is four arrays, one for each field: `size` and `used` of the 8-byte header at an address, `next` and `prev`
-- of the list node at an address. `_pad` and the payloads are left out, and so is `kfree`: it reads headers where
-- block_next points, which can be inside of another block (see Overrun), and there it depends on single bytes.
-- All sections run with interrupts off.
pub mod Chain
pub mod FreeList
pub mod Search
pub mod Grow
pub mod FirstFit
pub mod Overrun
use dbsos.Common.{
  ℕ, zero, suc, ◌+◌, ◌-◌, ◌*◌, ◌/◌, ◌%◌, ◌^◌, Bool, true, false, not, ◌&&◌, ◌||◌, Option, none,
  some, ◌==◌, ltb, leb, if◌then◌else◌, Array, update,
}

abbrev pub page_size : ℕ
page_size = 4096

abbrev pub heap_base : ℕ
heap_base = 17592186044416

abbrev pub heap_max_size : ℕ
heap_max_size = 268435456

-- size_of::<BlockHeader>(): a u32 and two u16.
abbrev pub header_size : ℕ
header_size = 8

abbrev pub min_block : ℕ
min_block = 32

pub record Heap : Type 0 where
  pub ready : Bool
  pub heap_start : ℕ
  pub heap_end : ℕ
  pub free_list : ℕ
  pub size : Array ℕ
  pub used : Array ℕ
  pub next : Array ℕ
  pub prev : Array ℕ

-- `(n + 15) & !15` on a `usize`
abbrev pub align_up : ℕ → ℕ
align_up n = (n + 15) % 2 ^ 64 / 16 * 16

unfoldable pub block_total : ℕ → ℕ
block_total size = align_up size + header_size

abbrev pub payload_to_header : ℕ → ℕ
payload_to_header ptr = ptr - header_size

abbrev pub header_to_payload : ℕ → ℕ
header_to_payload hdr = hdr + header_size

unfoldable pub block_next : Heap → ℕ → ℕ
block_next h hdr = hdr + block_total (h.size hdr)

-- `(*hdr).size = n as u32`
unfoldable pub set_size : ℕ → ℕ → Heap → Heap
set_size hdr n h = record h { size = update h.size hdr (n % 2 ^ 32) }

unfoldable pub set_used : ℕ → ℕ → Heap → Heap
set_used hdr n h = record h { used = update h.used hdr n }

-- The two writes of `free_list_remove`: to the node before, and to the node behind.
unfoldable pub unlink_prev : ℕ → Heap → Heap
unlink_prev node h =
    if h.prev node == 0
    then record h { free_list = h.next node }
    else record h { next = update h.next (h.prev node) (h.next node) }

unfoldable pub unlink_next : ℕ → Heap → Heap
unlink_next node h =
    if h.next node == 0 then h else record h { prev = update h.prev (h.next node) (h.prev node) }

unfoldable pub free_list_remove : ℕ → Heap → Heap
unfolding unlink_prev unlink_next
free_list_remove node h = if node == 0 then h else unlink_next node (unlink_prev node h)

unfoldable pub free_list_insert : ℕ → Heap → Heap
free_list_insert node h = record h {
  free_list = node;
  next = update h.next node h.free_list;
  prev =
      if h.free_list == 0
      then update h.prev node 0
      else update (update h.prev node 0) h.free_list node;
}

-- The loop of `kmalloc`: the first node whose block has `total` bytes.
unfoldable pub find_fit : (fuel : ℕ) → Heap → (node total : ℕ) → Option ℕ
unfolding block_total
find_fit zero h node total = none
find_fit (suc fuel) h node total =
    let rest = find_fit fuel h (h.next node) total in
    if node == 0
    then none
    else if leb total (block_total (h.size (payload_to_header node)))
    then some node
    else rest

-- A round for each byte of the heap, and one more.
abbrev pub list_fuel : Heap → ℕ
list_fuel h = suc (h.heap_end - h.heap_start)

-- Carves a free block off the end of the block at `hdr`, behind its first `total` bytes.
unfoldable pub split : (hdr total size remaining : ℕ) → Heap → Heap
unfolding set_size set_used free_list_insert
split hdr total size remaining h =
    let h1 = set_size (hdr + total) (remaining - header_size) h in
    let h2 = set_used (hdr + total) 0 h1 in
    let h3 = set_size hdr size h2 in free_list_insert (header_to_payload (hdr + total)) h3

-- What `kmalloc` does with the node that it found.
unfoldable pub take_block : (node size : ℕ) → Heap → Heap
take_block node size h =
    let hdr = payload_to_header node in
    let total = block_total size in
    let remaining = block_total (h.size hdr) - total in
    let h1 = free_list_remove node h in
    let h2 =
      if leb (block_total 0 + min_block) remaining then split hdr total size remaining h1 else h1 in
    set_used hdr 1 h2

-- The loop of `heap_stats`.
unfoldable pub free_bytes : (fuel : ℕ) → Heap → ℕ → ℕ
free_bytes zero h node = 0
free_bytes (suc fuel) h node =
    let rest = free_bytes fuel h (h.next node) in
    if node == 0 then 0 else h.size (payload_to_header node) + header_size + rest

unfoldable pub heap_stats : Heap → ℕ × ℕ
unfolding free_bytes
heap_stats h =
    if h.ready then (free_bytes (list_fuel h) h h.free_list, h.heap_end - h.heap_start) else (0, 0)
