-- ===== src/Heap/FirstFit.antt =====
-- kernel/src/heap.rs: kmalloc on the list of free blocks.
use dbsos.Common.{ℕ, ◌+◌, ◌-◌, leb, if◌then◌else◌, List, ◌∷◌}
use dbsos.Heap.{Heap, min_block, block_total, payload_to_header}
use dbsos.Heap.Chain.{erase}

-- The free list after kmalloc took `node`: the rest, if there is one, is in front.
abbrev pub left_over : (node size : ℕ) → Heap → List ℕ → List ℕ
left_over node size h ns =
    if leb (block_total 0 + min_block)
      (block_total (h.size (payload_to_header node)) - block_total size)
    then (node + block_total size) ∷ erase node ns
    else erase node ns
