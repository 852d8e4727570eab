-- ===== src/Heap/Search.antt =====
-- kernel/src/heap.rs: the loops over the free list, of kmalloc and heap_stats.
use dbsos.Common.{
  ℕ, zero, suc, ◌+◌, ◌<◌, ◌≡◌, Bool, Option, none, some, List, [], ◌∷◌, length, arith, leb,
  if◌then◌else◌,
}
use dbsos.Heap.{Heap, header_size, payload_to_header, block_total, find_fit, free_bytes}
use dbsos.Heap.Chain.{Chain}

unfoldable pub fits : Heap → (total node : ℕ) → Bool
fits h total node = leb total (block_total (h.size (payload_to_header node)))

-- The first node of the list whose block has the size.
unfoldable pub first_fit : Heap → ℕ → List ℕ → Option ℕ
unfolding fits
first_fit h total [] = none
first_fit h total (n ∷ ns) =
    let rest = first_fit h total ns in if fits h total n then some n else rest

unfoldable pub list_bytes : Heap → List ℕ → ℕ
list_bytes h [] = 0
list_bytes h (n ∷ ns) = h.size (payload_to_header n) + header_size + list_bytes h ns

module _ (h : Heap) where
  -- On a list that is linked both ways, with a round for each node and one more, the loop of `kmalloc` ends: at the first
  -- node whose block has the size, or, where there is none, at the end of the list.
  pub find_fit-first_fit :
      (total fuel p a : ℕ) (ns : List ℕ)
      → Chain h.next h.prev p a ns
      → length ns < fuel
      → find_fit fuel h a total ≡ first_fit h total ns
  unfolding find_fit first_fit fits
  find_fit-first_fit total zero p a ns c l = absurd (omega arith)
  find_fit-first_fit total (suc fuel) p a [] c l = ground arith
  find_fit-first_fit total (suc fuel) p a (n ∷ ns) (e, z, q, o, c) l =
      ground (arith, find_fit-first_fit total fuel n (h.next n) ns c)

  pub free_bytes-list_bytes :
      (fuel p a : ℕ) (ns : List ℕ)
      → Chain h.next h.prev p a ns
      → length ns < fuel
      → free_bytes fuel h a ≡ list_bytes h ns
  unfolding free_bytes list_bytes
  free_bytes-list_bytes zero p a ns c l = absurd (omega arith)
  free_bytes-list_bytes (suc fuel) p a [] c l = ground arith
  free_bytes-list_bytes (suc fuel) p a (n ∷ ns) (e, z, q, o, c) l =
      ground (arith, free_bytes-list_bytes fuel n (h.next n) ns c)
