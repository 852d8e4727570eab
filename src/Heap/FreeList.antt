-- ===== src/Heap/FreeList.antt =====
-- kernel/src/heap.rs: free_list_insert and free_list_remove on the doubly linked list.
use dbsos.Common.{
  ℕ, ◌≡◌, ◌≢◌, refl, subst, inl, inr, true, false, List, [], ◌∷◌, arith, ◌==◌, if◌then◌else◌,
  Bool-cases, update, update_self,
}
use dbsos.Heap.Chain.{
  has, erase, Chain, Chain-frame, Chain-erase, Chain-nonzero, not-has-zero, prev_head, prev-has,
}
use dbsos.Heap.{Heap, free_list_insert, free_list_remove, unlink_prev, unlink_next}

-- The nodes of the free list, from its head on.
abbrev pub Linked : Heap → List ℕ → Type 0
Linked h ns = Chain h.next h.prev 0 h.free_list ns

-- The list operations leave the headers and the bounds as they were.
abbrev pub SameBlocks : Heap → Heap → Type 0
SameBlocks g h =
    (g.size ≡ h.size)
    × (g.used ≡ h.used)
    × (g.heap_start ≡ h.heap_start)
    × (g.heap_end ≡ h.heap_end)
    × (g.ready ≡ h.ready)

pub insert-SameBlocks : (node : ℕ) (h : Heap) → SameBlocks (free_list_insert node h) h
unfolding free_list_insert
insert-SameBlocks node h = (refl, refl, refl, refl, refl)

unlink_prev-SameBlocks : (node : ℕ) (h : Heap) → SameBlocks (unlink_prev node h) h
unfolding unlink_prev
unlink_prev-SameBlocks node h = elim (Bool-cases (h.prev node == 0)) [
  | inl e ↦ rw e (refl, refl, refl, refl, refl)
  | inr e ↦ rw e (refl, refl, refl, refl, refl)
]

unlink_next-SameBlocks : (node : ℕ) (h : Heap) → SameBlocks (unlink_next node h) h
unfolding unlink_next
unlink_next-SameBlocks node h = elim (Bool-cases (h.next node == 0)) [
  | inl e ↦ rw e (refl, refl, refl, refl, refl)
  | inr e ↦ rw e (refl, refl, refl, refl, refl)
]

pub remove-SameBlocks : (node : ℕ) (h : Heap) → SameBlocks (free_list_remove node h) h
unfolding free_list_remove
remove-SameBlocks node h =
    ground (arith, unlink_next-SameBlocks node (unlink_prev node h), unlink_prev-SameBlocks node h)

-- `free_list_insert` puts a node that is not in the list in front of it.
pub free_list_insert-cons :
    (h : Heap) (node : ℕ) (ns : List ℕ)
    → Linked h ns
    → node ≢ 0
    → has node ns ≡ false
    → Linked (free_list_insert node h) (node ∷ ns)
unfolding free_list_insert update
free_list_insert-cons h node [] c z out =
    (refl, z, ground arith, out, ground (arith, update_self h.next node h.free_list))
free_list_insert-cons h node (m ∷ ms) (e, nz, q, o, c) z out =
    let some_list : (h.free_list == 0) ≡ false = ground arith in
    let behind = Chain-nonzero h.next h.prev m (h.next m) in
    let g = free_list_insert node h in
    let rest : Chain g.next g.prev m (h.next m) ms =
      Chain-frame h.next h.prev g.next g.prev m (h.next m) ms (λ x i. (ground arith, ground arith))
        c in
    let first : g.next node ≡ m = ground arith in
    let back : g.prev m ≡ node = ground arith in
    let kept : g.next m ≡ h.next m = ground arith in
    (refl, z, ground arith, out, (first, nz, back, o, rw kept rest))

module _ (h : Heap) (node : ℕ) (z : node ≢ 0) where
  remove_next :
      (y : ℕ)
      → y ≢ 0
      → (free_list_remove node h).next y ≡ (if y == h.prev node then h.next node else h.next y)
  unfolding free_list_remove unlink_prev unlink_next update
  remove_next y nz = ground arith

  remove_prev :
      (y : ℕ)
      → y ≢ 0
      → (free_list_remove node h).prev y ≡ (if y == h.next node then h.prev node else h.prev y)
  unfolding free_list_remove unlink_prev unlink_next update
  remove_prev y nz = ground arith

  remove_head :
      (free_list_remove node h).free_list ≡ (if h.prev node == 0 then h.next node else h.free_list)
  unfolding free_list_remove unlink_prev unlink_next
  remove_head = ground arith

-- On a list of distinct nodes that is linked both ways, `free_list_remove` of one of them leaves the
-- list of the others, in their order and linked both ways.
pub free_list_remove-erase :
    (h : Heap) (node : ℕ) (ns : List ℕ)
    → Linked h ns
    → has node ns ≡ true
    → Linked (free_list_remove node h) (erase node ns)
free_list_remove-erase h node ns c i =
    let g = free_list_remove node h in
    let z = Chain-nonzero h.next h.prev 0 h.free_list node ns c i in
    let head : (if node == h.free_list then h.next node else h.free_list) ≡ g.free_list =
      elim (Bool-cases (node == h.free_list)) [
        | inl f ↦
            ground (arith, prev_head h.next h.prev 0 h.free_list node ns c, remove_head h node z)
        | inr f ↦
            let back = prev-has h.next h.prev 0 h.free_list node ns c i (ground arith) in
            ground (
              arith,
              Chain-nonzero h.next h.prev 0 h.free_list (h.prev node) ns c back,
              remove_head h node z,
            )
      ] in
    subst (λ k. Chain g.next g.prev 0 k (erase node ns)) head
      (Chain-erase h.next h.prev g.next g.prev node (remove_next h node z) (remove_prev h node z) 0
        h.free_list ns c i (not-has-zero h.next h.prev 0 h.free_list ns c))
