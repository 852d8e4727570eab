-- ===== src/Memory/Calls.antt =====
-- kernel/src/memory.rs: sequences of allocations and releases of single pages.
use dbsos.Common.{ℕ, zero, suc, List, [], ◌∷◌}
use dbsos.Memory.{PhysAllocator, palloc, pfree, pfree_n}
use dbsos.Memory.Invariant.{Inv, palloc-Inv, pfree-Inv}

pub data Call : Type 0 where
  takes : Call
  gives : (phys : ℕ) → Call
  gives_run : (n phys : ℕ) → Call

unfoldable pub run_memory : List Call → PhysAllocator → PhysAllocator
run_memory [] a = a
run_memory (takes ∷ cs) a = run_memory cs (palloc a).0
run_memory (gives phys ∷ cs) a = run_memory cs (pfree phys a)
run_memory (gives_run n phys ∷ cs) a = run_memory cs (pfree_n n phys a)

pfree_n-Inv : (n phys : ℕ) (a : PhysAllocator) → Inv a → Inv (pfree_n n phys a)
unfolding pfree_n
pfree_n-Inv zero phys a v = v
pfree_n-Inv (suc n) phys a v = pfree_n-Inv n _ _ (pfree-Inv a v phys)

-- Every sequence of palloc, and of pfree and pfree_n with any addresses, keeps the allocator's invariant: the counter
-- is the number of free pages, the hint lies inside the region, and the bitmap is well formed.
pub run_memory-Inv : (cs : List Call) (a : PhysAllocator) → Inv a → Inv (run_memory cs a)
unfolding run_memory
run_memory-Inv [] a v = v
run_memory-Inv (takes ∷ cs) a v = run_memory-Inv cs _ (palloc-Inv a v)
run_memory-Inv (gives phys ∷ cs) a v = run_memory-Inv cs _ (pfree-Inv a v phys)
run_memory-Inv (gives_run n phys ∷ cs) a v = run_memory-Inv cs _ (pfree_n-Inv n phys a v)
