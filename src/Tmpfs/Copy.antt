-- ===== src/Tmpfs/Copy.antt =====
-- Memory as kernel/src/tmpfs.rs copies it: `copy_nonoverlapping` between a buffer and the address space.
use dbsos.Common.{
  ℕ, zero, suc, ◌+◌, ◌≤◌, ◌<◌, ◌≡◌, refl, ◌∙◌, ◌⊎◌, inl, inr, arith, length, List, [], ◌∷◌, Array,
  update, update_self, update_ne,
}

-- The `n` bytes from `addr` on.
unfoldable pub load : (n addr : ℕ) → Array ℕ → List ℕ
load zero addr memory = []
load (suc n) addr memory = memory addr ∷ load n (suc addr) memory

-- Writes the bytes from `addr` on.
unfoldable pub store : (addr : ℕ) → List ℕ → Array ℕ → Array ℕ
store addr [] memory = memory
store addr (b ∷ bs) memory = store (suc addr) bs (update memory addr b)

pub store_below :
    (addr : ℕ) (bs : List ℕ) (memory : Array ℕ) (i : ℕ)
    → i < addr
    → store addr bs memory i ≡ memory i
unfolding store
store_below addr [] memory i h = refl
store_below addr (b ∷ bs) memory i h =
    store_below (suc addr) bs (update memory addr b) i (omega arith)
    ∙ update_ne memory addr i b (λ e. omega arith)

pub store_behind :
    (addr : ℕ) (bs : List ℕ) (memory : Array ℕ) (i : ℕ)
    → addr + length bs ≤ i
    → store addr bs memory i ≡ memory i
unfolding store
store_behind addr [] memory i h = refl
store_behind addr (b ∷ bs) memory i h =
    store_behind (suc addr) bs (update memory addr b) i (omega arith)
    ∙ update_ne memory addr i b (λ e. omega arith)

-- Memory that agrees on a range loads alike.
pub load_congr :
    (n addr : ℕ) (m m' : Array ℕ)
    → ((i : ℕ) → addr ≤ i → i < addr + n → m i ≡ m' i)
    → load n addr m ≡ load n addr m'
unfolding load
load_congr zero addr m m' h = refl
load_congr (suc n) addr m m' h = cc (
  h addr (omega arith) (omega arith),
  load_congr n (suc addr) m m' (λ i a b. h i (omega arith) (omega arith)),
)

-- What was stored is loaded.
pub load-store :
    (addr : ℕ) (bs : List ℕ) (memory : Array ℕ) → load (length bs) addr (store addr bs memory) ≡ bs
unfolding load store
load-store addr [] memory = refl
load-store addr (b ∷ bs) memory = cc (
  load-store (suc addr) bs (update memory addr b),
  store_below (suc addr) bs (update memory addr b) addr (omega arith),
  update_self memory addr b,
)

-- A store to a range leaves a range beside it as it is.
pub load-store_apart :
    (n a addr : ℕ) (bs : List ℕ) (memory : Array ℕ)
    → (a + n ≤ addr) ⊎ (addr + length bs ≤ a)
    → load n a (store addr bs memory) ≡ load n a memory
load-store_apart n a addr bs memory (inl h) =
    load_congr n a _ memory (λ i l u. store_below addr bs memory i (omega arith))
load-store_apart n a addr bs memory (inr h) =
    load_congr n a _ memory (λ i l u. store_behind addr bs memory i (omega arith))
