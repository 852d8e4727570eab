-- ===== src/Heap/Chain.antt =====
-- kernel/src/heap.rs: lists of nodes that are linked both ways.
use dbsos.Common.{
  ℕ, ◌≡◌, ◌≢◌, refl, subst, ◌⊎◌, inl, inr, Bool, true, false, ◌||◌, List, [], ◌∷◌, arith, ◌==◌,
  if◌then◌else◌, Bool-cases, Array,
}

abbrev pub has : ℕ → List ℕ → Bool
has x [] = false
has x (y ∷ ys) = x == y || has x ys

abbrev pub erase : ℕ → List ℕ → List ℕ
erase x [] = []
erase x (y ∷ ys) = if x == y then ys else y ∷ erase x ys

-- From `a`, behind the node `p`, the pointers lead through the distinct nodes `ns` to null, both ways.
abbrev pub Chain : (next prev : Array ℕ) → (p a : ℕ) → List ℕ → Type 0
Chain next prev p a [] = a ≡ 0
Chain next prev p a (n ∷ ns) =
    (a ≡ n) × (n ≢ 0) × (prev n ≡ p) × (has n ns ≡ false) × Chain next prev n (next n) ns

pub has-erase : (x y : ℕ) (ns : List ℕ) → has x (erase y ns) ≡ true → has x ns ≡ true
has-erase x y [] h = h
has-erase x y (n ∷ ns) h = ground (arith, has-erase x y ns)

pub not-has-erase : (x y : ℕ) (ns : List ℕ) → has x ns ≡ false → has x (erase y ns) ≡ false
not-has-erase x y [] h = h
not-has-erase x y (n ∷ ns) h = ground (arith, not-has-erase x y ns)

module _ (next prev : Array ℕ) where
  pub Chain-nonzero : (p a x : ℕ) (ns : List ℕ) → Chain next prev p a ns → has x ns ≡ true → x ≢ 0
  Chain-nonzero p a x [] c h = cc
  Chain-nonzero p a x (n ∷ ns) c h = ground (arith, Chain-nonzero n (next n) x ns)

  pub not-has-zero : (p a : ℕ) (ns : List ℕ) → Chain next prev p a ns → has 0 ns ≡ false
  not-has-zero p a [] c = refl
  not-has-zero p a (n ∷ ns) (e, z, q, o, c) = ground (arith, not-has-zero n (next n) ns c)

  pub prev_head :
      (p a x : ℕ) (ns : List ℕ) → Chain next prev p a ns → has x ns ≡ true → x ≡ a → prev x ≡ p
  prev_head p a x [] c h e = cc
  prev_head p a x (n ∷ ns) c h e = ground arith

  -- The node before a node that is not the first is in the list.
  pub prev-has :
      (p a x : ℕ) (ns : List ℕ)
      → Chain next prev p a ns
      → has x ns ≡ true
      → x ≢ a
      → has (prev x) ns ≡ true
  prev-has p a x [] c h d = cc
  prev-has p a x (n ∷ ns) (e, z, q, out, c) h d = elim (Bool-cases (x == next n)) [
    | inl first ↦ ground (arith, prev_head n (next n) x ns c)
    | inr other ↦ ground (arith, prev-has n (next n) x ns c)
  ]

  next-has :
      (p a x : ℕ) (ns : List ℕ)
      → Chain next prev p a ns
      → has x ns ≡ true
      → (next x ≡ 0) ⊎ (has (next x) ns ≡ true)
  next-has p a x [] c h = cc
  next-has p a x (n ∷ []) c h = ground arith
  next-has p a x (n ∷ m ∷ ns) (e, z, q, out, c) h = ground (arith, next-has n (next n) x (m ∷ ns) c)

  pub Chain-frame :
      (next' prev' : Array ℕ) (p a : ℕ) (ns : List ℕ)
      → ((x : ℕ) → has x ns ≡ true → (next' x ≡ next x) × (prev' x ≡ prev x))
      → Chain next prev p a ns
      → Chain next' prev' p a ns
  Chain-frame next' prev' p a [] same c = c
  Chain-frame next' prev' p a (n ∷ ns) same (e, z, q, out, c) =
      let (s, t) = same n (ground arith) in
      let rest = Chain-frame next' prev' n (next n) ns (λ x h. same x (ground arith)) c in
      (e, z, cc (t, q), out, rw s rest)

  -- What taking `x` out does to the pointers of the other nodes.
  module _ (next' prev' : Array ℕ) (x : ℕ)
      (after : (y : ℕ) → y ≢ 0 → next' y ≡ (if y == prev x then next x else next y))
      (before : (y : ℕ) → y ≢ 0 → prev' y ≡ (if y == next x then prev x else prev y)) where
    Chain-tail :
        (p : ℕ) (ns : List ℕ)
        → prev x ≡ p
        → has p ns ≡ false
        → Chain next prev x (next x) ns
        → Chain next' prev' p (next x) ns
    Chain-tail p [] q out c = c
    Chain-tail p (m ∷ ms) q out (e, z, r, o, c) =
        let rest =
          Chain-frame next' prev' m (next m) ms
            (λ y i.
              let nz = Chain-nonzero m (next m) y ms c i in
              (ground (arith, after y nz), ground (arith, before y nz)))
            c in
        (
          e,
          z,
          ground (arith, before m z),
          o,
          subst (λ k. Chain next' prev' m k ms) (ground (arith, after m z)) rest,
        )

    pub Chain-erase :
        (p a : ℕ) (ns : List ℕ)
        → Chain next prev p a ns
        → has x ns ≡ true
        → has p ns ≡ false
        → Chain next' prev' p (if x == a then next x else a) (erase x ns)
    Chain-erase p a [] c h out = cc
    Chain-erase p a (n ∷ ns) (e, z, q, o, c) h out = elim (Bool-cases (x == n)) [
      | inl s ↦
          let at : n ≡ x = ground arith in
          let first : (x == a) ≡ true = ground arith in
          let rest : Chain next prev x (next x) ns =
            subst (λ k. Chain next prev k (next k) ns) at c in
          rw (s, first) (Chain-tail p ns (ground arith) (ground arith) rest)
      | inr s ↦
          let later : (x == a) ≡ false = ground arith in
          let rest = Chain-erase n (next n) ns c (ground arith) o in
          let link : (if x == next n then next x else next n) ≡ next' n =
            elim (Bool-cases (x == next n)) [
              | inl f ↦ ground (arith, prev_head n (next n) x ns c, after n z)
              | inr f ↦ ground (arith, prev-has n (next n) x ns c, after n z)
            ] in
          rw (s, later)
            (
              e,
              z,
              ground (arith, before n z, next-has n (next n) x ns c),
              ground (arith, has-erase n x ns),
              subst (λ k. Chain next' prev' n k (erase x ns)) link rest,
            )
    ]
