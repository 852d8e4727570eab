-- ===== src/Memory/Runs.antt =====
-- kernel/src/memory.rs, palloc_n: which run of pages it finds. The loop's counter goes on from the hint
-- for as many rounds as there are pages, and wraps round to page 0 at the end of the region.
use dbsos.Common.{
  Array, Option-cases, ℕ, ◌+◌, ◌-◌, ◌*◌, ◌≤◌, ◌<◌, ◌≡◌, refl, ap, ◌∙◌, ◌≢◌, ◌⊎◌, inl, inr, true,
  false, ◌&&◌, ◌||◌, some, arith, ◌==◌, ltb, leb, if◌then◌else◌, Bool-cases, Option-cases, Array,
  zero, suc, count_from, count_from_change,
}
use dbsos.Memory.Bits.{bit_test, bit_set, IsBytes, bit_set-IsBytes, bit_test-bit_set}
use dbsos.Memory.Invariant.{Inv, page_addr-eq}
use dbsos.Memory.{
  PhysAllocator, page_size, is_free, page_addr, page_at, scan_run, palloc_n, mark_run,
}

-- `if run_len == 0 { run_start = idx; }`
unfoldable pub run_start : PhysAllocator → (i start len : ℕ) → ℕ
run_start a i start len = if len == 0 then page_at a i else start

-- The loop's invariant: the last `len` counters before `i` were at free pages, from `start` on.
record Run (a : PhysAllocator) (n i start len : ℕ) : Type 0 where
  short : len < n
  back : len ≤ i
  origin : len ≢ 0 → start ≡ page_at a (i - len)
  clear : (j : ℕ) → j < len → is_free a (page_at a (i - len + j)) ≡ true

module _ (a : PhysAllocator) (n : ℕ) where
  -- Counting the page at `i` in, all pages of the run are free.
  Run-at :
      (i start len : ℕ)
      → Run a n i start len
      → is_free a (page_at a i) ≡ true
      → (j : ℕ) → j < len + 1
      → is_free a (page_at a (i - len + j)) ≡ true
  Run-at i start len r t j l = elim (Bool-cases (j == len)) [
    | inl z ↦ let here : i - len + j ≡ i = ground (arith, r.back) in rw here t
    | inr z ↦ r.clear j (ground arith)
  ]

  Run-next :
      (i start len : ℕ)
      → Run a n i start len
      → is_free a (page_at a i) ≡ true
      → len + 1 < n
      → Run a n (i + 1) (run_start a i start len) (len + 1)
  unfolding run_start
  Run-next i start len r t h = record {
    short = h;
    back = omega (arith, r.back);
    origin = λ _.
        let same : i + 1 - (len + 1) ≡ i - len = omega arith in
        rw same (elim (Bool-cases (len == 0)) [
          | inl z ↦ rw z (ap (page_at a) (ground arith))
          | inr z ↦ rw z (r.origin (ground arith))
        ]);
    clear = λ j l.
        let same : i + 1 - (len + 1) ≡ i - len = omega arith in
        rw same (Run-at i start len r t j l);
  }

  pub page_at-lt : (i : ℕ) → i < a.total_pages + a.total_pages → page_at a i < a.total_pages
  unfolding page_at
  page_at-lt i h = ground arith

  Run-reset : (i start : ℕ) → 0 < n → Run a n i start 0
  Run-reset i start h = record {
    short = h;
    back = omega arith;
    origin = λ z. absurd (z refl);
    clear = λ j l. absurd (omega arith);
  }

  module _ (k i start len : ℕ) where
    pub scan_run-full :
        is_free a (page_at a i) ≡ true
        → leb n (len + 1) ≡ true
        → scan_run a n (suc k) i start len ≡ some (run_start a i start len)
    unfolding scan_run run_start
    scan_run-full t f = rw t (rw f refl)

    pub scan_run-more :
        is_free a (page_at a i) ≡ true
        → leb n (len + 1) ≡ false
        → scan_run a n (suc k) i start len
          ≡ scan_run a n k (i + 1) (run_start a i start len) (len + 1)
    unfolding scan_run run_start
    scan_run-more t f = rw t (rw f refl)

    scan_run-used :
        is_free a (page_at a i) ≡ false
        → scan_run a n (suc k) i start len ≡ scan_run a n k (i + 1) start 0
    unfolding scan_run
    scan_run-used t = rw t refl

  run_start-page_at :
      (i start len : ℕ) → Run a n i start len → run_start a i start len ≡ page_at a (i - len)
  unfolding run_start
  run_start-page_at i start len r = elim (Bool-cases (len == 0)) [
    | inl z ↦ rw z (ap (page_at a) (ground arith))
    | inr z ↦ rw z (r.origin (ground arith))
  ]

  scan_run-eq-some :
      (k i start len : ℕ) {s : ℕ}
      → Run a n i start len
      → scan_run a n k i start len ≡ some s
      → (c : ℕ) × (i ≤ c + len)
        × (c + n ≤ i + k)
        × (s ≡ page_at a c)
        × ((j : ℕ) → j < n → is_free a (page_at a (c + j)) ≡ true)
  unfolding scan_run run_start
  scan_run-eq-some zero i start len r e = absurd (cc e)
  scan_run-eq-some (suc k) i start len {s} r e = elim (Bool-cases (is_free a (page_at a i))) [
    | inl t ↦ elim (Bool-cases (leb n (len + 1))) [
      | inl full ↦ (
        i - len,
        omega (arith, r.back),
        ground (arith, r.back, r.short),
        (let got : s ≡ run_start a i start len = cc (scan_run-full k i start len t full, e) in
            got ∙ run_start-page_at i start len r),
        λ j l. Run-at i start len r t j (ground arith),
      )
      | inr more ↦
          let (c, p, q, w, z) =
            scan_run-eq-some k (i + 1) (run_start a i start len) (len + 1)
              (Run-next i start len r t (ground arith))
              (rw (scan_run-more k i start len t more) at e) in
          (c, omega arith, omega arith, w, z)
    ]
    | inr used ↦
        let (c, p, q, w, z) =
          scan_run-eq-some k (i + 1) start 0 (Run-reset (i + 1) start (omega (arith, r.short)))
            (rw (scan_run-used k i start len used) at e) in
        (c, omega arith, omega arith, w, z)
  ]

-- The pages of a run that ends inside the region stand in one piece.
page_at_run :
    (a : PhysAllocator) (s c n j : ℕ)
    → s ≡ page_at a c
    → s + n ≤ a.total_pages
    → s ≤ j
    → j < s + n
    → page_at a (c + (j - s)) ≡ j
unfolding page_at
page_at_run a s c n j w h p q = ground arith

-- What `mark_run` writes: the `n` bits from `start` on.
pub mark_run-bits :
    (n start : ℕ) (bitmap : Array ℕ)
    → IsBytes bitmap
    → IsBytes (mark_run n start bitmap)
      × ((j : ℕ)
          → bit_test (mark_run n start bitmap) j
            ≡ (if leb start j && ltb j (start + n) then 1 else bit_test bitmap j))
unfolding mark_run
mark_run-bits zero start bitmap h = (h, λ j. ground arith)
mark_run-bits (suc n) start bitmap h =
    let (b, w) =
      mark_run-bits n (suc start) (bit_set bitmap start 1) (bit_set-IsBytes bitmap h start) in
    (b, λ j. ground (arith, w j, bit_test-bit_set bitmap h start j))

-- Marking a run of clear bits below `total` lowers the count of clear bits by the run's length.
mark_run-count :
    (total n start : ℕ) (bitmap : Array ℕ)
    → IsBytes bitmap
    → start + n ≤ total
    → ((j : ℕ) → start ≤ j → j < start + n → bit_test bitmap j ≡ 0)
    → count_from total 0 (λ i. bit_test (mark_run n start bitmap) i == 0) + n
      ≡ count_from total 0 (λ i. bit_test bitmap i == 0)
unfolding mark_run
mark_run-count total zero start bitmap h l z = omega arith
mark_run-count total (suc n) start bitmap h l z =
    let marked = bit_set bitmap start 1 in
    let bits = bit_test-bit_set bitmap h start in
    let rest =
      mark_run-count total n (suc start) marked (bit_set-IsBytes bitmap h start) (omega arith)
        (λ j p q. ground (arith, bits j, z j (omega arith) (omega arith))) in
    let one =
      count_from_change total 0 start (λ i. bit_test bitmap i == 0) (λ i. bit_test marked i == 0)
        (omega arith) (omega arith) (λ m d. ground (arith, bits m)) in
    ground (arith, rest, one, bits start, z start (omega arith) (omega arith))

module _ (n : ℕ) (a : PhysAllocator) (v : Inv a) (some_pages : 0 < n) where
  marked : ℕ → PhysAllocator
  marked s = record a {
    bitmap = mark_run n s a.bitmap;
    free_pages = a.free_pages - n;
    first_page = s + n;
  }

  -- `palloc_n` fails and changes nothing, or marks the `n` bits from a page `s` on, where the pages from
  -- `s` on, counted round the end of the region, are all free.
  palloc_n_cases :
      (palloc_n n a ≡ (a, 0))
      ⊎ ((s : ℕ) × (c : ℕ) × (s < a.total_pages)
          × (palloc_n n a ≡ (marked s, page_addr a s))
          × (s ≡ page_at a c)
          × ((j : ℕ) → j < n → is_free a (page_at a (c + j)) ≡ true))
  unfolding palloc_n marked
  palloc_n_cases = elim (Bool-cases (ltb a.free_pages n || a.bitmap_addr == 0)) [
    | inl few ↦ inl (rw few)
    | inr enough ↦ elim (Option-cases (scan_run a n a.total_pages a.first_page a.first_page 0)) [
      | inl e ↦ inl (rw (enough) (rw e))
      | inr (s, e) ↦
          let (c, p, q, w, z) =
            scan_run-eq-some a n a.total_pages a.first_page a.first_page 0
              (Run-reset a n a.first_page a.first_page some_pages) e in
          inr (s, c, rw w (page_at-lt a n c (omega (arith, v.hint))), rw enough (rw e), w, z)
    ]
  ]

-- A run that `palloc_n` returns, if it ends inside the region, is the caller's own: its pages were all
-- free, exactly they are marked used, the address is theirs, and the invariant holds, the counter
-- included.
pub palloc_n_takes :
    (n : ℕ) (a : PhysAllocator)
    → Inv a
    → 0 < n
    → (palloc_n n a).1 ≢ 0
    → (palloc_n n a).1 + n * page_size ≤ a.phys_start + a.total_pages * page_size
    → (s : ℕ) × ((palloc_n n a).1 ≡ a.phys_start + s * page_size)
      × ((j : ℕ) → s ≤ j → j < s + n → is_free a j ≡ true)
      × ((j : ℕ)
          → is_free (palloc_n n a).0 j ≡ (if leb s j && ltb j (s + n) then false else is_free a j))
      × ((palloc_n n a).0.free_pages + n ≡ a.free_pages)
      × Inv (palloc_n n a).0
unfolding marked
palloc_n_takes n a v h got fits = elim (palloc_n_cases n a v h) [
  | inl e ↦ absurd (got (rw e))
  | inr (s, c, l, e, w, z) ↦
      let addr = page_addr-eq a v s l in
      let inside : s + n ≤ a.total_pages = omega (arith, rw (e, addr) at fits) in
      let free : (j : ℕ) → s ≤ j → j < s + n → is_free a j ≡ true =
        λ j p q. rw (page_at_run a s c n j w inside p q) at (z (j - s) (omega arith)) in
      let (bytes, bits) = mark_run-bits n s a.bitmap v.bytes in
      let fewer =
        mark_run-count a.total_pages n s a.bitmap v.bytes inside
          (λ j p q. ground (arith, free j p q)) in
      (
        s,
        rw e addr,
        free,
        (λ j. rw e (ground (arith, bits j))),
        rw e (omega (arith, fewer, v.counted)),
        rw e (record {
          bytes = bytes;
          counted = omega (arith, fewer, v.counted);
          hint = inside;
          mapped = v.mapped;
          based = v.based;
          bounded = v.bounded;
        }),
      )
]
