-- ===== src/Samples/Pages.antt =====
-- The theorems about kernel/src/memory.rs at concrete inputs: a region of nine pages, one of which
-- holds the bitmap.
use dbsos.Common.{
  count_from, count_from_full, [], ◌∷◌, ℕ, ◌+◌, ◌*◌, ◌≤◌, ◌<◌, ◌≡◌, refl, ◌≢◌, ◌⊎◌, true, false,
  ◌&&◌, arith, ◌==◌, ltb, leb, if◌then◌else◌, find_from, update, Array,
}
use dbsos.Memory.Bits.{IsBytes}
use dbsos.Memory.Bits
use dbsos.Memory.Calls.{takes, gives, gives_run, run_memory, run_memory-Inv}
use dbsos.Memory.Invariant.{Inv, palloc_takes, palloc-Inv, pfree-Inv}
use dbsos.Memory.Pages.{lay_out-Inv}
use dbsos.Memory.Runs.{palloc_n_takes}
use dbsos.Memory.Overrun.{palloc_n_overruns}
use dbsos.Memory
use dbsos.Memory.{
  PhysAllocator, Region, page_size, u64_mod, is_free, page_addr, palloc, palloc_n, pfree, pressure,
  lay_out, bitmap_bytes, bitmap_pages, init, largest,
}

-- What the calls below compute with.
calls : Unit {0}
unfolding palloc palloc_n pfree pressure lay_out init largest Memory.find_page Memory.page_at
    Memory.scan_run Memory.mark_run Bits.bit_test Bits.bit_set Bits.set_byte find_from update
calls = tt

abbrev cleared : Array ℕ
cleared i = 0

abbrev nine : PhysAllocator
nine = lay_out 8192 9 cleared

init_result :
    init
      (record { conventional = true; region_start = 8192; page_count = 9 }
        ∷ record { conventional = false; region_start = 65536; page_count = 20 }
        ∷ [])
      cleared
      Memory.no_memory
    ≡ nine
unfolding calls
init_result = refl

nine-Inv : Inv nine
nine-Inv =
    (lay_out-Inv cleared 8192 9 (omega arith) (omega arith) (omega arith) (λ i. omega arith)).0

palloc_result : (palloc nine).1 ≡ 12288
unfolding calls
palloc_result = refl

nine_taken-Inv : Inv (palloc nine).0
nine_taken-Inv = palloc-Inv nine nine-Inv

palloc_takes_example :
    ((nine.free_pages ≡ 0) × (palloc nine ≡ (nine, 0)))
    ⊎ ((i : ℕ) × (i < nine.total_pages)
        × (is_free nine i ≡ true)
        × ((j : ℕ) → is_free (palloc nine).0 j ≡ (if i == j then false else is_free nine j))
        × ((palloc nine).1 ≡ nine.phys_start + i * page_size)
        × ((palloc nine).1 ≢ 0)
        × ((palloc nine).0.free_pages + 1 ≡ nine.free_pages))
palloc_takes_example = palloc_takes nine nine-Inv

run_memory-Inv_example : Inv (run_memory (takes ∷ gives 12300 ∷ gives_run 2 8192 ∷ []) nine)
run_memory-Inv_example = run_memory-Inv (takes ∷ gives 12300 ∷ gives_run 2 8192 ∷ []) nine nine-Inv

palloc_second : (palloc (palloc nine).0).1 ≡ 16384
unfolding calls
palloc_second = refl

-- Two pages are allocated, the first is freed again, and a run of two is allocated behind them.
abbrev holed : PhysAllocator
holed = pfree 12288 (palloc (palloc nine).0).0

holed-Inv : Inv holed
holed-Inv = pfree-Inv _ (palloc-Inv _ nine_taken-Inv) 12288

abbrev run_of_two : PhysAllocator
run_of_two = (palloc_n 2 holed).0

palloc_n_result : (palloc_n 2 holed).1 ≡ 20480
unfolding calls
palloc_n_result = refl

holed_facts : (holed.phys_start ≡ 12288) × (holed.total_pages ≡ 8)
unfolding calls
holed_facts = (refl, refl)

palloc_n_takes_example :
    (s : ℕ) × ((palloc_n 2 holed).1 ≡ holed.phys_start + s * page_size)
    × ((j : ℕ) → s ≤ j → j < s + 2 → is_free holed j ≡ true)
    × ((j : ℕ)
        → is_free (palloc_n 2 holed).0 j
          ≡ (if leb s j && ltb j (s + 2) then false else is_free holed j))
    × ((palloc_n 2 holed).0.free_pages + 2 ≡ holed.free_pages)
    × Inv (palloc_n 2 holed).0
palloc_n_takes_example =
    palloc_n_takes 2 holed holed-Inv (omega arith) (omega (arith, palloc_n_result))
      (omega (arith, palloc_n_result, holed_facts))

run_facts : (run_of_two.first_page ≡ 4) × (run_of_two.total_pages ≡ 8) × (run_of_two.free_pages ≡ 5)
unfolding calls
run_facts = (refl, refl, refl)

high_pages : count_from 4 4 (is_free run_of_two) ≡ 4
unfolding calls count_from
high_pages = refl

low_pages : count_from 1 0 (is_free run_of_two) ≡ 1
unfolding calls count_from
low_pages = refl

-- Page 0 and the pages from 4 to 7 are free, and a request for five crosses the end.
palloc_n_overruns_example :
    ((palloc_n 5 run_of_two).1 ≡ run_of_two.phys_start + run_of_two.first_page * page_size)
    × (run_of_two.phys_start + run_of_two.total_pages * page_size
        < (palloc_n 5 run_of_two).1 + 5 * page_size)
    × (is_free (palloc_n 5 run_of_two).0 run_of_two.total_pages ≡ false)
palloc_n_overruns_example =
    palloc_n_overruns 5 run_of_two palloc_n_takes_example.5 (omega (arith, run_facts))
      (omega (arith, run_facts)) (omega (arith, run_facts)) (omega (arith, run_facts))
      (λ j p q.
        count_from_full 4 4 (is_free run_of_two) j high_pages (omega (arith, run_facts))
          (omega (arith, run_facts)))
      (λ j p.
        count_from_full 1 0 (is_free run_of_two) j low_pages (omega arith)
          (omega (arith, run_facts)))
