-- ===== src/Tmpfs/Calls.antt =====
-- kernel/src/tmpfs.rs: sequences of calls, and the invariant that all of them keep.
use dbsos.Common.{
  update-update, ℕ, ◌<◌, ◌≡◌, refl, inl, inr, false, not, some, arith, ◌==◌, ltb, Bool-cases,
  Option-cases, length, List, [], ◌∷◌, update_self, find_from-eq-some, bit_and,
}
use dbsos.Tmpfs.{
  Tmpfs, find, free_slot, free_handle, set_file, empty, tmp_open, open_existing, truncate, create,
  new_file, tmp_close, tmp_write, is_named,
}
use dbsos.Tmpfs.Path.{norm}
use dbsos.Tmpfs.Dir.{tmp_unlink}
use dbsos.Tmpfs.Invariant.{
  Inv, IsOpen, set_handle-Inv, resize-Inv, fill-Inv, clear-Inv, tmp_close-Inv, tmp_write-Inv,
  remove-Inv,
}

module _ (fs : Tmpfs) (inv : Inv fs) where
  create-Inv :
      (name : List ℕ) (buffer slot : ℕ)
      → slot < 32
      → (fs.files slot).in_use ≡ false
      → Inv (create name buffer slot fs).0
  unfolding create
  create-Inv name buffer slot a b = elim (Bool-cases (buffer == 0)) [
    | inl z ↦ rw (z, create) inv
    | inr z ↦
        elim (Option-cases
          (free_handle (set_file slot (new_file name buffer (fs.files slot)) fs))) [
            | inl e ↦
                rw (z, create)
                  (rw e (
                    rw (update-update fs.files slot (new_file name buffer (fs.files slot)) empty)
                      (clear-Inv fs inv slot a b)))
            | inr (h, e) ↦
                rw (z, create)
                  (rw e (
                    set_handle-Inv _
                      (fill-Inv fs inv slot (new_file name buffer (fs.files slot)) a b
                        (λ u. (omega arith, λ q. ground arith)) refl)
                      h (some slot)
                      (
                        a,
                        rw (update_self fs.files slot (new_file name buffer (fs.files slot))) refl,
                      )))
          ]
  ]

  truncate-Inv :
      (flags idx : ℕ)
      → IsOpen fs.files (some idx)
      → (Inv (truncate flags idx fs)) × (IsOpen (truncate flags idx fs).files (some idx))
  truncate-Inv flags idx (a, b) = elim (Bool-cases (bit_and flags 0x200 == 0)) [
    | inl e ↦ rw e (inv, (a, b))
    | inr e ↦ rw e (
      resize-Inv fs inv idx 0 fs.memory a b (omega arith),
      (a, rw (update_self fs.files idx (record (fs.files idx) { size = 0 })) b),
    )
  ]

  open_existing-Inv :
      (flags idx : ℕ) → IsOpen fs.files (some idx) → Inv (open_existing flags idx fs).0
  unfolding open_existing
  open_existing-Inv flags idx a = elim (Option-cases (free_handle (truncate flags idx fs))) [
    | inl e ↦ rw (e, open_existing) (truncate-Inv flags idx a).0
    | inr (h, e) ↦
        let (kept, still) = truncate-Inv flags idx a in
        rw (e, open_existing) (set_handle-Inv (truncate flags idx fs) kept h (some idx) still)
  ]

  find_lem : (name : List ℕ) (idx : ℕ) → find name fs ≡ some idx → IsOpen fs.files (some idx)
  unfolding find
  find_lem [] idx e = cc
  find_lem (x ∷ xs) idx e =
      let (a, b, c) = find_from-eq-some (λ i. is_named (x ∷ xs) (fs.files i)) 32 0 {j = idx} e in
      (b, ground arith)

  free_slot_lem :
      (slot : ℕ) → free_slot fs ≡ some slot → (slot < 32) × ((fs.files slot).in_use ≡ false)
  unfolding free_slot
  free_slot_lem slot e =
      let (a, b, c) = find_from-eq-some (λ i. not (fs.files i).in_use) 32 0 {j = slot} e in
      (b, ground arith)

  pub tmp_open-Inv : (path : List ℕ) (flags buffer : ℕ) → Inv (tmp_open path flags buffer fs).0
  unfolding tmp_open
  tmp_open-Inv path flags buffer = elim (Bool-cases (length (norm path) == 0)) [
    | inl z ↦ rw (z, tmp_open) inv
    | inr z ↦ elim (Bool-cases (ltb 32 (length (norm path)))) [
      | inl l ↦ rw (z, tmp_open) (rw l inv)
      | inr l ↦ elim (Option-cases (find (norm path) fs)) [
        | inr (idx, e) ↦
            rw (z, tmp_open)
              (rw l (rw e (open_existing-Inv flags idx (find_lem (norm path) idx e))))
        | inl e ↦ elim (Bool-cases (bit_and flags 0x100 == 0)) [
          | inl c ↦ rw (z, tmp_open) (rw l (rw e (rw c inv)))
          | inr c ↦ elim (Option-cases (free_slot fs)) [
            | inl f ↦ rw (z, tmp_open) (rw l (rw e (rw c (rw f inv))))
            | inr (slot, f) ↦
                let (a, b) = free_slot_lem slot f in
                rw (z, tmp_open)
                  (rw l (rw e (rw c (rw f (create-Inv (norm path) buffer slot a b)))))
          ]
        ]
      ]
    ]
  ]

  pub tmp_unlink-Inv : (path : List ℕ) → Inv (tmp_unlink path fs).0
  unfolding tmp_unlink
  tmp_unlink-Inv path = elim (Option-cases (find (norm path) fs)) [
    | inl e ↦ rw (e, tmp_unlink) inv
    | inr (idx, e) ↦ rw (e, tmp_unlink) (remove-Inv fs inv idx (find_lem (norm path) idx e))
  ]

-- A call of the file system.
pub data Call : Type 0 where
  opens : (path : List ℕ) (flags buffer : ℕ) → Call
  closes : (handle : ℕ) → Call
  writes : (handle : ℕ) → List ℕ → (offset : ℕ) → Call
  unlinks : List ℕ → Call

unfoldable pub run_call : Call → Tmpfs → Tmpfs
run_call (opens path flags buffer) fs = (tmp_open path flags buffer fs).0
run_call (closes handle) fs = tmp_close handle fs
run_call (writes handle buf offset) fs = (tmp_write handle buf offset fs).0
run_call (unlinks path) fs = (tmp_unlink path fs).0

unfoldable pub run_calls : List Call → Tmpfs → Tmpfs
unfolding run_call
run_calls [] fs = fs
run_calls (c ∷ cs) fs = run_calls cs (run_call c fs)

run_call-Inv : (c : Call) (fs : Tmpfs) → Inv fs → Inv (run_call c fs)
unfolding run_call
run_call-Inv (opens path flags buffer) fs inv = tmp_open-Inv fs inv path flags buffer
run_call-Inv (closes handle) fs inv = tmp_close-Inv fs inv handle
run_call-Inv (writes handle buf offset) fs inv = tmp_write-Inv fs inv handle buf offset
run_call-Inv (unlinks path) fs inv = tmp_unlink-Inv fs inv path

-- Every sequence of open, close, write and unlink keeps the files within their buffers, the open handles on files in use,
-- and the number of buffers held equal to the number of files in use.
pub run_calls-Inv : (cs : List Call) (fs : Tmpfs) → Inv fs → Inv (run_calls cs fs)
unfolding run_calls
run_calls-Inv [] fs inv = inv
run_calls-Inv (c ∷ cs) fs inv = run_calls-Inv cs (run_call c fs) (run_call-Inv c fs inv)
