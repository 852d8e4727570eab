-- ===== src/Tmpfs/Names.antt =====
-- kernel/src/tmpfs.rs: files by their names.
use dbsos.Tmpfs.{
  tmp_read, Tmpfs, find, free_slot, free_handle, set_file, set_handle, empty, tmp_open,
  open_existing, truncate, create, new_file, tmp_write, is_named,
}
use dbsos.Common.{
  bytes_eq_refl, find_from-eq-none, find_from_least, ℕ, suc, ◌+◌, ◌≤◌, ◌<◌, ◌≡◌, refl, ap, ◌∙◌, ◌≢◌,
  inl, inr, true, false, not, none, some, arith, ◌==◌, ltb, Bool-cases, length, take, drop, List,
  [], ◌∷◌, ◌++◌, update_self, update_ne, find_from-eq-some, bit_and,
}
use dbsos.Tmpfs.Path.{norm}
use dbsos.Tmpfs.Dir.{tmp_unlink, remove, close_all, tmp_stat}

-- Opening an existing file with O_TRUNC, where no handle is free, fails and empties the file all the same.
pub open_truncates :
    (fs : Tmpfs) (path : List ℕ) (flags buffer idx : ℕ)
    → 0 < length (norm path)
    → length (norm path) ≤ 32
    → find (norm path) fs ≡ some idx
    → bit_and flags 0x200 ≢ 0
    → free_handle fs ≡ none
    → ((tmp_open path flags buffer fs).1 ≡ none)
      × (((tmp_open path flags buffer fs).0.files idx).size ≡ 0)
unfolding tmp_open open_existing free_handle
open_truncates fs path flags buffer idx a b e t n =
    let z : (length (norm path) == 0) ≡ false = ground arith in
    let l : ltb 32 (length (norm path)) ≡ false = ground arith in
    let c : (bit_and flags 0x200 == 0) ≡ false = ground arith in
    rw (z, tmp_open)
      (rw l (
        rw e (
          rw (handles_of flags idx ∙ n, open_existing)
            (rw c
              (refl, rw (update_self fs.files idx (record (fs.files idx) { size = 0 })) refl)))))
  where
    handles_of : (flags idx : ℕ) → free_handle (truncate flags idx fs) ≡ free_handle fs
    handles_of flags idx = elim (Bool-cases (bit_and flags 0x200 == 0)) [
      | inl e ↦ rw e refl
      | inr e ↦ rw e refl
    ]

take-append_self : (xs ys : List ℕ) → take (length xs) (xs ++ ys) ≡ xs
take-append_self [] ys = refl
take-append_self (x ∷ xs) ys = ap (λ zs. x ∷ zs) (take-append_self xs ys)

-- A name is found in the slot of its new file, where it was found nowhere before.
find-new_file :
    (fs : Tmpfs) (name : List ℕ) (buffer slot : ℕ)
    → 0 < length name
    → find name fs ≡ none
    → slot < 32
    → find name (set_file slot (new_file name buffer (fs.files slot)) fs) ≡ some slot
unfolding find
find-new_file fs [] buffer slot a e b = absurd (omega arith)
find-new_file fs (x ∷ xs) buffer slot a e b =
    find_from_least _ 32 0 slot (omega arith) b
      (ap (is_named (x ∷ xs)) (update_self fs.files slot _)
        ∙ (ground (
          arith,
          take-append_self (x ∷ xs) (drop (suc (length xs)) ((fs.files slot).name)),
          bytes_eq_refl (x ∷ xs),
        )))
      (λ m c d.
        ap (is_named (x ∷ xs)) (update_ne fs.files slot m _ (λ q. omega arith))
        ∙ find_from-eq-none _ 32 0 m e c (omega arith))

-- The state after `create`, where there is a buffer and a free handle.
created : Tmpfs → List ℕ → (buffer slot h : ℕ) → Tmpfs
created fs name buffer slot h =
    record (set_handle h (some slot) (set_file slot (new_file name buffer (fs.files slot)) fs)) {
      buffers = fs.buffers + 1;
    }

create-created :
    (fs : Tmpfs) (name : List ℕ) (buffer slot h : ℕ)
    → buffer ≢ 0
    → free_handle fs ≡ some h
    → create name buffer slot fs ≡ (created fs name buffer slot h, some h)
unfolding create created free_handle
create-created fs name buffer slot h n g =
    let d : (buffer == 0) ≡ false = ground arith in rw (d, create) (rw g refl)

find_files : (fs fs' : Tmpfs) (name : List ℕ) → fs.files ≡ fs'.files → find name fs ≡ find name fs'
unfolding find
find_files fs fs' [] e = refl
find_files fs fs' (x ∷ xs) e = rw e refl

tmp_stat-find :
    (fs : Tmpfs) (path : List ℕ) (idx : ℕ)
    → 0 < length (norm path)
    → find (norm path) fs ≡ some idx
    → tmp_stat path fs
      ≡ some (record { stat_size = (fs.files idx).size; stat_is_dir = false; cluster = idx })
unfolding tmp_stat
tmp_stat-find fs path idx a e =
    let z : (length (norm path) == 0) ≡ false = ground arith in rw (z, tmp_stat) (rw e refl)

tmp_stat-created :
    (fs : Tmpfs) (path : List ℕ) (buffer slot h : ℕ)
    → 0 < length (norm path)
    → find (norm path) fs ≡ none
    → slot < 32
    → tmp_stat path (created fs (norm path) buffer slot h)
      ≡ some (record { stat_size = 0; stat_is_dir = false; cluster = slot })
unfolding created
tmp_stat-created fs path buffer slot h a e b =
    let found = find-new_file fs (norm path) buffer slot a e b in
    tmp_stat-find (created fs (norm path) buffer slot h) path slot a
      (find_files _ _ (norm path) refl ∙ found)
    ∙ ap (λ f. some (record { stat_size = f.size; stat_is_dir = false; cluster = slot }))
        (update_self fs.files slot _)

-- Where a path's name is new, O_CREAT is given, and there are a slot, a handle and a buffer, `tmp_open` returns the
-- first free handle, and `tmp_stat` of the path then shows an empty file in that slot.
pub tmp_stat-tmp_open :
    (fs : Tmpfs) (path : List ℕ) (flags buffer slot h : ℕ)
    → 0 < length (norm path)
    → length (norm path) ≤ 32
    → find (norm path) fs ≡ none
    → bit_and flags 0x100 ≢ 0
    → free_slot fs ≡ some slot
    → free_handle fs ≡ some h
    → buffer ≢ 0
    → ((tmp_open path flags buffer fs).1 ≡ some h)
      × (tmp_stat path (tmp_open path flags buffer fs).0
          ≡ some (record { stat_size = 0; stat_is_dir = false; cluster = slot }))
unfolding tmp_open free_slot
tmp_stat-tmp_open fs path flags buffer slot h a b e t f g n =
    let z : (length (norm path) == 0) ≡ false = ground arith in
    let l : ltb 32 (length (norm path)) ≡ false = ground arith in
    let c : (bit_and flags 0x100 == 0) ≡ false = ground arith in
    let (u, v, w) = find_from-eq-some (λ i. not (fs.files i).in_use) 32 0 {j = slot} f in
    let opened : tmp_open path flags buffer fs ≡ (created fs (norm path) buffer slot h, some h) =
      rw (z, tmp_open)
        (rw l (rw e (rw c (rw f (create-created fs (norm path) buffer slot h n g))))) in
    rw opened (refl, tmp_stat-created fs path buffer slot h a e v)

module _ (fs : Tmpfs) (idx h : ℕ) (s : h < 32) (o : fs.handles h ≡ some idx) where
  remove_closes : (remove idx fs).handles h ≡ none
  unfolding remove close_all
  remove_closes =
      let e : (idx == idx) ≡ true = ground arith in
      let l : ltb h 32 ≡ true = ground arith in rw l (rw o (rw e refl))

  tmp_read-remove : (len offset : ℕ) → tmp_read h len offset (remove idx fs) ≡ none
  unfolding tmp_read
  tmp_read-remove len offset = rw (remove_closes, tmp_read) (ground arith)

  tmp_write-remove :
      (buf : List ℕ) (offset : ℕ) → tmp_write h buf offset (remove idx fs) ≡ (remove idx fs, none)
  unfolding tmp_write
  tmp_write-remove buf offset = rw (remove_closes, tmp_write) (ground arith)

-- Unlinking a file closes its handles: a read through one fails, and a write through one fails with no effect. Its slot is
-- free again.
pub tmp_unlink_closes :
    (fs : Tmpfs) (path : List ℕ) (idx h len offset : ℕ) (buf : List ℕ)
    → find (norm path) fs ≡ some idx
    → h < 32
    → fs.handles h ≡ some idx
    → (tmp_read h len offset (tmp_unlink path fs).0 ≡ none)
      × (tmp_write h buf offset (tmp_unlink path fs).0 ≡ ((tmp_unlink path fs).0, none))
      × (((tmp_unlink path fs).0.files idx).in_use ≡ false)
unfolding tmp_unlink remove
tmp_unlink_closes fs path idx h len offset buf e s o =
    rw (e, tmp_unlink)
      (
        tmp_read-remove fs idx h s o len offset,
        tmp_write-remove fs idx h s o buf offset,
        ap (λ f. f.in_use) (update_self fs.files idx empty),
      )
