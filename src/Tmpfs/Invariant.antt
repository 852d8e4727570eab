-- ===== src/Tmpfs/Invariant.antt =====
-- kernel/src/tmpfs.rs: what all calls keep.
use dbsos.Common.{
  ℕ, ◌+◌, ◌≤◌, ◌<◌, ◌≡◌, sym, ap, subst, ◌≢◌, inl, inr, true, false, Option, none, some, arith,
  ◌==◌, ltb, leb, Bool-cases, Option-cases, List, Array, update, update_lem, update_either,
  update_self, update_ne, count_from, count_from_change, bit,
}
use dbsos.Tmpfs.{TmpFile, Tmpfs, set_file, set_handle, empty, tmp_close, tmp_write, write_at}
use dbsos.Tmpfs.Dir.{remove, close_all, close_if}

-- A slot of the table: a file in use has a buffer and fits into it.
abbrev pub IsFile : TmpFile → Type 0
IsFile f = f.in_use ≡ true → (f.size ≤ 8192) × (f.file_data ≢ 0)

-- A handle that is open is that of a file in use.
abbrev pub IsOpen : Array TmpFile → Option ℕ → Type 0
IsOpen files none = Unit {0}
IsOpen files (some idx) = (idx < 32) × ((files idx).in_use ≡ true)

unfoldable pub in_use_count : Array TmpFile → ℕ
in_use_count files = count_from 32 0 (λ i. (files i).in_use)

-- All files fit, all open handles have a file, and as many buffers are held as files are in use.
unfoldable pub Inv : Tmpfs → Type 0
Inv fs =
    ((i : ℕ) → IsFile (fs.files i))
    × ((h : ℕ) → h < 32 → IsOpen fs.files (fs.handles h))
    × (fs.buffers ≡ in_use_count fs.files)

in_use_count-update :
    (files : Array TmpFile) (i : ℕ) (f : TmpFile)
    → i < 32
    → in_use_count (update files i f) + bit (files i).in_use ≡ in_use_count files + bit f.in_use
unfolding in_use_count
in_use_count-update files i f h =
    let moved =
      count_from_change 32 0 i (λ m. (files m).in_use) (λ m. (update files i f m).in_use)
        (omega arith) h (λ m n. rw (update_ne files i m f (λ e. n (sym e)))) in
    rw (update_self files i f) at moved

module _ (files : Array TmpFile) (i : ℕ) (f : TmpFile) where
  -- A handle stays good when a file in use takes the slot.
  IsOpen-update : f.in_use ≡ true → (o : Option ℕ) → IsOpen files o → IsOpen (update files i f) o
  IsOpen-update u none a = a
  IsOpen-update u (some idx) (a, b) = (
    a,
    elim (Bool-cases (i == idx)) [
      | inl e ↦ rw (update_lem files i idx f) (rw e u)
      | inr e ↦ rw (update_lem files i idx f) (rw e b)
    ],
  )

  -- A handle of another slot stays good.
  IsOpen-update_ne : (o : Option ℕ) → o ≢ some i → IsOpen files o → IsOpen (update files i f) o
  IsOpen-update_ne none n a = a
  IsOpen-update_ne (some idx) n (a, b) =
      (a, rw (update_ne files i idx f (λ e. n (ap some (sym e)))) b)

module _ (fs : Tmpfs) (inv : Inv fs) where
  pub set_handle-Inv : (h : ℕ) (o : Option ℕ) → IsOpen fs.files o → Inv (set_handle h o fs)
  unfolding Inv
  set_handle-Inv h o a =
      let (files, handles, buffers) = inv in
      (files, λ g l. update_either fs.handles (IsOpen fs.files) h o g a (handles g l), buffers)

  -- A change of the memory and of the size of a file.
  pub resize-Inv :
      (i size : ℕ) (m : Array ℕ)
      → i < 32
      → (fs.files i).in_use ≡ true
      → size ≤ 8192
      → Inv (record fs {
        memory = m;
        files = update fs.files i (record (fs.files i) { size = size });
      })
  unfolding Inv
  resize-Inv i size m h u s =
      let (files, handles, buffers) = inv in
      let f = record (fs.files i) { size = size } in
      let count = in_use_count-update fs.files i f h in
      (
        λ j. update_either fs.files IsFile i f j (λ v. let (a, b) = files i u in (s, b)) (files j),
        λ g l. IsOpen-update fs.files i f u (fs.handles g) (handles g l),
        omega arith,
      )

  pub tmp_close-Inv : (h : ℕ) → Inv (tmp_close h fs)
  unfolding tmp_close
  tmp_close-Inv h = elim (Bool-cases (h == 18446744073709551615)) [
    | inl e ↦ rw (e, tmp_close) inv
    | inr e ↦ elim (Bool-cases (ltb h 32)) [
      | inl l ↦ rw (e, tmp_close) (rw l (set_handle-Inv h none tt))
      | inr l ↦ rw (e, tmp_close) (rw l inv)
    ]
  ]

  write_at-Inv :
      (idx : ℕ) (buf : List ℕ) (offset : ℕ)
      → IsOpen fs.files (some idx)
      → offset ≤ 8192
      → Inv (write_at idx buf offset fs).0
  unfolding write_at Inv
  write_at-Inv idx buf offset (a, b) h =
      let (files, handles, buffers) = inv in
      let (s, d) = files idx b in
      resize-Inv idx _ ((write_at idx buf offset fs).0).memory a b (ground arith)

  opened : (h idx : ℕ) → h < 32 → fs.handles h ≡ some idx → IsOpen fs.files (some idx)
  unfolding Inv
  opened h idx l e = let (files, handles, buffers) = inv in subst (IsOpen fs.files) e (handles h l)

  pub tmp_write-Inv : (h : ℕ) (buf : List ℕ) (offset : ℕ) → Inv (tmp_write h buf offset fs).0
  unfolding tmp_write
  tmp_write-Inv h buf offset = elim (Option-cases (fs.handles h)) [
    | inl e ↦ subst Inv (ground arith) inv
    | inr (idx, e) ↦ elim (Bool-cases (leb 32 h)) [
      | inl l ↦ subst Inv (ground arith) inv
      | inr l ↦ elim (Bool-cases (ltb 8192 offset)) [
        | inl b ↦ subst Inv (ground arith) inv
        | inr b ↦
            subst Inv (ground arith)
              (write_at-Inv idx buf offset (opened h idx (ground arith) e) (ground arith))
      ]
    ]
  ]

  pub remove-Inv : (idx : ℕ) → IsOpen fs.files (some idx) → Inv (remove idx fs)
  unfolding Inv remove close_all
  remove-Inv idx (a, b) =
      let (files, handles, buffers) = inv in
      let count = in_use_count-update fs.files idx empty a in
      let (s, d) = files idx b in
      (
        λ j. update_either fs.files IsFile idx empty j (λ v. cc v) (files j),
        λ g l. rw (within g l) (closed (fs.handles g) (handles g l)),
        ground arith,
      )
    where
      closed :
          (o : Option ℕ) → IsOpen fs.files o → IsOpen (update fs.files idx empty) (close_if idx o)
      closed none x = x
      closed (some i) x = elim (Bool-cases (i == idx)) [
        | inl e ↦ rw e tt
        | inr e ↦ rw e (IsOpen-update_ne fs.files idx empty (some i) (λ q. ground arith) x)
      ]

      within : (g : ℕ) → g < 32 → ltb g 32 ≡ true
      within g l = ground arith

  -- A file that takes a slot not in use, with a new buffer.
  pub fill-Inv :
      (slot : ℕ) (f : TmpFile)
      → slot < 32
      → (fs.files slot).in_use ≡ false
      → IsFile f
      → f.in_use ≡ true
      → Inv (record fs { files = update fs.files slot f; buffers = fs.buffers + 1 })
  unfolding Inv
  fill-Inv slot f a b c d =
      let (files, handles, buffers) = inv in
      let count = in_use_count-update fs.files slot f a in
      (
        λ j. update_either fs.files IsFile slot f j c (files j),
        λ g l. IsOpen-update fs.files slot f d (fs.handles g) (handles g l),
        ground arith,
      )

  -- A slot not in use is reset.
  pub clear-Inv :
      (slot : ℕ) → slot < 32 → (fs.files slot).in_use ≡ false → Inv (set_file slot empty fs)
  unfolding Inv
  clear-Inv slot a b =
      let (files, handles, buffers) = inv in
      let count = in_use_count-update fs.files slot empty a in
      (
        λ j. update_either fs.files IsFile slot empty j (λ v. cc v) (files j),
        λ g l.
            IsOpen-update_ne fs.files slot empty (fs.handles g)
              (λ q. other (subst (IsOpen fs.files) q (handles g l))) (handles g l),
        ground arith,
      )
    where
      other : {x : Type 0} → IsOpen fs.files (some slot) → x
      other (s, t) = cc (b, t)
