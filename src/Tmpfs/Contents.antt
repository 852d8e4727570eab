-- ===== src/Tmpfs/Contents.antt =====
-- kernel/src/tmpfs.rs: what a read gives after a write.
use dbsos.Common.{
  ℕ, ◌+◌, ◌-◌, ◌≤◌, ◌<◌, ◌≡◌, refl, sym, ap, subst, ◌∙◌, ◌≢◌, ◌⊎◌, inl, inr, some, arith, ltb, leb,
  if◌then◌else◌, Bool-cases, length, List, update, update_self, update_ne, min, take_all,
}
use dbsos.Tmpfs.{Tmpfs, tmp_read, tmp_write, write_at}
use dbsos.Tmpfs.Copy.{load, store, load-store, load-store_apart}

-- A read through an open handle below the end of the file: `n` bytes at `addr`.
tmp_read-open :
    (fs : Tmpfs) (h idx len offset n addr : ℕ)
    → h < 32
    → fs.handles h ≡ some idx
    → offset < (fs.files idx).size
    → min len ((fs.files idx).size - offset) ≡ n
    → (fs.files idx).file_data + offset ≡ addr
    → tmp_read h len offset fs ≡ some (n, load n addr fs.memory)
unfolding tmp_read
tmp_read-open fs h idx len offset n addr s e l f g = rw (e, tmp_read) (rw f (rw g (ground arith)))

-- A read reads the handle's file and the bytes of memory below its end.
tmp_read_congr :
    (fs fs' : Tmpfs) (g other len from : ℕ)
    → fs.handles g ≡ some other
    → fs'.handles g ≡ some other
    → fs'.files other ≡ fs.files other
    → load (min len ((fs.files other).size - from)) ((fs.files other).file_data + from) fs'.memory
      ≡ load (min len ((fs.files other).size - from)) ((fs.files other).file_data + from) fs.memory
    → tmp_read g len from fs' ≡ tmp_read g len from fs
unfolding tmp_read
tmp_read_congr fs fs' g other len from e e' s m = rw (e, tmp_read) (rw e' (rw s (rw m refl)))

module _ (fs : Tmpfs) (h idx : ℕ) (buf : List ℕ) (offset : ℕ) (short : h < 32)
    (open_idx : fs.handles h ≡ some idx) (fits : offset + length buf ≤ 8192) where
  -- The state after the write.
  written : Tmpfs
  written = record fs {
    memory = store ((fs.files idx).file_data + offset) buf fs.memory;
    files = update fs.files idx (record (fs.files idx) {
      size =
          if ltb (fs.files idx).size (offset + length buf)
          then offset + length buf
          else (fs.files idx).size;
    });
  }

  tmp_write-written : tmp_write h buf offset fs ≡ (written, some (length buf))
  unfolding tmp_write written write_at
  tmp_write-written =
      let n : min (length buf) (8192 - offset) ≡ length buf = omega arith in
      rw (open_idx, tmp_write)
        (rw (n, write_at) (rw (take_all (length buf) buf (omega arith)) (ground arith)))

  -- After a write of some bytes that ends within 8192, through an open handle, a read of as many bytes at the same
  -- offset gives the bytes written.
  pub tmp_read-tmp_write :
      0 < length buf
      → ((tmp_write h buf offset fs).1 ≡ some (length buf))
        × (tmp_read h (length buf) offset (tmp_write h buf offset fs).0 ≡ some (length buf, buf))
  unfolding written
  tmp_read-tmp_write p =
      let start : offset < (written.files idx).size =
        rw (update_self fs.files idx _) (ground arith) in
      let n : min (length buf) ((written.files idx).size - offset) ≡ length buf =
        rw (update_self fs.files idx _) (ground arith) in
      let addr : (written.files idx).file_data + offset ≡ (fs.files idx).file_data + offset =
        rw (update_self fs.files idx _) refl in
      let bytes = load-store ((fs.files idx).file_data + offset) buf fs.memory in
      rw (tmp_write-written) (
        refl,
        tmp_read-open written h idx (length buf) offset (length buf) _ short open_idx start n addr
            ∙ ap (λ b. some (length buf, b)) bytes,
      )

  bytes :
      (other from len : ℕ)
      → other ≢ idx
      → (fs.files other).size ≤ 8192
      → ((fs.files other).file_data + 8192 ≤ (fs.files idx).file_data)
        ⊎ ((fs.files idx).file_data + 8192 ≤ (fs.files other).file_data)
      → load
          (min len ((fs.files other).size - from))
          ((fs.files other).file_data + from)
          written.memory
        ≡ load
            (min len ((fs.files other).size - from))
            ((fs.files other).file_data + from)
            fs.memory
  unfolding written load
  bytes other from len ne fit apart = elim (Bool-cases (leb (fs.files other).size from)) [
    | inl l ↦
        let none_left : min len ((fs.files other).size - from) ≡ 0 = ground arith in
        rw none_left refl
    | inr l ↦
        load-store_apart _ _ ((fs.files idx).file_data + offset) buf fs.memory
          (elim apart [ inl a ↦ inl (ground arith) | inr a ↦ inr (ground arith) ])
  ]

  -- A read through a handle of another file, whose buffer of 8192 bytes lies beside the written one's, gives after the
  -- write what it gave before, where both files fit their buffers.
  pub tmp_read_apart :
      (g other len from : ℕ)
      → fs.handles g ≡ some other
      → other ≢ idx
      → (fs.files other).size ≤ 8192
      → ((fs.files other).file_data + 8192 ≤ (fs.files idx).file_data)
        ⊎ ((fs.files idx).file_data + 8192 ≤ (fs.files other).file_data)
      → tmp_read g len from (tmp_write h buf offset fs).0 ≡ tmp_read g len from fs
  unfolding written
  tmp_read_apart g other len from e ne fit apart =
      let same : written.files other ≡ fs.files other =
        update_ne fs.files idx other _ (λ q. ne (sym q)) in
      subst (λ x. tmp_read g len from x.0 ≡ tmp_read g len from fs) (sym tmp_write-written)
        (tmp_read_congr fs written g other len from e e same (bytes other from len ne fit apart))

  -- A write that starts behind the end of the file leaves the bytes between as the memory had them, and a read
  -- gives them.
  pub tmp_read_gap :
      (fs.files idx).size < offset
      → 0 < length buf
      → tmp_read h (offset - (fs.files idx).size) (fs.files idx).size (tmp_write h buf offset fs).0
        ≡ some (
          offset - (fs.files idx).size,
          load
              (offset - (fs.files idx).size)
              ((fs.files idx).file_data + (fs.files idx).size)
              fs.memory,
        )
  unfolding written
  tmp_read_gap l p =
      let start : (fs.files idx).size < (written.files idx).size =
        rw (update_self fs.files idx _) (ground arith) in
      let n : min (offset - (fs.files idx).size) ((written.files idx).size - (fs.files idx).size)
          ≡ offset - (fs.files idx).size =
        rw (update_self fs.files idx _) (ground arith) in
      let addr : (written.files idx).file_data + (fs.files idx).size
          ≡ (fs.files idx).file_data + (fs.files idx).size =
        rw (update_self fs.files idx _) refl in
      let bytes =
        load-store_apart (offset - (fs.files idx).size)
          ((fs.files idx).file_data + (fs.files idx).size) ((fs.files idx).file_data + offset) buf
          fs.memory (inl (omega arith)) in
      rw tmp_write-written (
        tmp_read-open written h idx _ (fs.files idx).size _ _ short open_idx start n addr
        ∙ ap (λ b. some (offset - (fs.files idx).size, b)) bytes)
