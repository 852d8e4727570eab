-- ===== src/Vfs/Files.antt =====
-- kernel/src/vfs.rs: calls on an open descriptor that succeed, and what a read gives after a write and a seek.
use dbsos.Common.{
  ℕ, ◌^◌, ◌<◌, ◌≡◌, refl, ap, false, some, ℤ, pos, arith, ◌==◌, List, update_self, bit_and,
}
use dbsos.Vfs.{Vfs, VfsFile, FsOps, get_driver}
use dbsos.Vfs.Access.{file_at, read, write, lseek, set_open, set_disk, written, read_on}

module _ {D : Type 0} (v : Vfs D) (fd : ℕ) (f : VfsFile) (short : fd < 64)
    (opened : v.open_files fd ≡ some f) where
  file_at-open : file_at (pos fd) v ≡ some (fd, f)
  unfolding file_at
  file_at-open = rw (opened, file_at) (ground arith)

  lseek-set :
      (o : ℕ)
      → o < 2 ^ 63
      → lseek (pos fd) (pos o) 0 v ≡ (set_open fd (some (record f { offset = o })) v, pos o)
  unfolding lseek
  lseek-set o s = rw (file_at-open, lseek) (ground arith)

  module _ (driver : FsOps D) (registered : get_driver f.driver_idx v ≡ some driver) where
    pub write-some :
        (buf : List ℕ) (d : D) (n : ℕ)
        → (bit_and f.flags 3 == 0) ≡ false
        → driver.write_op f.handle buf f.offset v.disk ≡ (d, some n)
        → write (pos fd) buf v ≡ (set_open fd (some (written n f)) (set_disk d v), pos n)
    unfolding write
    write-some buf d n w e =
        let ok : (driver.write_op f.handle buf f.offset v.disk).1 ≡ some n = ap (λ r. r.1) e in
        let disk : (driver.write_op f.handle buf f.offset v.disk).0 ≡ d = ap (λ r. r.0) e in
        rw (file_at-open, write) (rw w (rw registered (rw ok (rw disk refl))))

    read-some :
        (len : ℕ) (d : D) (n : ℕ) (bytes : List ℕ)
        → driver.read_op f.handle len f.offset v.disk ≡ (d, some (n, bytes))
        → read (pos fd) len v ≡ (set_open fd (some (read_on n f)) (set_disk d v), pos n, bytes)
    unfolding read
    read-some len d n bytes e =
        let ok : (driver.read_op f.handle len f.offset v.disk).1 ≡ some (n, bytes) =
          ap (λ r. r.1) e in
        let disk : (driver.read_op f.handle len f.offset v.disk).0 ≡ d = ap (λ r. r.0) e in
        rw (file_at-open, read) (rw registered (rw ok (rw disk refl)))

-- What `read` reports: the length and the bytes.
abbrev pub reported : {D : Type 0} → Vfs D × ℤ × List ℕ → ℤ × List ℕ
reported (v, n, bytes) = (n, bytes)

module _ {D : Type 0} (v : Vfs D) (fd : ℕ) (f : VfsFile) (short : fd < 64)
    (opened : v.open_files fd ≡ some f) (driver : FsOps D)
    (registered : get_driver f.driver_idx v ≡ some driver) where
  -- On an open descriptor that writes, where the driver writes `n` bytes at the file's offset and then reads `m` bytes
  -- from there: after `write`, and `lseek` back to the offset, `read` gives those bytes.
  pub read-lseek-write :
      (buf : List ℕ) (d d' : D) (n m : ℕ) (bytes : List ℕ)
      → f.offset < 2 ^ 63
      → (bit_and f.flags 3 == 0) ≡ false
      → driver.write_op f.handle buf f.offset v.disk ≡ (d, some n)
      → driver.read_op f.handle n f.offset d ≡ (d', some (m, bytes))
      → reported (read (pos fd) n (lseek (pos fd) (pos f.offset) 0 (write (pos fd) buf v).0).0)
        ≡ (pos m, bytes)
  unfolding get_driver
  read-lseek-write buf d d' n m bytes s w e r =
      let v1 = set_open fd (some (written n f)) (set_disk d v) in
      let f2 : VfsFile = record (written n f) { offset = f.offset } in
      let v2 = set_open fd (some f2) v1 in
      let seek = lseek-set v1 fd (written n f) short (update_self v.open_files fd _) f.offset s in
      let done =
        read-some v2 fd f2 short (update_self v1.open_files fd _) driver registered n d' m bytes
          r in
      rw (write-some v fd f short opened driver registered buf d n w e) (rw seek (rw done refl))
