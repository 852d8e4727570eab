-- ===== src/Vfs/OverTmpfs.antt =====
-- kernel/src/tmpfs.rs, the operations it registers and `init`, under the calls of kernel/src/vfs.rs.
use dbsos.Common.{
  ℕ, ◌+◌, ◌-◌, ◌≤◌, ◌<◌, ◌^◌, ◌≡◌, ap, Bool, true, false, some, pos, arith, ◌==◌, if◌then◌else◌,
  length, List, [], ◌∷◌, bit_and,
}
use dbsos.Tmpfs.{Tmpfs, tmp_open, tmp_close, tmp_read, tmp_write}
use dbsos.Tmpfs.Dir.{tmp_stat, tmp_readdir, tmp_unlink}
use dbsos.Tmpfs.Contents.{tmp_read-tmp_write}
use dbsos.Vfs.{Vfs, VfsFile, FsOps, register_driver, mount, get_driver}
use dbsos.Vfs.Access.{read, write, lseek}
use dbsos.Vfs.Files.{reported, read-lseek-write, write-some}

-- TMP_OPS. `kmalloc` gives the address that it would return in a state, 0 where it has no room.
unfoldable pub tmp_ops : (kmalloc : Tmpfs → ℕ) → FsOps Tmpfs
tmp_ops kmalloc = record {
  open_op = λ path flags fs. tmp_open path flags (kmalloc fs) fs;
  close_op = tmp_close;
  read_op = λ handle len offset fs. (fs, tmp_read handle len offset fs);
  write_op = tmp_write;
  stat_op = tmp_stat;
  readdir_op = λ path room fs. (fs, tmp_readdir path room fs);
  mkdir_op = λ path fs. (fs, true);
  rmdir_op = λ path fs. (fs, true);
  unlink_op = tmp_unlink;
}

-- `init`: registers the operations and mounts them at "/tmp".
unfoldable pub init : (kmalloc : Tmpfs → ℕ) → Vfs Tmpfs → Vfs Tmpfs × Bool
init kmalloc v =
    let idx = (register_driver (some (tmp_ops kmalloc)) v).1 in
    let v' = (register_driver (some (tmp_ops kmalloc)) v).0 in
    if idx == 2 ^ 64 - 1 then (v', false) else mount (47 ∷ 116 ∷ 109 ∷ 112 ∷ []) idx v'

-- On a descriptor open for writing at a file of the tmpfs, with some bytes that end within 8192: `write` takes them
-- all, and after `lseek` back to where it began, `read` gives them.
pub read_back :
    (kmalloc : Tmpfs → ℕ) (v : Vfs Tmpfs) (fd : ℕ) (f : VfsFile) (idx : ℕ) (buf : List ℕ)
    → fd < 64
    → v.open_files fd ≡ some f
    → get_driver f.driver_idx v ≡ some (tmp_ops kmalloc)
    → (bit_and f.flags 3 == 0) ≡ false
    → f.handle < 32
    → v.disk.handles f.handle ≡ some idx
    → 0 < length buf
    → f.offset + length buf ≤ 8192
    → ((write (pos fd) buf v).1 ≡ pos (length buf))
      × (reported (
            read (pos fd) (length buf) (lseek (pos fd) (pos f.offset) 0 (write (pos fd) buf v).0).0)
          ≡ (pos (length buf), buf))
unfolding tmp_ops
read_back kmalloc v fd f idx buf short opened registered w low e some_bytes fits =
    let (took, back) = tmp_read-tmp_write v.disk f.handle idx buf f.offset low e fits some_bytes in
    let fs = (tmp_write f.handle buf f.offset v.disk).0 in
    let wrote : tmp_write f.handle buf f.offset v.disk ≡ (fs, some (length buf)) =
      ap (λ r. (fs, r)) took in
    let ops = tmp_ops kmalloc in
    (
      ap (λ r. r.1) (write-some v fd f short opened ops registered buf fs (length buf) w wrote),
      read-lseek-write v fd f short opened ops registered buf fs fs (length buf) (length buf) buf
          (omega arith) w wrote (ap (λ r. (fs, r)) back),
    )
