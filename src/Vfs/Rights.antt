-- ===== src/Vfs/Rights.antt =====
-- kernel/src/vfs.rs: what `open` asks for, and what `write` takes.
use dbsos.Common.{
  ℕ, ◌<◌, ◌≡◌, refl, sym, ap, ◌∙◌, ◌≢◌, ◌⊎◌, inl, inr, Bool, true, false, Option, none, some, ℤ,
  pos, arith, Bool-cases, Option-cases, List, update, update_self, update_ne, find_from-eq-some,
}
use dbsos.Permissions.{can_read, can_write}
use dbsos.Vfs.Access.{write}
use dbsos.Vfs.Files.{write-some}
use dbsos.Vfs.{
  get_driver, size_of, Vfs, VfsFile, FsOps, is_closed, free_fd, may_open, install, open_file, route,
  exists, failed,
}

is_closed→none : (o : Option VfsFile) → is_closed o ≡ true → o ≡ none
is_closed→none none e = refl
is_closed→none (some f) e = absurd (cc e)

module _ {D : Type 0} (v : Vfs D) (flags : ℕ) where
  -- The result is -1 and no descriptor changes, or it is a descriptor that was free, and only it changes. Its file has
  -- the flags and stands at its start.
  unfoldable pub Opened : Vfs D × ℤ → Type 0
  Opened (v', result) =
      ((result ≡ failed) × (v'.open_files ≡ v.open_files))
      ⊎ ((fd : ℕ) × (result ≡ pos fd)
          × (fd < 64)
          × (v.open_files fd ≡ none)
          × ((f : VfsFile) × (v'.open_files fd ≡ some f) × (f.offset ≡ 0) × (f.flags ≡ flags))
          × ((i : ℕ) → i ≢ fd → v'.open_files i ≡ v.open_files i))

  install-Opened :
      (uid : ℕ) (path : List ℕ) (existed_before : Bool) (driver_idx : ℕ) (driver : FsOps D)
      (rel : List ℕ) (handle : ℕ) (w : Vfs D)
      → w.open_files ≡ v.open_files
      → Opened (install uid path flags existed_before driver_idx driver rel handle w)
  unfolding install Opened
  install-Opened uid path existed_before driver_idx driver rel handle w same =
      elim (Option-cases (free_fd w)) [
        | inl e ↦ rw (e, install) (inl (refl, same))
        | inr (slot, e) ↦
            let (low, high, closed) = find_from-eq-some (λ i. is_closed (w.open_files i)) 64 0 e in
            rw (e, install)
              (inr (
                slot,
                refl,
                omega arith,
                ap (λ a. a slot) (sym same) ∙ is_closed→none (w.open_files slot) closed,
                (_, update_self w.open_files slot _, refl, refl),
                λ i ne. update_ne w.open_files slot i _ (λ q. ne (sym q)) ∙ ap (λ a. a i) same,
              ))
      ]

  -- Without the right, `open` changes nothing and returns -1. With it, it returns -1 and no descriptor changes, or it
  -- returns a descriptor below 64 that was free, which now holds a file with the flags at offset 0, and no other
  -- descriptor changes.
  pub open_file_opens :
      (uid : ℕ) (path : List ℕ)
      → (may_open uid path flags v ≡ false → open_file uid path flags v ≡ (v, failed))
        × Opened (open_file uid path flags v)
  unfolding open_file Opened
  open_file_opens uid path = elim (Bool-cases (may_open uid path flags v)) [
    | inl t ↦ (
      λ f. absurd (cc (t, f)),
      elim (Option-cases (route path v)) [
        | inl e ↦ rw (t, open_file) (rw e (inl (refl, refl)))
        | inr ((driver_idx, driver, rel), e) ↦
            elim (Option-cases ((driver.open_op rel flags v.disk).1)) [
              | inl o ↦ rw (t, open_file) (rw e (rw o (inl (refl, refl))))
              | inr (handle, o) ↦
                  rw (t, open_file)
                    (rw e (
                      rw o (
                        install-Opened uid path (exists path v) driver_idx driver rel handle _
                          refl)))
            ]
      ],
    )
    | inr f ↦ rw (f, open_file) (λ g. refl, inl (refl, refl))
  ]

-- `open` with flags 2, reading and writing, asks only for the right to read: a user without the right to write opens
-- the file, where the driver does and a descriptor is free, and `write` then takes the `n` bytes that the driver takes.
pub reader_writes :
    {D : Type 0} (v : Vfs D) (uid : ℕ) (path : List ℕ) (driver_idx : ℕ) (driver : FsOps D)
    (rel : List ℕ) (handle fd : ℕ) (d d' : D) (buf : List ℕ) (n : ℕ)
    → can_write uid v.perms path uid ≡ false
    → can_read uid v.perms path uid ≡ true
    → route path v ≡ some (driver_idx, driver, rel)
    → get_driver driver_idx v ≡ some driver
    → driver.open_op rel 2 v.disk ≡ (d, some handle)
    → free_fd v ≡ some fd
    → driver.write_op handle buf 0 d ≡ (d', some n)
    → ((open_file uid path 2 v).1 ≡ pos fd)
      × ((write (pos fd) buf (open_file uid path 2 v).0).1 ≡ pos n)
unfolding open_file install may_open get_driver
reader_writes v uid path driver_idx driver rel handle fd d d' buf n no_write reads routed registered
      opens free wrote =
    let ok : (driver.open_op rel 2 v.disk).1 ≡ some handle = ap (λ r. r.1) opens in
    let disk : (driver.open_op rel 2 v.disk).0 ≡ d = ap (λ r. r.0) opens in
    let (low, high, closed) = find_from-eq-some (λ i. is_closed (v.open_files i)) 64 0 free in
    rw (reads, open_file)
      (rw routed (
        rw ok (
          rw disk (
            rw (free, install)
              (
                refl,
                ap (λ r. r.1)
                    (write-some
                      (record v {
                        open_files = update v.open_files fd (
                            some (record {
                              driver_idx = driver_idx;
                              handle = handle;
                              offset = 0;
                              size = size_of (driver.stat_op rel d);
                              flags = 2;
                            }));
                        disk = d;
                      })
                      fd _ (omega arith) (update_self v.open_files fd _) driver registered buf d' n
                      refl wrote),
              )))))
