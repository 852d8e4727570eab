-- ===== src/Cap/Transfer.antt =====
-- What `transfer` and `duplicate` of kernel/src/cap.rs do to the tables, on every path.
use dbsos.Common.{
  Array, ℕ, ◌+◌, ◌<◌, ◌≡◌, refl, ◌≢◌, ◌⊎◌, inl, inr, Bool, false, Option, none, some, arith,
  Bool-cases, Option-cases, update, update_lem, update_self, bit, ℤ,
}
use dbsos.Abi.Cap.{Cap, ipc_ok, ipc_err_bad_cap, ipc_err_no_server, ipc_err_denied}
use dbsos.Kernel.{Kernel, CapTable}
use dbsos.Scheduler.Task.{max_tasks}
use dbsos.Cap.Table.{
  table_alloc, table_get, table_free, table_get-eq-some, table_get-table_alloc_self,
  table_alloc_fresh, table_get-table_free_self, table_get-table_free_ne,
}
use dbsos.Cap.Total.{total, total-alloc_in, total-hand_over, slot_for_task-lt}
use dbsos.Cap.{slot_for_task, alloc_in, crosses_users, hand_over, share, transfer, duplicate, get}

module _ (k : Kernel) (dst idx : ℕ) where
  -- Either both calls refuse with one code and change nothing, or both reach their tails.
  pub data Checked : Type 0 where
    refused :
        (e : ℤ)
        → (transfer dst idx k ≡ (k, e))
        → (duplicate dst idx k ≡ (k, e))
        → e ≢ ipc_ok
        → Checked
    granted :
        (c : Cap) (s : ℕ)
        → table_get (k.cap_tables k.current) idx ≡ some c
        → slot_for_task k dst ≡ some s
        → crosses_users k s ≡ false
        → transfer dst idx k ≡ hand_over s idx c k
        → duplicate dst idx k ≡ share s c k
        → Checked

  pub checked : Checked
  unfolding transfer duplicate get
  checked = elim (Option-cases (table_get (k.cap_tables k.current) idx)) [
    | inl e ↦ refused ipc_err_bad_cap (rw (e, transfer)) (rw (e, duplicate)) (λ x. cc)
    | inr (c, e) ↦ elim (Option-cases (slot_for_task k dst)) [
      | inl f ↦
          refused ipc_err_no_server (rw (e, transfer) (rw f)) (rw (e, duplicate) (rw f)) (λ x. cc)
      | inr (s, f) ↦ elim (Bool-cases (crosses_users k s)) [
        | inl g ↦
            refused ipc_err_denied (rw (e, transfer) (rw f (rw g)))
              (rw (e, duplicate) (rw f (rw g))) (λ x. cc)
        | inr g ↦
            granted c s e f g (rw (e, transfer) (rw f (rw g))) (rw (e, duplicate) (rw f (rw g)))
      ]
    ]
  ]

-- The capability that `transfer` moves: the count of every kind of valid capability over all tables
-- stays the same, whatever the call returns.
pub transfer_conserves :
    (q : Cap → Bool) (k : Kernel) (dst idx : ℕ)
    → k.current < max_tasks
    → total q (transfer dst idx k).0 ≡ total q k
transfer_conserves q k dst idx h = elim (checked k dst idx) [
  | refused e t d n ↦ rw t
  | granted c s e f g t d ↦ rw t (total-hand_over q k h s idx (slot_for_task-lt k dst f) e)
]

-- `duplicate` adds one copy of the named capability when it returns IPC_OK, and otherwise none.
pub duplicate_adds :
    (q : Cap → Bool) (k : Kernel) (dst idx : ℕ)
    → ((duplicate dst idx k).1 ≢ ipc_ok) × (total q (duplicate dst idx k).0 ≡ total q k)
      ⊎ ((c : Cap) × (table_get (k.cap_tables k.current) idx ≡ some c)
          × ((duplicate dst idx k).1 ≡ ipc_ok)
          × (total q (duplicate dst idx k).0 ≡ total q k + bit (q c)))
unfolding share
duplicate_adds q k dst idx = elim (checked k dst idx) [
  | refused e t d n ↦ rw d (inl (n, refl))
  | granted c s e f g t d ↦ rw d (shared c s (slot_for_task-lt k dst f) e (alloc_in s c k).1 refl)
]
  where
    shared :
        (c : Cap) (s : ℕ)
        → s < max_tasks
        → table_get (k.cap_tables k.current) idx ≡ some c
        → (o : Option ℕ) → (alloc_in s c k).1 ≡ o
        → ((share s c k).1 ≢ ipc_ok) × (total q (share s c k).0 ≡ total q k)
          ⊎ ((d : Cap) × (table_get (k.cap_tables k.current) idx ≡ some d)
              × ((share s c k).1 ≡ ipc_ok)
              × (total q (share s c k).0 ≡ total q k + bit (q d)))
    shared c s h e none f =
        let v = (table_get-eq-some (k.cap_tables k.current) idx e).2 in
        rw (f, share) (inl ((λ x. cc), omega (arith, total-alloc_in q k s c none h v f)))
    shared c s h e (some i) f =
        let v = (table_get-eq-some (k.cap_tables k.current) idx e).2 in
        rw (f, share) (inr (c, e, refl, total-alloc_in q k s c (some i) h v f))

-- Where a transfer leaves the capability, `s` being the destination's slot and `c` what moves.
Moved : Kernel → (idx s : ℕ) → Cap → Kernel → Type 0
Moved k idx s c k' =
    (i : ℕ) × (table_get (k'.cap_tables k.current) idx ≡ none)
    × (table_get (k'.cap_tables s) i ≡ some c)

hand_over-Moved :
    (k : Kernel) (s idx : ℕ) (c : Cap) (o : Option ℕ)
    → table_get (k.cap_tables k.current) idx ≡ some c
    → (alloc_in s c k).1 ≡ o
    → (hand_over s idx c k).1 ≡ ipc_ok
    → Moved k idx s c (hand_over s idx c k).0
unfolding hand_over alloc_in Moved
hand_over-Moved k s idx c none e f r = absurd (cc (f, r))
hand_over-Moved k s idx c (some i) e f r =
    rw (f, hand_over)
      (
        i,
        rw (update_self tables k.current (table_free idx (tables k.current)))
            (table_get-table_free_self idx (tables k.current)),
        ground (
          arith,
          update_lem tables k.current s (table_free idx (tables k.current)),
          update_self k.cap_tables s new,
          table_get-table_alloc_self c (k.cap_tables s) (table_get-eq-some _ idx e).2 f,
          table_alloc_fresh c (k.cap_tables s) f,
          table_get-table_free_ne idx i (tables s),
        ),
      )
  where
    new : CapTable
    new = (table_alloc c (k.cap_tables s)).0

    tables : Array CapTable
    tables = update k.cap_tables s new

-- A transfer that returns IPC_OK has moved the capability: the caller held it at `cap_idx`, the
-- destination is a live task of the same user (or the caller is root), the caller's slot is empty
-- afterwards, and the destination's table holds the capability.
pub transfer_moves :
    (k : Kernel) (dst idx : ℕ)
    → (transfer dst idx k).1 ≡ ipc_ok
    → (c : Cap) × (s : ℕ) × (i : ℕ) × (table_get (k.cap_tables k.current) idx ≡ some c)
      × (slot_for_task k dst ≡ some s)
      × (crosses_users k s ≡ false)
      × (table_get ((transfer dst idx k).0.cap_tables k.current) idx ≡ none)
      × (table_get ((transfer dst idx k).0.cap_tables s) i ≡ some c)
unfolding Moved
transfer_moves k dst idx r = elim (checked k dst idx) [
  | refused e t d n ↦ absurd (n (cc (t, r)))
  | granted c s e f g t d ↦
      let r' = rw t at r in
      let (i, gone, there) = hand_over-Moved k s idx c (alloc_in s c k).1 e refl r' in
      (c, s, i, e, f, g, rw t gone, rw t there)
]
