-- ===== src/Samples/Caps.antt =====
-- The theorems about kernel/src/cap.rs at concrete inputs.
use dbsos.Common.{ℕ, ◌≡◌, refl, true, false, none, some, arith, update, [], ◌∷◌}
use dbsos.Abi.Cap.{Cap, ipc_ok}
use dbsos.Kernel.{Kernel}
use dbsos.Cap.{transfer, duplicate, slot_for_task, crosses_users}
use dbsos.Cap
use dbsos.Cap.Table.{table_get, new_table}
use dbsos.Cap.Total.{total}
use dbsos.Cap.Transfer.{transfer_conserves, transfer_moves}
use dbsos.Cap.Confine.{
  Everywhere, run_calls, run_calls-Everywhere, transfers, duplicates, frees, switches,
}
use dbsos.Samples.{started}

-- The kernel task gives its client capability to the server.
transfer_result : (transfer 1 2 started).1 ≡ ipc_ok
unfolding started transfer Cap.hand_over
transfer_result = refl

transfer_conserves_example : total (λ c. true) (transfer 1 2 started).0 ≡ total (λ c. true) started
unfolding started
transfer_conserves_example = transfer_conserves (λ c. true) started 1 2 (omega arith)

transfer_moves_example :
    (c : Cap) × (s : ℕ) × (i : ℕ) × (table_get (started.cap_tables started.current) 2 ≡ some c)
    × (slot_for_task started 1 ≡ some s)
    × (crosses_users started s ≡ false)
    × (table_get ((transfer 1 2 started).0.cap_tables started.current) 2 ≡ none)
    × (table_get ((transfer 1 2 started).0.cap_tables s) i ≡ some c)
transfer_moves_example = transfer_moves started 1 2 transfer_result

-- Every task holds one capability, to send to task 1.
abbrev sender_cap : Cap
sender_cap = record { cap_type = 1; server_id = 1; rights = 1; payload = 0 }

abbrev senders : Kernel
senders = record started { cap_tables = λ s. update new_table 0 sender_cap }

senders-Everywhere : Everywhere (λ c. c.rights ≡ 1) senders
unfolding update table_get
senders-Everywhere s i c e = ground arith

run_calls-Everywhere_example :
    Everywhere
      (λ c. c.rights ≡ 1)
      (run_calls (transfers 1 0 ∷ switches 1 ∷ duplicates 0 1 ∷ frees 0 ∷ []) senders)
run_calls-Everywhere_example =
    run_calls-Everywhere (λ c. c.rights ≡ 1)
      (transfers 1 0 ∷ switches 1 ∷ duplicates 0 1 ∷ frees 0 ∷ []) senders senders-Everywhere
