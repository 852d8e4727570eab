-- ===== src/Abi/Cap.antt =====
-- libs/dbsos-abi/src/cap.rs: capabilities, rights and status codes. A `u64` is a number.
use dbsos.Common.{ℕ, Bool, not, ◌==◌, ℤ, pos, negsuc}

pub data CapType : Type 0 where
  ipc_target shared_mem irq ipc_reply : CapType

-- `CapType::X as u64`
abbrev pub to_u64 : CapType → ℕ
to_u64 ipc_target = 1
to_u64 shared_mem = 2
to_u64 irq = 3
to_u64 ipc_reply = 4

abbrev pub cap_send : ℕ
cap_send = 1

abbrev pub cap_recv : ℕ
cap_recv = 2

abbrev pub cap_read : ℕ
cap_read = 4

abbrev pub cap_write : ℕ
cap_write = 8

-- `payload` is the field that the source calls `data`.
pub record Cap : Type 0 where
  pub cap_type : ℕ
  pub server_id : ℕ
  pub rights : ℕ
  pub payload : ℕ

abbrev pub null : Cap
null = record { cap_type = 0; server_id = 0; rights = 0; payload = 0 }

abbrev pub is_valid : Cap → Bool
is_valid c = not (c.cap_type == 0)

abbrev pub max_caps_per_process : ℕ
max_caps_per_process = 64

abbrev pub ipc_ok : ℤ
ipc_ok = pos 0

abbrev pub ipc_err_bad_cap : ℤ
ipc_err_bad_cap = negsuc 0

abbrev pub ipc_err_no_server : ℤ
ipc_err_no_server = negsuc 1

abbrev pub ipc_err_timeout : ℤ
ipc_err_timeout = negsuc 2

abbrev pub ipc_err_no_mem : ℤ
ipc_err_no_mem = negsuc 3

abbrev pub ipc_err_denied : ℤ
ipc_err_denied = negsuc 4
