-- ===== src/Abi/Ipc.antt =====
-- libs/dbsos-abi/src/ipc.rs: ports, message types and the message itself.
use dbsos.Common.{ℕ, List, replicate}

abbrev pub payload_size : ℕ
payload_size = 64

abbrev pub port_kernel : ℕ
port_kernel = 0

abbrev pub port_console : ℕ
port_console = 1

pub data MsgType : Type 0 where
  ping pong log data_send data_recv irq_notification fs_request fs_reply shutdown : MsgType

-- `MsgType::X as u16`
abbrev pub to_u16 : MsgType → ℕ
to_u16 ping = 0x0001
to_u16 pong = 0x0002
to_u16 log = 0x0010
to_u16 data_send = 0x0100
to_u16 data_recv = 0x0101
to_u16 irq_notification = 0x0200
to_u16 fs_request = 0x0300
to_u16 fs_reply = 0x0301
to_u16 shutdown = 0xFFFF

-- `payload` is the field that the source calls `data`, a list of `payload_size` bytes.
pub record Message : Type 0 where
  pub src_port : ℕ
  pub dst_port : ℕ
  pub msg_type : ℕ
  pub flags : ℕ
  pub length : ℕ
  pub shmem_cap : ℕ
  pub payload : List ℕ

abbrev pub empty : Message
empty = record {
  src_port = 0;
  dst_port = 0;
  msg_type = 0;
  flags = 0;
  length = 0;
  shmem_cap = 0;
  payload = replicate payload_size 0;
}

abbrev pub ping_message : ℕ → ℕ → Message
ping_message from to = record empty { src_port = from; dst_port = to; msg_type = to_u16 ping }

abbrev pub pong_message : ℕ → ℕ → Message
pong_message from to = record empty { src_port = from; dst_port = to; msg_type = to_u16 pong }
