-- ===== src/Tcp.antt =====
-- kernel/src/driver/tcp.rs: the table of connections. A connection's `rx` and `out` are the bytes in use of rx_buf and
-- out_buf, of length rx_len and out_len.
pub mod Wire
pub mod Checksum
pub mod Input
pub mod Api
pub mod Invariant
pub mod Calls
pub mod Delivery
pub mod Closing
pub mod Number
use dbsos.Common.{
  ℕ, zero, suc, ◌+◌, ◌-◌, ◌*◌, ◌/◌, ◌%◌, ◌^◌, min, Bool, true, false, not, ◌&&◌, ◌||◌, Option, none,
  some, ◌==◌, ltb, leb, if◌then◌else◌, find_from, length, take, drop, List, [], ◌∷◌, ◌++◌, Array,
  update, bytes_eq, bit_and,
}
use Wire.{segment_bytes}

abbrev pub max_conns : ℕ
max_conns = 8

abbrev pub rx_buf : ℕ
rx_buf = 2048

abbrev pub flag_fin : ℕ
flag_fin = 0x01

abbrev pub flag_syn : ℕ
flag_syn = 0x02

abbrev pub flag_rst : ℕ
flag_rst = 0x04

abbrev pub flag_psh : ℕ
flag_psh = 0x08

abbrev pub flag_ack : ℕ
flag_ack = 0x10

-- The constants CLOSED to CLOSING.
pub data State : Type 0 where
  closed listening syn_sent syn_rcvd established fin_wait1 fin_wait2 close_wait last_ack closing :
      State

abbrev pub state_eq : State → State → Bool
state_eq closed closed = true
state_eq listening listening = true
state_eq syn_sent syn_sent = true
state_eq syn_rcvd syn_rcvd = true
state_eq established established = true
state_eq fin_wait1 fin_wait1 = true
state_eq fin_wait2 fin_wait2 = true
state_eq close_wait close_wait = true
state_eq last_ack last_ack = true
state_eq closing closing = true
state_eq s t = false

pub record Conn : Type 0 where
  pub in_use : Bool
  pub state : State
  pub local_port : ℕ
  pub remote_port : ℕ
  pub remote_mac : List ℕ
  pub peer_ip : List ℕ
  pub snd_una : ℕ
  pub snd_nxt : ℕ
  pub rcv_nxt : ℕ
  pub rx : List ℕ
  pub out_seq : ℕ
  pub out : List ℕ
  pub last_tx_ms : ℕ
  pub rtt_ms : ℕ

abbrev pub conn_empty : Conn
conn_empty = record {
  in_use = false;
  state = closed;
  local_port = 0;
  remote_port = 0;
  remote_mac = 0 ∷ 0 ∷ 0 ∷ 0 ∷ 0 ∷ 0 ∷ [];
  peer_ip = 0 ∷ 0 ∷ 0 ∷ 0 ∷ [];
  snd_una = 0;
  snd_nxt = 0;
  rcv_nxt = 0;
  rx = [];
  out_seq = 0;
  out = [];
  last_tx_ms = 0;
  rtt_ms = 1000;
}

-- What is handed to the network card: the TCP segment, and where it goes.
pub record Packet : Type 0 where
  pub to_mac : List ℕ
  pub to_ip : List ℕ
  pub segment : List ℕ

-- CONNS, EPHEMERAL and ISN; our address; and the packets sent so far, the last one first.
pub record Tcp : Type 0 where
  pub conns : Array Conn
  pub ephemeral : ℕ
  pub isn : ℕ
  pub own_ip : List ℕ
  pub sent : List Packet

abbrev pub set_conn : ℕ → Conn → Tcp → Tcp
set_conn i c s = record s { conns = update s.conns i c }

-- `a.wrapping_add(b)` and `a.wrapping_sub(b)` on u32.
abbrev pub wrapping_add : ℕ → ℕ → ℕ
wrapping_add a b = (a + b) % 2 ^ 32

abbrev pub wrapping_sub : ℕ → ℕ → ℕ
wrapping_sub a b = (a + 2 ^ 32 - b) % 2 ^ 32

-- `flags & flag != 0`
abbrev pub has : (flags flag : ℕ) → Bool
has flags flag = not (bit_and flags flag == 0)

-- `ticks` is `ticks as u32 ^ millis as u32`.
unfoldable pub next_isn : (ticks : ℕ) → Tcp → Tcp × ℕ
next_isn ticks s = (
  record s { isn = wrapping_add s.isn (wrapping_add 0x102040 (bit_and ticks 0xffff)) },
  wrapping_add s.isn ticks,
)

unfoldable pub next_ephemeral : Tcp → Tcp × ℕ
next_ephemeral s =
    (record s { ephemeral = (s.ephemeral + 1) % 2 ^ 16 }, 49152 + s.ephemeral % 16384)

abbrev pub has_tuple : (lport rport : ℕ) (peer : List ℕ) → Conn → Bool
has_tuple lport rport peer c =
    c.in_use && (c.local_port == lport && (c.remote_port == rport && bytes_eq c.peer_ip peer))

unfoldable pub find_tuple : (lport rport : ℕ) (peer : List ℕ) → Tcp → Option ℕ
find_tuple lport rport peer s = find_from max_conns 0 (λ i. has_tuple lport rport peer (s.conns i))

abbrev pub listens : (lport : ℕ) → Conn → Bool
listens lport c = c.in_use && (state_eq c.state listening && c.local_port == lport)

unfoldable pub find_listener : (lport : ℕ) → Tcp → Option ℕ
find_listener lport s = find_from max_conns 0 (λ i. listens lport (s.conns i))

unfoldable pub alloc_conn : Tcp → Tcp × Option ℕ
alloc_conn s = elim (find_from max_conns 0 (λ i. not (s.conns i).in_use)) [
  | none ↦ (s, none)
  | some i ↦ (set_conn i (record conn_empty { in_use = true }) s, some i)
]

-- `tcp_send_seq` to another host.
unfoldable pub tcp_send_seq : (idx seq flags : ℕ) (payload : List ℕ) → Tcp → Tcp
tcp_send_seq idx seq flags payload s =
    let c = s.conns idx in
    record s {
      sent =
          record {
            to_mac = c.remote_mac;
            to_ip = c.peer_ip;
            segment =
                segment_bytes s.own_ip c.peer_ip c.local_port c.remote_port seq c.rcv_nxt flags
                  payload;
          }
          ∷ s.sent;
    }

unfoldable pub tcp_send : (idx flags : ℕ) (payload : List ℕ) → Tcp → Tcp
unfolding tcp_send_seq
tcp_send idx flags payload s = tcp_send_seq idx (s.conns idx).snd_nxt flags payload s
