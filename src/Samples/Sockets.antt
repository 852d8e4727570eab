-- ===== src/Samples/Sockets.antt =====
-- The theorems about kernel/src/driver/tcp.rs at concrete inputs: a client at 10.0.2.15 and a server at 10.0.2.2, port 80.
use dbsos.Common.{
  ℕ, zero, suc, ◌≡◌, refl, Bool, true, ◌&&◌, arith, ltb, ltb→lt, List, [], ◌∷◌, update, find_from,
  bytes_eq,
}
use dbsos.Tcp.{
  Tcp, Conn, conn_empty, established, fin_wait1, close_wait, closing, find_tuple, alloc_conn,
  next_isn, next_ephemeral, flag_syn,
}
use dbsos.Tcp.Wire.{checksum, scratch, header, segment_bytes}
use dbsos.Tcp.Checksum.{AreBytes, with_pseudo_header, checksum-segment}
use dbsos.Tcp.Input.{input, handle_segment}
use dbsos.Tcp.Api.{connect, send, recv}
use dbsos.Tcp.Invariant.{Inv, IsConn}
use dbsos.Tcp.Calls.{Call, listens_at, arrives, closes, run_stack, run_stack-Inv}
use dbsos.Tcp.Delivery.{last_segment, recv-input-send}
use dbsos.Tcp.Closing.{bare_segment, close_stays}
use dbsos.Tcp.Number.{connect-send_number}

abbrev client_ip : List ℕ
client_ip = 10 ∷ 0 ∷ 2 ∷ 15 ∷ []

abbrev server_ip : List ℕ
server_ip = 10 ∷ 0 ∷ 2 ∷ 2 ∷ []

abbrev mac : List ℕ
mac = 82 ∷ 84 ∷ 0 ∷ 18 ∷ 52 ∷ 86 ∷ []

abbrev idle : List ℕ → Tcp
idle own_ip = record {
  conns = λ i. conn_empty;
  ephemeral = 49152;
  isn = 0x12345678;
  own_ip = own_ip;
  sent = [];
}

abbrev client : Conn
client = record conn_empty {
  in_use = true;
  state = established;
  local_port = 49152;
  remote_port = 80;
  remote_mac = mac;
  peer_ip = server_ip;
  snd_una = 1000;
  snd_nxt = 1000;
  rcv_nxt = 7000;
}

abbrev server : Conn
server = record conn_empty {
  in_use = true;
  state = established;
  local_port = 80;
  remote_port = 49152;
  remote_mac = mac;
  peer_ip = client_ip;
  snd_una = 7000;
  snd_nxt = 7000;
  rcv_nxt = 1000;
}

abbrev with_conn : List ℕ → Conn → Tcp
with_conn own_ip c = record (idle own_ip) { conns = update (λ i. conn_empty) 0 c }

all_bytes : List ℕ → Bool
all_bytes [] = true
all_bytes (x ∷ xs) = ltb x 256 && all_bytes xs

all_bytes→AreBytes : (xs : List ℕ) → all_bytes xs ≡ true → AreBytes xs
unfolding all_bytes
all_bytes→AreBytes [] e i = omega arith
all_bytes→AreBytes (x ∷ xs) e zero = ground (arith, ltb→lt x 256)
all_bytes→AreBytes (x ∷ xs) e (suc i) = all_bytes→AreBytes xs (ground arith) i

checksum-segment_example :
    checksum (
      with_pseudo_header client_ip server_ip
        (segment_bytes client_ip server_ip 49152 80 1000 7000 0x18 (104 ∷ 105 ∷ 33 ∷ [])))
    ≡ 0
unfolding all_bytes scratch header
checksum-segment_example =
    checksum-segment 10 0 2 15 10 0 2 2 49152 80 1000 7000 0x18 (104 ∷ 105 ∷ 33 ∷ [])
      (all_bytes→AreBytes
        (scratch client_ip server_ip 49152 80 1000 7000 0x18 0 (104 ∷ 105 ∷ 33 ∷ [])) refl)
      (omega arith)

idle-Inv : Inv (idle server_ip)
unfolding Inv IsConn
idle-Inv i = (omega arith, omega arith, omega arith, omega arith, refl)

abbrev serving : List Call
serving =
    listens_at 80
    ∷ arrives 5 client_ip mac (segment_bytes client_ip server_ip 49152 80 999 0 flag_syn [])
    ∷ closes true 0
    ∷ []

run_stack-Inv_example : Inv (run_stack serving (idle server_ip))
run_stack-Inv_example = run_stack-Inv serving (idle server_ip) idle-Inv

recv-input-send_example :
    (recv 0 16 (
      input 5 client_ip mac
        (last_segment (send 40 true 0 (104 ∷ 105 ∷ []) (with_conn client_ip client)).0)
        (with_conn server_ip server))).1
    ≡ 104 ∷ 105 ∷ []
unfolding find_tuple find_from bytes_eq update
recv-input-send_example =
    recv-input-send (with_conn client_ip client) (with_conn server_ip server) 0 0 40 5 16 mac 104
      (105 ∷ []) refl (omega arith) (omega arith) (omega arith) (omega arith) refl refl refl
      (omega arith)

abbrev finishing : Tcp
finishing = with_conn client_ip (record client { state = fin_wait1; snd_nxt = 1001 })

close_stays_example :
    (((handle_segment 0 server_ip mac
          (bare_segment 49152 80 7000 1001 0x11)
          (handle_segment 0 server_ip mac (bare_segment 49152 80 7000 1001 0x10) finishing)).conns
        0).state
      ≡ closing)
    × (((handle_segment 0 server_ip mac
            (bare_segment 49152 80 7000 1001 0x11)
            (handle_segment 0 server_ip mac (bare_segment 49152 80 7000 1001 0x10) finishing)).conns
          0).in_use
        ≡ true)
unfolding update
close_stays_example = close_stays 0 server_ip mac finishing 49152 80 7000 1001 7000 1001 refl refl

abbrev left : Tcp
left = with_conn client_ip (record client { state = close_wait; out_seq = 990; out = 1 ∷ 2 ∷ [] })

connect-send_number_example :
    (last_segment (connect 5 server_ip mac 80 (idle client_ip)).0
      ≡ segment_bytes client_ip server_ip 49152 80 0x1234567d 0 flag_syn [])
    × (last_segment
          (send 40 true 0 (104 ∷ []) (
            handle_segment 0 server_ip mac
              (bare_segment 49152 80 6999 0x1234567e 0x12)
              (connect 5 server_ip mac 80 (idle client_ip)).0)).0
        ≡ segment_bytes client_ip server_ip 49152 80 0x1234567d 7000 0x18 (104 ∷ []))
unfolding alloc_conn find_from next_isn next_ephemeral
connect-send_number_example =
    connect-send_number 5 40 0 server_ip mac mac 80 (idle client_ip) 49152 80 6999 0x1234567e
      (104 ∷ []) refl (omega arith) (omega arith)
