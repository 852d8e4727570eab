-- ===== src/Tcp/Api.antt =====
-- kernel/src/driver/tcp.rs: the calls of the user's side, and retransmission. `ok` is what the network card answers.
use dbsos.Common.{
  ℕ, zero, suc, ◌+◌, ◌-◌, ◌*◌, ◌%◌, ◌^◌, min, Bool, true, false, not, ◌&&◌, ◌||◌, Option, none,
  some, ◌==◌, ltb, leb, if◌then◌else◌, find_from, length, take, drop, List, [], bit_or,
}
use dbsos.Tcp.{
  State, listening, syn_sent, syn_rcvd, established, fin_wait1, close_wait, last_ack, state_eq,
  Conn, conn_empty, Tcp, set_conn, max_conns, flag_fin, flag_syn, flag_psh, flag_ack, wrapping_add,
  next_isn, next_ephemeral, find_listener, alloc_conn, tcp_send, tcp_send_seq,
}
use dbsos.Tcp.Input.{modify}

unfoldable pub listen : (port : ℕ) → Tcp → Tcp × Option ℕ
listen port s = elim (find_listener port s) [
  | some i ↦ (s, none)
  | none ↦ elim ((alloc_conn s).1) [
    | none ↦ (s, none)
    | some i ↦
        (modify i (λ c. record c { state = listening; local_port = port }) (alloc_conn s).0, some i)
  ]
]

-- `mac` is the address that `connect` finds for the peer.
abbrev pub dialling : (peer_ip mac : List ℕ) (port lport isn : ℕ) → Conn → Conn
dialling peer_ip mac port lport isn c = record c {
  local_port = lport;
  remote_port = port;
  peer_ip = peer_ip;
  snd_nxt = isn;
  snd_una = isn;
  state = syn_sent;
  remote_mac = mac;
}

unfoldable pub connect : (ticks : ℕ) (peer_ip mac : List ℕ) (port : ℕ) → Tcp → Tcp × Option ℕ
connect ticks peer_ip mac port s = elim ((alloc_conn s).1) [
  | none ↦ (s, none)
  | some i ↦
      let lport = (next_ephemeral s).1 in
      let isn = (next_isn ticks s).1 in
      let s' = (next_isn ticks (next_ephemeral (alloc_conn s).0).0).0 in
      (tcp_send i flag_syn [] (modify i (dialling peer_ip mac port lport isn) s'), some i)
]

-- Whether `send` goes on.
abbrev pub may_send : List ℕ → Conn → Bool
may_send payload c =
    (state_eq c.state established || state_eq c.state close_wait)
    && (ltb 0 (length payload) && (leb (length payload) 1400 && length c.out == 0))

-- The data is kept before it is sent.
abbrev pub keep_out : (now : ℕ) (payload : List ℕ) → Conn → Conn
keep_out now payload c = record c {
  out_seq = c.snd_nxt;
  out = payload;
  last_tx_ms = now;
  rtt_ms = 1000;
}

-- After the card took the data of `n` bytes, or did not.
abbrev pub sent_off : (ok : Bool) (n : ℕ) → Conn → Conn
sent_off true n c = record c { snd_nxt = wrapping_add c.snd_nxt n }
sent_off false n c = record c { out = [] }

unfoldable pub send : (now : ℕ) (ok : Bool) (idx : ℕ) (payload : List ℕ) → Tcp → Tcp × Bool
send now ok idx payload s =
    if may_send payload (s.conns idx)
    then (
      modify idx (sent_off ok (length payload))
          (tcp_send idx (bit_or flag_psh flag_ack) payload (modify idx (keep_out now payload) s)),
      ok,
    )
    else (s, false)

-- The bytes read, for a buffer of `room` bytes.
unfoldable pub recv : (idx room : ℕ) → Tcp → Tcp × List ℕ
recv idx room s =
    let c = s.conns idx in
    let n = min room (length c.rx) in
    if length c.rx == 0
    then (s, [])
    else (set_conn idx (record c { rx = drop n c.rx }) s, take n c.rx)

-- Sends a FIN, and goes to the state if the card took it.
abbrev pub send_fin : (ok : Bool) (idx : ℕ) → State → Tcp → Tcp
send_fin ok idx state s =
    let s' = tcp_send idx (bit_or flag_fin flag_ack) [] s in
    if ok
    then modify idx (λ c. record c { snd_nxt = wrapping_add c.snd_nxt 1; state = state }) s'
    else s'

unfoldable pub close_in : State → (ok : Bool) (idx : ℕ) → Tcp → Tcp
close_in established ok idx s = send_fin ok idx fin_wait1 s
close_in close_wait ok idx s = send_fin ok idx last_ack s
close_in other ok idx s = set_conn idx conn_empty s

unfoldable pub close : (ok : Bool) (idx : ℕ) → Tcp → Tcp
unfolding close_in
close ok idx s = close_in (s.conns idx).state ok idx s

unfoldable pub is_open : ℕ → Tcp → Bool
is_open idx s =
    (s.conns idx).in_use
    && (state_eq (s.conns idx).state established || state_eq (s.conns idx).state close_wait)

abbrev pub is_accepted : (lport : ℕ) → Conn → Bool
is_accepted lport c =
    c.in_use
    && (c.local_port == lport
        && (not (c.remote_port == 0)
            && (state_eq c.state syn_rcvd || state_eq c.state established)))

unfoldable pub find_accepted : (lport : ℕ) → Tcp → Option ℕ
find_accepted lport s = find_from max_conns 0 (λ i. is_accepted lport (s.conns i))

-- `now.wrapping_sub(c.last_tx_ms) > c.rtt_ms`, where there is data to send again.
abbrev pub is_late : (now : ℕ) → Conn → Bool
is_late now c =
    c.in_use && (not (length c.out == 0) && ltb c.rtt_ms ((now + 2 ^ 64 - c.last_tx_ms) % 2 ^ 64))

abbrev pub back_off : (now : ℕ) → Conn → Conn
back_off now c = record c { last_tx_ms = now; rtt_ms = min (c.rtt_ms * 2) 8000 }

abbrev pub resend : (now idx : ℕ) → Tcp → Tcp
resend now idx s =
    if is_late now (s.conns idx)
    then modify idx (back_off now)
        (tcp_send_seq idx (s.conns idx).out_seq (bit_or flag_ack flag_psh) (s.conns idx).out s)
    else s

-- The loop of `check_retransmit` from index `i` on, with `k` to go.
unfoldable pub retransmit_from : (k i now : ℕ) → Tcp → Tcp
retransmit_from zero i now s = s
retransmit_from (suc k) i now s = retransmit_from k (suc i) now (resend now i s)

unfoldable pub check_retransmit : (now : ℕ) → Tcp → Tcp
unfolding retransmit_from
check_retransmit now s = retransmit_from max_conns 0 now s
