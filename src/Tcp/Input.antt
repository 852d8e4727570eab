-- ===== src/Tcp/Input.antt =====
-- kernel/src/driver/tcp.rs: incoming segments.
use dbsos.Common.{
  ℕ, ◌-◌, min, not, ◌&&◌, ◌||◌, none, some, ◌==◌, ltb, leb, if◌then◌else◌, length, take, drop, List,
  [], ◌∷◌, ◌++◌, bit_or,
}
use dbsos.Tcp.{
  State, syn_sent, syn_rcvd, established, fin_wait1, fin_wait2, close_wait, last_ack, closing,
  state_eq, Conn, conn_empty, Tcp, set_conn, rx_buf, flag_fin, flag_syn, flag_rst, flag_ack,
  wrapping_add, wrapping_sub, has, next_isn, find_tuple, find_listener, alloc_conn, tcp_send,
}
use dbsos.Tcp.Wire.{Segment, parse}

-- The acknowledged bytes leave `out`.
unfoldable pub apply_ack : (ack : ℕ) → Conn → Conn
apply_ack ack c =
    let covered = wrapping_sub ack c.out_seq in
    if ack == 0 || wrapping_sub ack c.snd_una == 0
    then c
    else if leb (length c.out) covered
    then record c { snd_una = ack; out = []; rtt_ms = 1000 }
    else if ltb 0 covered
    then record c { snd_una = ack; out = drop covered c.out; out_seq = ack }
    else record c { snd_una = ack }

abbrev pub ack_if : (flags ack : ℕ) → Conn → Conn
ack_if flags ack c = if has flags flag_ack then apply_ack ack c else c

-- The bytes that fit go to `rx`.
unfoldable pub accept_payload : List ℕ → Conn → Conn
accept_payload payload c =
    let n = min (length payload) (rx_buf - length c.rx) in
    record c { rx = c.rx ++ take n payload; rcv_nxt = wrapping_add c.rcv_nxt n }

abbrev pub accept_fin : State → Conn → Conn
accept_fin state c = record c { rcv_nxt = wrapping_add c.rcv_nxt 1; state = state }

-- The connection with the index, after `f`; and an acknowledgement sent for it.
abbrev pub modify : ℕ → (Conn → Conn) → Tcp → Tcp
modify idx f s = set_conn idx (f (s.conns idx)) s

abbrev pub send_ack : ℕ → Tcp → Tcp
send_ack idx s = tcp_send idx flag_ack [] s

unfoldable pub in_syn_sent : (idx : ℕ) → Segment → Tcp → Tcp
in_syn_sent idx seg s =
    if has seg.flags flag_syn && has seg.flags flag_ack
    then send_ack idx (
        modify idx
          (λ c. record c {
            rcv_nxt = wrapping_add seg.seq 1;
            snd_una = seg.ack;
            state = established;
          })
          s)
    else s

unfoldable pub in_syn_rcvd : (idx : ℕ) → Segment → Tcp → Tcp
in_syn_rcvd idx seg s =
    if has seg.flags flag_ack
    then modify idx (λ c. record c { snd_una = seg.ack; state = established }) s
    else s

abbrev pub take_payload : (idx : ℕ) → List ℕ → Tcp → Tcp
take_payload idx [] s = s
take_payload idx (b ∷ bs) s = send_ack idx (modify idx (accept_payload (b ∷ bs)) s)

unfoldable pub in_established : (idx : ℕ) → Segment → Tcp → Tcp
unfolding apply_ack accept_payload
in_established idx seg s =
    let s' = take_payload idx seg.payload (modify idx (ack_if seg.flags seg.ack) s) in
    if has seg.flags flag_fin then send_ack idx (modify idx (accept_fin close_wait) s') else s'

-- The branch of FIN_WAIT1 that takes an acknowledgement: the test on snd_una comes after `apply_ack`.
unfoldable pub ack_fin : (ack : ℕ) → Conn → Conn
unfolding apply_ack
ack_fin ack c =
    let c' = apply_ack ack c in
    if ltb 0 (wrapping_sub ack c'.snd_una) && not (ack == 0)
    then (if length c'.out == 0 && state_eq c'.state fin_wait1
        then record c' { state = fin_wait2 }
        else c')
    else c'

abbrev pub fin_in_wait1 : Conn → Conn
fin_in_wait1 c = accept_fin (if state_eq c.state fin_wait1 then closing else c.state) c

unfoldable pub in_fin_wait1 : (idx : ℕ) → Segment → Tcp → Tcp
unfolding ack_fin
in_fin_wait1 idx seg s =
    let s' = if has seg.flags flag_ack then modify idx (ack_fin seg.ack) s else s in
    if has seg.flags flag_fin then send_ack idx (modify idx fin_in_wait1 s') else s'

unfoldable pub in_fin_wait2 : (idx : ℕ) → Segment → Tcp → Tcp
unfolding apply_ack
in_fin_wait2 idx seg s =
    let s' = modify idx (ack_if seg.flags seg.ack) s in
    if has seg.flags flag_fin
    then set_conn idx conn_empty (send_ack idx (modify idx (accept_fin fin_wait2) s'))
    else s'

abbrev pub ack_closing : (ack : ℕ) → Conn → Conn
ack_closing ack c =
    let c' = apply_ack ack c in
    if state_eq c'.state close_wait then record c' { state = last_ack } else c'

unfoldable pub in_close_wait : (idx : ℕ) → Segment → Tcp → Tcp
unfolding apply_ack
in_close_wait idx seg s = if has seg.flags flag_ack then modify idx (ack_closing seg.ack) s else s

-- LAST_ACK and CLOSING.
unfoldable pub in_last : (idx : ℕ) → Segment → Tcp → Tcp
in_last idx seg s = if has seg.flags flag_ack then set_conn idx conn_empty s else s

unfoldable pub in_state : State → (idx : ℕ) → Segment → Tcp → Tcp
unfolding in_syn_sent in_syn_rcvd in_established in_fin_wait1 in_fin_wait2 in_close_wait in_last
in_state syn_sent idx seg s = in_syn_sent idx seg s
in_state syn_rcvd idx seg s = in_syn_rcvd idx seg s
in_state established idx seg s = in_established idx seg s
in_state fin_wait1 idx seg s = in_fin_wait1 idx seg s
in_state fin_wait2 idx seg s = in_fin_wait2 idx seg s
in_state close_wait idx seg s = in_close_wait idx seg s
in_state last_ack idx seg s = in_last idx seg s
in_state closing idx seg s = in_last idx seg s
in_state other idx seg s = s

unfoldable pub handle_segment : (idx : ℕ) (peer_ip peer_mac : List ℕ) → Segment → Tcp → Tcp
unfolding in_state
handle_segment idx peer_ip peer_mac seg s =
    if has seg.flags flag_rst
    then set_conn idx conn_empty s
    else in_state (s.conns idx).state idx seg
        (modify idx (λ c. record c { remote_mac = peer_mac; peer_ip = peer_ip }) s)

-- A SYN for a listening port: the new connection.
abbrev pub new_conn : (peer_ip peer_mac : List ℕ) → Segment → (isn : ℕ) → Conn → Conn
new_conn peer_ip peer_mac seg isn c = record c {
  local_port = seg.dport;
  remote_port = seg.sport;
  remote_mac = peer_mac;
  peer_ip = peer_ip;
  snd_nxt = isn;
  snd_una = isn;
  rcv_nxt = wrapping_add seg.seq 1;
  state = syn_rcvd;
}

unfoldable pub open_passive : (ticks : ℕ) (peer_ip peer_mac : List ℕ) → Segment → Tcp → Tcp
open_passive ticks peer_ip peer_mac seg s = elim (find_listener seg.dport s) [
  | none ↦ s
  | some listener ↦ elim ((alloc_conn s).1) [
    | none ↦ s
    | some i ↦
        let isn = (next_isn ticks s).1 in
        let s' = modify i (new_conn peer_ip peer_mac seg isn) (next_isn ticks (alloc_conn s).0).0 in
        modify i (λ c. record c { snd_nxt = wrapping_add isn 1 })
          (tcp_send i (bit_or flag_syn flag_ack) [] s')
  ]
]

unfoldable pub input_segment : (ticks : ℕ) (peer_ip peer_mac : List ℕ) → Segment → Tcp → Tcp
unfolding handle_segment open_passive
input_segment ticks peer_ip peer_mac seg s = elim (find_tuple seg.dport seg.sport peer_ip s) [
  | some idx ↦ handle_segment idx peer_ip peer_mac seg s
  | none ↦
      if has seg.flags flag_syn && not (has seg.flags flag_ack)
      then open_passive ticks peer_ip peer_mac seg s
      else s
]

unfoldable pub input : (ticks : ℕ) (peer_ip peer_mac bytes : List ℕ) → Tcp → Tcp
unfolding input_segment
input ticks peer_ip peer_mac bytes s = elim (parse bytes) [
  | none ↦ s
  | some seg ↦ input_segment ticks peer_ip peer_mac seg s
]
