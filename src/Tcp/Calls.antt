-- ===== src/Tcp/Calls.antt =====
-- kernel/src/driver/tcp.rs: sequences of segments, calls and retransmissions.
use dbsos.Common.{
  ℕ, zero, suc, ◌^◌, min, Bool, true, false, not, ◌&&◌, ◌≡◌, refl, ◌<◌, ◌≤◌, arith, ◌==◌, length,
  drop, List, [], ◌∷◌, inl, inr, Bool-cases, Option-cases, length-drop, find_from, bit_or,
}
use dbsos.Tcp.{
  State, closed, listening, established, fin_wait1, fin_wait2, close_wait, last_ack, state_eq,
  syn_rcvd, syn_sent, fin_wait2, closing, Conn, conn_empty, Tcp, flag_fin, flag_ack, flag_syn,
  flag_psh, has, next_isn, next_ephemeral, find_tuple, find_listener, alloc_conn, tcp_send_seq,
  wrapping_add,
}
use dbsos.Tcp.Wire.{Segment, parse}
use dbsos.Tcp.Input.{new_conn, open_passive, input_segment, input}
use dbsos.Tcp.Api.{
  listen, dialling, connect, may_send, keep_out, sent_off, send, recv, send_fin, close_in, close,
  is_late, back_off, resend, retransmit_from, check_retransmit,
}
use dbsos.Tcp.Invariant.{
  IsConn, Inv, set_conn-Inv, modify-Inv, if-Inv, tcp_send-Inv, conn_empty-IsConn,
  handle_segment-Inv,
}

alloc_conn-Inv : (s : Tcp) → Inv s → Inv (alloc_conn s).0
unfolding alloc_conn IsConn
alloc_conn-Inv s inv = elim (Option-cases (find_from 8 0 (λ i. not (s.conns i).in_use))) [
  | inl e ↦ rw (e, alloc_conn) inv
  | inr (i, e) ↦
      rw (e, alloc_conn)
        (set_conn-Inv i (record conn_empty { in_use = true }) s inv conn_empty-IsConn)
]

next_isn-Inv : (ticks : ℕ) (s : Tcp) → Inv s → Inv (next_isn ticks s).0
unfolding next_isn Inv
next_isn-Inv ticks s inv = inv

next_ephemeral-Inv : (s : Tcp) → Inv s → Inv (next_ephemeral s).0
unfolding next_ephemeral Inv
next_ephemeral-Inv s inv = inv

next_isn-bound : (ticks : ℕ) (s : Tcp) → (next_isn ticks s).1 < 2 ^ 32
unfolding next_isn
next_isn-bound ticks s = omega arith

open_passive-Inv :
    (ticks : ℕ) (peer_ip peer_mac : List ℕ) (seg : Segment) (s : Tcp)
    → Inv s
    → Inv (open_passive ticks peer_ip peer_mac seg s)
unfolding open_passive IsConn
open_passive-Inv ticks peer_ip peer_mac seg s inv =
    elim (Option-cases (find_listener seg.dport s)) [
      | inl e ↦ rw (e, open_passive) inv
      | inr (l, e) ↦ elim (Option-cases ((alloc_conn s).1)) [
        | inl n ↦ rw (e, open_passive) (rw n inv)
        | inr (i, n) ↦
            let isn = (next_isn ticks s).1 in
            let small = next_isn-bound ticks s in
            let made =
              modify-Inv (new_conn peer_ip peer_mac seg isn) i _ (λ c h. ground arith)
                (next_isn-Inv ticks _ (alloc_conn-Inv s inv)) in
            rw (e, open_passive)
              (rw n (
                modify-Inv (λ c. record c { snd_nxt = wrapping_add isn 1 }) i _
                  (λ c h. ground arith) (tcp_send-Inv i (bit_or flag_syn flag_ack) [] _ made)))
      ]
    ]

input-Inv :
    (ticks : ℕ) (peer_ip peer_mac bytes : List ℕ) (s : Tcp)
    → Inv s
    → Inv (input ticks peer_ip peer_mac bytes s)
unfolding input input_segment
input-Inv ticks peer_ip peer_mac bytes s inv = elim (Option-cases (parse bytes)) [
  | inl e ↦ rw (e, input) inv
  | inr (seg, e) ↦ elim (Option-cases (find_tuple seg.dport seg.sport peer_ip s)) [
    | inl n ↦
        rw (e, input)
          (rw (n, input_segment)
            (if-Inv (has seg.flags flag_syn && not (has seg.flags flag_ack)) _ _
              (open_passive-Inv ticks peer_ip peer_mac seg s inv) inv))
    | inr (idx, n) ↦
        rw (e, input) (rw (n, input_segment) (handle_segment-Inv idx seg peer_ip peer_mac s inv))
  ]
]

listen-Inv : (port : ℕ) (s : Tcp) → Inv s → Inv (listen port s).0
unfolding listen IsConn
listen-Inv port s inv = elim (Option-cases (find_listener port s)) [
  | inl e ↦ elim (Option-cases ((alloc_conn s).1)) [
    | inl n ↦ rw (e, listen) (rw n inv)
    | inr (i, n) ↦
        rw (e, listen)
          (rw n (
            modify-Inv (λ c. record c { state = listening; local_port = port }) i _
              (λ c h. ground arith) (alloc_conn-Inv s inv)))
  ]
  | inr (i, e) ↦ rw (e, listen) inv
]

connect-Inv :
    (ticks : ℕ) (peer_ip mac : List ℕ) (port : ℕ) (s : Tcp)
    → Inv s
    → Inv (connect ticks peer_ip mac port s).0
unfolding connect IsConn
connect-Inv ticks peer_ip mac port s inv = elim (Option-cases ((alloc_conn s).1)) [
  | inl n ↦ rw (n, connect) inv
  | inr (i, n) ↦
      let lport = (next_ephemeral s).1 in
      let isn = (next_isn ticks s).1 in
      let small = next_isn-bound ticks s in
      rw (n, connect)
        (tcp_send-Inv i flag_syn [] _ (
          modify-Inv (dialling peer_ip mac port lport isn) i _ (λ c h. ground arith)
            (next_isn-Inv ticks _ (next_ephemeral-Inv _ (alloc_conn-Inv s inv)))))
]

keep_out-IsConn :
    (now : ℕ) (payload : List ℕ) (c d : Conn)
    → may_send payload d ≡ true
    → IsConn c
    → IsConn (keep_out now payload c)
unfolding IsConn
keep_out-IsConn now payload c d m h = ground arith

sent_off-IsConn : (ok : Bool) (n : ℕ) (c : Conn) → IsConn c → IsConn (sent_off ok n c)
unfolding IsConn
sent_off-IsConn true n c h = ground arith
sent_off-IsConn false n c h = ground arith

send-Inv :
    (now : ℕ) (ok : Bool) (idx : ℕ) (payload : List ℕ) (s : Tcp)
    → Inv s
    → Inv (send now ok idx payload s).0
unfolding send
send-Inv now ok idx payload s inv = elim (Bool-cases (may_send payload (s.conns idx))) [
  | inl m ↦
      let kept =
        modify-Inv (keep_out now payload) idx s (λ c. keep_out-IsConn now payload c (s.conns idx) m)
          inv in
      rw (m, send)
        (modify-Inv (sent_off ok (length payload)) idx _ (sent_off-IsConn ok (length payload))
          (tcp_send-Inv idx (bit_or flag_psh flag_ack) payload _ kept))
  | inr f ↦ rw (f, send) inv
]

recv-Inv : (idx room : ℕ) (s : Tcp) → Inv s → Inv (recv idx room s).0
unfolding recv IsConn Inv
recv-Inv idx room s inv =
    let (rx, out, rcv, snd, other) = inv idx in
    let n = min room (length (s.conns idx).rx) in
    let shorter : length (drop n (s.conns idx).rx) ≤ 2048 =
      omega (arith, length-drop n (s.conns idx).rx) in
    elim (Bool-cases (length (s.conns idx).rx == 0)) [
      | inl e ↦ rw (e, recv) inv
      | inr f ↦
          rw (f, recv)
            (set_conn-Inv idx (record (s.conns idx) { rx = drop n (s.conns idx).rx }) s inv
              (shorter, out, rcv, snd, other))
    ]

send_fin-Inv :
    (ok : Bool) (idx : ℕ) (st : State) (s : Tcp)
    → state_eq st fin_wait2 ≡ false
    → Inv s
    → Inv (send_fin ok idx st s)
unfolding IsConn
send_fin-Inv ok idx st s n inv =
    let inv' = tcp_send-Inv idx (bit_or flag_fin flag_ack) [] s inv in
    if-Inv ok _ _
      (modify-Inv (λ c. record c { snd_nxt = wrapping_add c.snd_nxt 1; state = st }) idx _
        (λ c h. ground arith) inv')
      inv'

close_in-Inv : (st : State) (ok : Bool) (idx : ℕ) (s : Tcp) → Inv s → Inv (close_in st ok idx s)
unfolding close_in
close_in-Inv established ok idx s inv = send_fin-Inv ok idx fin_wait1 s refl inv
close_in-Inv close_wait ok idx s inv = send_fin-Inv ok idx last_ack s refl inv
close_in-Inv closed ok idx s inv = set_conn-Inv idx conn_empty s inv conn_empty-IsConn
close_in-Inv listening ok idx s inv = set_conn-Inv idx conn_empty s inv conn_empty-IsConn
close_in-Inv syn_sent ok idx s inv = set_conn-Inv idx conn_empty s inv conn_empty-IsConn
close_in-Inv syn_rcvd ok idx s inv = set_conn-Inv idx conn_empty s inv conn_empty-IsConn
close_in-Inv fin_wait1 ok idx s inv = set_conn-Inv idx conn_empty s inv conn_empty-IsConn
close_in-Inv fin_wait2 ok idx s inv = set_conn-Inv idx conn_empty s inv conn_empty-IsConn
close_in-Inv last_ack ok idx s inv = set_conn-Inv idx conn_empty s inv conn_empty-IsConn
close_in-Inv closing ok idx s inv = set_conn-Inv idx conn_empty s inv conn_empty-IsConn

resend-Inv : (now idx : ℕ) (s : Tcp) → Inv s → Inv (resend now idx s)
unfolding tcp_send_seq Inv IsConn
resend-Inv now idx s inv =
    if-Inv (is_late now (s.conns idx)) _ s
      (modify-Inv (back_off now) idx
        (tcp_send_seq idx (s.conns idx).out_seq (bit_or flag_ack flag_psh) (s.conns idx).out s)
        (λ c h. h) inv)
      inv

retransmit_from-Inv : (k i now : ℕ) (s : Tcp) → Inv s → Inv (retransmit_from k i now s)
unfolding retransmit_from
retransmit_from-Inv zero i now s inv = inv
retransmit_from-Inv (suc k) i now s inv =
    retransmit_from-Inv k (suc i) now _ (resend-Inv now i s inv)

-- What reaches the stack, from the network, the user and the clock.
pub data Call : Type 0 where
  arrives : (ticks : ℕ) (peer_ip peer_mac bytes : List ℕ) → Call
  allocates : Call
  listens_at : (port : ℕ) → Call
  connects : (ticks : ℕ) (peer_ip mac : List ℕ) (port : ℕ) → Call
  sends : (now : ℕ) (ok : Bool) (idx : ℕ) (payload : List ℕ) → Call
  receives : (idx room : ℕ) → Call
  closes : (ok : Bool) (idx : ℕ) → Call
  retransmits : (now : ℕ) → Call

unfoldable pub run_call : Call → Tcp → Tcp
run_call (arrives ticks peer_ip peer_mac bytes) s = input ticks peer_ip peer_mac bytes s
run_call allocates s = (alloc_conn s).0
run_call (listens_at port) s = (listen port s).0
run_call (connects ticks peer_ip mac port) s = (connect ticks peer_ip mac port s).0
run_call (sends now ok idx payload) s = (send now ok idx payload s).0
run_call (receives idx room) s = (recv idx room s).0
run_call (closes ok idx) s = close ok idx s
run_call (retransmits now) s = check_retransmit now s

unfoldable pub run_stack : List Call → Tcp → Tcp
unfolding run_call
run_stack [] s = s
run_stack (c ∷ cs) s = run_stack cs (run_call c s)

run_call-Inv : (c : Call) (s : Tcp) → Inv s → Inv (run_call c s)
unfolding run_call close check_retransmit
run_call-Inv (arrives ticks peer_ip peer_mac bytes) s inv =
    input-Inv ticks peer_ip peer_mac bytes s inv
run_call-Inv allocates s inv = alloc_conn-Inv s inv
run_call-Inv (listens_at port) s inv = listen-Inv port s inv
run_call-Inv (connects ticks peer_ip mac port) s inv = connect-Inv ticks peer_ip mac port s inv
run_call-Inv (sends now ok idx payload) s inv = send-Inv now ok idx payload s inv
run_call-Inv (receives idx room) s inv = recv-Inv idx room s inv
run_call-Inv (closes ok idx) s inv = close_in-Inv (s.conns idx).state ok idx s inv
run_call-Inv (retransmits now) s inv = retransmit_from-Inv 8 0 now s inv

-- Every sequence of segments, calls and retransmissions keeps the received bytes of a connection within 2048 and the
-- unacknowledged ones within 1400, its two next numbers below 2^32, and its state other than FIN_WAIT2: from a table
-- without that state, no segment and no call ever leads to it.
pub run_stack-Inv : (cs : List Call) (s : Tcp) → Inv s → Inv (run_stack cs s)
unfolding run_stack
run_stack-Inv [] s inv = inv
run_stack-Inv (c ∷ cs) s inv = run_stack-Inv cs (run_call c s) (run_call-Inv c s inv)
