-- ===== src/Tcp/Invariant.antt =====
-- kernel/src/driver/tcp.rs: what every sequence of calls keeps.
use dbsos.Common.{
  ℕ, ◌-◌, ◌^◌, min, Bool, true, false, not, ◌&&◌, ◌≡◌, refl, ◌<◌, ◌≤◌, arith, ◌==◌, ltb,
  if◌then◌else◌, length, take, List, [], ◌∷◌, inl, inr, Bool-cases, length-drop, length-take,
  length-append, update_either,
}
use dbsos.Tcp.{
  State, closed, listening, syn_sent, syn_rcvd, established, fin_wait1, fin_wait2, close_wait,
  last_ack, closing, state_eq, Conn, conn_empty, Tcp, set_conn, flag_ack, flag_fin, flag_syn,
  flag_rst, has, tcp_send, tcp_send_seq, wrapping_sub, wrapping_add,
}
use dbsos.Tcp.Wire.{Segment}
use dbsos.Tcp.Input.{
  modify, apply_ack, accept_payload, ack_fin, ack_if, ack_closing, accept_fin, fin_in_wait1,
  take_payload, in_established, in_fin_wait1, in_last, in_syn_sent, in_syn_rcvd, in_close_wait,
  handle_segment, in_state,
}

-- The buffers hold what they have room for, the numbers are 32 bits wide, and the state is not FIN_WAIT2.
unfoldable pub IsConn : Conn → Type 0
IsConn c =
    (length c.rx ≤ 2048)
    × (length c.out ≤ 1400)
    × (c.rcv_nxt < 2 ^ 32)
    × (c.snd_nxt < 2 ^ 32)
    × (state_eq c.state fin_wait2 ≡ false)

unfoldable pub Inv : Tcp → Type 0
Inv s = (i : ℕ) → IsConn (s.conns i)

apply_ack-IsConn : (ack : ℕ) (c : Conn) → IsConn c → IsConn (apply_ack ack c)
unfolding apply_ack IsConn
apply_ack-IsConn ack c h = ground (arith, length-drop (wrapping_sub ack c.out_seq) c.out)

accept_payload-IsConn : (payload : List ℕ) (c : Conn) → IsConn c → IsConn (accept_payload payload c)
unfolding accept_payload IsConn
accept_payload-IsConn payload c h = ground (
  arith,
  length-append c.rx (take (min (length payload) (2048 - length c.rx)) payload),
  length-take (min (length payload) (2048 - length c.rx)) payload,
)

apply_ack_done :
    (ack : ℕ) (c : Conn)
    → (ltb 0 (wrapping_sub ack (apply_ack ack c).snd_una) && not (ack == 0)) ≡ false
unfolding apply_ack
apply_ack_done ack c = ground arith

-- After `apply_ack` snd_una is the acknowledged number, so the test for FIN_WAIT2 fails.
pub ack_fin_stays : (ack : ℕ) (c : Conn) → ack_fin ack c ≡ apply_ack ack c
unfolding ack_fin
ack_fin_stays ack c = rw (apply_ack_done ack c) refl

pub set_conn-Inv : (i : ℕ) (c : Conn) (s : Tcp) → Inv s → IsConn c → Inv (set_conn i c s)
unfolding Inv
set_conn-Inv i c s inv h = λ j. update_either s.conns IsConn i c j h (inv j)

pub modify-Inv :
    (f : Conn → Conn) (i : ℕ) (s : Tcp)
    → ((c : Conn) → IsConn c → IsConn (f c))
    → Inv s
    → Inv (modify i f s)
unfolding Inv
modify-Inv f i s h inv = set_conn-Inv i (f (s.conns i)) s inv (h (s.conns i) (inv i))

pub if-Inv : (t : Bool) (s s' : Tcp) → Inv s → Inv s' → Inv (if t then s else s')
if-Inv true s s' inv inv' = inv
if-Inv false s s' inv inv' = inv'

pub tcp_send-Inv :
    (idx flags : ℕ) (payload : List ℕ) (s : Tcp) → Inv s → Inv (tcp_send idx flags payload s)
unfolding Inv tcp_send tcp_send_seq
tcp_send-Inv idx flags payload s inv = inv

pub conn_empty-IsConn : IsConn conn_empty
unfolding IsConn
conn_empty-IsConn = (omega arith, omega arith, omega arith, omega arith, refl)

ack_if-IsConn : (flags ack : ℕ) (c : Conn) → IsConn c → IsConn (ack_if flags ack c)
ack_if-IsConn flags ack c h = elim (Bool-cases (has flags flag_ack)) [
  | inl t ↦ rw t (apply_ack-IsConn ack c h)
  | inr f ↦ rw f h
]

ack_fin-IsConn : (ack : ℕ) (c : Conn) → IsConn c → IsConn (ack_fin ack c)
ack_fin-IsConn ack c h = rw (ack_fin_stays ack c) (apply_ack-IsConn ack c h)

accept_fin-IsConn :
    (st : State) (c : Conn) → state_eq st fin_wait2 ≡ false → IsConn c → IsConn (accept_fin st c)
unfolding IsConn
accept_fin-IsConn st c n h = ground arith

fin_in_wait1-IsConn : (c : Conn) → IsConn c → IsConn (fin_in_wait1 c)
unfolding IsConn
fin_in_wait1-IsConn c h = elim (Bool-cases (state_eq c.state fin_wait1)) [
  | inl t ↦ rw t (accept_fin-IsConn closing c refl h)
  | inr f ↦ rw f (accept_fin-IsConn c.state c (ground arith) h)
]

ack_closing-IsConn : (ack : ℕ) (c : Conn) → IsConn c → IsConn (ack_closing ack c)
unfolding IsConn
ack_closing-IsConn ack c h =
    let h' = apply_ack-IsConn ack c h in
    elim (Bool-cases (state_eq (apply_ack ack c).state close_wait)) [
      | inl t ↦ rw t (ground arith)
      | inr f ↦ rw f h'
    ]

take_payload-Inv : (idx : ℕ) (payload : List ℕ) (s : Tcp) → Inv s → Inv (take_payload idx payload s)
take_payload-Inv idx [] s inv = inv
take_payload-Inv idx (b ∷ bs) s inv =
    tcp_send-Inv idx flag_ack [] _
      (modify-Inv (accept_payload (b ∷ bs)) idx s (accept_payload-IsConn (b ∷ bs)) inv)

module _ (idx : ℕ) (seg : Segment) where
  in_established-Inv : (s : Tcp) → Inv s → Inv (in_established idx seg s)
  unfolding in_established
  in_established-Inv s inv =
      let inv' =
        take_payload-Inv idx seg.payload _
          (modify-Inv (ack_if seg.flags seg.ack) idx s (ack_if-IsConn seg.flags seg.ack) inv) in
      if-Inv (has seg.flags flag_fin) _ _
        (tcp_send-Inv idx flag_ack [] _ (
          modify-Inv (accept_fin close_wait) idx _ (λ c h. accept_fin-IsConn close_wait c refl h)
            inv'))
        inv'

  in_fin_wait1-Inv : (s : Tcp) → Inv s → Inv (in_fin_wait1 idx seg s)
  unfolding in_fin_wait1
  in_fin_wait1-Inv s inv =
      let inv' =
        if-Inv (has seg.flags flag_ack) _ _
          (modify-Inv (ack_fin seg.ack) idx s (ack_fin-IsConn seg.ack) inv) inv in
      if-Inv (has seg.flags flag_fin) _ _
        (tcp_send-Inv idx flag_ack [] _ (modify-Inv fin_in_wait1 idx _ fin_in_wait1-IsConn inv'))
        inv'

  in_last-Inv : (s : Tcp) → Inv s → Inv (in_last idx seg s)
  unfolding in_last
  in_last-Inv s inv =
      if-Inv (has seg.flags flag_ack) _ _ (set_conn-Inv idx conn_empty s inv conn_empty-IsConn) inv

  in_state-Inv :
      (st : State) (s : Tcp) → Inv s → state_eq st fin_wait2 ≡ false → Inv (in_state st idx seg s)
  unfolding IsConn in_state in_syn_sent in_syn_rcvd in_close_wait
  in_state-Inv closed s inv n = inv
  in_state-Inv listening s inv n = inv
  in_state-Inv syn_sent s inv n =
      if-Inv (has seg.flags flag_syn && has seg.flags flag_ack) _ _
        (tcp_send-Inv idx flag_ack [] _ (
          modify-Inv
            (λ c. record c {
              rcv_nxt = wrapping_add seg.seq 1;
              snd_una = seg.ack;
              state = established;
            })
            idx s (λ c h. ground arith) inv))
        inv
  in_state-Inv syn_rcvd s inv n =
      if-Inv (has seg.flags flag_ack) _ _
        (modify-Inv (λ c. record c { snd_una = seg.ack; state = established }) idx s
          (λ c h. ground arith) inv)
        inv
  in_state-Inv established s inv n = in_established-Inv s inv
  in_state-Inv fin_wait1 s inv n = in_fin_wait1-Inv s inv
  in_state-Inv fin_wait2 s inv n = absurd (cc n)
  in_state-Inv close_wait s inv n =
      if-Inv (has seg.flags flag_ack) _ _
        (modify-Inv (ack_closing seg.ack) idx s (ack_closing-IsConn seg.ack) inv) inv
  in_state-Inv last_ack s inv n = in_last-Inv s inv
  in_state-Inv closing s inv n = in_last-Inv s inv

  pub handle_segment-Inv :
      (peer_ip peer_mac : List ℕ) (s : Tcp)
      → Inv s
      → Inv (handle_segment idx peer_ip peer_mac seg s)
  unfolding Inv IsConn handle_segment
  handle_segment-Inv peer_ip peer_mac s inv =
      let (rx, out, rcv, snd, other) = inv idx in
      if-Inv (has seg.flags flag_rst) _ _ (set_conn-Inv idx conn_empty s inv conn_empty-IsConn) (
        in_state-Inv (s.conns idx).state _
          (modify-Inv (λ c. record c { remote_mac = peer_mac; peer_ip = peer_ip }) idx s (λ c h. h)
            inv)
          other)
