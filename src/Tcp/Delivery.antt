-- ===== src/Tcp/Delivery.antt =====
-- kernel/src/driver/tcp.rs: two stacks, one at each end of an established connection.
use dbsos.Common.{
  ℕ, ◌-◌, ◌^◌, min, true, false, some, ◌≡◌, refl, sym, subst, ◌∙◌, ◌<◌, ◌≤◌, arith, ◌==◌, length,
  List, [], ◌∷◌, update, update_self, take_all,
}
use dbsos.Tcp.{established, Conn, Tcp, find_tuple, tcp_send, tcp_send_seq}
use dbsos.Tcp.Wire.{Segment, segment_bytes, parse-segment_bytes}
use dbsos.Tcp.Input.{
  modify, apply_ack, accept_payload, in_established, in_state, handle_segment, input_segment, input,
}
use dbsos.Tcp.Api.{may_send, keep_out, send, recv}

abbrev pub last_segment : Tcp → List ℕ
last_segment s = elim s.sent [ [] ↦ [] | p ∷ ps ↦ p.segment ]

pub last_segment-send :
    (now idx : ℕ) (payload : List ℕ) (s : Tcp)
    → may_send payload (s.conns idx) ≡ true
    → last_segment (send now true idx payload s).0
      ≡ segment_bytes s.own_ip
          (s.conns idx).peer_ip
          (s.conns idx).local_port
          (s.conns idx).remote_port
          (s.conns idx).snd_nxt
          (s.conns idx).rcv_nxt
          0x18
          payload
unfolding send tcp_send tcp_send_seq
last_segment-send now idx payload s m =
    rw (m, send) (rw (update_self s.conns idx (keep_out now payload (s.conns idx))) refl)

apply_ack-rx : (ack : ℕ) (c : Conn) → (apply_ack ack c).rx ≡ c.rx
unfolding apply_ack
apply_ack-rx ack c = ground arith

-- A segment of data, with flags PSH and ACK.
abbrev pub data_segment : (dport sport seq ack : ℕ) (payload : List ℕ) → Segment
data_segment dport sport seq ack payload = record {
  dport = dport;
  sport = sport;
  seq = seq;
  ack = ack;
  flags = 0x18;
  payload = payload;
}

accept_payload-rx :
    (payload : List ℕ) (c : Conn)
    → c.rx ≡ []
    → length payload ≤ 2048
    → (accept_payload payload c).rx ≡ payload
unfolding accept_payload
accept_payload-rx payload c e s =
    let n : min (length payload) (2048 - 0) ≡ length payload = omega arith in
    rw e (rw n (take_all (length payload) payload (omega arith)))

-- An established connection that has read all it got takes up to 2048 bytes of data.
in_established-rx :
    (j dport sport seq ack b : ℕ) (bs : List ℕ) (t : Tcp)
    → (t.conns j).rx ≡ []
    → length (b ∷ bs) ≤ 2048
    → ((in_established j (data_segment dport sport seq ack (b ∷ bs)) t).conns j).rx ≡ b ∷ bs
unfolding in_established tcp_send tcp_send_seq
in_established-rx j dport sport seq ack b bs t e s =
    let c = apply_ack ack (t.conns j) in
    let first : update t.conns j c j ≡ c = update_self t.conns j c in
    rw (update_self (update t.conns j c) j (accept_payload (b ∷ bs) (update t.conns j c j)))
      (rw first (accept_payload-rx (b ∷ bs) c (apply_ack-rx ack (t.conns j) ∙ e) s))

recv-all :
    (j room : ℕ) (t : Tcp) (b : ℕ) (bs : List ℕ)
    → (t.conns j).rx ≡ b ∷ bs
    → length (b ∷ bs) ≤ room
    → (recv j room t).1 ≡ b ∷ bs
unfolding recv
recv-all j room t b bs e s =
    let n : min room (length (b ∷ bs)) ≡ length (b ∷ bs) = omega arith in
    let z : (length (b ∷ bs) == 0) ≡ false = ground arith in
    rw (e, recv) (rw n (rw z (take_all (length (b ∷ bs)) (b ∷ bs) (omega arith))))

may_send-length : (payload : List ℕ) (c : Conn) → may_send payload c ≡ true → length payload ≤ 1400
may_send-length payload c m = ground arith

-- Where `send` takes some data on one stack, and the other end has an established connection that has read all it
-- got: when the segment that was sent reaches the other stack, `recv` there gives exactly the data, with room for it.
pub recv-input-send :
    (s t : Tcp) (idx j now ticks room : ℕ) (mac : List ℕ) (b : ℕ) (bs : List ℕ)
    → may_send (b ∷ bs) (s.conns idx) ≡ true
    → (s.conns idx).local_port < 2 ^ 16
    → (s.conns idx).remote_port < 2 ^ 16
    → (s.conns idx).snd_nxt < 2 ^ 32
    → (s.conns idx).rcv_nxt < 2 ^ 32
    → find_tuple (s.conns idx).remote_port (s.conns idx).local_port s.own_ip t ≡ some j
    → (t.conns j).state ≡ established
    → (t.conns j).rx ≡ []
    → length (b ∷ bs) ≤ room
    → (recv j room (input ticks s.own_ip mac (last_segment (send now true idx (b ∷ bs) s).0) t)).1
      ≡ b ∷ bs
unfolding input handle_segment in_state
recv-input-send s t idx j now ticks room mac b bs m l r q a found est e fits =
    let c = s.conns idx in
    let parsed =
      parse-segment_bytes s.own_ip c.peer_ip c.local_port c.remote_port c.snd_nxt c.rcv_nxt 0x18
        (b ∷ bs) l r q a in
    let t' = modify j (λ d. record d { remote_mac = mac; peer_ip = s.own_ip }) t in
    let got =
      in_established-rx j c.remote_port c.local_port c.snd_nxt c.rcv_nxt b bs t'
        (rw (update_self t.conns j (record (t.conns j) { remote_mac = mac; peer_ip = s.own_ip })) e)
        (omega (arith, may_send-length (b ∷ bs) c m)) in
    rw (last_segment-send now idx (b ∷ bs) s m) (
      rw (parsed, input)
        (rw (found, input_segment)
          (recv-all j room _ b bs
            (subst
              (λ x.
                ((in_state x j
                    (data_segment c.remote_port c.local_port c.snd_nxt c.rcv_nxt (b ∷ bs)) t').conns
                  j).rx
                ≡ b ∷ bs)
              (sym est) got)
            fits)))
