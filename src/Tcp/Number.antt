-- ===== src/Tcp/Number.antt =====
-- kernel/src/driver/tcp.rs: the sequence number of the first data byte.
use dbsos.Common.{
  ℕ, true, none, some, ◌≡◌, refl, sym, ap, subst, ◌∙◌, ◌<◌, ◌≤◌, arith, inl, inr, Option-cases,
  length, List, [], update, update_self, find_from, not,
}
use dbsos.Tcp.{
  established, syn_sent, Conn, conn_empty, Tcp, set_conn, tcp_send, tcp_send_seq, alloc_conn,
  next_isn, next_ephemeral, flag_syn, wrapping_add,
}
use dbsos.Tcp.Wire.{segment_bytes}
use dbsos.Tcp.Input.{modify, in_syn_sent, in_state, handle_segment}
use dbsos.Tcp.Api.{may_send, send, connect, dialling}
use dbsos.Tcp.Delivery.{last_segment, last_segment-send}
use dbsos.Tcp.Closing.{bare_segment, seen, handle_segment-state, modify-seen}

alloc_conn-some :
    (s : Tcp) (i : ℕ)
    → (alloc_conn s).1 ≡ some i
    → (alloc_conn s).0 ≡ set_conn i (record conn_empty { in_use = true }) s
unfolding alloc_conn
alloc_conn-some s i e = elim (Option-cases (find_from 8 0 (λ j. not (s.conns j).in_use))) [
  | inl n ↦ let z : (alloc_conn s).1 ≡ none = rw (n, alloc_conn) refl in absurd (cc (z, e))
  | inr (j, n) ↦
      let z : (alloc_conn s).1 ≡ some j = rw (n, alloc_conn) refl in
      let same : j ≡ i = cc (z, e) in
      rw (n, alloc_conn) (ap (λ m. set_conn m (record conn_empty { in_use = true }) s) same)
]

module _ (ticks i : ℕ) (peer_ip mac : List ℕ) (port : ℕ) (s : Tcp) where
  -- The connection that `connect` sets up.
  dialled : Conn
  dialled =
      dialling peer_ip mac port (next_ephemeral s).1 (next_isn ticks s).1
        (record conn_empty { in_use = true })

  before : Tcp
  before =
      (next_isn ticks (next_ephemeral (set_conn i (record conn_empty { in_use = true }) s)).0).0

  connect-some :
      (alloc_conn s).1 ≡ some i
      → (connect ticks peer_ip mac port s).0
        ≡ tcp_send i flag_syn []
            (modify i (dialling peer_ip mac port (next_ephemeral s).1 (next_isn ticks s).1) before)
  unfolding connect before
  connect-some e = rw (e, connect) (rw (alloc_conn-some s i e) refl)

  dials :
      (modify i (dialling peer_ip mac port (next_ephemeral s).1 (next_isn ticks s).1) before).conns
        i
      ≡ dialled
  unfolding dialled before next_isn next_ephemeral
  dials =
      update_self (update s.conns i (record conn_empty { in_use = true })) i _
      ∙ ap (dialling peer_ip mac port (next_ephemeral s).1 (next_isn ticks s).1)
          (update_self s.conns i (record conn_empty { in_use = true }))

  -- The stack after `connect`, and after a SYN with an ACK for the connection.
  called : Tcp
  called =
      tcp_send i flag_syn []
        (modify i (dialling peer_ip mac port (next_ephemeral s).1 (next_isn ticks s).1) before)

  called-segment :
      last_segment called
      ≡ segment_bytes s.own_ip peer_ip (next_ephemeral s).1 port (next_isn ticks s).1 0 flag_syn []
  unfolding called tcp_send tcp_send_seq before next_isn next_ephemeral dialled
  called-segment = rw dials refl

  module _ (peer_mac : List ℕ) (dport sport seq ack : ℕ) where
    answered : Tcp
    answered = handle_segment i peer_ip peer_mac (bare_segment dport sport seq ack 0x12) called

    joined : Conn
    joined = record dialled {
      remote_mac = peer_mac;
      peer_ip = peer_ip;
      rcv_nxt = wrapping_add seq 1;
      snd_una = ack;
      state = established;
    }

    answered-joined : (answered.conns i ≡ joined) × (answered.own_ip ≡ s.own_ip)
    unfolding answered joined called in_state in_syn_sent tcp_send tcp_send_seq dialled seen before
        next_isn next_ephemeral
    answered-joined =
        let f : Conn → Conn =
          λ c. record c { rcv_nxt = wrapping_add seq 1; snd_una = ack; state = established } in
        rw
          (handle_segment-state i peer_ip peer_mac called (bare_segment dport sport seq ack 0x12)
            syn_sent refl (ap (λ c. c.state) dials))
          (
            modify-seen i peer_ip peer_mac called f
                ∙ ap (λ c. f (record c { remote_mac = peer_mac; peer_ip = peer_ip })) dials,
            refl,
          )

    answered-send :
        (now : ℕ) (payload : List ℕ)
        → 0 < length payload
        → length payload ≤ 1400
        → last_segment (send now true i payload answered).0
          ≡ segment_bytes s.own_ip peer_ip
              (next_ephemeral s).1
              port
              (next_isn ticks s).1
              (wrapping_add seq 1)
              0x18
              payload
    unfolding joined dialled
    answered-send now payload p q =
        let (conn, own) = answered-joined in
        let may : may_send payload joined ≡ true = ground arith in
        rw
          (last_segment-send now i payload answered
            (subst (λ c. may_send payload c ≡ true) (sym conn) may))
          (rw conn (rw own refl))

-- The first data of a connection that `connect` opened has the sequence number of the SYN: where `connect` takes slot
-- `i`, and a SYN with an ACK arrives for it, the SYN and the segment of the first data are both numbered with the
-- initial number, which the SYN has used up.
pub connect-send_number :
    (ticks now i : ℕ) (peer_ip mac peer_mac : List ℕ) (port : ℕ) (s : Tcp) (dport sport seq ack : ℕ)
    (payload : List ℕ)
    → (alloc_conn s).1 ≡ some i
    → 0 < length payload
    → length payload ≤ 1400
    → (last_segment (connect ticks peer_ip mac port s).0
        ≡ segment_bytes s.own_ip peer_ip
            (next_ephemeral s).1
            port
            (next_isn ticks s).1
            0
            flag_syn
            [])
      × (last_segment
            (send now true i payload (
              handle_segment i peer_ip peer_mac
                (bare_segment dport sport seq ack 0x12)
                (connect ticks peer_ip mac port s).0)).0
          ≡ segment_bytes s.own_ip peer_ip
              (next_ephemeral s).1
              port
              (next_isn ticks s).1
              (wrapping_add seq 1)
              0x18
              payload)
unfolding called answered
connect-send_number ticks now i peer_ip mac peer_mac port s dport sport seq ack payload e p q =
    rw (connect-some ticks i peer_ip mac port s e) (
      called-segment ticks i peer_ip mac port s,
      answered-send ticks i peer_ip mac port s peer_mac dport sport seq ack now payload p q,
    )
