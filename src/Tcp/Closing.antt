-- ===== src/Tcp/Closing.antt =====
-- kernel/src/driver/tcp.rs: how a connection ends, and where its first data byte stands.
use dbsos.Common.{
  ℕ, Bool, true, false, ◌≡◌, refl, sym, ap, subst, ◌∙◌, arith, List, [], update, update_self,
}
use dbsos.Tcp.{
  State, fin_wait1, close_wait, last_ack, closing, Conn, conn_empty, Tcp, set_conn, has, tcp_send,
  tcp_send_seq, flag_rst,
}
use dbsos.Tcp.Wire.{Segment}
use dbsos.Tcp.Input.{
  modify, apply_ack, ack_fin, in_fin_wait1, in_close_wait, in_state, handle_segment, fin_in_wait1,
  ack_closing,
}
use dbsos.Tcp.Api.{close, close_in}
use dbsos.Tcp.Invariant.{ack_fin_stays}

-- A segment without data.
abbrev pub bare_segment : (dport sport seq ack flags : ℕ) → Segment
bare_segment dport sport seq ack flags = record {
  dport = dport;
  sport = sport;
  seq = seq;
  ack = ack;
  flags = flags;
  payload = [];
}

apply_ack-state : (ack : ℕ) (c : Conn) → (apply_ack ack c).state ≡ c.state
unfolding apply_ack
apply_ack-state ack c = ground arith

apply_ack-in_use : (ack : ℕ) (c : Conn) → (apply_ack ack c).in_use ≡ c.in_use
unfolding apply_ack
apply_ack-in_use ack c = ground arith

module _ (idx : ℕ) (peer_ip peer_mac : List ℕ) (s : Tcp) where
  -- The connection as `handle_segment` hands it on, and the table with it.
  unfoldable pub seen : Conn
  seen = record (s.conns idx) { remote_mac = peer_mac; peer_ip = peer_ip }

  pub handle_segment-state :
      (seg : Segment) (st : State)
      → has seg.flags flag_rst ≡ false
      → (s.conns idx).state ≡ st
      → handle_segment idx peer_ip peer_mac seg s ≡ in_state st idx seg (set_conn idx seen s)
  unfolding handle_segment seen
  handle_segment-state seg st r e =
      rw (r, handle_segment) (ap (λ x. in_state x idx seg (set_conn idx seen s)) e)

  -- Two changes of one connection, one after the other.
  pub modify-seen : (f : Conn → Conn) → (modify idx f (set_conn idx seen s)).conns idx ≡ f seen
  modify-seen f = update_self (update s.conns idx seen) idx _ ∙ ap f (update_self s.conns idx seen)

  ack_fin-seen :
      (ack : ℕ) (st : State)
      → (s.conns idx).state ≡ st
      → (s.conns idx).in_use ≡ true
      → ((ack_fin ack seen).state ≡ st) × ((ack_fin ack seen).in_use ≡ true)
  unfolding seen
  ack_fin-seen ack st e u =
      rw (ack_fin_stays ack seen) (apply_ack-state ack seen ∙ e, apply_ack-in_use ack seen ∙ u)

  -- FIN_WAIT1 stays at an ACK, whatever it acknowledges.
  fin_wait1-ack :
      (dport sport seq ack : ℕ)
      → (s.conns idx).state ≡ fin_wait1
      → (s.conns idx).in_use ≡ true
      → (((handle_segment idx peer_ip peer_mac (bare_segment dport sport seq ack 0x10) s).conns
            idx).state
          ≡ fin_wait1)
        × (((handle_segment idx peer_ip peer_mac (bare_segment dport sport seq ack 0x10) s).conns
              idx).in_use
            ≡ true)
  unfolding in_state in_fin_wait1
  fin_wait1-ack dport sport seq ack e u =
      rw (handle_segment-state (bare_segment dport sport seq ack 0x10) fin_wait1 refl e)
        (rw (modify-seen (ack_fin ack)) (ack_fin-seen ack fin_wait1 e u))

  -- At a FIN with an ACK it goes to CLOSING.
  fin_wait1-fin :
      (dport sport seq ack : ℕ)
      → (s.conns idx).state ≡ fin_wait1
      → (s.conns idx).in_use ≡ true
      → (((handle_segment idx peer_ip peer_mac (bare_segment dport sport seq ack 0x11) s).conns
            idx).state
          ≡ closing)
        × (((handle_segment idx peer_ip peer_mac (bare_segment dport sport seq ack 0x11) s).conns
              idx).in_use
            ≡ true)
  unfolding in_state in_fin_wait1 tcp_send tcp_send_seq
  fin_wait1-fin dport sport seq ack e u =
      let (st, used) = ack_fin-seen ack fin_wait1 e u in
      let c = ack_fin ack seen in
      rw (handle_segment-state (bare_segment dport sport seq ack 0x11) fin_wait1 refl e) (
        rw
          (update_self (modify idx (ack_fin ack) (set_conn idx seen s)).conns idx
            (fin_in_wait1 ((modify idx (ack_fin ack) (set_conn idx seen s)).conns idx)))
          (rw (modify-seen (ack_fin ack)) (rw st (refl, used))))

-- The normal end of a connection that our side closes first: its peer acknowledges the FIN, and then sends its own.
-- The connection is then in CLOSING and keeps its slot, and waits for a further ACK.
pub close_stays :
    (idx : ℕ) (peer_ip peer_mac : List ℕ) (s : Tcp) (dport sport seq ack seq' ack' : ℕ)
    → (s.conns idx).state ≡ fin_wait1
    → (s.conns idx).in_use ≡ true
    → (((handle_segment idx peer_ip peer_mac
            (bare_segment dport sport seq' ack' 0x11)
            (handle_segment idx peer_ip peer_mac (bare_segment dport sport seq ack 0x10) s)).conns
          idx).state
        ≡ closing)
      × (((handle_segment idx peer_ip peer_mac
              (bare_segment dport sport seq' ack' 0x11)
              (handle_segment idx peer_ip peer_mac (bare_segment dport sport seq ack 0x10) s)).conns
            idx).in_use
          ≡ true)
close_stays idx peer_ip peer_mac s dport sport seq ack seq' ack' e u =
    let (st, used) = fin_wait1-ack idx peer_ip peer_mac s dport sport seq ack e u in
    fin_wait1-fin idx peer_ip peer_mac _ dport sport seq' ack' st used

-- In CLOSE_WAIT an ACK, which may be one of data, leads to LAST_ACK; `close` then sends nothing, and in particular no
-- FIN, and frees the slot.
pub close_sends_no_fin :
    (ok : Bool) (idx : ℕ) (peer_ip peer_mac : List ℕ) (s : Tcp) (dport sport seq ack : ℕ)
    → (s.conns idx).state ≡ close_wait
    → ((close ok idx
          (handle_segment idx peer_ip peer_mac (bare_segment dport sport seq ack 0x10) s)).sent
        ≡ s.sent)
      × ((close ok idx
              (handle_segment idx peer_ip peer_mac (bare_segment dport sport seq ack 0x10) s)).conns
            idx
          ≡ conn_empty)
unfolding close close_in in_state in_close_wait seen
close_sends_no_fin ok idx peer_ip peer_mac s dport sport seq ack e =
    let c = seen idx peer_ip peer_mac s in
    let s' = modify idx (ack_closing ack) (set_conn idx c s) in
    let st : (ack_closing ack c).state ≡ last_ack = rw (apply_ack-state ack c) (rw e refl) in
    rw
      (handle_segment-state idx peer_ip peer_mac s (bare_segment dport sport seq ack 0x10)
        close_wait refl e)
      (subst
        (λ x.
          ((close_in x ok idx s').sent ≡ s.sent) × ((close_in x ok idx s').conns idx ≡ conn_empty))
        (sym (ap (λ d. d.state) (modify-seen idx peer_ip peer_mac s (ack_closing ack)) ∙ st))
        (refl, update_self s'.conns idx conn_empty))
