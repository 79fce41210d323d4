-- ===== src/Ack/Limits.antt =====
-- What else holds of a peer at all times: its window size, V(R) and address stay in their ranges,
-- and no more frames wait for their acknowledgment than the window allows.
use io_hdlc.Base.{
  ℕ, ◌≤◌, ◌<◌, Bool, true, false, ◌&&◌, List, [], ◌∷◌, ◌≡◌, inl, inr, refl, sym, ap, subst, arith,
  length, ◌==◌, Bool-cases,
}
use io_hdlc.State.{
  Framing, Frame, Peer, Link, stop_timer, set_timer, i_frame_reply_timer_used, if-elim,
}
use io_hdlc.Ack.{
  acknowledge, acknowledge_loop, process_nr, checkpoint_scan, checkpoint_retransmit, rej_move,
  rej_retransmit,
}
use io_hdlc.Ack.Process.{loop_stop, loop_next}

pub record LimitsAt (f : Framing) (retrans : List Frame) (ks vr addr : ℕ) : Type 0 where
  pub window : length retrans ≤ ks
  pub ks_le : ks ≤ f.modmask
  pub vr_le : vr ≤ f.modmask
  pub octet : addr < 256

abbrev pub Limits : Framing → Peer → Type 0
Limits f p = LimitsAt f p.i_retrans_q p.ks p.vr p.addr

module _ (f : Framing) where
  acknowledge_loop-Limits :
      (nr : ℕ) (q : List Frame) (l : Link) (released : Bool)
      → l.p.i_retrans_q ≡ q
      → Limits f l.p
      → Limits f (acknowledge_loop nr q l released).0.p
  unfolding acknowledge_loop acknowledge
  acknowledge_loop-Limits nr [] l released e h = h
  acknowledge_loop-Limits nr (fp ∷ q) l released e h = elim (Bool-cases (l.p.nr == nr)) [
    | inl stop ↦ subst (λ r. Limits f r.0.p) (sym (loop_stop nr fp q l released stop)) h
    | inr next ↦
        let len = ap length e in
        let window = h.window in
        subst (λ r. Limits f r.0.p) (sym (loop_next nr fp q l released next))
          (acknowledge_loop-Limits nr q (acknowledge fp q l) true refl
            (record { window = omega arith; ks_le = h.ks_le; vr_le = h.vr_le; octet = h.octet }))
  ]

  pub process_nr-Limits : (nr : ℕ) (l : Link) → Limits f l.p → Limits f (process_nr nr l).0.p
  unfolding process_nr stop_timer set_timer
  process_nr-Limits nr l h =
      let acked = (acknowledge_loop nr l.p.i_retrans_q l false).0 in
      let kept = acknowledge_loop-Limits nr l.p.i_retrans_q l false refl h in
      if-elim (λ (r : Link). Limits f r.p)
        (i_frame_reply_timer_used acked.s && (acked.p.nr == acked.p.t3_expected_nr)) _ _ kept kept

  -- All of `i_retrans_q` has been moved.
  moved : (p : Peer) → Limits f p → LimitsAt f [] p.ks p.vr p.addr
  moved p h = record { window = omega arith; ks_le = h.ks_le; vr_le = h.vr_le; octet = h.octet }

  pub checkpoint_retransmit-Limits :
      (p : Peer) → Limits f p → Limits f (checkpoint_retransmit f p).0
  unfolding checkpoint_retransmit
  checkpoint_retransmit-Limits p h =
      let first = checkpoint_scan f p.vs_atlast_pf p.i_retrans_q 0 in
      if-elim (λ (r : Peer × Bool). Limits f r.0) (first == 0) _ _ h (moved p h)

  rej_move-Limits : (q : List Frame) (p : Peer) → Limits f p → Limits f (rej_move f q p).0
  unfolding rej_move
  rej_move-Limits [] p h = h
  rej_move-Limits (fp ∷ q) p h = moved p h

  pub rej_retransmit-Limits : (p : Peer) → Limits f p → Limits f (rej_retransmit f p).0
  unfolding rej_retransmit
  rej_retransmit-Limits p h =
      if-elim (λ (r : Peer × Bool). Limits f r.0) (p.chkpt_actioned == 0) _ _
        (rej_move-Limits p.i_retrans_q p h) h
