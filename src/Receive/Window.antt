-- ===== src/Receive/Window.antt =====
-- Reception and the transmit window.
use io_hdlc.Base.{
  ℕ, Bool, true, false, not, ◌&&◌, Option, none, some, List, [], ◌∷◌, ◌++◌, ◌≡◌, if◌then◌else◌, sym,
  ◌<◌, ◌≤◌, ◌-◌, subst, bit_and, ◌==◌,
}
use io_hdlc.State.{
  Frame, Framing, Station, Peer, TimerKind, Link, Event, on_station, on_peer, emit, when, ◌▷◌,
  if-elim, timer, set_timer, start_timer, stop_timer, restart_timer, is_nrm, is_abm,
  i_frame_reply_timer_used, set_need_p,
}
use io_hdlc.State.TimerKind.{reply, t3}
use io_hdlc.State.Effect.{wake_tx}
use io_hdlc.State.Event.{tx_ifrm_enq}
use io_hdlc.Control.SFun
use io_hdlc.Control.{frame_ctrl, is_i_frm, extract_ns, extract_nr, frame_get_pf}
use io_hdlc.Retry.{idle_poll_timeout_ms, reply_timer_timeout_ms}
use io_hdlc.Ack.{next_number, is_nr_valid, process_nr, checkpoint_retransmit, rej_retransmit}
use io_hdlc.Ack.Window.{Modulus, IsWindow, HasWindow, next_number_lem, advance-le}
use io_hdlc.Ack.Limits.{
  Limits, process_nr-Limits, checkpoint_retransmit-Limits, rej_retransmit-Limits,
}
use io_hdlc.Ack.Process.{process_nr-IsWindow, process_nr-station}
use io_hdlc.Ack.Retransmit.{checkpoint_retransmit-HasWindow, rej_retransmit-HasWindow}
use io_hdlc.Receive.{
  Outcome, set_frmr_condition, checkpoint_pf, answer_pf, handle_no_pf, handle_checkpoint_and_ack,
  raw_rx_deliver, reject_i_frame, accept_i_frame, handle_i_frame, handle_rej, handle_s_frame,
  frmr_rx, invalid_nr_rx, dispatch_rx, broadcast_any, acked_rx, common_rx,
}

-- A station that counts modulo `f`, and whose address is an octet.
abbrev pub IsStation : Framing → Station → Type 0
IsStation f s = (s.framing ≡ f) × (s.addr < 256)

-- A peer that has a window whose frames not yet sent are `fresh`, and keeps to its limits.
abbrev pub PeerStands : Framing → List Frame → Peer → Type 0
PeerStands f fresh p = HasWindow f fresh p × Limits f p

abbrev pub Stands : Framing → List Frame → Link → Type 0
Stands f fresh l = IsStation f l.s × PeerStands f fresh l.p

module _ (f : Framing) (fresh : List Frame) where
  restart_timer-Stands :
      (k : TimerKind) (l : Link) (ms : ℕ)
      → Stands f fresh l
      → Stands f fresh (on_peer (restart_timer k ms) l)
  unfolding restart_timer timer start_timer set_timer
  restart_timer-Stands reply l ms (e, w) =
      (e, if-elim (PeerStands f fresh) l.p.reply_tmr.armed _ _ w w)
  restart_timer-Stands t3 l ms (e, w) = (e, if-elim (PeerStands f fresh) l.p.t3_tmr.armed _ _ w w)

  answer_pf-Stands :
      (is_command : Bool) (l : Link) → Stands f fresh l → Stands f fresh (answer_pf is_command l)
  unfolding answer_pf stop_timer start_timer set_timer
  answer_pf-Stands true l h = h
  answer_pf-Stands false l h = if-elim (Stands f fresh) (is_nrm l.s) _ _ h h

  handle_no_pf-Stands :
      (is_command : Bool) (l : Link) → Stands f fresh l → Stands f fresh (handle_no_pf is_command l)
  unfolding handle_no_pf
  handle_no_pf-Stands true l h = h
  handle_no_pf-Stands false l h =
      let restarted = on_peer (restart_timer t3 (idle_poll_timeout_ms l.s)) l in
      let idled = when (is_nrm l.s) (on_peer (restart_timer t3 (idle_poll_timeout_ms l.s))) l in
      let idle : Stands f fresh idled =
        if-elim (Stands f fresh) (is_nrm l.s) restarted l
          (restart_timer-Stands t3 l (idle_poll_timeout_ms l.s) h) h in
      if-elim (Stands f fresh) (not l.s.f_rcved) _ _
        (restart_timer-Stands reply idled (reply_timer_timeout_ms l.s l.p) idle) idle

  process_nr-Stands :
      Modulus f → (nr : ℕ) (l : Link) → Stands f fresh l → Stands f fresh (process_nr nr l).0
  process_nr-Stands m nr l ((e, small), ((resend, w), limits)) = (
    subst (IsStation f) (sym (process_nr-station nr l)) (e, small),
    (
      (
        resend,
        subst (λ g. IsWindow g (process_nr nr l).0.p resend fresh) e
            (process_nr-IsWindow nr l resend fresh (subst Modulus (sym e) m)
              (subst (λ g. IsWindow g l.p resend fresh) (sym e) w)),
      ),
      process_nr-Limits f nr l limits,
    ),
  )

  checkpoint_pf-Stands :
      Modulus f
      → (is_command : Bool) (l : Link) → Stands f fresh l
      → Stands f fresh (checkpoint_pf is_command l).0
  unfolding checkpoint_pf stop_timer set_timer
  checkpoint_pf-Stands m is_command l (e, w) =
      let g = l.s.framing in
      let kept : PeerStands f fresh (checkpoint_retransmit g l.p).0 =
        subst (λ h. PeerStands f fresh (checkpoint_retransmit h l.p).0) (sym e.0)
          (
            checkpoint_retransmit-HasWindow f l.p fresh m w.0,
            checkpoint_retransmit-Limits f l.p w.1,
          ) in
      if-elim (λ (r : Link × Bool). Stands f fresh r.0) (is_abm l.s && is_command) _ _ (e, w)
        (if-elim (Stands f fresh) ((checkpoint_retransmit g l.p).1 && i_frame_reply_timer_used l.s)
          _ _ (e, kept) (e, kept))

  handle_rej-Stands : Modulus f → (l : Link) → Stands f fresh l → Stands f fresh (handle_rej l).0
  unfolding handle_rej
  handle_rej-Stands m l (e, w) =
      let kept : PeerStands f fresh (rej_retransmit l.s.framing l.p).0 =
        subst (λ h. PeerStands f fresh (rej_retransmit h l.p).0) (sym e.0)
          (rej_retransmit-HasWindow f l.p fresh m w.0, rej_retransmit-Limits f l.p w.1) in
      if-elim (λ (r : Link × List Event). Stands f fresh r.0) l.s.twa _ _ (e, w) (e, kept)

  handle_s_frame-Stands :
      Modulus f
      → (fp : Frame) (l : Link) → Stands f fresh l
      → Stands f fresh (handle_s_frame fp l).0
  unfolding handle_s_frame
  handle_s_frame-Stands m fp l h =
      let s_fun = bit_and (frame_ctrl l.s.framing fp 0) SFun.fun_mask in
      if-elim (λ (r : Link × List Event). Stands f fresh r.0) (s_fun == SFun.rr) _ _ h
        (if-elim (λ (r : Link × List Event). Stands f fresh r.0) (s_fun == SFun.rnr) _ _ h
          (if-elim (λ (r : Link × List Event). Stands f fresh r.0) (s_fun == SFun.rej) _ _
            (handle_rej-Stands m l h) h))

  -- V(R) counts on.
  count-Stands :
      Modulus f
      → (g : Framing) (l : Link) → g ≡ f
      → Stands f fresh l
      → Stands f fresh (on_peer (λ p. record p { vr = next_number g p.vr }) l)
  count-Stands m g l e (station, (w, limits)) = (
    station,
    (
      w,
      record {
        window = limits.window;
        ks_le = limits.ks_le;
        vr_le =
            subst (λ h. next_number h l.p.vr ≤ f.modmask) (sym e)
              (subst (λ v. v ≤ f.modmask) (sym (next_number_lem f m l.p.vr))
                (advance-le f m l.p.vr 1));
        octet = limits.octet;
      },
    ),
  )

  accept_i_frame-Stands :
      Modulus f
      → (pool_low : Bool) (fp : Frame) (pf : Bool) (ns : ℕ) (l : Link) → Stands f fresh l
      → Stands f fresh (accept_i_frame pool_low fp pf ns l).0
  unfolding accept_i_frame raw_rx_deliver
  accept_i_frame-Stands m pool_low fp pf ns l h =
      let busy_cleared : Link = delivered ▷ when (l.p.ss.peer_busy && pf) end_busy in
      let cleared =
        if-elim (Stands f fresh) (l.p.ss.peer_busy && pf) (end_busy delivered) delivered h h in
      count-Stands m l.s.framing (busy_cleared ▷ when (not l.s.busy && pool_low) begin_busy) h.0.0 (
        if-elim (Stands f fresh) (not l.s.busy && pool_low) (begin_busy busy_cleared) busy_cleared
          cleared cleared)
    where
      delivered : Link
      delivered =
          raw_rx_deliver fp l
          ▷ on_peer (λ p. record p {
            rej_actioned =
                if not (p.rej_actioned == 0) && (ns == p.rej_actioned - 1)
                then 0
                else p.rej_actioned;
          })

      end_busy : Link → Link
      end_busy = on_peer (λ p. record p { ss = record (p.ss) { peer_busy = false } })

      begin_busy : Link → Link
      begin_busy = on_station (λ s. record s { busy = true })

  handle_i_frame-Stands :
      Modulus f
      → (pool_low : Bool) (fp : Frame) (pf : Bool) (l : Link) → Stands f fresh l
      → Stands f fresh (handle_i_frame pool_low fp pf l).0.0
  unfolding handle_i_frame reject_i_frame
  handle_i_frame-Stands m pool_low fp pf l h =
      let ns = extract_ns l.s.framing fp in
      if-elim (λ (r : (Link × List Event) × Bool). Stands f fresh r.0.0) (ns == l.p.vr) _ _
        (accept_i_frame-Stands m pool_low fp pf ns l h)
        (if-elim (λ (r : Link × List Event). Stands f fresh r.0)
          (not l.s.twa && l.s.use_rej && (l.p.rej_actioned == 0)) _ _ h h)

  set_need_p-Stands : (l : Link) → Stands f fresh l → Stands f fresh (set_need_p l)
  set_need_p-Stands l h = if-elim (Stands f fresh) l.s.primary _ _ h h

  dispatch_rx-Stands :
      Modulus f
      → (pool_low : Bool) (fp : Frame) (pf : Bool) (l : Link) → Stands f fresh l
      → Stands f fresh (dispatch_rx pool_low fp pf l).0.0
  unfolding dispatch_rx
  dispatch_rx-Stands m pool_low fp pf l h =
      let handled = handle_i_frame pool_low fp pf l in
      let kept = handle_i_frame-Stands m pool_low fp pf l h in
      if-elim (λ (r : (Link × List Event) × Bool). Stands f fresh r.0.0)
        (is_i_frm (frame_ctrl l.s.framing fp 0)) _ _
        (if-elim (Stands f fresh) (handled.1 && is_nrm l.s && l.s.primary) _ _
          (set_need_p-Stands handled.0.0 kept) kept)
        (handle_s_frame-Stands m fp l h)

  broadcast_any-Stands :
      (es : List Event) (l : Link) → Stands f fresh l → Stands f fresh (broadcast_any es l)
  broadcast_any-Stands [] l h = h
  broadcast_any-Stands (e ∷ es) l h = h

  acked_rx-Stands :
      Modulus f
      → (pool_low : Bool) (fp : Frame) (pf : Bool) (o : Outcome) → Stands f fresh o.link
      → Stands f fresh (acked_rx pool_low fp pf o)
  unfolding acked_rx
  acked_rx-Stands m pool_low fp pf o h =
      let r = dispatch_rx pool_low fp pf o.link in
      let flags = o.flags ++ (r.0.1 ++ (if o.checkpoint_moved then tx_ifrm_enq ∷ [] else [])) in
      let told = broadcast_any-Stands flags r.0.0 (dispatch_rx-Stands m pool_low fp pf o.link h) in
      let woken =
        if-elim (Stands f fresh) o.signal_tx (emit wake_tx (broadcast_any flags r.0.0))
          (broadcast_any flags r.0.0) told told in
      if-elim (Stands f fresh) (not r.1) _ _ woken woken

  -- The link of an outcome, if there is one, still stands.
  abbrev OutcomeStands : Option Outcome → Type 0
  OutcomeStands none = Unit
  OutcomeStands (some o) = Stands f fresh o.link

  handle_checkpoint_and_ack-Stands :
      Modulus f
      → (nr : ℕ) (pf is_command : Bool) (l : Link) → Stands f fresh l
      → OutcomeStands (handle_checkpoint_and_ack nr pf is_command l)
  unfolding handle_checkpoint_and_ack
  handle_checkpoint_and_ack-Stands m nr pf is_command l h =
      let acked = (process_nr nr l).0 in
      let kept = process_nr-Stands m nr l h in
      let checked = (checkpoint_pf is_command acked).0 in
      if-elim OutcomeStands (not (is_nr_valid l.s.framing l.p nr)) _ _ tt (
        if-elim OutcomeStands pf _ _
          (answer_pf-Stands is_command checked (checkpoint_pf-Stands m is_command acked kept))
          (handle_no_pf-Stands is_command acked kept))

  invalid_nr_rx-Stands :
      (fp : Frame) (is_command : Bool) (l : Link)
      → Stands f fresh l
      → Stands f fresh (invalid_nr_rx fp is_command l)
  unfolding invalid_nr_rx set_frmr_condition
  invalid_nr_rx-Stands fp is_command l h = h

  outcome-Stands :
      Modulus f
      → (pool_low : Bool) (fp : Frame) (pf is_command : Bool) (l : Link) (r : Option Outcome)
      → Stands f fresh l
      → OutcomeStands r
      → Stands f fresh
          (elim r [ none ↦ invalid_nr_rx fp is_command l | some o ↦ acked_rx pool_low fp pf o ])
  outcome-Stands m pool_low fp pf is_command l none h k = invalid_nr_rx-Stands fp is_command l h
  outcome-Stands m pool_low fp pf is_command l (some o) h k = acked_rx-Stands m pool_low fp pf o k

  -- Modulo 8 or 128, where the transmit window of the peer stands before, it stands after whatever
  -- I-frame or S-frame the station receives, and the frames never sent stay in their order.
  pub common_rx-Stands :
      Modulus f
      → (pool_low : Bool) (fp : Frame) (is_command : Bool) (l : Link) → Stands f fresh l
      → Stands f fresh (common_rx pool_low fp is_command l)
  unfolding common_rx frmr_rx
  common_rx-Stands m pool_low fp is_command l h =
      let g = l.s.framing in
      let pf = frame_get_pf g fp in
      let nr = extract_nr g fp in
      if-elim (Stands f fresh) l.p.frmr_condition _ _ (if-elim (Stands f fresh) pf _ _ h h) (
        outcome-Stands m pool_low fp pf is_command l (handle_checkpoint_and_ack nr pf is_command l)
          h (handle_checkpoint_and_ack-Stands m nr pf is_command l h))
