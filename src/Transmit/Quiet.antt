-- ===== src/Transmit/Quiet.antt =====
-- `ioHdlcConnectedTx` comes to an end when no thread adds frames.
use mathlib.Core.Option
use io_hdlc.Base.{
  ◌≤◌, ◌<◌, Bool, false, not, ◌&&◌, Option, some, List, [], ◌∷◌, ◌≡◌, ◌∙◌, refl, ap, arith, length,
  All, leb,
}
use io_hdlc.State.{
  Event, Link, on_peer, emit, broadcast, if-elim, is_nrm, stop_timer, set_timer, is_timer_expired,
  peer_disc,
}
use io_hdlc.State.Event.{line_idle, c_rplytmo, t3_tmo, link_down}
use io_hdlc.State.TimerKind.{reply, t3}
use io_hdlc.Connection.{
  set_disconnected, leave_mode, abort_peer_link, handle_timeout_retry, clear_peer_tx_queues,
  reset_peer_protocol_state,
}
use io_hdlc.Connection.TermBits.{aborted}
use io_hdlc.Connection.Reset.{clear_peer_tx_queues-Of}
use io_hdlc.Transmit.{has, clear, is_empty}
use io_hdlc.Transmit.Timeouts.{
  recover, retry_or_down, serve_reply_timeout, serve_t3_expiry, serve_t3_timeout, serve_ui,
}
use io_hdlc.Transmit.IFrames.{Round}
use io_hdlc.Transmit.Connected.{Surroundings, Served, after_i_frames, send_all, connected_tx}
use io_hdlc.Transmit.Alike.{Core, Alike}
use io_hdlc.Transmit.Ending.{waiting, AddsNone, i_frame_loop-ends}
use io_hdlc.Transmit.Kept.{leave_mode-Alike, set_disconnected-Alike, serve_ui-Alike}

Alike-waiting : (l m : Link) → Alike l m → waiting m ≡ waiting l
Alike-waiting l m e = ap (λ (c : Core). length c.trans) e

abort-waiting : (l : Link) → waiting (abort_peer_link l) ≡ 0
unfolding abort_peer_link
abort-waiting l =
    let cleared = clear_peer_tx_queues (reset_peer_protocol_state l) in
    let gone = set_disconnected aborted cleared in
    Alike-waiting gone (leave_mode gone) (leave_mode-Alike gone)
    ∙ Alike-waiting cleared gone (set_disconnected-Alike aborted cleared)
    ∙ clear_peer_tx_queues-Of (λ s p. length p.i_trans_q ≡ 0) (reset_peer_protocol_state l) refl

-- At most as many frames wait as before.
abbrev NoMore : Link → Link → Type 0
NoMore l m = waiting m ≤ waiting l

handle_timeout_retry-NoMore : (l : Link) → NoMore l (handle_timeout_retry l).0
unfolding handle_timeout_retry
handle_timeout_retry-NoMore l =
    let none_left = abort-waiting (emit (broadcast (link_down ∷ [])) l) in
    if-elim (λ (r : Link × Bool). NoMore l r.0) (leb l.p.poll_retry_max l.p.poll_retry_count) _ _
      (if-elim (NoMore l) (not (peer_disc l.p)) _ _ (omega arith) (omega arith)) (omega arith)

retry_or_down-NoMore : (l : Link) → NoMore l (retry_or_down l).0
unfolding retry_or_down recover
retry_or_down-NoMore l =
    let kept = handle_timeout_retry-NoMore l in
    if-elim (λ (r : Link × Bool). NoMore l r.0) (handle_timeout_retry l).1 _ _ kept kept

serve_reply_timeout-NoMore :
    (flags : List Event) (l : Link) → NoMore l (serve_reply_timeout flags l).0
unfolding serve_reply_timeout
serve_reply_timeout-NoMore flags l =
    if-elim (λ (r : Link × Bool). NoMore l r.0) (has c_rplytmo flags && is_timer_expired reply l.p)
      _ _ (retry_or_down-NoMore l) (omega arith)

serve_t3_expiry-NoMore : (l : Link) → NoMore l (serve_t3_expiry l).0
unfolding serve_t3_expiry
serve_t3_expiry-NoMore l =
    if-elim (λ (r : Link × Bool). NoMore l r.0) (is_nrm l.s) _ _
      (if-elim (NoMore l) l.s.primary _ _ (omega arith) (omega arith))
      (if-elim (λ (r : Link × Bool). NoMore l r.0) (not (is_empty l.p.i_retrans_q)) _ _
        (retry_or_down-NoMore l) (omega arith))

serve_t3_timeout-NoMore : (flags : List Event) (l : Link) → NoMore l (serve_t3_timeout flags l).0
unfolding serve_t3_timeout stop_timer set_timer
serve_t3_timeout-NoMore flags l =
    if-elim (λ (r : Link × Bool). NoMore l r.0) (has t3_tmo flags && is_timer_expired t3 l.p) _ _
      (serve_t3_expiry-NoMore (on_peer (stop_timer t3) l)) (omega arith)

-- A value has been computed.
abbrev Ends {ℓ} : {A : Type ℓ} → Option A → Type ℓ
Ends {A} o = (a : A) × (o ≡ some a)

map-Ends :
    (around : Surroundings) (o : Option Round)
    → Ends o
    → Ends (Option.map (after_i_frames around) o)
map-Ends around o (r, e) = (after_i_frames around r, ap (Option.map (after_i_frames around)) e)

module _ (around : Surroundings) (before : AddsNone around.before_loop)
    (quiet : All (λ t. AddsNone t.between) around.turns) where
  send_all-Ends :
      (flags : List Event) (l : Link)
      → waiting l < length around.turns
      → Ends (send_all around flags l)
  unfolding send_all
  send_all-Ends flags l long =
      let ui = serve_ui around.for_ui around.ui_octets around.ui_taken l in
      let start = around.before_loop ui in
      let same =
        Alike-waiting l ui (serve_ui-Alike around.for_ui around.ui_octets around.ui_taken l) in
      let none_added = before ui in
      map-Ends around _ (
        if-elim Ends start.p.frmr_condition _ _ (_, refl)
          (i_frame_loop-ends around.turns flags false start quiet (omega arith)))

  -- Where no other thread adds frames to `i_trans_q` meanwhile, the transmit scheduler returns
  -- when it gets more turns of the I-frame loop than frames wait in the queue.
  pub connected_tx-ends :
      (flags : List Event) (l : Link)
      → waiting l < length around.turns
      → (r : Served) × (connected_tx around flags l ≡ some r)
  unfolding connected_tx
  connected_tx-ends flags l long =
      let at_start = clear (line_idle ∷ []) flags in
      let polled = serve_reply_timeout at_start l in
      let after_t1 = clear (c_rplytmo ∷ []) at_start in
      let idled = serve_t3_timeout after_t1 polled.0 in
      let one = serve_reply_timeout-NoMore at_start l in
      let two = serve_t3_timeout-NoMore after_t1 polled.0 in
      if-elim Ends (not polled.1) _ _ (_, refl)
        (if-elim Ends (not idled.1) _ _ (_, refl)
          (send_all-Ends (clear (t3_tmo ∷ []) after_t1) idled.0 (omega arith)))
