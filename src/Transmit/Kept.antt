-- ===== src/Transmit/Kept.antt =====
-- The timeouts, the UI frame and the transmit window.
use io_hdlc.Base.{
  ℕ, Bool, false, not, ◌&&◌, Option, none, some, List, [], ◌∷◌, ◌∙◌, refl, sym, arith, ◌==◌, leb,
}
use io_hdlc.State.{
  Mode, Framing, Station, Peer, Frame, Event, Link, on_peer, on_station, emit, broadcast, if-elim,
  is_nrm, stop_timer, set_timer, is_timer_expired, peer_disc,
}
use io_hdlc.State.Mode.{ndm, adm}
use io_hdlc.State.Event.{link_down, c_rplytmo, t3_tmo}
use io_hdlc.State.TimerKind.{reply, t3}
use io_hdlc.Control.UFun
use io_hdlc.Control.{build_u_frame_with_info}
use io_hdlc.Ack.Window.{Numbered, Modulus, advance-zero}
use io_hdlc.Ack.Limits.{Limits}
use io_hdlc.Receive.Window.{Stands, IsStation, PeerStands}
use io_hdlc.Connection.{
  TermBits, set_disconnected, end_connection, leave_mode, apply_mode_state, abort_peer_link,
  handle_timeout_retry, clear_peer_tx_queues, reset_peer_protocol_state,
}
use io_hdlc.Connection.TermBits.{aborted}
use io_hdlc.Connection.Reset.{
  no_tx, fresh_protocol, clear_peer_tx_queues-Of, reset_peer_protocol_state-Of,
}
use io_hdlc.Transmit.{
  has, is_empty, sends_command, send_frame, restart_i_frame_timer, send_opportunity,
}
use io_hdlc.Transmit.Timeouts.{
  recover, retry_or_down, serve_reply_timeout, serve_t3_expiry, serve_t3_timeout, send_ui, serve_ui,
}
use io_hdlc.Transmit.Alike.{Alike, Alike-Stands, restart_i_frame_timer-Alike, when-Alike}

-- The window stands, whatever frames were never sent.
abbrev pub IsUp : Framing → Link → Type 0
IsUp f l = (fresh : List Frame) × Stands f fresh l

pub IsUp-Alike : (f : Framing) (l m : Link) → Alike l m → IsUp f l → IsUp f m
IsUp-Alike f l m e (fresh, h) = (fresh, Alike-Stands f fresh l m e h)

pub leave_mode-Alike : (l : Link) → Alike l (leave_mode l)
unfolding leave_mode apply_mode_state
leave_mode-Alike l =
    let left : Mode → Link =
      λ mode. on_station (λ s. apply_mode_state mode (record s { mode = mode })) l in
    if-elim (Alike l) (l.s.connected_count == 0) _ _
      (if-elim (λ mode. Alike l (left mode)) (is_nrm l.s) ndm adm refl refl) refl

pub set_disconnected-Alike : (b : TermBits) (l : Link) → Alike l (set_disconnected b l)
unfolding set_disconnected end_connection
set_disconnected-Alike b l = if-elim (Alike l) l.p.ss.conn _ _ refl refl

-- The UI frame.
pub serve_ui-Alike :
    (taken : Option Frame) (value : List ℕ) (sent : Bool) (l : Link)
    → Alike l (serve_ui taken value sent l)
unfolding serve_ui send_ui send_frame
serve_ui-Alike none value sent l =
    if-elim (Alike l) (l.p.ui_tx_pending && send_opportunity l.s && not l.p.frmr_condition) _ _ refl
      refl
serve_ui-Alike (some fp) value sent l =
    let asked : Link = on_peer (λ p. record p { ui_tx_pending = false }) l in
    let ui : Link =
      send_frame
        (build_u_frame_with_info asked.s asked.p fp UFun.ui false (sends_command l.s) value)
        asked in
    if-elim (Alike l) (l.p.ui_tx_pending && send_opportunity l.s && not l.p.frmr_condition) _ _
      (when-Alike ui sent restart_i_frame_timer (restart_i_frame_timer-Alike ui)) refl

module _ (f : Framing) (m : Modulus f) where
  -- The window of a peer that has been reset.
  reset-PeerStands : (p : Peer) → Limits f p → PeerStands f [] (no_tx (fresh_protocol p))
  unfolding Numbered
  reset-PeerStands p limits =
      let zero_lem = sym (advance-zero f m 0 (omega arith)) in
      (
        (
          [],
          record {
            queued = refl;
            numbered = tt;
            sent = zero_lem;
            highest = zero_lem;
            size = omega arith;
            range = omega arith;
            pending = refl;
            pending_lt = omega arith;
            unsent = tt;
          },
        ),
        record {
          window = omega arith;
          ks_le = limits.ks_le;
          vr_le = omega arith;
          octet = limits.octet;
        },
      )

  pub reset-Stands :
      (l : Link) → IsUp f l → Stands f [] (clear_peer_tx_queues (reset_peer_protocol_state l))
  reset-Stands l (fresh, (station, (w, limits))) =
      let P : Station → Peer → Type 0 = λ s p. IsStation f s × PeerStands f [] p in
      clear_peer_tx_queues-Of P (reset_peer_protocol_state l) (
        reset_peer_protocol_state-Of (λ s p. P s (no_tx p)) l
          (station, reset-PeerStands l.p limits))

  abort-IsUp : (l : Link) → IsUp f l → IsUp f (abort_peer_link l)
  unfolding abort_peer_link
  abort-IsUp l h =
      let cleared = clear_peer_tx_queues (reset_peer_protocol_state l) in
      IsUp-Alike f cleared (leave_mode (set_disconnected aborted cleared))
        (leave_mode-Alike (set_disconnected aborted cleared)
          ∙ set_disconnected-Alike aborted cleared)
        ([], reset-Stands l h)

  pub handle_timeout_retry-IsUp : (l : Link) → IsUp f l → IsUp f (handle_timeout_retry l).0
  unfolding handle_timeout_retry
  handle_timeout_retry-IsUp l h =
      let aborted_link = abort_peer_link (emit (broadcast (link_down ∷ [])) l) in
      let ended = abort-IsUp (emit (broadcast (link_down ∷ [])) l) h in
      if-elim (λ (r : Link × Bool). IsUp f r.0) (leb l.p.poll_retry_max l.p.poll_retry_count) _ _
        (if-elim (IsUp f) (not (peer_disc l.p)) _ _ ended ended) h

  retry_or_down-IsUp : (l : Link) → IsUp f l → IsUp f (retry_or_down l).0
  unfolding retry_or_down recover
  retry_or_down-IsUp l h =
      let kept = handle_timeout_retry-IsUp l h in
      if-elim (λ (r : Link × Bool). IsUp f r.0) (handle_timeout_retry l).1 _ _ kept kept

  pub serve_reply_timeout-IsUp :
      (flags : List Event) (l : Link) → IsUp f l → IsUp f (serve_reply_timeout flags l).0
  unfolding serve_reply_timeout
  serve_reply_timeout-IsUp flags l h =
      if-elim (λ (r : Link × Bool). IsUp f r.0) (has c_rplytmo flags && is_timer_expired reply l.p)
        _ _ (retry_or_down-IsUp l h) h

  serve_t3_expiry-IsUp : (l : Link) → IsUp f l → IsUp f (serve_t3_expiry l).0
  unfolding serve_t3_expiry
  serve_t3_expiry-IsUp l h =
      if-elim (λ (r : Link × Bool). IsUp f r.0) (is_nrm l.s) _ _
        (if-elim (IsUp f) l.s.primary _ _ h h)
        (if-elim (λ (r : Link × Bool). IsUp f r.0) (not (is_empty l.p.i_retrans_q)) _ _
          (retry_or_down-IsUp l h) h)

  pub serve_t3_timeout-IsUp :
      (flags : List Event) (l : Link) → IsUp f l → IsUp f (serve_t3_timeout flags l).0
  unfolding serve_t3_timeout stop_timer set_timer
  serve_t3_timeout-IsUp flags l h =
      if-elim (λ (r : Link × Bool). IsUp f r.0) (has t3_tmo flags && is_timer_expired t3 l.p) _ _
        (serve_t3_expiry-IsUp (on_peer (stop_timer t3) l) h) h
