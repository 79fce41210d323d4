-- ===== src/Transmit/Pass.antt =====
-- A pass of the transmit thread and the transmit window.
use mathlib.Core.Option
use io_hdlc.Base.{
  Bool, false, not, ◌&&◌, ◌||◌, Option, none, some, List, [], ◌∷◌, ◌∙◌, refl, All, ◌==◌,
  if◌then◌else◌,
}
use io_hdlc.State.{
  Framing, Event, Frame, Link, ◌▷◌, on_station, on_peer, if-elim, stop_timer, set_timer, is_nrm,
  is_abm, peer_disc,
}
use io_hdlc.State.Event.{c_rplytmo, link_req, um_recvd, link_st_chg}
use io_hdlc.Control.UFun
use io_hdlc.Control.RoundTrip.{IsFraming}
use io_hdlc.Connection.{
  close_peer_orderly, set_disconnected, leave_mode, clear_peer_tx_queues, reset_peer_protocol_state,
}
use io_hdlc.Connection.TermBits.{orderly}
use io_hdlc.Connection.UFrame.{is_connection_u_command}
use io_hdlc.Transmit.{has, clear, send_frame, restart_i_frame_timer, send_opportunity}
use io_hdlc.Transmit.Alike.{Alike, restart_i_frame_timer-Alike, start_poll_reply_timer-Alike}
use io_hdlc.Transmit.Kept.{
  IsUp, IsUp-Alike, reset-Stands, leave_mode-Alike, set_disconnected-Alike,
  handle_timeout_retry-IsUp,
}
use io_hdlc.Transmit.Round.{IsFraming-Modulus}
use io_hdlc.Transmit.Connected.{Surroundings, Served}
use io_hdlc.Transmit.Total.{Keeps, ServedUp, connected_tx-IsUp}
use io_hdlc.Transmit.Entry.{
  Way, Passed, passed_of, is_requested, command_frame, command_timers, send_command, preset_f,
  retry_command, serve_command, may_command, response_frame, after_response, send_response,
  serve_response, serve_rest, is_for_other, tx_pass,
}
use io_hdlc.Transmit.Entry.Succession.{same_peer}
use io_hdlc.Transmit.Entry.Way.{on, back_cleared, back, next_cleared}

command_timers-Alike : (l : Link) → Alike l (command_timers l)
unfolding command_timers stop_timer set_timer
command_timers-Alike l =
    if-elim (Alike l) (l.p.um_cmd == UFun.test) _ _
      (if-elim (Alike l) (is_nrm l.s && l.s.primary) _ _ refl refl)
      (start_poll_reply_timer-Alike (restart_i_frame_timer l) ∙ restart_i_frame_timer-Alike l)

send_command-Alike : (taken : Option Frame) (l : Link) → Alike l (send_command taken l)
unfolding send_command send_frame
send_command-Alike none l = refl
send_command-Alike (some fp) l =
    command_timers-Alike (send_frame fp (on_peer (λ p. record p { um_api_frame = none }) l))

module _ (f : Framing) (framing : IsFraming f) where
  retry_command-IsUp : (flags : List Event) (l : Link) → IsUp f l → IsUp f (retry_command flags l).0
  unfolding retry_command
  retry_command-IsUp flags l h =
      if-elim (λ (r : Link × Bool). IsUp f r.0)
        (has c_rplytmo flags && not (l.p.um_cmd == UFun.test)) _ _
        (handle_timeout_retry-IsUp f (IsFraming-Modulus f framing) l h) h

  serve_command-IsUp :
      (taken : Option Frame) (flags : List Event) (l : Link)
      → IsUp f l
      → IsUp f (serve_command taken flags l).0
  unfolding serve_command
  serve_command-IsUp taken flags l h =
      let tried = retry_command flags l in
      let up = retry_command-IsUp flags l h in
      let preset : Link = preset_f tried.0 in
      let ready : IsUp f preset =
        if-elim (IsUp f)
          (peer_disc tried.0.p && tried.0.s.twa && is_connection_u_command tried.0.p.um_cmd) _ _ up
          up in
      if-elim (λ (r : Link × Way). IsUp f r.0) (not (may_command l)) _ _ h
        (if-elim (λ (r : Link × Way). IsUp f r.0) (not tried.1) _ _ up
          (if-elim (λ (r : Link × Way). IsUp f r.0) (send_opportunity preset.s) _ _
            (IsUp-Alike f preset (send_command (command_frame taken preset) preset)
              (send_command-Alike (command_frame taken preset) preset) ready)
            ready))

  close-IsUp : (l : Link) → IsUp f l → IsUp f (close_peer_orderly l)
  unfolding close_peer_orderly
  close-IsUp l h =
      let cleared = clear_peer_tx_queues (reset_peer_protocol_state l) in
      let gone = set_disconnected orderly cleared in
      let up : IsUp f (leave_mode gone) =
        IsUp-Alike f cleared (leave_mode gone)
          (leave_mode-Alike gone ∙ set_disconnected-Alike orderly cleared)
          ([], reset-Stands f (IsFraming-Modulus f framing) l h) in
      if-elim (IsUp f) (not (peer_disc l.p)) _ _ up up

  after_response-IsUp : (l : Link) → IsUp f l → IsUp f (after_response l)
  unfolding after_response
  after_response-IsUp l h =
      if-elim (IsUp f) (l.p.um_cmd == UFun.test) _ _ h
        (if-elim (IsUp f) (l.p.um_cmd == UFun.disc) _ _ (close-IsUp l h) h)

  send_response-IsUp : (taken : Option Frame) (l : Link) → IsUp f l → IsUp f (send_response taken l)
  unfolding send_response send_frame
  send_response-IsUp none l h = h
  send_response-IsUp (some fp) l h =
      let asked : Link =
        on_peer
          (λ p. record p { um_rsp_frame = if p.um_rsp == UFun.test then none else p.um_rsp_frame })
          l in
      let sent : Link = send_frame fp asked in
      after_response-IsUp (restart_i_frame_timer sent)
        (IsUp-Alike f sent (restart_i_frame_timer sent) (restart_i_frame_timer-Alike sent) h)

  serve_response-IsUp :
      (taken : Option Frame) (l : Link) → IsUp f l → IsUp f (serve_response taken l)
  unfolding serve_response
  serve_response-IsUp taken l h =
      if-elim (IsUp f) l.p.um_rcved _ _
        (send_response-IsUp (response_frame taken l.s.p_rcved l)
          (l
            ▷ on_peer (λ p. record p { um_rcved = false })
            ▷ on_station (λ s. record s { p_rcved = false }))
          h)
        h

  abbrev pub PassedUp : Option Passed → Type 0
  PassedUp none = Unit
  PassedUp (some r) = IsUp f r.link

  module _ (around : Surroundings) (before : Keeps f around.before_loop)
      (turns : All (λ t. Keeps f t.between) around.turns) (after : Keeps f around.after_loop) where
    map-PassedUp : (o : Option Served) → ServedUp f framing o → PassedUp (Option.map passed_of o)
    map-PassedUp none h = tt
    map-PassedUp (some r) h = h

    serve_rest-IsUp :
        (taken : Option Frame) (flags : List Event) (l : Link)
        → IsUp f l
        → PassedUp (serve_rest taken around flags l)
    unfolding serve_rest
    serve_rest-IsUp taken flags l h =
        let answered = serve_response taken l in
        let up = serve_response-IsUp taken l h in
        let seen = if l.p.um_rcved then clear (um_recvd ∷ []) flags else flags in
        let left = clear (link_st_chg ∷ []) seen in
        if-elim PassedUp (peer_disc answered.p || answered.p.um_sent) _ _ up (
          if-elim PassedUp (is_nrm answered.s || is_abm answered.s) _ _
            (map-PassedUp _
              (connected_tx-IsUp f framing around before turns after left answered up))
            up)

    by_way :
        (way : Way) (o : Option Passed) (a b c : Passed)
        → PassedUp o
        → IsUp f a.link
        → IsUp f b.link
        → IsUp f c.link
        → PassedUp
            (elim way [ on ↦ o | back_cleared ↦ some a | back ↦ some b | next_cleared ↦ some c ])
    by_way on o a b c ho ha hb hc = ho
    by_way back_cleared o a b c ho ha hb hc = ha
    by_way back o a b c ho ha hb hc = hb
    by_way next_cleared o a b c ho ha hb hc = hc

    -- Modulo 8 or 128, where the transmit window stands before, and the other threads keep it, it
    -- stands after a pass of the transmit thread over a peer, whatever U frames it sends, whether
    -- it retries, closes or aborts the link, or serves the connected peer.
    pub tx_pass-IsUp :
        (for_command for_response : Option Frame) (flags : List Event) (l : Link)
        → IsUp f l
        → PassedUp (tx_pass for_command for_response around flags l)
    unfolding tx_pass
    tx_pass-IsUp for_command for_response flags l h =
        let commanded = serve_command for_command flags l in
        let up = serve_command-IsUp for_command flags l h in
        let left = clear (link_req ∷ c_rplytmo ∷ []) flags in
        if-elim PassedUp (not (is_requested flags l)) _ _ (serve_rest-IsUp for_response flags l h) (
          if-elim PassedUp (is_for_other flags l)
            (some (record { link = l; flags = left; succession = same_peer })) _ h
            (by_way commanded.1 _ _ _ _ (serve_rest-IsUp for_response left commanded.0 up) up up
              up))
