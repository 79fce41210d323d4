-- ===== src/Connection/UFrame.antt =====
-- `handleUFrame` and `isConnectionUCommand` of src/ioHdlc_core.c, for a station with a current
-- peer. Log messages are left out. The source gives a frame back before it leaves the mutex or
-- after; here that is the last effect.
use io_hdlc.Base.{
  ℕ, ◌+◌, ◌-◌, bit_and, Bool, true, false, not, ◌&&◌, ◌||◌, Option, none, some, [], ◌∷◌, take, drop,
  leb, ◌==◌, if◌then◌else◌,
}
use io_hdlc.State.{
  Mode, Frame, Station, Link, ◌▷◌, on_station, on_peer, emit, when, broadcast, broadcast_app,
  release, start_timer, stop_timer, is_nrm, is_disc, peer_disc,
}
use io_hdlc.State.Mode.{nrm, arm, abm}
use io_hdlc.State.Event.{um_recvd, pf_recvd, tx_ifrm_enq, link_st_chg, link_req}
use io_hdlc.State.AppEvent.{
  app_link_up, app_link_refused, app_frmr_received, app_ui_received, app_test_done,
}
use io_hdlc.State.TimerKind.{reply, t3}
use io_hdlc.Control.UFun
use io_hdlc.Control.{frame_addr, frame_ctrl, frame_get_pf}
use io_hdlc.Retry.{idle_poll_timeout_ms}
use io_hdlc.Connection.TermBits.{neutral}
use io_hdlc.Connection.{
  set_disconnected, set_connected, release_held, reset_peer_um, apply_mode_state,
  close_peer_orderly, reset_peer_vars,
}

-- `isConnectionUCommand`
abbrev pub is_connection_u_command : ℕ → Bool
is_connection_u_command u_cmd = u_cmd == UFun.snrm || u_cmd == UFun.sabm

-- `IOHDLC_UCMD_TO_MODE`
unfoldable pub ucmd_to_mode : ℕ → Option Mode
ucmd_to_mode u_cmd =
    if u_cmd == UFun.snrm
    then some nrm
    else if u_cmd == UFun.sarm
    then some arm
    else if u_cmd == UFun.sabm
    then some abm
    else none

abbrev pub u_hdr_len : Station → ℕ
u_hdr_len s = s.framing.frame_offset + 2

-- `u_info_len`, which is 0 for a frame that is too short.
abbrev pub u_info_len : Station → Frame → ℕ
u_info_len s fp = fp.elen - u_hdr_len s

abbrev pub u_frame_long_enough : Station → Frame → Bool
u_frame_long_enough s fp = leb (u_hdr_len s) fp.elen

-- A UI frame, whose information is the four octets of `ui_rx_value`.
unfoldable pub handle_ui : Frame → Link → Link
handle_ui fp l =
    l
    ▷ when (u_frame_long_enough l.s fp && (u_info_len l.s fp == 4) && not (peer_disc l.p)) (λ l.
      l
      ▷ on_peer (λ p. record p {
        ui_rx_value = take 4 (drop (u_hdr_len l.s) fp.octets);
        ui_rx_pending = true;
      })
      ▷ emit (broadcast_app app_ui_received))
    ▷ emit (release fp)

-- Whether a command is accepted while another waits for its response or an FRMR exception is
-- active, and is not a TEST that must be discarded.
unfoldable pub command_accepted : ℕ → Frame → Link → Bool
command_accepted u_cmd fp l =
    let recovers = is_connection_u_command u_cmd || u_cmd == UFun.disc in
    let test = u_cmd == UFun.test in
    let free = not (l.p.um_rcved || l.p.frmr_condition) || (l.p.frmr_condition && recovers) in
    let short_test = test && not (u_frame_long_enough l.s fp) in
    let crossed_test = test && l.p.um_sent && not (l.p.um_cmd == UFun.test) in
    free && not short_test && not crossed_test

-- A command that is accepted ends the FRMR exception, is registered, and so is its P bit.
unfoldable pub register_command : ℕ → Bool → Link → Link
register_command u_cmd has_pf l =
    l
    ▷ when (l.p.um_rcved || l.p.frmr_condition)
        (on_peer (λ p. record p { frmr_condition = false; um_rcved = false }))
    ▷ when (not (u_cmd == UFun.test) || not l.p.um_sent)
        (on_peer (λ p. record p { um_cmd = u_cmd }))
    ▷ when has_pf (on_station (λ s. record s { p_rcved = true }))

abbrev respond : ℕ → Link → Link
respond u_rsp = on_peer (λ p. record p { um_rsp = u_rsp })

-- A set mode command.
unfoldable pub set_mode : Mode → Link → Link
unfolding apply_mode_state reset_peer_vars set_connected
set_mode m l =
    l
    ▷ on_station (λ s. apply_mode_state m (record s { mode = m }))
    ▷ reset_peer_vars
    ▷ set_connected
    ▷ emit (broadcast_app app_link_up)
    ▷ respond UFun.ua

-- The response to a command: the link, and whether the frame is to be released.
unfoldable pub choose_response : ℕ → Frame → Link → Link × Bool
unfolding ucmd_to_mode set_mode
choose_response u_cmd fp l = elim (ucmd_to_mode u_cmd) [
  | some m ↦ (set_mode m l, true)
  | none ↦
      if u_cmd == UFun.disc
      then (respond (if is_disc l.s then UFun.dm else UFun.ua) l, true)
      else if u_cmd == UFun.test && leb (u_info_len l.s fp) l.p.mifls
      then (l ▷ respond UFun.test ▷ on_peer (λ p. record p { um_rsp_frame = some fp }), false)
      else (respond UFun.dm l, true)
]

-- A command.
unfoldable pub handle_command : ℕ → Bool → Frame → Link → Link
unfolding command_accepted register_command choose_response
handle_command u_cmd has_pf fp l =
    let (answered, release_frame) = choose_response u_cmd fp (register_command u_cmd has_pf l) in
    if command_accepted u_cmd fp l
    then answered
      ▷ on_peer (λ p. record p { um_rcved = true })
      ▷ emit (broadcast (um_recvd ∷ []))
      ▷ when release_frame (emit (release fp))
    else emit (release fp) l

-- The response to a TEST.
unfoldable pub handle_test_response : Frame → Link → Link
handle_test_response fp l =
    l
    ▷ release_held l.p.um_api_frame
    ▷ on_peer (λ p. reset_peer_um (record p { um_api_frame = some fp }))
    ▷ emit (broadcast (pf_recvd ∷ tx_ifrm_enq ∷ []))
    ▷ emit (broadcast_app app_test_done)

-- A UA.
unfoldable pub handle_ua : Link → Link
unfolding close_peer_orderly reset_peer_vars apply_mode_state set_connected
handle_ua l =
    let closing = l.p.um_cmd == UFun.disc in
    (if closing
      then close_peer_orderly l
      else l ▷ reset_peer_vars ▷ on_station (λ s. apply_mode_state s.mode s) ▷ set_connected)
    ▷ on_peer reset_peer_um
    ▷ emit (broadcast (link_st_chg ∷ link_req ∷ []))
    ▷ when (not closing) (emit (broadcast_app app_link_up))

-- A DM.
unfoldable pub handle_dm : Link → Link
unfolding close_peer_orderly set_disconnected
handle_dm l =
    let closing = l.p.um_cmd == UFun.disc in
    (if closing then close_peer_orderly l else l ▷ set_disconnected neutral ▷ on_peer reset_peer_um)
    ▷ emit (broadcast (link_st_chg ∷ link_req ∷ []))
    ▷ when (not closing) (emit (broadcast_app app_link_refused))

-- A response by its function: the link, whether T3 is started again, and whether the frame is to
-- be released.
unfoldable pub dispatch_response : ℕ → Frame → Link → (Link × Bool) × Bool
unfolding handle_test_response handle_ua handle_dm
dispatch_response u_cmd fp l =
    if l.p.um_cmd == UFun.test
    then ((handle_test_response fp l, true), false)
    else if u_cmd == UFun.ua
    then ((handle_ua l, true), true)
    else if u_cmd == UFun.dm
    then ((handle_dm l, false), true)
    else if u_cmd == UFun.frmr
    then ((l ▷ on_peer reset_peer_um ▷ emit (broadcast_app app_frmr_received), false), true)
    else ((l, false), true)

-- A response.
unfoldable pub handle_response : ℕ → Bool → Frame → Link → Link
unfolding dispatch_response stop_timer start_timer
handle_response u_cmd has_pf fp l =
    let ((answered, restart_t3), release_frame) =
      dispatch_response u_cmd fp (l ▷ on_peer (stop_timer reply)) in
    let a : Link = answered in
    if not l.p.um_sent || not has_pf
    then emit (release fp) l
    else a
      ▷ on_station (λ s. record s { f_rcved = true })
      ▷ when (restart_t3 && is_nrm a.s && a.s.primary && not (peer_disc a.p))
          (on_peer (start_timer t3 (idle_poll_timeout_ms a.s)))
      ▷ on_peer (λ p. record p { um_sent = false })
      ▷ when release_frame (emit (release fp))

-- `handleUFrame`
unfoldable pub handle_u_frame : Frame → Link → Link
unfolding frame_get_pf handle_ui handle_command handle_response
handle_u_frame fp l =
    let f = l.s.framing in
    let addr = frame_addr f fp in
    let u_cmd = bit_and (frame_ctrl f fp 0) UFun.fun_mask in
    let has_pf = frame_get_pf f fp in
    let is_command = addr == l.s.addr in
    if not is_command && not (addr == l.p.addr)
    then emit (release fp) l
    else if u_cmd == UFun.ui
    then handle_ui fp l
    else if is_command
    then handle_command u_cmd has_pf fp l
    else handle_response u_cmd has_pf fp l
