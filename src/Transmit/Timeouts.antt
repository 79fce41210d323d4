-- ===== src/Transmit/Timeouts.antt =====
-- The timeouts and the UI frame in `ioHdlcConnectedTx` of src/ioHdlc_core.c.
use io_hdlc.Base.{ℕ, Bool, true, false, not, ◌&&◌, Option, none, some, List, if◌then◌else◌}
use io_hdlc.State.{
  Event, Frame, Link, ◌▷◌, on_station, on_peer, when, stop_timer, is_timer_expired, is_nrm,
  set_need_p,
}
use io_hdlc.State.TimerKind.{reply, t3}
use io_hdlc.State.Event.{c_rplytmo, t3_tmo}
use io_hdlc.Control.UFun
use io_hdlc.Control.UFun
use io_hdlc.Control.{build_u_frame_with_info}
use io_hdlc.Connection.{handle_timeout_retry}
use io_hdlc.Transmit.{
  has, send_opportunity, sends_command, is_empty, restart_i_frame_timer, send_frame,
}

-- A retry asks for a new checkpoint and ends a REJ exception.
unfoldable pub recover : Link → Link
recover l =
    l
    ▷ on_peer (λ p. record p { ss = record (p.ss) { need_p = true }; rej_actioned = 0 })
    ▷ on_station (λ s. record s { f_rcved = true })

-- The link, and whether it is up, after a timeout.
unfoldable pub retry_or_down : Link → Link × Bool
unfolding recover handle_timeout_retry
retry_or_down l =
    let (tried, up) = handle_timeout_retry l in if up then (recover tried, true) else (tried, false)

-- What `IOHDLC_EVT_C_RPLYTMO` asks for.
unfoldable pub serve_reply_timeout : List Event → Link → Link × Bool
unfolding is_timer_expired retry_or_down
serve_reply_timeout flags l =
    if has c_rplytmo flags && is_timer_expired reply l.p then retry_or_down l else (l, true)

-- What an expired T3 asks for.
unfoldable pub serve_t3_expiry : Link → Link × Bool
unfolding retry_or_down
serve_t3_expiry l =
    if is_nrm l.s
    then (set_need_p l, true)
    else if not (is_empty l.p.i_retrans_q)
    then retry_or_down l
    else (l, true)

-- What `IOHDLC_EVT_T3_TMO` asks for.
unfoldable pub serve_t3_timeout : List Event → Link → Link × Bool
unfolding is_timer_expired stop_timer serve_t3_expiry
serve_t3_timeout flags l =
    if has t3_tmo flags && is_timer_expired t3 l.p
    then serve_t3_expiry (on_peer (stop_timer t3) l)
    else (l, true)

-- The UI frame of a value whose octets in memory are `value`: `taken` is what `hdlcTakeFrame`
-- returns, and `sent` whether the driver took the frame.
unfoldable pub send_ui : Option Frame → List ℕ → Bool → Link → Link
unfolding build_u_frame_with_info send_frame restart_i_frame_timer
send_ui none value sent l = l
send_ui (some fp) value sent l =
    l
    ▷ on_peer (λ p. record p { ui_tx_pending = false })
    ▷ send_frame (build_u_frame_with_info l.s l.p fp UFun.ui false (sends_command l.s) value)
    ▷ when sent restart_i_frame_timer

unfoldable pub serve_ui : Option Frame → List ℕ → Bool → Link → Link
unfolding send_opportunity send_ui
serve_ui taken value sent l =
    l
    ▷ when (l.p.ui_tx_pending && send_opportunity l.s && not l.p.frmr_condition)
        (send_ui taken value sent)
