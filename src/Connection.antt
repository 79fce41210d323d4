-- ===== src/Connection.antt =====
-- The life of a connection in src/ioHdlc_core.c: `ioHdlcSetDisconnected`, `ioHdlcSetConnected`, the
-- reset of a peer, `applyModeState`, `closePeerOrderly`, `abortPeerLink` and `handleTimeoutRetry`.
-- Each runs under the peer's `state_mutex`. A condition variable's broadcast is an effect. The
-- station's `connected_count` is a `uint8_t`.
pub mod UFrame
pub mod Reset
pub mod Session
pub mod Timeout
use io_hdlc.Base.{
  ℕ, ◌+◌, ◌-◌, ◌%◌, ◌^◌, Bool, true, false, not, ◌&&◌, ◌||◌, Option, none, some, List, [], ◌∷◌, leb,
  ◌==◌, if◌then◌else◌,
}
use io_hdlc.State.{
  Mode, Frame, Peer, SsState, Station, StreamTerminal, Effect, Link, ◌▷◌, on_station, on_peer, emit,
  when, broadcast, broadcast_app, release, wake_tx, wake_rx, stop_timer, is_nrm, peer_disc,
}
use io_hdlc.State.Mode.{nrm, abm, ndm, adm}
use io_hdlc.State.RxHandler.{no_handler, nrm_handler, abm_handler}
use io_hdlc.State.Event.{link_down}
use io_hdlc.State.AppEvent.{app_link_down, app_link_lost}
use io_hdlc.State.TimerKind.{reply, t3}

-- The `term_bits` of `ioHdlcSetDisconnected`.
pub data TermBits : Type 0 where
  neutral orderly aborted : TermBits

abbrev pub is_orderly : TermBits → Bool
is_orderly b = elim b [ orderly ↦ true | _ ↦ false ]

abbrev pub is_aborted : TermBits → Bool
is_aborted b = elim b [ aborted ↦ true | _ ↦ false ]

-- `ioHdlcSetDisconnected` on a peer whose connection ends.
unfoldable pub end_connection : TermBits → Link → Link
end_connection b l =
    l
    ▷ on_station (λ s. record s { connected_count = (s.connected_count + (2 ^ 8 - 1)) % 2 ^ 8 })
    ▷ on_peer (λ p. record p {
      terminal = record {
        rx_orderly = p.terminal.rx_orderly || is_orderly b;
        rx_aborted = p.terminal.rx_aborted || is_aborted b;
        tx_reset = p.terminal.tx_reset || p.ss.sending;
      };
    })

-- `ioHdlcSetDisconnected`
unfoldable pub set_disconnected : TermBits → Link → Link
unfolding end_connection
set_disconnected b l =
    l
    ▷ when (l.p.ss.conn) (end_connection b)
    ▷ on_peer (λ p. record p {
      ss = record (p.ss) { conn = false; term_orderly = is_orderly b; term_aborted = is_aborted b };
    })
    ▷ emit wake_tx
    ▷ emit wake_rx

-- `ioHdlcSetConnected`
unfoldable pub set_connected : Link → Link
set_connected l =
    l
    ▷ when (not l.p.ss.conn)
        (on_station (λ s. record s { connected_count = (s.connected_count + 1) % 2 ^ 8 }))
    ▷ on_peer (λ p. record p {
      ss = record (p.ss) { conn = true; term_orderly = false; term_aborted = false };
    })
    ▷ emit wake_tx

-- `clearFrameQ`, over the frames of the queue: what it adds to the log.
unfoldable pub clear_frame_q : List Frame → Link → Link
clear_frame_q [] l = l
clear_frame_q (fp ∷ q) l = clear_frame_q q (emit (release fp) l)

-- A frame that a pointer of the peer may hold is given back.
abbrev pub release_held : Option Frame → Link → Link
release_held none l = l
release_held (some fp) l = emit (release fp) l

-- `clearPeerUmFrames`
unfoldable pub clear_peer_um_frames : Link → Link
clear_peer_um_frames l =
    l
    ▷ release_held l.p.um_api_frame
    ▷ release_held l.p.um_rsp_frame
    ▷ on_peer (λ p. record p { um_api_frame = none; um_rsp_frame = none })

-- `resetPeerUm`
abbrev pub reset_peer_um : Peer → Peer
reset_peer_um p = record p { um_sent = false; um_rcved = false; um_cmd = 0 }

-- `clearPeerTxQueues`
unfoldable pub clear_peer_tx_queues : Link → Link
unfolding clear_frame_q
clear_peer_tx_queues l =
    l
    ▷ clear_frame_q l.p.i_retrans_q
    ▷ clear_frame_q l.p.i_trans_q
    ▷ on_peer (λ p. record p { i_retrans_q = []; i_trans_q = []; i_pending_count = 0 })

-- `clearPeerRxBuffered`
unfoldable pub clear_peer_rx_buffered : Link → Link
unfolding clear_frame_q
clear_peer_rx_buffered l =
    l
    ▷ release_held l.p.partial_read_frame
    ▷ clear_frame_q l.p.i_recept_q
    ▷ on_peer
        (λ p. record p { partial_read_frame = none; partial_read_offset = 0; i_recept_q = [] })

-- The fields that `resetPeerProtocolState` sets.
abbrev pub reset_protocol_fields : Peer → Peer
reset_protocol_fields p = reset_peer_um record p {
  nr = 0;
  vr = 0;
  vs = 0;
  vs_highest = 0;
  t3_expected_nr = 0;
  ss = record (p.ss) { peer_busy = false; rejpend = false; recving = false; need_p = false };
  poll_retry_count = 0;
  frmr_condition = false;
  um_rsp = 0;
  ui_tx_pending = false;
  ui_rx_pending = false;
}

-- `resetPeerProtocolState`
unfoldable pub reset_peer_protocol_state : Link → Link
unfolding stop_timer clear_peer_um_frames
reset_peer_protocol_state l =
    l
    ▷ on_peer (stop_timer reply)
    ▷ on_peer (stop_timer t3)
    ▷ clear_peer_um_frames
    ▷ on_peer reset_protocol_fields

-- `applyModeState`
unfoldable pub apply_mode_state : Mode → Station → Station
apply_mode_state m s = elim m [
  | nrm ↦ record s { rx_fn = nrm_handler }
  | abm ↦ record s { rx_fn = abm_handler; primary = true; f_rcved = true }
  | ndm ↦ record s { rx_fn = no_handler; f_rcved = s.f_rcved || s.primary }
  | _ ↦ record s { rx_fn = no_handler }
]

-- The end of `closePeerOrderly` and `abortPeerLink`: the station leaves its mode with its last
-- connection.
unfoldable pub leave_mode : Link → Link
unfolding apply_mode_state
leave_mode l =
    let m = if is_nrm l.s then ndm else adm in
    l
    ▷ when (l.s.connected_count == 0) (on_station (λ s. apply_mode_state m (record s { mode = m })))

-- `closePeerOrderly`
unfoldable pub close_peer_orderly : Link → Link
unfolding reset_peer_protocol_state clear_peer_tx_queues set_disconnected leave_mode
close_peer_orderly l =
    l
    ▷ reset_peer_protocol_state
    ▷ clear_peer_tx_queues
    ▷ set_disconnected orderly
    ▷ leave_mode
    ▷ when (not (peer_disc l.p)) (emit (broadcast_app app_link_down))

-- `abortPeerLink`
unfoldable pub abort_peer_link : Link → Link
unfolding reset_peer_protocol_state clear_peer_tx_queues set_disconnected leave_mode
abort_peer_link l =
    l ▷ reset_peer_protocol_state ▷ clear_peer_tx_queues ▷ set_disconnected aborted ▷ leave_mode

-- `handleTimeoutRetry`: the link, and whether to retry. `poll_retry_count` is a `uint8_t`.
unfoldable pub handle_timeout_retry : Link → Link × Bool
unfolding abort_peer_link
handle_timeout_retry l =
    if leb l.p.poll_retry_max l.p.poll_retry_count
    then (
      l
          ▷ emit (broadcast (link_down ∷ []))
          ▷ abort_peer_link
          ▷ on_station (λ s. record s { f_rcved = true })
          ▷ when (not (peer_disc l.p)) (emit (broadcast_app app_link_lost)),
      false,
    )
    else (l ▷ on_peer (λ p. record p { poll_retry_count = (p.poll_retry_count + 1) % 2 ^ 8 }), true)

-- The first part of `resetPeerVars`: the streams of a connection learn of its end.
unfoldable pub interrupt_streams : Link → Link
interrupt_streams l =
    l
    ▷ on_peer (λ p. record p {
      terminal = record (p.terminal) {
        rx_aborted = true;
        tx_reset = p.terminal.tx_reset || p.ss.sending;
      };
    })
    ▷ emit wake_rx
    ▷ emit wake_tx

abbrev pub clear_ss : Peer → Peer
clear_ss p = record p {
  ss = record {
    peer_busy = false;
    rejpend = false;
    recving = false;
    need_p = false;
    term_orderly = false;
    term_aborted = false;
    sending = false;
    conn = false;
  };
}

-- `resetPeerVars`
unfoldable pub reset_peer_vars : Link → Link
unfolding interrupt_streams reset_peer_protocol_state clear_peer_tx_queues clear_peer_rx_buffered
reset_peer_vars l =
    l
    ▷ when (l.p.ss.conn) interrupt_streams
    ▷ reset_peer_protocol_state
    ▷ on_peer clear_ss
    ▷ clear_peer_tx_queues
    ▷ clear_peer_rx_buffered
