-- ===== src/Connection/Reset.antt =====
-- What the resets leave: each lemma says that what holds of the station and the peer with the reset
-- fields holds after the function, which for the rest only gives frames back and wakes threads.
use io_hdlc.Base.{if◌then◌else◌, false, Option, none, some, List, [], ◌∷◌}
use io_hdlc.State.{Frame, Peer, Station, Link, on_peer, emit, stop_timer, timer, set_timer}
use io_hdlc.State.Effect.{release}
use io_hdlc.State.TimerKind.{reply, t3}
use io_hdlc.Connection.{
  clear_frame_q, release_held, clear_peer_um_frames, clear_peer_tx_queues, clear_peer_rx_buffered,
  reset_protocol_fields, reset_peer_protocol_state, interrupt_streams, clear_ss, reset_peer_vars,
}

-- A fact of a link about its station and its peer.
abbrev pub Of : (Station → Peer → Type 0) → Link → Type 0
Of P l = P l.s l.p

module _ (P : Station → Peer → Type 0) where
  clear_frame_q-Of : (q : List Frame) (l : Link) → Of P l → Of P (clear_frame_q q l)
  unfolding clear_frame_q
  clear_frame_q-Of [] l h = h
  clear_frame_q-Of (fp ∷ q) l h = clear_frame_q-Of q (emit (release fp) l) h

  release_held-Of : (o : Option Frame) (l : Link) → Of P l → Of P (release_held o l)
  release_held-Of none l h = h
  release_held-Of (some fp) l h = h

abbrev pub no_tx : Peer → Peer
no_tx p = record p { i_retrans_q = []; i_trans_q = []; i_pending_count = 0 }

abbrev no_rx : Peer → Peer
no_rx p = record p { partial_read_frame = none; partial_read_offset = 0; i_recept_q = [] }

abbrev no_um : Peer → Peer
no_um p = record p { um_api_frame = none; um_rsp_frame = none }

-- The peer after `resetPeerProtocolState`.
abbrev pub fresh_protocol : Peer → Peer
fresh_protocol p = reset_protocol_fields (
    no_um (record p {
      reply_tmr = record (p.reply_tmr) { armed = false; expired = false };
      t3_tmr = record (p.t3_tmr) { armed = false; expired = false };
    }))

module _ (P : Station → Peer → Type 0) where
  pub clear_peer_tx_queues-Of : (l : Link) → P l.s (no_tx l.p) → Of P (clear_peer_tx_queues l)
  unfolding clear_peer_tx_queues
  clear_peer_tx_queues-Of l h =
      let Q : Station → Peer → Type 0 = λ s p. P s (no_tx p) in
      clear_frame_q-Of Q l.p.i_trans_q (clear_frame_q l.p.i_retrans_q l)
        (clear_frame_q-Of Q l.p.i_retrans_q l h)

  clear_peer_rx_buffered-Of : (l : Link) → P l.s (no_rx l.p) → Of P (clear_peer_rx_buffered l)
  unfolding clear_peer_rx_buffered
  clear_peer_rx_buffered-Of l h =
      let Q : Station → Peer → Type 0 = λ s p. P s (no_rx p) in
      clear_frame_q-Of Q l.p.i_recept_q (release_held l.p.partial_read_frame l)
        (release_held-Of Q l.p.partial_read_frame l h)

  pub reset_peer_protocol_state-Of :
      (l : Link) → P l.s (fresh_protocol l.p) → Of P (reset_peer_protocol_state l)
  unfolding reset_peer_protocol_state clear_peer_um_frames stop_timer timer set_timer
  reset_peer_protocol_state-Of l h =
      let Q : Station → Peer → Type 0 = λ s p. P s (reset_protocol_fields (no_um p)) in
      let stopped = on_peer (stop_timer t3) (on_peer (stop_timer reply) l) in
      release_held-Of Q l.p.um_rsp_frame (release_held l.p.um_api_frame stopped)
        (release_held-Of Q l.p.um_api_frame stopped h)

-- The peer after `resetPeerVars`, but for `stream_terminal_pending`.
abbrev pub fresh_peer : Peer → Peer
fresh_peer p = no_rx (no_tx (clear_ss (fresh_protocol p)))

module _ (P : Station → Peer → Type 0) where
  pub reset_peer_vars-Of :
      (l : Link)
      → Of (λ s p. P s (fresh_peer p)) (if l.p.ss.conn then interrupt_streams l else l)
      → Of P (reset_peer_vars l)
  unfolding reset_peer_vars
  reset_peer_vars-Of l h =
      let begun = if l.p.ss.conn then interrupt_streams l else l in
      let Q : Station → Peer → Type 0 = λ s p. P s (no_rx p) in
      let R : Station → Peer → Type 0 = λ s p. Q s (no_tx p) in
      let reset = reset_peer_protocol_state begun in
      let cleared = on_peer clear_ss reset in
      clear_peer_rx_buffered-Of P (clear_peer_tx_queues cleared) (
        clear_peer_tx_queues-Of Q cleared
          (reset_peer_protocol_state-Of (λ s p. R s (clear_ss p)) begun h))
