-- ===== src/Transmit/IFrames.antt =====
-- The I-frame loop of `ioHdlcConnectedTx` of src/ioHdlc_core.c, round by round.
use io_hdlc.Base.{
  ◌+◌, Bool, true, false, not, ◌&&◌, ◌||◌, Option, none, some, List, [], ◌∷◌, ◌++◌, leb, ◌==◌,
  if◌then◌else◌,
}
use io_hdlc.State.{
  Event, Frame, Framing, Peer, Link, ◌▷◌, on_peer, emit, when, send, start_timer,
  i_frame_reply_timer_used,
}
use io_hdlc.State.TimerKind.{t3}
use io_hdlc.State.Event.{rnr_recvd, pool_st_chg, um_recvd, link_down, rej_acted}
use io_hdlc.Control.{prepare_i_frame_header}
use io_hdlc.Ack.{next_number}
use io_hdlc.Retry.{start_poll_reply_timer, i_frame_reply_timeout_ms}
use io_hdlc.Transmit.{
  has, clear, send_opportunity, response_should_set_f, sends_command, outstanding, is_empty,
  mark_pf,
}

-- The P/F bit of the next I-frame, where `left` waits behind it.
unfoldable pub i_frame_pf : List Frame → Link → Bool
unfolding response_should_set_f
i_frame_pf left l =
    let is_last_frame = leb l.p.ks (outstanding l + 1) || is_empty left in
    if l.s.busy
    then false
    else if sends_command l.s
    then (if l.s.twa then is_last_frame else l.s.f_rcved)
    else response_should_set_f l.s is_last_frame

-- The frame `fp`, at the head of `i_trans_q`, waits for its acknowledgment, and V(S) counts on.
unfoldable pub queue_sent : Framing → Bool → Frame → List Frame → Peer → Peer
unfolding next_number
queue_sent f t3_used fp left p = record p {
  i_trans_q = left;
  i_retrans_q = p.i_retrans_q ++ (fp ∷ []);
  vs_highest = if p.vs == p.vs_highest then next_number f p.vs else p.vs_highest;
  vs = next_number f p.vs;
  t3_expected_nr = if t3_used then next_number f p.vs else p.t3_expected_nr;
}

-- The I-frame that is sent for `fp`.
unfoldable pub i_frame_to_send : Frame → List Frame → Link → Frame
unfolding prepare_i_frame_header i_frame_pf
i_frame_to_send fp left l =
    let addr = if sends_command l.s then l.p.addr else l.s.addr in
    (prepare_i_frame_header l.s fp addr l.p.vs l.p.vr (i_frame_pf left l)).1

-- One I-frame: `fp` is the head of `i_trans_q`, and `left` its rest.
unfoldable pub send_i_frame : Frame → List Frame → Link → Link
unfolding i_frame_to_send i_frame_pf queue_sent mark_pf start_poll_reply_timer start_timer
send_i_frame fp left l =
    let is_command = sends_command l.s in
    let set_pf = i_frame_pf left l in
    let after = i_frame_to_send fp left l in
    l
    ▷ on_peer (queue_sent l.s.framing (i_frame_reply_timer_used l.s) after left)
    ▷ when set_pf (mark_pf is_command)
    ▷ emit (send after)
    ▷ when (set_pf && is_command) start_poll_reply_timer
    ▷ when (i_frame_reply_timer_used l.s) (on_peer (start_timer t3 (i_frame_reply_timeout_ms l.s)))

-- How a round of the I-frame loop ends: `break`, `return`, or on to the next.
pub data Next : Type 0 where
  leave down again : Next

abbrev pub is_down : Next → Bool
is_down n = elim n [ down ↦ true | _ ↦ false ]

pub record Round : Type 0 where
  pub link : Link
  pub flags : List Event
  pub i_frame_sent : Bool
  pub next : Next

-- A round that gets as far as the frame at the head of the queue.
unfoldable pub send_round : List Frame → List Event → Bool → Link → Round
unfolding send_i_frame
send_round [] flags sent l = record { link = l; flags = flags; i_frame_sent = sent; next = leave }
send_round (fp ∷ left) flags sent l =
    let urgent =
      has um_recvd flags || has rnr_recvd flags || has pool_st_chg flags || has rej_acted flags in
    record {
      link = send_i_frame fp left l;
      flags = flags;
      i_frame_sent = true;
      next = if urgent then leave else if l.s.twa && i_frame_pf left l then leave else again;
    }

-- Nothing may be sent.
unfoldable pub is_barred : Link → Bool
unfolding send_opportunity
is_barred l =
    is_empty l.p.i_trans_q
    || leb l.p.ks (outstanding l)
    || not (send_opportunity l.s)
    || l.p.ss.peer_busy

-- One round of the I-frame loop, in which `polled` is what the event listener holds.
unfoldable pub i_frame_round : List Event → List Event → Bool → Link → Round
unfolding is_barred send_round
i_frame_round polled flags sent l =
    let all = flags ++ polled in
    if is_barred l
    then record { link = l; flags = flags; i_frame_sent = sent; next = leave }
    else if has link_down all
    then record { link = l; flags = clear (link_down ∷ []) all; i_frame_sent = sent; next = down }
    else send_round l.p.i_trans_q all sent l

-- What happens around one round: the events that it polls, and what the other threads do to the
-- link before the next round.
pub record Turn : Type 0 where
  pub polled : List Event
  pub between : Link → Link

-- The I-frame loop, over the turns that it gets: nothing, if it goes on after the last.
unfoldable pub i_frame_loop : List Turn → List Event → Bool → Link → Option Round
unfolding i_frame_round
i_frame_loop [] flags sent l = none
i_frame_loop (t ∷ turns) flags sent l =
    let r = i_frame_round t.polled flags sent l in
    let rest = i_frame_loop turns r.flags r.i_frame_sent (t.between r.link) in
    elim r.next [ leave ↦ some r | down ↦ some r | again ↦ rest ]
