-- ===== src/Transmit/Connected.antt =====
-- `ioHdlcConnectedTx` of src/ioHdlc_core.c, from its parts.
use io_hdlc.Base.{ℕ, Bool, false, not, ◌&&◌, Option, some, List, [], ◌∷◌, ◌++◌, if◌then◌else◌}
use mathlib.Core.Option
use io_hdlc.State.{Event, Frame, Link, is_nrm}
use io_hdlc.State.Event.{
  c_rplytmo, t3_tmo, i_recvd, rr_recvd, rnr_recvd, rej_recvd, pool_st_chg, line_idle, tx_ifrm_enq,
  rej_acted, pf_recvd, ui_enq,
}
use io_hdlc.Transmit.{clear, is_empty}
use io_hdlc.Transmit.Timeouts.{serve_reply_timeout, serve_t3_timeout, serve_ui}
use io_hdlc.Transmit.IFrames.{Round, Turn, is_down, i_frame_loop}
use io_hdlc.Transmit.IFrames.Next.{leave}
use io_hdlc.Transmit.SFrame.{Supply, s_frame_part}

-- What the surroundings do during a call: what `hdlcTakeFrame` returns for the UI frame, the octets
-- of its value and whether the driver takes it; what the other threads do before and after the
-- I-frame loop, whose turns these are; the events polled after it, and the pool for the S-frame.
pub record Surroundings : Type 0 where
  pub for_ui : Option Frame
  pub ui_octets : List ℕ
  pub ui_taken : Bool
  pub before_loop : Link → Link
  pub turns : List Turn
  pub after_loop : Link → Link
  pub polled : List Event
  pub supply : Supply

-- The link, the flags left to serve, and whether the primary turns to the next peer.
pub record Served : Type 0 where
  pub link : Link
  pub flags : List Event
  pub next_peer : Bool

abbrev pub returns : Link → List Event → Served
returns l flags = record { link = l; flags = flags; next_peer = false }

-- Nothing is pending for this peer of an NRM primary, and the P/F cycle is closed.
abbrev pub is_done : Link → Bool
is_done l =
    is_nrm l.s
    && l.s.primary
    && l.s.f_rcved
    && not l.p.frmr_condition
    && is_empty l.p.i_trans_q
    && is_empty l.p.i_retrans_q

-- The flags that the last part leaves.
abbrev pub left_flags : Bool → List Event → List Event
left_flags rejpend flags =
    clear
      (i_recvd ∷ rr_recvd ∷ rnr_recvd ∷ pool_st_chg ∷ tx_ifrm_enq ∷ pf_recvd ∷ rej_recvd ∷ ui_enq
        ∷ [])
      (if rejpend then clear (rej_acted ∷ []) flags else flags)

-- What follows the I-frame loop.
unfoldable pub after_i_frames : Surroundings → Round → Served
unfolding s_frame_part
after_i_frames around r =
    let m = around.after_loop r.link in
    let sent = s_frame_part around.supply r.i_frame_sent m in
    if is_down r.next then returns r.link r.flags else record {
      link = sent;
      flags = left_flags m.p.ss.rejpend (r.flags ++ around.polled);
      next_peer = is_done sent;
    }

-- From the UI part on: nothing, if the I-frame loop goes on after the last turn.
unfoldable pub send_all : Surroundings → List Event → Link → Option Served
unfolding serve_ui i_frame_loop after_i_frames
send_all around flags l =
    let ui = serve_ui around.for_ui around.ui_octets around.ui_taken l in
    let start = around.before_loop ui in
    let looped = i_frame_loop around.turns flags false start in
    let none_sent : Round = record {
      link = start;
      flags = flags;
      i_frame_sent = false;
      next = leave;
    } in
    let ended = if start.p.frmr_condition then some none_sent else looped in
    Option.map (after_i_frames around) ended

-- `ioHdlcConnectedTx`
unfoldable pub connected_tx : Surroundings → List Event → Link → Option Served
unfolding serve_reply_timeout serve_t3_timeout send_all
connected_tx around flags l =
    let at_start = clear (line_idle ∷ []) flags in
    let (polled, up) = serve_reply_timeout at_start l in
    let after_t1 = clear (c_rplytmo ∷ []) at_start in
    let (idled, still_up) = serve_t3_timeout after_t1 polled in
    let after_t3 = clear (t3_tmo ∷ []) after_t1 in
    if not up
    then some (returns polled after_t1)
    else if not still_up
    then some (returns idled after_t3)
    else send_all around after_t3 idled
