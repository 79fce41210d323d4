-- ===== src/Receive.antt =====
-- The reception of I-frames and S-frames in src/ioHdlc_core.c: `setFrmrCondition`,
-- `handleCheckpointAndAck`, `handleIFrame`, `handleSFrame`, `commonRx`, and the handlers of the
-- modes, `ioHdlcNrmRx` and `ioHdlcAbmRx`; and from src/ioHdlc.c `s_peer_raw_rx_deliver`. Each runs
-- under the peer's `state_mutex` and is one step. The state of the frame pool, which the pool keeps
-- behind its own lock, is an argument. Log messages and statistics are left out.
pub mod Window
pub mod Delivery
use io_hdlc.Base.{
  ℕ, ◌+◌, ◌-◌, bit_and, Bool, true, false, not, ◌&&◌, Option, none, some, List, [], ◌∷◌, ◌++◌, ltb,
  ◌==◌, if◌then◌else◌,
}
use io_hdlc.State.{
  Frame, Peer, SsState, Event, Link, ◌▷◌, on_station, on_peer, emit, when, broadcast, release,
  wake_tx, wake_rx, start_timer, stop_timer, restart_timer, is_nrm, is_abm, set_need_p,
  i_frame_reply_timer_used,
}
use io_hdlc.State.Event.{
  i_recvd, rr_recvd, rnr_recvd, rej_recvd, pool_st_chg, um_recvd, tx_ifrm_enq, rej_acted, pf_recvd,
}
use io_hdlc.State.TimerKind.{reply, t3}
use io_hdlc.Control.UFun
use io_hdlc.Control.SFun
use io_hdlc.Control.{is_i_frm, frame_addr, frame_ctrl, frame_get_pf, extract_ns, extract_nr}
use io_hdlc.Retry.{idle_poll_timeout_ms, reply_timer_timeout_ms}
use io_hdlc.Ack.{next_number, is_nr_valid, process_nr, checkpoint_retransmit, rej_retransmit}

abbrev pub set_ss : (SsState → SsState) → Peer → Peer
set_ss f p = record p { ss = f p.ss }

-- `IOHDLC_FRMR_Y`, an invalid N(R).
abbrev pub frmr_y : ℕ
frmr_y = 0x04

-- `setFrmrCondition`
unfoldable pub set_frmr_condition : ℕ × ℕ → ℕ → Bool → ℕ → Link → Link
set_frmr_condition rejected_ctrl ctrl_size is_command reason l =
    l
    ▷ on_peer (λ p. record p {
      frmr_condition = true;
      frmr_rejected_ctrl = (rejected_ctrl.0, if ltb 1 ctrl_size then rejected_ctrl.1 else 0);
      frmr_reason = reason;
      frmr_cr = is_command;
      um_rsp = UFun.frmr;
      um_rcved = true;
    })
    ▷ emit (broadcast (um_recvd ∷ []))

-- What a received frame has changed, and the flags that are signalled later.
pub record Outcome : Type 0 where
  pub link : Link
  pub signal_tx : Bool
  pub checkpoint_moved : Bool
  pub flags : List Event

-- `handleCheckpointAndAck` on a P/F bit that is set: the checkpoint retransmission, which a command
-- in ABM inhibits.
unfoldable pub checkpoint_pf : Bool → Link → Link × Bool
unfolding checkpoint_retransmit stop_timer
checkpoint_pf is_command l =
    let (p, moved) = checkpoint_retransmit l.s.framing l.p in
    if is_abm l.s && is_command then (l, false) else (
      record l { p = p } ▷ when (moved && i_frame_reply_timer_used l.s) (on_peer (stop_timer t3)),
      moved,
    )

-- `handleCheckpointAndAck` on a P/F bit that is set: a response closes the poll, a command asks for
-- a response.
unfoldable pub answer_pf : Bool → Link → Link
unfolding stop_timer start_timer
answer_pf is_command l =
    if is_command
    then l ▷ on_station (λ s. record s { p_rcved = true })
    else l
      ▷ on_station (λ s. record s { f_rcved = true })
      ▷ on_peer (λ p. stop_timer reply (record p { poll_retry_count = 0 }))
      ▷ when (is_nrm l.s) (on_peer (start_timer t3 (idle_poll_timeout_ms l.s)))

-- `handleCheckpointAndAck` on a P/F bit that is not set.
unfoldable pub handle_no_pf : Bool → Link → Link
unfolding restart_timer reply_timer_timeout_ms
handle_no_pf is_command l =
    if is_command
    then l
    else l
      ▷ when (is_nrm l.s) (on_peer (restart_timer t3 (idle_poll_timeout_ms l.s)))
      ▷ when (not l.s.f_rcved) (on_peer (restart_timer reply (reply_timer_timeout_ms l.s l.p)))

-- `handleCheckpointAndAck`: nothing on an invalid N(R).
unfoldable pub handle_checkpoint_and_ack : ℕ → Bool → Bool → Link → Option Outcome
unfolding is_nr_valid process_nr checkpoint_pf answer_pf handle_no_pf
handle_checkpoint_and_ack nr pf is_command l =
    let (acked, signal_tx) = process_nr nr l in
    let (checked, moved) = checkpoint_pf is_command acked in
    if not (is_nr_valid l.s.framing l.p nr)
    then none
    else if pf
    then some record {
      link = answer_pf is_command checked;
      signal_tx = signal_tx;
      checkpoint_moved = moved;
      flags = pf_recvd ∷ [];
    }
    else some record {
      link = handle_no_pf is_command acked;
      signal_tx = signal_tx;
      checkpoint_moved = false;
      flags = [];
    }

-- `s_peer_raw_rx_deliver`
unfoldable pub raw_rx_deliver : Frame → Link → Link
raw_rx_deliver fp l =
    l ▷ on_peer (λ p. record p { i_recept_q = p.i_recept_q ++ (fp ∷ []) }) ▷ emit wake_rx

-- `handleIFrame` on an N(S) out of sequence.
unfoldable pub reject_i_frame : Link → Link × List Event
reject_i_frame l =
    if not l.s.twa && l.s.use_rej && (l.p.rej_actioned == 0)
    then (
      l
          ▷ on_peer (λ p.
            set_ss (λ ss. record ss { rejpend = true }) (record p { rej_actioned = p.vr + 1 })),
      rej_acted ∷ [],
    )
    else (l, [])

-- `handleIFrame` on the N(S) that is expected.
unfoldable pub accept_i_frame : Bool → Frame → Bool → ℕ → Link → Link × List Event
unfolding raw_rx_deliver next_number
accept_i_frame pool_low fp pf ns l =
    let congested = not l.s.busy && pool_low in
    (
      raw_rx_deliver fp l
          ▷ on_peer (λ p. record p {
            rej_actioned =
                if not (p.rej_actioned == 0) && (ns == p.rej_actioned - 1)
                then 0
                else p.rej_actioned;
          })
          ▷ when (l.p.ss.peer_busy && pf) (on_peer (set_ss (λ ss. record ss { peer_busy = false })))
          ▷ when congested (on_station (λ s. record s { busy = true }))
          ▷ on_peer (λ p. record p { vr = next_number l.s.framing p.vr }),
      if congested then i_recvd ∷ pool_st_chg ∷ [] else i_recvd ∷ [],
    )

-- `handleIFrame`: the link, the flags, and whether the frame is accepted.
unfoldable pub handle_i_frame : Bool → Frame → Bool → Link → (Link × List Event) × Bool
unfolding extract_ns reject_i_frame accept_i_frame
handle_i_frame pool_low fp pf l =
    let ns = extract_ns l.s.framing fp in
    if ns == l.p.vr then (accept_i_frame pool_low fp pf ns l, true) else (reject_i_frame l, false)

-- `handleSFrame` on a REJ.
unfoldable pub handle_rej : Link → Link × List Event
unfolding rej_retransmit
handle_rej l =
    let (p, enqueued) = rej_retransmit l.s.framing l.p in
    if l.s.twa
    then (l, [])
    else (record l { p = p }, if enqueued then tx_ifrm_enq ∷ rej_recvd ∷ [] else rej_recvd ∷ [])

-- `handleSFrame`
unfoldable pub handle_s_frame : Frame → Link → Link × List Event
unfolding handle_rej
handle_s_frame fp l =
    let s_fun = bit_and (frame_ctrl l.s.framing fp 0) SFun.fun_mask in
    if s_fun == SFun.rr
    then (l ▷ on_peer (set_ss (λ ss. record ss { peer_busy = false })), rr_recvd ∷ [])
    else if s_fun == SFun.rnr
    then (l ▷ on_peer (set_ss (λ ss. record ss { peer_busy = true })), rnr_recvd ∷ [])
    else if s_fun == SFun.rej
    then handle_rej l
    else (l, [])

-- `commonRx` while an FRMR exception is active.
unfoldable pub frmr_rx : Frame → Bool → Link → Link
frmr_rx fp pf l =
    l
    ▷ when pf (λ l.
      l
      ▷ on_peer (λ p. record p { um_rsp = UFun.frmr; um_rcved = true })
      ▷ emit (broadcast (um_recvd ∷ [])))
    ▷ emit (release fp)

-- `commonRx` on an invalid N(R).
unfoldable pub invalid_nr_rx : Frame → Bool → Link → Link
unfolding set_frmr_condition
invalid_nr_rx fp is_command l =
    let f = l.s.framing in
    let second = if ltb 1 f.ctrl_size then frame_ctrl f fp 1 else 0 in
    l
    ▷ set_frmr_condition (frame_ctrl f fp 0, second) f.ctrl_size is_command frmr_y
    ▷ emit (release fp)

-- `commonRx` by the type of the frame: the link, the flags, and whether the frame is accepted.
unfoldable pub dispatch_rx : Bool → Frame → Bool → Link → (Link × List Event) × Bool
unfolding handle_i_frame handle_s_frame
dispatch_rx pool_low fp pf l =
    let ((i_link, i_flags), accepted) = handle_i_frame pool_low fp pf l in
    if is_i_frm (frame_ctrl l.s.framing fp 0)
    then ((i_link ▷ when (accepted && is_nrm l.s && l.s.primary) set_need_p, i_flags), accepted)
    else (handle_s_frame fp l, false)

abbrev pub broadcast_any : List Event → Link → Link
broadcast_any [] l = l
broadcast_any (e ∷ es) l = emit (broadcast (e ∷ es)) l

-- `commonRx` once the N(R) has been processed.
unfoldable pub acked_rx : Bool → Frame → Bool → Outcome → Link
unfolding dispatch_rx
acked_rx pool_low fp pf o =
    let ((l, flags), accepted) = dispatch_rx pool_low fp pf o.link in
    l
    ▷ broadcast_any (o.flags ++ (flags ++ (if o.checkpoint_moved then tx_ifrm_enq ∷ [] else [])))
    ▷ when o.signal_tx (emit wake_tx)
    ▷ when (not accepted) (emit (release fp))

-- `commonRx`
unfoldable pub common_rx : Bool → Frame → Bool → Link → Link
unfolding extract_nr frame_get_pf frmr_rx invalid_nr_rx handle_checkpoint_and_ack acked_rx
common_rx pool_low fp is_command l =
    let f = l.s.framing in
    let pf = frame_get_pf f fp in
    if l.p.frmr_condition
    then frmr_rx fp pf l
    else elim (handle_checkpoint_and_ack (extract_nr f fp) pf is_command l) [
      | none ↦ invalid_nr_rx fp is_command l
      | some o ↦ acked_rx pool_low fp pf o
    ]

-- `ioHdlcNrmRx`
unfoldable pub nrm_rx : Bool → Frame → Link → Link
unfolding common_rx
nrm_rx pool_low fp l =
    let addr = frame_addr l.s.framing fp in
    if addr == (if l.s.primary then l.p.addr else l.s.addr)
    then common_rx pool_low fp (addr == l.s.addr) l
    else emit (release fp) l

-- `ioHdlcAbmRx`
unfoldable pub abm_rx : Bool → Frame → Link → Link
unfolding common_rx
abm_rx pool_low fp l =
    let addr = frame_addr l.s.framing fp in
    if not (addr == l.s.addr) && not (addr == l.p.addr)
    then emit (release fp) l
    else common_rx pool_low fp (addr == l.s.addr) l
