-- ===== src/Transmit.antt =====
-- When a station may send, and the S-frames it sends: `nrmSendOpportunity` to `responseShouldSetF`,
-- `sendFrame` and `prepareSFrame` of src/ioHdlc_core.c. What `hdlcTakeFrame` returns is an
-- argument. Log messages and statistics are left out.
pub mod Timeouts
pub mod IFrames
pub mod SFrame
pub mod Connected
pub mod Window
pub mod Alike
pub mod Round
pub mod Ending
pub mod Kept
pub mod Total
pub mod Quiet
pub mod RoundRobin
pub mod Entry
pub mod Pass
use io_hdlc.Base.{
  ℕ, Bool, true, false, not, ◌&&◌, ◌||◌, Option, none, some, List, [], ◌∷◌, leb, ◌==◌,
  if◌then◌else◌,
}
use io_hdlc.State.{
  Event, Frame, Station, Peer, Link, ◌▷◌, on_station, on_peer, emit, when, send, release,
  restart_timer, is_nrm, is_abm, is_arm, is_ndm, i_frame_reply_timer_used,
}
use io_hdlc.State.TimerKind.{t3}
use io_hdlc.State.Event.{
  c_rplytmo, t3_tmo, i_recvd, rr_recvd, rnr_recvd, rej_recvd, pool_st_chg, um_recvd, link_st_chg,
  link_req, line_idle, link_down, tx_ifrm_enq, rej_acted, pf_recvd, ui_enq,
}
use io_hdlc.Control.{build_s_frame}
use io_hdlc.Ack.{offset}
use io_hdlc.Retry.{start_poll_reply_timer, i_frame_reply_timeout_ms}

-- The bit of an event flag.
abbrev pub bit : Event → ℕ
bit c_rplytmo = 0
bit t3_tmo = 1
bit i_recvd = 2
bit rr_recvd = 3
bit rnr_recvd = 4
bit rej_recvd = 5
bit pool_st_chg = 6
bit um_recvd = 7
bit link_st_chg = 8
bit link_req = 9
bit line_idle = 10
bit link_down = 11
bit tx_ifrm_enq = 12
bit rej_acted = 13
bit pf_recvd = 14
bit ui_enq = 15

-- A mask of event flags is a list of them: `flags & e`, and `flags & ~mask`.
abbrev pub has : Event → List Event → Bool
has e [] = false
has e (x ∷ flags) = (bit e == bit x) || has e flags

abbrev pub clear : List Event → List Event → List Event
clear mask [] = []
clear mask (x ∷ flags) = if has x mask then clear mask flags else x ∷ clear mask flags

-- `nrmSendOpportunity`
abbrev pub nrm_send_opportunity : Station → Bool
nrm_send_opportunity s = if s.primary then (if s.twa then s.f_rcved else true) else s.p_rcved

-- `abmSendOpportunity`
abbrev pub abm_send_opportunity : Station → Bool
abm_send_opportunity s = not s.twa || s.idle

-- `sendOpportunity`
unfoldable pub send_opportunity : Station → Bool
send_opportunity s = if is_nrm s || is_ndm s then nrm_send_opportunity s else abm_send_opportunity s

-- `responseShouldSetF`, whose argument `is_i_frame` is not used.
unfoldable pub response_should_set_f : Station → Bool → Bool
response_should_set_f s is_last_frame =
    if not s.p_rcved then false else if is_abm s || is_arm s then true else is_last_frame

-- Whether the next frame is a command: in ABM, unless a P waits for its answer; else by the role.
abbrev pub sends_command : Station → Bool
sends_command s = if is_abm s then not s.p_rcved else s.primary

-- `(vs - nr) & modmask`
abbrev pub outstanding : Link → ℕ
outstanding l = offset l.s.framing l.p.vs l.p.nr

-- Is the queue empty?
abbrev pub is_empty : List Frame → Bool
is_empty [] = true
is_empty (fp ∷ q) = false

-- A frame with the P/F bit is about to be sent: the checkpoint reference, and the P or F used up.
unfoldable pub mark_pf : Bool → Link → Link
mark_pf is_command l =
    l
    ▷ when (is_command || not (is_abm l.s) || l.s.f_rcved)
        (on_peer (λ p. record p { vs_atlast_pf = p.vs }))
    ▷ (λ m.
        if is_command
        then m
          ▷ on_station (λ s. record s { f_rcved = false })
          ▷ on_peer (λ p. record p { ss = record (p.ss) { need_p = false } })
        else m ▷ on_station (λ s. record s { p_rcved = false }))

-- In ARM and ABM, two-way alternate, a frame other than an I-frame restarts T3 where it runs.
unfoldable pub restart_i_frame_timer : Link → Link
unfolding restart_timer
restart_i_frame_timer l =
    l
    ▷ when (i_frame_reply_timer_used l.s && l.s.twa)
        (on_peer (restart_timer t3 (i_frame_reply_timeout_ms l.s)))

-- `sendFrame`
unfoldable pub send_frame : Frame → Link → Link
send_frame fp l = l ▷ emit (send fp) ▷ emit (release fp)

-- The P/F bit that `prepareSFrame` chooses.
unfoldable pub s_frame_pf : Bool → Link → Bool
unfolding response_should_set_f
s_frame_pf is_command l =
    let window_full = leb l.p.ks (outstanding l) in
    let no_i_frame = is_empty l.p.i_trans_q || window_full in
    if is_command
    then (if l.s.twa
        then l.s.f_rcved && (no_i_frame || (l.p.ss.peer_busy && l.p.ss.need_p))
        else l.s.f_rcved)
    else response_should_set_f l.s true

-- `prepareSFrame` when there is a send opportunity, with what `hdlcTakeFrame` has returned.
unfoldable pub prepare_taken : Option Frame → ℕ → Bool → Link → Option Frame × Link
unfolding mark_pf s_frame_pf restart_i_frame_timer
prepare_taken none s_fun is_command l = (none, l)
prepare_taken (some fp) s_fun is_command l =
    let set_pf = s_frame_pf is_command l in
    (
      some (build_s_frame l.s l.p fp s_fun l.p.vr set_pf is_command),
      l
          ▷ when set_pf (mark_pf is_command)
          ▷ when (set_pf && is_command) start_poll_reply_timer
          ▷ restart_i_frame_timer,
    )

-- `prepareSFrame`
unfoldable pub prepare_s_frame : Option Frame → ℕ → Bool → Link → Option Frame × Link
unfolding send_opportunity prepare_taken
prepare_s_frame taken s_fun is_command l =
    if not (send_opportunity l.s) then (none, l) else prepare_taken taken s_fun is_command l
