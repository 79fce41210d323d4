-- ===== src/Transmit/Entry.antt =====
-- The pass of `ioHdlcTxEntry` of src/ioHdlc_core.c over one peer, from the lock of its
-- `state_mutex`; the choice of the peer is made outside, by `ioHdlcNextPeer`. What `hdlcTakeFrame`
-- returns is an argument.
use mathlib.Core.Option
use io_hdlc.Base.{
  ℕ, zero, suc, ◌+◌, ◌-◌, ◌%◌, ◌^◌, Bool, true, false, not, ◌&&◌, ◌||◌, Option, none, some, List,
  [], ◌∷◌, ◌==◌, if◌then◌else◌,
}
use io_hdlc.State.{
  Event, Frame, Peer, Link, ◌▷◌, on_station, on_peer, when, stop_timer, is_nrm, is_abm, peer_disc,
}
use io_hdlc.State.Event.{c_rplytmo, um_recvd, link_st_chg, link_req}
use io_hdlc.State.TimerKind.{t3}
use io_hdlc.Control.UFun
use io_hdlc.Control.{build_u_frame, build_frmr_response}
use io_hdlc.Retry.{start_poll_reply_timer}
use io_hdlc.Connection.{handle_timeout_retry, close_peer_orderly}
use io_hdlc.Connection.UFrame.{is_connection_u_command}
use io_hdlc.Transmit.{has, clear, send_opportunity, send_frame, restart_i_frame_timer}
use io_hdlc.Transmit.RoundRobin.{next_peer}
use io_hdlc.Transmit.Connected.{Surroundings, Served, connected_tx}

-- Is a U command to be sent, or to be sent again?
abbrev pub is_requested : List Event → Link → Bool
is_requested flags l = has link_req flags || (l.p.um_sent && has c_rplytmo flags)

-- This peer has nothing to send of what is requested: `ioHdlcNextPeer` is asked for one that has.
abbrev pub is_for_other : List Event → Link → Bool
is_for_other flags l = has link_req flags && (l.p.um_cmd == 0) && not l.p.um_sent

abbrev pub is_held : Option Frame → Bool
is_held none = false
is_held (some fp) = true

-- May this station send the command?
abbrev pub may_command : Link → Bool
may_command l = l.s.primary || ((l.p.um_cmd == UFun.test) && is_held l.p.um_api_frame)

-- The frame of the command: the one that waits, or one taken from the pool.
unfoldable pub command_frame : Option Frame → Link → Option Frame
unfolding build_u_frame
command_frame taken l = elim l.p.um_api_frame [
  | some fp ↦ some fp
  | none ↦ Option.map (λ fp. build_u_frame l.s l.p fp l.p.um_cmd true true) taken
]

-- The timers of a command that has been sent.
unfoldable pub command_timers : Link → Link
unfolding stop_timer restart_i_frame_timer
command_timers l =
    if l.p.um_cmd == UFun.test
    then l ▷ when (is_nrm l.s && l.s.primary) (on_peer (stop_timer t3))
    else l ▷ restart_i_frame_timer ▷ start_poll_reply_timer

unfoldable pub send_command : Option Frame → Link → Link
unfolding send_frame command_timers
send_command none l = l
send_command (some fp) l =
    l
    ▷ on_peer (λ p. record p { um_api_frame = none })
    ▷ send_frame fp
    ▷ command_timers
    ▷ on_peer (λ p. record p { um_sent = true })
    ▷ on_station (λ s. record s { f_rcved = false })

-- In two-way alternate, the F that a command to a disconnected peer needs counts as received.
abbrev pub preset_f : Link → Link
preset_f l =
    l
    ▷ when (peer_disc l.p && l.s.twa && is_connection_u_command l.p.um_cmd)
        (on_station (λ s. record s { f_rcved = true }))

-- Where a pass is left: on to the response, back to waiting with no flags or with those left, or
-- with no flags and the next peer.
pub data Way : Type 0 where
  on back_cleared back next_cleared : Way

-- A retry of the command, where its timer has ended.
unfoldable pub retry_command : List Event → Link → Link × Bool
unfolding handle_timeout_retry
retry_command flags l =
    if has c_rplytmo flags && not (l.p.um_cmd == UFun.test)
    then handle_timeout_retry l
    else (l, true)

-- The command of the peer, once it has been chosen.
unfoldable pub serve_command : Option Frame → List Event → Link → Link × Way
unfolding retry_command send_opportunity command_frame send_command
serve_command taken flags l =
    let (tried, up) = retry_command flags l in
    let preset = preset_f tried in
    if not (may_command l)
    then (l, back_cleared)
    else if not up
    then (tried, next_cleared)
    else if send_opportunity preset.s
    then (send_command (command_frame taken preset) preset, on)
    else (preset, back)

-- The frame of the response. An echo keeps its information field.
unfoldable pub response_frame : Option Frame → Bool → Link → Option Frame
unfolding build_u_frame build_frmr_response
response_frame taken set_f l =
    let f = l.s.framing in
    if l.p.um_rsp == UFun.test
    then Option.map
        (λ fp.
          let built = build_u_frame l.s l.p fp UFun.test set_f false in
          record built { elen = (built.elen + (fp.elen - (f.frame_offset + 2))) % 2 ^ 16 })
        l.p.um_rsp_frame
    else if l.p.um_rsp == UFun.frmr
    then Option.map (λ fp. build_frmr_response l.s l.p fp set_f) taken
    else Option.map (λ fp. build_u_frame l.s l.p fp l.p.um_rsp set_f false) taken

-- What follows a response.
unfoldable pub after_response : Link → Link
unfolding close_peer_orderly
after_response l =
    if l.p.um_cmd == UFun.test
    then l ▷ on_peer (λ p. record p { um_cmd = if p.um_sent then p.um_cmd else 0; um_rsp = 0 })
    else if l.p.um_cmd == UFun.disc
    then close_peer_orderly l
    else l

unfoldable pub send_response : Option Frame → Link → Link
unfolding send_frame restart_i_frame_timer after_response
send_response none l = l
send_response (some fp) l =
    l
    ▷ on_peer
        (λ p. record p { um_rsp_frame = if p.um_rsp == UFun.test then none else p.um_rsp_frame })
    ▷ send_frame fp
    ▷ restart_i_frame_timer
    ▷ after_response

-- A U frame has been received, and is answered at once.
unfoldable pub serve_response : Option Frame → Link → Link
unfolding response_frame send_response
serve_response taken l =
    let set_f = l.s.p_rcved in
    if l.p.um_rcved
    then l
      ▷ on_peer (λ p. record p { um_rcved = false })
      ▷ on_station (λ s. record s { p_rcved = false })
      ▷ send_response (response_frame taken set_f l)
    else l

-- Which peer comes next: this one, or the next, since the link is lost, since there is nothing to do
-- for a disconnected peer, or since a connected one is served.
pub data Succession : Type 0 where
  same_peer lost idle served_up : Succession

-- What a pass leaves: nothing where the I-frame loop goes on after its last turn.
pub record Passed : Type 0 where
  pub link : Link
  pub flags : List Event
  pub succession : Succession

-- What `ioHdlcConnectedTx` leaves.
abbrev pub passed_of : Served → Passed
passed_of r = record {
  link = r.link;
  flags = r.flags;
  succession = if r.next_peer then served_up else same_peer;
}

-- From the response on.
unfoldable pub serve_rest : Option Frame → Surroundings → List Event → Link → Option Passed
unfolding serve_response connected_tx
serve_rest taken around flags l =
    let answered = serve_response taken l in
    let seen = if l.p.um_rcved then clear (um_recvd ∷ []) flags else flags in
    let left = clear (link_st_chg ∷ []) seen in
    let is_idle =
      answered.s.primary
      && peer_disc answered.p
      && (answered.p.um_cmd == 0)
      && not answered.p.um_sent in
    let kept = clear_all_but_requests left in
    let served = connected_tx around left answered in
    if peer_disc answered.p || answered.p.um_sent
    then some (record {
      link = answered;
      flags = if is_idle then [] else kept;
      succession = if is_idle then idle else same_peer;
    })
    else if is_nrm answered.s || is_abm answered.s
    then Option.map passed_of served
    else some (record { link = answered; flags = left; succession = same_peer })
  where
    clear_all_but_requests : List Event → List Event
    clear_all_but_requests [] = []
    clear_all_but_requests (e ∷ es) =
        if has e (c_rplytmo ∷ link_req ∷ [])
        then e ∷ clear_all_but_requests es
        else clear_all_but_requests es

-- The pass over the peer that it serves: where a request is not for the current peer but for the one
-- that `ioHdlcNextPeer` finds, the pass is over that one; where none is found, the request is
-- ignored. `for_command` and `for_response` are what the pool returns for the two U frames.
unfoldable pub tx_pass :
    Option Frame → Option Frame → Surroundings → List Event → Link → Option Passed
unfolding serve_command serve_rest
tx_pass for_command for_response around flags l =
    let (commanded, way) = serve_command for_command flags l in
    let left = clear (link_req ∷ c_rplytmo ∷ []) flags in
    let rest = serve_rest for_response around left commanded in
    let unasked = serve_rest for_response around flags l in
    let ignored : Passed = record { link = l; flags = left; succession = same_peer } in
    if not (is_requested flags l)
    then unasked
    else if is_for_other flags l
    then some ignored
    else elim way [
      | on ↦ rest
      | back_cleared ↦ some (record { link = commanded; flags = []; succession = same_peer })
      | back ↦ some (record { link = commanded; flags = left; succession = same_peer })
      | next_cleared ↦ some (record { link = commanded; flags = []; succession = lost })
    ]

-- `IOHDLC_SET_NEED_P` on the peer at an index.
abbrev pub set_need_p_at : Bool → List Peer → ℕ → List Peer
set_need_p_at primary [] c = []
set_need_p_at primary (p ∷ peers) zero =
    (if primary then record p { ss = record (p.ss) { need_p = true } } else p) ∷ peers
set_need_p_at primary (p ∷ peers) (suc c) = p ∷ set_need_p_at primary peers c

-- Is the peer at an index connected?
abbrev pub is_connected_at : List Peer → ℕ → Bool
is_connected_at [] c = false
is_connected_at (p ∷ peers) zero = not (peer_disc p)
is_connected_at (p ∷ peers) (suc c) = is_connected_at peers c

-- The peers, the index of the current one and the flags after a pass.
unfoldable pub succeed :
    Succession → Bool → List Event → List Peer → ℕ → (List Peer × ℕ) × List Event
unfolding next_peer
succeed same_peer primary flags peers c = ((peers, c), flags)
succeed lost primary flags peers c = ((peers, next_peer false peers c), [])
succeed idle primary flags peers c =
    let n = next_peer false peers c in
    if is_connected_at peers n
    then ((set_need_p_at primary peers n, n), link_st_chg ∷ [])
    else ((peers, n), [])
succeed served_up primary flags peers c =
    let n = next_peer false peers c in
    ((if n == c then peers else set_need_p_at primary peers n, n), flags)
