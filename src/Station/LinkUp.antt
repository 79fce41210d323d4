-- ===== src/Station/LinkUp.antt =====
-- `ioHdlcStationLinkUpEx` and `ioHdlcStationLinkDownEx` of src/ioHdlc.c. `found` says whether the
-- station has a peer of the address; a wait for `app_es` is a step of a list, and with the last the
-- safety timeout expires.
use io_hdlc.Base.{
  ℕ, Bool, true, false, not, ◌&&◌, Option, none, some, List, [], ◌∷◌, ◌==◌, if◌then◌else◌,
}
use io_hdlc.State.{
  Mode, Link, ◌▷◌, on_station, on_peer, emit, when, broadcast, is_abm, is_disc, peer_disc,
}
use io_hdlc.State.Mode.{no_mode, abm, arm, nrm}
use io_hdlc.State.Event.{link_req}
use io_hdlc.Control.UFun
use io_hdlc.Station.{Errno}
use io_hdlc.Station.Errno.{einval, eisconn, enotsup, enotconn, etimedout, econnrefused}

-- `IOHDLC_MODE_TO_UCMD`
unfoldable pub mode_to_ucmd : Mode → ℕ
mode_to_ucmd mode = elim mode [ nrm ↦ UFun.snrm | arm ↦ UFun.sarm | abm ↦ UFun.sabm | _ ↦ 0 ]

-- A wait that ends with an event: what the other threads have done, and the flags that the listener
-- gets.
pub record Wake : Type 0 where
  pub meanwhile : Link → Link
  pub up : Bool
  pub refused : Bool
  pub down : Bool

-- What a function returns: 0, or why not; and the link.
abbrev pub Ends : Type 0
Ends = Option Errno × Link

-- A command is requested, and what the last connection has left is cleared.
unfoldable pub request : ℕ → Link → Link
request u_cmd l =
    l
    ▷ on_peer (λ p. record p {
      um_cmd = u_cmd;
      ss = record (p.ss) { term_orderly = false; term_aborted = false };
    })
    ▷ emit (broadcast (link_req ∷ []))

-- The loop that waits for the connection; `s_mode` is the mode that comes back without one, and
-- `late` is what the other threads do until the timeout.
unfoldable pub up_wait : Mode → List Wake → (Link → Link) → Link → Ends
up_wait s_mode [] late l = (some etimedout, on_station (λ s. record s { mode = s_mode }) (late l))
up_wait s_mode (w ∷ wakes) late l =
    let woken = w.meanwhile l in
    let again = up_wait s_mode wakes late woken in
    if w.up && not (peer_disc woken.p)
    then (none, woken)
    else if w.refused && peer_disc woken.p
    then (some econnrefused, on_station (λ s. record s { mode = s_mode }) woken)
    else again

-- The mode of the attempt, and the one that comes back without a connection.
unfoldable pub up_mode : Mode → Link → Mode × Link
up_mode mode l =
    if is_disc l.s then (l.s.mode, on_station (λ s. record s { mode = mode }) l) else (no_mode, l)

abbrev pub is_balanced : Mode → Bool
is_balanced mode = elim mode [ abm ↦ true | _ ↦ false ]

-- A balanced station is a primary one.
abbrev pub balance : Mode → Link → Link
balance mode l = when (is_balanced mode) (on_station (λ s. record s { primary = true })) l

-- `ioHdlcStationLinkUpEx`
unfoldable pub link_up : Bool → Bool → Mode → List Wake → (Link → Link) → Link → Ends
unfolding mode_to_ucmd request up_wait up_mode
link_up found nrm_only mode wakes late l =
    let b = balance mode l in
    let (s_mode, at_mode) = up_mode mode b in
    if not found
    then (some einval, l)
    else if not (peer_disc l.p)
    then (some eisconn, l)
    else if not l.s.primary && not (is_balanced mode)
    then (none, l)
    else if nrm_only && is_balanced mode
    then (some enotsup, b)
    else if mode_to_ucmd mode == 0
    then (some einval, b)
    else up_wait s_mode wakes late (request (mode_to_ucmd mode) at_mode)

-- The loop that waits for the disconnection.
unfoldable pub down_wait : List Wake → (Link → Link) → Link → Ends
down_wait [] late l = (some etimedout, late l)
down_wait (w ∷ wakes) late l =
    let woken = w.meanwhile l in
    let again = down_wait wakes late woken in
    if w.down && peer_disc woken.p then (none, woken) else again

-- `ioHdlcStationLinkDownEx`
unfoldable pub link_down : Bool → List Wake → (Link → Link) → Link → Ends
unfolding request down_wait
link_down found wakes late l =
    if not found
    then (some enotconn, l)
    else if peer_disc l.p
    then (some enotconn, l)
    else if not l.s.primary && not (is_abm l.s)
    then (none, l)
    else down_wait wakes late (request UFun.disc l)
