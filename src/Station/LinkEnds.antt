-- ===== src/Station/LinkEnds.antt =====
-- How an attempt to connect ends.
use io_hdlc.Base.{Bool, true, false, not, ◌&&◌, none, some, ◌≡◌, ◌⊎◌, ◌==◌, if◌then◌else◌}
use io_hdlc.State.{Mode, Link, is_disc, peer_disc}
use io_hdlc.State.Mode.{no_mode}
use io_hdlc.Station.{Errno}
use io_hdlc.Station.Errno.{einval, eisconn, enotsup, etimedout, econnrefused}
use io_hdlc.Station.LinkUp.{Ends, mode_to_ucmd, is_balanced}

-- The mode that a failed attempt leaves.
abbrev pub mode_left : Link → Mode
mode_left l = if is_disc l.s then l.s.mode else no_mode

-- Why an attempt fails, and what it leaves.
abbrev pub UpFails : Bool → Bool → Mode → Link → Errno → Link → Type 0
UpFails found nrm_only mode l einval last =
    (last.p ≡ l.p)
    × (last.log ≡ l.log)
    × (last.s.mode ≡ l.s.mode)
    × ((found && not (mode_to_ucmd mode == 0)) ≡ false)
UpFails found nrm_only mode l enotsup last =
    (last.p ≡ l.p)
    × (last.log ≡ l.log)
    × (last.s.mode ≡ l.s.mode)
    × ((nrm_only && is_balanced mode) ≡ true)
UpFails found nrm_only mode l eisconn last = (last ≡ l) × (peer_disc l.p ≡ false)
UpFails found nrm_only mode l econnrefused last =
    (last.s.mode ≡ mode_left l) × (peer_disc last.p ≡ true)
UpFails found nrm_only mode l etimedout last = last.s.mode ≡ mode_left l
UpFails found nrm_only mode l other last = ⊥

abbrev pub UpEnds : Bool → Bool → Mode → Link → Ends → Type 0
UpEnds found nrm_only mode l (none, last) =
    (peer_disc last.p ≡ false) ⊎ ((last ≡ l) × ((l.s.primary ≡ false) × (is_balanced mode ≡ false)))
UpEnds found nrm_only mode l (some e, last) = UpFails found nrm_only mode l e last
