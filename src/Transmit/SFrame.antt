-- ===== src/Transmit/SFrame.antt =====
-- The last part of `ioHdlcConnectedTx` of src/ioHdlc_core.c, the S-frame.
use io_hdlc.Base.{Bool, false, not, ◌&&◌, ◌||◌, Option, none, some, if◌then◌else◌}
use io_hdlc.State.{Frame, Link, ◌▷◌, on_station, on_peer, emit, wake_tx}
use io_hdlc.Control.SFun
use io_hdlc.Control.SFun
use io_hdlc.Transmit.{sends_command, send_frame, prepare_s_frame}

-- What the pool returns to the last part: the frames taken in turn, and whether it is normal.
pub record Supply : Type 0 where
  pub for_rej : Option Frame
  pub for_rr : Option Frame
  pub for_answer : Option Frame
  pub normal : Bool

-- What else is done where a frame has been prepared.
abbrev pub with_frame : (Link → Link) → Option Frame × Link → Option Frame × Link
with_frame step (none, l) = (none, l)
with_frame step (some fp, l) = (some fp, step l)

-- A pending REJ.
unfoldable pub prepare_rej : Option Frame → Link → Option Frame × Link
unfolding prepare_s_frame
prepare_rej taken l =
    if l.p.ss.rejpend
    then with_frame (on_peer (λ p. record p { ss = record (p.ss) { rejpend = false } }))
        (prepare_s_frame taken SFun.rej (sends_command l.s) l)
    else (none, l)

-- The end of a local busy state.
unfoldable pub prepare_ready : Bool → Option Frame → Bool → Link → Option Frame × Link
unfolding prepare_s_frame
prepare_ready normal taken is_command l =
    if l.s.busy && normal
    then with_frame (λ m. m ▷ on_station (λ s. record s { busy = false }) ▷ emit wake_tx)
        (prepare_s_frame taken SFun.rr is_command l)
    else (none, l)

-- An answer to a P, or a poll, where no I-frame has been sent.
unfoldable pub prepare_answer : Bool → Option Frame → Bool → Link → Option Frame × Link
unfolding prepare_s_frame
prepare_answer i_frame_sent taken is_command l =
    if not i_frame_sent && (l.s.p_rcved || (l.s.f_rcved && l.p.ss.need_p))
    then prepare_s_frame taken (if l.s.busy then SFun.rnr else SFun.rr) is_command l
    else (none, l)

-- The next attempt, unless a frame has been prepared.
abbrev pub or_else : (Link → Option Frame × Link) → Option Frame × Link → Option Frame × Link
or_else attempt (none, l) = attempt l
or_else attempt (some fp, l) = (some fp, l)

abbrev pub send_prepared : Option Frame × Link → Link
send_prepared (none, l) = l
send_prepared (some fp, l) = l ▷ send_frame fp

-- From `skip_i_frames` on: the S-frame.
unfoldable pub s_frame_part : Supply → Bool → Link → Link
unfolding prepare_rej prepare_ready prepare_answer
s_frame_part supply i_frame_sent l =
    let is_command = sends_command l.s in
    send_prepared (
      or_else (prepare_answer i_frame_sent supply.for_answer is_command) (
        or_else (prepare_ready supply.normal supply.for_rr is_command)
          (prepare_rej supply.for_rej l)))
