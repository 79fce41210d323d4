-- ===== src/Transmit/Total.antt =====
-- `ioHdlcConnectedTx` as a whole: the transmit window, and its end.
use io_hdlc.Base.{
  Bool, false, not, ◌&&◌, ◌||◌, Option, none, some, List, [], ◌∷◌, ◌∙◌, refl, All, if◌then◌else◌,
}
use mathlib.Core.Option
use io_hdlc.State.{Framing, Frame, Event, Link, if-elim}
use io_hdlc.State.Event.{line_idle, c_rplytmo, t3_tmo}
use io_hdlc.Control.RoundTrip.{IsFraming}
use io_hdlc.Control.SFun
use io_hdlc.Transmit.{sends_command, clear, prepare_s_frame, send_frame}
use io_hdlc.Transmit.Timeouts.{serve_reply_timeout, serve_t3_timeout, serve_ui}
use io_hdlc.Transmit.IFrames.{Round, Turn, is_down, i_frame_round, i_frame_loop}
use io_hdlc.Transmit.SFrame.{
  Supply, with_frame, prepare_rej, prepare_ready, prepare_answer, or_else, send_prepared,
  s_frame_part,
}
use io_hdlc.Transmit.Connected.{Surroundings, Served, after_i_frames, send_all, connected_tx}
use io_hdlc.Transmit.Alike.{Alike, prepare_s_frame-Alike}
use io_hdlc.Transmit.Round.{IsFraming-Modulus, i_frame_round-Follows}
use io_hdlc.Transmit.Ending.{next-elim}
use io_hdlc.Transmit.Kept.{
  IsUp, IsUp-Alike, serve_reply_timeout-IsUp, serve_t3_timeout-IsUp, serve_ui-Alike,
}

-- The S-frame that may have been prepared, and the link.
abbrev Prepared : Type 0
Prepared = Option Frame × Link

with_frame-Alike :
    (l : Link) (step : Link → Link) (r : Prepared)
    → ((m : Link) → Alike m (step m))
    → Alike l r.1
    → Alike l (with_frame step r).1
with_frame-Alike l step (none, m) same h = h
with_frame-Alike l step (some fp, m) same h = same m ∙ h

prepare_rej-Alike : (taken : Option Frame) (l : Link) → Alike l (prepare_rej taken l).1
unfolding prepare_rej
prepare_rej-Alike taken l =
    if-elim (λ (r : Prepared). Alike l r.1) l.p.ss.rejpend _ _
      (with_frame-Alike l _ (prepare_s_frame taken SFun.rej (sends_command l.s) l) (λ k. refl)
        (prepare_s_frame-Alike taken SFun.rej (sends_command l.s) l))
      refl

prepare_ready-Alike :
    (normal : Bool) (taken : Option Frame) (is_command : Bool) (l : Link)
    → Alike l (prepare_ready normal taken is_command l).1
unfolding prepare_ready
prepare_ready-Alike normal taken is_command l =
    if-elim (λ (r : Prepared). Alike l r.1) (l.s.busy && normal) _ _
      (with_frame-Alike l _ (prepare_s_frame taken SFun.rr is_command l) (λ k. refl)
        (prepare_s_frame-Alike taken SFun.rr is_command l))
      refl

prepare_answer-Alike :
    (sent : Bool) (taken : Option Frame) (is_command : Bool) (l : Link)
    → Alike l (prepare_answer sent taken is_command l).1
unfolding prepare_answer
prepare_answer-Alike sent taken is_command l =
    if-elim (λ (r : Prepared). Alike l r.1)
      (not sent && (l.s.p_rcved || (l.s.f_rcved && l.p.ss.need_p))) _ _
      (prepare_s_frame-Alike taken (if l.s.busy then SFun.rnr else SFun.rr) is_command l) refl

or_else-Alike :
    (l : Link) (attempt : Link → Prepared) (r : Prepared)
    → ((m : Link) → Alike m (attempt m).1)
    → Alike l r.1
    → Alike l (or_else attempt r).1
or_else-Alike l attempt (none, m) same h = same m ∙ h
or_else-Alike l attempt (some fp, m) same h = h

send_prepared-Alike : (l : Link) (r : Prepared) → Alike l r.1 → Alike l (send_prepared r)
unfolding send_frame
send_prepared-Alike l (none, m) h = h
send_prepared-Alike l (some fp, m) h = h

s_frame_part-Alike :
    (supply : Supply) (sent : Bool) (l : Link) → Alike l (s_frame_part supply sent l)
unfolding s_frame_part
s_frame_part-Alike supply sent l =
    let is_command = sends_command l.s in
    send_prepared-Alike l _ (
      or_else-Alike l (prepare_answer sent supply.for_answer is_command) _
        (prepare_answer-Alike sent supply.for_answer is_command)
        (or_else-Alike l (prepare_ready supply.normal supply.for_rr is_command)
          (prepare_rej supply.for_rej l)
          (prepare_ready-Alike supply.normal supply.for_rr is_command)
          (prepare_rej-Alike supply.for_rej l)))

-- A step of the other threads that keeps the window of whatever link.
abbrev pub Keeps : Framing → (Link → Link) → Type 0
Keeps f step = (l : Link) → IsUp f l → IsUp f (step l)

module _ (f : Framing) (framing : IsFraming f) where
  abbrev RoundUp : Option Round → Type 0
  RoundUp none = Unit
  RoundUp (some r) = IsUp f r.link

  i_frame_loop-IsUp :
      (turns : List Turn) (flags : List Event) (sent : Bool) (l : Link)
      → All (λ t. Keeps f t.between) turns
      → IsUp f l
      → RoundUp (i_frame_loop turns flags sent l)
  unfolding i_frame_loop
  i_frame_loop-IsUp [] flags sent l keeps h = tt
  i_frame_loop-IsUp (t ∷ turns) flags sent l keeps (fresh, h) =
      let r = i_frame_round t.polled flags sent l in
      let (gone, rest, front, stands) =
        i_frame_round-Follows f framing t.polled flags sent fresh l h in
      next-elim RoundUp r.next (some r)
        (i_frame_loop turns r.flags r.i_frame_sent (t.between r.link)) (rest, stands)
        (λ goes.
          i_frame_loop-IsUp turns r.flags r.i_frame_sent (t.between r.link) keeps.1
            (keeps.0 r.link (rest, stands)))

  abbrev pub ServedUp : Option Served → Type 0
  ServedUp none = Unit
  ServedUp (some r) = IsUp f r.link

  after_i_frames-IsUp :
      (around : Surroundings) (r : Round)
      → Keeps f around.after_loop
      → IsUp f r.link
      → IsUp f (after_i_frames around r).link
  unfolding after_i_frames
  after_i_frames-IsUp around r keeps h =
      let m = around.after_loop r.link in
      if-elim (λ (o : Served). IsUp f o.link) (is_down r.next) _ _ h
        (IsUp-Alike f m (s_frame_part around.supply r.i_frame_sent m)
          (s_frame_part-Alike around.supply r.i_frame_sent m) (keeps r.link h))

  map-ServedUp :
      (around : Surroundings) (o : Option Round)
      → Keeps f around.after_loop
      → RoundUp o
      → ServedUp (Option.map (after_i_frames around) o)
  map-ServedUp around none keeps h = tt
  map-ServedUp around (some r) keeps h = after_i_frames-IsUp around r keeps h

  module _ (around : Surroundings) (before : Keeps f around.before_loop)
      (turns : All (λ t. Keeps f t.between) around.turns) (after : Keeps f around.after_loop) where
    send_all-IsUp : (flags : List Event) (l : Link) → IsUp f l → ServedUp (send_all around flags l)
    unfolding send_all
    send_all-IsUp flags l h =
        let ui = serve_ui around.for_ui around.ui_octets around.ui_taken l in
        let start = around.before_loop ui in
        let up =
          before ui (
            IsUp-Alike f l ui (serve_ui-Alike around.for_ui around.ui_octets around.ui_taken l)
              h) in
        map-ServedUp around _ after (
          if-elim RoundUp start.p.frmr_condition _ _ up
            (i_frame_loop-IsUp around.turns flags false start turns up))

    -- Modulo 8 or 128, where the transmit window stands before, and the other threads keep it,
    -- it stands after the transmit scheduler has served a connected peer, whatever the timeouts,
    -- the events and the pool.
    pub connected_tx-IsUp :
        (flags : List Event) (l : Link) → IsUp f l → ServedUp (connected_tx around flags l)
    unfolding connected_tx
    connected_tx-IsUp flags l h =
        let at_start = clear (line_idle ∷ []) flags in
        let polled = serve_reply_timeout at_start l in
        let after_t1 = clear (c_rplytmo ∷ []) at_start in
        let idled = serve_t3_timeout after_t1 polled.0 in
        let one = serve_reply_timeout-IsUp f (IsFraming-Modulus f framing) at_start l h in
        let two = serve_t3_timeout-IsUp f (IsFraming-Modulus f framing) after_t1 polled.0 one in
        if-elim ServedUp (not polled.1) _ _ one (
          if-elim ServedUp (not idled.1) _ _ two
            (send_all-IsUp (clear (t3_tmo ∷ []) after_t1) idled.0 two))
