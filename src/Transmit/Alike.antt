-- ===== src/Transmit/Alike.antt =====
-- What transmission leaves alone: timers, P/F bits and the log are no part of the transmit window.
use io_hdlc.Base.{
  ℕ, ◌<◌, Bool, not, ◌&&◌, ◌||◌, Option, none, some, List, ◌≡◌, ◌∙◌, refl, sym, subst,
}
use io_hdlc.State.{
  Framing, Frame, Link, on_peer, when, if-elim, TimerKind, timer, start_timer, restart_timer,
  stop_timer, set_timer, is_nrm, is_abm, i_frame_reply_timer_used,
}
use io_hdlc.State.TimerKind.{reply, t3}
use io_hdlc.Retry.{start_poll_reply_timer, reply_timer_timeout_ms, i_frame_reply_timeout_ms}
use io_hdlc.Ack.Window.{IsWindowAt}
use io_hdlc.Ack.Limits.{LimitsAt}
use io_hdlc.Receive.Window.{Stands}
use io_hdlc.Transmit.{
  mark_pf, restart_i_frame_timer, send_frame, s_frame_pf, prepare_taken, prepare_s_frame,
  send_opportunity,
}

-- What the transmit window of a link is made of.
pub record Core : Type 0 where
  pub framing : Framing
  pub station_addr : ℕ
  pub retrans : List Frame
  pub trans : List Frame
  pub nr : ℕ
  pub vs : ℕ
  pub vs_highest : ℕ
  pub pending : ℕ
  pub ks : ℕ
  pub vr : ℕ
  pub addr : ℕ

abbrev pub core : Link → Core
core l = record {
  framing = l.s.framing;
  station_addr = l.s.addr;
  retrans = l.p.i_retrans_q;
  trans = l.p.i_trans_q;
  nr = l.p.nr;
  vs = l.p.vs;
  vs_highest = l.p.vs_highest;
  pending = l.p.i_pending_count;
  ks = l.p.ks;
  vr = l.p.vr;
  addr = l.p.addr;
}

-- Two links with the same transmit window.
abbrev pub Alike : Link → Link → Type 0
Alike l m = core m ≡ core l

-- `Stands`, of the parts.
abbrev StandsCore : Framing → List Frame → Core → Type 0
StandsCore f fresh c =
    ((c.framing ≡ f) × (c.station_addr < 256))
    × (((resend : List Frame) × IsWindowAt f c.retrans c.trans c.nr c.vs c.vs_highest c.pending
            resend fresh)
        × LimitsAt f c.retrans c.ks c.vr c.addr)

pub Alike-Stands :
    (f : Framing) (fresh : List Frame) (l m : Link)
    → Alike l m
    → Stands f fresh l
    → Stands f fresh m
Alike-Stands f fresh l m e h = subst (StandsCore f fresh) (sym e) h

module _ (l : Link) where
  pub mark_pf-Alike : (is_command : Bool) → Alike l (mark_pf is_command l)
  unfolding mark_pf
  mark_pf-Alike is_command =
      let asked = is_command || not (is_abm l.s) || l.s.f_rcved in
      let marked : Link = when asked (on_peer (λ p. record p { vs_atlast_pf = p.vs })) l in
      let same : Alike l marked = if-elim (Alike l) asked _ _ refl refl in
      if-elim (Alike l) is_command _ _ same same

  pub start_poll_reply_timer-Alike : Alike l (start_poll_reply_timer l)
  unfolding start_poll_reply_timer start_timer stop_timer set_timer
  start_poll_reply_timer-Alike =
      if-elim
        (λ (r : Link). Alike l (on_peer (start_timer reply (reply_timer_timeout_ms l.s l.p)) r))
        (is_nrm l.s && l.s.primary) _ _ refl refl

  pub restart_timer-Alike : (k : TimerKind) (ms : ℕ) → Alike l (on_peer (restart_timer k ms) l)
  unfolding restart_timer timer start_timer set_timer
  restart_timer-Alike reply ms =
      if-elim (λ p. Alike l (record l { p = p })) l.p.reply_tmr.armed _ _ refl refl
  restart_timer-Alike t3 ms =
      if-elim (λ p. Alike l (record l { p = p })) l.p.t3_tmr.armed _ _ refl refl

  pub restart_i_frame_timer-Alike : Alike l (restart_i_frame_timer l)
  unfolding restart_i_frame_timer
  restart_i_frame_timer-Alike =
      if-elim (Alike l) (i_frame_reply_timer_used l.s && l.s.twa) _ _
        (restart_timer-Alike t3 (i_frame_reply_timeout_ms l.s)) refl

  pub send_frame-Alike : (fp : Frame) → Alike l (send_frame fp l)
  unfolding send_frame
  send_frame-Alike fp = refl

  -- One statement under a condition, then another that changes nothing.
  pub when-Alike : (b : Bool) (step : Link → Link) → Alike l (step l) → Alike l (when b step l)
  when-Alike b step h = if-elim (Alike l) b _ _ h refl

pub prepare_s_frame-Alike :
    (taken : Option Frame) (s_fun : ℕ) (is_command : Bool) (l : Link)
    → Alike l (prepare_s_frame taken s_fun is_command l).1
unfolding prepare_s_frame prepare_taken
prepare_s_frame-Alike none s_fun is_command l =
    if-elim (λ (r : Option Frame × Link). Alike l r.1) (not (send_opportunity l.s)) _ _ refl refl
prepare_s_frame-Alike (some fp) s_fun is_command l =
    let set_pf = s_frame_pf is_command l in
    let marked : Link = when set_pf (mark_pf is_command) l in
    let polled : Link = when (set_pf && is_command) start_poll_reply_timer marked in
    if-elim (λ (r : Option Frame × Link). Alike l r.1) (not (send_opportunity l.s)) _ _ refl
      (restart_i_frame_timer-Alike polled
        ∙ when-Alike marked (set_pf && is_command) start_poll_reply_timer
            (start_poll_reply_timer-Alike marked)
        ∙ when-Alike l set_pf (mark_pf is_command) (mark_pf-Alike l is_command))
