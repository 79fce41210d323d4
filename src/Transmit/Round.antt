-- ===== src/Transmit/Round.antt =====
-- A round of the I-frame loop and the transmit window.
use io_hdlc.Base.{
  ℕ, ◌≤◌, ◌<◌, Bool, false, ◌&&◌, List, [], ◌∷◌, ◌++◌, ◌≡◌, ◌∙◌, refl, sym, ap, subst, arith,
  length, length-append, get_or, drop, if◌then◌else◌, Bool-cases, inl, inr, ◌⊎◌,
}
use io_hdlc.State.{
  Framing, Frame, Event, Station, Peer, Link, on_peer, emit, when, send, if-elim, start_timer,
  set_timer, i_frame_reply_timer_used,
}
use io_hdlc.State.TimerKind.{t3}
use io_hdlc.State.Event.{link_down}
use io_hdlc.Control.{prepare_i_frame_header}
use io_hdlc.Control.RoundTrip.{IsFraming, HasRoom}
use io_hdlc.Control.Numbering.{tx_ns, prepare_i_frame_header-IsIFrame}
use io_hdlc.Control.Octets.{prepare_i_frame_header-HasRoom, prepare_i_frame_header-ctrl_len}
use io_hdlc.Retry.{start_poll_reply_timer, i_frame_reply_timeout_ms}
use io_hdlc.Ack.{offset}
use io_hdlc.Ack.Window.{Modulus, IsSentAs, IsUnsent, IsWindow, offset-advance, advance-le}
use io_hdlc.Ack.Limits.{Limits}
use io_hdlc.Receive.Window.{Stands, IsStation}
use io_hdlc.Transmit.{has, sends_command, outstanding, mark_pf}
use io_hdlc.Transmit.IFrames.{
  i_frame_pf, i_frame_to_send, queue_sent, send_i_frame, Round, send_round, is_barred,
  i_frame_round,
}
use io_hdlc.Transmit.Alike.{
  Alike, Alike-Stands, mark_pf-Alike, start_poll_reply_timer-Alike, when-Alike,
}
use io_hdlc.Transmit.Window.{queue_fresh, queue_again, sent_behind}

pub IsFraming-Modulus : (f : Framing) → IsFraming f → Modulus f
IsFraming-Modulus f (inl e) = inl (ap (λ g. g.modmask) e)
IsFraming-Modulus f (inr e) = inr (ap (λ g. g.modmask) e)

-- A frame that was sent as number V(S), or never.
abbrev MayBeSent : Framing → ℕ → Frame → Type 0
MayBeSent f vs fp = IsSentAs f vs fp ⊎ IsUnsent f fp

tx_ns_vs : (f : Framing) (vs : ℕ) (fp : Frame) → MayBeSent f vs fp → tx_ns f fp vs ≡ vs
tx_ns_vs f vs fp (inl h) = rw (h.marked) (h.number)
tx_ns_vs f vs fp (inr h) = rw (h.unmarked) refl

MayBeSent-HasRoom : (f : Framing) (vs : ℕ) (fp : Frame) → MayBeSent f vs fp → HasRoom f fp
MayBeSent-HasRoom f vs fp (inl h) = h.space
MayBeSent-HasRoom f vs fp (inr h) = h.space

prepared-IsSentAs :
    (s : Station) (fp : Frame) (addr vs vr : ℕ) (pf : Bool)
    → IsFraming s.framing
    → addr < 256
    → vs ≤ s.framing.modmask
    → vr ≤ s.framing.modmask
    → MayBeSent s.framing vs fp
    → IsSentAs s.framing vs (prepare_i_frame_header s fp addr vs vr pf).1
prepared-IsSentAs s fp addr vs vr pf framing small hs hr h =
    let f = s.framing in
    let room = MayBeSent-HasRoom f vs fp h in
    let sent = (prepare_i_frame_header-IsIFrame s fp addr vs vr pf framing room hs hr).1 in
    let len = prepare_i_frame_header-ctrl_len s fp addr vs vr pf in
    let kind = sent.kind in
    record {
      number = sent.sequence ∙ tx_ns_vs f vs fp h;
      marked = ground arith;
      space = prepare_i_frame_header-HasRoom s fp addr vs vr pf framing small hs hr room;
    }

-- The frame is queued again with the number V(S), and everything else that is done to the link
-- leaves the window alone.
pub send_i_frame-Alike :
    (fp : Frame) (left : List Frame) (l : Link)
    → Alike
        (on_peer
          (queue_sent l.s.framing (i_frame_reply_timer_used l.s) (i_frame_to_send fp left l) left)
          l)
        (send_i_frame fp left l)
unfolding send_i_frame start_timer set_timer
send_i_frame-Alike fp left l =
    let is_command = sends_command l.s in
    let set_pf = i_frame_pf left l in
    let after = i_frame_to_send fp left l in
    let used = i_frame_reply_timer_used l.s in
    let queued : Link = on_peer (queue_sent l.s.framing used after left) l in
    let marked : Link = when set_pf (mark_pf is_command) queued in
    let sent : Link = emit (send after) marked in
    let polled : Link = when (set_pf && is_command) start_poll_reply_timer sent in
    let start = on_peer (start_timer t3 (i_frame_reply_timeout_ms l.s)) in
    when-Alike polled used start refl
    ∙ when-Alike sent (set_pf && is_command) start_poll_reply_timer
        (start_poll_reply_timer-Alike sent)
    ∙ when-Alike queued set_pf (mark_pf is_command) (mark_pf-Alike queued is_command)

-- What waits for its acknowledgment is what `(vs - nr) & modmask` counts.
module _ (f : Framing) (framing : IsFraming f) where
  m : Modulus f
  m = IsFraming-Modulus f framing

  -- Frames that were never sent leave the front of `fresh`, and the others stand.
  abbrev pub Follows : List Frame → Link → Type 0
  Follows fresh l = (sent rest : List Frame) × (fresh ≡ sent ++ rest) × Stands f rest l

  i_frame_to_send-IsSentAs :
      (fp : Frame) (left fresh : List Frame) (l : Link)
      → Stands f fresh l
      → l.p.vs ≤ f.modmask
      → MayBeSent f l.p.vs fp
      → IsSentAs f l.p.vs (i_frame_to_send fp left l)
  unfolding i_frame_to_send
  i_frame_to_send-IsSentAs fp left fresh l ((e, octet), (w, limits)) hs h =
      let addr = if sends_command l.s then l.p.addr else l.s.addr in
      let small = if-elim (λ a. a < 256) (sends_command l.s) l.p.addr l.s.addr limits.octet octet in
      subst
        (λ g.
          IsSentAs g l.p.vs
            (prepare_i_frame_header l.s fp addr l.p.vs l.p.vr (i_frame_pf left l)).1)
        e
        (prepared-IsSentAs l.s fp addr l.p.vs l.p.vr (i_frame_pf left l)
          (subst IsFraming (sym e) framing) small (subst (λ g. l.p.vs ≤ g.modmask) (sym e) hs)
          (subst (λ g. l.p.vr ≤ g.modmask) (sym e) limits.vr_le)
          (subst (λ g. MayBeSent g l.p.vs fp) (sym e) h))

  outstanding-length :
      (fresh : List Frame) (l : Link) → Stands f fresh l → outstanding l ≡ length l.p.i_retrans_q
  outstanding-length fresh l h =
      let (station, ((resend, w), limits)) = h in
      let size = w.size in
      ap (λ g. offset g l.p.vs l.p.nr) station.0
      ∙ ap (λ v. offset f v l.p.nr) w.sent
      ∙ offset-advance f m l.p.nr (length l.p.i_retrans_q) w.range (omega arith)

  queued-Limits :
      (p : Peer) (t3_used : Bool) (after : Frame) (left : List Frame)
      → Limits f p
      → length p.i_retrans_q < p.ks
      → Limits f (queue_sent f t3_used after left p)
  unfolding queue_sent
  queued-Limits p t3_used after left limits less = record {
    window = omega (arith, length-append p.i_retrans_q (after ∷ []));
    ks_le = limits.ks_le;
    vr_le = limits.vr_le;
    octet = limits.octet;
  }

  -- The frame at the head of the queue is sent.
  queued-Follows :
      (resend fresh : List Frame) (l : Link) (fp : Frame) (left : List Frame) (t3_used : Bool)
      → IsStation f l.s
      → IsWindow f l.p resend fresh
      → Limits f l.p
      → l.p.i_trans_q ≡ fp ∷ left
      → length l.p.i_retrans_q < l.p.ks
      → Follows fresh (on_peer (queue_sent f t3_used (i_frame_to_send fp left l) left) l)
  unfolding queue_sent
  queued-Follows [] [] l fp left t3_used station w limits e less =
      absurd (let none_left = ap length (sym e ∙ w.queued) in omega arith)
  queued-Follows [] (x ∷ fresh) l fp left t3_used station w limits e less =
      let front : x ∷ fresh ≡ fp ∷ left = sym w.queued ∙ e in
      let v = subst (IsWindow f l.p []) front w in
      let vs_le = subst (λ n. n ≤ f.modmask) (sym w.sent) (advance-le f m l.p.nr _) in
      let sent =
        i_frame_to_send-IsSentAs fp left (fp ∷ left) l (station, (([], v), limits)) vs_le
          (inr v.unsent.0) in
      let ks_le = limits.ks_le in
      (
        fp ∷ [],
        left,
        front,
        (
          station,
          (
            ([], queue_fresh f m l.p t3_used _ fp left v (omega arith) sent),
            queued-Limits l.p t3_used _ left limits less,
          ),
        ),
      )
  queued-Follows (r ∷ resend) fresh l fp left t3_used station w limits e less =
      let front : fp ∷ left ≡ r ∷ (resend ++ fresh) = sym e ∙ w.queued in
      let same : fp ≡ r = ap (λ q. get_or q 0 fp) front in
      let rest : left ≡ resend ++ fresh = ap (drop 1) front in
      let vs_le = subst (λ n. n ≤ f.modmask) (sym w.sent) (advance-le f m l.p.nr _) in
      let number : IsSentAs f l.p.vs fp =
        subst (λ n. IsSentAs f n fp) (sym w.sent)
          (subst (IsSentAs f _) (sym same)
            (sent_behind f m l.p.nr l.p.i_retrans_q r resend w.range w.numbered)) in
      let sent =
        i_frame_to_send-IsSentAs fp left fresh l (station, ((r ∷ resend, w), limits)) vs_le
          (inl number) in
      (
        [],
        fresh,
        refl,
        (
          station,
          (
            (
              resend,
              subst
                  (λ t.
                    IsWindow f (queue_sent f t3_used (i_frame_to_send fp left l) t l.p) resend
                      fresh)
                  (sym rest) (queue_again f m l.p t3_used _ r resend fresh w sent),
            ),
            queued-Limits l.p t3_used _ left limits less,
          ),
        ),
      )

  not_barred : (l : Link) → is_barred l ≡ false → outstanding l < l.p.ks
  unfolding is_barred
  not_barred l h = ground arith

  send_round-Follows :
      (q : List Frame) (flags : List Event) (sent : Bool) (fresh : List Frame) (l : Link)
      → Stands f fresh l
      → l.p.i_trans_q ≡ q
      → length l.p.i_retrans_q < l.p.ks
      → Follows fresh (send_round q flags sent l).link
  unfolding send_round
  send_round-Follows [] flags sent fresh l h e less = ([], fresh, refl, h)
  send_round-Follows (fp ∷ left) flags sent fresh l h e less =
      let used = i_frame_reply_timer_used l.s in
      let after = i_frame_to_send fp left l in
      let queued : Link = on_peer (queue_sent l.s.framing used after left) l in
      let (station, ((resend, w), limits)) = h in
      let follows = queued-Follows resend fresh l fp left used station w limits e less in
      let (gone, rest, front, stands) =
        subst (λ g. Follows fresh (on_peer (queue_sent g used after left) l)) (sym station.0)
          follows in
      (
        gone,
        rest,
        front,
        Alike-Stands f rest queued (send_i_frame fp left l) (send_i_frame-Alike fp left l) stands,
      )

  -- Modulo 8 or 128, a round of the I-frame loop keeps the window, in which at most as many frames
  -- wait for their acknowledgment as its size; the frames never sent leave from the front, and the
  -- others stay in their order.
  pub i_frame_round-Follows :
      (polled flags : List Event) (sent : Bool) (fresh : List Frame) (l : Link)
      → Stands f fresh l
      → Follows fresh (i_frame_round polled flags sent l).link
  unfolding i_frame_round
  i_frame_round-Follows polled flags sent fresh l h = elim (Bool-cases (is_barred l)) [
    | inl barred ↦ rw barred ([], fresh, refl, h)
    | inr free ↦
        let less = not_barred l free in
        let count = outstanding-length fresh l h in
        rw free (
          if-elim (λ (r : Round). Follows fresh r.link) (has link_down (flags ++ polled)) _ _
            ([], fresh, refl, h)
            (send_round-Follows l.p.i_trans_q (flags ++ polled) sent fresh l h refl (omega arith)))
  ]
