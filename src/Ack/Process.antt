-- ===== src/Ack/Process.antt =====
-- What an N(R) acknowledges.
use io_hdlc.Base.{
  ℕ, zero, suc, ◌+◌, ◌≤◌, Bool, true, false, ◌&&◌, List, [], ◌∷◌, ◌++◌, ◌≡◌, ◌∙◌, ◌↔◌, inl, inr, ap,
  subst, refl, sym, arith, length, ◌==◌, ==_iff, Bool-cases, take, drop,
}
use io_hdlc.State.{
  Framing, Frame, Peer, Link, Effect, release, stop_timer, set_timer, i_frame_reply_timer_used,
  if-elim,
}
use io_hdlc.Ack.{offset, next_number, is_nr_valid, acknowledge, acknowledge_loop, process_nr}
use io_hdlc.Ack.Window.{
  Modulus, advance, Numbered, IsWindow, next_number_lem, advance-le, advance-zero, advance-pos,
  offset-advance, advance-offset, advance-next_number,
}

-- Modulo 8 or 128, in a window, an N(R) in range is valid exactly when it numbers one of the frames that are sent and not
-- acknowledged, or the one behind them.
pub is_nr_valid_iff :
    (f : Framing) (p : Peer) (resend fresh : List Frame) (nr : ℕ)
    → Modulus f
    → IsWindow f p resend fresh
    → nr ≤ f.modmask
    → (is_nr_valid f p nr ≡ true)
      ↔ ((k : ℕ) × (k ≤ length p.i_retrans_q + length resend) × (nr ≡ advance f p.nr k))
unfolding is_nr_valid
is_nr_valid_iff f p resend fresh nr m w small =
    let n = length p.i_retrans_q + length resend in
    let top : offset f p.vs_highest p.nr ≡ n =
      rw (w.highest) (offset-advance f m p.nr n w.range w.size) in
    (
      λ h. (offset f nr p.nr, ground arith, sym (advance-offset f m p.nr nr w.range small)),
      λ (k, le, e).
          let o : offset f nr p.nr ≡ k =
            rw e (offset-advance f m p.nr k w.range (omega (arith, w.size))) in
          ground arith,
    )

acknowledge-IsWindow :
    (l : Link) (resend fresh : List Frame) (fp : Frame) (q : List Frame)
    → Modulus l.s.framing
    → IsWindow l.s.framing l.p resend fresh
    → l.p.i_retrans_q ≡ fp ∷ q
    → IsWindow l.s.framing (acknowledge fp q l).p resend fresh
unfolding acknowledge Numbered
acknowledge-IsWindow l resend fresh fp q m w e =
    let f = l.s.framing in
    let len : length l.p.i_retrans_q ≡ suc (length q) = ap length e in
    let nums = subst (λ t. Numbered f l.p.nr (t ++ resend)) e w.numbered in
    let next = next_number_lem f m l.p.nr in
    let pending = w.pending in
    let pending_lt = w.pending_lt in
    let size = w.size in
    record {
      queued = w.queued;
      numbered = subst (λ t. Numbered f t (q ++ resend)) (sym next) nums.1;
      sent = w.sent ∙ sym (advance-next_number f m l.p.nr _ (length q) (omega arith));
      highest =
          w.highest
          ∙ sym (advance-next_number f m l.p.nr _ (length q + length resend) (omega arith));
      size = omega arith;
      range = subst (λ t. t ≤ f.modmask) (sym next) (advance-le f m l.p.nr 1);
      pending = omega arith;
      pending_lt = omega arith;
      unsent = w.unsent;
    }

module _ (nr : ℕ) (fp : Frame) (q : List Frame) (l : Link) (released : Bool) where
  pub loop_stop : (l.p.nr == nr) ≡ true → acknowledge_loop nr (fp ∷ q) l released ≡ (l, released)
  unfolding acknowledge_loop
  loop_stop h = rw (h, acknowledge_loop) refl

  pub loop_next :
      (l.p.nr == nr) ≡ false
      → acknowledge_loop nr (fp ∷ q) l released ≡ acknowledge_loop nr q (acknowledge fp q l) true
  unfolding acknowledge_loop
  loop_next h = rw (h, acknowledge_loop) refl

acknowledge_loop-IsWindow :
    (nr : ℕ) (q : List Frame) (l : Link) (released : Bool) (resend fresh : List Frame)
    → Modulus l.s.framing
    → IsWindow l.s.framing l.p resend fresh
    → l.p.i_retrans_q ≡ q
    → IsWindow l.s.framing (acknowledge_loop nr q l released).0.p resend fresh
unfolding acknowledge_loop acknowledge
acknowledge_loop-IsWindow nr [] l released resend fresh m w e = w
acknowledge_loop-IsWindow nr (fp ∷ q) l released resend fresh m w e =
    elim (Bool-cases (l.p.nr == nr)) [
      | inl h ↦
          subst (λ r. IsWindow l.s.framing r.0.p resend fresh)
            (sym (loop_stop nr fp q l released h)) w
      | inr h ↦
          subst (λ r. IsWindow l.s.framing r.0.p resend fresh)
            (sym (loop_next nr fp q l released h))
            (acknowledge_loop-IsWindow nr q (acknowledge fp q l) true resend fresh m
              (acknowledge-IsWindow l resend fresh fp q m w e) refl)
    ]

-- Modulo 8 or 128, where the window stands before, it stands after an N(R) has been processed,
-- whatever its value, and no frame joins or leaves `i_trans_q`.
pub process_nr-IsWindow :
    (nr : ℕ) (l : Link) (resend fresh : List Frame)
    → Modulus l.s.framing
    → IsWindow l.s.framing l.p resend fresh
    → IsWindow l.s.framing (process_nr nr l).0.p resend fresh
unfolding process_nr stop_timer set_timer
process_nr-IsWindow nr l resend fresh m w =
    let v = acknowledge_loop-IsWindow nr l.p.i_retrans_q l false resend fresh m w refl in
    elim (Bool-cases (i_frame_reply_timer_used acked.s && (acked.p.nr == acked.p.t3_expected_nr))) [
      | inl h ↦ rw h v
      | inr h ↦ rw h v
    ]
  where
    acked : Link
    acked = (acknowledge_loop nr l.p.i_retrans_q l false).0

-- What the frames acknowledged leave in the log.
abbrev pub releases : List Frame → List Effect → List Effect
releases [] log = log
releases (fp ∷ q) log = releases q (release fp ∷ log)

-- The first `k` frames of the queue `q` have been acknowledged.
pub record IsAcked (k : ℕ) (q : List Frame) (l : Link) (acked : Link) : Type 0 where
  pub left : acked.p.i_retrans_q ≡ drop k q
  pub number : acked.p.nr ≡ advance l.s.framing l.p.nr k
  pub freed : acked.log ≡ releases (take k q) l.log

acknowledge_loop-IsAcked :
    (nr k : ℕ) (q : List Frame) (l : Link) (released : Bool)
    → Modulus l.s.framing
    → l.p.i_retrans_q ≡ q
    → l.p.nr ≤ l.s.framing.modmask
    → k ≤ length q
    → length q ≤ l.s.framing.modmask
    → nr ≡ advance l.s.framing l.p.nr k
    → IsAcked k q l (acknowledge_loop nr q l released).0
unfolding acknowledge_loop acknowledge
acknowledge_loop-IsAcked nr zero [] l released m e range le size n = record {
  left = e;
  number = sym (advance-zero l.s.framing m l.p.nr range);
  freed = refl;
}
acknowledge_loop-IsAcked nr (suc k) [] l released m e range le size n = absurd (omega arith)
acknowledge_loop-IsAcked nr zero (fp ∷ q) l released m e range le size n =
    let same = sym (advance-zero l.s.framing m l.p.nr range) in
    subst (λ r. IsAcked 0 (fp ∷ q) l r.0)
      (sym (loop_stop nr fp q l released ((==_iff _ _).1 (same ∙ sym n))))
      (record { left = e; number = same; freed = refl })
acknowledge_loop-IsAcked nr (suc k) (fp ∷ q) l released m e range le size n =
    let f = l.s.framing in
    let differs = advance-pos f m l.p.nr (suc k) range (omega arith) (omega arith) in
    let same : advance f (next_number f l.p.nr) k ≡ advance f l.p.nr (suc k) =
      advance-next_number f m l.p.nr (suc k) k (omega arith) in
    let small =
      subst (λ t. t ≤ f.modmask) (sym (next_number_lem f m l.p.nr)) (advance-le f m l.p.nr 1) in
    let rest =
      acknowledge_loop-IsAcked nr k q (acknowledge fp q l) true m refl small (omega arith)
        (omega arith) (n ∙ sym same) in
    subst (λ r. IsAcked (suc k) (fp ∷ q) l r.0) (sym (loop_next nr fp q l released (ground arith)))
      (record { left = rest.left; number = rest.number ∙ same; freed = rest.freed })

-- Modulo 8 or 128, in a window, an N(R) that stands `k` behind the last one, for at most as many frames as wait in
-- `i_retrans_q`, releases the first `k` of these frames in order, leaves the others, and becomes
-- the number last acknowledged.
pub process_nr-IsAcked :
    (nr k : ℕ) (l : Link) (resend fresh : List Frame)
    → Modulus l.s.framing
    → IsWindow l.s.framing l.p resend fresh
    → k ≤ length l.p.i_retrans_q
    → nr ≡ advance l.s.framing l.p.nr k
    → IsAcked k l.p.i_retrans_q l (process_nr nr l).0
unfolding process_nr stop_timer set_timer
process_nr-IsAcked nr k l resend fresh m w le n =
    let size = w.size in
    let v =
      acknowledge_loop-IsAcked nr k l.p.i_retrans_q l false m refl w.range le (omega arith) n in
    elim (Bool-cases (i_frame_reply_timer_used acked.s && (acked.p.nr == acked.p.t3_expected_nr))) [
      | inl h ↦ rw h (record { left = v.left; number = v.number; freed = v.freed })
      | inr h ↦ rw h v
    ]
  where
    acked : Link
    acked = (acknowledge_loop nr l.p.i_retrans_q l false).0

acknowledge_loop-station :
    (nr : ℕ) (q : List Frame) (l : Link) (released : Bool)
    → (acknowledge_loop nr q l released).0.s ≡ l.s
unfolding acknowledge_loop acknowledge
acknowledge_loop-station nr [] l released = refl
acknowledge_loop-station nr (fp ∷ q) l released = elim (Bool-cases (l.p.nr == nr)) [
  | inl h ↦ ap (λ r. r.0.s) (loop_stop nr fp q l released h)
  | inr h ↦
      ap (λ r. r.0.s) (loop_next nr fp q l released h)
      ∙ acknowledge_loop-station nr q (acknowledge fp q l) true
]

-- The station is left as it is.
pub process_nr-station : (nr : ℕ) (l : Link) → (process_nr nr l).0.s ≡ l.s
unfolding process_nr stop_timer set_timer
process_nr-station nr l =
    let acked = (acknowledge_loop nr l.p.i_retrans_q l false).0 in
    if-elim (λ (r : Link). r.s ≡ l.s)
      (i_frame_reply_timer_used acked.s && (acked.p.nr == acked.p.t3_expected_nr)) _ _ same same
  where
    same : (acknowledge_loop nr l.p.i_retrans_q l false).0.s ≡ l.s
    same = acknowledge_loop-station nr l.p.i_retrans_q l false
