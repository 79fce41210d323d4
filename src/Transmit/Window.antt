-- ===== src/Transmit/Window.antt =====
-- Sending an I-frame and the transmit window.
use io_hdlc.Base.{
  ℕ, suc, ◌+◌, ◌≤◌, ◌<◌, Bool, true, false, List, [], ◌∷◌, ◌++◌, ◌≡◌, ◌∙◌, refl, sym, ap, subst,
  arith, length, length-append, ◌==◌, ==_iff, Bool-cases, inl, inr,
}
use io_hdlc.State.{Framing, Frame, Peer}
use io_hdlc.Ack.{offset, next_number}
use io_hdlc.Ack.Window.{
  Modulus, advance, Numbered, IsSentAs, IsWindow, next_number_lem, advance-le, advance-advance,
  advance-zero, offset-advance,
}
use io_hdlc.Transmit.IFrames.{queue_sent}

module _ (f : Framing) (m : Modulus f) where
  next_advance : (n k : ℕ) → advance f (advance f n 1) k ≡ advance f n (suc k)
  next_advance n k = advance-advance f m n 1 k ∙ ap (advance f n) (omega arith)

  -- The frame behind `q`.
  pub sent_behind :
      (n : ℕ) (q : List Frame) (fp : Frame) (rest : List Frame)
      → n ≤ f.modmask
      → Numbered f n (q ++ (fp ∷ rest))
      → IsSentAs f (advance f n (length q)) fp
  unfolding Numbered
  sent_behind n [] fp rest le nums =
      subst (λ t. IsSentAs f t fp) (sym (advance-zero f m n le)) nums.0
  sent_behind n (x ∷ q) fp rest le nums =
      subst (λ t. IsSentAs f t fp) (next_advance n (length q))
        (sent_behind (advance f n 1) q fp rest (advance-le f m n 1) nums.1)

  -- The frame behind `q` is sent again.
  sent_again :
      (n : ℕ) (q : List Frame) (fp after : Frame) (rest : List Frame)
      → n ≤ f.modmask
      → Numbered f n (q ++ (fp ∷ rest))
      → IsSentAs f (advance f n (length q)) after
      → Numbered f n ((q ++ (after ∷ [])) ++ rest)
  unfolding Numbered
  sent_again n [] fp after rest le nums h =
      (subst (λ t. IsSentAs f t after) (advance-zero f m n le) h, nums.1)
  sent_again n (x ∷ q) fp after rest le nums h = (
    nums.0,
    sent_again (advance f n 1) q fp after rest (advance-le f m n 1) nums.1
        (subst (λ t. IsSentAs f t after) (sym (next_advance n (length q))) h),
  )

  -- A frame is sent behind all of `q`.
  sent_first :
      (n : ℕ) (q : List Frame) (after : Frame)
      → n ≤ f.modmask
      → Numbered f n (q ++ [])
      → IsSentAs f (advance f n (length q)) after
      → Numbered f n ((q ++ (after ∷ [])) ++ [])
  unfolding Numbered
  sent_first n [] after le nums h = (subst (λ t. IsSentAs f t after) (advance-zero f m n le) h, tt)
  sent_first n (x ∷ q) after le nums h = (
    nums.0,
    sent_first (advance f n 1) q after (advance-le f m n 1) nums.1
        (subst (λ t. IsSentAs f t after) (sym (next_advance n (length q))) h),
  )

  -- V(S) counts on with the frame.
  vs_counts :
      (nr vs : ℕ) (q : List Frame) (after : Frame)
      → vs ≡ advance f nr (length q)
      → next_number f vs ≡ advance f nr (length (q ++ (after ∷ [])))
  vs_counts nr vs q after e =
      next_number_lem f m vs
      ∙ ap (λ t. advance f t 1) e
      ∙ advance-advance f m nr (length q) 1
      ∙ ap (advance f nr) (sym (length-append q (after ∷ [])))

  module _ (p : Peer) (t3_used : Bool) (after : Frame) where
    -- A frame that was never sent is sent.
    pub queue_fresh :
        (fp : Frame) (left : List Frame)
        → IsWindow f p [] (fp ∷ left)
        → length p.i_retrans_q < f.modmask
        → IsSentAs f p.vs after
        → IsWindow f (queue_sent f t3_used after left p) [] left
    unfolding queue_sent
    queue_fresh fp left w less h =
        let len = length-append p.i_retrans_q (after ∷ []) in
        let len2 = ap length w.queued in
        let pending = w.pending in
        let same : (p.vs == p.vs_highest) ≡ true =
          (==_iff _ _).1 (w.sent ∙ ap (advance f p.nr) (omega arith) ∙ sym w.highest) in
        let counted = vs_counts p.nr p.vs p.i_retrans_q after w.sent in
        rw same (record {
          queued = refl;
          numbered =
              sent_first p.nr p.i_retrans_q after w.range w.numbered
                (subst (λ t. IsSentAs f t after) w.sent h);
          sent = counted;
          highest = counted ∙ ap (advance f p.nr) (omega arith);
          size = omega arith;
          range = w.range;
          pending = omega arith;
          pending_lt = w.pending_lt;
          unsent = w.unsent.1;
        })

    -- A frame is sent again.
    pub queue_again :
        (fp : Frame) (resend fresh : List Frame)
        → IsWindow f p (fp ∷ resend) fresh
        → IsSentAs f p.vs after
        → IsWindow f (queue_sent f t3_used after (resend ++ fresh) p) resend fresh
    unfolding queue_sent
    queue_again fp resend fresh w h =
        let len = length-append p.i_retrans_q (after ∷ []) in
        let len2 = ap length w.queued in
        let pending = w.pending in
        let size = w.size in
        let top : ℕ = length p.i_retrans_q + length (fp ∷ resend) in
        let apart = λ (e : p.vs ≡ p.vs_highest).
          sym (offset-advance f m p.nr (length p.i_retrans_q) w.range (omega arith))
          ∙ ap (λ t. offset f t p.nr) (sym w.sent ∙ e ∙ w.highest)
          ∙ offset-advance f m p.nr top w.range w.size in
        let differs : (p.vs == p.vs_highest) ≡ false = elim (Bool-cases (p.vs == p.vs_highest)) [
          | inl e ↦ absurd (let k = apart ((==_iff _ _).0 e) in omega arith)
          | inr e ↦ e
        ] in
        rw differs (record {
          queued = refl;
          numbered =
              sent_again p.nr p.i_retrans_q fp after resend w.range w.numbered
                (subst (λ t. IsSentAs f t after) w.sent h);
          sent = vs_counts p.nr p.vs p.i_retrans_q after w.sent;
          highest = w.highest ∙ ap (advance f p.nr) (omega arith);
          size = omega arith;
          range = w.range;
          pending = omega arith;
          pending_lt = w.pending_lt;
          unsent = w.unsent;
        })
