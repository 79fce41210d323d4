-- ===== src/Ack/Retransmit.antt =====
-- What is sent again after a checkpoint or a REJ: the whole of `i_retrans_q`, from the number last
-- acknowledged on.
use io_hdlc.Base.{
  ℕ, ◌+◌, ◌-◌, true, false, List, [], ◌∷◌, ◌++◌, ◌≡◌, ◌∙◌, inl, inr, ◌⊎◌, ap, refl, sym, arith,
  length-append, ◌==◌, Bool-cases, append_assoc,
}
use io_hdlc.State.{Framing, Frame, Peer}
use io_hdlc.Control.{extract_ns}
use io_hdlc.Ack.{checkpoint_scan, move_retrans, checkpoint_retransmit, rej_move, rej_retransmit}
use io_hdlc.Ack.Window.{Modulus, advance, Numbered, IsWindow, HasWindow, advance-zero}

-- Once a first number has been found, the scan keeps it.
scan_found :
    (f : Framing) (v : ℕ) (q : List Frame) (n : ℕ) → (n == 0) ≡ false → checkpoint_scan f v q n ≡ n
unfolding checkpoint_scan
scan_found f v [] n e = refl
scan_found f v (fp ∷ q) n e = elim (Bool-cases (extract_ns f fp == v)) [
  | inl h ↦ rw h refl
  | inr h ↦ rw (h, e) (scan_found f v q n e)
]

scan_stops :
    (f : Framing) (v : ℕ) (fp : Frame) (q : List Frame)
    → (extract_ns f fp == v) ≡ true
    → checkpoint_scan f v (fp ∷ q) 0 ≡ 0
unfolding checkpoint_scan
scan_stops f v fp q h = rw h refl

scan_finds :
    (f : Framing) (v : ℕ) (fp : Frame) (q : List Frame)
    → (extract_ns f fp == v) ≡ false
    → checkpoint_scan f v (fp ∷ q) 0 ≡ extract_ns f fp + 1
unfolding checkpoint_scan
scan_finds f v fp q h = rw h (scan_found f v q (extract_ns f fp + 1) (ground arith))

-- The window after the frames that wait in `i_retrans_q` have been moved before those of
-- `i_trans_q`, with V(S) on the number of the first.
moved-IsWindow :
    (f : Framing) (p : Peer) (resend fresh : List Frame) (v c last : ℕ)
    → Modulus f
    → IsWindow f p resend fresh
    → v ≡ p.nr
    → IsWindow f
        (record (move_retrans p) { vs = v; chkpt_actioned = c; vs_atlast_pf = last })
        (p.i_retrans_q ++ resend)
        fresh
moved-IsWindow f p resend fresh v c last m w e =
    let total = length-append p.i_retrans_q resend in
    let queue = length-append p.i_retrans_q p.i_trans_q in
    let size = w.size in
    let pending = w.pending in
    record {
      queued =
          ap (λ t. p.i_retrans_q ++ t) w.queued ∙ sym (append_assoc p.i_retrans_q resend fresh);
      numbered = w.numbered;
      sent = e ∙ sym (advance-zero f m p.nr w.range);
      highest = w.highest ∙ ap (advance f p.nr) (omega arith);
      size = omega arith;
      range = w.range;
      pending = omega arith;
      pending_lt = w.pending_lt;
      unsent = w.unsent;
    }

-- The scan finds nothing, or the frame that is numbered as the first not acknowledged.
scan_cases :
    (f : Framing) (v n : ℕ) (q resend : List Frame)
    → Numbered f n (q ++ resend)
    → (checkpoint_scan f v q 0 ≡ 0) ⊎ (checkpoint_scan f v q 0 ≡ n + 1)
unfolding Numbered
scan_cases f v n [] resend nums = inl (unfold checkpoint_scan in refl)
scan_cases f v n (fp ∷ q) resend nums = elim (Bool-cases (extract_ns f fp == v)) [
  | inl h ↦ inl (scan_stops f v fp q h)
  | inr h ↦ inr (scan_finds f v fp q h ∙ ap (λ t. t + 1) nums.0.number)
]

-- Modulo 8 or 128, a checkpoint retransmission keeps the window, and with it the frames that were never sent and
-- their order.
pub checkpoint_retransmit-HasWindow :
    (f : Framing) (p : Peer) (fresh : List Frame)
    → Modulus f
    → HasWindow f fresh p
    → HasWindow f fresh (checkpoint_retransmit f p).0
unfolding checkpoint_retransmit
checkpoint_retransmit-HasWindow f p fresh m (resend, w) =
    elim (scan_cases f p.vs_atlast_pf p.nr p.i_retrans_q resend w.numbered) [
      | inl none_found ↦ rw none_found (resend, w)
      | inr found ↦
          let some_found : (p.nr + 1 == 0) ≡ false = ground arith in
          rw (found, some_found)
            (
              p.i_retrans_q ++ resend,
              moved-IsWindow f p resend fresh (p.nr + 1 - 1) (p.nr + 1) p.vs_atlast_pf m w
                  (omega arith),
            )
    ]

rej_move-HasWindow :
    (f : Framing) (p : Peer) (q resend fresh : List Frame)
    → Modulus f
    → IsWindow f p resend fresh
    → Numbered f p.nr (q ++ resend)
    → HasWindow f fresh (rej_move f q p).0
unfolding rej_move Numbered
rej_move-HasWindow f p [] resend fresh m w nums = (resend, w)
rej_move-HasWindow f p (fp ∷ q) resend fresh m w nums = (
  p.i_retrans_q ++ resend,
  moved-IsWindow f p resend fresh (extract_ns f fp) p.chkpt_actioned (extract_ns f fp) m w
      nums.0.number,
)

-- Modulo 8 or 128, a retransmission on a REJ keeps the window, and with it the frames that were never sent and
-- their order.
pub rej_retransmit-HasWindow :
    (f : Framing) (p : Peer) (fresh : List Frame)
    → Modulus f
    → HasWindow f fresh p
    → HasWindow f fresh (rej_retransmit f p).0
unfolding rej_retransmit
rej_retransmit-HasWindow f p fresh m (resend, w) = elim (Bool-cases (p.chkpt_actioned == 0)) [
  | inl h ↦ rw h (rej_move-HasWindow f p p.i_retrans_q resend fresh m w w.numbered)
  | inr h ↦ rw h (resend, w)
]
