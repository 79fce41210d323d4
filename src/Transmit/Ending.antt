-- ===== src/Transmit/Ending.antt =====
-- The I-frame loop ends.
use io_hdlc.Base.{
  ℕ, ◌+◌, ◌≤◌, ◌<◌, Bool, true, false, Option, some, List, [], ◌∷◌, ◌++◌, ◌≡◌, refl, ap, arith,
  length, All,
}
use io_hdlc.State.{Frame, Event, Link, if-elim}
use io_hdlc.State.Event.{link_down}
use io_hdlc.Transmit.{has}
use io_hdlc.Transmit.Alike.{Core}
use io_hdlc.Transmit.IFrames.{
  Next, Round, Turn, is_barred, queue_sent, send_i_frame, send_round, i_frame_round, i_frame_loop,
}
use io_hdlc.Transmit.IFrames.Next.{leave, down, again}
use io_hdlc.Transmit.Round.{send_i_frame-Alike}

abbrev pub is_again : Next → Bool
is_again n = elim n [ again ↦ true | _ ↦ false ]

-- What holds of the result whether or not the loop goes on holds of its next result.
pub next-elim {κ} :
    (P : Option Round → Type κ) (n : Next) (result rest : Option Round)
    → P result
    → (is_again n ≡ true → P rest)
    → P (elim n [ leave ↦ result | down ↦ result | again ↦ rest ])
next-elim P leave result rest hd hr = hd
next-elim P down result rest hd hr = hd
next-elim P again result rest hd hr = hr refl

-- The frames that wait for transmission.
abbrev pub waiting : Link → ℕ
waiting l = length l.p.i_trans_q

send_i_frame-waiting :
    (fp : Frame) (left : List Frame) (l : Link) → waiting (send_i_frame fp left l) ≡ length left
unfolding queue_sent
send_i_frame-waiting fp left l = ap (λ (c : Core). length c.trans) (send_i_frame-Alike fp left l)

-- A round after which the loop goes on has sent a frame.
abbrev GoesOn : ℕ → Round → Type 0
GoesOn n r = is_again r.next ≡ true → waiting r.link + 1 ≡ n

send_round-waiting :
    (q : List Frame) (flags : List Event) (sent : Bool) (l : Link)
    → l.p.i_trans_q ≡ q
    → GoesOn (waiting l) (send_round q flags sent l)
unfolding send_round
send_round-waiting [] flags sent l e h = absurd (ground arith)
send_round-waiting (fp ∷ left) flags sent l e h =
    let one = send_i_frame-waiting fp left l in let len = ap length e in omega arith

i_frame_round-waiting :
    (polled flags : List Event) (sent : Bool) (l : Link)
    → GoesOn (waiting l) (i_frame_round polled flags sent l)
unfolding i_frame_round
i_frame_round-waiting polled flags sent l =
    if-elim (GoesOn (waiting l)) (is_barred l) _ _ (λ h. absurd (ground arith))
      (if-elim (GoesOn (waiting l)) (has link_down (flags ++ polled)) _ _
        (λ h. absurd (ground arith))
        (send_round-waiting l.p.i_trans_q (flags ++ polled) sent l refl))

-- In every turn, the other threads add no frame to the queue.
abbrev pub AddsNone : (Link → Link) → Type 0
AddsNone step = (l : Link) → waiting (step l) ≤ waiting l

pub i_frame_loop-ends :
    (turns : List Turn) (flags : List Event) (sent : Bool) (l : Link)
    → All (λ t. AddsNone t.between) turns
    → waiting l < length turns
    → (r : Round) × (i_frame_loop turns flags sent l ≡ some r)
unfolding i_frame_loop
i_frame_loop-ends [] flags sent l quiet long = absurd (omega arith)
i_frame_loop-ends (t ∷ turns) flags sent l quiet long =
    let r = i_frame_round t.polled flags sent l in
    next-elim (λ (o : Option Round). (r : Round) × (o ≡ some r)) r.next _ _ (r, refl)
      (λ goes.
        let fewer = i_frame_round-waiting t.polled flags sent l goes in
        let none_added = quiet.0 r.link in
        i_frame_loop-ends turns r.flags r.i_frame_sent (t.between r.link) quiet.1 (omega arith))
