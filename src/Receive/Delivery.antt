-- ===== src/Receive/Delivery.antt =====
-- Reception and the frames for the reader.
use io_hdlc.Base.{
  ℕ, Bool, true, false, not, ◌&&◌, Option, none, some, List, [], ◌∷◌, ◌++◌, ◌≡◌, ◌⊎◌, refl, sym, ap,
  ◌∙◌, inl, inr, bit_and, ◌==◌, ==_iff, Bool-cases, if◌then◌else◌,
}
use io_hdlc.State.{
  Frame, Framing, TimerKind, Peer, Link, Effect, Event, ◌▷◌, on_peer, emit, when, if-elim, timer,
  set_timer, start_timer, stop_timer, restart_timer, is_nrm, is_abm, i_frame_reply_timer_used,
  set_need_p,
}
use io_hdlc.State.TimerKind.{reply, t3}
use io_hdlc.State.Effect.{wake_tx, release}
use io_hdlc.State.Event.{tx_ifrm_enq}
use io_hdlc.Control.SFun
use io_hdlc.Control.{frame_ctrl, is_i_frm, extract_ns, extract_nr, frame_get_pf}
use io_hdlc.Retry.{idle_poll_timeout_ms, reply_timer_timeout_ms}
use io_hdlc.Ack.{
  is_nr_valid, next_number, acknowledge, acknowledge_loop, process_nr, checkpoint_scan,
  checkpoint_retransmit, rej_move, rej_retransmit,
}
use io_hdlc.Receive.{
  Outcome, set_frmr_condition, checkpoint_pf, answer_pf, handle_no_pf, handle_checkpoint_and_ack,
  raw_rx_deliver, reject_i_frame, accept_i_frame, handle_i_frame, handle_rej, handle_s_frame,
  frmr_rx, invalid_nr_rx, dispatch_rx, broadcast_any, acked_rx, common_rx,
}

-- Nothing has been delivered from `q`, `vr` and `f` on.
abbrev pub Undelivered : Framing → ℕ → List Frame → Link → Type 0
Undelivered f vr q l = (l.s.framing ≡ f) × ((l.p.vr ≡ vr) × (l.p.i_recept_q ≡ q))

abbrev PeerUndelivered : ℕ → List Frame → Peer → Type 0
PeerUndelivered vr q p = (p.vr ≡ vr) × (p.i_recept_q ≡ q)

module _ (f : Framing) (vr : ℕ) (q : List Frame) where
  abbrev U : Link → Type 0
  U = Undelivered f vr q

  abbrev V : Peer → Type 0
  V = PeerUndelivered vr q

  acknowledge_loop-U :
      (nr : ℕ) (r : List Frame) (l : Link) (released : Bool)
      → U l
      → U (acknowledge_loop nr r l released).0
  unfolding acknowledge_loop acknowledge
  acknowledge_loop-U nr [] l released h = h
  acknowledge_loop-U nr (fp ∷ r) l released h = elim (Bool-cases (l.p.nr == nr)) [
    | inl e ↦ rw (e, acknowledge_loop) h
    | inr e ↦ rw (e, acknowledge_loop) (acknowledge_loop-U nr r (acknowledge fp r l) true h)
  ]

  process_nr-U : (nr : ℕ) (l : Link) → U l → U (process_nr nr l).0
  unfolding process_nr stop_timer set_timer
  process_nr-U nr l h =
      let acked = (acknowledge_loop nr l.p.i_retrans_q l false).0 in
      let kept = acknowledge_loop-U nr l.p.i_retrans_q l false h in
      if-elim U (i_frame_reply_timer_used acked.s && (acked.p.nr == acked.p.t3_expected_nr)) _ _
        kept kept

  checkpoint_pf-U : (is_command : Bool) (l : Link) → U l → U (checkpoint_pf is_command l).0
  unfolding checkpoint_pf checkpoint_retransmit stop_timer set_timer
  checkpoint_pf-U is_command l (e, h) =
      let g = l.s.framing in
      let first_ns = checkpoint_scan g l.p.vs_atlast_pf l.p.i_retrans_q 0 in
      let kept : V (checkpoint_retransmit g l.p).0 =
        if-elim (λ (r : Peer × Bool). V r.0) (first_ns == 0) _ _ h h in
      if-elim (λ (r : Link × Bool). U r.0) (is_abm l.s && is_command) _ _ (e, h)
        (if-elim U ((checkpoint_retransmit g l.p).1 && i_frame_reply_timer_used l.s) _ _ (e, kept)
          (e, kept))

  restart_timer-U : (k : TimerKind) (l : Link) (ms : ℕ) → U l → U (on_peer (restart_timer k ms) l)
  unfolding restart_timer timer start_timer set_timer
  restart_timer-U reply l ms (e, h) = (e, if-elim V l.p.reply_tmr.armed _ _ h h)
  restart_timer-U t3 l ms (e, h) = (e, if-elim V l.p.t3_tmr.armed _ _ h h)

  answer_pf-U : (is_command : Bool) (l : Link) → U l → U (answer_pf is_command l)
  unfolding answer_pf stop_timer start_timer set_timer
  answer_pf-U true l h = h
  answer_pf-U false l h = if-elim U (is_nrm l.s) _ _ h h

  handle_no_pf-U : (is_command : Bool) (l : Link) → U l → U (handle_no_pf is_command l)
  unfolding handle_no_pf
  handle_no_pf-U true l h = h
  handle_no_pf-U false l h =
      let restarted = on_peer (restart_timer t3 (idle_poll_timeout_ms l.s)) l in
      let idled = when (is_nrm l.s) (on_peer (restart_timer t3 (idle_poll_timeout_ms l.s))) l in
      let idle : U idled =
        if-elim U (is_nrm l.s) restarted l (restart_timer-U t3 l (idle_poll_timeout_ms l.s) h) h in
      if-elim U (not l.s.f_rcved) _ _
        (restart_timer-U reply idled (reply_timer_timeout_ms l.s l.p) idle) idle

  rej_move-V : (g : Framing) (r : List Frame) (p : Peer) → V p → V (rej_move g r p).0
  unfolding rej_move
  rej_move-V g [] p k = k
  rej_move-V g (fp ∷ r) p k = k

  handle_s_frame-U : (fp : Frame) (l : Link) → U l → U (handle_s_frame fp l).0
  unfolding handle_s_frame handle_rej rej_retransmit
  handle_s_frame-U fp l (e, h) =
      let s_fun = bit_and (frame_ctrl l.s.framing fp 0) SFun.fun_mask in
      let kept : V (rej_retransmit l.s.framing l.p).0 =
        if-elim (λ (r : Peer × Bool). V r.0) (l.p.chkpt_actioned == 0) _ _
          (rej_move-V l.s.framing l.p.i_retrans_q l.p h) h in
      if-elim (λ (r : Link × List Event). U r.0) (s_fun == SFun.rr) _ _ (e, h)
        (if-elim (λ (r : Link × List Event). U r.0) (s_fun == SFun.rnr) _ _ (e, h)
          (if-elim (λ (r : Link × List Event). U r.0) (s_fun == SFun.rej) _ _
            (if-elim (λ (r : Link × List Event). U r.0) l.s.twa _ _ (e, h) (e, kept)) (e, h)))

  -- The frame `fp` has been handed to the reader as the next one expected.
  pub record IsDelivered (fp : Frame) (l : Link) : Type 0 where
    pub expected : extract_ns f fp ≡ vr
    pub queued : l.p.i_recept_q ≡ q ++ (fp ∷ [])
    pub counted : l.p.vr ≡ next_number f vr

  -- What a function that may accept `fp` leaves.
  abbrev Dispatched : Frame → Link → Bool → Type 0
  Dispatched fp l true = IsDelivered fp l
  Dispatched fp l false = U l

  accept_i_frame-IsDelivered :
      (pool_low : Bool) (fp : Frame) (pf : Bool) (ns : ℕ) (l : Link)
      → U l
      → extract_ns f fp ≡ vr
      → IsDelivered fp (accept_i_frame pool_low fp pf ns l).0
  unfolding accept_i_frame raw_rx_deliver
  accept_i_frame-IsDelivered pool_low fp pf ns l (e, (v, r)) n =
      let queued = ap (λ t. t ++ (fp ∷ [])) r in
      let counted : next_number l.s.framing l.p.vr ≡ next_number f vr = rw (e, v) refl in
      elim (Bool-cases (l.p.ss.peer_busy && pf)) [
        | inl a ↦ elim (Bool-cases (not l.s.busy && pool_low)) [
          | inl b ↦ rw (a, b) (record { expected = n; queued = queued; counted = counted })
          | inr b ↦ rw (a, b) (record { expected = n; queued = queued; counted = counted })
        ]
        | inr a ↦ elim (Bool-cases (not l.s.busy && pool_low)) [
          | inl b ↦ rw (a, b) (record { expected = n; queued = queued; counted = counted })
          | inr b ↦ rw (a, b) (record { expected = n; queued = queued; counted = counted })
        ]
      ]

  handle_i_frame-Dispatched :
      (pool_low : Bool) (fp : Frame) (pf : Bool) (l : Link)
      → U l
      → let r = handle_i_frame pool_low fp pf l in Dispatched fp r.0.0 r.1
  unfolding handle_i_frame reject_i_frame
  handle_i_frame-Dispatched pool_low fp pf l (e, (v, r)) =
      let ns = extract_ns l.s.framing fp in
      elim (Bool-cases (ns == l.p.vr)) [
        | inl h ↦ rw h (
            accept_i_frame-IsDelivered pool_low fp pf ns l (e, (v, r))
              (ap (λ g. extract_ns g fp) (sym e) ∙ (==_iff _ _).0 h ∙ v))
        | inr h ↦ rw h (
            if-elim (λ (r : Link × List Event). U r.0)
              (not l.s.twa && l.s.use_rej && (l.p.rej_actioned == 0)) _ _ (e, (v, r)) (e, (v, r)))
      ]

  dispatch_rx-Dispatched :
      (pool_low : Bool) (fp : Frame) (pf : Bool) (l : Link)
      → U l
      → let r = dispatch_rx pool_low fp pf l in Dispatched fp r.0.0 r.1
  unfolding dispatch_rx
  dispatch_rx-Dispatched pool_low fp pf l h =
      let handled = handle_i_frame pool_low fp pf l in
      if-elim (λ (r : (Link × List Event) × Bool). Dispatched fp r.0.0 r.1)
        (is_i_frm (frame_ctrl l.s.framing fp 0)) _ _
        (needs_p handled.0.0 (is_nrm l.s) l.s.primary handled.1
          (handle_i_frame-Dispatched pool_low fp pf l h))
        (handle_s_frame-U fp l h)
    where
      needs_p :
          (m : Link) (n pri accepted : Bool)
          → Dispatched fp m accepted
          → Dispatched fp (m ▷ when (accepted && n && pri) set_need_p) accepted
      needs_p m n pri false d = d
      needs_p m false pri true d = d
      needs_p m true false true d = d
      needs_p m true true true d = elim (Bool-cases m.s.primary) [
        | inl e ↦ rw e (record { expected = d.expected; queued = d.queued; counted = d.counted })
        | inr e ↦ rw e (record { expected = d.expected; queued = d.queued; counted = d.counted })
      ]

  -- The frame has been handed to the reader, or nothing has been and it is given back.
  abbrev pub Received : Frame → Link → Type 0
  Received fp l = IsDelivered fp l ⊎ (U l × ((log : List Effect) × (l.log ≡ release fp ∷ log)))

  finished :
      (fp : Frame) (es : List Event) (wake accepted : Bool) (l : Link)
      → Dispatched fp l accepted
      → Received fp (
          l ▷ broadcast_any es ▷ when wake (emit wake_tx) ▷ when (not accepted) (emit (release fp)))
  finished fp [] false true l d =
      inl record { expected = d.expected; queued = d.queued; counted = d.counted }
  finished fp [] true true l d =
      inl record { expected = d.expected; queued = d.queued; counted = d.counted }
  finished fp (e ∷ es) false true l d =
      inl record { expected = d.expected; queued = d.queued; counted = d.counted }
  finished fp (e ∷ es) true true l d =
      inl record { expected = d.expected; queued = d.queued; counted = d.counted }
  finished fp [] false false l d = inr (d, (_, refl))
  finished fp [] true false l d = inr (d, (_, refl))
  finished fp (e ∷ es) false false l d = inr (d, (_, refl))
  finished fp (e ∷ es) true false l d = inr (d, (_, refl))

  acked_rx-Received :
      (pool_low : Bool) (fp : Frame) (pf : Bool) (o : Outcome)
      → U o.link
      → Received fp (acked_rx pool_low fp pf o)
  unfolding acked_rx
  acked_rx-Received pool_low fp pf o h =
      let r = dispatch_rx pool_low fp pf o.link in
      finished fp (o.flags ++ (r.0.1 ++ (if o.checkpoint_moved then tx_ifrm_enq ∷ [] else [])))
        o.signal_tx r.1 r.0.0 (dispatch_rx-Dispatched pool_low fp pf o.link h)

  abbrev OutcomeUndelivered : Option Outcome → Type 0
  OutcomeUndelivered none = Unit
  OutcomeUndelivered (some o) = U o.link

  handle_checkpoint_and_ack-U :
      (nr : ℕ) (pf is_command : Bool) (l : Link)
      → U l
      → OutcomeUndelivered (handle_checkpoint_and_ack nr pf is_command l)
  unfolding handle_checkpoint_and_ack
  handle_checkpoint_and_ack-U nr pf is_command l h =
      let acked = (process_nr nr l).0 in
      let kept = process_nr-U nr l h in
      if-elim OutcomeUndelivered (not (is_nr_valid l.s.framing l.p nr)) _ _ tt (
        if-elim OutcomeUndelivered pf _ _
          (answer_pf-U is_command (checkpoint_pf is_command acked).0
            (checkpoint_pf-U is_command acked kept))
          (handle_no_pf-U is_command acked kept))

  outcome-Received :
      (pool_low : Bool) (fp : Frame) (pf is_command : Bool) (l : Link) (r : Option Outcome)
      → U l
      → OutcomeUndelivered r
      → Received fp
          (elim r [ none ↦ invalid_nr_rx fp is_command l | some o ↦ acked_rx pool_low fp pf o ])
  unfolding invalid_nr_rx set_frmr_condition
  outcome-Received pool_low fp pf is_command l none h k = inr (h, (_, refl))
  outcome-Received pool_low fp pf is_command l (some o) h k = acked_rx-Received pool_low fp pf o k

-- An I-frame or S-frame that the station receives is handed to the reader, behind the frames that
-- wait there, only when its N(S) is V(R), which then counts on; in every other case V(R) and the
-- frames for the reader stay, and the frame is given back to the pool.
pub common_rx-Received :
    (pool_low : Bool) (fp : Frame) (is_command : Bool) (l : Link)
    → Received l.s.framing l.p.vr l.p.i_recept_q fp (common_rx pool_low fp is_command l)
unfolding common_rx frmr_rx
common_rx-Received pool_low fp is_command l =
    let f = l.s.framing in
    let pf = frame_get_pf f fp in
    let nr = extract_nr f fp in
    let same : Undelivered f l.p.vr l.p.i_recept_q l = (refl, (refl, refl)) in
    let R = Received f l.p.vr l.p.i_recept_q fp in
    if-elim R l.p.frmr_condition _ _
      (if-elim (λ m. R (emit (release fp) m)) pf _ _ (inr (same, (_, refl)))
        (inr (same, (_, refl))))
      (outcome-Received f l.p.vr l.p.i_recept_q pool_low fp pf is_command l
        (handle_checkpoint_and_ack nr pf is_command l) same
        (handle_checkpoint_and_ack-U f l.p.vr l.p.i_recept_q nr pf is_command l same))
