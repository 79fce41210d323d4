-- ===== src/Driver/Pipeline/Sending.antt =====
-- The calls of `drv_send_frame` keep the frames committed to transmission in order.
use io_hdlc.Base.{
  ℕ, true, false, not, ◌&&◌, ◌||◌, Option, none, some, List, [], ◌∷◌, ◌++◌, append_assoc, ◌≡◌, ◌∙◌,
  inl, inr, refl, sym, ap, subst, arith, Distinct, ◌==◌, Bool-cases,
}
use io_hdlc.State.{if-elim, if_known}
use io_hdlc.Driver.Pipeline.{
  TxState, Port, is_member, without, is_none, no_frames, free_frame, try_start_next, SendResult,
  join_queue, send_committed, tx_send, settle, give_back, tx_submit,
}
use io_hdlc.Driver.Pipeline.Order.{
  in_flight, IsPipeline, without_first, absent, append-Distinct, try_start_next-IsPipeline,
}

member-append :
    (fp : ℕ) (xs ys : List ℕ) → is_member fp (xs ++ ys) ≡ (is_member fp xs || is_member fp ys)
member-append fp [] ys = refl
member-append fp (x ∷ xs) ys =
    let rest = member-append fp xs ys in
    elim (Bool-cases (x == fp)) [ inl e ↦ rw e refl | inr e ↦ rw e rest ]

pub not_queued :
    (fp : ℕ) (tx : TxState)
    → IsPipeline tx
    → is_member fp tx.gates ≡ false
    → is_member fp tx.raw_q ≡ false
not_queued fp tx h absent_gate =
    let all =
      sym (ap (is_member fp) h.ordered ∙ member-append fp (in_flight tx.inflight) tx.raw_q)
      ∙ absent_gate in
    ground arith

pub free_frame-IsPipeline :
    (o : Option ℕ) (tx : TxState) → IsPipeline tx → IsPipeline (free_frame o tx)
free_frame-IsPipeline none tx h = h
free_frame-IsPipeline (some fp) tx h = record { ordered = h.ordered; distinct = h.distinct }

pub IsPipeline-free_frame :
    (o : Option ℕ) (tx : TxState) → IsPipeline (free_frame o tx) → IsPipeline tx
IsPipeline-free_frame none tx h = h
IsPipeline-free_frame (some fp) tx h = record { ordered = h.ordered; distinct = h.distinct }

settle-IsPipeline : (x : TxState × Option ℕ) → IsPipeline (give_back x) → IsPipeline (settle x).1
settle-IsPipeline (tx, none) h = h
settle-IsPipeline (tx, some fp) h = record { ordered = h.ordered; distinct = h.distinct }

join_queue-IsPipeline :
    (later : Port) (fp : ℕ) (tx : TxState)
    → IsPipeline tx
    → is_member fp tx.gates ≡ false
    → IsPipeline (join_queue later fp (record tx { gates = tx.gates ++ (fp ∷ []) })).1
unfolding join_queue
join_queue-IsPipeline later fp tx h free =
    let joined : TxState = record tx {
      gates = tx.gates ++ (fp ∷ []);
      raw_q = tx.raw_q ++ (fp ∷ []);
    } in
    settle-IsPipeline (try_start_next later true joined) (
      try_start_next-IsPipeline later true joined (record {
        ordered =
            ap (λ t. t ++ (fp ∷ [])) h.ordered
            ∙ append_assoc (in_flight tx.inflight) tx.raw_q (fp ∷ []);
        distinct = append-Distinct tx.gates fp h.distinct (absent fp tx.gates free);
      }))

-- The port is idle and nothing is queued.
nothing_committed :
    (tx : TxState) (o : Option ℕ) (q : List ℕ)
    → tx.inflight ≡ o
    → tx.raw_q ≡ q
    → (is_none o && no_frames q) ≡ true
    → IsPipeline tx
    → (tx.gates ≡ []) × (tx.raw_q ≡ [])
nothing_committed tx none [] e f t h = (h.ordered ∙ ap (λ o. in_flight o ++ tx.raw_q) e ∙ f, f)
nothing_committed tx none (x ∷ q) e f t h = cc
nothing_committed tx (some fp) q e f t h = cc

send_committed-IsPipeline :
    (port later : Port) (fp : ℕ) (tx : TxState)
    → IsPipeline tx
    → is_member fp tx.gates ≡ false
    → IsPipeline (send_committed port later fp (record tx { gates = tx.gates ++ (fp ∷ []) })).1
unfolding send_committed
send_committed-IsPipeline port later fp tx h free =
    let P : SendResult × TxState → Type 0 = λ x. IsPipeline x.1 in
    if_known P (not port.busy && is_none tx.inflight && no_frames tx.raw_q) _ _
      (λ t.
        let (open_all, no_queue) =
          nothing_committed tx tx.inflight tx.raw_q refl refl (ground arith) h in
        let sent = tx_submit fp true (record tx { gates = tx.gates ++ (fp ∷ []) }) in
        let only : tx.gates ++ (fp ∷ []) ≡ fp ∷ [] = ap (λ t. t ++ (fp ∷ [])) open_all in
        let d : Distinct (tx.gates ++ (fp ∷ [])) = subst Distinct (sym only) (tt, tt) in
        if-elim P port.accepts _ _
          (settle-IsPipeline (try_start_next later true sent) (
            try_start_next-IsPipeline later true sent
              (record { ordered = only ∙ ap (λ t. fp ∷ t) (sym no_queue); distinct = d })))
          (if-elim P port.busy_after _ _
            (record { ordered = only ∙ ap (λ t. t ++ (fp ∷ [])) (sym no_queue); distinct = d })
            (let left : without fp (tx.gates ++ (fp ∷ [])) ≡ [] =
                ap (without fp) only ∙ without_first fp [] in
              record { ordered = left ∙ sym no_queue; distinct = subst Distinct (sym left) tt })))
      (λ _.
        if_known P (not (is_member fp tx.raw_q)) _ _ (λ _. join_queue-IsPipeline later fp tx h free)
          (λ queued. let no = not_queued fp tx h free in absurd (ground arith)))

pub tx_send-IsPipeline :
    (port later : Port) (fp : ℕ) (tx : TxState)
    → IsPipeline tx
    → IsPipeline (tx_send port later fp tx).1
unfolding tx_send
tx_send-IsPipeline port later fp tx h =
    if_known (λ (x : SendResult × TxState). IsPipeline x.1) (is_member fp tx.gates) _ _
      (λ _. record { ordered = h.ordered; distinct = h.distinct })
      (λ free. send_committed-IsPipeline port later fp tx h free)
