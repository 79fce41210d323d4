-- ===== src/Driver/Pipeline/Callbacks.antt =====
-- The callbacks of the port keep the frames committed to transmission in order.
use io_hdlc.Base.{
  ℕ, true, false, Option, none, some, List, [], ◌∷◌, ◌++◌, ◌≡◌, ◌∙◌, ◌⊎◌, inl, inr, refl, sym, ap,
  subst, arith, Distinct, ◌==◌,
}
use io_hdlc.State.{if_known}
use io_hdlc.Driver.Pipeline.{
  TxState, Port, is_member, without, release_gate, free_frame, try_start_next, is_inflight,
  on_tx_done, drop_queue, release_gate_of, on_tx_error, aborted_frame,
}
use io_hdlc.Driver.Pipeline.Order.{in_flight, IsPipeline, without_first, try_start_next-IsPipeline}
use io_hdlc.Driver.Pipeline.Sending.{free_frame-IsPipeline, IsPipeline-free_frame}

pub completed-IsPipeline :
    (port : Port) (fp : ℕ) (tx : TxState)
    → tx.inflight ≡ some fp
    → IsPipeline tx
    → IsPipeline (on_tx_done port fp tx)
unfolding on_tx_done
completed-IsPipeline port fp tx sent h =
    let P : TxState → Type 0 = λ landed.
      let x = try_start_next port false (release_gate fp landed) in
      IsPipeline (free_frame x.1 (free_frame (some fp) x.0)) in
    let it : is_inflight tx.inflight fp ≡ true =
      ap (λ o. is_inflight o fp) sent ∙ (let same : (fp == fp) ≡ true = ground arith in same) in
    let g : tx.gates ≡ fp ∷ tx.raw_q = h.ordered ∙ ap (λ o. in_flight o ++ tx.raw_q) sent in
    let left : without fp tx.gates ≡ tx.raw_q = ap (without fp) g ∙ without_first fp tx.raw_q in
    let landed = record tx { inflight = none } in
    let x = try_start_next port false (release_gate fp landed) in
    if_known P (is_inflight tx.inflight fp) landed tx
      (λ _. free_frame-IsPipeline x.1 (free_frame (some fp) x.0) (
        free_frame-IsPipeline (some fp) x.0 (
          IsPipeline-free_frame x.1 x.0 (
            try_start_next-IsPipeline port false (release_gate fp landed) (record {
              ordered = left;
              distinct = subst Distinct (sym left) (subst Distinct g h.distinct).1;
            })))))
      (λ other. absurd (ground arith))

without_absent : (fp : ℕ) (xs : List ℕ) → is_member fp xs ≡ false → without fp xs ≡ xs
without_absent fp [] h = refl
without_absent fp (x ∷ xs) h =
    let other : (x == fp) ≡ false = ground arith in
    rw other (ap (λ t. x ∷ t) (without_absent fp xs (ground arith)))

not_in_flight :
    (o : Option ℕ) (fp : ℕ) (q : List ℕ)
    → is_member fp (in_flight o ++ q) ≡ false
    → is_inflight o fp ≡ false
not_in_flight none fp q h = refl
not_in_flight (some x) fp q h = ground arith

-- The completion of a frame whose gate is open: the one in flight stays.
pub stale-IsPipeline :
    (port : Port) (fp : ℕ) (tx : TxState)
    → is_member fp tx.gates ≡ false
    → IsPipeline tx
    → IsPipeline (on_tx_done port fp tx)
unfolding on_tx_done
stale-IsPipeline port fp tx free h =
    let P : TxState → Type 0 = λ landed.
      let x = try_start_next port false (release_gate fp landed) in
      IsPipeline (free_frame x.1 (free_frame (some fp) x.0)) in
    let left = without_absent fp tx.gates free in
    let x = try_start_next port false (release_gate fp tx) in
    let other = not_in_flight tx.inflight fp tx.raw_q (sym (ap (is_member fp) h.ordered) ∙ free) in
    if_known P (is_inflight tx.inflight fp) (record tx { inflight = none }) tx
      (λ it. absurd (ground arith))
      (λ _. free_frame-IsPipeline x.1 (free_frame (some fp) x.0) (
        free_frame-IsPipeline (some fp) x.0 (
          IsPipeline-free_frame x.1 x.0 (
            try_start_next-IsPipeline port false (release_gate fp tx) (record {
              ordered = left ∙ h.ordered;
              distinct = subst Distinct (sym left) h.distinct;
            })))))

-- All gates of a queue open, and it is empty.
drop_queue_lem :
    (q : List ℕ) (tx : TxState)
    → tx.gates ≡ q
    → tx.inflight ≡ none
    → IsPipeline (drop_queue q tx) × ((drop_queue q tx).gates ≡ [])
unfolding drop_queue
drop_queue_lem [] tx g idle = (
  record {
    ordered = g ∙ ap (λ o. in_flight o ++ []) (sym idle);
    distinct = subst Distinct (sym g) tt;
  },
  g,
)
drop_queue_lem (fp ∷ q) tx g idle =
    drop_queue_lem q (free_frame (some fp) (release_gate fp tx))
      (ap (without fp) g ∙ without_first fp q) idle

pub on_tx_error-IsPipeline :
    (framep : Option ℕ) (tx : TxState)
    → (framep ≡ none) ⊎ (framep ≡ tx.inflight)
    → IsPipeline tx
    → IsPipeline (on_tx_error framep tx) × ((on_tx_error framep tx).gates ≡ [])
unfolding on_tx_error
on_tx_error-IsPipeline framep tx which h =
    let done_is : aborted_frame framep tx.inflight ≡ tx.inflight = elim which [
      | inl e ↦ ap (λ o. aborted_frame o tx.inflight) e
      | inr e ↦ ap (λ o. aborted_frame o tx.inflight) e ∙ twice tx.inflight
    ] in
    subst
      (λ (o : Option ℕ).
        let after =
          free_frame o (drop_queue tx.raw_q (release_gate_of o (record tx { inflight = none }))) in
        IsPipeline after × (after.gates ≡ []))
      (sym done_is) (go tx.inflight refl)
  where
    twice : (o : Option ℕ) → aborted_frame o o ≡ o
    twice none = refl
    twice (some fp) = refl

    go :
        (o : Option ℕ)
        → tx.inflight ≡ o
        → let after =
            free_frame o
              (drop_queue tx.raw_q (release_gate_of o (record tx { inflight = none }))) in
          IsPipeline after × (after.gates ≡ [])
    go none e =
        drop_queue_lem tx.raw_q (record tx { inflight = none })
          (h.ordered ∙ ap (λ o. in_flight o ++ tx.raw_q) e) refl
    go (some fp) e =
        let g = h.ordered ∙ ap (λ o. in_flight o ++ tx.raw_q) e in
        let dropped =
          drop_queue_lem tx.raw_q (release_gate fp (record tx { inflight = none }))
            (ap (without fp) g ∙ without_first fp tx.raw_q) refl in
        (free_frame-IsPipeline (some fp) _ dropped.0, dropped.1)
