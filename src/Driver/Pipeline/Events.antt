-- ===== src/Driver/Pipeline/Events.antt =====
-- The calls and callbacks of the driver keep the frames committed to transmission in order.
use io_hdlc.Base.{true, false, none, some, List, [], ◌∷◌, ◌≡◌, ◌∙◌, ◌⊎◌, inl, inr, refl, arith}
use io_hdlc.Driver.Pipeline.{TxState, is_member, on_tx_ready, TxEvent, tx_step, tx_run}
use io_hdlc.Driver.Pipeline.Asserts.{run_violates, tx_step-asserted}
use io_hdlc.Driver.Pipeline.TxEvent.{sending, done, ready, aborted}
use io_hdlc.Driver.Pipeline.Order.{IsPipeline, try_start_next-IsPipeline}
use io_hdlc.Driver.Pipeline.Sending.{not_queued, tx_send-IsPipeline}
use io_hdlc.Driver.Pipeline.Callbacks.{
  completed-IsPipeline, stale-IsPipeline, on_tx_error-IsPipeline,
}

-- What the port may call: it completes the frame in flight, or one that is not committed any more;
-- it aborts the frame in flight, or none.
abbrev pub IsAllowed : TxEvent → TxState → Type 0
IsAllowed (sending port later fp) tx = Unit
IsAllowed (done port fp) tx = (tx.inflight ≡ some fp) ⊎ (is_member fp tx.gates ≡ false)
IsAllowed (ready port) tx = Unit
IsAllowed (aborted framep) tx = (framep ≡ none) ⊎ (framep ≡ tx.inflight)

-- The events of a run, each allowed where it happens.
abbrev pub AllAllowed : List TxEvent → TxState → Type 0
AllAllowed [] tx = Unit
AllAllowed (event ∷ events) tx = IsAllowed event tx × AllAllowed events (tx_step event tx)

tx_step-IsPipeline :
    (event : TxEvent) (tx : TxState)
    → IsAllowed event tx
    → IsPipeline tx
    → IsPipeline (tx_step event tx)
unfolding tx_step on_tx_ready
tx_step-IsPipeline (sending port later fp) tx ok h = tx_send-IsPipeline port later fp tx h
tx_step-IsPipeline (done port fp) tx ok h = elim ok [
  | inl sent ↦ completed-IsPipeline port fp tx sent h
  | inr free ↦ stale-IsPipeline port fp tx free h
]
tx_step-IsPipeline (ready port) tx ok h = try_start_next-IsPipeline port true tx h
tx_step-IsPipeline (aborted framep) tx ok h = (on_tx_error-IsPipeline framep tx ok h).0

-- Whatever is sent and whatever the port answers, where the port completes only the frame in flight
-- or one that is not committed, and aborts only the one in flight or none: the frames whose gates
-- are closed are the one in flight and those of the queue behind it, each once, in the order in
-- which their gates were closed. An assertion of the driver fails only if a frame is sent that is
-- committed already, or a port that is idle refuses a submission; what is said of the frames then
-- holds of a build without assertions.
pub tx_run-IsPipeline :
    (events : List TxEvent) (tx : TxState)
    → AllAllowed events tx
    → IsPipeline tx
    → IsPipeline (tx_run events tx)
      × (((tx_run events tx).asserted ≡ tx.asserted) ⊎ (run_violates events tx ≡ true))
unfolding tx_run
tx_run-IsPipeline [] tx ok h = (h, inl refl)
tx_run-IsPipeline (event ∷ events) tx ok h =
    let step = tx_step-asserted event tx (λ fp free. not_queued fp tx h free) in
    let (up, verdict) =
      tx_run-IsPipeline events (tx_step event tx) ok.1 (tx_step-IsPipeline event tx ok.0 h) in
    (
      up,
      elim step [
        | inr v ↦ inr (ground arith)
        | inl s ↦ elim verdict [ inl e ↦ inl (e ∙ s) | inr v ↦ inr (ground arith) ]
      ],
    )
