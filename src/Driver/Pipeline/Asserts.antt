-- ===== src/Driver/Pipeline/Asserts.antt =====
-- The assertions of `drv_send_frame` in src/ioHdlcswdriver.c.
use io_hdlc.Base.{
  ℕ, Bool, true, false, not, ◌&&◌, ◌||◌, Option, none, some, List, [], ◌∷◌, ◌++◌, ◌≡◌, ◌∙◌, ◌⊎◌,
  inl, inr, refl, arith, if◌then◌else◌,
}
use io_hdlc.State.{if-elim, if_known}
use io_hdlc.Driver.Pipeline.{
  TxState, Port, is_member, is_none, no_frames, release_gate, free_frame, start, start_first,
  try_start_next, SendResult, settle, join_queue, send_committed, tx_send, is_inflight, on_tx_done,
  on_tx_ready, drop_queue, release_gate_of, on_tx_error, TxEvent, tx_step, give_back, tx_submit,
  note_assertion, aborted_frame,
}
use io_hdlc.Driver.Pipeline.SendResult.{accepted, submit_failed, ebusy}
use io_hdlc.Driver.Pipeline.TxEvent.{sending, done, ready, aborted}

-- A port that is idle, before and behind a submission that it refuses.
abbrev pub refuses : Port → Bool
refuses port = not port.busy && not port.accepts && not port.busy_after

-- A call that the driver asserts not to happen: of a frame that is committed already, or with a
-- port that refuses while it is idle.
abbrev pub violates : TxEvent → TxState → Bool
violates (sending port later fp) tx = is_member fp tx.gates || refuses later
violates (done port fp) tx = false
violates (ready port) tx = false
violates (aborted framep) tx = false

-- One of the events does.
abbrev pub run_violates : List TxEvent → TxState → Bool
run_violates [] tx = false
run_violates (event ∷ events) tx = violates event tx || run_violates events (tx_step event tx)

-- A start leaves the assertions as they are, and fails only where the port refuses.
record Plain (port : Port) (a : Bool) (x : TxState × Option ℕ) : Type 0 where
  same : x.0.asserted ≡ a
  fine : (x.1 ≡ none) ⊎ (refuses port ≡ true)

start_first-Plain :
    (port : Port) (opening : Bool) (q : List ℕ) (tx : TxState)
    → Plain port tx.asserted (start_first port opening q tx)
unfolding start
start_first-Plain port opening [] tx = record { same = refl; fine = inl refl }
start_first-Plain port opening (fp ∷ rest) tx =
    let P = Plain port tx.asserted in
    if_known P port.busy _ _ (λ _. record { same = refl; fine = inl refl })
      (λ b.
        if_known P port.accepts _ _ (λ _. record { same = refl; fine = inl refl })
          (λ a.
            if_known P port.busy_after _ _ (λ _. record { same = refl; fine = inl refl })
              (λ c. record { same = refl; fine = inr (ground arith) })))

try_start_next-Plain :
    (port : Port) (opening : Bool) (tx : TxState)
    → Plain port tx.asserted (try_start_next port opening tx)
unfolding try_start_next
try_start_next-Plain port opening tx =
    if-elim (Plain port tx.asserted) (not (is_none tx.inflight)) _ _
      (record { same = refl; fine = inl refl }) (start_first-Plain port opening tx.raw_q tx)

-- The end of a call.
record Sends (port : Port) (a : Bool) (r : SendResult × TxState) : Type 0 where
  verdict : (r.1.asserted ≡ a) ⊎ (refuses port ≡ true)

settle-Sends :
    (port : Port) (a : Bool) (x : TxState × Option ℕ) → Plain port a x → Sends port a (settle x)
settle-Sends port a (tx, none) h = record { verdict = inl h.same }
settle-Sends port a (tx, some fp) h = elim h.fine [
  | inl e ↦ cc
  | inr e ↦ record { verdict = inr e }
]

give_back-asserted :
    (port : Port) (a : Bool) (x : TxState × Option ℕ) → Plain port a x → (give_back x).asserted ≡ a
give_back-asserted port a (tx, none) h = h.same
give_back-asserted port a (tx, some fp) h = h.same

send_committed-Sends :
    (port later : Port) (fp : ℕ) (tx : TxState)
    → is_member fp tx.raw_q ≡ false
    → Sends later tx.asserted (send_committed port later fp tx)
unfolding send_committed join_queue
send_committed-Sends port later fp tx free =
    let P = Sends later tx.asserted in
    let sent : TxState = tx_submit fp true tx in
    let back : TxState = record sent { inflight = none } in
    let requeued : SendResult × TxState =
      (accepted, record back { raw_q = back.raw_q ++ (fp ∷ []) }) in
    let failed : SendResult × TxState =
      (submit_failed, free_frame (some fp) (release_gate fp back)) in
    let twice : SendResult × TxState =
      (ebusy, free_frame (some fp) (release_gate fp (note_assertion tx))) in
    let joined : TxState = record tx { raw_q = tx.raw_q ++ (fp ∷ []) } in
    let unsent = if port.busy_after then requeued else failed in
    let direct = if port.accepts then settle (try_start_next later true sent) else unsent in
    let queued = settle (try_start_next later true joined) in
    if-elim P (not port.busy && is_none tx.inflight && no_frames tx.raw_q) direct
      (if not (is_member fp tx.raw_q) then queued else twice)
      (if-elim P port.accepts (settle (try_start_next later true sent)) unsent
        (settle-Sends later tx.asserted _ (try_start_next-Plain later true sent))
        (if-elim P port.busy_after requeued failed (record { verdict = inl refl })
          (record { verdict = inl refl })))
      (if_known P (not (is_member fp tx.raw_q)) queued twice
        (λ _. settle-Sends later tx.asserted _ (try_start_next-Plain later true joined))
        (λ there. absurd (ground arith)))

drop_queue-asserted : (q : List ℕ) (tx : TxState) → (drop_queue q tx).asserted ≡ tx.asserted
unfolding drop_queue
drop_queue-asserted [] tx = refl
drop_queue-asserted (fp ∷ q) tx = drop_queue-asserted q (free_frame (some fp) (release_gate fp tx))

free_frame-asserted : (o : Option ℕ) (tx : TxState) → (free_frame o tx).asserted ≡ tx.asserted
free_frame-asserted none tx = refl
free_frame-asserted (some fp) tx = refl

release_gate_of-asserted :
    (o : Option ℕ) (tx : TxState) → (release_gate_of o tx).asserted ≡ tx.asserted
release_gate_of-asserted none tx = refl
release_gate_of-asserted (some fp) tx = refl

-- An assertion fails only in a call that the driver asserts not to happen, where a frame whose gate
-- is open is not queued.
pub tx_step-asserted :
    (event : TxEvent) (tx : TxState)
    → ((fp : ℕ) → is_member fp tx.gates ≡ false → is_member fp tx.raw_q ≡ false)
    → ((tx_step event tx).asserted ≡ tx.asserted) ⊎ (violates event tx ≡ true)
unfolding tx_step tx_send on_tx_done on_tx_ready on_tx_error
tx_step-asserted (sending port later fp) tx open_gate =
    let committed = record tx { gates = tx.gates ++ (fp ∷ []) } in
    if_known
      (λ (r : SendResult × TxState).
        (r.1.asserted ≡ tx.asserted) ⊎ ((is_member fp tx.gates || refuses later) ≡ true))
      (is_member fp tx.gates) (ebusy, note_assertion tx) (send_committed port later fp committed)
      (λ e. inr (ground arith))
      (λ e. elim (send_committed-Sends port later fp committed (open_gate fp e)).verdict [
        | inl same ↦ inl same
        | inr r ↦ inr (ground arith)
      ])
tx_step-asserted (done port fp) tx open_gate =
    let landed =
      if-elim (λ (x : TxState). x.asserted ≡ tx.asserted) (is_inflight tx.inflight fp)
        (record tx { inflight = none }) tx refl refl in
    let from =
      release_gate fp (if is_inflight tx.inflight fp then record tx { inflight = none } else tx) in
    let x = try_start_next port false from in
    inl (
      free_frame-asserted x.1 (free_frame (some fp) x.0)
      ∙ (try_start_next-Plain port false from).same
      ∙ landed)
tx_step-asserted (ready port) tx open_gate =
    inl (give_back-asserted port tx.asserted _ (try_start_next-Plain port true tx))
tx_step-asserted (aborted framep) tx open_gate =
    let o = aborted_frame framep tx.inflight in
    let idle : TxState = record tx { inflight = none } in
    inl (
      free_frame-asserted o (drop_queue tx.raw_q (release_gate_of o idle))
      ∙ drop_queue-asserted tx.raw_q (release_gate_of o idle)
      ∙ release_gate_of-asserted o idle)
