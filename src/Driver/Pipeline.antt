-- ===== src/Driver/Pipeline.antt =====
-- The transmit queue in src/ioHdlcswdriver.c, without the mock adapter: the submission in
-- `drv_send_frame`, `s_try_start_next_tx_i` and the callbacks of the port. A frame is a number; the
-- gates that are closed are listed, the first closed first. What the port answers is an argument.
-- An assertion that fails is noted in the state, and what follows is what a build without assertions
-- does; a build with them stops there.
pub mod Order
pub mod Sending
pub mod Callbacks
pub mod Asserts
pub mod Events
use io_hdlc.Base.{
  ℕ, Bool, true, false, not, ◌&&◌, ◌||◌, Option, none, some, List, [], ◌∷◌, ◌++◌, ◌==◌,
  if◌then◌else◌,
}

-- `ioHdlcSwDriverTxState` with the gates, the frames given back to the pool and the frames submitted,
-- each with whether it has an opening flag, the latest first; and whether an assertion has failed.
pub record TxState : Type 0 where
  pub raw_q : List ℕ
  pub inflight : Option ℕ
  pub gates : List ℕ
  pub released : List ℕ
  pub submitted : List (ℕ × Bool)
  pub asserted : Bool

-- What the port answers: `tx_busy`, whether `tx_submit_frame` accepts, and `tx_busy` behind it.
pub record Port : Type 0 where
  pub busy : Bool
  pub accepts : Bool
  pub busy_after : Bool

abbrev pub is_member : ℕ → List ℕ → Bool
is_member fp [] = false
is_member fp (x ∷ xs) = (x == fp) || is_member fp xs

abbrev pub without : ℕ → List ℕ → List ℕ
without fp [] = []
without fp (x ∷ xs) = let rest = without fp xs in if x == fp then xs else x ∷ rest

abbrev pub is_none : Option ℕ → Bool
is_none none = true
is_none (some fp) = false

abbrev pub no_frames : List ℕ → Bool
no_frames [] = true
no_frames (x ∷ xs) = false

-- `ioHdlcFrameTxGateRelease`, and `hdlcReleaseFrame`.
abbrev pub release_gate : ℕ → TxState → TxState
release_gate fp tx = record tx { gates = without fp tx.gates }

abbrev pub free_frame : Option ℕ → TxState → TxState
free_frame none tx = tx
free_frame (some fp) tx = record tx { released = fp ∷ tx.released }

-- A submission: the frame goes to the port.
abbrev pub tx_submit : ℕ → Bool → TxState → TxState
tx_submit fp opening tx = record tx { inflight = some fp; submitted = (fp, opening) ∷ tx.submitted }

-- The first frame of the queue is submitted; where that fails, it goes back to the head of the queue
-- while the port is busy, and else its gate opens and it is returned.
unfoldable pub start : Port → Bool → ℕ → List ℕ → TxState → TxState × Option ℕ
start port opening fp rest tx =
    let sent = tx_submit fp opening (record tx { raw_q = rest }) in
    let back = record sent { inflight = none } in
    if port.accepts
    then (sent, none)
    else if port.busy_after
    then (record back { raw_q = fp ∷ rest }, none)
    else (release_gate fp back, some fp)

abbrev pub start_first : Port → Bool → List ℕ → TxState → TxState × Option ℕ
start_first port opening [] tx = (tx, none)
start_first port opening (fp ∷ rest) tx =
    if port.busy then (tx, none) else start port opening fp rest tx

-- `s_try_start_next_tx_i`
unfoldable pub try_start_next : Port → Bool → TxState → TxState × Option ℕ
try_start_next port opening tx =
    if not (is_none tx.inflight) then (tx, none) else start_first port opening tx.raw_q tx

abbrev pub give_back : TxState × Option ℕ → TxState
give_back (tx, failed) = free_frame failed tx

pub data SendResult : Type 0 where
  accepted submit_failed ebusy : SendResult

-- An assertion fails.
abbrev pub note_assertion : TxState → TxState
note_assertion tx = record tx { asserted = true }

-- The end of `drv_send_frame`: it asserts that no submission of a queued frame has failed.
abbrev pub settle : TxState × Option ℕ → SendResult × TxState
settle (tx, none) = (accepted, tx)
settle (tx, some fp) = (accepted, free_frame (some fp) (note_assertion tx))

-- The frame joins the queue, and the first of the queue is tried.
unfoldable pub join_queue : Port → ℕ → TxState → SendResult × TxState
unfolding try_start_next
join_queue port fp tx =
    settle (try_start_next port true (record tx { raw_q = tx.raw_q ++ (fp ∷ []) }))

-- `drv_send_frame` with the system lock held, on a frame whose gate it has closed: `port` answers the
-- submission, and `later` that of `s_try_start_next_tx_i`. It asserts that the frame is not queued.
unfoldable pub send_committed : Port → Port → ℕ → TxState → SendResult × TxState
send_committed port later fp tx =
    if not port.busy && is_none tx.inflight && no_frames tx.raw_q
    then (let sent = tx_submit fp true tx in
        let back = record sent { inflight = none } in
        if port.accepts
        then settle (try_start_next later true sent)
        else if port.busy_after
        then (accepted, record back { raw_q = back.raw_q ++ (fp ∷ []) })
        else (submit_failed, free_frame (some fp) (release_gate fp back)))
    else if not (is_member fp tx.raw_q)
    then join_queue later fp tx
    else (ebusy, free_frame (some fp) (release_gate fp (note_assertion tx)))

-- `drv_send_frame` on a frame that is prepared: the gate is closed first. It asserts that it was
-- open.
unfoldable pub tx_send : Port → Port → ℕ → TxState → SendResult × TxState
tx_send port later fp tx =
    if is_member fp tx.gates
    then (ebusy, note_assertion tx)
    else send_committed port later fp (record tx { gates = tx.gates ++ (fp ∷ []) })

abbrev pub is_inflight : Option ℕ → ℕ → Bool
is_inflight none fp = false
is_inflight (some x) fp = x == fp

-- `s_on_tx_done`, with a frame.
unfoldable pub on_tx_done : Port → ℕ → TxState → TxState
on_tx_done port fp tx =
    let landed = if is_inflight tx.inflight fp then record tx { inflight = none } else tx in
    let (after, failed) = try_start_next port false (release_gate fp landed) in
    free_frame failed (free_frame (some fp) after)

-- `s_on_tx_ready_i`
unfoldable pub on_tx_ready : Port → TxState → TxState
on_tx_ready port tx = give_back (try_start_next port true tx)

-- The loop of `s_on_tx_error_i` over the queue.
unfoldable pub drop_queue : List ℕ → TxState → TxState
drop_queue [] tx = record tx { raw_q = [] }
drop_queue (fp ∷ rest) tx = drop_queue rest (free_frame (some fp) (release_gate fp tx))

abbrev pub release_gate_of : Option ℕ → TxState → TxState
release_gate_of none tx = tx
release_gate_of (some fp) tx = release_gate fp tx

abbrev pub aborted_frame : Option ℕ → Option ℕ → Option ℕ
aborted_frame none y = y
aborted_frame (some fp) y = some fp

-- `s_on_tx_error_i`: the frame is the port's, or the one in flight.
unfoldable pub on_tx_error : Option ℕ → TxState → TxState
on_tx_error framep tx =
    let done = aborted_frame framep tx.inflight in
    let landed = release_gate_of done (record tx { inflight = none }) in
    free_frame done (drop_queue tx.raw_q landed)

-- The calls and callbacks of the driver that touch the queue.
pub data TxEvent : Type 0 where
  sending : Port → Port → ℕ → TxEvent
  done : Port → ℕ → TxEvent
  ready : Port → TxEvent
  aborted : Option ℕ → TxEvent

unfoldable pub tx_step : TxEvent → TxState → TxState
tx_step (sending port later fp) tx = (tx_send port later fp tx).1
tx_step (done port fp) tx = on_tx_done port fp tx
tx_step (ready port) tx = on_tx_ready port tx
tx_step (aborted framep) tx = on_tx_error framep tx

unfoldable pub tx_run : List TxEvent → TxState → TxState
unfolding tx_step
tx_run [] tx = tx
tx_run (event ∷ events) tx = tx_run events (tx_step event tx)
