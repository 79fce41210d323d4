-- ===== src/DriverTests.antt =====
-- Concrete runs of the software driver.
use io_hdlc.Base.{
  Option, ap, ◌⊎◌, ℕ, zero, suc, true, false, none, some, List, [], ◌∷◌, ◌++◌, ◌≡◌, inl, inr, refl,
  arith,
}
use io_hdlc.State.{Frame}
use io_hdlc.Driver.Configure.{SwDriverConfig}
use io_hdlc.Driver.Receive.{RxState, software_fcs, on_rx}
use io_hdlc.Driver.Receive.RxError.{no_error}
use io_hdlc.Driver.Assembly.{waiting}
use io_hdlc.Driver.Line.{line_octets}
use io_hdlc.Driver.Frames.{wire, delivered_all, hunting, line_octets-wire}
use io_hdlc.Driver.Buffer.{software_fcs-IsFcs}
use io_hdlc.Driver.RoundTrip.{fresh}
use io_hdlc.Driver.Send.{prepare}
use io_hdlc.Driver.Exchange.{Arrives, prepare-Arrives}
use io_hdlc.Driver.Bounds.{AsksSafely, on_rx-AsksSafely}
use io_hdlc.Driver.Pipeline.{
  TxState, Port, TxEvent, tx_run, tx_step, tx_send, send_committed, join_queue, try_start_next,
  start, on_tx_done,
}
use io_hdlc.Driver.Pipeline.TxEvent.{sending, done, aborted}
use io_hdlc.Driver.Pipeline.Order.{IsPipeline}
use io_hdlc.Driver.Pipeline.Asserts.{run_violates}
use io_hdlc.Driver.Pipeline.Events.{tx_run-IsPipeline}

abbrev zero_octets : ℕ → List ℕ
zero_octets zero = []
zero_octets (suc n) = 0 ∷ zero_octets n

abbrev buffer : Frame
buffer = record { octets = zero_octets 16; elen = 0; tx_ctrl_len = 0 }

-- A check sequence of two octets and a format field of type 0.
abbrev with_type0 : SwDriverConfig
with_type0 = record { fcs_size = 2; apply_transparency = false; frame_format_size = 1 }

-- An I-frame of two octets to the peer with the address 3.
abbrev outgoing : Frame
outgoing = record { octets = 0 ∷ 3 ∷ 0 ∷ 65 ∷ 66 ∷ zero_octets 11; elen = 5; tx_ctrl_len = 1 }

prepare-Arrives_example :
    Arrives with_type0 software_fcs software_fcs-IsFcs 16 buffer
      (omega arith)
      (omega arith)
      []
      none
      outgoing
      (prepare with_type0 software_fcs none outgoing)
prepare-Arrives_example =
    prepare-Arrives with_type0 software_fcs software_fcs-IsFcs 16 buffer (omega arith) (omega arith)
      [] none outgoing
      (record {
        bytes = omega arith;
        header = omega arith;
        space = omega arith;
        long = omega arith;
        short = omega arith;
      })
      (inr (inr (refl, inl refl, λ _. omega arith)))

abbrev no_field_config : SwDriverConfig
no_field_config = record { fcs_size = 0; apply_transparency = true; frame_format_size = 0 }

-- Two frames behind an octet of noise.
line_octets-wire_example :
    line_octets no_field_config 16 buffer
      ((9 ∷ [])
        ++ ((0x7e ∷ []) ++ wire ((3 ∷ 0 ∷ 65 ∷ 66 ∷ []) ∷ (3 ∷ 2 ∷ 67 ∷ 68 ∷ 69 ∷ []) ∷ [])))
      (hunting 0 (fresh []))
    ≡ waiting buffer [] (
        delivered_all buffer ((3 ∷ 0 ∷ 65 ∷ 66 ∷ []) ∷ (3 ∷ 2 ∷ 67 ∷ 68 ∷ 69 ∷ []) ∷ []) (fresh []))
line_octets-wire_example =
    line_octets-wire no_field_config 16 buffer (omega arith) (omega arith) (9 ∷ [])
      ((3 ∷ 0 ∷ 65 ∷ 66 ∷ []) ∷ (3 ∷ 2 ∷ 67 ∷ 68 ∷ 69 ∷ []) ∷ []) 0 (fresh []) (omega arith)
      (
        (omega arith, omega arith, inl (inl refl, omega arith)),
        ((omega arith, omega arith, inl (inl refl, omega arith)), tt),
      )

-- Three octets of a frame are there.
abbrev partial_frame : Frame
partial_frame = record buffer { elen = 3 }

abbrev assembling : RxState
assembling = record (fresh []) { in_frame = some partial_frame }

abbrev elen_of : Option Frame → ℕ
elen_of none = 0
elen_of (some fp) = fp.elen

on_rx-AsksSafely_example :
    AsksSafely no_field_config 16 (on_rx no_field_config 16 (some buffer) no_error assembling)
on_rx-AsksSafely_example =
    on_rx-AsksSafely no_field_config 16 (some buffer) no_error assembling (omega arith)
      (omega arith) (λ fp e. let same = ap elen_of e in omega arith)

abbrev idle_port : Port
idle_port = record { busy = false; accepts = true; busy_after = true }

abbrev busy_port : Port
busy_port = record { busy = true; accepts = false; busy_after = true }

abbrev nothing_sent : TxState
nothing_sent = record {
  raw_q = [];
  inflight = none;
  gates = [];
  released = [];
  submitted = [];
  asserted = false;
}

-- Two frames are sent, the first completes, a frame that is not committed completes too, and the
-- port aborts.
abbrev events : List TxEvent
events =
    sending idle_port busy_port 1
    ∷ sending busy_port busy_port 2
    ∷ done idle_port 1
    ∷ done idle_port 7
    ∷ aborted none
    ∷ []

tx_run-IsPipeline_example :
    IsPipeline (tx_run events nothing_sent)
    × (((tx_run events nothing_sent).asserted ≡ false) ⊎ (run_violates events nothing_sent ≡ true))
unfolding tx_step tx_send send_committed join_queue try_start_next start on_tx_done
tx_run-IsPipeline_example =
    tx_run-IsPipeline events nothing_sent (tt, (tt, (inl refl, (inr refl, (inl refl, tt)))))
      (record { ordered = refl; distinct = tt })
