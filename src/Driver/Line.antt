-- ===== src/Driver/Line.antt =====
-- A port that receives, as include/ioHdlcstreamport.h describes one: it puts the octets that come
-- over the line where the last `rx_submit` asked for them, and calls `s_on_rx` after the last.
use io_hdlc.Base.{ℕ, ◌+◌, Option, none, some, List, [], ◌∷◌, set, ◌==◌, if◌then◌else◌}
use io_hdlc.State.{Frame}
use io_hdlc.Driver.Configure.{SwDriverConfig}
use io_hdlc.Driver.Receive.{RxTarget, RxSubmit, RxState, RxStep, on_rx}
use io_hdlc.Driver.Receive.RxTarget.{staged, buffer}
use io_hdlc.Driver.Receive.RxError.{no_error}

-- The driver, the transfer that is armed and the number of its octets that are in place.
pub record Line : Type 0 where
  pub rx : RxState
  pub armed : RxSubmit
  pub got : ℕ

-- An octet is put in place.
unfoldable pub put_octet : RxTarget → ℕ → ℕ → RxState → RxState
put_octet staged got octet st = record st { stagep = octet }
put_octet (buffer k) got octet st = elim st.in_frame [
  | none ↦ st
  | some fp ↦ record st { in_frame = some (record fp { octets = set fp.octets (k + got) octet }) }
]

-- The transfer that a call of `s_on_rx` arms, if it does.
abbrev pub rearmed : Line → RxStep → Line
rearmed line step = elim step.submit [
  | none ↦ record { rx = step.state; armed = line.armed; got = 0 }
  | some submit ↦ record { rx = step.state; armed = submit; got = 0 }
]

-- An octet comes: `taken` is what the pool returns if a frame is taken for it.
unfoldable pub line_octet : SwDriverConfig → ℕ → Option Frame → ℕ → Line → Line
unfolding put_octet
line_octet config framesize taken octet line =
    let rx = put_octet line.armed.target line.got octet line.rx in
    if line.got + 1 == line.armed.n
    then rearmed line (on_rx config framesize taken no_error rx)
    else record line { rx = rx; got = line.got + 1 }

-- Octets come one after the other, while the pool has frames with the buffer of `blank`.
unfoldable pub line_octets : SwDriverConfig → ℕ → Frame → List ℕ → Line → Line
line_octets config framesize blank [] line = line
line_octets config framesize blank (octet ∷ octets) line =
    line_octets config framesize blank octets (line_octet config framesize (some blank) octet line)
