-- ===== src/Station/Enqueue.antt =====
-- A write and the transmit window.
use io_hdlc.Base.{ℕ, List, [], ◌∷◌, ◌++◌, ◌≡◌}
use io_hdlc.State.{Framing, Station, Frame}
use io_hdlc.Control.RoundTrip.{IsFraming, HasRoom}
use io_hdlc.Receive.Window.{Stands}
use io_hdlc.Station.Write.{i_frame_of, Writing, Pass}
use io_hdlc.Station.Write.Pass.{ended, goes_on}
use io_hdlc.Station.Fragment.{octets_of}

-- A frame as `hdlcTakeFrame` returns it, with room for the header.
pub record IsTaken (f : Framing) (fp : Frame) : Type 0 where
  pub unmarked : fp.tx_ctrl_len ≡ 0
  pub space : HasRoom f fp

module _ (f : Framing) (framing : IsFraming f) where
  -- What a pass that has a frame leads to, where the frames `fresh` were never sent: the frame, with
  -- the next octets of the vectors, waits behind them, or they are as they were.
  abbrev pub PassUp : Frame → Writing → List Frame → Pass → Type 0
  PassUp fp w fresh (ended result last) = Stands f fresh last.link
  PassUp fp w fresh (goes_on next) =
      (info : List ℕ) × (info ++ octets_of next.iovs ≡ octets_of w.iovs)
      × Stands f (fresh ++ (i_frame_of w.link.s w.link.p fp info ∷ [])) next.link
