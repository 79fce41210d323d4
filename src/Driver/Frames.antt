-- ===== src/Driver/Frames.antt =====
-- Frames that come over the line one after the other, behind noise.
use io_hdlc.Base.{
  ℕ, ◌^◌, ◌≤◌, false, none, List, [], ◌∷◌, ◌++◌, append_assoc, ◌≡◌, ◌∙◌, refl, sym, ap, arith,
  length, All, ◌==◌,
}
use io_hdlc.State.{Frame}
use io_hdlc.Ll.Transparency.{flag}
use io_hdlc.Driver.Configure.{SwDriverConfig}
use io_hdlc.Driver.Receive.{RxState, on_rx, new_frame, from_start}
use io_hdlc.Driver.Line.{Line, line_octet, line_octets}
use io_hdlc.Driver.Assembly.{waiting, delivered, line_octets-append}
use io_hdlc.Driver.Wire.{NoFlag, IsOnWire, one_frame}

-- The octets of frames that follow one another, each with a delimiter behind it.
abbrev pub wire : List (List ℕ) → List ℕ
wire [] = []
wire (octets ∷ frames) = octets ++ ((flag ∷ []) ++ wire frames)

-- The frames delivered one after the other.
abbrev pub delivered_all : Frame → List (List ℕ) → RxState → RxState
delivered_all blank [] st = st
delivered_all blank (octets ∷ frames) st = delivered_all blank frames (delivered blank octets st)

-- Before the first delimiter, nothing is assembled.
abbrev pub hunting : ℕ → RxState → Line
hunting last st = record {
  rx = record st { stagep = last; in_frame = none };
  armed = from_start;
  got = 0;
}

module _ (config : SwDriverConfig) (framesize : ℕ) (blank : Frame)
    (room : framesize ≤ length blank.octets) (bound : framesize ≤ 2 ^ 16) where
  noise_passes :
      (noise : List ℕ) (last : ℕ) (st : RxState)
      → NoFlag noise
      → (last' : ℕ) × (line_octets config framesize blank noise (hunting last st)
          ≡ hunting last' st)
  unfolding line_octets line_octet on_rx new_frame
  noise_passes [] last st clean = (last, refl)
  noise_passes (y ∷ noise) last st clean =
      let no_flag : (y == flag) ≡ false = ground arith in
      let (last', rest) = noise_passes noise y st clean.1 in (last', rw no_flag rest)

  opened :
      (last : ℕ) (st : RxState)
      → line_octets config framesize blank (flag ∷ []) (hunting last st) ≡ waiting blank [] st
  unfolding line_octets line_octet on_rx new_frame
  opened last st = refl

  frames_follow :
      (frames : List (List ℕ)) (st : RxState)
      → All (IsOnWire config framesize) frames
      → line_octets config framesize blank (wire frames) (waiting blank [] st)
        ≡ waiting blank [] (delivered_all blank frames st)
  unfolding line_octets
  frames_follow [] st all = refl
  frames_follow (octets ∷ frames) st all =
      let run = line_octets config framesize blank in
      ap (λ t. run t (waiting blank [] st)) (sym (append_assoc octets (flag ∷ []) (wire frames)))
      ∙ line_octets-append config framesize blank (octets ++ (flag ∷ [])) (wire frames)
          (waiting blank [] st)
      ∙ ap (run (wire frames)) (one_frame config framesize blank room bound octets st all.0)
      ∙ frames_follow frames (delivered blank octets st) all.1

  -- Whatever octets without a delimiter come first, all frames that follow an opening delimiter,
  -- each with one delimiter behind it, are delivered in their order, and the next is expected,
  -- where each fits a buffer, the framing can tell it from others, and the pool has a buffer for it.
  pub line_octets-wire :
      (noise : List ℕ) (frames : List (List ℕ)) (last : ℕ) (st : RxState)
      → NoFlag noise
      → All (IsOnWire config framesize) frames
      → line_octets config framesize blank (noise ++ ((flag ∷ []) ++ wire frames)) (hunting last st)
        ≡ waiting blank [] (delivered_all blank frames st)
  line_octets-wire noise frames last st clean all =
      let run = line_octets config framesize blank in
      let (last', passed) = noise_passes noise last st clean in
      line_octets-append config framesize blank noise ((flag ∷ []) ++ wire frames) (hunting last st)
      ∙ ap (run ((flag ∷ []) ++ wire frames)) passed
      ∙ line_octets-append config framesize blank (flag ∷ []) (wire frames) (hunting last' st)
      ∙ ap (run (wire frames)) (opened last' st)
      ∙ frames_follow frames st all
