-- ===== src/Driver/RoundTrip.antt =====
-- What one driver sends, another receives: from `drv_send_frame` over the line to `drv_recv_frame`.
use io_hdlc.Base.{
  ℕ, ◌+◌, ◌-◌, ◌%◌, ◌^◌, ◌≤◌, ◌<◌, bit_and, true, false, not, ◌||◌, Option, none, some, List, [],
  ◌∷◌, ◌++◌, append_assoc, ◌≡◌, ◌∙◌, ◌⊎◌, inl, inr, refl, sym, ap, subst, arith, length,
  length-append, get_or, take, drop, IsBytes, ◌==◌,
}
use io_hdlc.State.{Frame}
use io_hdlc.Ll.Transparency.{
  flag, encode_octets, frame_transparent_encode, frame_transparent_decode,
}
use io_hdlc.Base.Bits.{tabulated, tabulated_at}
use io_hdlc.Ll.Transparency.Encoded.{encode_octets_bounds}
use io_hdlc.Ll.Transparency.RoundTrip.{frame_transparent_decode-frame_transparent_encode}
use io_hdlc.Driver.Field.{rx_fff, rx_type0, rx_type1_first, rx_type1_second}
use io_hdlc.Driver.Field.RxFff.{length_known}
use io_hdlc.Driver.Configure.{SwDriverConfig}
use io_hdlc.Driver.Receive.{
  Fcs, RxState, declared_len, decoded, is_accepted, payload, recv_loop, recv_frame,
}
use io_hdlc.Driver.Line.{line_octets}
use io_hdlc.Driver.Assembly.{overwrite, filled, waiting, delivered, get_or-overwrite}
use io_hdlc.Driver.Wire.{IsOnWire, one_frame}
use io_hdlc.Driver.Buffer.{IsFcs, take-overwrite, overwrite-append}

-- A driver that has nothing to hand over.
abbrev pub fresh : List Frame → RxState
fresh released = record {
  stagep = 0;
  in_frame = none;
  recept_q = [];
  recept_sem = 0;
  released = released;
}

-- `drv_recv_frame` returns a frame with these octets.
abbrev pub Returns : List ℕ → Option Frame × RxState → Type 0
Returns body (result, rx) =
    (g : Frame) × (result ≡ some g) × (g.elen ≡ length body) × (take g.elen g.octets ≡ body)

-- The high bit tells a field of type 1 from one of type 0.
high_bit : tabulated 256 (λ b. not (bit_and b 0xf0 == 0x80) || not (bit_and b 0x80 == 0)) ≡ true
unfolding tabulated
high_bit = refl

-- The length that was read of a field is the one that it declares.
declared_len-rx_fff :
    (size framesize n b0 b1 : ℕ) (octets xs : List ℕ)
    → get_or octets 0 0 ≡ b0
    → get_or octets 1 0 ≡ b1
    → b0 < 256
    → rx_fff size framesize (b0 ∷ b1 ∷ xs) ≡ length_known n
    → declared_len octets ≡ n
unfolding rx_fff declared_len rx_type0 rx_type1_first rx_type1_second
declared_len-rx_fff size framesize n b0 b1 octets xs e0 e1 byte known =
    let table = tabulated_at 256 _ b0 high_bit byte in rw (e0, e1) (ground arith)

prefix : (xs ys buf : List ℕ) → take (length (xs ++ ys)) buf ≡ xs ++ ys → take (length xs) buf ≡ xs
prefix [] ys buf h = refl
prefix (x ∷ xs) ys [] h = cc
prefix (x ∷ xs) ys (y ∷ buf) h = let rest = prefix xs ys buf (cc) in cc

-- Octets with their check sequence behind them.
abbrev pub covered : Fcs → List ℕ → List ℕ
covered fcs body = body ++ fcs.compute body

module _ (config : SwDriverConfig) (fcs : Fcs) (laws : IsFcs config.fcs_size fcs) (framesize : ℕ)
    (blank : Frame) (room : framesize ≤ length blank.octets) (bound : framesize ≤ 2 ^ 16) where
  pub length-covered : (body : List ℕ) → length (covered fcs body) ≡ length body + config.fcs_size
  length-covered body =
      length-append body (fcs.compute body) ∙ ap (λ t. length body + t) (laws.counted body)

  is_accepted_lem :
      (body : List ℕ) (g : Frame)
      → IsBytes body
      → g.elen ≡ length (covered fcs body)
      → take (length (covered fcs body)) g.octets ≡ covered fcs body
      → (config.frame_format_size ≡ 0) ⊎ (declared_len g.octets ≡ length (covered fcs body))
      → is_accepted config fcs g ≡ true
  unfolding is_accepted
  is_accepted_lem body g bytes len octets field =
      let passes : fcs.check (covered fcs body) ≡ true = laws.passes body bytes in
      let checked : fcs.check (take g.elen g.octets) ≡ true = rw (len, octets) passes in
      elim field [ inl e ↦ rw checked (ground arith) | inr e ↦ rw checked (ground arith) ]

  -- A frame whose octets pass the checks is returned without its check sequence.
  accepted-Returns :
      (body : List ℕ) (f : Frame) (rx : RxState)
      → rx.recept_sem ≡ 1
      → rx.recept_q ≡ f ∷ []
      → IsBytes body
      → length (covered fcs body) < 2 ^ 16
      → (decoded config f).elen ≡ length (covered fcs body)
      → take (length (covered fcs body)) (decoded config f).octets ≡ covered fcs body
      → (config.frame_format_size ≡ 0)
        ⊎ (declared_len (decoded config f).octets ≡ length (covered fcs body))
      → Returns body (recv_frame config fcs rx)
  unfolding recv_frame recv_loop
  accepted-Returns body f rx one only bytes small len octets field =
      let g = decoded config f in
      let all = length-covered body in
      let count : (g.elen + 2 ^ 16 - config.fcs_size) % 2 ^ 16 ≡ length body = omega arith in
      let accepted = is_accepted_lem body g bytes len octets field in
      rw (one, only, accepted)
        (
          payload config g,
          refl,
          count,
          ap (λ t. take t g.octets) count ∙ prefix body (fcs.compute body) g.octets (octets),
        )

  -- The field of a frame on the line declares its length.
  field_declares :
      (body zs : List ℕ)
      → 2 ≤ length body
      → IsBytes body
      → length (covered fcs body) ≤ length blank.octets
      → config.apply_transparency ≡ false
      → IsOnWire config framesize (covered fcs body)
      → (config.frame_format_size ≡ 0)
        ⊎ (declared_len (overwrite blank.octets (covered fcs body ++ zs))
            ≡ length (covered fcs body))
  field_declares [] zs two bytes h clear on = absurd (omega arith)
  field_declares (c0 ∷ []) zs two bytes h clear on = absurd (omega arith)
  field_declares (c0 ∷ c1 ∷ cs) zs two bytes h clear (long, fits, inl (inl zero_size, clean)) =
      inl zero_size
  field_declares (c0 ∷ c1 ∷ cs) zs two bytes h clear (long, fits, inl (inr applied, clean)) =
      absurd (ground arith)
  field_declares (c0 ∷ c1 ∷ cs) zs two bytes h clear (long, fits, inr (_, _, known)) =
      let xs = cs ++ fcs.compute (c0 ∷ c1 ∷ cs) in
      let octets = overwrite blank.octets (c0 ∷ c1 ∷ (xs ++ zs)) in
      inr (
        declared_len-rx_fff config.frame_format_size framesize (length (c0 ∷ c1 ∷ xs)) c0 c1 octets
          xs (get_or-overwrite blank.octets [] (c1 ∷ (xs ++ zs)) 0 c0 refl (omega arith))
          (get_or-overwrite blank.octets (c0 ∷ []) (xs ++ zs) 1 c1 refl (omega arith)) bytes.0
          known)

  -- The octets of a frame without transparency, over the line.
  pub plain-Returns :
      (body : List ℕ) (released : List Frame)
      → config.apply_transparency ≡ false
      → IsBytes body
      → 2 ≤ length body
      → IsOnWire config framesize (covered fcs body)
      → Returns body (
          recv_frame config fcs
            (line_octets config framesize blank
              (covered fcs body ++ (flag ∷ []))
              (waiting blank [] (fresh released))).rx)
  unfolding decoded
  plain-Returns body released clear bytes two (long, fits, framing) =
      let octets = covered fcs body in
      let f = filled blank (octets ++ (flag ∷ [])) (length octets) in
      let same : decoded config f ≡ f = rw clear refl in
      rw (one_frame config framesize blank room bound octets (fresh released) (long, fits, framing))
        (accepted-Returns body f (waiting blank [] (delivered blank octets (fresh released))).rx
          refl refl bytes (omega arith) (ap (λ t. t.elen) same)
          (ap (λ t. take (length octets) t.octets) same
            ∙ take-overwrite blank.octets octets (flag ∷ []) (omega arith))
          (subst
            (λ (t : Frame).
              (config.frame_format_size ≡ 0) ⊎ (declared_len t.octets ≡ length octets))
            (sym same)
            (field_declares body (flag ∷ []) two bytes (omega arith) clear (long, fits, framing))))

  -- The encoded octets of a frame with transparency, over the line.
  pub transparent-Returns :
      (body : List ℕ) (released : List Frame)
      → config.apply_transparency ≡ true
      → config.frame_format_size ≡ 0
      → IsBytes body
      → let wire = (encode_octets (covered fcs body)).0 in
        4 ≤ length wire
        → length wire < framesize
        → length (covered fcs body) < 2 ^ 16
        → Returns body (
            recv_frame config fcs
              (line_octets config framesize blank
                (wire ++ (flag ∷ []))
                (waiting blank [] (fresh released))).rx)
  unfolding decoded frame_transparent_encode
  transparent-Returns body released applied zero_size bytes long fits small =
      let wire = (encode_octets (covered fcs body)).0 in
      let f = filled blank (wire ++ (flag ∷ [])) (length wire) in
      let rest = (flag ∷ []) ++ drop (length (wire ++ (flag ∷ []))) blank.octets in
      let grown = length-append wire (flag ∷ []) in
      let clean = (encode_octets_bounds (covered fcs body)).0 in
      let buffer : f.octets ≡ wire ++ rest =
        overwrite-append blank.octets (wire ++ (flag ∷ [])) (omega arith)
        ∙ append_assoc wire (flag ∷ []) (drop (length (wire ++ (flag ∷ []))) blank.octets) in
      let there =
        subst
          (λ (k : ℕ).
            let r = frame_transparent_decode (wire ++ rest) k in
            (r.1 ≡ length (covered fcs body)) × (take r.1 r.0 ≡ covered fcs body))
          (let whole : length wire % 2 ^ 16 ≡ length wire = omega arith in whole)
          (frame_transparent_decode-frame_transparent_encode (covered fcs body) rest
            (omega arith)) in
      let result = frame_transparent_decode f.octets f.elen in
      let back : (result.1 ≡ length (covered fcs body))
          × (take result.1 result.0 ≡ covered fcs body) =
        rw buffer there in
      let same : decoded config f ≡ record f { octets = result.0; elen = result.1 } =
        rw applied refl in
      rw
        (one_frame config framesize blank room bound wire (fresh released)
          (long, fits, inl (inr applied, clean)))
        (accepted-Returns body f (waiting blank [] (delivered blank wire (fresh released))).rx refl
          refl bytes small (ap (λ t. t.elen) same ∙ back.0)
          (ap (λ t. take (length (covered fcs body)) t.octets) same
            ∙ ap (λ t. take t result.0) (sym back.0)
            ∙ back.1)
          (inl zero_size))
