-- ===== src/Driver/Exchange.antt =====
-- A frame from `drv_send_frame` of one driver to `drv_recv_frame` of another.
use io_hdlc.Base.{
  length-take, ℕ, ◌+◌, ◌-◌, ◌%◌, ◌^◌, ◌≤◌, ◌<◌, true, false, Option, none, some, List, [], ◌∷◌,
  ◌++◌, append_assoc, ◌≡◌, ◌≢◌, ◌∙◌, ◌⊎◌, inl, inr, refl, sym, ap, subst, arith, length, set, take,
  drop, IsBytes,
}
use io_hdlc.State.{Frame}
use io_hdlc.Control.{blit}
use io_hdlc.Ll.Fcs.Residue.{take-IsBytes}
use io_hdlc.Ll.Transparency.{flag, encode_octets, frame_transparent_encode}
use io_hdlc.Ll.Transparency.Encoded.{length-le-encode_octets}
use io_hdlc.Driver.Field.{rx_fff, emit_fff}
use io_hdlc.Driver.Field.RxFff.{length_known}
use io_hdlc.Driver.FrameFormat.{IsRead, rx_fff-emit_fff}
use io_hdlc.Driver.Configure.{SwDriverConfig}
use io_hdlc.Driver.Receive.{Fcs, recv_frame}
use io_hdlc.Driver.Line.{line_octets}
use io_hdlc.Driver.Assembly.{waiting}
use io_hdlc.Driver.Wire.{NoFlag, IsOnWire}
use io_hdlc.Driver.Send.{
  TxBuffer, Preparation, with_fcs, materialize_tx_frame, encode_into, prepare, on_line,
}
use io_hdlc.Driver.Send.SendError.{emsgsize, enomem}
use io_hdlc.Driver.Send.Preparation.{prepared, refused}
use io_hdlc.Driver.Buffer.{
  IsFcs, with_fcs-Covered, take-set_end, take-blit, take-blit_front, length-blit, drop-append,
  drop-IsBytes, append-IsBytes,
}
use io_hdlc.Driver.RoundTrip.{
  fresh, Returns, covered, length-covered, plain-Returns, transparent-Returns,
}
use io_hdlc.Driver.Sent.{
  Fits, IsFramed, IsField, emit_fff-IsField, rx_fff-append, no_field, field_in_front, no_front,
  materialized, not_materialized, prepare-plain, prepare-transparent, sent,
}

module _ (config : SwDriverConfig) (fcs : Fcs) (laws : IsFcs config.fcs_size fcs) (framesize : ℕ)
    (blank : Frame) (room : framesize ≤ length blank.octets) (bound : framesize < 2 ^ 16)
    (released : List Frame) (taken : Option Frame) (fp : Frame) where
  -- The frame arrives with its octets behind the field, or why it was not sent.
  abbrev pub Arrives : Preparation → Type 0
  Arrives (prepared p) =
      (body : List ℕ) × (length body ≡ fp.elen)
      × (drop config.frame_format_size body
          ≡ drop config.frame_format_size (take fp.elen fp.octets))
      × Returns body (
          recv_frame config fcs
            (line_octets config framesize blank (on_line p) (waiting blank [] (fresh released))).rx)
  Arrives (refused emsgsize) =
      ((config.frame_format_size ≡ 1) × (128 ≤ fp.elen + config.fcs_size))
      ⊎ ((config.frame_format_size ≡ 2) × (4096 ≤ fp.elen + config.fcs_size))
  Arrives (refused enomem) = taken ≡ none

  -- The octets `body` have gone over the line as they are.
  as_they_are :
      (p : TxBuffer) (body : List ℕ)
      → config.apply_transparency ≡ false
      → on_line p ≡ covered fcs body ++ (flag ∷ [])
      → length body ≡ fp.elen
      → drop config.frame_format_size body ≡ drop config.frame_format_size (take fp.elen fp.octets)
      → IsBytes body
      → Fits config framesize fp
      → IsOnWire config framesize (covered fcs body)
      → Arrives (prepared p)
  as_they_are p body clear line len same bytes h on =
      let header = h.header in
      let back =
        plain-Returns config fcs laws framesize blank room (omega arith) body released clear bytes
          (omega arith) on in
      (
        body,
        len,
        same,
        subst
            (λ (t : List ℕ). Returns body (
              recv_frame config fcs
                (line_octets config framesize blank t (waiting blank [] (fresh released))).rx))
            (sym line) back,
      )

  plain-Arrives :
      Fits config framesize fp
      → config.apply_transparency ≡ false
      → config.frame_format_size ≡ 0
      → NoFlag (covered fcs (take fp.elen fp.octets))
      → Arrives (materialize_tx_frame config fcs fp)
  plain-Arrives h clear zero_size clean =
      let body = take fp.elen fp.octets in
      let (space, short, long) : (fp.elen + config.fcs_size < length fp.octets)
          × (fp.elen + config.fcs_size < framesize)
          × (4 ≤ fp.elen + config.fcs_size) =
        (h.space, h.short, h.long) in
      let len = length-take fp.elen fp.octets (omega arith) in
      let all = length-covered config fcs laws framesize blank room (omega arith) body in
      let out = sent config fcs laws fp.octets fp.elen (omega arith) space (omega arith) in
      subst Arrives (sym (materialized config fcs fp fp.octets (no_field config fp zero_size))) (
        as_they_are _ body clear out len refl (take-IsBytes fp.elen fp.octets h.bytes) h
          (omega arith, omega arith, inl (inl zero_size, clean)))

  abbrev size : ℕ
  size = config.frame_format_size

  abbrev total : ℕ
  total = fp.elen + config.fcs_size

  -- What the receiver makes of the field.
  field-IsRead :
      Fits config framesize fp
      → (size ≡ 1) ⊎ (size ≡ 2)
      → (size ≡ 1 → total ≢ 0x7e)
      → IsRead size framesize total
          (emit_fff size config.fcs_size ((fp.elen + 2 ^ 32 - size) % 2 ^ 32))
  field-IsRead h kind no_flag =
      let (header, short) : (size + 2 ≤ fp.elen) × (total < framesize) = (h.header, h.short) in
      let sum : fp.elen - size + size + config.fcs_size ≡ total = omega arith in
      let n : (fp.elen + 2 ^ 32 - size) % 2 ^ 32 ≡ fp.elen - size = omega arith in
      let fits : fp.elen - size + size + config.fcs_size < framesize = omega arith in
      let read =
        rx_fff-emit_fff size config.fcs_size (fp.elen - size) framesize kind fits (omega arith)
          (λ one t. no_flag one (omega arith)) in
      subst (λ (k : ℕ). IsRead size framesize total (emit_fff size config.fcs_size k)) (sym n)
        (subst (λ (k : ℕ). IsRead size framesize k (emit_fff size config.fcs_size (fp.elen - size)))
          sum read)

  -- A field in front of the octets, if one is emitted.
  field-Arrives :
      (o : Option (List ℕ))
      → emit_fff size config.fcs_size ((fp.elen + 2 ^ 32 - size) % 2 ^ 32) ≡ o
      → IsRead size framesize total o
      → IsField size o
      → size ≢ 0
      → Fits config framesize fp
      → config.apply_transparency ≡ false
      → (size ≡ 1) ⊎ (size ≡ 2)
      → Arrives (materialize_tx_frame config fcs fp)
  field-Arrives none e read field ne h clear kind =
      subst Arrives (sym (not_materialized config fcs fp (no_front config fp ne e))) read
  field-Arrives (some field) e read (len, small) ne h clear kind =
      let (header, short, space, long) : (size + 2 ≤ fp.elen)
          × (total < framesize)
          × (total < length fp.octets)
          × (4 ≤ total) =
        (h.header, h.short, h.space, h.long) in
      let buf = blit fp.octets 0 field in
      let room_kept = length-blit fp.octets 0 field in
      let body = take fp.elen buf in
      let behind = drop (length field) (take fp.elen fp.octets) in
      let kind_len : (length field ≡ 1) ⊎ (length field ≡ 2) = rw len kind in
      let body_is : body ≡ field ++ behind =
        take-blit_front fp.octets field fp.elen kind_len (omega arith) (omega arith) in
      let count = length-take fp.elen buf (omega arith) in
      let all = length-covered config fcs laws framesize blank room (omega arith) body in
      let out = sent config fcs laws buf fp.elen (omega arith) (omega arith) (omega arith) in
      let same : drop size body ≡ drop size (take fp.elen fp.octets) =
        ap (drop size) body_is
        ∙ ap (λ t. drop t (field ++ behind)) (sym len)
        ∙ drop-append field behind
        ∙ ap (λ t. drop t (take fp.elen fp.octets)) len in
      let bytes : IsBytes body = subst IsBytes (sym body_is) (
        append-IsBytes field behind small (
          drop-IsBytes (length field) (take fp.elen fp.octets)
            (take-IsBytes fp.elen fp.octets h.bytes))) in
      let known : rx_fff size framesize (covered fcs body)
          ≡ length_known (length (covered fcs body)) =
        ap (λ t. rx_fff size framesize (t ++ fcs.compute body)) body_is
        ∙ ap (rx_fff size framesize) (append_assoc field behind (fcs.compute body))
        ∙ rx_fff-append size framesize total field (behind ++ fcs.compute body) kind len read
        ∙ ap length_known (omega arith) in
      subst Arrives (sym (materialized config fcs fp buf (field_in_front config fp ne field e))) (
        as_they_are _ body clear out count same bytes h
          (omega arith, omega arith, inr (clear, kind, known)))

  -- Encoded octets in a buffer of their own.
  encoded-Arrives :
      (o : Option Frame)
      → taken ≡ o
      → ((nfp : Frame) → taken ≡ some nfp → framesize ≤ length nfp.octets)
      → Fits config framesize fp
      → config.apply_transparency ≡ true
      → size ≡ 0
      → length (encode_octets (covered fcs (take fp.elen fp.octets))).0 < framesize
      → Arrives (encode_into o (covered fcs (take fp.elen fp.octets)))
  unfolding encode_into frame_transparent_encode
  encoded-Arrives none e buffers h applied zero_size short = e
  encoded-Arrives (some nfp) e buffers h applied zero_size short =
      let (space, fits, long) : (total < length fp.octets) × (total < framesize) × (4 ≤ total) =
        (h.space, h.short, h.long) in
      let body = take fp.elen fp.octets in
      let wire = (encode_octets (covered fcs body)).0 in
      let count = length-take fp.elen fp.octets (omega arith) in
      let all = length-covered config fcs laws framesize blank room (omega arith) body in
      let longer = length-le-encode_octets (covered fcs body) in
      let buffer = buffers nfp e in
      let kept = length-blit nfp.octets 0 wire in
      let elen : length wire % 2 ^ 16 ≡ length wire = omega arith in
      let tx_len : (length wire % 2 ^ 16 + 1) % 2 ^ 16 ≡ length wire + 1 = omega arith in
      let line : take ((length wire % 2 ^ 16 + 1) % 2 ^ 16)
            (set (blit nfp.octets 0 wire) (length wire % 2 ^ 16) flag)
          ≡ wire ++ (flag ∷ []) =
        ap (λ t. take t (set (blit nfp.octets 0 wire) (length wire % 2 ^ 16) flag)) tx_len
        ∙ ap (λ t. take (length wire + 1) (set (blit nfp.octets 0 wire) t flag)) elen
        ∙ take-set_end (length wire) (blit nfp.octets 0 wire) flag (omega arith)
        ∙ ap (λ t. t ++ (flag ∷ []))
            (ap (λ t. take t (blit nfp.octets 0 wire)) (omega arith)
              ∙ take-blit nfp.octets 0 wire (omega arith)) in
      let back =
        transparent-Returns config fcs laws framesize blank room (omega arith) body released applied
          zero_size (take-IsBytes fp.elen fp.octets h.bytes) (omega arith) short (omega arith) in
      (
        body,
        count,
        refl,
        subst
            (λ (t : List ℕ). Returns body (
              recv_frame config fcs
                (line_octets config framesize blank t (waiting blank [] (fresh released))).rx))
            (sym line) back,
      )

  transparent-Arrives :
      Fits config framesize fp
      → config.apply_transparency ≡ true
      → size ≡ 0
      → length (encode_octets (covered fcs (take fp.elen fp.octets))).0 < framesize
      → ((nfp : Frame) → taken ≡ some nfp → framesize ≤ length nfp.octets)
      → Arrives (prepare config fcs taken fp)
  transparent-Arrives h applied zero_size short buffers =
      let (space, fits) : (total < length fp.octets) × (total < framesize) = (h.space, h.short) in
      let c = with_fcs-Covered config fcs laws fp.octets fp.elen (omega arith) in
      let r = with_fcs config fcs fp.octets fp.elen in
      let count = c.count in
      let len : r.1 % 2 ^ 16 ≡ r.1 = omega arith in
      let whole : take (r.1 % 2 ^ 16) r.0 ≡ covered fcs (take fp.elen fp.octets) =
        ap (λ t. take t r.0) len ∙ c.octets in
      let step : prepare config fcs taken fp
          ≡ encode_into taken (covered fcs (take fp.elen fp.octets)) =
        prepare-transparent config fcs fp taken fp.octets applied (no_field config fp zero_size)
        ∙ ap (encode_into taken) whole in
      subst Arrives (sym step) (encoded-Arrives taken refl buffers h applied zero_size short)

  -- Between drivers of the same configuration, with check sequence functions that fit its size, a
  -- frame that fits the buffers, and that the framing can tell from others, arrives: the octets that
  -- are sent for it, put on the line behind an opening delimiter, are delivered and accepted, and what
  -- is returned has the octets of the frame behind the format field and their number. Otherwise the
  -- field cannot hold the length, or the pool has no frame to encode into.
  pub prepare-Arrives :
      Fits config framesize fp
      → IsFramed config fcs framesize taken fp
      → Arrives (prepare config fcs taken fp)
  prepare-Arrives h (inl (applied, zero_size, short, buffers)) =
      transparent-Arrives h applied zero_size short buffers
  prepare-Arrives h (inr (inl (clear, zero_size, clean))) =
      subst Arrives (sym (prepare-plain config fcs fp taken clear))
        (plain-Arrives h clear zero_size clean)
  prepare-Arrives h (inr (inr (clear, kind, no_flag))) =
      let emitted = emit_fff size config.fcs_size ((fp.elen + 2 ^ 32 - size) % 2 ^ 32) in
      subst Arrives (sym (prepare-plain config fcs fp taken clear)) (
        field-Arrives emitted refl (field-IsRead h kind no_flag)
          (emit_fff-IsField size config.fcs_size ((fp.elen + 2 ^ 32 - size) % 2 ^ 32) kind)
          (ground arith) h clear kind)
