-- ===== src/Driver/Sent.antt =====
-- The octets that `drv_send_frame` puts on the line.
use io_hdlc.Base.{
  ℕ, ◌+◌, ◌-◌, ◌/◌, ◌%◌, ◌^◌, ◌≤◌, ◌<◌, bit_and, bit_or, true, false, not, Option, none, some, List,
  [], ◌∷◌, ◌++◌, ◌≡◌, ◌≢◌, ◌∙◌, ◌⊎◌, inl, inr, refl, ap, arith, length, set, take, IsBytes, ltb,
  ◌==◌, ltb→lt,
}
use io_hdlc.Base.Bits.{tabulated, tabulated_at, and_mask}
use io_hdlc.State.{Frame, if-elim}
use io_hdlc.Control.{blit}
use io_hdlc.Ll.Transparency.{flag, encode_octets}
use io_hdlc.Driver.Field.{rx_fff, emit_fff, rx_type0}
use io_hdlc.Driver.Field.RxFff.{length_known}
use io_hdlc.Driver.Configure.{SwDriverConfig}
use io_hdlc.Driver.Receive.{Fcs}
use io_hdlc.Driver.Wire.{NoFlag}
use io_hdlc.Driver.Send.{with_field, with_fcs, materialize_tx_frame, encode_into, prepare}
use io_hdlc.Driver.Send.SendError.{emsgsize}
use io_hdlc.Driver.Send.Preparation.{prepared, refused}
use io_hdlc.Driver.Buffer.{IsFcs, with_fcs-Covered, take-set_end}
use io_hdlc.Driver.RoundTrip.{covered}

-- A frame that fits: an address, a control field, room for the check sequence and a delimiter.
pub record Fits (config : SwDriverConfig) (framesize : ℕ) (fp : Frame) : Type 0 where
  pub bytes : IsBytes fp.octets
  pub header : config.frame_format_size + 2 ≤ fp.elen
  pub space : fp.elen + config.fcs_size < length fp.octets
  pub long : 4 ≤ fp.elen + config.fcs_size
  pub short : fp.elen + config.fcs_size < framesize

-- What tells the frames on the line apart.
abbrev pub IsFramed : SwDriverConfig → Fcs → ℕ → Option Frame → Frame → Type 0
IsFramed config fcs framesize taken fp =
    ((config.apply_transparency ≡ true)
      × (config.frame_format_size ≡ 0)
      × (length (encode_octets (covered fcs (take fp.elen fp.octets))).0 < framesize)
      × ((nfp : Frame) → taken ≡ some nfp → framesize ≤ length nfp.octets))
    ⊎ (((config.apply_transparency ≡ false)
          × (config.frame_format_size ≡ 0)
          × NoFlag (covered fcs (take fp.elen fp.octets)))
        ⊎ ((config.apply_transparency ≡ false)
            × ((config.frame_format_size ≡ 1) ⊎ (config.frame_format_size ≡ 2))
            × (config.frame_format_size ≡ 1 → fp.elen + config.fcs_size ≢ 0x7e)))

abbrev pub IsField : ℕ → Option (List ℕ) → Type 0
IsField size none = Unit
IsField size (some field) = (length field ≡ size) × IsBytes field

high_octets : tabulated 16 (λ q. ltb (bit_or 0x80 q) 256) ≡ true
unfolding tabulated
high_octets = refl

pub emit_fff-IsField :
    (size fcs_size n : ℕ) → (size ≡ 1) ⊎ (size ≡ 2) → IsField size (emit_fff size fcs_size n)
unfolding emit_fff
emit_fff-IsField size fcs_size n (inl one) =
    let total = (n + 1 + fcs_size) % 2 ^ 16 in
    rw one (
      if-elim (IsField 1) (not (bit_and total 0xff80 == 0)) none (some (total % 2 ^ 8 ∷ [])) tt
        (refl, (omega arith, tt)))
emit_fff-IsField size fcs_size n (inr two) =
    let total = (n + 2 + fcs_size) % 2 ^ 16 in
    let low = and_mask 8 total in
    let high = and_mask 4 (total / 256) in
    let high_small : bit_and (total / 256) 0x0f < 16 = omega arith in
    let first : bit_or 0x80 (bit_and (total / 256) 0x0f) < 256 =
      ltb→lt _ _ (tabulated_at 16 _ (bit_and (total / 256) 0x0f) high_octets high_small) in
    rw two (
      if-elim (IsField 2) (not (bit_and total 0xf000 == 0)) none
        (some (bit_or 0x80 (bit_and (total / 256) 0x0f) ∷ bit_and total 0xff ∷ [])) tt
        (refl, (first, (omega arith, tt))))

pub rx_fff-append :
    (size framesize n : ℕ) (field more : List ℕ)
    → (size ≡ 1) ⊎ (size ≡ 2)
    → length field ≡ size
    → rx_fff size framesize field ≡ length_known n
    → rx_fff size framesize (field ++ more) ≡ length_known n
unfolding rx_fff
rx_fff-append size framesize n [] more s len h = absurd (ground arith)
rx_fff-append size framesize n (a ∷ []) [] s len h = h
rx_fff-append size framesize n (a ∷ []) (b ∷ more) (inl one) len h =
    let field : rx_type0 framesize a ≡ length_known n = rw one at h in rw (one, field) refl
rx_fff-append size framesize n (a ∷ []) (b ∷ more) (inr two) len h = absurd (omega arith)
rx_fff-append size framesize n (a ∷ b ∷ field) more s len h = h

pub no_field :
    (config : SwDriverConfig) (fp : Frame)
    → config.frame_format_size ≡ 0
    → with_field config fp ≡ some fp.octets
unfolding with_field
no_field config fp e =
    let zero_size : (config.frame_format_size == 0) ≡ true = ground arith in rw zero_size refl

module _ (config : SwDriverConfig) (fp : Frame) (ne : config.frame_format_size ≢ 0) where
  abbrev pub emitted : Option (List ℕ)
  emitted =
      emit_fff config.frame_format_size config.fcs_size
        ((fp.elen + 2 ^ 32 - config.frame_format_size) % 2 ^ 32)

  pub field_in_front :
      (field : List ℕ) → emitted ≡ some field → with_field config fp ≡ some (blit fp.octets 0 field)
  unfolding with_field
  field_in_front field e =
      let some_size : (config.frame_format_size == 0) ≡ false = ground arith in
      rw (some_size, e) refl

  pub no_front : emitted ≡ none → with_field config fp ≡ none
  unfolding with_field
  no_front e =
      let some_size : (config.frame_format_size == 0) ≡ false = ground arith in
      rw (some_size, e) refl

module _ (config : SwDriverConfig) (fcs : Fcs) (fp : Frame) where
  pub materialized :
      (buf : List ℕ)
      → with_field config fp ≡ some buf
      → materialize_tx_frame config fcs fp ≡ (
          let r = with_fcs config fcs buf fp.elen in
          prepared (record { octets = set r.0 r.1 flag; tx_len = (r.1 + 1) % 2 ^ 16 }))
  unfolding materialize_tx_frame
  materialized buf e = rw (materialize_tx_frame, e) refl

  pub not_materialized :
      with_field config fp ≡ none → materialize_tx_frame config fcs fp ≡ refused emsgsize
  unfolding materialize_tx_frame
  not_materialized e = rw (materialize_tx_frame, e) refl

  pub prepare-plain :
      (taken : Option Frame)
      → config.apply_transparency ≡ false
      → prepare config fcs taken fp ≡ materialize_tx_frame config fcs fp
  unfolding prepare
  prepare-plain taken e = simp e

  pub prepare-transparent :
      (taken : Option Frame) (buf : List ℕ)
      → config.apply_transparency ≡ true
      → with_field config fp ≡ some buf
      → prepare config fcs taken fp
        ≡ (let r = with_fcs config fcs buf fp.elen in encode_into taken (take (r.1 % 2 ^ 16) r.0))
  unfolding prepare
  prepare-transparent taken buf e f = simp (e, f)

module _ (config : SwDriverConfig) (fcs : Fcs) (laws : IsFcs config.fcs_size fcs) where
  -- The octets of a buffer go out with their check sequence and a delimiter.
  pub sent :
      (buf : List ℕ) (n : ℕ)
      → n ≤ length buf
      → n + config.fcs_size < length buf
      → n + config.fcs_size + 1 < 2 ^ 16
      → let r = with_fcs config fcs buf n in
        take ((r.1 + 1) % 2 ^ 16) (set r.0 r.1 flag) ≡ covered fcs (take n buf) ++ (flag ∷ [])
  sent buf n inside space small =
      let r = with_fcs config fcs buf n in
      let c = with_fcs-Covered config fcs laws buf n (omega arith) in
      let count = c.count in
      let size = c.size in
      let len : (r.1 + 1) % 2 ^ 16 ≡ r.1 + 1 = omega arith in
      ap (λ t. take t (set r.0 r.1 flag)) len
      ∙ take-set_end r.1 r.0 flag (omega arith)
      ∙ ap (λ t. t ++ (flag ∷ [])) c.octets
