-- ===== src/Driver/FrameFormat.antt =====
-- The receiver reads the length that the sender has written.
use io_hdlc.Base.{
  ℕ, ◌+◌, ◌*◌, ◌/◌, ◌%◌, ◌^◌, ◌≤◌, ◌<◌, bit_and, bit_or, Bool, true, false, not, ◌&&◌, ◌||◌, Option,
  none, some, List, [], ◌∷◌, ◌≡◌, ◌≢◌, ◌⊎◌, inl, inr, refl, arith, ltb, ◌==◌, if◌then◌else◌,
}
use io_hdlc.Base.Bits.{tabulated, tabulated_at}
use io_hdlc.State.{if_known}
use io_hdlc.Driver.Field.{emit_fff, rx_type0, rx_type1_first, rx_type1_second, and_then, rx_fff}
use io_hdlc.Driver.Field.RxFff.{length_known}

abbrev same : Bool → Bool → Bool
same a b = (a && b) || (not a && not b)

high_bits :
    tabulated 65536
      (λ t. same (bit_and t 0xff80 == 0) (ltb t 128) && same (bit_and t 0xf000 == 0) (ltb t 4096))
    ≡ true
unfolding tabulated
high_bits = refl

type0_octets : tabulated 128 (λ t. bit_and t 0x80 == 0) ≡ true
unfolding tabulated
type0_octets = refl

type1_octets :
    tabulated 4096 (λ t.
      let b0 = bit_or 0x80 (bit_and (t / 256) 0x0f) in
      not (b0 == 0x7e)
      && (bit_and b0 0xf0 == 0x80)
      && (bit_or (bit_and b0 0x0f * 256) (bit_and t 0xff) == t))
    ≡ true
unfolding tabulated
type1_octets = refl

-- What is read of what has been emitted, if anything has.
abbrev pub IsRead : ℕ → ℕ → ℕ → Option (List ℕ) → Type 0
IsRead size framesize total none = (size ≡ 1 × 128 ≤ total) ⊎ (size ≡ 2 × 4096 ≤ total)
IsRead size framesize total (some octets) = rx_fff size framesize octets ≡ length_known total

module _ (framesize total : ℕ) (pos : 0 < total) (fits : total < framesize)
    (small : total < 65536) where
  type0_length :
      (b0 : ℕ)
      → b0 ≡ total
      → total ≢ 0x7e
      → total < 128
      → rx_type0 framesize b0 ≡ length_known total
  unfolding rx_type0
  type0_length b0 e ne low =
      let no_flag : (total == 0x7e) ≡ false = ground arith in
      let table = tabulated_at 128 _ total type0_octets low in
      let accepted : ((bit_and total 0x80 == 0) && not (total == 0) && ltb total framesize) ≡ true =
        ground arith in
      rw (e, no_flag, accepted) refl

  type1_length :
      total < 4096
      → let b0 = bit_or 0x80 (bit_and (total / 256) 0x0f) in
        and_then (rx_type1_first b0) (rx_type1_second framesize b0 (bit_and total 0xff))
        ≡ length_known total
  unfolding rx_type1_first rx_type1_second
  type1_length low =
      let b0 = bit_or 0x80 (bit_and (total / 256) 0x0f) in
      let table = tabulated_at 4096 _ total type1_octets low in
      let no_flag : (b0 == 0x7e) ≡ false = ground arith in
      let first : (bit_and b0 0xf0 == 0x80) ≡ true = ground arith in
      let second : bit_or (bit_and b0 0x0f * 256) (bit_and total 0xff) ≡ total = ground arith in
      let accepted : (not (total == 0) && ltb total framesize) ≡ true = ground arith in
      rw (no_flag, first, second, accepted) refl

  type0-IsRead :
      total ≢ 0x7e
      → IsRead 1 framesize total
          (if not (bit_and total 0xff80 == 0) then none else some (total % 2 ^ 8 ∷ []))
  unfolding rx_fff
  type0-IsRead ne =
      let high = tabulated_at 65536 _ total high_bits small in
      if_known (IsRead 1 framesize total) (not (bit_and total 0xff80 == 0)) none
        (some (total % 2 ^ 8 ∷ [])) (λ h. inl (refl, ground arith))
        (λ h.
          let low : total < 128 = ground arith in type0_length (total % 2 ^ 8) (omega arith) ne low)

  type1-IsRead : IsRead 2 framesize total (
      if not (bit_and total 0xf000 == 0)
      then none
      else some (bit_or 0x80 (bit_and (total / 256) 0x0f) ∷ bit_and total 0xff ∷ []))
  unfolding rx_fff
  type1-IsRead =
      let high = tabulated_at 65536 _ total high_bits small in
      if_known (IsRead 2 framesize total) (not (bit_and total 0xf000 == 0)) none _
        (λ h. inr (refl, ground arith)) (λ h. type1_length (ground arith))

-- A frame format field of type 0 or 1 that is emitted is read as the length of the frame, with the
-- field and the check sequence, where that fits the buffers of the pool and, in one octet, is no
-- flag; none is emitted only for a frame that is longer than the field can hold, 127 or 4095
-- octets.
pub rx_fff-emit_fff :
    (frame_format_size fcs_size payload_len framesize : ℕ)
    → (frame_format_size ≡ 1) ⊎ (frame_format_size ≡ 2)
    → payload_len + frame_format_size + fcs_size < framesize
    → framesize ≤ 65536
    → (frame_format_size ≡ 1 → payload_len + frame_format_size + fcs_size ≢ 0x7e)
    → IsRead frame_format_size framesize
        (payload_len + frame_format_size + fcs_size)
        (emit_fff frame_format_size fcs_size payload_len)
unfolding emit_fff
rx_fff-emit_fff frame_format_size fcs_size payload_len framesize (inl one) fits bound no_flag =
    let total = payload_len + 1 + fcs_size in
    let whole : total % 2 ^ 16 ≡ total = omega arith in
    let ne : total ≢ 0x7e = λ e. no_flag one (omega arith) in
    rw (one, whole) (type0-IsRead framesize total (omega arith) (omega arith) (omega arith) ne)
rx_fff-emit_fff frame_format_size fcs_size payload_len framesize (inr two) fits bound no_flag =
    let total = payload_len + 2 + fcs_size in
    let whole : total % 2 ^ 16 ≡ total = omega arith in
    rw (two, whole) (type1-IsRead framesize total (omega arith) (omega arith) (omega arith))
