-- ===== src/Driver/Field.antt =====
-- The frame format field in src/ioHdlcswdriver.c: `s_emit_fff`, and the part of `s_on_rx` that reads
-- the field of a frame under reception.
use io_hdlc.Base.{
  ℕ, ◌+◌, ◌*◌, ◌/◌, ◌%◌, ◌^◌, bit_and, bit_or, not, ◌&&◌, Option, none, some, List, [], ◌∷◌, ltb,
  ◌==◌, if◌then◌else◌,
}
use io_hdlc.Ll.Transparency.{flag}

-- `s_emit_fff`: the octets of the field, or nothing where the length does not fit (`EMSGSIZE`).
unfoldable pub emit_fff : ℕ → ℕ → ℕ → Option (List ℕ)
emit_fff frame_format_size fcs_size payload_len =
    let total_wire_len = (payload_len + frame_format_size + fcs_size) % 2 ^ 16 in
    if frame_format_size == 1
    then (if not (bit_and total_wire_len 0xff80 == 0)
        then none
        else some (total_wire_len % 2 ^ 8 ∷ []))
    else if frame_format_size == 2
    then (if not (bit_and total_wire_len 0xf000 == 0)
        then none
        else some
            (bit_or 0x80 (bit_and (total_wire_len / 256) 0x0f) ∷ bit_and total_wire_len 0xff ∷ []))
    else some []

-- What `s_on_rx` does with an octet of the field: it takes it for a flag, discards the frame, asks
-- for the next octet, or knows the length of the frame.
pub data RxFff : Type 0 where
  delimiter discarded more : RxFff
  length_known : ℕ → RxFff

-- The only octet of a field of type 0.
unfoldable pub rx_type0 : ℕ → ℕ → RxFff
rx_type0 framesize b0 =
    if b0 == flag
    then delimiter
    else if (bit_and b0 0x80 == 0) && not (b0 == 0) && ltb b0 framesize
    then length_known b0
    else discarded

-- The first octet of a field of type 1, and the second, which is not compared with a flag.
unfoldable pub rx_type1_first : ℕ → RxFff
rx_type1_first b0 =
    if b0 == flag then delimiter else if bit_and b0 0xf0 == 0x80 then more else discarded

unfoldable pub rx_type1_second : ℕ → ℕ → ℕ → RxFff
rx_type1_second framesize b0 b1 =
    let n = bit_or (bit_and b0 0x0f * 256) b1 in
    if not (n == 0) && ltb n framesize then length_known n else discarded

-- The octets of a field of type 0 or 1, one after the other.
abbrev pub and_then : RxFff → RxFff → RxFff
and_then more next = next
and_then delimiter next = delimiter
and_then discarded next = discarded
and_then (length_known n) next = length_known n

unfoldable pub rx_fff : ℕ → ℕ → List ℕ → RxFff
unfolding rx_type0 rx_type1_first rx_type1_second
rx_fff frame_format_size framesize [] = more
rx_fff frame_format_size framesize (b0 ∷ []) =
    if frame_format_size == 1 then rx_type0 framesize b0 else rx_type1_first b0
rx_fff frame_format_size framesize (b0 ∷ b1 ∷ _) =
    if frame_format_size == 1
    then rx_type0 framesize b0
    else and_then (rx_type1_first b0) (rx_type1_second framesize b0 b1)
