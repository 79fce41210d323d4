-- ===== src/Ll/Transparency.antt =====
-- src/ioHdlcll.c, the transparency encoding of a frame. The destination of an encoding is another
-- frame; the software driver decodes a frame in place, so that decoding is a loop over one array.
pub mod RoundTrip
pub mod Encoded
use io_hdlc.Base.{
  ℕ, zero, suc, ◌+◌, ◌%◌, ◌^◌, bit_xor, Bool, true, false, ◌||◌, List, [], ◌∷◌, length, get_or, set,
  ◌==◌, ◌≡◌, refl,
}

abbrev pub flag : ℕ
flag = 0x7e

abbrev pub ctlesc : ℕ
ctlesc = 0x7d

abbrev pub tmask : ℕ
tmask = 0x20

abbrev pub is_special : ℕ → Bool
is_special octet = flag == octet || ctlesc == octet

-- The loop of `ioHdlcFrameTransparentEncode` over `srcbuf[0..elen)`: the octets written, and
-- whether one was escaped.
unfoldable pub encode_octets : List ℕ → List ℕ × Bool
encode_octets [] = ([], false)
encode_octets (octet ∷ srcbuf) =
    let (dstbuf, encoded) = encode_octets srcbuf in
    elim (is_special octet) [
      | true ↦ (ctlesc ∷ bit_xor octet tmask ∷ dstbuf, true)
      | false ↦ (octet ∷ dstbuf, encoded)
    ]

-- `ioHdlcFrameTransparentEncode`: the destination's octets, its `elen` and the value returned.
unfoldable pub frame_transparent_encode :
    List ℕ → record { octets : List ℕ; elen : ℕ; encoded : Bool }
frame_transparent_encode src =
    let (dstbuf, encoded) = encode_octets src in
    record { octets = dstbuf; elen = length dstbuf % 2 ^ 16; encoded = encoded }

-- The loop of `ioHdlcFrameTransparentDecode` with `dst` and `src` one frame: `left` is `elen - i`,
-- `from` and `to` are the indices that `srcbuf` and `dstbuf` point to. An escape at the last octet
-- still reads the octet behind it.
unfoldable pub decode_loop : ℕ → ℕ → ℕ → List ℕ → List ℕ × ℕ
decode_loop zero from to buf = (buf, to)
decode_loop (suc zero) from to buf = elim (ctlesc == get_or buf from 0) [
  | true ↦ (set buf to (bit_xor (get_or buf (from + 1) 0) tmask), to + 1)
  | false ↦ (set buf to (get_or buf from 0), to + 1)
]
decode_loop (suc (suc left)) from to buf = elim (ctlesc == get_or buf from 0) [
  | true ↦
      decode_loop left (from + 2) (to + 1) (set buf to (bit_xor (get_or buf (from + 1) 0) tmask))
  | false ↦ decode_loop (suc left) (from + 1) (to + 1) (set buf to (get_or buf from 0))
]

-- `ioHdlcFrameTransparentDecode(fp, fp)`: the frame's octets and its new `elen`. Both are
-- a `uint16_t`.
unfoldable pub frame_transparent_decode : List ℕ → ℕ → List ℕ × ℕ
frame_transparent_decode frame elen =
    let (buf, to) = decode_loop (elen % 2 ^ 16) 0 0 frame in (buf, to % 2 ^ 16)

encode_sample : encode_octets (1 ∷ 0x7e ∷ 0x7d ∷ []) ≡ (1 ∷ 0x7d ∷ 0x5e ∷ 0x7d ∷ 0x5d ∷ [], true)
unfolding encode_octets
encode_sample = refl

decode_sample :
    frame_transparent_decode (1 ∷ 0x7d ∷ 0x5e ∷ 0x7d ∷ 0x5d ∷ []) 5
    ≡ (1 ∷ 0x7e ∷ 0x7d ∷ 0x7d ∷ 0x5d ∷ [], 3)
unfolding frame_transparent_decode decode_loop
decode_sample = refl
