-- ===== src/Driver/Send.antt =====
-- Transmission in src/ioHdlcswdriver.c: the octets that `drv_send_frame` and
-- `s_materialize_tx_frame` put in a buffer for the port.
use io_hdlc.Base.{
  ℕ, ◌+◌, ◌-◌, ◌%◌, ◌^◌, not, Option, none, some, List, set, take, ltb, ◌==◌, if◌then◌else◌,
}
use io_hdlc.State.{Frame}
use io_hdlc.Control.{blit}
use io_hdlc.Ll.Transparency.{flag, frame_transparent_encode}
use io_hdlc.Driver.Field.{emit_fff}
use io_hdlc.Driver.Configure.{SwDriverConfig}
use io_hdlc.Driver.Receive.{Fcs}

-- A buffer for the port, of which `tx_len` octets are sent.
pub record TxBuffer : Type 0 where
  pub octets : List ℕ
  pub tx_len : ℕ

-- Why a frame is not sent.
pub data SendError : Type 0 where
  emsgsize enomem : SendError

pub data Preparation : Type 0 where
  prepared : TxBuffer → Preparation
  refused : SendError → Preparation

-- The frame format field is written in front, `EMSGSIZE` where it does not fit. The length without
-- the field is a `size_t`.
unfoldable pub with_field : SwDriverConfig → Frame → Option (List ℕ)
with_field config fp =
    let size = config.frame_format_size in
    if not (size == 0)
    then elim (emit_fff size config.fcs_size ((fp.elen + 2 ^ 32 - size) % 2 ^ 32)) [
      | none ↦ none
      | some field ↦ some (blit fp.octets 0 field)
    ]
    else some fp.octets

-- The check sequence is written behind the octets: the buffer and the length on the wire.
unfoldable pub with_fcs : SwDriverConfig → Fcs → List ℕ → ℕ → List ℕ × ℕ
unfolding blit
with_fcs config fcs octets wire_len =
    if ltb 0 config.fcs_size
    then (blit octets wire_len (fcs.compute (take wire_len octets)), wire_len + config.fcs_size)
    else (octets, wire_len)

-- `s_materialize_tx_frame`
unfoldable pub materialize_tx_frame : SwDriverConfig → Fcs → Frame → Preparation
materialize_tx_frame config fcs fp = elim (with_field config fp) [
  | none ↦ refused emsgsize
  | some octets ↦
      let (wire, wire_len) = with_fcs config fcs octets fp.elen in
      prepared (record { octets = set wire wire_len flag; tx_len = (wire_len + 1) % 2 ^ 16 })
]

-- The encoded octets are put into the buffer of another frame, if the pool has one.
unfoldable pub encode_into : Option Frame → List ℕ → Preparation
unfolding blit
encode_into none octets = refused enomem
encode_into (some nfp) octets =
    let encoded = frame_transparent_encode octets in
    prepared (record {
      octets = set (blit nfp.octets 0 encoded.octets) encoded.elen flag;
      tx_len = (encoded.elen + 1) % 2 ^ 16;
    })

-- `drv_send_frame` up to the submission: `taken` is what `hdlcTakeFrame` returns if it is called.
unfoldable pub prepare : SwDriverConfig → Fcs → Option Frame → Frame → Preparation
prepare config fcs taken fp =
    if config.apply_transparency
    then elim (with_field config fp) [
      | none ↦ refused emsgsize
      | some octets ↦
          let (wire, wire_len) = with_fcs config fcs octets fp.elen in
          encode_into taken (take (wire_len % 2 ^ 16) wire)
    ]
    else materialize_tx_frame config fcs fp

-- What goes over the line, behind the opening delimiter.
abbrev pub on_line : TxBuffer → List ℕ
on_line p = take p.tx_len p.octets
