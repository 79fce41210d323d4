-- ===== src/Control.antt =====
-- The address and control fields of a frame: the macros of include/ioHdlc.h and
-- include/ioHdlcframe.h, and the functions of src/ioHdlc_core.c that read and build them. A field
-- is reached by its index in the frame's buffer. The casts to `uint8_t` of the source lose
-- nothing on octets and are left out.
pub mod SFun
pub mod UFun
pub mod Stamp
pub mod RoundTrip
pub mod Numbering
pub mod Octets
use io_hdlc.Base.{
  ℕ, ◌+◌, ◌*◌, ◌/◌, ◌%◌, ◌^◌, bit_and, bit_or, Bool, not, ◌||◌, List, [], ◌∷◌, length, get_or, set,
  ltb, ◌==◌, if◌then◌else◌,
}
use io_hdlc.State.{Framing, Frame, Station, Peer}

-- `IOHDLC_IS_I_FRM`, `IOHDLC_IS_S_FRM` and `IOHDLC_IS_U_FRM`
abbrev pub is_i_frm : ℕ → Bool
is_i_frm ctrl = bit_and ctrl 0x01 == 0x00

abbrev pub is_s_frm : ℕ → Bool
is_s_frm ctrl = bit_and ctrl 0x03 == 0x01

abbrev pub is_u_frm : ℕ → Bool
is_u_frm ctrl = bit_and ctrl 0x03 == 0x03

-- The octet that `setNSInCtrl` stores in `ctrl[0]`.
unfoldable pub ns_octet : Framing → ℕ → ℕ → ℕ
ns_octet f ctrl ns =
    if f.modmask == 7
    then bit_or (bit_and ctrl 0xf1) (bit_and ns 0x07 * 2)
    else bit_or (bit_and ctrl 0x01) (bit_and ns 0x7f * 2)

-- `setNSInCtrl` and `IOHDLC_FRAME_SET_NS`, on the control field at index `at`.
unfoldable pub set_ns_in_ctrl : Framing → ℕ → List ℕ → ℕ → List ℕ
unfolding ns_octet
set_ns_in_ctrl f at buf ns = set buf at (ns_octet f (get_or buf at 0) ns)

unfoldable pub nr_octet : Framing → ℕ → ℕ → ℕ
nr_octet f ctrl nr =
    if f.modmask == 7
    then bit_or (bit_and ctrl 0x1f) (bit_and nr 0x07 * 32)
    else bit_or (bit_and ctrl 0x01) (bit_and nr 0x7f * 2)

-- `setNRInCtrl` and `IOHDLC_FRAME_SET_NR`
unfoldable pub set_nr_in_ctrl : Framing → ℕ → List ℕ → ℕ → List ℕ
unfolding nr_octet
set_nr_in_ctrl f at buf nr =
    if f.modmask == 7
    then set buf at (nr_octet f (get_or buf at 0) nr)
    else set buf (at + 1) (nr_octet f (get_or buf (at + 1) 0) nr)

unfoldable pub pf_octet : Framing → ℕ → Bool → ℕ
pf_octet f ctrl pf =
    if f.pfoctet == 0
    then (if pf then bit_or ctrl 0x10 else bit_and ctrl 0xef)
    else (if pf then bit_or ctrl 0x01 else bit_and ctrl 0xfe)

-- `setPFInCtrl` and `IOHDLC_FRAME_SET_PF`
unfoldable pub set_pf_in_ctrl : Framing → ℕ → List ℕ → Bool → List ℕ
unfolding pf_octet
set_pf_in_ctrl f at buf pf =
    set buf (at + f.pfoctet) (pf_octet f (get_or buf (at + f.pfoctet) 0) pf)

-- `IOHDLC_FRAME_ADDR` and `IOHDLC_FRAME_CTRL`
abbrev pub frame_addr : Framing → Frame → ℕ
frame_addr f fp = get_or fp.octets f.frame_offset 0

abbrev pub frame_ctrl : Framing → Frame → ℕ → ℕ
frame_ctrl f fp idx = get_or fp.octets (f.frame_offset + 1 + idx) 0

-- `IOHDLC_FRAME_GET_PF`
unfoldable pub frame_get_pf : Framing → Frame → Bool
frame_get_pf f fp =
    if f.pfoctet == 0
    then not (bit_and (frame_ctrl f fp 0) 0x10 == 0)
    else not (bit_and (frame_ctrl f fp f.pfoctet) 0x01 == 0)

-- `extractNS`
unfoldable pub extract_ns : Framing → Frame → ℕ
extract_ns f fp =
    if f.modmask == 7
    then bit_and (frame_ctrl f fp 0 / 2) 0x07
    else bit_and (frame_ctrl f fp 0 / 2) 0x7f

-- `extractNR`
unfoldable pub extract_nr : Framing → Frame → ℕ
extract_nr f fp =
    if f.modmask == 7
    then bit_and (frame_ctrl f fp 0 / 32) 0x07
    else bit_and (frame_ctrl f fp 1 / 2) 0x7f

-- `memcpy` into a buffer at index `at`.
unfoldable pub blit : List ℕ → ℕ → List ℕ → List ℕ
blit buf at [] = buf
blit buf at (x ∷ xs) = blit (set buf at x) (at + 1) xs

-- `ioHdlcBuildUFrame`
unfoldable pub build_u_frame : Station → Peer → Frame → ℕ → Bool → Bool → Frame
build_u_frame s p fp u_fun set_pf is_command = record {
  octets =
      set (set fp.octets offset (if is_command then p.addr else s.addr)) (offset + 1)
        (if set_pf then bit_or (bit_or u_fun 0x03) 0x10 else bit_or u_fun 0x03);
  elen = (offset + 2) % 2 ^ 16;
  tx_ctrl_len = 1;
}
  where
    offset : ℕ
    offset = s.framing.frame_offset

-- `ioHdlcBuildUFrameWithInfo`
unfoldable pub build_u_frame_with_info : Station → Peer → Frame → ℕ → Bool → Bool → List ℕ → Frame
unfolding build_u_frame blit
build_u_frame_with_info s p fp u_fun set_pf is_command info =
    let built = build_u_frame s p fp u_fun set_pf is_command in
    record built {
      octets = blit built.octets (s.framing.frame_offset + 2) info;
      elen = (built.elen + length info) % 2 ^ 16;
    }

-- `buildFrmrResponse`
unfoldable pub build_frmr_response : Station → Peer → Frame → Bool → Frame
unfolding blit
build_frmr_response s p fp set_pf = record {
  octets = blit (set (set fp.octets offset s.addr) (offset + 1) ctrl) (offset + 2) info;
  elen = (offset + 2 + length info) % 2 ^ 16;
  tx_ctrl_len = 1;
}
  where
    offset : ℕ
    offset = s.framing.frame_offset

    ctrl : ℕ
    ctrl = if set_pf then bit_or (bit_or UFun.frmr 0x03) 0x10 else bit_or UFun.frmr 0x03

    info : List ℕ
    info =
        if s.framing.ctrl_size == 1
        then p.frmr_rejected_ctrl.0
          ∷ bit_or (bit_or (bit_and p.vs_highest 0x07 * 2) (if p.frmr_cr then 0x10 else 0))
              (bit_and p.vr 0x07 * 32)
          ∷ p.frmr_reason
          ∷ []
        else p.frmr_rejected_ctrl.0
          ∷ p.frmr_rejected_ctrl.1
          ∷ bit_and p.vs_highest 0x7f * 2
          ∷ bit_or (bit_and p.vr 0x7f * 2) (if p.frmr_cr then 0x01 else 0)
          ∷ p.frmr_reason
          ∷ []

-- `prepareIFrameHeader`, its first part: a frame that is not yet an I-frame of this control size
-- gets an empty control field with N(S) `ns_seed`; one sent before keeps its own.
unfoldable pub seed_i_frame : Framing → Frame → ℕ → Frame
unfolding set_ns_in_ctrl
seed_i_frame f fp ns_seed =
    let at = f.frame_offset + 1 in
    let one = set fp.octets at 0x00 in
    let cleared = if ltb 1 f.ctrl_size then set one (at + 1) 0 else one in
    if not (fp.tx_ctrl_len == f.ctrl_size) || not (is_i_frm (frame_ctrl f fp 0))
    then record fp { octets = set_ns_in_ctrl f at cleared ns_seed; tx_ctrl_len = f.ctrl_size }
    else fp

-- `prepareIFrameHeader`: the frame's N(S), and the frame.
unfoldable pub prepare_i_frame_header : Station → Frame → ℕ → ℕ → ℕ → Bool → ℕ × Frame
unfolding seed_i_frame extract_ns set_nr_in_ctrl set_pf_in_ctrl
prepare_i_frame_header s fp addr ns_seed nr set_pf =
    let f = s.framing in
    let at = f.frame_offset + 1 in
    let seeded = seed_i_frame f fp ns_seed in
    let numbered = set_pf_in_ctrl f at (set_nr_in_ctrl f at seeded.octets nr) set_pf in
    (extract_ns f seeded, record seeded { octets = set numbered f.frame_offset addr })

-- `buildSFrame`
unfoldable pub build_s_frame : Station → Peer → Frame → ℕ → ℕ → Bool → Bool → Frame
unfolding set_nr_in_ctrl set_pf_in_ctrl
build_s_frame s p fp s_fun nr set_pf is_command = record {
  octets = set_pf_in_ctrl f at (set_nr_in_ctrl f at started nr) set_pf;
  elen = (f.frame_offset + 1 + f.ctrl_size) % 2 ^ 16;
  tx_ctrl_len = f.ctrl_size;
}
  where
    f : Framing
    f = s.framing

    at : ℕ
    at = f.frame_offset + 1

    started : List ℕ
    started =
        set (set fp.octets f.frame_offset (if is_command then p.addr else s.addr)) at
          (bit_or s_fun 0x01)
