-- ===== src/Control/RoundTrip.antt =====
-- What the receiver reads in the S-frames and I-frames that the sender builds.
use native.Mathlib.Nat.{add-zero}
use io_hdlc.Base.{
  ℕ, ◌+◌, ◌/◌, ◌≤◌, ◌<◌, bit_and, bit_or, Bool, true, false, not, ◌&&◌, ◌||◌, ◌≡◌, ◌≢◌, ◌⊎◌, ◌∙◌,
  refl, sym, ap, subst, arith, length, get_or, set, length-set, get_or-set_self, get_or-set_ne, ltb,
  ◌==◌, ==_iff, if◌then◌else◌, inl, inr,
}
use io_hdlc.Base.Bits.{tabulated, tabulated_at, and_mask}
use io_hdlc.State.{Framing, Frame, Station, Peer}
use io_hdlc.Control.SFun
use io_hdlc.Control.{is_s_frm, frame_addr, frame_ctrl, frame_get_pf, extract_nr, build_s_frame}
use io_hdlc.Control.Stamp.{modulo_8, modulo_128, stamped_8, stamped_128, stamp_8, stamp_128}

-- The framings that `ioHdlcStationInit` sets up for modulo 8 and 128.
abbrev pub IsFraming : Framing → Type 0
IsFraming f = (f ≡ modulo_8 f.frame_offset) ⊎ (f ≡ modulo_128 f.frame_offset)

-- The buffer has octets and room for the address and control fields.
pub record HasRoom (f : Framing) (fp : Frame) : Type 0 where
  pub bytes : (i : ℕ) → get_or fp.octets i 0 < 256
  pub room : f.frame_offset + f.ctrl_size < length fp.octets

pub record IsSFrame (f : Framing) (fp : Frame) (addr s_fun nr : ℕ) (pf : Bool) : Type 0 where
  pub kind : is_s_frm (frame_ctrl f fp 0) ≡ true
  pub function : bit_and (frame_ctrl f fp 0) SFun.fun_mask ≡ s_fun
  pub number : extract_nr f fp ≡ nr
  pub poll : frame_get_pf f fp ≡ pf
  pub address : frame_addr f fp ≡ addr

pub polls : (v : ℕ) (x : ℕ) (pf : Bool) → x ≢ 0 → v ≡ (if pf then x else 0) → not (v == 0) ≡ pf
polls v x true ne e = ground arith
polls v x false ne e = ground arith

low_kind : (c d : ℕ) → bit_and c 0x0f ≡ bit_and d 0x0f → bit_and c 0x03 ≡ bit_and d 0x03
low_kind c d e =
    let a = and_mask 4 c in let b = and_mask 4 d in and_mask 2 c ∙ omega arith ∙ sym (and_mask 2 d)

-- The control octet that a supervisory frame starts with.
function_octets :
    tabulated 256 (λ s_fun.
      not (bit_and s_fun 0x0c == s_fun)
      || ((bit_and (bit_or s_fun 1) 3 == 1)
          && (bit_and (bit_or s_fun 1) 0x0c == s_fun)
          && ltb (bit_or s_fun 1) 256))
    ≡ true
unfolding tabulated
function_octets = refl

module _ (s : Station) (p : Peer) (fp : Frame) (s_fun nr : ℕ) (pf is_command : Bool) (o : ℕ) where
  abbrev sender : ℕ
  sender = if is_command then p.addr else s.addr

  build_s_frame_8 :
      bit_and s_fun 0x0c ≡ s_fun
      → s_fun < 256
      → nr < 8
      → HasRoom (modulo_8 o) fp
      → IsSFrame
          (modulo_8 o)
          (build_s_frame (record s { framing = modulo_8 o }) p fp s_fun nr pf is_command)
          sender
          s_fun
          nr
          pf
  unfolding build_s_frame extract_nr frame_get_pf
  build_s_frame_8 mask byte small h =
      let first = set fp.octets o sender in
      let started = set first (o + 1) (bit_or s_fun 1) in
      let room = h.room in
      let len = length-set fp.octets o sender in
      let begun : get_or started (o + 1) 0 ≡ bit_or s_fun 1 =
        get_or-set_self first (o + 1) _ 0 (omega arith) in
      let table = tabulated_at 256 _ s_fun function_octets byte in
      let st =
        stamp_8 o started nr pf (ground arith) small
          (omega (arith, length-set first (o + 1) (bit_or s_fun 1))) in
      let kept = st.kept in
      let post = stamped_8 o started nr pf in
      let c0 : get_or post (o + 1 + 0) 0 ≡ get_or post (o + 1) 0 =
        ap (λ t. get_or post t 0) (add-zero (o + 1)) in
      record {
        kind = (==_iff _ _).1 (
            ap (λ t. bit_and t 3) c0
            ∙ low_kind _ _ kept
            ∙ ap (λ t. bit_and t 3) begun
            ∙ ground arith);
        function =
            ap (λ t. bit_and t 0x0c) c0
            ∙ st.function
            ∙ ap (λ t. bit_and t 0x0c) begun
            ∙ ground arith;
        number = ap (λ t. bit_and (t / 32) 0x07) c0 ∙ st.number;
        poll = polls _ 0x10 pf (omega arith) (ap (λ t. bit_and t 0x10) c0 ∙ st.poll);
        address =
            st.others o (omega arith)
            ∙ get_or-set_ne first (o + 1) o _ 0 (omega arith)
            ∙ get_or-set_self fp.octets o sender 0 (omega arith);
      }

  build_s_frame_128 :
      bit_and s_fun 0x0c ≡ s_fun
      → s_fun < 256
      → nr < 128
      → HasRoom (modulo_128 o) fp
      → IsSFrame
          (modulo_128 o)
          (build_s_frame (record s { framing = modulo_128 o }) p fp s_fun nr pf is_command)
          sender
          s_fun
          nr
          pf
  unfolding build_s_frame extract_nr frame_get_pf
  build_s_frame_128 mask byte small h =
      let first = set fp.octets o sender in
      let started = set first (o + 1) (bit_or s_fun 1) in
      let room = h.room in
      let len = length-set fp.octets o sender in
      let len2 = length-set first (o + 1) (bit_or s_fun 1) in
      let begun : get_or started (o + 1) 0 ≡ bit_or s_fun 1 =
        get_or-set_self first (o + 1) _ 0 (omega arith) in
      let old : get_or started (o + 2) 0 ≡ get_or fp.octets (o + 2) 0 =
        get_or-set_ne first (o + 1) (o + 2) _ 0 (omega arith)
        ∙ get_or-set_ne fp.octets o (o + 2) sender 0 (omega arith) in
      let table = tabulated_at 256 _ s_fun function_octets byte in
      let st =
        stamp_128 o started nr pf (omega (arith, old, h.bytes (o + 2))) small (omega arith) in
      let post = stamped_128 o started nr pf in
      let c0 : get_or post (o + 1 + 0) 0 ≡ bit_or s_fun 1 =
        ap (λ t. get_or post t 0) (add-zero (o + 1)) ∙ st.others (o + 1) (omega arith) ∙ begun in
      let c1 : get_or post (o + 1 + 1) 0 ≡ get_or post (o + 2) 0 =
        ap (λ t. get_or post t 0) (omega arith) in
      record {
        kind = (==_iff _ _).1 (ap (λ t. bit_and t 3) c0 ∙ ground arith);
        function = ap (λ t. bit_and t 0x0c) c0 ∙ ground arith;
        number = ap (λ t. bit_and (t / 2) 0x7f) c1 ∙ st.number;
        poll = polls _ 0x01 pf (omega arith) (ap (λ t. bit_and t 0x01) c1 ∙ st.poll);
        address =
            st.others o (omega arith)
            ∙ get_or-set_ne first (o + 1) o _ 0 (omega arith)
            ∙ get_or-set_self fp.octets o sender 0 (omega arith);
      }

-- A supervisory frame that is built, modulo 8 or 128, in a buffer with room, is read as an S-frame
-- with the same function, N(R) and P/F bit, and carries the peer's address in a command and the
-- station's in a response.
pub build_s_frame-IsSFrame :
    (s : Station) (p : Peer) (fp : Frame) (s_fun nr : ℕ) (pf is_command : Bool)
    → IsFraming s.framing
    → bit_and s_fun SFun.fun_mask ≡ s_fun
    → s_fun < 256
    → nr ≤ s.framing.modmask
    → HasRoom s.framing fp
    → IsSFrame s.framing
        (build_s_frame s p fp s_fun nr pf is_command)
        (if is_command then p.addr else s.addr)
        s_fun
        nr
        pf
build_s_frame-IsSFrame s p fp s_fun nr pf is_command (inl e) mask byte small h =
    let o = s.framing.frame_offset in
    subst
      (λ g.
        IsSFrame g (build_s_frame (record s { framing = g }) p fp s_fun nr pf is_command)
          (if is_command then p.addr else s.addr) s_fun nr pf)
      (sym e)
      (build_s_frame_8 s p fp s_fun nr pf is_command o mask byte
        (let top = ap (λ g. g.modmask) e in omega arith) (subst (λ g. HasRoom g fp) e h))
build_s_frame-IsSFrame s p fp s_fun nr pf is_command (inr e) mask byte small h =
    let o = s.framing.frame_offset in
    subst
      (λ g.
        IsSFrame g (build_s_frame (record s { framing = g }) p fp s_fun nr pf is_command)
          (if is_command then p.addr else s.addr) s_fun nr pf)
      (sym e)
      (build_s_frame_128 s p fp s_fun nr pf is_command o mask byte
        (let top = ap (λ g. g.modmask) e in omega arith) (subst (λ g. HasRoom g fp) e h))
