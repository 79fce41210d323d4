-- ===== src/Control/Numbering.antt =====
-- What the receiver reads in the I-frames that the sender prepares.
use native.Mathlib.Nat.{add-zero}
use io_hdlc.Base.{
  ℕ, ◌+◌, ◌/◌, ◌≤◌, ◌<◌, bit_and, Bool, true, not, ◌&&◌, ◌||◌, ◌≡◌, ◌∙◌, refl, sym, ap, subst,
  arith, length, get_or, set, length-set, get_or-set_self, get_or-set_ne, ltb, ltb→lt, ◌==◌, ==_iff,
  if◌then◌else◌, Bool-cases, inl, inr,
}
use io_hdlc.Base.Bits.{tabulated, tabulated_at, and_mask}
use io_hdlc.State.{Framing, Frame, Station}
use io_hdlc.Control.{
  is_i_frm, frame_addr, frame_ctrl, frame_get_pf, extract_ns, extract_nr, ns_octet, set_ns_in_ctrl,
  seed_i_frame, prepare_i_frame_header,
}
use io_hdlc.Control.Stamp.{modulo_8, modulo_128, stamped_8, stamped_128, stamp_8, stamp_128}
use io_hdlc.Control.RoundTrip.{IsFraming, HasRoom, polls}

-- A frame that has been sent as an I-frame of this framing keeps its number.
abbrev pub is_numbered : Framing → Frame → Bool
is_numbered f fp = not (not (fp.tx_ctrl_len == f.ctrl_size) || not (is_i_frm (frame_ctrl f fp 0)))

-- The N(S) under which a frame is sent.
abbrev pub tx_ns : Framing → Frame → ℕ → ℕ
tx_ns f fp ns_seed = if is_numbered f fp then extract_ns f fp else ns_seed

pub record IsIFrame (f : Framing) (fp : Frame) (addr ns nr : ℕ) (pf : Bool) : Type 0 where
  pub kind : is_i_frm (frame_ctrl f fp 0) ≡ true
  pub sequence : extract_ns f fp ≡ ns
  pub number : extract_nr f fp ≡ nr
  pub poll : frame_get_pf f fp ≡ pf
  pub address : frame_addr f fp ≡ addr

-- The first control octet `ctrl` of an I-frame that carries N(S) `ns`, `k` bits wide.
abbrev carries : ℕ → ℕ → ℕ → Bool
carries mask ns ctrl = (bit_and (ctrl / 2) mask == ns) && (bit_and ctrl 0x01 == 0) && ltb ctrl 256

carried_8 : tabulated 8 (λ n. carries 0x07 n (ns_octet (modulo_8 0) 0 n)) ≡ true
unfolding tabulated ns_octet
carried_8 = refl

carried_128 : tabulated 128 (λ n. carries 0x7f n (ns_octet (modulo_128 0) 0 n)) ≡ true
unfolding tabulated ns_octet
carried_128 = refl

-- The frame `fp` after its number has been chosen as `ns`.
record Seeded (mask o : ℕ) (fp : Frame) (ns : ℕ) (after : Frame) : Type 0 where
  kind : bit_and (get_or after.octets (o + 1) 0) 1 ≡ 0
  sequence : bit_and (get_or after.octets (o + 1) 0 / 2) mask ≡ ns
  first : get_or after.octets (o + 1) 0 < 256
  second : get_or after.octets (o + 2) 0 < 256
  size : length after.octets ≡ length fp.octets

module _ (fp : Frame) (ns_seed o : ℕ) where
  seed_8 :
      HasRoom (modulo_8 o) fp
      → ns_seed < 8
      → Seeded 0x07 o fp (tx_ns (modulo_8 o) fp ns_seed) (seed_i_frame (modulo_8 o) fp ns_seed)
  unfolding seed_i_frame set_ns_in_ctrl extract_ns ns_octet
  seed_8 h small =
      elim (Bool-cases
        (not (fp.tx_ctrl_len == 1) || not (is_i_frm (frame_ctrl (modulo_8 o) fp 0)))) [
          | inl new ↦
              let cleared = set fp.octets (o + 1) 0 in
              let room = h.room in
              let zeroed : get_or cleared (o + 1) 0 ≡ 0 =
                get_or-set_self fp.octets (o + 1) 0 0 room in
              let value = ns_octet (modulo_8 o) (get_or cleared (o + 1) 0) ns_seed in
              let got : get_or (set cleared (o + 1) value) (o + 1) 0
                  ≡ ns_octet (modulo_8 o) 0 ns_seed =
                get_or-set_self cleared (o + 1) value 0
                  (omega (arith, length-set fp.octets (o + 1) 0))
                ∙ ap (λ t. ns_octet (modulo_8 o) t ns_seed) zeroed in
              let table = tabulated_at 8 _ ns_seed carried_8 small in
              rw new (record {
                kind = ap (λ t. bit_and t 1) got ∙ ground arith;
                sequence = ap (λ t. bit_and (t / 2) 0x07) got ∙ ground arith;
                first = subst (λ t. t < 256) (sym got) (ltb→lt _ _ (ground arith));
                second =
                    subst (λ t. t < 256)
                      (sym (
                        get_or-set_ne cleared (o + 1) (o + 2) value 0 (omega arith)
                        ∙ get_or-set_ne fp.octets (o + 1) (o + 2) 0 0 (omega arith)))
                      (h.bytes (o + 2));
                size = length-set cleared (o + 1) value ∙ length-set fp.octets (o + 1) 0;
              })
          | inr old ↦
              let c0 : get_or fp.octets (o + 1 + 0) 0 ≡ get_or fp.octets (o + 1) 0 =
                ap (λ t. get_or fp.octets t 0) (add-zero (o + 1)) in
              rw old (record {
                kind = ap (λ t. bit_and t 1) (sym c0) ∙ ground arith;
                sequence = ap (λ t. bit_and (t / 2) 0x07) (sym c0);
                first = h.bytes (o + 1);
                second = h.bytes (o + 2);
                size = refl;
              })
        ]

  seed_128 :
      HasRoom (modulo_128 o) fp
      → ns_seed < 128
      → Seeded 0x7f o fp (tx_ns (modulo_128 o) fp ns_seed) (seed_i_frame (modulo_128 o) fp ns_seed)
  unfolding seed_i_frame set_ns_in_ctrl extract_ns ns_octet
  seed_128 h small =
      elim (Bool-cases
        (not (fp.tx_ctrl_len == 2) || not (is_i_frm (frame_ctrl (modulo_128 o) fp 0)))) [
          | inl new ↦
              let one = set fp.octets (o + 1) 0 in
              let cleared = set one (o + 1 + 1) 0 in
              let room = h.room in
              let len1 = length-set fp.octets (o + 1) 0 in
              let len2 = length-set one (o + 1 + 1) 0 in
              let zeroed : get_or cleared (o + 1) 0 ≡ 0 =
                get_or-set_ne one (o + 1 + 1) (o + 1) 0 0 (omega arith)
                ∙ get_or-set_self fp.octets (o + 1) 0 0 (omega arith) in
              let value = ns_octet (modulo_128 o) (get_or cleared (o + 1) 0) ns_seed in
              let len3 = length-set cleared (o + 1) value in
              let got : get_or (set cleared (o + 1) value) (o + 1) 0
                  ≡ ns_octet (modulo_128 o) 0 ns_seed =
                get_or-set_self cleared (o + 1) value 0 (omega arith)
                ∙ ap (λ t. ns_octet (modulo_128 o) t ns_seed) zeroed in
              let next : get_or (set cleared (o + 1) value) (o + 2) 0 ≡ 0 =
                get_or-set_ne cleared (o + 1) (o + 2) value 0 (omega arith)
                ∙ ap (λ t. get_or cleared t 0) (omega arith)
                ∙ get_or-set_self one (o + 1 + 1) 0 0 (omega arith) in
              let table = tabulated_at 128 _ ns_seed carried_128 small in
              rw new (record {
                kind = ap (λ t. bit_and t 1) got ∙ ground arith;
                sequence = ap (λ t. bit_and (t / 2) 0x7f) got ∙ ground arith;
                first = subst (λ t. t < 256) (sym got) (ltb→lt _ _ (ground arith));
                second = subst (λ t. t < 256) (sym next) (omega arith);
                size = omega arith;
              })
          | inr old ↦
              let c0 : get_or fp.octets (o + 1 + 0) 0 ≡ get_or fp.octets (o + 1) 0 =
                ap (λ t. get_or fp.octets t 0) (add-zero (o + 1)) in
              rw old (record {
                kind = ap (λ t. bit_and t 1) (sym c0) ∙ ground arith;
                sequence = ap (λ t. bit_and (t / 2) 0x7f) (sym c0);
                first = h.bytes (o + 1);
                second = h.bytes (o + 2);
                size = refl;
              })
        ]

low_bit : (c d : ℕ) → bit_and c 0x0f ≡ bit_and d 0x0f → bit_and c 0x01 ≡ bit_and d 0x01
low_bit c d e =
    let a = and_mask 4 c in let b = and_mask 4 d in and_mask 1 c ∙ omega arith ∙ sym (and_mask 1 d)

low_number :
    (c d : ℕ) → bit_and c 0x0f ≡ bit_and d 0x0f → bit_and (c / 2) 0x07 ≡ bit_and (d / 2) 0x07
low_number c d e =
    let a = and_mask 4 c in
    let b = and_mask 4 d in and_mask 3 (c / 2) ∙ omega arith ∙ sym (and_mask 3 (d / 2))

-- What `prepareIFrameHeader` returns and leaves.
abbrev Prepared : Framing → Frame → ℕ → ℕ → ℕ → Bool → ℕ × Frame → Type 0
Prepared f fp addr ns_seed nr pf (ns, after) =
    (ns ≡ tx_ns f fp ns_seed) × IsIFrame f after addr (tx_ns f fp ns_seed) nr pf

module _ (s : Station) (fp : Frame) (addr ns_seed nr : ℕ) (pf : Bool) (o : ℕ) where
  prepare_8 :
      HasRoom (modulo_8 o) fp
      → ns_seed < 8
      → nr < 8
      → Prepared
          (modulo_8 o)
          fp
          addr
          ns_seed
          nr
          pf
          (prepare_i_frame_header (record s { framing = modulo_8 o }) fp addr ns_seed nr pf)
  unfolding prepare_i_frame_header extract_nr frame_get_pf extract_ns
  prepare_8 h small_ns small_nr =
      let seeded = (seed_i_frame (modulo_8 o) fp ns_seed).octets in
      let sd = seed_8 fp ns_seed o h small_ns in
      let size = sd.size in
      let room = h.room in
      let st = stamp_8 o seeded nr pf sd.first small_nr (omega arith) in
      let stamped = stamped_8 o seeded nr pf in
      let post = set stamped o addr in
      let c0 : get_or post (o + 1 + 0) 0 ≡ get_or stamped (o + 1) 0 =
        ap (λ t. get_or post t 0) (add-zero (o + 1))
        ∙ get_or-set_ne stamped o (o + 1) addr 0 (omega arith) in
      let s0 : get_or seeded (o + 1 + 0) 0 ≡ get_or seeded (o + 1) 0 =
        ap (λ t. get_or seeded t 0) (add-zero (o + 1)) in
      (
        ap (λ t. bit_and (t / 2) 7) s0 ∙ sd.sequence,
        record {
          kind = (==_iff _ _).1 (ap (λ t. bit_and t 1) c0 ∙ low_bit _ _ st.kept ∙ sd.kind);
          sequence = ap (λ t. bit_and (t / 2) 7) c0 ∙ low_number _ _ st.kept ∙ sd.sequence;
          number = ap (λ t. bit_and (t / 32) 7) c0 ∙ st.number;
          poll = polls _ 0x10 pf (omega arith) (ap (λ t. bit_and t 0x10) c0 ∙ st.poll);
          address = get_or-set_self stamped o addr 0 (omega (arith, st.size));
        },
      )

  prepare_128 :
      HasRoom (modulo_128 o) fp
      → ns_seed < 128
      → nr < 128
      → Prepared
          (modulo_128 o)
          fp
          addr
          ns_seed
          nr
          pf
          (prepare_i_frame_header (record s { framing = modulo_128 o }) fp addr ns_seed nr pf)
  unfolding prepare_i_frame_header extract_nr frame_get_pf extract_ns
  prepare_128 h small_ns small_nr =
      let seeded = (seed_i_frame (modulo_128 o) fp ns_seed).octets in
      let sd = seed_128 fp ns_seed o h small_ns in
      let size = sd.size in
      let room = h.room in
      let st = stamp_128 o seeded nr pf sd.second small_nr (omega arith) in
      let stamped = stamped_128 o seeded nr pf in
      let post = set stamped o addr in
      let s0 : get_or seeded (o + 1 + 0) 0 ≡ get_or seeded (o + 1) 0 =
        ap (λ t. get_or seeded t 0) (add-zero (o + 1)) in
      let c0 : get_or post (o + 1 + 0) 0 ≡ get_or seeded (o + 1) 0 =
        ap (λ t. get_or post t 0) (add-zero (o + 1))
        ∙ get_or-set_ne stamped o (o + 1) addr 0 (omega arith)
        ∙ st.others (o + 1) (omega arith) in
      let c1 : get_or post (o + 1 + 1) 0 ≡ get_or stamped (o + 2) 0 =
        ap (λ t. get_or post t 0) (omega arith)
        ∙ get_or-set_ne stamped o (o + 2) addr 0 (omega arith) in
      (
        ap (λ t. bit_and (t / 2) 0x7f) s0 ∙ sd.sequence,
        record {
          kind = (==_iff _ _).1 (ap (λ t. bit_and t 1) c0 ∙ sd.kind);
          sequence = ap (λ t. bit_and (t / 2) 0x7f) c0 ∙ sd.sequence;
          number = ap (λ t. bit_and (t / 2) 0x7f) c1 ∙ st.number;
          poll = polls _ 0x01 pf (omega arith) (ap (λ t. bit_and t 0x01) c1 ∙ st.poll);
          address = get_or-set_self stamped o addr 0 (omega (arith, st.size));
        },
      )

-- Modulo 8 or 128, an I-frame that is prepared in a buffer with room is read as an I-frame with the
-- N(R), P/F bit and address given, and with the N(S) that the preparation returns: its own, if it
-- has been sent before, and V(S) else.
pub prepare_i_frame_header-IsIFrame :
    (s : Station) (fp : Frame) (addr ns_seed nr : ℕ) (pf : Bool)
    → IsFraming s.framing
    → HasRoom s.framing fp
    → ns_seed ≤ s.framing.modmask
    → nr ≤ s.framing.modmask
    → let (ns, after) = prepare_i_frame_header s fp addr ns_seed nr pf in
      (ns ≡ tx_ns s.framing fp ns_seed)
      × IsIFrame s.framing after addr (tx_ns s.framing fp ns_seed) nr pf
prepare_i_frame_header-IsIFrame s fp addr ns_seed nr pf (inl e) h small_ns small_nr =
    let top = ap (λ g. g.modmask) e in
    subst
      (λ g.
        Prepared g fp addr ns_seed nr pf
          (prepare_i_frame_header (record s { framing = g }) fp addr ns_seed nr pf))
      (sym e)
      (prepare_8 s fp addr ns_seed nr pf s.framing.frame_offset (subst (λ g. HasRoom g fp) e h)
        (omega arith) (omega arith))
prepare_i_frame_header-IsIFrame s fp addr ns_seed nr pf (inr e) h small_ns small_nr =
    let top = ap (λ g. g.modmask) e in
    subst
      (λ g.
        Prepared g fp addr ns_seed nr pf
          (prepare_i_frame_header (record s { framing = g }) fp addr ns_seed nr pf))
      (sym e)
      (prepare_128 s fp addr ns_seed nr pf s.framing.frame_offset (subst (λ g. HasRoom g fp) e h)
        (omega arith) (omega arith))
