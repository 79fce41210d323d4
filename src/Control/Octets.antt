-- ===== src/Control/Octets.antt =====
-- The buffer of an I-frame stays a buffer of octets when its header is prepared.
use io_hdlc.Base.{
  ◌⊎◌, ℕ, zero, suc, ◌+◌, ◌≤◌, ◌<◌, Bool, true, false, not, ◌&&◌, ◌||◌, List, [], ◌∷◌, ◌≡◌, ◌∙◌,
  refl, ap, sym, arith, length, get_or, set, length-set, ltb, ltb→lt, ◌==◌, inl, inr, if◌then◌else◌,
  Bool-cases, subst,
}
use io_hdlc.Base.Bits.{tabulated, tabulated_at}
use io_hdlc.State.{Framing, Frame, Station, if-elim}
use io_hdlc.Control.{
  ns_octet, nr_octet, pf_octet, set_ns_in_ctrl, set_nr_in_ctrl, set_pf_in_ctrl, seed_i_frame,
  prepare_i_frame_header, is_i_frm, frame_ctrl,
}
use io_hdlc.Control.Stamp.{modulo_8, modulo_128}
use io_hdlc.Control.RoundTrip.{IsFraming, HasRoom}

-- A buffer of `n` octets.
pub record IsBuffer (n : ℕ) (buf : List ℕ) : Type 0 where
  pub bytes : (i : ℕ) → get_or buf i 0 < 256
  pub size : length buf ≡ n

set-bytes :
    (buf : List ℕ) (k v : ℕ)
    → v < 256
    → ((i : ℕ) → get_or buf i 0 < 256)
    → (i : ℕ) → get_or (set buf k v) i 0 < 256
set-bytes [] k v small h i = h i
set-bytes (x ∷ xs) zero v small h zero = small
set-bytes (x ∷ xs) zero v small h (suc i) = h (suc i)
set-bytes (x ∷ xs) (suc k) v small h zero = h zero
set-bytes (x ∷ xs) (suc k) v small h (suc i) = set-bytes xs k v small (λ j. h (suc j)) i

pub set-IsBuffer :
    (n : ℕ) (buf : List ℕ) (k v : ℕ) → v < 256 → IsBuffer n buf → IsBuffer n (set buf k v)
set-IsBuffer n buf k v small h = record {
  bytes = set-bytes buf k v small h.bytes;
  size = length-set buf k v ∙ h.size;
}

ns_octets_8 : tabulated 256 (λ c. tabulated 8 (λ n. ltb (ns_octet (modulo_8 0) c n) 256)) ≡ true
unfolding tabulated ns_octet
ns_octets_8 = refl

ns_octets_128 :
    tabulated 256 (λ c. tabulated 128 (λ n. ltb (ns_octet (modulo_128 0) c n) 256)) ≡ true
unfolding tabulated ns_octet
ns_octets_128 = refl

nr_octets_8 : tabulated 256 (λ c. tabulated 8 (λ n. ltb (nr_octet (modulo_8 0) c n) 256)) ≡ true
unfolding tabulated nr_octet
nr_octets_8 = refl

nr_octets_128 :
    tabulated 256 (λ c. tabulated 128 (λ n. ltb (nr_octet (modulo_128 0) c n) 256)) ≡ true
unfolding tabulated nr_octet
nr_octets_128 = refl

pf_octets :
    tabulated 256 (λ c.
      ltb (pf_octet (modulo_8 0) c true) 256
      && (ltb (pf_octet (modulo_8 0) c false) 256
          && (ltb (pf_octet (modulo_128 0) c true) 256
              && ltb (pf_octet (modulo_128 0) c false) 256)))
    ≡ true
unfolding tabulated pf_octet
pf_octets = refl

-- Modulo 8 with the P/F bit in the first octet, or modulo 128 with it in the second.
abbrev Fields : Framing → Type 0
Fields f = ((f.modmask ≡ 7) × (f.pfoctet ≡ 0)) ⊎ ((f.modmask ≡ 127) × (f.pfoctet ≡ 1))

IsFraming-Fields : (f : Framing) → IsFraming f → Fields f
IsFraming-Fields f (inl e) = inl (ap (λ g. g.modmask) e, ap (λ g. g.pfoctet) e)
IsFraming-Fields f (inr e) = inr (ap (λ g. g.modmask) e, ap (λ g. g.pfoctet) e)

module _ (f : Framing) (fields : Fields f) (c : ℕ) (small : c < 256) where
  ns_octet-lt : (n : ℕ) → n ≤ f.modmask → ns_octet f c n < 256
  unfolding ns_octet
  ns_octet-lt n = elim fields [
    | inl (e, _) ↦ rw e (λ le.
        ltb→lt _ _ (tabulated_at 8 _ n (tabulated_at 256 _ c ns_octets_8 small) (omega arith)))
    | inr (e, _) ↦ rw e (λ le.
        ltb→lt _ _ (tabulated_at 128 _ n (tabulated_at 256 _ c ns_octets_128 small) (omega arith)))
  ]

  nr_octet-lt : (n : ℕ) → n ≤ f.modmask → nr_octet f c n < 256
  unfolding nr_octet
  nr_octet-lt n = elim fields [
    | inl (e, _) ↦ rw e (λ le.
        ltb→lt _ _ (tabulated_at 8 _ n (tabulated_at 256 _ c nr_octets_8 small) (omega arith)))
    | inr (e, _) ↦ rw e (λ le.
        ltb→lt _ _ (tabulated_at 128 _ n (tabulated_at 256 _ c nr_octets_128 small) (omega arith)))
  ]

  pf_octet-lt : (pf : Bool) → pf_octet f c pf < 256
  unfolding pf_octet
  pf_octet-lt pf =
      let table = tabulated_at 256 _ c pf_octets small in
      elim fields [
        | inl (_, e) ↦
            rw e (
              if-elim (λ t. t < 256) pf _ _ (ltb→lt _ _ (ground arith)) (ltb→lt _ _ (ground arith)))
        | inr (_, e) ↦
            rw e (
              if-elim (λ t. t < 256) pf _ _ (ltb→lt _ _ (ground arith)) (ltb→lt _ _ (ground arith)))
      ]

module _ (f : Framing) (fields : Fields f) (size : ℕ) where
  seed-IsBuffer :
      (fp : Frame) (n : ℕ)
      → n ≤ f.modmask
      → IsBuffer size fp.octets
      → IsBuffer size (seed_i_frame f fp n).octets
  unfolding seed_i_frame set_ns_in_ctrl
  seed-IsBuffer fp n le h =
      let at = f.frame_offset + 1 in
      let one = set fp.octets at 0 in
      let first = set-IsBuffer size fp.octets at 0 (omega arith) h in
      let cleared = if ltb 1 f.ctrl_size then set one (at + 1) 0 else one in
      let both =
        if-elim (IsBuffer size) (ltb 1 f.ctrl_size) (set one (at + 1) 0) one
          (set-IsBuffer size one (at + 1) 0 (omega arith) first) first in
      if-elim (λ (r : Frame). IsBuffer size r.octets)
        (not (fp.tx_ctrl_len == f.ctrl_size) || not (is_i_frm (frame_ctrl f fp 0))) _ _
        (set-IsBuffer size cleared at _ (ns_octet-lt f fields _ (both.bytes at) n le) both) h

  numbered-IsBuffer :
      (buf : List ℕ) (at nr : ℕ)
      → nr ≤ f.modmask
      → IsBuffer size buf
      → IsBuffer size (set_nr_in_ctrl f at buf nr)
  unfolding set_nr_in_ctrl
  numbered-IsBuffer buf at nr le h =
      if-elim (IsBuffer size) (f.modmask == 7) _ _
        (set-IsBuffer size buf at _ (nr_octet-lt f fields _ (h.bytes at) nr le) h)
        (set-IsBuffer size buf (at + 1) _ (nr_octet-lt f fields _ (h.bytes (at + 1)) nr le) h)

  marked-IsBuffer :
      (buf : List ℕ) (at : ℕ) (pf : Bool)
      → IsBuffer size buf
      → IsBuffer size (set_pf_in_ctrl f at buf pf)
  unfolding set_pf_in_ctrl
  marked-IsBuffer buf at pf h =
      set-IsBuffer size buf (at + f.pfoctet) _
        (pf_octet-lt f fields _ (h.bytes (at + f.pfoctet)) pf) h

module _ (s : Station) (fp : Frame) (addr n nr : ℕ) (pf : Bool) where
  -- A prepared frame has room again.
  pub prepare_i_frame_header-HasRoom :
      IsFraming s.framing
      → addr < 256
      → n ≤ s.framing.modmask
      → nr ≤ s.framing.modmask
      → HasRoom s.framing fp
      → HasRoom s.framing (prepare_i_frame_header s fp addr n nr pf).1
  unfolding prepare_i_frame_header
  prepare_i_frame_header-HasRoom framing ha hn hr h =
      let f = s.framing in
      let fields = IsFraming-Fields f framing in
      let size = length fp.octets in
      let at = f.frame_offset + 1 in
      let seeded = seed-IsBuffer f fields size fp n hn (record { bytes = h.bytes; size = refl }) in
      let stamped =
        marked-IsBuffer f fields size _ at pf (numbered-IsBuffer f fields size _ at nr hr seeded) in
      let after = set-IsBuffer size _ f.frame_offset addr ha stamped in
      record {
        bytes = after.bytes;
        room = subst (λ t. f.frame_offset + f.ctrl_size < t) (sym after.size) h.room;
      }

  -- A prepared frame has the control size of the framing.
  pub prepare_i_frame_header-ctrl_len :
      (prepare_i_frame_header s fp addr n nr pf).1.tx_ctrl_len ≡ s.framing.ctrl_size
  unfolding prepare_i_frame_header seed_i_frame
  prepare_i_frame_header-ctrl_len =
      let f = s.framing in
      elim (Bool-cases
        (not (fp.tx_ctrl_len == f.ctrl_size) || not (is_i_frm (frame_ctrl f fp 0)))) [
          | inl new ↦ rw new refl
          | inr old ↦ rw old (ground arith)
        ]
