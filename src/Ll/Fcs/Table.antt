-- ===== src/Ll/Fcs/Table.antt =====
-- The table-driven update of src/ioHdlcll.c against the bitwise shift register that the end of that
-- file gives as the generator of the table.
use io_hdlc.Base.{
  ℕ, zero, suc, ◌+◌, ◌*◌, ◌/◌, ◌%◌, ◌^◌, ◌<◌, bit_and, bit_xor, true, List, [], ◌∷◌, ◌≡◌, refl, sym,
  ap, ◌∙◌, arith, ◌==◌, ==_iff, ltb, ltb→lt, IsBytes,
}
use io_hdlc.Base.Bits.{
  tabulated, tabulated_at, and_mask, xor_step, half_xor, xor_assoc, xor_comm, xor_self, xor_low,
  bit_xor-zero, zero-bit_xor, double_field,
}
use native.Mathlib.Nat.{mul_comm}
use io_hdlc.Ll.Fcs.{fcs_entry, fcs_octet, update_fcs, generator_step, generator}

entries_match : tabulated 256 (λ i. fcs_entry i == generator 8 i) ≡ true
unfolding tabulated fcs_entry generator generator_step
entries_match = refl

pub fcs_entry-generator : (i : ℕ) → i < 256 → fcs_entry i ≡ generator 8 i
fcs_entry-generator i h = (==_iff _ _).0 (tabulated_at 256 _ i entries_match h)

xor_both : (x y p : ℕ) → bit_xor (bit_xor x p) (bit_xor y p) ≡ bit_xor x y
xor_both x y p = rw (
  xor_assoc x p (bit_xor y p),
  xor_comm y p,
  ← xor_assoc p p y,
  xor_self p,
  xor_comm 0 y,
  bit_xor-zero y,
)

xor_left : (x y p : ℕ) → bit_xor (bit_xor x p) y ≡ bit_xor (bit_xor x y) p
xor_left x y p = xor_assoc x p y ∙ ap (λ t. bit_xor x t) (xor_comm p y) ∙ sym (xor_assoc x y p)

xor_parity : (a b : ℕ) → bit_xor a b % 2 ≡ (a + b) % 2
xor_parity a b = omega (arith, xor_step a b)

-- The register is linear: it takes an exclusive or to the exclusive or of the results.
generator_step-bit_xor :
    (a b : ℕ) → generator_step (bit_xor a b) ≡ bit_xor (generator_step a) (generator_step b)
unfolding generator_step
generator_step-bit_xor a b = ground (
  arith,
  and_mask 1 a,
  and_mask 1 b,
  and_mask 1 (bit_xor a b),
  xor_parity a b,
  half_xor a b,
  xor_both (a / 2) (b / 2) 0x8408,
  xor_left (a / 2) (b / 2) 0x8408,
  xor_assoc (a / 2) (b / 2) 0x8408,
)

pub generator-bit_xor :
    (k a b : ℕ) → generator k (bit_xor a b) ≡ bit_xor (generator k a) (generator k b)
unfolding generator
generator-bit_xor zero a b = refl
generator-bit_xor (suc k) a b =
    ap (generator k) (generator_step-bit_xor a b)
    ∙ generator-bit_xor k (generator_step a) (generator_step b)

generator_step_even : (v : ℕ) → generator_step (v * 2) ≡ v
unfolding generator_step
generator_step_even v = ground (arith, and_mask 1 (v * 2))

shifts_out : (k h : ℕ) → generator k (h * 2 ^ k) ≡ h
unfolding generator
shifts_out zero h = omega arith
shifts_out (suc k) h =
    ap (λ t. generator k (generator_step t)) (double_field h k ∙ mul_comm 2 (h * 2 ^ k))
    ∙ ap (generator k) (generator_step_even (h * 2 ^ k))
    ∙ shifts_out k h

-- A 16-bit register with the next octet folded into its lower half.
pub record Folded (crc octet : ℕ) : Type 0 where
  pub index : ℕ
  pub index_lt : index < 256
  pub index_lem : bit_and (bit_xor crc octet) 0xff ≡ index
  pub upper_lem : bit_and (crc / 2 ^ 8) 0xff ≡ crc / 256
  pub xor_lem : bit_xor crc octet ≡ crc / 256 * 2 ^ 8 + index
  pub lower_lem : index ≡ bit_xor (crc % 256) octet

pub folded : (crc octet : ℕ) → crc < 2 ^ 16 → octet < 256 → Folded crc octet
folded crc octet hc ho =
    let (sum, lt) = xor_low 8 (crc / 256) (crc % 256) octet (omega arith) ho in
    record {
      index = bit_xor (crc % 256) octet;
      index_lt = lt;
      index_lem =
          omega (arith, and_mask 8 (bit_xor crc octet), ap (λ t. bit_xor t octet) (split crc), sum);
      upper_lem = omega (arith, and_mask 8 (crc / 256));
      xor_lem = ap (λ t. bit_xor t octet) (split crc) ∙ sum;
      lower_lem = refl;
    }
  where
    split : (c : ℕ) → c ≡ c / 256 * 2 ^ 8 + c % 256
    split c = omega arith

-- A round, with the casts and masks that do nothing on a 16-bit register left out.
pub fcs_octet_lem :
    (crc octet : ℕ)
    → crc < 2 ^ 16
    → octet < 256
    → fcs_octet crc octet ≡ bit_xor (crc / 256) (fcs_entry (bit_xor (crc % 256) octet))
unfolding fcs_octet
fcs_octet_lem crc octet hc ho =
    let f = folded crc octet hc ho in rw (f.upper_lem, f.index_lem, f.lower_lem)

-- One round of the table-driven loop is eight shifts of the register.
pub fcs_octet-generator :
    (crc octet : ℕ)
    → crc < 2 ^ 16
    → octet < 256
    → fcs_octet crc octet ≡ generator 8 (bit_xor crc octet)
unfolding fcs_octet
fcs_octet-generator crc octet hc ho =
    let f = folded crc octet hc ho in
    let (apart, _) = xor_low 8 (crc / 256) 0 f.index (omega arith) f.index_lt in
    let (none_low, _) = xor_low 8 0 0 f.index (omega arith) f.index_lt in
    rw (f.upper_lem, f.index_lem, f.xor_lem, fcs_entry-generator f.index f.index_lt)
      (ap (λ t. bit_xor t (generator 8 f.index)) (sym (shifts_out 8 (crc / 256)))
        ∙ sym (generator-bit_xor 8 (crc / 256 * 2 ^ 8) f.index)
        ∙ ap (generator 8) (
            ap (λ t. bit_xor t f.index) (omega arith)
            ∙ apart
            ∙ omega (arith, none_low, zero-bit_xor f.index)))

entries_small : tabulated 256 (λ i. ltb (fcs_entry i) 65536) ≡ true
unfolding tabulated fcs_entry
entries_small = refl

pub fcs_entry-lt : (i : ℕ) → i < 256 → fcs_entry i < 2 ^ 16
fcs_entry-lt i h = ltb→lt _ _ (tabulated_at 256 _ i entries_small h)

-- The register stays a `uint16_t`.
pub fcs_octet-lt : (crc octet : ℕ) → crc < 2 ^ 16 → octet < 256 → fcs_octet crc octet < 2 ^ 16
unfolding fcs_octet
fcs_octet-lt crc octet hc ho =
    let f = folded crc octet hc ho in
    let (_, lt) =
      xor_low 16 0 (crc / 256) (fcs_entry f.index) (omega arith)
        (fcs_entry-lt f.index f.index_lt) in
    rw (f.upper_lem, f.index_lem) lt

pub update_fcs-lt :
    (buf : List ℕ) (crc : ℕ) → crc < 2 ^ 16 → IsBytes buf → update_fcs crc buf < 2 ^ 16
unfolding update_fcs
update_fcs-lt [] crc hc hb = hc
update_fcs-lt (octet ∷ buf) crc hc hb =
    update_fcs-lt buf (fcs_octet crc octet) (fcs_octet-lt crc octet hc hb.0) hb.1

-- The CRC by the shift register alone: each octet is folded in and shifted out bit by bit.
pub shift_register : ℕ → List ℕ → ℕ
shift_register crc [] = crc
shift_register crc (octet ∷ buf) = shift_register (generator 8 (bit_xor crc octet)) buf

-- On octets, from any 16-bit start value, `updateFCS` with its table computes what the bitwise
-- shift register of the polynomial 0x8408 computes.
pub update_fcs-shift_register :
    (buf : List ℕ) (crc : ℕ)
    → crc < 2 ^ 16
    → IsBytes buf
    → update_fcs crc buf ≡ shift_register crc buf
unfolding update_fcs shift_register
update_fcs-shift_register [] crc hc hb = refl
update_fcs-shift_register (octet ∷ buf) crc hc hb =
    update_fcs-shift_register buf (fcs_octet crc octet) (fcs_octet-lt crc octet hc hb.0) hb.1
    ∙ ap (λ t. shift_register t buf) (fcs_octet-generator crc octet hc hb.0)
