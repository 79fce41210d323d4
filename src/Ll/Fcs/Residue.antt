-- ===== src/Ll/Fcs/Residue.antt =====
-- A check sequence that src/ioHdlcll.c appends to a frame is accepted by its check.
use io_hdlc.Base.{
  ℕ, zero, suc, ◌+◌, ◌*◌, ◌/◌, ◌%◌, ◌^◌, ◌≤◌, ◌<◌, bit_and, bit_xor, true, List, [], ◌∷◌, ◌++◌, ◌≡◌,
  refl, ap, ◌∙◌, arith, ◌==◌, ==_iff, length, take, set, IsBytes,
}
use io_hdlc.Base.Bits.{tabulated, tabulated_at, and_mask, xor_fields, xor_low, xor_comm}
use io_hdlc.Ll.Fcs.{
  fcs_entry, fcs_octet, update_fcs, fcs_init, fcs_finalize, good_fcs, frame_add_fcs_at,
  frame_check_fcs_at,
}
use io_hdlc.Ll.Fcs.Table.{fcs_octet_lem, update_fcs-lt}

pub update_fcs-append :
    (xs ys : List ℕ) (crc : ℕ) → update_fcs crc (xs ++ ys) ≡ update_fcs (update_fcs crc xs) ys
unfolding update_fcs
update_fcs-append [] ys crc = refl
update_fcs-append (x ∷ xs) ys crc = update_fcs-append xs ys (fcs_octet crc x)

-- The two octets of the complemented register.
abbrev fcs_low : ℕ → ℕ
fcs_low crc = bit_and (fcs_finalize crc) 0xff

abbrev fcs_high : ℕ → ℕ
fcs_high crc = fcs_finalize crc / 2 ^ 8

record Complement (crc : ℕ) : Type 0 where
  low_lem : fcs_low crc ≡ bit_xor (crc % 256) 255
  high_lem : fcs_high crc ≡ bit_xor (crc / 256) 255
  low_lt : bit_xor (crc % 256) 255 < 256
  high_lt : bit_xor (crc / 256) 255 < 256

complement : (crc : ℕ) → crc < 2 ^ 16 → Complement crc
unfolding fcs_finalize
complement crc h =
    let (sum, lt) = xor_fields 8 (crc / 256) 255 (crc % 256) 255 (omega arith) (omega arith) in
    let (_, high) = xor_low 8 0 (crc / 256) 255 (omega arith) (omega arith) in
    let whole : bit_xor crc 0xffff ≡ bit_xor (crc / 256) 255 * 2 ^ 8 + bit_xor (crc % 256) 255 =
      ap (λ t. bit_xor t 0xffff) (omega arith) ∙ sum in
    record {
      low_lem = omega (arith, and_mask 8 (bit_xor crc 0xffff));
      high_lem = omega arith;
      low_lt = lt;
      high_lt = high;
    }

meets_itself : tabulated 256 (λ x. bit_xor x (bit_xor x 255) == 255) ≡ true
unfolding tabulated
meets_itself = refl

meets_entry : tabulated 256 (λ x. bit_xor (bit_xor x 0x78) (bit_xor x 255) == 0x87) ≡ true
unfolding tabulated
meets_entry = refl

entry_values : (fcs_entry 255 ≡ 0x0f78) × (fcs_entry 0x87 ≡ 0xf0b7)
unfolding fcs_entry
entry_values = (refl, refl)

-- After the low octet of its own complement the register holds a fixed upper octet.
after_low :
    (crc : ℕ)
    → crc < 2 ^ 16
    → (fcs_octet crc (fcs_low crc) ≡ 0x0f * 2 ^ 8 + bit_xor (crc / 256) 0x78)
      × (bit_xor (crc / 256) 0x78 < 256)
after_low crc h =
    let c = complement crc h in
    let full = tabulated_at 256 _ (crc % 256) meets_itself (omega arith) in
    let (_, lt) = xor_low 8 0 (crc / 256) 0x78 (omega arith) (omega arith) in
    let (spread, _) = xor_low 8 0x0f 0x78 (crc / 256) (omega arith) (omega arith) in
    (
      rw
          (
            c.low_lem,
            fcs_octet_lem crc (bit_xor (crc % 256) 255) h c.low_lt,
            (==_iff _ _).0 full,
            entry_values.0,
          )
          (xor_comm (crc / 256) 0x0f78
            ∙ spread
            ∙ ap (λ t. 0x0f * 2 ^ 8 + t) (xor_comm 0x78 (crc / 256))),
      lt,
    )

-- The two octets of the complement leave the register at the residue, whatever it held.
pub residue :
    (crc : ℕ) → crc < 2 ^ 16 → fcs_octet (fcs_octet crc (fcs_low crc)) (fcs_high crc) ≡ good_fcs
residue crc h =
    let c = complement crc h in
    let (first, lt) = after_low crc h in
    let meets = tabulated_at 256 _ (crc / 256) meets_entry (omega arith) in
    let mid : ℕ = 0x0f * 2 ^ 8 + bit_xor (crc / 256) 0x78 in
    let upper : mid / 256 ≡ 0x0f = omega arith in
    let lower : mid % 256 ≡ bit_xor (crc / 256) 0x78 = omega arith in
    rw (
      first,
      c.high_lem,
      fcs_octet_lem mid (bit_xor (crc / 256) 255) (omega arith) c.high_lt,
      upper,
      lower,
      (==_iff _ _).0 meets,
      entry_values.1,
    )

-- Writing two octets just past the first `n` of a buffer extends that prefix by them.
take-set_two :
    (n : ℕ) (xs : List ℕ) (a b : ℕ)
    → suc (suc n) ≤ length xs
    → take (suc (suc n)) (set (set xs n a) (suc n) b) ≡ take n xs ++ (a ∷ b ∷ [])
take-set_two zero [] a b h = absurd (omega arith)
take-set_two zero (x ∷ []) a b h = absurd (omega arith)
take-set_two zero (x ∷ y ∷ xs) a b h = refl
take-set_two (suc n) [] a b h = absurd (omega arith)
take-set_two (suc n) (x ∷ xs) a b h = ap (λ t. x ∷ t) (take-set_two n xs a b (omega arith))

prefix_with_fcs :
    (frame : List ℕ) (n a b : ℕ)
    → n + 2 ≤ length frame
    → take (n + 2) (set (set frame n a) (n + 1) b) ≡ take n frame ++ (a ∷ b ∷ [])
prefix_with_fcs frame n a b h = rw (two, one) (take-set_two n frame a b (omega arith))
  where
    two : n + 2 ≡ suc (suc n)
    two = omega arith

    one : n + 1 ≡ suc n
    one = omega arith

pub take-IsBytes : (n : ℕ) (xs : List ℕ) → IsBytes xs → IsBytes (take n xs)
take-IsBytes zero xs h = tt
take-IsBytes (suc n) [] h = tt
take-IsBytes (suc n) (x ∷ xs) h = (h.0, take-IsBytes n xs h.1)

-- Where the buffer of octets has room for the two octets at `offset`, a frame to which
-- `ioHdlcFrameAddFCS_at` has added its sequence passes `ioHdlcFrameCheckFCS_at` over the two more.
pub frame_check_fcs_at-frame_add_fcs_at :
    (frame : List ℕ) (offset : ℕ)
    → IsBytes frame
    → offset + 2 ≤ length frame
    → frame_check_fcs_at (frame_add_fcs_at frame offset) (offset + 2) ≡ true
unfolding frame_check_fcs_at frame_add_fcs_at
frame_check_fcs_at-frame_add_fcs_at frame offset hb room =
    let crc : ℕ = update_fcs fcs_init (take offset frame) in
    let small =
      update_fcs-lt (take offset frame) fcs_init (omega arith) (take-IsBytes offset frame hb) in
    (==_iff _ _).1 (
      ap (update_fcs fcs_init) (prefix_with_fcs frame offset (fcs_low crc) (fcs_high crc) room)
      ∙ update_fcs-append (take offset frame) (fcs_low crc ∷ fcs_high crc ∷ []) fcs_init
      ∙ unfold update_fcs in residue crc small)
