-- ===== src/Ll/Fcs/Detect.antt =====
-- The check of src/ioHdlcll.c detects every change of one octet.
use io_hdlc.Base.{
  ℕ, zero, suc, ◌+◌, ◌*◌, ◌/◌, ◌%◌, ◌^◌, ◌<◌, bit_xor, true, false, List, [], ◌∷◌, ◌≡◌, ◌≢◌, refl,
  sym, ap, ◌∙◌, arith, ◌==◌, ==_iff, if◌then◌else◌, length, take, set, get_or, IsBytes,
}
use io_hdlc.Base.Bits.{tabulated, tabulated_at, xor_low, xor_injective, xor_comm}
use io_hdlc.Ll.Fcs.{fcstab, fcs_entry, fcs_octet, update_fcs, fcs_init, frame_check_fcs_at}
use io_hdlc.Ll.Fcs.Residue.{take-IsBytes}
use io_hdlc.Ll.Fcs.Table.{fcs_octet_lem, fcs_octet-lt, fcs_entry-lt}

-- The position of the table entry with a given upper octet: no two entries share one.
find_upper : ℕ → List ℕ → ℕ
find_upper v [] = 0
find_upper v (e ∷ es) = if e / 256 == v then 0 else suc (find_upper v es)

uppers_differ : tabulated 256 (λ i. find_upper (fcs_entry i / 256) fcstab == i) ≡ true
unfolding tabulated find_upper fcs_entry
uppers_differ = refl

fcs_entry_injective : (i j : ℕ) → i < 256 → j < 256 → fcs_entry i / 256 ≡ fcs_entry j / 256 → i ≡ j
fcs_entry_injective i j hi hj e =
    sym ((==_iff _ _).0 (tabulated_at 256 _ i uppers_differ hi))
    ∙ ap (λ t. find_upper t fcstab) e
    ∙ (==_iff _ _).0 (tabulated_at 256 _ j uppers_differ hj)

-- The upper octet of a round's result is that of the table entry.
round_upper : (u e : ℕ) → u < 256 → e < 2 ^ 16 → bit_xor u e / 256 ≡ e / 256
round_upper u e hu he =
    let (sum, lt) = xor_low 8 (e / 256) (e % 256) u (omega arith) hu in
    omega (arith, xor_comm u e, ap (λ t. bit_xor t u) (split e), sum)
  where
    split : (c : ℕ) → c ≡ c / 256 * 2 ^ 8 + c % 256
    split c = omega arith

-- A round can be run backwards: its result gives the table index and the upper octet.
round_injective :
    (c d x y : ℕ)
    → c < 2 ^ 16
    → d < 2 ^ 16
    → x < 256
    → y < 256
    → fcs_octet c x ≡ fcs_octet d y
    → (bit_xor (c % 256) x ≡ bit_xor (d % 256) y) × (c / 256 ≡ d / 256)
round_injective c d x y hc hd hx hy e =
    let (_, i_lt) = xor_low 8 0 (c % 256) x (omega arith) hx in
    let (_, j_lt) = xor_low 8 0 (d % 256) y (omega arith) hy in
    let i : ℕ = bit_xor (c % 256) x in
    let j : ℕ = bit_xor (d % 256) y in
    let same : bit_xor (c / 256) (fcs_entry i) ≡ bit_xor (d / 256) (fcs_entry j) =
      sym (fcs_octet_lem c x hc hx) ∙ e ∙ fcs_octet_lem d y hd hy in
    let indices : i ≡ j = fcs_entry_injective i j i_lt j_lt (
      sym (round_upper (c / 256) (fcs_entry i) (omega arith) (fcs_entry-lt i i_lt))
      ∙ ap (λ t. t / 256) same
      ∙ round_upper (d / 256) (fcs_entry j) (omega arith) (fcs_entry-lt j j_lt)) in
    (
      indices,
      xor_injective (c / 256) (d / 256) (fcs_entry j)
          (ap (λ t. bit_xor (c / 256) (fcs_entry t)) (sym indices) ∙ same),
    )

pub fcs_octet_injective :
    (c d x : ℕ) → c < 2 ^ 16 → d < 2 ^ 16 → x < 256 → fcs_octet c x ≡ fcs_octet d x → c ≡ d
fcs_octet_injective c d x hc hd hx e =
    let (low, high) = round_injective c d x x hc hd hx hx e in
    omega (arith, xor_injective (c % 256) (d % 256) x low)

octet_injective :
    (c x y : ℕ) → c < 2 ^ 16 → x < 256 → y < 256 → fcs_octet c x ≡ fcs_octet c y → x ≡ y
octet_injective c x y hc hx hy e =
    let (low, high) = round_injective c c x y hc hc hx hy e in
    xor_injective x y (c % 256) (xor_comm x (c % 256) ∙ low ∙ xor_comm (c % 256) y)

update_fcs_injective :
    (buf : List ℕ) (c d : ℕ)
    → c < 2 ^ 16
    → d < 2 ^ 16
    → IsBytes buf
    → update_fcs c buf ≡ update_fcs d buf
    → c ≡ d
unfolding update_fcs
update_fcs_injective [] c d hc hd hb e = e
update_fcs_injective (x ∷ xs) c d hc hd hb e = fcs_octet_injective c d x hc hd hb.0 (
    update_fcs_injective xs (fcs_octet c x) (fcs_octet d x) (fcs_octet-lt c x hc hb.0)
      (fcs_octet-lt d x hd hb.0) hb.1 e)

-- Changing one octet of the first `n` changes the register after them.
update_fcs-set :
    (buf : List ℕ) (n i y c : ℕ)
    → c < 2 ^ 16
    → IsBytes buf
    → y < 256
    → i < n
    → i < length buf
    → y ≢ get_or buf i 0
    → update_fcs c (take n (set buf i y)) ≢ update_fcs c (take n buf)
unfolding update_fcs
update_fcs-set [] n i y c hc hb hy hn hi ne e = absurd (omega arith)
update_fcs-set (x ∷ xs) zero i y c hc hb hy hn hi ne e = absurd (omega arith)
update_fcs-set (x ∷ xs) (suc n) zero y c hc hb hy hn hi ne e = ne (
    octet_injective c y x hc hy hb.0 (
      update_fcs_injective (take n xs) (fcs_octet c y) (fcs_octet c x) (fcs_octet-lt c y hc hy)
        (fcs_octet-lt c x hc hb.0) (take-IsBytes n xs hb.1) e))
update_fcs-set (x ∷ xs) (suc n) (suc i) y c hc hb hy hn hi ne e =
    update_fcs-set xs n i y (fcs_octet c x) (fcs_octet-lt c x hc hb.0) hb.1 hy (omega arith)
      (omega arith) ne e

-- In a buffer of octets whose first `total_len` octets pass `ioHdlcFrameCheckFCS_at`, changing any
-- one of these octets to another octet makes the check fail.
pub frame_check_fcs_at-set :
    (frame : List ℕ) (total_len i y : ℕ)
    → IsBytes frame
    → y < 256
    → i < total_len
    → i < length frame
    → y ≢ get_or frame i 0
    → frame_check_fcs_at frame total_len ≡ true
    → frame_check_fcs_at (set frame i y) total_len ≡ false
unfolding frame_check_fcs_at
frame_check_fcs_at-set frame total_len i y hb hy hn hi ne passes =
    let differs = update_fcs-set frame total_len i y fcs_init (omega arith) hb hy hn hi ne in
    ground arith
