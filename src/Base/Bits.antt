-- ===== src/Base/Bits.antt =====
-- The bit operations of C as arithmetic: one equation for the lowest binary digit of each, from
-- which masks of low bits, disjoint fields and the laws of exclusive or follow; and a check of
-- every value below a bound by evaluation.
use Prim.Native.Nat.{
  ℕ, zero, suc, ◌+◌, ◌-◌, ◌*◌, ◌/◌, ◌%◌, ◌^◌, ◌≤◌, ◌<◌, min, max, bit_and, bit_or, bit_xor,
}
use Prim.Native.Nat.{digits, differ, bit_and-bitwise, bit_or-bitwise, bit_xor-bitwise}
use mathlib.Core.Path.{◌≡◌, refl, sym, ap, ◌∙◌}
use mathlib.Core.Bool.{Bool, true, ◌&&◌}
use native.Mathlib.Nat.{le_refl, pow-suc, one-le-pow}
use native.Mathlib.Omega.{arith}

-- A test run on every number below a bound.
unfoldable pub tabulated : ℕ → (ℕ → Bool) → Bool
tabulated zero test = true
tabulated (suc top) test = tabulated top test && test top

-- What the run has shown holds of each of these numbers.
pub tabulated_at :
    (bound : ℕ) (test : ℕ → Bool) (value : ℕ)
    → tabulated bound test ≡ true
    → value < bound
    → test value ≡ true
unfolding tabulated
tabulated_at zero test value passed below = absurd (omega arith)
tabulated_at (suc top) test value passed below = ground (arith, tabulated_at top test value)

-- The native operations recur on the digits with the first number as fuel; more fuel is the same.
module _ (z : ℕ → ℕ) (f : ℕ → ℕ → ℕ) where
  digits_enough : (n m a b : ℕ) → a ≤ n → a ≤ m → digits z f n a b ≡ digits z f m a b
  digits_enough zero zero a b p q = refl
  digits_enough zero (suc m) zero b p q = refl
  digits_enough zero (suc m) (suc a) b p q = absurd (omega arith)
  digits_enough (suc n) zero zero b p q = refl
  digits_enough (suc n) zero (suc a) b p q = absurd (omega arith)
  digits_enough (suc n) (suc m) zero b p q = refl
  digits_enough (suc n) (suc m) (suc a) b p q =
      ap (λ t. t * 2 + f (suc a % 2) (b % 2))
        (digits_enough n m (suc a / 2) (b / 2) (omega arith) (omega arith))

pub and_step : (a b : ℕ) → bit_and a b ≡ bit_and (a / 2) (b / 2) * 2 + min (a % 2) (b % 2)
and_step zero b = simp bit_and-bitwise (omega arith)
and_step (suc a) b = simp bit_and-bitwise (
    ap (λ t. t * 2 + min (suc a % 2) (b % 2))
      (digits_enough (λ b. 0) min a (suc a / 2) (suc a / 2) (b / 2) (omega arith) (le_refl _)))

pub or_step : (a b : ℕ) → bit_or a b ≡ bit_or (a / 2) (b / 2) * 2 + max (a % 2) (b % 2)
or_step zero b = simp bit_or-bitwise (omega arith)
or_step (suc a) b = simp bit_or-bitwise (
    ap (λ t. t * 2 + max (suc a % 2) (b % 2))
      (digits_enough (λ b. b) max a (suc a / 2) (suc a / 2) (b / 2) (omega arith) (le_refl _)))

differ_bits : (x y : ℕ) → x < 2 → y < 2 → differ x y ≡ (x + y) % 2
differ_bits zero y p q = omega arith
differ_bits (suc zero) zero p q = refl
differ_bits (suc zero) (suc zero) p q = refl
differ_bits (suc zero) (suc (suc y)) p q = absurd (omega arith)
differ_bits (suc (suc x)) y p q = absurd (omega arith)

differ_mod : (a b : ℕ) → differ (a % 2) (b % 2) ≡ (a + b) % 2
differ_mod a b = omega (arith, differ_bits (a % 2) (b % 2) (omega arith) (omega arith))

pub zero-bit_xor : (b : ℕ) → bit_xor 0 b ≡ b
zero-bit_xor b = bit_xor-bitwise 0 b

xor_digit : (a b : ℕ) → bit_xor a b ≡ bit_xor (a / 2) (b / 2) * 2 + differ (a % 2) (b % 2)
xor_digit zero b =
    omega (
      arith,
      zero-bit_xor b,
      zero-bit_xor (b / 2),
      differ_bits 0 (b % 2) (omega arith) (omega arith),
    )
xor_digit (suc a) b = simp bit_xor-bitwise (
    ap (λ t. t * 2 + differ (suc a % 2) (b % 2))
      (digits_enough (λ b. b) differ a (suc a / 2) (suc a / 2) (b / 2) (omega arith) (le_refl _)))

pub xor_step : (a b : ℕ) → bit_xor a b ≡ bit_xor (a / 2) (b / 2) * 2 + (a + b) % 2
xor_step a b = omega (arith, xor_digit a b, differ_mod a b)

pub half_xor : (a b : ℕ) → bit_xor a b / 2 ≡ bit_xor (a / 2) (b / 2)
half_xor a b = omega (arith, xor_step a b)

-- All arguments lose their lowest digit at each step, so a bound on them is the fuel.
xor_regroup :
    (n a b c : ℕ) → a ≤ n → b ≤ n → c ≤ n → bit_xor (bit_xor a b) c ≡ bit_xor a (bit_xor b c)
xor_regroup zero zero b c p q r =
    ap (λ t. bit_xor t c) (zero-bit_xor b) ∙ sym (zero-bit_xor (bit_xor b c))
xor_regroup zero (suc a) b c p q r = absurd (omega arith)
xor_regroup (suc n) a b c p q r = omega (
  arith,
  xor_step a b,
  xor_step b c,
  xor_step (bit_xor a b) c,
  xor_step a (bit_xor b c),
  ap (λ t. bit_xor t (c / 2)) (half_xor a b),
  ap (λ t. bit_xor (a / 2) t) (half_xor b c),
  xor_regroup n (a / 2) (b / 2) (c / 2) (omega arith) (omega arith) (omega arith),
)

pub xor_assoc : (a b c : ℕ) → bit_xor (bit_xor a b) c ≡ bit_xor a (bit_xor b c)
xor_assoc a b c = xor_regroup (a + b + c) a b c (omega arith) (omega arith) (omega arith)

xor_swap : (n a b : ℕ) → a ≤ n → b ≤ n → bit_xor a b ≡ bit_xor b a
xor_swap zero zero zero p q = refl
xor_swap zero zero (suc b) p q = absurd (omega arith)
xor_swap zero (suc a) b p q = absurd (omega arith)
xor_swap (suc n) a b p q =
    omega
      (arith, xor_step a b, xor_step b a, xor_swap n (a / 2) (b / 2) (omega arith) (omega arith))

pub xor_comm : (a b : ℕ) → bit_xor a b ≡ bit_xor b a
xor_comm a b = xor_swap (a + b) a b (omega arith) (omega arith)

pub bit_xor-zero : (a : ℕ) → bit_xor a 0 ≡ a
bit_xor-zero a = xor_comm a 0 ∙ zero-bit_xor a

xor_same : (n a : ℕ) → a ≤ n → bit_xor a a ≡ 0
xor_same n zero p = refl
xor_same zero (suc a) p = absurd (omega arith)
xor_same (suc n) (suc a) p =
    omega (arith, xor_step (suc a) (suc a), xor_same n (suc a / 2) (omega arith))

pub xor_self : (a : ℕ) → bit_xor a a ≡ 0
xor_self a = xor_same a a (omega arith)

pub xor_cancel : (a b : ℕ) → bit_xor (bit_xor a b) b ≡ a
xor_cancel a b = xor_assoc a b b ∙ ap (λ t. bit_xor a t) (xor_self b) ∙ bit_xor-zero a

pub xor_injective : (a b c : ℕ) → bit_xor a c ≡ bit_xor b c → a ≡ b
xor_injective a b c e = sym (xor_cancel a c) ∙ ap (λ t. bit_xor t c) e ∙ xor_cancel b c

pub double_field : (q k : ℕ) → q * 2 ^ suc k ≡ 2 * (q * 2 ^ k)
double_field q k = omega (arith, ap (λ (t : ℕ). q * t) (pow-suc 2 k))

-- Exclusive or, or, and and work apart on the parts below and above bit `k`.
pub xor_fields :
    (k h g l m : ℕ)
    → l < 2 ^ k
    → m < 2 ^ k
    → (bit_xor (h * 2 ^ k + l) (g * 2 ^ k + m) ≡ bit_xor h g * 2 ^ k + bit_xor l m)
      × (bit_xor l m < 2 ^ k)
xor_fields zero h g zero zero p q = (ground arith, omega arith)
xor_fields zero h g zero (suc m) p q = absurd (omega arith)
xor_fields zero h g (suc l) m p q = absurd (omega arith)
xor_fields (suc k) h g l m p q =
    let size = pow-suc 2 k in
    let (above, below) = xor_fields k h g (l / 2) (m / 2) (omega arith) (omega arith) in
    let hs = double_field h k in
    let gs = double_field g k in
    let xs = double_field (bit_xor h g) k in
    let sum = xor_step l m in
    (ground (arith, xor_step (h * 2 ^ suc k + l) (g * 2 ^ suc k + m)), omega arith)

pub bit_or-zero : (a : ℕ) → bit_or a 0 ≡ a
bit_or-zero a = or_zero_fuel a a (omega arith)
  where
    or_zero_fuel : (n a : ℕ) → a ≤ n → bit_or a 0 ≡ a
    or_zero_fuel n zero p = refl
    or_zero_fuel zero (suc a) p = absurd (omega arith)
    or_zero_fuel (suc n) (suc a) p =
        omega (arith, or_step (suc a) 0, or_zero_fuel n (suc a / 2) (omega arith))

pub or_fields : (k q r : ℕ) → r < 2 ^ k → bit_or (q * 2 ^ k) r ≡ q * 2 ^ k + r
or_fields zero q zero p = omega (arith, bit_or-zero (q * 2 ^ 0))
or_fields zero q (suc r) p = absurd (omega arith)
or_fields (suc k) q r p =
    let size = pow-suc 2 k in
    let ih = or_fields k q (r / 2) (omega arith) in
    let qs = double_field q k in ground (arith, or_step (q * 2 ^ suc k) r)

and-zero_fuel : (n a : ℕ) → a ≤ n → bit_and a 0 ≡ 0
and-zero_fuel n zero p = refl
and-zero_fuel zero (suc a) p = absurd (omega arith)
and-zero_fuel (suc n) (suc a) p =
    omega (arith, and_step (suc a) 0, and-zero_fuel n (suc a / 2) (omega arith))

and_low : (k q r : ℕ) → r < 2 ^ k → bit_and (q * 2 ^ k + r) (2 ^ k - 1) ≡ r
and_low zero q r p = ground (arith, and-zero_fuel (q * 2 ^ 0 + r) (q * 2 ^ 0 + r))
and_low (suc k) q r p =
    let size = pow-suc 2 k in
    let pos = one-le-pow k 2 in
    let qs = double_field q k in
    let ih = and_low k q (r / 2) (omega arith) in
    ground (arith, and_step (q * 2 ^ suc k + r) (2 ^ suc k - 1))

-- A mask of `k` ones keeps the remainder by `2 ^ k`.
pub and_mask : (k a : ℕ) → bit_and a (2 ^ k - 1) ≡ a % 2 ^ k
and_mask k a = let pos = one-le-pow k 2 in ground (arith, and_low k (a / 2 ^ k) (a % 2 ^ k))

-- A small second number only meets the lower part.
pub xor_low :
    (k h l m : ℕ)
    → l < 2 ^ k
    → m < 2 ^ k
    → (bit_xor (h * 2 ^ k + l) m ≡ h * 2 ^ k + bit_xor l m) × (bit_xor l m < 2 ^ k)
xor_low k h l m p q =
    let (sum, lt) = xor_fields k h 0 l m p q in
    (
      ap (λ t. bit_xor (h * 2 ^ k + l) t) (omega arith)
          ∙ sum
          ∙ ap (λ t. t * 2 ^ k + bit_xor l m) (bit_xor-zero h),
      lt,
    )
