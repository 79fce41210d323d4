-- ===== src/Ll/Transparency/Encoded.antt =====
-- What an encoded frame of src/ioHdlcll.c looks like on the wire.
use io_hdlc.Base.{
  ℕ, ◌*◌, ◌≤◌, bit_xor, true, false, List, [], ◌∷◌, ◌≡◌, ◌≢◌, ◌⊎◌, inl, inr, arith, subst, sym,
  length, Bool-cases, All,
}
use io_hdlc.Ll.Transparency.{flag, ctlesc, tmask, is_special, encode_octets}

abbrev pub encoded : List ℕ → List ℕ
encoded xs = (encode_octets xs).0

pub encoded_special :
    (x : ℕ) (xs : List ℕ)
    → is_special x ≡ true
    → encoded (x ∷ xs) ≡ ctlesc ∷ bit_xor x tmask ∷ encoded xs
unfolding encode_octets
encoded_special x xs h = ground arith

pub encoded_plain : (x : ℕ) (xs : List ℕ) → is_special x ≡ false → encoded (x ∷ xs) ≡ x ∷ encoded xs
unfolding encode_octets
encoded_plain x xs h = ground arith

escaped_values : (octet : ℕ) → is_special octet ≡ true → bit_xor octet tmask ≢ flag
escaped_values octet h e = ground (arith, which octet h)
  where
    which : (x : ℕ) → is_special x ≡ true → (x ≡ flag) ⊎ (x ≡ ctlesc)
    which x p = ground arith

plain_ne_flag : (octet : ℕ) → is_special octet ≡ false → octet ≢ flag
plain_ne_flag octet h e = ground arith

ctlesc_ne_flag : ctlesc ≢ flag
ctlesc_ne_flag = omega arith

-- No octet of an encoded frame is the flag, and the encoding is at most twice as long as the
-- frame.
pub encode_octets_bounds :
    (src : List ℕ)
    → All (λ x. x ≢ flag) (encode_octets src).0 × (length (encode_octets src).0 ≤ 2 * length src)
encode_octets_bounds [] = (unfold encode_octets in tt, unfold encode_octets in omega arith)
encode_octets_bounds (octet ∷ src) =
    let (clean, short) = encode_octets_bounds src in
    elim (Bool-cases (is_special octet)) [
      | inl special ↦
          subst Clean (sym (encoded_special octet src special))
            ((ctlesc_ne_flag, (escaped_values octet special, clean)), omega arith)
      | inr plain ↦
          subst Clean (sym (encoded_plain octet src plain))
            ((plain_ne_flag octet plain, clean), omega arith)
    ]
  where
    Clean : List ℕ → Type 0
    Clean out = All (λ x. x ≢ flag) out × (length out ≤ 2 * length (octet ∷ src))

pub length-le-encode_octets : (src : List ℕ) → length src ≤ length (encode_octets src).0
length-le-encode_octets [] = unfold encode_octets in omega arith
length-le-encode_octets (octet ∷ src) =
    let rest = length-le-encode_octets src in
    elim (Bool-cases (is_special octet)) [
      | inl special ↦
          subst (λ (t : List ℕ). length (octet ∷ src) ≤ length t)
            (sym (encoded_special octet src special)) (omega arith)
      | inr plain ↦
          subst (λ (t : List ℕ). length (octet ∷ src) ≤ length t)
            (sym (encoded_plain octet src plain)) (omega arith)
    ]
