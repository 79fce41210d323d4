-- ===== src/Ll/Transparency/RoundTrip.antt =====
-- Decoding in place gives back the octets that were encoded.
use io_hdlc.Base.{
  ℕ, zero, suc, ◌+◌, ◌%◌, ◌^◌, ◌<◌, bit_xor, false, List, [], ◌∷◌, ◌++◌, append_assoc, append-nil,
  subst, ◌≡◌, refl, sym, ap, ◌∙◌, inl, inr, arith, length, length-append, get_or, set, take, drop,
  ◌==◌, Bool-cases,
}
use io_hdlc.Base.Bits.{xor_cancel}
use io_hdlc.Ll.Transparency.Encoded.{
  encoded, encoded_special, encoded_plain, length-le-encode_octets,
}
use io_hdlc.Ll.Transparency.{
  ctlesc, tmask, is_special, encode_octets, frame_transparent_encode, decode_loop,
  frame_transparent_decode,
}

get_or-append :
    (xs ys : List ℕ) (i k : ℕ) → k ≡ length xs + i → get_or (xs ++ ys) k 0 ≡ get_or ys i 0
get_or-append [] ys i k e = ap (λ t. get_or ys t 0) (omega arith)
get_or-append (x ∷ xs) ys i zero e = absurd (omega arith)
get_or-append (x ∷ xs) ys i (suc k) e = get_or-append xs ys i k (omega arith)

set-append : (xs ys : List ℕ) (v : ℕ) → set (xs ++ ys) (length xs) v ≡ xs ++ set ys 0 v
set-append [] ys v = refl
set-append (x ∷ xs) ys v = ap (λ t. x ∷ t) (set-append xs ys v)

-- The octets between the two indices after `x` has been written over the first of them.
abbrev shifted : List ℕ → List ℕ → List ℕ
shifted gap used = drop 1 (gap ++ used)

set-shifted :
    (gap : List ℕ) (u : ℕ) (used rest : List ℕ) (v : ℕ)
    → set (gap ++ ((u ∷ used) ++ rest)) 0 v ≡ v ∷ (shifted gap (u ∷ used) ++ rest)
set-shifted [] u used rest v = refl
set-shifted (g ∷ gap) u used rest v = ap (λ t. v ∷ t) (sym (append_assoc gap (u ∷ used) rest))

length-shifted :
    (gap : List ℕ) (u : ℕ) (used : List ℕ)
    → length (shifted gap (u ∷ used)) ≡ length gap + length used
length-shifted [] u used = omega arith
length-shifted (g ∷ gap) u used = omega (arith, length-append gap (u ∷ used))

-- One write of the loop: the decoded octet `v` joins the front, the octets read join the gap.
write_front :
    (front gap : List ℕ) (u : ℕ) (used rest : List ℕ) (v : ℕ)
    → set (front ++ (gap ++ ((u ∷ used) ++ rest))) (length front) v
      ≡ (front ++ (v ∷ [])) ++ (shifted gap (u ∷ used) ++ rest)
write_front front gap u used rest v =
    set-append front (gap ++ ((u ∷ used) ++ rest)) v
    ∙ ap (λ t. front ++ t) (set-shifted gap u used rest v)
    ∙ sym (append_assoc front (v ∷ []) (shifted gap (u ∷ used) ++ rest))

read_at :
    (front gap ys : List ℕ) (i k : ℕ)
    → k ≡ length front + length gap + i
    → get_or (front ++ (gap ++ ys)) k 0 ≡ get_or ys i 0
read_at front gap ys i k e =
    get_or-append front (gap ++ ys) (length gap + i) k (omega arith)
    ∙ get_or-append gap ys i (length gap + i) refl

pub take-front : (xs ys : List ℕ) → take (length xs) (xs ++ ys) ≡ xs
take-front [] ys = refl
take-front (x ∷ xs) ys = ap (λ t. x ∷ t) (take-front xs ys)

-- The loop has decoded `front` and read up to the end of `gap`; what is left encodes `xs`.
record Decodes (front xs : List ℕ) (result : List ℕ × ℕ) : Type 0 where
  count : result.1 ≡ length front + length xs
  octets : take (length front + length xs) result.0 ≡ front ++ xs

Decodes-next :
    {front xs : List ℕ} {x : ℕ} {result : List ℕ × ℕ}
    → Decodes (front ++ (x ∷ [])) xs result
    → Decodes front (x ∷ xs) result
Decodes-next {front} {xs} {x} {result} d =
    let len : length (front ++ (x ∷ [])) ≡ length front + 1 =
      omega (arith, length-append front (x ∷ [])) in
    record {
      count = omega arith;
      octets = ap (λ t. take t result.0) (omega arith) ∙ d.octets ∙ append_assoc front (x ∷ []) xs;
    }

decode_escape :
    (left from to : ℕ) (buf : List ℕ)
    → get_or buf from 0 ≡ ctlesc
    → decode_loop (suc (suc left)) from to buf
      ≡ decode_loop left (from + 2) (to + 1) (set buf to (bit_xor (get_or buf (from + 1) 0) tmask))
unfolding decode_loop
decode_escape left from to buf e = rw (e, decode_loop)

decode_plain :
    (left from to : ℕ) (buf : List ℕ) (x : ℕ)
    → get_or buf from 0 ≡ x
    → (ctlesc == x) ≡ false
    → decode_loop (suc left) from to buf ≡ decode_loop left (from + 1) (to + 1) (set buf to x)
unfolding decode_loop
decode_plain zero from to buf x e n = rw (e, n, decode_loop) (ap (λ t. (set buf to t, to + 1)) e)
decode_plain (suc left) from to buf x e n =
    rw (e, n, decode_loop) (ap (λ t. decode_loop (suc left) (from + 1) (to + 1) (set buf to t)) e)

special_cases : (x : ℕ) → is_special x ≡ false → (ctlesc == x) ≡ false
special_cases x h = ground arith

-- What the loop leaves of an array in which an encoding stands behind `front` and `gap`.
abbrev At : List ℕ → List ℕ → List ℕ → List ℕ → ℕ → ℕ → List ℕ → Type 0
At front gap rest xs from to wire =
    Decodes front xs (decode_loop (length wire) from to (front ++ (gap ++ (wire ++ rest))))

escape_round :
    (front gap : List ℕ) (x : ℕ) (tail : List ℕ) (left from to : ℕ)
    → to ≡ length front
    → from ≡ length front + length gap
    → decode_loop (suc (suc left)) from to (front ++ (gap ++ (ctlesc ∷ bit_xor x tmask ∷ tail)))
      ≡ decode_loop left
          (from + 2)
          (to + 1)
          ((front ++ (x ∷ [])) ++ (shifted gap (ctlesc ∷ bit_xor x tmask ∷ []) ++ tail))
escape_round front gap x tail left from to a b =
    let ys = ctlesc ∷ bit_xor x tmask ∷ tail in
    let buf = front ++ (gap ++ ys) in
    let first : get_or buf from 0 ≡ ctlesc = read_at front gap ys 0 from (omega arith) in
    let second : get_or buf (from + 1) 0 ≡ bit_xor x tmask =
      read_at front gap ys 1 (from + 1) (omega arith) in
    decode_escape left from to buf first
    ∙ ap (λ t. decode_loop left (from + 2) (to + 1) (set buf to (bit_xor t tmask))) second
    ∙ ap (λ t. decode_loop left (from + 2) (to + 1) (set buf to t)) (xor_cancel x tmask)
    ∙ ap (λ t. decode_loop left (from + 2) (to + 1) (set buf t x)) a
    ∙ ap (decode_loop left (from + 2) (to + 1))
        (write_front front gap ctlesc (bit_xor x tmask ∷ []) tail x)

plain_round :
    (front gap : List ℕ) (x : ℕ) (tail : List ℕ) (left from to : ℕ)
    → (ctlesc == x) ≡ false
    → to ≡ length front
    → from ≡ length front + length gap
    → decode_loop (suc left) from to (front ++ (gap ++ (x ∷ tail)))
      ≡ decode_loop left (from + 1) (to + 1) ((front ++ (x ∷ [])) ++ (shifted gap (x ∷ []) ++ tail))
plain_round front gap x tail left from to n a b =
    let buf = front ++ (gap ++ (x ∷ tail)) in
    decode_plain left from to buf x (read_at front gap (x ∷ tail) 0 from (omega arith)) n
    ∙ ap (λ t. decode_loop left (from + 1) (to + 1) (set buf t x)) a
    ∙ ap (decode_loop left (from + 1) (to + 1)) (write_front front gap x [] tail x)

loop-Decodes :
    (xs rest front gap : List ℕ) (from to : ℕ)
    → to ≡ length front
    → from ≡ length front + length gap
    → At front gap rest xs from to (encoded xs)
loop-Decodes [] rest front gap from to a b =
    unfold encode_octets decode_loop in
    record {
      count = omega arith;
      octets =
          ap (λ t. take t (front ++ (gap ++ rest))) (omega arith)
          ∙ take-front front (gap ++ rest)
          ∙ sym (append-nil front);
    }
loop-Decodes (x ∷ xs) rest front gap from to a b = elim (Bool-cases (is_special x)) [
  | inl special ↦ subst (At front gap rest (x ∷ xs) from to) (sym (encoded_special x xs special)) (
      subst (Decodes front (x ∷ xs))
        (sym (escape_round front gap x (encoded xs ++ rest) (length (encoded xs)) from to a b))
        (Decodes-next (
          loop-Decodes xs rest (front ++ (x ∷ [])) (shifted gap (ctlesc ∷ bit_xor x tmask ∷ []))
            (from + 2) (to + 1) (omega (arith, grown))
            (omega (arith, grown, length-shifted gap ctlesc (bit_xor x tmask ∷ []))))))
  | inr plain ↦ subst (At front gap rest (x ∷ xs) from to) (sym (encoded_plain x xs plain)) (
      subst (Decodes front (x ∷ xs))
        (sym (
          plain_round front gap x (encoded xs ++ rest) (length (encoded xs)) from to
            (special_cases x plain) a b))
        (Decodes-next (
          loop-Decodes xs rest (front ++ (x ∷ [])) (shifted gap (x ∷ [])) (from + 1) (to + 1)
            (omega (arith, grown)) (omega (arith, grown, length-shifted gap x [])))))
]
  where
    grown : length (front ++ (x ∷ [])) ≡ length front + 1
    grown = length-append front (x ∷ [])

-- Where the encoding of a frame fits a `uint16_t`, the frame that it is written to, whatever stands
-- behind it in the buffer, is decoded in place to the octets encoded, and `elen` becomes their
-- number again.
pub frame_transparent_decode-frame_transparent_encode :
    (src rest : List ℕ)
    → length (frame_transparent_encode src).octets < 2 ^ 16
    → let wire = frame_transparent_encode src in
      let (frame, elen) = frame_transparent_decode (wire.octets ++ rest) wire.elen in
      (elen ≡ length src) × (take elen frame ≡ src)
unfolding frame_transparent_encode frame_transparent_decode
frame_transparent_decode-frame_transparent_encode src rest small =
    let d = loop-Decodes src rest [] [] 0 0 refl refl in
    let n = length (encoded src) in
    let len : n % 2 ^ 16 % 2 ^ 16 ≡ n = omega arith in
    let longer = length-le-encode_octets src in
    let out = decode_loop n 0 0 (encoded src ++ rest) in
    let fits : out.1 % 2 ^ 16 ≡ 0 + length src = let c = d.count in omega arith in
    subst
      (λ k.
        let (buf, to) = decode_loop k 0 0 (encoded src ++ rest) in
        (to % 2 ^ 16 ≡ length src) × (take (to % 2 ^ 16) buf ≡ src))
      (sym len) (omega arith, ap (λ t. take t out.0) fits ∙ d.octets)
