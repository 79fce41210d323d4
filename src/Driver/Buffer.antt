-- ===== src/Driver/Buffer.antt =====
-- Arrays that a transmission writes at their end, and check sequences behind octets.
use io_hdlc.Base.{
  ℕ, bit_and, zero, suc, ◌+◌, ◌/◌, ◌^◌, ◌≤◌, ◌<◌, true, List, [], ◌∷◌, ◌++◌, append_assoc,
  append-nil, ◌≡◌, ◌∙◌, ◌⊎◌, inl, inr, refl, sym, ap, arith, length, length-append, length-set, set,
  take, drop, IsBytes, ltb, Bool-cases,
}
use io_hdlc.Control.{blit}
use io_hdlc.Ll.Fcs.{fcs_finalize, fcs_init, update_fcs, frame_check_fcs_at, frame_add_fcs_at}
use io_hdlc.Ll.Fcs.Residue.{frame_check_fcs_at-frame_add_fcs_at}
use io_hdlc.Driver.Configure.{SwDriverConfig}
use io_hdlc.Driver.Receive.{Fcs, no_fcs, software_fcs, compute_sw, check_sw}
use io_hdlc.Driver.Send.{with_fcs}
use io_hdlc.Driver.Assembly.{overwrite}
use io_hdlc.Ll.Transparency.RoundTrip.{take-front}

pub take-set_end :
    (n : ℕ) (xs : List ℕ) (y : ℕ)
    → n < length xs
    → take (n + 1) (set xs n y) ≡ take n xs ++ (y ∷ [])
take-set_end zero [] y h = absurd (omega arith)
take-set_end zero (x ∷ xs) y h = refl
take-set_end (suc n) [] y h = absurd (omega arith)
take-set_end (suc n) (x ∷ xs) y h =
    let step : suc n + 1 ≡ suc (n + 1) = omega arith in
    rw step (ap (λ t. x ∷ t) (take-set_end n xs y (omega arith)))

pub length-blit : (buf : List ℕ) (k : ℕ) (ys : List ℕ) → length (blit buf k ys) ≡ length buf
unfolding blit
length-blit buf k [] = refl
length-blit buf k (y ∷ ys) = length-blit (set buf k y) (k + 1) ys ∙ length-set buf k y

pub take-blit :
    (buf : List ℕ) (k : ℕ) (ys : List ℕ)
    → k + length ys ≤ length buf
    → take (k + length ys) (blit buf k ys) ≡ take k buf ++ ys
unfolding blit
take-blit buf k [] h = let same_count : k + 0 ≡ k = omega arith in rw (same_count, append-nil) refl
take-blit buf k (y ∷ ys) h =
    let size = length-set buf k y in
    let count : k + suc (length ys) ≡ k + 1 + length ys = omega arith in
    ap (λ t. take t (blit (set buf k y) (k + 1) ys)) count
    ∙ take-blit (set buf k y) (k + 1) ys (omega arith)
    ∙ ap (λ t. t ++ ys) (take-set_end k buf y (omega arith))
    ∙ append_assoc (take k buf) (y ∷ []) ys

-- A field in front of the octets of a buffer.
pub take-blit_front :
    (buf field : List ℕ) (n : ℕ)
    → (length field ≡ 1) ⊎ (length field ≡ 2)
    → length field ≤ n
    → n ≤ length buf
    → take n (blit buf 0 field) ≡ field ++ drop (length field) (take n buf)
unfolding blit
take-blit_front buf [] n (inl h) low high = absurd (omega arith)
take-blit_front buf [] n (inr h) low high = absurd (omega arith)
take-blit_front [] (a ∷ more) n s low high = absurd (omega arith)
take-blit_front (x ∷ buf) (a ∷ more) zero s low high = absurd (omega arith)
take-blit_front (x ∷ buf) (a ∷ []) (suc n) s low high = refl
take-blit_front (x ∷ []) (a ∷ b ∷ more) (suc n) s low high = absurd (omega arith)
take-blit_front (x ∷ y ∷ buf) (a ∷ b ∷ more) (suc zero) s low high = absurd (omega arith)
take-blit_front (x ∷ y ∷ buf) (a ∷ b ∷ []) (suc (suc n)) s low high = refl
take-blit_front (x ∷ y ∷ buf) (a ∷ b ∷ c ∷ more) (suc (suc n)) (inl h) low high =
    absurd (omega arith)
take-blit_front (x ∷ y ∷ buf) (a ∷ b ∷ c ∷ more) (suc (suc n)) (inr h) low high =
    absurd (omega arith)

pub take-overwrite :
    (buf ys zs : List ℕ) → length ys ≤ length buf → take (length ys) (overwrite buf (ys ++ zs)) ≡ ys
take-overwrite buf [] zs h = refl
take-overwrite [] (y ∷ ys) zs h = absurd (omega arith)
take-overwrite (x ∷ buf) (y ∷ ys) zs h = ap (λ t. y ∷ t) (take-overwrite buf ys zs (omega arith))

-- Check sequence functions for sequences of a size: what is computed passes the check behind the
-- octets covered.
pub record IsFcs (size : ℕ) (fcs : Fcs) : Type 0 where
  pub counted : (xs : List ℕ) → length (fcs.compute xs) ≡ size
  pub passes : (xs : List ℕ) → IsBytes xs → fcs.check (xs ++ fcs.compute xs) ≡ true

pub no_fcs-IsFcs : IsFcs 0 no_fcs
no_fcs-IsFcs = record { counted = λ xs. refl; passes = λ xs h. refl }

pub append-IsBytes : (xs ys : List ℕ) → IsBytes xs → IsBytes ys → IsBytes (xs ++ ys)
append-IsBytes [] ys h k = k
append-IsBytes (x ∷ xs) ys h k = (h.0, append-IsBytes xs ys h.1 k)

pub software_fcs-IsFcs : IsFcs 2 software_fcs
unfolding compute_sw check_sw frame_check_fcs_at frame_add_fcs_at
software_fcs-IsFcs = record {
  counted = λ xs. refl;
  passes = λ xs h.
      let n = length xs in
      let frame = xs ++ (0 ∷ 0 ∷ []) in
      let size = length-append xs (0 ∷ 0 ∷ []) in
      let crc = fcs_finalize (update_fcs fcs_init xs) in
      let low = bit_and crc 0xff in
      let first = set frame n low in
      let kept = length-set frame n low in
      let front = take-front xs (0 ∷ 0 ∷ []) in
      let two : n + 2 ≡ n + 1 + 1 = omega arith in
      let written : take (n + 2) (set first (n + 1) (crc / 2 ^ 8))
          ≡ xs ++ (low ∷ (crc / 2 ^ 8) ∷ []) =
        ap (λ t. take t (set first (n + 1) (crc / 2 ^ 8))) two
        ∙ take-set_end (n + 1) first (crc / 2 ^ 8) (omega arith)
        ∙ ap (λ t. t ++ ((crc / 2 ^ 8) ∷ []))
            (take-set_end n frame low (omega arith) ∙ ap (λ t. t ++ (low ∷ [])) front)
        ∙ append_assoc xs (low ∷ []) ((crc / 2 ^ 8) ∷ []) in
      let known =
        frame_check_fcs_at-frame_add_fcs_at frame n (append-IsBytes xs (0 ∷ 0 ∷ []) h (omega arith))
          (omega arith) in
      rw (← written) (rw front at known);
}

empty : (xs : List ℕ) → length xs ≡ 0 → xs ≡ []
empty [] h = refl
empty (x ∷ xs) h = absurd (omega arith)

-- What `with_fcs` leaves: the octets with their check sequence behind them.
module _ (config : SwDriverConfig) (fcs : Fcs) (laws : IsFcs config.fcs_size fcs) where
  pub record Covered (buf : List ℕ) (n : ℕ) (result : List ℕ × ℕ) : Type 0 where
    pub octets : take result.1 result.0 ≡ take n buf ++ fcs.compute (take n buf)
    pub count : result.1 ≡ n + config.fcs_size
    pub size : length result.0 ≡ length buf

  pub with_fcs-Covered :
      (buf : List ℕ) (n : ℕ)
      → n + config.fcs_size ≤ length buf
      → Covered buf n (with_fcs config fcs buf n)
  unfolding with_fcs
  with_fcs-Covered buf n room =
      let xs = take n buf in
      let counted = laws.counted xs in
      elim (Bool-cases (ltb 0 config.fcs_size)) [
        | inl e ↦ rw e (record {
          octets =
              ap (λ t. take t (blit buf n (fcs.compute xs))) (omega arith)
              ∙ take-blit buf n (fcs.compute xs) (omega arith);
          count = refl;
          size = length-blit buf n (fcs.compute xs);
        })
        | inr e ↦
            let none_left : config.fcs_size ≡ 0 = ground arith in
            rw e (record {
              octets =
                  sym (append-nil xs)
                  ∙ ap (λ t. xs ++ t) (sym (empty (fcs.compute xs) (counted ∙ none_left)));
              count = omega arith;
              size = refl;
            })
      ]

pub overwrite-append :
    (buf ys : List ℕ) → length ys ≤ length buf → overwrite buf ys ≡ ys ++ drop (length ys) buf
overwrite-append buf [] h = refl
overwrite-append [] (y ∷ ys) h = absurd (omega arith)
overwrite-append (x ∷ buf) (y ∷ ys) h = ap (λ t. y ∷ t) (overwrite-append buf ys (omega arith))

pub drop-append : (xs ys : List ℕ) → drop (length xs) (xs ++ ys) ≡ ys
drop-append [] ys = refl
drop-append (x ∷ xs) ys = drop-append xs ys

pub drop-IsBytes : (n : ℕ) (xs : List ℕ) → IsBytes xs → IsBytes (drop n xs)
drop-IsBytes zero xs h = h
drop-IsBytes (suc n) [] h = tt
drop-IsBytes (suc n) (x ∷ xs) h = drop-IsBytes n xs h.1
