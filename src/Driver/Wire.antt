-- ===== src/Driver/Wire.antt =====
-- Whole frames that come over the line, for each kind of framing.
use io_hdlc.Base.{
  ℕ, suc, ◌+◌, ◌-◌, ◌^◌, ◌≤◌, ◌<◌, bit_and, true, false, not, ◌&&◌, ◌||◌, some, List, [], ◌∷◌, ◌++◌,
  append_assoc, append-nil, ◌≡◌, ◌≢◌, ◌∙◌, ◌⊎◌, inl, inr, refl, sym, ap, subst, arith, length,
  length-append, All, ◌==◌, Bool-cases,
}
use io_hdlc.State.{Frame}
use io_hdlc.Ll.Transparency.{flag}
use io_hdlc.Driver.Field.{RxFff, rx_type0, rx_type1_first, rx_type1_second, and_then, rx_fff}
use io_hdlc.Driver.Field.RxFff.{length_known, more}
use io_hdlc.Driver.Configure.{SwDriverConfig}
use io_hdlc.Driver.Receive.{RxState, on_octets, on_field, new_frame, into_buffer}
use io_hdlc.Driver.Line.{Line, line_octet, line_octets}
use io_hdlc.Driver.Assembly.{
  assembling, waiting, delivered, get_or-overwrite, last_octet, next_octet, delimited, plain_octet,
  line_octets-append,
}

-- No octet is a delimiter.
abbrev pub NoFlag : List ℕ → Type 0
NoFlag = All (λ y. y ≢ flag)

module _ (config : SwDriverConfig) (framesize : ℕ) (blank : Frame)
    (room : framesize ≤ length blank.octets) (bound : framesize ≤ 2 ^ 16) where
  abbrev feed : List ℕ → Line → Line
  feed = line_octets config framesize blank

  plain_octets :
      (xs ys : List ℕ) (st : RxState)
      → NoFlag ys
      → length xs + length ys < framesize
      → (config.frame_format_size ≡ 0) ⊎ (config.apply_transparency ≡ true)
      → feed ys (waiting blank xs st) ≡ waiting blank (xs ++ ys) st
  unfolding line_octets
  plain_octets xs [] st clean fits plain = rw append-nil refl
  plain_octets xs (y ∷ ys) st clean fits plain =
      let grown = length-append xs (y ∷ []) in
      ap (feed ys)
        (plain_octet config framesize blank room bound xs y st clean.0 (omega arith) plain)
      ∙ plain_octets (xs ++ (y ∷ [])) ys st clean.1 (omega arith) plain
      ∙ ap (λ t. waiting blank t st) (append_assoc xs (y ∷ []) ys)

  plain_frame :
      (octets : List ℕ) (st : RxState)
      → NoFlag octets
      → 4 ≤ length octets
      → length octets < framesize
      → (config.frame_format_size ≡ 0) ⊎ (config.apply_transparency ≡ true)
      → feed (octets ++ (flag ∷ [])) (waiting blank [] st)
        ≡ waiting blank [] (delivered blank octets st)
  unfolding line_octets
  plain_frame octets st clean long fits plain =
      line_octets-append config framesize blank octets (flag ∷ []) (waiting blank [] st)
      ∙ ap (feed (flag ∷ [])) (plain_octets [] octets st clean (omega arith) plain)
      ∙ delimited config framesize blank room bound octets (length octets) 0 1 st refl (omega arith)
          long fits

  -- Octets of one transfer, all but the last.
  transfer_octets :
      (xs ys : List ℕ) (n k got m : ℕ) (st : RxState)
      → got + length ys < m
      → k + got ≡ length xs
      → feed ys (record { rx = assembling blank xs n st; armed = into_buffer k m; got = got })
        ≡ record {
          rx = assembling blank (xs ++ ys) n st;
          armed = into_buffer k m;
          got = got + length ys;
        }
  unfolding line_octets
  transfer_octets xs [] n k got m st e at =
      let same_count : got + 0 ≡ got = omega arith in rw (append-nil, same_count) refl
  transfer_octets xs (y ∷ ys) n k got m st e at =
      let grown = length-append xs (y ∷ []) in
      let count : got + 1 + length ys ≡ got + suc (length ys) = omega arith in
      ap (feed ys) (next_octet config framesize blank room bound xs n k got m y st (omega arith) at)
      ∙ transfer_octets (xs ++ (y ∷ [])) ys n k (got + 1) m st (omega arith) (omega arith)
      ∙ rw (append_assoc xs (y ∷ []) ys, count) refl

  -- A transfer that ends with the delimiter of the frame.
  transfer :
      (xs ys : List ℕ) (k m : ℕ) (st : RxState)
      → k ≡ length xs
      → length ys + 1 ≡ m
      → 4 ≤ length (xs ++ ys)
      → length (xs ++ ys) < framesize
      → feed (ys ++ (flag ∷ [])) (record {
        rx = assembling blank xs (length (xs ++ ys)) st;
        armed = into_buffer k m;
        got = 0;
      })
        ≡ waiting blank [] (delivered blank (xs ++ ys) st)
  unfolding line_octets
  transfer xs ys k m st at size long fits =
      let all = length-append xs ys in
      line_octets-append config framesize blank ys (flag ∷ []) _
      ∙ ap (feed (flag ∷ []))
          (transfer_octets xs ys (length (xs ++ ys)) k 0 m st (omega arith) (omega arith))
      ∙ delimited config framesize blank room bound (xs ++ ys) k (0 + length ys) m st (omega arith)
          (omega arith) long fits

  type0_frame :
      (b0 : ℕ) (rest : List ℕ) (st : RxState)
      → config.frame_format_size ≡ 1
      → config.apply_transparency ≡ false
      → b0 ≡ suc (length rest)
      → rx_type0 framesize b0 ≡ length_known b0
      → b0 ≢ flag
      → 4 ≤ length (b0 ∷ rest)
      → length (b0 ∷ rest) < framesize
      → feed (b0 ∷ rest ++ (flag ∷ [])) (waiting blank [] st)
        ≡ waiting blank [] (delivered blank (b0 ∷ rest) st)
  unfolding line_octets on_octets on_field new_frame
  type0_frame b0 rest st one clear len known ne long fits =
      let octet = get_or-overwrite blank.octets [] [] 0 b0 refl (omega arith) in
      let no_flag : (b0 == flag) ≡ false = ground arith in
      let known_state : ℕ → Line =
        λ n. record { rx = assembling blank (b0 ∷ []) n st; armed = into_buffer 1 n; got = 0 } in
      ap (feed (rest ++ (flag ∷ []))) (
        last_octet config framesize blank room bound [] 0 0 0 1 b0 st refl refl
        ∙ rw (octet, no_flag, one, clear, known) refl
        ∙ ap known_state len)
      ∙ transfer (b0 ∷ []) rest 1 (suc (length rest)) st refl (omega arith) long fits

  type1_frame :
      (b0 b1 : ℕ) (rest : List ℕ) (st : RxState)
      → config.frame_format_size ≡ 2
      → config.apply_transparency ≡ false
      → rx_type1_first b0 ≡ more
      → b0 ≢ flag
      → rx_type1_second framesize b0 b1 ≡ length_known (length (b0 ∷ b1 ∷ rest))
      → 4 ≤ length (b0 ∷ b1 ∷ rest)
      → length (b0 ∷ b1 ∷ rest) < framesize
      → feed (b0 ∷ b1 ∷ rest ++ (flag ∷ [])) (waiting blank [] st)
        ≡ waiting blank [] (delivered blank (b0 ∷ b1 ∷ rest) st)
  unfolding line_octets on_octets on_field new_frame
  type1_frame b0 b1 rest st two clear first ne known long fits =
      let octet0 = get_or-overwrite blank.octets [] [] 0 b0 refl (omega arith) in
      let octet1 = get_or-overwrite blank.octets [] (b1 ∷ []) 0 b0 refl (omega arith) in
      let octet2 = get_or-overwrite blank.octets (b0 ∷ []) [] 1 b1 refl (omega arith) in
      let no_flag : (b0 == flag) ≡ false = ground arith in
      let field : ((b1 == flag) && (not (2 == 2) || not (1 == 1))) ≡ false = ground arith in
      let left : suc (suc (length rest)) - 1 ≡ suc (length rest) = omega arith in
      ap (λ t. feed (rest ++ (flag ∷ [])) (line_octet config framesize (some blank) b1 t))
        (last_octet config framesize blank room bound [] 0 0 0 1 b0 st refl refl
          ∙ rw (octet0, no_flag, two, clear, first) refl)
      ∙ ap (feed (rest ++ (flag ∷ []))) (
          last_octet config framesize blank room bound (b0 ∷ []) 1 1 0 1 b1 st refl refl
          ∙ rw (octet2, octet1, two, field, clear, known, left) refl)
      ∙ transfer (b0 ∷ b1 ∷ []) rest 2 (suc (length rest)) st refl (omega arith) long fits

-- A frame that the driver can receive, by the framing: its octets and no delimiter, or a length of
-- one or two octets before the others.
abbrev pub IsOnWire : SwDriverConfig → ℕ → List ℕ → Type 0
IsOnWire config framesize octets =
    (4 ≤ length octets)
    × (length octets < framesize)
    × (((config.frame_format_size ≡ 0) ⊎ (config.apply_transparency ≡ true)) × NoFlag octets
        ⊎ ((config.apply_transparency ≡ false)
            × (config.frame_format_size ≡ 1 ⊎ config.frame_format_size ≡ 2)
            × (rx_fff config.frame_format_size framesize octets ≡ length_known (length octets))))

type0_known : (framesize b0 n : ℕ) → rx_type0 framesize b0 ≡ length_known n → (b0 ≡ n) × (b0 ≢ flag)
unfolding rx_type0
type0_known framesize b0 n h = (ground arith, ground arith)

type1_known :
    (framesize b0 b1 n : ℕ)
    → and_then (rx_type1_first b0) (rx_type1_second framesize b0 b1) ≡ length_known n
    → (rx_type1_first b0 ≡ more) × (b0 ≢ flag) × (rx_type1_second framesize b0 b1 ≡ length_known n)
unfolding rx_type1_first
type1_known framesize b0 b1 n h = elim (Bool-cases (b0 == flag)) [
  | inl e ↦ absurd (ground arith)
  | inr e ↦ elim (Bool-cases (bit_and b0 0xf0 == 0x80)) [
    | inl g ↦
        let first : rx_type1_first b0 ≡ more = rw (e, g) refl in
        (
          first,
          (ground arith),
          subst (λ (t : RxFff). and_then t (rx_type1_second framesize b0 b1) ≡ length_known n) first
              h,
        )
    | inr g ↦ absurd (ground arith)
  ]
]

module _ (config : SwDriverConfig) (framesize : ℕ) (blank : Frame)
    (room : framesize ≤ length blank.octets) (bound : framesize ≤ 2 ^ 16) where
  pub one_frame :
      (octets : List ℕ) (st : RxState)
      → IsOnWire config framesize octets
      → line_octets config framesize blank (octets ++ (flag ∷ [])) (waiting blank [] st)
        ≡ waiting blank [] (delivered blank octets st)
  unfolding rx_fff
  one_frame [] st (long, fits, rest) = absurd (omega arith)
  one_frame (b0 ∷ []) st (long, fits, rest) = absurd (omega arith)
  one_frame (b0 ∷ b1 ∷ octets) st (long, fits, inl (plain, clean)) =
      plain_frame config framesize blank room bound (b0 ∷ b1 ∷ octets) st clean long fits plain
  one_frame (b0 ∷ b1 ∷ octets) st (long, fits, inr (clear, inl one, known)) =
      let field : rx_type0 framesize b0 ≡ length_known (length (b0 ∷ b1 ∷ octets)) =
        rw one at known in
      let (same, ne) = type0_known framesize b0 (length (b0 ∷ b1 ∷ octets)) field in
      type0_frame config framesize blank room bound b0 (b1 ∷ octets) st one clear same
        (field ∙ ap length_known (sym same)) ne long fits
  one_frame (b0 ∷ b1 ∷ octets) st (long, fits, inr (clear, inr two, known)) =
      let (first, ne, second) =
        type1_known framesize b0 b1 (length (b0 ∷ b1 ∷ octets)) (rw two at known) in
      type1_frame config framesize blank room bound b0 b1 octets st two clear first ne second long
        fits
