-- ===== src/Driver/Assembly.antt =====
-- The frames that the driver assembles from the octets of the line.
use io_hdlc.Base.{
  ℕ, ◌+◌, ◌%◌, ◌^◌, ◌≤◌, ◌<◌, true, false, not, ◌&&◌, ◌||◌, some, List, [], ◌∷◌, ◌++◌, ◌≡◌, ◌≢◌,
  ◌∙◌, ◌⊎◌, refl, ap, arith, length, length-append, get_or, set, ltb, leb, ◌==◌,
}
use io_hdlc.State.{Frame}
use io_hdlc.Ll.Transparency.{flag}
use io_hdlc.Driver.Configure.{SwDriverConfig}
use io_hdlc.Driver.Receive.{
  RxState, on_rx, on_octets, on_delimiter, accumulate, new_frame, into_buffer,
}
use io_hdlc.Driver.Line.{Line, line_octet, line_octets}

-- A buffer whose first octets are written over.
abbrev pub overwrite : List ℕ → List ℕ → List ℕ
overwrite xs [] = xs
overwrite [] (y ∷ ys) = []
overwrite (x ∷ xs) (y ∷ ys) = y ∷ overwrite xs ys

pub set-overwrite :
    (buf xs : List ℕ) (i y : ℕ)
    → i ≡ length xs
    → set (overwrite buf xs) i y ≡ overwrite buf (xs ++ (y ∷ []))
set-overwrite [] [] i y e = refl
set-overwrite [] (x ∷ xs) i y e = refl
set-overwrite (b ∷ buf) [] i y e = rw e refl
set-overwrite (b ∷ buf) (x ∷ xs) i y e =
    rw e (ap (λ t. x ∷ t) (set-overwrite buf xs (length xs) y refl))

pub get_or-overwrite :
    (buf xs ys : List ℕ) (i y : ℕ)
    → i ≡ length xs
    → i < length buf
    → get_or (overwrite buf (xs ++ (y ∷ ys))) i 0 ≡ y
get_or-overwrite [] xs ys i y e h = absurd (omega arith)
get_or-overwrite (b ∷ buf) [] ys i y e h = rw e refl
get_or-overwrite (b ∷ buf) (x ∷ xs) ys i y e h =
    rw e (get_or-overwrite buf xs ys (length xs) y refl (omega arith))

-- The frame of a buffer that holds the octets, with a length.
abbrev pub filled : Frame → List ℕ → ℕ → Frame
filled blank xs n = record blank { octets = overwrite blank.octets xs; elen = n }

-- The driver assembles a frame of which the octets `xs` are there.
abbrev pub assembling : Frame → List ℕ → ℕ → RxState → RxState
assembling blank xs n st = record st { stagep = 0; in_frame = some (filled blank xs n) }

abbrev pub waiting : Frame → List ℕ → RxState → Line
waiting blank xs st = record {
  rx = assembling blank xs (length xs) st;
  armed = into_buffer (length xs) 1;
  got = 0;
}

-- The driver has delivered a frame with the octets `xs`, and a delimiter behind them.
abbrev pub delivered : Frame → List ℕ → RxState → RxState
delivered blank xs st = record st {
  recept_q = st.recept_q ++ (filled blank (xs ++ (flag ∷ [])) (length xs) ∷ []);
  recept_sem = st.recept_sem + 1;
}

module _ (config : SwDriverConfig) (framesize : ℕ) (blank : Frame)
    (room : framesize ≤ length blank.octets) (bound : framesize ≤ 2 ^ 16) where
  -- The last of the octets asked for comes.
  pub last_octet :
      (xs : List ℕ) (n k got m y : ℕ) (st : RxState)
      → got + 1 ≡ m
      → k + got ≡ length xs
      → line_octet config framesize
          (some blank)
          y
          (record { rx = assembling blank xs n st; armed = into_buffer k m; got = got })
        ≡ (let (after, submit) = new_frame (some blank) (
              on_octets config framesize
                (filled blank (xs ++ (y ∷ [])) n)
                (assembling blank (xs ++ (y ∷ [])) n st)) in
            record { rx = after; armed = submit; got = 0 })
  unfolding line_octet on_rx
  last_octet xs n k got m y st e at =
      let last : (got + 1 == m) ≡ true = ground arith in
      rw (last, set-overwrite blank.octets xs (k + got) y at) refl

  -- Another of them.
  pub next_octet :
      (xs : List ℕ) (n k got m y : ℕ) (st : RxState)
      → got + 1 < m
      → k + got ≡ length xs
      → line_octet config framesize
          (some blank)
          y
          (record { rx = assembling blank xs n st; armed = into_buffer k m; got = got })
        ≡ record {
          rx = assembling blank (xs ++ (y ∷ [])) n st;
          armed = into_buffer k m;
          got = got + 1;
        }
  unfolding line_octet
  next_octet xs n k got m y st e at =
      let more : (got + 1 == m) ≡ false = ground arith in
      rw (more, set-overwrite blank.octets xs (k + got) y at) refl

  -- A delimiter behind at least four octets.
  pub delimited :
      (xs : List ℕ) (k got m : ℕ) (st : RxState)
      → got + 1 ≡ m
      → k + got ≡ length xs
      → 4 ≤ length xs
      → length xs < framesize
      → line_octet config framesize
          (some blank)
          flag
          (record { rx = assembling blank xs (length xs) st; armed = into_buffer k m; got = got })
        ≡ waiting blank [] (delivered blank xs st)
  unfolding on_octets on_delimiter new_frame
  delimited xs k got m st e at long fits =
      let octet = get_or-overwrite blank.octets xs [] (length xs) flag refl (omega arith) in
      let test : (not (config.frame_format_size == 2) || not (length xs == 1)) ≡ true =
        ground arith in
      let some_octets : (length xs == 0) ≡ false = ground arith in
      let enough : ltb (length xs) 4 ≡ false = ground arith in
      last_octet xs (length xs) k got m flag st e at ∙ rw (octet, test, some_octets, enough) refl

  -- An octet that is no delimiter, where no field is read.
  pub plain_octet :
      (xs : List ℕ) (y : ℕ) (st : RxState)
      → y ≢ flag
      → length xs + 1 < framesize
      → (config.frame_format_size ≡ 0) ⊎ (config.apply_transparency ≡ true)
      → line_octet config framesize (some blank) y (waiting blank xs st)
        ≡ waiting blank (xs ++ (y ∷ [])) st
  unfolding on_octets accumulate new_frame
  plain_octet xs y st ne fits plain =
      let octet = get_or-overwrite blank.octets xs [] (length xs) y refl (omega arith) in
      let no_flag : (y == flag) ≡ false = ground arith in
      let test : (not (config.frame_format_size == 0) && not config.apply_transparency) ≡ false =
        ground arith in
      let grown = length-append xs (y ∷ []) in
      let small : (length xs + 1) % 2 ^ 16 ≡ length (xs ++ (y ∷ [])) = omega arith in
      let kept : leb framesize (length (xs ++ (y ∷ []))) ≡ false = ground arith in
      let here : length xs + 1 ≡ length (xs ++ (y ∷ [])) = omega arith in
      last_octet xs (length xs) (length xs) 0 1 y st refl (omega arith)
      ∙ rw (octet, no_flag, test, small, kept, here) refl

pub line_octets-append :
    (config : SwDriverConfig) (framesize : ℕ) (blank : Frame) (xs ys : List ℕ) (line : Line)
    → line_octets config framesize blank (xs ++ ys) line
      ≡ line_octets config framesize blank ys (line_octets config framesize blank xs line)
unfolding line_octets
line_octets-append config framesize blank [] ys line = refl
line_octets-append config framesize blank (x ∷ xs) ys line =
    line_octets-append config framesize blank xs ys
      (line_octet config framesize (some blank) x line)
