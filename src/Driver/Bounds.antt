-- ===== src/Driver/Bounds.antt =====
-- Where the octets that the receiver asks for go.
use io_hdlc.Base.{
  ℕ, ◌+◌, ◌-◌, ◌%◌, ◌^◌, ◌≤◌, ◌<◌, not, ◌&&◌, Option, none, some, ◌≡◌, ◌∙◌, ◌⊎◌, inl, inr, refl,
  sym, ap, subst, arith, get_or, ltb, leb, ◌==◌, Bool-cases,
}
use io_hdlc.State.{Frame, if_known, if-elim}
use io_hdlc.Ll.Transparency.{flag}
use io_hdlc.Driver.Field.{RxFff, rx_type0, rx_type1_first, rx_type1_second}
use io_hdlc.Driver.Field.RxFff.{length_known, more, delimiter, discarded}
use io_hdlc.Driver.Configure.{SwDriverConfig}
use io_hdlc.Driver.Receive.{
  RxTarget, RxSubmit, RxState, RxStep, RxError, handle_rx_error, on_rx, on_octets, on_field,
  on_delimiter, accumulate, new_frame, into_buffer, from_start, discard, known, on_data, on_silence,
}
use io_hdlc.Driver.Receive.RxTarget.{staged, buffer}
use io_hdlc.Driver.Receive.RxError.{no_error, timed_out, failed}

-- The frame under assembly is shorter than a buffer of the pool.
abbrev pub IsShort : ℕ → RxState → Type 0
IsShort framesize st = (fp : Frame) → st.in_frame ≡ some fp → fp.elen < framesize

-- The octets asked for have room: the staging octet, while no frame is assembled, or octets of the
-- buffer of the frame that is.
abbrev pub HasPlace : ℕ → Option Frame → RxTarget → ℕ → Type 0
HasPlace framesize none staged n = n ≡ 1
HasPlace framesize none (buffer k) n = ⊥
HasPlace framesize (some fp) staged n = ⊥
HasPlace framesize (some fp) (buffer k) n = (fp.elen < framesize) × (k + n ≤ framesize)

-- The field of the frame under assembly, of type 1, declares a length of one octet.
abbrev pub DeclaresOne : SwDriverConfig → ℕ → Option Frame → Type 0
DeclaresOne config framesize none = ⊥
DeclaresOne config framesize (some fp) =
    (config.frame_format_size ≡ 2)
    × (rx_type1_second framesize (get_or fp.octets 0 0) (get_or fp.octets 1 0) ≡ length_known 1)

-- A request before the label `newframe` and behind it.
abbrev pub IsReady : SwDriverConfig → ℕ → Option Frame → RxSubmit → Type 0
IsReady config framesize none r = r.n ≡ 1
IsReady config framesize (some fp) r =
    HasPlace framesize (some fp) r.target r.n × ((0 < r.n) ⊎ DeclaresOne config framesize (some fp))

abbrev pub IsSafe : SwDriverConfig → ℕ → Option Frame → RxSubmit → Type 0
IsSafe config framesize in_frame r =
    HasPlace framesize in_frame r.target r.n × ((0 < r.n) ⊎ DeclaresOne config framesize in_frame)

discarded_frame :
    (st : RxState) (o : Option Frame) → st.in_frame ≡ o → (handle_rx_error st).in_frame ≡ none
unfolding handle_rx_error
discarded_frame st none e = rw (handle_rx_error, e) e
discarded_frame st (some fp) e = rw (handle_rx_error, e) refl

record Safe (config : SwDriverConfig) (framesize : ℕ) (x : RxState × RxSubmit) : Type 0 where
  safe : IsSafe config framesize x.0.in_frame x.1

-- The same of a pair, as a record.
record Ready (config : SwDriverConfig) (framesize : ℕ) (x : RxState × RxSubmit) : Type 0 where
  ready : IsReady config framesize x.0.in_frame x.1

type0_range :
    (framesize b0 n : ℕ) → rx_type0 framesize b0 ≡ length_known n → (0 < n) × (n < framesize)
unfolding rx_type0
type0_range framesize b0 n h = (ground arith, ground arith)

type1_range :
    (framesize b0 b1 n : ℕ)
    → rx_type1_second framesize b0 b1 ≡ length_known n
    → (0 < n) × (n < framesize)
unfolding rx_type1_second
type1_range framesize b0 b1 n h = (ground arith, ground arith)

module _ (config : SwDriverConfig) (framesize : ℕ) (low : 4 < framesize)
    (high : framesize < 2 ^ 16) where
  discarded_lem : (st : RxState) → Ready config framesize (discard st)
  discarded_lem st = record {
    ready =
        subst (λ (o : Option Frame). IsReady config framesize o from_start)
          (sym (discarded_frame st st.in_frame refl)) refl;
  }

  accumulate_lem :
      (fp : Frame) (st : RxState)
      → fp.elen < framesize
      → Ready config framesize (accumulate framesize fp st)
  unfolding accumulate
  accumulate_lem fp st h =
      let whole : (fp.elen + 1) % 2 ^ 16 ≡ fp.elen + 1 = omega arith in
      if_known (Ready config framesize) (leb framesize ((fp.elen + 1) % 2 ^ 16)) _ _
        (λ _. discarded_lem st)
        (λ e.
          let shorter : fp.elen + 1 < framesize = ground arith in
          record { ready = ((omega arith, omega arith), inl (omega arith)) })

  on_delimiter_lem :
      (fp : Frame) (st : RxState)
      → st.in_frame ≡ some fp
      → fp.elen < framesize
      → Ready config framesize (on_delimiter fp st)
  unfolding on_delimiter
  on_delimiter_lem fp st e h =
      if_known (Ready config framesize) (fp.elen == 0) _ _
        (λ _. record {
          ready =
              subst (λ (o : Option Frame). IsReady config framesize o (into_buffer 0 1)) (sym e)
                ((h, omega arith), inl (omega arith));
        })
        (λ _.
          if_known (Ready config framesize) (ltb fp.elen 4) _ _
            (λ _. record { ready = ((omega arith, omega arith), inl (omega arith)) })
            (λ _. record { ready = refl }))

  type0_lem :
      (fp : Frame) (st : RxState) (t : RxFff)
      → rx_type0 framesize (get_or fp.octets 0 0) ≡ t
      → Ready config framesize (elim t [ length_known n ↦ known n 1 n fp st | _ ↦ discard st ])
  type0_lem fp st delimiter e = discarded_lem st
  type0_lem fp st discarded e = discarded_lem st
  type0_lem fp st more e = discarded_lem st
  type0_lem fp st (length_known n) e =
      let (pos, fits) = type0_range framesize (get_or fp.octets 0 0) n e in
      record { ready = ((fits, omega arith), inl pos) }

  type1_first_lem :
      (fp : Frame) (st : RxState) (t : RxFff)
      → Ready config framesize (elim t [ more ↦ known 1 1 1 fp st | _ ↦ discard st ])
  type1_first_lem fp st delimiter = discarded_lem st
  type1_first_lem fp st discarded = discarded_lem st
  type1_first_lem fp st more = record { ready = ((omega arith, omega arith), inl (omega arith)) }
  type1_first_lem fp st (length_known n) = discarded_lem st

  type1_second_lem :
      (fp : Frame) (st : RxState) (t : RxFff)
      → config.frame_format_size ≡ 2
      → rx_type1_second framesize (get_or fp.octets 0 0) (get_or fp.octets 1 0) ≡ t
      → Ready config framesize
          (elim t [ length_known n ↦ known n 2 (n - 1) fp st | _ ↦ discard st ])
  type1_second_lem fp st delimiter two e = discarded_lem st
  type1_second_lem fp st discarded two e = discarded_lem st
  type1_second_lem fp st more two e = discarded_lem st
  type1_second_lem fp st (length_known n) two e =
      let (pos, fits) = type1_range framesize (get_or fp.octets 0 0) (get_or fp.octets 1 0) n e in
      record {
        ready = (
          (fits, omega arith),
          elim (Bool-cases (n == 1)) [
            | inl one ↦ let is_one : n ≡ 1 = ground arith in inr (two, e ∙ ap length_known is_one)
            | inr not_one ↦ inl (ground arith)
          ],
        );
      }

  on_field_lem :
      (fp : Frame) (st : RxState)
      → fp.elen < framesize
      → Ready config framesize (on_field config framesize fp st)
  unfolding on_field
  on_field_lem fp st h =
      if_known (Ready config framesize) (config.frame_format_size == 1 && (fp.elen == 0)) _ _
        (λ _. type0_lem fp st (rx_type0 framesize (get_or fp.octets 0 0)) refl)
        (λ _.
          if_known (Ready config framesize) (config.frame_format_size == 2) _ _
            (λ two.
              if_known (Ready config framesize) (fp.elen == 0) _ _
                (λ _. type1_first_lem fp st (rx_type1_first (get_or fp.octets 0 0)))
                (λ _.
                  if_known (Ready config framesize) (fp.elen == 1) _ _
                    (λ _.
                      type1_second_lem fp st
                        (rx_type1_second framesize (get_or fp.octets 0 0) (get_or fp.octets 1 0))
                        (ground arith) refl)
                    (λ _. accumulate_lem fp st h)))
            (λ _. accumulate_lem fp st h))

  on_octets_lem :
      (fp : Frame) (st : RxState)
      → st.in_frame ≡ some fp
      → fp.elen < framesize
      → Ready config framesize (on_octets config framesize fp st)
  unfolding on_octets
  on_octets_lem fp st e h =
      if-elim (Ready config framesize) _ _ _ (on_delimiter_lem fp st e h)
        (if-elim (Ready config framesize) _ _ _ (on_field_lem fp st h) (accumulate_lem fp st h))

  idle_lem :
      (st : RxState) (r : RxSubmit)
      → st.in_frame ≡ none
      → r.n ≡ 1
      → Safe config framesize (st, record r { target = staged })
  idle_lem st r e one = record {
    safe =
        subst (λ (o : Option Frame). IsSafe config framesize o (record r { target = staged }))
          (sym e) (one, inl (omega arith));
  }

  new_frame_lem :
      (taken : Option Frame) (st : RxState) (r : RxSubmit) (o : Option Frame)
      → st.in_frame ≡ o
      → IsReady config framesize o r
      → Safe config framesize (new_frame taken (st, r))
  unfolding new_frame
  new_frame_lem taken st r (some fp) e h =
      rw (new_frame, e)
        (record { safe = subst (λ (o : Option Frame). IsSafe config framesize o r) (sym e) h })
  new_frame_lem none st r none e h =
      rw (new_frame, e)
        (if-elim (Safe config framesize) (not (st.stagep == flag)) _ _ (idle_lem st r e h)
          (idle_lem (record st { stagep = 0 }) r e h))
  new_frame_lem (some fp) st r none e h =
      rw (new_frame, e)
        (if-elim (Safe config framesize) (not (st.stagep == flag)) _ _ (idle_lem st r e h)
          (record { safe = ((omega arith, omega arith), inl (omega arith)) }))

  ready_lem :
      (taken : Option Frame) (x : RxState × RxSubmit)
      → Ready config framesize x
      → Safe config framesize (new_frame taken x)
  ready_lem taken x h = new_frame_lem taken x.0 x.1 x.0.in_frame refl h.ready

-- What a call of `s_on_rx` asks for, if it asks.
abbrev pub AsksSafely : SwDriverConfig → ℕ → RxStep → Type 0
AsksSafely config framesize step = elim step.submit [
  | none ↦ Unit
  | some r ↦ IsSafe config framesize step.state.in_frame r
]

-- With buffers of more than 4 and less than 2 ^ 16 octets, whenever the receiver asks for octets, on
-- an octet, a time-out or an error, they have room where they go: in the staging octet while no frame
-- is assembled, else within the buffer of the frame, which is shorter than the buffer. It asks for at
-- least one, but for a frame whose field of type 1 declares a length of one octet.
pub on_rx-AsksSafely :
    (config : SwDriverConfig) (framesize : ℕ) (taken : Option Frame) (event : RxError)
    (st : RxState)
    → 4 < framesize
    → framesize < 2 ^ 16
    → ((fp : Frame) → st.in_frame ≡ some fp → fp.elen < framesize)
    → AsksSafely config framesize (on_rx config framesize taken event st)
unfolding on_rx
on_rx-AsksSafely config framesize taken no_error st low high short = go st.in_frame refl
  where
    go :
        (o : Option Frame)
        → st.in_frame ≡ o
        → AsksSafely config framesize (on_data config framesize taken o st)
    go none e = (new_frame_lem config framesize low high taken st from_start none e refl).safe
    go (some fp) e =
        (ready_lem config framesize low high taken (on_octets config framesize fp st)
          (on_octets_lem config framesize low high fp st e (short fp e))).safe
on_rx-AsksSafely config framesize taken timed_out st low high short = go st.in_frame
  where
    go : (o : Option Frame) → AsksSafely config framesize (on_silence taken o st)
    go none = tt
    go (some fp) =
        if-elim (AsksSafely config framesize) (fp.elen == 0) _ _ tt
          (ready_lem config framesize low high taken (discard st)
            (discarded_lem config framesize low high st)).safe
on_rx-AsksSafely config framesize taken failed st low high short =
    (ready_lem config framesize low high taken (discard st)
      (discarded_lem config framesize low high st)).safe
