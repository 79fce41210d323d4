-- ===== src/Station/Fragment.antt =====
-- The I-frames of a write: how many octets each takes, and which.
use io_hdlc.Base.{
  length-take, ◌%◌, ℕ, zero, suc, ◌+◌, ◌-◌, ◌/◌, ◌≤◌, ◌<◌, bit_and, Bool, true, false, ◌&&◌, ◌||◌,
  List, [], ◌∷◌, ◌++◌, append_assoc, ◌≡◌, ◌≢◌, ◌∙◌, refl, sym, ap, arith, length, length-append,
  take, drop, ltb, leb, ◌==◌, if◌then◌else◌, Bool-cases, inl, inr,
}
use io_hdlc.Base.Bits.{and_mask}
use io_hdlc.State.{Station, Frame, if_known}
use io_hdlc.Station.{Config}
use io_hdlc.State.{peer_disc}
use io_hdlc.Station.Errno.{enotconn, econnreset}
use io_hdlc.Station.Result.{error}
use io_hdlc.Station.Write.{
  chunk_size, gather, info_at, i_frame_of, enqueue, is_reset, Writing, WriteTurn, Pass, write_frame,
}
use io_hdlc.Station.Write.Pass.{ended, goes_on}

-- The octets of the vectors.
abbrev pub octets_of : List (List ℕ) → List ℕ
octets_of [] = []
octets_of (iov ∷ iovs) = iov ++ octets_of iovs

pub take-drop : (n : ℕ) (xs : List ℕ) → take n xs ++ drop n xs ≡ xs
take-drop zero xs = refl
take-drop (suc n) [] = refl
take-drop (suc n) (x ∷ xs) = ap (λ t. x ∷ t) (take-drop n xs)

-- The octets gathered and those left are the octets before, in their order.
pub gather-octets_of :
    (n : ℕ) (iovs : List (List ℕ))
    → (gather n iovs).0 ++ octets_of (gather n iovs).1 ≡ octets_of iovs
unfolding gather
gather-octets_of n [] = refl
gather-octets_of n (iov ∷ iovs) = elim (Bool-cases (leb n (length iov))) [
  | inl h ↦ rw h (
      sym (append_assoc (take n iov) (drop n iov) (octets_of iovs))
      ∙ ap (λ t. t ++ octets_of iovs) (take-drop n iov))
  | inr h ↦ rw h (
      append_assoc iov (gather (n - length iov) iovs).0 (octets_of (gather (n - length iov) iovs).1)
      ∙ ap (λ t. iov ++ t) (gather-octets_of (n - length iov) iovs))
]

-- As many octets are gathered as are asked for, where there are as many.
gather-length :
    (n : ℕ) (iovs : List (List ℕ)) → n ≤ length (octets_of iovs) → length (gather n iovs).0 ≡ n
unfolding gather
gather-length n [] h = omega arith
gather-length n (iov ∷ iovs) h = elim (Bool-cases (leb n (length iov))) [
  | inl e ↦ rw e (length-take n iov (ground arith))
  | inr e ↦
      let total = length-append iov (octets_of iovs) in
      let rest = gather-length (n - length iov) iovs (ground arith) in
      let whole = length-append iov (gather (n - length iov) iovs).0 in rw e (ground arith)
]

-- A size that is halved where a condition holds.
abbrev halved : Bool → ℕ → ℕ
halved b wanted = if b then wanted / 2 else wanted

halved-pos : (b : Bool) (wanted : ℕ) → (b ≡ true → 1 < wanted) → 0 < wanted → 0 < halved b wanted
halved-pos true wanted h pos = let two = h refl in omega arith
halved-pos false wanted h pos = pos

halved-le : (b : Bool) (wanted : ℕ) → halved b wanted ≤ wanted
halved-le true wanted = omega arith
halved-le false wanted = omega arith

-- The length of a frame, whose overhead is `o`, is no flag once it has been halved where it was.
halved-flag :
    (o wanted : ℕ)
    → o ≤ 100
    → (o + halved (ltb 1 wanted && ((o + wanted) % 256 == 126)) wanted) % 256 ≢ 126
halved-flag o wanted small = ground arith

module _ (s : Station) (config : Config) (mifls remaining : ℕ) where
  abbrev wanted : ℕ
  wanted = if ltb remaining mifls then remaining else mifls

  abbrev looks_like_flag : Bool
  looks_like_flag =
      (s.framing.frame_offset == 1)
      && ltb 1 wanted
      && (bit_and (s.framing.frame_offset + 1 + s.framing.ctrl_size + wanted + config.fcs_size) 0xff
          == 0x7e)

  chunk_size-pos : 0 < mifls → 0 < remaining → 0 < chunk_size s config mifls remaining
  unfolding chunk_size
  chunk_size-pos hm hr = halved-pos looks_like_flag wanted (λ h. ground arith) (ground arith)

  chunk_size-le : chunk_size s config mifls remaining ≤ wanted
  unfolding chunk_size
  chunk_size-le = halved-le looks_like_flag wanted

total_halved : (o wanted : ℕ) → o ≤ 100 → (o + wanted) % 256 ≡ 126 → (o + wanted / 2) % 256 ≢ 126
total_halved o wanted small e h = omega arith

no_flag :
    (offset ctrl fcs wanted : ℕ)
    → offset ≡ 1
    → offset + 1 + ctrl + fcs ≤ 100
    → (offset
          + 1
          + ctrl
          + (if (offset == 1)
                && ltb 1 wanted
                && (bit_and (offset + 1 + ctrl + wanted + fcs) 0xff == 0x7e)
              then wanted / 2
              else wanted)
          + fcs)
        % 256
      ≢ 126
no_flag offset ctrl fcs full one small =
    let o = offset + 1 + ctrl + fcs in
    let total = offset + 1 + ctrl + full + fcs in
    let mask = and_mask 8 total in
    let found = (offset == 1) && ltb 1 full && (bit_and total 0xff == 0x7e) in
    if_known (λ n. (offset + 1 + ctrl + n + fcs) % 256 ≢ 126) found (full / 2) full
      (λ (h : found ≡ true) k.
        let flag : total % 256 ≡ 126 = ground arith in
        total_halved o full small (omega arith) (omega arith))
      (λ (h : found ≡ false) k. ground arith)

-- With a frame format field of one octet, no I-frame of a write has the length of a flag octet,
-- where its overhead is at most 100 octets.
pub chunk_size-flag :
    (s : Station) (config : Config) (mifls remaining : ℕ)
    → s.framing.frame_offset ≡ 1
    → info_at s + config.fcs_size ≤ 100
    → (info_at s + chunk_size s config mifls remaining + config.fcs_size) % 256 ≢ 0x7e
unfolding chunk_size
chunk_size-flag s config mifls remaining one small =
    no_flag s.framing.frame_offset s.framing.ctrl_size config.fcs_size
      (if ltb remaining mifls then remaining else mifls) one small

-- What a pass that has a frame leads to: the frame is queued with the next octets of the vectors, at
-- least one and at most as many as fit, or nothing is queued, since the connection has ended.
abbrev pub Fragments : Frame → WriteTurn → Writing → Pass → Type 0
Fragments fp t w (goes_on next) =
    (info : List ℕ) × (0 < length info)
    × (length info ≤ w.link.p.mifls)
    × (info ++ octets_of next.iovs ≡ octets_of w.iovs)
    × (next.remaining ≡ length (octets_of next.iovs))
    × (next.link ≡ enqueue (i_frame_of w.link.s w.link.p fp info) (t.meanwhile w.link))
Fragments fp t w (ended result last) =
    ((is_reset (t.meanwhile w.link) || peer_disc (t.meanwhile w.link).p) ≡ true)
    × (last.link.p ≡ (t.meanwhile w.link).p)
    × (result ≡ error (if is_reset (t.meanwhile w.link) then econnreset else enotconn))

-- A pass of a write that has a frame, with octets left, either queues the frame with the next octets
-- of the vectors, at least one and at most as many as fit, and leaves the others in their order; or
-- the connection has ended meanwhile, nothing is queued and the write fails.
pub write_frame-Fragments :
    (config : Config) (fp : Frame) (t : WriteTurn) (w : Writing)
    → 0 < w.link.p.mifls
    → 0 < w.remaining
    → w.remaining ≡ length (octets_of w.iovs)
    → Fragments fp t w (write_frame config fp t w)
unfolding write_frame
write_frame-Fragments config fp t w hm hr e =
    let l = w.link in
    let m = t.meanwhile l in
    let chunk = chunk_size l.s config l.p.mifls w.remaining in
    let g = gather chunk w.iovs in
    let pos = chunk_size-pos l.s config l.p.mifls w.remaining hm hr in
    let le = chunk_size-le l.s config l.p.mifls w.remaining in
    let len : length g.0 ≡ chunk = gather-length chunk w.iovs (ground arith) in
    let whole = gather-octets_of chunk w.iovs in
    let sum = sym (length-append g.0 (octets_of g.1)) ∙ ap length whole in
    if_known (Fragments fp t w) (is_reset m || peer_disc m.p) _ _ (λ h. (h, refl, refl))
      (λ _. (g.0, omega arith, ground arith, whole, omega arith, refl))
