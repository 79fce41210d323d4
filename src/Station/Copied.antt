-- ===== src/Station/Copied.antt =====
-- A frame of which a reader takes octets.
use io_hdlc.Base.{
  ℕ, ◌+◌, ◌-◌, ◌≤◌, Bool, ◌&&◌, none, some, List, [], ◌∷◌, ◌++◌, append_assoc, ◌≡◌, ◌∙◌, refl, sym,
  ap, arith, length, length-append, All, take, drop, ltb, if◌then◌else◌,
}
use io_hdlc.State.{Station, Frame, Link, Effect, when, if_known, if-elim, emit, broadcast, on_peer}
use io_hdlc.State.Event.{pool_st_chg}
use io_hdlc.Station.Result.{ok}
use io_hdlc.Station.Write.{info_at}
use io_hdlc.Station.Scatter.{written, sizes, Takes, scatter-Takes}
use io_hdlc.Station.Read.{scatter, Reading, ReadPass, info_len, read_frame}
use io_hdlc.Station.Read.ReadPass.{stopped, reads_on}
use io_hdlc.Station.Stream.{
  info, infos, IsWhole, IsReadable, Fits, stream, copied_and_left, length-copied, drop-info_all,
}

-- What a reader that takes octets leads to, where the octets `before` were to come.
pub record Copies (total : ℕ) (before : List ℕ) (r last : Reading) : Type 0 where
  pub kept : stream last ≡ written r.vectors ++ before
  pub same : sizes last.vectors ≡ sizes r.vectors
  pub fits : Fits total last
  pub readable : IsReadable last.link
  pub terminal : last.link.p.terminal ≡ r.link.p.terminal
  pub ss : last.link.p.ss ≡ r.link.p.ss
  pub queue : last.link.p.i_recept_q ≡ r.link.p.i_recept_q

-- A read stops where all octets asked for are there.
abbrev pub FrameRead : ℕ → List ℕ → Reading → ReadPass → Type 0
FrameRead total before r (stopped result last) =
    Copies total before r last × (last.remaining ≡ 0) × (result ≡ ok total)
FrameRead total before r (reads_on last) =
    Copies total before r last × (last.link.p.partial_read_frame ≡ none)

module _ (total k n : ℕ) (fp : Frame) (r : Reading) (w : IsWhole r.link.s fp) (f : Fits total r)
    (inside : k + n ≤ info_len r.link.s fp) (le : n ≤ r.remaining) where
  abbrev s : Station
  s = r.link.s

  abbrev q : List Frame
  q = r.link.p.i_recept_q

  abbrev octets : List ℕ
  octets = take n (drop (info_at s + k) fp.octets)

  copied : length octets ≡ n
  copied = length-copied s fp k n w inside

  taken : Takes octets r.vectors (scatter r.vectors octets)
  taken = let c = copied in let f1 = f.roomy in scatter-Takes r.vectors octets (omega arith)

  kept_lem :
      written (scatter r.vectors octets) ++ (drop (k + n) (info s fp) ++ infos s q)
      ≡ written r.vectors ++ (drop k (info s fp) ++ infos s q)
  kept_lem =
      ap (λ t. t ++ (drop (k + n) (info s fp) ++ infos s q)) taken.whole
      ∙ append_assoc (written r.vectors) octets (drop (k + n) (info s fp) ++ infos s q)
      ∙ ap (λ t. written r.vectors ++ t)
          (sym (append_assoc octets (drop (k + n) (info s fp)) (infos s q))
            ∙ ap (λ t. t ++ infos s q) (copied_and_left s fp k n inside))

  fits_lem :
      (l : Link)
      → Fits total
          (record { link = l; vectors = scatter r.vectors octets; remaining = r.remaining - n })
  fits_lem l =
      let c = copied in
      let t = taken in
      let less = t.less in
      let whole = ap length t.whole ∙ length-append (written r.vectors) octets in
      let f1 = f.roomy in let f2 = f.summed in record { roomy = omega arith; summed = omega arith }

  keeps_lem :
      All (IsWhole s) q
      → Copies total (drop k (info s fp) ++ infos s q) r (record {
        link =
            on_peer
              (λ p. record p { partial_read_frame = some fp; partial_read_offset = k + n })
              r.link;
        vectors = scatter r.vectors octets;
        remaining = r.remaining - n;
      })
  keeps_lem h = record {
    kept = kept_lem;
    same = taken.same;
    fits = fits_lem _;
    readable = record { queued = h; part = (w, inside) };
    terminal = refl;
    ss = refl;
    queue = refl;
  }

  -- The reading after the frame, with a link.
  abbrev read_to : Link → Reading
  read_to l = record { link = l; vectors = scatter r.vectors octets; remaining = r.remaining - n }

  -- The link without the frame.
  abbrev freed : List Effect → Link
  freed log = record {
    s = s;
    p = record (r.link.p) { partial_read_frame = none; partial_read_offset = 0 };
    log = log;
  }

  freed_lem :
      All (IsWhole s) q
      → info_len s fp ≤ k + n
      → (log : List Effect) → Copies total (drop k (info s fp) ++ infos s q) r (read_to (freed log))
  freed_lem h all log = record {
    kept =
        ap (λ t. written (scatter r.vectors octets) ++ (t ++ infos s q))
          (sym (drop-info_all s fp (k + n) all))
        ∙ kept_lem;
    same = taken.same;
    fits = fits_lem _;
    readable = record { queued = h; part = tt };
    terminal = refl;
    ss = refl;
    queue = refl;
  }

  drops_lem :
      All (IsWhole s) q
      → info_len s fp ≤ k + n
      → (b : Bool) (log : List Effect)
      → Copies total
          (drop k (info s fp) ++ infos s q)
          r
          (read_to (when b (emit (broadcast (pool_st_chg ∷ []))) (freed log)))
  drops_lem h all b log =
      if-elim (λ l. Copies total (drop k (info s fp) ++ infos s q) r (read_to l)) b _ _
        (freed_lem h all _) (freed_lem h all _)

-- The octets of a frame, from an offset on, and those of the frames behind it stay in their order.
pub read_frame-FrameRead :
    (total : ℕ) (normal : Bool) (fp : Frame) (k : ℕ) (r : Reading)
    → IsWhole r.link.s fp
    → k ≤ info_len r.link.s fp
    → All (IsWhole r.link.s) r.link.p.i_recept_q
    → Fits total r
    → FrameRead total
        (drop k (info r.link.s fp) ++ infos r.link.s r.link.p.i_recept_q)
        r
        (read_frame total normal fp k r)
unfolding read_frame
read_frame-FrameRead total normal fp k r w h hq f =
    let len = info_len r.link.s fp in
    let n = if ltb (len - k) r.remaining then len - k else r.remaining in
    let inside : k + n ≤ len = ground arith in
    let le : n ≤ r.remaining = ground arith in
    if_known (FrameRead total (drop k (info r.link.s fp) ++ infos r.link.s r.link.p.i_recept_q) r)
      (ltb (k + n) len) _ _
      (λ e.
        let none_left : r.remaining - n ≡ 0 = ground arith in
        (keeps_lem total k n fp r w f inside le hq, none_left, ap ok (omega arith)))
      (λ e. (
        drops_lem total k n fp r w f inside le hq (ground arith) (r.link.s.busy && normal) _,
        if-elim (λ (l : Link). l.p.partial_read_frame ≡ none) (r.link.s.busy && normal) _ _ refl
            refl,
      ))
