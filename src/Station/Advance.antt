-- ===== src/Station/Advance.antt =====
-- A pass of `ioHdlcReadVTmo` that finds a frame.
use io_hdlc.Base.{
  ℕ, ◌+◌, ◌<◌, Bool, none, some, List, [], ◌∷◌, ◌++◌, append-nil, ◌≡◌, ◌∙◌, refl, sym, ap, subst,
  arith, length, All, if◌then◌else◌,
}
use io_hdlc.State.{Frame, Link, on_peer}
use io_hdlc.Station.Result.{ok}
use io_hdlc.Station.Scatter.{written, sizes}
use io_hdlc.Station.Read.{Reading, ReadPass, is_there, read_frame}
use io_hdlc.Station.Read.ReadPass.{stopped, reads_on}
use io_hdlc.Station.Stream.{
  info, infos, unread, IsPart, part_left, IsWhole, IsReadable, Fits, stream,
}
use io_hdlc.Station.Copied.{Copies, FrameRead, read_frame-FrameRead}

-- What a pass keeps, where the octets `brought` came while it waited.
pub record Carries (total : ℕ) (brought : List ℕ) (r last : Reading) : Type 0 where
  pub kept : stream last ≡ stream r ++ brought
  pub same : sizes last.vectors ≡ sizes r.vectors
  pub fits : Fits total last
  pub readable : IsReadable last.link

-- How many frames wait for a reader.
abbrev pub frames : Link → ℕ
frames l = (if is_there l.p.partial_read_frame then 1 else 0) + length l.p.i_recept_q

-- What a pass that finds data leads to: all octets asked for are there, or a frame has gone.
abbrev pub Advances : ℕ → Reading → ReadPass → Type 0
Advances total r (stopped result last) =
    Carries total [] r last × (last.remaining ≡ 0) × (result ≡ ok total)
Advances total r (reads_on last) =
    Carries total [] r last
    × (last.link.p.terminal ≡ r.link.p.terminal)
    × (last.link.p.ss ≡ r.link.p.ss)
    × (frames last.link < frames r.link)

module _ (total : ℕ) (r s : Reading) (vectors : s.vectors ≡ r.vectors)
    (terminal : s.link.p.terminal ≡ r.link.p.terminal) (ss : s.link.p.ss ≡ r.link.p.ss)
    (more : length s.link.p.i_recept_q < frames r.link) where
  carried : (last : Reading) → Copies total (unread r.link) s last → Carries total [] r last
  carried last c = record {
    kept = c.kept ∙ ap (λ v. written v ++ unread r.link) vectors ∙ sym (append-nil (stream r));
    same = c.same ∙ ap sizes vectors;
    fits = c.fits;
    readable = c.readable;
  }

  frame-Advances :
      (pass : ReadPass) → FrameRead total (unread r.link) s pass → Advances total r pass
  frame-Advances (stopped result last) (c, e, h) = (carried last c, e, h)
  frame-Advances (reads_on last) (c, e) =
      let gone : frames last.link ≡ length s.link.p.i_recept_q =
        ap (λ o. (if is_there o then 1 else 0) + length last.link.p.i_recept_q) e
        ∙ ap (λ q. 0 + length q) c.queue
        ∙ omega arith in
      (carried last c, c.terminal ∙ terminal, c.ss ∙ ss, omega arith)

-- The octets of the frame that is read in part, and those of the frames behind it.
pub part-Advances :
    (total : ℕ) (normal : Bool) (fp : Frame) (r : Reading)
    → r.link.p.partial_read_frame ≡ some fp
    → Fits total r
    → IsReadable r.link
    → Advances total r (read_frame total normal fp r.link.p.partial_read_offset r)
part-Advances total normal fp r e f h =
    let l = r.link in
    let (w, inside) = subst (λ o. IsPart l.s l.p.partial_read_offset o) e h.part in
    let more : length l.p.i_recept_q < frames l =
      subst (λ o. length l.p.i_recept_q < (if is_there o then 1 else 0) + length l.p.i_recept_q)
        (sym e) (omega arith) in
    frame-Advances total r r refl refl refl more _ (
      subst
        (λ o.
          FrameRead total (part_left l.s l.p.partial_read_offset o ++ infos l.s l.p.i_recept_q) r
            (read_frame total normal fp l.p.partial_read_offset r))
        (sym e)
        (read_frame-FrameRead total normal fp l.p.partial_read_offset r w inside h.queued f))

-- The reading without the first frame of the queue.
abbrev popped : List Frame → Reading → Reading
popped q r = record r {
  link = on_peer (λ p. record p { i_recept_q = q; partial_read_offset = 0 }) r.link;
}

pub queue-Advances :
    (total : ℕ) (normal : Bool) (fp : Frame) (q : List Frame) (r : Reading)
    → r.link.p.partial_read_frame ≡ none
    → r.link.p.i_recept_q ≡ fp ∷ q
    → Fits total r
    → IsReadable r.link
    → Advances total r (read_frame total normal fp 0 (popped q r))
queue-Advances total normal fp q r e eq f h =
    let l = r.link in
    let (w, ws) = subst (λ q. All (IsWhole l.s) q) eq h.queued in
    let there : unread l ≡ info l.s fp ++ infos l.s q =
      ap (λ o. part_left l.s l.p.partial_read_offset o ++ infos l.s l.p.i_recept_q) e
      ∙ ap (λ q. infos l.s q) eq in
    let more : length q < frames l = let len = ap length eq in omega arith in
    frame-Advances total r (popped q r) refl refl refl more _ (
      subst
        (λ before. FrameRead total before (popped q r) (read_frame total normal fp 0 (popped q r)))
        (sym there)
        (read_frame-FrameRead total normal fp 0 (popped q r) w (omega arith) ws
          (record { roomy = f.roomy; summed = f.summed })))
