-- ===== src/Station/Waiting.antt =====
-- A read for which the octets are there.
use io_hdlc.Base.{
  ℕ, ◌≤◌, ◌<◌, Bool, true, false, not, ◌&&◌, ◌||◌, Option, none, some, List, [], ◌∷◌, ◌++◌,
  append-nil, ◌≡◌, ◌∙◌, refl, ap, arith, length, length-append, ◌==◌,
}
use io_hdlc.State.{Station, Peer, Frame, Link, if_known, on_peer, peer_disc}
use io_hdlc.Station.{Result}
use io_hdlc.Station.Result.{ok}
use io_hdlc.Station.Scatter.{written, sizes}
use io_hdlc.Station.Read.{
  Reading, ReadPass, ReadTurn, reader_waits, peer_rx_has_data, rx_terminal, is_there, is_filled,
  read_next, read_pass, read_loop, read_done, read_v, empty_vectors, sum_of,
}
use io_hdlc.Station.Read.ReadPass.{stopped, reads_on}
use io_hdlc.Station.Stream.{part_left, infos, unread, IsReadable, Fits, stream}
use io_hdlc.Station.Advance.{Carries, Advances, frames, part-Advances, queue-Advances}

-- No end of a former connection is to be reported first.
abbrev pub is_current : Peer → Bool
is_current p = peer_disc p || not (rx_terminal p)

read_next-Advances :
    (total : ℕ) (normal : Bool) (part : Option Frame) (q : List Frame) (r : Reading)
    → r.link.p.partial_read_frame ≡ part
    → r.link.p.i_recept_q ≡ q
    → Fits total r
    → IsReadable r.link
    → 0 < length (unread r.link)
    → Advances total r (read_next total normal part q r)
unfolding read_next
read_next-Advances total normal (some fp) q r ep eq f h pos = part-Advances total normal fp r ep f h
read_next-Advances total normal none (fp ∷ q) r ep eq f h pos =
    queue-Advances total normal fp q r ep eq f h
read_next-Advances total normal none [] r ep eq f h pos =
    let l = r.link in
    let empty : unread l ≡ [] =
      ap (λ o. part_left l.s l.p.partial_read_offset o ++ infos l.s l.p.i_recept_q) ep
      ∙ ap (λ q. infos l.s q) eq in
    absurd (omega (arith, ap length empty))

-- Octets wait only in frames.
filled_lem :
    (s : Station) (offset : ℕ) (part : Option Frame) (q : List Frame)
    → 0 < length (part_left s offset part ++ infos s q)
    → (is_there part || is_filled q) ≡ true
filled_lem s offset (some fp) q pos = refl
filled_lem s offset none (fp ∷ q) pos = refl
filled_lem s offset none [] pos = absurd (omega arith)

no_wait :
    (p : Peer)
    → (is_there p.partial_read_frame || is_filled p.i_recept_q) ≡ true
    → reader_waits p ≡ false
unfolding reader_waits peer_rx_has_data
no_wait p h = ground arith

read_pass-Advances :
    (total : ℕ) (t : ReadTurn) (r : Reading)
    → Fits total r
    → IsReadable r.link
    → is_current r.link.p ≡ true
    → 0 < length (unread r.link)
    → Advances total r (read_pass total t r)
unfolding read_pass
read_pass-Advances total t r f h c pos =
    let l = r.link in
    let there = filled_lem l.s l.p.partial_read_offset l.p.partial_read_frame l.p.i_recept_q pos in
    let waits : reader_waits l.p ≡ false = no_wait l.p there in
    let current : (not (peer_disc l.p) && rx_terminal l.p) ≡ false = ground arith in
    rw (waits, current)
      (read_next-Advances total t.pool_normal l.p.partial_read_frame l.p.i_recept_q r refl refl f h
        pos)

-- What a read of `total` octets returns.
abbrev pub ReadsAll : ℕ → Reading → Option (Result ℕ × Reading) → Type 0
ReadsAll total r none = ⊥
ReadsAll total r (some (result, last)) =
    (result ≡ ok total)
    × (stream last ≡ stream r)
    × (length (written last.vectors) ≡ total)
    × (sizes last.vectors ≡ sizes r.vectors)

ReadsAll-before :
    (total : ℕ) (r later : Reading) (ends : Option (Result ℕ × Reading))
    → stream later ≡ stream r
    → sizes later.vectors ≡ sizes r.vectors
    → ReadsAll total later ends
    → ReadsAll total r ends
ReadsAll-before total r later none e s h = elim h [ ]
ReadsAll-before total r later (some (result, last)) e s (a, b, c, d) = (a, b ∙ e, c, d ∙ s)

-- As much is left to read as before, without what has been written.
still_enough :
    (total : ℕ) (r later : Reading)
    → Fits total r
    → Carries total [] r later
    → r.remaining ≤ length (unread r.link)
    → later.remaining ≤ length (unread later.link)
still_enough total r later f c h =
    let a = length-append (written r.vectors) (unread r.link) in
    let b = length-append (written later.vectors) (unread later.link) in
    let e = ap length (c.kept ∙ append-nil (stream r)) in
    let g = c.fits in let f1 = f.summed in let g1 = g.summed in omega arith

-- The read ends with the last octets.
finished :
    (total : ℕ) (r : Reading)
    → Fits total r
    → r.remaining ≡ 0
    → ReadsAll total r (some (read_done (ok total) r))
unfolding read_done
finished total r f e = let f1 = f.summed in (refl, refl, omega arith, refl)

continued :
    (total : ℕ) (turns : List ReadTurn) (r : Reading) (pass : ReadPass)
    → Advances total r pass
    → ((later : Reading)
        → Carries total [] r later
        → later.link.p.terminal ≡ r.link.p.terminal
        → later.link.p.ss ≡ r.link.p.ss
        → frames later.link < frames r.link
        → ReadsAll total later (read_loop total turns later))
    → ReadsAll total r (elim pass as (λ _. Option (Result ℕ × Reading)) [
      | stopped result last ↦ some (read_done result last)
      | reads_on later ↦ read_loop total turns later
    ])
unfolding read_done
continued total turns r (stopped result last) (c, e, k) ih =
    let g = c.fits in let g1 = g.summed in (k, c.kept ∙ append-nil (stream r), omega arith, c.same)
continued total turns r (reads_on later) (c, et, es, m) ih =
    ReadsAll-before total r later (read_loop total turns later) (c.kept ∙ append-nil (stream r))
      c.same (ih later c et es m)

read_loop-ReadsAll :
    (total : ℕ) (turns : List ReadTurn) (r : Reading)
    → Fits total r
    → IsReadable r.link
    → is_current r.link.p ≡ true
    → r.remaining ≤ length (unread r.link)
    → frames r.link < length turns
    → ReadsAll total r (read_loop total turns r)
unfolding read_loop
read_loop-ReadsAll total [] r f h c enough fuel = absurd (omega arith)
read_loop-ReadsAll total (t ∷ turns) r f h c enough fuel =
    if_known (ReadsAll total r) (r.remaining == 0) _ _ (λ e. finished total r f (ground arith))
      (λ e.
        continued total turns r (read_pass total t r)
          (read_pass-Advances total t r f h c (ground arith))
          (λ later k et es m.
            read_loop-ReadsAll total turns later k.fits k.readable
              (ap (λ ss. not ss.conn || not (rx_terminal later.link.p)) es
                ∙ ap (λ x. peer_disc r.link.p || not (x.rx_orderly || x.rx_aborted)) et
                ∙ c)
              (still_enough total r later f k enough) (omega arith)))

-- What a read into vectors of the sizes given returns.
abbrev pub Fills : List ℕ → Link → Option (Result ℕ × Reading) → Type 0
Fills lens l none = ⊥
Fills lens l (some (result, last)) =
    (result ≡ ok (sum_of lens))
    × (written last.vectors ++ unread last.link ≡ unread l)
    × (length (written last.vectors) ≡ sum_of lens)
    × (sizes last.vectors ≡ lens)

fills_lem :
    (len : ℕ) (lens : List ℕ) (r : Reading) (ends : Option (Result ℕ × Reading))
    → r.vectors ≡ empty_vectors (len ∷ lens)
    → ReadsAll (sum_of (len ∷ lens)) r ends
    → Fills (len ∷ lens) r.link ends
unfolding empty_vectors
fills_lem len lens r none e h = elim h [ ]
fills_lem len lens r (some (result, last)) e (a, b, c, d) = (
  a,
  b ∙ ap (λ v. written v ++ unread r.link) e,
  c,
  d ∙ ap sizes e ∙ ap (λ (k : ℕ). k ∷ lens) (omega arith),
)

-- Where the octets asked for are there, and no end of a former connection is to be reported, a read
-- returns their number when it gets more turns than frames wait: its vectors hold the first octets,
-- each as many as its size, and the others still wait in their order.
pub read_v-Fills :
    (len : ℕ) (lens : List ℕ) (turns : List ReadTurn) (l : Link)
    → IsReadable l
    → is_current l.p ≡ true
    → sum_of (len ∷ lens) ≤ length (unread l)
    → frames l < length turns
    → Fills (len ∷ lens) l (read_v (len ∷ lens) turns l)
unfolding read_v empty_vectors
read_v-Fills len lens turns l h c enough fuel =
    let total = sum_of (len ∷ lens) in
    let begun : Link = on_peer (λ p. record p { ss = record (p.ss) { recving = true } }) l in
    let started : Reading = record {
      link = begun;
      vectors = empty_vectors (len ∷ lens);
      remaining = total;
    } in
    let fits : Fits total started = record { roomy = refl; summed = omega arith } in
    if_known (Fills (len ∷ lens) l) (total == 0) _ _
      (λ e.
        fills_lem len lens (record started { link = l }) (some (ok 0, record started { link = l }))
          refl (ap ok (ground arith), refl, ground arith, refl))
      (λ e. fills_lem len lens started (read_loop total turns started) refl (
        read_loop-ReadsAll total turns started fits (record { queued = h.queued; part = h.part }) c
          enough fuel))
