-- ===== src/Station/Reads.antt =====
-- The passes of `ioHdlcReadVTmo`.
use io_hdlc.Base.{
  ℕ, ◌+◌, ◌-◌, Bool, not, ◌&&◌, Option, none, some, List, [], ◌∷◌, ◌++◌, append_assoc, append-nil,
  ◌≡◌, ◌∙◌, refl, sym, ap, subst, arith, ◌==◌, if◌then◌else◌, Bool-cases, inl, inr,
}
use io_hdlc.State.{Frame, Link, if_known, if-elim, peer_disc}
use io_hdlc.Station.{Result}
use io_hdlc.Station.Result.{ok, error}
use io_hdlc.Station.Scatter.{written}
use io_hdlc.Station.Read.{
  Reading, ReadPass, ReadTurn, reader_waits, rx_terminal, read_next, read_wait, read_terminal,
  read_end, read_pass, clear_rx_terminal,
}
use io_hdlc.Station.Read.ReadPass.{stopped, reads_on}
use io_hdlc.Station.Stream.{unread, IsReadable, Fits}
use io_hdlc.Station.Advance.{Carries, Advances, part-Advances, queue-Advances}

-- A result agrees with what remains: an error only where nothing has been read.
abbrev pub Counts : ℕ → Reading → Result ℕ → Type 0
Counts total r (ok n) = n + r.remaining ≡ total
Counts total r (error e) = r.remaining ≡ total

abbrev pub PassReads : ℕ → List ℕ → Reading → ReadPass → Type 0
PassReads total brought r (stopped result last) =
    Carries total brought r last × Counts total last result
PassReads total brought r (reads_on last) = Carries total brought r last

-- A wait leaves what can be read and adds octets behind it.
abbrev pub Brings : ReadTurn → List ℕ → Link → Type 0
Brings t arrived l = IsReadable (t.woken l) × (unread (t.woken l) ≡ unread l ++ arrived)

PassReads-Advances :
    (total : ℕ) (r : Reading) (pass : ReadPass) → Advances total r pass → PassReads total [] r pass
PassReads-Advances total r (stopped result last) (c, e, h) =
    (c, subst (λ x. Counts total last x) (sym h) (omega arith))
PassReads-Advances total r (reads_on last) (c, e, k, m) = c

module _ (total : ℕ) (r : Reading) (f : Fits total r) where
  -- A read that stops with a link from which as much can be read, and with what it has so far.
  stops :
      (arrived : List ℕ) (l : Link)
      → IsReadable l
      → unread l ≡ unread r.link ++ arrived
      → Carries total arrived r (record r { link = l })
  stops arrived l h e = record {
    kept =
        ap (λ t. written r.vectors ++ t) e
        ∙ sym (append_assoc (written r.vectors) (unread r.link) arrived);
    same = refl;
    fits = record { roomy = f.roomy; summed = f.summed };
    readable = h;
  }

  so_far_lem : (total - r.remaining) + r.remaining ≡ total
  so_far_lem = let e = f.summed in omega arith

  read_wait-PassReads :
      (t : ReadTurn) (arrived : List ℕ)
      → Brings t arrived r.link
      → PassReads total arrived r (read_wait total t r)
  unfolding read_wait
  read_wait-PassReads t arrived (h, e) =
      let c = stops arrived (t.woken r.link) h e in
      let s = so_far_lem in
      if-elim (PassReads total arrived r) (t.timed_out && reader_waits (t.woken r.link).p) _ _
        (
          c,
          if_known (Counts total (record r { link = t.woken r.link })) (r.remaining == total) _ _
              (λ k. ground arith) (λ k. s),
        )
        c

  module _ (h : IsReadable r.link) where
    same_link : Carries total [] r r
    same_link = stops [] r.link h (sym (append-nil (unread r.link)))

    cleared_link : Carries total [] r (record r { link = clear_rx_terminal r.link })
    cleared_link =
        stops [] (clear_rx_terminal r.link) (record { queued = h.queued; part = h.part })
          (sym (append-nil (unread r.link)))

    read_terminal-PassReads : PassReads total [] r (read_terminal total r)
    unfolding read_terminal
    read_terminal-PassReads =
        if_known (PassReads total [] r) (r.remaining == total) _ _
          (λ k. (
            cleared_link,
            if-elim (Counts total (record r { link = clear_rx_terminal r.link }))
                r.link.p.terminal.rx_aborted _ _ (ground arith) (ground arith),
          ))
          (λ k. (same_link, so_far_lem))

    read_end-PassReads : PassReads total [] r (read_end total r)
    unfolding read_end
    read_end-PassReads =
        if_known (PassReads total [] r) (not (r.remaining == total)) _ _
          (λ k. (same_link, so_far_lem))
          (λ k.
            if-elim (PassReads total [] r) r.link.p.ss.term_orderly _ _ (cleared_link, ground arith)
              (if-elim (PassReads total [] r) r.link.p.ss.term_aborted _ _
                (cleared_link, ground arith) (same_link, ground arith)))

    read_next-PassReads :
        (normal : Bool) (part : Option Frame) (q : List Frame)
        → r.link.p.partial_read_frame ≡ part
        → r.link.p.i_recept_q ≡ q
        → PassReads total [] r (read_next total normal part q r)
    unfolding read_next
    read_next-PassReads normal (some fp) q ep eq =
        PassReads-Advances total r _ (part-Advances total normal fp r ep f h)
    read_next-PassReads normal none (fp ∷ q) ep eq =
        PassReads-Advances total r _ (queue-Advances total normal fp q r ep eq f h)
    read_next-PassReads normal none [] ep eq = read_end-PassReads

-- What can be read, and where only octets are added while the reader waits: in every pass of a read
-- the octets written to the vectors and those that still wait are those before it, in their order,
-- with those that came during the wait behind them. No vector takes more than its size, the number
-- returned is that of the octets written, and an error is returned only where there are none.
pub read_pass-PassReads :
    (total : ℕ) (t : ReadTurn) (r : Reading) (arrived : List ℕ)
    → Fits total r
    → IsReadable r.link
    → Brings t arrived r.link
    → PassReads total (if reader_waits r.link.p then arrived else []) r (read_pass total t r)
unfolding read_pass
read_pass-PassReads total t r arrived f h b =
    let p = r.link.p in
    elim (Bool-cases (reader_waits p)) [
      | inl e ↦ rw e (read_wait-PassReads total r f t arrived b)
      | inr e ↦ rw e (
          if-elim (PassReads total [] r) (not (peer_disc p) && rx_terminal p) _ _
            (read_terminal-PassReads total r f h)
            (read_next-PassReads total r f h t.pool_normal p.partial_read_frame p.i_recept_q refl
              refl))
    ]
