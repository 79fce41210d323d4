-- ===== src/Station/Read.antt =====
-- `ioHdlcReadVTmo` of src/ioHdlc.c, from the admission of the reader on. The vectors are a record of
-- what has been written to them; the wait for `rx_cv` and what the other threads do meanwhile are
-- part of a turn. `read_gate` admits one reader at a time.
use io_hdlc.Base.{
  ℕ, ◌+◌, ◌-◌, ◌%◌, ◌^◌, Bool, true, false, not, ◌&&◌, ◌||◌, Option, none, some, List, [], ◌∷◌,
  ◌++◌, length, take, drop, ltb, leb, ◌==◌, if◌then◌else◌,
}
use io_hdlc.State.{
  Station, Peer, Frame, Link, ◌▷◌, on_peer, emit, when, broadcast, release, peer_disc,
}
use io_hdlc.State.Event.{pool_st_chg}
use io_hdlc.Station.{Result}
use io_hdlc.Station.Errno.{enotconn, etimedout, econnreset}
use io_hdlc.Station.Result.{ok, error}
use io_hdlc.Station.Write.{info_at}

-- The vectors of a read: what is in those before `iov_index`, what is in that vector, how many
-- octets it still takes, and the sizes of those behind it.
pub record Vectors : Type 0 where
  pub filled : List (List ℕ)
  pub got : List ℕ
  pub room : ℕ
  pub rest : List ℕ

-- The vectors at the start of a read, by their sizes.
unfoldable pub empty_vectors : List ℕ → Vectors
empty_vectors [] = record { filled = []; got = []; room = 0; rest = [] }
empty_vectors (len ∷ lens) = record { filled = []; got = []; room = len; rest = lens }

-- The octets go to the vectors in their order; a vector that is full is left when more come.
unfoldable pub scatter_from :
    List (List ℕ) → List ℕ → ℕ → (rest : List ℕ) → (octets : List ℕ) → Vectors
scatter_from filled got room [] octets = record {
  filled = filled;
  got = got ++ take room octets;
  room = room - length octets;
  rest = [];
}
scatter_from filled got room (len ∷ rest) octets =
    let later =
      scatter_from (filled ++ ((got ++ take room octets) ∷ [])) [] len rest (drop room octets) in
    if leb (length octets) room
    then record {
      filled = filled;
      got = got ++ octets;
      room = room - length octets;
      rest = len ∷ rest;
    }
    else later

unfoldable pub scatter : Vectors → List ℕ → Vectors
unfolding scatter_from
scatter v octets = scatter_from v.filled v.got v.room v.rest octets

-- A read under way, and how many octets may still come.
pub record Reading : Type 0 where
  pub link : Link
  pub vectors : Vectors
  pub remaining : ℕ

-- How a pass ends: with the result of the read, or it goes on.
pub data ReadPass : Type 0 where
  stopped : Result ℕ → Reading → ReadPass
  reads_on : Reading → ReadPass

-- What happens around one pass of the loop: the wait for `rx_cv` and whether it has timed out; and
-- whether the pool is normal when a frame has been released.
pub record ReadTurn : Type 0 where
  pub woken : Link → Link
  pub timed_out : Bool
  pub pool_normal : Bool

abbrev pub is_there {ℓ} : {A : Type ℓ} → Option A → Bool
is_there none = false
is_there (some x) = true

abbrev pub is_filled {ℓ} : {A : Type ℓ} → List A → Bool
is_filled [] = false
is_filled (x ∷ xs) = true

-- `s_peer_rx_has_data`
unfoldable pub peer_rx_has_data : Peer → Bool
peer_rx_has_data p = is_there p.partial_read_frame || is_filled p.i_recept_q

-- `IOHDLC_STREAM_RX_TERMINAL_MASK`
abbrev pub rx_terminal : Peer → Bool
rx_terminal p = p.terminal.rx_orderly || p.terminal.rx_aborted

-- Is the reader to wait?
unfoldable pub reader_waits : Peer → Bool
unfolding peer_rx_has_data
reader_waits p = not (peer_rx_has_data p) && not (peer_disc p) && not (rx_terminal p)

-- The length of the information field. Where the frame is shorter than its header, the unsigned
-- difference wraps.
unfoldable pub info_len : Station → Frame → ℕ
info_len s fp = (fp.elen + 2 ^ 32 - info_at s) % 2 ^ 32

-- What the read has so far.
abbrev pub so_far : ℕ → Reading → Result ℕ
so_far total r = ok (total - r.remaining)

-- The wait for `rx_cv`.
unfoldable pub read_wait : ℕ → ReadTurn → Reading → ReadPass
unfolding reader_waits
read_wait total t r =
    let after = record r { link = t.woken r.link } in
    if t.timed_out && reader_waits after.link.p
    then stopped (if r.remaining == total then error etimedout else so_far total r) after
    else reads_on after

abbrev pub clear_rx_terminal : Link → Link
clear_rx_terminal l =
    on_peer
      (λ p. record p { terminal = record (p.terminal) { rx_orderly = false; rx_aborted = false } })
      l

-- The result of a connection that has ended before the present one is reported before any data.
unfoldable pub read_terminal : ℕ → Reading → ReadPass
read_terminal total r =
    let cleared = record r { link = clear_rx_terminal r.link } in
    if r.remaining == total
    then stopped (if r.link.p.terminal.rx_aborted then error econnreset else ok 0) cleared
    else stopped (so_far total r) r

-- There is no data, and none will come.
unfoldable pub read_end : ℕ → Reading → ReadPass
read_end total r =
    let cleared = record r { link = clear_rx_terminal r.link } in
    if not (r.remaining == total)
    then stopped (so_far total r) r
    else if r.link.p.ss.term_orderly
    then stopped (ok 0) cleared
    else if r.link.p.ss.term_aborted
    then stopped (error econnreset) cleared
    else stopped (error enotconn) r

-- The information field of a frame from an offset on is copied, as far as the vectors go. A frame is
-- kept only with an offset inside the field, so that the difference is no negative number.
unfoldable pub read_frame : ℕ → Bool → Frame → ℕ → Reading → ReadPass
unfolding info_len scatter
read_frame total pool_normal fp offset r =
    let l = r.link in
    let len = info_len l.s fp in
    let n = if ltb (len - offset) r.remaining then len - offset else r.remaining in
    let vectors = scatter r.vectors (take n (drop (info_at l.s + offset) fp.octets)) in
    let keeps =
      λ (p : Peer). record p { partial_read_frame = some fp; partial_read_offset = offset + n } in
    let drops = λ (p : Peer). record p { partial_read_frame = none; partial_read_offset = 0 } in
    if ltb (offset + n) len
    then stopped (ok (total - (r.remaining - n)))
        (record { link = on_peer keeps l; vectors = vectors; remaining = r.remaining - n })
    else reads_on (record {
      link =
          l
          ▷ emit (release fp)
          ▷ on_peer drops
          ▷ when (l.s.busy && pool_normal) (emit (broadcast (pool_st_chg ∷ [])));
      vectors = vectors;
      remaining = r.remaining - n;
    })

-- The frame that is read in part goes on; else the next one is taken.
unfoldable pub read_next : ℕ → Bool → Option Frame → List Frame → Reading → ReadPass
unfolding read_end read_frame
read_next total pool_normal (some fp) q r =
    read_frame total pool_normal fp r.link.p.partial_read_offset r
read_next total pool_normal none (fp ∷ q) r =
    read_frame total pool_normal fp 0 (record r {
      link = on_peer (λ p. record p { i_recept_q = q; partial_read_offset = 0 }) r.link;
    })
read_next total pool_normal none [] r = read_end total r

-- One pass of the loop of `ioHdlcReadVTmo`.
unfoldable pub read_pass : ℕ → ReadTurn → Reading → ReadPass
unfolding read_wait read_terminal read_next reader_waits
read_pass total t r =
    let p = r.link.p in
    if reader_waits p
    then read_wait total t r
    else if not (peer_disc p) && rx_terminal p
    then read_terminal total r
    else read_next total t.pool_normal p.partial_read_frame p.i_recept_q r

-- From `read_done` on.
unfoldable pub read_done : Result ℕ → Reading → Result ℕ × Reading
read_done result r = (
  result,
  record r { link = on_peer (λ p. record p { ss = record (p.ss) { recving = false } }) r.link },
)

-- The loop, over the turns that it gets: nothing if it goes on after the last.
unfoldable pub read_loop : ℕ → List ReadTurn → Reading → Option (Result ℕ × Reading)
unfolding read_pass read_done
read_loop total [] r = if r.remaining == 0 then some (read_done (ok total) r) else none
read_loop total (t ∷ turns) r =
    let next = elim (read_pass total t r) as (λ _. Option (Result ℕ × Reading)) [
      | stopped result last ↦ some (read_done result last)
      | reads_on later ↦ read_loop total turns later
    ] in
    if r.remaining == 0 then some (read_done (ok total) r) else next

-- The sum of the sizes of the vectors.
abbrev pub sum_of : List ℕ → ℕ
sum_of [] = 0
sum_of (len ∷ lens) = len + sum_of lens

-- `ioHdlcReadVTmo` into vectors of the sizes given, for a reader that is admitted.
unfoldable pub read_v : List ℕ → List ReadTurn → Link → Option (Result ℕ × Reading)
unfolding empty_vectors read_loop
read_v lens turns l =
    let started : Reading = record {
      link = on_peer (λ p. record p { ss = record (p.ss) { recving = true } }) l;
      vectors = empty_vectors lens;
      remaining = sum_of lens;
    } in
    if sum_of lens == 0
    then some (ok 0, record started { link = l })
    else read_loop (sum_of lens) turns started
