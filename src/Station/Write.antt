-- ===== src/Station/Write.antt =====
-- `ioHdlcWriteVTmo` of src/ioHdlc.c, from the admission of the writer on. The vectors that are left
-- to write are the lists of their octets; the wait for `tx_cv` and what the other threads do while
-- the peer is unlocked are part of a turn. `write_gate` admits one writer at a time.
use io_hdlc.Base.{
  ℕ, ◌+◌, ◌-◌, ◌/◌, ◌%◌, ◌^◌, bit_and, Bool, true, false, not, ◌&&◌, ◌||◌, Option, none, some, List,
  [], ◌∷◌, ◌++◌, length, set, take, drop, ltb, leb, ◌==◌, if◌then◌else◌,
}
use io_hdlc.State.{
  Station, Peer, Frame, Link, ◌▷◌, on_peer, emit, when, broadcast, release, peer_disc,
}
use io_hdlc.State.Event.{tx_ifrm_enq}
use io_hdlc.Control.{blit}
use io_hdlc.Station.{Config, Result}
use io_hdlc.Station.Errno.{enotconn, etimedout, econnreset}
use io_hdlc.Station.Result.{ok, error}

abbrev pub writer_pending_margin_divisor : ℕ
writer_pending_margin_divisor = 8

abbrev pub writer_pending_margin_min : ℕ
writer_pending_margin_min = 7

-- `writer_pending_limit`
unfoldable pub writer_pending_limit : Peer → ℕ
writer_pending_limit p =
    let margin = p.ks / writer_pending_margin_divisor in
    p.ks + (if ltb margin writer_pending_margin_min then writer_pending_margin_min else margin)

-- `W_WAIT_COND`
unfoldable pub w_wait_cond : Bool → Peer → Bool
unfolding writer_pending_limit
w_wait_cond pool_normal p = leb (writer_pending_limit p) p.i_pending_count || not pool_normal

-- How many octets the next I-frame takes. A frame format field of one octet must not look like a
-- flag.
unfoldable pub chunk_size : Station → Config → ℕ → ℕ → ℕ
chunk_size s config mifls remaining =
    let chunk = if ltb remaining mifls then remaining else mifls in
    let frame_total = s.framing.frame_offset + 1 + s.framing.ctrl_size + chunk + config.fcs_size in
    if (s.framing.frame_offset == 1) && ltb 1 chunk && (bit_and frame_total 0xff == 0x7e)
    then chunk / 2
    else chunk

-- The next octets of the vectors, and what is left of them.
unfoldable pub gather : ℕ → List (List ℕ) → List ℕ × List (List ℕ)
gather n [] = ([], [])
gather n (iov ∷ iovs) =
    let (more, left) = gather (n - length iov) iovs in
    if leb n (length iov) then (take n iov, drop n iov ∷ iovs) else (iov ++ more, left)

-- `IOHDLC_FRAME_INFO`, as an index.
abbrev pub info_at : Station → ℕ
info_at s = s.framing.frame_offset + 1 + s.framing.ctrl_size

-- The frame that takes the octets `info`.
unfoldable pub i_frame_of : Station → Peer → Frame → List ℕ → Frame
unfolding blit
i_frame_of s p fp info =
    let addr = if s.primary then p.addr else s.addr in
    let f = s.framing in
    record fp {
      octets =
          blit (set (set fp.octets f.frame_offset addr) (f.frame_offset + 1) 0x00) (info_at s) info;
      elen = (info_at s + length info) % 2 ^ 16;
    }

-- A frame waits for transmission.
abbrev pub enqueue : Frame → Link → Link
enqueue fp l =
    l
    ▷ on_peer (λ p. record p {
      i_trans_q = p.i_trans_q ++ (fp ∷ []);
      i_pending_count = (p.i_pending_count + 1) % 2 ^ 32;
    })

-- What happens around one pass of the loop: whether the pool is normal; the wait for `tx_cv`, whether
-- it has timed out, and the pool after it; what the pool returns for the frame; and what the
-- other threads do while it is filled.
pub record WriteTurn : Type 0 where
  pub normal : Bool
  pub woken : Link → Link
  pub timed_out : Bool
  pub normal_then : Bool
  pub taken : Option Frame
  pub meanwhile : Link → Link

-- A write under way: the link, the vectors, how many octets remain, and `signal_tx`.
pub record Writing : Type 0 where
  pub link : Link
  pub iovs : List (List ℕ)
  pub remaining : ℕ
  pub signal_tx : Bool

-- How a pass ends: with the result of the write, or it goes on.
pub data Pass : Type 0 where
  ended : Result ℕ → Writing → Pass
  goes_on : Writing → Pass

abbrev pub is_reset : Link → Bool
is_reset l = l.p.terminal.tx_reset

-- Is the writer to wait?
abbrev pub waits : Bool → Link → Bool
waits normal l = not (is_reset l) && not (peer_disc l.p) && w_wait_cond normal l.p

-- The wait for `tx_cv`: what was queued is announced first.
unfoldable pub write_wait : ℕ → WriteTurn → Writing → Pass
unfolding w_wait_cond
write_wait total t w =
    let told = w.link ▷ when w.signal_tx (emit (broadcast (tx_ifrm_enq ∷ []))) in
    let after = record w { link = t.woken told; signal_tx = false } in
    if t.timed_out && waits t.normal_then after.link
    then ended (if total == w.remaining then error etimedout else ok (total - w.remaining)) after
    else goes_on after

-- A frame of the pool is filled and queued, unless the connection has ended meanwhile.
unfoldable pub write_frame : Config → Frame → WriteTurn → Writing → Pass
unfolding chunk_size gather i_frame_of
write_frame config fp t w =
    let l = w.link in
    let chunk = chunk_size l.s config l.p.mifls w.remaining in
    let (info, left) = gather chunk w.iovs in
    let filled = i_frame_of l.s l.p fp info in
    let m = t.meanwhile l in
    if is_reset m || peer_disc m.p
    then ended (error (if is_reset m then econnreset else enotconn)) (record w {
      link = emit (release filled) m;
      iovs = left;
      signal_tx = if is_reset m then false else w.signal_tx;
    })
    else goes_on (record {
      link = enqueue filled m;
      iovs = left;
      remaining = w.remaining - chunk;
      signal_tx = true;
    })

-- One pass of the loop of `ioHdlcWriteVTmo`.
unfoldable pub write_pass : Config → ℕ → WriteTurn → Writing → Pass
unfolding write_wait write_frame w_wait_cond
write_pass config total t w =
    if waits t.normal w.link
    then write_wait total t w
    else if is_reset w.link
    then ended (error econnreset) (record w { signal_tx = false })
    else if peer_disc w.link.p
    then ended (ok (total - w.remaining)) w
    else elim t.taken [ none ↦ goes_on w | some fp ↦ write_frame config fp t w ]

-- From `write_done` on.
unfoldable pub write_done : Result ℕ → Writing → Result ℕ × Link
write_done result w =
    let reset = is_reset w.link in
    (
      if reset then error econnreset else result,
      w.link
          ▷ on_peer (λ p. record p {
            terminal = record (p.terminal) { tx_reset = false };
            ss = record (p.ss) { sending = false };
          })
          ▷ when (w.signal_tx && not reset) (emit (broadcast (tx_ifrm_enq ∷ []))),
    )

-- The loop, over the turns that it gets: nothing if it goes on after the last.
unfoldable pub write_loop : Config → ℕ → List WriteTurn → Writing → Option (Result ℕ × Link)
unfolding write_pass write_done
write_loop config total [] w = if w.remaining == 0 then some (write_done (ok total) w) else none
write_loop config total (t ∷ turns) w =
    let next = elim (write_pass config total t w) as (λ _. Option (Result ℕ × Link)) [
      | ended result last ↦ some (write_done result last)
      | goes_on later ↦ write_loop config total turns later
    ] in
    if w.remaining == 0 then some (write_done (ok total) w) else next

-- `ioHdlcWriteVTmo` of vectors that hold `total` octets, for a writer that is admitted.
unfoldable pub write_v :
    Config → List (List ℕ) → ℕ → List WriteTurn → Link → Option (Result ℕ × Link)
unfolding write_loop
write_v config iovs total turns l =
    let begun : Link = on_peer (λ p. record p { ss = record (p.ss) { sending = true } }) l in
    let started : Writing = record {
      link = begun;
      iovs = iovs;
      remaining = total;
      signal_tx = false;
    } in
    if total == 0
    then some (ok 0, l)
    else if peer_disc l.p
    then some (error enotconn, l)
    else write_loop config total turns started
