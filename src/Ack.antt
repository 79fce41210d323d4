-- ===== src/Ack.antt =====
-- Acknowledgment and retransmission in src/ioHdlc_core.c: `isNRValid`, `processNR`,
-- `checkpointRetransmit` and the part of `handleSFrame` that acts on a REJ. Log messages and
-- statistics are left out.
pub mod Window
pub mod Process
pub mod Retransmit
pub mod Limits
use io_hdlc.Base.{
  ℕ, zero, suc, ◌+◌, ◌-◌, ◌%◌, ◌^◌, bit_and, Bool, true, false, ◌&&◌, ◌||◌, List, [], ◌∷◌, ◌++◌,
  leb, ◌==◌, if◌then◌else◌,
}
use io_hdlc.State.{
  Frame, Framing, Peer, Link, ◌▷◌, on_peer, emit, when, release, stop_timer,
  i_frame_reply_timer_used,
}
use io_hdlc.State.TimerKind.{t3}
use io_hdlc.Control.{extract_ns}

-- `(a - b) & modmask` on `uint32_t`.
unfoldable pub offset : Framing → ℕ → ℕ → ℕ
offset f a b = bit_and ((a + 2 ^ 32 - b) % 2 ^ 32) f.modmask

-- `(n + 1) & modmask`
unfoldable pub next_number : Framing → ℕ → ℕ
next_number f n = bit_and (n + 1) f.modmask

-- `isNRValid`
unfoldable pub is_nr_valid : Framing → Peer → ℕ → Bool
unfolding offset
is_nr_valid f p nr = leb (offset f nr p.nr) (offset f p.vs_highest p.nr)

-- The loop body of `processNR`: the first frame `fp` of `i_retrans_q` is acknowledged and `q` is
-- left. `i_pending_count` is a `uint32_t`.
unfoldable pub acknowledge : Frame → List Frame → Link → Link
unfolding next_number extract_ns
acknowledge fp q l =
    let f = l.s.framing in
    let acked_ns = extract_ns f fp in
    l
    ▷ emit (release fp)
    ▷ on_peer (λ p. record p {
      i_retrans_q = q;
      i_pending_count = (p.i_pending_count + (2 ^ 32 - 1)) % 2 ^ 32;
      nr = next_number f p.nr;
      vs_atlast_pf =
          if acked_ns == p.vs_atlast_pf then next_number f p.vs_atlast_pf else p.vs_atlast_pf;
    })

-- The loop of `processNR`, on the frames of `i_retrans_q`, and `released_frames`.
unfoldable pub acknowledge_loop : ℕ → List Frame → Link → Bool → Link × Bool
unfolding acknowledge
acknowledge_loop nr [] l released = (l, released)
acknowledge_loop nr (fp ∷ q) l released = elim (l.p.nr == nr) [
  | true ↦ (l, released)
  | false ↦ acknowledge_loop nr q (acknowledge fp q l) true
]

-- `processNR`
unfoldable pub process_nr : ℕ → Link → Link × Bool
unfolding acknowledge_loop
process_nr nr l =
    let (acked, released) = acknowledge_loop nr l.p.i_retrans_q l false in
    let all_acked = acked.p.nr == acked.p.t3_expected_nr in
    (
      acked ▷ when (i_frame_reply_timer_used acked.s && all_acked) (on_peer (stop_timer t3)),
      released,
    )

-- The scan of `checkpointRetransmit`: `first_ns`, one above the N(S) of the first frame that is
-- sent again, or 0.
unfoldable pub checkpoint_scan : Framing → ℕ → List Frame → ℕ → ℕ
unfolding extract_ns
checkpoint_scan f vs_atlast_pf [] first_ns = first_ns
checkpoint_scan f vs_atlast_pf (fp ∷ q) first_ns =
    let frame_ns = extract_ns f fp in
    let rest =
      checkpoint_scan f vs_atlast_pf q (if first_ns == 0 then frame_ns + 1 else first_ns) in
    if frame_ns == vs_atlast_pf then first_ns else rest

-- `ioHdlc_frameq_move` of all of `i_retrans_q` to the head of `i_trans_q`.
abbrev pub move_retrans : Peer → Peer
move_retrans p = record p { i_trans_q = p.i_retrans_q ++ p.i_trans_q; i_retrans_q = [] }

-- `checkpointRetransmit`
unfoldable pub checkpoint_retransmit : Framing → Peer → Peer × Bool
unfolding checkpoint_scan
checkpoint_retransmit f p =
    let first_ns = checkpoint_scan f p.vs_atlast_pf p.i_retrans_q 0 in
    if first_ns == 0
    then (p, false)
    else (record (move_retrans p) { chkpt_actioned = first_ns; vs = first_ns - 1 }, true)

-- `handleSFrame` on a REJ that is acted on, with the frames of `i_retrans_q`: the peer, and whether
-- `IOHDLC_EVT_TX_IFRM_ENQ` is raised.
unfoldable pub rej_move : Framing → List Frame → Peer → Peer × Bool
unfolding extract_ns
rej_move f [] p = (p, false)
rej_move f (first ∷ _) p =
    (record (move_retrans p) { vs = extract_ns f first; vs_atlast_pf = extract_ns f first }, true)

-- `handleSFrame` on a REJ when the station is not two-way alternate.
unfoldable pub rej_retransmit : Framing → Peer → Peer × Bool
unfolding rej_move
rej_retransmit f p =
    if p.chkpt_actioned == 0
    then rej_move f p.i_retrans_q p
    else (record p { chkpt_actioned = 0 }, false)
