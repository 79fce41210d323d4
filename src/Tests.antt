-- ===== src/Tests.antt =====
-- Concrete runs: a primary in NRM, modulo 8, that has sent two I-frames, with two more waiting.
use io_hdlc.Base.{
  ◌==◌, if◌then◌else◌, subst, ◌<◌, some, ◌%◌, ◌^◌, ℕ, ◌+◌, ◌*◌, All, ◌≤◌, ◌≡◌, ◌≢◌, ◌↔◌, min, refl,
  inl, arith, true, false, none, List, [], ◌∷◌, ◌++◌, length, take, set, get_or, zero, suc,
}
use io_hdlc.State.{Station, Peer, Frame, Framing, Timer, Link}
use io_hdlc.State.Mode.{nrm}
use io_hdlc.State.RxHandler.{nrm_handler}
use io_hdlc.Control.{extract_ns, build_s_frame, prepare_i_frame_header}
use io_hdlc.Control.SFun.{rej}
use io_hdlc.Control.RoundTrip.{HasRoom, IsSFrame, build_s_frame-IsSFrame}
use io_hdlc.Control.Numbering.{IsIFrame, tx_ns, prepare_i_frame_header-IsIFrame}
use io_hdlc.Ack.{is_nr_valid, process_nr, checkpoint_retransmit, rej_retransmit}
use io_hdlc.Ack.Window.{Numbered, IsWindow, HasWindow, advance}
use io_hdlc.Ack.Process.{process_nr-IsWindow, process_nr-IsAcked, is_nr_valid_iff, IsAcked}
use io_hdlc.Ack.Retransmit.{checkpoint_retransmit-HasWindow, rej_retransmit-HasWindow}
use io_hdlc.Ack.Limits.{Limits}
use io_hdlc.Receive.{common_rx}
use io_hdlc.Transmit.IFrames.{i_frame_round}
use io_hdlc.Transmit.Round.{Follows, i_frame_round-Follows}
use io_hdlc.Transmit.Connected.{Surroundings, Served, connected_tx}
use io_hdlc.State.Event.{link_req, c_rplytmo}
use io_hdlc.Transmit.Total.{Keeps}
use io_hdlc.Transmit.Entry.{tx_pass}
use io_hdlc.Transmit.Pass.{PassedUp, tx_pass-IsUp}
use io_hdlc.Transmit.RoundRobin.{accepts, accepts_at, turns_on, next_peer-reaches}
use io_hdlc.Station.{Config, Peers, add_peer}
use io_hdlc.Station.AddPeer.{AreSound, Adds, add_peer-Adds}
use io_hdlc.Station.Write.{WriteTurn, Writing, info_at, chunk_size, write_frame}
use io_hdlc.Station.Fragment.{Fragments, write_frame-Fragments, chunk_size-flag}
use io_hdlc.Driver.Field.{emit_fff}
use io_hdlc.Driver.FrameFormat.{IsRead, rx_fff-emit_fff}
use io_hdlc.Driver.Configure.{
  Backend, SwDriver, swdriver_base_caps, with_caps, sw_driver_init, drv_configure, resolve_fcs_caps,
  resolve_fcs_policy, add_sizes, fcs_size_supported,
}
use io_hdlc.Driver.Configure.Served.{
  IsServed, Initializes, Configures, sw_driver_init-IsServed, drv_configure-Configures,
}
use io_hdlc.Queue.{Heap, frameq_init}
use io_hdlc.Queue.Links.{Holds, Linked}
use io_hdlc.Queue.Refine.Op.{insert, insert_head, remove}
use io_hdlc.Queue.Refine.{Op, AllAllowed, run, run_list, run-run_list}
use io_hdlc.Transmit.Quiet.{connected_tx-ends}
use io_hdlc.Receive.Window.{Stands, common_rx-Stands}
use io_hdlc.Receive.Delivery.{Received, common_rx-Received}
use io_hdlc.Pool.PoolState.{normal}
use io_hdlc.Pool.Call.{no_call}
use io_hdlc.Pool.{Pool, take_frame, release_frame, addref}
use io_hdlc.Pool.Books.{live, IsFree, IsPool}
use io_hdlc.Pool.Accounting.{take_frame-IsPool, release_frame-IsPool, addref-IsPool}
use io_hdlc.Connection.UFrame.{set_mode}
use io_hdlc.Connection.{handle_timeout_retry}
use io_hdlc.Connection.Timeout.{after_timeouts, handle_timeout_retry-after_timeouts}
use io_hdlc.Connection.Session.{IsNewSession, set_mode-IsNewSession}
use io_hdlc.Ll.Fcs.{fcs_octet, fcs_entry, fcstab, update_fcs, frame_check_fcs_at, frame_add_fcs_at}
use io_hdlc.Ll.Fcs.Table.{shift_register, update_fcs-shift_register}
use io_hdlc.Ll.Fcs.Residue.{frame_check_fcs_at-frame_add_fcs_at}
use io_hdlc.Ll.Fcs.Detect.{frame_check_fcs_at-set}
use io_hdlc.Ll.Transparency.{
  flag, encode_octets, frame_transparent_encode, frame_transparent_decode,
}
use io_hdlc.Ll.Transparency.RoundTrip.{frame_transparent_decode-frame_transparent_encode}
use io_hdlc.Ll.Transparency.Encoded.{encode_octets_bounds}
use io_hdlc.Retry.{max_u32, link_api_timeout_ms}
use io_hdlc.Retry.Budget.{windows, link_api_timeout_ms-windows}

abbrev octets : List ℕ
octets = 0x7e ∷ 0x03 ∷ 0x7d ∷ []

frame_transparent_decode-frame_transparent_encode_example :
    let wire = frame_transparent_encode octets in
    let (frame, elen) = frame_transparent_decode (wire.octets ++ (0 ∷ [])) wire.elen in
    (elen ≡ 3) × (take elen frame ≡ octets)
unfolding frame_transparent_encode encode_octets
frame_transparent_decode-frame_transparent_encode_example =
    frame_transparent_decode-frame_transparent_encode octets (0 ∷ []) (omega arith)

abbrev buffer : List ℕ
buffer = 0x03 ∷ 0x73 ∷ 0 ∷ 0 ∷ 9 ∷ []

frame_check_fcs_at-frame_add_fcs_at_example :
    frame_check_fcs_at (frame_add_fcs_at buffer 2) 4 ≡ true
frame_check_fcs_at-frame_add_fcs_at_example =
    frame_check_fcs_at-frame_add_fcs_at buffer 2
      (omega arith, (omega arith, (omega arith, (omega arith, (omega arith, tt))))) (omega arith)

update_fcs-shift_register_example : update_fcs 0xffff octets ≡ shift_register 0xffff octets
update_fcs-shift_register_example =
    update_fcs-shift_register octets 0xffff (omega arith)
      (omega arith, (omega arith, (omega arith, tt)))

abbrev checked : List ℕ
checked = 0x03 ∷ 0x73 ∷ 0x33 ∷ 0x64 ∷ []

frame_check_fcs_at-set_example : frame_check_fcs_at (set checked 1 0x63) 4 ≡ false
unfolding frame_check_fcs_at update_fcs fcs_octet fcs_entry fcstab
frame_check_fcs_at-set_example =
    frame_check_fcs_at-set checked 4 1 0x63
      (omega arith, (omega arith, (omega arith, (omega arith, tt)))) (omega arith) (omega arith)
      (omega arith) (omega arith) refl

encode_octets_bounds_example :
    All (λ x. x ≢ flag) (encode_octets octets).0 × (length (encode_octets octets).0 ≤ 2 * 3)
encode_octets_bounds_example = encode_octets_bounds octets

abbrev framing : Framing
framing = record { modmask = 7; pfoctet = 0; ctrl_size = 1; frame_offset = 0 }

abbrev station : Station
station = record {
  mode = nrm;
  primary = true;
  twa = false;
  idle = false;
  busy = false;
  p_rcved = false;
  f_rcved = true;
  framing = framing;
  use_rej = true;
  reply_timeout_ms = 100;
  idle_poll_timeout_ms = 200;
  addr = 1;
  connected_count = 1;
  rx_fn = nrm_handler;
}

abbrev timer_off : Timer
timer_off = record { armed = false; expired = false; delay_ms = 0 }

-- An I-frame of address 3 with the control octet `ctrl`.
abbrev i_frame : ℕ → Frame
i_frame ctrl = record { octets = 3 ∷ ctrl ∷ 65 ∷ []; elen = 3; tx_ctrl_len = 1 }

-- An I-frame as it has been written, not sent yet.
abbrev written : Frame
written = record { octets = 3 ∷ 0 ∷ 65 ∷ []; elen = 3; tx_ctrl_len = 0 }

-- N(S) 6 and 7 are sent, 0 will be sent again, and the last frame was never sent.
abbrev peer : Peer
peer = record {
  addr = 3;
  ks = 7;
  mifls = 64;
  vs = 0;
  vr = 2;
  nr = 6;
  vs_highest = 1;
  rej_actioned = 0;
  chkpt_actioned = 0;
  vs_atlast_pf = 1;
  t3_expected_nr = 0;
  i_pending_count = 4;
  um_sent = false;
  um_rcved = false;
  ss = record {
    peer_busy = false;
    rejpend = false;
    recving = false;
    need_p = false;
    term_orderly = false;
    term_aborted = false;
    sending = true;
    conn = true;
  };
  um_cmd = 0;
  um_rsp = 0;
  um_api_frame = none;
  um_rsp_frame = none;
  ui_tx_pending = false;
  ui_rx_pending = false;
  terminal = record { rx_orderly = false; rx_aborted = false; tx_reset = false };
  ui_tx_value = 0;
  ui_rx_value = [];
  i_retrans_q = i_frame 0x0c ∷ i_frame 0x0e ∷ [];
  i_recept_q = [];
  i_trans_q = i_frame 0x00 ∷ written ∷ [];
  partial_read_frame = none;
  partial_read_offset = 0;
  reply_tmr = timer_off;
  t3_tmr = timer_off;
  poll_retry_count = 1;
  poll_retry_max = 3;
  frmr_condition = false;
  frmr_rejected_ctrl = (0, 0);
  frmr_reason = 0;
  frmr_cr = false;
}

abbrev link : Link
link = record { s = station; p = peer; log = [] }

abbrev resend : List Frame
resend = i_frame 0x00 ∷ []

abbrev fresh : List Frame
fresh = written ∷ []

-- Three octets.
three_bytes :
    (a b c : ℕ) → a < 256 → b < 256 → c < 256 → (i : ℕ) → get_or (a ∷ b ∷ c ∷ []) i 0 < 256
three_bytes a b c ha hb hc zero = ha
three_bytes a b c ha hb hc (suc zero) = hb
three_bytes a b c ha hb hc (suc (suc zero)) = hc
three_bytes a b c ha hb hc (suc (suc (suc i))) = omega arith

i_frame_room : (ctrl : ℕ) → ctrl < 256 → HasRoom framing (i_frame ctrl)
i_frame_room ctrl h = record {
  bytes = three_bytes 3 ctrl 65 (omega arith) h (omega arith);
  room = omega arith;
}

written_room : HasRoom framing written
written_room = record {
  bytes = three_bytes 3 0 65 (omega arith) (omega arith) (omega arith);
  room = omega arith;
}

window : IsWindow framing peer resend fresh
unfolding Numbered extract_ns
window = record {
  queued = refl;
  numbered = (
    record { number = refl; marked = refl; space = i_frame_room 0x0c (omega arith) },
    (
      record { number = refl; marked = refl; space = i_frame_room 0x0e (omega arith) },
      (record { number = refl; marked = refl; space = i_frame_room 0x00 (omega arith) }, tt),
    ),
  );
  unsent = (record { unmarked = refl; space = written_room }, tt);
  sent = refl;
  highest = refl;
  size = omega arith;
  range = omega arith;
  pending = refl;
  pending_lt = omega arith;
}

process_nr-IsWindow_example : IsWindow framing (process_nr 7 link).0.p resend fresh
process_nr-IsWindow_example = process_nr-IsWindow 7 link resend fresh (inl refl) window

process_nr-IsAcked_example : IsAcked 2 peer.i_retrans_q link (process_nr 0 link).0
process_nr-IsAcked_example =
    process_nr-IsAcked 0 2 link resend fresh (inl refl) window (omega arith) refl

is_nr_valid_iff_example :
    (is_nr_valid framing peer 7 ≡ true) ↔ ((k : ℕ) × (k ≤ 3) × (7 ≡ advance framing 6 k))
is_nr_valid_iff_example =
    is_nr_valid_iff framing peer resend fresh 7 (inl refl) window (omega arith)

checkpoint_retransmit-HasWindow_example :
    HasWindow framing fresh (checkpoint_retransmit framing peer).0
checkpoint_retransmit-HasWindow_example =
    checkpoint_retransmit-HasWindow framing peer fresh (inl refl) (resend, window)

rej_retransmit-HasWindow_example : HasWindow framing fresh (rej_retransmit framing peer).0
rej_retransmit-HasWindow_example =
    rej_retransmit-HasWindow framing peer fresh (inl refl) (resend, window)

link_api_timeout_ms-windows_example :
    min max_u32 (windows station peer (3 + 1) + 100) ≤ link_api_timeout_ms station peer
link_api_timeout_ms-windows_example = link_api_timeout_ms-windows station peer

limits : Limits framing peer
limits = record {
  window = omega arith;
  ks_le = omega arith;
  vr_le = omega arith;
  octet = omega arith;
}

stands : Stands framing fresh link
stands = ((refl, omega arith), ((resend, window), limits))

-- An RNR that polls and acknowledges N(S) 6.
abbrev rnr_frame : Frame
rnr_frame = record { octets = 3 ∷ 0xf5 ∷ []; elen = 2; tx_ctrl_len = 1 }

common_rx-Stands_example : Stands framing fresh (common_rx false rnr_frame false link)
common_rx-Stands_example =
    common_rx-Stands framing fresh (inl refl) false rnr_frame false link stands

-- The I-frame with N(S) 2 and N(R) 0.
common_rx-Received_example :
    Received framing 2 [] (i_frame 0x04) (common_rx true (i_frame 0x04) false link)
common_rx-Received_example = common_rx-Received true (i_frame 0x04) false link

set_mode-IsNewSession_example :
    let after = set_mode nrm link in IsNewSession framing ((1 + 1) % 2 ^ 8) after.s after.p
set_mode-IsNewSession_example = set_mode-IsNewSession nrm link (inl refl)

-- Three frames, of which the second is free.
abbrev frame_pool : Pool
frame_pool = record {
  refs = 1 ∷ 0 ∷ 2 ∷ [];
  free_list = 1 ∷ [];
  total = 3;
  allocated = 2;
  low_threshold = 0;
  high_threshold = 1;
  low_pct = 20;
  high_pct = 60;
  state = normal;
  on_low = false;
  on_normal = false;
}

frame_pool-IsPool : IsPool frame_pool
unfolding live
frame_pool-IsPool = (
  record {
    size = refl;
    free = (refl, tt);
    distinct = (tt, tt);
    allocated = refl;
    account = refl;
    ordered = omega arith;
  },
  record { above = λ e. omega arith; below = λ e. omega arith },
)

take_frame-IsPool_example :
    let (taken, (after, _)) = take_frame frame_pool in
    IsPool after × ((fp : ℕ) → taken ≡ some fp → IsFree frame_pool.refs fp)
take_frame-IsPool_example = take_frame-IsPool frame_pool frame_pool-IsPool

release_frame-IsPool_example : IsPool (release_frame 0 frame_pool).0
release_frame-IsPool_example = release_frame-IsPool frame_pool 0 (omega arith) frame_pool-IsPool

addref-IsPool_example :
    let after = addref 2 frame_pool in
    IsPool after
    × ((fp : ℕ)
        → get_or after.refs fp 0
          ≡ (if fp == 2 then get_or frame_pool.refs 2 0 + 1 else get_or frame_pool.refs fp 0))
    × (release_frame 2 after ≡ (frame_pool, no_call))
addref-IsPool_example = addref-IsPool frame_pool 2 (omega arith) (omega arith) frame_pool-IsPool

-- The peer is at its first retry of three.
handle_timeout_retry-after_timeouts_example :
    ((k : ℕ) → k < 2 → (handle_timeout_retry (after_timeouts k link)).1 ≡ true)
    × (let last = handle_timeout_retry (after_timeouts 2 link) in
        (last.1 ≡ false) × (last.0.p.ss.conn ≡ false))
handle_timeout_retry-after_timeouts_example =
    handle_timeout_retry-after_timeouts 2 link refl (omega arith)

-- A buffer as it comes from the pool.
abbrev blank : Frame
blank = record { octets = 9 ∷ 9 ∷ 9 ∷ []; elen = 0; tx_ctrl_len = 0 }

blank_room : HasRoom framing blank
blank_room = record {
  bytes = three_bytes 9 9 9 (omega arith) (omega arith) (omega arith);
  room = omega arith;
}

-- A REJ for N(S) 5 as a response with F.
build_s_frame-IsSFrame_example :
    IsSFrame framing (build_s_frame station peer blank rej 5 true false) 1 rej 5 true
build_s_frame-IsSFrame_example =
    build_s_frame-IsSFrame station peer blank rej 5 true false (inl refl) refl (omega arith)
      (omega arith) blank_room

-- An I-frame with N(S) 3 and N(R) 6, without P.
prepare_i_frame_header-IsIFrame_example :
    let (ns, after) = prepare_i_frame_header station blank 3 3 6 false in
    (ns ≡ tx_ns framing blank 3) × IsIFrame framing after 3 (tx_ns framing blank 3) 6 false
prepare_i_frame_header-IsIFrame_example =
    prepare_i_frame_header-IsIFrame station blank 3 3 6 false (inl refl) blank_room (omega arith)
      (omega arith)

i_frame_round-Follows_example :
    Follows framing (inl refl) fresh (i_frame_round [] [] false link).link
i_frame_round-Follows_example =
    i_frame_round-Follows framing (inl refl) [] [] false fresh link stands

-- While the loop runs, a frame is received between its rounds.
abbrev receives : Link → Link
receives = common_rx false rnr_frame false

receives-Keeps : Keeps framing receives
receives-Keeps l (q, h) = (q, common_rx-Stands framing q (inl refl) false rnr_frame false l h)

abbrev quiet : Link → Link
quiet l = l

abbrev surroundings : (Link → Link) → Surroundings
surroundings between = record {
  for_ui = some blank;
  ui_octets = 1 ∷ 0 ∷ 0 ∷ 0 ∷ [];
  ui_taken = true;
  before_loop = quiet;
  turns =
      record { polled = []; between = between }
      ∷ record { polled = []; between = quiet }
      ∷ record { polled = []; between = quiet }
      ∷ [];
  after_loop = between;
  polled = [];
  supply = record {
    for_rej = some blank;
    for_rr = some blank;
    for_answer = some blank;
    normal = true;
  };
}

-- A set mode command waits, and the reply timer has ended.
tx_pass-IsUp_example :
    PassedUp framing
      (inl refl)
      (tx_pass (some blank) none (surroundings receives) (link_req ∷ c_rplytmo ∷ []) link)
tx_pass-IsUp_example =
    tx_pass-IsUp framing (inl refl) (surroundings receives) (λ l h. h)
      (receives-Keeps, ((λ l h. h), ((λ l h. h), tt))) receives-Keeps (some blank) none
      (link_req ∷ c_rplytmo ∷ []) link (fresh, stands)

connected_tx-ends_example : (r : Served) × (connected_tx (surroundings quiet) [] link ≡ some r)
connected_tx-ends_example =
    connected_tx-ends (surroundings quiet) (λ l. omega arith)
      ((λ l. omega arith), ((λ l. omega arith), ((λ l. omega arith), tt))) [] link (omega arith)

-- The peers of a multipoint station, of which the first is not connected.
abbrev closed_peer : Peer
closed_peer = record peer { ss = record (peer.ss) { conn = false } }

abbrev peers : List Peer
peers = closed_peer ∷ peer ∷ record peer { addr = 4 } ∷ []

next_peer-reaches_example : (k : ℕ) × (0 < k) × (k ≤ 3) × (turns_on k false peers 1 ≡ 2)
unfolding accepts_at accepts
next_peer-reaches_example = next_peer-reaches false peers 2 1 (omega arith) refl (omega arith)

-- The queue with its head at 0, after `ioHdlc_frameq_init`.
abbrev headers : Heap
headers = frameq_init 0 (record { next = λ x. 9; prev = λ x. 9 })

empty_queue : Holds headers 0 []
unfolding frameq_init Linked
empty_queue = record { links = (refl, refl); distinct = (tt, tt) }

abbrev program : List Op
program = insert 1 ∷ insert 2 ∷ insert_head 3 ∷ remove ∷ remove ∷ remove ∷ remove ∷ []

program_allowed : AllAllowed 0 program []
unfolding AllAllowed
program_allowed = (
  (omega arith, tt),
  (
    (omega arith, (omega arith, tt)),
    ((omega arith, (omega arith, (omega arith, tt))), (tt, (tt, (tt, (tt, tt))))),
  ),
)

run-run_list_example :
    ((run 0 program headers).0 ≡ (run_list program []).0)
    × Holds (run 0 program headers).1 0 (run_list program []).1
run-run_list_example = run-run_list 0 program [] headers empty_queue program_allowed

abbrev config : Config
config = record { fcs_size = 2; framesize = 70; poll_retry_max = 3 }

one_peer : AreSound framing (peer ∷ [])
one_peer = record { windows = ((fresh, ((resend, window), limits)), tt); distinct = (tt, tt) }

-- A second peer, with the address 4.
add_peer-Adds_example :
    let known : Peers = record { list = peer ∷ []; c_peer = some 0 } in
    Adds framing station config 4 (peer ∷ []) (add_peer station config 4 known)
add_peer-Adds_example =
    add_peer-Adds framing (inl refl) station config 4 (record { list = peer ∷ []; c_peer = some 0 })
      refl (omega arith) one_peer

-- Two octets of two vectors are left to write, to a peer whose I-frames take 64.
abbrev writing : Writing
writing = record { link = link; iovs = (1 ∷ []) ∷ (2 ∷ []) ∷ []; remaining = 2; signal_tx = false }

abbrev write_turn : WriteTurn
write_turn = record {
  normal = true;
  woken = quiet;
  timed_out = false;
  normal_then = true;
  taken = some blank;
  meanwhile = receives;
}

write_frame-Fragments_example :
    Fragments blank write_turn writing (write_frame config blank write_turn writing)
write_frame-Fragments_example =
    write_frame-Fragments config blank write_turn writing (omega arith) (omega arith) refl

-- A station with a frame format field of one octet, of which the frame of 121 octets would have
-- the length 126.
abbrev fff_station : Station
fff_station = record station { framing = record framing { frame_offset = 1 } }

chunk_size-flag_example :
    (info_at fff_station + chunk_size fff_station config 200 121 + 2) % 256 ≢ 0x7e
chunk_size-flag_example = chunk_size-flag fff_station config 200 121 refl (omega arith)

-- The same turn, in which no other thread runs while the frame is filled.
abbrev calm_turn : WriteTurn
calm_turn = record write_turn { meanwhile = quiet }

-- Ten octets behind a field of one octet, with a check sequence of two.
rx_fff-emit_fff_example : IsRead 1 70 13 (emit_fff 1 2 10)
rx_fff-emit_fff_example =
    rx_fff-emit_fff 1 2 10 70 (inl refl) (omega arith) (omega arith) (λ _. omega arith)

-- A backend for check sequences of two and four octets.
abbrev backend : Backend
backend = record {
  supported_sizes = 2 ∷ 4 ∷ 0 ∷ 0 ∷ [];
  default_size = 4;
  check = true;
  compute = true;
}

sw_driver_init-IsServed_example : Initializes (some backend) (sw_driver_init (some backend))
sw_driver_init-IsServed_example = sw_driver_init-IsServed (some backend)

-- The driver with that backend.
abbrev backed_driver : SwDriver
backed_driver =
    with_caps (some backend)
      (record swdriver_base_caps { fcs_supported_sizes = 0 ∷ 2 ∷ 4 ∷ 0 ∷ []; fcs_default_size = 4 })

init-backed_driver : sw_driver_init (some backend) ≡ some backed_driver
unfolding sw_driver_init with_caps resolve_fcs_caps resolve_fcs_policy add_sizes fcs_size_supported
init-backed_driver = refl

backed_driver-IsServed : IsServed backed_driver
backed_driver-IsServed =
    (subst (Initializes (some backend)) init-backed_driver
      (sw_driver_init-IsServed (some backend))).0

-- An assertion stops a driver with a backend for three sizes more.
stopped_driver :
    sw_driver_init (some (record backend { supported_sizes = 1 ∷ 3 ∷ 4 ∷ 0 ∷ [] })) ≡ none
unfolding sw_driver_init with_caps resolve_fcs_caps add_sizes fcs_size_supported
stopped_driver = refl

drv_configure-Configures_example :
    Configures backed_driver 4 false 1 (drv_configure backed_driver 4 false 1)
drv_configure-Configures_example =
    drv_configure-Configures backed_driver 4 false 1 backed_driver-IsServed
