-- ===== src/Driver/Receive.antt =====
-- Reception in src/ioHdlcswdriver.c: `s_on_rx`, which the port calls when the octets that it was
-- asked for are in place, and `drv_recv_frame`; and what include/ioHdlcstreamport.h asks of a port.

use io_hdlc.Base.{
  ℕ, zero, suc, ◌+◌, ◌-◌, ◌*◌, ◌/◌, ◌%◌, ◌^◌, bit_and, bit_or, Bool, true, false, not, ◌&&◌, ◌||◌,
  Option, none, some, List, [], ◌∷◌, ◌++◌, get_or, take, ltb, leb, ◌==◌, if◌then◌else◌,
}
use io_hdlc.State.{Frame}
use io_hdlc.Ll.Fcs.{fcs_init, update_fcs, fcs_finalize, good_fcs}
use io_hdlc.Ll.Transparency.{flag, frame_transparent_decode}
use io_hdlc.Driver.Field.{rx_type0, rx_type1_first, rx_type1_second}
use io_hdlc.Driver.Field.RxFff.{length_known, more}
use io_hdlc.Driver.Configure.{SwDriverConfig}

-- `HDLC_BASIC_MIN_L`
abbrev pub basic_min_l : ℕ
basic_min_l = 4

-- `iohdlc_rx_mode_t`
pub data RxMode : Type 0 where
  start_packet continue_packet : RxMode

-- Where the octets asked for go: the staging octet, or the buffer from an index on.
pub data RxTarget : Type 0 where
  staged : RxTarget
  buffer : ℕ → RxTarget

-- A call of `rx_submit`.
pub record RxSubmit : Type 0 where
  pub target : RxTarget
  pub n : ℕ
  pub mode : RxMode

-- `ioHdlcSwDriverRxState`, with the frames given back to the pool, the latest first.
pub record RxState : Type 0 where
  pub stagep : ℕ
  pub in_frame : Option Frame
  pub recept_q : List Frame
  pub recept_sem : ℕ
  pub released : List Frame

-- The error mask of a call of `s_on_rx`: empty, with the time-out bit, or another.
pub data RxError : Type 0 where
  no_error timed_out failed : RxError

-- What a call leaves and asks of the port.
pub record RxStep : Type 0 where
  pub state : RxState
  pub cancelled : Bool
  pub submit : Option RxSubmit

-- `s_handle_rx_error`
unfoldable pub handle_rx_error : RxState → RxState
handle_rx_error st = elim st.in_frame [
  | none ↦ record st { stagep = 0 }
  | some fp ↦ record st { released = fp ∷ st.released; in_frame = none; stagep = 0 }
]

abbrev pub from_start : RxSubmit
from_start = record { target = staged; n = 1; mode = start_packet }

abbrev pub into_buffer : ℕ → ℕ → RxSubmit
into_buffer k n = record { target = buffer k; n = n; mode = continue_packet }

abbrev pub discard : RxState → RxState × RxSubmit
discard st = (handle_rx_error st, from_start)

-- One octet more, or the end of a frame that is too long.
unfoldable pub accumulate : ℕ → Frame → RxState → RxState × RxSubmit
accumulate framesize fp st =
    let elen = (fp.elen + 1) % 2 ^ 16 in
    if leb framesize elen
    then discard st
    else (record st { in_frame = some (record fp { elen = elen }) }, into_buffer (fp.elen + 1) 1)

-- The frame's length is known to be `n`, of which the octets before index `k` are there.
abbrev pub known : ℕ → ℕ → ℕ → Frame → RxState → RxState × RxSubmit
known n k ask fp st = (record st { in_frame = some (record fp { elen = n }) }, into_buffer k ask)

-- The frame format field, in a frame whose octet is no delimiter.
unfoldable pub on_field : SwDriverConfig → ℕ → Frame → RxState → RxState × RxSubmit
on_field config framesize fp st =
    let b0 = get_or fp.octets 0 0 in
    let b1 = get_or fp.octets 1 0 in
    if config.frame_format_size == 1 && (fp.elen == 0)
    then elim (rx_type0 framesize b0) [ length_known n ↦ known n 1 n fp st | _ ↦ discard st ]
    else if config.frame_format_size == 2
    then (if fp.elen == 0
        then elim (rx_type1_first b0) [ more ↦ known 1 1 1 fp st | _ ↦ discard st ]
        else if fp.elen == 1
        then elim (rx_type1_second framesize b0 b1) [
          | length_known n ↦ known n 2 (n - 1) fp st
          | _ ↦ discard st
        ]
        else accumulate framesize fp st)
    else accumulate framesize fp st

-- A delimiter: it is passed over, ends what is too short, or delivers the frame and opens the next.
unfoldable pub on_delimiter : Frame → RxState → RxState × RxSubmit
on_delimiter fp st =
    if fp.elen == 0
    then (st, into_buffer 0 1)
    else if ltb fp.elen basic_min_l
    then (record st { in_frame = some (record fp { elen = 0 }) }, into_buffer 0 1)
    else (
      record st {
        recept_q = st.recept_q ++ (fp ∷ []);
        recept_sem = st.recept_sem + 1;
        in_frame = none;
        stagep = flag;
      },
      from_start,
    )

-- The octets received for the frame `fp` under assembly.
unfoldable pub on_octets : SwDriverConfig → ℕ → Frame → RxState → RxState × RxSubmit
on_octets config framesize fp st =
    if (get_or fp.octets fp.elen 0 == flag)
      && (not (config.frame_format_size == 2) || not (fp.elen == 1))
    then on_delimiter fp st
    else if not (config.frame_format_size == 0) && not config.apply_transparency
    then on_field config framesize fp st
    else accumulate framesize fp st

-- From the label `newframe` on: `taken` is what `hdlcTakeFrame` returns if it is called.
unfoldable pub new_frame : Option Frame → RxState × RxSubmit → RxState × RxSubmit
new_frame taken (st, submit) = elim st.in_frame [
  | some _ ↦ (st, submit)
  | none ↦ if not (st.stagep == flag) then (st, record submit { target = staged }) else elim taken [
    | none ↦ (record st { stagep = 0 }, record submit { target = staged })
    | some fp ↦ (
      record st { stagep = 0; in_frame = some (record fp { elen = 0 }) },
      record submit { target = buffer 0; mode = continue_packet },
    )
  ]
]

abbrev pub asks : Bool → RxState × RxSubmit → RxStep
asks cancelled (st, submit) = record { state = st; cancelled = cancelled; submit = some submit }

-- The octets asked for are in place; the frame under assembly is given.
abbrev pub on_data : SwDriverConfig → ℕ → Option Frame → Option Frame → RxState → RxStep
on_data config framesize taken none st = asks false (new_frame taken (st, from_start))
on_data config framesize taken (some fp) st =
    asks false (new_frame taken (on_octets config framesize fp st))

-- The line has been silent: a partial frame is discarded, else the reader is woken.
abbrev pub on_silence : Option Frame → Option Frame → RxState → RxStep
on_silence taken none st = record {
  state = record st { recept_sem = st.recept_sem + 1 };
  cancelled = false;
  submit = none;
}
on_silence taken (some fp) st =
    if fp.elen == 0
    then record {
      state = record st { recept_sem = st.recept_sem + 1 };
      cancelled = false;
      submit = none;
    }
    else asks true (new_frame taken (handle_rx_error st, from_start))

-- `s_on_rx`
unfoldable pub on_rx : SwDriverConfig → ℕ → Option Frame → RxError → RxState → RxStep
on_rx config framesize taken no_error st = on_data config framesize taken st.in_frame st
on_rx config framesize taken timed_out st = on_silence taken st.in_frame st
on_rx config framesize taken failed st =
    asks true (new_frame taken (handle_rx_error st, from_start))

-- The check sequence functions of a driver, software or a backend's: the octets behind the octets
-- covered, and the check of both.
pub record Fcs : Type 0 where
  pub compute : List ℕ → List ℕ
  pub check : List ℕ → Bool

-- `s_fcs_compute_none` and `s_fcs_check_none`
abbrev pub no_fcs : Fcs
no_fcs = record { compute = λ _. []; check = λ _. true }

-- `s_fcs_compute_sw` and `s_fcs_check_sw`
unfoldable pub compute_sw : List ℕ → List ℕ
compute_sw octets =
    let crc = fcs_finalize (update_fcs fcs_init octets) in bit_and crc 0xff ∷ (crc / 2 ^ 8) ∷ []

unfoldable pub check_sw : List ℕ → Bool
check_sw octets = update_fcs fcs_init octets == good_fcs

abbrev pub software_fcs : Fcs
software_fcs = record { compute = compute_sw; check = check_sw }

-- The length that the frame format field declares.
unfoldable pub declared_len : List ℕ → ℕ
declared_len octets =
    let b0 = get_or octets 0 0 in
    if not (bit_and b0 0x80 == 0) then bit_or (bit_and b0 0x0f * 256) (get_or octets 1 0) else b0

-- A frame taken from `recept_q`, decoded where transparency is applied.
unfoldable pub decoded : SwDriverConfig → Frame → Frame
decoded config fp =
    if config.apply_transparency
    then (let (octets, elen) = frame_transparent_decode fp.octets fp.elen in
        record fp { octets = octets; elen = elen })
    else fp

-- `fcs_ok && fff_ok`
unfoldable pub is_accepted : SwDriverConfig → Fcs → Frame → Bool
is_accepted config fcs fp =
    (not (ltb 0 config.fcs_size) || fcs.check (take fp.elen fp.octets))
    && (not (not (config.frame_format_size == 0) && ltb 0 fp.elen)
        || (declared_len fp.octets == fp.elen))

abbrev pub payload : SwDriverConfig → Frame → Frame
payload config fp = record fp { elen = (fp.elen + 2 ^ 16 - config.fcs_size) % 2 ^ 16 }

-- The loop of `drv_recv_frame` over the count of the semaphore, the queue and the frames given back.
-- The wait that finds the count at 0 times out.
unfoldable pub recv_loop :
    SwDriverConfig
    → Fcs
    → ℕ
    → List Frame
    → List Frame
    → record { frame : Option Frame; sem : ℕ; queue : List Frame; released : List Frame }
recv_loop config fcs zero queue released = record {
  frame = none;
  sem = 0;
  queue = queue;
  released = released;
}
recv_loop config fcs (suc sem) [] released = record {
  frame = none;
  sem = sem;
  queue = [];
  released = released;
}
recv_loop config fcs (suc sem) (fp ∷ queue) released =
    let given = decoded config fp in
    let rest = recv_loop config fcs sem queue (given ∷ released) in
    if is_accepted config fcs given
    then record {
      frame = some (payload config given);
      sem = sem;
      queue = queue;
      released = released;
    }
    else rest

-- `drv_recv_frame`
unfoldable pub recv_frame : SwDriverConfig → Fcs → RxState → Option Frame × RxState
recv_frame config fcs st =
    let r = recv_loop config fcs st.recept_sem st.recept_q st.released in
    (r.frame, record st { recept_sem = r.sem; recept_q = r.queue; released = r.released })
