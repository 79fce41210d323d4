-- ===== src/Pool.antt =====
-- The fixed-memory frame pool: the watermark of src/ioHdlcpool_common.c, the operations of
-- os/linux/src/ioHdlcfmempool.c, each a step under the pool's lock, and the layout of its arena in
-- include/ioHdlcfmempool_layout.h. A frame is its index in the arena; `refs` holds the reference
-- count of each, and `free_list` the indices, the next one to be taken first. A callback is a flag
-- that says whether one is installed; what an operation calls is in its result.
pub mod Books
pub mod Accounting
use io_hdlc.Base.{
  ℕ, zero, suc, ◌+◌, ◌-◌, ◌*◌, ◌/◌, ◌%◌, ◌^◌, Bool, true, false, ◌&&◌, Option, none, some, List, [],
  ◌∷◌, get_or, set, ltb, leb, ◌==◌, if◌then◌else◌,
}

-- `iohdlc_pool_state_t`
pub data PoolState : Type 0 where
  normal low_water : PoolState

-- What an operation calls once it has left the lock.
pub data Call : Type 0 where
  no_call call_on_low call_on_normal : Call

-- `ioHdlcFrameMemPool`
pub record Pool : Type 0 where
  pub refs : List ℕ
  pub free_list : List ℕ
  pub total : ℕ
  pub allocated : ℕ
  pub low_threshold : ℕ
  pub high_threshold : ℕ
  pub low_pct : ℕ
  pub high_pct : ℕ
  pub state : PoolState
  pub on_low : Bool
  pub on_normal : Bool

abbrev pub is_normal : Pool → Bool
is_normal q = elim q.state [ normal ↦ true | low_water ↦ false ]

-- `hdlcPoolGetState(&s->frame_pool) == IOHDLC_POOL_LOW_WATER`
abbrev pub is_low_water : Pool → Bool
is_low_water q = elim q.state [ normal ↦ false | low_water ↦ true ]

-- `hdlc_pool_init_watermark`
unfoldable pub init_watermark : ℕ → Pool → Pool
init_watermark total q = record q {
  low_pct = 20;
  high_pct = 60;
  low_threshold = total * 20 / 100;
  high_threshold = total * 60 / 100;
  state = PoolState.normal;
  on_low = false;
  on_normal = false;
}

-- `hdlc_pool_check_low_watermark`, and the call of what it returns.
unfoldable pub check_low_watermark : Pool → Pool × Call
check_low_watermark q =
    if is_normal q && leb (q.total - q.allocated) q.low_threshold
    then (
      record q { state = PoolState.low_water },
      if q.on_low then Call.call_on_low else Call.no_call,
    )
    else (q, Call.no_call)

-- `hdlc_pool_check_high_watermark`, and the call of what it returns.
unfoldable pub check_high_watermark : Pool → Pool × Call
check_high_watermark q =
    if is_low_water q && ltb q.high_threshold (q.total - q.allocated)
    then (
      record q { state = PoolState.normal },
      if q.on_normal then Call.call_on_normal else Call.no_call,
    )
    else (q, Call.no_call)

-- The frame `fp` comes off the free list.
abbrev pub pop_free : ℕ → List ℕ → Pool → Pool
pop_free fp rest q = record q {
  refs = set q.refs fp 1;
  free_list = rest;
  allocated = q.allocated + 1;
}

-- The frame `fp` goes to the free list.
abbrev pub push_free : ℕ → Pool → Pool
push_free fp q = record q {
  refs = set q.refs fp 0;
  free_list = fp ∷ q.free_list;
  allocated = q.allocated - 1;
}

-- `take`, on the free list.
unfoldable pub take_from : List ℕ → Pool → Option ℕ × (Pool × Call)
unfolding check_low_watermark
take_from [] q = (none, (q, Call.no_call))
take_from (fp ∷ rest) q = (some fp, check_low_watermark (pop_free fp rest q))

-- `take`
unfoldable pub take_frame : Pool → Option ℕ × (Pool × Call)
unfolding take_from
take_frame q = take_from q.free_list q

-- `release`, of a frame whose reference count is above 0, which the source asserts.
unfoldable pub release_frame : ℕ → Pool → Pool × Call
unfolding check_high_watermark
release_frame fp q =
    if get_or q.refs fp 0 == 1
    then check_high_watermark (push_free fp q)
    else (record q { refs = set q.refs fp (get_or q.refs fp 0 - 1) }, Call.no_call)

-- `addref`; `refs` is a `uint8_t`.
unfoldable pub addref : ℕ → Pool → Pool
addref fp q = record q { refs = set q.refs fp ((get_or q.refs fp 0 + 1) % 2 ^ 8) }

-- The free list that the loop of `fmpInit` builds over `count` frames: the last is first.
unfoldable pub build_free_list : ℕ → List ℕ
build_free_list zero = []
build_free_list (suc i) = i ∷ build_free_list i

unfoldable pub zeros : ℕ → List ℕ
zeros zero = []
zeros (suc n) = 0 ∷ zeros n

-- `fmpInit` over an arena of `count` frames.
unfoldable pub fmp_init : ℕ → Pool
unfolding init_watermark build_free_list zeros
fmp_init count = init_watermark count record {
  refs = zeros count;
  free_list = build_free_list count;
  total = count;
  allocated = 0;
  low_threshold = 0;
  high_threshold = 0;
  low_pct = 0;
  high_pct = 0;
  state = PoolState.normal;
  on_low = false;
  on_normal = false;
}

-- The call of `hdlcPoolConfigWatermark` on a change from a normal state or not to another.
unfoldable pub config_call : Bool → Pool → Call
config_call was_normal q =
    if was_normal && is_low_water q && q.on_low
    then Call.call_on_low
    else if is_low_water q
    then Call.no_call
    else if was_normal
    then Call.no_call
    else if q.on_normal
    then Call.call_on_normal
    else Call.no_call

-- `hdlcPoolConfigWatermark`; none where its assertions on the percentages fail.
unfoldable pub config_watermark : ℕ → ℕ → Bool → Bool → Pool → Option (Pool × Call)
unfolding config_call
config_watermark low_pct high_pct on_low on_normal q =
    let low = q.total * low_pct / 100 in
    let configured = record q {
      low_pct = low_pct;
      high_pct = high_pct;
      on_low = on_low;
      on_normal = on_normal;
      low_threshold = low;
      high_threshold = q.total * high_pct / 100;
      state = if leb (q.total - q.allocated) low then PoolState.low_water else PoolState.normal;
    } in
    if leb low_pct 100 && leb high_pct 100 && ltb low_pct high_pct
    then some (configured, config_call (is_normal q) configured)
    else none

-- `iohdlc_fmempool_align_up_size` and `iohdlc_fmempool_align_up_uintptr` for an alignment that is a
-- power of two, where masking the low bits is rounding down to a multiple.
unfoldable pub align_up : ℕ → ℕ → ℕ
align_up value align = (value + align - 1) / align * align

-- `iohdlc_fmempool_layout_t`
pub record Layout : Type 0 where
  pub base : ℕ
  pub element_size : ℕ
  pub count : ℕ

abbrev pub at_least : ℕ → ℕ → ℕ
at_least low align = if ltb align low then low else align

-- `iohdlc_fmempool_layout`: the alignment that the DMA of the platform asks of a buffer, that of
-- the payload, that of an object and the size of a frame's header are arguments. A `count` beyond
-- 32 bits cannot arise, since the arena has fewer octets.
unfoldable pub layout : ℕ → ℕ → ℕ → ℕ → ℕ → ℕ → ℕ → ℕ → Layout
unfolding align_up
layout data_align payload_align min_object_align header_size arena arenasize framesize
      preferred_align =
    let object_align = at_least payload_align (at_least min_object_align preferred_align) in
    let element_size = align_up (header_size + framesize) object_align in
    let base = align_up arena object_align in
    if ltb payload_align data_align
    then record { base = 0; element_size = 0; count = 0 }
    else if leb (arena + arenasize) base
    then record { base = 0; element_size = element_size; count = 0 }
    else record {
      base = base;
      element_size = element_size;
      count = (arena + arenasize - base) / element_size;
    }
