-- ===== src/Station/Init.antt =====
-- `ioHdlcStationInit` of src/ioHdlc.c, over the software driver of src/ioHdlcswdriver.c, up to the
-- start of the driver. What an attempt that fails has written to the station is left out.
use io_hdlc.Base.{
  ℕ, ◌*◌, ◌%◌, ◌^◌, Bool, true, false, not, ◌&&◌, ◌||◌, Option, none, some, ltb, ◌==◌,
  if◌then◌else◌,
}
use io_hdlc.State.{Station}
use io_hdlc.State.Mode.{ndm, adm}
use io_hdlc.State.RxHandler.{no_handler}
use io_hdlc.Pool.{Pool, Call, layout, fmp_init, config_watermark}
use io_hdlc.Driver.Configure.{SwDriver, ConfigureResult, drv_configure}
use io_hdlc.Driver.Configure.ConfigureResult.{configured, enotsup, einval}
use io_hdlc.Station.Errno.{enotsup as not_supported, einval as invalid, enomem}
use io_hdlc.Station.{calculate_frame_size}
use io_hdlc.Station.Settings.Start.{initialized, fails, stopped}
use io_hdlc.Station.Settings.{
  Arena, StationConfig, Start, poll_retry_max_default, pool_watermark_pct_default,
  pool_watermark_high_multiplier, min_frame_pool_frames, frame_pool_alignment, supported_log2mods,
  log2mod_supported, or_default, framing_of, base_timeout, options, idle_poll, max_info,
}

-- The pool in the arena: it has too few frames, its watermarks are asserted in vain, or it is set up.
pub data PoolSetup : Type 0 where
  too_few bad_watermark : PoolSetup
  set_up : Pool → PoolSetup

-- The pool with its watermarks, if they are possible.
abbrev pub marked : Option (Pool × Call) → PoolSetup
marked none = bad_watermark
marked (some (pool, call)) = set_up pool

unfoldable pub init_pool : Arena → ℕ → ℕ → PoolSetup
unfolding layout fmp_init config_watermark
init_pool a watermark frame_size =
    let pool_layout =
      layout a.data_align a.payload_align a.min_object_align a.header_size a.address a.size
        frame_size frame_pool_alignment in
    let pct = or_default watermark pool_watermark_pct_default in
    let high = pct * pool_watermark_high_multiplier % 2 ^ 8 in
    if ltb pool_layout.count min_frame_pool_frames
    then too_few
    else marked (config_watermark pct high false false (fmp_init pool_layout.count))

-- The station before any connection.
unfoldable pub initial_station : StationConfig → ℕ → ℕ → ℕ → Station
unfolding framing_of
initial_station c fff_type t1 idle_ms = record {
  mode = c.mode;
  primary = c.primary;
  twa = c.twa;
  idle = c.idle;
  busy = c.busy;
  p_rcved = false;
  f_rcved = elim c.mode [ ndm ↦ true | _ ↦ false ] && c.primary;
  framing = framing_of c.log2mod fff_type;
  use_rej = (options c.optfuncs).rej;
  reply_timeout_ms = t1;
  idle_poll_timeout_ms = idle_ms;
  addr = c.addr;
  connected_count = 0;
  rx_fn = no_handler;
}

-- What is set up with a pool.
unfoldable pub with_pool : StationConfig → Station → ℕ → ℕ → SwDriver → PoolSetup → Start
with_pool c station fcs_size frame_size driver too_few = fails enomem
with_pool c station fcs_size frame_size driver bad_watermark = stopped
with_pool c station fcs_size frame_size driver (set_up pool) = initialized (record {
  station = station;
  config = record {
    fcs_size = fcs_size;
    framesize = frame_size;
    poll_retry_max = or_default c.poll_retry_max poll_retry_max_default;
  };
  driver = driver;
  frame_size = frame_size;
  pool = pool;
})

-- Once the driver has been asked for its configuration.
unfoldable pub with_driver :
    StationConfig → Arena → Station → ℕ → ℕ → ConfigureResult → SwDriver → Start
unfolding with_pool init_pool
with_driver c a station fcs_size frame_size enotsup driver = fails not_supported
with_driver c a station fcs_size frame_size einval driver = fails invalid
with_driver c a station fcs_size frame_size configured driver =
    with_pool c station fcs_size frame_size driver (init_pool a c.pool_watermark frame_size)

-- The driver is configured, and the pool set up for its frames.
unfoldable pub init_frames : StationConfig → Arena → Bool → ℕ → ℕ → SwDriver → Start
unfolding max_info with_driver initial_station base_timeout calculate_frame_size
init_frames c a transparency fff_type idle_ms drv =
    let fcs_size = drv.caps.fcs_default_size in
    let station = initial_station c fff_type (base_timeout c) idle_ms in
    let info = max_info c.max_info_len fff_type station.framing.ctrl_size fcs_size in
    let frame_size = calculate_frame_size c.log2mod fff_type fcs_size info transparency in
    let (result, driver) = drv_configure drv fcs_size transparency fff_type in
    with_driver c a station fcs_size frame_size result driver

-- The options are checked against each other and against the driver.
unfoldable pub init_options : StationConfig → Arena → ℕ → SwDriver → Start
unfolding init_frames
init_options c a idle_ms drv =
    let o = options c.optfuncs in
    let conflict = o.fff && o.stb in
    let transparency = o.stb && not conflict in
    let fff_type = if (c.fff_type == 0) && o.fff then 1 else c.fff_type in
    if conflict && not o.inh
    then fails invalid
    else if transparency
        && not drv.caps.transparency_hw_support
        && not drv.caps.transparency_sw_available
    then fails not_supported
    else init_frames c a transparency fff_type idle_ms drv

-- The modulus and the timeouts.
unfoldable pub init_timers : StationConfig → Arena → SwDriver → Start
unfolding init_options idle_poll base_timeout log2mod_supported
init_timers c a drv =
    if not (log2mod_supported supported_log2mods c.log2mod)
    then fails not_supported
    else elim (idle_poll c (base_timeout c)) [
      | none ↦ fails invalid
      | some idle_ms ↦ init_options c a idle_ms drv
    ]

-- The arena, the mode and the driver.
unfoldable pub init_driver : StationConfig → Option Arena → Option SwDriver → Start
unfolding init_timers
init_driver c none driver = fails invalid
init_driver c (some a) none = fails invalid
init_driver c (some a) (some drv) =
    let disc : Bool = elim c.mode [ ndm ↦ true | adm ↦ true | _ ↦ false ] in
    if not disc || (a.size == 0) || (c.twa_only && not c.twa)
    then fails invalid
    else init_timers c a drv

-- `ioHdlcStationInit`
unfoldable pub station_init : StationConfig → Start
unfolding init_driver
station_init c = init_driver c c.arena c.driver
