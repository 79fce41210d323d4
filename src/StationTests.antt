-- ===== src/StationTests.antt =====
-- Concrete runs of the station interface.
use io_hdlc.Base.{
  ℕ, ◌≡◌, refl, arith, true, false, Option, some, none, [], ◌∷◌, ◌++◌, if◌then◌else◌,
}
use io_hdlc.State.{Station, Peer, Frame, Link, on_peer}
use io_hdlc.State.RxHandler.{nrm_handler}
use io_hdlc.Station.{Config, new_peer}
use io_hdlc.Station.Settings.{Start}
use io_hdlc.Station.Settings.Start.{initialized, fails, stopped}
use io_hdlc.Station.Read.{
  ReadTurn, Reading, info_len, empty_vectors, reader_waits, read_pass, read_v,
}
use io_hdlc.Station.Stream.{IsWhole, IsReadable}
use io_hdlc.Station.Reads.{PassReads, read_pass-PassReads}
use io_hdlc.Station.Waiting.{Fills, read_v-Fills}
use io_hdlc.Station.LinkUp.{Wake}
use io_hdlc.State.Mode.{nrm, ndm}
use io_hdlc.Pool.{layout, align_up, config_watermark, fmp_init, init_watermark}
use io_hdlc.Driver.Configure.{
  with_caps, sw_driver_init, drv_configure, resolve_fcs_caps, fcs_size_supported,
  resolve_fcs_policy,
}
use io_hdlc.Driver.Configure.Served.{sw_driver_init-IsServed}
use io_hdlc.Station.{calculate_frame_size}
use io_hdlc.Station.Settings.{
  StationConfig, log2mod_supported, idle_poll, base_timeout, framing_of, max_info,
}
use io_hdlc.Station.Init.{
  station_init, init_driver, init_timers, init_options, init_frames, initial_station, with_driver,
  with_pool, init_pool,
}
use io_hdlc.Station.Ready.{Starts, station_init-Starts}

abbrev station : Station
station = record {
  mode = nrm;
  primary = true;
  twa = false;
  idle = false;
  busy = true;
  p_rcved = false;
  f_rcved = true;
  framing = record { modmask = 7; pfoctet = 0; ctrl_size = 1; frame_offset = 0 };
  use_rej = true;
  reply_timeout_ms = 100;
  idle_poll_timeout_ms = 200;
  addr = 1;
  connected_count = 1;
  rx_fn = nrm_handler;
}

abbrev config : Config
config = record { fcs_size = 2; framesize = 70; poll_retry_max = 3 }

-- A peer that is connected.
abbrev peer : Peer
peer = let p = new_peer station config 3 in record p { ss = record (p.ss) { conn = true } }

-- I-frames with the octets 65 66 67 and 68, of buffers with room for more.
abbrev abc : Frame
abc = record { octets = 3 ∷ 0 ∷ 65 ∷ 66 ∷ 67 ∷ 0 ∷ []; elen = 5; tx_ctrl_len = 1 }

abbrev d : Frame
d = record { octets = 3 ∷ 2 ∷ 68 ∷ 0 ∷ 0 ∷ 0 ∷ []; elen = 3; tx_ctrl_len = 1 }

abc-IsWhole : IsWhole station abc
abc-IsWhole = record { header = omega arith; buffered = omega arith; short = omega arith }

d-IsWhole : IsWhole station d
d-IsWhole = record { header = omega arith; buffered = omega arith; short = omega arith }

-- The first frame is read in part, up to 65, and the second waits.
abbrev link : Link
link = record {
  s = station;
  p = record peer { partial_read_frame = some abc; partial_read_offset = 1; i_recept_q = d ∷ [] };
  log = [];
}

link-IsReadable : IsReadable link
unfolding new_peer info_len
link-IsReadable = record { queued = (d-IsWhole, tt); part = (abc-IsWhole, omega arith) }

-- No other thread runs.
abbrev calm : ReadTurn
calm = record { woken = λ l. l; timed_out = false; pool_normal = true }

-- Vectors of one and of two octets.
read_v-Fills_example : Fills (1 ∷ 2 ∷ []) link (read_v (1 ∷ 2 ∷ []) (calm ∷ calm ∷ calm ∷ []) link)
unfolding new_peer info_len
read_v-Fills_example =
    read_v-Fills 1 (2 ∷ []) (calm ∷ calm ∷ calm ∷ []) link link-IsReadable refl (omega arith)
      (omega arith)

-- No frame waits, until the reader is woken: then the frame with 68 does.
abbrev idle_link : Link
idle_link = record { s = station; p = peer; log = [] }

abbrev woken_turn : ReadTurn
woken_turn = record {
  woken = on_peer (λ p. record p { i_recept_q = p.i_recept_q ++ (d ∷ []) });
  timed_out = false;
  pool_normal = true;
}

abbrev begun : Reading
begun = record { link = idle_link; vectors = empty_vectors (4 ∷ []); remaining = 4 }

read_pass-PassReads_example :
    PassReads 4 (if reader_waits peer then 68 ∷ [] else []) begun (read_pass 4 woken_turn begun)
unfolding new_peer info_len empty_vectors
read_pass-PassReads_example =
    read_pass-PassReads 4 woken_turn begun (68 ∷ []) (record { roomy = refl; summed = refl })
      (record { queued = tt; part = tt }) (record { queued = (d-IsWhole, tt); part = tt }, refl)

-- A station that is connected to another peer, in the normal response mode; first the other peer's
-- connection is announced, then the refusal by this peer.
abbrev refused_link : Link
refused_link = record { s = station; p = new_peer station config 4; log = [] }

abbrev announced : Wake
announced = record { meanwhile = λ l. l; up = true; refused = false; down = false }

abbrev refusal : Wake
refusal = record { meanwhile = λ l. l; up = false; refused = true; down = false }

-- A primary station without a frame format field, with the software driver and an arena of 4096
-- octets.
abbrev station_config : ℕ → StationConfig
station_config log2mod = record {
  mode = ndm;
  primary = true;
  twa = false;
  idle = false;
  busy = false;
  log2mod = log2mod;
  addr = 1;
  driver = sw_driver_init none;
  arena = some (record {
    address = 4096;
    size = 4096;
    data_align = 8;
    payload_align = 8;
    min_object_align = 8;
    header_size = 64;
  });
  max_info_len = 0;
  pool_watermark = 0;
  fff_type = 0;
  optfuncs = some (record { rej = true; fff = false; stb = true; inh = false });
  twa_only = false;
  reply_timeout_ms = 0;
  poll_retry_max = 0;
  idle_poll_timeout_ms = 0;
}

station_init-Starts_example : Starts (station_config 7) (station_init (station_config 7))
unfolding sw_driver_init resolve_fcs_caps
station_init-Starts_example =
    station_init-Starts (station_config 7) ((sw_driver_init-IsServed none).0)

-- The control size, where the station is initialized.
abbrev ctrl_size_of : Start → Option ℕ
ctrl_size_of (initialized i) = some i.station.framing.ctrl_size
ctrl_size_of (fails e) = none
ctrl_size_of stopped = none

ctrl_size-modulo_128 : ctrl_size_of (station_init (station_config 7)) ≡ some 2
unfolding station_init init_driver init_timers log2mod_supported idle_poll base_timeout init_options
    init_frames initial_station framing_of with_driver with_pool init_pool config_watermark fmp_init
    init_watermark layout align_up sw_driver_init with_caps drv_configure max_info
    calculate_frame_size resolve_fcs_caps fcs_size_supported resolve_fcs_policy
ctrl_size-modulo_128 = refl

-- The logarithm 0 is accepted.
ctrl_size-void : ctrl_size_of (station_init (station_config 0)) ≡ some 0
unfolding station_init init_driver init_timers log2mod_supported idle_poll base_timeout init_options
    init_frames initial_station framing_of with_driver with_pool init_pool config_watermark fmp_init
    init_watermark layout align_up sw_driver_init with_caps drv_configure max_info
    calculate_frame_size resolve_fcs_caps fcs_size_supported resolve_fcs_policy
ctrl_size-void = refl

-- A watermark of 51 stops it.
watermark-stopped : station_init (record (station_config 7) { pool_watermark = 51 }) ≡ stopped
unfolding station_init init_driver init_timers log2mod_supported idle_poll base_timeout init_options
    init_frames initial_station framing_of with_driver with_pool init_pool config_watermark fmp_init
    init_watermark layout align_up sw_driver_init with_caps drv_configure max_info
    calculate_frame_size resolve_fcs_caps fcs_size_supported resolve_fcs_policy
watermark-stopped = refl
