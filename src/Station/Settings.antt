-- ===== src/Station/Settings.antt =====
-- `struct iohdlc_station_config` of include/ioHdlc.h with the defaults of include/ioHdlc_conf.h, and
-- what `ioHdlcStationInit` of src/ioHdlc.c computes from it.
use io_hdlc.Base.{
  ℕ, ◌+◌, ◌-◌, ◌*◌, ◌/◌, ◌%◌, ◌^◌, Bool, true, false, not, ◌&&◌, ◌||◌, Option, none, some, List, [],
  ◌∷◌, ltb, ◌==◌, if◌then◌else◌,
}
use io_hdlc.State.{Mode, Framing, Station}
use io_hdlc.State.Mode.{ndm, adm, abm}
use io_hdlc.Pool.{Pool}
use io_hdlc.Driver.Configure.{SwDriver}
use io_hdlc.Station.{Config, Errno}

-- The bits of `optfuncs` that the station reads.
pub record OptFuncs : Type 0 where
  pub rej : Bool
  pub fff : Bool
  pub stb : Bool
  pub inh : Bool

-- `frame_arena` and its size, and what the platform asks of the pool's layout.
pub record Arena : Type 0 where
  pub address : ℕ
  pub size : ℕ
  pub data_align : ℕ
  pub payload_align : ℕ
  pub min_object_align : ℕ
  pub header_size : ℕ

-- `struct iohdlc_station_config`; of the physical driver only whether it asks for TWA.
pub record StationConfig : Type 0 where
  pub mode : Mode
  pub primary : Bool
  pub twa : Bool
  pub idle : Bool
  pub busy : Bool
  pub log2mod : ℕ
  pub addr : ℕ
  pub driver : Option SwDriver
  pub arena : Option Arena
  pub max_info_len : ℕ
  pub pool_watermark : ℕ
  pub fff_type : ℕ
  pub optfuncs : Option OptFuncs
  pub twa_only : Bool
  pub reply_timeout_ms : ℕ
  pub poll_retry_max : ℕ
  pub idle_poll_timeout_ms : ℕ

-- What an initialization sets up.
pub record Initialized : Type 0 where
  pub station : Station
  pub config : Config
  pub driver : SwDriver
  pub frame_size : ℕ
  pub pool : Pool

-- How an initialization ends: it succeeds, it returns -1 with an errno, or an assertion stops it.
pub data Start : Type 0 where
  initialized : Initialized → Start
  fails : Errno → Start
  stopped : Start

abbrev pub reply_timeout_ms_default : ℕ
reply_timeout_ms_default = 100

abbrev pub reply_timeout_addr_skew_divisor : ℕ
reply_timeout_addr_skew_divisor = 10

abbrev pub dfl_t3_idle_t1_ratio : ℕ
dfl_t3_idle_t1_ratio = 2

abbrev pub poll_retry_max_default : ℕ
poll_retry_max_default = 8

abbrev pub max_info_len_default_no_fff : ℕ
max_info_len_default_no_fff = 122

abbrev pub pool_watermark_pct_default : ℕ
pool_watermark_pct_default = 20

abbrev pub pool_watermark_high_multiplier : ℕ
pool_watermark_high_multiplier = 2

abbrev pub min_frame_pool_frames : ℕ
min_frame_pool_frames = 2

abbrev pub frame_pool_alignment : ℕ
frame_pool_alignment = 8

-- `modulo.supported_log2mods` of the software driver.
abbrev pub supported_log2mods : List ℕ
supported_log2mods = 3 ∷ 7 ∷ 0 ∷ 0 ∷ []

-- `s_log2mod_supported`
unfoldable pub log2mod_supported : List ℕ → ℕ → Bool
log2mod_supported [] log2mod = false
log2mod_supported (x ∷ xs) log2mod =
    let rest = log2mod_supported xs log2mod in if x == log2mod then true else rest

-- A configured value, where 0 stands for the default.
abbrev pub or_default : ℕ → ℕ → ℕ
or_default value default = if value == 0 then default else value

-- The framing of a modulus.
unfoldable pub framing_of : ℕ → ℕ → Framing
framing_of log2mod fff_type =
    let pfoctet = (log2mod + 1) / 8 in
    record {
      modmask = 2 ^ log2mod - 1;
      pfoctet = pfoctet;
      ctrl_size = if log2mod == 3 then 1 else pfoctet * 2;
      frame_offset = fff_type;
    }

-- The reply timeout, in 16 bits; in the asynchronous modes it depends on the address.
unfoldable pub base_timeout : StationConfig → ℕ
base_timeout c =
    let base = or_default c.reply_timeout_ms reply_timeout_ms_default in
    let skew = (c.addr + 255) % 2 ^ 8 * (base / reply_timeout_addr_skew_divisor) in
    let skewed : Bool = elim c.mode [ abm ↦ true | adm ↦ true | _ ↦ false ] in
    (if skewed then base + skew else base) % 2 ^ 16

-- The options, or the default ones.
abbrev pub options : Option OptFuncs → OptFuncs
options none = record { rej = true; fff = true; stb = false; inh = true }
options (some o) = o

-- The idle poll timeout; none if the configured one is out of its range.
unfoldable pub idle_poll : StationConfig → ℕ → Option ℕ
idle_poll c t1 =
    if elim c.mode [ ndm ↦ true | _ ↦ false ] && not (c.idle_poll_timeout_ms == 0)
    then (if ltb c.idle_poll_timeout_ms t1 || ltb (2 ^ 16 - 1) c.idle_poll_timeout_ms
        then none
        else some c.idle_poll_timeout_ms)
    else some (t1 * dfl_t3_idle_t1_ratio)

unfoldable pub max_info : ℕ → ℕ → ℕ → ℕ → ℕ
max_info configured_len fff_type ctrl_size fcs_size =
    if not (configured_len == 0)
    then configured_len
    else if fff_type == 1
    then 127 - 1 - 1 - ctrl_size - fcs_size
    else if fff_type == 2
    then 4095 - 2 - 1 - ctrl_size - fcs_size
    else max_info_len_default_no_fff
