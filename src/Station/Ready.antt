-- ===== src/Station/Ready.antt =====
-- What a station is like that has been initialized.
use io_hdlc.Base.{
  ℕ, ◌*◌, ◌%◌, ◌^◌, ◌≤◌, ◌<◌, leb, ltb, Bool, true, false, not, ◌&&◌, ◌||◌, Option, none, some, ◌≡◌,
  refl, sym, subst, arith, ◌⊎◌, inl, inr, ◌==◌, if◌then◌else◌, Bool-cases,
}
use io_hdlc.State.{Mode, Framing, Station, is_disc, if_known, if-elim}
use io_hdlc.State.Mode.{ndm, adm}
use io_hdlc.Pool.{Pool, layout, fmp_init, config_watermark, init_watermark}
use io_hdlc.Driver.Configure.{SwDriver, ConfigureResult, drv_configure}
use io_hdlc.Driver.Configure.ConfigureResult.{configured, enotsup, einval}
use io_hdlc.Driver.Configure.Served.{IsServed, Configures, drv_configure-Configures}
use io_hdlc.Driver.Configure.Formatted.{Formats, drv_configure-Formats}
use io_hdlc.Control.RoundTrip.{IsFraming}
use io_hdlc.Station.Errno.{enotsup as not_supported, einval as invalid, enomem}
use io_hdlc.Station.Settings.Start.{initialized, fails, stopped}
use io_hdlc.Station.Init.PoolSetup.{too_few, bad_watermark, set_up}
use io_hdlc.Station.Settings.{
  StationConfig, Initialized, Start, Arena, framing_of, log2mod_supported, supported_log2mods,
  options, idle_poll, base_timeout, or_default,
}
use io_hdlc.Station.Init.{
  PoolSetup, marked, init_frames, with_pool, with_driver, init_driver, init_options, init_timers,
  station_init, init_pool, initial_station,
}

-- The framing that 0 as the logarithm of the modulus leads to.
abbrev pub IsVoid : Framing → Type 0
IsVoid f = (f.modmask ≡ 0) × ((f.pfoctet ≡ 0) × (f.ctrl_size ≡ 0))

supported_lem :
    (log2mod : ℕ)
    → log2mod_supported supported_log2mods log2mod ≡ true
    → (log2mod ≡ 3) ⊎ ((log2mod ≡ 7) ⊎ (log2mod ≡ 0))
unfolding log2mod_supported
supported_lem log2mod h = elim (Bool-cases (3 == log2mod)) [
  | inl e ↦ inl (ground arith)
  | inr e ↦ elim (Bool-cases (7 == log2mod)) [
    | inl k ↦ inr (inl (ground arith))
    | inr k ↦ inr (inr (ground arith))
  ]
]

-- The framing of a supported modulus, and that of the logarithm 0.
abbrev FramedAs : ℕ → Framing → Type 0
FramedAs log2mod f = IsFraming f ⊎ ((log2mod ≡ 0) × IsVoid f)

framing_of-FramedAs :
    (log2mod fff : ℕ)
    → log2mod_supported supported_log2mods log2mod ≡ true
    → FramedAs log2mod (framing_of log2mod fff)
unfolding framing_of
framing_of-FramedAs log2mod fff h = elim (supported_lem log2mod h) [
  | inl e ↦ subst (λ n. FramedAs n (framing_of n fff)) (sym e) (inl (inl refl))
  | inr (inl e) ↦ subst (λ n. FramedAs n (framing_of n fff)) (sym e) (inl (inr refl))
  | inr (inr e) ↦
      subst (λ n. FramedAs n (framing_of n fff)) (sym e) (inr (refl, (refl, (refl, refl))))
]

-- A driver that is there has functions that serve its check size.
abbrev pub ServedIfThere : Option SwDriver → Type 0
ServedIfThere none = Unit
ServedIfThere (some drv) = IsServed drv

-- A station that is initialized: it is disconnected, its framing is that of modulo 8 or 128, or of
-- the logarithm 0, its driver serves the check size and emits the format field that it reckons
-- with, and its pool has two frames.
pub record IsInitial (c : StationConfig) (i : Initialized) : Type 0 where
  pub framed : FramedAs c.log2mod i.station.framing
  pub disconnected : is_disc i.station ≡ true
  pub unconnected : i.station.connected_count ≡ 0
  pub served : IsServed i.driver
  pub checked : i.driver.config.fcs_size ≡ i.config.fcs_size
  pub formatted : i.driver.config.frame_format_size ≡ i.station.framing.frame_offset
  pub pooled : 2 ≤ i.pool.total
  pub watermarked : c.pool_watermark ≤ 50

-- How an initialization ends.
abbrev pub Starts : StationConfig → Start → Type 0
Starts c (initialized i) = IsInitial c i
Starts c (fails invalid) = Unit
Starts c (fails not_supported) = Unit
Starts c (fails enomem) = Unit
Starts c (fails e) = ⊥
Starts c stopped = 50 < c.pool_watermark

abbrev disc_mode : Mode → Bool
disc_mode m = elim m [ ndm ↦ true | adm ↦ true | _ ↦ false ]

-- What is known of a pool that is set up, or why it is not.
abbrev PoolMeets : ℕ → PoolSetup → Type 0
PoolMeets watermark too_few = Unit
PoolMeets watermark bad_watermark = 50 < watermark
PoolMeets watermark (set_up pool) = (2 ≤ pool.total) × (watermark ≤ 50)

-- The watermarks of a pool, the upper one twice the lower.
config_watermark-PoolMeets :
    (watermark : ℕ) (q : Pool)
    → 2 ≤ q.total
    → let pct = or_default watermark 20 in
      PoolMeets watermark (marked (config_watermark pct (pct * 2 % 2 ^ 8) false false q))
unfolding config_watermark
config_watermark-PoolMeets watermark q two =
    let pct = or_default watermark 20 in
    let high = pct * 2 % 2 ^ 8 in
    if_known (λ o. PoolMeets watermark (marked o)) (leb pct 100 && leb high 100 && ltb pct high) _ _
      (λ e. (two, ground arith)) (λ e. ground arith)

init_pool-PoolMeets :
    (a : Arena) (watermark frame_size : ℕ) → PoolMeets watermark (init_pool a watermark frame_size)
unfolding init_pool fmp_init init_watermark
init_pool-PoolMeets a watermark frame_size =
    let pool_layout =
      layout a.data_align a.payload_align a.min_object_align a.header_size a.address a.size
        frame_size 8 in
    if_known (PoolMeets watermark) (ltb pool_layout.count 2) too_few _ (λ _. tt)
      (λ e. config_watermark-PoolMeets watermark (fmp_init pool_layout.count) (ground arith))

module _ (c : StationConfig) (a : Arena) (fff idle_ms : ℕ) (disc : disc_mode c.mode ≡ true)
    (sup : log2mod_supported supported_log2mods c.log2mod ≡ true) where
  abbrev started : Station
  started = initial_station c fff (base_timeout c) idle_ms

  started-framed : FramedAs c.log2mod started.framing
  unfolding initial_station
  started-framed = framing_of-FramedAs c.log2mod fff sup

  started-disc : is_disc started ≡ true
  unfolding initial_station
  started-disc = disc

  with_pool-Starts :
      (size frame_size : ℕ) (drv : SwDriver)
      → IsServed drv
      → drv.config.fcs_size ≡ size
      → drv.config.frame_format_size ≡ fff
      → (o : PoolSetup) → PoolMeets c.pool_watermark o
      → Starts c (with_pool c started size frame_size drv o)
  unfolding with_pool
  with_pool-Starts size frame_size drv h e k too_few meets = tt
  with_pool-Starts size frame_size drv h e k bad_watermark meets = meets
  with_pool-Starts size frame_size drv h e k (set_up pool) (two, low) =
      let r1 = started-framed in
      let r2 = started-disc in
      record {
        framed = r1;
        disconnected = r2;
        unconnected = unfold initial_station in refl;
        served = h;
        checked = e;
        formatted = unfold initial_station framing_of in k;
        pooled = two;
        watermarked = low;
      }

  with_driver-Starts :
      (size frame_size : ℕ) (transparency : Bool) (before : SwDriver)
      (r : ConfigureResult × SwDriver)
      → Configures before size transparency fff r
      → Formats fff r
      → Starts c (with_driver c a started size frame_size r.0 r.1)
  unfolding with_driver
  with_driver-Starts size frame_size t before (configured, drv) (ok_size, (h, e)) k =
      with_pool-Starts size frame_size drv h e k (init_pool a c.pool_watermark frame_size)
        (init_pool-PoolMeets a c.pool_watermark frame_size)
  with_driver-Starts size frame_size t before (enotsup, drv) h k = tt
  with_driver-Starts size frame_size t before (einval, drv) h k = tt

  init_frames-Starts :
      (transparency : Bool) (drv : SwDriver)
      → IsServed drv
      → Starts c (init_frames c a transparency fff idle_ms drv)
  unfolding init_frames
  init_frames-Starts transparency drv h =
      let size = drv.caps.fcs_default_size in
      with_driver-Starts size _ transparency drv (drv_configure drv size transparency fff)
        (drv_configure-Configures drv size transparency fff h)
        (drv_configure-Formats drv size transparency fff)

init_options-Starts :
    (c : StationConfig) (a : Arena) (idle_ms : ℕ) (drv : SwDriver)
    → disc_mode c.mode ≡ true
    → log2mod_supported supported_log2mods c.log2mod ≡ true
    → IsServed drv
    → Starts c (init_options c a idle_ms drv)
unfolding init_options
init_options-Starts c a idle_ms drv disc sup h =
    let o = options c.optfuncs in
    let conflict = o.fff && o.stb in
    let transparency = o.stb && not conflict in
    let fff_type = if (c.fff_type == 0) && o.fff then 1 else c.fff_type in
    let rest = init_frames-Starts c a fff_type idle_ms disc sup transparency drv h in
    let c2 =
      transparency
      && not drv.caps.transparency_hw_support
      && not drv.caps.transparency_sw_available in
    let later = init_frames c a transparency fff_type idle_ms drv in
    if-elim (Starts c) (conflict && not o.inh) (fails invalid)
      (if c2 then fails not_supported else later) tt
      (if-elim (Starts c) c2 (fails not_supported) later tt rest)

init_timers-Starts :
    (c : StationConfig) (a : Arena) (drv : SwDriver)
    → disc_mode c.mode ≡ true
    → IsServed drv
    → Starts c (init_timers c a drv)
unfolding init_timers
init_timers-Starts c a drv disc h =
    if_known (Starts c) (not (log2mod_supported supported_log2mods c.log2mod)) _ _ (λ _. tt)
      (λ e.
        elim (idle_poll c (base_timeout c))
          as (λ o.
            Starts c
              (elim o [ none ↦ fails invalid | some idle_ms ↦ init_options c a idle_ms drv ])) [
                | none ↦ tt
                | some idle_ms ↦ init_options-Starts c a idle_ms drv disc (ground arith) h
              ])

init_driver-Starts :
    (c : StationConfig) (arena : Option Arena) (driver : Option SwDriver)
    → ServedIfThere driver
    → Starts c (init_driver c arena driver)
unfolding init_driver
init_driver-Starts c none driver h = tt
init_driver-Starts c (some a) none h = tt
init_driver-Starts c (some a) (some drv) h =
    if_known (Starts c) (not (disc_mode c.mode) || (a.size == 0) || (c.twa_only && not c.twa))
      (fails invalid) (init_timers c a drv) (λ _. tt)
      (λ e. init_timers-Starts c a drv (ground arith) h)

-- An initialization that succeeds leaves a station that is disconnected, whose framing is that of
-- modulo 8 or 128, or, where the logarithm of the modulus is configured as 0, one without a control
-- field; its driver serves the check size and emits the format field that it reckons with, its pool
-- has two frames at least, and the watermark configured is at most 50. An assertion stops it only
-- where that is above 50. Else it fails with `EINVAL`, `ENOTSUP` or `ENOMEM`.
pub station_init-Starts : (c : StationConfig) → ServedIfThere c.driver → Starts c (station_init c)
unfolding station_init
station_init-Starts c h = init_driver-Starts c c.arena c.driver h
