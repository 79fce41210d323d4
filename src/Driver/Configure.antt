-- ===== src/Driver/Configure.antt =====
-- The configuration of the driver in src/ioHdlcswdriver.c and include/ioHdlcswdriver.h: the
-- capabilities, `drv_configure`, `s_resolve_fcs_caps`, `s_resolve_fcs_policy` and the fields that
-- `ioHdlcSwDriverInit` sets for them.
pub mod Sizes
pub mod Offered
pub mod Served
pub mod Formatted
use mathlib.Core.Option
use io_hdlc.Base.{
  ℕ, ◌+◌, Bool, true, false, not, ◌&&◌, ◌||◌, Option, none, some, List, [], ◌∷◌, set, ltb, ◌==◌,
  if◌then◌else◌,
}

-- `ioHdlcDriverCapabilities` without the modulo, which only the station reads.
pub record Capabilities : Type 0 where
  pub fcs_supported_sizes : List ℕ
  pub fcs_default_size : ℕ
  pub transparency_hw_support : Bool
  pub transparency_sw_available : Bool
  pub fff_supported_types : List ℕ

abbrev pub swdriver_base_caps : Capabilities
swdriver_base_caps = record {
  fcs_supported_sizes = 0 ∷ 2 ∷ 0 ∷ 0 ∷ [];
  fcs_default_size = 2;
  transparency_hw_support = false;
  transparency_sw_available = true;
  fff_supported_types = 0 ∷ 1 ∷ 2 ∷ 0 ∷ [];
}

-- A backend: the check sizes that it handles, and which of its two functions are there.
pub record Backend : Type 0 where
  pub supported_sizes : List ℕ
  pub default_size : ℕ
  pub check : Bool
  pub compute : Bool

pub record SwDriverConfig : Type 0 where
  pub fcs_size : ℕ
  pub apply_transparency : Bool
  pub frame_format_size : ℕ

-- The functions `s_fcs_check_*` and `s_fcs_compute_*`.
pub data FcsFn : Type 0 where
  fcs_none fcs_sw fcs_backend : FcsFn

pub record SwDriver : Type 0 where
  pub caps : Capabilities
  pub tx_fcs_offload_sizes : List ℕ
  pub tx_materialize_plan : Bool
  pub backend : Option Backend
  pub rx_check_fn : FcsFn
  pub tx_compute_fn : FcsFn
  pub tx_defer_to_port : Bool
  pub config : SwDriverConfig

unfoldable pub fcs_size_supported : List ℕ → ℕ → Bool
fcs_size_supported [] fcs_size = false
fcs_size_supported (x ∷ xs) fcs_size = (x == fcs_size) || fcs_size_supported xs fcs_size

-- A backend that is there handles the size with the function.
abbrev pub backend_check : Option Backend → ℕ → Bool
backend_check none fcs_size = false
backend_check (some b) fcs_size = b.check && fcs_size_supported b.supported_sizes fcs_size

abbrev pub backend_compute : Option Backend → ℕ → Bool
backend_compute none fcs_size = false
backend_compute (some b) fcs_size = b.compute && fcs_size_supported b.supported_sizes fcs_size

-- The loop that adds the sizes of the backend from `next_slot` on; none where it asserts in vain that
-- there is a slot.
unfoldable pub add_sizes : List ℕ → ℕ → List ℕ → Option (List ℕ)
add_sizes sizes next_slot [] = some sizes
add_sizes sizes next_slot (x ∷ xs) =
    let kept = add_sizes sizes next_slot xs in
    let added = add_sizes (set sizes next_slot x) (next_slot + 1) xs in
    if (x == 0) || fcs_size_supported sizes x then kept else if ltb next_slot 4 then added else none

-- `s_resolve_fcs_caps`. Of the sizes of the driver itself, 0 and 2, slot 2 is the first that is
-- free.
unfoldable pub resolve_fcs_caps : Option Backend → Option Capabilities
resolve_fcs_caps none = some swdriver_base_caps
resolve_fcs_caps (some b) =
    let base = swdriver_base_caps.fcs_supported_sizes in
    Option.map
      (λ sizes. record swdriver_base_caps {
        fcs_supported_sizes = sizes;
        fcs_default_size = if fcs_size_supported sizes b.default_size then b.default_size else 2;
      })
      (if b.check && b.compute then add_sizes base 2 b.supported_sizes else some base)

unfoldable pub resolve_fcs_policy : SwDriver → SwDriver
resolve_fcs_policy drv =
    let size = drv.config.fcs_size in
    if size == 0
    then record drv { rx_check_fn = fcs_none; tx_compute_fn = fcs_none; tx_defer_to_port = false }
    else record drv {
      rx_check_fn = if backend_check drv.backend size then fcs_backend else fcs_sw;
      tx_compute_fn = if backend_compute drv.backend size then fcs_backend else fcs_sw;
      tx_defer_to_port =
          not drv.config.apply_transparency
          && not drv.tx_materialize_plan
          && fcs_size_supported drv.tx_fcs_offload_sizes size;
    }

-- The driver that `ioHdlcSwDriverInit` sets up with capabilities.
unfoldable pub with_caps : Option Backend → Capabilities → SwDriver
with_caps backend caps = resolve_fcs_policy (record {
  caps = caps;
  tx_fcs_offload_sizes = 0 ∷ 0 ∷ 0 ∷ 0 ∷ [];
  tx_materialize_plan = true;
  backend = backend;
  rx_check_fn = fcs_sw;
  tx_compute_fn = fcs_sw;
  tx_defer_to_port = false;
  config = record {
    fcs_size = caps.fcs_default_size;
    apply_transparency = false;
    frame_format_size = 0;
  };
})

-- `ioHdlcSwDriverInit`; none where an assertion stops it.
unfoldable pub sw_driver_init : Option Backend → Option SwDriver
unfolding resolve_fcs_caps with_caps
sw_driver_init backend = Option.map (with_caps backend) (resolve_fcs_caps backend)

pub data ConfigureResult : Type 0 where
  configured enotsup einval : ConfigureResult

-- `drv_configure`, with its result and the driver behind it.
unfoldable pub drv_configure : SwDriver → ℕ → Bool → ℕ → ConfigureResult × SwDriver
drv_configure drv fcs_size transparency fff_type =
    if not (fcs_size_supported drv.caps.fcs_supported_sizes fcs_size)
    then (enotsup, drv)
    else if not (fcs_size_supported drv.caps.fff_supported_types fff_type)
    then (enotsup, drv)
    else if transparency && not (fff_type == 0)
    then (einval, drv)
    else if transparency
        && not drv.caps.transparency_hw_support
        && not drv.caps.transparency_sw_available
    then (enotsup, drv)
    else (
      configured,
      resolve_fcs_policy (record drv {
        config = record {
          fcs_size = fcs_size;
          apply_transparency = transparency;
          frame_format_size = fff_type;
        };
      }),
    )
