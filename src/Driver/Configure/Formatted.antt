-- ===== src/Driver/Configure/Formatted.antt =====
-- The format field of a driver that is configured.
use io_hdlc.Base.{ℕ, Bool, not, ◌&&◌, ◌≡◌, refl, ap, ◌==◌, if◌then◌else◌}
use io_hdlc.State.{if-elim}
use io_hdlc.Driver.Configure.{
  SwDriver, SwDriverConfig, ConfigureResult, drv_configure, resolve_fcs_policy, fcs_size_supported,
}
use io_hdlc.Driver.Configure.ConfigureResult.{configured, enotsup, einval}

resolve_fcs_policy-config : (drv : SwDriver) → (resolve_fcs_policy drv).config ≡ drv.config
unfolding resolve_fcs_policy
resolve_fcs_policy-config drv =
    if-elim (λ (d : SwDriver). d.config ≡ drv.config) (drv.config.fcs_size == 0) _ _ refl refl

-- A configuration that succeeds sets the format field.
abbrev pub Formats : ℕ → ConfigureResult × SwDriver → Type 0
Formats fff (configured, drv) = drv.config.frame_format_size ≡ fff
Formats fff (enotsup, drv) = Unit
Formats fff (einval, drv) = Unit

pub drv_configure-Formats :
    (drv : SwDriver) (size : ℕ) (transparency : Bool) (fff : ℕ)
    → Formats fff (drv_configure drv size transparency fff)
unfolding drv_configure
drv_configure-Formats drv size transparency fff =
    let P = Formats fff in
    let no_support : ConfigureResult × SwDriver = (enotsup, drv) in
    let with_config : SwDriver = record drv {
      config = record {
        fcs_size = size;
        apply_transparency = transparency;
        frame_format_size = fff;
      };
    } in
    let done : ConfigureResult × SwDriver = (configured, resolve_fcs_policy with_config) in
    let c4 =
      transparency
      && not drv.caps.transparency_hw_support
      && not drv.caps.transparency_sw_available in
    let c3 = transparency && not (fff == 0) in
    let last = if c4 then no_support else done in
    let refused : ConfigureResult × SwDriver = (einval, drv) in
    let later = if c3 then refused else last in
    if-elim P (not (fcs_size_supported drv.caps.fcs_supported_sizes size)) no_support _ tt (
      if-elim P (not (fcs_size_supported drv.caps.fff_supported_types fff)) no_support later tt (
        if-elim P c3 refused last tt (
          if-elim P c4 no_support done tt (
            ap (λ (x : SwDriverConfig). x.frame_format_size)
              (resolve_fcs_policy-config with_config)))))
