-- ===== src/Driver/Configure/Served.antt =====
-- The check sequence function that is chosen serves the size that is configured.
use mathlib.Core.Option
use io_hdlc.Base.{
  ℕ, Bool, true, false, not, ◌&&◌, Option, none, some, [], ◌∷◌, ◌≡◌, ◌≢◌, ◌⊎◌, inl, inr, refl, sym,
  subst, arith, ◌≤◌, ◌<◌, length, All, ◌==◌,
}
use io_hdlc.State.{if-elim, if_known}
use io_hdlc.Driver.Configure.{
  Backend, Capabilities, with_caps, FcsFn, SwDriver, fcs_size_supported, backend_check,
  backend_compute, resolve_fcs_caps, resolve_fcs_policy, sw_driver_init, ConfigureResult,
  drv_configure,
}
use io_hdlc.Driver.Configure.Sizes.{Offers}
use io_hdlc.Driver.Configure.FcsFn.{fcs_none, fcs_sw, fcs_backend}
use io_hdlc.Driver.Configure.ConfigureResult.{configured, enotsup, einval}
use io_hdlc.Driver.Configure.Offered.{added_sizes, CapsOf, resolve_fcs_caps-CapsOf}

-- A function serves a size: none serves 0, the one in software serves 2, and that of the backend
-- the sizes for which the backend has it.
abbrev pub Serves : Bool → ℕ → FcsFn → Type 0
Serves backed size fcs_none = size ≡ 0
Serves backed size fcs_sw = size ≡ 2
Serves backed size fcs_backend = backed ≡ true

-- The functions chosen serve the size configured, every size that the driver offers can be served,
-- and transparency is not applied to frames with a format field.
pub record IsServed (drv : SwDriver) : Type 0 where
  pub checked :
      Serves (backend_check drv.backend drv.config.fcs_size) drv.config.fcs_size drv.rx_check_fn
  pub computed :
      Serves (backend_compute drv.backend drv.config.fcs_size) drv.config.fcs_size drv.tx_compute_fn
  pub offered :
      (n : ℕ)
      → fcs_size_supported drv.caps.fcs_supported_sizes n ≡ true
      → (n ≡ 0)
        ⊎ ((n ≡ 2) ⊎ ((backend_check drv.backend n && backend_compute drv.backend n) ≡ true))
  pub exclusive : drv.config.apply_transparency ≡ true → drv.config.frame_format_size ≡ 0

-- The driver before its functions are chosen: what is needed of it.
module _ (drv : SwDriver) where
  policy_serves :
      ((n : ℕ)
        → fcs_size_supported drv.caps.fcs_supported_sizes n ≡ true
        → (n ≡ 0)
          ⊎ ((n ≡ 2) ⊎ ((backend_check drv.backend n && backend_compute drv.backend n) ≡ true)))
      → fcs_size_supported drv.caps.fcs_supported_sizes drv.config.fcs_size ≡ true
      → (drv.config.apply_transparency ≡ true → drv.config.frame_format_size ≡ 0)
      → IsServed (resolve_fcs_policy drv)
  unfolding resolve_fcs_policy
  policy_serves offered size exclusive =
      let n = drv.config.fcs_size in
      let b = drv.backend in
      if_known IsServed (n == 0) _ _
        (λ e. record {
          checked = ground arith;
          computed = ground arith;
          offered = offered;
          exclusive = exclusive;
        })
        (λ e.
          let two : (backend_check b n && backend_compute b n) ≡ false → n ≡ 2 = λ g.
            elim (offered n size) [
              | inl r ↦ ground arith
              | inr r ↦ elim r [ inl q ↦ q | inr q ↦ ground arith ]
            ] in
          record {
            checked =
                if_known (Serves (backend_check b n) n) (backend_check b n) fcs_backend fcs_sw
                  (λ g. g) (λ g. two (ground arith));
            computed =
                if_known (Serves (backend_compute b n) n) (backend_compute b n) fcs_backend fcs_sw
                  (λ g. g) (λ g. two (ground arith));
            offered = offered;
            exclusive = exclusive;
          })

policy_caps : (drv : SwDriver) → (resolve_fcs_policy drv).caps ≡ drv.caps
unfolding resolve_fcs_policy
policy_caps drv =
    if-elim {A = SwDriver} (λ t. t.caps ≡ drv.caps) (drv.config.fcs_size == 0) _ _ refl refl

policy_size : (drv : SwDriver) → (resolve_fcs_policy drv).config.fcs_size ≡ drv.config.fcs_size
unfolding resolve_fcs_policy
policy_size drv =
    if-elim {A = SwDriver} (λ t. t.config.fcs_size ≡ drv.config.fcs_size) (drv.config.fcs_size == 0)
      _ _ refl refl

-- What becomes of a driver with a backend: it is stopped by an assertion, since the backend adds more
-- than two sizes, or it serves what it offers, all sizes of the backend among it.
abbrev pub Initializes : Option Backend → Option SwDriver → Type 0
Initializes backend none = 2 < length (added_sizes backend)
Initializes backend (some drv) =
    IsServed drv
    × (length (added_sizes backend) ≤ 2)
    × All (Offers drv.caps.fcs_supported_sizes) (2 ∷ 0 ∷ added_sizes backend)

with_caps-Initializes :
    (backend : Option Backend) (o : Option Capabilities)
    → CapsOf backend o
    → Initializes backend (Option.map (with_caps backend) o)
unfolding with_caps
with_caps-Initializes backend none more = more
with_caps-Initializes backend (some caps) h =
    let drv : SwDriver = record {
      caps = caps;
      tx_fcs_offload_sizes = 0 ∷ 0 ∷ 0 ∷ 0 ∷ [];
      tx_materialize_plan = true;
      backend = backend;
      rx_check_fn = fcs_sw;
      tx_compute_fn = fcs_sw;
      tx_defer_to_port = false;
      config = record {
        fcs_size = caps.fcs_default_size;
        apply_transparency = false;
        frame_format_size = 0;
      };
    } in
    (
      policy_serves drv h.only h.default (λ e. refl),
      h.fit,
      subst (λ (c : Capabilities). All (Offers c.fcs_supported_sizes) (2 ∷ 0 ∷ added_sizes backend))
          (sym (policy_caps drv)) h.all,
    )

-- A driver is initialized with every backend that adds at most two sizes to 0 and 2, and with no
-- other, which an assertion stops. Then it has functions that serve its check size, and it offers 0,
-- 2 and the sizes for which the backend has both functions, and no others.
pub sw_driver_init-IsServed :
    (backend : Option Backend) → Initializes backend (sw_driver_init backend)
unfolding sw_driver_init
sw_driver_init-IsServed backend =
    with_caps-Initializes backend (resolve_fcs_caps backend) (resolve_fcs_caps-CapsOf backend)

-- What a call of `drv_configure` may do: it configures, or changes nothing for a reason.
abbrev pub Configures : SwDriver → ℕ → Bool → ℕ → ConfigureResult × SwDriver → Type 0
Configures drv size transparency fff (configured, after) =
    (fcs_size_supported drv.caps.fcs_supported_sizes size ≡ true)
    × (IsServed after × (after.config.fcs_size ≡ size))
Configures drv size transparency fff (enotsup, after) =
    (after ≡ drv)
    × ((fcs_size_supported drv.caps.fcs_supported_sizes size ≡ false)
        ⊎ ((fcs_size_supported drv.caps.fff_supported_types fff ≡ false)
            ⊎ ((transparency
                  && not drv.caps.transparency_hw_support
                  && not drv.caps.transparency_sw_available)
                ≡ true)))
Configures drv size transparency fff (einval, after) =
    (after ≡ drv) × ((transparency ≡ true) × (fff ≢ 0))

-- On a driver whose functions serve its check size, a configuration that succeeds has a size that
-- is offered and chooses functions that serve it; one that fails leaves the driver as it is, with
-- `EINVAL` only for transparency with a format field, and `ENOTSUP` only for a size, a type of
-- field or a transparency that is not supported.
pub drv_configure-Configures :
    (drv : SwDriver) (size : ℕ) (transparency : Bool) (fff : ℕ)
    → IsServed drv
    → Configures drv size transparency fff (drv_configure drv size transparency fff)
unfolding drv_configure
drv_configure-Configures drv size transparency fff h =
    let P = Configures drv size transparency fff in
    let with_config = record drv {
      config = record {
        fcs_size = size;
        apply_transparency = transparency;
        frame_format_size = fff;
      };
    } in
    let accepted : fcs_size_supported drv.caps.fcs_supported_sizes size ≡ true
        → (transparency && not (fff == 0)) ≡ false
        → P (configured, resolve_fcs_policy with_config) =
      λ ok g. (
        ok,
        (policy_serves with_config h.offered ok (λ t. ground arith), policy_size with_config),
      ) in
    if_known P (not (fcs_size_supported drv.caps.fcs_supported_sizes size)) _ _
      (λ e. (refl, inl (ground arith)))
      (λ e.
        if_known P (not (fcs_size_supported drv.caps.fff_supported_types fff)) _ _
          (λ t. (refl, inr (inl (ground arith))))
          (λ _.
            if_known P (transparency && not (fff == 0)) _ _
              (λ g. (refl, (ground arith, ground arith)))
              (λ g.
                if_known P
                  (transparency
                    && not drv.caps.transparency_hw_support
                    && not drv.caps.transparency_sw_available)
                  (enotsup, drv) (configured, resolve_fcs_policy with_config)
                  (λ t. (refl, inr (inr t))) (λ _. accepted (ground arith) g))))
