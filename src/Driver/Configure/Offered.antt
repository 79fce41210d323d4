-- ===== src/Driver/Configure/Offered.antt =====
-- The capabilities of a driver with a backend.
use mathlib.Core.Option
use io_hdlc.Base.{
  ℕ, true, ◌&&◌, Option, none, some, List, [], ◌∷◌, ◌≡◌, ◌⊎◌, inl, inr, refl, arith, ◌≤◌, ◌<◌,
  length, All, if◌then◌else◌,
}
use io_hdlc.State.{if_known}
use io_hdlc.Driver.Configure.{
  Backend, Capabilities, fcs_size_supported, backend_check, backend_compute, add_sizes,
  swdriver_base_caps, resolve_fcs_caps,
}
use io_hdlc.Driver.Configure.Sizes.{Offers, AddsTo, new_sizes, two-AddsTo}

base_sizes :
    (n : ℕ) → fcs_size_supported swdriver_base_caps.fcs_supported_sizes n ≡ true → (n ≡ 0) ⊎ (n ≡ 2)
unfolding fcs_size_supported
base_sizes n h = ground arith

-- The sizes that a backend adds to those of the driver itself, each once.
abbrev pub added_sizes : Option Backend → List ℕ
added_sizes none = []
added_sizes (some b) = if b.check && b.compute then new_sizes (2 ∷ 0 ∷ []) b.supported_sizes else []

-- Every size that is offered is 0, 2 or one for which the backend has both functions.
abbrev pub OnlyServed : Option Backend → List ℕ → Type 0
OnlyServed backend sizes =
    (n : ℕ)
    → Offers sizes n
    → (n ≡ 0) ⊎ ((n ≡ 2) ⊎ ((backend_check backend n && backend_compute backend n) ≡ true))

-- The sizes and the default that the driver offers with a backend.
pub record IsOffered (backend : Option Backend) (caps : Capabilities) : Type 0 where
  pub only : OnlyServed backend caps.fcs_supported_sizes
  pub default : Offers caps.fcs_supported_sizes caps.fcs_default_size
  pub fit : length (added_sizes backend) ≤ 2
  pub all : All (Offers caps.fcs_supported_sizes) (2 ∷ 0 ∷ added_sizes backend)

abbrev pub CapsOf : Option Backend → Option Capabilities → Type 0
CapsOf backend none = 2 < length (added_sizes backend)
CapsOf backend (some caps) = IsOffered backend caps

-- The capabilities with the sizes of the driver itself, and the default.
abbrev caps_with : Backend → List ℕ → Capabilities
caps_with b sizes = record swdriver_base_caps {
  fcs_supported_sizes = sizes;
  fcs_default_size = if fcs_size_supported sizes b.default_size then b.default_size else 2;
}

default_lem :
    (b : Backend) (sizes : List ℕ)
    → Offers sizes 2
    → Offers sizes (if fcs_size_supported sizes b.default_size then b.default_size else 2)
default_lem b sizes two =
    if_known (λ t. Offers sizes t) (fcs_size_supported sizes b.default_size) b.default_size 2
      (λ e. e) (λ _. two)

own_sizes : (backend : Option Backend) → OnlyServed backend swdriver_base_caps.fcs_supported_sizes
own_sizes backend n h = elim (base_sizes n h) [ inl r ↦ inl r | inr r ↦ inr (inl r) ]

own_two : Offers swdriver_base_caps.fcs_supported_sizes 2
unfolding fcs_size_supported
own_two = refl

own_zero : Offers swdriver_base_caps.fcs_supported_sizes 0
unfolding fcs_size_supported
own_zero = refl

known_sizes : (n : ℕ) → Offers (2 ∷ 0 ∷ []) n → (n ≡ 0) ⊎ (n ≡ 2)
unfolding fcs_size_supported
known_sizes n h = ground arith

-- A backend with both functions.
complete-CapsOf :
    (b : Backend) (o : Option (List ℕ))
    → (b.check && b.compute) ≡ true
    → AddsTo (2 ∷ 0 ∷ []) 2 b.supported_sizes o
    → CapsOf (some b) (Option.map (caps_with b) o)
complete-CapsOf b none both more = rw both more
complete-CapsOf b (some sizes) both (le, (two, (zero_size, _)), all, only) = record {
  only = λ n h. elim (only n h) [
    | inl r ↦ elim (known_sizes n r) [ inl q ↦ inl q | inr q ↦ inr (inl q) ]
    | inr r ↦ inr (inr (ground arith))
  ];
  default = default_lem b sizes two;
  fit = rw both le;
  all = (two, (zero_size, (rw both all)));
}

pub resolve_fcs_caps-CapsOf : (backend : Option Backend) → CapsOf backend (resolve_fcs_caps backend)
unfolding resolve_fcs_caps
resolve_fcs_caps-CapsOf none = record {
  only = own_sizes none;
  default = own_two;
  fit = omega arith;
  all = (own_two, (own_zero, tt));
}
resolve_fcs_caps-CapsOf (some b) =
    let base = swdriver_base_caps.fcs_supported_sizes in
    if_known (λ o. CapsOf (some b) (Option.map (caps_with b) o)) (b.check && b.compute)
      (add_sizes base 2 b.supported_sizes) (some base)
      (λ both. complete-CapsOf b _ both (two-AddsTo b.supported_sizes))
      (λ e. record {
        only = own_sizes (some b);
        default = default_lem b base own_two;
        fit = rw e (omega arith);
        all = (own_two, (own_zero, (rw e tt)));
      })
