-- ===== src/Driver/Configure/Sizes.antt =====
-- The check sizes that a driver offers with a backend.
use io_hdlc.Base.{
  ℕ, suc, ◌≤◌, ◌<◌, true, false, ◌||◌, Option, none, some, List, [], ◌∷◌, ◌≡◌, ◌⊎◌, inl, inr, arith,
  length, All, ◌==◌, if◌then◌else◌,
}
use io_hdlc.State.{if_known}
use io_hdlc.Driver.Configure.{fcs_size_supported, add_sizes}

-- The sizes that are not known yet, each once.
unfoldable pub new_sizes : List ℕ → List ℕ → List ℕ
new_sizes known [] = []
new_sizes known (x ∷ xs) =
    let skipped = new_sizes known xs in
    let taken = new_sizes (x ∷ known) xs in
    if fcs_size_supported known x then skipped else x ∷ taken

abbrev pub Offers : List ℕ → ℕ → Type 0
Offers sizes n = fcs_size_supported sizes n ≡ true

-- What the loop does with `room` slots left: it stops if there are more sizes that are new; else the
-- sizes are those known and all that are new.
abbrev pub AddsTo : List ℕ → ℕ → List ℕ → Option (List ℕ) → Type 0
AddsTo known room bs none = room < length (new_sizes known bs)
AddsTo known room bs (some sizes) =
    (length (new_sizes known bs) ≤ room)
    × All (Offers sizes) known
    × All (Offers sizes) (new_sizes known bs)
    × ((n : ℕ) → Offers sizes n → Offers known n ⊎ Offers bs n)

skip :
    (known : List ℕ) (room b : ℕ) (bs : List ℕ) (r : Option (List ℕ))
    → fcs_size_supported known b ≡ true
    → AddsTo known room bs r
    → AddsTo known room (b ∷ bs) r
unfolding new_sizes fcs_size_supported
skip known room b bs none e h = rw e h
skip known room b bs (some sizes) e (le, old, new, only) =
    rw e (le, old, new, (λ n o. elim (only n o) [ inl k ↦ inl k | inr k ↦ inr (ground arith) ]))

take_in :
    (known : List ℕ) (room b : ℕ) (bs : List ℕ) (r : Option (List ℕ))
    → fcs_size_supported known b ≡ false
    → AddsTo (b ∷ known) room bs r
    → AddsTo known (suc room) (b ∷ bs) r
unfolding new_sizes fcs_size_supported
take_in known room b bs none e h = rw e (omega arith)
take_in known room b bs (some sizes) e (le, old, new, only) = rw e (
  omega arith,
  old.1,
  (old.0, new),
  (λ n o. elim (only n o) [ inl k ↦ ground arith | inr k ↦ inr (ground arith) ]),
)

no_room :
    (known : List ℕ) (b : ℕ) (bs : List ℕ)
    → fcs_size_supported known b ≡ false
    → AddsTo known 0 (b ∷ bs) none
unfolding new_sizes
no_room known b bs e = rw e (omega arith)

-- With no slot left, with one, and with the two that are free in the driver's own list.
full-AddsTo :
    (x y : ℕ) (bs : List ℕ) → AddsTo (y ∷ x ∷ 2 ∷ 0 ∷ []) 0 bs (add_sizes (0 ∷ 2 ∷ x ∷ y ∷ []) 4 bs)
unfolding add_sizes fcs_size_supported new_sizes
full-AddsTo x y [] = (
  omega arith,
  (ground arith, (ground arith, (ground arith, (ground arith, tt)))),
  tt,
  (λ n o. inl (ground arith)),
)
full-AddsTo x y (b ∷ bs) =
    let known = y ∷ x ∷ 2 ∷ 0 ∷ [] in
    if_known (AddsTo known 0 (b ∷ bs)) ((b == 0) || fcs_size_supported (0 ∷ 2 ∷ x ∷ y ∷ []) b) _ _
      (λ e. skip known 0 b bs _ (ground arith) (full-AddsTo x y bs))
      (λ e. no_room known b bs (ground arith))

one-AddsTo :
    (x : ℕ) (bs : List ℕ) → AddsTo (x ∷ 2 ∷ 0 ∷ []) 1 bs (add_sizes (0 ∷ 2 ∷ x ∷ 0 ∷ []) 3 bs)
unfolding add_sizes fcs_size_supported new_sizes
one-AddsTo x [] = (
  omega arith,
  (ground arith, (ground arith, (ground arith, tt))),
  tt,
  (λ n o. inl (ground arith)),
)
one-AddsTo x (b ∷ bs) =
    let known = x ∷ 2 ∷ 0 ∷ [] in
    if_known (AddsTo known 1 (b ∷ bs)) ((b == 0) || fcs_size_supported (0 ∷ 2 ∷ x ∷ 0 ∷ []) b) _ _
      (λ e. skip known 1 b bs _ (ground arith) (one-AddsTo x bs))
      (λ e. take_in known 0 b bs _ (ground arith) (full-AddsTo x b bs))

pub two-AddsTo : (bs : List ℕ) → AddsTo (2 ∷ 0 ∷ []) 2 bs (add_sizes (0 ∷ 2 ∷ 0 ∷ 0 ∷ []) 2 bs)
unfolding add_sizes fcs_size_supported new_sizes
two-AddsTo [] = (omega arith, (ground arith, (ground arith, tt)), tt, (λ n o. inl (ground arith)))
two-AddsTo (b ∷ bs) =
    let known = 2 ∷ 0 ∷ [] in
    if_known (AddsTo known 2 (b ∷ bs)) ((b == 0) || fcs_size_supported (0 ∷ 2 ∷ 0 ∷ 0 ∷ []) b) _ _
      (λ e. skip known 2 b bs _ (ground arith) (two-AddsTo bs))
      (λ e. take_in known 1 b bs _ (ground arith) (one-AddsTo b bs))
