-- ===== src/Station/Stream.antt =====
-- The octets that wait for a reader, and a pass of the loop of `ioHdlcReadVTmo`.
use io_hdlc.Base.{
  ℕ, zero, suc, ◌+◌, ◌-◌, ◌^◌, ◌≤◌, ◌<◌, Option, none, some, List, [], ◌∷◌, ◌++◌, ◌≡◌, ◌∙◌, refl,
  sym, ap, arith, length, length-take, All, take, drop,
}
use io_hdlc.State.{Station, Frame, Link}
use io_hdlc.Station.Write.{info_at}
use io_hdlc.Station.Fragment.{take-drop}
use io_hdlc.Station.Scatter.{written, room_left, length-drop}
use io_hdlc.Station.Read.{Reading, info_len}

-- The information field of a frame.
abbrev pub info : Station → Frame → List ℕ
info s fp = take (info_len s fp) (drop (info_at s) fp.octets)

abbrev pub infos : Station → List Frame → List ℕ
infos s [] = []
infos s (fp ∷ q) = info s fp ++ infos s q

-- What is left of the frame that is read in part.
abbrev pub part_left : Station → ℕ → Option Frame → List ℕ
part_left s offset none = []
part_left s offset (some fp) = drop offset (info s fp)

-- The octets that wait for a reader.
abbrev pub unread : Link → List ℕ
unread l = part_left l.s l.p.partial_read_offset l.p.partial_read_frame ++ infos l.s l.p.i_recept_q

-- A frame that has its header, and its octets in its buffer.
pub record IsWhole (s : Station) (fp : Frame) : Type 0 where
  pub header : info_at s ≤ fp.elen
  pub buffered : fp.elen ≤ length fp.octets
  pub short : fp.elen < 2 ^ 16

abbrev pub IsPart : Station → ℕ → Option Frame → Type 0
IsPart s offset none = Unit
IsPart s offset (some fp) = IsWhole s fp × (offset ≤ info_len s fp)

-- The frames that wait for a reader are whole.
pub record IsReadable (l : Link) : Type 0 where
  pub queued : All (IsWhole l.s) l.p.i_recept_q
  pub part : IsPart l.s l.p.partial_read_offset l.p.partial_read_frame

-- What remains of a read of `total` octets is the room in its vectors.
pub record Fits (total : ℕ) (r : Reading) : Type 0 where
  pub roomy : r.remaining ≡ room_left r.vectors
  pub summed : length (written r.vectors) + r.remaining ≡ total

-- The octets written and those that wait, in their order.
abbrev pub stream : Reading → List ℕ
stream r = written r.vectors ++ unread r.link

length-info : (s : Station) (fp : Frame) → IsWhole s fp → info_len s fp ≡ fp.elen - info_at s
unfolding info_len
length-info s fp w = let a = w.header in let b = w.short in omega arith

drop-nil : (n : ℕ) → drop {A = ℕ} n [] ≡ []
drop-nil zero = refl
drop-nil (suc n) = refl

drop-drop : (k n : ℕ) (xs : List ℕ) → drop (k + n) xs ≡ drop n (drop k xs)
drop-drop zero n xs = ap (λ (m : ℕ). drop m xs) (omega arith)
drop-drop (suc k) n [] = drop-nil (suc k + n) ∙ sym (drop-nil n)
drop-drop (suc k) n (x ∷ xs) =
    let e : suc k + n ≡ suc (k + n) = omega arith in
    ap (λ (m : ℕ). drop m (x ∷ xs)) e ∙ drop-drop k n xs

take-take : (n len : ℕ) (ys : List ℕ) → n ≤ len → take n (take len ys) ≡ take n ys
take-take zero len ys h = refl
take-take (suc n) zero ys h = absurd (omega arith)
take-take (suc n) (suc len) [] h = refl
take-take (suc n) (suc len) (y ∷ ys) h = ap (λ t. y ∷ t) (take-take n len ys (omega arith))

take-drop-take :
    (k len n : ℕ) (ys : List ℕ) → k + n ≤ len → take n (drop k (take len ys)) ≡ take n (drop k ys)
take-drop-take zero len n ys h = take-take n len ys (omega arith)
take-drop-take (suc k) zero n ys h = absurd (omega arith)
take-drop-take (suc k) (suc len) n [] h = refl
take-drop-take (suc k) (suc len) n (y ∷ ys) h = take-drop-take k len n ys (omega arith)

-- The octets that are copied, and those that are left of the field.
pub copied_and_left :
    (s : Station) (fp : Frame) (k n : ℕ)
    → k + n ≤ info_len s fp
    → take n (drop (info_at s + k) fp.octets) ++ drop (k + n) (info s fp) ≡ drop k (info s fp)
copied_and_left s fp k n h =
    let ys = drop (info_at s) fp.octets in
    ap (λ t. take n t ++ drop (k + n) (info s fp)) (drop-drop (info_at s) k fp.octets)
    ∙ ap (λ t. t ++ drop (k + n) (info s fp)) (sym (take-drop-take k (info_len s fp) n ys h))
    ∙ ap (λ t. take n (drop k (info s fp)) ++ t) (drop-drop k n (info s fp))
    ∙ take-drop n (drop k (info s fp))

-- As many octets are copied as are asked for.
pub length-copied :
    (s : Station) (fp : Frame) (k n : ℕ)
    → IsWhole s fp
    → k + n ≤ info_len s fp
    → length (take n (drop (info_at s + k) fp.octets)) ≡ n
length-copied s fp k n w h =
    let e = length-info s fp w in
    let a = w.header in
    let b = w.buffered in
    let d = length-drop (info_at s + k) fp.octets in
    length-take n (drop (info_at s + k) fp.octets) (omega arith)

drop-take_all : (k len : ℕ) (ys : List ℕ) → len ≤ k → drop k (take len ys) ≡ []
drop-take_all k zero ys h = drop-nil k
drop-take_all zero (suc len) ys h = absurd (omega arith)
drop-take_all (suc k) (suc len) [] h = refl
drop-take_all (suc k) (suc len) (y ∷ ys) h = drop-take_all k len ys (omega arith)

-- Nothing is left of a field behind its end.
pub drop-info_all : (s : Station) (fp : Frame) (k : ℕ) → info_len s fp ≤ k → drop k (info s fp) ≡ []
drop-info_all s fp k h = drop-take_all k (info_len s fp) (drop (info_at s) fp.octets) h
