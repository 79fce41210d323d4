-- ===== src/Pool/Accounting.antt =====
-- The operations of the pool keep its books.
use io_hdlc.Base.{
  ℕ, zero, suc, ◌+◌, ◌-◌, ◌%◌, ◌^◌, ◌<◌, ◌≡◌, ◌∙◌, false, ◌&&◌, none, some, List, [], ◌∷◌, refl,
  sym, ap, subst, inl, inr, arith, All, get_or, set, length-set, get_or-set_self, get_or-set_ne,
  ltb, leb, ◌==◌, Bool-cases, if◌then◌else◌,
}
use io_hdlc.State.{if-elim}
use io_hdlc.Pool.PoolState.{normal, low_water}
use io_hdlc.Pool.{
  Pool, Call, is_normal, is_low_water, check_low_watermark, check_high_watermark, pop_free,
  push_free, take_from, take_frame, release_frame, addref,
}
use io_hdlc.Pool.Books.{
  held-lt, IsFree, IsKept, live-set_held, held-apart, IsFree-set, pop_free-IsKept, push_free-IsKept,
  check_low_watermark-IsMarked, check_high_watermark-IsMarked, with_state-IsKept, IsPool,
}

take_from-IsPool : (q : Pool) (r : List ℕ) → q.free_list ≡ r → IsPool q → IsPool (take_from r q).1.0
unfolding take_from check_low_watermark
take_from-IsPool q [] e h = h
take_from-IsPool q (fp ∷ rest) e (k, w) =
    let popped = pop_free fp rest q in
    let kept = pop_free-IsKept q fp rest e k in
    let below = w.below in
    (
      if-elim (λ (r : Pool × Call). IsKept r.0)
          (is_normal popped && leb (popped.total - popped.allocated) popped.low_threshold) _ _
          (with_state-IsKept popped low_water kept) kept,
      check_low_watermark-IsMarked popped k.ordered (λ s. omega (arith, below s)),
    )

-- Taking a frame keeps the pool's books: the free frames are distinct and nobody holds them, the
-- others are counted as allocated, and the watermark state agrees with the number of free frames.
-- A frame that is taken was held by nobody.
pub take_frame-IsPool :
    (q : Pool)
    → IsPool q
    → let (taken, (after, _)) = take_frame q in
      IsPool after × ((fp : ℕ) → taken ≡ some fp → IsFree q.refs fp)
unfolding take_frame take_from
take_frame-IsPool q h = (take_from-IsPool q q.free_list refl h, was_free q q.free_list h.0.free)
  where
    was_free :
        (q : Pool) (r : List ℕ)
        → All (IsFree q.refs) r
        → (fp : ℕ) → (take_from r q).0 ≡ some fp
        → IsFree q.refs fp
    was_free q [] a fp e = subst (λ o. elim o [ none ↦ Unit | some y ↦ IsFree q.refs y ]) e tt
    was_free q (x ∷ r) a fp e = subst (λ o. elim o [ none ↦ Unit | some y ↦ IsFree q.refs y ]) e a.0

-- A frame that stays held keeps the books, whatever its count.
held-IsKept :
    (q : Pool) (fp v : ℕ)
    → 0 < get_or q.refs fp 0
    → 0 < v
    → IsKept q
    → IsKept (record q { refs = set q.refs fp v })
held-IsKept q fp zero held pos k = absurd (omega arith)
held-IsKept q fp (suc n) held pos k = record {
  size = length-set q.refs fp (suc n) ∙ k.size;
  free =
      IsFree-set q.refs q.free_list fp (suc n) (held-apart q.refs q.free_list fp held k.free)
        k.free;
  distinct = k.distinct;
  allocated = k.allocated ∙ sym (live-set_held q.refs fp n held);
  account = k.account;
  ordered = k.ordered;
}

-- Releasing a frame that is held keeps the pool's books, whether others hold it still or it goes
-- to the free list.
pub release_frame-IsPool :
    (q : Pool) (fp : ℕ) → 0 < get_or q.refs fp 0 → IsPool q → IsPool (release_frame fp q).0
unfolding release_frame check_high_watermark
release_frame-IsPool q fp held (k, w) = elim (Bool-cases (get_or q.refs fp 0 == 1)) [
  | inl h ↦
      let pushed = push_free fp q in
      let kept = push_free-IsKept q fp held k in
      let above = w.above in
      rw h (
        if-elim (λ (r : Pool × Call). IsKept r.0)
            (is_low_water pushed && ltb pushed.high_threshold (pushed.total - pushed.allocated)) _ _
            (with_state-IsKept pushed normal kept) kept,
        check_high_watermark-IsMarked pushed k.ordered (λ s. omega (arith, above s)),
      )
  | inr h ↦ rw h (
    held-IsKept q fp (get_or q.refs fp 0 - 1) held (ground arith) k,
    record { above = w.above; below = w.below },
  )
]

set-set : (refs : List ℕ) (fp v w : ℕ) → set (set refs fp v) fp w ≡ set refs fp w
set-set [] fp v w = refl
set-set (x ∷ refs) zero v w = refl
set-set (x ∷ refs) (suc fp) v w = ap (λ t. x ∷ t) (set-set refs fp v w)

set-get_or : (refs : List ℕ) (fp : ℕ) → set refs fp (get_or refs fp 0) ≡ refs
set-get_or [] fp = refl
set-get_or (x ∷ refs) zero = refl
set-get_or (x ∷ refs) (suc fp) = ap (λ t. x ∷ t) (set-get_or refs fp)

module _ (q : Pool) (fp : ℕ) (held : 0 < get_or q.refs fp 0)
    (small : get_or q.refs fp 0 < 255) where
  abbrev count : ℕ
  count = get_or q.refs fp 0

  counted : get_or (addref fp q).refs fp 0 ≡ count + 1
  unfolding addref
  counted = get_or-set_self q.refs fp ((count + 1) % 2 ^ 8) 0 (held-lt q.refs fp held) ∙ omega arith

  release_frame-addref : release_frame fp (addref fp q) ≡ (q, Call.no_call)
  unfolding addref release_frame
  release_frame-addref =
      let c = counted in
      let other : (get_or (addref fp q).refs fp 0 == 1) ≡ false = ground arith in
      let back : set (set q.refs fp ((count + 1) % 2 ^ 8)) fp (get_or (addref fp q).refs fp 0 - 1)
          ≡ q.refs =
        set-set q.refs fp ((count + 1) % 2 ^ 8) (get_or (addref fp q).refs fp 0 - 1)
        ∙ ap (set q.refs fp) (omega arith)
        ∙ set-get_or q.refs fp in
      rw other (ap (λ refs. (record q { refs = refs }, Call.no_call)) back)

  -- Another reference to a frame that is held raises its count by one, where that fits the octet,
  -- and no other frame's. It keeps the pool's books, and releasing the frame undoes it.
  pub addref-IsPool :
      IsPool q
      → let after = addref fp q in
        IsPool after
        × ((i : ℕ)
            → get_or after.refs i 0
              ≡ (if i == fp then get_or q.refs fp 0 + 1 else get_or q.refs i 0))
        × (release_frame fp after ≡ (q, Call.no_call))
  addref-IsPool (k, w) = (
    unfold addref in
        (
          held-IsKept q fp ((count + 1) % 2 ^ 8) held (omega arith) k,
          record { above = w.above; below = w.below },
        ),
    (λ i. elim (Bool-cases (i == fp)) [
      | inl e ↦ rw e (
          let same : i ≡ fp = ground arith in
          ap (λ (j : ℕ). get_or (addref fp q).refs j 0) same ∙ counted)
      | inr e ↦ rw e (
          unfold addref in get_or-set_ne q.refs fp i ((count + 1) % 2 ^ 8) 0 (λ same. ground arith))
    ]),
    release_frame-addref,
  )
