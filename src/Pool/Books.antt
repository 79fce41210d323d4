-- ===== src/Pool/Books.antt =====
-- The pool's books: which frames are free, how many are allocated, and the watermark state.
use io_hdlc.Base.{
  Distinct, ℕ, zero, suc, ◌+◌, ◌-◌, ◌≤◌, ◌<◌, ◌≢◌, ◌≡◌, ◌∙◌, true, false, ◌&&◌, List, [], ◌∷◌, refl,
  ap, subst, inl, inr, arith, All, get_or, set, length, length-set, get_or-set_self, get_or-set_ne,
  ltb, leb, Bool-cases,
}
use io_hdlc.Pool.{
  Pool, PoolState, is_normal, is_low_water, check_low_watermark, check_high_watermark, pop_free,
  push_free,
}

-- The number of frames that somebody holds.
unfoldable pub live : List ℕ → ℕ
live [] = 0
live (zero ∷ refs) = live refs
live (suc n ∷ refs) = suc (live refs)

-- A frame of the arena that nobody holds.
abbrev pub IsFree : List ℕ → ℕ → Type 0
IsFree refs i = get_or refs i 1 ≡ 0

pub record IsKept (q : Pool) : Type 0 where
  pub size : length q.refs ≡ q.total
  pub free : All (IsFree q.refs) q.free_list
  pub distinct : Distinct q.free_list
  pub allocated : q.allocated ≡ live q.refs
  pub account : q.allocated + length q.free_list ≡ q.total
  pub ordered : q.low_threshold ≤ q.high_threshold

-- The watermark state agrees with the number of free frames.
pub record IsMarked (q : Pool) : Type 0 where
  pub above : is_normal q ≡ true → q.low_threshold < q.total - q.allocated
  pub below : is_low_water q ≡ true → q.total - q.allocated ≤ q.high_threshold

live-set_one : (refs : List ℕ) (i : ℕ) → get_or refs i 1 ≡ 0 → live (set refs i 1) ≡ live refs + 1
unfolding live
live-set_one [] i e = absurd (omega arith)
live-set_one (zero ∷ refs) zero e = omega arith
live-set_one (suc n ∷ refs) zero e = absurd (omega arith)
live-set_one (zero ∷ refs) (suc i) e = live-set_one refs i e
live-set_one (suc n ∷ refs) (suc i) e = omega (arith, live-set_one refs i e)

live-set_zero : (refs : List ℕ) (i : ℕ) → 0 < get_or refs i 0 → live (set refs i 0) + 1 ≡ live refs
unfolding live
live-set_zero [] i e = absurd (omega arith)
live-set_zero (zero ∷ refs) zero e = absurd (omega arith)
live-set_zero (suc n ∷ refs) zero e = omega arith
live-set_zero (zero ∷ refs) (suc i) e = live-set_zero refs i e
live-set_zero (suc n ∷ refs) (suc i) e = omega (arith, live-set_zero refs i e)

pub live-set_held :
    (refs : List ℕ) (i n : ℕ) → 0 < get_or refs i 0 → live (set refs i (suc n)) ≡ live refs
unfolding live
live-set_held [] i n e = absurd (omega arith)
live-set_held (zero ∷ refs) zero n e = absurd (omega arith)
live-set_held (suc m ∷ refs) zero n e = refl
live-set_held (zero ∷ refs) (suc i) n e = live-set_held refs i n e
live-set_held (suc m ∷ refs) (suc i) n e = ap suc (live-set_held refs i n e)

-- A frame that is held is none of the free ones.
pub held-apart :
    (refs is : List ℕ) (i : ℕ) → 0 < get_or refs i 0 → All (IsFree refs) is → All (λ j. i ≢ j) is
held-apart refs [] i h a = tt
held-apart refs (j ∷ is) i h a =
    (λ e. held_free refs i h (ap (λ t. get_or refs t 1) e ∙ a.0), held-apart refs is i h a.1)
  where
    held_free : (refs : List ℕ) (i : ℕ) → 0 < get_or refs i 0 → ¬ (get_or refs i 1 ≡ 0)
    held_free [] i h e = omega arith
    held_free (x ∷ refs) zero h e = omega arith
    held_free (x ∷ refs) (suc i) h e = held_free refs i h e

-- A count changed elsewhere leaves the free frames free.
pub IsFree-set :
    (refs is : List ℕ) (i v : ℕ)
    → All (λ j. i ≢ j) is
    → All (IsFree refs) is
    → All (IsFree (set refs i v)) is
IsFree-set refs [] i v n a = tt
IsFree-set refs (j ∷ is) i v n a =
    (get_or-set_ne refs i j v 1 n.0 ∙ a.0, IsFree-set refs is i v n.1 a.1)

pub held-lt : (refs : List ℕ) (i : ℕ) → 0 < get_or refs i 0 → i < length refs
held-lt [] i h = absurd (omega arith)
held-lt (x ∷ refs) zero h = omega arith
held-lt (x ∷ refs) (suc i) h = omega (arith, held-lt refs i h)

pub pop_free-IsKept :
    (q : Pool) (fp : ℕ) (rest : List ℕ)
    → q.free_list ≡ fp ∷ rest
    → IsKept q
    → IsKept (pop_free fp rest q)
pop_free-IsKept q fp rest e k =
    let free = subst (All (IsFree q.refs)) e k.free in
    let distinct = subst Distinct e k.distinct in
    let len : length q.free_list ≡ suc (length rest) = ap length e in
    let account = k.account in
    let allocated = k.allocated in
    record {
      size = length-set q.refs fp 1 ∙ k.size;
      free = IsFree-set q.refs rest fp 1 distinct.0 free.1;
      distinct = distinct.1;
      allocated = omega (arith, live-set_one q.refs fp free.0);
      account = omega arith;
      ordered = k.ordered;
    }

pub push_free-IsKept :
    (q : Pool) (fp : ℕ) → 0 < get_or q.refs fp 0 → IsKept q → IsKept (push_free fp q)
push_free-IsKept q fp held k =
    let apart = held-apart q.refs q.free_list fp held k.free in
    let account = k.account in
    let allocated = k.allocated in
    let fewer = live-set_zero q.refs fp held in
    record {
      size = length-set q.refs fp 0 ∙ k.size;
      free = (
        get_or-set_self q.refs fp 0 1 (held-lt q.refs fp held),
        IsFree-set q.refs q.free_list fp 0 apart k.free,
      );
      distinct = (apart, k.distinct);
      allocated = omega arith;
      account = omega arith;
      ordered = k.ordered;
    }

-- The watermark check after a frame has been taken.
pub check_low_watermark-IsMarked :
    (q : Pool)
    → q.low_threshold ≤ q.high_threshold
    → (is_low_water q ≡ true → q.total - q.allocated ≤ q.high_threshold)
    → IsMarked (check_low_watermark q).0
unfolding check_low_watermark
check_low_watermark-IsMarked q o b =
    elim (Bool-cases (is_normal q && leb (q.total - q.allocated) q.low_threshold)) [
      | inl h ↦ rw h (record { above = λ e. absurd (false_ne e); below = λ e. ground arith })
      | inr h ↦ rw h (record { above = λ e. ground arith; below = b })
    ]
  where
    false_ne : ¬ (false ≡ true)
    false_ne e = ground arith

pub check_high_watermark-IsMarked :
    (q : Pool)
    → q.low_threshold ≤ q.high_threshold
    → (is_normal q ≡ true → q.low_threshold < q.total - q.allocated)
    → IsMarked (check_high_watermark q).0
unfolding check_high_watermark
check_high_watermark-IsMarked q o a =
    elim (Bool-cases (is_low_water q && ltb q.high_threshold (q.total - q.allocated))) [
      | inl h ↦ rw h (record { above = λ e. ground arith; below = λ e. absurd (ground arith) })
      | inr h ↦ rw h (record { above = a; below = λ e. ground arith })
    ]

-- The books do not depend on the state.
pub with_state-IsKept : (q : Pool) (st : PoolState) → IsKept q → IsKept (record q { state = st })
with_state-IsKept q st k = record {
  size = k.size;
  free = k.free;
  distinct = k.distinct;
  allocated = k.allocated;
  account = k.account;
  ordered = k.ordered;
}

abbrev pub IsPool : Pool → Type 0
IsPool q = IsKept q × IsMarked q
