-- ===== src/Driver/Pipeline/Order.antt =====
-- The frames committed to transmission.
use io_hdlc.Base.{
  ℕ, Bool, true, false, not, Option, none, some, List, [], ◌∷◌, ◌++◌, ◌≡◌, ◌≢◌, ◌∙◌, refl, sym, ap,
  subst, arith, All, Distinct, ◌==◌,
}
use io_hdlc.State.{if-elim, if_known}
use io_hdlc.Driver.Pipeline.{
  TxState, Port, is_member, without, is_none, start, start_first, try_start_next, give_back,
}

abbrev pub in_flight : Option ℕ → List ℕ
in_flight none = []
in_flight (some fp) = fp ∷ []

-- The closed gates are those of the frame in flight and of the frames of the queue behind it, in the
-- order in which the gates were closed.
pub record IsPipeline (tx : TxState) : Type 0 where
  pub ordered : tx.gates ≡ in_flight tx.inflight ++ tx.raw_q
  pub distinct : Distinct tx.gates

pub without_first : (fp : ℕ) (xs : List ℕ) → without fp (fp ∷ xs) ≡ xs
without_first fp xs = let here : (fp == fp) ≡ true = ground arith in rw here refl

pub absent : (fp : ℕ) (xs : List ℕ) → is_member fp xs ≡ false → All (λ x. x ≢ fp) xs
absent fp [] h = tt
absent fp (x ∷ xs) h = (ground arith, absent fp xs (ground arith))

pub append-Distinct :
    (xs : List ℕ) (fp : ℕ) → Distinct xs → All (λ x. x ≢ fp) xs → Distinct (xs ++ (fp ∷ []))
append-Distinct [] fp d h = (tt, tt)
append-Distinct (x ∷ xs) fp d h =
    (All-append xs fp (λ y. x ≢ y) d.0 h.0, append-Distinct xs fp d.1 h.1)
  where
    All-append : (xs : List ℕ) (fp : ℕ) (P : ℕ → Type 0) → All P xs → P fp → All P (xs ++ (fp ∷ []))
    All-append [] fp P h p = (p, tt)
    All-append (x ∷ xs) fp P h p = (h.0, All-append xs fp P h.1 p)

-- A start of the queue, with nothing in flight.
start-IsPipeline :
    (port : Port) (opening : Bool) (fp : ℕ) (rest : List ℕ) (tx : TxState)
    → tx.gates ≡ fp ∷ rest
    → Distinct tx.gates
    → IsPipeline (give_back (start port opening fp rest tx))
unfolding start
start-IsPipeline port opening fp rest tx g d =
    let P : TxState × Option ℕ → Type 0 = λ x. IsPipeline (give_back x) in
    let left : without fp tx.gates ≡ rest = ap (without fp) g ∙ without_first fp rest in
    if-elim P port.accepts _ _ (record { ordered = g; distinct = d })
      (if-elim P port.busy_after _ _ (record { ordered = g; distinct = d })
        (record { ordered = left; distinct = subst Distinct (sym left) (subst Distinct g d).1 }))

pub try_start_next-IsPipeline :
    (port : Port) (opening : Bool) (tx : TxState)
    → IsPipeline tx
    → IsPipeline (give_back (try_start_next port opening tx))
unfolding try_start_next
try_start_next-IsPipeline port opening tx h =
    let P : TxState × Option ℕ → Type 0 = λ x. IsPipeline (give_back x) in
    if_known P (not (is_none tx.inflight)) (tx, none) (start_first port opening tx.raw_q tx)
      (λ _. h) (λ e. go tx.raw_q refl (idle tx.inflight e))
  where
    idle : (o : Option ℕ) → not (is_none o) ≡ false → o ≡ none
    idle none e = refl
    idle (some fp) e = cc

    go :
        (q : List ℕ)
        → tx.raw_q ≡ q
        → tx.inflight ≡ none
        → IsPipeline (give_back (start_first port opening q tx))
    go [] e n = h
    go (fp ∷ rest) e n =
        let g : tx.gates ≡ fp ∷ rest = h.ordered ∙ ap (λ o. in_flight o ++ tx.raw_q) n ∙ e in
        if-elim (λ (x : TxState × Option ℕ). IsPipeline (give_back x)) port.busy (tx, none)
          (start port opening fp rest tx) h (start-IsPipeline port opening fp rest tx g h.distinct)
