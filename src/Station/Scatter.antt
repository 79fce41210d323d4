-- ===== src/Station/Scatter.antt =====
-- The octets of a read in its vectors: all of them, in their order, none past the end of a vector.
use io_hdlc.Base.{
  ℕ, zero, suc, ◌+◌, ◌-◌, ◌≤◌, List, [], ◌∷◌, ◌++◌, append_assoc, append-nil, ◌≡◌, ◌∙◌, refl, sym,
  ap, arith, length, length-append, length-take, take, drop, leb,
}
use io_hdlc.State.{if_known}
use io_hdlc.Station.Read.{Vectors, scatter_from, scatter, sum_of}
use io_hdlc.Station.Fragment.{octets_of, take-drop}

-- What has been written to the vectors.
abbrev pub written : Vectors → List ℕ
written v = octets_of v.filled ++ v.got

-- How many octets the vectors still take.
abbrev pub room_left : Vectors → ℕ
room_left v = v.room + sum_of v.rest

abbrev pub lengths : List (List ℕ) → List ℕ
lengths [] = []
lengths (xs ∷ xss) = length xs ∷ lengths xss

-- The sizes of the vectors.
abbrev pub sizes : Vectors → List ℕ
sizes v = lengths v.filled ++ ((length v.got + v.room) ∷ v.rest)

take-all : (n : ℕ) (xs : List ℕ) → length xs ≤ n → take n xs ≡ xs
take-all zero [] h = refl
take-all zero (x ∷ xs) h = absurd (omega arith)
take-all (suc n) [] h = refl
take-all (suc n) (x ∷ xs) h = ap (λ t. x ∷ t) (take-all n xs (omega arith))

pub length-drop : (n : ℕ) (xs : List ℕ) → length (drop n xs) ≡ length xs - n
length-drop zero xs = omega arith
length-drop (suc n) [] = omega arith
length-drop (suc n) (x ∷ xs) = omega (arith, length-drop n xs)

octets_of-snoc :
    (xss : List (List ℕ)) (xs : List ℕ) → octets_of (xss ++ (xs ∷ [])) ≡ octets_of xss ++ xs
octets_of-snoc [] xs = append-nil xs
octets_of-snoc (ys ∷ xss) xs =
    ap (λ t. ys ++ t) (octets_of-snoc xss xs) ∙ sym (append_assoc ys (octets_of xss) xs)

lengths-snoc :
    (xss : List (List ℕ)) (xs : List ℕ)
    → lengths (xss ++ (xs ∷ [])) ≡ lengths xss ++ (length xs ∷ [])
lengths-snoc [] xs = refl
lengths-snoc (ys ∷ xss) xs = ap (λ t. length ys ∷ t) (lengths-snoc xss xs)

-- What becomes of vectors that take the octets.
pub record Takes (octets : List ℕ) (v w : Vectors) : Type 0 where
  pub whole : written w ≡ written v ++ octets
  pub same : sizes w ≡ sizes v
  pub less : room_left w + length octets ≡ room_left v

scatter_from-Takes :
    (filled : List (List ℕ)) (got : List ℕ) (room : ℕ) (rest octets : List ℕ)
    → length octets ≤ room + sum_of rest
    → Takes octets
        (record { filled = filled; got = got; room = room; rest = rest })
        (scatter_from filled got room rest octets)
unfolding scatter_from
scatter_from-Takes filled got room [] octets h =
    let all = take-all room octets (omega arith) in
    let len = length-append got octets in
    record {
      whole = rw all (sym (append_assoc (octets_of filled) got octets));
      same = rw (all, len) (ap (λ (k : ℕ). lengths filled ++ (k ∷ [])) (omega arith));
      less = omega arith;
    }
scatter_from-Takes filled got room (len ∷ rest) octets h =
    if_known (Takes octets (record { filled = filled; got = got; room = room; rest = len ∷ rest }))
      (leb (length octets) room) _ _
      (λ e.
        let sum = length-append got octets in
        record {
          whole = sym (append_assoc (octets_of filled) got octets);
          same = rw sum (ap (λ (k : ℕ). lengths filled ++ (k ∷ len ∷ rest)) (ground arith));
          less = ground arith;
        })
      (λ e.
        let here = got ++ take room octets in
        let some_taken = length-take room octets (ground arith) in
        let sum = length-append got (take room octets) in
        let left = length-drop room octets in
        let ih =
          scatter_from-Takes (filled ++ (here ∷ [])) [] len rest (drop room octets)
            (ground arith) in
        record {
          whole =
              ih.whole
              ∙ ap (λ t. t ++ drop room octets)
                  (append-nil (octets_of (filled ++ (here ∷ []))) ∙ octets_of-snoc filled here)
              ∙ append_assoc (octets_of filled) here (drop room octets)
              ∙ ap (λ t. octets_of filled ++ t)
                  (append_assoc got (take room octets) (drop room octets)
                    ∙ ap (λ t. got ++ t) (take-drop room octets))
              ∙ sym (append_assoc (octets_of filled) got octets);
          same =
              ih.same
              ∙ ap (λ (k : ℕ). lengths (filled ++ (here ∷ [])) ++ (k ∷ rest)) (omega arith)
              ∙ ap (λ t. t ++ (len ∷ rest)) (lengths-snoc filled here)
              ∙ append_assoc (lengths filled) (length here ∷ []) (len ∷ rest)
              ∙ ap (λ (k : ℕ). lengths filled ++ (k ∷ len ∷ rest)) (ground arith);
          less = let l = ih.less in ground arith;
        })

pub scatter-Takes :
    (v : Vectors) (octets : List ℕ)
    → length octets ≤ room_left v
    → Takes octets v (scatter v octets)
unfolding scatter
scatter-Takes v octets h = scatter_from-Takes v.filled v.got v.room v.rest octets h
