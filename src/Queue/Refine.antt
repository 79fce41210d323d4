-- ===== src/Queue/Refine.antt =====
-- The linked queue as a list: a program of queue operations computes the same on both.
use io_hdlc.Base.{
  ℕ, true, false, Option, none, some, List, [], ◌∷◌, ◌++◌, ◌≡◌, ◌≢◌, ◌∙◌, refl, ap, arith,
  if◌then◌else◌,
}
use io_hdlc.Queue.{Heap, frameq_isempty, frameq_insert, frameq_insert_head, frameq_remove}
use io_hdlc.Queue.Links.{Linked, Apart, Holds, remove-links, insert_head-links, insert-Holds}

-- What a client does to a queue: a frame behind the last or before the first, or the first, if there is one, out.
pub data Op : Type 0 where
  insert insert_head : ℕ → Op
  remove : Op

-- The specification, on a list: what is removed, and the list.
abbrev pub list_step : Op → List ℕ → Option ℕ × List ℕ
list_step (insert x) xs = (none, xs ++ (x ∷ []))
list_step (insert_head x) xs = (none, x ∷ xs)
list_step remove [] = (none, [])
list_step remove (x ∷ xs) = (some x, xs)

-- The implementation, on the heap. A queue is asked whether it is empty before a removal.
unfoldable pub step : ℕ → Op → Heap → Option ℕ × Heap
unfolding frameq_isempty frameq_insert frameq_insert_head frameq_remove
step qp (insert x) h = (none, frameq_insert qp x h)
step qp (insert_head x) h = (none, frameq_insert_head qp x h)
step qp remove h =
    let (x, k) = frameq_remove qp h in if frameq_isempty qp h then (none, h) else (some x, k)

-- A header that is inserted is not in the queue, and is not its head.
abbrev pub Allowed : ℕ → Op → List ℕ → Type 0
Allowed qp (insert x) xs = (qp ≢ x) × Apart x xs
Allowed qp (insert_head x) xs = (qp ≢ x) × Apart x xs
Allowed qp remove xs = Unit

unfoldable pub AllAllowed : ℕ → List Op → List ℕ → Type 0
AllAllowed qp [] xs = Unit
AllAllowed qp (o ∷ ops) xs = Allowed qp o xs × AllAllowed qp ops (list_step o xs).1

-- The results of a program, and what is left.
abbrev pub run_list : List Op → List ℕ → List (Option ℕ) × List ℕ
run_list [] xs = ([], xs)
run_list (o ∷ ops) xs =
    let (result, left) = list_step o xs in
    let (results, end) = run_list ops left in (result ∷ results, end)

unfoldable pub run : ℕ → List Op → Heap → List (Option ℕ) × Heap
unfolding step
run qp [] h = ([], h)
run qp (o ∷ ops) h =
    let (result, left) = step qp o h in
    let (results, end) = run qp ops left in (result ∷ results, end)

isempty-nil : (qp : ℕ) (h : Heap) → Holds h qp [] → frameq_isempty qp h ≡ true
unfolding frameq_isempty Linked
isempty-nil qp h v = let one = v.links.0 in ground arith

isempty-cons :
    (qp x : ℕ) (xs : List ℕ) (h : Heap) → Holds h qp (x ∷ xs) → frameq_isempty qp h ≡ false
unfolding frameq_isempty Linked
isempty-cons qp x xs h v = let one = v.links.0.0 in let ne = v.distinct.0.0 in ground arith

step-Holds :
    (qp : ℕ) (o : Op) (xs : List ℕ) (h : Heap)
    → Holds h qp xs
    → Allowed qp o xs
    → ((step qp o h).0 ≡ (list_step o xs).0) × Holds (step qp o h).1 qp (list_step o xs).1
unfolding step
step-Holds qp (insert x) xs h v a = (refl, insert-Holds qp x xs h a.0 a.1 v)
step-Holds qp (insert_head x) xs h v a = (refl, insert_head-links qp x xs h a.0 a.1 v)
step-Holds qp remove [] h v a = rw (isempty-nil qp h v) (refl, v)
step-Holds qp remove (x ∷ xs) h v a =
    let (first, rest) = remove-links qp x xs h v in
    rw (isempty-cons qp x xs h v) (ap some first, rest)

-- On a queue that holds the headers of a list, a program that inserts only headers from outside it
-- removes the same headers in the same order as on the list, and leaves a queue that holds the
-- headers of the list that it leaves.
pub run-run_list :
    (qp : ℕ) (ops : List Op) (xs : List ℕ) (h : Heap)
    → Holds h qp xs
    → AllAllowed qp ops xs
    → ((run qp ops h).0 ≡ (run_list ops xs).0) × Holds (run qp ops h).1 qp (run_list ops xs).1
unfolding run AllAllowed
run-run_list qp [] xs h v a = (refl, v)
run-run_list qp (o ∷ ops) xs h v a =
    let (same, left) = step-Holds qp o xs h v a.0 in
    let (results, end) = run-run_list qp ops (list_step o xs).1 (step qp o h).1 left a.1 in
    (
      ap (λ t. t ∷ (run qp ops (step qp o h).1).0) same ∙ ap (λ t. (list_step o xs).0 ∷ t) results,
      end,
    )
