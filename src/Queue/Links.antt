-- ===== src/Queue/Links.antt =====
-- What a linked queue stands for, and what each operation does to it.
use io_hdlc.Base.{ℕ, List, [], ◌∷◌, ◌++◌, ◌≡◌, ◌≢◌, ◌∙◌, sym, arith, All, Distinct}
use io_hdlc.Queue.{Heap, write, frameq_insert, frameq_insert_head, frameq_remove}

-- The links run from `a` over the headers of `xs` to `b`, and back.
unfoldable pub Linked : Heap → ℕ → List ℕ → ℕ → Type 0
Linked h a [] b = (h.next a ≡ b) × (h.prev b ≡ a)
Linked h a (x ∷ xs) b = ((h.next a ≡ x) × (h.prev x ≡ a)) × Linked h x xs b

abbrev pub Apart : ℕ → List ℕ → Type 0
Apart x xs = All (λ y. x ≢ y) xs

-- The queue with head `qp` holds the headers of `xs`, the oldest first.
pub record Holds (h : Heap) (qp : ℕ) (xs : List ℕ) : Type 0 where
  pub links : Linked h qp xs qp
  pub distinct : Distinct (qp ∷ xs)

pub write_same : (field : ℕ → ℕ) (at value x : ℕ) → x ≡ at → write field at value x ≡ value
write_same field at value x e = ground arith

pub write_other : (field : ℕ → ℕ) (at value x : ℕ) → x ≢ at → write field at value x ≡ field x
write_other field at value x ne = ground arith

-- The last of `a` and `xs`.
abbrev last_of : ℕ → List ℕ → ℕ
last_of a [] = a
last_of a (x ∷ xs) = last_of x xs

prev-last_of : (h : Heap) (a b : ℕ) (xs : List ℕ) → Linked h a xs b → h.prev b ≡ last_of a xs
unfolding Linked
prev-last_of h a b [] l = l.1
prev-last_of h a b (x ∷ xs) l = prev-last_of h x b xs l.1

Apart-last_of : (y a : ℕ) (xs : List ℕ) → y ≢ a → Apart y xs → y ≢ last_of a xs
Apart-last_of y a [] ne d = ne
Apart-last_of y a (x ∷ xs) ne d = Apart-last_of y x xs d.0 d.1

-- Links that no write touches stay.
links_left :
    (h k : Heap) (a b : ℕ) (xs : List ℕ)
    → k.next a ≡ h.next a
    → All (λ x. (k.next x ≡ h.next x) × (k.prev x ≡ h.prev x)) xs
    → k.prev b ≡ h.prev b
    → Linked h a xs b
    → Linked k a xs b
unfolding Linked
links_left h k a b [] e all e2 l = (e ∙ l.0, e2 ∙ l.1)
links_left h k a b (x ∷ xs) e all e2 l =
    ((e ∙ l.0.0, all.0.1 ∙ l.0.1), links_left h k x b xs all.0.0 all.1 e2 l.1)

Apart-snoc : (a fqp : ℕ) (xs : List ℕ) → a ≢ fqp → Apart a xs → Apart a (xs ++ (fqp ∷ []))
Apart-snoc a fqp [] ne d = (ne, tt)
Apart-snoc a fqp (x ∷ xs) ne d = (d.0, Apart-snoc a fqp xs ne d.1)

Distinct-snoc : (fqp : ℕ) (xs : List ℕ) → Apart fqp xs → Distinct xs → Distinct (xs ++ (fqp ∷ []))
Distinct-snoc fqp [] af d = (tt, tt)
Distinct-snoc fqp (x ∷ xs) af d =
    (Apart-snoc x fqp xs (λ e. af.0 (sym e)) d.0, Distinct-snoc fqp xs af.1 d.1)

-- A header is behind the last.
module _ (qp fqp : ℕ) (h : Heap) (ne : qp ≢ fqp) where
  insert-links :
      (a : ℕ) (xs : List ℕ)
      → Linked h a xs qp
      → a ≢ fqp
      → Distinct (a ∷ xs)
      → Apart fqp xs
      → Apart qp xs
      → Linked (frameq_insert qp fqp h) a (xs ++ (fqp ∷ [])) qp
  unfolding Linked frameq_insert
  insert-links a [] l na d af aq =
      let back = l.1 in ((ground arith, ground arith), (ground arith, ground arith))
  insert-links a (x ∷ xs) l na d af aq =
      let back = prev-last_of h x qp xs l.1 in
      let behind = Apart-last_of a x xs d.0.0 d.0.1 in
      let fx = af.0 in
      let qx = aq.0 in
      let ax = l.0.0 in
      let xa = l.0.1 in
      ((ground arith, ground arith), insert-links x xs l.1 (λ e. fx (sym e)) d.1 af.1 aq.1)

-- The writes at three addresses leave the headers apart from them.
others_left :
    (h k : Heap) (a b c : ℕ) (xs : List ℕ)
    → Apart a xs
    → Apart b xs
    → Apart c xs
    → ((x : ℕ) → a ≢ x → b ≢ x → c ≢ x → (k.next x ≡ h.next x) × (k.prev x ≡ h.prev x))
    → All (λ x. (k.next x ≡ h.next x) × (k.prev x ≡ h.prev x)) xs
others_left h k a b c [] da db dc same = tt
others_left h k a b c (x ∷ xs) da db dc same =
    (same x da.0 db.0 dc.0, others_left h k a b c xs da.1 db.1 dc.1 same)

-- The first header is taken out.
pub remove-links :
    (qp x : ℕ) (xs : List ℕ) (h : Heap)
    → Holds h qp (x ∷ xs)
    → (frameq_remove qp h).0 ≡ x × Holds (frameq_remove qp h).1 qp xs
unfolding Linked frameq_remove
remove-links qp x [] h v =
    let (one, two) = v.links in
    let ne = v.distinct.0.0 in
    let k = (frameq_remove qp h).1 in
    (one.0, record { links = (ground arith, ground arith); distinct = (tt, tt) })
remove-links qp x (y ∷ ys) h v =
    let (one, (two, three)) = v.links in
    let (far, (_, near)) = v.distinct in
    let ny = far.1.0 in
    let nx = far.0 in
    let k = (frameq_remove qp h).1 in
    (
      one.0,
      record {
        links = (
          (ground arith, ground arith),
          links_left h k y qp ys (ground arith)
              (others_left h k qp qp y ys far.1.1 far.1.1 near.0
                (λ z ne_q ne_r ne_y. (ground arith, ground arith)))
              (ground arith) three,
        );
        distinct = (far.1, near);
      },
    )

-- A header is put before the first.
pub insert_head-links :
    (qp fqp : ℕ) (xs : List ℕ) (h : Heap)
    → qp ≢ fqp
    → Apart fqp xs
    → Holds h qp xs
    → Holds (frameq_insert_head qp fqp h) qp (fqp ∷ xs)
unfolding Linked frameq_insert_head
insert_head-links qp fqp [] h ne af v =
    let one = v.links in
    record {
      links = ((ground arith, ground arith), (ground arith, ground arith));
      distinct = ((ne, tt), (tt, tt));
    }
insert_head-links qp fqp (x ∷ xs) h ne af v =
    let (one, two) = v.links in
    let (far, near) = v.distinct in
    let nx = far.0 in
    let fx = af.0 in
    let k = frameq_insert_head qp fqp h in
    record {
      links = (
        (ground arith, ground arith),
        (
          (ground arith, ground arith),
          links_left h k x qp xs (ground arith)
              (others_left h k qp fqp x xs far.1 af.1 near.0
                (λ z nq nf nz. (ground arith, ground arith)))
              (ground arith) two,
        ),
      );
      distinct = ((ne, far), (af, near));
    }

-- A header is put behind the last.
pub insert-Holds :
    (qp fqp : ℕ) (xs : List ℕ) (h : Heap)
    → qp ≢ fqp
    → Apart fqp xs
    → Holds h qp xs
    → Holds (frameq_insert qp fqp h) qp (xs ++ (fqp ∷ []))
insert-Holds qp fqp xs h ne af v = record {
  links = insert-links qp fqp h ne qp xs v.links ne v.distinct af v.distinct.0;
  distinct = (Apart-snoc qp fqp xs ne v.distinct.0, Distinct-snoc fqp xs af v.distinct.1);
}
