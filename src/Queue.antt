-- ===== src/Queue.antt =====
-- The circular doubly linked queues of include/ioHdlcqueue.h. A queue header has a number for its
-- address, the head of a queue among them; the heap gives the `next` and `prev` of each. The
-- pointers are followed as the statements of the source follow them.
pub mod Links
pub mod Refine
use io_hdlc.Base.{ℕ, Bool, Option, none, some, ◌==◌, if◌then◌else◌}

-- The `struct iohdlc_frame_q` at each address.
pub record Heap : Type 0 where
  pub next : ℕ → ℕ
  pub prev : ℕ → ℕ

abbrev pub write : (ℕ → ℕ) → ℕ → ℕ → ℕ → ℕ
write field at value x = if x == at then value else field x

-- `at->next = value` and `at->prev = value`
abbrev pub set_next : ℕ → ℕ → Heap → Heap
set_next at value h = record h { next = write h.next at value }

abbrev pub set_prev : ℕ → ℕ → Heap → Heap
set_prev at value h = record h { prev = write h.prev at value }

-- `ioHdlc_frameq_init`
unfoldable pub frameq_init : ℕ → Heap → Heap
frameq_init qp h = set_prev qp qp (set_next qp qp h)

-- `ioHdlc_frameq_isempty`
unfoldable pub frameq_isempty : ℕ → Heap → Bool
frameq_isempty qp h = h.next qp == qp

-- `ioHdlc_frameq_insert`
unfoldable pub frameq_insert : ℕ → ℕ → Heap → Heap
frameq_insert qp fqp h =
    let h1 = set_next fqp qp h in
    let h2 = set_prev fqp (h1.prev qp) h1 in
    let h3 = set_next (h2.prev fqp) fqp h2 in set_prev qp fqp h3

-- `ioHdlc_frameq_insert_head`
unfoldable pub frameq_insert_head : ℕ → ℕ → Heap → Heap
frameq_insert_head qp fqp h =
    let h1 = set_next fqp (h.next qp) h in
    let h2 = set_prev fqp qp h1 in let h3 = set_prev (h2.next fqp) fqp h2 in set_next qp fqp h3

-- `ioHdlc_frameq_remove`
unfoldable pub frameq_remove : ℕ → Heap → ℕ × Heap
frameq_remove qp h =
    let rfqp = h.next qp in
    let h1 = set_next qp (h.next rfqp) h in (rfqp, set_prev (h1.next qp) qp h1)

-- `ioHdlc_frameq_remove_la`, with the header behind the one removed.
unfoldable pub frameq_remove_la : ℕ → Heap → (ℕ × Option ℕ) × Heap
unfolding frameq_isempty
frameq_remove_la qp h =
    let rfqp = h.next qp in
    let h1 = set_next qp (h.next rfqp) h in
    let h2 = set_prev (h1.next qp) qp h1 in
    ((rfqp, if frameq_isempty qp h2 then none else some (h2.next qp)), h2)

-- `ioHdlc_frameq_lifo_remove`
unfoldable pub frameq_lifo_remove : ℕ → Heap → ℕ × Heap
frameq_lifo_remove qp h =
    let rfqp = h.prev qp in
    let h1 = set_prev qp (h.prev rfqp) h in (rfqp, set_next (h1.prev qp) qp h1)

-- `ioHdlc_frameq_delete`
unfoldable pub frameq_delete : ℕ → Heap → Heap
frameq_delete fqp h =
    let h1 = set_next (h.prev fqp) (h.next fqp) h in set_prev (h1.next fqp) (h1.prev fqp) h1

-- `ioHdlc_frameq_move`
unfoldable pub frameq_move : ℕ → ℕ → ℕ → Heap → Heap
frameq_move dest_qp source_from source_to h =
    let h1 = set_next (h.prev source_from) (h.next source_to) h in
    let h2 = set_prev (h1.next source_to) (h1.prev source_from) h1 in
    let h3 = set_next source_to (h2.next dest_qp) h2 in
    let h4 = set_prev (h3.next dest_qp) source_to h3 in
    let h5 = set_next dest_qp source_from h4 in set_prev source_from dest_qp h5

-- `ioHdlc_frameq_move_tail`
unfoldable pub frameq_move_tail : ℕ → ℕ → Heap → Heap
frameq_move_tail dest_qp fqp h =
    let h1 = set_next (h.prev fqp) (h.next fqp) h in
    let h2 = set_prev (h1.next fqp) (h1.prev fqp) h1 in
    let h3 = set_next fqp dest_qp h2 in
    let h4 = set_prev fqp (h3.prev dest_qp) h3 in
    let h5 = set_next (h4.prev fqp) fqp h4 in set_prev dest_qp fqp h5
