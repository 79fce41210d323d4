-- ===== src/Connection/Timeout.antt =====
-- How many timeouts of a poll a link survives.
use io_hdlc.Base.{
  ℕ, zero, suc, ◌+◌, ◌%◌, ◌^◌, ◌<◌, true, false, not, [], ◌∷◌, ◌≡◌, refl, ap, sym, subst, arith,
  leb,
}
use io_hdlc.State.{Link, if-elim, peer_disc, on_station, emit, broadcast, broadcast_app}
use io_hdlc.State.Event.{link_down}
use io_hdlc.State.AppEvent.{app_link_lost}
use io_hdlc.Connection.{handle_timeout_retry, abort_peer_link, set_disconnected, leave_mode}

-- The link after `n` timeouts in a row.
abbrev pub after_timeouts : ℕ → Link → Link
after_timeouts zero l = l
after_timeouts (suc n) l = after_timeouts n (handle_timeout_retry l).0

abort-disc : (l : Link) → (abort_peer_link l).p.ss.conn ≡ false
unfolding abort_peer_link set_disconnected leave_mode
abort-disc l = if-elim (λ (r : Link). r.p.ss.conn ≡ false) _ _ _ refl refl

gives_up :
    (l : Link)
    → l.p.poll_retry_count ≡ l.p.poll_retry_max
    → ((handle_timeout_retry l).1 ≡ false) × ((handle_timeout_retry l).0.p.ss.conn ≡ false)
unfolding handle_timeout_retry
gives_up l e =
    let full : leb l.p.poll_retry_max l.p.poll_retry_count ≡ true = ground arith in
    let ended : Link = abort_peer_link (emit (broadcast (link_down ∷ [])) l) in
    let closed : Link = on_station (λ s. record s { f_rcved = true }) ended in
    let disc : ended.p.ss.conn ≡ false = abort-disc (emit (broadcast (link_down ∷ [])) l) in
    rw full (
      refl,
      if-elim (λ (r : Link). r.p.ss.conn ≡ false) (not (peer_disc l.p))
          (emit (broadcast_app app_link_lost) closed) closed disc disc,
    )

-- The link after a timeout that allows a retry.
abbrev retried : Link → Link
retried l = record l { p = record (l.p) { poll_retry_count = (l.p.poll_retry_count + 1) % 2 ^ 8 } }

goes_on :
    (l : Link)
    → l.p.poll_retry_count < l.p.poll_retry_max
    → handle_timeout_retry l ≡ (retried l, true)
unfolding handle_timeout_retry
goes_on l h =
    let more : leb l.p.poll_retry_max l.p.poll_retry_count ≡ false = ground arith in rw more refl

one_more :
    (n : ℕ) (l : Link)
    → handle_timeout_retry l ≡ (retried l, true)
    → ((k : ℕ) → k < n → (handle_timeout_retry (after_timeouts k (retried l))).1 ≡ true)
    → (k : ℕ) → k < suc n
    → (handle_timeout_retry (after_timeouts k l)).1 ≡ true
one_more n l step later zero h = ap (λ r. r.1) step
one_more n l step later (suc k) h =
    subst (λ m. (handle_timeout_retry (after_timeouts k m)).1 ≡ true) (sym (ap (λ r. r.0) step))
      (later k (omega arith))

-- When `n` retries are left to a peer, the next `n` timeouts in a row each allow a retry, and the
-- timeout after them allows none and leaves the peer disconnected; the maximum is an octet.
pub handle_timeout_retry-after_timeouts :
    (n : ℕ) (l : Link)
    → l.p.poll_retry_count + n ≡ l.p.poll_retry_max
    → l.p.poll_retry_max < 256
    → ((k : ℕ) → k < n → (handle_timeout_retry (after_timeouts k l)).1 ≡ true)
      × (let last = handle_timeout_retry (after_timeouts n l) in
          (last.1 ≡ false) × (last.0.p.ss.conn ≡ false))
handle_timeout_retry-after_timeouts zero l e small =
    ((λ k h. absurd (omega arith)), gives_up l (omega arith))
handle_timeout_retry-after_timeouts (suc n) l e small =
    let step = goes_on l (omega arith) in
    let rest = handle_timeout_retry-after_timeouts n (retried l) (omega arith) small in
    (
      one_more n l step rest.0,
      subst
          (λ m.
            let last = handle_timeout_retry (after_timeouts n m) in
            (last.1 ≡ false) × (last.0.p.ss.conn ≡ false))
          (sym (ap (λ r. r.0) step)) rest.1,
    )
