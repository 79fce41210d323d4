-- ===== src/Retry/Budget.antt =====
-- The safety timeout of the link functions against the reply timers that a failing link runs
-- through.
use native.Mathlib.Nat.{pow-suc, one-le-pow, mul-add, div-lt_iff_lt-mul}
use io_hdlc.Base.{
  ℕ, zero, suc, ◌+◌, ◌-◌, ◌*◌, ◌/◌, ◌^◌, ◌≤◌, ◌<◌, ◌≡◌, min, max, ◌∙◌, ap, sym, arith, inl, inr,
  ltb→lt, ltb, leb, Bool-cases,
}
use io_hdlc.State.{Station, Peer}
use io_hdlc.Retry.{
  max_u32, last_retry_reply_timeout_ms, reply_timer_timeout_ms, link_api_timeout_ms,
}

-- The peer at its `n`-th retry.
abbrev pub at_retry : Peer → ℕ → Peer
at_retry p n = record p { poll_retry_count = n }

-- The reply timers of the polls before retry `n`, added up.
unfoldable pub windows : Station → Peer → ℕ → ℕ
windows s p zero = 0
windows s p (suc n) = windows s p n + reply_timer_timeout_ms s (at_retry p n)

early_window :
    (s : Station) (p : Peer) (n : ℕ)
    → n < p.poll_retry_max
    → n < 32
    → reply_timer_timeout_ms s (at_retry p n) ≤ s.reply_timeout_ms * 2 ^ n
unfolding reply_timer_timeout_ms
early_window s p n hn h32 = elim (Bool-cases (ltb (max_u32 / 2 ^ n) s.reply_timeout_ms)) [
  | inl h ↦
      let over : max_u32 < s.reply_timeout_ms * 2 ^ n =
        (div-lt_iff_lt-mul (one-le-pow n 2 (omega arith))).0 (ltb→lt _ _ h) in
      ground arith
  | inr h ↦ ground arith
]

last_window :
    (s : Station) (p : Peer)
    → reply_timer_timeout_ms s (at_retry p p.poll_retry_max)
      ≤ min max_u32 (max (s.reply_timeout_ms * 5) 100)
unfolding reply_timer_timeout_ms last_retry_reply_timeout_ms
last_window s p = ground arith

doubled : (t x : ℕ) → 0 < x → t * (x * 2 - 1) ≡ t * (x - 1) + t * x
doubled t zero h = absurd (omega arith)
doubled t (suc y) h =
    let sum : suc y * 2 - 1 ≡ y + suc y = omega arith in
    let low : suc y - 1 ≡ y = omega arith in
    ap (λ z. t * z) sum ∙ mul-add t y (suc y) ∙ ap (λ z. t * z + t * suc y) (sym low)

windows_bound :
    (s : Station) (p : Peer) (n : ℕ)
    → n ≤ p.poll_retry_max
    → n ≤ 32
    → windows s p n ≤ s.reply_timeout_ms * (2 ^ n - 1)
unfolding windows
windows_bound s p zero hn h32 = omega arith
windows_bound s p (suc n) hn h32 =
    let rest = windows_bound s p n (omega arith) (omega arith) in
    let window = early_window s p n (omega arith) (omega arith) in
    let twice = doubled s.reply_timeout_ms (2 ^ n) (one-le-pow n 2 (omega arith)) in
    rw (pow-suc 2 n) (omega arith)

-- A link function waits for at least the reply timers of the first poll and of all its retries,
-- added up, and one more T1, or else for the longest time that 32 bits can hold.
pub link_api_timeout_ms-windows :
    (s : Station) (p : Peer)
    → min max_u32 (windows s p (p.poll_retry_max + 1) + s.reply_timeout_ms)
      ≤ link_api_timeout_ms s p
unfolding link_api_timeout_ms windows
link_api_timeout_ms-windows s p = elim (Bool-cases (leb 32 p.poll_retry_max)) [
  | inl h ↦ ground arith
  | inr h ↦
      let early = windows_bound s p p.poll_retry_max (omega arith) (ground arith) in
      let last = last_window s p in ground arith
]
