-- ===== src/Retry.antt =====
-- The reply timeouts: `lastRetryReplyTimeoutMs`, `replyTimerTimeoutMs`, `startPollReplyTimer`,
-- `idlePollTimeoutMs` and `iFrameReplyTimeoutMs` of src/ioHdlc_core.c, with the defaults of
-- include/ioHdlc_conf.h, and `s_link_api_timeout_ms` of src/ioHdlc.c. The intermediate `uint64_t`
-- values stay far below 2 ^ 64, so that only the 32-bit results are bounded.
pub mod Budget
use io_hdlc.Base.{ℕ, zero, suc, ◌+◌, ◌-◌, ◌*◌, ◌/◌, ◌^◌, Bool, ◌&&◌, ◌||◌, ltb, leb, if◌then◌else◌}
use io_hdlc.State.{Station, Peer, Link, ◌▷◌, on_peer, when, start_timer, stop_timer, is_nrm}
use io_hdlc.State.TimerKind.{reply, t3}

abbrev pub max_u32 : ℕ
max_u32 = 2 ^ 32 - 1

abbrev pub last_retry_t1_ratio : ℕ
last_retry_t1_ratio = 5

abbrev pub last_retry_timeout_min_ms : ℕ
last_retry_timeout_min_ms = 100

abbrev pub dfl_t3_iframe_t1_ratio : ℕ
dfl_t3_iframe_t1_ratio = 5

-- `lastRetryReplyTimeoutMs`
unfoldable pub last_retry_reply_timeout_ms : Station → ℕ
last_retry_reply_timeout_ms s =
    let scaled = s.reply_timeout_ms * last_retry_t1_ratio in
    let tmo = if ltb scaled last_retry_timeout_min_ms then last_retry_timeout_min_ms else scaled in
    if ltb max_u32 tmo then max_u32 else tmo

-- `replyTimerTimeoutMs`
unfoldable pub reply_timer_timeout_ms : Station → Peer → ℕ
unfolding last_retry_reply_timeout_ms
reply_timer_timeout_ms s p =
    let retry_count = p.poll_retry_count in
    if ltb 0 retry_count && leb p.poll_retry_max retry_count
    then last_retry_reply_timeout_ms s
    else if leb 32 retry_count || ltb (max_u32 / 2 ^ retry_count) s.reply_timeout_ms
    then max_u32
    else s.reply_timeout_ms * 2 ^ retry_count

-- `startPollReplyTimer`
unfoldable pub start_poll_reply_timer : Link → Link
unfolding reply_timer_timeout_ms
start_poll_reply_timer l =
    l
    ▷ when (is_nrm l.s && l.s.primary) (on_peer (stop_timer t3))
    ▷ on_peer (start_timer reply (reply_timer_timeout_ms l.s l.p))

-- `idlePollTimeoutMs`
abbrev pub idle_poll_timeout_ms : Station → ℕ
idle_poll_timeout_ms s = s.idle_poll_timeout_ms

-- `iFrameReplyTimeoutMs`
abbrev pub i_frame_reply_timeout_ms : Station → ℕ
i_frame_reply_timeout_ms s = s.reply_timeout_ms * dfl_t3_iframe_t1_ratio

-- `s_link_api_timeout_ms`
unfoldable pub link_api_timeout_ms : Station → Peer → ℕ
link_api_timeout_ms s p =
    let t1_ms = s.reply_timeout_ms in
    let n2 = p.poll_retry_max in
    let scaled = t1_ms * last_retry_t1_ratio in
    let last = if ltb scaled last_retry_timeout_min_ms then last_retry_timeout_min_ms else scaled in
    let total = t1_ms * (2 ^ n2 - 1) + (last + t1_ms * 2) in
    if leb 32 n2 then max_u32 else if ltb max_u32 total then max_u32 else total
