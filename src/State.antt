-- ===== src/State.antt =====
-- The state of the protocol core: include/ioHdlc.h, the station, its framing parameters and its
-- peers; include/ioHdlcframe.h, a frame; include/ioHdlc_events.h and include/ioHdlc_app_events.h;
-- and the reply timers of src/ioHdlc_runner.c. A mask of named bits is a Boolean for each bit. The
-- queues of a peer hold their frames oldest first.
use io_hdlc.Base.{◌≡◌, refl, ℕ, Bool, true, false, not, ◌&&◌, Option, List, ◌∷◌, if◌then◌else◌}

-- `IOHDLC_OM_*`, and the value 0, which has no name.
pub data Mode : Type 0 where
  no_mode abm arm nrm ndm adm im : Mode

-- `rx_fn`, the receive handler of the connected modes.
pub data RxHandler : Type 0 where
  no_handler nrm_handler abm_handler : RxHandler

-- `IOHDLC_EVT_*`
pub data Event : Type 0 where
  c_rplytmo t3_tmo i_recvd rr_recvd rnr_recvd rej_recvd pool_st_chg um_recvd : Event
  link_st_chg link_req line_idle link_down tx_ifrm_enq rej_acted pf_recvd ui_enq : Event

-- `IOHDLC_APP_*`
pub data AppEvent : Type 0 where
  app_link_up app_link_refused app_link_down app_link_lost : AppEvent
  app_frmr_received app_ui_received app_test_done : AppEvent

-- `struct iohdlc_frame`: the octets of the buffer, of which `elen` are the frame's.
pub record Frame : Type 0 where
  pub octets : List ℕ
  pub elen : ℕ
  pub tx_ctrl_len : ℕ

-- `struct iohdlc_station_framing`
pub record Framing : Type 0 where
  pub modmask : ℕ
  pub pfoctet : ℕ
  pub ctrl_size : ℕ
  pub frame_offset : ℕ

-- An `iohdlc_virtual_timer_t`.
pub record Timer : Type 0 where
  pub armed : Bool
  pub expired : Bool
  pub delay_ms : ℕ

-- `struct iohdlc_station`, with `flags`, `pf_state` and `flags_critical` bit by bit.
pub record Station : Type 0 where
  pub mode : Mode
  pub primary : Bool
  pub twa : Bool
  pub idle : Bool
  pub busy : Bool
  pub p_rcved : Bool
  pub f_rcved : Bool
  pub framing : Framing
  pub use_rej : Bool
  pub reply_timeout_ms : ℕ
  pub idle_poll_timeout_ms : ℕ
  pub addr : ℕ
  pub connected_count : ℕ
  pub rx_fn : RxHandler

-- `ss_state`
pub record SsState : Type 0 where
  pub peer_busy : Bool
  pub rejpend : Bool
  pub recving : Bool
  pub need_p : Bool
  pub term_orderly : Bool
  pub term_aborted : Bool
  pub sending : Bool
  pub conn : Bool

-- `stream_terminal_pending`
pub record StreamTerminal : Type 0 where
  pub rx_orderly : Bool
  pub rx_aborted : Bool
  pub tx_reset : Bool

-- `struct iohdlc_station_peer`
pub record Peer : Type 0 where
  pub addr : ℕ
  pub ks : ℕ
  pub mifls : ℕ
  pub vs : ℕ
  pub vr : ℕ
  pub nr : ℕ
  pub vs_highest : ℕ
  pub rej_actioned : ℕ
  pub chkpt_actioned : ℕ
  pub vs_atlast_pf : ℕ
  pub t3_expected_nr : ℕ
  pub i_pending_count : ℕ
  pub um_sent : Bool
  pub um_rcved : Bool
  pub ss : SsState
  pub um_cmd : ℕ
  pub um_rsp : ℕ
  pub um_api_frame : Option Frame
  pub um_rsp_frame : Option Frame
  pub ui_tx_pending : Bool
  pub ui_rx_pending : Bool
  pub terminal : StreamTerminal
  pub ui_tx_value : ℕ
  pub ui_rx_value : List ℕ
  pub i_retrans_q : List Frame
  pub i_recept_q : List Frame
  pub i_trans_q : List Frame
  pub partial_read_frame : Option Frame
  pub partial_read_offset : ℕ
  pub reply_tmr : Timer
  pub t3_tmr : Timer
  pub poll_retry_count : ℕ
  pub poll_retry_max : ℕ
  pub frmr_condition : Bool
  pub frmr_rejected_ctrl : ℕ × ℕ
  pub frmr_reason : ℕ
  pub frmr_cr : Bool

-- What the core asks of its surroundings: event flags, frames given back to the pool, condition
-- variables, and frames handed to the driver.
pub data Effect : Type 0 where
  broadcast : List Event → Effect
  broadcast_app : AppEvent → Effect
  release : Frame → Effect
  wake_tx wake_rx : Effect
  send : Frame → Effect

-- A station, the peer that an operation is about, and the effects so far, the latest first.
pub record Link : Type 0 where
  pub s : Station
  pub p : Peer
  pub log : List Effect

abbrev pub on_station : (Station → Station) → Link → Link
on_station f l = record l { s = f l.s }

abbrev pub on_peer : (Peer → Peer) → Link → Link
on_peer f l = record l { p = f l.p }

abbrev pub emit : Effect → Link → Link
emit e l = record l { log = e ∷ l.log }

-- A call made only under a condition.
abbrev pub when : Bool → (Link → Link) → Link → Link
when b f l = if b then f l else l

-- What holds on both branches holds after either.
pub if-elim {ℓ κ} :
    {A : Type ℓ} (P : A → Type κ) (b : Bool) (x y : A) → P x → P y → P (if b then x else y)
if-elim P true x y hx hy = hx
if-elim P false x y hx hy = hy

-- The same, where each branch knows its condition.
pub if_known {ℓ κ} :
    {A : Type ℓ} (P : A → Type κ) (b : Bool) (x y : A)
    → (b ≡ true → P x)
    → (b ≡ false → P y)
    → P (if b then x else y)
if_known P true x y hx hy = hx refl
if_known P false x y hx hy = hy refl

-- Statements in order.
infixl 2 ◌▷◌
abbrev pub ◌▷◌ : Link → (Link → Link) → Link
l ▷ f = f l

-- `ioHdlcStartReplyTimer`, `ioHdlcRestartReplyTimer`, `ioHdlcStopReplyTimer` and
-- `ioHdlcIsReplyTimerExpired`, over the timer that `s_select_timer` selects.
pub data TimerKind : Type 0 where
  reply t3 : TimerKind

unfoldable pub timer : TimerKind → Peer → Timer
timer reply p = p.reply_tmr
timer t3 p = p.t3_tmr

unfoldable pub set_timer : TimerKind → Timer → Peer → Peer
set_timer reply t p = record p { reply_tmr = t }
set_timer t3 t p = record p { t3_tmr = t }

unfoldable pub start_timer : TimerKind → ℕ → Peer → Peer
unfolding set_timer
start_timer k ms p = set_timer k (record { armed = true; expired = false; delay_ms = ms }) p

unfoldable pub restart_timer : TimerKind → ℕ → Peer → Peer
unfolding timer start_timer
restart_timer k ms p = if (timer k p).armed then start_timer k ms p else p

unfoldable pub stop_timer : TimerKind → Peer → Peer
unfolding timer set_timer
stop_timer k p = set_timer k (record (timer k p) { armed = false; expired = false }) p

unfoldable pub is_timer_expired : TimerKind → Peer → Bool
unfolding timer
is_timer_expired k p = not (timer k p).armed && (timer k p).expired

abbrev pub is_nrm : Station → Bool
is_nrm s = elim s.mode [ nrm ↦ true | _ ↦ false ]

abbrev pub is_abm : Station → Bool
is_abm s = elim s.mode [ abm ↦ true | _ ↦ false ]

abbrev pub is_arm : Station → Bool
is_arm s = elim s.mode [ arm ↦ true | _ ↦ false ]

abbrev pub is_ndm : Station → Bool
is_ndm s = elim s.mode [ ndm ↦ true | _ ↦ false ]

-- `IOHDLC_IS_DISC`
abbrev pub is_disc : Station → Bool
is_disc s = elim s.mode [ ndm ↦ true | adm ↦ true | _ ↦ false ]

-- `IOHDLC_PEER_DISC`
abbrev pub peer_disc : Peer → Bool
peer_disc p = not p.ss.conn

-- `IOHDLC_SET_NEED_P`
abbrev pub set_need_p : Link → Link
set_need_p l =
    if l.s.primary then on_peer (λ p. record p { ss = record (p.ss) { need_p = true } }) l else l

-- `iFrameReplyTimerUsed`
abbrev pub i_frame_reply_timer_used : Station → Bool
i_frame_reply_timer_used s = elim s.mode [ arm ↦ true | abm ↦ true | _ ↦ false ]
