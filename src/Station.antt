-- ===== src/Station.antt =====
-- The station interface of src/ioHdlc.c: the peers of a station, their window size and UI values,
-- the snapshot of a link's state, and the sizes of frames. `iohdlc_errno` is the value of a refusal.
pub mod AddPeer
pub mod Write
pub mod Fragment
pub mod Enqueue
pub mod Settings
pub mod Init
pub mod Ready
pub mod LinkUp
pub mod LinkEnds
pub mod Read
pub mod Scatter
pub mod Stream
pub mod Copied
pub mod Advance
pub mod Reads
pub mod Waiting
use io_hdlc.Base.{
  ℕ, ◌+◌, ◌-◌, ◌*◌, ◌/◌, ◌%◌, ◌^◌, Bool, true, false, not, ◌&&◌, ◌||◌, Option, none, some, List, [],
  ◌∷◌, ◌++◌, length, ltb, ◌==◌, if◌then◌else◌,
}
use io_hdlc.State.{Station, Peer, Link, Timer, Event, on_peer, emit, broadcast, is_disc, peer_disc}
use io_hdlc.State.Event.{ui_enq}

pub data Errno : Type 0 where
  einval eexist enotconn etimedout econnreset enotsup eisconn econnrefused enomem : Errno

-- What a function returns: 0 and what it has changed, or -1 and why.
pub data Result {ℓ} (A : Type ℓ) : Type ℓ where
  ok : A → Result A
  error : Errno → Result A

-- What `ioHdlcStationInit` keeps of its configuration for the peers.
pub record Config : Type 0 where
  pub fcs_size : ℕ
  pub framesize : ℕ
  pub poll_retry_max : ℕ

-- The peers of a station, in the order of its list, and `c_peer`.
pub record Peers : Type 0 where
  pub list : List Peer
  pub c_peer : Option ℕ

-- `calculate_frame_size`
unfoldable pub calculate_frame_size : ℕ → ℕ → ℕ → ℕ → Bool → ℕ
calculate_frame_size log2mod fff_type fcs_size max_info_len transparency =
    let ctrl_size = if log2mod == 3 then 1 else (log2mod + 1) / 4 in
    let wanted = (fff_type + 1 + ctrl_size + max_info_len) % 2 ^ 32 in
    let fff_limit = if fff_type == 1 then 127 else 4095 in
    let max_elen = fff_limit - fcs_size in
    let elen = if not (fff_type == 0) && ltb max_elen wanted then max_elen else wanted in
    let frame_size = (elen + fcs_size + 1) % 2 ^ 32 in
    if transparency then frame_size * 2 % 2 ^ 32 else frame_size

-- An index in the rest of a list, from its start.
abbrev pub behind : Option ℕ → Option ℕ
behind none = none
behind (some i) = some (i + 1)

-- `ioHdlcAddr2peer`: the index of the first peer with the address.
unfoldable pub addr2peer : List Peer → ℕ → Option ℕ
addr2peer [] addr = none
addr2peer (p ∷ peers) addr =
    let rest = addr2peer peers addr in if p.addr == addr then some 0 else behind rest

abbrev pub peer_mifl_fallback : ℕ
peer_mifl_fallback = 64

abbrev idle_timer : Timer
idle_timer = record { armed = false; expired = false; delay_ms = 0 }

-- A peer as `ioHdlcAddPeer` initializes it.
unfoldable pub new_peer : Station → Config → ℕ → Peer
new_peer s config addr =
    let overhead = s.framing.frame_offset + 1 + s.framing.ctrl_size + config.fcs_size + 1 in
    record {
      addr = addr;
      ks = s.framing.modmask;
      mifls =
          if ltb overhead config.framesize then config.framesize - overhead else peer_mifl_fallback;
      vs = 0;
      vr = 0;
      nr = 0;
      vs_highest = 0;
      rej_actioned = 0;
      chkpt_actioned = 0;
      vs_atlast_pf = 0;
      t3_expected_nr = 0;
      i_pending_count = 0;
      um_sent = false;
      um_rcved = false;
      ss = record {
        peer_busy = false;
        rejpend = false;
        recving = false;
        need_p = false;
        term_orderly = false;
        term_aborted = false;
        sending = false;
        conn = false;
      };
      um_cmd = 0;
      um_rsp = 0;
      um_api_frame = none;
      um_rsp_frame = none;
      ui_tx_pending = false;
      ui_rx_pending = false;
      terminal = record { rx_orderly = false; rx_aborted = false; tx_reset = false };
      ui_tx_value = 0;
      ui_rx_value = [];
      i_retrans_q = [];
      i_recept_q = [];
      i_trans_q = [];
      partial_read_frame = none;
      partial_read_offset = 0;
      reply_tmr = idle_timer;
      t3_tmr = idle_timer;
      poll_retry_count = 0;
      poll_retry_max = config.poll_retry_max;
      frmr_condition = false;
      frmr_rejected_ctrl = (0, 0);
      frmr_reason = 0;
      frmr_cr = false;
    }

abbrev pub is_known : Option ℕ → Bool
is_known none = false
is_known (some i) = true

-- `ioHdlcAddPeer`
unfoldable pub add_peer : Station → Config → ℕ → Peers → Result Peers
unfolding addr2peer new_peer
add_peer s config addr peers =
    if not s.primary && not (is_disc s)
    then error einval
    else if is_known (addr2peer peers.list addr)
    then error eexist
    else ok (record {
      list = peers.list ++ (new_peer s config addr ∷ []);
      c_peer = elim peers.c_peer [ none ↦ some (length peers.list) | some i ↦ some i ];
    })

-- `ioHdlcPeerSetWindow`; `kr` is checked and kept, but nothing reads it.
unfoldable pub peer_set_window : ℕ → ℕ → Link → Result Link
peer_set_window ks kr l =
    let modmask = l.s.framing.modmask in
    if ks == 0 || ltb modmask ks || kr == 0 || ltb modmask kr
    then error einval
    else ok (on_peer (λ p. record p { ks = ks }) l)

-- `ioHdlcPeerUiSend`
unfoldable pub peer_ui_send : ℕ → Link → Result Link
peer_ui_send value l =
    if peer_disc l.p
    then error enotconn
    else ok (
        emit (broadcast (ui_enq ∷ []))
          (on_peer (λ p. record p { ui_tx_value = value; ui_tx_pending = true }) l))

-- `ioHdlcPeerUiGet`: the octets of the value, if one is pending.
unfoldable pub peer_ui_get : Link → Option (List ℕ) × Link
peer_ui_get l =
    if not l.p.ui_rx_pending
    then (none, l)
    else (some l.p.ui_rx_value, on_peer (λ p. record p { ui_rx_pending = false }) l)

pub data PeerState : Type 0 where
  connected orderly_closed aborted disconnected : PeerState

-- `ioHdlcPeerGetState`
unfoldable pub peer_get_state : Peer → PeerState
peer_get_state p =
    if p.ss.conn
    then connected
    else if p.ss.term_orderly
    then orderly_closed
    else if p.ss.term_aborted
    then aborted
    else disconnected
