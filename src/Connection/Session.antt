-- ===== src/Connection/Session.antt =====
-- What a new session starts from, and how the station counts its connections.
use io_hdlc.Base.{sym, ℕ, ◌+◌, ◌%◌, ◌^◌, true, false, [], ◌≡◌, refl, arith}
use io_hdlc.State.{Framing, Mode, Peer, Station, Link, on_station, if-elim}
use io_hdlc.State.Mode.{no_mode, nrm, abm, ndm, arm, adm, im}
use io_hdlc.Control.UFun
use io_hdlc.Ack.Window.{Modulus, IsWindow, Numbered, advance, advance-zero}
use io_hdlc.Connection.{interrupt_streams, reset_peer_vars, set_connected, apply_mode_state}
use io_hdlc.Connection.Reset.{Of, fresh_peer, reset_peer_vars-Of}
use io_hdlc.Connection.UFrame.{set_mode}

-- A session in which nothing has been sent, received or queued.
pub record IsNewSession (f : Framing) (count : ℕ) (s : Station) (p : Peer) : Type 0 where
  pub connected : p.ss.conn ≡ true
  pub window : IsWindow f p [] []
  pub unsent : (p.vs ≡ 0) × ((p.nr ≡ 0) × (p.i_retrans_q ≡ []))
  pub received : (p.vr ≡ 0) × (p.i_recept_q ≡ [])
  pub unexceptional : p.frmr_condition ≡ false
  pub quiet : (p.reply_tmr.armed ≡ false) × (p.t3_tmr.armed ≡ false)
  pub counted : s.connected_count ≡ count

apply_mode_state-connected_count :
    (m : Mode) (s : Station) → (apply_mode_state m s).connected_count ≡ s.connected_count
unfolding apply_mode_state
apply_mode_state-connected_count nrm s = refl
apply_mode_state-connected_count abm s = refl
apply_mode_state-connected_count ndm s = refl
apply_mode_state-connected_count arm s = refl
apply_mode_state-connected_count adm s = refl
apply_mode_state-connected_count im s = refl
apply_mode_state-connected_count no_mode s = refl

-- A peer that has been reset, connected, and has a response to send.
abbrev connected_peer : ℕ → Peer → Peer
connected_peer u_rsp p = record p {
  ss = record (p.ss) { conn = true; term_orderly = false; term_aborted = false };
  um_rsp = u_rsp;
}

module _ (f : Framing) (count : ℕ) (u_rsp : ℕ) (m : Modulus f) where
  -- The station counts `count` connections, and a peer is not yet one of them.
  abbrev IsReset : Station → Peer → Type 0
  IsReset s p =
      (p.ss.conn ≡ false)
      × IsNewSession f ((count + 1) % 2 ^ 8)
          (record s { connected_count = (s.connected_count + 1) % 2 ^ 8 }) (connected_peer u_rsp p)

  new_session : (s : Station) (p : Peer) → s.connected_count ≡ count → IsReset s (fresh_peer p)
  unfolding Numbered
  new_session s p e = (
    refl,
    record {
      connected = refl;
      window = record {
        queued = refl;
        numbered = tt;
        sent = zero_lem;
        highest = zero_lem;
        size = omega arith;
        range = omega arith;
        pending = refl;
        pending_lt = omega arith;
        unsent = tt;
      };
      unsent = (refl, (refl, refl));
      received = (refl, refl);
      unexceptional = refl;
      quiet = (refl, refl);
      counted = rw e refl;
    },
  )
    where
      zero_lem : 0 ≡ advance f 0 0
      zero_lem = sym (advance-zero f m 0 (omega arith))

  reset_peer_vars-IsReset :
      (l : Link) → l.s.connected_count ≡ count → Of IsReset (reset_peer_vars l)
  unfolding interrupt_streams
  reset_peer_vars-IsReset l e = reset_peer_vars-Of IsReset l (
      if-elim (Of (λ s p. IsReset s (fresh_peer p))) l.p.ss.conn (interrupt_streams l) l
        (new_session l.s (interrupt_streams l).p e) (new_session l.s l.p e))

  set_connected-IsNewSession :
      (l : Link)
      → Of IsReset l
      → Of
          (λ s p. IsNewSession f ((count + 1) % 2 ^ 8) s (record p { um_rsp = u_rsp }))
          (set_connected l)
  unfolding set_connected
  set_connected-IsNewSession l (e, h) = rw e h

-- Modulo 8 or 128, an accepted set mode command starts a new session, whatever the state of the
-- peer was: it is connected, V(S), V(R) and the number last acknowledged are 0, its I-frame queues
-- are empty, its timers are stopped and no FRMR exception is active. The count of connected peers
-- goes up by one, modulo 256, also when the peer was connected before.
pub set_mode-IsNewSession :
    (m : Mode) (l : Link)
    → Modulus l.s.framing
    → let after = set_mode m l in
      IsNewSession l.s.framing ((l.s.connected_count + 1) % 2 ^ 8) after.s after.p
unfolding set_mode
set_mode-IsNewSession m l modulus =
    let moded = on_station (λ s. apply_mode_state m (record s { mode = m })) l in
    set_connected-IsNewSession l.s.framing l.s.connected_count UFun.ua modulus
      (reset_peer_vars moded)
      (reset_peer_vars-IsReset l.s.framing l.s.connected_count UFun.ua modulus moded
        (apply_mode_state-connected_count m (record (l.s) { mode = m })))
