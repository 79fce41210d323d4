-- ===== src/Station/AddPeer.antt =====
-- What `ioHdlcAddPeer` of src/ioHdlc.c adds, and what it refuses.
use io_hdlc.Base.{
  ℕ, ◌<◌, true, false, not, ◌&&◌, Option, none, some, List, [], ◌∷◌, ◌++◌, ◌≡◌, ◌≢◌, ◌∙◌, refl, sym,
  ap, arith, All, Distinct, ◌==◌, ==_iff, Bool-cases, inl, inr, if◌then◌else◌,
}
use io_hdlc.State.{Framing, Frame, Station, Peer, is_disc, if_known}
use io_hdlc.Control.RoundTrip.{IsFraming}
use io_hdlc.Ack.Window.{Numbered, advance-zero}
use io_hdlc.Receive.Window.{PeerStands}
use io_hdlc.Transmit.Round.{IsFraming-Modulus}
use io_hdlc.Station.{Config, Peers, Result, behind, addr2peer, new_peer, is_known, add_peer}
use io_hdlc.Station.Errno.{einval, eexist}
use io_hdlc.Station.Result.{ok, error}

-- Some window stands for a peer.
abbrev pub HasPeerWindow : Framing → Peer → Type 0
HasPeerWindow f p = (fresh : List Frame) × PeerStands f fresh p

abbrev pub addresses : List Peer → List ℕ
addresses [] = []
addresses (p ∷ peers) = p.addr ∷ addresses peers

abbrev pub Apart : ℕ → List ℕ → Type 0
Apart addr others = All (λ other. addr ≢ other) others

-- The peers have their windows, and addresses of their own.
pub record AreSound (f : Framing) (peers : List Peer) : Type 0 where
  pub windows : All (HasPeerWindow f) peers
  pub distinct : Distinct (addresses peers)

is_known-behind : (o : Option ℕ) → is_known (behind o) ≡ is_known o
is_known-behind none = refl
is_known-behind (some i) = refl

first_known :
    (a addr : ℕ) (o : Option ℕ)
    → (a == addr) ≡ true
    → is_known (if a == addr then some 0 else behind o) ≡ true
first_known a addr o h = rw h refl

behind_known :
    (a addr : ℕ) (o : Option ℕ)
    → (a == addr) ≡ false
    → is_known (if a == addr then some 0 else behind o) ≡ is_known o
behind_known a addr o h = rw h (is_known-behind o)

differs_behind :
    (peers : List Peer) (a : ℕ) (p : Peer)
    → a ≢ p.addr
    → Apart a (addresses peers)
    → Apart a (addresses (peers ++ (p ∷ [])))
differs_behind [] a p ne apart = (ne, tt)
differs_behind (q ∷ peers) a p ne apart = (apart.0, differs_behind peers a p ne apart.1)

new_address :
    (peers : List Peer) (addr : ℕ)
    → is_known (addr2peer peers addr) ≡ false
    → Apart addr (addresses peers)
unfolding addr2peer
new_address [] addr h = tt
new_address (p ∷ peers) addr h = elim (Bool-cases (p.addr == addr)) [
  | inl e ↦ absurd (let k = first_known p.addr addr (addr2peer peers addr) e in ground arith)
  | inr e ↦ (
    λ same. ground arith,
    new_address peers addr (sym (behind_known p.addr addr (addr2peer peers addr) e) ∙ h),
  )
]

old_address :
    (peers : List Peer) (addr : ℕ)
    → is_known (addr2peer peers addr) ≡ true
    → ¬ Apart addr (addresses peers)
unfolding addr2peer
old_address [] addr h none_there = ground arith
old_address (p ∷ peers) addr h apart = elim (Bool-cases (p.addr == addr)) [
  | inl e ↦ apart.0 (sym ((==_iff _ _).0 e))
  | inr e ↦
      old_address peers addr (sym (behind_known p.addr addr (addr2peer peers addr) e) ∙ h) apart.1
]

own_addresses :
    (peers : List Peer) (addr : ℕ) (p : Peer)
    → p.addr ≡ addr
    → Apart addr (addresses peers)
    → Distinct (addresses peers)
    → Distinct (addresses (peers ++ (p ∷ [])))
own_addresses [] addr p e apart d = (tt, tt)
own_addresses (q ∷ peers) addr p e apart d = (
  differs_behind peers q.addr p (λ same. apart.0 (sym (same ∙ e))) d.0,
  own_addresses peers addr p e apart.1 d.1,
)

-- What `ioHdlcAddPeer` returns: sound peers with the new one behind them, or why there are none.
abbrev pub Adds : Framing → Station → Config → ℕ → List Peer → Result Peers → Type 0
Adds f s config addr peers (ok after) =
    (after.list ≡ peers ++ (new_peer s config addr ∷ [])) × AreSound f after.list
Adds f s config addr peers (error einval) = (s.primary ≡ false) × (is_disc s ≡ false)
Adds f s config addr peers (error eexist) = ¬ Apart addr (addresses peers)
Adds f s config addr peers (error _) = ¬ Unit

module _ (f : Framing) (framing : IsFraming f) where
  new_peer-window :
      (s : Station) (config : Config) (addr : ℕ)
      → s.framing ≡ f
      → addr < 256
      → HasPeerWindow f (new_peer s config addr)
  unfolding new_peer Numbered
  new_peer-window s config addr e small =
      let zero_lem = sym (advance-zero f (IsFraming-Modulus f framing) 0 (omega arith)) in
      let same = ap (λ g. g.modmask) e in
      (
        [],
        (
          (
            [],
            record {
              queued = refl;
              numbered = tt;
              sent = zero_lem;
              highest = zero_lem;
              size = omega arith;
              range = omega arith;
              pending = refl;
              pending_lt = omega arith;
              unsent = tt;
            },
          ),
          record { window = omega arith; ks_le = omega arith; vr_le = omega arith; octet = small },
        ),
      )

  windows_behind :
      (peers : List Peer) (p : Peer)
      → All (HasPeerWindow f) peers
      → HasPeerWindow f p
      → All (HasPeerWindow f) (peers ++ (p ∷ []))
  windows_behind [] p all one = (one, tt)
  windows_behind (q ∷ peers) p all one = (all.0, windows_behind peers p all.1 one)

  -- Modulo 8 or 128, where the peers of a station have their windows and addresses of their own,
  -- so do they after a peer has been added: the new one is the last, with an empty window; it is
  -- refused only to a secondary in a connected mode, or when a peer has the address.
  pub add_peer-Adds :
      (s : Station) (config : Config) (addr : ℕ) (peers : Peers)
      → s.framing ≡ f
      → addr < 256
      → AreSound f peers.list
      → Adds f s config addr peers.list (add_peer s config addr peers)
  unfolding add_peer new_peer
  add_peer-Adds s config addr peers e small sound =
      let P = Adds f s config addr peers.list in
      if_known P (not s.primary && not (is_disc s)) _ _ (λ h. (ground arith, ground arith))
        (λ _.
          if_known P (is_known (addr2peer peers.list addr)) _ _ (λ h. old_address peers.list addr h)
            (λ h. (
              refl,
              record {
                windows =
                    windows_behind peers.list (new_peer s config addr) sound.windows
                      (new_peer-window s config addr e small);
                distinct =
                    own_addresses peers.list addr (new_peer s config addr) refl
                      (new_address peers.list addr h) sound.distinct;
              },
            )))
