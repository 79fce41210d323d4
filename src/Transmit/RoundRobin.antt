-- ===== src/Transmit/RoundRobin.antt =====
-- The round robin over the peers of a station: `ioHdlcNextPeer` of src/ioHdlc_core.c. The peers are
-- the list of the circular `peers`, in its order, and `c_peer` is an index of it.
use io_hdlc.Base.{
  ℕ, zero, suc, ◌+◌, ◌-◌, ◌≤◌, ◌<◌, Bool, true, false, not, ◌&&◌, ◌||◌, List, [], ◌∷◌, ◌≡◌, sym,
  subst, arith, length, ltb, ◌==◌, if◌then◌else◌, inl, inr, ◌⊎◌,
}
use io_hdlc.State.{Peer, peer_disc, if-elim, if_known}

-- The filter: a disconnected peer with a pending command, or else also a connected peer.
unfoldable pub accepts : Bool → Peer → Bool
accepts find_pending_only p =
    if find_pending_only
    then peer_disc p && not (p.um_cmd == 0)
    else not (peer_disc p) || not (p.um_cmd == 0)

-- Does the filter take the peer at an index?
unfoldable pub accepts_at : Bool → List Peer → ℕ → Bool
unfolding accepts
accepts_at find_pending_only [] c = false
accepts_at find_pending_only (p ∷ peers) zero = accepts find_pending_only p
accepts_at find_pending_only (p ∷ peers) (suc c) = accepts_at find_pending_only peers c

-- `c_peer->next`, past the head of the list.
abbrev pub successor : ℕ → ℕ → ℕ
successor n c = if c + 1 == n then 0 else c + 1

-- The `do` loop, for a number of rounds.
unfoldable pub next_peer_loop : (ℕ → Bool) → ℕ → ℕ → ℕ → ℕ → ℕ
next_peer_loop accept n start zero c = c
next_peer_loop accept n start (suc rounds) c =
    let c_peer = successor n c in
    let rest = next_peer_loop accept n start rounds c_peer in
    if accept c_peer then c_peer else if c_peer == start then c_peer else rest

-- `ioHdlcNextPeer`: the loop is back at its start after as many rounds as there are peers.
unfoldable pub next_peer : Bool → List Peer → ℕ → ℕ
unfolding accepts_at next_peer_loop
next_peer find_pending_only peers c_peer =
    let n = length peers in
    if n == 0 then c_peer else next_peer_loop (accepts_at find_pending_only peers) n c_peer n c_peer

-- How many steps lead from one index to another, at least one.
unfoldable distance : ℕ → ℕ → ℕ → ℕ
distance n c i = if ltb c i then i - c else i + n - c

module _ (accept : ℕ → Bool) (n i : ℕ) (here : i < n) (wanted : accept i ≡ true) where
  -- The result is the peer `i`, or stands before it.
  abbrev Nearer : ℕ → ℕ → Type 0
  Nearer c r = (r < n) × ((r ≡ i) ⊎ (distance n r i < distance n c i))

  distance-successor :
      (c : ℕ) → c < n → (successor n c ≡ i) ⊎ (distance n (successor n c) i + 1 ≡ distance n c i)
  unfolding distance
  distance-successor c h = ground arith

  successor-lt : (c : ℕ) → c < n → successor n c < n
  successor-lt c h = ground arith

  distance-le : (c : ℕ) → c < n → distance n c i ≤ n
  unfolding distance
  distance-le c h = ground arith

  distance-pos : (c : ℕ) → c < n → 0 < distance n c i
  unfolding distance
  distance-pos c h = ground arith

  still_closer : (c d r : ℕ) → distance n d i < distance n c i → Nearer d r → Nearer c r
  still_closer c d r less (lt, inl e) = (lt, inl e)
  still_closer c d r less (lt, inr near) = (lt, inr (omega arith))

  loop_finds :
      (start rounds c : ℕ)
      → c < n
      → distance n c i ≤ rounds
      → distance n c i ≤ distance n start i
      → Nearer c (next_peer_loop accept n start rounds c)
  unfolding next_peer_loop
  loop_finds start zero c h enough before = absurd (let p = distance-pos c h in omega arith)
  loop_finds start (suc rounds) c h enough before = elim (distance-successor c h) [
    | inl e ↦ rw (subst (λ t. accept t ≡ true) (sym e) wanted) (successor-lt c h, inl e)
    | inr e ↦
        let c_peer = successor n c in
        let less : Nearer c c_peer = (successor-lt c h, inr (omega arith)) in
        if-elim (Nearer c) (accept c_peer) _ _ less (
          if_known (Nearer c) (c_peer == start) _ _ (λ _. less)
            (λ _.
              still_closer c c_peer _ (omega arith)
                (loop_finds start rounds c_peer (successor-lt c h) (omega arith) (omega arith))))
  ]

  next_peer_loop-Nearer : (c : ℕ) → c < n → Nearer c (next_peer_loop accept n c n c)
  next_peer_loop-Nearer c h = loop_finds c n c h (distance-le c h) (omega arith)

-- The current peer after a number of calls.
abbrev pub turns_on : ℕ → Bool → List Peer → ℕ → ℕ
turns_on zero find_pending_only peers c = c
turns_on (suc k) find_pending_only peers c =
    turns_on k find_pending_only peers (next_peer find_pending_only peers c)

-- What is reached within some calls.
abbrev Reached : Bool → List Peer → ℕ → ℕ → ℕ → Type 0
Reached find peers i bound c = (k : ℕ) × (0 < k) × (k ≤ bound) × (turns_on k find peers c ≡ i)

module _ (find : Bool) (peers : List Peer) (i : ℕ) (here : i < length peers)
    (wanted : accepts_at find peers i ≡ true) where
  next_peer-Nearer :
      (c : ℕ)
      → c < length peers
      → Nearer (accepts_at find peers) (length peers) i here wanted c (next_peer find peers c)
  unfolding next_peer
  next_peer-Nearer c h =
      let some_peer : (length peers == 0) ≡ false = ground arith in
      rw some_peer (next_peer_loop-Nearer (accepts_at find peers) (length peers) i here wanted c h)

  reached :
      (bound c : ℕ)
      → c < length peers
      → distance (length peers) c i ≤ bound
      → Reached find peers i bound c
  reached zero c h near =
      absurd (
        let p = distance-pos (accepts_at find peers) (length peers) i here wanted c h in
        omega arith)
  reached (suc bound) c h near =
      let (lt, closer) = next_peer-Nearer c h in
      elim closer [
        | inl e ↦ (1, omega arith, omega arith, e)
        | inr less ↦
            let (k, pos, le, e) = reached bound (next_peer find peers c) lt (omega arith) in
            (suc k, omega arith, omega arith, e)
      ]

-- The round robin starves no peer: from whatever peer, each peer that the filter takes becomes the
-- current one within as many calls as there are peers.
pub next_peer-reaches :
    (find_pending_only : Bool) (peers : List Peer) (i c : ℕ)
    → i < length peers
    → accepts_at find_pending_only peers i ≡ true
    → c < length peers
    → (k : ℕ) × (0 < k) × (k ≤ length peers) × (turns_on k find_pending_only peers c ≡ i)
next_peer-reaches find peers i c here wanted h =
    reached find peers i here wanted (length peers) c h
      (distance-le (accepts_at find peers) (length peers) i here wanted c h)
