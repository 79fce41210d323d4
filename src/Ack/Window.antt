-- ===== src/Ack/Window.antt =====
-- The transmit window of a peer: the frames that are sent and not acknowledged stand in
-- `i_retrans_q`, and those of them that will be sent again stand first in `i_trans_q`.
use io_hdlc.Base.{
  ℕ, ◌+◌, ◌-◌, ◌%◌, ◌^◌, ◌≤◌, ◌<◌, List, [], ◌∷◌, ◌++◌, ◌≡◌, ◌∙◌, ◌⊎◌, inl, inr, arith, length, All,
  true, false,
}
use io_hdlc.Base.Bits.{and_mask}
use io_hdlc.State.{Framing, Frame, Peer}
use io_hdlc.Control.{extract_ns}
use io_hdlc.Control.RoundTrip.{HasRoom}
use io_hdlc.Control.Numbering.{is_numbered}
use io_hdlc.Ack.{offset, next_number}

-- Sequence numbers are modulo 8 or modulo 128.
abbrev pub Modulus : Framing → Type 0
Modulus f = (f.modmask ≡ 7) ⊎ (f.modmask ≡ 127)

-- The number that stands `k` behind `n`.
abbrev pub advance : Framing → ℕ → ℕ → ℕ
advance f n k = (n + k) % (f.modmask + 1)

-- A frame that has been sent as the I-frame number `n`.
pub record IsSentAs (f : Framing) (n : ℕ) (fp : Frame) : Type 0 where
  pub number : extract_ns f fp ≡ n
  pub marked : is_numbered f fp ≡ true
  pub space : HasRoom f fp

-- A frame that has not been sent.
pub record IsUnsent (f : Framing) (fp : Frame) : Type 0 where
  pub unmarked : is_numbered f fp ≡ false
  pub space : HasRoom f fp

-- The frames carry consecutive N(S), from `n` on.
unfoldable pub Numbered : Framing → ℕ → List Frame → Type 0
Numbered f n [] = Unit
Numbered f n (fp ∷ q) = IsSentAs f n fp × Numbered f (advance f n 1) q

pub record IsWindowAt (f : Framing) (retrans trans : List Frame)
    (nr vs vs_highest pending_count : ℕ) (resend fresh : List Frame) : Type 0 where
  pub queued : trans ≡ resend ++ fresh
  pub numbered : Numbered f nr (retrans ++ resend)
  pub sent : vs ≡ advance f nr (length retrans)
  pub highest : vs_highest ≡ advance f nr (length retrans + length resend)
  pub size : length retrans + length resend ≤ f.modmask
  pub range : nr ≤ f.modmask
  pub pending : pending_count ≡ length retrans + length trans
  pub pending_lt : pending_count < 2 ^ 32
  pub unsent : All (IsUnsent f) fresh

-- The window of a peer in which `resend` will be sent again and `fresh` was never sent.
abbrev pub IsWindow : Framing → Peer → List Frame → List Frame → Type 0
IsWindow f p resend fresh =
    IsWindowAt f p.i_retrans_q p.i_trans_q p.nr p.vs p.vs_highest p.i_pending_count resend fresh

-- A peer has a window whose frames not yet sent are `fresh`.
abbrev pub HasWindow : Framing → List Frame → Peer → Type 0
HasWindow f fresh p = (resend : List Frame) × IsWindow f p resend fresh

module _ (f : Framing) (m : Modulus f) where
  pub next_number_lem : (n : ℕ) → next_number f n ≡ advance f n 1
  unfolding next_number
  next_number_lem n = elim m [
    | inl e ↦ rw e (and_mask 3 (n + 1))
    | inr e ↦ rw e (and_mask 7 (n + 1))
  ]

  pub advance-le : (n k : ℕ) → advance f n k ≤ f.modmask
  advance-le n k = elim m [ inl e ↦ rw e (omega arith) | inr e ↦ rw e (omega arith) ]

  pub advance-advance : (n j k : ℕ) → advance f (advance f n j) k ≡ advance f n (j + k)
  advance-advance n j k = elim m [ inl e ↦ rw e (omega arith) | inr e ↦ rw e (omega arith) ]

  pub advance-zero : (n : ℕ) → n ≤ f.modmask → advance f n 0 ≡ n
  advance-zero n = elim m [ inl e ↦ rw e (λ h. omega arith) | inr e ↦ rw e (λ h. omega arith) ]

  pub advance-pos : (n k : ℕ) → n ≤ f.modmask → 0 < k → k ≤ f.modmask → ¬ (n ≡ advance f n k)
  advance-pos n k = elim m [
    | inl e ↦ rw e (λ a b c h. omega arith)
    | inr e ↦ rw e (λ a b c h. omega arith)
  ]

  pub offset-advance : (n k : ℕ) → n ≤ f.modmask → k ≤ f.modmask → offset f (advance f n k) n ≡ k
  unfolding offset
  offset-advance n k = elim m [
    | inl e ↦ rw e (λ a b. and_mask 3 _ ∙ omega arith)
    | inr e ↦ rw e (λ a b. and_mask 7 _ ∙ omega arith)
  ]

  -- Every sequence number stands `offset` behind every other one.
  pub advance-offset : (n k : ℕ) → n ≤ f.modmask → k ≤ f.modmask → advance f n (offset f k n) ≡ k
  unfolding offset
  advance-offset n k = elim m [
    | inl e ↦ rw (e, and_mask 3 ((k + 2 ^ 32 - n) % 2 ^ 32)) (λ a b. omega arith)
    | inr e ↦ rw (e, and_mask 7 ((k + 2 ^ 32 - n) % 2 ^ 32)) (λ a b. omega arith)
  ]

  pub advance-next_number : (n j k : ℕ) → j ≡ 1 + k → advance f (next_number f n) k ≡ advance f n j
  advance-next_number n j k e = rw (e, next_number_lem n) (advance-advance n 1 k)
