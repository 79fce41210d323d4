-- ===== src/Control/Stamp.antt =====
-- The control field after N(R) and the P/F bit have been written into it.
use native.Mathlib.Nat.{add-zero}
use io_hdlc.Base.{
  ℕ, ◌+◌, ◌/◌, ◌<◌, bit_and, Bool, true, false, ◌&&◌, List, ◌≡◌, ◌≢◌, ◌∙◌, refl, ap, arith, length,
  get_or, set, length-set, get_or-set_self, get_or-set_ne, ◌==◌, if◌then◌else◌,
}
use io_hdlc.Base.Bits.{tabulated, tabulated_at}
use io_hdlc.State.{Framing}
use io_hdlc.Control.{nr_octet, pf_octet, set_nr_in_ctrl, set_pf_in_ctrl}

-- The framing of modulo 8 and of modulo 128, behind `offset` octets of a frame format field.
abbrev pub modulo_8 : ℕ → Framing
modulo_8 offset = record { modmask = 7; pfoctet = 0; ctrl_size = 1; frame_offset = offset }

abbrev pub modulo_128 : ℕ → Framing
modulo_128 offset = record { modmask = 127; pfoctet = 1; ctrl_size = 2; frame_offset = offset }

-- What a control octet of modulo 8 keeps and shows after both fields have been written.
abbrev shows_8 : ℕ → ℕ → Bool → ℕ → Bool
shows_8 ctrl nr pf after =
    (bit_and after 0x0f == bit_and ctrl 0x0f)
    && (bit_and after 0x0c == bit_and ctrl 0x0c)
    && (bit_and (after / 32) 0x07 == nr)
    && (bit_and after 0x10 == (if pf then 0x10 else 0))

shown_8 :
    tabulated 256 (λ c. tabulated 8 (λ nr.
      shows_8 c nr true (pf_octet (modulo_8 0) (nr_octet (modulo_8 0) c nr) true)
      && shows_8 c nr false (pf_octet (modulo_8 0) (nr_octet (modulo_8 0) c nr) false)))
    ≡ true
unfolding tabulated pf_octet nr_octet
shown_8 = refl

-- The second octet of modulo 128.
abbrev shows_128 : ℕ → Bool → ℕ → Bool
shows_128 nr pf after =
    (bit_and (after / 2) 0x7f == nr) && (bit_and after 0x01 == (if pf then 0x01 else 0))

shown_128 :
    tabulated 256 (λ c. tabulated 128 (λ nr.
      shows_128 nr true (pf_octet (modulo_128 0) (nr_octet (modulo_128 0) c nr) true)
      && shows_128 nr false (pf_octet (modulo_128 0) (nr_octet (modulo_128 0) c nr) false)))
    ≡ true
unfolding tabulated pf_octet nr_octet
shown_128 = refl

either_way : (p : Bool → Bool) (b : Bool) → (p true && p false) ≡ true → p b ≡ true
either_way p true h = ground arith
either_way p false h = ground arith

-- A control octet of modulo 8 that shows what it should.
record Shows8 (ctrl nr : ℕ) (pf : Bool) (after : ℕ) : Type 0 where
  kept : bit_and after 0x0f ≡ bit_and ctrl 0x0f
  function : bit_and after 0x0c ≡ bit_and ctrl 0x0c
  number : bit_and (after / 32) 0x07 ≡ nr
  poll : bit_and after 0x10 ≡ (if pf then 0x10 else 0)

shows_8_parts :
    (ctrl nr : ℕ) (pf : Bool) (after : ℕ)
    → shows_8 ctrl nr pf after ≡ true
    → Shows8 ctrl nr pf after
shows_8_parts ctrl nr pf after h = record {
  kept = ground arith;
  function = ground arith;
  number = ground arith;
  poll = ground arith;
}

shows_128_parts :
    (nr : ℕ) (pf : Bool) (after : ℕ)
    → shows_128 nr pf after ≡ true
    → (bit_and (after / 2) 0x7f ≡ nr) × (bit_and after 0x01 ≡ (if pf then 0x01 else 0))
shows_128_parts nr pf after h = (ground arith, ground arith)

module _ (o : ℕ) (buf : List ℕ) (nr : ℕ) (pf : Bool) where
  -- The buffer after `setNRInCtrl` and `setPFInCtrl`.
  abbrev pub stamped_8 : List ℕ
  stamped_8 = set_pf_in_ctrl (modulo_8 o) (o + 1) (set_nr_in_ctrl (modulo_8 o) (o + 1) buf nr) pf

  abbrev pub stamped_128 : List ℕ
  stamped_128 =
      set_pf_in_ctrl (modulo_128 o) (o + 1) (set_nr_in_ctrl (modulo_128 o) (o + 1) buf nr) pf

  pub record IsStamped8 : Type 0 where
    pub kept : bit_and (get_or stamped_8 (o + 1) 0) 0x0f ≡ bit_and (get_or buf (o + 1) 0) 0x0f
    pub function : bit_and (get_or stamped_8 (o + 1) 0) 0x0c ≡ bit_and (get_or buf (o + 1) 0) 0x0c
    pub number : bit_and (get_or stamped_8 (o + 1) 0 / 32) 0x07 ≡ nr
    pub poll : bit_and (get_or stamped_8 (o + 1) 0) 0x10 ≡ (if pf then 0x10 else 0)
    pub others : (j : ℕ) → o + 1 ≢ j → get_or stamped_8 j 0 ≡ get_or buf j 0
    pub size : length stamped_8 ≡ length buf

  pub record IsStamped128 : Type 0 where
    pub number : bit_and (get_or stamped_128 (o + 2) 0 / 2) 0x7f ≡ nr
    pub poll : bit_and (get_or stamped_128 (o + 2) 0) 0x01 ≡ (if pf then 0x01 else 0)
    pub others : (j : ℕ) → o + 2 ≢ j → get_or stamped_128 j 0 ≡ get_or buf j 0
    pub size : length stamped_128 ≡ length buf

  second : o + 1 + 1 ≡ o + 2
  second = omega arith

  octet_8 :
      o + 1 < length buf
      → get_or stamped_8 (o + 1) 0
        ≡ pf_octet (modulo_8 o) (nr_octet (modulo_8 o) (get_or buf (o + 1) 0) nr) pf
  unfolding set_pf_in_ctrl set_nr_in_ctrl
  octet_8 room =
      let mid = nr_octet (modulo_8 o) (get_or buf (o + 1) 0) nr in
      let numbered = set buf (o + 1) mid in
      rw add-zero (
        get_or-set_self numbered (o + 1) _ 0 (omega (arith, length-set buf (o + 1) mid))
        ∙ ap (λ t. pf_octet (modulo_8 o) t pf) (get_or-set_self buf (o + 1) mid 0 room))

  pub stamp_8 : get_or buf (o + 1) 0 < 256 → nr < 8 → o + 1 < length buf → IsStamped8
  unfolding set_pf_in_ctrl set_nr_in_ctrl
  stamp_8 octet small room =
      let old = get_or buf (o + 1) 0 in
      let table = tabulated_at 8 _ nr (tabulated_at 256 _ old shown_8 octet) small in
      let new = λ (b : Bool). pf_octet (modulo_8 o) (nr_octet (modulo_8 o) old nr) b in
      let parts =
        shows_8_parts old nr pf (new pf) (either_way (λ b. shows_8 old nr b (new b)) pf table) in
      let value = octet_8 room in
      record {
        kept = ap (λ t. bit_and t 0x0f) value ∙ parts.kept;
        function = ap (λ t. bit_and t 0x0c) value ∙ parts.function;
        number = ap (λ t. bit_and (t / 32) 0x07) value ∙ parts.number;
        poll = ap (λ t. bit_and t 0x10) value ∙ parts.poll;
        others = λ j ne. rw add-zero (
            get_or-set_ne (set buf (o + 1) _) (o + 1) j _ 0 ne
            ∙ get_or-set_ne buf (o + 1) j _ 0 ne);
        size = rw add-zero (length-set (set buf (o + 1) _) (o + 1) _ ∙ length-set buf (o + 1) _);
      }

  octet_128 :
      o + 2 < length buf
      → get_or stamped_128 (o + 2) 0
        ≡ pf_octet (modulo_128 o) (nr_octet (modulo_128 o) (get_or buf (o + 2) 0) nr) pf
  unfolding set_pf_in_ctrl set_nr_in_ctrl
  octet_128 room =
      let mid = nr_octet (modulo_128 o) (get_or buf (o + 2) 0) nr in
      let numbered = set buf (o + 2) mid in
      rw second (
        get_or-set_self numbered (o + 2) _ 0 (omega (arith, length-set buf (o + 2) mid))
        ∙ ap (λ t. pf_octet (modulo_128 o) t pf) (get_or-set_self buf (o + 2) mid 0 room))

  pub stamp_128 : get_or buf (o + 2) 0 < 256 → nr < 128 → o + 2 < length buf → IsStamped128
  unfolding set_pf_in_ctrl set_nr_in_ctrl
  stamp_128 octet small room =
      let old = get_or buf (o + 2) 0 in
      let table = tabulated_at 128 _ nr (tabulated_at 256 _ old shown_128 octet) small in
      let new = λ (b : Bool). pf_octet (modulo_128 o) (nr_octet (modulo_128 o) old nr) b in
      let parts =
        shows_128_parts nr pf (new pf) (either_way (λ b. shows_128 nr b (new b)) pf table) in
      let value = octet_128 room in
      record {
        number = ap (λ t. bit_and (t / 2) 0x7f) value ∙ parts.0;
        poll = ap (λ t. bit_and t 0x01) value ∙ parts.1;
        others = λ j ne. rw second (
            get_or-set_ne (set buf (o + 2) _) (o + 2) j _ 0 ne
            ∙ get_or-set_ne buf (o + 2) j _ 0 ne);
        size = rw second (length-set (set buf (o + 2) _) (o + 2) _ ∙ length-set buf (o + 2) _);
      }
