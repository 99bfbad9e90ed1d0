-- ===== src/Bits/Search1.antt =====
-- BitSearch1_w finds the first 1 of a part of a bit string.
use open_t_kernel.Base.{
  ℕ, zero, suc, ◌≡◌, ◌≢◌, ◌≤◌, ◌<◌, ◌+◌, ◌-◌, ◌*◌, ◌/◌, ◌%◌, ◌^◌, sym, ap, ◌∙◌, arith, true, false,
  ◌==◌, ltb, leb, Bool-cases, inl, inr, if◌then◌else◌, dec_lt, subst,
}
use open_t_kernel.Bits.{
  Bytes, bit_test, word, lowest, Search, found, absent, overflow, out_of_fuel, search_loop,
  bit_search1_w,
}
use open_t_kernel.Bits.Digits.{bit, bit-zero, bit-cleared, bit-cleared_low}
use open_t_kernel.Bits.Lowest.{lowest_lem}
use open_t_kernel.Bits.Words.{IsBytes, word-lt, bit-word}

-- The answer to a search for a 1 among `width` bits from `offset` on.
abbrev pub FirstOne : Bytes → ℕ → ℕ → Search → Type 0
FirstOne base offset width (found i) =
    (i < width)
    × (bit_test base (offset + i) ≡ true)
    × ((j : ℕ) → j < i → bit_test base (offset + j) ≡ false)
FirstOne base offset width absent = (j : ℕ) → j < width → bit_test base (offset + j) ≡ false
FirstOne base offset width overflow = ⊥
FirstOne base offset width out_of_fuel = ⊥

-- How many digits of the word in hand lie before `offset`.
abbrev before : ℕ → ℕ → ℕ
before skip position = if position == 0 then skip else 0

-- The state of the loop: `v` is word `cp` without the digits before `offset`, and `position` bits were
-- seen, all of them 0.
record Scanned (base : Bytes) (offset skip cp v position : ℕ) : Type 0 where
  place : 32 * cp + before skip position ≡ offset + position
  small : before skip position < 32
  word_lt : v < 2 ^ 32
  digits : (x : ℕ) → x < 32 → before skip position ≤ x → bit v x ≡ bit_test base (32 * cp + x)
  cleared : (x : ℕ) → x < before skip position → bit v x ≡ false
  seen : (j : ℕ) → j < position → bit_test base (offset + j) ≡ false

module _ (base : Bytes) (b : IsBytes base) (offset skip cp v position : ℕ)
    (s : Scanned base offset skip cp v position) where
  -- The digits of the word that are 0 are bits that are 0.
  zero_bits :
      (d : ℕ)
      → d ≤ 32
      → ((x : ℕ) → x < d → bit v x ≡ false)
      → (j : ℕ) → offset + j < 32 * cp + d
      → bit_test base (offset + j) ≡ false
  zero_bits d l z j h = elim (dec_lt j position) [
    | yes p ↦ s.seen j p
    | no p ↦
        let x : ℕ = offset + j - 32 * cp in
        let e : 32 * cp + x ≡ offset + j = omega (arith, s.place) in
        subst (λ y. bit_test base y ≡ false) e
          (sym (s.digits x (omega arith) (omega (arith, s.place))) ∙ z x (omega arith))
  ]

  abbrev next_position : ℕ
  next_position = if position == 0 then 32 - skip else position + 32

  next_before : before skip next_position ≡ 0
  next_before = ground (arith, s.small)

  next_place : 32 * (cp + 1) ≡ offset + next_position
  next_place = ground (arith, s.place, s.small)

  -- On to the next word.
  next_Scanned : v ≡ 0 → Scanned base offset skip (cp + 1) (word base (cp + 1)) next_position
  next_Scanned z = record {
    place = rw next_before (omega (arith, next_place));
    small = rw next_before (omega arith);
    word_lt = word-lt base b (cp + 1);
    digits = λ x l h. bit-word base b (cp + 1) x l;
    cleared = λ x h. absurd (omega (arith, next_before));
    seen = λ j h.
        zero_bits 32 (omega arith) (λ x l. ap (λ (y : ℕ). bit y x) z ∙ bit-zero x) j
          (omega (arith, next_place));
  }

  farther : position < next_position
  farther = ground (arith, s.small)

  fits_W : (width : ℕ) → position < width → width + 32 ≤ 2 ^ 31 → leb (2 ^ 31) next_position ≡ false
  fits_W width l w = ground (arith, l, w)

  -- The answer where the word is not 0.
  answer :
      (width : ℕ)
      → v ≢ 0
      → position < width
      → width + 32 ≤ 2 ^ 31
      → let at = lowest v position - before skip position in
        FirstOne base offset width
          (if leb (2 ^ 31) at then overflow else if ltb at width then found at else absent)
  answer width z l small_width =
      let (d, (p, q, one, zeros)) = lowest_lem v position z s.word_lt in
      let at : ℕ = lowest v position - before skip position in
      let after : before skip position ≤ d = above d one in
      let e : offset + at ≡ 32 * cp + d = omega (arith, s.place, p, after) in
      let fits : leb (2 ^ 31) at ≡ false = ground (arith, p, q, l, small_width) in
      rw fits (elim (Bool-cases (ltb at width)) [
        | inl t ↦ rw t (
          ground arith,
          subst (λ y. bit_test base y ≡ true) (sym e) (sym (s.digits d q after) ∙ one),
          λ j h. zero_bits d (omega arith) zeros j (omega (arith, e)),
        )
        | inr t ↦ rw t (λ j h. zero_bits d (omega arith) zeros j (ground (arith, e)))
      ])
    where
      above : (d : ℕ) → bit v d ≡ true → before skip position ≤ d
      above d one = elim (dec_lt d (before skip position)) [
        | yes h ↦ (let p = sym one ∙ s.cleared d h in cc)
        | no h ↦ omega arith
      ]

search_loop_lem :
    (fuel : ℕ) (base : Bytes) (offset skip width cp v position : ℕ)
    → IsBytes base
    → Scanned base offset skip cp v position
    → width + 32 ≤ 2 ^ 31
    → width - position < fuel
    → FirstOne base offset width (search_loop fuel base skip width cp v position)
unfolding search_loop
search_loop_lem zero base offset skip width cp v position b s w f = absurd (omega arith)
search_loop_lem (suc fuel) base offset skip width cp v position b s w f =
    elim (Bool-cases (ltb position width)) [
      | inr l ↦ rw l (λ j h. s.seen j (ground arith))
      | inl l ↦ elim (Bool-cases (v == 0)) [
        | inl z ↦
            let p : position < width = ground arith in
            rw (l, z, fits_W base b offset skip cp v position s width p w)
              (search_loop_lem fuel base offset skip width (cp + 1) (word base (cp + 1))
                (next_position base b offset skip cp v position s) b
                (next_Scanned base b offset skip cp v position s (ground arith)) w
                (ground (arith, farther base b offset skip cp v position s)))
        | inr z ↦
            rw (l, z)
              (answer base b offset skip cp v position s width (ground arith) (ground arith) w)
      ]
    ]

first_Scanned :
    (base : Bytes) (offset : ℕ)
    → IsBytes base
    → let cp = offset / 32 in
      let skip = offset % 32 in
      Scanned base offset skip cp
        (if skip == 0 then word base cp else word base cp - word base cp % 2 ^ skip)
        0
first_Scanned base offset b =
    let cp = offset / 32 in
    let skip = offset % 32 in
    let w = word base cp in
    let small : skip < 32 = omega arith in
    let place : 32 * cp + skip ≡ offset + 0 = omega arith in
    elim (Bool-cases (skip == 0)) [
      | inl z ↦
          let e : skip ≡ 0 = ground arith in
          rw z (record {
            place = place;
            small = small;
            word_lt = word-lt base b cp;
            digits = λ x l h. bit-word base b cp x l;
            cleared = λ x h. absurd (omega (arith, e));
            seen = λ j h. absurd (omega arith);
          })
      | inr z ↦ rw z (record {
        place = place;
        small = small;
        word_lt = omega (arith, word-lt base b cp);
        digits = λ x l h.
            let e : x ≡ x - skip + skip = omega arith in
            subst (λ y. bit (w - w % 2 ^ skip) y ≡ bit_test base (32 * cp + x)) (sym e)
              (bit-cleared skip w (x - skip) ∙ (ap (bit w) (sym e) ∙ bit-word base b cp x l));
        cleared = λ x h. bit-cleared_low skip w x h;
        seen = λ j h. absurd (omega arith);
      })
    ]

-- BitSearch1_w of at most 2 ^ 31 - 32 bits ends without an overflow: with the place of the first 1, counted from
-- `offset`, of the `width` bits from there on, or with -1 where they are all 0.
pub bit_search1_w-FirstOne :
    (base : Bytes) (offset width : ℕ)
    → IsBytes base
    → width + 32 ≤ 2 ^ 31
    → FirstOne base offset width (bit_search1_w base offset width)
unfolding bit_search1_w
bit_search1_w-FirstOne base offset width b w =
    search_loop_lem (width + 1) base offset (offset % 32) width (offset / 32) _ 0 b
      (first_Scanned base offset b) w (omega arith)
