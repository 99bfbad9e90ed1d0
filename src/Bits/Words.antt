-- ===== src/Bits/Words.antt =====
-- Bytes, the words that they make, and BitTest.
use native.Mathlib.Nat.{add-zero, zero-add}
use open_t_kernel.Base.{ℕ, ◌≡◌, ◌<◌, ◌+◌, ◌-◌, ◌*◌, ◌/◌, ◌%◌, ◌^◌, sym, ap, ap₂, ◌∙◌, arith, dec_lt}
use open_t_kernel.Bits.{Bytes, bit_test, word}
use open_t_kernel.Bits.Digits.{bit, bit-div, bit-mod}

-- Every cell holds a byte.
abbrev pub IsBytes : Bytes → Type 0
IsBytes base = (i : ℕ) → base i < 256

pub bit_test-bit : (base : Bytes) (i : ℕ) → bit_test base i ≡ bit (base (i / 8)) (i % 8)
unfolding bit_test
bit_test-bit base i =
    sym (bit-div (i % 8) (base (i / 8)) 0) ∙ ap (bit (base (i / 8))) (zero-add (i % 8))

-- Digit `8 * q + r` of a word is digit `r` of its byte `q`.
byte_of :
    (base : Bytes) (i q r x : ℕ)
    → r < 8
    → (word base i / 2 ^ (8 * q)) % 2 ^ 8 ≡ base (4 * i + q)
    → x ≡ r + 8 * q
    → bit (word base i) x ≡ bit (base (4 * i + q)) r
byte_of base i q r x l h e =
    ap (bit (word base i)) e
    ∙ (bit-div (8 * q) (word base i) r
        ∙ (sym (bit-mod 8 (word base i / 2 ^ (8 * q)) r l) ∙ ap (λ b. bit b r) h))

module _ (base : Bytes) (b : IsBytes base) (i : ℕ) where
  pub word-lt : word base i < 2 ^ 32
  unfolding word
  word-lt = omega (arith, b (4 * i), b (4 * i + 1), b (4 * i + 2), b (4 * i + 3))

  byte_zero : (word base i / 2 ^ (8 * 0)) % 2 ^ 8 ≡ base (4 * i + 0)
  unfolding word
  byte_zero =
      rw (add-zero (4 * i)) (omega (arith, b (4 * i), b (4 * i + 1), b (4 * i + 2), b (4 * i + 3)))

  byte_one : (word base i / 2 ^ (8 * 1)) % 2 ^ 8 ≡ base (4 * i + 1)
  unfolding word
  byte_one = omega (arith, b (4 * i), b (4 * i + 1), b (4 * i + 2), b (4 * i + 3))

  byte_two : (word base i / 2 ^ (8 * 2)) % 2 ^ 8 ≡ base (4 * i + 2)
  unfolding word
  byte_two = omega (arith, b (4 * i), b (4 * i + 1), b (4 * i + 2), b (4 * i + 3))

  byte_three : (word base i / 2 ^ (8 * 3)) % 2 ^ 8 ≡ base (4 * i + 3)
  unfolding word
  byte_three = omega (arith, b (4 * i), b (4 * i + 1), b (4 * i + 2), b (4 * i + 3))

  at_byte :
      (q r x : ℕ)
      → x ≡ r + 8 * q
      → q < 4
      → r < 8
      → bit (base (4 * i + q)) r ≡ bit_test base (32 * i + x)
  at_byte q r x e l k =
      let p : (32 * i + x) / 8 ≡ 4 * i + q = omega (arith, e) in
      let o : (32 * i + x) % 8 ≡ r = omega (arith, e) in
      sym (bit_test-bit base (32 * i + x) ∙ ap₂ (λ (a c : ℕ). bit (base a) c) p o)

  -- The digits of a word are those of its four bytes.
  pub bit-word : (x : ℕ) → x < 32 → bit (word base i) x ≡ bit_test base (32 * i + x)
  bit-word x l = elim (dec_lt x 8) [
    | yes p ↦
        byte_of base i 0 x x p byte_zero (omega arith) ∙ at_byte 0 x x (omega arith) (omega arith) p
    | no p ↦ elim (dec_lt x 16) [
      | yes q ↦
          byte_of base i 1 (x - 8) x (omega arith) byte_one (omega arith)
          ∙ at_byte 1 (x - 8) x (omega arith) (omega arith) (omega arith)
      | no q ↦ elim (dec_lt x 24) [
        | yes s ↦
            byte_of base i 2 (x - 16) x (omega arith) byte_two (omega arith)
            ∙ at_byte 2 (x - 16) x (omega arith) (omega arith) (omega arith)
        | no s ↦
            byte_of base i 3 (x - 24) x (omega arith) byte_three (omega arith)
            ∙ at_byte 3 (x - 24) x (omega arith) (omega arith) (omega arith)
      ]
    ]
  ]
