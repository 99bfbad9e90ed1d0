-- ===== src/Bits/Store.antt =====
-- BitSet and BitClr change one bit.
use Prim.Native.Nat.{bit_and, bit_or}
use open_t_kernel.Base.{
  ℕ, ◌≡◌, ◌<◌, ◌-◌, ◌/◌, ◌%◌, ◌^◌, refl, sym, ap, ap₂, ◌∙◌, arith, Bool, true, false, ◌==◌, ◌&&◌,
  ◌||◌, not, ltb, Bool-cases, inl, inr, ==_iff, every, every_lem,
}
use open_t_kernel.Bits.{Bytes, bit_test, bit_set, bit_clr}
use open_t_kernel.Bits.Digits.{bit}
use open_t_kernel.Bits.Words.{IsBytes, bit_test-bit}

same : Bool → Bool → Bool
same true b = b
same false b = not b

same_eq : (a b : Bool) → same a b ≡ true → a ≡ b
unfolding same
same_eq true b h = sym h
same_eq false true h = cc
same_eq false false h = refl

set_right : ℕ → ℕ → ℕ → Bool
set_right b i j = same (bit (bit_or b (2 ^ i)) j) (j == i || bit b j) && ltb (bit_or b (2 ^ i)) 256

clr_right : ℕ → ℕ → ℕ → Bool
clr_right b i j =
    same (bit (bit_and b (255 - 2 ^ i)) j) (not (j == i) && bit b j)
    && ltb (bit_and b (255 - 2 ^ i)) 256

set_table : every 256 (λ b. every 8 (λ i. every 8 (λ j. set_right b i j))) ≡ true
unfolding set_right same
set_table = refl

clr_table : every 256 (λ b. every 8 (λ i. every 8 (λ j. clr_right b i j))) ≡ true
unfolding clr_right same
clr_table = refl

-- A table of bytes and two places in them, read at one entry.
read_table :
    (f : ℕ → ℕ → ℕ → Bool)
    → every 256 (λ b. every 8 (λ i. every 8 (λ j. f b i j))) ≡ true
    → (b i j : ℕ) → b < 256
    → i < 8
    → j < 8
    → f b i j ≡ true
read_table f t b i j p q r =
    every_lem 8 (f b i) j
      (every_lem 8 (λ x. every 8 (f b x)) i
        (every_lem 256 (λ y. every 8 (λ x. every 8 (f y x))) b t p) q)
      r

both : (a b : Bool) → (a && b) ≡ true → (a ≡ true) × (b ≡ true)
both true b h = (refl, h)
both false b h = cc

module _ (b i j : ℕ) (p : b < 256) (q : i < 8) (r : j < 8) where
  bit-set_byte : (bit (bit_or b (2 ^ i)) j ≡ (j == i || bit b j)) × (bit_or b (2 ^ i) < 256)
  unfolding set_right
  bit-set_byte =
      let (s, l) = both _ _ (read_table set_right set_table b i j p q r) in
      (same_eq _ _ s, ground arith)

  bit-clr_byte :
      (bit (bit_and b (255 - 2 ^ i)) j ≡ (not (j == i) && bit b j))
      × (bit_and b (255 - 2 ^ i) < 256)
  unfolding clr_right
  bit-clr_byte =
      let (s, l) = both _ _ (read_table clr_right clr_table b i j p q r) in
      (same_eq _ _ s, ground arith)

module _ (base : Bytes) (b : IsBytes base) (p : ℕ) where
  pub bit_set-IsBytes : IsBytes (bit_set base p)
  unfolding bit_set
  bit_set-IsBytes i = ground (
    arith,
    b i,
    (bit-set_byte (base (p / 8)) (p % 8) 0 (b (p / 8)) (omega arith) (omega arith)).1,
  )

  pub bit_clr-IsBytes : IsBytes (bit_clr base p)
  unfolding bit_clr
  bit_clr-IsBytes i = ground (
    arith,
    b i,
    (bit-clr_byte (base (p / 8)) (p % 8) 0 (b (p / 8)) (omega arith) (omega arith)).1,
  )

  same_place : (q : ℕ) → q / 8 ≡ p / 8 → (q % 8 == p % 8) ≡ (q == p)
  same_place q e = ground (arith, e)

  -- BitSet sets the bit, and no other.
  pub bit_test-bit_set : (q : ℕ) → bit_test (bit_set base p) q ≡ (q == p || bit_test base q)
  unfolding bit_set
  bit_test-bit_set q =
      let x = bit-set_byte (base (p / 8)) (p % 8) (q % 8) (b (p / 8)) (omega arith) (omega arith) in
      elim (Bool-cases (q / 8 == p / 8)) [
        | inl e ↦
            let e' : q / 8 ≡ p / 8 = (==_iff (q / 8) (p / 8)).0 e in
            rw (bit_test-bit, bit_test-bit base q, e)
              (x.0 ∙ ap₂ ◌||◌ (same_place q e') (ap (λ a. bit (base a) (q % 8)) (sym e')))
        | inr e ↦ rw (bit_test-bit, bit_test-bit base q, e) (ground arith)
      ]

  -- BitClr clears the bit, and no other.
  pub bit_test-bit_clr : (q : ℕ) → bit_test (bit_clr base p) q ≡ (not (q == p) && bit_test base q)
  unfolding bit_clr
  bit_test-bit_clr q =
      let x = bit-clr_byte (base (p / 8)) (p % 8) (q % 8) (b (p / 8)) (omega arith) (omega arith) in
      elim (Bool-cases (q / 8 == p / 8)) [
        | inl e ↦
            let e' : q / 8 ≡ p / 8 = (==_iff (q / 8) (p / 8)).0 e in
            rw (bit_test-bit, bit_test-bit base q, e)
              (x.0
                ∙ ap₂ (λ (u v : Bool). not u && v) (same_place q e')
                    (ap (λ a. bit (base a) (q % 8)) (sym e')))
        | inr e ↦ rw (bit_test-bit, bit_test-bit base q, e) (ground arith)
      ]
