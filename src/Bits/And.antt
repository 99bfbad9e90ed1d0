-- ===== src/Bits/And.antt =====
-- Conjunction of words, bit by bit.
use Prim.Native.Nat.{bit_and, digits, bit_and-bitwise, min}
use open_t_kernel.Base.{ℕ, zero, suc, ◌≡◌, ◌≤◌, ◌+◌, ◌*◌, ◌/◌, ◌%◌, refl, sym, arith}

-- The digits of a conjunction do not depend on the number of rounds, if it is enough.
enough_rounds :
    (r s p q : ℕ) → p ≤ r → p ≤ s → digits (λ b. zero) min r p q ≡ digits (λ b. zero) min s p q
enough_rounds zero zero p q a b = refl
enough_rounds zero (suc s) zero q a b = refl
enough_rounds (suc r) zero zero q a b = refl
enough_rounds (suc r) (suc s) zero q a b = refl
enough_rounds zero s (suc p) q a b = absurd (omega arith)
enough_rounds r zero (suc p) q a b = absurd (omega arith)
enough_rounds (suc r) (suc s) (suc p) q a b =
    omega (arith, enough_rounds r s (suc p / 2) (q / 2) (omega arith) (omega arith))

pub bit_and-zero : (q : ℕ) → bit_and 0 q ≡ 0
bit_and-zero q = bit_and-bitwise 0 q

-- The lowest bit, and the others.
pub bit_and-halves : (p q : ℕ) → bit_and p q ≡ min (p % 2) (q % 2) + 2 * bit_and (p / 2) (q / 2)
bit_and-halves zero q = omega (arith, bit_and-zero q, bit_and-zero (q / 2))
bit_and-halves (suc p) q =
    let half = suc p / 2 in
    omega (
      arith,
      enough_rounds p half half (q / 2) (omega arith) (omega arith),
      bit_and-bitwise half (q / 2),
      bit_and-bitwise (suc p) q,
    )

pub bit_and-half : (p q : ℕ) → bit_and p q / 2 ≡ bit_and (p / 2) (q / 2)
bit_and-half p q = omega (arith, bit_and-halves p q)

pub bit_and-lowest : (p q : ℕ) → bit_and p q % 2 ≡ min (p % 2) (q % 2)
bit_and-lowest p q = omega (arith, bit_and-halves p q)

none_left : (n p q w : ℕ) → p ≤ n → bit_and p w ≡ 0 → bit_and (bit_and p q) w ≡ 0
none_left n zero q w l h = rw (bit_and-zero q) (bit_and-zero w)
none_left zero (suc p) q w l h = absurd (omega arith)
none_left (suc n) (suc p) q w l h =
    let x = suc p in
    let rest : bit_and (bit_and x q / 2) (w / 2) ≡ 0 =
      rw (bit_and-half x q)
        (none_left n (x / 2) (q / 2) (w / 2) (omega arith) (omega (arith, bit_and-halves x w))) in
    omega (arith, bit_and-halves (bit_and x q) w, bit_and-lowest x q, rest, bit_and-halves x w)

-- A word that has no bit of `w` has none after some of its bits are cleared.
pub none_after_clear : (p q w : ℕ) → bit_and p w ≡ 0 → bit_and (bit_and p q) w ≡ 0
none_after_clear p q w h = none_left p p q w (omega arith) h

all_before : (n p q w : ℕ) → p ≤ n → bit_and (bit_and p q) w ≡ w → bit_and p w ≡ w
all_before n zero q w l h = rw (sym (bit_and-zero q)) h
all_before zero (suc p) q w l h = absurd (omega arith)
all_before (suc n) (suc p) q w l h =
    let x = suc p in
    omega (
      arith,
      bit_and-halves (bit_and x q) w,
      bit_and-lowest x q,
      bit_and-halves x w,
      all_before n (x / 2) (q / 2) (w / 2) (omega arith)
          (rw (sym (bit_and-half x q)) (omega (arith, bit_and-halves (bit_and x q) w))),
    )

-- A word that has all bits of `w` after some of its bits are cleared had them before.
pub all_before_clear : (p q w : ℕ) → bit_and (bit_and p q) w ≡ w → bit_and p w ≡ w
all_before_clear p q w h = all_before p p q w (omega arith) h
