-- ===== src/Bits/Digits.antt =====
-- The binary digits of a word, and what shifts and masks do to them.
use native.Mathlib.Nat.{
  div-one, div-div-eq-div-mul, div-add-mod, mul-mod_right, pow-succ', mod-lt, add-mul-mod_self_left,
  mod-eq_of_lt, mul-div_cancel_left, mul_assoc, add-zero, add-suc,
}
use open_t_kernel.Base.{
  ℕ, zero, suc, ◌≡◌, ◌<◌, ◌+◌, ◌-◌, ◌*◌, ◌/◌, ◌%◌, ◌^◌, refl, sym, ap, ◌∙◌, arith, Bool, false,
  ◌==◌,
}

-- Digit `n` of `v`.
abbrev pub bit : ℕ → ℕ → Bool
bit v zero = v % 2 == 1
bit v (suc n) = bit (v / 2) n

pub bit-zero : (n : ℕ) → bit 0 n ≡ false
bit-zero zero = refl
bit-zero (suc n) = bit-zero n

-- A shift to the right.
pub bit-div : (k v n : ℕ) → bit v (n + k) ≡ bit (v / 2 ^ k) n
bit-div zero v n = ap (bit v) (add-zero n) ∙ ap (λ x. bit x n) (sym (div-one v))
bit-div (suc k) v n =
    ap (bit v) (add-suc n k)
    ∙ (bit-div k (v / 2) n
        ∙ ap (λ x. bit x n)
            (div-div-eq-div-mul v 2 (2 ^ k) ∙ ap (λ x. v / x) (sym (pow-succ' 2 k))))

pub pow_pos : (k : ℕ) → 0 < 2 ^ k
pow_pos zero = omega arith
pow_pos (suc k) = omega (arith, pow-succ' 2 k, pow_pos k)

-- The half of a multiple of `2 ^ suc k`.
half_multiple : (k v : ℕ) → v % 2 ^ suc k ≡ 0 → (v % 2 ≡ 0) × ((v / 2) % 2 ^ k ≡ 0)
half_multiple k v h =
    let m = 2 ^ k in
    let q = v / 2 ^ suc k in
    let e : v ≡ 2 * (m * q) =
      sym (div-add-mod v (2 ^ suc k))
      ∙ (omega (arith, h) ∙ (ap (λ x. x * q) (pow-succ' 2 k) ∙ mul_assoc 2 m q)) in
    (omega (arith, e), ap (λ x. x % m) (omega (arith, e)) ∙ mul-mod_right m q)

-- The low digits of a multiple of `2 ^ k` are 0.
pub bit-low : (k v j : ℕ) → v % 2 ^ k ≡ 0 → j < k → bit v j ≡ false
bit-low zero v j h l = absurd (omega arith)
bit-low (suc k) v zero h l = let e = (half_multiple k v h).0 in rw e refl
bit-low (suc k) v (suc j) h l = bit-low k (v / 2) j (half_multiple k v h).1 (omega arith)

half_mod : (k v : ℕ) → (v % 2 ^ suc k) / 2 ≡ (v / 2) % 2 ^ k
half_mod k v =
    let m = 2 ^ k in
    let s = v % 2 ^ suc k in
    let q = v / 2 ^ suc k in
    let e : 2 ^ suc k * q ≡ 2 * (m * q) = ap (λ x. x * q) (pow-succ' 2 k) ∙ mul_assoc 2 m q in
    let l : s < 2 ^ suc k = mod-lt v (pow_pos (suc k)) in
    let f : v / 2 ≡ s / 2 + m * q = omega (arith, div-add-mod v (2 ^ suc k), e) in
    sym (
      ap (λ x. x % m) f
      ∙ (add-mul-mod_self_left (s / 2) m q ∙ mod-eq_of_lt (omega (arith, l, pow-succ' 2 k))))

mod_parity : (k v : ℕ) → (v % 2 ^ suc k) % 2 ≡ v % 2
mod_parity k v =
    let m = 2 ^ k in
    let q = v / 2 ^ suc k in
    let e : 2 ^ suc k * q ≡ 2 * (m * q) = ap (λ x. x * q) (pow-succ' 2 k) ∙ mul_assoc 2 m q in
    omega (arith, div-add-mod v (2 ^ suc k), e)

-- The low digits do not depend on the high ones.
pub bit-mod : (k v j : ℕ) → j < k → bit (v % 2 ^ k) j ≡ bit v j
bit-mod zero v j l = absurd (omega arith)
bit-mod (suc k) v zero l = ap (λ x. x == 1) (mod_parity k v)
bit-mod (suc k) v (suc j) l = ap (λ x. bit x j) (half_mod k v) ∙ bit-mod k (v / 2) j (omega arith)

-- The low digits cleared.
pub bit-cleared : (k v j : ℕ) → bit (v - v % 2 ^ k) (j + k) ≡ bit v (j + k)
bit-cleared k v j =
    let m = 2 ^ k in
    let e : v - v % m ≡ m * (v / m) = omega (arith, div-add-mod v m) in
    bit-div k (v - v % m) j
    ∙ (ap (λ x. bit (x / m) j) e
        ∙ (ap (λ x. bit x j) (mul-div_cancel_left (v / m) (pow_pos k)) ∙ sym (bit-div k v j)))

pub bit-cleared_low : (k v j : ℕ) → j < k → bit (v - v % 2 ^ k) j ≡ false
bit-cleared_low k v j l =
    let m = 2 ^ k in
    let e : v - v % m ≡ m * (v / m) = omega (arith, div-add-mod v m) in
    bit-low k (v - v % m) j (ap (λ x. x % m) e ∙ mul-mod_right m (v / m)) l
