-- ===== src/Bits/Lowest.antt =====
-- The binary search of BitSearch1_w for the lowest 1 of a word.
use native.Mathlib.Nat.{add-zero, zero-add}
use open_t_kernel.Base.{
  ℕ, ◌≡◌, ◌≢◌, ◌≤◌, ◌<◌, ◌+◌, ◌-◌, ◌/◌, ◌%◌, ◌^◌, sym, ap, ◌∙◌, arith, true, false, ◌==◌,
  Bool-cases, inl, inr, dec_lt,
}
use open_t_kernel.Bits.{narrow, lowest}
use open_t_kernel.Bits.Digits.{bit, bit-div, bit-low}

-- `v` is what is left of `w` after its `d` lowest digits, all of them 0.
pub record Rest (w v d : ℕ) : Type 0 where
  pub same : (n : ℕ) → bit w (n + d) ≡ bit v n
  pub zeros : (j : ℕ) → j < d → bit w j ≡ false

-- A step that skips `k` digits.
skip-Rest : (k w v d : ℕ) → v % 2 ^ k ≡ 0 → Rest w v d → Rest w (v / 2 ^ k) (d + k)
skip-Rest k w v d h r = record {
  same = λ n.
      let e : n + (d + k) ≡ n + k + d = omega arith in
      ap (bit w) e ∙ (r.same (n + k) ∙ bit-div k v n);
  zeros = λ j l. elim (dec_lt j d) [
    | yes p ↦ r.zeros j p
    | no p ↦
        let e : j ≡ j - d + d = omega arith in
        ap (bit w) e ∙ (r.same (j - d) ∙ bit-low k v (j - d) h (omega arith))
  ];
}

-- Where the search stands: at most `m` digits are skipped, and of the next ones, which `2 ^ k` counts,
-- one is 1.
record Stands (w pos m k : ℕ) (s : ℕ × ℕ) : Type 0 where
  d : ℕ
  at : s.1 ≡ pos + d
  bound : d ≤ m
  rest : Rest w s.0 d
  more : s.0 % 2 ^ k ≢ 0

narrow-Stands :
    (k w pos m n : ℕ) (s : ℕ × ℕ)
    → ((v : ℕ) → v % 2 ^ n ≢ 0 → v % 2 ^ k ≡ 0 → (v / 2 ^ k) % 2 ^ k ≢ 0)
    → Stands w pos m n s
    → Stands w pos (m + k) k (narrow k s)
narrow-Stands k w pos m n (v, p) nz t = elim (Bool-cases (v % 2 ^ k == 0)) [
  | inl h ↦
      let z : v % 2 ^ k ≡ 0 = ground arith in
      rw h (record {
        d = t.d + k;
        at = omega (arith, t.at);
        bound = omega (arith, t.bound);
        rest = skip-Rest k w v t.d z t.rest;
        more = nz v t.more z;
      })
  | inr h ↦ rw h (record {
    d = t.d;
    at = t.at;
    bound = omega (arith, t.bound);
    rest = t.rest;
    more = ground arith;
  })
]

-- A word that is not 0 has its lowest 1 at the place that the search finds.
pub lowest_lem :
    (w pos : ℕ)
    → w ≢ 0
    → w < 2 ^ 32
    → (d : ℕ) × ((lowest w pos ≡ pos + d)
        × (d < 32)
        × (bit w d ≡ true)
        × ((j : ℕ) → j < d → bit w j ≡ false))
unfolding lowest
lowest_lem w pos z b =
    let t0 : Stands w pos 0 32 (w, pos) = record {
      d = 0;
      at = omega arith;
      bound = omega arith;
      rest = record { same = λ n. ap (bit w) (add-zero n); zeros = λ j l. absurd (omega arith) };
      more = omega arith;
    } in
    let t1 = narrow-Stands 16 w pos 0 32 (w, pos) (λ v a c. omega arith) t0 in
    let t2 = narrow-Stands 8 w pos 16 16 _ (λ v a c. omega arith) t1 in
    let t3 = narrow-Stands 4 w pos 24 8 _ (λ v a c. omega arith) t2 in
    let t4 = narrow-Stands 2 w pos 28 4 _ (λ v a c. omega arith) t3 in
    let t5 = narrow-Stands 1 w pos 30 2 _ (λ v a c. omega arith) t4 in
    (
      t5.d,
      (
        t5.at,
        omega (arith, t5.bound),
        ap (bit w) (sym (zero-add t5.d)) ∙ (t5.rest.same 0 ∙ ground (arith, t5.more)),
        t5.rest.zeros,
      ),
    )
