-- ===== src/MsgRing/Wrap.antt =====
-- kernel/tkernel/src/messagebuf.c: places in the ring, and the rounding of sizes.
use open_t_kernel.Base.{
  ltb→lt, lt→ltb, ℕ, ◌≡◌, ◌<◌, ◌≤◌, refl, arith, ◌+◌, ◌-◌, ◌%◌, ◌^◌, ltb, if◌then◌else◌, Bool-cases,
  inl, inr,
}
use open_t_kernel.MsgRing.{roundsz, ring_end}

-- The place of the ring at a distance from its start, below two rounds.
unfoldable pub wrap : ℕ → ℕ → ℕ
wrap s x = if ltb x s then x else x - s

pub wrap_below : (s x : ℕ) → x < s → wrap s x ≡ x
unfolding wrap
wrap_below s x l = ground arith

pub wrap_above : (s x : ℕ) → s ≤ x → wrap s x ≡ x - s
unfolding wrap
wrap_above s x l = ground arith

pub wrap-lt : (s x : ℕ) → x < s + s → wrap s x < s
unfolding wrap
wrap-lt s x l = ground arith

pub ring_end_lem : (s x : ℕ) → x ≤ s → ring_end s x ≡ wrap s x
unfolding wrap
ring_end_lem s x l = ground arith

-- Four bytes from a multiple of 4 on have no end of the ring between them.
pub wrap_near : (s x j : ℕ) → s % 4 ≡ 0 → x % 4 ≡ 0 → j < 4 → wrap s x + j ≡ wrap s (x + j)
unfolding wrap
wrap_near s x j a b l = elim (Bool-cases (ltb x s)) [
  | inl e ↦
      let h : x < s = ltb→lt x s e in
      let h' : x + j < s = omega arith in rw (e, lt→ltb (x + j) s h') refl
  | inr e ↦ ground arith
]

pub wrap_round : (s x : ℕ) → s ≤ x → x < s + s → wrap s x ≡ wrap s (x - s)
unfolding wrap
wrap_round s x l m = ground arith

module _ (sz : ℕ) (l : sz < 2 ^ 31) where
  pub roundsz-le : sz ≤ roundsz sz
  roundsz-le = omega arith

  pub roundsz-lt : roundsz sz < sz + 4
  roundsz-lt = omega arith

  pub roundsz-mod : roundsz sz % 4 ≡ 0
  roundsz-mod = omega arith

  -- A multiple of 4 that is not less is not less than the rounded size.
  pub roundsz_least : (f : ℕ) → f % 4 ≡ 0 → sz ≤ f → roundsz sz ≤ f
  roundsz_least f a h = omega arith

  -- What is left of a message after a multiple of 4 is rounded to what is left.
  pub roundsz-minus : (r : ℕ) → r % 4 ≡ 0 → r ≤ sz → roundsz (sz - r) + r ≡ roundsz sz
  roundsz-minus r a h = omega arith
