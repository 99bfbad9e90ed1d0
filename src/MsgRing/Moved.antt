-- ===== src/MsgRing/Moved.antt =====
-- kernel/tkernel/src/messagebuf.c: where a message of the ring ends.
use open_t_kernel.Base.{
  ℕ, ◌≡◌, ◌<◌, ◌≤◌, inl, inr, ap, ◌∙◌, arith, ◌+◌, ◌-◌, ◌%◌, ◌^◌, true, false, Bool-cases, ltb,
  ltb→lt, if◌then◌else◌, dec_lt,
}
use open_t_kernel.MsgRing.{roundsz, ring_end}
use open_t_kernel.MsgRing.Wrap.{
  wrap, wrap_below, wrap_above, wrap-lt, ring_end_lem, roundsz-le, roundsz_least, roundsz-minus,
}
use open_t_kernel.MsgRing.Parts.{passes}

-- The end of the message is the next tail (and, for a message that is fetched, the next head).
module _ (s q n : ℕ) (l : n < 2 ^ 31) (a : s % 4 ≡ 0) (c : q % 4 ≡ 0) (d : n ≤ s)
    (u : q + roundsz n < s + s) where
  past :
      ltb (s - wrap s q) n ≡ true
      → ring_end s (0 + roundsz (n - (s - wrap s q))) ≡ wrap s (q + roundsz n)
  past e =
      let (b, w) = passes s q n d (omega (arith, roundsz-le n l)) e in
      let m = ltb→lt (s - wrap s q) n e in
      let r = roundsz-minus n l (s - wrap s q) (omega arith) (omega arith) in
      let i = wrap_below s (0 + roundsz (n - (s - wrap s q))) (omega arith) in
      let j = wrap_above s (q + roundsz n) (omega (arith, roundsz-le n l)) in
      ring_end_lem s (0 + roundsz (n - (s - wrap s q))) (omega arith) ∙ (i ∙ (omega arith))

  within : ltb (s - wrap s q) n ≡ false → ring_end s (wrap s q + roundsz n) ≡ wrap s (q + roundsz n)
  within e =
      let m : n ≤ s - wrap s q = ground arith in
      let v : wrap s q < s = wrap-lt s q (omega arith) in
      elim (dec_lt q s) [
        | yes b ↦
            let w = wrap_below s q b in
            let r = roundsz_least n l (s - wrap s q) (omega arith) m in
            ring_end_lem s (wrap s q + roundsz n) (omega arith) ∙ ap (λ x. wrap s (x + roundsz n)) w
        | no b ↦
            let w = wrap_above s q (omega arith) in
            let i = wrap_below s (wrap s q + roundsz n) (omega arith) in
            let j = wrap_above s (q + roundsz n) (omega arith) in
            ring_end_lem s (wrap s q + roundsz n) (omega arith) ∙ (i ∙ omega arith)
      ]

  pub moved_on :
      let wraps = ltb (s - wrap s q) n in
      let left = if wraps then n - (s - wrap s q) else n in
      ring_end s ((if wraps then 0 else wrap s q) + roundsz left) ≡ wrap s (q + roundsz n)
  moved_on = elim (Bool-cases (ltb (s - wrap s q) n)) [
    | inl e ↦ rw e (past e)
    | inr e ↦ rw e (within e)
  ]
