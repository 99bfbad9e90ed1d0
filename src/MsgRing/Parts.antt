-- ===== src/MsgRing/Parts.antt =====
-- kernel/tkernel/src/messagebuf.c: the two calls of MEMCPY for the bytes up to the end of the ring
-- and for those from its start on.
use native.Mathlib.Nat.{zero-add}
use open_t_kernel.Base.{
  ℕ, ◌≡◌, ◌<◌, ◌≤◌, ◌⊎◌, inl, inr, sym, ap, ◌∙◌, arith, ◌+◌, ◌-◌, true, false, Bool-cases, ltb,
  ltb→lt, if◌then◌else◌, subst, dec_lt,
}
use open_t_kernel.Bits.{Bytes}
use open_t_kernel.MsgRing.{copy}
use open_t_kernel.MsgRing.Copy.{copy_in, copy_out}
use open_t_kernel.MsgRing.Wrap.{wrap, wrap_below, wrap_above}

abbrev pub ring_store : Bytes → Bytes → (s t n : ℕ) → Bytes
ring_store b msg s t n =
    let wraps = ltb (s - t) n in
    copy (if wraps then copy b t msg 0 (s - t) else b) (if wraps then 0 else t) msg
      (if wraps then s - t else 0) (if wraps then n - (s - t) else n)

abbrev pub ring_fetch : Bytes → Bytes → (s t n : ℕ) → Bytes
ring_fetch dst b s t n =
    let wraps = ltb (s - t) n in
    copy (if wraps then copy dst 0 b t (s - t) else dst) (if wraps then s - t else 0) b
      (if wraps then 0 else t) (if wraps then n - (s - t) else n)

-- The first bytes of the target.
from_start : (dst src : Bytes) (from n i : ℕ) → i < n → copy dst 0 src from n i ≡ src (from + i)
from_start dst src from n i h =
    subst (λ x. copy dst 0 src from n x ≡ src (from + i)) (zero-add i)
      (copy_in dst 0 src from n i h)

module _ (s q n : ℕ) (l : n ≤ s) (u : q + n < s + s) where
  -- Where the bytes do not pass the end of the ring.
  straight : ltb (s - wrap s q) n ≡ false → (i : ℕ) → i < n → wrap s (q + i) ≡ wrap s q + i
  straight e i h = elim (dec_lt q s) [
    | yes a ↦
        let w = wrap_below s q a in
        let h' : q + i < s = ground arith in wrap_below s (q + i) h' ∙ ap (λ x. x + i) (sym w)
    | no a ↦
        let w = wrap_above s q (omega arith) in wrap_above s (q + i) (omega arith) ∙ omega arith
  ]

  -- Where they do.
  pub passes : ltb (s - wrap s q) n ≡ true → (q < s) × (wrap s q ≡ q)
  passes e = elim (dec_lt q s) [
    | yes a ↦ (a, wrap_below s q a)
    | no a ↦
        let w = wrap_above s q (omega arith) in
        let h = ltb→lt (s - wrap s q) n e in absurd (omega arith)
  ]

  -- After the end of the ring the bytes go on from its start.
  second :
      ltb (s - wrap s q) n ≡ true
      → (i : ℕ) → s - wrap s q ≤ i
      → i < n
      → wrap s (q + i) ≡ i - (s - wrap s q)
  second e i h k = let (a, w) = passes e in wrap_above s (q + i) (omega arith) ∙ omega arith

  first : ltb (s - wrap s q) n ≡ true → (i : ℕ) → i < s - wrap s q → wrap s (q + i) ≡ wrap s q + i
  first e i h =
      let (a, w) = passes e in wrap_below s (q + i) (omega arith) ∙ ap (λ x. x + i) (sym w)

  module _ (b msg : Bytes) where
    abbrev stored : Bytes
    stored = ring_store b msg s (wrap s q) n

    -- Each byte of the message is stored.
    pub store_in : (i : ℕ) → i < n → stored (wrap s (q + i)) ≡ msg i
    store_in i h = elim (Bool-cases (ltb (s - wrap s q) n)) [
      | inr e ↦ rw (e, straight e i h) (copy_in b (wrap s q) msg 0 n i h ∙ ap msg (zero-add i))
      | inl e ↦
          let (a, w) = passes e in
          let m = ltb→lt (s - wrap s q) n e in
          elim (dec_lt i (s - wrap s q)) [
            | yes j ↦
                rw (e, first e i j)
                  (copy_out _ 0 msg (s - wrap s q) (n - (s - wrap s q)) (wrap s q + i)
                      (inr (omega arith))
                    ∙ (copy_in b (wrap s q) msg 0 (s - wrap s q) i j ∙ ap msg (zero-add i)))
            | no j ↦
                let at : s - wrap s q + (i - (s - wrap s q)) ≡ i = omega arith in
                rw (e, second e i (omega arith) h)
                  (from_start _ msg (s - wrap s q) (n - (s - wrap s q)) (i - (s - wrap s q))
                      (omega arith)
                    ∙ ap msg at)
          ]
    ]

    -- The bytes of the ring before the message stay.
    pub store_out : (y : ℕ) → y < q → q + n ≤ y + s → stored (wrap s y) ≡ b (wrap s y)
    store_out y h k = elim (Bool-cases (ltb (s - wrap s q) n)) [
      | inr e ↦ rw e (copy_out b (wrap s q) msg 0 n (wrap s y) (outside e))
      | inl e ↦
          let (a, w) = passes e in
          let m = ltb→lt (s - wrap s q) n e in
          let v = wrap_below s y (omega arith) in
          rw e (
            copy_out _ 0 msg (s - wrap s q) (n - (s - wrap s q)) (wrap s y) (inr (omega arith))
            ∙ copy_out b (wrap s q) msg 0 (s - wrap s q) (wrap s y) (inl (omega arith)))
    ]
      where
        outside : ltb (s - wrap s q) n ≡ false → (wrap s y < wrap s q) ⊎ (wrap s q + n ≤ wrap s y)
        outside e = elim (dec_lt y s) [
          | yes c ↦
              let v = wrap_below s y c in
              elim (dec_lt q s) [
                | yes a ↦ let w = wrap_below s q a in inl (omega arith)
                | no a ↦ let w = wrap_above s q (omega arith) in inr (omega arith)
              ]
          | no c ↦
              let v = wrap_above s y (omega arith) in
              let w = wrap_above s q (omega arith) in inl (omega arith)
        ]

  module _ (b dst : Bytes) where
    abbrev fetched : Bytes
    fetched = ring_fetch dst b s (wrap s q) n

    pub fetch_in : (i : ℕ) → i < n → fetched i ≡ b (wrap s (q + i))
    fetch_in i h = elim (Bool-cases (ltb (s - wrap s q) n)) [
      | inr e ↦ rw (e, straight e i h) (from_start dst b (wrap s q) n i h)
      | inl e ↦
          let m = ltb→lt (s - wrap s q) n e in
          elim (dec_lt i (s - wrap s q)) [
            | yes j ↦
                rw (e, first e i j)
                  (copy_out _ (s - wrap s q) b 0 (n - (s - wrap s q)) i (inl j)
                    ∙ from_start dst b (wrap s q) (s - wrap s q) i j)
            | no j ↦
                let at : s - wrap s q + (i - (s - wrap s q)) ≡ i = omega arith in
                rw (e, second e i (omega arith) h)
                  (subst
                    (λ x.
                      copy (copy dst 0 b (wrap s q) (s - wrap s q)) (s - wrap s q) b 0
                        (n - (s - wrap s q)) x
                      ≡ b (i - (s - wrap s q)))
                    at
                    (copy_in _ (s - wrap s q) b 0 (n - (s - wrap s q)) (i - (s - wrap s q))
                        (omega arith)
                      ∙ ap b (zero-add _)))
          ]
    ]

    pub fetch_out : (i : ℕ) → n ≤ i → fetched i ≡ dst i
    fetch_out i h = elim (Bool-cases (ltb (s - wrap s q) n)) [
      | inr e ↦ rw e (copy_out dst 0 b (wrap s q) n i (inr (omega arith)))
      | inl e ↦
          let m = ltb→lt (s - wrap s q) n e in
          rw e (
            copy_out _ (s - wrap s q) b 0 (n - (s - wrap s q)) i (inr (omega arith))
            ∙ copy_out dst 0 b (wrap s q) (s - wrap s q) i (inr (omega arith)))
    ]
