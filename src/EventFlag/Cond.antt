-- ===== src/EventFlag/Cond.antt =====
-- eventflag_cond: which changes of a pattern keep a wait condition unmet.
use Prim.Native.Nat.{bit_and}
use open_t_kernel.Base.{ℕ, ◌≡◌, ◌≢◌, ◌==◌, false, refl, arith, Bool-cases, inl, inr, ==_ne}
use open_t_kernel.Bits.And.{none_after_clear, all_before_clear, bit_and-zero}
use open_t_kernel.Kernel.{has}
use open_t_kernel.EventFlag.{eventflag_cond, twf_orw}

-- A condition that is not met is not met after bits are cleared.
pub cond_clear :
    (p q w m : ℕ) → eventflag_cond p w m ≡ false → eventflag_cond (bit_and p q) w m ≡ false
unfolding eventflag_cond
cond_clear p q w m h = elim (Bool-cases (has m twf_orw)) [
  | inl e ↦ let h0 : bit_and p w ≡ 0 = ground arith in rw (e, none_after_clear p q w h0) refl
  | inr e ↦
      let h' : (bit_and p w == w) ≡ false = ground arith in
      rw e (==_ne _ w (λ x. absurd (ground (arith, all_before_clear p q w x))))
]

-- No condition that asks for a bit is met by the empty pattern.
pub cond_empty : (w m : ℕ) → w ≢ 0 → eventflag_cond 0 w m ≡ false
unfolding eventflag_cond
cond_empty w m h = ground (arith, bit_and-zero w)
