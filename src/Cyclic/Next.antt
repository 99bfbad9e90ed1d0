-- ===== src/Cyclic/Next.antt =====
-- kernel/tkernel/src/time_calls.c: cyc_next_time.
use native.Mathlib.Nat.{
  div-add-mod, mod-lt, one-mul, mod-eq_of_lt, mul_comm, add-mul, mul-le-mul_right,
}
use open_t_kernel.Base.{
  ℕ, ◌≡◌, ◌≤◌, ◌<◌, ◌+◌, ◌-◌, ◌*◌, ◌/◌, ◌%◌, ◌^◌, refl, ap, ◌∙◌, arith, true, false, Bool-cases,
  inl, inr,
}
use open_t_kernel.Kernel.{Cyccb}
use open_t_kernel.Timer.{ll_add, ll_sub, ll_gt}
use open_t_kernel.Timer.Order.{left_until}
use open_t_kernel.Cyclic.{cyc_next_time}

-- The start after a number of cycles.
abbrev pub start_after : ℕ → Cyccb → ℕ
start_after n c = (c.time + n * c.cyctim) % 2 ^ 64

-- The sums on the clock of 64 bits, for the cycles that are past as one number.
late_sum :
    (t now p cyc late : ℕ)
    → t < 2 ^ 64
    → now < 2 ^ 64
    → left_until t now ≡ late
    → p ≤ late
    → late < p + cyc
    → late < 2 ^ 62
    → cyc < 2 ^ 62
    → left_until now ((t + (p + cyc)) % 2 ^ 64) ≡ p + cyc - late
late_sum t now p cyc late a b e g h u v = ground arith

module _ (c : Cyccb) (now : ℕ) (t : c.time < 2 ^ 64) (n : now < 2 ^ 64) (cyc : 0 < c.cyctim)
    (short : c.cyctim < 2 ^ 62) (late : left_until c.time now < 2 ^ 62) where
  abbrev q : ℕ
  q = left_until c.time now / c.cyctim

  abbrev past : ℕ
  past = c.cyctim * q

  past_le : past ≤ left_until c.time now
  past_le = omega (arith, div-add-mod (left_until c.time now) c.cyctim)

  past_lt : left_until c.time now < past + c.cyctim
  past_lt =
      omega
        (arith, div-add-mod (left_until c.time now) c.cyctim, mod-lt (left_until c.time now) cyc)

  q_small : q < 2 ^ 62
  q_small = omega (arith, past_le, mul-le-mul_right q cyc)

  product : (q + 1) * c.cyctim ≡ past + c.cyctim
  product = omega (arith, add-mul q 1 c.cyctim, mul_comm q c.cyctim)

  -- A start that is late is put to the first cycle after the time.
  late_next :
      cyc_next_time c now ≡ start_after (q + 1) c
      → (left_until now (cyc_next_time c now) ≡ past + c.cyctim - left_until c.time now)
  late_next e =
      ap (left_until now) (e ∙ ap (λ x. (c.time + x) % 2 ^ 64) product)
      ∙ late_sum c.time now past c.cyctim (left_until c.time now) t n refl past_le past_lt late
          short

  late_code :
      ll_gt (ll_add c.time c.cyctim) now ≡ false → cyc_next_time c now ≡ start_after (q + 1) c
  unfolding cyc_next_time
  late_code e =
      let i : (q + 1) % 2 ^ 64 ≡ q + 1 = mod-eq_of_lt (omega (arith, q_small)) in
      let j : past + c.cyctim < 2 ^ 64 = omega (arith, past_le) in
      let s : ll_sub now c.time ≡ left_until c.time now = refl in
      rw (e, i) (rw product (ap (λ x. (c.time + x) % 2 ^ 64) (mod-eq_of_lt j)))

  due_later :
      ll_gt (ll_add c.time c.cyctim) now ≡ true
      → left_until now (ll_add c.time c.cyctim) ≡ c.cyctim - left_until c.time now
  due_later e = ground arith

  due_before : ll_gt (ll_add c.time c.cyctim) now ≡ true → left_until c.time now < c.cyctim
  due_before e = ground arith

-- A cyclic handler whose start is due, by less than 2 ^ 62 microseconds, and whose cycle is not 0 and
-- below 2 ^ 62, is started next at a whole number of its cycles after that start, and that is the first
-- such time that is later than now, however many cycles have been missed.
pub cyc_next_time_lem :
    (c : Cyccb) (now : ℕ)
    → c.time < 2 ^ 64
    → now < 2 ^ 64
    → 0 < c.cyctim
    → c.cyctim < 2 ^ 62
    → left_until c.time now < 2 ^ 62
    → (0 < left_until now (cyc_next_time c now))
      × (left_until now (cyc_next_time c now) ≤ c.cyctim)
      × ((n : ℕ) × (cyc_next_time c now ≡ start_after (n + 1) c))
unfolding cyc_next_time
cyc_next_time_lem c now t n cyc short late =
    elim (Bool-cases (ll_gt (ll_add c.time c.cyctim) now)) [
      | inr e ↦
          let w = late_code c now t n cyc short late e in
          let l = late_next c now t n cyc short late w in
          (
            omega (arith, l, past_lt c now t n cyc short late),
            omega (arith, l, past_le c now t n cyc short late),
            (left_until c.time now / c.cyctim, w),
          )
      | inl e ↦
          let d = due_later c now t n cyc short late e in
          let b = due_before c now t n cyc short late e in
          let one : c.time + c.cyctim ≡ c.time + (0 + 1) * c.cyctim =
            omega (arith, one-mul c.cyctim) in
          rw e (omega (arith, d, b), omega (arith, d), (0, ap (λ x. x % 2 ^ 64) one))
    ]
