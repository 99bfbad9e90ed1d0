-- ===== src/ReadyQueue/Top.antt =====
-- The bitmap and the highest priority of the ready queue agree with its queues.
use open_t_kernel.Base.{
  ℕ, ◌≡◌, ◌≢◌, ◌≤◌, ◌<◌, inl, inr, ◌+◌, ◌-◌, refl, sym, ap, ◌∙◌, arith, Bool, true, false, not,
  ◌==◌, ltb, Bool-cases, if◌then◌else◌, ==_iff, ==_self, upd, subst, List, [], ◌∷◌, ◌++◌, All,
  erase, dec_lt, ℕ_discrete, ◌%◌,
}
use open_t_kernel.Bits.{bit_test, bit_set, bit_clr, Search, found, absent, overflow, out_of_fuel}
use open_t_kernel.Bits.Digits.{bit-zero}
use open_t_kernel.Bits.Words.{IsBytes, bit_test-bit}
use open_t_kernel.Bits.Store.{bit_set-IsBytes, bit_clr-IsBytes, bit_test-bit_set, bit_test-bit_clr}
use open_t_kernel.Bits.Search1.{FirstOne}
use open_t_kernel.Kernel.{Kernel, null, num_pri}
use open_t_kernel.ReadyQueue.{is_nil, next_top, ready_queue_initialize}

-- Task `u` is on the queue of its priority, and does not wait for the kernel lock.
abbrev pub Home : Kernel → ℕ → ℕ → Type 0
Home k p u = (u ≢ null) × ((k.tcb u).priority ≡ p) × ((k.tcb u).klockwait ≡ false)

-- What the fields `tskque`, `bitmap` and `top_priority` say of each other.
pub record Marks (que : ℕ → List ℕ) (bitmap : ℕ → ℕ) (top : ℕ) : Type 0 where
  pub bytes : IsBytes bitmap
  pub marked : (p : ℕ) → bit_test bitmap p ≡ not (is_nil (que p))
  pub levels : (p : ℕ) → num_pri ≤ p → is_nil (que p) ≡ true
  pub top_le : top ≤ num_pri
  pub above : (p : ℕ) → p < top → is_nil (que p) ≡ true
  pub used : top < num_pri → is_nil (que top) ≡ false

pub record TopInv (k : Kernel) : Type 0 where
  pub homes : (p : ℕ) → All (Home k p) (k.rdy_que p)
  pub marks : Marks k.rdy_que k.bitmap k.top_priority

pub is_nil-erase : (t : ℕ) (q : List ℕ) → is_nil q ≡ true → is_nil (erase t q) ≡ true
unfolding erase
is_nil-erase t [] h = refl
is_nil-erase t (x ∷ q) h = cc

pub is_nil-append : (t : ℕ) (q : List ℕ) → is_nil (q ++ t ∷ []) ≡ false
is_nil-append t [] = refl
is_nil-append t (x ∷ q) = refl

-- A task joins the queue of its priority.
pub insert-Marks :
    (t p top : ℕ) (que : ℕ → List ℕ) (bitmap : ℕ → ℕ)
    → p < num_pri
    → Marks que bitmap top
    → Marks (upd que p (que p ++ t ∷ [])) (bit_set bitmap p) (if ltb p top then p else top)
insert-Marks t p top que bitmap l m = record {
  bytes = bit_set-IsBytes bitmap m.bytes p;
  marked = λ q. elim (Bool-cases (q == p)) [
    | inl e ↦ rw (bit_test-bit_set bitmap m.bytes p q, e, is_nil-append t (que p)) refl
    | inr e ↦ rw (bit_test-bit_set bitmap m.bytes p q, e) (m.marked q)
  ];
  levels = λ q h. ground (arith, m.levels q h);
  top_le = ground (arith, m.top_le);
  above = λ q h. ground (arith, m.above q);
  used = λ h. elim (Bool-cases (ltb p top)) [
    | inl e ↦ rw (e, ==_self p) (is_nil-append t (que p))
    | inr e ↦ let h' : top < num_pri = ground arith in rw e (stays e h')
  ];
}
  where
    stays : ltb p top ≡ false → top < num_pri → is_nil (upd que p (que p ++ t ∷ []) top) ≡ false
    stays e h = elim (Bool-cases (top == p)) [
      | inl q ↦ rw q (is_nil-append t (que p))
      | inr q ↦ rw q (m.used h)
    ]

-- A task leaves queue `p`: what is left of the queues is `que'`.
module _ (p top : ℕ) (que que' : ℕ → List ℕ) (bitmap : ℕ → ℕ) (l : p < num_pri)
    (m : Marks que bitmap top) (others : (q : ℕ) → q ≢ p → que' q ≡ que q)
    (fewer : is_nil (que p) ≡ true → is_nil (que' p) ≡ true) where
  still_nil : (q : ℕ) → is_nil (que q) ≡ true → is_nil (que' q) ≡ true
  still_nil q h = elim (ℕ_discrete q p) [
    | yes e ↦
        subst (λ x. is_nil (que' x) ≡ true) (sym e) (fewer (subst (λ x. is_nil (que x) ≡ true) e h))
    | no n ↦ ap is_nil (others q n) ∙ h
  ]

  -- Others are left on the queue.
  pub left-Marks : is_nil (que' p) ≡ false → Marks que' bitmap top
  left-Marks f = record {
    bytes = m.bytes;
    marked = λ q. elim (ℕ_discrete q p) [
      | yes e ↦
          subst (λ x. bit_test bitmap x ≡ not (is_nil (que' x))) (sym e)
            (m.marked p ∙ (ap not (Bool-not (is_nil (que p)) was) ∙ sym (ap not f)))
      | no n ↦ m.marked q ∙ sym (ap (λ x. not (is_nil x)) (others q n))
    ];
    levels = λ q h. still_nil q (m.levels q h);
    top_le = m.top_le;
    above = λ q h. still_nil q (m.above q h);
    used = λ h. elim (ℕ_discrete top p) [
      | yes e ↦ subst (λ x. is_nil (que' x) ≡ false) (sym e) f
      | no n ↦ ap is_nil (others top n) ∙ m.used h
    ];
  }
    where
      was : is_nil (que p) ≢ true
      was h = let x = sym (fewer h) ∙ f in cc

      Bool-not : (b : Bool) → b ≢ true → b ≡ false
      Bool-not true n = absurd (n refl)
      Bool-not false n = refl

  abbrev pub clr : ℕ → ℕ
  clr = bit_clr bitmap p

  -- The bits say of the other queues what they said, and of the queue that it is empty.
  clr_marked : is_nil (que' p) ≡ true → (q : ℕ) → bit_test clr q ≡ not (is_nil (que' q))
  clr_marked f q = elim (Bool-cases (q == p)) [
    | inl e ↦
        let e' : q ≡ p = (==_iff q p).0 e in
        rw (bit_test-bit_clr bitmap m.bytes p q, e, e') (sym (ap not f))
    | inr e ↦
        let n : q ≢ p = ground arith in
        rw (bit_test-bit_clr bitmap m.bytes p q, e)
          (m.marked q ∙ sym (ap (λ x. not (is_nil x)) (others q n)))
  ]

  -- The queue is empty, and was not the first.
  pub lower-Marks : is_nil (que' p) ≡ true → p ≢ top → Marks que' clr top
  lower-Marks f n = record {
    bytes = bit_clr-IsBytes bitmap m.bytes p;
    marked = clr_marked f;
    levels = λ q h. still_nil q (m.levels q h);
    top_le = m.top_le;
    above = λ q h. still_nil q (m.above q h);
    used = λ h. ap is_nil (others top (λ e. n (sym e))) ∙ m.used h;
  }

  unmarked : is_nil (que' p) ≡ true → (q : ℕ) → bit_test clr q ≡ false → is_nil (que' q) ≡ true
  unmarked f q h = nil (is_nil (que' q)) (sym (clr_marked f q) ∙ h)
    where
      nil : (b : Bool) → not b ≡ false → b ≡ true
      nil true h = refl
      nil false h = cc

  -- The queue is empty, and was the first: the search finds the next one.
  pub searched-Marks :
      (r : Search)
      → is_nil (que' p) ≡ true
      → p ≡ top
      → FirstOne clr p (num_pri - p) r
      → Marks que' clr (next_top r p)
  unfolding next_top
  searched-Marks (found i) f e (a, b, c) = record {
    bytes = bit_clr-IsBytes bitmap m.bytes p;
    marked = clr_marked f;
    levels = λ q h. still_nil q (m.levels q h);
    top_le = omega arith;
    above = λ q h. elim (dec_lt q p) [
      | yes x ↦ still_nil q (m.above q (omega arith))
      | no x ↦
          let y : p + (q - p) ≡ q = omega arith in
          unmarked f q (subst (λ z. bit_test clr z ≡ false) y (c (q - p) (omega arith)))
    ];
    used = λ h. let x = sym (clr_marked f (p + i)) ∙ b in filled (is_nil (que' (p + i))) x;
  }
    where
      filled : (b : Bool) → not b ≡ true → b ≡ false
      filled true h = cc
      filled false h = refl
  searched-Marks absent f e a = record {
    bytes = bit_clr-IsBytes bitmap m.bytes p;
    marked = clr_marked f;
    levels = λ q h. still_nil q (m.levels q h);
    top_le = omega arith;
    above = λ q h. elim (dec_lt q p) [
      | yes x ↦ still_nil q (m.above q (omega arith))
      | no x ↦
          let y : p + (q - p) ≡ q = omega arith in
          unmarked f q (subst (λ z. bit_test clr z ≡ false) y (a (q - p) (omega arith)))
    ];
    used = λ h. absurd (omega arith);
  }
  searched-Marks overflow f e a = absurd a
  searched-Marks out_of_fuel f e a = absurd a

-- The first line that is not empty is where `top` says.
pub top_unique :
    (que : ℕ → List ℕ) (bitmap : ℕ → ℕ) (top p : ℕ)
    → Marks que bitmap top
    → p ≤ num_pri
    → ((q : ℕ) → q < p → is_nil (que q) ≡ true)
    → (p < num_pri → is_nil (que p) ≡ false)
    → top ≡ p
top_unique que bitmap top p m l a u = elim (dec_lt p top) [
  | yes h ↦ let x = m.above p h in let y = u (omega (arith, m.top_le)) in cc
  | no h ↦ elim (dec_lt top p) [
    | yes h' ↦ let x = a top h' in let y = m.used (omega arith) in cc
    | no h' ↦ omega arith
  ]
]

no_bit : (p : ℕ) → bit_test (λ i. 0) p ≡ false
no_bit p = bit_test-bit (λ i. 0) p ∙ bit-zero (p % 8)

-- The ready queue at the start.
pub initialize-TopInv : (k : Kernel) → TopInv (ready_queue_initialize k)
unfolding ready_queue_initialize
initialize-TopInv k = record {
  homes = λ p. tt;
  marks = record {
    bytes = λ i. omega arith;
    marked = no_bit;
    levels = λ p h. refl;
    top_le = omega arith;
    above = λ p h. refl;
    used = λ h. absurd (omega arith);
  };
}
