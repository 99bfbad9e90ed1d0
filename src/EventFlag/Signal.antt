-- ===== src/EventFlag/Signal.antt =====
-- tk_set_flg: the loop over the wait queue leaves nobody in line whose condition the pattern meets.
use Prim.Native.Nat.{bit_and}
use open_t_kernel.Base.{
  ℕ, ◌≡◌, ◌≢◌, ◌∙◌, ◌⊎◌, inl, inr, sym, ap, arith, refl, true, false, Bool, List, [], ◌∷◌, All,
  All-map, NotIn, Distinct, erase, All-erase, All-erase_map, All-distinct_map, Bool-cases,
  if◌then◌else◌, ◌==◌, subst, ==_self, ==_iff,
}
use open_t_kernel.Kernel.{Kernel, flg_waiptn, flg_wfmode, has, not32}
use open_t_kernel.Wait.Release.{demand}
use open_t_kernel.Wait.Inv.{WaitInv, FlgWait}
use open_t_kernel.EventFlag.{
  eventflag_cond, flg_release, flg_signal, set_flgptn, twf_bitclr, twf_clr,
}
use open_t_kernel.EventFlag.Cond.{cond_clear, cond_empty}
use open_t_kernel.EventFlag.Release.{Kept, Kept-refl, Kept-trans, set_flgptn-Kept, flg_release-Kept}

-- What task `t` waits for, on a pattern `p`.
abbrev pub met : Kernel → ℕ → ℕ → Bool
met k p t = eventflag_cond p (flg_waiptn (k.tcb t).winfo) (flg_wfmode (k.tcb t).winfo)

-- The condition of task `t` is not met by event flag `id`.
abbrev pub Unmet : Kernel → ℕ → ℕ → Type 0
Unmet k id t = met k (k.flgcb id).flgptn t ≡ false

-- Task `t` asks for at least one bit.
abbrev pub Asks : Kernel → ℕ → Type 0
Asks k t = flg_waiptn (k.tcb t).winfo ≢ 0

pub met-same :
    (k k' : Kernel) (p t : ℕ) → demand (k'.tcb t) ≡ demand (k.tcb t) → met k' p t ≡ met k p t
met-same k k' p t d =
    ap (λ w. eventflag_cond p (flg_waiptn w) (flg_wfmode w)) (ap (λ (x : _). x.2) d)

-- The kernel after a release, with the bits that were waited for cleared if the mode says so.
abbrev pub after : ℕ → ℕ → Kernel → Kernel
after id t k =
    let k1 = flg_release id t k in
    if has (flg_wfmode (k.tcb t).winfo) twf_bitclr
    then set_flgptn id (bit_and (k1.flgcb id).flgptn (not32 (flg_waiptn (k.tcb t).winfo))) k1
    else k1

-- The state of the loop: those in line that are not ahead are not met.
pub record Reached (id : ℕ) (queue : List ℕ) (k : Kernel) : Type 0 where
  pub inv : WaitInv k
  pub ahead : All (FlgWait k id) queue
  pub distinct : Distinct queue
  pub asks : All (Asks k) (k.flg_que id)
  pub behind : All (λ x. NotIn x queue → Unmet k id x) (k.flg_que id)

-- What the loop leaves.
abbrev pub Signalled : ℕ → Kernel → Kernel → Type 0
Signalled id k k' = Kept id k k' × All (Asks k') (k'.flg_que id) × All (Unmet k' id) (k'.flg_que id)

signal_skip :
    (id t : ℕ) (queue : List ℕ) (k : Kernel)
    → met k (k.flgcb id).flgptn t ≡ false
    → flg_signal id (t ∷ queue) k ≡ flg_signal id queue k
unfolding flg_signal
signal_skip id t queue k e = rw e refl

-- After a release the loop ends with an empty pattern, or goes on.
signal_release :
    (id t : ℕ) (queue : List ℕ) (k : Kernel)
    → met k (k.flgcb id).flgptn t ≡ true
    → (((after id t k).flgcb id).flgptn ≡ 0) × (flg_signal id (t ∷ queue) k ≡ after id t k)
      ⊎ ((flg_signal id (t ∷ queue) k ≡ set_flgptn id 0 (after id t k))
          ⊎ (flg_signal id (t ∷ queue) k ≡ flg_signal id queue (after id t k)))
unfolding flg_signal
signal_release id t queue k e =
    let m = flg_wfmode (k.tcb t).winfo in
    let c = bit_and ((flg_release id t k).flgcb id).flgptn (not32 (flg_waiptn (k.tcb t).winfo)) in
    elim (Bool-cases (has m twf_bitclr)) [
      | inl b ↦ elim (Bool-cases (c == 0)) [
        | inl z ↦ inl (rw b (ground (arith, z)), rw (e, b, z) refl)
        | inr z ↦ elim (Bool-cases (has m twf_clr)) [
          | inl l ↦ inr (inl (rw (e, b, z, l) refl))
          | inr l ↦ inr (inr (rw (e, b, z, l) refl))
        ]
      ]
      | inr b ↦ elim (Bool-cases (has m twf_clr)) [
        | inl l ↦ inr (inl (rw (e, b, l) refl))
        | inr l ↦ inr (inr (rw (e, b, l) refl))
      ]
    ]

-- The pattern after a release is a part of the pattern before.
after-Unmet :
    (id t u : ℕ) (k : Kernel)
    → (flg_release id t k).flgcb ≡ k.flgcb
    → demand ((flg_release id t k).tcb u) ≡ demand (k.tcb u)
    → Unmet k id u
    → Unmet (after id t k) id u
after-Unmet id t u k f d h = elim (Bool-cases (has (flg_wfmode (k.tcb t).winfo) twf_bitclr)) [
  | inl b ↦
      rw (b, ==_self id, f)
        (met-same k k1 (bit_and (k.flgcb id).flgptn (not32 (flg_waiptn (k.tcb t).winfo))) u d
          ∙ cond_clear (k.flgcb id).flgptn (not32 (flg_waiptn (k.tcb t).winfo))
              (flg_waiptn (k.tcb u).winfo) (flg_wfmode (k.tcb u).winfo) h)
  | inr b ↦ rw (b, f) (met-same k k1 (k.flgcb id).flgptn u d ∙ h)
]
  where
    k1 : Kernel
    k1 = flg_release id t k

after-Kept : (id t : ℕ) (k : Kernel) → Kept id k (flg_release id t k) → Kept id k (after id t k)
after-Kept id t k h = elim (Bool-cases (has (flg_wfmode (k.tcb t).winfo) twf_bitclr)) [
  | inl b ↦ rw b (
      Kept-trans id k (flg_release id t k) _ h
        (set_flgptn-Kept id _ (flg_release id t k) h.wait_inv))
  | inr b ↦ rw b h
]

after_flg_que :
    (id t : ℕ) (k : Kernel) → (after id t k).flg_que id ≡ (flg_release id t k).flg_que id
after_flg_que id t k = ground arith

pub Asks-same :
    (k k' : Kernel) (u : ℕ) → demand (k'.tcb u) ≡ demand (k.tcb u) → Asks k u → Asks k' u
Asks-same k k' u d h = ground (arith, d)

-- A round that releases the task, and the states in which the loop ends or goes on after it.
module _ (id t : ℕ) (queue : List ℕ) (k : Kernel) (r : Reached id (t ∷ queue) k) where
  abbrev pub next : Kernel
  next = after id t k

  kept : Kept id k next
  kept = after-Kept id t k (flg_release-Kept id t k r.inv r.ahead.0).0

  line : next.flg_que id ≡ erase t (k.flg_que id)
  line = after_flg_que id t k ∙ (flg_release-Kept id t k r.inv r.ahead.0).1

  Asks-next : All (Asks next) (next.flg_que id)
  Asks-next = rw line (
      All-erase (Asks next) t (k.flg_que id) (
        All-map (Asks k) (Asks next) (k.flg_que id) (λ u. Asks-same k next u (kept.demand_same u))
          r.asks))

  state_next : (u : ℕ) → u ≢ t → (next.tcb u).state ≡ (k.tcb u).state
  state_next u n = ground (arith, (flg_release-Kept id t k r.inv r.ahead.0).3 u n)

  keep : (u : ℕ) → u ≢ t → FlgWait k id u → FlgWait next id u
  keep u n w = ground (arith, kept.demand_same u, state_next u n)

  ahead_next : All (FlgWait next id) queue
  ahead_next = All-distinct_map (FlgWait k id) (FlgWait next id) t queue r.distinct.0 keep r.ahead.1

  Unmet-next :
      (u : ℕ) → u ≢ t → (NotIn u (t ∷ queue) → Unmet k id u) → NotIn u queue → Unmet next id u
  Unmet-next u n f h =
      let p = flg_release-Kept id t k r.inv r.ahead.0 in
      after-Unmet id t u k p.2 (p.0.demand_same u) (f (n, h))

  behind_next : All (λ x. NotIn x queue → Unmet next id x) (next.flg_que id)
  behind_next = rw line (
      All-erase_map (λ x. NotIn x (t ∷ queue) → Unmet k id x) (λ x. NotIn x queue → Unmet next id x)
        t (k.flg_que id) (r.inv.distinct.1 id) Unmet-next r.behind)

  pub next-Reached : Reached id queue next
  next-Reached = record {
    inv = kept.wait_inv;
    ahead = ahead_next;
    distinct = r.distinct.1;
    asks = Asks-next;
    behind = behind_next;
  }

  pub emptied : (next.flgcb id).flgptn ≡ 0 → Signalled id k next
  emptied z = (
    kept,
    Asks-next,
    All-map (Asks next) (Unmet next id) (next.flg_que id)
        (λ u a.
          subst (λ p. met next p u ≡ false) (sym z)
            (cond_empty (flg_waiptn (next.tcb u).winfo) (flg_wfmode (next.tcb u).winfo) a))
        Asks-next,
  )

  pub cleared : Signalled id k (set_flgptn id 0 next)
  cleared = (
    Kept-trans id k next (set_flgptn id 0 next) kept (set_flgptn-Kept id 0 next kept.wait_inv),
    Asks-next,
    All-map (Asks next) (Unmet (set_flgptn id 0 next) id) (next.flg_que id)
        (λ u a.
          rw (==_self id)
            (cond_empty (flg_waiptn (next.tcb u).winfo) (flg_wfmode (next.tcb u).winfo) a))
        Asks-next,
  )

skipped-Reached :
    (id t : ℕ) (queue : List ℕ) (k : Kernel)
    → Reached id (t ∷ queue) k
    → Unmet k id t
    → Reached id queue k
skipped-Reached id t queue k r h = record {
  inv = r.inv;
  ahead = r.ahead.1;
  distinct = r.distinct.1;
  asks = r.asks;
  behind =
      All-map (λ x. NotIn x (t ∷ queue) → Unmet k id x) (λ x. NotIn x queue → Unmet k id x)
        (k.flg_que id) pass r.behind;
}
  where
    pass : (u : ℕ) → (NotIn u (t ∷ queue) → Unmet k id u) → NotIn u queue → Unmet k id u
    pass u f n = elim (Bool-cases (u == t)) [
      | inl e ↦ subst (Unmet k id) (sym ((==_iff u t).0 e)) h
      | inr e ↦ f ((λ p. absurd (ground arith)), n)
    ]

signal_end : (id : ℕ) (k : Kernel) → flg_signal id [] k ≡ k
unfolding flg_signal
signal_end id k = refl

-- From such a state the loop leaves nobody in line whose condition is met.
pub flg_signal-Signalled :
    (id : ℕ) (queue : List ℕ) (k : Kernel)
    → Reached id queue k
    → Signalled id k (flg_signal id queue k)
flg_signal-Signalled id [] k r = rw (signal_end id k) (
  Kept-refl id k r.inv,
  r.asks,
  All-map (λ x. NotIn x [] → Unmet k id x) (Unmet k id) (k.flg_que id) (λ u f. f tt) r.behind,
)
flg_signal-Signalled id (t ∷ queue) k r = elim (Bool-cases (met k (k.flgcb id).flgptn t)) [
  | inr e ↦
      rw (signal_skip id t queue k e)
        (flg_signal-Signalled id queue k (skipped-Reached id t queue k r e))
  | inl e ↦ elim (signal_release id t queue k e) [
    | inl z ↦ rw (z.1) (emptied id t queue k r z.0)
    | inr (inl c) ↦ rw c (cleared id t queue k r)
    | inr (inr c) ↦
        let s = flg_signal-Signalled id queue (after id t k) (next-Reached id t queue k r) in
        rw c (
          Kept-trans id k (after id t k) _
              (after-Kept id t k (flg_release-Kept id t k r.inv r.ahead.0).0) s.0,
          s.1,
          s.2,
        )
  ]
]
