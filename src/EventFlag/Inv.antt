-- ===== src/EventFlag/Inv.antt =====
-- The invariant of the event flags: nobody waits whose condition is met.
use Prim.Native.Nat.{bit_and, bit_or}
use open_t_kernel.Base.{
  ℕ, ◌≡◌, ◌≢◌, ◌∙◌, inl, inr, sym, ap, arith, refl, List, [], ◌∷◌, All, All-map, NotIn, Bool-cases,
  ◌==◌, ==_iff, ==_self, subst,
}
use open_t_kernel.Base.Int.{ℤ, to_ℕ}
use open_t_kernel.Kernel.{Kernel, flg_waiptn, flg_wfmode}
use open_t_kernel.Semaphore.Inv.{SemaphoresInv, SemInv-same}
use open_t_kernel.EventFlag.{tk_set_flg, tk_clr_flg, chk_flgid, set_flgptn, flg_signal}
use open_t_kernel.EventFlag.Cond.{cond_clear}
use open_t_kernel.EventFlag.Release.{Kept, Kept-trans, set_flgptn-Kept}
use open_t_kernel.EventFlag.Signal.{met-same, Asks-same, Unmet, Asks, Reached, flg_signal-Signalled}

pub record FlagInv (k : Kernel) (id : ℕ) : Type 0 where
  pub asks : All (Asks k) (k.flg_que id)
  pub unmet : All (Unmet k id) (k.flg_que id)

-- The invariant of all that waits on an event flag or a semaphore.
pub record FlagsInv (k : Kernel) : Type 0 where
  pub sems : SemaphoresInv k
  pub flags : (id : ℕ) → FlagInv k id

-- What concerns one event flag keeps the invariant of the semaphores and of the other flags.
Kept-FlagsInv : (id : ℕ) (k k' : Kernel) → FlagsInv k → Kept id k k' → FlagInv k' id → FlagsInv k'
Kept-FlagsInv id k k' v s own = record {
  sems = record {
    waits = s.wait_inv;
    sems = λ i.
        SemInv-same k k' i (ap (λ f. f i) s.semcb_same) (s.sem_que_same i)
          (λ u. ground (arith, s.demand_same u)) (v.sems.sems i);
  };
  flags = λ i. elim (Bool-cases (i == id)) [
    | inl e ↦ subst (FlagInv k') (sym ((==_iff i id).0 e)) own
    | inr e ↦ other i (λ p. absurd (ground arith))
  ];
}
  where
    other : (i : ℕ) → i ≢ id → FlagInv k' i
    other i n = record {
      asks = rw (s.flg_que_same i n) (
          All-map (Asks k) (Asks k') (k.flg_que i) (λ u. Asks-same k k' u (s.demand_same u))
            (v.flags i).asks);
      unmet = rw (s.flg_que_same i n) (
          All-map (Unmet k i) (Unmet k' i) (k.flg_que i)
            (λ u h.
              rw (s.flgcb_same i n) (met-same k k' (k.flgcb i).flgptn u (s.demand_same u) ∙ h))
            (v.flags i).unmet);
    }

members : (xs : List ℕ) → All (λ x. ¬ NotIn x xs) xs
members [] = tt
members (x ∷ xs) = (
  (λ n. n.0 refl),
  All-map (λ y. ¬ NotIn y xs) (λ y. ¬ NotIn y (x ∷ xs)) xs (λ y f n. f n.1) (members xs),
)

set_flgptn-Reached :
    (id n : ℕ) (k : Kernel) → FlagsInv k → Reached id (k.flg_que id) (set_flgptn id n k)
set_flgptn-Reached id n k v =
    let k1 = set_flgptn id n k in
    record {
      inv = (set_flgptn-Kept id n k v.sems.waits).wait_inv;
      ahead = v.sems.waits.flg_waits id;
      distinct = v.sems.waits.distinct.1 id;
      asks = (v.flags id).asks;
      behind =
          All-map (λ x. ¬ NotIn x (k.flg_que id)) (λ x. NotIn x (k.flg_que id) → Unmet k1 id x)
            (k.flg_que id) (λ x f h. absurd (f h)) (members (k.flg_que id));
    }

signalled-FlagsInv :
    (id n : ℕ) (k : Kernel)
    → FlagsInv k
    → FlagsInv (flg_signal id (k.flg_que id) (set_flgptn id n k))
signalled-FlagsInv id n k v =
    let k1 = set_flgptn id n k in
    let s = flg_signal-Signalled id (k.flg_que id) k1 (set_flgptn-Reached id n k v) in
    Kept-FlagsInv id k (flg_signal id (k.flg_que id) k1) v
      (Kept-trans id k k1 _ (set_flgptn-Kept id n k v.sems.waits) s.0)
      (record { asks = s.1; unmet = s.2 })

-- Setting bits of an event flag, with whatever pattern, leaves nobody in the line of any flag whose
-- condition its pattern meets, and keeps the invariant of the semaphores.
pub tk_set_flg-FlagsInv :
    (flgid : ℤ) (setptn : ℕ) (k : Kernel) → FlagsInv k → FlagsInv (tk_set_flg flgid setptn k).1
unfolding tk_set_flg
tk_set_flg-FlagsInv flgid setptn k v =
    let id = to_ℕ flgid in
    elim (Bool-cases (chk_flgid flgid k)) [
      | inr e ↦ rw e v
      | inl e ↦ elim (Bool-cases ((k.flgcb id).flgid == 0)) [
        | inl z ↦ rw (e, z) v
        | inr z ↦ rw (e, z) (signalled-FlagsInv id (bit_or (k.flgcb id).flgptn setptn) k v)
      ]
    ]

cleared-FlagsInv :
    (id c : ℕ) (k : Kernel)
    → FlagsInv k
    → FlagsInv (set_flgptn id (bit_and (k.flgcb id).flgptn c) k)
cleared-FlagsInv id c k v =
    let n = bit_and (k.flgcb id).flgptn c in
    let k1 = set_flgptn id n k in
    Kept-FlagsInv id k k1 v (set_flgptn-Kept id n k v.sems.waits) (record {
      asks = (v.flags id).asks;
      unmet =
          All-map (Unmet k id) (Unmet k1 id) (k.flg_que id)
            (λ u h. rw (==_self id) (
              cond_clear (k.flgcb id).flgptn c (flg_waiptn (k.tcb u).winfo)
                (flg_wfmode (k.tcb u).winfo) h))
            (v.flags id).unmet;
    })

-- Clearing bits of an event flag releases nobody, and leaves nobody in line whose condition is met.
pub tk_clr_flg-FlagsInv :
    (flgid : ℤ) (clrptn : ℕ) (k : Kernel)
    → FlagsInv k
    → FlagsInv (tk_clr_flg flgid clrptn k).1 × ((tk_clr_flg flgid clrptn k).1.flg_que ≡ k.flg_que)
unfolding tk_clr_flg
tk_clr_flg-FlagsInv flgid clrptn k v =
    let id = to_ℕ flgid in
    elim (Bool-cases (chk_flgid flgid k)) [
      | inr e ↦ rw e (v, refl)
      | inl e ↦ elim (Bool-cases ((k.flgcb id).flgid == 0)) [
        | inl z ↦ rw (e, z) (v, refl)
        | inr z ↦ rw (e, z) (cleared-FlagsInv id clrptn k v, refl)
      ]
    ]
