-- ===== src/EventFlag/Release.antt =====
-- One round of the loop of tk_set_flg: a waiting task is given the pattern and released.
use open_t_kernel.Base.{
  ℕ, ◌≡◌, ◌≢◌, ◌∙◌, sym, arith, refl, All-map, NotIn, NotIn-of_All, erase, erase_of_NotIn,
}
use open_t_kernel.Kernel.{Kernel, set_tcb}
use open_t_kernel.Task.Ready.{set_tcb-ReadyInv}
use open_t_kernel.Wait.Release.{demand}
use open_t_kernel.Wait.Inv.{WaitInv, SemWait, FlgWait, wait_release_ok-WaitInv}
use open_t_kernel.EventFlag.{flg_release, set_flgptn}

-- Every object and queue but event flag `id` is as it was, and tasks ask for what they asked for.
pub record Kept (id : ℕ) (k k' : Kernel) : Type 0 where
  pub wait_inv : WaitInv k'
  pub semcb_same : k'.semcb ≡ k.semcb
  pub sem_que_same : (i : ℕ) → k'.sem_que i ≡ k.sem_que i
  pub flgcb_same : (i : ℕ) → i ≢ id → k'.flgcb i ≡ k.flgcb i
  pub flg_que_same : (i : ℕ) → i ≢ id → k'.flg_que i ≡ k.flg_que i
  pub demand_same : (u : ℕ) → demand (k'.tcb u) ≡ demand (k.tcb u)

pub Kept-refl : (id : ℕ) (k : Kernel) → WaitInv k → Kept id k k
Kept-refl id k v = record {
  wait_inv = v;
  semcb_same = refl;
  sem_que_same = λ i. refl;
  flgcb_same = λ i n. refl;
  flg_que_same = λ i n. refl;
  demand_same = λ u. refl;
}

pub Kept-trans : (id : ℕ) (k k1 k2 : Kernel) → Kept id k k1 → Kept id k1 k2 → Kept id k k2
Kept-trans id k k1 k2 a b = record {
  wait_inv = b.wait_inv;
  semcb_same = b.semcb_same ∙ a.semcb_same;
  sem_que_same = λ i. b.sem_que_same i ∙ a.sem_que_same i;
  flgcb_same = λ i n. b.flgcb_same i n ∙ a.flgcb_same i n;
  flg_que_same = λ i n. b.flg_que_same i n ∙ a.flg_que_same i n;
  demand_same = λ u. b.demand_same u ∙ a.demand_same u;
}

pub set_flgptn-Kept : (id n : ℕ) (k : Kernel) → WaitInv k → Kept id k (set_flgptn id n k)
set_flgptn-Kept id n k v = record {
  wait_inv = record {
    ready_inv = record {
      members = v.ready_inv.members;
      distinct = v.ready_inv.distinct;
      klock = v.ready_inv.klock;
      sched = v.ready_inv.sched;
    };
    distinct = v.distinct;
    sem_waits = v.sem_waits;
    flg_waits = v.flg_waits;
  };
  semcb_same = refl;
  sem_que_same = λ i. refl;
  flgcb_same = λ i x. ground arith;
  flg_que_same = λ i x. refl;
  demand_same = λ u. refl;
}

-- The cell of a task's pattern has no part in the invariant.
cell-WaitInv :
    (t n : ℕ) (k : Kernel) → WaitInv k → WaitInv (set_tcb t (record (k.tcb t) { flgptn = n }) k)
cell-WaitInv t n k v = record {
  ready_inv = set_tcb-ReadyInv t (record (k.tcb t) { flgptn = n }) k (λ h. h) v.ready_inv;
  distinct = v.distinct;
  sem_waits = λ i. All-map (SemWait k i) (SemWait k1 i) (k.sem_que i) (sem_keep i) (v.sem_waits i);
  flg_waits = λ i. All-map (FlgWait k i) (FlgWait k1 i) (k.flg_que i) (flg_keep i) (v.flg_waits i);
}
  where
    k1 : Kernel
    k1 = set_tcb t (record (k.tcb t) { flgptn = n }) k

    sem_keep : (i u : ℕ) → SemWait k i u → SemWait k1 i u
    sem_keep i u w = ground arith

    flg_keep : (i u : ℕ) → FlgWait k i u → FlgWait k1 i u
    flg_keep i u w = ground arith

module _ (id t : ℕ) (k : Kernel) (v : WaitInv k) (w : FlgWait k id t) where
  no_sem_que : (i : ℕ) → NotIn t (k.sem_que i)
  no_sem_que i =
      NotIn-of_All (SemWait k i) t (k.sem_que i) (λ s. absurd (omega (arith, s.3, w.3)))
        (v.sem_waits i)

  no_flg_que : (i : ℕ) → i ≢ id → NotIn t (k.flg_que i)
  no_flg_que i n =
      NotIn-of_All (FlgWait k i) t (k.flg_que i) (λ s. n (sym s.2 ∙ w.2)) (v.flg_waits i)

  -- The round takes the task off the line of the flag.
  pub flg_release-Kept :
      Kept id k (flg_release id t k)
      × ((flg_release id t k).flg_que id ≡ erase t (k.flg_que id))
      × ((flg_release id t k).flgcb ≡ k.flgcb)
      × ((u : ℕ) → u ≢ t → ((flg_release id t k).tcb u).state ≡ (k.tcb u).state)
  unfolding flg_release
  flg_release-Kept =
      let n = (k.flgcb id).flgptn in
      let k1 = set_tcb t (record (k.tcb t) { flgptn = n }) k in
      let (r, y) = wait_release_ok-WaitInv t k1 (cell-WaitInv t n k v) (ground (arith, w.1)) in
      (
        record {
          wait_inv = y;
          semcb_same = ground (arith, r.objects_same);
          sem_que_same = λ i. r.sem_que_erased i ∙ erase_of_NotIn t (k.sem_que i) (no_sem_que i);
          flgcb_same = λ i x. ground (arith, r.objects_same);
          flg_que_same =
              λ i x. r.flg_que_erased i ∙ erase_of_NotIn t (k.flg_que i) (no_flg_que i x);
          demand_same = λ u. ground (arith, r.demand_same u);
        },
        r.flg_que_erased id,
        ground (arith, r.objects_same),
        λ u n. (r.others_same u n).0 ∙ ground arith,
      )
