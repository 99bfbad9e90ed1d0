-- ===== src/Wait/Inv.antt =====
-- The invariant of the tasks and the wait queues: who is on a wait queue waits for that object, and
-- the release of a waiting task keeps it so.
use open_t_kernel.Base.{
  ℕ, ◌≡◌, ◌≢◌, ◌≤◌, ◌<◌, inl, inr, refl, arith, All, NotIn-of_All, All-erase_map, erase-Distinct,
  true, false, if_rule,
}
use open_t_kernel.Kernel.{
  Kernel, Tstat, ready, has_wait, null, sem_cnt, tskwait, ttw_sem, ttw_flg, Er, e_ok, wtmeb,
  que_remove_tsk,
}
use open_t_kernel.Timer.{timer_delete}
use open_t_kernel.Task.Ready.{ReadyInv, NullOrReady, make_ready-ReadyInv, set_tcb-ReadyInv}
use open_t_kernel.Task.Leave.{que_remove-ReadyInv}
use open_t_kernel.Task.Frame.{SchedFree}
use open_t_kernel.ReadyQueue.Frame.{Unqueued}
use open_t_kernel.Wait.{make_non_wait, wait_release, wait_release_ok, set_wercd, is_wait}
use open_t_kernel.Wait.Release.{QueuesDistinct, Released, wait_release-Released, set_wercd-Released}

-- A task on the wait queue of semaphore `i`.
abbrev pub SemWait : Kernel → ℕ → ℕ → Type 0
SemWait k i t =
    (t ≢ null)
    × (has_wait (k.tcb t).state ≡ true)
    × ((k.tcb t).wid ≡ i)
    × (tskwait (k.tcb t).wspec ≡ ttw_sem)
    × (0 < sem_cnt (k.tcb t).winfo)
    × (sem_cnt (k.tcb t).winfo ≤ (k.semcb i).maxsem)

-- A task on the wait queue of event flag `i`.
abbrev pub FlgWait : Kernel → ℕ → ℕ → Type 0
FlgWait k i t =
    (t ≢ null)
    × (has_wait (k.tcb t).state ≡ true)
    × ((k.tcb t).wid ≡ i)
    × (tskwait (k.tcb t).wspec ≡ ttw_flg)

pub record WaitInv (k : Kernel) : Type 0 where
  pub ready_inv : ReadyInv k
  pub distinct : QueuesDistinct k
  pub sem_waits : (i : ℕ) → All (SemWait k i) (k.sem_que i)
  pub flg_waits : (i : ℕ) → All (FlgWait k i) (k.flg_que i)

wait_not_ready : (s : Tstat) → has_wait s ≡ true → s ≢ ready
wait_not_ready s h = ground arith

-- A task that does not wait is on no wait queue.
pub Unqueued-of_awake :
    (t : ℕ) (k : Kernel) → WaitInv k → has_wait (k.tcb t).state ≡ false → Unqueued t k
Unqueued-of_awake t k v e = (
  λ i. NotIn-of_All (SemWait k i) t (k.sem_que i) (λ w. absurd (ground arith)) (v.sem_waits i),
  λ i. NotIn-of_All (FlgWait k i) t (k.flg_que i) (λ w. absurd (ground arith)) (v.flg_waits i),
)

pub WaitInv-SchedFree : (k : Kernel) → WaitInv k → SchedFree k
WaitInv-SchedFree k v = free v.ready_inv.sched
  where
    free : NullOrReady k k.schedtsk → SchedFree k
    free (inl e) = inl e
    free (inr r) = inr (Unqueued-of_awake k.schedtsk k v (rw r refl))

wait_release-ReadyInv :
    (t : ℕ) (k : Kernel)
    → has_wait (k.tcb t).state ≡ true
    → ReadyInv k
    → ReadyInv (wait_release t k)
unfolding wait_release make_non_wait timer_delete que_remove_tsk
wait_release-ReadyInv t k w v =
    if_rule ReadyInv (is_wait (k.tcb t).state) _ _ (λ _. make_ready-ReadyInv t k1 v1 n)
      (λ _. set_tcb-ReadyInv t _ k1 (λ r. absurd (n r)) v1)
  where
    k1 : Kernel
    k1 = que_remove_tsk t (timer_delete (wtmeb t) k)

    v1 : ReadyInv k1
    v1 =
        que_remove-ReadyInv t (timer_delete (wtmeb t) k)
          (record { members = v.members; distinct = v.distinct; klock = v.klock; sched = v.sched })

    n : (k.tcb t).state ≢ ready
    n = wait_not_ready (k.tcb t).state w

-- A kernel whose task `t` was released still has its invariant.
pub Released-WaitInv :
    (t : ℕ) (k k' : Kernel) → WaitInv k → ReadyInv k' → Released t k k' → WaitInv k'
Released-WaitInv t k k' v y r = record {
  ready_inv = y;
  distinct = (
    λ i. rw (r.sem_que_erased i) (erase-Distinct t (k.sem_que i) (v.distinct.0 i)),
    λ i. rw (r.flg_que_erased i) (erase-Distinct t (k.flg_que i) (v.distinct.1 i)),
  );
  sem_waits = λ i. rw (r.sem_que_erased i) (
      All-erase_map (SemWait k i) (SemWait k' i) t (k.sem_que i) (v.distinct.0 i) (sem_keep i)
        (v.sem_waits i));
  flg_waits = λ i. rw (r.flg_que_erased i) (
      All-erase_map (FlgWait k i) (FlgWait k' i) t (k.flg_que i) (v.distinct.1 i) (flg_keep i)
        (v.flg_waits i));
}
  where
    sem_keep : (i u : ℕ) → u ≢ t → SemWait k i u → SemWait k' i u
    sem_keep i u n w = ground (arith, r.demand_same u, r.others_same u n, r.objects_same)

    flg_keep : (i u : ℕ) → u ≢ t → FlgWait k i u → FlgWait k' i u
    flg_keep i u n w = ground (arith, r.demand_same u, r.others_same u n)

pub wait_release-WaitInv :
    (t : ℕ) (k : Kernel)
    → WaitInv k
    → has_wait (k.tcb t).state ≡ true
    → Released t k (wait_release t k) × WaitInv (wait_release t k)
wait_release-WaitInv t k v w =
    let r = wait_release-Released t k (WaitInv-SchedFree k v) v.distinct in
    (r, Released-WaitInv t k (wait_release t k) v (wait_release-ReadyInv t k w v.ready_inv) r)

pub set_wercd-WaitInv :
    (t : ℕ) (e : Er) (k k' : Kernel)
    → Released t k k' × WaitInv k'
    → WaitInv k
    → Released t k (set_wercd t e k') × WaitInv (set_wercd t e k')
set_wercd-WaitInv t e k k' (r, y) v =
    let r' = set_wercd-Released t e k k' r in
    (
      r',
      Released-WaitInv t k (set_wercd t e k') v
          (set_tcb-ReadyInv t (record (k'.tcb t) { wercd = e }) k' (λ h. h) y.ready_inv) r',
    )

-- The release of a waiting task keeps the invariant.
pub wait_release_ok-WaitInv :
    (t : ℕ) (k : Kernel)
    → WaitInv k
    → has_wait (k.tcb t).state ≡ true
    → Released t k (wait_release_ok t k) × WaitInv (wait_release_ok t k)
unfolding wait_release_ok
wait_release_ok-WaitInv t k v w =
    set_wercd-WaitInv t e_ok k (wait_release t k) (wait_release-WaitInv t k v w) v
