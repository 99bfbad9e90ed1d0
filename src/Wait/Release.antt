-- ===== src/Wait/Release.antt =====
-- What the release of a waiting task does to the objects and to the other tasks.
use open_t_kernel.Base.{
  ℕ, ◌≡◌, ◌≢◌, inl, inr, refl, ◌∙◌, arith, NotIn-erase, Distinct, erase, erase-NotIn, false,
  if_rule,
}
use open_t_kernel.Kernel.{
  Kernel, Tcb, suspend, has_wait, set_tcb, que_remove_tsk, wtmeb, Wspec, Winfo, Er, e_ok,
}
use open_t_kernel.Timer.{timer_delete}
use open_t_kernel.Wait.{make_non_wait, wait_release, wait_release_ok, set_wercd}
use open_t_kernel.Task.{make_ready}
use open_t_kernel.Task.Frame.{
  SchedFree, make_ready-Scheduled, make_ready-state, make_ready-SchedFree,
}
use open_t_kernel.ReadyQueue.Frame.{waiting, objects, Unqueued}

-- Every wait queue holds a task at most once.
abbrev pub QueuesDistinct : Kernel → Type 0
QueuesDistinct k = ((i : ℕ) → Distinct (k.sem_que i)) × ((i : ℕ) → Distinct (k.flg_que i))

-- The fields for waiting, but for the error code.
abbrev pub demand : Tcb → Wspec × ℕ × Winfo × ℕ × ℕ
demand c = (c.wspec, c.wid, c.winfo, c.waitmask, c.priority)

-- `t` has left its queue and no longer waits; the objects and the other tasks are as they were.
pub record Released (t : ℕ) (k k' : Kernel) : Type 0 where
  pub objects_same : objects k' ≡ objects k
  pub sem_que_erased : (i : ℕ) → k'.sem_que i ≡ erase t (k.sem_que i)
  pub flg_que_erased : (i : ℕ) → k'.flg_que i ≡ erase t (k.flg_que i)
  pub demand_same : (u : ℕ) → demand (k'.tcb u) ≡ demand (k.tcb u)
  pub others_same :
      (u : ℕ)
      → u ≢ t
      → ((k'.tcb u).state ≡ (k.tcb u).state)
        × ((k'.tcb u).wercd ≡ (k.tcb u).wercd)
        × ((k'.tcb u).flgptn ≡ (k.tcb u).flgptn)
  pub awake : has_wait (k'.tcb t).state ≡ false
  pub sched_free : SchedFree k'

removed : ℕ → Kernel → Kernel
unfolding que_remove_tsk timer_delete
removed t k = que_remove_tsk t (timer_delete (wtmeb t) k)

removed-SchedFree : (t : ℕ) (k : Kernel) → SchedFree k → SchedFree (removed t k)
unfolding removed
removed-SchedFree t k (inl e) = inl e
removed-SchedFree t k (inr u) = inr (
  λ i. NotIn-erase k.schedtsk t (k.sem_que i) (u.0 i),
  λ i. NotIn-erase k.schedtsk t (k.flg_que i) (u.1 i),
)

removed-Unqueued : (t : ℕ) (k : Kernel) → QueuesDistinct k → Unqueued t (removed t k)
unfolding removed
removed-Unqueued t k d =
    (λ i. erase-NotIn t (k.sem_que i) (d.0 i), λ i. erase-NotIn t (k.flg_que i) (d.1 i))

waiting-demand :
    (a b : Tcb)
    → waiting a ≡ waiting b
    → (demand a ≡ demand b) × (a.wercd ≡ b.wercd) × (a.flgptn ≡ b.flgptn)
waiting-demand a b h = (cc, cc, cc)

ready-Released :
    (t : ℕ) (k : Kernel)
    → SchedFree k
    → QueuesDistinct k
    → Released t k (make_ready t (removed t k))
unfolding removed
ready-Released t k f d =
    let s = make_ready-Scheduled t (removed t k) (removed-SchedFree t k f) in
    let w =
      λ (u : ℕ). waiting-demand ((make_ready t (removed t k)).tcb u) (k.tcb u) (s.waiting_same u) in
    record {
      objects_same = s.objects_same;
      sem_que_erased = s.sem_que_same;
      flg_que_erased = s.flg_que_same;
      demand_same = λ u. (w u).0;
      others_same = λ u n. (make_ready-state t (removed t k) u ∙ ground arith, (w u).1, (w u).2);
      awake = rw (make_ready-state t (removed t k) t) (ground arith);
      sched_free =
          make_ready-SchedFree t (removed t k) (removed-SchedFree t k f) (removed-Unqueued t k d);
    }

suspend-Released :
    (t : ℕ) (k : Kernel)
    → SchedFree k
    → Released t k (set_tcb t (record ((removed t k).tcb t) { state = suspend }) (removed t k))
unfolding removed
suspend-Released t k f = record {
  objects_same = refl;
  sem_que_erased = λ i. refl;
  flg_que_erased = λ i. refl;
  demand_same = λ u. ground arith;
  others_same = λ u n. (ground arith, ground arith, ground arith);
  awake = ground arith;
  sched_free = removed-SchedFree t k f;
}

-- Releasing a task takes it off its queue and ends its wait, and touches nothing else of what
-- waiting tasks depend on.
pub wait_release-Released :
    (t : ℕ) (k : Kernel) → SchedFree k → QueuesDistinct k → Released t k (wait_release t k)
unfolding wait_release make_non_wait removed
wait_release-Released t k f d =
    if_rule (Released t k) _ _ _ (λ _. ready-Released t k f d) (λ _. suspend-Released t k f)

pub set_wercd-Released :
    (t : ℕ) (e : Er) (k k' : Kernel) → Released t k k' → Released t k (set_wercd t e k')
set_wercd-Released t e k k' r = record {
  objects_same = r.objects_same;
  sem_que_erased = r.sem_que_erased;
  flg_que_erased = r.flg_que_erased;
  demand_same = λ u. ground (arith, r.demand_same u);
  others_same = λ u n. ground (arith, r.others_same u n);
  awake = ground (arith, r.awake);
  sched_free = r.sched_free;
}

pub wait_release_ok-Released :
    (t : ℕ) (k : Kernel) → SchedFree k → QueuesDistinct k → Released t k (wait_release_ok t k)
unfolding wait_release_ok
wait_release_ok-Released t k f d =
    set_wercd-Released t e_ok k (wait_release t k) (wait_release-Released t k f d)
