-- ===== src/Wait/Enter.antt =====
-- The task in execution enters the wait state: make_wait.
use open_t_kernel.Base.{
  ℕ, ◌≡◌, ◌≢◌, ◌⊎◌, inl, inr, refl, ◌∙◌, arith, erase, erase_of_NotIn, true, Bool-cases,
}
use open_t_kernel.Base.Int.{ℤ}
use open_t_kernel.Kernel.{Kernel, Tcb, ready, suspend, has_wait, null, set_tcb, wtmeb, Event}
use open_t_kernel.Timer.{timer_insert, timer_insert_reltim, enqueue_tmeb, is_fevr}
use open_t_kernel.Task.{make_non_ready}
use open_t_kernel.ReadyQueue.Frame.{
  waiting, objects, Unqueued, objects-delete, sem_que-delete, flg_que-delete, waiting-delete,
  state-delete, tasks-delete,
}
use open_t_kernel.Task.Ready.{ReadyInv}
use open_t_kernel.Task.Leave.{Absent, set_tcb-Absent, not_ready-Absent, make_non_ready-Absent}
use open_t_kernel.Wait.{to_wait, enter_wait, make_wait, make_wait_reltim}

-- `t` is made to wait; the objects, the wait queues and the other tasks are as before.
pub record Entered (t : ℕ) (k k' : Kernel) : Type 0 where
  pub ready_inv : ReadyInv k'
  pub objects_same : objects k' ≡ objects k
  pub sem_que_same : (i : ℕ) → k'.sem_que i ≡ k.sem_que i
  pub flg_que_same : (i : ℕ) → k'.flg_que i ≡ k.flg_que i
  pub waiting_same : (u : ℕ) → waiting (k'.tcb u) ≡ waiting (k.tcb u)
  pub state_same : (u : ℕ) → u ≢ t → (k'.tcb u).state ≡ (k.tcb u).state
  pub asleep : has_wait (k'.tcb t).state ≡ true
  pub ctxtsk_same : k'.ctxtsk ≡ k.ctxtsk

-- A task in execution is READY, or SUSPENDed meanwhile by an interrupt handler.
abbrev pub Runs : Kernel → ℕ → Type 0
Runs k t = ((k.tcb t).state ≡ ready) ⊎ ((k.tcb t).state ≡ suspend)

module _ (t : ℕ) (k : Kernel) where
  pub non_ready-objects : objects (make_non_ready t k) ≡ objects k
  unfolding make_non_ready
  non_ready-objects = ground (arith, objects-delete t k)

  pub non_ready-sem_que : (i : ℕ) → (make_non_ready t k).sem_que i ≡ erase t (k.sem_que i)
  unfolding make_non_ready
  non_ready-sem_que i = ground (arith, sem_que-delete t k i)

  pub non_ready-flg_que : (i : ℕ) → (make_non_ready t k).flg_que i ≡ erase t (k.flg_que i)
  unfolding make_non_ready
  non_ready-flg_que i = ground (arith, flg_que-delete t k i)

  pub non_ready-waiting : (u : ℕ) → waiting ((make_non_ready t k).tcb u) ≡ waiting (k.tcb u)
  unfolding make_non_ready
  non_ready-waiting u = ground (arith, waiting-delete t k u)

  pub non_ready-state : (u : ℕ) → ((make_non_ready t k).tcb u).state ≡ (k.tcb u).state
  unfolding make_non_ready
  non_ready-state u = ground (arith, state-delete t k u)

  pub non_ready-ctxtsk : (make_non_ready t k).ctxtsk ≡ k.ctxtsk
  unfolding make_non_ready
  non_ready-ctxtsk = ground (arith, tasks-delete t k)

-- Storing in the TCB of an absent task a state of waiting, and nothing else that waiting uses.
store_asleep :
    (t : ℕ) (c : Tcb) (k k1 : Kernel)
    → Absent t k1
    → objects k1 ≡ objects k
    → ((i : ℕ) → k1.sem_que i ≡ k.sem_que i)
    → ((i : ℕ) → k1.flg_que i ≡ k.flg_que i)
    → ((u : ℕ) → waiting (k1.tcb u) ≡ waiting (k.tcb u))
    → ((u : ℕ) → (k1.tcb u).state ≡ (k.tcb u).state)
    → k1.ctxtsk ≡ k.ctxtsk
    → has_wait c.state ≡ true
    → waiting c ≡ waiting (k1.tcb t)
    → Entered t k (set_tcb t c k1) × Absent t (set_tcb t c k1)
store_asleep t c k k1 a o s f w st x h e =
    let a' = set_tcb-Absent t c k1 a in
    (
      record {
        ready_inv = a'.inv;
        objects_same = o;
        sem_que_same = s;
        flg_que_same = f;
        waiting_same = λ u. ground (arith, w u);
        state_same = λ u n. ground (arith, st u);
        asleep = ground arith;
        ctxtsk_same = x;
      },
      a',
    )

to_wait-Entered :
    (t : ℕ) (k : Kernel)
    → t ≢ null
    → Runs k t
    → ReadyInv k
    → Unqueued t k
    → Entered t k (to_wait (k.tcb t).state t k) × Absent t (to_wait (k.tcb t).state t k)
unfolding to_wait
to_wait-Entered t k z (inl r) v u =
    rw (r, to_wait)
      (store_asleep t _ k (make_non_ready t k) (make_non_ready-Absent t k z v)
        (non_ready-objects t k)
        (λ i. non_ready-sem_que t k i ∙ erase_of_NotIn t (k.sem_que i) (u.0 i))
        (λ i. non_ready-flg_que t k i ∙ erase_of_NotIn t (k.flg_que i) (u.1 i))
        (non_ready-waiting t k) (non_ready-state t k) (non_ready-ctxtsk t k) refl refl)
to_wait-Entered t k z (inr r) v u =
    rw (r, to_wait)
      (store_asleep t _ k k (not_ready-Absent t k z (λ p. cc) v) refl (λ i. refl) (λ i. refl)
        (λ i. refl) (λ i. refl) refl refl refl)

-- A store that does not concern waiting.
store_same :
    (t : ℕ) (c : Tcb) (k k1 : Kernel)
    → Entered t k k1
    → Absent t k1
    → c.state ≡ (k1.tcb t).state
    → waiting c ≡ waiting (k1.tcb t)
    → Entered t k (set_tcb t c k1)
store_same t c k k1 s a h e = record {
  ready_inv = (set_tcb-Absent t c k1 a).inv;
  objects_same = s.objects_same;
  sem_que_same = s.sem_que_same;
  flg_que_same = s.flg_que_same;
  waiting_same = λ u. ground (arith, s.waiting_same u);
  state_same = λ u n. ground (arith, s.state_same u n);
  asleep = ground (arith, s.asleep);
  ctxtsk_same = s.ctxtsk_same;
}

enqueue-Entered :
    (t : ℕ) (e : Event) (k k1 : Kernel) → Entered t k k1 → Entered t k (enqueue_tmeb e k1)
unfolding enqueue_tmeb
enqueue-Entered t e k k1 s = record {
  ready_inv = record {
    members = s.ready_inv.members;
    distinct = s.ready_inv.distinct;
    klock = s.ready_inv.klock;
    sched = s.ready_inv.sched;
  };
  objects_same = s.objects_same;
  sem_que_same = s.sem_que_same;
  flg_que_same = s.flg_que_same;
  waiting_same = s.waiting_same;
  state_same = s.state_same;
  asleep = s.asleep;
  ctxtsk_same = s.ctxtsk_same;
}

timer_insert-Entered :
    (t : ℕ) (tmout : ℤ) (k k1 : Kernel)
    → Entered t k k1
    → Entered t k (timer_insert (wtmeb t) tmout k1)
unfolding timer_insert
timer_insert-Entered t tmout k k1 s = elim (Bool-cases (is_fevr tmout)) [
  | inl e ↦ rw e s
  | inr e ↦ rw e (enqueue-Entered t _ k k1 s)
]

enter_wait-Entered :
    (atr : ℕ) (k : Kernel)
    → k.ctxtsk ≢ null
    → Runs k k.ctxtsk
    → ReadyInv k
    → Unqueued k.ctxtsk k
    → Entered k.ctxtsk k (enter_wait atr k)
unfolding enter_wait
enter_wait-Entered atr k z r v u =
    let t = k.ctxtsk in
    let (s, a) = to_wait-Entered t k z r v u in
    store_same t _ k (to_wait (k.tcb t).state t k) s a refl refl

-- make_wait puts the task in execution to sleep and changes nothing else that waiting tasks and
-- objects depend on.
pub make_wait-Entered :
    (tmout : ℤ) (atr : ℕ) (k : Kernel)
    → k.ctxtsk ≢ null
    → Runs k k.ctxtsk
    → ReadyInv k
    → Unqueued k.ctxtsk k
    → Entered k.ctxtsk k (make_wait tmout atr k)
unfolding make_wait
make_wait-Entered tmout atr k z r v u =
    timer_insert-Entered k.ctxtsk tmout k (enter_wait atr k) (enter_wait-Entered atr k z r v u)

-- make_wait_reltim likewise.
pub make_wait_reltim-Entered :
    (tmout atr : ℕ) (k : Kernel)
    → k.ctxtsk ≢ null
    → Runs k k.ctxtsk
    → ReadyInv k
    → Unqueued k.ctxtsk k
    → Entered k.ctxtsk k (make_wait_reltim tmout atr k)
unfolding make_wait_reltim timer_insert_reltim
make_wait_reltim-Entered tmout atr k z r v u =
    enqueue-Entered k.ctxtsk _ k (enter_wait atr k) (enter_wait-Entered atr k z r v u)
