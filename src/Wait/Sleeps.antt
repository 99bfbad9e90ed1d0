-- ===== src/Wait/Sleeps.antt =====
-- kernel/tkernel/src/wait.c: all that make_wait leaves.
use open_t_kernel.Base.{
  ℕ, ◌≡◌, ◌≢◌, ◌∙◌, refl, ap, arith, inl, inr, List, NotIn, erase, erase_of_NotIn, if_rule,
  if◌then◌else◌,
}
use open_t_kernel.Base.Int.{ℤ}
use open_t_kernel.Kernel.{
  Kernel, Tcb, Tstat, Event, nonexist, dormant, ready, wait, suspend, waitsus, wtmeb, null,
  que_remove_tsk,
}
use open_t_kernel.ReadyQueue.{ready_queue_delete, ready_queue_shrink}
use open_t_kernel.ReadyQueue.Frame.{Unqueued}
use open_t_kernel.Timer.{timer_insert, enqueue_tmeb, insert_event, is_fevr, ll_add, ltoll}
use open_t_kernel.Task.{make_non_ready}
use open_t_kernel.Task.Ready.{ReadyInv}
use open_t_kernel.Wait.{to_wait, enter_wait, make_wait}
use open_t_kernel.Wait.Frame.{make_wait-Aside, enter_wait-Aside}
use open_t_kernel.Wait.Enter.{Runs, Entered, make_wait-Entered}

-- `k'` with the TCBs, the ready queue, the schedule, the timer events and the wait queues of `k`.
abbrev pub put_back : Kernel → Kernel → Kernel
put_back k k' = record k' {
  tcb = k.tcb;
  top_priority = k.top_priority;
  rdy_que = k.rdy_que;
  bitmap = k.bitmap;
  klocktsk = k.klocktsk;
  schedtsk = k.schedtsk;
  timer_queue = k.timer_queue;
  lock_que = k.lock_que;
  svc_que = k.svc_que;
  sem_que = k.sem_que;
  flg_que = k.flg_que;
  smbf_que = k.smbf_que;
  rmbf_que = k.rmbf_que;
  mbx_que = k.mbx_que;
  mpf_que = k.mpf_que;
}

-- The timer events with that of a timeout.
abbrev pub with_timeout : ℕ → ℤ → Kernel → List Event
with_timeout t tmout k =
    if is_fevr tmout
    then k.timer_queue
    else insert_event
        (record {
          time = ll_add (ll_add k.current_time (ltoll tmout)) k.hw_timer_usec;
          tmeb = wtmeb t;
        })
        k.timer_queue

-- `t` has gone to sleep in `k'`: what is said of the tasks and the lines of semaphores and event flags, the other
-- lines in which it does not stand, the timer events, and that of the rest of the kernel nothing has changed.
pub record Sleeps (t : ℕ) (tmout : ℤ) (k k' : Kernel) : Type 0 where
  pub entered : Entered t k k'
  pub kept : put_back k k' ≡ k
  pub events : k'.timer_queue ≡ with_timeout t tmout k
  pub smbf_kept : (i : ℕ) → NotIn t (k.smbf_que i) → k'.smbf_que i ≡ k.smbf_que i
  pub rmbf_kept : (i : ℕ) → NotIn t (k.rmbf_que i) → k'.rmbf_que i ≡ k.rmbf_que i
  pub mbx_kept : (i : ℕ) → NotIn t (k.mbx_que i) → k'.mbx_que i ≡ k.mbx_que i
  pub mpf_kept : (i : ℕ) → NotIn t (k.mpf_que i) → k'.mpf_que i ≡ k.mpf_que i

module _ (q : Kernel → ℕ → List ℕ)
    (removed : (t : ℕ) (k : Kernel) (i : ℕ) → q (make_non_ready t k) i ≡ erase t (q k i))
    (tcbs : (f : ℕ → Tcb) (k : Kernel) → q (record k { tcb = f }) ≡ q k)
    (timers : (es : List Event) (k : Kernel) → q (record k { timer_queue = es }) ≡ q k) where
  to_wait-line :
      (t : ℕ) (k : Kernel) (i : ℕ)
      → Runs k t
      → NotIn t (q k i)
      → q (to_wait (k.tcb t).state t k) i ≡ q k i
  unfolding to_wait
  to_wait-line t k i (inl r) n =
      let k1 = make_non_ready t k in
      ap (λ s. q (to_wait s t k) i) r
      ∙ ap (λ f. f i) (tcbs _ k1)
      ∙ removed t k i
      ∙ erase_of_NotIn t (q k i) n
  to_wait-line t k i (inr r) n = ap (λ s. q (to_wait s t k) i) r ∙ ap (λ f. f i) (tcbs _ k)

  make_wait-line :
      (tmout : ℤ) (atr : ℕ) (k : Kernel) (i : ℕ)
      → Runs k k.ctxtsk
      → NotIn k.ctxtsk (q k i)
      → q (make_wait tmout atr k) i ≡ q k i
  unfolding make_wait enter_wait timer_insert enqueue_tmeb
  make_wait-line tmout atr k i r n =
      let e =
        ap (λ f. f i) (tcbs _ (to_wait (k.tcb k.ctxtsk).state k.ctxtsk k))
        ∙ to_wait-line k.ctxtsk k i r n in
      if_rule (λ k'. q k' i ≡ q k i) (is_fevr tmout) (enter_wait atr k) _ (λ _. e)
        (λ _. ap (λ f. f i) (timers _ (enter_wait atr k)) ∙ e)

module _ (t : ℕ) (k : Kernel) where
  non_ready-timer_queue : (make_non_ready t k).timer_queue ≡ k.timer_queue
  unfolding make_non_ready ready_queue_delete que_remove_tsk ready_queue_shrink
  non_ready-timer_queue = ground arith

  non_ready-smbf_que : (i : ℕ) → (make_non_ready t k).smbf_que i ≡ erase t (k.smbf_que i)
  unfolding make_non_ready ready_queue_delete que_remove_tsk ready_queue_shrink
  non_ready-smbf_que i = ground arith

  non_ready-rmbf_que : (i : ℕ) → (make_non_ready t k).rmbf_que i ≡ erase t (k.rmbf_que i)
  unfolding make_non_ready ready_queue_delete que_remove_tsk ready_queue_shrink
  non_ready-rmbf_que i = ground arith

  non_ready-mbx_que : (i : ℕ) → (make_non_ready t k).mbx_que i ≡ erase t (k.mbx_que i)
  unfolding make_non_ready ready_queue_delete que_remove_tsk ready_queue_shrink
  non_ready-mbx_que i = ground arith

  non_ready-mpf_que : (i : ℕ) → (make_non_ready t k).mpf_que i ≡ erase t (k.mpf_que i)
  unfolding make_non_ready ready_queue_delete que_remove_tsk ready_queue_shrink
  non_ready-mpf_que i = ground arith

to_wait-timer_queue : (s : Tstat) (t : ℕ) (k : Kernel) → (to_wait s t k).timer_queue ≡ k.timer_queue
unfolding to_wait
to_wait-timer_queue ready t k = non_ready-timer_queue t k
to_wait-timer_queue suspend t k = refl
to_wait-timer_queue nonexist t k = refl
to_wait-timer_queue wait t k = refl
to_wait-timer_queue waitsus t k = refl
to_wait-timer_queue dormant t k = refl

make_wait-timer_queue :
    (tmout : ℤ) (atr : ℕ) (k : Kernel)
    → (make_wait tmout atr k).timer_queue ≡ with_timeout k.ctxtsk tmout k
unfolding make_wait enter_wait timer_insert enqueue_tmeb
make_wait-timer_queue tmout atr k =
    let e = to_wait-timer_queue (k.tcb k.ctxtsk).state k.ctxtsk k in
    let c =
      enter_wait-Aside (λ k'. k'.current_time) (λ j a b c d e f g h i l m n o p q. refl) atr k in
    let u =
      enter_wait-Aside (λ k'. k'.hw_timer_usec) (λ j a b c d e f g h i l m n o p q. refl) atr k in
    ground (arith, e, c, u)

-- make_wait of a task in execution that stands in no line of a semaphore or an event flag puts it to sleep and
-- keeps the ready queue in order, where it was. The other tasks keep their states, and all tasks what they wait for; the lines of
-- semaphores and event flags stay as they are, and so do the lines of message buffers, mailboxes and memory pools
-- in which the task does not stand. The timer events are those from before, with the timeout in its place where the
-- wait has an end. The control blocks of all objects and whatever else is neither a TCB, nor the ready queue or the
-- schedule, nor the line of a lock, stays as it is.
pub make_wait-Sleeps :
    (tmout : ℤ) (atr : ℕ) (k : Kernel)
    → k.ctxtsk ≢ null
    → Runs k k.ctxtsk
    → ReadyInv k
    → Unqueued k.ctxtsk k
    → Sleeps k.ctxtsk tmout k (make_wait tmout atr k)
make_wait-Sleeps tmout atr k z r v u = record {
  entered = make_wait-Entered tmout atr k z r v u;
  kept = make_wait-Aside (put_back k) (λ j a b c d e f g h i l m n o p q. refl) tmout atr k;
  events = make_wait-timer_queue tmout atr k;
  smbf_kept = λ i.
      make_wait-line (λ k'. k'.smbf_que) non_ready-smbf_que (λ f k'. refl) (λ e k'. refl) tmout atr
        k i r;
  rmbf_kept = λ i.
      make_wait-line (λ k'. k'.rmbf_que) non_ready-rmbf_que (λ f k'. refl) (λ e k'. refl) tmout atr
        k i r;
  mbx_kept = λ i.
      make_wait-line (λ k'. k'.mbx_que) non_ready-mbx_que (λ f k'. refl) (λ e k'. refl) tmout atr k
        i r;
  mpf_kept = λ i.
      make_wait-line (λ k'. k'.mpf_que) non_ready-mpf_que (λ f k'. refl) (λ e k'. refl) tmout atr k
        i r;
}
