-- ===== src/TaskSync/History.antt =====
-- kernel/tkernel/src/task_sync.c and tk_dly_tsk_u of time_calls.c: the calls and the dispatcher as
-- steps, and what every sequence of them keeps.
use open_t_kernel.Base.{ℕ, All-map}
use open_t_kernel.Base.Int.{ℤ}
use open_t_kernel.Kernel.{Kernel}
use open_t_kernel.Wait.Enter.{Runs}
use open_t_kernel.Wait.Inv.{WaitInv, SemWait, FlgWait}
use open_t_kernel.TaskSync.{tk_slp_tsk_u, tk_wai_tev_u, tk_wup_tsk, tk_sig_tev, tk_sus_tsk}
use open_t_kernel.TaskSync.Inv.{
  tk_slp_tsk_u-WaitInv, tk_wai_tev_u-WaitInv, tk_wup_tsk-WaitInv, tk_sig_tev-WaitInv,
}
use open_t_kernel.Delay.{tk_dly_tsk_u}
use open_t_kernel.Delay.Calls.{tk_dly_tsk_u-WaitInv}
use open_t_kernel.TaskSync.Suspend.{tk_sus_tsk-WaitInv}

-- One system call, with any arguments, or a dispatch. A call that may wait is made by a task in execution.
pub data Call : Kernel → Kernel → Type 0 where
  sleeps : (tmout : ℤ) (k : Kernel) → Runs k k.ctxtsk → Call k (tk_slp_tsk_u tmout k).1
  delays : (dlytim : ℕ) (k : Kernel) → Runs k k.ctxtsk → Call k (tk_dly_tsk_u dlytim k).1
  awaits :
      (waiptn tmout : ℤ) (k : Kernel) → Runs k k.ctxtsk → Call k (tk_wai_tev_u waiptn tmout k).1
  wakes : (tskid : ℤ) (k : Kernel) → Call k (tk_wup_tsk tskid k).1
  signals : (tskid tskevt : ℤ) (k : Kernel) → Call k (tk_sig_tev tskid tskevt k).1
  suspends : (tskid : ℤ) (k : Kernel) → Call k (tk_sus_tsk tskid k).1
  dispatches : (k : Kernel) → Call k (record k { ctxtsk = k.schedtsk })

pub data History : Kernel → Kernel → Type 0 where
  quiet : {k : Kernel} → History k k
  followed : {a b c : Kernel} → Call a b → History b c → History a c

dispatch-WaitInv : (k : Kernel) → WaitInv k → WaitInv (record k { ctxtsk = k.schedtsk })
dispatch-WaitInv k v =
    let k' = record k { ctxtsk = k.schedtsk } in
    record {
      ready_inv = record {
        members = v.ready_inv.members;
        distinct = v.ready_inv.distinct;
        klock = v.ready_inv.klock;
        sched = v.ready_inv.sched;
      };
      distinct = v.distinct;
      sem_waits =
          λ i. All-map (SemWait k i) (SemWait k' i) (k.sem_que i) (λ t w. w) (v.sem_waits i);
      flg_waits =
          λ i. All-map (FlgWait k i) (FlgWait k' i) (k.flg_que i) (λ t w. w) (v.flg_waits i);
    }

event-WaitInv : (a b : Kernel) → Call a b → WaitInv a → WaitInv b
event-WaitInv a b (sleeps tmout k r) v = tk_slp_tsk_u-WaitInv tmout k v r
event-WaitInv a b (delays dlytim k r) v = tk_dly_tsk_u-WaitInv dlytim k v r
event-WaitInv a b (awaits waiptn tmout k r) v = tk_wai_tev_u-WaitInv waiptn tmout k v r
event-WaitInv a b (wakes tskid k) v = tk_wup_tsk-WaitInv tskid k v
event-WaitInv a b (signals tskid tskevt k) v = tk_sig_tev-WaitInv tskid tskevt k v
event-WaitInv a b (suspends tskid k) v = tk_sus_tsk-WaitInv tskid k v
event-WaitInv a b (dispatches k) v = dispatch-WaitInv k v

-- Every sequence of sleeps, delays, waits for task events, wakeups, task events, suspensions and
-- dispatches, accepted or refused, keeps the invariant of the ready queue and the wait queues, where the
-- tasks that sleep, delay or wait for events are in execution.
pub History-WaitInv : (a b : Kernel) → History a b → WaitInv a → WaitInv b
History-WaitInv a b quiet v = v
History-WaitInv a b (followed {b = m} e h) v = History-WaitInv m b h (event-WaitInv a m e v)
