-- ===== src/TimerHandler.antt =====
-- kernel/tkernel/src/timer.c: timer_handler, which runs at each tick of the hardware timer. `user`
-- stands for the handlers of applications. Each callback runs in the critical section of the handler.
pub mod Frame
pub mod Due
mod Tests
use open_t_kernel.Base.{
  ℕ, zero, suc, Bool, true, not, ◌==◌, ltb, if◌then◌else◌, List, [], ◌∷◌, Option, none, some, ◌+◌,
  ◌%◌, ◌^◌,
}
use open_t_kernel.Base.Int.{ℤ}
use open_t_kernel.Kernel.{
  Kernel, Tcb, Tmeb, Event, wtmeb, cyctmeb, almtmeb, Wspec, wspec_sem_tfifo, wspec_sem_tpri,
  wspec_flg_tpri, wspec_smbf_tfifo, wspec_smbf_tpri, wspec_mbx_tpri, wspec_mpf_tpri, null, set_tcb,
}
use open_t_kernel.Timer.{ll_add, ll_gt}
use open_t_kernel.Task.{Hooks, time_slice_schedule}
use open_t_kernel.Wait.{wait_release_tmout}
use open_t_kernel.Semaphore.{sem_chg_pri, sem_rel_wai}
use open_t_kernel.EventFlag.{flg_chg_pri}
use open_t_kernel.MessageBuf.{mbf_chg_pri, mbf_rel_wai}
use open_t_kernel.Mailbox.{mbx_chg_pri}
use open_t_kernel.MemPool.{mpf_chg_pri}
use open_t_kernel.Cyclic.{User, call_cychdr}
use open_t_kernel.Alarm.{call_almhdr}

-- The hooks of the WSPEC constants of semaphore.c, eventflag.c, messagebuf.c, mailbox.c,
-- mempfix.c and task_sync.c.
unfoldable pub chg_pri_hook_of : Wspec → Option (ℕ → ℤ → Kernel → Kernel)
chg_pri_hook_of wspec_sem_tpri = some sem_chg_pri
chg_pri_hook_of wspec_flg_tpri = some flg_chg_pri
chg_pri_hook_of wspec_smbf_tpri = some mbf_chg_pri
chg_pri_hook_of wspec_mbx_tpri = some mbx_chg_pri
chg_pri_hook_of wspec_mpf_tpri = some mpf_chg_pri
chg_pri_hook_of w = none

unfoldable pub rel_wai_hook_of : Wspec → Option (ℕ → Kernel → Kernel)
rel_wai_hook_of wspec_sem_tfifo = some sem_rel_wai
rel_wai_hook_of wspec_sem_tpri = some sem_rel_wai
rel_wai_hook_of wspec_smbf_tfifo = some mbf_rel_wai
rel_wai_hook_of wspec_smbf_tpri = some mbf_rel_wai
rel_wai_hook_of w = none

abbrev pub kernel_hooks : Hooks
kernel_hooks = record { chg_pri_hook = chg_pri_hook_of; rel_wai_hook = rel_wai_hook_of }

-- event->callback, on event->arg
unfoldable pub callback : User → Tmeb → Kernel → Kernel
callback user (wtmeb t) k = wait_release_tmout kernel_hooks t k
callback user (cyctmeb id) k = call_cychdr user id k
callback user (almtmeb id) k = call_almhdr user id k

-- The loop of timer_handler; `none` where the fuel is spent.
unfoldable pub run_events : ℕ → User → Kernel → Option Kernel
run_events zero user k = none
run_events (suc fuel) user k = elim k.timer_queue [
  | [] ↦ some k
  | event ∷ queue ↦
      let rest =
        run_events fuel user (callback user event.tmeb (record k { timer_queue = queue })) in
      if ll_gt event.time k.current_time then some k else rest
]

-- The part of timer_handler on the task in execution.
unfoldable pub count_time : Kernel → Kernel
count_time k =
    if not (k.ctxtsk == null)
    then (let ctx = k.ctxtsk in
        let c = k.tcb ctx in
        let k1 =
          set_tcb ctx
            (if ltb 0 c.sysmode
              then record c { stime = (c.stime + k.timer_period) % 2 ^ 64 }
              else record c { utime = (c.utime + k.timer_period) % 2 ^ 64 })
            k in
        if k1.schedtsk == ctx
        then (let s = time_slice_schedule ctx k1 in record s.1 { schedtsk = s.0 })
        else k1)
    else k

-- timer_handler
unfoldable pub timer_handler : ℕ → User → Kernel → Option Kernel
timer_handler fuel user k =
    run_events fuel user
      (count_time (record k { current_time = ll_add k.current_time k.timer_period }))
