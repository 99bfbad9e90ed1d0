-- ===== src/Tests.antt =====
-- The theorems on tasks, waiting and semaphores, at the kernel of `Example`.
use open_t_kernel.Base.{◌↔◌, All, ◌≡◌, ◌≢◌, refl, arith, [], ◌∷◌, inl}
use open_t_kernel.Base.Int.{pos, negsuc}
use open_t_kernel.Kernel.{Kernel, set_tcb, Event, wtmeb, e_ok}
use open_t_kernel.Example.{
  kernel, kernel-ReadyInv, kernel-WaitInv, kernel-SemaphoresInv, kernel-FlagsInv,
}
use open_t_kernel.Task.{make_ready}
use open_t_kernel.ReadyQueue.{ready_queue_top}
use open_t_kernel.Wait.{wait_release_ok, make_wait}
use open_t_kernel.Wait.Release.{Released}
use open_t_kernel.Wait.Inv.{WaitInv, wait_release_ok-WaitInv, Unqueued-of_awake}
use open_t_kernel.EventFlag.{tk_set_flg}
use open_t_kernel.EventFlag.Inv.{FlagsInv, tk_set_flg-FlagsInv}
use open_t_kernel.Timer.{timer_insert}
use open_t_kernel.Timer.Order.{InOrder, left_until, event_of, timer_insert-InOrder}
use open_t_kernel.Task.Klock.{make_ready_over_klock}
use open_t_kernel.TaskSync.{check_other, tk_slp_tsk_u, tk_wup_tsk, tk_sus_tsk, tk_rsm_tsk}
use open_t_kernel.TaskSync.History.{quiet, followed, sleeps, wakes, suspends, History-WaitInv}
use open_t_kernel.TaskSync.Resume.{tk_rsm_tsk-tk_sus_tsk}
use open_t_kernel.Wait.Sleeps.{Sleeps, make_wait-Sleeps}
use open_t_kernel.Semaphore.{tk_sig_sem, tk_wai_sem, tk_wai_sem_u}
use open_t_kernel.Semaphore.Spec.{left, granted, balance}
use open_t_kernel.Semaphore.Served.{Served}
use open_t_kernel.Semaphore.Inv.{SemaphoresInv}
use open_t_kernel.Semaphore.SigSem.{
  Accepts, semcb_back, tk_sig_sem-Served, tk_sig_sem_refused, tk_sig_sem-SemaphoresInv,
}
use open_t_kernel.Semaphore.WaiSem.{Admits}
use open_t_kernel.Semaphore.WaiInv.{
  Outcome, tk_wai_sem_u-Outcome, tk_wai_sem_u_refused, tk_wai_sem-SemaphoresInv,
}

signal : Accepts (pos 1) (pos 2) kernel
signal = record { id_valid = refl; positive = refl; exists = λ p. ground arith; room = omega arith }

-- Two counts come back: task 2 gets them, and task 3 stays in line.
tk_sig_sem-Served_example :
    ((tk_sig_sem (pos 1) (pos 2) kernel).0 ≡ e_ok)
    × Served 1 kernel (tk_sig_sem (pos 1) (pos 2) kernel).1 (2 ∷ []) (3 ∷ []) 0
    × (semcb_back kernel (tk_sig_sem (pos 1) (pos 2) kernel).1 ≡ kernel)
unfolding granted left balance
tk_sig_sem-Served_example = tk_sig_sem-Served (pos 1) (pos 2) kernel kernel-WaitInv signal

tk_sig_sem_refused_example :
    ((tk_sig_sem (pos 1) (negsuc 0) kernel).1 ≡ kernel)
    × ((tk_sig_sem (pos 1) (negsuc 0) kernel).0 ≢ e_ok)
tk_sig_sem_refused_example =
    tk_sig_sem_refused (pos 1) (negsuc 0) kernel
      (λ (a : Accepts (pos 1) (negsuc 0) kernel). let p = a.positive in cc)

tk_sig_sem-SemaphoresInv_example : SemaphoresInv (tk_sig_sem (pos 1) (pos 2) kernel).1
tk_sig_sem-SemaphoresInv_example =
    tk_sig_sem-SemaphoresInv (pos 1) (pos 2) kernel kernel-SemaphoresInv

request : Admits (pos 1) (pos 3) (pos 50) kernel
request = record {
  id_valid = refl;
  positive = refl;
  timeout = refl;
  dispatch = refl;
  exists = λ p. ground arith;
  fits = omega arith;
  enabled = refl;
}

tk_wai_sem_u-Outcome_example :
    Outcome 1 3
      (pos 50)
      kernel
      (tk_wai_sem_u (pos 1) (pos 3) (pos 50) kernel).0
      (tk_wai_sem_u (pos 1) (pos 3) (pos 50) kernel).1
tk_wai_sem_u-Outcome_example =
    tk_wai_sem_u-Outcome (pos 1) (pos 3) (pos 50) kernel kernel-SemaphoresInv (inl refl) request

tk_wai_sem_u_refused_example :
    ((tk_wai_sem_u (pos 4) (pos 3) (pos 50) kernel).1 ≡ kernel)
    × ((tk_wai_sem_u (pos 4) (pos 3) (pos 50) kernel).0 ≢ e_ok)
tk_wai_sem_u_refused_example =
    tk_wai_sem_u_refused (pos 4) (pos 3) (pos 50) kernel
      (λ (a : Admits (pos 4) (pos 3) (pos 50) kernel). let p = a.id_valid in cc)

tk_wai_sem-SemaphoresInv_example : SemaphoresInv (tk_wai_sem (pos 1) (pos 3) (pos 50) kernel).1
tk_wai_sem-SemaphoresInv_example =
    tk_wai_sem-SemaphoresInv (pos 1) (pos 3) (pos 50) kernel kernel-SemaphoresInv (inl refl)

wait_release_ok-WaitInv_example :
    Released 2 kernel (wait_release_ok 2 kernel) × WaitInv (wait_release_ok 2 kernel)
wait_release_ok-WaitInv_example = wait_release_ok-WaitInv 2 kernel kernel-WaitInv refl

make_wait-Sleeps_example : Sleeps 1 (pos 50) kernel (make_wait (pos 50) 0 kernel)
make_wait-Sleeps_example =
    make_wait-Sleeps (pos 50) 0 kernel (λ p. ground arith) (inl refl) kernel-ReadyInv
      (Unqueued-of_awake 1 kernel kernel-WaitInv refl)

tk_set_flg-FlagsInv_example : FlagsInv (tk_set_flg (pos 1) 3 kernel).1
tk_set_flg-FlagsInv_example = tk_set_flg-FlagsInv (pos 1) 3 kernel kernel-FlagsInv

other_three : check_other (pos 3) kernel ≡ e_ok
unfolding check_other
other_three = refl

tk_rsm_tsk-tk_sus_tsk_example :
    ((tk_sus_tsk (pos 3) kernel).0 ≡ e_ok)
    × (tk_rsm_tsk (pos 3) (tk_sus_tsk (pos 3) kernel).1 ≡ (e_ok, kernel))
tk_rsm_tsk-tk_sus_tsk_example =
    tk_rsm_tsk-tk_sus_tsk (pos 3) kernel other_three refl refl (λ p. ground arith)

timer_insert-InOrder_example :
    let q = (timer_insert (wtmeb 1) (pos 200) kernel).timer_queue in
    InOrder 5000 q
    × (left_until 5000 (event_of (wtmeb 1) 200 kernel).time ≡ 210)
    × ((P : Event → Type 0)
        → All P q ↔ (P (event_of (wtmeb 1) 200 kernel) × All P kernel.timer_queue))
timer_insert-InOrder_example =
    timer_insert-InOrder (wtmeb 1) 200 kernel (omega arith) (omega arith) tt

-- Task 1 holds the kernel lock, and task 4 has priority 5.
abbrev locked : Kernel
locked = set_tcb 4 (record (kernel.tcb 4) { priority = 5 }) (record kernel { klocktsk = 1 })

make_ready_over_klock_example :
    ((make_ready 4 locked).schedtsk ≡ 4)
    × (ready_queue_top (make_ready 4 locked) ≡ 1)
    × ((make_ready 4 locked).schedtsk ≢ ready_queue_top (make_ready 4 locked))
make_ready_over_klock_example =
    make_ready_over_klock 4 locked (λ p. ground arith) (λ p. ground arith) refl (omega arith)

-- Task 1 goes to sleep, task 4 is woken up in vain, and task 3 is suspended.
abbrev slept : Kernel
slept = (tk_slp_tsk_u (negsuc 0) kernel).1

abbrev woken : Kernel
woken = (tk_wup_tsk (pos 4) slept).1

History-WaitInv_example : WaitInv (tk_sus_tsk (pos 3) woken).1
History-WaitInv_example =
    History-WaitInv kernel (tk_sus_tsk (pos 3) woken).1
      (followed (sleeps (negsuc 0) kernel (inl refl))
        (followed (wakes (pos 4) slept) (followed (suspends (pos 3) woken) quiet)))
      kernel-WaitInv
