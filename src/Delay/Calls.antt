-- ===== src/Delay/Calls.antt =====
-- kernel/tkernel/src/time_calls.c: delays and the invariant of the tasks and the wait queues.
use open_t_kernel.Base.{ℕ, inl, inr, Bool-cases, ==_self, ltb, refl}
use open_t_kernel.Kernel.{Kernel, Tcb, e_ok, wspec_dly, tskwait, has, set_tcb, in_ddsp}
use open_t_kernel.Wait.{make_wait_reltim}
use open_t_kernel.Wait.Enter.{Runs, make_wait_reltim-Entered}
use open_t_kernel.Wait.Inv.{WaitInv, Unqueued-of_awake}
use open_t_kernel.Semaphore.Sleep.{store-WaitInv}
use open_t_kernel.TaskSync.Inv.{Entered-WaitInv, awake, has_context}
use open_t_kernel.Delay.{tk_dly_tsk_u}

-- A delay keeps the invariant: the call is refused, returns at once, or puts the task in execution to sleep.
pub tk_dly_tsk_u-WaitInv :
    (dlytim : ℕ) (k : Kernel) → WaitInv k → Runs k k.ctxtsk → WaitInv (tk_dly_tsk_u dlytim k).1
unfolding tk_dly_tsk_u
tk_dly_tsk_u-WaitInv dlytim k v r =
    let t = k.ctxtsk in
    let c : Tcb = record (k.tcb t) { wspec = wspec_dly; wid = 0; wercd = e_ok } in
    elim (Bool-cases (in_ddsp k)) [
      | inl d ↦ rw d v
      | inr d ↦ elim (Bool-cases (ltb 0 dlytim)) [
        | inr n ↦ rw (d, n) v
        | inl n ↦ elim (Bool-cases (has (k.tcb t).waitmask (tskwait wspec_dly))) [
          | inl m ↦ rw (d, n, m) v
          | inr m ↦
              let u = Unqueued-of_awake t k v (awake k t r) in
              let k1 = set_tcb t c k in
              let v1 = store-WaitInv t c k u refl v in
              rw (d, n, m)
                (Entered-WaitInv t k1 (make_wait_reltim dlytim 0 k1)
                  (make_wait_reltim-Entered dlytim 0 k1 (has_context k d) (rw (==_self t) r)
                    v1.ready_inv u)
                  u v1)
        ]
      ]
    ]
