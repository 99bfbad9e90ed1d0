-- ===== src/Delay.antt =====
-- kernel/tkernel/src/time_calls.c: a task puts itself to sleep for a time. Results as in `Semaphore`; a
-- task that sleeps is on no wait queue.
pub mod Calls
use open_t_kernel.Base.{ℕ, ltb, ◌*◌, if◌then◌else◌}
use open_t_kernel.Kernel.{
  Kernel, Er, e_ok, e_ctx, e_diswai, wspec_dly, tskwait, has, set_tcb, in_ddsp,
}
use open_t_kernel.Wait.{make_wait_reltim}

-- tk_dly_tsk_u
unfoldable pub tk_dly_tsk_u : ℕ → Kernel → Er × Kernel
tk_dly_tsk_u dlytim k =
    let ctx = k.ctxtsk in
    if in_ddsp k
    then (e_ctx, k)
    else if ltb 0 dlytim
    then (if has (k.tcb ctx).waitmask (tskwait wspec_dly) then (e_diswai, k) else (
      e_ok,
      make_wait_reltim dlytim 0
          (set_tcb ctx (record (k.tcb ctx) { wspec = wspec_dly; wid = 0; wercd = e_ok }) k),
    ))
    else (e_ok, k)

-- tk_dly_tsk
unfoldable pub tk_dly_tsk : ℕ → Kernel → Er × Kernel
tk_dly_tsk dlytim k = tk_dly_tsk_u (dlytim * 1000) k
