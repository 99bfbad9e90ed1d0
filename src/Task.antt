-- ===== src/Task.antt =====
-- kernel/tkernel/src/task.c: the state of a task, and the choice of the task to execute.
-- dispatch_request() does nothing on this CPU: the dispatcher runs at the end of a critical section,
-- where `schedtsk` and `ctxtsk` differ.
pub mod Frame
pub mod Ready
pub mod Leave
pub mod Klock
pub mod Chosen
pub mod Rechosen
mod Tests
use open_t_kernel.Base.{
  ℕ, Bool, true, false, not, ◌==◌, ◌&&◌, ltb, if◌then◌else◌, Option, none, some, upd, ◌+◌, ◌%◌, ◌^◌,
}
use open_t_kernel.Base.Int.{ℤ, pos}
use open_t_kernel.Kernel.{Kernel, Tcb, Tstat, ready, Wspec, wspec_slp, has_wait, null, set_tcb}
use open_t_kernel.ReadyQueue.{
  ready_queue_top, ready_queue_insert, ready_queue_delete, ready_queue_rotate,
  ready_queue_move_last, ready_queue_top_priority,
}

-- time_slice_schedule: the new head task, and the kernel.
unfoldable pub time_slice_schedule : ℕ → Kernel → ℕ × Kernel
time_slice_schedule t k =
    if not (t == null) && ltb 0 (k.tcb t).slicetime
    then (let cnt = ((k.tcb t).slicecnt + k.timer_period) % 2 ^ 64 in
        let k1 = set_tcb t (record (k.tcb t) { slicecnt = cnt }) k in
        if ltb (k.tcb t).slicetime cnt then ready_queue_move_last t k1 else (t, k1))
    else (t, k)

-- The part of `reschedule` and `make_ready` that ends a running task's slice.
abbrev pub slice_if_running : Kernel → Kernel
slice_if_running k = if k.schedtsk == k.ctxtsk then (time_slice_schedule k.schedtsk k).1 else k

-- reschedule
unfoldable pub reschedule : Kernel → Kernel
reschedule k =
    let toptsk = ready_queue_top k in
    if not (k.schedtsk == toptsk)
    then (let k1 = slice_if_running k in record k1 { schedtsk = toptsk })
    else k

-- make_ready
unfoldable pub make_ready : ℕ → Kernel → Kernel
make_ready t k =
    let k1 = set_tcb t (record (k.tcb t) { state = ready }) k in
    let (raised, k2) = ready_queue_insert t k1 in
    if raised then (let k3 = slice_if_running k2 in record k3 { schedtsk = t }) else k2

-- make_non_ready
unfoldable pub make_non_ready : ℕ → Kernel → Kernel
make_non_ready t k =
    let k1 = ready_queue_delete t k in
    if k1.schedtsk == t then record k1 { schedtsk = ready_queue_top k1 } else k1

-- The two hooks of a wait specification; `none` is NULL.
pub record Hooks : Type 0 where
  pub chg_pri_hook : Wspec → Option (ℕ → ℤ → Kernel → Kernel)
  pub rel_wai_hook : Wspec → Option (ℕ → Kernel → Kernel)

abbrev pub is_ready : Tstat → Bool
is_ready ready = true
is_ready s = false

-- change_task_priority; the priority is stored in a byte
unfoldable pub change_task_priority : Hooks → ℕ → ℕ → Kernel → Kernel
change_task_priority hooks t priority k =
    if is_ready (k.tcb t).state
    then (let k1 = ready_queue_delete t k in
        let k2 = set_tcb t (record (k1.tcb t) { priority = priority % 256 }) k1 in
        reschedule (ready_queue_insert t k2).1)
    else (let oldpri = (k.tcb t).priority in
        let k1 = set_tcb t (record (k.tcb t) { priority = priority % 256 }) k in
        if has_wait (k.tcb t).state
        then elim (hooks.chg_pri_hook (k.tcb t).wspec) [
          | none ↦ k1
          | some hook ↦ hook t (pos oldpri) k1
        ]
        else k1)

-- rotate_ready_queue
unfoldable pub rotate_ready_queue : ℕ → Kernel → Kernel
rotate_ready_queue priority k = reschedule (ready_queue_rotate priority k)

-- rotate_ready_queue_run
unfoldable pub rotate_ready_queue_run : Kernel → Kernel
rotate_ready_queue_run k =
    if not (k.schedtsk == null)
    then reschedule (ready_queue_rotate (ready_queue_top_priority k) k)
    else k
