-- ===== src/Klock.antt =====
-- kernel/tkernel/src/klock.c: the locks of objects, and those of extended SVCs. An OBJLOCK or SVCLOCK is
-- known by a number; 0 is NULL.
pub mod Frame
pub mod Exclusive
pub mod Handover
mod Tests
use open_t_kernel.Base.{
  ℕ, zero, suc, Bool, true, false, not, ◌==◌, if◌then◌else◌, List, [], ◌∷◌, ◌++◌, Option, none,
  some, upd,
}
use open_t_kernel.Kernel.{Kernel, Tcb, null, set_tcb}
use open_t_kernel.ReadyQueue.{
  ready_queue_top, ready_queue_insert, ready_queue_insert_top, ready_queue_delete,
}

-- schedtsk = ready_queue_top(&ready_queue)
abbrev pub schedule_top : Kernel → Kernel
schedule_top k = record k { schedtsk = ready_queue_top k }

-- The end of LockOBJ where the lock is taken.
abbrev pub take_lock : ℕ → Kernel → Kernel
take_lock loc k =
    let ctx = k.ctxtsk in
    record (set_tcb ctx (record (k.tcb ctx) { klocked = true }) k) {
      lock_used = upd k.lock_used loc true;
      lock_que = upd k.lock_que loc [];
      klocktsk = ctx;
    }

-- The task in execution leaves the ready queue for a lock's wait queue.
abbrev pub stop_for_lock : Kernel → Kernel
stop_for_lock k =
    let ctx = k.ctxtsk in
    let k1 = ready_queue_delete ctx k in set_tcb ctx (record (k1.tcb ctx) { klockwait = true }) k1

-- `Ready for lock` of LockOBJ
abbrev pub wait_lock : ℕ → Kernel → Kernel
wait_lock loc k =
    let k1 = stop_for_lock k in
    schedule_top (record k1 { lock_que = upd k1.lock_que loc (k1.lock_que loc ++ k.ctxtsk ∷ []) })

-- LockOBJ from `retry` to the test of `klocked`, and its value; a task that did not get the lock comes
-- back to `retry` when it is dispatched again.
unfoldable pub lock_obj : ℕ → Kernel → Bool × Kernel
unfolding ready_queue_delete
lock_obj loc k =
    if (k.tcb k.ctxtsk).klocked
    then (true, k)
    else if not (k.lock_used loc)
    then (true, take_lock loc k)
    else (false, wait_lock loc k)

-- UnlockOBJ on what QueRemoveNext leaves: nobody waits, or the first task gets the lock.
unfoldable pub pass_lock : ℕ → List ℕ → Kernel → Kernel
pass_lock loc [] k = record k { lock_used = upd k.lock_used loc false }
pass_lock loc (t ∷ ts) k =
    let k1 = record k { lock_que = upd k.lock_que loc ts } in
    ready_queue_insert_top t (set_tcb t (record (k.tcb t) { klockwait = false; klocked = true }) k1)

-- UnlockOBJ
unfoldable pub unlock_obj : ℕ → Kernel → Kernel
unfolding pass_lock
unlock_obj loc k =
    let ctx = k.ctxtsk in
    let k1 = record (set_tcb ctx (record (k.tcb ctx) { klocked = false }) k) { klocktsk = null } in
    schedule_top (pass_lock loc (k1.lock_que loc) k1)

-- LockSVC from `retry` to the test of `lock`, and its value.
unfoldable pub lock_svc : ℕ → Kernel → Bool × Kernel
unfolding ready_queue_delete
lock_svc loc k =
    let ctx = k.ctxtsk in
    let c = k.tcb ctx in
    let k1 = stop_for_lock k in
    if c.svclocked == loc
    then (true, k)
    else if not (k.svc_used loc)
    then (
      true,
      record (set_tcb ctx (record c { svclocked = loc }) k) {
        svc_used = upd k.svc_used loc true;
        svc_que = upd k.svc_que loc [];
        locklist = upd k.locklist loc c.svclocked;
      },
    )
    else (
      false,
      schedule_top (record k1 { svc_que = upd k1.svc_que loc (k1.svc_que loc ++ ctx ∷ []) }),
    )

-- What UnlockSVC and AllUnlockSVC do with the lock that `t` gives up, for the queue of the lock.
unfoldable pub pass_svc : ℕ → List ℕ → Kernel → Kernel
pass_svc loc [] k = record k { svc_used = upd k.svc_used loc false }
pass_svc loc (t ∷ ts) k =
    let c = k.tcb t in
    let k1 = record k {
      svc_que = upd k.svc_que loc ts;
      locklist = upd k.locklist loc c.svclocked;
    } in
    (ready_queue_insert t (set_tcb t (record c { klockwait = false; svclocked = loc }) k1)).1

-- loctsk->svclocked = loc->locklist
abbrev pub drop_svc : ℕ → Kernel → Kernel
drop_svc t k = set_tcb t (record (k.tcb t) { svclocked = k.locklist (k.tcb t).svclocked }) k

-- UnlockSVC
unfoldable pub unlock_svc : Kernel → Kernel
unfolding pass_svc
unlock_svc k =
    let loc = (k.tcb k.ctxtsk).svclocked in
    let k1 = drop_svc k.ctxtsk k in
    elim (k1.svc_que loc) [
      | [] ↦ pass_svc loc [] k1
      | t ∷ ts ↦ schedule_top (pass_svc loc (t ∷ ts) k1)
    ]

-- The loop of AllUnlockSVC; `none` where the fuel is spent.
unfoldable pub unlock_svcs : ℕ → ℕ → Kernel → Option Kernel
unlock_svcs zero t k = none
unlock_svcs (suc fuel) t k =
    let loc = (k.tcb t).svclocked in
    let k1 = drop_svc t k in
    let rest = unlock_svcs fuel t (pass_svc loc (k1.svc_que loc) k1) in
    if loc == null then some k else rest

-- AllUnlockSVC
unfoldable pub all_unlock_svc : ℕ → ℕ → Kernel → Option Kernel
unfolding unlock_svcs
all_unlock_svc fuel t k = elim (unlock_svcs fuel t k) [
  | none ↦ none
  | some k1 ↦ some (schedule_top k1)
]
