-- ===== src/Wait.antt =====
-- kernel/tkernel/src/wait.c and wait.h: entering and leaving the wait state, on any kind of object.
pub mod Release
pub mod Inv
pub mod Enter
pub mod Join
pub mod Frame
pub mod Sleeps
pub mod Fields
use open_t_kernel.Base.{
  ℕ, Bool, true, false, not, ◌==◌, ◌&&◌, ltb, if◌then◌else◌, List, [], ◌∷◌, ◌++◌, Option, none,
  some, erase,
}
use open_t_kernel.Base.Int.{ℤ, pos}
use open_t_kernel.Kernel.{
  Kernel, Tcb, Tstat, ready, wait, suspend, waitsus, Er, e_ok, e_dlt, e_diswai, e_tmout, Wspec,
  tskwait, wtmeb, has, ta_tpri, ta_nodiswai, null, set_tcb, que_remove_tsk,
}
use open_t_kernel.Task.{Hooks, make_ready, make_non_ready}
use open_t_kernel.Timer.{timer_insert, timer_insert_reltim, timer_delete, is_pol}
use open_t_kernel.ReadyQueue.{head_or_null}

abbrev pub is_wait : Tstat → Bool
is_wait wait = true
is_wait s = false

-- make_non_wait
unfoldable pub make_non_wait : ℕ → Kernel → Kernel
make_non_wait t k =
    if is_wait (k.tcb t).state
    then make_ready t k
    else set_tcb t (record (k.tcb t) { state = suspend }) k

-- wait_release
unfoldable pub wait_release : ℕ → Kernel → Kernel
wait_release t k = make_non_wait t (que_remove_tsk t (timer_delete (wtmeb t) k))

-- *tcb->wercd = ercd
abbrev pub set_wercd : ℕ → Er → Kernel → Kernel
set_wercd t ercd k = set_tcb t (record (k.tcb t) { wercd = ercd }) k

-- wait_release_ok
unfoldable pub wait_release_ok : ℕ → Kernel → Kernel
wait_release_ok t k = set_wercd t e_ok (wait_release t k)

-- wait_release_ok_ercd
unfoldable pub wait_release_ok_ercd : ℕ → Er → Kernel → Kernel
wait_release_ok_ercd t ercd k = set_wercd t ercd (wait_release t k)

-- The call of tcb->wspec->rel_wai_hook, if it is not NULL.
unfoldable pub run_rel_wai : Hooks → ℕ → Kernel → Kernel
run_rel_wai hooks t k = elim (hooks.rel_wai_hook (k.tcb t).wspec) [
  | none ↦ k
  | some hook ↦ hook t k
]

-- wait_release_ng
unfoldable pub wait_release_ng : Hooks → ℕ → Er → Kernel → Kernel
wait_release_ng hooks t ercd k = set_wercd t ercd (run_rel_wai hooks t (wait_release t k))

-- wait_release_tmout
unfoldable pub wait_release_tmout : Hooks → ℕ → Kernel → Kernel
wait_release_tmout hooks t k = run_rel_wai hooks t (make_non_wait t (que_remove_tsk t k))

-- wait_cancel
unfoldable pub wait_cancel : ℕ → Kernel → Kernel
wait_cancel t k = que_remove_tsk t (timer_delete (wtmeb t) k)

-- The switch of make_wait and make_wait_reltim on the state of the task in execution.
unfoldable pub to_wait : Tstat → ℕ → Kernel → Kernel
to_wait ready ctx k =
    let k1 = make_non_ready ctx k in set_tcb ctx (record (k1.tcb ctx) { state = wait }) k1
to_wait suspend ctx k = set_tcb ctx (record (k.tcb ctx) { state = waitsus }) k
to_wait s ctx k = k

-- The switch, and the store to `nodiswai`.
unfoldable pub enter_wait : ℕ → Kernel → Kernel
unfolding to_wait
enter_wait atr k =
    let ctx = k.ctxtsk in
    let k1 = to_wait (k.tcb ctx).state ctx k in
    set_tcb ctx (record (k1.tcb ctx) { nodiswai = has atr ta_nodiswai }) k1

-- make_wait
unfoldable pub make_wait : ℤ → ℕ → Kernel → Kernel
make_wait tmout atr k = timer_insert (wtmeb k.ctxtsk) tmout (enter_wait atr k)

-- make_wait_reltim
unfoldable pub make_wait_reltim : ℕ → ℕ → Kernel → Kernel
make_wait_reltim tmout atr k = timer_insert_reltim (wtmeb k.ctxtsk) tmout (enter_wait atr k)

-- The loop of wait_delete, over the tasks of the queue: each round releases the first of them.
unfoldable pub wait_delete : List ℕ → Kernel → Kernel
wait_delete [] k = k
wait_delete (t ∷ ts) k = wait_delete ts (set_wercd t e_dlt (wait_release t k))

-- wait_tskid
abbrev pub wait_tskid : List ℕ → ℕ
wait_tskid = head_or_null

-- The priorities of the tasks.
abbrev pub priority_of : Kernel → ℕ → ℕ
priority_of k t = (k.tcb t).priority

-- queue_insert_tpri: before the first task of a lower priority.
unfoldable pub queue_insert_tpri : (ℕ → ℕ) → ℕ → List ℕ → List ℕ
queue_insert_tpri pri t [] = t ∷ []
queue_insert_tpri pri t (q ∷ qs) =
    if ltb (pri t) (pri q) then t ∷ q ∷ qs else q ∷ queue_insert_tpri pri t qs

-- How gcb_make_wait puts a task on the wait queue of an object.
unfoldable pub join_queue : ℕ → (ℕ → ℕ) → ℕ → List ℕ → List ℕ
join_queue atr pri t qs = if has atr ta_tpri then queue_insert_tpri pri t qs else qs ++ t ∷ []

-- is_diswai
abbrev pub is_diswai : ℕ → Tcb → ℕ → Bool
is_diswai objatr c tskwait = has c.waitmask tskwait && not (has objatr ta_nodiswai)

-- The generic control block: the attributes and the ID of an object, and its wait queue as a part of
-- the kernel.
pub record Gcb : Type 0 where
  pub objid : ℕ
  pub objatr : ℕ
  pub wait_queue : Kernel → List ℕ
  pub set_wait_queue : List ℕ → Kernel → Kernel

-- gcb_make_wait
unfoldable pub gcb_make_wait : Gcb → ℤ → Kernel → Kernel
unfolding join_queue
gcb_make_wait gcb tmout k =
    let ctx = k.ctxtsk in
    let k1 = set_tcb ctx (record (k.tcb ctx) { wid = gcb.objid }) k in
    let k2 = make_wait tmout gcb.objatr k1 in
    gcb.set_wait_queue (join_queue gcb.objatr (priority_of k2) ctx (gcb.wait_queue k2)) k2

-- gcb_make_wait_with_diswai
unfoldable pub gcb_make_wait_with_diswai : Gcb → ℤ → Kernel → Kernel
gcb_make_wait_with_diswai gcb tmout k =
    let ctx = k.ctxtsk in
    if is_diswai gcb.objatr (k.tcb ctx) (tskwait (k.tcb ctx).wspec)
    then set_wercd ctx e_diswai k
    else (let k1 = set_wercd ctx e_tmout k in
        if not (is_pol tmout) then gcb_make_wait gcb tmout k1 else k1)

-- gcb_change_priority
unfoldable pub gcb_change_priority : Gcb → ℕ → Kernel → Kernel
gcb_change_priority gcb t k =
    let k1 = que_remove_tsk t k in
    gcb.set_wait_queue (queue_insert_tpri (priority_of k1) t (gcb.wait_queue k1)) k1

-- The first task of a wait queue that `t` would join.
unfoldable pub top_of : ℕ → (ℕ → ℕ) → ℕ → List ℕ → ℕ
top_of atr pri t [] = t
top_of atr pri t (q ∷ qs) =
    if not (has atr ta_tpri) then q else if ltb (pri t) (pri q) then t else q

-- gcb_top_of_wait_queue
unfoldable pub gcb_top_of_wait_queue : Gcb → ℕ → Kernel → ℕ
unfolding top_of
gcb_top_of_wait_queue gcb t k = top_of gcb.objatr (priority_of k) t (gcb.wait_queue k)
