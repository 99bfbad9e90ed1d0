-- ===== src/TaskSync/Suspend.antt =====
-- tk_sus_tsk keeps the invariant of the tasks and the wait queues.
use open_t_kernel.Base.{
  ℕ, ◌≡◌, ◌≢◌, ◌∙◌, inl, inr, arith, refl, true, All-map, All-distinct_map, Bool-cases, ◌==◌, ◌&&◌,
  ◌+◌, leb, erase_of_NotIn, sym,
}
use open_t_kernel.Base.Int.{ℤ, pos, negsuc, to_ℕ}
use open_t_kernel.Kernel.{
  Kernel, Tcb, Tstat, nonexist, ready, wait, suspend, waitsus, dormant, null, set_tcb, task_alive,
}
use open_t_kernel.Task.{make_non_ready}
use open_t_kernel.ReadyQueue.Frame.{Unqueued}
use open_t_kernel.Task.Ready.{set_tcb-ReadyInv}
use open_t_kernel.Task.Leave.{set_tcb-Absent, make_non_ready-Absent}
use open_t_kernel.Wait.Enter.{
  non_ready-objects, non_ready-sem_que, non_ready-flg_que, non_ready-waiting, non_ready-state,
}
use open_t_kernel.Wait.Inv.{WaitInv, SemWait, FlgWait, Unqueued-of_awake}
use open_t_kernel.TaskSync.{tk_sus_tsk, suspend_as, check_other, passes, int_max}
use open_t_kernel.TaskSync.Inv.{note-WaitInv}

suspend_ready-WaitInv :
    (t : ℕ) (k : Kernel)
    → WaitInv k
    → t ≢ null
    → (k.tcb t).state ≡ ready
    → WaitInv (suspend_as ready t k)
unfolding suspend_as
suspend_ready-WaitInv t k v z r = record {
  ready_inv = (set_tcb-Absent t c k1 (make_non_ready-Absent t k z v.ready_inv)).inv;
  distinct = (λ i. rw (sem_line i) (v.distinct.0 i), λ i. rw (flg_line i) (v.distinct.1 i));
  sem_waits = λ i. rw (sem_line i) (
      All-distinct_map (SemWait k i) (SemWait k' i) t (k.sem_que i) (u.0 i) (sem_keep i)
        (v.sem_waits i));
  flg_waits = λ i. rw (flg_line i) (
      All-distinct_map (FlgWait k i) (FlgWait k' i) t (k.flg_que i) (u.1 i) (flg_keep i)
        (v.flg_waits i));
}
  where
    k1 : Kernel
    k1 = make_non_ready t k

    c : Tcb
    c = record (k1.tcb t) { state = suspend }

    k' : Kernel
    k' = set_tcb t c k1

    u : Unqueued t k
    u = Unqueued-of_awake t k v (rw r refl)

    sem_line : (i : ℕ) → k1.sem_que i ≡ k.sem_que i
    sem_line i = non_ready-sem_que t k i ∙ erase_of_NotIn t (k.sem_que i) (u.0 i)

    flg_line : (i : ℕ) → k1.flg_que i ≡ k.flg_que i
    flg_line i = non_ready-flg_que t k i ∙ erase_of_NotIn t (k.flg_que i) (u.1 i)

    sem_keep : (i x : ℕ) → x ≢ t → SemWait k i x → SemWait k' i x
    sem_keep i x n w =
        ground (arith, non_ready-objects t k, non_ready-waiting t k x, non_ready-state t k x)

    flg_keep : (i x : ℕ) → x ≢ t → FlgWait k i x → FlgWait k' i x
    flg_keep i x n w = ground (arith, non_ready-waiting t k x, non_ready-state t k x)

suspend_wait-WaitInv :
    (t : ℕ) (k : Kernel) → WaitInv k → (k.tcb t).state ≡ wait → WaitInv (suspend_as wait t k)
unfolding suspend_as
suspend_wait-WaitInv t k v r = record {
  ready_inv = set_tcb-ReadyInv t c k (λ h. absurd (wait_not_ready (sym r ∙ h))) v.ready_inv;
  distinct = v.distinct;
  sem_waits = λ i. All-map (SemWait k i) (SemWait k' i) (k.sem_que i) (sem_keep i) (v.sem_waits i);
  flg_waits = λ i. All-map (FlgWait k i) (FlgWait k' i) (k.flg_que i) (flg_keep i) (v.flg_waits i);
}
  where
    c : Tcb
    c = record (k.tcb t) { state = waitsus }

    k' : Kernel
    k' = set_tcb t c k

    wait_not_ready : wait ≢ ready
    wait_not_ready p = cc

    sem_keep : (i x : ℕ) → SemWait k i x → SemWait k' i x
    sem_keep i x w = ground arith

    flg_keep : (i x : ℕ) → FlgWait k i x → FlgWait k' i x
    flg_keep i x w = ground arith

suspend_as-WaitInv :
    (s : Tstat) (t : ℕ) (k : Kernel)
    → WaitInv k
    → t ≢ null
    → (k.tcb t).state ≡ s
    → WaitInv (suspend_as s t k)
unfolding suspend_as
suspend_as-WaitInv ready t k v z e = suspend_ready-WaitInv t k v z e
suspend_as-WaitInv wait t k v z e = suspend_wait-WaitInv t k v e
suspend_as-WaitInv nonexist t k v z e = v
suspend_as-WaitInv suspend t k v z e = v
suspend_as-WaitInv waitsus t k v z e = v
suspend_as-WaitInv dormant t k v z e = v

passes_id : (tskid : ℤ) (k : Kernel) → passes (check_other tskid k) ≡ true → to_ℕ tskid ≢ null
unfolding check_other
passes_id (pos n) k h = λ p. ground (arith, p)
passes_id (negsuc n) k h = ground arith

-- A suspension, of a task that is ready, waits or is suspended already, or refused, keeps the
-- invariant.
pub tk_sus_tsk-WaitInv : (tskid : ℤ) (k : Kernel) → WaitInv k → WaitInv (tk_sus_tsk tskid k).1
unfolding tk_sus_tsk
tk_sus_tsk-WaitInv tskid k v =
    let t = to_ℕ tskid in
    let c = k.tcb t in
    let c1 : Tcb = record c { suscnt = c.suscnt + 1 } in
    elim (Bool-cases (passes (check_other tskid k))) [
      | inr e ↦ rw e v
      | inl e ↦ elim (Bool-cases (task_alive c.state)) [
        | inr a ↦ rw (e, a) v
        | inl a ↦ elim (Bool-cases ((t == k.ctxtsk) && leb 2 k.dispatch_disabled)) [
          | inl d ↦ rw (e, a, d) v
          | inr d ↦ elim (Bool-cases (c.suscnt == int_max)) [
            | inl q ↦ rw (e, a, d, q) v
            | inr q ↦
                rw (e, a, d, q)
                  (suspend_as-WaitInv c.state t (set_tcb t c1 k) (note-WaitInv t c1 k refl refl v)
                    (passes_id tskid k e) (ground arith))
          ]
        ]
      ]
    ]
