-- ===== src/TaskSync/Inv.antt =====
-- Sleep, wakeup and task events keep the invariant of the tasks and the wait queues.
use Prim.Native.Nat.{bit_and, bit_or}
use open_t_kernel.Base.{
  ℕ, ◌≡◌, ◌≢◌, ◌∙◌, inl, inr, arith, refl, true, false, All-map, All-distinct_map, Bool-cases, ◌==◌,
  ==_self, ltb, ◌&&◌, ◌+◌, ◌-◌, ◌^◌, Bool,
}
use open_t_kernel.Base.Int.{ℤ, to_ℕ, in_range}
use open_t_kernel.Kernel.{
  Kernel, Tcb, Er, ret, e_tmout, has, has_wait, task_alive, null, set_tcb, Wspec, tskwait,
  wspec_slp, wspec_tev, in_ddsp, not32,
}
use open_t_kernel.Timer.{chk_tmout, is_pol}
use open_t_kernel.ReadyQueue.Frame.{Unqueued}
use open_t_kernel.Task.Ready.{set_tcb-ReadyInv}
use open_t_kernel.Wait.{make_wait, wait_release, wait_release_ok_ercd}
use open_t_kernel.Wait.Release.{demand}
use open_t_kernel.Wait.Enter.{Runs, Entered, make_wait-Entered}
use open_t_kernel.Wait.Inv.{
  WaitInv, SemWait, FlgWait, Unqueued-of_awake, wait_release-WaitInv, wait_release_ok-WaitInv,
  set_wercd-WaitInv,
}
use open_t_kernel.Semaphore.Sleep.{store-WaitInv}
use open_t_kernel.TaskSync.{
  sleep_on, tk_slp_tsk_u, tk_wai_tev_u, tk_wup_tsk, tk_sig_tev, check_other, passes, check_self,
  get_tcb_self, is_slp, to_ttw, chk_tevptn, int_max,
}

-- A store that changes neither the state of a task nor what it asks for.
pub note-WaitInv :
    (t : ℕ) (c : Tcb) (k : Kernel)
    → c.state ≡ (k.tcb t).state
    → demand c ≡ demand (k.tcb t)
    → WaitInv k
    → WaitInv (set_tcb t c k)
note-WaitInv t c k e d v = record {
  ready_inv = set_tcb-ReadyInv t c k (λ h. e ∙ h) v.ready_inv;
  distinct = v.distinct;
  sem_waits = λ i.
      All-map (SemWait k i) (SemWait (set_tcb t c k) i) (k.sem_que i) (sem_keep i) (v.sem_waits i);
  flg_waits = λ i.
      All-map (FlgWait k i) (FlgWait (set_tcb t c k) i) (k.flg_que i) (flg_keep i) (v.flg_waits i);
}
  where
    sem_keep : (i u : ℕ) → SemWait k i u → SemWait (set_tcb t c k) i u
    sem_keep i u w = ground arith

    flg_keep : (i u : ℕ) → FlgWait k i u → FlgWait (set_tcb t c k) i u
    flg_keep i u w = ground arith

-- A task that entered the wait state and joined no line.
pub Entered-WaitInv :
    (t : ℕ) (k k' : Kernel) → Entered t k k' → Unqueued t k → WaitInv k → WaitInv k'
Entered-WaitInv t k k' s u v = record {
  ready_inv = s.ready_inv;
  distinct =
      (λ i. rw (s.sem_que_same i) (v.distinct.0 i), λ i. rw (s.flg_que_same i) (v.distinct.1 i));
  sem_waits = λ i. rw (s.sem_que_same i) (
      All-distinct_map (SemWait k i) (SemWait k' i) t (k.sem_que i) (u.0 i) (sem_keep i)
        (v.sem_waits i));
  flg_waits = λ i. rw (s.flg_que_same i) (
      All-distinct_map (FlgWait k i) (FlgWait k' i) t (k.flg_que i) (u.1 i) (flg_keep i)
        (v.flg_waits i));
}
  where
    sem_keep : (i x : ℕ) → x ≢ t → SemWait k i x → SemWait k' i x
    sem_keep i x n w = ground (arith, s.objects_same, s.waiting_same x, s.state_same x n)

    flg_keep : (i x : ℕ) → x ≢ t → FlgWait k i x → FlgWait k' i x
    flg_keep i x n w = ground (arith, s.waiting_same x, s.state_same x n)

pub awake : (k : Kernel) (t : ℕ) → Runs k t → has_wait (k.tcb t).state ≡ false
awake k t (inl e) = rw e refl
awake k t (inr e) = rw e refl

sleep_on-WaitInv :
    (spec : Wspec) (tmout : ℤ) (k : Kernel)
    → WaitInv k
    → Runs k k.ctxtsk
    → k.ctxtsk ≢ null
    → WaitInv (sleep_on spec tmout k).1
unfolding sleep_on
sleep_on-WaitInv spec tmout k v r z = elim (Bool-cases (is_pol tmout)) [
  | inl e ↦ rw e v
  | inr e ↦
      let t = k.ctxtsk in
      let u = Unqueued-of_awake t k v (awake k t r) in
      let k1 = set_tcb t (record (k.tcb t) { wspec = spec; wid = 0; wercd = e_tmout }) k in
      let v1 =
        store-WaitInv t (record (k.tcb t) { wspec = spec; wid = 0; wercd = e_tmout }) k u refl v in
      rw e (
        Entered-WaitInv t k1 (make_wait tmout 0 k1)
          (make_wait-Entered tmout 0 k1 z (rw (==_self t) r) v1.ready_inv u) u v1)
]

pub has_context : (k : Kernel) → in_ddsp k ≡ false → k.ctxtsk ≢ null
has_context k h = ground arith

-- Sleep keeps the invariant: the call is refused, takes a wakeup that came before, polls, or puts the
-- task in execution to sleep.
pub tk_slp_tsk_u-WaitInv :
    (tmout : ℤ) (k : Kernel) → WaitInv k → Runs k k.ctxtsk → WaitInv (tk_slp_tsk_u tmout k).1
unfolding tk_slp_tsk_u
tk_slp_tsk_u-WaitInv tmout k v r =
    let t = k.ctxtsk in
    let c = k.tcb t in
    elim (Bool-cases (chk_tmout tmout)) [
      | inr e ↦ rw e v
      | inl e ↦ elim (Bool-cases (in_ddsp k)) [
        | inl d ↦ rw (e, d) v
        | inr d ↦ elim (Bool-cases (has c.waitmask (tskwait wspec_slp))) [
          | inl m ↦ rw (e, d, m) v
          | inr m ↦ elim (Bool-cases (ltb 0 c.wupcnt)) [
            | inl w ↦
                rw (e, d, m, w) (note-WaitInv t (record c { wupcnt = c.wupcnt - 1 }) k refl refl v)
            | inr w ↦ rw (e, d, m, w) (sleep_on-WaitInv wspec_slp tmout k v r (has_context k d))
          ]
        ]
      ]
    ]

-- Waiting for task events keeps the invariant: the call is refused, takes an event that came before,
-- polls, or puts the task in execution to sleep.
pub tk_wai_tev_u-WaitInv :
    (waiptn tmout : ℤ) (k : Kernel)
    → WaitInv k
    → Runs k k.ctxtsk
    → WaitInv (tk_wai_tev_u waiptn tmout k).1
unfolding tk_wai_tev_u
tk_wai_tev_u-WaitInv waiptn tmout k v r =
    let t = k.ctxtsk in
    let c = k.tcb t in
    let p = to_ℕ waiptn in
    elim (Bool-cases (chk_tmout tmout)) [
      | inr e ↦ rw e v
      | inl e ↦ elim (Bool-cases (chk_tevptn waiptn)) [
        | inr n ↦ rw (e, n) v
        | inl n ↦ elim (Bool-cases (in_ddsp k)) [
          | inl d ↦ rw (e, n, d) v
          | inr d ↦ elim (Bool-cases (has c.waitmask (to_ttw p))) [
            | inl m ↦ rw (e, n, d, m) v
            | inr m ↦ elim (Bool-cases (has c.tskevt p)) [
              | inl w ↦
                  rw (e, n, d, m, w)
                    (note-WaitInv t (record c { tskevt = bit_and c.tskevt (not32 p) }) k refl refl
                      v)
              | inr w ↦
                  rw (e, n, d, m, w)
                    (sleep_on-WaitInv (wspec_tev (to_ttw p)) tmout k v r (has_context k d))
            ]
          ]
        ]
      ]
    ]

ercd-WaitInv :
    (t : ℕ) (e : Er) (k : Kernel)
    → WaitInv k
    → has_wait (k.tcb t).state ≡ true
    → WaitInv (wait_release_ok_ercd t e k)
unfolding wait_release_ok_ercd
ercd-WaitInv t e k v w =
    (set_wercd-WaitInv t e k (wait_release t k) (wait_release-WaitInv t k v w) v).1

both : (a b : Bool) → a && b ≡ true → a ≡ true
both true b h = refl
both false b h = cc

-- A wakeup keeps the invariant: the call is refused, releases a task that sleeps, or is counted.
pub tk_wup_tsk-WaitInv : (tskid : ℤ) (k : Kernel) → WaitInv k → WaitInv (tk_wup_tsk tskid k).1
unfolding tk_wup_tsk
tk_wup_tsk-WaitInv tskid k v =
    let t = to_ℕ tskid in
    let c = k.tcb t in
    elim (Bool-cases (passes (check_other tskid k))) [
      | inr e ↦ rw e v
      | inl e ↦ elim (Bool-cases (task_alive c.state)) [
        | inr a ↦ rw (e, a) v
        | inl a ↦ elim (Bool-cases (has_wait c.state && is_slp c.wspec)) [
          | inl w ↦
              rw (e, a, w)
                ((wait_release_ok-WaitInv t k v (both (has_wait c.state) (is_slp c.wspec) w)).1)
          | inr w ↦ elim (Bool-cases (c.wupcnt == int_max)) [
            | inl q ↦ rw (e, a, w, q) v
            | inr q ↦
                rw (e, a, w, q) (note-WaitInv t (record c { wupcnt = c.wupcnt + 1 }) k refl refl v)
          ]
        ]
      ]
    ]

-- A task event keeps the invariant: the call is refused, releases a task that waits for the event, or
-- is noted.
pub tk_sig_tev-WaitInv :
    (tskid tskevt : ℤ) (k : Kernel) → WaitInv k → WaitInv (tk_sig_tev tskid tskevt k).1
unfolding tk_sig_tev
tk_sig_tev-WaitInv tskid tskevt k v =
    let t = get_tcb_self tskid k in
    let c = k.tcb t in
    let m = 2 ^ (to_ℕ tskevt - 1) in
    let b = has (tskwait c.wspec) (to_ttw m) in
    elim (Bool-cases (check_self tskid k)) [
      | inr e ↦ rw e v
      | inl e ↦ elim (Bool-cases (in_range 1 8 tskevt)) [
        | inr p ↦ rw (e, p) v
        | inl p ↦ elim (Bool-cases (task_alive c.state)) [
          | inr a ↦ rw (e, p, a) v
          | inl a ↦ elim (Bool-cases (has_wait c.state && b)) [
            | inl w ↦
                rw (e, p, a, w)
                  (ercd-WaitInv t (ret (bit_or c.tskevt m)) k v (both (has_wait c.state) b w))
            | inr w ↦
                rw (e, p, a, w)
                  (note-WaitInv t (record c { tskevt = bit_or c.tskevt m }) k refl refl v)
          ]
        ]
      ]
    ]
