-- ===== src/Semaphore/WaiInv.antt =====
-- tk_wai_sem: the invariant of the semaphores, and what a request that has to wait leaves behind.
use open_t_kernel.Base.{
  ℕ, ◌-◌, ◌≡◌, ◌≢◌, ◌≤◌, ◌<◌, inl, inr, ◌∙◌, ap, refl, arith, true, false, ◌==◌, ◌||◌,
  if◌then◌else◌, Bool-cases, ==_self,
}
use open_t_kernel.Base.Int.{ℤ, pos, negsuc, to_ℕ, is_positive}
use open_t_kernel.Kernel.{Kernel, Er, e_ok, e_tmout, has_wait, null, has, ta_tpri}
use open_t_kernel.Timer.{is_pol, to_usec_tmo}
use open_t_kernel.ReadyQueue.Frame.{Unqueued}
use open_t_kernel.Wait.{gcb_top_of_wait_queue, gcb_make_wait, make_wait, priority_of, join_queue}
use open_t_kernel.Wait.Enter.{Runs, make_wait-Entered, Entered}
use open_t_kernel.Wait.Inv.{Unqueued-of_awake}
use open_t_kernel.Semaphore.{tk_wai_sem_u, tk_wai_sem, set_semcnt, sem_wait, sem_gcb}
use open_t_kernel.Semaphore.Served.{need, first_fit}
use open_t_kernel.Semaphore.Inv.{SemaphoresInv, Short}
use open_t_kernel.Semaphore.Sleep.{store-SemaphoresInv, joined-SemaphoresInv, queue_joined}
use open_t_kernel.Semaphore.WaiSem.{
  Admits, served_at_once, wai_cases, admitted_eq, lower-SemaphoresInv, asked, recorded,
  recorded_ctx, recorded_priority, has_context, not_served, sem_wait_eq, factor,
}

Runs-awake : (k : Kernel) (t : ℕ) → Runs k t → has_wait (k.tcb t).state ≡ false
Runs-awake k t (inl e) = rw e refl
Runs-awake k t (inr e) = rw e refl

-- A task that cannot be served goes to sleep.
module _ (id cnt : ℕ) (tmout : ℤ) (k : Kernel) (v : SemaphoresInv k) (r : Runs k k.ctxtsk)
    (z : k.ctxtsk ≢ null) (p : 0 < cnt) (le : cnt ≤ (k.semcb id).maxsem)
    (unserved : served_at_once id cnt k ≡ false) where
  abbrev t : ℕ
  t = k.ctxtsk

  abbrev k1 : Kernel
  k1 = recorded id cnt k

  abbrev k2 : Kernel
  k2 = make_wait tmout (k.semcb id).sematr k1

  unqueued : Unqueued t k
  unqueued = Unqueued-of_awake t k v.waits (Runs-awake k t r)

  asked-SemaphoresInv : SemaphoresInv (asked id cnt k)
  asked-SemaphoresInv = store-SemaphoresInv t _ k unqueued refl v

  recorded-SemaphoresInv : SemaphoresInv k1
  recorded-SemaphoresInv =
      store-SemaphoresInv t (record ((asked id cnt k).tcb t) { wid = id }) (asked id cnt k) unqueued
        refl asked-SemaphoresInv

  runs : Runs k1 t
  runs = rw (recorded_ctx id cnt k) r

  entered : Entered t k1 k2
  entered =
      make_wait-Entered tmout (k.semcb id).sematr k1 z runs recorded-SemaphoresInv.waits.ready_inv
        unqueued

  needs : need k1 t ≡ cnt
  needs = rw (recorded_ctx id cnt k) refl

  short : (first_fit k id || (gcb_top_of_wait_queue (sem_gcb id k) t k == t)) ≡ true → Short k1 id t
  short h = omega (arith, needs, not_served id cnt k unserved h)

  pub sleep-SemaphoresInv : SemaphoresInv (gcb_make_wait (sem_gcb id k) tmout (asked id cnt k))
  unfolding gcb_make_wait gcb_top_of_wait_queue
  sleep-SemaphoresInv =
      joined-SemaphoresInv id t k1 k2 entered recorded-SemaphoresInv unqueued z
        (rw (recorded_ctx id cnt k) refl)
        (rw (recorded_ctx id cnt k) (factor (has (k.semcb id).sematr ta_tpri)))
        (omega (arith, needs)) (omega (arith, needs))
        (λ e. short (ground (arith, e, recorded_priority id cnt k)))
        (λ e. short (ground (arith, e)))

  -- What sleeping leaves behind.
  pub sleep_trace :
      let k' = gcb_make_wait (sem_gcb id k) tmout (asked id cnt k) in
      ((k'.tcb t).wercd ≡ e_tmout)
      × (has_wait (k'.tcb t).state ≡ true)
      × (need k' t ≡ cnt)
      × (k'.sem_que id ≡ join_queue (k.semcb id).sematr (priority_of k) t (k.sem_que id))
      × (k'.semcb ≡ k.semcb)
  unfolding gcb_make_wait
  sleep_trace = (
    ground (arith, entered.waiting_same t, recorded_ctx id cnt k),
    entered.asleep,
    ground (arith, entered.waiting_same t, recorded_ctx id cnt k),
    queue_joined id t k1 k2 entered recorded-SemaphoresInv unqueued z
          (rw (recorded_ctx id cnt k) refl)
          (rw (recorded_ctx id cnt k) (factor (has (k.semcb id).sematr ta_tpri)))
          (omega (arith, needs)) (omega (arith, needs))
        ∙ ap (λ f. join_queue (k.semcb id).sematr f t (k.sem_que id)) (recorded_priority id cnt k),
    ground (arith, entered.objects_same),
  )

positive_lt : (cnt : ℤ) → is_positive cnt ≡ true → 0 < to_ℕ cnt
positive_lt (pos n) h = ground arith
positive_lt (negsuc n) h = cc

-- A request that is not served at once keeps the invariant, whether the caller polls or sleeps.
waits-SemaphoresInv :
    (id cnt : ℕ) (tmout : ℤ) (k : Kernel)
    → SemaphoresInv k
    → Runs k k.ctxtsk
    → k.ctxtsk ≢ null
    → 0 < cnt
    → cnt ≤ (k.semcb id).maxsem
    → served_at_once id cnt k ≡ false
    → SemaphoresInv (
        if is_pol tmout
        then asked id cnt k
        else gcb_make_wait (sem_gcb id k) tmout (asked id cnt k))
waits-SemaphoresInv id cnt tmout k v r z p le unserved = elim (Bool-cases (is_pol tmout)) [
  | inl e ↦ rw e (asked-SemaphoresInv id cnt tmout k v r z p le unserved)
  | inr e ↦ rw e (sleep-SemaphoresInv id cnt tmout k v r z p le unserved)
]

admitted-SemaphoresInv :
    (semid cnt tmout : ℤ) (k : Kernel)
    → SemaphoresInv k
    → Runs k k.ctxtsk
    → Admits semid cnt tmout k
    → SemaphoresInv (tk_wai_sem_u semid cnt tmout k).1
admitted-SemaphoresInv semid cnt tmout k v r a =
    let id = to_ℕ semid in
    let n = to_ℕ cnt in
    elim (Bool-cases (served_at_once id n k)) [
      | inl e ↦
          rw (admitted_eq semid cnt tmout k a, e)
            (lower-SemaphoresInv id ((k.semcb id).semcnt - n) k (omega arith) v)
      | inr e ↦
          rw (admitted_eq semid cnt tmout k a, e, sem_wait_eq id n tmout k a.enabled)
            (waits-SemaphoresInv id n tmout k v r (has_context k a.dispatch)
              (positive_lt cnt a.positive) a.fits e)
    ]

-- Every request made by a task in execution, refused, served or put to sleep, keeps the counts
-- within bounds and leaves nobody in line whom the counts would serve.
pub tk_wai_sem-SemaphoresInv :
    (semid cnt tmout : ℤ) (k : Kernel)
    → SemaphoresInv k
    → Runs k k.ctxtsk
    → SemaphoresInv (tk_wai_sem semid cnt tmout k).1
unfolding tk_wai_sem
tk_wai_sem-SemaphoresInv semid cnt tmout k v r = elim (wai_cases semid cnt (to_usec_tmo tmout) k) [
  | inl a ↦ admitted-SemaphoresInv semid cnt (to_usec_tmo tmout) k v r a
  | inr n ↦ rw (n.0) v
]

-- What the caller of a request that passed the checks gets, and the kernel it leaves.
pub record Outcome (id cnt : ℕ) (tmout : ℤ) (k : Kernel) (er : Er) (k' : Kernel) : Type 0 where
  pub served :
      served_at_once id cnt k ≡ true
      → (er ≡ e_ok)
        × (cnt ≤ (k.semcb id).semcnt)
        × (k' ≡ set_semcnt id ((k.semcb id).semcnt - cnt) k)
  pub polled :
      served_at_once id cnt k ≡ false → is_pol tmout ≡ true → (er ≡ e_tmout) × (k' ≡ asked id cnt k)
  pub slept :
      served_at_once id cnt k ≡ false
      → is_pol tmout ≡ false
      → (er ≡ e_tmout)
        × (has_wait (k'.tcb k.ctxtsk).state ≡ true)
        × (need k' k.ctxtsk ≡ cnt)
        × (k'.sem_que id ≡ join_queue (k.semcb id).sematr (priority_of k) k.ctxtsk (k.sem_que id))
        × (k'.semcb ≡ k.semcb)

served_le : (id cnt : ℕ) (k : Kernel) → served_at_once id cnt k ≡ true → cnt ≤ (k.semcb id).semcnt
served_le id cnt k e = ground arith

sem_wait_code :
    (id cnt : ℕ) (tmout : ℤ) (k : Kernel)
    → (sem_wait id cnt tmout k).0 ≡ ((sem_wait id cnt tmout k).1.tcb k.ctxtsk).wercd
unfolding sem_wait
sem_wait_code id cnt tmout k = refl

-- A request that passes the checks is served at once, and lowers the count and nothing else, exactly
-- when the semaphore has the counts and the caller would come first or the semaphore has TA_CNT. Else
-- the answer is E_TMOUT so far; a caller that polls only notes its request, and any other is asleep
-- in the line of the semaphore, by priority or at the end, with the counts unchanged.
pub tk_wai_sem_u-Outcome :
    (semid cnt tmout : ℤ) (k : Kernel)
    → SemaphoresInv k
    → Runs k k.ctxtsk
    → Admits semid cnt tmout k
    → Outcome
        (to_ℕ semid)
        (to_ℕ cnt)
        tmout
        k
        (tk_wai_sem_u semid cnt tmout k).0
        (tk_wai_sem_u semid cnt tmout k).1
tk_wai_sem_u-Outcome semid cnt tmout k v r a =
    let id = to_ℕ semid in
    let n = to_ℕ cnt in
    record {
      served = λ e. rw (admitted_eq semid cnt tmout k a, e) (refl, served_le id n k e, refl);
      polled = λ e q.
          rw
            (
              admitted_eq semid cnt tmout k a,
              e,
              sem_wait_code id n tmout k,
              sem_wait_eq id n tmout k a.enabled,
              q,
            )
            (rw (==_self k.ctxtsk) refl, refl);
      slept = λ e q.
          rw
            (
              admitted_eq semid cnt tmout k a,
              e,
              sem_wait_code id n tmout k,
              sem_wait_eq id n tmout k a.enabled,
              q,
            )
            (sleep_trace id n tmout k v r (has_context k a.dispatch) (positive_lt cnt a.positive)
              a.fits e);
    }

-- A request that does not pass the checks changes nothing, and its answer is not E_OK.
pub tk_wai_sem_u_refused :
    (semid cnt tmout : ℤ) (k : Kernel)
    → ¬ Admits semid cnt tmout k
    → ((tk_wai_sem_u semid cnt tmout k).1 ≡ k) × ((tk_wai_sem_u semid cnt tmout k).0 ≢ e_ok)
tk_wai_sem_u_refused semid cnt tmout k n = elim (wai_cases semid cnt tmout k) [
  | inl a ↦ absurd (n a)
  | inr e ↦ e
]
