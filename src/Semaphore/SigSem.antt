-- ===== src/Semaphore/SigSem.antt =====
-- tk_sig_sem: what a signal does when it is accepted, and when it is not.
use open_t_kernel.Base.{
  ℕ, ◌+◌, ◌-◌, ◌≡◌, ◌≢◌, ◌≤◌, ◌<◌, ◌⊎◌, inl, inr, ◌∙◌, refl, arith, List, [], Bool-cases, true, ltb,
  ◌==◌, fun_ext,
}
use open_t_kernel.Base.Int.{ℤ, pos, negsuc, to_ℕ, is_positive}
use open_t_kernel.Kernel.{Kernel, e_ok}
use open_t_kernel.Wait.Inv.{WaitInv}
use open_t_kernel.Semaphore.{tk_sig_sem, chk_semid, set_semcnt, sem_signal}
use open_t_kernel.Semaphore.Spec.{left, granted, balance}
use open_t_kernel.Semaphore.Grant.{set_semcnt-WaitInv}
use open_t_kernel.Semaphore.Served.{need, first_fit, Served}
use open_t_kernel.Semaphore.Signal.{signal_loop}
use open_t_kernel.Wait.Sleeps.{put_back}
use open_t_kernel.Semaphore.Beside.{sem_signal-Aside}
use open_t_kernel.Semaphore.Inv.{SemaphoresInv, Served-SemaphoresInv}

-- The conditions under which tk_sig_sem accepts a signal.
pub record Accepts (semid cnt : ℤ) (k : Kernel) : Type 0 where
  pub id_valid : chk_semid semid k ≡ true
  pub positive : is_positive cnt ≡ true
  pub exists : (k.semcb (to_ℕ semid)).semid ≢ 0
  pub room : (k.semcb (to_ℕ semid)).semcnt + to_ℕ cnt ≤ (k.semcb (to_ℕ semid)).maxsem

-- `k'` with the TCBs, the ready queue, the schedule, the timer events, the wait queues and the control blocks of
-- semaphores of `k`.
abbrev pub semcb_back : Kernel → Kernel → Kernel
semcb_back k k' = record (put_back k k') { semcb = k.semcb }

-- The kernel with the counts returned, before the queue is served.
abbrev raised : ℕ → ℕ → Kernel → Kernel
raised id cnt k = set_semcnt id ((k.semcb id).semcnt + cnt) k

accepted_eq :
    (semid cnt : ℤ) (k : Kernel)
    → Accepts semid cnt k
    → tk_sig_sem semid cnt k
      ≡ (e_ok, sem_signal (to_ℕ semid) (k.sem_que (to_ℕ semid)) (raised (to_ℕ semid) (to_ℕ cnt) k))
unfolding tk_sig_sem
accepted_eq semid cnt k a = ground arith

-- A service that began with another count of the same semaphore.
Served-before :
    (id n : ℕ) (k k' : Kernel) (ts q : List ℕ) (m : ℕ)
    → Served id (set_semcnt id n k) k' ts q m
    → Served id k k' ts q m
Served-before id n k k' ts q m s = record {
  wait_inv = s.wait_inv;
  queue = s.queue;
  semcb_set = s.semcb_set ∙ fun_ext λ i. ground arith;
  sem_que_same = s.sem_que_same;
  flg_que_same = s.flg_que_same;
  free_same = s.free_same;
  flgcb_same = s.flgcb_same;
  demand_same = s.demand_same;
  others_same = s.others_same;
  woken = s.woken;
}

raised-Served :
    (id cnt : ℕ) (k : Kernel)
    → WaitInv k
    → let f = first_fit k id in
      let n = (k.semcb id).semcnt + cnt in
      let q = k.sem_que id in
      Served id
        (raised id cnt k)
        (sem_signal id q (raised id cnt k))
        (granted f (need k) n q)
        (left f (need k) n q)
        (balance f (need k) n q)
raised-Served id cnt k v =
    signal_loop id (first_fit k id) (need k) ((k.semcb id).semcnt + cnt) [] (k.sem_que id)
      (raised id cnt k) (set_semcnt-WaitInv id _ k v) refl (ground arith) refl (ground arith)

-- A signal that is accepted answers E_OK. It adds its counts to those of the semaphore and gives them
-- out as the specification says, by the order of the queue and the attribute TA_CNT: the tasks that
-- get their counts are awake with E_OK, the rest stay in line, and the count is what remains. No
-- other task changes its state or its error code, and no task what it waits for; the other lines of
-- semaphores, the lines of event flags, and the control blocks of all other objects stay as they are,
-- as does all that is no TCB, ready queue, schedule, timer event or line of tasks.
pub tk_sig_sem-Served :
    (semid cnt : ℤ) (k : Kernel)
    → WaitInv k
    → Accepts semid cnt k
    → let id = to_ℕ semid in
      let f = first_fit k id in
      let n = (k.semcb id).semcnt + to_ℕ cnt in
      let q = k.sem_que id in
      ((tk_sig_sem semid cnt k).0 ≡ e_ok)
      × Served id k
          (tk_sig_sem semid cnt k).1
          (granted f (need k) n q)
          (left f (need k) n q)
          (balance f (need k) n q)
      × (semcb_back k (tk_sig_sem semid cnt k).1 ≡ k)
tk_sig_sem-Served semid cnt k v a =
    let id = to_ℕ semid in
    rw (accepted_eq semid cnt k a) (
      refl,
      Served-before id _ k _ _ _ _ (raised-Served id (to_ℕ cnt) k v),
      sem_signal-Aside (semcb_back k) (λ j a b c d e f g h i l m n o p q. refl) (λ g k'. refl) id
          (k.sem_que id) (raised id (to_ℕ cnt) k),
    )

positive_lt : (cnt : ℤ) → is_positive cnt ≡ true → 0 < to_ℕ cnt
positive_lt (pos n) h = ground arith
positive_lt (negsuc n) h = cc

sig_cases :
    (semid cnt : ℤ) (k : Kernel)
    → Accepts semid cnt k ⊎ (((tk_sig_sem semid cnt k).1 ≡ k) × ((tk_sig_sem semid cnt k).0 ≢ e_ok))
unfolding tk_sig_sem
sig_cases semid cnt k =
    let id = to_ℕ semid in
    elim (Bool-cases (chk_semid semid k)) [
      | inr e ↦ inr (ground arith)
      | inl e ↦ elim (Bool-cases (is_positive cnt)) [
        | inr p ↦ inr (ground arith)
        | inl p ↦ elim (Bool-cases ((k.semcb id).semid == 0)) [
          | inl z ↦ inr (ground arith)
          | inr z ↦ elim (Bool-cases (ltb ((k.semcb id).maxsem - (k.semcb id).semcnt) (to_ℕ cnt))) [
            | inl o ↦ inr (ground arith)
            | inr o ↦ inl (record {
              id_valid = e;
              positive = p;
              exists = ground arith;
              room = ground (arith, positive_lt cnt p);
            })
          ]
        ]
      ]
    ]

-- A signal that is not accepted changes nothing, and its answer is not E_OK.
pub tk_sig_sem_refused :
    (semid cnt : ℤ) (k : Kernel)
    → ¬ Accepts semid cnt k
    → ((tk_sig_sem semid cnt k).1 ≡ k) × ((tk_sig_sem semid cnt k).0 ≢ e_ok)
tk_sig_sem_refused semid cnt k n = elim (sig_cases semid cnt k) [ inl a ↦ absurd (n a) | inr r ↦ r ]

-- Every signal, accepted or not, keeps the counts within bounds and leaves nobody in line whom the
-- counts would serve.
pub tk_sig_sem-SemaphoresInv :
    (semid cnt : ℤ) (k : Kernel) → SemaphoresInv k → SemaphoresInv (tk_sig_sem semid cnt k).1
tk_sig_sem-SemaphoresInv semid cnt k v = elim (sig_cases semid cnt k) [
  | inr r ↦ rw (r.0) v
  | inl a ↦
      Served-SemaphoresInv (to_ℕ semid) k (tk_sig_sem semid cnt k).1 (first_fit k (to_ℕ semid))
        ((k.semcb (to_ℕ semid)).semcnt + to_ℕ cnt) (k.sem_que (to_ℕ semid))
        (tk_sig_sem-Served semid cnt k v.waits a).1 refl a.room (λ i _. v.sems i)
]
