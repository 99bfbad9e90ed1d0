-- ===== src/Example.antt =====
-- A concrete kernel for tests: task 1 runs; tasks 2 and 3 wait on semaphore 1, in the order of their
-- arrival, for 2 counts and for 1; task 4 is suspended; task 5 waits on event flag 1 for two bits.
use open_t_kernel.Base.{
  ℕ, ◌≡◌, refl, sym, arith, [], ◌∷◌, All, Distinct, true, false, inl, inr, if◌then◌else◌, ◌==◌,
  if_rule, ==_iff, subst, ◌%◌,
}
use open_t_kernel.Kernel.{
  Kernel, Tcb, nonexist, ready, wait, suspend, no_winfo, sem, no_wspec, wspec_sem_tfifo,
  wspec_flg_tfifo, flg, e_ok, e_tmout, null,
}
use open_t_kernel.Task.Ready.{ReadyInv, IsReady}
use open_t_kernel.Wait.Inv.{WaitInv, SemWait, FlgWait}
use open_t_kernel.EventFlag.{eventflag_cond}
use open_t_kernel.EventFlag.Signal.{Asks, Unmet}
use open_t_kernel.EventFlag.Inv.{FlagsInv}
use open_t_kernel.Semaphore.Inv.{SemaphoresInv, Short}
use open_t_kernel.Wait.Join.{AtHead}

abbrev blank_tcb : Tcb
blank_tcb = record {
  ipriority = 10;
  bpriority = 10;
  priority = 10;
  state = nonexist;
  nodiswai = false;
  klockwait = false;
  klocked = false;
  wspec = no_wspec;
  wid = 0;
  wupcnt = 0;
  suscnt = 0;
  wercd = e_ok;
  winfo = no_winfo;
  flgptn = 0;
  waitmask = 0;
  tskevt = 0;
  slicetime = 0;
  slicecnt = 0;
  sysmode = 0;
  stime = 0;
  utime = 0;
  rcvmsg = λ i. 0;
  rcvsz = 0;
  rcvpk = 0;
  rcvblf = 0;
  svclocked = 0;
}

abbrev sleeper : ℕ → Tcb
sleeper cnt = record blank_tcb {
  state = wait;
  wspec = wspec_sem_tfifo;
  wid = 1;
  wercd = e_tmout;
  winfo = sem cnt;
}

abbrev tcbs : ℕ → Tcb
tcbs t =
    if t == 1
    then record blank_tcb { state = ready }
    else if t == 2
    then sleeper 2
    else if t == 3
    then sleeper 1
    else if t == 4
    then record blank_tcb { state = suspend }
    else if t == 5
    then record blank_tcb {
      state = wait;
      wspec = wspec_flg_tfifo;
      wid = 1;
      wercd = e_tmout;
      winfo = flg 3 0;
    }
    else blank_tcb

abbrev pub kernel : Kernel
kernel = record {
  tcb = tcbs;
  top_priority = 10;
  rdy_que = λ p. if p == 10 then 1 ∷ [] else [];
  bitmap = λ i. if i == 1 then 4 else 0;
  klocktsk = null;
  ctxtsk = 1;
  schedtsk = 1;
  dispatch_disabled = 0;
  max_tskid = 8;
  task_independent = false;
  interrupt_disabled = false;
  timer_queue = [];
  current_time = 5000;
  real_time_ofs = 0;
  timer_period = 10000;
  hw_timer_usec = 10;
  lock_que = λ i. [];
  lock_used = λ i. false;
  svc_que = λ i. [];
  svc_used = λ i. false;
  locklist = λ i. 0;
  mpf_que = λ i. [];
  sem_que = λ i. if i == 1 then 2 ∷ 3 ∷ [] else [];
  flg_que = λ i. if i == 1 then 5 ∷ [] else [];
  smbf_que = λ i. [];
  rmbf_que = λ i. [];
  mbx_que = λ i. [];
  semcb = λ i. record {
    semid = if i == 1 then 1 else 0;
    exinf = 0;
    sematr = 0;
    semcnt = 0;
    maxsem = 5;
  };
  free_semcb = 2 ∷ 3 ∷ [];
  max_semid = 3;
  flgcb = λ i. record { flgid = if i == 1 then 1 else 0; exinf = 0; flgatr = 0; flgptn = 0 };
  free_flgcb = 1 ∷ [];
  max_flgid = 1;
  mbfcb = λ i. record {
    mbfid = if i == 1 then 1 else 0;
    exinf = 0;
    mbfatr = 0;
    bufsz = 16;
    maxmsz = 12;
    frbufsz = 16;
    head = 8;
    tail = 8;
    buffer = λ j. 0;
  };
  free_mbfcb = 2 ∷ [];
  max_mbfid = 2;
  mbxcb = λ i. record {
    mbxid = if i == 1 then 1 else 0;
    exinf = 0;
    mbxatr = 2;
    headmsg = 0;
    mq_tail = 0;
  };
  free_mbxcb = 2 ∷ [];
  max_mbxid = 2;
  nextmsg = λ i. 0;
  msgpri = λ i. i % 10;
  mpfcb = λ i. record {
    mpfid = 0;
    exinf = 0;
    mpfatr = 0;
    mpfcnt = 0;
    blfsz = 0;
    mpfsz = 0;
    frbcnt = 0;
    mempool = 0;
    unused = 0;
    freelist = 0;
  };
  free_mpfcb = 1 ∷ 2 ∷ [];
  max_mpfid = 2;
  next_free = λ i. 0;
  cyccb = λ i. record {
    exinf = 0;
    cycatr = 0;
    cychdr = if i == 1 then 700 else 0;
    cycstat = if i == 1 then 1 else 0;
    cyctim = 3000;
    time = 9000;
  };
  free_cyccb = 2 ∷ [];
  max_cycid = 2;
  almcb = λ i. record { exinf = 0; almatr = 0; almhdr = 0; almstat = 0; time = 0 };
  free_almcb = 1 ∷ [];
  max_almid = 1;
}

pub kernel-ReadyInv : ReadyInv kernel
kernel-ReadyInv = record {
  members = λ p. if_rule (All (IsReady kernel)) (p == 10) (1 ∷ []) [] (λ _. (refl, tt)) (λ _. tt);
  distinct = λ p. if_rule Distinct (p == 10) (1 ∷ []) [] (λ _. (tt, tt)) (λ _. tt);
  klock = inl refl;
  sched = inr refl;
}

waits_at_one : (i : ℕ) → (i == 1) ≡ true → All (SemWait kernel i) (2 ∷ 3 ∷ [])
waits_at_one i e =
    subst (λ j. All (SemWait kernel j) (2 ∷ 3 ∷ [])) (sym ((==_iff i 1).0 e))
      (
        ((λ p. ground arith), refl, refl, refl, omega arith, omega arith),
        (((λ p. ground arith), refl, refl, refl, omega arith, omega arith), tt),
      )

flag_at_one : (i : ℕ) → (i == 1) ≡ true → All (FlgWait kernel i) (5 ∷ [])
flag_at_one i e =
    subst (λ j. All (FlgWait kernel j) (5 ∷ [])) (sym ((==_iff i 1).0 e))
      (((λ p. ground arith), refl, refl, refl), tt)

pub kernel-WaitInv : WaitInv kernel
kernel-WaitInv = record {
  ready_inv = kernel-ReadyInv;
  distinct = (
    λ i.
        if_rule Distinct (i == 1) (2 ∷ 3 ∷ []) [] (λ _. (((λ p. ground arith), tt), (tt, tt)))
          (λ _. tt),
    λ i. if_rule Distinct (i == 1) (5 ∷ []) [] (λ _. (tt, tt)) (λ _. tt),
  );
  sem_waits =
      λ i. if_rule (All (SemWait kernel i)) (i == 1) (2 ∷ 3 ∷ []) [] (waits_at_one i) (λ _. tt);
  flg_waits = λ i. if_rule (All (FlgWait kernel i)) (i == 1) (5 ∷ []) [] (flag_at_one i) (λ _. tt);
}

pub kernel-SemaphoresInv : SemaphoresInv kernel
kernel-SemaphoresInv = record {
  waits = kernel-WaitInv;
  sems = λ i. record {
    bounded = omega arith;
    head_short =
        if_rule (AtHead (Short kernel i)) (i == 1) (2 ∷ 3 ∷ []) [] (λ _. omega arith) (λ _. tt);
    all_short = λ f. absurd (cc);
  };
}

five_waits : eventflag_cond 0 3 0 ≡ false
unfolding eventflag_cond
five_waits = refl

pub kernel-FlagsInv : FlagsInv kernel
kernel-FlagsInv = record {
  sems = kernel-SemaphoresInv;
  flags = λ i. record {
    asks =
        if_rule (All (Asks kernel)) (i == 1) (5 ∷ []) [] (λ _. ((λ p. ground arith), tt)) (λ _. tt);
    unmet = if_rule (All (Unmet kernel i)) (i == 1) (5 ∷ []) [] (λ _. (five_waits, tt)) (λ _. tt);
  };
}
