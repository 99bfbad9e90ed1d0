-- ===== src/Semaphore/Sleep.antt =====
-- A task goes to sleep on a semaphore.
use open_t_kernel.Base.{
  ℕ, ◌≡◌, ◌≢◌, ◌≤◌, ◌<◌, inl, inr, ◌∙◌, sym, ap, refl, arith, List, [], ◌∷◌, true, false, ◌==◌, upd,
  fun_ext, All, All-map, All-distinct_map, NotIn, Distinct, Bool-cases, ==_iff, ==_self, subst,
  if_rule,
}
use open_t_kernel.Kernel.{Kernel, Tcb, tskwait, ttw_sem, null, has, ta_cnt, set_tcb, Semcb}
use open_t_kernel.ReadyQueue.Frame.{Unqueued}
use open_t_kernel.Task.Ready.{set_tcb-ReadyInv}
use open_t_kernel.Wait.{join_queue, top_of, priority_of}
use open_t_kernel.Wait.Inv.{WaitInv, SemWait, FlgWait}
use open_t_kernel.Wait.Enter.{Entered}
use open_t_kernel.Wait.Join.{AtHead, AtHead-join, All-join, Distinct-join}
use open_t_kernel.Semaphore.Served.{need, first_fit}
use open_t_kernel.Semaphore.Inv.{SemaphoresInv, SemInv, SemInv-same, Short}

-- A predicate of the head of a list that does not hold `t`.
AtHead-map :
    (P Q : ℕ → Type 0) (t : ℕ) (q : List ℕ)
    → NotIn t q
    → ((u : ℕ) → u ≢ t → P u → Q u)
    → AtHead P q
    → AtHead Q q
AtHead-map P Q t [] n f h = tt
AtHead-map P Q t (x ∷ q) n f h = f x (λ p. n.0 (sym p)) h

-- A store in the TCB of a task that is in no line.
module _ (t : ℕ) (c : Tcb) (k : Kernel) (u : Unqueued t k) (e : c.state ≡ (k.tcb t).state) where
  pub store-WaitInv : WaitInv k → WaitInv (set_tcb t c k)
  store-WaitInv v = record {
    ready_inv = set_tcb-ReadyInv t c k (λ h. e ∙ h) v.ready_inv;
    distinct = v.distinct;
    sem_waits = λ i.
        All-distinct_map (SemWait k i) (SemWait (set_tcb t c k) i) t (k.sem_que i) (u.0 i)
          (λ x n w. ground arith) (v.sem_waits i);
    flg_waits = λ i.
        All-distinct_map (FlgWait k i) (FlgWait (set_tcb t c k) i) t (k.flg_que i) (u.1 i)
          (λ x n w. ground arith) (v.flg_waits i);
  }

  pub store-SemaphoresInv : SemaphoresInv k → SemaphoresInv (set_tcb t c k)
  store-SemaphoresInv v = record {
    waits = store-WaitInv v.waits;
    sems = λ i.
        let s = v.sems i in
        record {
          bounded = s.bounded;
          head_short =
              AtHead-map (Short k i) (Short (set_tcb t c k) i) t (k.sem_que i) (u.0 i)
                (λ x n h. ground arith) s.head_short;
          all_short = λ f.
              All-distinct_map (Short k i) (Short (set_tcb t c k) i) t (k.sem_que i) (u.0 i)
                (λ x n h. ground arith) (s.all_short f);
        };
  }

-- `t` has entered the wait state, from `k` to `k2`, and joins the line of semaphore `id`.
module _ (id t : ℕ) (k k2 : Kernel) (s : Entered t k k2) (v : SemaphoresInv k) (u : Unqueued t k)
    (z : t ≢ null) (on : (k.tcb t).wid ≡ id) (factor : tskwait (k.tcb t).wspec ≡ ttw_sem)
    (asks : 0 < need k t) (fits : need k t ≤ (k.semcb id).maxsem) where
  abbrev atr : ℕ
  atr = (k.semcb id).sematr

  abbrev line : List ℕ
  line = join_queue atr (priority_of k2) t (k2.sem_que id)

  abbrev pub joined : Kernel
  joined = record k2 { sem_que = upd k2.sem_que id line }

  semcb_joined : joined.semcb ≡ k.semcb
  semcb_joined = ground (arith, s.objects_same)

  SemWait-keep : (i x : ℕ) → x ≢ t → SemWait k i x → SemWait joined i x
  SemWait-keep i x n w = ground (arith, s.objects_same, s.waiting_same x, s.state_same x n)

  SemWait-new : SemWait joined id t
  SemWait-new = ground (arith, s.objects_same, s.waiting_same t, s.asleep)

  FlgWait-keep : (i x : ℕ) → x ≢ t → FlgWait k i x → FlgWait joined i x
  FlgWait-keep i x n w = ground (arith, s.waiting_same x, s.state_same x n)

  line_waits : (i : ℕ) → All (SemWait joined i) (k2.sem_que i)
  line_waits i = rw (s.sem_que_same i) (
      All-distinct_map (SemWait k i) (SemWait joined i) t (k.sem_que i) (u.0 i) (SemWait-keep i)
        (v.waits.sem_waits i))

  own_line :
      (P : List ℕ → Type 0) (i : ℕ) → (i ≡ id → P line) → P (k2.sem_que i) → P (joined.sem_que i)
  own_line P i f g = if_rule P (i == id) line (k2.sem_que i) (λ e. f ((==_iff i id).0 e)) (λ _. g)

  joined-WaitInv : WaitInv joined
  joined-WaitInv = record {
    ready_inv = record {
      members = s.ready_inv.members;
      distinct = s.ready_inv.distinct;
      klock = s.ready_inv.klock;
      sched = s.ready_inv.sched;
    };
    distinct = (
      λ i.
          own_line Distinct i
            (λ _.
              Distinct-join atr (priority_of k2) t (k2.sem_que id) (rw (s.sem_que_same id) (u.0 id))
                (rw (s.sem_que_same id) (v.waits.distinct.0 id)))
            (rw (s.sem_que_same i) (v.waits.distinct.0 i)),
      λ i. rw (s.flg_que_same i) (v.waits.distinct.1 i),
    );
    sem_waits = λ i.
        own_line (All (SemWait joined i)) i
          (λ e.
            subst (λ j. All (SemWait joined j) line) (sym e)
              (All-join atr (priority_of k2) t (SemWait joined id) (k2.sem_que id) SemWait-new
                (line_waits id)))
          (line_waits i);
    flg_waits = λ i. rw (s.flg_que_same i) (
        All-distinct_map (FlgWait k i) (FlgWait joined i) t (k.flg_que i) (u.1 i) (FlgWait-keep i)
          (v.waits.flg_waits i));
  }

  need-joined : (x : ℕ) → need joined x ≡ need k x
  need-joined x = ground (arith, s.waiting_same x)

  Short-joined : (i x : ℕ) → Short k i x → Short joined i x
  Short-joined i x h =
      omega (arith, need-joined x, ap (λ (f : ℕ → Semcb). (f i).semcnt) semcb_joined)

  heads : (q : List ℕ) → AtHead (Short k id) q → AtHead (Short joined id) q
  heads [] h = tt
  heads (x ∷ q) h = Short-joined id x h

  priority_same : priority_of k2 ≡ priority_of k
  priority_same = fun_ext λ x. ground (arith, s.waiting_same x)

  -- The line of the semaphore with `t` in it.
  pub queue_joined : joined.sem_que id ≡ join_queue atr (priority_of k) t (k.sem_que id)
  queue_joined = rw (==_self id, priority_same, s.sem_que_same id) refl

  -- If nobody whom the counts would serve joins, the invariant stays.
  pub joined-SemaphoresInv :
      (top_of atr (priority_of k) t (k.sem_que id) ≡ t → Short k id t)
      → (first_fit k id ≡ true → Short k id t)
      → SemaphoresInv joined
  joined-SemaphoresInv head all = record {
    waits = joined-WaitInv;
    sems = λ i. elim (Bool-cases (i == id)) [
      | inl e ↦ subst (SemInv joined) (sym ((==_iff i id).0 e)) own
      | inr e ↦
          SemInv-same k joined i (ap (λ (f : ℕ → Semcb). f i) semcb_joined)
            (other i e ∙ s.sem_que_same i) need-joined (v.sems i)
    ];
  }
    where
      other : (i : ℕ) → (i == id) ≡ false → joined.sem_que i ≡ k2.sem_que i
      other i e = rw e refl

      sv : SemInv k id
      sv = v.sems id

      own : SemInv joined id
      own = record {
        bounded = rw semcb_joined sv.bounded;
        head_short = rw queue_joined (
            AtHead-join (Short joined id) atr (priority_of k) t (k.sem_que id)
              (heads (k.sem_que id) sv.head_short) (λ e. Short-joined id t (head e)));
        all_short = λ f.
            let f' : first_fit k id ≡ true =
              subst (λ (g : ℕ → Semcb). has (g id).sematr ta_cnt ≡ true) semcb_joined f in
            rw queue_joined (
              All-join atr (priority_of k) t (Short joined id) (k.sem_que id)
                (Short-joined id t (all f'))
                (All-map (Short k id) (Short joined id) (k.sem_que id) (Short-joined id)
                  (sv.all_short f')));
      }
