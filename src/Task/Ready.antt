-- ===== src/Task/Ready.antt =====
-- The ready queue holds READY tasks, and so do `klocktsk` and `schedtsk`.
use open_t_kernel.Base.{
  ℕ, ◌≡◌, ◌≢◌, ◌⊎◌, inl, inr, refl, ◌∙◌, arith, List, [], ◌∷◌, ◌++◌, NotIn, Distinct, erase, All,
  All-append, All-erase, All-map, erase-Distinct, erase-NotIn, NotIn-of_All, Distinct-insert, ◌==◌,
  Bool-cases, if_rule, subst, ==_self, ==_iff,
}
use mathlib.Core.List.{append-nil}
use open_t_kernel.Kernel.{Kernel, Tcb, ready, null, set_tcb, que_remove_tsk}
use open_t_kernel.ReadyQueue.{ready_queue_insert, ready_queue_move_last}
use open_t_kernel.Task.{make_ready, slice_if_running}
use open_t_kernel.Task.Frame.{
  make_ready_cases, slice_cases, queued, readied, queued-state, slice_if_running-state,
}

abbrev pub IsReady : Kernel → ℕ → Type 0
IsReady k t = (k.tcb t).state ≡ ready

-- Nothing, or a READY task.
abbrev pub NullOrReady : Kernel → ℕ → Type 0
NullOrReady k t = (t ≡ null) ⊎ IsReady k t

pub record ReadyInv (k : Kernel) : Type 0 where
  pub members : (p : ℕ) → All (IsReady k) (k.rdy_que p)
  pub distinct : (p : ℕ) → Distinct (k.rdy_que p)
  pub klock : NullOrReady k k.klocktsk
  pub sched : NullOrReady k k.schedtsk

-- Putting a task at the end of a queue that it is not in.
Distinct-snoc : (t : ℕ) (xs : List ℕ) → Distinct xs → NotIn t xs → Distinct (xs ++ t ∷ [])
Distinct-snoc t xs d n = Distinct-insert t xs [] (rw append-nil d) (rw append-nil n)

-- States that stay ready keep what the invariant says of tasks.
pub NullOrReady-keep :
    (k k' : Kernel) (t : ℕ) → (IsReady k t → IsReady k' t) → NullOrReady k t → NullOrReady k' t
NullOrReady-keep k k' t f (inl e) = inl e
NullOrReady-keep k k' t f (inr r) = inr (f r)

pub set_tcb-ReadyInv :
    (t : ℕ) (c : Tcb) (k : Kernel)
    → ((k.tcb t).state ≡ ready → c.state ≡ ready)
    → ReadyInv k
    → ReadyInv (set_tcb t c k)
set_tcb-ReadyInv t c k e v = record {
  members = λ p. All-map (IsReady k) (IsReady (set_tcb t c k)) (k.rdy_que p) keep (v.members p);
  distinct = v.distinct;
  klock = NullOrReady-keep k (set_tcb t c k) k.klocktsk (keep k.klocktsk) v.klock;
  sched = NullOrReady-keep k (set_tcb t c k) k.schedtsk (keep k.schedtsk) v.sched;
}
  where
    keep : (u : ℕ) → IsReady k u → IsReady (set_tcb t c k) u
    keep u h = elim (Bool-cases (u == t)) [
      | inl p ↦ rw p (e (subst (λ z. IsReady k z) ((==_iff u t).0 p) h))
      | inr p ↦ rw p h
    ]

move_last-ReadyInv :
    (t : ℕ) (k : Kernel) → IsReady k t → ReadyInv k → ReadyInv (ready_queue_move_last t k).1
unfolding ready_queue_move_last que_remove_tsk
move_last-ReadyInv t k r v = record {
  members = λ p.
      if_rule (All (IsReady k')) (p == (k.tcb t).priority) _ _
        (λ _. All-append (IsReady k') _ _ (keep_all (k.tcb t).priority) (keep t r, tt))
        (λ _. keep_all p);
  distinct = λ p.
      if_rule Distinct (p == (k.tcb t).priority) _ _
        (λ _.
          Distinct-snoc t _ (erase-Distinct t _ (v.distinct _)) (erase-NotIn t _ (v.distinct _)))
        (λ _. erase-Distinct t _ (v.distinct p));
  klock = NullOrReady-keep k k' k.klocktsk (keep k.klocktsk) v.klock;
  sched = NullOrReady-keep k k' k.schedtsk (keep k.schedtsk) v.sched;
}
  where
    k' : Kernel
    k' = (ready_queue_move_last t k).1

    keep : (u : ℕ) → IsReady k u → IsReady k' u
    keep u h = ground arith

    keep_all : (p : ℕ) → All (IsReady k') (erase t (k.rdy_que p))
    keep_all p =
        All-erase (IsReady k') t (k.rdy_que p)
          (All-map (IsReady k) (IsReady k') (k.rdy_que p) keep (v.members p))

slice_if_running-ReadyInv : (k : Kernel) → ReadyInv k → ReadyInv (slice_if_running k)
slice_if_running-ReadyInv k v = slice_cases ReadyInv k v λ c w s.
    let one = set_tcb-ReadyInv k.schedtsk c k (λ r. s ∙ r) v in
    (
      one,
      λ n.
          move_last-ReadyInv k.schedtsk (set_tcb k.schedtsk c k)
            (running (set_tcb k.schedtsk c k) k.schedtsk one.sched n) one,
    )
  where
    running : (k' : Kernel) (t : ℕ) → NullOrReady k' t → t ≢ null → IsReady k' t
    running k' t (inl e) n = absurd (n e)
    running k' t (inr r) n = r

pub insert-ReadyInv :
    (t : ℕ) (k : Kernel)
    → ReadyInv k
    → IsReady k t
    → ((p : ℕ) → NotIn t (k.rdy_que p))
    → ReadyInv (ready_queue_insert t k).1
unfolding ready_queue_insert
insert-ReadyInv t k v r n = record {
  members = λ p.
      if_rule (All (IsReady k')) (p == pri) (k.rdy_que pri ++ t ∷ []) (k.rdy_que p)
        (λ _. All-append (IsReady k') (k.rdy_que pri) (t ∷ []) (keep_all pri) (keep t r, tt))
        (λ _. keep_all p);
  distinct = λ p.
      if_rule Distinct (p == pri) (k.rdy_que pri ++ t ∷ []) (k.rdy_que p)
        (λ _. Distinct-snoc t (k.rdy_que pri) (v.distinct pri) (n pri)) (λ _. v.distinct p);
  klock =
      if_rule (NullOrReady k') (k.tcb t).klocked t k.klocktsk (λ _. inr (keep t r))
        (λ _. NullOrReady-keep k k' k.klocktsk (keep k.klocktsk) v.klock);
  sched = NullOrReady-keep k k' k.schedtsk (keep k.schedtsk) v.sched;
}
  where
    k' : Kernel
    k' = (ready_queue_insert t k).1

    pri : ℕ
    pri = (k.tcb t).priority

    keep : (u : ℕ) → IsReady k u → IsReady k' u
    keep u h = ground arith

    keep_all : (p : ℕ) → All (IsReady k') (k.rdy_que p)
    keep_all p = All-map (IsReady k) (IsReady k') (k.rdy_que p) keep (v.members p)

queued-ReadyInv :
    (t : ℕ) (k : Kernel) → ReadyInv k → (k.tcb t).state ≢ ready → ReadyInv (queued t k)
queued-ReadyInv t k v n =
    insert-ReadyInv t (readied t k)
      (set_tcb-ReadyInv t (record (k.tcb t) { state = ready }) k (λ _. refl) v) (rw ==_self refl)
      (λ p. NotIn-of_All (IsReady k) t (k.rdy_que p) n (v.members p))

-- Making a task READY that was not keeps the invariant.
pub make_ready-ReadyInv :
    (t : ℕ) (k : Kernel) → ReadyInv k → (k.tcb t).state ≢ ready → ReadyInv (make_ready t k)
make_ready-ReadyInv t k v n =
    let q = queued-ReadyInv t k v n in
    let s = slice_if_running-ReadyInv (queued t k) q in
    make_ready_cases ReadyInv t k
      (record {
        members = s.members;
        distinct = s.distinct;
        klock = s.klock;
        sched =
            inr (slice_if_running-state (queued t k) t ∙ (queued-state t k t ∙ rw ==_self refl));
      })
      q
