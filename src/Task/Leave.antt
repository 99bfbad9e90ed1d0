-- ===== src/Task/Leave.antt =====
-- A task leaves the ready queue, or its wait, and the ready queue stays sound.
use open_t_kernel.Base.{
  ℕ, ◌≢◌, inl, inr, refl, sym, ◌∙◌, arith, List, [], ◌∷◌, NotIn, Distinct, All, All-erase, All-map,
  All-distinct_map, erase-Distinct, erase-NotIn, NotIn-of_All, ◌==◌, if_rule, not, subst,
}
use open_t_kernel.Kernel.{Kernel, Tcb, ready, null, set_tcb, que_remove_tsk}
use open_t_kernel.ReadyQueue.{ready_queue_delete, ready_queue_top, head_or_null}
use open_t_kernel.Task.{make_non_ready}
use open_t_kernel.Task.Ready.{IsReady, NullOrReady, NullOrReady-keep, ReadyInv}
use open_t_kernel.ReadyQueue.Frame.{state-delete, rdy_que-delete, klocktsk-delete, tasks-delete}

-- The ready queue is sound, and `t` has no part in it.
pub record Absent (t : ℕ) (k : Kernel) : Type 0 where
  pub inv : ReadyInv k
  pub not_queued : (p : ℕ) → NotIn t (k.rdy_que p)
  pub not_klock : k.klocktsk ≢ t
  pub not_sched : k.schedtsk ≢ t

-- Whatever is stored in the TCB of an absent task.
pub set_tcb-Absent : (t : ℕ) (c : Tcb) (k : Kernel) → Absent t k → Absent t (set_tcb t c k)
set_tcb-Absent t c k a = record {
  inv = record {
    members = λ p.
        All-distinct_map (IsReady k) (IsReady (set_tcb t c k)) t (k.rdy_que p) (a.not_queued p) keep
          (a.inv.members p);
    distinct = a.inv.distinct;
    klock = NullOrReady-keep k (set_tcb t c k) k.klocktsk (keep k.klocktsk a.not_klock) a.inv.klock;
    sched = NullOrReady-keep k (set_tcb t c k) k.schedtsk (keep k.schedtsk a.not_sched) a.inv.sched;
  };
  not_queued = a.not_queued;
  not_klock = a.not_klock;
  not_sched = a.not_sched;
}
  where
    keep : (u : ℕ) → u ≢ t → IsReady k u → IsReady (set_tcb t c k) u
    keep u n h = ground arith

-- A task that is not READY is absent.
pub not_ready-Absent :
    (t : ℕ) (k : Kernel) → t ≢ null → (k.tcb t).state ≢ ready → ReadyInv k → Absent t k
not_ready-Absent t k z n v = record {
  inv = v;
  not_queued = λ p. NotIn-of_All (IsReady k) t (k.rdy_que p) n (v.members p);
  not_klock = other k.klocktsk v.klock;
  not_sched = other k.schedtsk v.sched;
}
  where
    other : (u : ℕ) → NullOrReady k u → u ≢ t
    other u (inl e) p = z (sym p ∙ e)
    other u (inr r) p = n (subst (IsReady k) p r)

pub que_remove-ReadyInv : (t : ℕ) (k : Kernel) → ReadyInv k → ReadyInv (que_remove_tsk t k)
unfolding que_remove_tsk
que_remove-ReadyInv t k v = record {
  members = λ p. All-erase (IsReady k) t (k.rdy_que p) (v.members p);
  distinct = λ p. erase-Distinct t (k.rdy_que p) (v.distinct p);
  klock = v.klock;
  sched = v.sched;
}

head-NullOrReady : (k : Kernel) (ts : List ℕ) → All (IsReady k) ts → NullOrReady k (head_or_null ts)
head-NullOrReady k [] h = inl refl
head-NullOrReady k (t ∷ ts) h = inr h.0

top-NullOrReady :
    (k : Kernel)
    → ((p : ℕ) → All (IsReady k) (k.rdy_que p))
    → NullOrReady k k.klocktsk
    → NullOrReady k (ready_queue_top k)
unfolding ready_queue_top
top-NullOrReady k m l =
    if_rule (NullOrReady k) (not (k.klocktsk == null)) k.klocktsk
      (head_or_null (k.rdy_que k.top_priority)) (λ _. l)
      (λ _. head-NullOrReady k (k.rdy_que k.top_priority) (m k.top_priority))

head_ne : (t : ℕ) (ts : List ℕ) → t ≢ null → NotIn t ts → head_or_null ts ≢ t
head_ne t [] z n p = z (sym p)
head_ne t (u ∷ ts) z n p = n.0 (sym p)

top_ne :
    (t : ℕ) (k : Kernel)
    → t ≢ null
    → k.klocktsk ≢ t
    → ((p : ℕ) → NotIn t (k.rdy_que p))
    → ready_queue_top k ≢ t
unfolding ready_queue_top
top_ne t k z l n =
    if_rule (λ u. u ≢ t) (not (k.klocktsk == null)) k.klocktsk
      (head_or_null (k.rdy_que k.top_priority)) (λ _. l)
      (λ _. head_ne t (k.rdy_que k.top_priority) z (n k.top_priority))

module _ (t : ℕ) (k : Kernel) (z : t ≢ null) (v : ReadyInv k) where
  d : Kernel
  d = ready_queue_delete t k

  keep : (u : ℕ) → IsReady k u → IsReady d u
  unfolding d
  keep u h = state-delete t k u ∙ h

  d-members : (p : ℕ) → All (IsReady d) (d.rdy_que p)
  unfolding d
  d-members p = rw (rdy_que-delete t k p) (
      All-erase (IsReady d) t (k.rdy_que p)
        (All-map (IsReady k) (IsReady d) (k.rdy_que p) keep (v.members p)))

  d-Distinct : (p : ℕ) → Distinct (d.rdy_que p)
  unfolding d
  d-Distinct p = rw (rdy_que-delete t k p) (erase-Distinct t (k.rdy_que p) (v.distinct p))

  d-not_queued : (p : ℕ) → NotIn t (d.rdy_que p)
  unfolding d
  d-not_queued p = rw (rdy_que-delete t k p) (erase-NotIn t (k.rdy_que p) (v.distinct p))

  d-klock : NullOrReady d d.klocktsk
  unfolding d
  d-klock = rw (klocktsk-delete t k) (
      if_rule (NullOrReady d) (k.klocktsk == t) 0 k.klocktsk (λ _. inl refl)
        (λ _. NullOrReady-keep k d k.klocktsk (keep k.klocktsk) v.klock))

  d-not_klock : d.klocktsk ≢ t
  unfolding d
  d-not_klock = rw (klocktsk-delete t k) (
      if_rule (λ u. u ≢ t) (k.klocktsk == t) 0 k.klocktsk (λ _ p. z (sym p))
        (λ e p. absurd (ground arith)))

  -- A READY task made non-ready is absent, and another task is to be executed.
  pub make_non_ready-Absent : Absent t (make_non_ready t k)
  unfolding make_non_ready d
  make_non_ready-Absent =
      if_rule (Absent t) (d.schedtsk == t) (record d { schedtsk = ready_queue_top d }) d
        (λ _. record {
          inv = record {
            members = d-members;
            distinct = d-Distinct;
            klock = d-klock;
            sched = top-NullOrReady d d-members d-klock;
          };
          not_queued = d-not_queued;
          not_klock = d-not_klock;
          not_sched = top_ne t d z d-not_klock d-not_queued;
        })
        (λ e. record {
          inv = record {
            members = d-members;
            distinct = d-Distinct;
            klock = d-klock;
            sched =
                rw ((tasks-delete t k).0)
                  (NullOrReady-keep k d k.schedtsk (keep k.schedtsk) v.sched);
          };
          not_queued = d-not_queued;
          not_klock = d-not_klock;
          not_sched = λ p. absurd (ground arith);
        })
