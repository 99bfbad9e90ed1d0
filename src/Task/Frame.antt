-- ===== src/Task/Frame.antt =====
-- What the scheduling of task.c leaves alone.
use open_t_kernel.Base.{
  ℕ, ◌≡◌, ◌≢◌, ◌⊎◌, inl, inr, refl, ◌∙◌, arith, erase_of_NotIn, true, Bool-cases, ◌==◌, if_rule,
  if◌then◌else◌, ◌+◌, ◌%◌, ◌^◌, not, ltb, ◌&&◌,
}
use open_t_kernel.Kernel.{Kernel, Tcb, ready, null, set_tcb}
use open_t_kernel.Task.{time_slice_schedule, slice_if_running, make_ready}
use open_t_kernel.ReadyQueue.{ready_queue_insert, ready_queue_move_last}
use open_t_kernel.ReadyQueue.Frame.{
  waiting, objects, Unqueued, objects-move_last, sem_que-move_last, flg_que-move_last,
  waiting-move_last,
}

-- The task to execute, if there is one, is on no wait queue.
abbrev pub SchedFree : Kernel → Type 0
SchedFree k = (k.schedtsk ≡ null) ⊎ Unqueued k.schedtsk k

-- A change of the kernel that is of no concern to a waiting task: the object tables, the wait queues
-- and the fields of TCBs for waiting stay as they are.
pub record Scheduled (k k' : Kernel) : Type 0 where
  pub objects_same : objects k' ≡ objects k
  pub sem_que_same : (i : ℕ) → k'.sem_que i ≡ k.sem_que i
  pub flg_que_same : (i : ℕ) → k'.flg_que i ≡ k.flg_que i
  pub waiting_same : (u : ℕ) → waiting (k'.tcb u) ≡ waiting (k.tcb u)

pub Scheduled-trans : {a b c : Kernel} → Scheduled a b → Scheduled b c → Scheduled a c
Scheduled-trans s t = record {
  objects_same = t.objects_same ∙ s.objects_same;
  sem_que_same = λ i. t.sem_que_same i ∙ s.sem_que_same i;
  flg_que_same = λ i. t.flg_que_same i ∙ s.flg_que_same i;
  waiting_same = λ u. t.waiting_same u ∙ s.waiting_same u;
}

Scheduled-refl : (k : Kernel) → Scheduled k k
Scheduled-refl k = record {
  objects_same = refl;
  sem_que_same = λ i. refl;
  flg_que_same = λ i. refl;
  waiting_same = λ u. refl;
}

pub set_tcb-Scheduled :
    (t : ℕ) (c : Tcb) (k : Kernel) → waiting c ≡ waiting (k.tcb t) → Scheduled k (set_tcb t c k)
set_tcb-Scheduled t c k h = record {
  objects_same = refl;
  sem_que_same = λ i. refl;
  flg_que_same = λ i. refl;
  waiting_same = λ u. ground arith;
}

move_last-Scheduled :
    (t : ℕ) (k : Kernel) → Unqueued t k → Scheduled k (ready_queue_move_last t k).1
move_last-Scheduled t k f = record {
  objects_same = objects-move_last t k;
  sem_que_same = λ i. sem_que-move_last t k i ∙ erase_of_NotIn t (k.sem_que i) (f.0 i);
  flg_que_same = λ i. flg_que-move_last t k i ∙ erase_of_NotIn t (k.flg_que i) (f.1 i);
  waiting_same = λ u. (waiting-move_last t k u).0;
}

-- The TCB of the task to execute with its slice counted.
abbrev pub sliced : Kernel → Tcb
sliced k = record (k.tcb k.schedtsk) {
  slicecnt = ((k.tcb k.schedtsk).slicecnt + k.timer_period) % 2 ^ 64;
}

sliced_ne : (t s : ℕ) → (not (t == null) && ltb 0 s) ≡ true → t ≢ null
sliced_ne t s h = ground arith

-- What holds of each kernel that a time slice may lead to.
pub slice_counts {ℓ} :
    (P : Kernel → Type ℓ) (k : Kernel)
    → P k
    → P (set_tcb k.schedtsk (sliced k) k)
      × (k.schedtsk ≢ null
          → P (ready_queue_move_last k.schedtsk (set_tcb k.schedtsk (sliced k) k)).1)
    → P (slice_if_running k)
unfolding time_slice_schedule
slice_counts P k h f = elim (Bool-cases (k.schedtsk == k.ctxtsk)) [
  | inr e ↦ rw e h
  | inl e ↦
      rw e (elim (Bool-cases (not (k.schedtsk == null) && ltb 0 (k.tcb k.schedtsk).slicetime)) [
        | inr e' ↦ rw e' h
        | inl e' ↦ rw e' (elim (Bool-cases (ltb (k.tcb k.schedtsk).slicetime (sliced k).slicecnt)) [
          | inl o ↦ rw o (f.1 (sliced_ne k.schedtsk (k.tcb k.schedtsk).slicetime e'))
          | inr o ↦ rw o f.0
        ])
      ])
]

-- The same for any store that does not concern waiting.
pub slice_cases {ℓ} :
    (P : Kernel → Type ℓ) (k : Kernel)
    → P k
    → ((c : Tcb)
        → waiting c ≡ waiting (k.tcb k.schedtsk)
        → c.state ≡ (k.tcb k.schedtsk).state
        → P (set_tcb k.schedtsk c k)
          × (k.schedtsk ≢ null → P (ready_queue_move_last k.schedtsk (set_tcb k.schedtsk c k)).1))
    → P (slice_if_running k)
slice_cases P k h f = slice_counts P k h (f (sliced k) refl refl)

slice_if_running-Scheduled : (k : Kernel) → SchedFree k → Scheduled k (slice_if_running k)
slice_if_running-Scheduled k f = slice_cases (Scheduled k) k (Scheduled-refl k) λ c w _.
    let one = set_tcb-Scheduled k.schedtsk c k w in
    (
      one,
      λ n. Scheduled-trans one (move_last-Scheduled k.schedtsk (set_tcb k.schedtsk c k) (unq f n)),
    )
  where
    unq : SchedFree k → k.schedtsk ≢ null → Unqueued k.schedtsk k
    unq (inl e) n = absurd (n e)
    unq (inr u) n = u

-- Nor does it change a state.
pub slice_if_running-state :
    (k : Kernel) (u : ℕ) → ((slice_if_running k).tcb u).state ≡ (k.tcb u).state
slice_if_running-state k u =
    slice_cases (λ k'. (k'.tcb u).state ≡ (k.tcb u).state) k refl
      λ c w s. (one c s, λ n. (waiting-move_last k.schedtsk (set_tcb k.schedtsk c k) u).1 ∙ one c s)
  where
    one :
        (c : Tcb)
        → c.state ≡ (k.tcb k.schedtsk).state
        → ((set_tcb k.schedtsk c k).tcb u).state ≡ (k.tcb u).state
    one c s = ground arith

insert-Scheduled : (t : ℕ) (k : Kernel) → Scheduled k (ready_queue_insert t k).1
unfolding ready_queue_insert
insert-Scheduled t k = record {
  objects_same = refl;
  sem_que_same = λ i. refl;
  flg_que_same = λ i. refl;
  waiting_same = λ u. ground arith;
}

-- The kernel with the task's state set, and then put on the ready queue.
abbrev pub readied : ℕ → Kernel → Kernel
readied t k = set_tcb t (record (k.tcb t) { state = ready }) k

abbrev pub queued : ℕ → Kernel → Kernel
queued t k = (ready_queue_insert t (readied t k)).1

pub make_ready_cases {ℓ} :
    (P : Kernel → Type ℓ) (t : ℕ) (k : Kernel)
    → P (record (slice_if_running (queued t k)) { schedtsk = t })
    → P (queued t k)
    → P (make_ready t k)
unfolding make_ready
make_ready_cases P t k f g = if_rule P _ _ _ (λ _. f) (λ _. g)

queued-Scheduled : (t : ℕ) (k : Kernel) → Scheduled k (queued t k)
queued-Scheduled t k =
    Scheduled-trans (set_tcb-Scheduled t (record (k.tcb t) { state = ready }) k refl)
      (insert-Scheduled t (readied t k))

queued-SchedFree : (t : ℕ) (k : Kernel) → SchedFree k → SchedFree (queued t k)
unfolding ready_queue_insert
queued-SchedFree t k f = f

-- A task made ready changes nothing for the tasks that wait.
pub make_ready-Scheduled : (t : ℕ) (k : Kernel) → SchedFree k → Scheduled k (make_ready t k)
make_ready-Scheduled t k f =
    make_ready_cases (Scheduled k) t k
      (Scheduled-trans (queued-Scheduled t k)
        (resched _ _ _ (slice_if_running-Scheduled (queued t k) (queued-SchedFree t k f))))
      (queued-Scheduled t k)
  where
    resched : (a b : Kernel) (u : ℕ) → Scheduled a b → Scheduled a (record b { schedtsk = u })
    resched a b u s = record {
      objects_same = s.objects_same;
      sem_que_same = s.sem_que_same;
      flg_que_same = s.flg_que_same;
      waiting_same = s.waiting_same;
    }

pub queued-state :
    (t : ℕ) (k : Kernel) (u : ℕ)
    → ((queued t k).tcb u).state ≡ (if u == t then ready else (k.tcb u).state)
unfolding ready_queue_insert
queued-state t k u = ground arith

pub make_ready-state :
    (t : ℕ) (k : Kernel) (u : ℕ)
    → ((make_ready t k).tcb u).state ≡ (if u == t then ready else (k.tcb u).state)
make_ready-state t k u =
    make_ready_cases (λ k'. (k'.tcb u).state ≡ (if u == t then ready else (k.tcb u).state)) t k
      (slice_if_running-state (queued t k) u ∙ queued-state t k u) (queued-state t k u)

Unqueued-Scheduled : (t : ℕ) {k k' : Kernel} → Scheduled k k' → Unqueued t k → Unqueued t k'
Unqueued-Scheduled t s u = (λ i. rw (s.sem_que_same i) (u.0 i), λ i. rw (s.flg_que_same i) (u.1 i))

pub make_ready-SchedFree :
    (t : ℕ) (k : Kernel) → SchedFree k → Unqueued t k → SchedFree (make_ready t k)
make_ready-SchedFree t k f u =
    make_ready_cases SchedFree t k
      (inr (
        Unqueued-Scheduled t
          (Scheduled-trans (queued-Scheduled t k)
            (slice_if_running-Scheduled (queued t k) (queued-SchedFree t k f)))
          u))
      (queued-SchedFree t k f)
