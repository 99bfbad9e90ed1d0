-- ===== src/Klock/Frame.antt =====
-- kernel/tkernel/src/klock.c and task.c: tasks that become ready or leave the ready queue take no lock and
-- give none up.
use open_t_kernel.Base.{
  erase, ℕ, ◌≡◌, refl, ◌∙◌, arith, false, not, ◌==◌, ◌-◌, if◌then◌else◌, if_rule, NotIn, Distinct,
  NotIn-erase, erase-Distinct, erase,
}
use open_t_kernel.Bits.{bit_clr, bit_search1_w}
use open_t_kernel.Kernel.{Kernel, Tcb, null, num_pri, set_tcb, que_remove_tsk}
use open_t_kernel.ReadyQueue.{
  is_nil, next_top, ready_queue_top, ready_queue_insert, ready_queue_delete, ready_queue_shrink,
  ready_queue_move_last,
}
use open_t_kernel.Task.{make_ready, make_non_ready, slice_if_running}
use open_t_kernel.Task.Frame.{slice_counts, sliced, make_ready_cases, queued}

-- From `k` to `k'` lock `loc` is as it was, but for tasks that leave its queue.
pub record SameLock (loc : ℕ) (k k' : Kernel) : Type 0 where
  pub used_same : k'.lock_used loc ≡ k.lock_used loc
  pub locked_same : (u : ℕ) → (k'.tcb u).klocked ≡ (k.tcb u).klocked
  pub absent : (h : ℕ) → NotIn h (k.lock_que loc) → NotIn h (k'.lock_que loc)
  pub distinct : Distinct (k.lock_que loc) → Distinct (k'.lock_que loc)

module _ (loc : ℕ) where
  pub SameLock-trans : (a b c : Kernel) → SameLock loc a b → SameLock loc b c → SameLock loc a c
  SameLock-trans a b c s t = record {
    used_same = t.used_same ∙ s.used_same;
    locked_same = λ u. t.locked_same u ∙ s.locked_same u;
    absent = λ h n. t.absent h (s.absent h n);
    distinct = λ d. t.distinct (s.distinct d);
  }

  SameLock-refl : (k : Kernel) → SameLock loc k k
  SameLock-refl k = record {
    used_same = refl;
    locked_same = λ u. refl;
    absent = λ h n. n;
    distinct = λ d. d;
  }

  pub set_tcb-SameLock :
      (t : ℕ) (c : Tcb) (k : Kernel)
      → c.klocked ≡ (k.tcb t).klocked
      → SameLock loc k (set_tcb t c k)
  set_tcb-SameLock t c k e = record {
    used_same = refl;
    locked_same = λ u. ground (arith, e);
    absent = λ h n. n;
    distinct = λ d. d;
  }

  move_last-SameLock : (t : ℕ) (k : Kernel) → SameLock loc k (ready_queue_move_last t k).1
  unfolding ready_queue_move_last que_remove_tsk
  move_last-SameLock t k = record {
    used_same = refl;
    locked_same = λ u. ground arith;
    absent = λ h n. NotIn-erase h t (k.lock_que loc) n;
    distinct = λ d. erase-Distinct t (k.lock_que loc) d;
  }

  slice-SameLock : (k : Kernel) → SameLock loc k (slice_if_running k)
  slice-SameLock k =
      let k1 = set_tcb k.schedtsk (sliced k) k in
      let one = set_tcb-SameLock k.schedtsk (sliced k) k refl in
      slice_counts (SameLock loc k) k (SameLock-refl k) (
        one,
        λ n.
            SameLock-trans k k1 (ready_queue_move_last k.schedtsk k1).1 one
              (move_last-SameLock k.schedtsk k1),
      )

  queued-SameLock : (t : ℕ) (k : Kernel) → SameLock loc k (queued t k)
  unfolding ready_queue_insert
  queued-SameLock t k = record {
    used_same = refl;
    locked_same = λ u. ground arith;
    absent = λ h n. n;
    distinct = λ d. d;
  }

  pub make_ready-SameLock : (t : ℕ) (k : Kernel) → SameLock loc k (make_ready t k)
  make_ready-SameLock t k =
      let k1 = queued t k in
      let s = slice-SameLock k1 in
      make_ready_cases (SameLock loc k) t k
        (SameLock-trans k k1 (record (slice_if_running k1) { schedtsk = t }) (queued-SameLock t k)
          (record {
            used_same = s.used_same;
            locked_same = s.locked_same;
            absent = s.absent;
            distinct = s.distinct;
          }))
        (queued-SameLock t k)

  removed-SameLock :
      (t klock : ℕ) (k : Kernel) → SameLock loc k (que_remove_tsk t (record k { klocktsk = klock }))
  unfolding que_remove_tsk
  removed-SameLock t klock k = record {
    used_same = refl;
    locked_same = λ u. refl;
    absent = λ h n. NotIn-erase h t (k.lock_que loc) n;
    distinct = λ d. erase-Distinct t (k.lock_que loc) d;
  }

  shrink-SameLock : (p : ℕ) (k : Kernel) → SameLock loc k (ready_queue_shrink p k)
  unfolding ready_queue_shrink
  shrink-SameLock p k =
      let r = SameLock-refl k in
      let k1 = record k { bitmap = bit_clr k.bitmap p } in
      let k2 = record k1 {
        top_priority = next_top (bit_search1_w (bit_clr k.bitmap p) p (num_pri - p)) p;
      } in
      let one : SameLock loc k k1 = record {
        used_same = refl;
        locked_same = λ u. refl;
        absent = λ h n. n;
        distinct = λ d. d;
      } in
      let two : SameLock loc k k2 = record {
        used_same = refl;
        locked_same = λ u. refl;
        absent = λ h n. n;
        distinct = λ d. d;
      } in
      if_rule (SameLock loc k) (not (is_nil (k.rdy_que p))) k
        (if not (p == k.top_priority) then k1 else k2) (λ _. r)
        (λ _. if_rule (SameLock loc k) (not (p == k.top_priority)) k1 k2 (λ _. one) (λ _. two))

  pub delete-SameLock : (t : ℕ) (k : Kernel) → SameLock loc k (ready_queue_delete t k)
  unfolding ready_queue_delete que_remove_tsk
  delete-SameLock t k =
      let klock = if k.klocktsk == t then null else k.klocktsk in
      let k2 = que_remove_tsk t (record k { klocktsk = klock }) in
      let c : Tcb = record (k.tcb t) { klockwait = false } in
      let p = (k.tcb t).priority in
      let r = removed-SameLock t klock k in
      if_rule (SameLock loc k) (k.tcb t).klockwait (set_tcb t c k2) (ready_queue_shrink p k2)
        (λ _. SameLock-trans k k2 (set_tcb t c k2) r (set_tcb-SameLock t c k2 refl))
        (λ _. SameLock-trans k k2 (ready_queue_shrink p k2) r (shrink-SameLock p k2))

  pub make_non_ready-SameLock : (t : ℕ) (k : Kernel) → SameLock loc k (make_non_ready t k)
  unfolding make_non_ready
  make_non_ready-SameLock t k =
      let k1 = ready_queue_delete t k in
      let d = delete-SameLock t k in
      let k2 = record k1 { schedtsk = ready_queue_top k1 } in
      let e : SameLock loc k k2 = record {
        used_same = d.used_same;
        locked_same = d.locked_same;
        absent = d.absent;
        distinct = d.distinct;
      } in
      if_rule (SameLock loc k) (k1.schedtsk == t) k2 k1 (λ _. e) (λ _. d)

lock_que-shrink : (p : ℕ) (k : Kernel) → (ready_queue_shrink p k).lock_que ≡ k.lock_que
unfolding ready_queue_shrink
lock_que-shrink p k =
    let k1 = record k { bitmap = bit_clr k.bitmap p } in
    let k2 = record k1 {
      top_priority = next_top (bit_search1_w (bit_clr k.bitmap p) p (num_pri - p)) p;
    } in
    let P = λ (k' : Kernel). k'.lock_que ≡ k.lock_que in
    if_rule P (not (is_nil (k.rdy_que p))) k (if not (p == k.top_priority) then k1 else k2)
      (λ _. refl) (λ _. if_rule P (not (p == k.top_priority)) k1 k2 (λ _. refl) (λ _. refl))

-- ready_queue_delete takes the task out of the line of a lock too.
pub lock_que-delete :
    (t : ℕ) (k : Kernel) → (ready_queue_delete t k).lock_que ≡ (λ i. erase t (k.lock_que i))
unfolding ready_queue_delete que_remove_tsk
lock_que-delete t k =
    let klock = if k.klocktsk == t then null else k.klocktsk in
    let k2 = que_remove_tsk t (record k { klocktsk = klock }) in
    let c : Tcb = record (k.tcb t) { klockwait = false } in
    let p = (k.tcb t).priority in
    if_rule (λ k'. k'.lock_que ≡ k2.lock_que) (k.tcb t).klockwait (set_tcb t c k2)
      (ready_queue_shrink p k2) (λ _. refl) (λ _. lock_que-shrink p k2)
