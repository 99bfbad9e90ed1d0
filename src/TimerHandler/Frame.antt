-- ===== src/TimerHandler/Frame.antt =====
-- kernel/tkernel/src/wait.c and semaphore.c: the release of tasks takes events off the timer queue,
-- and puts none on it.
use open_t_kernel.Base.{
  ℕ, ◌≡◌, ◌≤◌, refl, ◌∙◌, arith, if_rule, List, [], ◌∷◌, All, length, none, some,
}
use open_t_kernel.Kernel.{
  Kernel, Event, Tmeb, Wspec, no_wspec, wspec_slp, wspec_dly, wspec_sem_tfifo, wspec_sem_tpri,
  wspec_flg_tfifo, wspec_flg_tpri, wspec_smbf_tfifo, wspec_smbf_tpri, wspec_rmbf, wspec_mbx_tfifo,
  wspec_mbx_tpri, wspec_mpf_tfifo, wspec_mpf_tpri, wspec_tev, wtmeb, que_remove_tsk,
}
use open_t_kernel.Timer.{remove_event, timer_delete}
use open_t_kernel.ReadyQueue.{ready_queue_insert, ready_queue_move_last}
use open_t_kernel.Task.{make_ready, slice_if_running}
use open_t_kernel.Task.Frame.{slice_counts, make_ready_cases, queued}
use open_t_kernel.Wait.{
  make_non_wait, wait_release, wait_release_ok, wait_release_tmout, run_rel_wai,
}
use open_t_kernel.Semaphore.{sem_grant, sem_serve, sem_chg_pri, sem_rel_wai}
use open_t_kernel.MessageBuf.{mbf_wakeup, mbf_accept, mbf_chg_pri, mbf_rel_wai}
use open_t_kernel.TimerHandler.{kernel_hooks, rel_wai_hook_of}

-- Some of the events, in their order.
pub data Sublist : List Event → List Event → Type 0 where
  none_left : Sublist [] []
  kept : (e : Event) {p q : List Event} → Sublist p q → Sublist (e ∷ p) (e ∷ q)
  dropped : (e : Event) {p q : List Event} → Sublist p q → Sublist p (e ∷ q)

pub Sublist-refl : (q : List Event) → Sublist q q
Sublist-refl [] = none_left
Sublist-refl (e ∷ q) = kept e (Sublist-refl q)

pub Sublist-trans : {p q r : List Event} → Sublist p q → Sublist q r → Sublist p r
Sublist-trans s none_left = s
Sublist-trans s (dropped e t) = dropped e (Sublist-trans s t)
Sublist-trans (kept x s) (kept e t) = kept e (Sublist-trans s t)
Sublist-trans (dropped x s) (kept e t) = dropped e (Sublist-trans s t)

pub Sublist-All : (P : Event → Type 0) {p q : List Event} → Sublist p q → All P q → All P p
Sublist-All P none_left a = tt
Sublist-All P (kept e s) a = (a.0, Sublist-All P s a.1)
Sublist-All P (dropped e s) a = Sublist-All P s a.1

pub Sublist-length : {p q : List Event} → Sublist p q → length p ≤ length q
Sublist-length none_left = omega arith
Sublist-length (kept e s) = omega (arith, Sublist-length s)
Sublist-length (dropped e s) = omega (arith, Sublist-length s)

remove_event-Sublist : (b : Tmeb) (q : List Event) → Sublist (remove_event b q) q
unfolding remove_event
remove_event-Sublist b [] = none_left
remove_event-Sublist b (e ∷ q) =
    if_rule (λ x. Sublist x (e ∷ q)) _ _ _ (λ _. dropped e (Sublist-refl q))
      (λ _. kept e (remove_event-Sublist b q))

-- From `k` to `k'` the clock stands, and no event joins the queue.
abbrev pub Fewer : Kernel → Kernel → Type 0
Fewer k k' = (k'.current_time ≡ k.current_time) × Sublist k'.timer_queue k.timer_queue

pub Fewer-refl : (k : Kernel) → Fewer k k
Fewer-refl k = (refl, Sublist-refl k.timer_queue)

pub Fewer-trans : (a b c : Kernel) → Fewer a b → Fewer b c → Fewer a c
Fewer-trans a b c s t = (t.0 ∙ s.0, Sublist-trans t.1 s.1)

move_last-Fewer : (t : ℕ) (k : Kernel) → Fewer k (ready_queue_move_last t k).1
unfolding ready_queue_move_last que_remove_tsk
move_last-Fewer t k = Fewer-refl k

slice-Fewer : (k : Kernel) → Fewer k (slice_if_running k)
slice-Fewer k =
    slice_counts (Fewer k) k (Fewer-refl k) (Fewer-refl k, λ n. move_last-Fewer k.schedtsk _)

queued-Fewer : (t : ℕ) (k : Kernel) → Fewer k (queued t k)
unfolding ready_queue_insert
queued-Fewer t k = Fewer-refl k

make_ready-Fewer : (t : ℕ) (k : Kernel) → Fewer k (make_ready t k)
make_ready-Fewer t k =
    make_ready_cases (Fewer k) t k
      (Fewer-trans k (queued t k) (slice_if_running (queued t k)) (queued-Fewer t k)
        (slice-Fewer (queued t k)))
      (queued-Fewer t k)

make_non_wait-Fewer : (t : ℕ) (k : Kernel) → Fewer k (make_non_wait t k)
unfolding make_non_wait
make_non_wait-Fewer t k = if_rule (Fewer k) _ _ _ (λ _. make_ready-Fewer t k) (λ _. Fewer-refl k)

que_remove-Fewer : (t : ℕ) (k : Kernel) → Fewer k (que_remove_tsk t k)
unfolding que_remove_tsk
que_remove-Fewer t k = Fewer-refl k

wait_release_ok-Fewer : (t : ℕ) (k : Kernel) → Fewer k (wait_release_ok t k)
unfolding wait_release_ok wait_release timer_delete
wait_release_ok-Fewer t k =
    let k1 = timer_delete (wtmeb t) k in
    Fewer-trans k k1 (make_non_wait t (que_remove_tsk t k1))
      (refl, remove_event-Sublist (wtmeb t) k.timer_queue)
      (Fewer-trans k1 (que_remove_tsk t k1) (make_non_wait t (que_remove_tsk t k1))
        (que_remove-Fewer t k1) (make_non_wait-Fewer t (que_remove_tsk t k1)))

sem_serve-Fewer : (id : ℕ) (queue : List ℕ) (k : Kernel) → Fewer k (sem_serve id queue k)
unfolding sem_serve sem_grant
sem_serve-Fewer id [] k = Fewer-refl k
sem_serve-Fewer id (t ∷ queue) k =
    if_rule (Fewer k) _ _ _ (λ _. Fewer-refl k)
      (λ _.
        Fewer-trans k (sem_grant id t k) (sem_serve id queue (sem_grant id t k))
          (wait_release_ok-Fewer t k) (sem_serve-Fewer id queue (sem_grant id t k)))

sem_rel_wai-Fewer : (t : ℕ) (k : Kernel) → Fewer k (sem_rel_wai t k)
unfolding sem_rel_wai sem_chg_pri
sem_rel_wai-Fewer t k =
    if_rule (Fewer k) _ _ _ (λ _. Fewer-refl k)
      (λ _. sem_serve-Fewer (k.tcb t).wid (k.sem_que (k.tcb t).wid) k)

mbf_wakeup-Fewer : (id : ℕ) (queue : List ℕ) (k : Kernel) → Fewer k (mbf_wakeup id queue k)
unfolding mbf_wakeup mbf_accept
mbf_wakeup-Fewer id [] k = Fewer-refl k
mbf_wakeup-Fewer id (t ∷ queue) k =
    let k1 = mbf_accept id t k in
    if_rule (Fewer k) _ _ _ (λ _. Fewer-refl k)
      (λ _.
        Fewer-trans k k1 (mbf_wakeup id queue k1) (wait_release_ok-Fewer t _)
          (mbf_wakeup-Fewer id queue k1))

mbf_rel_wai-Fewer : (t : ℕ) (k : Kernel) → Fewer k (mbf_rel_wai t k)
unfolding mbf_rel_wai mbf_chg_pri
mbf_rel_wai-Fewer t k = mbf_wakeup-Fewer (k.tcb t).wid (k.smbf_que (k.tcb t).wid) k

hook-Fewer :
    (w : Wspec) (t : ℕ) (k : Kernel)
    → Fewer k (elim (rel_wai_hook_of w) [ none ↦ k | some hook ↦ hook t k ])
unfolding rel_wai_hook_of
hook-Fewer no_wspec t k = Fewer-refl k
hook-Fewer wspec_slp t k = Fewer-refl k
hook-Fewer wspec_dly t k = Fewer-refl k
hook-Fewer wspec_sem_tfifo t k = sem_rel_wai-Fewer t k
hook-Fewer wspec_sem_tpri t k = sem_rel_wai-Fewer t k
hook-Fewer wspec_flg_tfifo t k = Fewer-refl k
hook-Fewer wspec_flg_tpri t k = Fewer-refl k
hook-Fewer wspec_smbf_tfifo t k = mbf_rel_wai-Fewer t k
hook-Fewer wspec_smbf_tpri t k = mbf_rel_wai-Fewer t k
hook-Fewer wspec_rmbf t k = Fewer-refl k
hook-Fewer wspec_mbx_tfifo t k = Fewer-refl k
hook-Fewer wspec_mbx_tpri t k = Fewer-refl k
hook-Fewer wspec_mpf_tfifo t k = Fewer-refl k
hook-Fewer wspec_mpf_tpri t k = Fewer-refl k
hook-Fewer (wspec_tev f) t k = Fewer-refl k

-- The timeout of a task that waits releases it, and others that its release lets go on.
pub wait_release_tmout-Fewer : (t : ℕ) (k : Kernel) → Fewer k (wait_release_tmout kernel_hooks t k)
unfolding wait_release_tmout run_rel_wai
wait_release_tmout-Fewer t k =
    let k1 = que_remove_tsk t k in
    let k2 = make_non_wait t k1 in
    let k3 = run_rel_wai kernel_hooks t k2 in
    Fewer-trans k k1 k3 (que_remove-Fewer t k)
      (Fewer-trans k1 k2 k3 (make_non_wait-Fewer t k1) (hook-Fewer (k2.tcb t).wspec t k2))
