-- ===== src/Task/Klock.antt =====
-- make_ready and the task that holds the kernel lock.
use open_t_kernel.Base.{ℕ, ◌≡◌, ◌≢◌, ◌<◌, ◌∙◌, sym, refl, true, false, ==_self, ==_ne, lt→ltb}
use open_t_kernel.Kernel.{Kernel, null, que_remove_tsk}
use open_t_kernel.ReadyQueue.{ready_queue_top, ready_queue_insert, ready_queue_move_last}
use open_t_kernel.Task.{make_ready, slice_if_running}
use open_t_kernel.Task.Frame.{slice_cases, queued, readied}

klocktsk-move_last : (t : ℕ) (k : Kernel) → (ready_queue_move_last t k).1.klocktsk ≡ k.klocktsk
unfolding ready_queue_move_last que_remove_tsk
klocktsk-move_last t k = refl

klocktsk-slice : (k : Kernel) → (slice_if_running k).klocktsk ≡ k.klocktsk
klocktsk-slice k =
    slice_cases (λ k'. k'.klocktsk ≡ k.klocktsk) k refl
      (λ c w s. (refl, λ n. klocktsk-move_last k.schedtsk _))

module _ (t : ℕ) (k : Kernel) (free : (k.tcb t).klocked ≡ false)
    (higher : (k.tcb t).priority < k.top_priority) where
  raised : (ready_queue_insert t (readied t k)).0 ≡ true
  unfolding ready_queue_insert
  raised = rw (==_self t) (lt→ltb (k.tcb t).priority k.top_priority higher)

  klocktsk-queued : (queued t k).klocktsk ≡ k.klocktsk
  unfolding ready_queue_insert
  klocktsk-queued = rw (==_self t, free) refl

  made_ready : make_ready t k ≡ record (slice_if_running (queued t k)) { schedtsk = t }
  unfolding make_ready
  made_ready = rw raised refl

-- While a READY task holds the kernel lock, a task of a higher priority than all in the ready queue
-- that becomes ready is the one to be executed next, though the top of the ready queue is the task
-- with the lock.
pub make_ready_over_klock :
    (t : ℕ) (k : Kernel)
    → k.klocktsk ≢ null
    → k.klocktsk ≢ t
    → (k.tcb t).klocked ≡ false
    → (k.tcb t).priority < k.top_priority
    → ((make_ready t k).schedtsk ≡ t)
      × (ready_queue_top (make_ready t k) ≡ k.klocktsk)
      × ((make_ready t k).schedtsk ≢ ready_queue_top (make_ready t k))
unfolding ready_queue_top
make_ready_over_klock t k z n f h =
    let e : (slice_if_running (queued t k)).klocktsk ≡ k.klocktsk =
      klocktsk-slice (queued t k) ∙ klocktsk-queued t k f h in
    rw (made_ready t k f h, e, ==_ne k.klocktsk null z) (refl, refl, λ p. n (sym p))
