-- ===== src/ReadyQueue/Frame.antt =====
-- What the operations of ready_queue.h leave alone: the fields of a TCB that waiting uses, and the
-- wait queues of the objects.
use open_t_kernel.Base.{ℕ, ◌≡◌, refl, arith, List, NotIn, erase, if◌then◌else◌, ◌==◌, false}
use open_t_kernel.Kernel.{Kernel, Tcb, Er, Wspec, Winfo, Semcb, Flgcb, que_remove_tsk}
use open_t_kernel.ReadyQueue.{ready_queue_delete, ready_queue_shrink, ready_queue_move_last}

-- The fields of a TCB that only waiting and changes of priority write.
abbrev pub waiting : Tcb → Wspec × ℕ × Winfo × ℕ × ℕ × Er × ℕ
waiting c = (c.wspec, c.wid, c.winfo, c.waitmask, c.priority, c.wercd, c.flgptn)

-- The object tables and their free queues.
abbrev pub objects : Kernel → (ℕ → Semcb) × List ℕ × (ℕ → Flgcb) × List ℕ
objects k = (k.semcb, k.free_semcb, k.flgcb, k.free_flgcb)

-- The task is on no wait queue of an object.
abbrev pub Unqueued : ℕ → Kernel → Type 0
Unqueued t k = ((i : ℕ) → NotIn t (k.sem_que i)) × ((i : ℕ) → NotIn t (k.flg_que i))

module _ (t : ℕ) (k : Kernel) where
  pub objects-shrink : objects (ready_queue_shrink t k) ≡ objects k
  unfolding ready_queue_shrink
  objects-shrink = ground arith

  pub queues-shrink :
      ((ready_queue_shrink t k).sem_que ≡ k.sem_que)
      × ((ready_queue_shrink t k).flg_que ≡ k.flg_que)
      × ((ready_queue_shrink t k).tcb ≡ k.tcb)
      × ((ready_queue_shrink t k).schedtsk ≡ k.schedtsk)
      × ((ready_queue_shrink t k).ctxtsk ≡ k.ctxtsk)
  unfolding ready_queue_shrink
  queues-shrink = ground arith

  pub objects-delete : objects (ready_queue_delete t k) ≡ objects k
  unfolding ready_queue_delete que_remove_tsk ready_queue_shrink
  objects-delete = ground arith

  pub sem_que-delete : (i : ℕ) → (ready_queue_delete t k).sem_que i ≡ erase t (k.sem_que i)
  unfolding ready_queue_delete que_remove_tsk ready_queue_shrink
  sem_que-delete i = ground arith

  pub flg_que-delete : (i : ℕ) → (ready_queue_delete t k).flg_que i ≡ erase t (k.flg_que i)
  unfolding ready_queue_delete que_remove_tsk ready_queue_shrink
  flg_que-delete i = ground arith

  pub waiting-delete : (u : ℕ) → waiting ((ready_queue_delete t k).tcb u) ≡ waiting (k.tcb u)
  unfolding ready_queue_delete que_remove_tsk ready_queue_shrink
  waiting-delete u = ground arith

  pub state-delete : (u : ℕ) → ((ready_queue_delete t k).tcb u).state ≡ (k.tcb u).state
  unfolding ready_queue_delete que_remove_tsk ready_queue_shrink
  state-delete u = ground arith

  pub klockwait-delete :
      (u : ℕ) → (k.tcb u).klockwait ≡ false → ((ready_queue_delete t k).tcb u).klockwait ≡ false
  unfolding ready_queue_delete que_remove_tsk ready_queue_shrink
  klockwait-delete u h = ground arith

  pub klocked-delete : (u : ℕ) → ((ready_queue_delete t k).tcb u).klocked ≡ (k.tcb u).klocked
  unfolding ready_queue_delete que_remove_tsk ready_queue_shrink
  klocked-delete u = ground arith

  pub tasks-delete :
      ((ready_queue_delete t k).schedtsk ≡ k.schedtsk)
      × ((ready_queue_delete t k).ctxtsk ≡ k.ctxtsk)
  unfolding ready_queue_delete que_remove_tsk ready_queue_shrink
  tasks-delete = ground arith

  pub objects-move_last : objects (ready_queue_move_last t k).1 ≡ objects k
  unfolding ready_queue_move_last que_remove_tsk
  objects-move_last = refl

  pub sem_que-move_last : (i : ℕ) → (ready_queue_move_last t k).1.sem_que i ≡ erase t (k.sem_que i)
  unfolding ready_queue_move_last que_remove_tsk
  sem_que-move_last i = refl

  pub flg_que-move_last : (i : ℕ) → (ready_queue_move_last t k).1.flg_que i ≡ erase t (k.flg_que i)
  unfolding ready_queue_move_last que_remove_tsk
  flg_que-move_last i = refl

  pub waiting-move_last :
      (u : ℕ)
      → (waiting ((ready_queue_move_last t k).1.tcb u) ≡ waiting (k.tcb u))
        × (((ready_queue_move_last t k).1.tcb u).state ≡ (k.tcb u).state)
  unfolding ready_queue_move_last que_remove_tsk
  waiting-move_last u = (ground arith, ground arith)

  pub tasks-move_last :
      ((ready_queue_move_last t k).1.schedtsk ≡ k.schedtsk)
      × ((ready_queue_move_last t k).1.ctxtsk ≡ k.ctxtsk)
  unfolding ready_queue_move_last que_remove_tsk
  tasks-move_last = (refl, refl)

  pub rdy_que-delete : (p : ℕ) → (ready_queue_delete t k).rdy_que p ≡ erase t (k.rdy_que p)
  unfolding ready_queue_delete que_remove_tsk ready_queue_shrink
  rdy_que-delete p = ground arith

  pub klocktsk-delete :
      (ready_queue_delete t k).klocktsk ≡ (if k.klocktsk == t then 0 else k.klocktsk)
  unfolding ready_queue_delete que_remove_tsk ready_queue_shrink
  klocktsk-delete = ground arith
