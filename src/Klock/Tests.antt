-- ===== src/Klock/Tests.antt =====
-- A lock that task 1 takes, holds with the tasks 3 and 2 in line, and gives up.
use open_t_kernel.Base.{◌≡◌, refl, arith, true, inl, [], ◌∷◌, upd}
use open_t_kernel.Kernel.{Kernel}
use open_t_kernel.ReadyQueue.{ready_queue_top}
use open_t_kernel.Task.{make_ready}
use open_t_kernel.Klock.{lock_obj, unlock_obj}
use open_t_kernel.Klock.Exclusive.{
  Exclusive, LockSteps, none_yet, after, locks, readies, lock_steps-Exclusive,
}
use open_t_kernel.Klock.Handover.{Handed, unlock_obj-Handed, unlock_obj-lock_obj}
use open_t_kernel.Example.{kernel}

-- Task 1 takes the lock, and task 4 becomes ready.
abbrev later : Kernel
later = make_ready 4 (lock_obj 1 kernel).1

two_steps : LockSteps 1 kernel later
two_steps = after (locks kernel) (after (readies 4 (lock_obj 1 kernel).1) none_yet)

lock_steps-Exclusive_example : Exclusive 1 later
lock_steps-Exclusive_example =
    lock_steps-Exclusive 1 kernel later two_steps
      (inl (record { unused = refl; nobody = λ u. ground arith }))

abbrev contended : Kernel
contended = record kernel {
  tcb = upd kernel.tcb 1 (record (kernel.tcb 1) { klocked = true });
  lock_used = λ i. true;
  lock_que = λ i. 3 ∷ 2 ∷ [];
  klocktsk = 1;
}

unlock_obj-Handed_example : Handed 1 3 (2 ∷ []) contended (unlock_obj 1 contended)
unlock_obj-Handed_example =
    unlock_obj-Handed 1 3 (2 ∷ []) contended refl (λ p. ground arith) (λ p. ground arith)

unlock_obj-lock_obj_example :
    ((lock_obj 1 kernel).0 ≡ true) × (unlock_obj 1 (lock_obj 1 kernel).1 ≡ kernel)
unfolding ready_queue_top
unlock_obj-lock_obj_example = unlock_obj-lock_obj 1 kernel refl refl refl refl refl
