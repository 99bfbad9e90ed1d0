-- ===== src/FastLock/Tests.antt =====
-- A lock over semaphore 2, which one task holds and which task 1 then waits for.
use open_t_kernel.Base.{
  ℕ, ◌≡◌, refl, sym, arith, [], ◌∷◌, All, All-map, true, false, if_rule, subst, ==_iff, ◌==◌, inl,
  upd,
}
use open_t_kernel.Kernel.{Kernel, que_remove_tsk, Semcb, has_wait, has, ta_cnt}
use open_t_kernel.Base.Int.{pos}
use open_t_kernel.ReadyQueue.{ready_queue_delete, ready_queue_shrink}
use open_t_kernel.Semaphore.{chk_semid, sem_wait, tk_wai_sem, tk_wai_sem_u}
use open_t_kernel.Semaphore.Served.{first_fit}
use open_t_kernel.Task.{make_non_ready}
use open_t_kernel.Timer.{timer_insert}
use open_t_kernel.Wait.{
  enter_wait, gcb_make_wait, gcb_make_wait_with_diswai, gcb_top_of_wait_queue, make_wait,
  queue_insert_tpri, priority_of,
}
use open_t_kernel.Wait.Inv.{SemWait, FlgWait}
use open_t_kernel.Wait.Join.{AtHead}
use open_t_kernel.Semaphore.Inv.{SemaphoresInv, Short}
use open_t_kernel.Example.{kernel, kernel-WaitInv}
use open_t_kernel.FastLock.{FastLock, lock, unlock}
use open_t_kernel.FastLock.Calls.{IsLocked, Passed, unlock-Passed, lock-IsLocked}

abbrev lock_semaphore : Semcb
lock_semaphore = record { semid = 2; exinf = 0; sematr = 0x81; semcnt = 0; maxsem = 1 }

abbrev made_lock : Kernel
made_lock = record kernel { semcb = upd kernel.semcb 2 lock_semaphore }

at_one : (i : ℕ) → (i == 1) ≡ true → All (SemWait made_lock i) (2 ∷ 3 ∷ [])
at_one i e =
    subst (λ j. All (SemWait made_lock j) (2 ∷ 3 ∷ [])) (sym ((==_iff i 1).0 e))
      (
        ((λ p. ground arith), refl, refl, refl, omega arith, omega arith),
        (((λ p. ground arith), refl, refl, refl, omega arith, omega arith), tt),
      )

Short-at_one : (i : ℕ) → (i == 1) ≡ true → Short made_lock i 2
Short-at_one i e = ground (arith, e)

not_fit : (i : ℕ) → first_fit made_lock i ≡ false
not_fit i =
    if_rule (λ (c : Semcb). has c.sematr ta_cnt ≡ false) (i == 2) lock_semaphore (kernel.semcb i)
      (λ _. refl) (λ _. refl)

made_lock-SemaphoresInv : SemaphoresInv made_lock
made_lock-SemaphoresInv =
    let v = kernel-WaitInv in
    record {
      waits = record {
        ready_inv = record {
          members = v.ready_inv.members;
          distinct = v.ready_inv.distinct;
          klock = v.ready_inv.klock;
          sched = v.ready_inv.sched;
        };
        distinct = v.distinct;
        sem_waits =
            λ i. if_rule (All (SemWait made_lock i)) (i == 1) (2 ∷ 3 ∷ []) [] (at_one i) (λ _. tt);
        flg_waits = λ i.
            All-map (FlgWait kernel i) (FlgWait made_lock i) (kernel.flg_que i) (λ t w. w)
              (v.flg_waits i);
      };
      sems = λ i. record {
        bounded = ground arith;
        head_short =
            if_rule (AtHead (Short made_lock i)) (i == 1) (2 ∷ 3 ∷ []) [] (Short-at_one i)
              (λ _. tt);
        all_short = λ f. absurd (ground (arith, f, not_fit i));
      };
    }

abbrev held : FastLock
held = record { cnt = 0; id = 2 }

is_held : IsLocked held made_lock []
is_held = record {
  count = refl;
  sem = record {
    sems = made_lock-SemaphoresInv;
    attributes = refl;
    limit = refl;
    spent = refl;
    line = refl;
  };
}

lock-IsLocked_example :
    IsLocked
      (lock held made_lock).0
      (lock held made_lock).1
      (queue_insert_tpri (priority_of made_lock) 1 [])
    × (has_wait ((lock held made_lock).1.tcb 1).state ≡ true)
lock-IsLocked_example =
    lock-IsLocked held made_lock [] refl (λ p. ground arith) refl (inl refl) (omega arith) is_held

-- Another task gives the lock up, and task 1 has it.
abbrev waited : Kernel
waited = (lock held made_lock).1

exists : chk_semid (pos 2) waited ≡ true
unfolding lock tk_wai_sem tk_wai_sem_u sem_wait gcb_top_of_wait_queue gcb_make_wait_with_diswai
    gcb_make_wait make_wait timer_insert enter_wait make_non_ready ready_queue_delete
    ready_queue_shrink que_remove_tsk
exists = refl

in_use : (waited.semcb 2).semid ≡ 2
unfolding lock tk_wai_sem tk_wai_sem_u sem_wait gcb_top_of_wait_queue gcb_make_wait_with_diswai
    gcb_make_wait make_wait timer_insert enter_wait make_non_ready ready_queue_delete
    ready_queue_shrink que_remove_tsk
in_use = refl

unlock-Passed_example :
    Passed
      (lock held made_lock).0
      waited
      (1 ∷ [])
      (unlock (lock held made_lock).0 waited).0
      (unlock (lock held made_lock).0 waited).1
unfolding queue_insert_tpri lock
unlock-Passed_example =
    unlock-Passed (lock held made_lock).0 waited (1 ∷ []) exists (λ p. ground (arith, p, in_use))
      (omega arith) lock-IsLocked_example.0
