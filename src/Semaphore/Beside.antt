-- ===== src/Semaphore/Beside.antt =====
-- kernel/tkernel/src/semaphore.c: the parts of the kernel that a signal does not touch.
use open_t_kernel.Base.{ℕ, ◌≡◌, ◌∙◌, refl, List, [], ◌∷◌, if_rule, not, ltb, leb, if◌then◌else◌}
use open_t_kernel.Kernel.{Kernel, Semcb, sem_cnt, has, ta_cnt}
use open_t_kernel.Wait.Frame.{Aside, wait_release_ok-Aside}
use open_t_kernel.Wait.{wait_release_ok}
use open_t_kernel.Semaphore.{sem_grant, sem_signal}

-- `f` reads none of the parts of `Aside` and no control block of a semaphore.
module _ {ℓ} {A : Type ℓ} (f : Kernel → A) (aside : Aside f)
    (no_semcb : (g : ℕ → Semcb) (k : Kernel) → f (record k { semcb = g }) ≡ f k) where
  sem_grant-Aside : (id t : ℕ) (k : Kernel) → f (sem_grant id t k) ≡ f k
  unfolding sem_grant
  sem_grant-Aside id t k = no_semcb _ (wait_release_ok t k) ∙ wait_release_ok-Aside f aside t k

  pub sem_signal-Aside : (id : ℕ) (queue : List ℕ) (k : Kernel) → f (sem_signal id queue k) ≡ f k
  unfolding sem_signal
  sem_signal-Aside id [] k = refl
  sem_signal-Aside id (t ∷ queue) k =
      let k1 = sem_grant id t k in
      let e = sem_grant-Aside id t k in
      let P = λ (k' : Kernel). f k' ≡ f k in
      if_rule P (ltb (k.semcb id).semcnt (sem_cnt (k.tcb t).winfo))
        (if not (has (k.semcb id).sematr ta_cnt) then k else sem_signal id queue k)
        (if leb (k1.semcb id).semcnt 0 then k1 else sem_signal id queue k1)
        (λ _.
          if_rule P (not (has (k.semcb id).sematr ta_cnt)) k (sem_signal id queue k) (λ _. refl)
            (λ _. sem_signal-Aside id queue k))
        (λ _.
          if_rule P (leb (k1.semcb id).semcnt 0) k1 (sem_signal id queue k1) (λ _. e)
            (λ _. sem_signal-Aside id queue k1 ∙ e))
