-- ===== src/Semaphore/Grant.antt =====
-- One round of the loops of semaphore.c: a waiting task is released and given its counts.
use open_t_kernel.Base.{ℕ, ◌-◌, ◌≡◌, ◌≢◌, arith, true, false, upd, All-map, erase}
use open_t_kernel.Kernel.{Kernel, has_wait, sem_cnt, e_ok, Semcb, Winfo}
use open_t_kernel.Wait.{wait_release_ok}
use open_t_kernel.Wait.Release.{demand}
use open_t_kernel.Wait.Inv.{WaitInv, SemWait, wait_release_ok-WaitInv}
use open_t_kernel.Semaphore.{sem_grant, set_semcnt}

-- A change of a semaphore's count alone keeps the invariant of the queues.
pub set_semcnt-WaitInv : (id n : ℕ) (k : Kernel) → WaitInv k → WaitInv (set_semcnt id n k)
set_semcnt-WaitInv id n k v = record {
  ready_inv = record {
    members = v.ready_inv.members;
    distinct = v.ready_inv.distinct;
    klock = v.ready_inv.klock;
    sched = v.ready_inv.sched;
  };
  distinct = v.distinct;
  sem_waits = λ i.
      All-map (SemWait k i) (SemWait (set_semcnt id n k) i) (k.sem_que i) (keep i) (v.sem_waits i);
  flg_waits = v.flg_waits;
}
  where
    keep : (i t : ℕ) → SemWait k i t → SemWait (set_semcnt id n k) i t
    keep i t w = ground arith

-- What the round does: `t` is awake with E_OK and off its queue, its counts are gone from the
-- semaphore, and every other task, object and queue is as before.
pub record Granted (id t : ℕ) (k k' : Kernel) : Type 0 where
  pub wait_inv : WaitInv k'
  pub sem_que_erased : (i : ℕ) → k'.sem_que i ≡ erase t (k.sem_que i)
  pub flg_que_erased : (i : ℕ) → k'.flg_que i ≡ erase t (k.flg_que i)
  pub semcb_set :
      k'.semcb
      ≡ upd k.semcb id
          (record (k.semcb id) { semcnt = (k.semcb id).semcnt - sem_cnt (k.tcb t).winfo })
  pub free_same : k'.free_semcb ≡ k.free_semcb
  pub flgcb_same : k'.flgcb ≡ k.flgcb
  pub demand_same : (u : ℕ) → demand (k'.tcb u) ≡ demand (k.tcb u)
  pub others_same :
      (u : ℕ) → u ≢ t → ((k'.tcb u).state ≡ (k.tcb u).state) × ((k'.tcb u).wercd ≡ (k.tcb u).wercd)
  pub awake : has_wait (k'.tcb t).state ≡ false
  pub told : (k'.tcb t).wercd ≡ e_ok

spent : ℕ → (ℕ → Semcb) → Winfo → ℕ → Semcb
spent id f w = upd f id (record (f id) { semcnt = (f id).semcnt - sem_cnt w })

cong_spent : (id : ℕ) {f g : ℕ → Semcb} {w x : Winfo} → f ≡ g → w ≡ x → spent id f w ≡ spent id g x
cong_spent id p q = cc

wercd-wait_release_ok : (t : ℕ) (k : Kernel) → ((wait_release_ok t k).tcb t).wercd ≡ e_ok
unfolding wait_release_ok
wercd-wait_release_ok t k = ground arith

pub sem_grant-Granted :
    (id t : ℕ) (k : Kernel)
    → WaitInv k
    → has_wait (k.tcb t).state ≡ true
    → Granted id t k (sem_grant id t k)
unfolding sem_grant spent
sem_grant-Granted id t k v w =
    let (r, y) = wait_release_ok-WaitInv t k v w in
    record {
      wait_inv = set_semcnt-WaitInv id _ (wait_release_ok t k) y;
      sem_que_erased = r.sem_que_erased;
      flg_que_erased = r.flg_que_erased;
      semcb_set =
          cong_spent id {f = (wait_release_ok t k).semcb} {g = k.semcb}
            {w = ((wait_release_ok t k).tcb t).winfo} {x = (k.tcb t).winfo}
            (ground (arith, r.objects_same)) (ground (arith, r.demand_same t));
      free_same = ground (arith, r.objects_same);
      flgcb_same = ground (arith, r.objects_same);
      demand_same = r.demand_same;
      others_same = λ u n. ((r.others_same u n).0, (r.others_same u n).1);
      awake = r.awake;
      told = wercd-wait_release_ok t k;
    }
