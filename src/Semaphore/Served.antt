-- ===== src/Semaphore/Served.antt =====
-- The service of a semaphore's queue, task by task.
use open_t_kernel.Base.{
  ℕ, ◌-◌, ◌≡◌, ◌≢◌, ◌∙◌, sym, ap, ap₂, refl, arith, fun_ext, List, [], ◌∷◌, ◌++◌, Bool, false, upd,
  All, erase, NotIn, Distinct, Distinct-delete, erase-append, erase_of_NotIn, NotIn-split, ltb,
  subst, NotIn-of_All, All-right,
}
use open_t_kernel.Kernel.{Kernel, has_wait, sem_cnt, e_ok, Semcb, has, ta_cnt}
use open_t_kernel.Wait.Release.{demand}
use open_t_kernel.Wait.Inv.{WaitInv, SemWait, FlgWait}
use open_t_kernel.Semaphore.Spec.{granted}
use open_t_kernel.Semaphore.Grant.{Granted}

-- What a waiting task asks for.
abbrev pub need : Kernel → ℕ → ℕ
need k t = sem_cnt (k.tcb t).winfo

abbrev pub first_fit : Kernel → ℕ → Bool
first_fit k id = has (k.semcb id).sematr ta_cnt

-- From `k` to `k'` the tasks `ts` were served by semaphore `id`, whose queue is now `q` and whose
-- count is `n`; all else is as before.
pub record Served (id : ℕ) (k k' : Kernel) (ts q : List ℕ) (n : ℕ) : Type 0 where
  pub wait_inv : WaitInv k'
  pub queue : k'.sem_que id ≡ q
  pub semcb_set : k'.semcb ≡ upd k.semcb id (record (k.semcb id) { semcnt = n })
  pub sem_que_same : (i : ℕ) → i ≢ id → k'.sem_que i ≡ k.sem_que i
  pub flg_que_same : (i : ℕ) → k'.flg_que i ≡ k.flg_que i
  pub free_same : k'.free_semcb ≡ k.free_semcb
  pub flgcb_same : k'.flgcb ≡ k.flgcb
  pub demand_same : (u : ℕ) → demand (k'.tcb u) ≡ demand (k.tcb u)
  pub others_same :
      (u : ℕ)
      → NotIn u ts
      → ((k'.tcb u).state ≡ (k.tcb u).state) × ((k'.tcb u).wercd ≡ (k.tcb u).wercd)
  pub woken : All (λ t. (has_wait (k'.tcb t).state ≡ false) × ((k'.tcb t).wercd ≡ e_ok)) ts

semcb_self :
    (f : ℕ → Semcb) (id n : ℕ) → (f id).semcnt ≡ n → f ≡ upd f id (record (f id) { semcnt = n })
semcb_self f id n e = fun_ext λ i. ground arith

pub Served-none :
    (id : ℕ) (k : Kernel) (q : List ℕ) (n : ℕ)
    → WaitInv k
    → k.sem_que id ≡ q
    → (k.semcb id).semcnt ≡ n
    → Served id k k [] q n
Served-none id k q n v e s = record {
  wait_inv = v;
  queue = e;
  semcb_set = semcb_self k.semcb id n s;
  sem_que_same = λ i d. refl;
  flg_que_same = λ i. refl;
  free_same = refl;
  flgcb_same = refl;
  demand_same = λ u. refl;
  others_same = λ u d. (refl, refl);
  woken = tt;
}

-- A task of one semaphore is on no other queue.
elsewhere :
    (id t : ℕ) (k : Kernel)
    → WaitInv k
    → SemWait k id t
    → ((i : ℕ) → i ≢ id → NotIn t (k.sem_que i)) × ((i : ℕ) → NotIn t (k.flg_que i))
elsewhere id t k v w = (
  λ i d. NotIn-of_All (SemWait k i) t (k.sem_que i) (λ x. d (sym x.2 ∙ w.2)) (v.sem_waits i),
  λ i. NotIn-of_All (FlgWait k i) t (k.flg_que i) (λ x. absurd (ground arith)) (v.flg_waits i),
)

-- A grant, followed by what serves `ts`.
pub Served-cons :
    (id t : ℕ) (k k1 k' : Kernel) (ts q : List ℕ) (n : ℕ)
    → WaitInv k
    → SemWait k id t
    → NotIn t ts
    → Granted id t k k1
    → Served id k1 k' ts q n
    → Served id k k' (t ∷ ts) q n
Served-cons id t k k1 k' ts q n v w d g s =
    let e = elsewhere id t k v w in
    record {
      wait_inv = s.wait_inv;
      queue = s.queue;
      semcb_set = s.semcb_set ∙ twice;
      sem_que_same = λ i x.
          s.sem_que_same i x ∙ (g.sem_que_erased i ∙ erase_of_NotIn t (k.sem_que i) (e.0 i x));
      flg_que_same =
          λ i. s.flg_que_same i ∙ (g.flg_que_erased i ∙ erase_of_NotIn t (k.flg_que i) (e.1 i));
      free_same = s.free_same ∙ g.free_same;
      flgcb_same = s.flgcb_same ∙ g.flgcb_same;
      demand_same = λ u. s.demand_same u ∙ g.demand_same u;
      others_same = λ u x. (
        (s.others_same u x.1).0 ∙ (g.others_same u x.0).0,
        (s.others_same u x.1).1 ∙ (g.others_same u x.0).1,
      );
      woken = (
        ((ap has_wait (s.others_same t d).0 ∙ g.awake), (s.others_same t d).1 ∙ g.told),
        s.woken,
      );
    }
  where
    twice :
        upd k1.semcb id (record (k1.semcb id) { semcnt = n })
        ≡ upd k.semcb id (record (k.semcb id) { semcnt = n })
    twice = rw g.semcb_set (fun_ext λ i. ground arith)

pub need-same :
    (k k' : Kernel) → ((u : ℕ) → demand (k'.tcb u) ≡ demand (k.tcb u)) → need k' ≡ need k
need-same k k' d = fun_ext λ u. ground (arith, d u)

-- The first task of the rest of a queue, and what is left once it is erased.
module _ (id t : ℕ) (pre rest : List ℕ) (k : Kernel) (v : WaitInv k)
    (e : k.sem_que id ≡ pre ++ t ∷ rest) where
  pub split_apart : Distinct (pre ++ rest) × NotIn t (pre ++ rest)
  split_apart = Distinct-delete t pre rest (subst Distinct e (v.distinct.0 id))

  pub split_erase : erase t (k.sem_que id) ≡ pre ++ rest
  split_erase = rw e (erase-append t pre rest (NotIn-split t pre rest split_apart.1).0)

  pub split_wait : SemWait k id t × All (SemWait k id) rest
  split_wait =
      All-right (SemWait k id) pre (t ∷ rest) (subst (All (SemWait k id)) e (v.sem_waits id))

pub NotIn-granted :
    (f : Bool) (w : ℕ → ℕ) (n t : ℕ) (q : List ℕ) → NotIn t q → NotIn t (granted f w n q)
unfolding granted
NotIn-granted f w n t [] h = tt
NotIn-granted f w n t (x ∷ q) h =
    ground (arith, NotIn-granted f w n t q h.1, NotIn-granted f w (n - w x) t q h.1)

pub semcnt-Granted :
    (id t : ℕ) (k k1 : Kernel)
    → Granted id t k k1
    → (k1.semcb id).semcnt ≡ (k.semcb id).semcnt - need k t
semcnt-Granted id t k k1 g = ground (arith, g.semcb_set)

pub first_fit-Granted :
    (id t : ℕ) (k k1 : Kernel) → Granted id t k k1 → first_fit k1 id ≡ first_fit k id
first_fit-Granted id t k k1 g = ground (arith, g.semcb_set)

-- The test `ltb` on the values that the spec speaks of.
pub short_as :
    (id t : ℕ) (k : Kernel) (w : ℕ → ℕ) (n : ℕ) (b : Bool)
    → need k ≡ w
    → (k.semcb id).semcnt ≡ n
    → ltb n (w t) ≡ b
    → ltb (k.semcb id).semcnt (need k t) ≡ b
short_as id t k w n b ew en h = ap₂ (λ (x : ℕ) (y : ℕ → ℕ). ltb x (y t)) en ew ∙ h
