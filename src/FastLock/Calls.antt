-- ===== src/FastLock/Calls.antt =====
-- lib/libtk/src/fastlock.c and kernel/tkernel/src/semaphore.c: the lock as the semaphore makes it.
use open_t_kernel.Base.{
  ℕ, suc, ◌≡◌, ◌≢◌, ◌<◌, ◌+◌, ◌-◌, ◌%◌, ◌^◌, refl, sym, ap, ◌∙◌, subst, arith, Bool, true, false,
  not, ◌&&◌, leb, ltb, if_true, if_false, List, [], ◌∷◌, length, All, All-map, upd_self,
}
use open_t_kernel.Base.Int.{pos, negsuc, is_int_positive}
use open_t_kernel.Kernel.{
  Kernel, Semcb, e_ok, has, has_wait, in_ddsp, ta_tpri, ta_cnt, ta_nodiswai, ttw_sem,
}
use open_t_kernel.Wait.{join_queue, queue_insert_tpri, priority_of}
use open_t_kernel.Wait.Enter.{Runs}
use open_t_kernel.Wait.Inv.{SemWait}
use open_t_kernel.Semaphore.{chk_semid, tk_sig_sem, tk_wai_sem, tk_wai_sem_u}
use open_t_kernel.Semaphore.Spec.{granted, left, balance, grant_to, stop_at}
use open_t_kernel.Semaphore.Served.{need, first_fit, Served}
use open_t_kernel.Semaphore.Inv.{SemaphoresInv}
use open_t_kernel.Semaphore.SigSem.{Accepts, tk_sig_sem-Served, tk_sig_sem-SemaphoresInv}
use open_t_kernel.Semaphore.WaiSem.{Admits}
use open_t_kernel.Semaphore.WaiInv.{tk_wai_sem_u-Outcome, tk_wai_sem-SemaphoresInv}
use open_t_kernel.FastLock.{FastLock, lock, unlock, inc, dec}

-- The semaphore of a lock, as CreateLock makes it, with no counts left and the tasks `ts` in line.
pub record LockSem (id : ℕ) (k : Kernel) (ts : List ℕ) : Type 0 where
  pub sems : SemaphoresInv k
  pub attributes : (k.semcb id).sematr ≡ 0x81
  pub limit : (k.semcb id).maxsem ≡ 1
  pub spent : (k.semcb id).semcnt ≡ 0
  pub line : k.sem_que id ≡ ts

-- Nobody holds the lock.
pub record IsUnlocked (l : FastLock) (k : Kernel) : Type 0 where
  pub count : l.cnt ≡ 0xffff_ffff
  pub sem : LockSem l.id k []

-- A task holds the lock, and the tasks `ts` sleep in line for it.
pub record IsLocked (l : FastLock) (k : Kernel) (ts : List ℕ) : Type 0 where
  pub count : l.cnt ≡ length ts
  pub sem : LockSem l.id k ts

-- Each task in line asks for one count.
needs_one : (id : ℕ) (k : Kernel) (ts : List ℕ) → LockSem id k ts → All (λ t. need k t ≡ 1) ts
needs_one id k ts s =
    All-map (SemWait k id) (λ t. need k t ≡ 1) ts (λ t w. omega (arith, w.4, w.5, s.limit))
      (subst (All (SemWait k id)) s.line (s.sems.waits.sem_waits id))

-- Without counts, a line of tasks that ask for one each stays as it is.
none_served :
    (needs : ℕ → ℕ) (n : ℕ) (us : List ℕ)
    → n ≡ 0
    → All (λ u. needs u ≡ 1) us
    → (left false needs n us ≡ us)
      × (granted false needs n us ≡ [])
      × (balance false needs n us ≡ n)
unfolding left granted balance
none_served needs n [] z a = (refl, refl, refl)
none_served needs n (u ∷ us) z a = stop_at false needs n u us (ground (arith, z, a.0)) refl

-- One count goes to the first of them.
one_served :
    (needs : ℕ → ℕ) (t : ℕ) (ts : List ℕ)
    → All (λ u. needs u ≡ 1) (t ∷ ts)
    → (left false needs 1 (t ∷ ts) ≡ ts)
      × (granted false needs 1 (t ∷ ts) ≡ t ∷ [])
      × (balance false needs 1 (t ∷ ts) ≡ 0)
one_served needs t ts a =
    let g = grant_to false needs 1 t ts (ap (λ x. ltb 1 x) a.0) in
    let z : 1 - needs t ≡ 0 = omega (arith, a.0) in
    let r = none_served needs (1 - needs t) ts z a.1 in
    (g.0 ∙ r.0, g.1 ∙ ap (λ us. t ∷ us) r.1, g.2 ∙ r.2 ∙ z)

-- A lock that nobody holds is taken without a call of the kernel.
lock-IsUnlocked :
    (l : FastLock) (k : Kernel) → IsUnlocked l k → ((lock l k).1 ≡ k) × IsLocked (lock l k).0 k []
unfolding lock
lock-IsUnlocked l k u =
    let e : (l.cnt + 1) % 2 ^ 32 ≡ 0 = ap (λ c. (c + 1) % 2 ^ 32) u.count in
    (
      if_false (is_int_positive ((l.cnt + 1) % 2 ^ 32)) _ _ (ap is_int_positive e),
      record { count = e; sem = u.sem },
    )

same :
    {B : Type 0} (g : Bool → ℕ → List ℕ → B) {b c : Bool} {m n : ℕ} {q r : List ℕ}
    → b ≡ c
    → m ≡ n
    → q ≡ r
    → g b m q ≡ g c n r
same g p e h = λ i. g (p i) (e i) (h i)

-- What Unlock leaves: the lock is free, or the task that was first in line has it and is awake.
abbrev pub Passed : FastLock → Kernel → List ℕ → FastLock → Kernel → Type 0
Passed l k [] l' k' = (k' ≡ k) × IsUnlocked l' k
Passed l k (t ∷ ts) l' k' =
    IsLocked l' k' ts × (has_wait (k'.tcb t).state ≡ false) × ((k'.tcb t).wercd ≡ e_ok)

LockSem-one_woken :
    (id t : ℕ) (ts : List ℕ) (k k' : Kernel)
    → SemaphoresInv k'
    → LockSem id k (t ∷ ts)
    → Served id k k' (t ∷ []) ts 0
    → LockSem id k' ts
LockSem-one_woken id t ts k k' v s r =
    let c : Semcb = record (k.semcb id) { semcnt = 0 } in
    let e : k'.semcb id ≡ c = ap (λ f. f id) r.semcb_set ∙ upd_self k.semcb id c in
    record {
      sems = v;
      attributes = ap (λ (x : Semcb). x.sematr) e ∙ s.attributes;
      limit = ap (λ (x : Semcb). x.maxsem) e ∙ s.limit;
      spent = ap (λ (x : Semcb). x.semcnt) e;
      line = r.queue;
    }

-- Unlock of a lock that is held, with fewer than 2 ^ 31 tasks in line for it and its semaphore existing: the
-- first task in line is awake, with E_OK, and holds the lock, and the others stay in line; where nobody is in
-- line the lock is free, and the kernel is not called.
pub unlock-Passed :
    (l : FastLock) (k : Kernel) (ts : List ℕ)
    → chk_semid (pos l.id) k ≡ true
    → (k.semcb l.id).semid ≢ 0
    → length ts < 2 ^ 31
    → IsLocked l k ts
    → Passed l k ts (unlock l k).0 (unlock l k).1
unfolding unlock
unlock-Passed l k [] c x f h = (
  if_false (is_int_positive l.cnt) _ _ (ap is_int_positive h.count),
  record { count = ap (λ n. (n + 0xffff_ffff) % 2 ^ 32) h.count; sem = h.sem },
)
unlock-Passed l k (t ∷ ts) c x f h =
    let s = h.sem in
    let k1 = (tk_sig_sem (pos l.id) (pos 1) k).1 in
    let a : Accepts (pos l.id) (pos 1) k = record {
      id_valid = c;
      positive = refl;
      exists = x;
      room = omega (arith, s.spent, s.limit);
    } in
    let r = (tk_sig_sem-Served (pos l.id) (pos 1) k s.sems.waits a).1 in
    let o = one_served (need k) t ts (needs_one l.id k (t ∷ ts) s) in
    let n = (k.semcb l.id).semcnt + 1 in
    let q = k.sem_que l.id in
    let b : first_fit k l.id ≡ false = ap (λ x. has x ta_cnt) s.attributes in
    let m : n ≡ 1 = omega (arith, s.spent) in
    let same_left = same (λ x y z. left x (need k) y z) b m s.line in
    let same_granted = same (λ x y z. granted x (need k) y z) b m s.line in
    let same_balance = same (λ x y z. balance x (need k) y z) b m s.line in
    let served : Served l.id k k1 (t ∷ []) ts 0 =
      subst (λ x. Served l.id k k1 (t ∷ []) ts x) (same_balance ∙ o.2)
        (subst (λ x. Served l.id k k1 (t ∷ []) x (balance (first_fit k l.id) (need k) n q))
          (same_left ∙ o.0)
          (subst
            (λ x.
              Served l.id k k1 x (left (first_fit k l.id) (need k) n q)
                (balance (first_fit k l.id) (need k) n q))
            (same_granted ∙ o.1) r)) in
    let p : is_int_positive l.cnt ≡ true = ground (arith, h.count, f) in
    subst (λ k'. Passed l k (t ∷ ts) (dec l) k') (sym (if_true (is_int_positive l.cnt) k1 k p))
      (
        record {
          count = omega (arith, h.count, f);
          sem =
              LockSem-one_woken l.id t ts k k1
                (tk_sig_sem-SemaphoresInv (pos l.id) (pos 1) k s.sems) s served;
        },
        served.woken.0.0,
        served.woken.0.1,
      )

and_false : (a b : Bool) → b ≡ false → (a && b) ≡ false
and_false true b h = h
and_false false b h = refl

length-insert_tpri :
    (pri : ℕ → ℕ) (t : ℕ) (qs : List ℕ) → length (queue_insert_tpri pri t qs) ≡ suc (length qs)
unfolding queue_insert_tpri
length-insert_tpri pri t [] = refl
length-insert_tpri pri t (q ∷ qs) = ground (arith, length-insert_tpri pri t qs)

-- Lock of a lock that is held, whose semaphore exists and that has fewer than 2 ^ 31 - 1 tasks in line, by a
-- task in execution that may wait, dispatching being enabled: the caller is asleep in the line for the
-- lock, in its place by priority, and the lock stays held.
pub lock-IsLocked :
    (l : FastLock) (k : Kernel) (ts : List ℕ)
    → chk_semid (pos l.id) k ≡ true
    → (k.semcb l.id).semid ≢ 0
    → in_ddsp k ≡ false
    → Runs k k.ctxtsk
    → suc (length ts) < 2 ^ 31
    → IsLocked l k ts
    → IsLocked (lock l k).0 (lock l k).1 (queue_insert_tpri (priority_of k) k.ctxtsk ts)
      × (has_wait ((lock l k).1.tcb k.ctxtsk).state ≡ true)
unfolding lock tk_wai_sem join_queue
lock-IsLocked l k ts c x d r f h =
    let s = h.sem in
    let ctx = k.ctxtsk in
    let k1 = (tk_wai_sem_u (pos l.id) (pos 1) (negsuc 0) k).1 in
    let a : Admits (pos l.id) (pos 1) (negsuc 0) k = record {
      id_valid = c;
      positive = refl;
      timeout = refl;
      dispatch = d;
      exists = x;
      fits = omega (arith, s.limit);
      enabled =
          and_false (has (k.tcb ctx).waitmask ttw_sem) (not (has (k.semcb l.id).sematr ta_nodiswai))
            (ap (λ y. not (has y ta_nodiswai)) s.attributes);
    } in
    let o = tk_wai_sem_u-Outcome (pos l.id) (pos 1) (negsuc 0) k s.sems r a in
    let w = o.slept (and_false _ (leb 1 (k.semcb l.id).semcnt) (ap (λ y. leb 1 y) s.spent)) refl in
    let e : l.cnt + 1 < 2 ^ 31 = omega (arith, f, h.count) in
    let m : (l.cnt + 1) % 2 ^ 32 ≡ l.cnt + 1 = omega (arith, e) in
    let p : is_int_positive ((l.cnt + 1) % 2 ^ 32) ≡ true = ground (arith, m, e) in
    let j : k1.sem_que l.id ≡ queue_insert_tpri (priority_of k) ctx ts =
      w.3
      ∙ if_true (has (k.semcb l.id).sematr ta_tpri) _ _ (ap (λ y. has y ta_tpri) s.attributes)
      ∙ ap (queue_insert_tpri (priority_of k) ctx) s.line in
    subst
      (λ (k' : Kernel).
        IsLocked (inc l) k' (queue_insert_tpri (priority_of k) ctx ts)
        × (has_wait (k'.tcb ctx).state ≡ true))
      (sym (if_true (is_int_positive ((l.cnt + 1) % 2 ^ 32)) k1 k p))
      (
        record {
          count = m ∙ omega (arith, h.count, length-insert_tpri (priority_of k) ctx ts);
          sem = record {
            sems = tk_wai_sem-SemaphoresInv (pos l.id) (pos 1) (negsuc 0) k s.sems r;
            attributes = ap (λ g. (g l.id).sematr) w.4 ∙ s.attributes;
            limit = ap (λ g. (g l.id).maxsem) w.4 ∙ s.limit;
            spent = ap (λ g. (g l.id).semcnt) w.4 ∙ s.spent;
            line = j;
          };
        },
        w.1,
      )
