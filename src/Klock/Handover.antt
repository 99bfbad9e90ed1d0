-- ===== src/Klock/Handover.antt =====
-- kernel/tkernel/src/klock.c: UnlockOBJ, where a task waits for the lock and where nobody does.
use open_t_kernel.Base.{
  ℕ, ◌≡◌, ◌≢◌, refl, sym, ◌∙◌, ap, arith, true, false, not, ◌==◌, if◌then◌else◌, List, [], ◌∷◌, upd,
  upd_self, upd_twice, upd_back, if_true, if_false, Bool,
}
use open_t_kernel.Kernel.{Kernel, Tcb, null, set_tcb}
use open_t_kernel.ReadyQueue.{head_or_null, ready_queue_top, ready_queue_insert_top}
use open_t_kernel.Klock.{lock_obj, unlock_obj, pass_lock, take_lock, wait_lock, schedule_top}

-- The lock is `t`'s, and `ts` are in line for it.
pub record Handed (loc t : ℕ) (ts : List ℕ) (k k' : Kernel) : Type 0 where
  pub owner : (k'.tcb t).klocked ≡ true
  pub awake : (k'.tcb t).klockwait ≡ false
  pub given_up : (k'.tcb k.ctxtsk).klocked ≡ false
  pub next_up : k'.schedtsk ≡ t
  pub line : k'.lock_que loc ≡ ts
  pub used : k'.lock_used ≡ k.lock_used
  pub others_same : (u : ℕ) → u ≢ t → u ≢ k.ctxtsk → k'.tcb u ≡ k.tcb u

-- Where tasks are in line for a lock, UnlockOBJ by another task gives it to the first of them, which
-- is to be executed next, whatever the priorities.
pub unlock_obj-Handed :
    (loc t : ℕ) (ts : List ℕ) (k : Kernel)
    → k.lock_que loc ≡ t ∷ ts
    → t ≢ null
    → t ≢ k.ctxtsk
    → Handed loc t ts k (unlock_obj loc k)
unfolding unlock_obj pass_lock ready_queue_insert_top ready_queue_top
unlock_obj-Handed loc t ts k e n d = rw e (record {
  owner = ground arith;
  awake = ground arith;
  given_up = ground arith;
  next_up = ground arith;
  line = ground arith;
  used = refl;
  others_same = λ u z w. ground arith;
})

-- A kernel whose changes came back.
came_back :
    (k : Kernel) (tcb : ℕ → Tcb) (used : ℕ → Bool) (que : ℕ → List ℕ) (klock sched : ℕ)
    → tcb ≡ k.tcb
    → used ≡ k.lock_used
    → que ≡ k.lock_que
    → klock ≡ k.klocktsk
    → sched ≡ k.schedtsk
    → record k { tcb = tcb; lock_used = used; lock_que = que; klocktsk = klock; schedtsk = sched }
      ≡ k
came_back k tcb used que klock sched a b c d e = cc

taken :
    (loc : ℕ) (k : Kernel)
    → (k.tcb k.ctxtsk).klocked ≡ false
    → k.lock_used loc ≡ false
    → lock_obj loc k ≡ (true, take_lock loc k)
unfolding lock_obj
taken loc k c u =
    if_false (k.tcb k.ctxtsk).klocked (true, k)
      (if not (k.lock_used loc) then (true, take_lock loc k) else (false, wait_lock loc k)) c
    ∙ if_true (not (k.lock_used loc)) (true, take_lock loc k) (false, wait_lock loc k) (ap not u)

given_back :
    (loc : ℕ) (k : Kernel)
    → (k.tcb k.ctxtsk).klocked ≡ false
    → k.lock_used loc ≡ false
    → k.lock_que loc ≡ []
    → k.klocktsk ≡ null
    → k.schedtsk ≡ ready_queue_top k
    → unlock_obj loc (take_lock loc k) ≡ k
unfolding unlock_obj pass_lock ready_queue_top
given_back loc k c u q z s =
    let ctx = k.ctxtsk in
    let c1 : Tcb = record (k.tcb ctx) { klocked = true } in
    let c2 : Tcb = record (upd k.tcb ctx c1 ctx) { klocked = false } in
    let k0 = take_lock loc k in
    let k1 = record (set_tcb ctx c2 k0) { klocktsk = null } in
    let tcb = upd (upd k.tcb ctx c1) ctx c2 in
    let used = upd (upd k.lock_used loc true) loc false in
    let que = upd k.lock_que loc [] in
    let d : c2 ≡ k.tcb ctx =
      ap {B = Tcb} (λ (x : Tcb). record x { klocked = false }) (upd_self k.tcb ctx c1)
      ∙ ap {B = Tcb} (λ x. record (k.tcb ctx) { klocked = x }) (sym c) in
    ap (λ qs. schedule_top (pass_lock loc qs k1)) (upd_self k.lock_que loc [])
    ∙ came_back k tcb used que null (head_or_null (k.rdy_que k.top_priority))
        (upd_twice k.tcb ctx c1 c2 ∙ upd_back k.tcb ctx c2 d)
        (upd_twice k.lock_used loc true false ∙ upd_back k.lock_used loc false (sym u))
        (upd_back k.lock_que loc [] (sym q)) (sym z)
        (sym (
          s
          ∙ if_false (not (k.klocktsk == null)) k.klocktsk (head_or_null (k.rdy_que k.top_priority))
              (ap (λ x. not (x == null)) z)))

-- A lock that nobody holds, taken by a task that holds none and given back at once: where no task held the
-- kernel lock and the top of the ready queue was to be executed, everything is as before.
pub unlock_obj-lock_obj :
    (loc : ℕ) (k : Kernel)
    → (k.tcb k.ctxtsk).klocked ≡ false
    → k.lock_used loc ≡ false
    → k.lock_que loc ≡ []
    → k.klocktsk ≡ null
    → k.schedtsk ≡ ready_queue_top k
    → ((lock_obj loc k).0 ≡ true) × (unlock_obj loc (lock_obj loc k).1 ≡ k)
unlock_obj-lock_obj loc k c u q z s = rw (taken loc k c u) (refl, given_back loc k c u q z s)
