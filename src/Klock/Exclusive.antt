-- ===== src/Klock/Exclusive.antt =====
-- kernel/tkernel/src/klock.c: at most one task holds the lock of an object, in every order of calls.
use open_t_kernel.Base.{
  ℕ, ◌≡◌, ◌≢◌, refl, sym, ◌∙◌, subst, arith, Bool, not, ap, if_rule, if◌then◌else◌, true, false,
  Bool-cases, ◌⊎◌, inl, inr, ◌==◌, List, [], ◌∷◌, ◌++◌, NotIn, Distinct, erase, erase-NotIn,
  NotIn-append, Distinct-insert, upd_self,
}
use mathlib.Core.List.{append-nil}
use open_t_kernel.Kernel.{Kernel, null, set_tcb}
use open_t_kernel.ReadyQueue.{ready_queue_top, ready_queue_delete, ready_queue_insert_top}
use open_t_kernel.Task.{make_ready, make_non_ready}
use open_t_kernel.Klock.{lock_obj, unlock_obj, pass_lock, take_lock, wait_lock}
use open_t_kernel.Klock.Frame.{
  SameLock, delete-SameLock, lock_que-delete, make_ready-SameLock, make_non_ready-SameLock,
}

-- Task `h` holds lock `loc`, no other task does, and `h` is not in its line.
pub record HeldBy (loc h : ℕ) (k : Kernel) : Type 0 where
  pub used : k.lock_used loc ≡ true
  pub owner : (k.tcb h).klocked ≡ true
  pub others : (u : ℕ) → u ≢ h → (k.tcb u).klocked ≡ false
  pub behind : NotIn h (k.lock_que loc)
  pub distinct : Distinct (k.lock_que loc)

pub record Unheld (loc : ℕ) (k : Kernel) : Type 0 where
  pub unused : k.lock_used loc ≡ false
  pub nobody : (u : ℕ) → (k.tcb u).klocked ≡ false

-- Nobody holds the lock, or one task.
abbrev pub Exclusive : ℕ → Kernel → Type 0
Exclusive loc k = Unheld loc k ⊎ ((h : ℕ) × HeldBy loc h k)

-- What may happen while tasks use the lock: calls of LockOBJ and, by the task that has the lock, of
-- UnlockOBJ, tasks that become ready or leave the ready queue, and the dispatcher.
pub data LockStep (loc : ℕ) : Kernel → Kernel → Type 0 where
  locks : (k : Kernel) → LockStep loc k (lock_obj loc k).1
  unlocks : (k : Kernel) → (k.tcb k.ctxtsk).klocked ≡ true → LockStep loc k (unlock_obj loc k)
  readies : (t : ℕ) (k : Kernel) → LockStep loc k (make_ready t k)
  stops : (t : ℕ) (k : Kernel) → LockStep loc k (make_non_ready t k)
  dispatches : (k : Kernel) → LockStep loc k (record k { ctxtsk = k.schedtsk })

-- Any number of these, in any order.
pub data LockSteps (loc : ℕ) : Kernel → Kernel → Type 0 where
  none_yet : {k : Kernel} → LockSteps loc k k
  after : {a b c : Kernel} → LockStep loc a b → LockSteps loc b c → LockSteps loc a c

differ : (b : Bool) → b ≡ false → b ≡ true → ⊥
differ b f t = absurd (cc)

module _ (loc : ℕ) where
  same-Exclusive : (k k' : Kernel) → SameLock loc k k' → Exclusive loc k → Exclusive loc k'
  same-Exclusive k k' s (inl f) =
      inl (record { unused = s.used_same ∙ f.unused; nobody = λ u. s.locked_same u ∙ f.nobody u })
  same-Exclusive k k' s (inr (h, y)) = inr (
    h,
    record {
      used = s.used_same ∙ y.used;
      owner = s.locked_same h ∙ y.owner;
      others = λ u n. s.locked_same u ∙ y.others u n;
      behind = s.absent h y.behind;
      distinct = s.distinct y.distinct;
    },
  )

  take-Exclusive : (k : Kernel) → Unheld loc k → HeldBy loc k.ctxtsk (take_lock loc k)
  take-Exclusive k f = record {
    used = ground arith;
    owner = ground arith;
    others = λ u n. ground (arith, f.nobody u);
    behind = subst (NotIn k.ctxtsk) (sym (upd_self k.lock_que loc [])) tt;
    distinct = subst Distinct (sym (upd_self k.lock_que loc [])) tt;
  }

  -- A task that does not hold the lock joins its line.
  wait-Exclusive :
      (h : ℕ) (k : Kernel) → k.ctxtsk ≢ h → HeldBy loc h k → HeldBy loc h (wait_lock loc k)
  wait-Exclusive h k n y =
      let ctx = k.ctxtsk in
      let k1 = ready_queue_delete ctx k in
      let s = delete-SameLock loc ctx k in
      let q : k1.lock_que loc ≡ erase ctx (k.lock_que loc) =
        ap (λ f. f loc) (lock_que-delete ctx k) in
      let e = upd_self k1.lock_que loc (k1.lock_que loc ++ ctx ∷ []) in
      let a : NotIn ctx (k1.lock_que loc) =
        subst (NotIn ctx) (sym q) (erase-NotIn ctx (k.lock_que loc) y.distinct) in
      record {
        used = s.used_same ∙ y.used;
        owner = ground (arith, s.locked_same h, y.owner);
        others = λ u z. ground (arith, s.locked_same u, y.others u z);
        behind = subst (NotIn h) (sym e) (
            NotIn-append h (k1.lock_que loc) (ctx ∷ []) (s.absent h y.behind)
              ((λ p. n (sym p)), tt));
        distinct = subst Distinct (sym e) (
            Distinct-insert ctx (k1.lock_que loc) []
              (subst Distinct (sym (append-nil (k1.lock_que loc))) (s.distinct y.distinct))
              (subst (NotIn ctx) (sym (append-nil (k1.lock_que loc))) a));
      }

  lock-Exclusive : (k : Kernel) → Exclusive loc k → Exclusive loc (lock_obj loc k).1
  unfolding lock_obj
  lock-Exclusive k x =
      let P = λ (r : Bool × Kernel). Exclusive loc r.1 in
      if_rule P (k.tcb k.ctxtsk).klocked (true, k)
        (if not (k.lock_used loc) then (true, take_lock loc k) else (false, wait_lock loc k))
        (λ _. x)
        (λ e.
          if_rule P (not (k.lock_used loc)) (true, take_lock loc k) (false, wait_lock loc k)
            (λ z. take x z) (λ z. stay x e z))
    where
      take : Exclusive loc k → not (k.lock_used loc) ≡ true → Exclusive loc (take_lock loc k)
      take (inl f) z = inr (k.ctxtsk, take-Exclusive k f)
      take (inr (h, y)) z = absurd (ground (arith, y.used))

      stay :
          Exclusive loc k
          → (k.tcb k.ctxtsk).klocked ≡ false
          → not (k.lock_used loc) ≡ false
          → Exclusive loc (wait_lock loc k)
      stay (inl f) e z = absurd (ground (arith, f.unused))
      stay (inr (h, y)) e z = inr (
        h,
        wait-Exclusive h k
            (λ p. differ ((k.tcb k.ctxtsk).klocked) e (ap (λ u. (k.tcb u).klocked) p ∙ y.owner)) y,
      )

  pass-Exclusive :
      (qs : List ℕ) (k : Kernel)
      → k.lock_used loc ≡ true
      → ((u : ℕ) → (k.tcb u).klocked ≡ false)
      → Distinct qs
      → Exclusive loc (pass_lock loc qs k)
  unfolding pass_lock ready_queue_insert_top
  pass-Exclusive [] k e f d = inl (record { unused = ground arith; nobody = f })
  pass-Exclusive (t ∷ ts) k e f d = inr (
    t,
    record {
      used = e;
      owner = ground arith;
      others = λ u n. ground (arith, f u);
      behind = subst (NotIn t) (sym (upd_self k.lock_que loc ts)) d.0;
      distinct = subst Distinct (sym (upd_self k.lock_que loc ts)) d.1;
    },
  )

  scheduled-Exclusive :
      (t : ℕ) (k : Kernel) → Exclusive loc k → Exclusive loc (record k { schedtsk = t })
  scheduled-Exclusive t k x =
      same-Exclusive k (record k { schedtsk = t })
        (record { used_same = refl; locked_same = λ u. refl; absent = λ h n. n; distinct = λ d. d })
        x

  -- The task that gives the lock up was the only one that had it.
  unlocked :
      (h : ℕ) (k : Kernel)
      → (k.tcb k.ctxtsk).klocked ≡ true
      → HeldBy loc h k
      → (u : ℕ)
      → ((set_tcb k.ctxtsk (record (k.tcb k.ctxtsk) { klocked = false }) k).tcb u).klocked ≡ false
  unlocked h k e y u = elim (Bool-cases (u == k.ctxtsk)) [
    | inl i ↦ rw i refl
    | inr i ↦ rw i (y.others u (λ p. holder (subst (λ z. (z == k.ctxtsk) ≡ false) p i)))
  ]
    where
      holder : (h == k.ctxtsk) ≡ false → ⊥
      holder i = differ (k.tcb k.ctxtsk).klocked (y.others k.ctxtsk (λ p. ground (arith, i, p))) e

  unlock-Exclusive :
      (k : Kernel)
      → (k.tcb k.ctxtsk).klocked ≡ true
      → Exclusive loc k
      → Exclusive loc (unlock_obj loc k)
  unfolding unlock_obj
  unlock-Exclusive k e (inl f) = absurd (differ ((k.tcb k.ctxtsk).klocked) (f.nobody k.ctxtsk) e)
  unlock-Exclusive k e (inr (h, y)) =
      let ctx = k.ctxtsk in
      let k1 = record (set_tcb ctx (record (k.tcb ctx) { klocked = false }) k) {
        klocktsk = null;
      } in
      let k2 = pass_lock loc (k.lock_que loc) k1 in
      scheduled-Exclusive (ready_queue_top k2) k2
        (pass-Exclusive (k.lock_que loc) k1 y.used (unlocked h k e y) y.distinct)

  -- A step of any kind keeps it.
  step-Exclusive : (a b : Kernel) → LockStep loc a b → Exclusive loc a → Exclusive loc b
  step-Exclusive a b (locks k) x = lock-Exclusive k x
  step-Exclusive a b (unlocks k e) x = unlock-Exclusive k e x
  step-Exclusive a b (readies t k) x =
      same-Exclusive k (make_ready t k) (make_ready-SameLock loc t k) x
  step-Exclusive a b (stops t k) x =
      same-Exclusive k (make_non_ready t k) (make_non_ready-SameLock loc t k) x
  step-Exclusive a b (dispatches k) (inl f) = inl (record { unused = f.unused; nobody = f.nobody })
  step-Exclusive a b (dispatches k) (inr (h, y)) = inr (
    h,
    record {
      used = y.used;
      owner = y.owner;
      others = y.others;
      behind = y.behind;
      distinct = y.distinct;
    },
  )

-- Where nobody holds a lock, or one task that is not in its line, no order of LockOBJ, UnlockOBJ by the task
-- that holds it, tasks made ready or non-ready and dispatches leads to a second holder.
pub lock_steps-Exclusive :
    (loc : ℕ) (a b : Kernel) → LockSteps loc a b → Exclusive loc a → Exclusive loc b
lock_steps-Exclusive loc a b none_yet x = x
lock_steps-Exclusive loc a b (after {b = m} s r) x =
    lock_steps-Exclusive loc m b r (step-Exclusive loc a m s x)
