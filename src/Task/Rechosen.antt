-- ===== src/Task/Rechosen.antt =====
-- kernel/tkernel/src/task.c: make_non_ready and the head of the first line that is not empty.
use open_t_kernel.Base.{
  ℕ, ◌≡◌, ◌≢◌, ◌<◌, ◌≤◌, refl, sym, ap, ◌∙◌, arith, true, false, ◌==◌, inl, inr, ◌⊎◌, if_rule, List,
  [], ◌∷◌, erase, subst, All, dec_lt, ℕ_discrete,
}
use open_t_kernel.Kernel.{Kernel, null, num_pri}
use open_t_kernel.ReadyQueue.{
  head_or_null, is_nil, ready_queue_top, ready_queue_delete, ready_queue_initialize,
}
use open_t_kernel.ReadyQueue.Frame.{rdy_que-delete, tasks-delete, klocktsk-delete, klocked-delete}
use open_t_kernel.ReadyQueue.Top.{Marks, TopInv, Home, top_unique, is_nil-erase, initialize-TopInv}
use open_t_kernel.ReadyQueue.Sound.{delete-TopInv}
use open_t_kernel.Task.{make_non_ready}
use open_t_kernel.Task.Chosen.{Chosen, NoLock, Chosen-Home, headed}

-- The head of a line stays its head when another task leaves.
head-erase : (t : ℕ) (q : List ℕ) → head_or_null q ≢ t → head_or_null (erase t q) ≡ head_or_null q
unfolding erase
head-erase t [] n = refl
head-erase t (x ∷ q) n = ground arith

stays_filled :
    (t : ℕ) (q : List ℕ) → head_or_null q ≢ t → is_nil q ≡ false → is_nil (erase t q) ≡ false
unfolding erase
stays_filled t [] n f = f
stays_filled t (x ∷ q) n f = ground arith

module _ (t : ℕ) (k : Kernel) (c : Chosen k) (l : (k.tcb t).priority < num_pri) where
  abbrev k1 : Kernel
  k1 = ready_queue_delete t k

  deleted-TopInv : TopInv k1
  deleted-TopInv = delete-TopInv t k c.top_inv l

  deleted-NoLock : NoLock k1
  deleted-NoLock = record {
    free = klocktsk-delete t k ∙ if_rule (λ x. x ≡ null) _ _ _ (λ _. refl) (λ _. c.no_lock.free);
    none_locked = λ u. klocked-delete t k u ∙ c.no_lock.none_locked u;
  }

  -- The first line is where it was, while its head is another task.
  same_top : k.schedtsk ≢ t → k1.top_priority ≡ k.top_priority
  same_top n =
      let m = c.top_inv.marks in
      top_unique k1.rdy_que k1.bitmap k1.top_priority k.top_priority deleted-TopInv.marks m.top_le
        (λ q h. ap is_nil (rdy_que-delete t k q) ∙ is_nil-erase t (k.rdy_que q) (m.above q h))
        (λ h.
          ap is_nil (rdy_que-delete t k k.top_priority)
          ∙ stays_filled t (k.rdy_que k.top_priority) (λ e. n (c.chosen ∙ e)) (m.used h))

-- Where the bitmap and the highest priority agree with the lines of the ready queue, schedtsk is the
-- head of the first line that is not empty and no task holds the kernel lock, make_non_ready keeps it
-- so, for a task of a priority below NUM_PRI, be it the one to execute or any other.
pub make_non_ready-Chosen :
    (t : ℕ) (k : Kernel) → Chosen k → (k.tcb t).priority < num_pri → Chosen (make_non_ready t k)
unfolding make_non_ready ready_queue_top
make_non_ready-Chosen t k c l =
    let v = deleted-TopInv t k c l in
    let f = deleted-NoLock t k c l in
    if_rule Chosen _ _ _
      (λ h. record {
        top_inv = record { homes = v.homes; marks = v.marks };
        no_lock = record { free = f.free; none_locked = f.none_locked };
        chosen = rw f.free refl;
      })
      (λ h.
        let n : k.schedtsk ≢ t = other h in
        record {
          top_inv = v;
          no_lock = f;
          chosen =
              (tasks-delete t k).0
              ∙ (c.chosen
                  ∙ sym (
                      rw (same_top t k c l n, rdy_que-delete t k k.top_priority)
                        (head-erase t (k.rdy_que k.top_priority) (λ e. n (c.chosen ∙ e)))));
        })
  where
    other : ((ready_queue_delete t k).schedtsk == t) ≡ false → k.schedtsk ≢ t
    other h = let x = (tasks-delete t k).0 in ground arith

pub initialize-Chosen :
    (k : Kernel)
    → k.schedtsk ≡ null
    → ((u : ℕ) → (k.tcb u).klocked ≡ false)
    → Chosen (ready_queue_initialize k)
unfolding ready_queue_initialize
initialize-Chosen k s f = record {
  top_inv = initialize-TopInv k;
  no_lock = record { free = refl; none_locked = f };
  chosen = s;
}

-- No task has the number 0.
null_head :
    (k : Kernel) (p : ℕ) (q : List ℕ) → All (Home k p) q → null ≡ head_or_null q → is_nil q ≡ true
null_head k p [] a e = refl
null_head k p (x ∷ q) a e = absurd (a.0.0 (sym e))

-- Where schedtsk is the head of the first line and no task holds the kernel lock: either schedtsk is
-- NULL and no line has a task, or it is the head of the line of its priority and no line of a higher
-- priority has a task.
pub Chosen-highest :
    (k : Kernel)
    → Chosen k
    → ((k.schedtsk ≡ null) × ((p : ℕ) → is_nil (k.rdy_que p) ≡ true))
      ⊎ ((k.schedtsk ≡ head_or_null (k.rdy_que (k.tcb k.schedtsk).priority))
          × (is_nil (k.rdy_que (k.tcb k.schedtsk).priority) ≡ false)
          × ((p : ℕ) → p < (k.tcb k.schedtsk).priority → is_nil (k.rdy_que p) ≡ true))
Chosen-highest k c = elim (ℕ_discrete k.schedtsk null) [
  | yes e ↦ inl (
    e,
    λ p. elim (dec_lt p k.top_priority) [
      | yes h ↦ m.above p h
      | no h ↦ m.levels p (omega (arith, no_level e))
    ],
  )
  | no n ↦
      let y : k.top_priority ≡ (k.tcb k.schedtsk).priority = sym (Chosen-Home k c n).1 in
      inr (
        subst
          (λ x.
            (k.schedtsk ≡ head_or_null (k.rdy_que x))
            × (is_nil (k.rdy_que x) ≡ false)
            × ((p : ℕ) → p < x → is_nil (k.rdy_que p) ≡ true))
          y (c.chosen, headed k.schedtsk (k.rdy_que k.top_priority) c.chosen n, m.above))
]
  where
    m : Marks k.rdy_que k.bitmap k.top_priority
    m = c.top_inv.marks

    no_level : k.schedtsk ≡ null → num_pri ≤ k.top_priority
    no_level e = elim (dec_lt k.top_priority num_pri) [
      | yes h ↦
          let x =
            null_head k k.top_priority (k.rdy_que k.top_priority) (c.top_inv.homes k.top_priority)
              (sym e ∙ c.chosen) in
          let y = m.used h in cc
      | no h ↦ omega arith
    ]
