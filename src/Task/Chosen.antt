-- ===== src/Task/Chosen.antt =====
-- kernel/tkernel/src/task.c: schedtsk is the head of the first line that is not empty, while no task
-- holds the kernel lock.
use open_t_kernel.Base.{
  ℕ, ◌≡◌, ◌≢◌, ◌<◌, inl, inr, refl, sym, ap, ◌∙◌, arith, true, false, Bool-cases, ◌==◌, ltb,
  ==_self, ==_ne, if_rule, List, [], ◌∷◌, ◌++◌, subst, All, erase_of_NotIn,
}
use open_t_kernel.Kernel.{Kernel, Tcb, null, num_pri, set_tcb, que_remove_tsk}
use open_t_kernel.ReadyQueue.{head_or_null, is_nil, ready_queue_insert, ready_queue_move_last}
use open_t_kernel.ReadyQueue.Top.{Home, TopInv}
use open_t_kernel.ReadyQueue.Sound.{set_tcb-TopInv, insert-TopInv, move_last-TopInv, elsewhere}
use open_t_kernel.Task.{make_ready, slice_if_running}
use open_t_kernel.Task.Frame.{slice_counts, sliced, queued, readied}

-- No task holds the kernel lock or waits with it.
pub record NoLock (k : Kernel) : Type 0 where
  pub free : k.klocktsk ≡ null
  pub none_locked : (u : ℕ) → (k.tcb u).klocked ≡ false

pub record Chosen (k : Kernel) : Type 0 where
  pub top_inv : TopInv k
  pub no_lock : NoLock k
  pub chosen : k.schedtsk ≡ head_or_null (k.rdy_que k.top_priority)

-- A line with a head.
pub headed : (s : ℕ) (q : List ℕ) → s ≡ head_or_null q → s ≢ null → is_nil q ≡ false
headed s [] e n = absurd (n e)
headed s (x ∷ q) e n = refl

head-All {ℓ} : (P : ℕ → Type ℓ) (s : ℕ) (q : List ℕ) → s ≡ head_or_null q → s ≢ null → All P q → P s
head-All P s [] e n a = absurd (n e)
head-All P s (x ∷ q) e n a = subst P (sym e) a.0

head-append : (t : ℕ) (q : List ℕ) → is_nil q ≡ false → head_or_null (q ++ t ∷ []) ≡ head_or_null q
head-append t [] f = cc
head-append t (x ∷ q) f = refl

is_nil_lem : (q : List ℕ) → is_nil q ≡ true → q ≡ []
is_nil_lem [] h = refl
is_nil_lem (x ∷ q) h = cc

pub Chosen-Home : (k : Kernel) → Chosen k → k.schedtsk ≢ null → Home k k.top_priority k.schedtsk
Chosen-Home k c n =
    head-All (Home k k.top_priority) k.schedtsk (k.rdy_que k.top_priority) c.chosen n
      (c.top_inv.homes k.top_priority)

-- `t` is the only task of the first line that is not empty.
record Alone (t pri : ℕ) (k : Kernel) : Type 0 where
  top_inv : TopInv k
  no_lock : NoLock k
  top : k.top_priority ≡ pri
  line : k.rdy_que pri ≡ t ∷ []

set_tcb-Alone :
    (t pri u : ℕ) (c : Tcb) (k : Kernel)
    → c.priority ≡ (k.tcb u).priority
    → c.klockwait ≡ (k.tcb u).klockwait
    → c.klocked ≡ (k.tcb u).klocked
    → Alone t pri k
    → Alone t pri (set_tcb u c k)
set_tcb-Alone t pri u c k p w l a = record {
  top_inv = set_tcb-TopInv u c k p w a.top_inv;
  no_lock = record {
    free = a.no_lock.free;
    none_locked = λ v. ground (arith, a.no_lock.none_locked v);
  };
  top = a.top;
  line = a.line;
}

-- A task of another line goes to the end of its line.
move_last-Alone :
    (t pri s : ℕ) (k : Kernel)
    → Home k (k.tcb s).priority s
    → is_nil (k.rdy_que (k.tcb s).priority) ≡ false
    → pri ≢ (k.tcb s).priority
    → Alone t pri k
    → Alone t pri (ready_queue_move_last s k).1
unfolding ready_queue_move_last que_remove_tsk
move_last-Alone t pri s k h f n a = record {
  top_inv = move_last-TopInv s k a.top_inv h f;
  no_lock = record {
    free = a.no_lock.free;
    none_locked = λ v. ground (arith, a.no_lock.none_locked v);
  };
  top = a.top;
  line =
      rw (==_ne pri (k.tcb s).priority n)
        (erase_of_NotIn s (k.rdy_que pri) (elsewhere s pri k a.top_inv n) ∙ a.line);
}

insert_raises :
    (t : ℕ) (k : Kernel)
    → (ready_queue_insert t (readied t k)).0 ≡ ltb (k.tcb t).priority k.top_priority
unfolding ready_queue_insert
insert_raises t k = rw (==_self t) refl

module _ (t : ℕ) (k : Kernel) (c : Chosen k) (z : t ≢ null) (l : (k.tcb t).priority < num_pri)
    (w : (k.tcb t).klockwait ≡ false) where
  abbrev pri : ℕ
  pri = (k.tcb t).priority

  queued-TopInv : TopInv (queued t k)
  queued-TopInv =
      insert-TopInv t (readied t k) (set_tcb-TopInv t _ k refl refl c.top_inv) z (rw (==_self t) l)
        (rw (==_self t) w)

  queued-NoLock : NoLock (queued t k)
  unfolding ready_queue_insert
  queued-NoLock = record {
    free = rw (==_self t, c.no_lock.none_locked t) c.no_lock.free;
    none_locked = λ u. ground (arith, c.no_lock.none_locked u);
  }

  queued-Alone : ltb pri k.top_priority ≡ true → Alone t pri (queued t k)
  unfolding ready_queue_insert
  queued-Alone h = record {
    top_inv = queued-TopInv;
    no_lock = queued-NoLock;
    top = rw (==_self t, h) refl;
    line =
        rw
          (
            ==_self t,
            ==_self pri,
            is_nil_lem (k.rdy_que pri) (c.top_inv.marks.above pri (ground arith)),
          )
          refl;
  }

  abbrev run : ℕ
  run = k.schedtsk

  lower_line : ltb pri k.top_priority ≡ true → run ≢ null → pri ≢ ((queued t k).tcb run).priority
  unfolding ready_queue_insert
  lower_line h n =
      let y : (k.tcb run).priority ≡ k.top_priority = (Chosen-Home k c n).1 in ground arith

  run_line :
      ltb pri k.top_priority ≡ true
      → run ≢ null
      → is_nil ((queued t k).rdy_que ((queued t k).tcb run).priority) ≡ false
  unfolding ready_queue_insert
  run_line h n =
      let y : (k.tcb run).priority ≡ k.top_priority = (Chosen-Home k c n).1 in
      let f : is_nil (k.rdy_que k.top_priority) ≡ false = headed run _ c.chosen n in ground arith

  run_free : run ≢ null → ((queued t k).tcb run).klockwait ≡ false
  unfolding ready_queue_insert
  run_free n = let y : (k.tcb run).klockwait ≡ false = (Chosen-Home k c n).2 in ground arith

  sliced-Alone : ltb pri k.top_priority ≡ true → Alone t pri (slice_if_running (queued t k))
  unfolding ready_queue_insert
  sliced-Alone h =
      let q = queued t k in
      let a = queued-Alone h in
      let one = set_tcb-Alone t pri run (sliced q) q refl refl refl a in
      slice_counts (Alone t pri) q a (
        one,
        λ n.
            move_last-Alone t pri run (set_tcb run (sliced q) q)
              (n, refl, rw (==_self run) (run_free n)) (rw (==_self run) (run_line h n))
              (rw (==_self run) (lower_line h n)) one,
      )

  joined-Chosen : ltb pri k.top_priority ≡ false → Chosen (queued t k)
  unfolding ready_queue_insert
  joined-Chosen h = record {
    top_inv = queued-TopInv;
    no_lock = queued-NoLock;
    chosen =
        rw (==_self t, h)
          (elim (Bool-cases (k.top_priority == pri)) [
            | inr e ↦ rw e c.chosen
            | inl e ↦
                let f : k.top_priority ≡ pri = ground arith in
                rw e (
                  c.chosen
                  ∙ (ap (λ x. head_or_null (k.rdy_que x)) f
                      ∙ sym (
                          head-append t (k.rdy_que pri) (
                            ap (λ x. is_nil (k.rdy_que x)) (sym f)
                            ∙ c.top_inv.marks.used (ground arith)))))
          ]);
  }

-- Where the bitmap and the highest priority agree with the lines of the ready queue, schedtsk is the
-- head of the first line that is not empty and no task holds the kernel lock, make_ready keeps it so,
-- for a task of a priority below NUM_PRI that does not wait for the kernel lock, and whatever the
-- time slice does to the task that runs.
pub make_ready-Chosen :
    (t : ℕ) (k : Kernel)
    → Chosen k
    → t ≢ null
    → (k.tcb t).priority < num_pri
    → (k.tcb t).klockwait ≡ false
    → Chosen (make_ready t k)
unfolding make_ready
make_ready-Chosen t k c z l w =
    if_rule Chosen _ _ _
      (λ h.
        let a = sliced-Alone t k c z l w (test ∙ h) in
        record {
          top_inv = record { homes = a.top_inv.homes; marks = a.top_inv.marks };
          no_lock = record { free = a.no_lock.free; none_locked = a.no_lock.none_locked };
          chosen =
              sym (ap head_or_null (ap (slice_if_running (queued t k)).rdy_que a.top ∙ a.line));
        })
      (λ h. joined-Chosen t k c z l w (test ∙ h))
  where
    test : ltb (k.tcb t).priority k.top_priority ≡ (ready_queue_insert t (readied t k)).0
    test = sym (insert_raises t k)
