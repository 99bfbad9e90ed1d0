-- ===== src/Semaphore/Inv.antt =====
-- The invariant of the semaphores: counts within bounds, and nobody waits whom the counts would serve.
use open_t_kernel.Base.{
  ℕ, ◌≡◌, ◌≢◌, ◌≤◌, ◌<◌, ◌∙◌, sym, ap, arith, List, [], ◌∷◌, Bool, true, false, All, All-map,
  Bool-cases, inl, inr, subst, ◌==◌, ==_iff,
}
use open_t_kernel.Kernel.{Kernel, has, ta_cnt}
use open_t_kernel.Wait.Inv.{WaitInv}
use open_t_kernel.Wait.Join.{AtHead}
use open_t_kernel.Semaphore.Served.{need, first_fit, Served, need-same}
use open_t_kernel.Semaphore.Spec.{
  left, granted, balance, balance-le, left-HeadShort, left-Short, HeadShort,
}
use open_t_kernel.Semaphore.Spec

-- Task `t` asks semaphore `id` for more than it has.
abbrev pub Short : Kernel → ℕ → ℕ → Type 0
Short k id t = (k.semcb id).semcnt < need k t

pub record SemInv (k : Kernel) (id : ℕ) : Type 0 where
  pub bounded : (k.semcb id).semcnt ≤ (k.semcb id).maxsem
  -- the first task in line cannot be served
  pub head_short : AtHead (Short k id) (k.sem_que id)
  -- with TA_CNT nobody in line can
  pub all_short : first_fit k id ≡ true → All (Short k id) (k.sem_que id)

-- The invariant of all that waits on a semaphore.
pub record SemaphoresInv (k : Kernel) : Type 0 where
  pub waits : WaitInv k
  pub sems : (id : ℕ) → SemInv k id

-- The invariant of one semaphore depends on its control block and queue, and on what the tasks of
-- the queue ask for.
pub SemInv-same :
    (k k' : Kernel) (id : ℕ)
    → k'.semcb id ≡ k.semcb id
    → k'.sem_que id ≡ k.sem_que id
    → ((u : ℕ) → need k' u ≡ need k u)
    → SemInv k id
    → SemInv k' id
SemInv-same k k' id c q n v = record {
  bounded = rw c v.bounded;
  head_short = rw q (head (k.sem_que id) v.head_short);
  all_short = λ f. rw q (
      All-map (Short k id) (Short k' id) (k.sem_que id) short
        (v.all_short (subst (λ b. has b.sematr ta_cnt ≡ true) c f)));
}
  where
    short : (t : ℕ) → Short k id t → Short k' id t
    short t h = rw (c, n t) h

    head : (ts : List ℕ) → AtHead (Short k id) ts → AtHead (Short k' id) ts
    head [] h = tt
    head (t ∷ ts) h = short t h

AtHead-of :
    (k' : Kernel) (id m : ℕ) (w : ℕ → ℕ) (q : List ℕ) (f : Bool)
    → (k'.semcb id).semcnt ≡ m
    → need k' ≡ w
    → HeadShort f w m q
    → AtHead (Short k' id) q
AtHead-of k' id m w [] f e n h = tt
AtHead-of k' id m w (t ∷ q) f e n h = omega (arith, ap (λ (g : ℕ → ℕ). g t) n)

-- A queue served as the specification says satisfies the invariant, and so do the semaphores that
-- were not concerned.
pub Served-SemaphoresInv :
    (id : ℕ) (k k' : Kernel) (f : Bool) (n : ℕ) (q : List ℕ)
    → Served id k k' (granted f (need k) n q) (left f (need k) n q) (balance f (need k) n q)
    → first_fit k id ≡ f
    → n ≤ (k.semcb id).maxsem
    → ((i : ℕ) → i ≢ id → SemInv k i)
    → SemaphoresInv k'
Served-SemaphoresInv id k k' f n q s ef le others = record {
  waits = s.wait_inv;
  sems = λ i. elim (Bool-cases (i == id)) [
    | inl e ↦ subst (SemInv k') (sym ((==_iff i id).0 e)) own
    | inr e ↦
        let ne : i ≢ id = ne_of i e in
        SemInv-same k k' i (s_other i ne) (s.sem_que_same i ne)
          (λ u. ground (arith, s.demand_same u)) (others i ne)
  ];
}
  where
    ne_of : (i : ℕ) → (i == id) ≡ false → i ≢ id
    ne_of i e = ground arith

    s_other : (i : ℕ) → i ≢ id → k'.semcb i ≡ k.semcb i
    s_other i d = ground (arith, s.semcb_set)

    m : ℕ
    m = balance f (need k) n q

    cnt : (k'.semcb id).semcnt ≡ m
    cnt = ground (arith, s.semcb_set)

    top : (k'.semcb id).maxsem ≡ (k.semcb id).maxsem
    top = ground (arith, s.semcb_set)

    fit : first_fit k' id ≡ first_fit k id
    fit = ground (arith, s.semcb_set)

    w : need k' ≡ need k
    w = need-same k k' s.demand_same

    all : f ≡ true → All (Short k' id) (left f (need k) n q)
    all e =
        let cnt_true : (k'.semcb id).semcnt ≡ balance true (need k) n q =
          cnt ∙ ap (λ b. balance b (need k) n q) e in
        rw e (
          All-map (Spec.Short true (need k) (balance true (need k) n q)) (Short k' id)
            (left true (need k) n q) (λ t h. omega (arith, cnt_true, ap (λ (g : ℕ → ℕ). g t) w))
            (left-Short (need k) n q))

    own : SemInv k' id
    own = record {
      bounded = rw (cnt, top) (omega (arith, balance-le f (need k) n q));
      head_short = rw s.queue (
          AtHead-of k' id m (need k) (left f (need k) n q) f cnt w (left-HeadShort f (need k) n q));
      all_short = λ e. rw s.queue (all (sym ef ∙ (sym fit ∙ e)));
    }
