-- ===== src/Semaphore/Signal.antt =====
-- The loop of tk_sig_sem gives out the counts as `Semaphore.Spec` says.
use mathlib.Core.List.{append_assoc}
use open_t_kernel.Base.{
  ℕ, ◌-◌, ◌≡◌, ◌∙◌, sym, ap₂, refl, arith, List, [], ◌∷◌, ◌++◌, Bool, true, false, All, All-map,
  NotIn-split, Bool-cases, inl, inr, ltb, leb, subst, ◌<◌,
}
use open_t_kernel.Kernel.{Kernel}
use open_t_kernel.Wait.Inv.{WaitInv, SemWait}
use open_t_kernel.Semaphore.{sem_grant, sem_signal}
use open_t_kernel.Semaphore.Spec.{left, granted, balance, none_left, pass_over, stop_at, grant_to}
use open_t_kernel.Semaphore.Grant.{sem_grant-Granted}
use open_t_kernel.Semaphore.Served.{
  need, first_fit, Served, need-same, Served-none, Served-cons, NotIn-granted, semcnt-Granted,
  first_fit-Granted, short_as, split_apart, split_erase, split_wait,
}

-- One round of the loop of tk_sig_sem, by its tests.
module _ (id t : ℕ) (queue : List ℕ) (k : Kernel) where
  signal_skip :
      ltb (k.semcb id).semcnt (need k t) ≡ true
      → first_fit k id ≡ true
      → sem_signal id (t ∷ queue) k ≡ sem_signal id queue k
  unfolding sem_signal
  signal_skip h f = ground arith

  signal_stop :
      ltb (k.semcb id).semcnt (need k t) ≡ true
      → first_fit k id ≡ false
      → sem_signal id (t ∷ queue) k ≡ k
  unfolding sem_signal
  signal_stop h f = ground arith

  signal_last :
      ltb (k.semcb id).semcnt (need k t) ≡ false
      → leb ((sem_grant id t k).semcb id).semcnt 0 ≡ true
      → sem_signal id (t ∷ queue) k ≡ sem_grant id t k
  unfolding sem_signal
  signal_last h f = ground arith

  signal_next :
      ltb (k.semcb id).semcnt (need k t) ≡ false
      → leb ((sem_grant id t k).semcb id).semcnt 0 ≡ false
      → sem_signal id (t ∷ queue) k ≡ sem_signal id queue (sem_grant id t k)
  unfolding sem_signal
  signal_next h f = ground arith

-- A loop that ends for want of counts has served as many as the whole queue allows.
last_none :
    (id : ℕ) (f : Bool) (w : ℕ → ℕ) (m : ℕ) (pre rest : List ℕ) (k : Kernel)
    → WaitInv k
    → k.sem_que id ≡ pre ++ rest
    → (k.semcb id).semcnt ≡ m
    → m ≡ 0
    → All (λ u. 0 < w u) rest
    → Served id k k (granted f w m rest) (pre ++ left f w m rest) (balance f w m rest)
last_none id f w m pre rest k v e c z h =
    let (l0, g0, b0) = none_left f w rest h in
    rw (z, l0, g0, b0) (Served-none id k (pre ++ rest) 0 v e (c ∙ z))

-- The loop of tk_sig_sem from the task `rest` begins with, those of `pre` having been passed over.
pub signal_loop :
    (id : ℕ) (f : Bool) (w : ℕ → ℕ) (n : ℕ) (pre rest : List ℕ) (k : Kernel)
    → WaitInv k
    → k.sem_que id ≡ pre ++ rest
    → first_fit k id ≡ f
    → need k ≡ w
    → (k.semcb id).semcnt ≡ n
    → Served id k
        (sem_signal id rest k)
        (granted f w n rest)
        (pre ++ left f w n rest)
        (balance f w n rest)
signal_loop id f w n pre [] k v e ef ew en =
    unfold sem_signal left granted balance in Served-none id k (pre ++ []) n v e en
signal_loop id f w n pre (t ∷ rest) k v e ef ew en = elim (Bool-cases (ltb n (w t))) [
  | inl short ↦
      let s = short_as id t k w n true ew en short in
      elim (Bool-cases f) [
        | inl fit ↦
            let (p0, p1, p2) = pass_over f w n t rest short fit in
            rw (signal_skip id t rest k s (ef ∙ fit), p0, p1, p2)
              (rw (← append_assoc pre (t ∷ []) (left f w n rest)) (
                signal_loop id f w n (pre ++ t ∷ []) rest k v
                  (e ∙ sym (append_assoc pre (t ∷ []) rest)) ef ew en))
        | inr no_fit ↦
            let (p0, p1, p2) = stop_at f w n t rest short no_fit in
            rw (signal_stop id t rest k s (ef ∙ no_fit), p0, p1, p2)
              (Served-none id k (pre ++ t ∷ rest) n v e en)
      ]
  | inr enough ↦
      let s = short_as id t k w n false ew en enough in
      let x = split_wait id t pre rest k v e in
      let g = sem_grant-Granted id t k v x.0.1 in
      let (p0, p1, p2) = grant_to f w n t rest enough in
      let k1 = sem_grant id t k in
      let c : (k1.semcb id).semcnt ≡ n - w t =
        semcnt-Granted id t k k1 g ∙ ap₂ (λ (a : ℕ) (b : ℕ → ℕ). a - b t) en ew in
      let q : k1.sem_que id ≡ pre ++ rest = g.sem_que_erased id ∙ split_erase id t pre rest k v e in
      rw (p0, p1, p2)
        (Served-cons id t k k1 (sem_signal id (t ∷ rest) k) (granted f w (n - w t) rest)
          (pre ++ left f w (n - w t) rest) (balance f w (n - w t) rest) v x.0
          (NotIn-granted f w (n - w t) t rest
            (NotIn-split t pre rest (split_apart id t pre rest k v e).1).1)
          g
          (elim (Bool-cases (leb (k1.semcb id).semcnt 0)) [
            | inl last ↦ rw (signal_last id t rest k s last) (
                last_none id f w (n - w t) pre rest k1 g.wait_inv q c (sym c ∙ ground arith) (
                  All-map (SemWait k id) (λ u. 0 < w u) rest
                    (λ u y. subst (λ (z : ℕ → ℕ). 0 < z u) ew y.4) x.1))
            | inr more ↦ rw (signal_next id t rest k s more) (
                signal_loop id f w (n - w t) pre rest k1 g.wait_inv q
                  (first_fit-Granted id t k k1 g ∙ ef) (need-same k k1 g.demand_same ∙ ew) c)
          ]))
]

-- The loop of tk_sig_sem serves the queue as the specification says, for either attribute.
pub sem_signal-Served :
    (id : ℕ) (k : Kernel)
    → WaitInv k
    → let f = first_fit k id in
      let n = (k.semcb id).semcnt in
      let q = k.sem_que id in
      Served id k
        (sem_signal id q k)
        (granted f (need k) n q)
        (left f (need k) n q)
        (balance f (need k) n q)
sem_signal-Served id k v =
    signal_loop id (first_fit k id) (need k) (k.semcb id).semcnt [] (k.sem_que id) k v refl refl
      refl refl
