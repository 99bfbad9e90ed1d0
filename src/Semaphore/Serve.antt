-- ===== src/Semaphore/Serve.antt =====
-- The loop of sem_chg_pri gives out the counts as `Semaphore.Spec` says.
use open_t_kernel.Base.{
  ℕ, ◌-◌, ◌≡◌, ◌∙◌, ap₂, refl, arith, List, [], ◌∷◌, true, false, Bool-cases, inl, inr, ltb,
}
use open_t_kernel.Kernel.{Kernel}
use open_t_kernel.Wait.Inv.{WaitInv}
use open_t_kernel.Semaphore.{sem_grant, sem_serve}
use open_t_kernel.Semaphore.Spec.{left, granted, balance, stop_at, grant_to}
use open_t_kernel.Semaphore.Grant.{sem_grant-Granted}
use open_t_kernel.Semaphore.Served.{
  need, Served, need-same, Served-none, Served-cons, NotIn-granted, semcnt-Granted, short_as,
  split_apart, split_erase, split_wait,
}

module _ (id t : ℕ) (queue : List ℕ) (k : Kernel) where
  serve_stop : ltb (k.semcb id).semcnt (need k t) ≡ true → sem_serve id (t ∷ queue) k ≡ k
  unfolding sem_serve
  serve_stop h = ground arith

  serve_next :
      ltb (k.semcb id).semcnt (need k t) ≡ false
      → sem_serve id (t ∷ queue) k ≡ sem_serve id queue (sem_grant id t k)
  unfolding sem_serve
  serve_next h = ground arith

serve_loop :
    (id : ℕ) (w : ℕ → ℕ) (n : ℕ) (rest : List ℕ) (k : Kernel)
    → WaitInv k
    → k.sem_que id ≡ rest
    → need k ≡ w
    → (k.semcb id).semcnt ≡ n
    → Served id k
        (sem_serve id rest k)
        (granted false w n rest)
        (left false w n rest)
        (balance false w n rest)
serve_loop id w n [] k v e ew en =
    unfold sem_serve left granted balance in Served-none id k [] n v e en
serve_loop id w n (t ∷ rest) k v e ew en = elim (Bool-cases (ltb n (w t))) [
  | inl short ↦
      let (p0, p1, p2) = stop_at false w n t rest short refl in
      rw (serve_stop id t rest k (short_as id t k w n true ew en short), p0, p1, p2)
        (Served-none id k (t ∷ rest) n v e en)
  | inr enough ↦
      let x = split_wait id t [] rest k v e in
      let g = sem_grant-Granted id t k v x.0.1 in
      let (p0, p1, p2) = grant_to false w n t rest enough in
      let k1 = sem_grant id t k in
      let c : (k1.semcb id).semcnt ≡ n - w t =
        semcnt-Granted id t k k1 g ∙ ap₂ (λ (a : ℕ) (b : ℕ → ℕ). a - b t) en ew in
      rw (serve_next id t rest k (short_as id t k w n false ew en enough), p0, p1, p2)
        (Served-cons id t k k1 (sem_serve id rest k1) (granted false w (n - w t) rest)
          (left false w (n - w t) rest) (balance false w (n - w t) rest) v x.0
          (NotIn-granted false w (n - w t) t rest (split_apart id t [] rest k v e).1) g
          (serve_loop id w (n - w t) rest k1 g.wait_inv
            (g.sem_que_erased id ∙ split_erase id t [] rest k v e)
            (need-same k k1 g.demand_same ∙ ew) c))
]

-- The loop of sem_chg_pri serves the queue in its order, up to the first task that asks for too much.
pub sem_serve-Served :
    (id : ℕ) (k : Kernel)
    → WaitInv k
    → let n = (k.semcb id).semcnt in
      let q = k.sem_que id in
      Served id k
        (sem_serve id q k)
        (granted false (need k) n q)
        (left false (need k) n q)
        (balance false (need k) n q)
sem_serve-Served id k v =
    serve_loop id (need k) (k.semcb id).semcnt (k.sem_que id) k v refl refl refl
