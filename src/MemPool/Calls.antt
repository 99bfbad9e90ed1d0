-- ===== src/MemPool/Calls.antt =====
-- kernel/tkernel/src/mempfix.c: the calls that take and return a block, from LockOBJ on.
use open_t_kernel.Base.{
  ℕ, ◌≡◌, ◌≢◌, ◌<◌, refl, sym, ◌∙◌, subst, arith, true, false, Bool-cases, ◌⊎◌, inl, inr, ◌==◌,
  ==_ne, ==_iff, if◌then◌else◌, Option, none, some, List, [], ◌∷◌, ◌++◌,
}
use open_t_kernel.Base.Int.{ℤ, is_int_positive}
use open_t_kernel.Kernel.{
  Kernel, Mpfcb, Er, e_ok, mpf, has, ta_tpri, wspec_mpf_tpri, wspec_mpf_tfifo, ttw_mpf, set_tcb,
  null,
}
use open_t_kernel.Klock.{unlock_obj, pass_lock}
use open_t_kernel.ReadyQueue.{ready_queue_insert_top}
use open_t_kernel.Wait.{is_diswai, gcb_make_wait_with_diswai, wait_release_ok}
use open_t_kernel.Wait.Frame.{gcb_make_wait_with_diswai-Aside, wait_release_ok-Aside}
use open_t_kernel.Wait.Fields.{wait_release_ok-Fields}
use open_t_kernel.MemPool.{
  mpf_get, mpf_take, mpf_wait, mpf_rel, mpf_give, mpf_free, mpf_gcb, mpf_lock,
}
use open_t_kernel.MemPool.Blocks.{Pool, PoolHolds, mpf_take-Pool, mpf_free-Pool, block_accepted}

-- What the pools are: their control blocks and the free blocks' links.
abbrev pools : Kernel → (ℕ → Mpfcb) × (ℕ → ℕ)
pools k = (k.mpfcb, k.next_free)

pass_lock-pools : (loc : ℕ) (qs : List ℕ) (k : Kernel) → pools (pass_lock loc qs k) ≡ pools k
unfolding pass_lock ready_queue_insert_top
pass_lock-pools loc [] k = refl
pass_lock-pools loc (t ∷ ts) k = refl

unlock_obj-pools : (loc : ℕ) (k : Kernel) → pools (unlock_obj loc k) ≡ pools k
unfolding unlock_obj
unlock_obj-pools loc k =
    let k1 = record (set_tcb k.ctxtsk (record (k.tcb k.ctxtsk) { klocked = false }) k) {
      klocktsk = null;
    } in
    pass_lock-pools loc (k.lock_que loc) k1

-- Pool `id` is the same in kernels with the same pools.
pools-Pool :
    (id n : ℕ) (k k' : Kernel) (frees outs : List ℕ)
    → pools k' ≡ pools k
    → Pool id k n frees outs
    → Pool id k' n frees outs
pools-Pool id n k k' frees outs e h = subst (λ p. PoolHolds (p.0 id) p.1 n frees outs) (sym e) h

unlock_obj-Pool :
    (id n loc : ℕ) (k : Kernel) (frees outs : List ℕ)
    → Pool id k n frees outs
    → Pool id (unlock_obj loc k) n frees outs
unlock_obj-Pool id n loc k frees outs h =
    pools-Pool id n k (unlock_obj loc k) frees outs (unlock_obj-pools loc k) h

mpf_wait-pools : (id : ℕ) (tmout : ℤ) (k : Kernel) → pools (mpf_wait id tmout k).1 ≡ pools k
unfolding mpf_wait
mpf_wait-pools id tmout k =
    let ctx = k.ctxtsk in
    let spec = if has (k.mpfcb id).mpfatr ta_tpri then wspec_mpf_tpri else wspec_mpf_tfifo in
    let k1 = set_tcb ctx (record (k.tcb ctx) { wspec = spec; wercd = e_ok; winfo = mpf }) k in
    unlock_obj-pools (mpf_lock id) (gcb_make_wait_with_diswai (mpf_gcb id k1) tmout k1)
    ∙ gcb_make_wait_with_diswai-Aside pools (λ j a b c d e f g h i l m n o p q. refl)
        (mpf_gcb id k1) tmout k1 (λ qs k'. refl)

positive : (n : ℕ) → is_int_positive n ≡ true → 0 < n
positive n h = ground arith

-- The hand-over of a lock writes no cell of a memory pool.
pass_lock-rcvblf :
    (loc u : ℕ) (qs : List ℕ) (k : Kernel) → ((pass_lock loc qs k).tcb u).rcvblf ≡ (k.tcb u).rcvblf
unfolding pass_lock ready_queue_insert_top
pass_lock-rcvblf loc u [] k = refl
pass_lock-rcvblf loc u (t ∷ ts) k = ground arith

unlock_obj-rcvblf : (loc u : ℕ) (k : Kernel) → ((unlock_obj loc k).tcb u).rcvblf ≡ (k.tcb u).rcvblf
unfolding unlock_obj
unlock_obj-rcvblf loc u k =
    let k1 = record (set_tcb k.ctxtsk (record (k.tcb k.ctxtsk) { klocked = false }) k) {
      klocktsk = null;
    } in
    pass_lock-rcvblf loc u (k.lock_que loc) k1 ∙ ground arith

-- A request for a block with the lock of the pool gets one at once: the pool exists, the caller may wait and a
-- block is counted as free.
pub record Gives (id : ℕ) (k : Kernel) : Type 0 where
  pub exists : (k.mpfcb id).mpfid ≢ 0
  pub enabled : is_diswai (k.mpfcb id).mpfatr (k.tcb k.ctxtsk) ttw_mpf ≡ false
  pub some_free : (k.mpfcb id).frbcnt ≢ 0

-- What tk_get_mpf_u leaves: the block it answers with, where it had one to give, is in use from then on, and was
-- not before; else the blocks are as they were, and there was a reason.
abbrev pub Got : ℕ → Kernel → List ℕ → (Er × Option ℕ) × Kernel → Type 0
Got id k outs ((ercd, some b), k') =
    (ercd ≡ e_ok) × Gives id k × (n : ℕ) × (frees : List ℕ) × Pool id k' n frees (b ∷ outs)
Got id k outs ((ercd, none), k') =
    ((n : ℕ) × (frees : List ℕ) × Pool id k' n frees outs)
    × (((k.mpfcb id).mpfid ≡ 0)
        ⊎ ((is_diswai (k.mpfcb id).mpfatr (k.tcb k.ctxtsk) ttw_mpf ≡ true)
            ⊎ ((k.mpfcb id).frbcnt ≡ 0)))

-- tk_get_mpf_u with the lock of a pool of which `outs` are in use: a block is given exactly where the
-- pool exists, the caller may wait and a block is counted as free.
pub mpf_get-Got :
    (id n : ℕ) (tmout : ℤ) (k : Kernel) (frees outs : List ℕ)
    → Pool id k n frees outs
    → Got id k outs (mpf_get id tmout k)
unfolding mpf_get
mpf_get-Got id n tmout k frees outs h =
    let p = k.mpfcb id in
    elim (Bool-cases (p.mpfid == 0)) [
      | inl e ↦ rw e (
        (n, frees, unlock_obj-Pool id n (mpf_lock id) k frees outs h),
        inl ((==_iff p.mpfid 0).0 e),
      )
      | inr e ↦ rw e (elim (Bool-cases (is_diswai p.mpfatr (k.tcb k.ctxtsk) ttw_mpf)) [
        | inl d ↦ rw d ((n, frees, unlock_obj-Pool id n (mpf_lock id) k frees outs h), inr (inl d))
        | inr d ↦ rw d (elim (Bool-cases (is_int_positive p.frbcnt)) [
          | inl z ↦ rw z (got e d z)
          | inr z ↦ rw z (
            (
              n,
              frees,
              pools-Pool id n k (mpf_wait id tmout k).1 frees outs (mpf_wait-pools id tmout k) h,
            ),
            inr (inr (ground (arith, z, h.count, h.few))),
          )
        ])
      ])
    ]
  where
    got :
        ((k.mpfcb id).mpfid == 0) ≡ false
        → is_diswai (k.mpfcb id).mpfatr (k.tcb k.ctxtsk) ttw_mpf ≡ false
        → is_int_positive (k.mpfcb id).frbcnt ≡ true
        → Got id k outs ((e_ok, some (mpf_take id k).0), unlock_obj (mpf_lock id) (mpf_take id k).1)
    got e d z =
        let (n', frees', q) = mpf_take-Pool id n k frees outs (positive (k.mpfcb id).frbcnt z) h in
        let b = (mpf_take id k).0 in
        (
          refl,
          record { exists = ground (arith, e); enabled = d; some_free = ground (arith, z) },
          n',
          frees',
          unlock_obj-Pool id n' (mpf_lock id) (mpf_take id k).1 frees' (b ∷ outs) q,
        )

-- Where a block that is in use goes: to the task that waits first, or to the head of the free list.
abbrev pub Returned : ℕ → ℕ → ℕ → List ℕ → List ℕ → List ℕ → List ℕ → Kernel → Type 0
Returned id n b frees xs ys [] k' = Pool id k' n (b ∷ frees) (xs ++ ys)
Returned id n b frees xs ys (t ∷ ts) k' =
    Pool id k' n frees (xs ++ b ∷ ys) × ((k'.tcb t).rcvblf ≡ b)

give-Returned :
    (id n b : ℕ) (qs : List ℕ) (k : Kernel) (frees xs ys : List ℕ)
    → Pool id k n frees (xs ++ b ∷ ys)
    → Returned id n b frees xs ys qs (unlock_obj (mpf_lock id) (mpf_give id b qs k))
unfolding mpf_give
give-Returned id n b [] k frees xs ys h =
    unlock_obj-Pool id n (mpf_lock id) (mpf_free id b k) (b ∷ frees) (xs ++ ys)
      (mpf_free-Pool id n b k frees xs ys h)
give-Returned id n b (t ∷ ts) k frees xs ys h =
    let k1 = set_tcb t (record (k.tcb t) { rcvblf = b }) k in
    let k2 = wait_release_ok t k1 in
    (
      unlock_obj-Pool id n (mpf_lock id) k2 frees (xs ++ b ∷ ys) (
          pools-Pool id n k k2 frees (xs ++ b ∷ ys)
            (wait_release_ok-Aside pools (λ j a b c d e f g h i l m n o p q. refl) t k1) h),
      unlock_obj-rcvblf (mpf_lock id) t k2
          ∙ wait_release_ok-Fields (λ c. c.rcvblf) (λ c s n e. refl) t k1 t
          ∙ ground arith,
    )

-- tk_rel_mpf with the lock of a pool of which the block is in use, after `xs` and before `ys`: it is
-- accepted, and goes to the task that waits first, or becomes free if nobody waits.
pub mpf_rel-Returned :
    (id n b : ℕ) (k : Kernel) (frees xs ys : List ℕ)
    → (k.mpfcb id).mpfid ≢ 0
    → Pool id k n frees (xs ++ b ∷ ys)
    → ((mpf_rel id b k).0 ≡ e_ok) × Returned id n b frees xs ys (k.mpf_que id) (mpf_rel id b k).1
unfolding mpf_rel
mpf_rel-Returned id n b k frees xs ys z h =
    rw (==_ne (k.mpfcb id).mpfid 0 z, block_accepted (k.mpfcb id) k.next_free n b frees xs ys h)
      (refl, give-Returned id n b (k.mpf_que id) k frees xs ys h)
