-- ===== src/Wait/Frame.antt =====
-- kernel/tkernel/src/wait.c: the parts of the kernel that the way into the wait state and the release
-- of a waiting task do not touch.
use open_t_kernel.Base.{
  false, Bool, not, ◌==◌, ◌-◌, if◌then◌else◌, ℕ, ◌≡◌, refl, ◌∙◌, if_rule, List,
}
use open_t_kernel.Base.Int.{ℤ}
use open_t_kernel.Bits.{Bytes, bit_clr, bit_search1_w}
use open_t_kernel.Kernel.{
  Kernel, Tcb, Event, wtmeb, Tstat, nonexist, ready, wait, suspend, waitsus, dormant, null, num_pri,
  has, ta_nodiswai, tskwait, e_tmout, e_diswai, set_tcb, que_remove_tsk,
}
use open_t_kernel.Timer.{timer_delete, timer_insert, enqueue_tmeb, is_fevr, is_pol, ll_add, ltoll}
use open_t_kernel.ReadyQueue.{
  is_nil, next_top, ready_queue_top, ready_queue_delete, ready_queue_shrink, ready_queue_insert,
  ready_queue_move_last,
}
use open_t_kernel.Task.{make_ready, make_non_ready, slice_if_running}
use open_t_kernel.Task.Frame.{slice_counts, sliced, make_ready_cases, queued}
use open_t_kernel.Wait.{
  Gcb, is_wait, to_wait, enter_wait, make_wait, set_wercd, is_diswai, gcb_make_wait,
  gcb_make_wait_with_diswai, make_non_wait, wait_release, wait_release_ok,
}

-- The TCBs, the ready queue, the schedule, the timer queue and the wait queues rewritten.
abbrev moved :
    Kernel
    → (ℕ → Tcb)
    → ℕ
    → (ℕ → List ℕ)
    → Bytes
    → ℕ
    → ℕ
    → List Event
    → (lock svc sem flg smbf rmbf mbx mpf : ℕ → List ℕ) → Kernel
moved k tcb top rdy bits klock sched events lock svc sem flg smbf rmbf mbx mpf = record k {
  tcb = tcb;
  top_priority = top;
  rdy_que = rdy;
  bitmap = bits;
  klocktsk = klock;
  schedtsk = sched;
  timer_queue = events;
  lock_que = lock;
  svc_que = svc;
  sem_que = sem;
  flg_que = flg;
  smbf_que = smbf;
  rmbf_que = rmbf;
  mbx_que = mbx;
  mpf_que = mpf;
}

-- `f` reads none of these.
abbrev pub Aside {ℓ} : {A : Type ℓ} → (Kernel → A) → Type ℓ
Aside f =
    (k : Kernel) (tcb : ℕ → Tcb) (top : ℕ) (rdy : ℕ → List ℕ) (bits : Bytes) (klock sched : ℕ)
    (events : List Event) (lock svc sem flg smbf rmbf mbx mpf : ℕ → List ℕ)
    → f (moved k tcb top rdy bits klock sched events lock svc sem flg smbf rmbf mbx mpf) ≡ f k

module _ {ℓ} {A : Type ℓ} (f : Kernel → A) (aside : Aside f) where
  -- The kernel `k'`, of which only those parts may differ from `k`.
  at : (k k' : Kernel) → A
  at k k' = f (
      moved k k'.tcb k'.top_priority k'.rdy_que k'.bitmap k'.klocktsk k'.schedtsk k'.timer_queue
        k'.lock_que k'.svc_que k'.sem_que k'.flg_que k'.smbf_que k'.rmbf_que k'.mbx_que k'.mpf_que)

  at_lem : (k k' : Kernel) → at k k' ≡ f k
  unfolding at
  at_lem k k' =
      aside k k'.tcb k'.top_priority k'.rdy_que k'.bitmap k'.klocktsk k'.schedtsk k'.timer_queue
        k'.lock_que k'.svc_que k'.sem_que k'.flg_que k'.smbf_que k'.rmbf_que k'.mbx_que k'.mpf_que

  move_last-Aside : (t : ℕ) (k : Kernel) → f (ready_queue_move_last t k).1 ≡ f k
  unfolding at ready_queue_move_last que_remove_tsk
  move_last-Aside t k = at_lem k (ready_queue_move_last t k).1

  set_tcb-Aside : (t : ℕ) (c : Tcb) (k : Kernel) → f (set_tcb t c k) ≡ f k
  unfolding at
  set_tcb-Aside t c k = at_lem k (set_tcb t c k)

  slice-Aside : (k : Kernel) → f (slice_if_running k) ≡ f k
  slice-Aside k =
      let one = set_tcb-Aside k.schedtsk (sliced k) k in
      slice_counts (λ k'. f k' ≡ f k) k refl (one, λ n. move_last-Aside k.schedtsk _ ∙ one)

  queued-Aside : (t : ℕ) (k : Kernel) → f (queued t k) ≡ f k
  unfolding at ready_queue_insert
  queued-Aside t k = at_lem k (queued t k)

  scheduled-Aside : (k : Kernel) (t : ℕ) → f (record k { schedtsk = t }) ≡ f k
  unfolding at
  scheduled-Aside k t = at_lem k (record k { schedtsk = t })

  make_ready-Aside : (t : ℕ) (k : Kernel) → f (make_ready t k) ≡ f k
  make_ready-Aside t k =
      make_ready_cases (λ k'. f k' ≡ f k) t k
        (scheduled-Aside (slice_if_running (queued t k)) t
          ∙ slice-Aside (queued t k)
          ∙ queued-Aside t k)
        (queued-Aside t k)

  make_non_wait-Aside : (t : ℕ) (k : Kernel) → f (make_non_wait t k) ≡ f k
  unfolding make_non_wait
  make_non_wait-Aside t k =
      let c : Tcb = record (k.tcb t) { state = suspend } in
      if_rule (λ k'. f k' ≡ f k) (is_wait (k.tcb t).state) (make_ready t k) (set_tcb t c k)
        (λ _. make_ready-Aside t k) (λ _. set_tcb-Aside t c k)

  removed-Aside : (t : ℕ) (k : Kernel) → f (que_remove_tsk t (timer_delete (wtmeb t) k)) ≡ f k
  unfolding at que_remove_tsk timer_delete
  removed-Aside t k = at_lem k (que_remove_tsk t (timer_delete (wtmeb t) k))

  pub wait_release_ok-Aside : (t : ℕ) (k : Kernel) → f (wait_release_ok t k) ≡ f k
  unfolding wait_release_ok wait_release
  wait_release_ok-Aside t k =
      let k1 = que_remove_tsk t (timer_delete (wtmeb t) k) in
      set_tcb-Aside t _ (make_non_wait t k1) ∙ make_non_wait-Aside t k1 ∙ removed-Aside t k

  both-Aside : (b : Bool) (k x y : Kernel) → f x ≡ f k → f y ≡ f k → f (if b then x else y) ≡ f k
  both-Aside b k x y p q = if_rule (λ k'. f k' ≡ f k) b x y (λ _. p) (λ _. q)

  shrink-Aside : (p : ℕ) (k : Kernel) → f (ready_queue_shrink p k) ≡ f k
  unfolding at ready_queue_shrink
  shrink-Aside p k =
      let k1 = record k { bitmap = bit_clr k.bitmap p } in
      let k2 = record k1 {
        top_priority = next_top (bit_search1_w (bit_clr k.bitmap p) p (num_pri - p)) p;
      } in
      both-Aside (not (is_nil (k.rdy_que p))) k k (if not (p == k.top_priority) then k1 else k2)
        refl (both-Aside (not (p == k.top_priority)) k k1 k2 (at_lem k k1) (at_lem k k2))

  delete-Aside : (t : ℕ) (k : Kernel) → f (ready_queue_delete t k) ≡ f k
  unfolding at ready_queue_delete que_remove_tsk
  delete-Aside t k =
      let k1 = record k { klocktsk = if k.klocktsk == t then null else k.klocktsk } in
      let k2 = que_remove_tsk t k1 in
      let c : Tcb = record (k.tcb t) { klockwait = false } in
      both-Aside (k.tcb t).klockwait k (set_tcb t c k2) (ready_queue_shrink (k.tcb t).priority k2)
        (at_lem k (set_tcb t c k2)) (shrink-Aside (k.tcb t).priority k2 ∙ at_lem k k2)

  make_non_ready-Aside : (t : ℕ) (k : Kernel) → f (make_non_ready t k) ≡ f k
  unfolding make_non_ready
  make_non_ready-Aside t k =
      let k1 = ready_queue_delete t k in
      both-Aside (k1.schedtsk == t) k (record k1 { schedtsk = ready_queue_top k1 }) k1
        (scheduled-Aside k1 (ready_queue_top k1) ∙ delete-Aside t k) (delete-Aside t k)

  to_wait-Aside : (s : Tstat) (t : ℕ) (k : Kernel) → f (to_wait s t k) ≡ f k
  unfolding to_wait
  to_wait-Aside ready t k =
      let k1 = make_non_ready t k in
      set_tcb-Aside t (record (k1.tcb t) { state = wait }) k1 ∙ make_non_ready-Aside t k
  to_wait-Aside suspend t k = set_tcb-Aside t (record (k.tcb t) { state = waitsus }) k
  to_wait-Aside nonexist t k = refl
  to_wait-Aside wait t k = refl
  to_wait-Aside waitsus t k = refl
  to_wait-Aside dormant t k = refl

  pub enter_wait-Aside : (atr : ℕ) (k : Kernel) → f (enter_wait atr k) ≡ f k
  unfolding enter_wait
  enter_wait-Aside atr k =
      let k1 = to_wait (k.tcb k.ctxtsk).state k.ctxtsk k in
      set_tcb-Aside k.ctxtsk (record (k1.tcb k.ctxtsk) { nodiswai = has atr ta_nodiswai }) k1
      ∙ to_wait-Aside (k.tcb k.ctxtsk).state k.ctxtsk k

  events-Aside : (q : List Event) (k : Kernel) → f (record k { timer_queue = q }) ≡ f k
  unfolding at
  events-Aside q k = at_lem k (record k { timer_queue = q })

  pub make_wait-Aside : (tmout : ℤ) (atr : ℕ) (k : Kernel) → f (make_wait tmout atr k) ≡ f k
  unfolding make_wait timer_insert enqueue_tmeb
  make_wait-Aside tmout atr k =
      let k1 = enter_wait atr k in
      both-Aside (is_fevr tmout) k k1
        (enqueue_tmeb
          (record {
            time = ll_add (ll_add k1.current_time (ltoll tmout)) k1.hw_timer_usec;
            tmeb = wtmeb k.ctxtsk;
          })
          k1)
        (enter_wait-Aside atr k) (events-Aside _ k1 ∙ enter_wait-Aside atr k)

  -- A wait on an object whose queue is one of these.
  pub gcb_make_wait_with_diswai-Aside :
      (gcb : Gcb) (tmout : ℤ) (k : Kernel)
      → ((qs : List ℕ) (k' : Kernel) → f (gcb.set_wait_queue qs k') ≡ f k')
      → f (gcb_make_wait_with_diswai gcb tmout k) ≡ f k
  unfolding gcb_make_wait_with_diswai gcb_make_wait
  gcb_make_wait_with_diswai-Aside gcb tmout k h =
      let ctx = k.ctxtsk in
      let k1 = set_wercd ctx e_tmout k in
      let k2 = set_tcb ctx (record (k1.tcb ctx) { wid = gcb.objid }) k1 in
      let one = set_tcb-Aside ctx (record (k.tcb ctx) { wercd = e_tmout }) k in
      both-Aside (is_diswai gcb.objatr (k.tcb ctx) (tskwait (k.tcb ctx).wspec)) k
        (set_wercd ctx e_diswai k) (if not (is_pol tmout) then gcb_make_wait gcb tmout k1 else k1)
        (set_tcb-Aside ctx (record (k.tcb ctx) { wercd = e_diswai }) k)
        (both-Aside (not (is_pol tmout)) k (gcb_make_wait gcb tmout k1) k1
          (h _ (make_wait tmout gcb.objatr k2)
            ∙ make_wait-Aside tmout gcb.objatr k2
            ∙ set_tcb-Aside ctx (record (k1.tcb ctx) { wid = gcb.objid }) k1
            ∙ one)
          one)
