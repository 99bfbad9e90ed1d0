-- ===== src/Wait/Fields.antt =====
-- kernel/tkernel/src/wait.c: the fields of TCBs that the release of a waiting task does not touch.
use open_t_kernel.Base.{
  ℕ, ◌≡◌, refl, sym, ◌∙◌, ap, inl, inr, Bool-cases, if_rule, ◌==◌, upd, ==_iff,
}
use open_t_kernel.Kernel.{
  Kernel, Tcb, Tstat, Er, e_ok, ready, suspend, wtmeb, set_tcb, que_remove_tsk,
}
use open_t_kernel.Timer.{timer_delete}
use open_t_kernel.ReadyQueue.{ready_queue_insert, ready_queue_move_last}
use open_t_kernel.Task.{make_ready, slice_if_running}
use open_t_kernel.Task.Frame.{slice_counts, sliced, make_ready_cases, queued, readied}
use open_t_kernel.Wait.{is_wait, make_non_wait, wait_release, wait_release_ok}

-- `g` reads neither the state, nor the time in the slice, nor the cell of the error code.
abbrev pub Unread {ℓ} : {A : Type ℓ} → (Tcb → A) → Type ℓ
Unread g =
    (c : Tcb) (s : Tstat) (n : ℕ) (e : Er)
    → g (record c { state = s; slicecnt = n; wercd = e }) ≡ g c

module _ {ℓ} {A : Type ℓ} (g : Tcb → A) (unread : Unread g) where
  abbrev Fields : Kernel → Kernel → Type ℓ
  Fields k k' = (u : ℕ) → g (k'.tcb u) ≡ g (k.tcb u)

  upd-Fields : (f : ℕ → Tcb) (t : ℕ) (c : Tcb) → g c ≡ g (f t) → (u : ℕ) → g (upd f t c u) ≡ g (f u)
  upd-Fields f t c e u = elim (Bool-cases (u == t)) [
    | inl h ↦ rw h (e ∙ ap (λ x. g (f x)) (sym ((==_iff u t).0 h)))
    | inr h ↦ rw h refl
  ]

  slice-Fields : (k : Kernel) → Fields k (slice_if_running k)
  unfolding ready_queue_move_last que_remove_tsk
  slice-Fields k =
      let s = k.schedtsk in
      let c = sliced k in
      let one =
        upd-Fields k.tcb s c (unread (k.tcb s) (k.tcb s).state c.slicecnt (k.tcb s).wercd) in
      let k1 = set_tcb s c k in
      slice_counts (Fields k) k (λ u. refl)
        (
          one,
          λ n u.
              upd-Fields k1.tcb s (record (k1.tcb s) { slicecnt = 0 })
                (unread (k1.tcb s) (k1.tcb s).state 0 (k1.tcb s).wercd) u
              ∙ one u,
        )

  queued-Fields : (t : ℕ) (k : Kernel) → Fields k (queued t k)
  unfolding ready_queue_insert
  queued-Fields t k u =
      let k1 = readied t k in
      let c = k1.tcb t in
      upd-Fields k1.tcb t (record c { slicecnt = 0 }) (unread c c.state 0 c.wercd) u
      ∙ upd-Fields k.tcb t (record (k.tcb t) { state = ready })
          (unread (k.tcb t) ready (k.tcb t).slicecnt (k.tcb t).wercd) u

  make_ready-Fields : (t : ℕ) (k : Kernel) → Fields k (make_ready t k)
  make_ready-Fields t k =
      make_ready_cases (Fields k) t k (λ u. slice-Fields (queued t k) u ∙ queued-Fields t k u)
        (queued-Fields t k)

  pub wait_release_ok-Fields : (t : ℕ) (k : Kernel) → Fields k (wait_release_ok t k)
  unfolding wait_release_ok wait_release make_non_wait timer_delete que_remove_tsk
  wait_release_ok-Fields t k u =
      let k1 = que_remove_tsk t (timer_delete (wtmeb t) k) in
      let k2 = make_non_wait t k1 in
      let c : Tcb = record (k.tcb t) { state = suspend } in
      upd-Fields k2.tcb t (record (k2.tcb t) { wercd = e_ok })
        (unread (k2.tcb t) (k2.tcb t).state (k2.tcb t).slicecnt e_ok) u
      ∙ if_rule (Fields k) (is_wait (k1.tcb t).state) (make_ready t k1) (set_tcb t c k1)
          (λ _. make_ready-Fields t k1)
          (λ _. upd-Fields k.tcb t c (unread (k.tcb t) suspend (k.tcb t).slicecnt (k.tcb t).wercd))
          u
