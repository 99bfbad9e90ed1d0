-- ===== src/TaskSync/Resume.antt =====
-- tk_sus_tsk and tk_rsm_tsk: a resumption takes back a suspension.
use open_t_kernel.Base.{
  upd_thrice, upd_back, ℕ, ◌≡◌, ◌≢◌, ◌∙◌, sym, ap, ap₂, arith, refl, fun_ext, ==_self, ==_ne,
}
use open_t_kernel.Base.Int.{ℤ, to_ℕ}
use open_t_kernel.Kernel.{Kernel, Tcb, e_ok, wait, waitsus, set_tcb}
use open_t_kernel.TaskSync.{tk_sus_tsk, tk_rsm_tsk, check_other, resume_as, suspend_as}

-- The suspended task, as it waits on.
abbrev held : ℕ → Kernel → Kernel
held t k = set_tcb t (record (k.tcb t) { state = waitsus; suscnt = 1 }) k

sus_eq :
    (tskid : ℤ) (k : Kernel)
    → check_other tskid k ≡ e_ok
    → (k.tcb (to_ℕ tskid)).state ≡ wait
    → (k.tcb (to_ℕ tskid)).suscnt ≡ 0
    → to_ℕ tskid ≢ k.ctxtsk
    → tk_sus_tsk tskid k ≡ (e_ok, held (to_ℕ tskid) k)
unfolding tk_sus_tsk suspend_as
sus_eq tskid k p w s n =
    rw (p, w, s, ==_ne _ _ n)
      (ap (λ (f : ℕ → Tcb). (e_ok, record k { tcb = f })) (fun_ext λ u. ground (arith, s)))

check_held : (tskid : ℤ) (t : ℕ) (k : Kernel) → check_other tskid (held t k) ≡ check_other tskid k
unfolding check_other
check_held tskid t k = refl

tcb_back : (c : Tcb) → c.state ≡ wait → c.suscnt ≡ 0 → record c { suscnt = 0; state = wait } ≡ c
tcb_back c w s = ap₂ (λ x n. record c { suscnt = n; state = x }) (sym w) (sym s)

release_eq :
    (t : ℕ) (k : Kernel)
    → (k.tcb t).state ≡ wait
    → (k.tcb t).suscnt ≡ 0
    → resume_as waitsus t (held t k) ≡ (e_ok, k)
unfolding resume_as
release_eq t k w s =
    let c1 : Tcb = record (k.tcb t) { state = waitsus; suscnt = 1 } in
    let c2 : Tcb = record c1 { suscnt = 0 } in
    let c3 : Tcb = record c1 { suscnt = 0; state = wait } in
    rw (==_self t) (
      ap (λ (f : ℕ → Tcb). (e_ok, record k { tcb = f }))
        (upd_thrice k.tcb t c1 c2 c3 ∙ upd_back k.tcb t c3 (tcb_back (k.tcb t) w s)))

rsm_eq :
    (tskid : ℤ) (k : Kernel)
    → check_other tskid k ≡ e_ok
    → (k.tcb (to_ℕ tskid)).state ≡ wait
    → (k.tcb (to_ℕ tskid)).suscnt ≡ 0
    → tk_rsm_tsk tskid (held (to_ℕ tskid) k) ≡ (e_ok, k)
unfolding tk_rsm_tsk
rsm_eq tskid k p w s =
    rw (check_held tskid (to_ℕ tskid) k, p, ==_self (to_ℕ tskid)) (release_eq (to_ℕ tskid) k w s)

-- A waiting task that another task suspends and resumes is as before, and so is everything else.
pub tk_rsm_tsk-tk_sus_tsk :
    (tskid : ℤ) (k : Kernel)
    → check_other tskid k ≡ e_ok
    → (k.tcb (to_ℕ tskid)).state ≡ wait
    → (k.tcb (to_ℕ tskid)).suscnt ≡ 0
    → to_ℕ tskid ≢ k.ctxtsk
    → ((tk_sus_tsk tskid k).0 ≡ e_ok) × (tk_rsm_tsk tskid (tk_sus_tsk tskid k).1 ≡ (e_ok, k))
tk_rsm_tsk-tk_sus_tsk tskid k p w s n = rw (sus_eq tskid k p w s n) (refl, rsm_eq tskid k p w s)
