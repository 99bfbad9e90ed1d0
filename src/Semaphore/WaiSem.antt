-- ===== src/Semaphore/WaiSem.antt =====
-- tk_wai_sem: what a request does when it is refused, served at once, or has to wait.
use open_t_kernel.Base.{
  ℕ, ◌-◌, ◌≡◌, ◌≢◌, ◌≤◌, ◌<◌, ◌⊎◌, inl, inr, ap, refl, arith, List, [], ◌∷◌, Bool, true, false, ltb,
  leb, ◌==◌, ◌&&◌, ◌||◌, if◌then◌else◌, Bool-cases, All-map, ==_ne, ==_self, fun_ext,
}
use open_t_kernel.Base.Int.{ℤ, to_ℕ, is_positive}
use open_t_kernel.Kernel.{
  Kernel, Tcb, e_ok, e_tmout, null, in_ddsp, has, ta_tpri, ttw_sem, tskwait, sem, wspec_sem_tpri,
  wspec_sem_tfifo, set_tcb,
}
use open_t_kernel.Timer.{chk_tmout, is_pol}
use open_t_kernel.Wait.{
  Gcb, is_diswai, priority_of, gcb_top_of_wait_queue, gcb_make_wait_with_diswai, gcb_make_wait,
}
use open_t_kernel.Wait.Join.{AtHead}
use open_t_kernel.Semaphore.{tk_wai_sem_u, chk_semid, set_semcnt, sem_wait, sem_gcb}
use open_t_kernel.Semaphore.Grant.{set_semcnt-WaitInv}
use open_t_kernel.Semaphore.Served.{first_fit}
use open_t_kernel.Semaphore.Inv.{SemaphoresInv, Short}

-- A request that passes the checks of tk_wai_sem_u.
pub record Admits (semid cnt tmout : ℤ) (k : Kernel) : Type 0 where
  pub id_valid : chk_semid semid k ≡ true
  pub positive : is_positive cnt ≡ true
  pub timeout : chk_tmout tmout ≡ true
  pub dispatch : in_ddsp k ≡ false
  pub exists : (k.semcb (to_ℕ semid)).semid ≢ 0
  pub fits : to_ℕ cnt ≤ (k.semcb (to_ℕ semid)).maxsem
  pub enabled : is_diswai (k.semcb (to_ℕ semid)).sematr (k.tcb k.ctxtsk) ttw_sem ≡ false

-- The caller would be first in line, or the line does not matter, and the counts are there.
abbrev pub served_at_once : ℕ → ℕ → Kernel → Bool
served_at_once id cnt k =
    (first_fit k id || (gcb_top_of_wait_queue (sem_gcb id k) k.ctxtsk k == k.ctxtsk))
    && leb cnt (k.semcb id).semcnt

pub wai_cases :
    (semid cnt tmout : ℤ) (k : Kernel)
    → (Admits semid cnt tmout k)
      ⊎ (((tk_wai_sem_u semid cnt tmout k).1 ≡ k) × ((tk_wai_sem_u semid cnt tmout k).0 ≢ e_ok))
unfolding tk_wai_sem_u
wai_cases semid cnt tmout k =
    let id = to_ℕ semid in
    elim (Bool-cases (chk_semid semid k)) [
      | inr e ↦ inr (ground arith)
      | inl e ↦ elim (Bool-cases (is_positive cnt)) [
        | inr p ↦ inr (ground arith)
        | inl p ↦ elim (Bool-cases (chk_tmout tmout)) [
          | inr t ↦ inr (ground arith)
          | inl t ↦ elim (Bool-cases (in_ddsp k)) [
            | inl d ↦ inr (rw (e, p, t, d) (refl, λ x. cc))
            | inr d ↦ elim (Bool-cases ((k.semcb id).semid == 0)) [
              | inl z ↦ inr (rw (e, p, t, d, z) (refl, λ x. cc))
              | inr z ↦ elim (Bool-cases (ltb (k.semcb id).maxsem (to_ℕ cnt))) [
                | inl o ↦ inr (rw (e, p, t, d, z, o) (refl, λ x. cc))
                | inr o ↦
                    elim (Bool-cases (is_diswai (k.semcb id).sematr (k.tcb k.ctxtsk) ttw_sem)) [
                      | inl w ↦ inr (rw (e, p, t, d, z, o, w) (refl, λ x. cc))
                      | inr w ↦ inl (record {
                        id_valid = e;
                        positive = p;
                        timeout = t;
                        dispatch = d;
                        exists = ground arith;
                        fits = ground arith;
                        enabled = w;
                      })
                    ]
              ]
            ]
          ]
        ]
      ]
    ]

not_ltb : (a b : ℕ) → b ≤ a → ltb a b ≡ false
not_ltb a b h = ground arith

pub admitted_eq :
    (semid cnt tmout : ℤ) (k : Kernel)
    → Admits semid cnt tmout k
    → let id = to_ℕ semid in
      tk_wai_sem_u semid cnt tmout k ≡ (
        if served_at_once id (to_ℕ cnt) k
        then (e_ok, set_semcnt id ((k.semcb id).semcnt - to_ℕ cnt) k)
        else sem_wait id (to_ℕ cnt) tmout k)
unfolding tk_wai_sem_u
admitted_eq semid cnt tmout k a =
    rw
      (
        a.id_valid,
        a.positive,
        a.timeout,
        a.dispatch,
        ==_ne _ 0 a.exists,
        not_ltb (k.semcb (to_ℕ semid)).maxsem (to_ℕ cnt) a.fits,
        a.enabled,
      )
      refl

-- The count of a semaphore goes down, and nobody comes to be served by that.
pub lower-SemaphoresInv :
    (id n : ℕ) (k : Kernel)
    → n ≤ (k.semcb id).semcnt
    → SemaphoresInv k
    → SemaphoresInv (set_semcnt id n k)
lower-SemaphoresInv id n k le v = record {
  waits = set_semcnt-WaitInv id n k v.waits;
  sems = λ i.
      let s = v.sems i in
      record {
        bounded = ground (arith, s.bounded);
        head_short = heads i (k.sem_que i) s.head_short;
        all_short = λ f.
            All-map (Short k i) (Short (set_semcnt id n k) i) (k.sem_que i) (lower i)
              (s.all_short (ground arith));
      };
}
  where
    lower : (i t : ℕ) → Short k i t → Short (set_semcnt id n k) i t
    lower i t h = ground arith

    heads : (i : ℕ) (q : List ℕ) → AtHead (Short k i) q → AtHead (Short (set_semcnt id n k) i) q
    heads i [] h = tt
    heads i (t ∷ q) h = lower i t h

-- What the caller records of its wait.
abbrev pub asked : ℕ → ℕ → Kernel → Kernel
asked id cnt k =
    set_tcb k.ctxtsk
      (record (k.tcb k.ctxtsk) {
        wspec = if has (k.semcb id).sematr ta_tpri then wspec_sem_tpri else wspec_sem_tfifo;
        wercd = e_tmout;
        winfo = sem cnt;
      })
      k

pub factor : (b : Bool) → tskwait (if b then wspec_sem_tpri else wspec_sem_tfifo) ≡ ttw_sem
factor true = refl
factor false = refl

store_twice : (t : ℕ) (c c' : Tcb) (k : Kernel) → set_tcb t c' (set_tcb t c k) ≡ set_tcb t c' k
store_twice t c c' k = ap (λ (f : ℕ → Tcb). record k { tcb = f }) (fun_ext λ u. ground arith)

-- A caller whose wait is not disabled gets E_TMOUT for now, and sleeps unless it polls.
with_diswai_eq :
    (gcb : Gcb) (tmout : ℤ) (c : Tcb) (k : Kernel)
    → is_diswai gcb.objatr c (tskwait c.wspec) ≡ false
    → gcb_make_wait_with_diswai gcb tmout (set_tcb k.ctxtsk c k) ≡ (
        if is_pol tmout
        then set_tcb k.ctxtsk (record c { wercd = e_tmout }) k
        else gcb_make_wait gcb tmout (set_tcb k.ctxtsk (record c { wercd = e_tmout }) k))
unfolding gcb_make_wait_with_diswai
with_diswai_eq gcb tmout c k h =
    rw (==_self k.ctxtsk, h, store_twice k.ctxtsk c (record c { wercd = e_tmout }) k)
      (elim (Bool-cases (is_pol tmout)) [ inl e ↦ rw e refl | inr e ↦ rw e refl ])

-- What the caller of sem_wait records before it looks at its wait mask.
abbrev first_asked : ℕ → ℕ → Kernel → Tcb
first_asked id cnt k = record (k.tcb k.ctxtsk) {
  wspec = if has (k.semcb id).sematr ta_tpri then wspec_sem_tpri else wspec_sem_tfifo;
  wercd = e_ok;
  winfo = sem cnt;
}

pub sem_wait_eq :
    (id cnt : ℕ) (tmout : ℤ) (k : Kernel)
    → is_diswai (k.semcb id).sematr (k.tcb k.ctxtsk) ttw_sem ≡ false
    → (sem_wait id cnt tmout k).1 ≡ (
        if is_pol tmout
        then asked id cnt k
        else gcb_make_wait (sem_gcb id k) tmout (asked id cnt k))
unfolding sem_wait
sem_wait_eq id cnt tmout k h =
    with_diswai_eq (sem_gcb id k) tmout (first_asked id cnt k) k
      (rw (factor (has (k.semcb id).sematr ta_tpri)) h)

-- What the caller records of its wait on the semaphore, as it falls asleep.
abbrev pub recorded : ℕ → ℕ → Kernel → Kernel
recorded id cnt k =
    let k1 = asked id cnt k in set_tcb k.ctxtsk (record (k1.tcb k.ctxtsk) { wid = id }) k1

pub has_context : (k : Kernel) → in_ddsp k ≡ false → k.ctxtsk ≢ null
has_context k h = ground arith

pub recorded_ctx :
    (id cnt : ℕ) (k : Kernel)
    → (recorded id cnt k).tcb k.ctxtsk ≡ record (k.tcb k.ctxtsk) {
      wspec = if has (k.semcb id).sematr ta_tpri then wspec_sem_tpri else wspec_sem_tfifo;
      wercd = e_tmout;
      winfo = sem cnt;
      wid = id;
    }
recorded_ctx id cnt k = rw (==_self k.ctxtsk) refl

pub recorded_priority : (id cnt : ℕ) (k : Kernel) → priority_of (recorded id cnt k) ≡ priority_of k
recorded_priority id cnt k = fun_ext λ u. ground arith

-- A caller that is not served at once, and comes first or finds TA_CNT, asks for too much.
pub not_served :
    (id cnt : ℕ) (k : Kernel)
    → served_at_once id cnt k ≡ false
    → ((first_fit k id || (gcb_top_of_wait_queue (sem_gcb id k) k.ctxtsk k == k.ctxtsk)) ≡ true)
    → (k.semcb id).semcnt < cnt
not_served id cnt k h f = ground arith
