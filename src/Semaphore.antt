-- ===== src/Semaphore.antt =====
-- kernel/tkernel/src/semaphore.c. A system call takes its arguments and the kernel, and returns the
-- kernel at the end of its critical section and the error code; where the caller has to wait, the
-- code is what its cell `wercd` holds at that point.
pub mod Spec
pub mod Grant
pub mod Served
pub mod Beside
pub mod Signal
pub mod Serve
pub mod Inv
pub mod SigSem
pub mod Sleep
pub mod WaiSem
pub mod WaiInv
use open_t_kernel.Base.{
  ℕ, zero, suc, Bool, true, false, not, ◌==◌, ◌&&◌, ◌||◌, ltb, leb, if◌then◌else◌, List, [], ◌∷◌,
  ◌++◌, Option, none, some, upd, ◌+◌, ◌-◌,
}
use open_t_kernel.Base.Int.{ℤ, negsuc, to_ℕ, is_positive, is_natural, in_range}
use open_t_kernel.Kernel.{
  Kernel, Tcb, Er, ret, e_ok, e_sys, e_par, e_id, e_rsatr, e_ctx, e_noexs, e_limit, e_nomem, e_qovr,
  e_diswai, Semcb, sem, sem_cnt, wspec_sem_tfifo, wspec_sem_tpri, has, ta_tpri, ta_cnt, ttw_sem,
  not32, set_tcb, null, in_ddsp,
}
use open_t_kernel.Timer.{chk_tmout, to_usec_tmo}
use open_t_kernel.Wait.{
  Gcb, wait_release_ok, wait_delete, wait_tskid, is_diswai, set_wercd, gcb_make_wait_with_diswai,
  gcb_change_priority, gcb_top_of_wait_queue,
}

-- The numbers from `n` on, `count` of them.
unfoldable pub count_from : ℕ → ℕ → List ℕ
count_from n zero = []
count_from n (suc count) = n ∷ count_from (suc n) count

-- semaphore_initialize: `n` and `max` are what _tk_get_cfn returns and stores, and `allocated` tells
-- whether Imalloc gave a table.
unfoldable pub semaphore_initialize : ℕ → ℕ → Bool → Kernel → Er × Kernel
unfolding count_from
semaphore_initialize n max allocated k =
    let k1 = record k { max_semid = max } in
    if ltb n 1 || ltb max 1 then (e_sys, k1) else if not allocated then (e_nomem, k1) else (
      e_ok,
      record k1 { semcb = λ i. record (k.semcb i) { semid = 0 }; free_semcb = count_from 1 max },
    )

-- A SEMCB as a generic control block.
abbrev pub sem_gcb : ℕ → Kernel → Gcb
sem_gcb id k = record {
  objid = id;
  objatr = (k.semcb id).sematr;
  wait_queue = λ k'. k'.sem_que id;
  set_wait_queue = λ qs k'. record k' { sem_que = upd k'.sem_que id qs };
}

-- semcb->semcnt rewritten.
abbrev pub set_semcnt : ℕ → ℕ → Kernel → Kernel
set_semcnt id n k = record k { semcb = upd k.semcb id (record (k.semcb id) { semcnt = n }) }

-- wait_release_ok(tcb); semcb->semcnt -= tcb->winfo.sem.cnt;
unfoldable pub sem_grant : ℕ → ℕ → Kernel → Kernel
sem_grant id t k =
    let k1 = wait_release_ok t k in
    set_semcnt id ((k1.semcb id).semcnt - sem_cnt (k1.tcb t).winfo) k1

-- The loop of sem_chg_pri over the wait queue.
unfoldable pub sem_serve : ℕ → List ℕ → Kernel → Kernel
sem_serve id [] k = k
sem_serve id (top ∷ queue) k =
    let rest = sem_serve id queue (sem_grant id top k) in
    if ltb (k.semcb id).semcnt (sem_cnt (k.tcb top).winfo) then k else rest

-- sem_chg_pri
unfoldable pub sem_chg_pri : ℕ → ℤ → Kernel → Kernel
unfolding sem_serve
sem_chg_pri t oldpri k =
    let id = (k.tcb t).wid in
    let k1 = if is_natural oldpri then gcb_change_priority (sem_gcb id k) t k else k in
    if has (k.semcb id).sematr ta_cnt then k1 else sem_serve id (k1.sem_que id) k1

-- sem_rel_wai
unfoldable pub sem_rel_wai : ℕ → Kernel → Kernel
unfolding sem_chg_pri
sem_rel_wai t k = sem_chg_pri t (negsuc 0) k

-- T_CSEM
pub record Csem : Type 0 where
  pub exinf : ℕ
  pub sematr : ℕ
  pub isemcnt : ℤ
  pub maxsem : ℤ

-- TA_TPRI | TA_CNT | TA_NODISWAI | TA_DSNAME
abbrev pub valid_sematr : ℕ
valid_sematr = 0xc3

-- tk_cre_sem, but for the name
unfoldable pub tk_cre_sem : Csem → Kernel → Er × Kernel
tk_cre_sem pk k =
    if has pk.sematr (not32 valid_sematr)
    then (e_rsatr, k)
    else if not (is_natural pk.isemcnt)
    then (e_par, k)
    else if not (is_positive pk.maxsem)
    then (e_par, k)
    else if not (leb (to_ℕ pk.isemcnt) (to_ℕ pk.maxsem))
    then (e_par, k)
    else elim k.free_semcb [
      | [] ↦ (e_limit, k)
      | semid ∷ free ↦ (
        ret semid,
        record k {
          free_semcb = free;
          sem_que = upd k.sem_que semid [];
          semcb = upd k.semcb semid (record {
            semid = semid;
            exinf = pk.exinf;
            sematr = pk.sematr;
            semcnt = to_ℕ pk.isemcnt;
            maxsem = to_ℕ pk.maxsem;
          });
        },
      )
    ]

-- CHK_SEMID
abbrev pub chk_semid : ℤ → Kernel → Bool
chk_semid semid k = in_range 1 k.max_semid semid

-- tk_del_sem
unfoldable pub tk_del_sem : ℤ → Kernel → Er × Kernel
tk_del_sem semid k =
    let id = to_ℕ semid in
    if not (chk_semid semid k)
    then (e_id, k)
    else if (k.semcb id).semid == 0
    then (e_noexs, k)
    else (let k1 = wait_delete (k.sem_que id) k in
        (
          e_ok,
          record k1 {
            free_semcb = k1.free_semcb ++ id ∷ [];
            semcb = upd k1.semcb id (record (k1.semcb id) { semid = 0 });
          },
        ))

-- The loop of tk_sig_sem over the wait queue.
unfoldable pub sem_signal : ℕ → List ℕ → Kernel → Kernel
sem_signal id [] k = k
sem_signal id (t ∷ queue) k =
    let k1 = sem_grant id t k in
    let skipped = sem_signal id queue k in
    let served = sem_signal id queue k1 in
    if ltb (k.semcb id).semcnt (sem_cnt (k.tcb t).winfo)
    then (if not (has (k.semcb id).sematr ta_cnt) then k else skipped)
    else if leb (k1.semcb id).semcnt 0
    then k1
    else served

-- tk_sig_sem
unfoldable pub tk_sig_sem : ℤ → ℤ → Kernel → Er × Kernel
tk_sig_sem semid cnt k =
    let id = to_ℕ semid in
    if not (chk_semid semid k)
    then (e_id, k)
    else if not (is_positive cnt)
    then (e_par, k)
    else if (k.semcb id).semid == 0
    then (e_noexs, k)
    else if ltb ((k.semcb id).maxsem - (k.semcb id).semcnt) (to_ℕ cnt)
    then (e_qovr, k)
    else (let k1 = set_semcnt id ((k.semcb id).semcnt + to_ℕ cnt) k in
        (e_ok, sem_signal id (k1.sem_que id) k1))

-- The last `else` of tk_wai_sem_u: what the caller records of its wait, and the wait.
unfoldable pub sem_wait : ℕ → ℕ → ℤ → Kernel → Er × Kernel
sem_wait id cnt tmout k =
    let ctx = k.ctxtsk in
    let spec = if has (k.semcb id).sematr ta_tpri then wspec_sem_tpri else wspec_sem_tfifo in
    let k1 = set_tcb ctx (record (k.tcb ctx) { wspec = spec; wercd = e_ok; winfo = sem cnt }) k in
    let k2 = gcb_make_wait_with_diswai (sem_gcb id k1) tmout k1 in ((k2.tcb ctx).wercd, k2)

-- tk_wai_sem_u
unfoldable pub tk_wai_sem_u : ℤ → ℤ → ℤ → Kernel → Er × Kernel
tk_wai_sem_u semid cnt tmout k =
    let id = to_ℕ semid in
    let ctx = k.ctxtsk in
    if not (chk_semid semid k)
    then (e_id, k)
    else if not (is_positive cnt)
    then (e_par, k)
    else if not (chk_tmout tmout)
    then (e_par, k)
    else if in_ddsp k
    then (e_ctx, k)
    else if (k.semcb id).semid == 0
    then (e_noexs, k)
    else if ltb (k.semcb id).maxsem (to_ℕ cnt)
    then (e_par, k)
    else if is_diswai (k.semcb id).sematr (k.tcb ctx) ttw_sem
    then (e_diswai, k)
    else if (has (k.semcb id).sematr ta_cnt || (gcb_top_of_wait_queue (sem_gcb id k) ctx k == ctx))
        && leb (to_ℕ cnt) (k.semcb id).semcnt
    then (e_ok, set_semcnt id ((k.semcb id).semcnt - to_ℕ cnt) k)
    else sem_wait id (to_ℕ cnt) tmout k

-- tk_wai_sem
unfoldable pub tk_wai_sem : ℤ → ℤ → ℤ → Kernel → Er × Kernel
unfolding tk_wai_sem_u
tk_wai_sem semid cnt tmout k = tk_wai_sem_u semid cnt (to_usec_tmo tmout) k

-- T_RSEM
pub record Rsem : Type 0 where
  pub exinf : ℕ
  pub wtsk : ℕ
  pub semcnt : ℕ

-- tk_ref_sem; on an error the packet is not written
unfoldable pub tk_ref_sem : ℤ → Kernel → Er × Option Rsem
tk_ref_sem semid k =
    let id = to_ℕ semid in
    if not (chk_semid semid k)
    then (e_id, none)
    else if (k.semcb id).semid == 0
    then (e_noexs, none)
    else (
      e_ok,
      some (record {
        exinf = (k.semcb id).exinf;
        wtsk = wait_tskid (k.sem_que id);
        semcnt = (k.semcb id).semcnt;
      }),
    )
