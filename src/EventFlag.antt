-- ===== src/EventFlag.antt =====
-- kernel/tkernel/src/eventflag.c. Results as in `Semaphore`; the pattern that a waiting task is given
-- is in its cell `flgptn`, and a call that does not wait returns it.
pub mod Cond
pub mod Release
pub mod Signal
pub mod Inv
use Prim.Native.Nat.{bit_and, bit_or}
use open_t_kernel.Base.{
  ℕ, Bool, true, false, not, ◌==◌, ◌&&◌, ◌||◌, ltb, if◌then◌else◌, List, [], ◌∷◌, ◌++◌, Option,
  none, some, upd,
}
use open_t_kernel.Base.Int.{ℤ, to_ℕ, in_range}
use open_t_kernel.Kernel.{
  Kernel, Tcb, Er, ret, e_ok, e_sys, e_par, e_id, e_rsatr, e_ctx, e_obj, e_noexs, e_limit, e_nomem,
  e_diswai, Flgcb, flg, flg_waiptn, flg_wfmode, wspec_flg_tfifo, wspec_flg_tpri, has, ta_tpri,
  ta_wmul, ttw_flg, not32, set_tcb, in_ddsp,
}
use open_t_kernel.ReadyQueue.{is_nil}
use open_t_kernel.Timer.{chk_tmout, to_usec_tmo}
use open_t_kernel.Wait.{
  Gcb, wait_release_ok, wait_delete, wait_tskid, is_diswai, gcb_make_wait_with_diswai,
  gcb_change_priority,
}
use open_t_kernel.Semaphore.{count_from}

-- Wait modes: TWF_ORW, TWF_CLR, TWF_BITCLR.
abbrev pub twf_orw : ℕ
twf_orw = 0x1

abbrev pub twf_clr : ℕ
twf_clr = 0x10

abbrev pub twf_bitclr : ℕ
twf_bitclr = 0x20

-- eventflag_initialize, with its parameters as those of semaphore_initialize
unfoldable pub eventflag_initialize : ℕ → ℕ → Bool → Kernel → Er × Kernel
eventflag_initialize n max allocated k =
    let k1 = record k { max_flgid = max } in
    if ltb n 1 || ltb max 1 then (e_sys, k1) else if not allocated then (e_nomem, k1) else (
      e_ok,
      record k1 { flgcb = λ i. record (k.flgcb i) { flgid = 0 }; free_flgcb = count_from 1 max },
    )

-- eventflag_cond, on the pattern of the flag
unfoldable pub eventflag_cond : ℕ → ℕ → ℕ → Bool
eventflag_cond flgptn waiptn wfmode =
    if has wfmode twf_orw then has flgptn waiptn else bit_and flgptn waiptn == waiptn

-- An FLGCB as a generic control block.
abbrev pub flg_gcb : ℕ → Kernel → Gcb
flg_gcb id k = record {
  objid = id;
  objatr = (k.flgcb id).flgatr;
  wait_queue = λ k'. k'.flg_que id;
  set_wait_queue = λ qs k'. record k' { flg_que = upd k'.flg_que id qs };
}

-- flgcb->flgptn rewritten.
abbrev pub set_flgptn : ℕ → ℕ → Kernel → Kernel
set_flgptn id n k = record k { flgcb = upd k.flgcb id (record (k.flgcb id) { flgptn = n }) }

-- flg_chg_pri
unfoldable pub flg_chg_pri : ℕ → ℤ → Kernel → Kernel
flg_chg_pri t oldpri k = gcb_change_priority (flg_gcb (k.tcb t).wid k) t k

-- T_CFLG
pub record Cflg : Type 0 where
  pub exinf : ℕ
  pub flgatr : ℕ
  pub iflgptn : ℕ

-- TA_TPRI | TA_WMUL | TA_NODISWAI | TA_DSNAME
abbrev pub valid_flgatr : ℕ
valid_flgatr = 0xc9

-- tk_cre_flg, but for the name
unfoldable pub tk_cre_flg : Cflg → Kernel → Er × Kernel
tk_cre_flg pk k = if has pk.flgatr (not32 valid_flgatr) then (e_rsatr, k) else elim k.free_flgcb [
  | [] ↦ (e_limit, k)
  | flgid ∷ free ↦ (
    ret flgid,
    record k {
      free_flgcb = free;
      flg_que = upd k.flg_que flgid [];
      flgcb =
          upd k.flgcb flgid
            (record { flgid = flgid; exinf = pk.exinf; flgatr = pk.flgatr; flgptn = pk.iflgptn });
    },
  )
]

-- CHK_FLGID
abbrev pub chk_flgid : ℤ → Kernel → Bool
chk_flgid flgid k = in_range 1 k.max_flgid flgid

-- tk_del_flg
unfoldable pub tk_del_flg : ℤ → Kernel → Er × Kernel
tk_del_flg flgid k =
    let id = to_ℕ flgid in
    if not (chk_flgid flgid k)
    then (e_id, k)
    else if (k.flgcb id).flgid == 0
    then (e_noexs, k)
    else (let k1 = wait_delete (k.flg_que id) k in
        (
          e_ok,
          record k1 {
            free_flgcb = k1.free_flgcb ++ id ∷ [];
            flgcb = upd k1.flgcb id (record (k1.flgcb id) { flgid = 0 });
          },
        ))

-- *tcb->winfo.flg.p_flgptn = flgcb->flgptn; wait_release_ok(tcb);
unfoldable pub flg_release : ℕ → ℕ → Kernel → Kernel
flg_release id t k =
    wait_release_ok t (set_tcb t (record (k.tcb t) { flgptn = (k.flgcb id).flgptn }) k)

-- The loop of tk_set_flg over the wait queue.
unfoldable pub flg_signal : ℕ → List ℕ → Kernel → Kernel
flg_signal id [] k = k
flg_signal id (t ∷ queue) k =
    let waiptn = flg_waiptn (k.tcb t).winfo in
    let wfmode = flg_wfmode (k.tcb t).winfo in
    let k1 = flg_release id t k in
    let cleared = bit_and (k1.flgcb id).flgptn (not32 waiptn) in
    let k2 = if has wfmode twf_bitclr then set_flgptn id cleared k1 else k1 in
    let skipped = flg_signal id queue k in
    let served = flg_signal id queue k2 in
    if eventflag_cond (k.flgcb id).flgptn waiptn wfmode
    then (if has wfmode twf_bitclr && cleared == 0
        then k2
        else if has wfmode twf_clr
        then set_flgptn id 0 k2
        else served)
    else skipped

-- tk_set_flg
unfoldable pub tk_set_flg : ℤ → ℕ → Kernel → Er × Kernel
tk_set_flg flgid setptn k =
    let id = to_ℕ flgid in
    if not (chk_flgid flgid k)
    then (e_id, k)
    else if (k.flgcb id).flgid == 0
    then (e_noexs, k)
    else (let k1 = set_flgptn id (bit_or (k.flgcb id).flgptn setptn) k in
        (e_ok, flg_signal id (k1.flg_que id) k1))

-- tk_clr_flg
unfoldable pub tk_clr_flg : ℤ → ℕ → Kernel → Er × Kernel
tk_clr_flg flgid clrptn k =
    let id = to_ℕ flgid in
    if not (chk_flgid flgid k)
    then (e_id, k)
    else if (k.flgcb id).flgid == 0
    then (e_noexs, k)
    else (e_ok, set_flgptn id (bit_and (k.flgcb id).flgptn clrptn) k)

-- The last `else` of tk_wai_flg_u: what the caller records of its wait, and the wait.
unfoldable pub flg_wait : ℕ → ℕ → ℕ → ℤ → Kernel → Er × Kernel
flg_wait id waiptn wfmode tmout k =
    let ctx = k.ctxtsk in
    let spec = if has (k.flgcb id).flgatr ta_tpri then wspec_flg_tpri else wspec_flg_tfifo in
    let k1 =
      set_tcb ctx (record (k.tcb ctx) { wspec = spec; wercd = e_ok; winfo = flg waiptn wfmode })
        k in
    let k2 = gcb_make_wait_with_diswai (flg_gcb id k1) tmout k1 in ((k2.tcb ctx).wercd, k2)

-- tk_wai_flg_u: the code, the pattern where it is known, and the kernel.
unfoldable pub tk_wai_flg_u : ℤ → ℕ → ℕ → ℤ → Kernel → Er × Option ℕ × Kernel
tk_wai_flg_u flgid waiptn wfmode tmout k =
    let id = to_ℕ flgid in
    let flgptn = (k.flgcb id).flgptn in
    let k1 = if has wfmode twf_bitclr then set_flgptn id (bit_and flgptn (not32 waiptn)) k else k in
    let k2 = if has wfmode twf_clr then set_flgptn id 0 k1 else k1 in
    let (ercd, k3) = flg_wait id waiptn wfmode tmout k in
    if not (chk_flgid flgid k)
    then (e_id, none, k)
    else if waiptn == 0
    then (e_par, none, k)
    else if has wfmode (not32 0x31)
    then (e_par, none, k)
    else if not (chk_tmout tmout)
    then (e_par, none, k)
    else if in_ddsp k
    then (e_ctx, none, k)
    else if (k.flgcb id).flgid == 0
    then (e_noexs, none, k)
    else if not (has (k.flgcb id).flgatr ta_wmul) && not (is_nil (k.flg_que id))
    then (e_obj, none, k)
    else if is_diswai (k.flgcb id).flgatr (k.tcb k.ctxtsk) ttw_flg
    then (e_diswai, none, k)
    else if eventflag_cond flgptn waiptn wfmode
    then (e_ok, some flgptn, k2)
    else (ercd, none, k3)

-- tk_wai_flg
unfoldable pub tk_wai_flg : ℤ → ℕ → ℕ → ℤ → Kernel → Er × Option ℕ × Kernel
tk_wai_flg flgid waiptn wfmode tmout k = tk_wai_flg_u flgid waiptn wfmode (to_usec_tmo tmout) k

-- T_RFLG
pub record Rflg : Type 0 where
  pub exinf : ℕ
  pub wtsk : ℕ
  pub flgptn : ℕ

-- tk_ref_flg; on an error the packet is not written
unfoldable pub tk_ref_flg : ℤ → Kernel → Er × Option Rflg
tk_ref_flg flgid k =
    let id = to_ℕ flgid in
    if not (chk_flgid flgid k)
    then (e_id, none)
    else if (k.flgcb id).flgid == 0
    then (e_noexs, none)
    else (
      e_ok,
      some (record {
        exinf = (k.flgcb id).exinf;
        wtsk = wait_tskid (k.flg_que id);
        flgptn = (k.flgcb id).flgptn;
      }),
    )
