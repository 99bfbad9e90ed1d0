-- ===== src/TaskSync.antt =====
-- kernel/tkernel/src/task_sync.c: suspension, sleep and task events. Results as in `Semaphore`; a task
-- that sleeps is on no wait queue.
pub mod Inv
pub mod Resume
pub mod Suspend
pub mod History
use Prim.Native.Nat.{bit_and, bit_or}
use open_t_kernel.Base.{
  ℕ, Bool, true, false, not, ◌==◌, ◌&&◌, ◌||◌, ltb, leb, if◌then◌else◌, ◌+◌, ◌-◌, ◌*◌, ◌^◌,
}
use open_t_kernel.Base.Int.{ℤ, pos, negsuc, to_ℕ, in_range}
use open_t_kernel.Kernel.{
  Kernel, Tcb, Tstat, nonexist, ready, wait, suspend, waitsus, dormant, has_wait, task_alive, Er,
  ret, e_ok, e_par, e_id, e_ctx, e_obj, e_noexs, e_qovr, e_tmout, e_diswai, Wspec, wspec_slp,
  wspec_tev, tskwait, has, set_tcb, in_indp, in_ddsp, not32,
}
use open_t_kernel.Task.{make_ready, make_non_ready}
use open_t_kernel.Timer.{chk_tmout, is_pol, to_usec_tmo}
use open_t_kernel.Wait.{make_wait, set_wercd, wait_release_ok, wait_release_ok_ercd}

-- INT_MAX
abbrev pub int_max : ℕ
int_max = 2 ^ 31 - 1

abbrev pub is_zero : ℤ → Bool
is_zero (pos n) = n == 0
is_zero (negsuc n) = false

-- CHK_TSKID
abbrev pub chk_tskid : ℤ → Kernel → Bool
chk_tskid tskid k = in_range 1 k.max_tskid tskid

-- CHECK_TSKID and then CHECK_NONSELF: the code of the call where they do not pass
unfoldable pub check_other : ℤ → Kernel → Er
check_other tskid k =
    if not (in_indp k) && is_zero tskid
    then e_obj
    else if not (chk_tskid tskid k)
    then e_id
    else if not (in_indp k) && (to_ℕ tskid == k.ctxtsk)
    then e_obj
    else e_ok

-- CHECK_TSKID_SELF
abbrev pub check_self : ℤ → Kernel → Bool
check_self tskid k = (not (in_indp k) && is_zero tskid) || chk_tskid tskid k

-- get_tcb_self
abbrev pub get_tcb_self : ℤ → Kernel → ℕ
get_tcb_self tskid k = if is_zero tskid then k.ctxtsk else to_ℕ tskid

abbrev pub passes : Er → Bool
passes (ret n) = true
passes e = false

-- state == TS_NONEXIST ? E_NOEXS : E_OBJ
abbrev pub not_alive : Tstat → Er
not_alive nonexist = e_noexs
not_alive s = e_obj

-- The move to the forced wait state, by the state before.
unfoldable pub suspend_as : Tstat → ℕ → Kernel → Kernel
suspend_as ready t k =
    let k1 = make_non_ready t k in set_tcb t (record (k1.tcb t) { state = suspend }) k1
suspend_as wait t k = set_tcb t (record (k.tcb t) { state = waitsus }) k
suspend_as s t k = k

-- tk_sus_tsk; DDS_DISABLE is 2
unfoldable pub tk_sus_tsk : ℤ → Kernel → Er × Kernel
unfolding suspend_as
tk_sus_tsk tskid k =
    let t = to_ℕ tskid in
    let state = (k.tcb t).state in
    if not (passes (check_other tskid k))
    then (check_other tskid k, k)
    else if not (task_alive state)
    then (not_alive state, k)
    else if (t == k.ctxtsk) && leb 2 k.dispatch_disabled
    then (e_ctx, k)
    else if (k.tcb t).suscnt == int_max
    then (e_qovr, k)
    else (
      e_ok,
      suspend_as state t (set_tcb t (record (k.tcb t) { suscnt = (k.tcb t).suscnt + 1 }) k),
    )

-- The switch of tk_rsm_tsk; the count of a suspended task is at least 1.
unfoldable pub resume_as : Tstat → ℕ → Kernel → Er × Kernel
resume_as nonexist t k = (e_noexs, k)
resume_as dormant t k = (e_obj, k)
resume_as ready t k = (e_obj, k)
resume_as wait t k = (e_obj, k)
resume_as suspend t k =
    let n = (k.tcb t).suscnt - 1 in
    let k1 = set_tcb t (record (k.tcb t) { suscnt = n }) k in
    (e_ok, (if (k.tcb t).suscnt == 1 then make_ready t k1 else k1))
resume_as waitsus t k =
    let n = (k.tcb t).suscnt - 1 in
    let k1 = set_tcb t (record (k.tcb t) { suscnt = n }) k in
    (
      e_ok,
      (if (k.tcb t).suscnt == 1 then set_tcb t (record (k1.tcb t) { state = wait }) k1 else k1),
    )

-- tk_rsm_tsk
unfoldable pub tk_rsm_tsk : ℤ → Kernel → Er × Kernel
tk_rsm_tsk tskid k =
    let t = to_ℕ tskid in
    if not (passes (check_other tskid k))
    then (check_other tskid k, k)
    else resume_as (k.tcb t).state t k

-- The switch of tk_frsm_tsk.
unfoldable pub force_resume_as : Tstat → ℕ → Kernel → Er × Kernel
force_resume_as nonexist t k = (e_noexs, k)
force_resume_as dormant t k = (e_obj, k)
force_resume_as ready t k = (e_obj, k)
force_resume_as wait t k = (e_obj, k)
force_resume_as suspend t k = (e_ok, make_ready t (set_tcb t (record (k.tcb t) { suscnt = 0 }) k))
force_resume_as waitsus t k = (e_ok, set_tcb t (record (k.tcb t) { suscnt = 0; state = wait }) k)

-- tk_frsm_tsk
unfoldable pub tk_frsm_tsk : ℤ → Kernel → Er × Kernel
tk_frsm_tsk tskid k =
    let t = to_ℕ tskid in
    if not (passes (check_other tskid k))
    then (check_other tskid k, k)
    else force_resume_as (k.tcb t).state t k

-- What tk_slp_tsk_u and tk_wai_tev_u do where the caller has to wait: E_TMOUT, and sleep unless it
-- polls.
unfoldable pub sleep_on : Wspec → ℤ → Kernel → Er × Kernel
sleep_on spec tmout k =
    let ctx = k.ctxtsk in
    if not (is_pol tmout)
    then (
      e_tmout,
      make_wait tmout 0
          (set_tcb ctx (record (k.tcb ctx) { wspec = spec; wid = 0; wercd = e_tmout }) k),
    )
    else (e_tmout, k)

-- tk_slp_tsk_u
unfoldable pub tk_slp_tsk_u : ℤ → Kernel → Er × Kernel
tk_slp_tsk_u tmout k =
    let ctx = k.ctxtsk in
    if not (chk_tmout tmout)
    then (e_par, k)
    else if in_ddsp k
    then (e_ctx, k)
    else if has (k.tcb ctx).waitmask (tskwait wspec_slp)
    then (e_diswai, k)
    else if ltb 0 (k.tcb ctx).wupcnt
    then (e_ok, set_tcb ctx (record (k.tcb ctx) { wupcnt = (k.tcb ctx).wupcnt - 1 }) k)
    else sleep_on wspec_slp tmout k

-- tk_slp_tsk
unfoldable pub tk_slp_tsk : ℤ → Kernel → Er × Kernel
tk_slp_tsk tmout k = tk_slp_tsk_u (to_usec_tmo tmout) k

-- tcb->wspec == &wspec_slp
abbrev pub is_slp : Wspec → Bool
is_slp wspec_slp = true
is_slp s = false

-- tk_wup_tsk
unfoldable pub tk_wup_tsk : ℤ → Kernel → Er × Kernel
tk_wup_tsk tskid k =
    let t = to_ℕ tskid in
    let state = (k.tcb t).state in
    if not (passes (check_other tskid k))
    then (check_other tskid k, k)
    else if not (task_alive state)
    then (not_alive state, k)
    else if has_wait state && is_slp (k.tcb t).wspec
    then (e_ok, wait_release_ok t k)
    else if (k.tcb t).wupcnt == int_max
    then (e_qovr, k)
    else (e_ok, set_tcb t (record (k.tcb t) { wupcnt = (k.tcb t).wupcnt + 1 }) k)

-- The switch of tk_can_wup.
unfoldable pub cancel_as : Tstat → ℕ → Kernel → Er × Kernel
cancel_as nonexist t k = (e_noexs, k)
cancel_as dormant t k = (e_obj, k)
cancel_as s t k = (ret (k.tcb t).wupcnt, set_tcb t (record (k.tcb t) { wupcnt = 0 }) k)

-- tk_can_wup
unfoldable pub tk_can_wup : ℤ → Kernel → Er × Kernel
tk_can_wup tskid k =
    let t = get_tcb_self tskid k in
    if not (check_self tskid k) then (e_id, k) else cancel_as (k.tcb t).state t k

-- toTTW
abbrev pub to_ttw : ℕ → ℕ
to_ttw evtmask = evtmask * 2 ^ 16

-- CHECK_PAR on the pattern of tk_wai_tev: some of the lowest 8 bits, and no other
abbrev pub chk_tevptn : ℤ → Bool
chk_tevptn (pos n) = ltb 0 n && leb n 0xff
chk_tevptn (negsuc n) = false

-- tk_wai_tev_u
unfoldable pub tk_wai_tev_u : ℤ → ℤ → Kernel → Er × Kernel
tk_wai_tev_u waiptn tmout k =
    let ctx = k.ctxtsk in
    let ptn = to_ℕ waiptn in
    if not (chk_tmout tmout)
    then (e_par, k)
    else if not (chk_tevptn waiptn)
    then (e_par, k)
    else if in_ddsp k
    then (e_ctx, k)
    else if has (k.tcb ctx).waitmask (to_ttw ptn)
    then (e_diswai, k)
    else if has (k.tcb ctx).tskevt ptn
    then (
      ret (k.tcb ctx).tskevt,
      set_tcb ctx (record (k.tcb ctx) { tskevt = bit_and (k.tcb ctx).tskevt (not32 ptn) }) k,
    )
    else sleep_on (wspec_tev (to_ttw ptn)) tmout k

-- tk_wai_tev
unfoldable pub tk_wai_tev : ℤ → ℤ → Kernel → Er × Kernel
tk_wai_tev waiptn tmout k = tk_wai_tev_u waiptn (to_usec_tmo tmout) k

-- tk_sig_tev
unfoldable pub tk_sig_tev : ℤ → ℤ → Kernel → Er × Kernel
tk_sig_tev tskid tskevt k =
    let t = get_tcb_self tskid k in
    let state = (k.tcb t).state in
    let evtmsk = 2 ^ (to_ℕ tskevt - 1) in
    let events = bit_or (k.tcb t).tskevt evtmsk in
    if not (check_self tskid k)
    then (e_id, k)
    else if not (in_range 1 8 tskevt)
    then (e_par, k)
    else if not (task_alive state)
    then (not_alive state, k)
    else if has_wait state && has (tskwait (k.tcb t).wspec) (to_ttw evtmsk)
    then (e_ok, wait_release_ok_ercd t (ret events) k)
    else (e_ok, set_tcb t (record (k.tcb t) { tskevt = events }) k)
