-- ===== src/Cyclic.antt =====
-- kernel/tkernel/src/time_calls.c: cyclic handlers. `user` stands for the handlers of applications: what
-- a call of the handler at an address, with its `exinf`, does to the kernel.
pub mod Next
use open_t_kernel.Base.{
  ℕ, Bool, true, false, not, ◌==◌, ◌||◌, ltb, if◌then◌else◌, List, [], ◌∷◌, ◌++◌, Option, none,
  some, upd, ◌+◌, ◌*◌, ◌/◌, ◌%◌, ◌^◌,
}
use Prim.Native.Nat.{bit_or, bit_and}
use open_t_kernel.Base.Int.{ℤ, to_ℕ, in_range}
use open_t_kernel.Kernel.{
  Kernel, Cyccb, Er, ret, e_ok, e_sys, e_par, e_id, e_rsatr, e_noexs, e_limit, e_nomem, has,
  ta_dsname, not32, cyctmeb,
}
use open_t_kernel.Timer.{ll_add, ll_sub, ll_gt, timer_insert_abs, timer_delete}
use open_t_kernel.Semaphore.{count_from}

-- CallUserHandlerP1, on the address of the handler and its `exinf`.
abbrev pub User : Type 0
User = ℕ → ℕ → Kernel → Kernel

-- A field of a control block rewritten.
abbrev pub set_cyccb : ℕ → Cyccb → Kernel → Kernel
set_cyccb id c k = record k { cyccb = upd k.cyccb id c }

-- TCYC_STA
abbrev pub tcyc_sta : ℕ
tcyc_sta = 1

-- TA_STA
abbrev pub ta_sta : ℕ
ta_sta = 2

-- TA_PHS
abbrev pub ta_phs : ℕ
ta_phs = 4

-- TA_HLNG | TA_STA | TA_PHS | TA_DSNAME; TA_GP is 0 here.
abbrev pub valid_cycatr : ℕ
valid_cycatr = 0x47

-- cyclichandler_initialize, as semaphore_initialize
unfoldable pub cyclichandler_initialize : ℕ → ℕ → Bool → Kernel → Er × Kernel
unfolding count_from
cyclichandler_initialize n max allocated k =
    let k1 = record k { max_cycid = max } in
    if ltb n 1 || ltb max 1 then (e_sys, k1) else if not allocated then (e_nomem, k1) else (
      e_ok,
      record k1 { cyccb = λ i. record (k.cyccb i) { cychdr = 0 }; free_cyccb = count_from 1 max },
    )

-- cyc_next_time
unfoldable pub cyc_next_time : Cyccb → ℕ → ℕ
cyc_next_time c current_time =
    let tm = ll_add c.time c.cyctim in
    if not (ll_gt tm current_time)
    then (let n = (ll_sub current_time c.time / c.cyctim + 1) % 2 ^ 64 in
        ll_add c.time (n * c.cyctim % 2 ^ 64))
    else tm

-- cyc_timer_insert: timer_insert_abs stores the time in the block.
unfoldable pub cyc_timer_insert : ℕ → ℕ → Kernel → Kernel
cyc_timer_insert id tm k =
    timer_insert_abs (cyctmeb id) tm (set_cyccb id (record (k.cyccb id) { time = tm }) k)

-- call_cychdr, and immediate_call_cychdr with the flag of the task-independent part
unfoldable pub call_cychdr : User → ℕ → Kernel → Kernel
call_cychdr user id k =
    let k1 = cyc_timer_insert id (cyc_next_time (k.cyccb id) k.current_time) k in
    user (k1.cyccb id).cychdr (k1.cyccb id).exinf k1

unfoldable pub immediate_call_cychdr : User → ℕ → Kernel → Kernel
immediate_call_cychdr user id k =
    let k1 = cyc_timer_insert id (cyc_next_time (k.cyccb id) k.current_time) k in
    let k2 = record k1 { task_independent = true } in
    record (user (k2.cyccb id).cychdr (k2.cyccb id).exinf k2) {
      task_independent = k.task_independent;
    }

-- T_CCYC_U
pub record Ccyc : Type 0 where
  pub exinf : ℕ
  pub cycatr : ℕ
  pub cychdr : ℕ
  pub cyctim_u : ℕ
  pub cycphs_u : ℕ

-- tk_cre_cyc_u, but for the name
unfoldable pub tk_cre_cyc_u : User → Ccyc → Kernel → Er × Kernel
tk_cre_cyc_u user pk k =
    if has pk.cycatr (not32 valid_cycatr)
    then (e_rsatr, k)
    else if pk.cychdr == 0
    then (e_par, k)
    else if not (ltb 0 pk.cyctim_u)
    then (e_par, k)
    else elim k.free_cyccb [
      | [] ↦ (e_limit, k)
      | id ∷ free ↦
          let tm = ll_add (ll_add k.current_time pk.cycphs_u) k.hw_timer_usec in
          let c : Cyccb = record {
            exinf = pk.exinf;
            cycatr = pk.cycatr;
            cychdr = pk.cychdr;
            cycstat = if has pk.cycatr ta_sta then tcyc_sta else 0;
            cyctim = pk.cyctim_u;
            time =
                if has pk.cycatr ta_sta
                then (if pk.cycphs_u == 0 then tm else (k.cyccb id).time)
                else tm;
          } in
          let k1 = set_cyccb id c (record k { free_cyccb = free }) in
          (
            ret id,
            if has pk.cycatr ta_sta
                then (if pk.cycphs_u == 0
                    then immediate_call_cychdr user id k1
                    else cyc_timer_insert id tm k1)
                else k1,
          )
    ]

-- T_CCYC, with its times in milliseconds
pub record CcycMsec : Type 0 where
  pub exinf : ℕ
  pub cycatr : ℕ
  pub cychdr : ℕ
  pub cyctim : ℕ
  pub cycphs : ℕ

-- tk_cre_cyc
unfoldable pub tk_cre_cyc : User → CcycMsec → Kernel → Er × Kernel
tk_cre_cyc user pk k =
    let lccyc : Ccyc = record {
      exinf = pk.exinf;
      cycatr = pk.cycatr;
      cychdr = pk.cychdr;
      cyctim_u = pk.cyctim * 1000;
      cycphs_u = pk.cycphs * 1000;
    } in
    tk_cre_cyc_u user lccyc k

-- CHK_CYCID
abbrev pub chk_cycid : ℤ → Kernel → Bool
chk_cycid cycid k = in_range 1 k.max_cycid cycid

-- timer_delete of the block of a handler that is in operation
abbrev pub cyc_stop : ℕ → Kernel → Kernel
cyc_stop id k = if has (k.cyccb id).cycstat tcyc_sta then timer_delete (cyctmeb id) k else k

-- tk_del_cyc; QueInsert puts the block at the end of the free queue
unfoldable pub tk_del_cyc : ℤ → Kernel → Er × Kernel
tk_del_cyc cycid k =
    let id = to_ℕ cycid in
    if not (chk_cycid cycid k)
    then (e_id, k)
    else if (k.cyccb id).cychdr == 0
    then (e_noexs, k)
    else (let k1 = cyc_stop id k in
        (
          e_ok,
          set_cyccb id (record (k1.cyccb id) { cychdr = 0 })
              (record k1 { free_cyccb = k1.free_cyccb ++ id ∷ [] }),
        ))

-- The time at which tk_sta_cyc starts a handler that keeps its phase.
abbrev pub cyc_phase_time : Cyccb → ℕ → ℕ
cyc_phase_time c current_time =
    if not (ll_gt c.time current_time) then cyc_next_time c current_time else c.time

-- tk_sta_cyc
unfoldable pub tk_sta_cyc : ℤ → Kernel → Er × Kernel
tk_sta_cyc cycid k =
    let id = to_ℕ cycid in
    let c = k.cyccb id in
    if not (chk_cycid cycid k)
    then (e_id, k)
    else if c.cychdr == 0
    then (e_noexs, k)
    else (let k1 =
          if has c.cycatr ta_phs
          then (if not (has c.cycstat tcyc_sta)
              then cyc_timer_insert id (cyc_phase_time c k.current_time) k
              else k)
          else cyc_timer_insert id (ll_add (ll_add k.current_time c.cyctim) k.hw_timer_usec)
              (cyc_stop id k) in
        (
          e_ok,
          set_cyccb id (record (k1.cyccb id) { cycstat = bit_or (k1.cyccb id).cycstat tcyc_sta })
              k1,
        ))

-- tk_stp_cyc
unfoldable pub tk_stp_cyc : ℤ → Kernel → Er × Kernel
tk_stp_cyc cycid k =
    let id = to_ℕ cycid in
    if not (chk_cycid cycid k)
    then (e_id, k)
    else if (k.cyccb id).cychdr == 0
    then (e_noexs, k)
    else (let k1 = cyc_stop id k in
        (
          e_ok,
          set_cyccb id
              (record (k1.cyccb id) { cycstat = bit_and (k1.cyccb id).cycstat (not32 tcyc_sta) })
              k1,
        ))

-- T_RCYC_U
pub record Rcyc : Type 0 where
  pub exinf : ℕ
  pub lfttim_u : ℕ
  pub cycstat : ℕ

-- What is left until a time, less what the hardware timer shows, or 0.
abbrev pub left_time : ℕ → Kernel → ℕ
left_time time k =
    let tm = ll_sub (ll_sub time k.current_time) k.hw_timer_usec in
    if ltb tm (2 ^ 63) then tm else 0

-- tk_ref_cyc_u
unfoldable pub tk_ref_cyc_u : ℤ → Kernel → Er × Option Rcyc
tk_ref_cyc_u cycid k =
    let c = k.cyccb (to_ℕ cycid) in
    if not (chk_cycid cycid k)
    then (e_id, none)
    else if c.cychdr == 0
    then (e_noexs, none)
    else (let tm =
          if not (has c.cycstat tcyc_sta) then cyc_phase_time c k.current_time else c.time in
        (e_ok, some (record { exinf = c.exinf; lfttim_u = left_time tm k; cycstat = c.cycstat })))
