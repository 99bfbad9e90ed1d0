-- ===== src/Alarm.antt =====
-- kernel/tkernel/src/time_calls.c: alarm handlers.
use Prim.Native.Nat.{bit_or, bit_and}
use open_t_kernel.Base.{
  ℕ, Bool, true, not, ◌==◌, ◌||◌, ltb, if◌then◌else◌, [], ◌∷◌, ◌++◌, Option, none, some, upd, ◌*◌,
}
use open_t_kernel.Base.Int.{ℤ, to_ℕ, in_range}
use open_t_kernel.Kernel.{
  Kernel, Almcb, Er, ret, e_ok, e_sys, e_par, e_id, e_rsatr, e_noexs, e_limit, e_nomem, has, not32,
  almtmeb,
}
use open_t_kernel.Timer.{ll_add, timer_insert_abs, timer_delete}
use open_t_kernel.Semaphore.{count_from}
use open_t_kernel.Cyclic.{User, left_time}

-- A field of a control block rewritten.
abbrev pub set_almcb : ℕ → Almcb → Kernel → Kernel
set_almcb id c k = record k { almcb = upd k.almcb id c }

-- TALM_STA
abbrev pub talm_sta : ℕ
talm_sta = 1

-- TA_HLNG | TA_DSNAME; TA_GP is 0 here.
abbrev pub valid_almatr : ℕ
valid_almatr = 0x41

-- alarmhandler_initialize
unfoldable pub alarmhandler_initialize : ℕ → ℕ → Bool → Kernel → Er × Kernel
unfolding count_from
alarmhandler_initialize n max allocated k =
    let k1 = record k { max_almid = max } in
    if ltb n 1 || ltb max 1 then (e_sys, k1) else if not allocated then (e_nomem, k1) else (
      e_ok,
      record k1 { almcb = λ i. record (k.almcb i) { almhdr = 0 }; free_almcb = count_from 1 max },
    )

-- almcb->almstat &= ~TALM_STA;
abbrev pub alm_stopped : ℕ → Kernel → Kernel
alm_stopped id k =
    set_almcb id (record (k.almcb id) { almstat = bit_and (k.almcb id).almstat (not32 talm_sta) }) k

-- call_almhdr
unfoldable pub call_almhdr : User → ℕ → Kernel → Kernel
call_almhdr user id k =
    let k1 = alm_stopped id k in user (k1.almcb id).almhdr (k1.almcb id).exinf k1

-- immediate_call_almhdr
unfoldable pub immediate_call_almhdr : User → ℕ → Kernel → Kernel
immediate_call_almhdr user id k =
    let k1 = record (alm_stopped id k) { task_independent = true } in
    record (user (k1.almcb id).almhdr (k1.almcb id).exinf k1) {
      task_independent = k.task_independent;
    }

-- alm_timer_insert
unfoldable pub alm_timer_insert : ℕ → ℕ → Kernel → Kernel
alm_timer_insert id reltim k =
    let tm = ll_add (ll_add k.current_time reltim) k.hw_timer_usec in
    timer_insert_abs (almtmeb id) tm (set_almcb id (record (k.almcb id) { time = tm }) k)

-- T_CALM
pub record Calm : Type 0 where
  pub exinf : ℕ
  pub almatr : ℕ
  pub almhdr : ℕ

-- tk_cre_alm, but for the name
unfoldable pub tk_cre_alm : Calm → Kernel → Er × Kernel
tk_cre_alm pk k =
    if has pk.almatr (not32 valid_almatr)
    then (e_rsatr, k)
    else if pk.almhdr == 0
    then (e_par, k)
    else elim k.free_almcb [
      | [] ↦ (e_limit, k)
      | id ∷ free ↦
          let c : Almcb = record {
            exinf = pk.exinf;
            almatr = pk.almatr;
            almhdr = pk.almhdr;
            almstat = 0;
            time = (k.almcb id).time;
          } in
          (ret id, set_almcb id c (record k { free_almcb = free }))
    ]

-- CHK_ALMID
abbrev pub chk_almid : ℤ → Kernel → Bool
chk_almid almid k = in_range 1 k.max_almid almid

-- timer_delete of the block of a handler that is in operation
abbrev pub alm_stop : ℕ → Kernel → Kernel
alm_stop id k = if has (k.almcb id).almstat talm_sta then timer_delete (almtmeb id) k else k

-- tk_del_alm
unfoldable pub tk_del_alm : ℤ → Kernel → Er × Kernel
tk_del_alm almid k =
    let id = to_ℕ almid in
    if not (chk_almid almid k)
    then (e_id, k)
    else if (k.almcb id).almhdr == 0
    then (e_noexs, k)
    else (let k1 = alm_stop id k in
        (
          e_ok,
          set_almcb id (record (k1.almcb id) { almhdr = 0 })
              (record k1 { free_almcb = k1.free_almcb ++ id ∷ [] }),
        ))

-- tk_sta_alm_u
unfoldable pub tk_sta_alm_u : User → ℤ → ℕ → Kernel → Er × Kernel
tk_sta_alm_u user almid almtim k =
    let id = to_ℕ almid in
    if not (chk_almid almid k)
    then (e_id, k)
    else if (k.almcb id).almhdr == 0
    then (e_noexs, k)
    else (let k1 = alm_stop id k in
        if ltb 0 almtim
        then (let k2 = alm_timer_insert id almtim k1 in
            (
              e_ok,
              set_almcb id
                  (record (k2.almcb id) { almstat = bit_or (k2.almcb id).almstat talm_sta }) k2,
            ))
        else (e_ok, immediate_call_almhdr user id k1))

-- tk_sta_alm
unfoldable pub tk_sta_alm : User → ℤ → ℕ → Kernel → Er × Kernel
unfolding tk_sta_alm_u
tk_sta_alm user almid almtim k = tk_sta_alm_u user almid (almtim * 1000) k

-- tk_stp_alm
unfoldable pub tk_stp_alm : ℤ → Kernel → Er × Kernel
tk_stp_alm almid k =
    let id = to_ℕ almid in
    if not (chk_almid almid k)
    then (e_id, k)
    else if (k.almcb id).almhdr == 0
    then (e_noexs, k)
    else (
      e_ok,
      if has (k.almcb id).almstat talm_sta then alm_stopped id (timer_delete (almtmeb id) k) else k,
    )

-- T_RALM_U
pub record Ralm : Type 0 where
  pub exinf : ℕ
  pub lfttim_u : ℕ
  pub almstat : ℕ

-- tk_ref_alm_u
unfoldable pub tk_ref_alm_u : ℤ → Kernel → Er × Option Ralm
tk_ref_alm_u almid k =
    let c = k.almcb (to_ℕ almid) in
    if not (chk_almid almid k) then (e_id, none) else if c.almhdr == 0 then (e_noexs, none) else (
      e_ok,
      some (record {
        exinf = c.exinf;
        lfttim_u = if has c.almstat talm_sta then left_time c.time k else 0;
        almstat = c.almstat;
      }),
    )
