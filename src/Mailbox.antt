-- ===== src/Mailbox.antt =====
-- kernel/tkernel/src/mailbox.c. A message is known by its address; the chain of messages runs through
-- the memory of tasks. The priority of a message is the 32-bit pattern of its PRI.
pub mod Chain
pub mod Insert
pub mod Calls
mod Tests
use open_t_kernel.Base.{
  ℕ, zero, suc, Bool, not, ◌==◌, ◌&&◌, ◌||◌, ltb, leb, if◌then◌else◌, List, [], ◌∷◌, ◌++◌, Option,
  none, some, upd,
}
use open_t_kernel.Base.Int.{ℤ, to_ℕ, in_range, is_int_positive, int_order}
use open_t_kernel.Kernel.{
  Kernel, Mbxcb, Er, ret, e_ok, e_sys, e_par, e_id, e_rsatr, e_ctx, e_noexs, e_limit, e_nomem,
  e_diswai, mbx, wspec_mbx_tfifo, wspec_mbx_tpri, has, ta_tpri, ta_mpri, ttw_mbx, not32, set_tcb,
  in_ddsp, null,
}
use open_t_kernel.Timer.{chk_tmout, to_usec_tmo}
use open_t_kernel.ReadyQueue.{head_or_null, is_nil}
use open_t_kernel.Wait.{
  Gcb, wait_release_ok, wait_delete, wait_tskid, is_diswai, gcb_make_wait_with_diswai,
  gcb_change_priority,
}
use open_t_kernel.Semaphore.{count_from}

-- mailbox_initialize, as semaphore_initialize
unfoldable pub mailbox_initialize : ℕ → ℕ → Bool → Kernel → Er × Kernel
unfolding count_from
mailbox_initialize n max allocated k =
    let k1 = record k { max_mbxid = max } in
    if ltb n 1 || ltb max 1 then (e_sys, k1) else if not allocated then (e_nomem, k1) else (
      e_ok,
      record k1 { mbxcb = λ i. record (k.mbxcb i) { mbxid = 0 }; free_mbxcb = count_from 1 max },
    )

-- An MBXCB as a generic control block.
abbrev pub mbx_gcb : ℕ → Kernel → Gcb
mbx_gcb id k = record {
  objid = id;
  objatr = (k.mbxcb id).mbxatr;
  wait_queue = λ k'. k'.mbx_que id;
  set_wait_queue = λ qs k'. record k' { mbx_que = upd k'.mbx_que id qs };
}

-- A control block rewritten.
abbrev pub set_mbxcb : ℕ → Mbxcb → Kernel → Kernel
set_mbxcb id m k = record k { mbxcb = upd k.mbxcb id m }

-- nextmsg(msg), where `null` stands for the head of the mailbox's chain.
abbrev pub next_msg_of : ℕ → ℕ → Kernel → ℕ
next_msg_of id msg k = if msg == null then (k.mbxcb id).headmsg else k.nextmsg msg

abbrev pub set_next_msg_of : ℕ → ℕ → ℕ → Kernel → Kernel
set_next_msg_of id msg next k =
    if msg == null
    then set_mbxcb id (record (k.mbxcb id) { headmsg = next }) k
    else record k { nextmsg = upd k.nextmsg msg next }

-- The priorities of the messages, in their order.
abbrev pub msg_order : Kernel → ℕ → ℕ
msg_order k msg = int_order (k.msgpri msg)

-- queue_insert_mpri from `prevmsg` on, with a round of fuel for each message of the chain and one more;
-- `none` where that is spent.
unfoldable pub queue_insert_mpri : ℕ → ℕ → ℕ → ℕ → Kernel → Option Kernel
queue_insert_mpri zero id pk_msg prevmsg k = none
queue_insert_mpri (suc fuel) id pk_msg prevmsg k =
    let msg = next_msg_of id prevmsg k in
    let rest = queue_insert_mpri fuel id pk_msg msg k in
    if not (msg == null) && leb (msg_order k msg) (msg_order k pk_msg)
    then rest
    else some (set_next_msg_of id prevmsg pk_msg (record k { nextmsg = upd k.nextmsg pk_msg msg }))

-- mbx_chg_pri
unfoldable pub mbx_chg_pri : ℕ → ℤ → Kernel → Kernel
mbx_chg_pri t oldpri k = gcb_change_priority (mbx_gcb (k.tcb t).wid k) t k

-- T_CMBX
pub record Cmbx : Type 0 where
  pub exinf : ℕ
  pub mbxatr : ℕ

-- TA_MPRI | TA_TPRI | TA_NODISWAI | TA_DSNAME
abbrev pub valid_mbxatr : ℕ
valid_mbxatr = 0xc3

-- tk_cre_mbx, but for the name
unfoldable pub tk_cre_mbx : Cmbx → Kernel → Er × Kernel
tk_cre_mbx pk k = if has pk.mbxatr (not32 valid_mbxatr) then (e_rsatr, k) else elim k.free_mbxcb [
  | [] ↦ (e_limit, k)
  | id ∷ free ↦
      let c : Mbxcb = record {
        mbxid = id;
        exinf = pk.exinf;
        mbxatr = pk.mbxatr;
        headmsg = null;
        mq_tail = (k.mbxcb id).mq_tail;
      } in
      (ret id, set_mbxcb id c (record k { free_mbxcb = free; mbx_que = upd k.mbx_que id [] }))
]

-- CHK_MBXID
abbrev pub chk_mbxid : ℤ → Kernel → Bool
chk_mbxid mbxid k = in_range 1 k.max_mbxid mbxid

-- tk_del_mbx
unfoldable pub tk_del_mbx : ℤ → Kernel → Er × Kernel
tk_del_mbx mbxid k =
    let id = to_ℕ mbxid in
    if not (chk_mbxid mbxid k)
    then (e_id, k)
    else if (k.mbxcb id).mbxid == 0
    then (e_noexs, k)
    else (let k1 = wait_delete (k.mbx_que id) k in
        (
          e_ok,
          set_mbxcb id (record (k1.mbxcb id) { mbxid = 0 })
              (record k1 { free_mbxcb = k1.free_mbxcb ++ id ∷ [] }),
        ))

-- `Connect to end of queue` of tk_snd_mbx
unfoldable pub mbx_append : ℕ → ℕ → Kernel → Kernel
mbx_append id pk_msg k =
    let k1 = record k { nextmsg = upd k.nextmsg pk_msg null } in
    let m = k1.mbxcb id in
    if m.headmsg == null
    then set_mbxcb id (record m { headmsg = pk_msg; mq_tail = pk_msg }) k1
    else set_mbxcb id (record m { mq_tail = pk_msg })
        (record k1 { nextmsg = upd k1.nextmsg m.mq_tail pk_msg })

-- tk_snd_mbx: `none` where the fuel of queue_insert_mpri is spent
unfoldable pub tk_snd_mbx : ℕ → ℤ → ℕ → Kernel → Option (Er × Kernel)
tk_snd_mbx fuel mbxid pk_msg k =
    let id = to_ℕ mbxid in
    let atr = (k.mbxcb id).mbxatr in
    let tcb = head_or_null (k.mbx_que id) in
    if not (chk_mbxid mbxid k)
    then some (e_id, k)
    else if (k.mbxcb id).mbxid == 0
    then some (e_noexs, k)
    else if has atr ta_mpri && not (is_int_positive (k.msgpri pk_msg))
    then some (e_par, k)
    else if not (is_nil (k.mbx_que id))
    then some (e_ok, wait_release_ok tcb (set_tcb tcb (record (k.tcb tcb) { rcvpk = pk_msg }) k))
    else if has atr ta_mpri
    then elim (queue_insert_mpri fuel id pk_msg null k) [ none ↦ none | some k1 ↦ some (e_ok, k1) ]
    else some (e_ok, mbx_append id pk_msg k)

-- The last `else` of tk_rcv_mbx_u.
unfoldable pub mbx_wait : ℕ → ℤ → Kernel → Er × Kernel
mbx_wait id tmout k =
    let ctx = k.ctxtsk in
    let spec = if has (k.mbxcb id).mbxatr ta_tpri then wspec_mbx_tpri else wspec_mbx_tfifo in
    let k1 = set_tcb ctx (record (k.tcb ctx) { wspec = spec; wercd = e_ok; winfo = mbx }) k in
    let k2 = gcb_make_wait_with_diswai (mbx_gcb id k1) tmout k1 in ((k2.tcb ctx).wercd, k2)

-- tk_rcv_mbx_u: the code, the message where it is known, and the kernel.
unfoldable pub tk_rcv_mbx_u : ℤ → ℤ → Kernel → Er × Option ℕ × Kernel
tk_rcv_mbx_u mbxid tmout k =
    let id = to_ℕ mbxid in
    let m = k.mbxcb id in
    let (ercd, k1) = mbx_wait id tmout k in
    if not (chk_mbxid mbxid k)
    then (e_id, none, k)
    else if not (chk_tmout tmout)
    then (e_par, none, k)
    else if in_ddsp k
    then (e_ctx, none, k)
    else if m.mbxid == 0
    then (e_noexs, none, k)
    else if is_diswai m.mbxatr (k.tcb k.ctxtsk) ttw_mbx
    then (e_diswai, none, k)
    else if not (m.headmsg == null)
    then (e_ok, some m.headmsg, set_mbxcb id (record m { headmsg = k.nextmsg m.headmsg }) k)
    else (ercd, none, k1)

-- tk_rcv_mbx
unfoldable pub tk_rcv_mbx : ℤ → ℤ → Kernel → Er × Option ℕ × Kernel
unfolding tk_rcv_mbx_u
tk_rcv_mbx mbxid tmout k = tk_rcv_mbx_u mbxid (to_usec_tmo tmout) k

-- T_RMBX
pub record Rmbx : Type 0 where
  pub exinf : ℕ
  pub wtsk : ℕ
  pub pk_msg : ℕ

-- tk_ref_mbx
unfoldable pub tk_ref_mbx : ℤ → Kernel → Er × Option Rmbx
tk_ref_mbx mbxid k =
    let id = to_ℕ mbxid in
    let m = k.mbxcb id in
    if not (chk_mbxid mbxid k) then (e_id, none) else if m.mbxid == 0 then (e_noexs, none) else (
      e_ok,
      some (record { exinf = m.exinf; wtsk = wait_tskid (k.mbx_que id); pk_msg = m.headmsg }),
    )
