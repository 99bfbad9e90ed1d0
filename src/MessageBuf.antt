-- ===== src/MessageBuf.antt =====
-- kernel/tkernel/src/messagebuf.c: the system calls on message buffers, over the ring of `MsgRing`. The
-- memory that Imalloc gives and Ifree takes is the `buffer` of the control block.
pub mod Wakeup
mod Tests
use open_t_kernel.Base.{
  ℕ, Bool, not, ◌==◌, ◌&&◌, ◌||◌, ltb, leb, if◌then◌else◌, List, [], ◌∷◌, ◌++◌, Option, none, some,
  upd, ◌%◌, ◌^◌, ◌*◌, ◌/◌, ◌+◌,
}
use open_t_kernel.Base.Int.{ℤ, negsuc, to_ℕ, is_positive, is_natural, in_range}
use open_t_kernel.Bits.{Bytes}
use open_t_kernel.Kernel.{
  Kernel, Mbfcb, Er, ret, e_ok, e_sys, e_par, e_id, e_rsatr, e_ctx, e_noexs, e_limit, e_nomem,
  e_diswai, e_tmout, smbf, rmbf, smbf_msg, smbf_msgsz, wspec_smbf_tfifo, wspec_smbf_tpri,
  wspec_rmbf, has, ta_tpri, ttw_smbf, ttw_rmbf, not32, set_tcb, in_ddsp, in_indp,
}
use open_t_kernel.Timer.{chk_tmout, is_pol, to_usec_tmo}
use open_t_kernel.ReadyQueue.{head_or_null, is_nil}
use open_t_kernel.Wait.{
  Gcb, wait_release_ok, wait_delete, wait_tskid, is_diswai, make_wait, gcb_make_wait_with_diswai,
  gcb_change_priority, gcb_top_of_wait_queue,
}
use open_t_kernel.Semaphore.{count_from}
use open_t_kernel.MsgRing.{copy, get_header, roundsz, mbf_free, mbf_empty, msg_to_mbf, mbf_to_msg}

-- messagebuffer_initialize, as semaphore_initialize
unfoldable pub messagebuffer_initialize : ℕ → ℕ → Bool → Kernel → Er × Kernel
unfolding count_from
messagebuffer_initialize n max allocated k =
    let k1 = record k { max_mbfid = max } in
    if ltb n 1 || ltb max 1 then (e_sys, k1) else if not allocated then (e_nomem, k1) else (
      e_ok,
      record k1 { mbfcb = λ i. record (k.mbfcb i) { mbfid = 0 }; free_mbfcb = count_from 1 max },
    )

-- An MBFCB as a generic control block: its first queue is that of the senders.
abbrev pub mbf_gcb : ℕ → Kernel → Gcb
mbf_gcb id k = record {
  objid = id;
  objatr = (k.mbfcb id).mbfatr;
  wait_queue = λ k'. k'.smbf_que id;
  set_wait_queue = λ qs k'. record k' { smbf_que = upd k'.smbf_que id qs };
}

-- A control block rewritten.
abbrev pub set_mbfcb : ℕ → Mbfcb → Kernel → Kernel
set_mbfcb id m k = record k { mbfcb = upd k.mbfcb id m }

-- The message of a task that waits to send is stored, and the task released.
unfoldable pub mbf_accept : ℕ → ℕ → Kernel → Kernel
mbf_accept id top k =
    let w = (k.tcb top).winfo in
    wait_release_ok top (set_mbfcb id (msg_to_mbf (k.mbfcb id) (smbf_msg w) (smbf_msgsz w)) k)

-- The loop of mbf_wakeup over the tasks that wait to send.
unfoldable pub mbf_wakeup : ℕ → List ℕ → Kernel → Kernel
mbf_wakeup id [] k = k
mbf_wakeup id (top ∷ queue) k =
    let rest = mbf_wakeup id queue (mbf_accept id top k) in
    if not (mbf_free (k.mbfcb id) (smbf_msgsz (k.tcb top).winfo)) then k else rest

-- mbf_chg_pri
unfoldable pub mbf_chg_pri : ℕ → ℤ → Kernel → Kernel
unfolding mbf_wakeup
mbf_chg_pri t oldpri k =
    let id = (k.tcb t).wid in
    let k1 = if is_natural oldpri then gcb_change_priority (mbf_gcb id k) t k else k in
    mbf_wakeup id (k1.smbf_que id) k1

-- mbf_rel_wai
unfoldable pub mbf_rel_wai : ℕ → Kernel → Kernel
unfolding mbf_chg_pri
mbf_rel_wai t k = mbf_chg_pri t (negsuc 0) k

-- T_CMBF
pub record Cmbf : Type 0 where
  pub exinf : ℕ
  pub mbfatr : ℕ
  pub bufsz : ℤ
  pub maxmsz : ℤ

-- TA_TPRI | TA_NODISWAI | TA_DSNAME
abbrev pub valid_mbfatr : ℕ
valid_mbfatr = 0xc1

-- tk_cre_mbf, but for the name; `msgbuf` is what Imalloc returns, and is asked for only a buffer that is
-- not empty.
unfoldable pub tk_cre_mbf : Cmbf → Option Bytes → Kernel → Er × Kernel
tk_cre_mbf pk msgbuf k =
    let bufsz = roundsz (to_ℕ pk.bufsz) in
    if has pk.mbfatr (not32 valid_mbfatr)
    then (e_rsatr, k)
    else if not (is_natural pk.bufsz)
    then (e_par, k)
    else if not (is_positive pk.maxmsz)
    then (e_par, k)
    else elim (if ltb 0 bufsz then msgbuf else some (λ i. 0)) [
      | none ↦ (e_nomem, k)
      | some buffer ↦ elim k.free_mbfcb [
        | [] ↦ (e_limit, k)
        | id ∷ free ↦ (
          ret id,
          set_mbfcb id
              (record {
                mbfid = id;
                exinf = pk.exinf;
                mbfatr = pk.mbfatr;
                bufsz = bufsz;
                maxmsz = to_ℕ pk.maxmsz;
                frbufsz = bufsz;
                head = 0;
                tail = 0;
                buffer = buffer;
              })
              (record k {
                free_mbfcb = free;
                smbf_que = upd k.smbf_que id [];
                rmbf_que = upd k.rmbf_que id [];
              }),
        )
      ]
    ]

-- CHK_MBFID
abbrev pub chk_mbfid : ℤ → Kernel → Bool
chk_mbfid mbfid k = in_range 1 k.max_mbfid mbfid

-- tk_del_mbf
unfoldable pub tk_del_mbf : ℤ → Kernel → Er × Kernel
tk_del_mbf mbfid k =
    let id = to_ℕ mbfid in
    if not (chk_mbfid mbfid k)
    then (e_id, k)
    else if (k.mbfcb id).mbfid == 0
    then (e_noexs, k)
    else (let k1 = wait_delete (k.rmbf_que id) k in
        let k2 = wait_delete (k1.smbf_que id) k1 in
        (
          e_ok,
          set_mbfcb id (record (k2.mbfcb id) { mbfid = 0 })
              (record k2 { free_mbfcb = k2.free_mbfcb ++ id ∷ [] }),
        ))

-- tk_snd_mbf_u to a task that waits to receive.
unfoldable pub mbf_hand_over : ℕ → Bytes → ℕ → Kernel → Kernel
mbf_hand_over t msg msgsz k =
    wait_release_ok t (
      set_tcb t (record (k.tcb t) { rcvmsg = copy (k.tcb t).rcvmsg 0 msg 0 msgsz; rcvsz = msgsz })
        k)

-- The last `else` of tk_snd_mbf_u.
unfoldable pub mbf_send_wait : ℕ → Bytes → ℕ → ℤ → Kernel → Er × Kernel
mbf_send_wait id msg msgsz tmout k =
    let ctx = k.ctxtsk in
    let spec = if has (k.mbfcb id).mbfatr ta_tpri then wspec_smbf_tpri else wspec_smbf_tfifo in
    let k1 =
      set_tcb ctx (record (k.tcb ctx) { wspec = spec; wercd = e_tmout; winfo = smbf msg msgsz })
        k in
    let k2 = gcb_make_wait_with_diswai (mbf_gcb id k1) tmout k1 in
    if is_pol tmout then (e_tmout, k) else ((k2.tcb ctx).wercd, k2)

-- tk_snd_mbf_u
unfoldable pub tk_snd_mbf_u : ℤ → Bytes → ℤ → ℤ → Kernel → Er × Kernel
tk_snd_mbf_u mbfid msg msgsz tmout k =
    let id = to_ℕ mbfid in
    let sz = to_ℕ msgsz in
    let ctx = k.ctxtsk in
    if not (chk_mbfid mbfid k)
    then (e_id, k)
    else if not (is_positive msgsz)
    then (e_par, k)
    else if not (chk_tmout tmout)
    then (e_par, k)
    else if not (is_pol tmout) && in_ddsp k
    then (e_ctx, k)
    else if (k.mbfcb id).mbfid == 0
    then (e_noexs, k)
    else if ltb (k.mbfcb id).maxmsz sz
    then (e_par, k)
    else if not (in_indp k) && is_diswai (k.mbfcb id).mbfatr (k.tcb ctx) ttw_smbf
    then (e_diswai, k)
    else if not (is_nil (k.rmbf_que id))
    then (e_ok, mbf_hand_over (head_or_null (k.rmbf_que id)) msg sz k)
    else if (in_indp k || (gcb_top_of_wait_queue (mbf_gcb id k) ctx k == ctx))
        && mbf_free (k.mbfcb id) sz
    then (e_ok, set_mbfcb id (msg_to_mbf (k.mbfcb id) msg sz) k)
    else mbf_send_wait id msg sz tmout k

-- tk_snd_mbf
unfoldable pub tk_snd_mbf : ℤ → Bytes → ℤ → ℤ → Kernel → Er × Kernel
unfolding tk_snd_mbf_u
tk_snd_mbf mbfid msg msgsz tmout k = tk_snd_mbf_u mbfid msg msgsz (to_usec_tmo tmout) k

-- The last `else` of tk_rcv_mbf_u; `msg` is the area of the caller.
unfoldable pub mbf_receive_wait : ℕ → Bytes → ℤ → Kernel → Er × Kernel
mbf_receive_wait id msg tmout k =
    let ctx = k.ctxtsk in
    let c = record (k.tcb ctx) {
      wspec = wspec_rmbf;
      wid = id;
      wercd = e_tmout;
      winfo = rmbf;
      rcvmsg = msg;
    } in
    let k1 = make_wait tmout (k.mbfcb id).mbfatr (set_tcb ctx c k) in
    let k2 = record k1 { rmbf_que = upd k1.rmbf_que id (k1.rmbf_que id ++ ctx ∷ []) } in
    if is_pol tmout then (e_tmout, k) else ((k2.tcb ctx).wercd, k2)

-- tk_rcv_mbf_u: the size of the message or the error, the area of the caller, and the kernel.
unfoldable pub tk_rcv_mbf_u : ℤ → Bytes → ℤ → Kernel → Er × Bytes × Kernel
unfolding mbf_wakeup
tk_rcv_mbf_u mbfid msg tmout k =
    let id = to_ℕ mbfid in
    let (size, got, m) = mbf_to_msg (k.mbfcb id) msg in
    let k1 = set_mbfcb id m k in
    let top = head_or_null (k.smbf_que id) in
    let w = (k.tcb top).winfo in
    let k2 = wait_release_ok top k in
    let (ercd, k3) = mbf_receive_wait id msg tmout k in
    if not (chk_mbfid mbfid k)
    then (e_id, msg, k)
    else if not (chk_tmout tmout)
    then (e_par, msg, k)
    else if in_ddsp k
    then (e_ctx, msg, k)
    else if (k.mbfcb id).mbfid == 0
    then (e_noexs, msg, k)
    else if is_diswai (k.mbfcb id).mbfatr (k.tcb k.ctxtsk) ttw_rmbf
    then (e_diswai, msg, k)
    else if not (mbf_empty (k.mbfcb id))
    then (ret size, got, mbf_wakeup id (k1.smbf_que id) k1)
    else if not (is_nil (k.smbf_que id))
    then (
      ret (smbf_msgsz w),
      copy msg 0 (smbf_msg w) 0 (smbf_msgsz w),
      mbf_wakeup id (k2.smbf_que id) k2,
    )
    else (ercd, msg, k3)

-- tk_rcv_mbf
unfoldable pub tk_rcv_mbf : ℤ → Bytes → ℤ → Kernel → Er × Bytes × Kernel
unfolding tk_rcv_mbf_u
tk_rcv_mbf mbfid msg tmout k = tk_rcv_mbf_u mbfid msg (to_usec_tmo tmout) k

-- T_RMBF
pub record Rmbf : Type 0 where
  pub exinf : ℕ
  pub wtsk : ℕ
  pub stsk : ℕ
  pub msgsz : ℕ
  pub frbufsz : ℕ
  pub maxmsz : ℕ

-- tk_ref_mbf
unfoldable pub tk_ref_mbf : ℤ → Kernel → Er × Option Rmbf
tk_ref_mbf mbfid k =
    let id = to_ℕ mbfid in
    let m = k.mbfcb id in
    if not (chk_mbfid mbfid k) then (e_id, none) else if m.mbfid == 0 then (e_noexs, none) else (
      e_ok,
      some (record {
        exinf = m.exinf;
        wtsk = wait_tskid (k.rmbf_que id);
        stsk = wait_tskid (k.smbf_que id);
        msgsz =
            if not (mbf_empty m)
            then get_header m.buffer m.head
            else if not (is_nil (k.smbf_que id))
            then smbf_msgsz (k.tcb (head_or_null (k.smbf_que id))).winfo
            else 0;
        frbufsz = m.frbufsz;
        maxmsz = m.maxmsz;
      }),
    )
