-- ===== src/MemPool.antt =====
-- kernel/tkernel/src/mempfix.c: memory pools of blocks of a fixed size. An address is a number below
-- 2 ^ 32, and so is the pattern of bits of an INT. A call runs between LockOBJ and UnlockOBJ.
pub mod Blocks
pub mod Calls
mod Tests
use open_t_kernel.Base.{
  ℕ, Bool, true, false, not, ◌==◌, ◌&&◌, ◌||◌, ltb, leb, if◌then◌else◌, List, [], ◌∷◌, ◌++◌, Option,
  none, some, upd, ◌+◌, ◌-◌, ◌*◌, ◌%◌, ◌^◌,
}
use Prim.Native.Nat.{bit_and}
use open_t_kernel.Base.Int.{ℤ, to_ℕ, is_positive, is_int_positive, in_range}
use open_t_kernel.Kernel.{
  Kernel, Tcb, Mpfcb, Er, ret, e_ok, e_sys, e_par, e_id, e_rsatr, e_ctx, e_noexs, e_limit, e_nomem,
  e_diswai, mpf, wspec_mpf_tfifo, wspec_mpf_tpri, has, ta_tpri, ttw_mpf, not32, set_tcb, in_ddsp,
  null,
}
use open_t_kernel.Timer.{chk_tmout, to_usec_tmo}
use open_t_kernel.ReadyQueue.{head_or_null}
use open_t_kernel.Klock.{lock_obj, unlock_obj}
use open_t_kernel.Wait.{
  Gcb, wait_release_ok, wait_delete, wait_tskid, is_diswai, gcb_make_wait_with_diswai,
  gcb_change_priority,
}
use open_t_kernel.Semaphore.{count_from}

-- The lock of pool `id`.
abbrev pub mpf_lock : ℕ → ℕ
mpf_lock id = id

-- A control block rewritten.
abbrev pub set_mpfcb : ℕ → Mpfcb → Kernel → Kernel
set_mpfcb id p k = record k { mpfcb = upd k.mpfcb id p }

-- fix_memorypool_initialize, as semaphore_initialize, with InitOBJLOCK
unfoldable pub fix_memorypool_initialize : ℕ → ℕ → Bool → Kernel → Er × Kernel
unfolding count_from
fix_memorypool_initialize n max allocated k =
    let k1 = record k { max_mpfid = max } in
    if ltb n 1 || ltb max 1 then (e_sys, k1) else if not allocated then (e_nomem, k1) else (
      e_ok,
      record k1 {
        mpfcb = λ i. record (k.mpfcb i) { mpfid = 0 };
        lock_used = λ l. if ltb 0 l && leb l max then false else k.lock_used l;
        free_mpfcb = count_from 1 max;
      },
    )

-- MINSZ, with a FREEL of 4 bytes
abbrev pub minsz : ℕ → ℕ
minsz sz = bit_and ((sz + 3) % 2 ^ 32) 0xffff_fffc

-- mempool_end
abbrev pub mempool_end : Mpfcb → ℕ
mempool_end p = (p.mempool + p.mpfsz) % 2 ^ 32

-- An MPFCB as a generic control block.
abbrev pub mpf_gcb : ℕ → Kernel → Gcb
mpf_gcb id k = record {
  objid = id;
  objatr = (k.mpfcb id).mpfatr;
  wait_queue = λ k'. k'.mpf_que id;
  set_wait_queue = λ qs k'. record k' { mpf_que = upd k'.mpf_que id qs };
}

-- mpf_chg_pri
unfoldable pub mpf_chg_pri : ℕ → ℤ → Kernel → Kernel
mpf_chg_pri t oldpri k = gcb_change_priority (mpf_gcb (k.tcb t).wid k) t k

-- T_CMPF
pub record Cmpf : Type 0 where
  pub exinf : ℕ
  pub mpfatr : ℕ
  pub mpfcnt : ℤ
  pub blfsz : ℤ

-- TA_TPRI | TA_RNG3 | TA_NORESIDENT | TA_NODISWAI | TA_DSNAME
abbrev pub valid_mpfatr : ℕ
valid_mpfatr = 0x3d1

-- The control block that _tk_cre_mpf makes of its packet.
unfoldable pub new_mpfcb : ℕ → ℕ → Cmpf → Mpfcb
new_mpfcb id mempool pk =
    let blfsz = minsz (to_ℕ pk.blfsz) in
    record {
      mpfid = id;
      exinf = pk.exinf;
      mpfatr = pk.mpfatr;
      mpfcnt = to_ℕ pk.mpfcnt;
      blfsz = blfsz;
      mpfsz = (blfsz * to_ℕ pk.mpfcnt) % 2 ^ 32;
      frbcnt = to_ℕ pk.mpfcnt;
      mempool = mempool;
      unused = mempool;
      freelist = null;
    }

-- _tk_cre_mpf from LockOBJ on, but for the name. QueInit comes before the ID is set.
unfoldable pub mpf_create : ℕ → ℕ → Cmpf → Kernel → Er × Kernel
unfolding unlock_obj new_mpfcb
mpf_create id mempool pk k = (
  ret id,
  unlock_obj (mpf_lock id)
      (set_mpfcb id (new_mpfcb id mempool pk) (record k { mpf_que = upd k.mpf_que id [] })),
)

-- A call after its checks: LockOBJ, and what follows it once the lock is got.
abbrev pub under_lock {ℓ} : {A : Type ℓ} → ℕ → (Kernel → A × Kernel) → Kernel → Option A × Kernel
under_lock loc body k =
    let (klocked, k1) = lock_obj loc k in
    let (a, k2) = body k1 in if klocked then (some a, k2) else (none, k1)

-- tk_cre_mpf, where `mempool` is the answer of IAmalloc; `none` where the caller has to wait for the lock
unfoldable pub tk_cre_mpf : ℕ → Cmpf → Kernel → Option Er × Kernel
unfolding mpf_create lock_obj
tk_cre_mpf mempool pk k =
    if has pk.mpfatr (not32 valid_mpfatr)
    then (some e_rsatr, k)
    else if not (is_positive pk.mpfcnt)
    then (some e_par, k)
    else if not (is_positive pk.blfsz)
    then (some e_par, k)
    else if in_ddsp k
    then (some e_ctx, k)
    else if mempool == null
    then (some e_nomem, k)
    else elim k.free_mpfcb [
      | [] ↦ (some e_limit, k)
      | id ∷ free ↦
          under_lock (mpf_lock id) (mpf_create id mempool pk) (record k { free_mpfcb = free })
    ]

-- CHK_MPFID
abbrev pub chk_mpfid : ℤ → Kernel → Bool
chk_mpfid mpfid k = in_range 1 k.max_mpfid mpfid

-- tk_del_mpf after LockOBJ, to UnlockOBJ, with the pool that IAfree gets
unfoldable pub mpf_delete : ℕ → Kernel → (Er × ℕ) × Kernel
unfolding unlock_obj
mpf_delete id k =
    let mempool = (k.mpfcb id).mempool in
    let k1 = wait_delete (k.mpf_que id) k in
    let k2 =
      set_mpfcb id (record (k1.mpfcb id) { mpfid = 0 })
        (record k1 { free_mpfcb = k1.free_mpfcb ++ id ∷ [] }) in
    if (k.mpfcb id).mpfid == 0
    then ((e_noexs, null), unlock_obj (mpf_lock id) k)
    else ((e_ok, mempool), unlock_obj (mpf_lock id) k2)

-- tk_del_mpf, with the pool that IAfree gets
unfoldable pub tk_del_mpf : ℤ → Kernel → Option (Er × ℕ) × Kernel
unfolding mpf_delete lock_obj
tk_del_mpf mpfid k =
    let id = to_ℕ mpfid in
    if not (chk_mpfid mpfid k)
    then (some (e_id, null), k)
    else if in_ddsp k
    then (some (e_ctx, null), k)
    else under_lock (mpf_lock id) (mpf_delete id) k

-- `Get memory block` of tk_get_mpf_u: the block, and the kernel.
unfoldable pub mpf_take : ℕ → Kernel → ℕ × Kernel
mpf_take id k =
    let p = k.mpfcb id in
    let frbcnt = p.frbcnt - 1 in
    if not (p.freelist == null)
    then (
      p.freelist,
      set_mpfcb id (record p { freelist = k.next_free p.freelist; frbcnt = frbcnt }) k,
    )
    else (
      p.unused,
      set_mpfcb id (record p { unused = (p.unused + p.blfsz) % 2 ^ 32; frbcnt = frbcnt }) k,
    )

-- tk_get_mpf_u from `wait_mpf` on
unfoldable pub mpf_wait : ℕ → ℤ → Kernel → Er × Kernel
unfolding unlock_obj
mpf_wait id tmout k =
    let ctx = k.ctxtsk in
    let spec = if has (k.mpfcb id).mpfatr ta_tpri then wspec_mpf_tpri else wspec_mpf_tfifo in
    let k1 = set_tcb ctx (record (k.tcb ctx) { wspec = spec; wercd = e_ok; winfo = mpf }) k in
    let k2 = unlock_obj (mpf_lock id) (gcb_make_wait_with_diswai (mpf_gcb id k1) tmout k1) in
    ((k2.tcb ctx).wercd, k2)

-- tk_get_mpf_u after LockOBJ: the code, the block where it is known, and the kernel.
unfoldable pub mpf_get : ℕ → ℤ → Kernel → (Er × Option ℕ) × Kernel
unfolding mpf_take mpf_wait unlock_obj
mpf_get id tmout k =
    let p = k.mpfcb id in
    let (blf, k1) = mpf_take id k in
    let (ercd, k2) = mpf_wait id tmout k in
    if p.mpfid == 0
    then ((e_noexs, none), unlock_obj (mpf_lock id) k)
    else if is_diswai p.mpfatr (k.tcb k.ctxtsk) ttw_mpf
    then ((e_diswai, none), unlock_obj (mpf_lock id) k)
    else if not (is_int_positive p.frbcnt)
    then ((ercd, none), k2)
    else ((e_ok, some blf), unlock_obj (mpf_lock id) k1)

-- tk_get_mpf_u
unfoldable pub tk_get_mpf_u : ℤ → ℤ → Kernel → Option (Er × Option ℕ) × Kernel
unfolding mpf_get lock_obj
tk_get_mpf_u mpfid tmout k =
    let id = to_ℕ mpfid in
    if not (chk_mpfid mpfid k)
    then (some (e_id, none), k)
    else if not (chk_tmout tmout)
    then (some (e_par, none), k)
    else if in_ddsp k
    then (some (e_ctx, none), k)
    else under_lock (mpf_lock id) (mpf_get id tmout) k

-- tk_get_mpf
unfoldable pub tk_get_mpf : ℤ → ℤ → Kernel → Option (Er × Option ℕ) × Kernel
unfolding tk_get_mpf_u
tk_get_mpf mpfid tmout k = tk_get_mpf_u mpfid (to_usec_tmo tmout) k

-- `Free memory block` of tk_rel_mpf
unfoldable pub mpf_free : ℕ → ℕ → Kernel → Kernel
mpf_free id blf k =
    let p = k.mpfcb id in
    set_mpfcb id (record p { freelist = blf; frbcnt = (p.frbcnt + 1) % 2 ^ 32 })
      (record k { next_free = upd k.next_free blf p.freelist })

-- The last part of tk_rel_mpf, on the wait queue of the pool.
unfoldable pub mpf_give : ℕ → ℕ → List ℕ → Kernel → Kernel
unfolding mpf_free
mpf_give id blf [] k = mpf_free id blf k
mpf_give id blf (t ∷ ts) k = wait_release_ok t (set_tcb t (record (k.tcb t) { rcvblf = blf }) k)

-- The check of `blf` in tk_rel_mpf.
unfoldable pub is_not_block : Mpfcb → ℕ → Bool
is_not_block p blf =
    ltb blf p.mempool || (leb (mempool_end p) blf || not ((blf - p.mempool) % p.blfsz == 0))

-- tk_rel_mpf after LockOBJ
unfoldable pub mpf_rel : ℕ → ℕ → Kernel → Er × Kernel
unfolding mpf_give is_not_block unlock_obj
mpf_rel id blf k =
    let p = k.mpfcb id in
    if p.mpfid == 0
    then (e_noexs, unlock_obj (mpf_lock id) k)
    else if is_not_block p blf
    then (e_par, unlock_obj (mpf_lock id) k)
    else (e_ok, unlock_obj (mpf_lock id) (mpf_give id blf (k.mpf_que id) k))

-- tk_rel_mpf
unfoldable pub tk_rel_mpf : ℤ → ℕ → Kernel → Option Er × Kernel
unfolding mpf_rel lock_obj
tk_rel_mpf mpfid blf k =
    let id = to_ℕ mpfid in
    if not (chk_mpfid mpfid k)
    then (some e_id, k)
    else if in_ddsp k
    then (some e_ctx, k)
    else under_lock (mpf_lock id) (mpf_rel id blf) k

-- T_RMPF
pub record Rmpf : Type 0 where
  pub exinf : ℕ
  pub wtsk : ℕ
  pub frbcnt : ℕ

-- tk_ref_mpf after LockOBJ
unfoldable pub mpf_ref : ℕ → Kernel → (Er × Option Rmpf) × Kernel
unfolding unlock_obj
mpf_ref id k =
    let p = k.mpfcb id in
    let r : Rmpf = record {
      exinf = p.exinf;
      wtsk = wait_tskid (k.mpf_que id);
      frbcnt = p.frbcnt;
    } in
    (if p.mpfid == 0 then (e_noexs, none) else (e_ok, some r), unlock_obj (mpf_lock id) k)

-- tk_ref_mpf
unfoldable pub tk_ref_mpf : ℤ → Kernel → Option (Er × Option Rmpf) × Kernel
unfolding mpf_ref lock_obj
tk_ref_mpf mpfid k =
    let id = to_ℕ mpfid in
    if not (chk_mpfid mpfid k)
    then (some (e_id, none), k)
    else if in_ddsp k
    then (some (e_ctx, none), k)
    else under_lock (mpf_lock id) (mpf_ref id) k
