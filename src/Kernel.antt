-- ===== src/Kernel.antt =====
-- The state of the kernel: kernel/tkernel/src/task.h (TCB), winfo.h, timer.h (TMEB), ready_queue.h
-- (RDYQUE), and the control blocks of semaphore.c and eventflag.c.
-- A TCB, a control block and a lock are known by their number; the number 0 is NULL, since IDs start
-- at 1. A queue of tasks is the list of its tasks; QUEUE's pointers are in `Queue`.
use Prim.Native.Nat.{bit_and}
use open_t_kernel.Base.{ℕ, ◌-◌, ◌==◌, Bool, true, false, not, ◌||◌, List, erase, upd}
use open_t_kernel.Bits.{Bytes}

-- ER: a result of at least 0, or an error code.
pub data Er : Type 0 where
  ret : ℕ → Er
  e_sys e_par e_id e_rsatr e_ctx e_obj e_noexs e_limit e_nomem e_qovr e_dlt e_tmout e_diswai
        e_rlwai :
      Er

abbrev pub e_ok : Er
e_ok = ret 0

-- TSTAT
pub data Tstat : Type 0 where
  nonexist ready wait suspend waitsus dormant : Tstat

-- state & TS_WAIT
abbrev pub has_wait : Tstat → Bool
has_wait wait = true
has_wait waitsus = true
has_wait s = false

-- task_alive
abbrev pub task_alive : Tstat → Bool
task_alive nonexist = false
task_alive dormant = false
task_alive s = true

-- The constants of type WSPEC, and the one that tk_wai_tev builds, by its wait factor.
pub data Wspec : Type 0 where
  no_wspec wspec_slp wspec_dly : Wspec
  wspec_sem_tfifo wspec_sem_tpri wspec_flg_tfifo wspec_flg_tpri : Wspec
  wspec_smbf_tfifo wspec_smbf_tpri wspec_rmbf wspec_mbx_tfifo wspec_mbx_tpri : Wspec
  wspec_mpf_tfifo wspec_mpf_tpri : Wspec
  wspec_tev : ℕ → Wspec

-- wspec->tskwait: TTW_SLP, TTW_DLY, TTW_SEM, TTW_FLG and the task events.
abbrev pub tskwait : Wspec → ℕ
tskwait no_wspec = 0
tskwait wspec_slp = 0x1
tskwait wspec_dly = 0x2
tskwait wspec_sem_tfifo = 0x4
tskwait wspec_sem_tpri = 0x4
tskwait wspec_flg_tfifo = 0x8
tskwait wspec_flg_tpri = 0x8
tskwait wspec_smbf_tfifo = 0x100
tskwait wspec_smbf_tpri = 0x100
tskwait wspec_rmbf = 0x200
tskwait wspec_mbx_tfifo = 0x40
tskwait wspec_mbx_tpri = 0x40
tskwait wspec_mpf_tfifo = 0x2000
tskwait wspec_mpf_tpri = 0x2000
tskwait (wspec_tev f) = f

-- WINFO, by the member in use.
pub data Winfo : Type 0 where
  no_winfo : Winfo
  sem : (cnt : ℕ) → Winfo
  flg : (waiptn wfmode : ℕ) → Winfo
  smbf : (msg : Bytes) (msgsz : ℕ) → Winfo
  rmbf mbx mpf : Winfo

-- winfo.sem.cnt
abbrev pub sem_cnt : Winfo → ℕ
sem_cnt (sem cnt) = cnt
sem_cnt w = 0

-- winfo.smbf.msg and winfo.smbf.msgsz
abbrev pub smbf_msg : Winfo → Bytes
smbf_msg (smbf msg msgsz) = msg
smbf_msg w = λ i. 0

abbrev pub smbf_msgsz : Winfo → ℕ
smbf_msgsz (smbf msg msgsz) = msgsz
smbf_msgsz w = 0

-- winfo.flg.waiptn and winfo.flg.wfmode
abbrev pub flg_waiptn : Winfo → ℕ
flg_waiptn (flg waiptn wfmode) = waiptn
flg_waiptn w = 0

abbrev pub flg_wfmode : Winfo → ℕ
flg_wfmode (flg waiptn wfmode) = wfmode
flg_wfmode w = 0

-- The fields of the TCB that scheduling and waiting use. `wercd`, `flgptn`, `rcvmsg`, `rcvsz`,
-- `rcvpk` and `rcvblf` are the cells that the pointers `wercd`, `winfo.flg.p_flgptn`,
-- `winfo.rmbf.msg`, `winfo.rmbf.p_msgsz`, `winfo.mbx.ppk_msg` and `winfo.mpf.p_blf` of a waiting task
-- lead to.
pub record Tcb : Type 0 where
  pub ipriority : ℕ
  pub bpriority : ℕ
  pub priority : ℕ
  pub state : Tstat
  pub nodiswai : Bool
  pub klockwait : Bool
  pub klocked : Bool
  pub wspec : Wspec
  pub wid : ℕ
  pub wupcnt : ℕ
  pub suscnt : ℕ
  pub wercd : Er
  pub winfo : Winfo
  pub flgptn : ℕ
  pub waitmask : ℕ
  pub tskevt : ℕ
  pub slicetime : ℕ
  pub slicecnt : ℕ
  pub sysmode : ℕ
  pub stime : ℕ
  pub utime : ℕ
  pub rcvmsg : Bytes
  pub rcvsz : ℕ
  pub rcvpk : ℕ
  pub rcvblf : ℕ
  pub svclocked : ℕ

-- A timer event block is that of a task's wait, of a cyclic handler or of an alarm handler; this
-- decides its callback and argument.
pub data Tmeb : Type 0 where
  wtmeb cyctmeb almtmeb : ℕ → Tmeb

abbrev pub tmeb_eq : Tmeb → Tmeb → Bool
tmeb_eq (wtmeb a) (wtmeb b) = a == b
tmeb_eq (cyctmeb a) (cyctmeb b) = a == b
tmeb_eq (almtmeb a) (almtmeb b) = a == b
tmeb_eq a b = false

-- A block on the timer queue, with its time.
pub record Event : Type 0 where
  pub time : ℕ
  pub tmeb : Tmeb

-- SEMCB; the wait queue of semaphore `i` is `sem_que i` of the kernel.
pub record Semcb : Type 0 where
  pub semid : ℕ
  pub exinf : ℕ
  pub sematr : ℕ
  pub semcnt : ℕ
  pub maxsem : ℕ

-- FLGCB; its wait queue is `flg_que i`.
pub record Flgcb : Type 0 where
  pub flgid : ℕ
  pub exinf : ℕ
  pub flgatr : ℕ
  pub flgptn : ℕ

-- MBFCB; its wait queues are `smbf_que i` and `rmbf_que i`. `buffer` holds the bytes that the pointer
-- leads to, by their index.
pub record Mbfcb : Type 0 where
  pub mbfid : ℕ
  pub exinf : ℕ
  pub mbfatr : ℕ
  pub bufsz : ℕ
  pub maxmsz : ℕ
  pub frbufsz : ℕ
  pub head : ℕ
  pub tail : ℕ
  pub buffer : Bytes

-- MBXCB; its wait queue is `mbx_que i`. `headmsg` is mq_head.msgque[0], the address of a message.
pub record Mbxcb : Type 0 where
  pub mbxid : ℕ
  pub exinf : ℕ
  pub mbxatr : ℕ
  pub headmsg : ℕ
  pub mq_tail : ℕ

-- MPFCB; its wait queue is `mpf_que i` and its lock `mpf_lock i`. `mempool`, `unused` and `freelist` are
-- addresses.
pub record Mpfcb : Type 0 where
  pub mpfid : ℕ
  pub exinf : ℕ
  pub mpfatr : ℕ
  pub mpfcnt : ℕ
  pub blfsz : ℕ
  pub mpfsz : ℕ
  pub frbcnt : ℕ
  pub mempool : ℕ
  pub unused : ℕ
  pub freelist : ℕ

-- CYCCB; `time` is that of its timer event block, and `cychdr` is an address.
pub record Cyccb : Type 0 where
  pub exinf : ℕ
  pub cycatr : ℕ
  pub cychdr : ℕ
  pub cycstat : ℕ
  pub cyctim : ℕ
  pub time : ℕ

-- ALMCB
pub record Almcb : Type 0 where
  pub exinf : ℕ
  pub almatr : ℕ
  pub almhdr : ℕ
  pub almstat : ℕ
  pub time : ℕ

pub record Kernel : Type 0 where
  pub tcb : ℕ → Tcb
  -- RDYQUE: top_priority, tskque, bitmap, klocktsk
  pub top_priority : ℕ
  pub rdy_que : ℕ → List ℕ
  pub bitmap : Bytes
  pub klocktsk : ℕ
  -- the globals of task.c
  pub ctxtsk : ℕ
  pub schedtsk : ℕ
  pub dispatch_disabled : ℕ
  pub max_tskid : ℕ
  -- the CPU status: isTaskIndependent() and isDI(getCPSR())
  pub task_independent : Bool
  pub interrupt_disabled : Bool
  -- timer.c; `hw_timer_usec` is what the hardware timer shows
  pub timer_queue : List Event
  pub current_time : ℕ
  pub real_time_ofs : ℕ
  pub timer_period : ℕ
  pub hw_timer_usec : ℕ
  -- of each OBJLOCK its wait queue, and whether wtskq.next is other than NULL; of each SVCLOCK these, and
  -- `locklist`
  pub lock_que : ℕ → List ℕ
  pub lock_used : ℕ → Bool
  pub svc_que : ℕ → List ℕ
  pub svc_used : ℕ → Bool
  pub locklist : ℕ → ℕ
  -- the wait queues of the objects
  pub sem_que : ℕ → List ℕ
  pub flg_que : ℕ → List ℕ
  pub smbf_que : ℕ → List ℕ
  pub rmbf_que : ℕ → List ℕ
  pub mbx_que : ℕ → List ℕ
  pub mpf_que : ℕ → List ℕ
  -- the object tables and their free queues
  pub semcb : ℕ → Semcb
  pub free_semcb : List ℕ
  pub max_semid : ℕ
  pub flgcb : ℕ → Flgcb
  pub free_flgcb : List ℕ
  pub max_flgid : ℕ
  pub mbfcb : ℕ → Mbfcb
  pub free_mbfcb : List ℕ
  pub max_mbfid : ℕ
  pub mbxcb : ℕ → Mbxcb
  pub free_mbxcb : List ℕ
  pub max_mbxid : ℕ
  -- of the messages in the memory of tasks, by address: msgque[0] and msgpri
  pub nextmsg : ℕ → ℕ
  pub msgpri : ℕ → ℕ
  pub mpfcb : ℕ → Mpfcb
  pub free_mpfcb : List ℕ
  pub max_mpfid : ℕ
  -- FREEL of the free blocks, by address
  pub next_free : ℕ → ℕ
  pub cyccb : ℕ → Cyccb
  pub free_cyccb : List ℕ
  pub max_cycid : ℕ
  pub almcb : ℕ → Almcb
  pub free_almcb : List ℕ
  pub max_almid : ℕ

abbrev pub null : ℕ
null = 0

-- NUM_PRI
abbrev pub num_pri : ℕ
num_pri = 140

-- atr & mask is not 0
abbrev pub has : ℕ → ℕ → Bool
has atr mask = not (bit_and atr mask == 0)

-- Attributes and modes: TA_TPRI, TA_CNT, TA_WMUL, TA_DSNAME, TA_NODISWAI.
abbrev pub ta_tpri : ℕ
ta_tpri = 0x1

abbrev pub ta_cnt : ℕ
ta_cnt = 0x2

abbrev pub ta_wmul : ℕ
ta_wmul = 0x8

-- TA_MPRI
abbrev pub ta_mpri : ℕ
ta_mpri = 0x2

abbrev pub ta_dsname : ℕ
ta_dsname = 0x40

abbrev pub ta_nodiswai : ℕ
ta_nodiswai = 0x80

-- Wait factors: TTW_SEM, TTW_FLG, TTW_MBX, TTW_MPF, TTW_SMBF, TTW_RMBF.
abbrev pub ttw_sem : ℕ
ttw_sem = 0x4

abbrev pub ttw_flg : ℕ
ttw_flg = 0x8

abbrev pub ttw_mbx : ℕ
ttw_mbx = 0x40

abbrev pub ttw_mpf : ℕ
ttw_mpf = 0x2000

abbrev pub ttw_smbf : ℕ
ttw_smbf = 0x100

abbrev pub ttw_rmbf : ℕ
ttw_rmbf = 0x200

-- A 32-bit complement.
abbrev pub not32 : ℕ → ℕ
not32 x = 0xffff_ffff - x

-- The TCB of `t` rewritten.
abbrev pub set_tcb : ℕ → Tcb → Kernel → Kernel
set_tcb t c k = record k { tcb = upd k.tcb t c }

-- QueRemove(&tcb->tskque): the task leaves the queue that it is in.
unfoldable pub que_remove_tsk : ℕ → Kernel → Kernel
unfolding erase
que_remove_tsk t k = record k {
  rdy_que = λ p. erase t (k.rdy_que p);
  lock_que = λ i. erase t (k.lock_que i);
  sem_que = λ i. erase t (k.sem_que i);
  flg_que = λ i. erase t (k.flg_que i);
  smbf_que = λ i. erase t (k.smbf_que i);
  rmbf_que = λ i. erase t (k.rmbf_que i);
  mbx_que = λ i. erase t (k.mbx_que i);
  mpf_que = λ i. erase t (k.mpf_que i);
  svc_que = λ i. erase t (k.svc_que i);
}

-- in_indp()
abbrev pub in_indp : Kernel → Bool
in_indp k = k.task_independent || (k.ctxtsk == null)

-- in_ddsp()
abbrev pub in_ddsp : Kernel → Bool
in_ddsp k = not (k.dispatch_disabled == 0) || (in_indp k || k.interrupt_disabled)
