-- ===== src/MessageBuf/Tests.antt =====
-- The system calls on message buffers, at the kernel of `Example` with two tasks that wait to send.
use open_t_kernel.Base.{ℕ, ◌+◌, refl, arith, List, [], ◌∷◌, if◌then◌else◌, ◌==◌}
use open_t_kernel.Bits.{Bytes}
use open_t_kernel.Kernel.{Kernel, Tcb, wait, smbf, wspec_smbf_tfifo, set_tcb}
use open_t_kernel.MsgRing.Wrap.{wrap}
use open_t_kernel.MsgRing.Stored.{Holds}
use open_t_kernel.MessageBuf.{mbf_wakeup}
use open_t_kernel.MessageBuf.Wakeup.{Accepted, mbf_wakeup-Accepted}
use open_t_kernel.Example.{kernel}

-- Bytes 30, 31, ...
abbrev bytes : Bytes
bytes i = 30 + i

abbrev sender : ℕ → Kernel → Tcb
sender sz k = record (k.tcb 6) {
  state = wait;
  wspec = wspec_smbf_tfifo;
  wid = 1;
  winfo = smbf bytes sz;
}

-- Tasks 6 and 7 wait to send 5 and 9 bytes: the second message has no room behind the first.
abbrev senders : Kernel
senders = record (set_tcb 6 (sender 5 kernel) (set_tcb 7 (sender 9 kernel) kernel)) {
  smbf_que = λ i. if i == 1 then 6 ∷ 7 ∷ [] else [];
}

buffer-Holds : Holds (senders.mbfcb 1) []
unfolding wrap
buffer-Holds = record {
  rounded = refl;
  is_int = omega arith;
  head_rounded = refl;
  head_in = omega arith;
  tail_at = refl;
  used = refl;
  stored = tt;
}

mbf_wakeup-Accepted_example :
    (served : List ℕ) × (waiting : List ℕ) × Accepted 1 senders
      (mbf_wakeup 1 (6 ∷ 7 ∷ []) senders)
      []
      (6 ∷ 7 ∷ [])
      served
      waiting
mbf_wakeup-Accepted_example =
    mbf_wakeup-Accepted 1 (6 ∷ 7 ∷ []) senders [] buffer-Holds (omega arith, (omega arith, tt))
