-- ===== src/FastLock.antt =====
-- lib/libtk/src/fastlock.c: a lock in user space over a semaphore. `cnt` is the 32-bit pattern of the number
-- of tasks that hold the lock or wait for it, less one. Where a call has to wait, the kernel is the one
-- in which the task has gone to sleep.
pub mod Calls
mod Tests
use open_t_kernel.Base.{ℕ, ◌+◌, ◌%◌, ◌^◌, Bool, ◌==◌, ltb, if◌then◌else◌}
use open_t_kernel.Base.Int.{ℤ, pos, negsuc, is_int_positive}
use open_t_kernel.Kernel.{Kernel, Er, ret, e_ok}
use open_t_kernel.Semaphore.{Csem, tk_cre_sem, tk_del_sem, tk_sig_sem, tk_wai_sem}

pub record FastLock : Type 0 where
  pub cnt : ℕ
  pub id : ℕ

-- Inc: the counter incremented
abbrev pub inc : FastLock → FastLock
inc l = record l { cnt = (l.cnt + 1) % 2 ^ 32 }

-- Dec: the counter decremented; its result is the counter before
abbrev pub dec : FastLock → FastLock
dec l = record l { cnt = (l.cnt + 0xffff_ffff) % 2 ^ 32 }

-- Lock
unfoldable pub lock : FastLock → Kernel → FastLock × Kernel
lock l k = (
  inc l,
  if is_int_positive (inc l).cnt then (tk_wai_sem (pos l.id) (pos 1) (negsuc 0) k).1 else k,
)

-- Unlock
unfoldable pub unlock : FastLock → Kernel → FastLock × Kernel
unlock l k = (dec l, if is_int_positive l.cnt then (tk_sig_sem (pos l.id) (pos 1) k).1 else k)

-- What CreateLock leaves of the answer of tk_cre_sem.
abbrev pub made : FastLock → Er → Er × FastLock
made l (ret id) = (e_ok, record { cnt = 0xffff_ffff; id = id })
made l ercd = (ercd, l)

-- CreateLock, where `exinf` is made of the name
unfoldable pub create_lock : ℕ → FastLock → Kernel → (Er × FastLock) × Kernel
create_lock exinf l k =
    let csem : Csem = record { exinf = exinf; sematr = 0x81; isemcnt = pos 0; maxsem = pos 1 } in
    let (ercd, k1) = tk_cre_sem csem k in (made l ercd, k1)

-- DeleteLock
unfoldable pub delete_lock : FastLock → Kernel → FastLock × Kernel
delete_lock l k = (record l { id = 0 }, if ltb 0 l.id then (tk_del_sem (pos l.id) k).1 else k)
