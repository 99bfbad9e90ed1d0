-- ===== src/Lib.antt =====
-- T-Kernel: the scheduling and synchronisation core of the real-time kernel under tkernel_source.
--
-- A task is in the ready queue, in the wait queue of an object, or in none. System calls change the
-- state of tasks through task.c (make_ready, make_non_ready) and wait.c (make_wait, wait_release and
-- their variants for objects with a generic control block); these keep the ready queue, the wait
-- queues and the timer queue. Every system call works inside a critical section, and the dispatcher
-- runs at its end. A call is a function from the kernel at the start of the section to the kernel at
-- its end, with its error code; the model has no interrupt inside a section.
--
-- - Base: names passed on from the libraries, Boolean tests, lists without repetition, stores, and
--   INT arguments (Base/Int).
-- - Queue: include/sys/queue.h and lib/libsys/src/quetemplate.h, over a store of `next` and `prev`.
--   Queue/Ring says what list a ring holds.
-- - Bits: lib/libsys/src/bitset.c, bitclr.c, bittest.c and bitsearch1.c. Bits/Digits and Bits/Words
--   read words as digits; Bits/Search1 is about the search, Bits/Store about single bits.
-- - Kernel: the state; the TCB and control blocks of kernel/tkernel/src, and the CPU status tests of
--   kernel/sysdepend/cpu/em1d/cpu_status.h. A queue of tasks is a list here; what queue.h does to a
--   ring is what the list operations do to its list.
-- - ReadyQueue: kernel/tkernel/src/ready_queue.h. ReadyQueue/Top says how the bitmap and the highest
--   priority agree with the queues, ReadyQueue/Sound what the operations do to that.
-- - Task: kernel/tkernel/src/task.c. Task/Ready has the invariant of the ready queue, Task/Leave the
--   tasks that leave it; Task/Chosen and Task/Rechosen are about the task to execute, Task/Klock about
--   the one that holds the kernel lock.
-- - Timer: kernel/tkernel/src/timer.c and timer.h, on 64-bit times. Timer/Order has the
--   order of the queue.
-- - Delay: tk_dly_tsk and tk_dly_tsk_u of kernel/tkernel/src/time_calls.c, with Delay/Calls.
-- - Cyclic, Alarm and Clock: kernel/tkernel/src/time_calls.c; Cyclic/Next is about the next start of a
--   cyclic handler. TimerHandler: timer_handler of timer.c; TimerHandler/Due is about what it leaves.
-- - Wait: kernel/tkernel/src/wait.c and wait.h. Wait/Inv has the invariant of the wait queues,
--   Wait/Enter and Wait/Sleeps the way into the wait state, Wait/Release the way out; Wait/Frame and
--   Wait/Fields say what neither of them touches.
-- - Semaphore: kernel/tkernel/src/semaphore.c. Semaphore/Spec says which tasks of a line get counts,
--   by the numbers alone; Semaphore/Inv has the invariant.
-- - EventFlag: kernel/tkernel/src/eventflag.c. EventFlag/Cond is about wait conditions, EventFlag/Inv
--   has the invariant.
-- - TaskSync: kernel/tkernel/src/task_sync.c. TaskSync/Inv is about sleep, wakeup and task events,
--   TaskSync/Suspend and TaskSync/Resume about suspension, TaskSync/History about sequences of calls.
-- - MsgRing: the ring of a message buffer in kernel/tkernel/src/messagebuf.c, on bytes. MsgRing/Stored
--   says which messages it holds, MsgRing/Store and MsgRing/Fetch are about the two ends.
-- - MessageBuf: the system calls of messagebuf.c; MessageBuf/Wakeup is about the tasks that wait to
--   send.
-- - Klock: kernel/tkernel/src/klock.c. Klock/Exclusive is about who holds a lock, with steps for calls
--   and other events, Klock/Handover about the task that gets it next.
-- - FastLock: lib/libtk/src/fastlock.c. Counting a task in and its call of the kernel are one step.
--   FastLock/Calls is about the semaphore as a lock.
-- - MemPool: kernel/tkernel/src/mempfix.c. MemPool/Blocks says which blocks of a pool are free and in
--   use, MemPool/Calls is about the calls that take and return one. A call that has to wait for the
--   lock of its pool answers `none`, and goes on later with its second part.
-- - Mailbox: kernel/tkernel/src/mailbox.c, with the chain of messages as a store of next messages.
--   Mailbox/Chain reads it as a list; Mailbox/Insert and Mailbox/Calls are about sending and receiving.
-- - StringLib: the memory functions of lib/libstr/src/string.c. StringLib/Copy and StringLib/Down are
--   about copies upwards and downwards, StringLib/Fill about memset. StringText: its functions on text.
-- - Printf: lib/libtm/src/tm_printf.c; Printf/Format has the conversions, Printf/Total is about the end of
--   the loop over a format, Printf/Reads about the arguments it reads, Printf/Digits about the digits of
--   numbers.
-- - Example and Tests: a concrete kernel, and the theorems at it.
--
-- The search through a ring has a fuel of one round for each entry and one more. The search for a
-- bit has one for each bit of the range and one more, since every round but the last skips at least
-- one bit. The loop of timer_handler has one for each event on the timer queue and one more, since
-- each round but the last takes an event off. The handlers of applications are an argument.
-- The loops of StringText take their fuel as an argument and are `none` where it is spent;
-- so do the search for the place of a message in a mailbox, the loop over a format (a round for each
-- character and one more) and the loop of AllUnlockSVC.
--
-- Not modelled: object names (USE_OBJECT_NAME), the calls for debuggers, the contexts of tasks and
-- the dispatcher, memory, devices, drivers and the monitor. The CPU status, the hardware timer and
-- the answers of _tk_get_cfn, Imalloc and IAmalloc are parts of the state or arguments.
pub mod Base
pub mod MsgRing
pub mod StringLib
pub mod Cyclic
pub mod Alarm
pub mod Clock
pub mod Delay
pub mod TimerHandler
pub mod MessageBuf
pub mod StringText
pub mod Mailbox
pub mod Klock
pub mod MemPool
pub mod Printf
pub mod FastLock
pub mod Queue
pub mod Bits
pub mod Kernel
pub mod Example
pub mod Tests
pub mod ReadyQueue
pub mod Task
pub mod Timer
pub mod Wait
pub mod Semaphore
pub mod EventFlag
pub mod TaskSync
