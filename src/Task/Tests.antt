-- ===== src/Task/Tests.antt =====
-- The theorems on the ready queue's bitmap and on schedtsk, at kernels that start empty.
use open_t_kernel.Base.{◌≡◌, ◌<◌, refl, arith, false, ◌==◌, if◌then◌else◌, if_rule}
use open_t_kernel.Bits.{Bytes, bit_search1_w, word, lowest, found}
use open_t_kernel.Bits.Search1.{FirstOne, bit_search1_w-FirstOne}
use open_t_kernel.Kernel.{Kernel, null, set_tcb}
use open_t_kernel.ReadyQueue.{ready_queue_initialize, ready_queue_insert}
use open_t_kernel.Task.{make_ready, make_non_ready, time_slice_schedule}
use open_t_kernel.Task.Chosen.{Chosen, make_ready-Chosen}
use open_t_kernel.Task.Rechosen.{make_non_ready-Chosen, initialize-Chosen}
use open_t_kernel.Example.{kernel}

-- Task 1 has priority 5.
abbrev started : Kernel
started = set_tcb 1 (record (kernel.tcb 1) { priority = 5 }) (record kernel { schedtsk = null })

-- Task 4 of priority 10 is ready.
abbrev one_ready : Kernel
one_ready = make_ready 4 (ready_queue_initialize started)

one_ready-Chosen : Chosen one_ready
unfolding ready_queue_initialize
one_ready-Chosen =
    make_ready-Chosen 4 (ready_queue_initialize started)
      (initialize-Chosen started refl (λ u. ground arith)) (λ p. ground arith) (omega arith) refl

same_priority : (one_ready.tcb 1).priority ≡ 5
unfolding make_ready ready_queue_insert ready_queue_initialize time_slice_schedule
same_priority = refl

same_klockwait : (one_ready.tcb 1).klockwait ≡ false
unfolding make_ready ready_queue_insert ready_queue_initialize time_slice_schedule
same_klockwait = refl

make_ready-Chosen_example : Chosen (make_ready 1 one_ready)
make_ready-Chosen_example =
    make_ready-Chosen 1 one_ready one_ready-Chosen (λ p. ground arith)
      (rw same_priority (omega arith)) same_klockwait

make_non_ready-Chosen_example : Chosen (make_non_ready 1 one_ready)
make_non_ready-Chosen_example =
    make_non_ready-Chosen 1 one_ready one_ready-Chosen (rw same_priority (omega arith))

-- Bits 42 and 47 are set.
abbrev bits : Bytes
bits i = if i == 5 then 132 else 0

bit_search1_w-FirstOne_example : FirstOne bits 3 90 (bit_search1_w bits 3 90)
bit_search1_w-FirstOne_example =
    bit_search1_w-FirstOne bits 3 90
      (λ i. if_rule (λ x. x < 256) (i == 5) 132 0 (λ _. omega arith) (λ _. omega arith))
      (omega arith)

bit_search1_w_42 : bit_search1_w bits 3 90 ≡ found 39
unfolding bit_search1_w word lowest
bit_search1_w_42 = refl
