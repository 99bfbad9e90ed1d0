-- ===== src/ReadyQueue.antt =====
-- kernel/tkernel/src/ready_queue.h: the ready queue, one list for each priority.
pub mod Frame
pub mod Top
pub mod Sound
use open_t_kernel.Base.{
  ℕ, Bool, true, false, not, ◌==◌, ltb, if◌then◌else◌, List, [], ◌∷◌, ◌++◌, upd, erase, ◌+◌, ◌-◌,
}
use open_t_kernel.Bits.{bit_set, bit_clr, bit_search1_w, Search, found, absent, out_of_fuel}
use open_t_kernel.Kernel.{Kernel, Tcb, null, num_pri, set_tcb, que_remove_tsk}

-- que->next of a queue of tasks: its first task. Where the queue is empty the source reads the `null`
-- field (at priority NUM_PRI).
abbrev pub head_or_null : List ℕ → ℕ
head_or_null [] = null
head_or_null (t ∷ ts) = t

abbrev pub is_nil : List ℕ → Bool
is_nil [] = true
is_nil (t ∷ ts) = false

-- ready_queue_initialize
unfoldable pub ready_queue_initialize : Kernel → Kernel
ready_queue_initialize k = record k {
  top_priority = num_pri;
  rdy_que = λ p. [];
  bitmap = λ i. 0;
  klocktsk = null;
}

-- ready_queue_top
unfoldable pub ready_queue_top : Kernel → ℕ
ready_queue_top k =
    if not (k.klocktsk == null) then k.klocktsk else head_or_null (k.rdy_que k.top_priority)

-- ready_queue_top_priority
abbrev pub ready_queue_top_priority : Kernel → ℕ
ready_queue_top_priority k = k.top_priority

-- ready_queue_insert, with its result
unfoldable pub ready_queue_insert : ℕ → Kernel → Bool × Kernel
ready_queue_insert t k =
    let priority = (k.tcb t).priority in
    (
      ltb priority k.top_priority,
      record k {
        tcb = upd k.tcb t (record (k.tcb t) { slicecnt = 0 });
        rdy_que = upd k.rdy_que priority (k.rdy_que priority ++ t ∷ []);
        bitmap = bit_set k.bitmap priority;
        klocktsk = if (k.tcb t).klocked then t else k.klocktsk;
        top_priority = if ltb priority k.top_priority then priority else k.top_priority;
      },
    )

-- ready_queue_insert_top
unfoldable pub ready_queue_insert_top : ℕ → Kernel → Kernel
ready_queue_insert_top t k =
    let priority = (k.tcb t).priority in
    record k {
      rdy_que = upd k.rdy_que priority (t ∷ k.rdy_que priority);
      bitmap = bit_set k.bitmap priority;
      klocktsk = if (k.tcb t).klocked then t else k.klocktsk;
      top_priority = if ltb priority k.top_priority then priority else k.top_priority;
    }

-- The end of ready_queue_delete: the search for the second highest priority.
unfoldable pub next_top : Search → ℕ → ℕ
next_top (found i) priority = priority + i
next_top s priority = num_pri

-- ready_queue_delete from the test of `isQueEmpty` on
unfoldable pub ready_queue_shrink : ℕ → Kernel → Kernel
ready_queue_shrink priority k =
    if not (is_nil (k.rdy_que priority))
    then k
    else (let k1 = record k { bitmap = bit_clr k.bitmap priority } in
        if not (priority == k.top_priority) then k1 else record k1 {
          top_priority =
              next_top (bit_search1_w (bit_clr k.bitmap priority) priority (num_pri - priority))
                priority;
        })

-- ready_queue_delete
unfoldable pub ready_queue_delete : ℕ → Kernel → Kernel
ready_queue_delete t k =
    let k1 = record k { klocktsk = if k.klocktsk == t then null else k.klocktsk } in
    let k2 = que_remove_tsk t k1 in
    if (k.tcb t).klockwait
    then set_tcb t (record (k.tcb t) { klockwait = false }) k2
    else ready_queue_shrink (k.tcb t).priority k2

-- ready_queue_rotate; an empty queue has no task whose `slicecnt` could be cleared
unfoldable pub ready_queue_rotate : ℕ → Kernel → Kernel
ready_queue_rotate priority k = elim (k.rdy_que priority) [
  | [] ↦ k
  | t ∷ ts ↦ record k {
    rdy_que = upd k.rdy_que priority (ts ++ t ∷ []);
    tcb = upd k.tcb t (record (k.tcb t) { slicecnt = 0 });
  }
]

-- ready_queue_move_last, with the new head of the queue
unfoldable pub ready_queue_move_last : ℕ → Kernel → ℕ × Kernel
ready_queue_move_last t k =
    let priority = (k.tcb t).priority in
    let k1 = que_remove_tsk t k in
    let k2 = record k1 {
      rdy_que = upd k1.rdy_que priority (k1.rdy_que priority ++ t ∷ []);
      tcb = upd k1.tcb t (record (k1.tcb t) { slicecnt = 0 });
    } in
    (head_or_null (k2.rdy_que priority), k2)
