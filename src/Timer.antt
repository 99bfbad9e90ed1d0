-- ===== src/Timer.antt =====
-- kernel/tkernel/src/timer.c: the timer event queue. Times are 64-bit words (longlong).
pub mod Order
use open_t_kernel.Base.{
  ℕ, Bool, true, false, ◌==◌, leb, ltb, ◌&&◌, if◌then◌else◌, List, [], ◌∷◌, ◌+◌, ◌-◌, ◌%◌, ◌^◌, ◌*◌,
}
use open_t_kernel.Base.Int.{ℤ, pos, negsuc}
use open_t_kernel.Kernel.{Kernel, Event, Tmeb, tmeb_eq}

-- ll_add
abbrev pub ll_add : ℕ → ℕ → ℕ
ll_add a b = (a + b) % 2 ^ 64

-- ll_cmp(a, b) < 0: the difference is a negative longlong.
abbrev pub ll_lt : ℕ → ℕ → Bool
ll_lt a b = leb (2 ^ 63) ((a + 2 ^ 64 - b) % 2 ^ 64)

-- ll_cmp(a, b) > 0
abbrev pub ll_gt : ℕ → ℕ → Bool
ll_gt a b = ltb 0 ((a + 2 ^ 64 - b) % 2 ^ 64) && ltb ((a + 2 ^ 64 - b) % 2 ^ 64) (2 ^ 63)

-- ll_sub
abbrev pub ll_sub : ℕ → ℕ → ℕ
ll_sub a b = (a + 2 ^ 64 - b) % 2 ^ 64

-- ltoll of a TMO_U
abbrev pub ltoll : ℤ → ℕ
ltoll (pos n) = n
ltoll (negsuc n) = 2 ^ 64 - 1 - n

-- tmout == TMO_FEVR
abbrev pub is_fevr : ℤ → Bool
is_fevr (pos n) = false
is_fevr (negsuc n) = n == 0

-- tmout == TMO_POL
abbrev pub is_pol : ℤ → Bool
is_pol (pos n) = n == 0
is_pol (negsuc n) = false

-- tmout >= TMO_FEVR
abbrev pub chk_tmout : ℤ → Bool
chk_tmout (pos n) = true
chk_tmout (negsuc n) = n == 0

-- to_usec_tmo
abbrev pub to_usec_tmo : ℤ → ℤ
to_usec_tmo (pos n) = pos (n * 1000)
to_usec_tmo (negsuc n) = negsuc n

-- The loop of enqueue_tmeb and its QueInsert: before the first event that is later.
unfoldable pub insert_event : Event → List Event → List Event
insert_event e [] = e ∷ []
insert_event e (q ∷ qs) = if ll_lt e.time q.time then e ∷ q ∷ qs else q ∷ insert_event e qs

-- enqueue_tmeb
unfoldable pub enqueue_tmeb : Event → Kernel → Kernel
unfolding insert_event
enqueue_tmeb e k = record k { timer_queue = insert_event e k.timer_queue }

-- timer_insert
unfoldable pub timer_insert : Tmeb → ℤ → Kernel → Kernel
unfolding enqueue_tmeb
timer_insert event tmout k =
    if is_fevr tmout
    then k
    else enqueue_tmeb
        (record {
          time = ll_add (ll_add k.current_time (ltoll tmout)) k.hw_timer_usec;
          tmeb = event;
        })
        k

-- timer_insert_reltim
unfoldable pub timer_insert_reltim : Tmeb → ℕ → Kernel → Kernel
unfolding enqueue_tmeb
timer_insert_reltim event tmout k =
    enqueue_tmeb
      (record { time = ll_add (ll_add k.current_time tmout) k.hw_timer_usec; tmeb = event }) k

-- timer_insert_abs
unfoldable pub timer_insert_abs : Tmeb → ℕ → Kernel → Kernel
unfolding enqueue_tmeb
timer_insert_abs event time k = enqueue_tmeb (record { time = time; tmeb = event }) k

-- The queue without the block `b`.
unfoldable pub remove_event : Tmeb → List Event → List Event
remove_event b [] = []
remove_event b (q ∷ qs) = if tmeb_eq q.tmeb b then qs else q ∷ remove_event b qs

-- timer_delete: QueRemove(&event->queue)
unfoldable pub timer_delete : Tmeb → Kernel → Kernel
unfolding remove_event
timer_delete b k = record k { timer_queue = remove_event b k.timer_queue }
