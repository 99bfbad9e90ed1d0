-- ===== src/Timer/Order.antt =====
-- The order of the timer queue, by the time that is left until each event is due.
use open_t_kernel.Base.{
  ℕ, ◌≡◌, ◌↔◌, ◌≤◌, ◌<◌, ◌+◌, ◌-◌, ◌%◌, ◌^◌, arith, List, [], ◌∷◌, All, All-map, Bool-cases, inl,
  inr, ltb,
}
use open_t_kernel.Base.Int.{pos}
use open_t_kernel.Kernel.{Kernel, Event, Tmeb}
use open_t_kernel.Timer.{ll_lt, ll_add, insert_event, enqueue_tmeb, timer_insert}

-- What is left at time `now` until time `time`, on the clock of 64 bits.
abbrev pub left_until : ℕ → ℕ → ℕ
left_until now time = (time + 2 ^ 64 - now) % 2 ^ 64

-- Less than half a turn of the clock is left.
abbrev pub Ahead : ℕ → Event → Type 0
Ahead now e = (e.time < 2 ^ 64) × (left_until now e.time < 2 ^ 63)

-- Events that are ahead, the earlier before the later.
abbrev pub InOrder : ℕ → List Event → Type 0
InOrder now [] = Unit
InOrder now (e ∷ q) =
    Ahead now e
    × All (λ (x : Event). left_until now e.time ≤ left_until now x.time) q
    × InOrder now q

-- The difference of two times tells which is due first.
ll_lt-left_until :
    (now a b : ℕ)
    → now < 2 ^ 64
    → a < 2 ^ 64
    → b < 2 ^ 64
    → left_until now a < 2 ^ 63
    → left_until now b < 2 ^ 63
    → ll_lt a b ≡ ltb (left_until now a) (left_until now b)
ll_lt-left_until now a b n p q s t = ground arith

-- The events after an insertion are those before it and the new one.
insert_event-All :
    (P : Event → Type 0) (e : Event) (q : List Event) → All P (insert_event e q) ↔ (P e × All P q)
unfolding insert_event
insert_event-All P e [] = (λ h. h, λ h. h)
insert_event-All P e (x ∷ q) =
    let rest = insert_event-All P e q in
    elim (Bool-cases (ll_lt e.time x.time)) [
      | inl l ↦ rw l (λ h. h, λ h. h)
      | inr l ↦
          rw l (λ h. let r = rest.0 h.1 in (r.0, (h.0, r.1)), λ h. (h.1.0, rest.1 (h.0, h.1.1)))
    ]

insert_event-InOrder :
    (now : ℕ) (e : Event) (q : List Event)
    → now < 2 ^ 64
    → Ahead now e
    → InOrder now q
    → InOrder now (insert_event e q)
unfolding insert_event
insert_event-InOrder now e [] n a h = (a, tt, tt)
insert_event-InOrder now e (x ∷ q) n a (b, after, h) =
    let earlier = ll_lt-left_until now e.time x.time n a.0 b.0 a.1 b.1 in
    elim (Bool-cases (ll_lt e.time x.time)) [
      | inl l ↦
          let le : left_until now e.time ≤ left_until now x.time = ground (arith, earlier, l) in
          rw l (
            a,
            (
              le,
              All-map (λ (y : Event). left_until now x.time ≤ left_until now y.time)
                  (λ (y : Event). left_until now e.time ≤ left_until now y.time) q
                  (λ y o. omega (arith, le, o)) after,
            ),
            (b, after, h),
          )
      | inr l ↦
          let ge : left_until now x.time ≤ left_until now e.time = ground (arith, earlier, l) in
          rw l (
            b,
            (insert_event-All (λ (y : Event). left_until now x.time ≤ left_until now y.time) e q).1
                (ge, after),
            insert_event-InOrder now e q n a h,
          )
    ]

-- The event that timer_insert makes.
abbrev pub event_of : Tmeb → ℕ → Kernel → Event
event_of b tmout k = record {
  time = ll_add (ll_add k.current_time tmout) k.hw_timer_usec;
  tmeb = b;
}

left_until-event_of :
    (now tmout hw : ℕ)
    → now < 2 ^ 64
    → tmout + hw < 2 ^ 63
    → left_until now (ll_add (ll_add now tmout) hw) ≡ tmout + hw
left_until-event_of now tmout hw n h = ground arith

-- A timeout that, with the time since the last tick, is less than half a turn of the clock is due
-- after exactly that time. Its event joins the others, and the queue stays in the order in which its
-- events are due, though the clock may turn over in between.
pub timer_insert-InOrder :
    (b : Tmeb) (tmout : ℕ) (k : Kernel)
    → k.current_time < 2 ^ 64
    → tmout + k.hw_timer_usec < 2 ^ 63
    → InOrder k.current_time k.timer_queue
    → let q = (timer_insert b (pos tmout) k).timer_queue in
      InOrder k.current_time q
      × (left_until k.current_time (event_of b tmout k).time ≡ tmout + k.hw_timer_usec)
      × ((P : Event → Type 0) → All P q ↔ (P (event_of b tmout k) × All P k.timer_queue))
unfolding timer_insert enqueue_tmeb
timer_insert-InOrder b tmout k n h o =
    let e = event_of b tmout k in
    let d = left_until-event_of k.current_time tmout k.hw_timer_usec n h in
    (
      insert_event-InOrder k.current_time e k.timer_queue n (ground arith, omega (arith, d, h)) o,
      d,
      λ P. insert_event-All P e k.timer_queue,
    )
