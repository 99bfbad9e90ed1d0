-- ===== src/TimerHandler/Due.antt =====
-- kernel/tkernel/src/timer.c: timer_handler runs what is due, and ends.
use open_t_kernel.Base.{
  ℕ, zero, suc, ◌≡◌, ◌≤◌, ◌<◌, refl, sym, ap, ◌∙◌, subst, arith, true, false, Bool-cases, inl, inr,
  if_rule, List, [], ◌∷◌, All, All-map, length, ◌==◌, ltb, ltb→lt, not, some, ◌+◌, ◌-◌, ◌^◌,
}
use open_t_kernel.Kernel.{Kernel, Event, Tmeb, wtmeb, cyctmeb, almtmeb, que_remove_tsk, null}
use open_t_kernel.Timer.{ll_add, ll_gt}
use open_t_kernel.Timer.Order.{left_until, InOrder}
use open_t_kernel.Task.{time_slice_schedule}
use open_t_kernel.ReadyQueue.{ready_queue_move_last}
use open_t_kernel.Cyclic.{User}
use open_t_kernel.TimerHandler.{callback, run_events, count_time, timer_handler}
use open_t_kernel.TimerHandler.Frame.{
  Sublist, none_left, kept, dropped, Sublist-All, Sublist-length, Fewer, wait_release_tmout-Fewer,
}

-- The block of a task's timeout.
abbrev pub OfTask : Tmeb → Type 0
OfTask (wtmeb t) = Unit
OfTask (cyctmeb i) = ⊥
OfTask (almtmeb i) = ⊥

abbrev pub IsTimeout : Event → Type 0
IsTimeout e = OfTask e.tmeb

callback-Fewer : (user : User) (b : Tmeb) (k : Kernel) → OfTask b → Fewer k (callback user b k)
unfolding callback
callback-Fewer user (wtmeb t) k h = wait_release_tmout-Fewer t k
callback-Fewer user (cyctmeb i) k h = absurd h
callback-Fewer user (almtmeb i) k h = absurd h

-- The event is due later than `now`, within half a turn of the clock.
abbrev pub Later : ℕ → Event → Type 0
Later now e = (0 < left_until now e.time) × (left_until now e.time < 2 ^ 63)

-- Where the loop stops.
abbrev pub Done : ℕ → Kernel → Type 0
Done now k' =
    (k'.current_time ≡ now)
    × InOrder now k'.timer_queue
    × All (Later now) k'.timer_queue
    × All IsTimeout k'.timer_queue

-- One round of the loop.
stop_round :
    (fuel : ℕ) (user : User) (k : Kernel)
    → k.timer_queue ≡ []
    → run_events (suc fuel) user k ≡ some k
unfolding run_events
stop_round fuel user k e = rw e refl

next_round :
    (fuel : ℕ) (user : User) (k : Kernel) (e : Event) (q : List Event)
    → k.timer_queue ≡ e ∷ q
    → ll_gt e.time k.current_time ≡ false
    → run_events (suc fuel) user k
      ≡ run_events fuel user (callback user e.tmeb (record k { timer_queue = q }))
unfolding run_events
next_round fuel user k e q h g = rw (h, g) refl

last_round :
    (fuel : ℕ) (user : User) (k : Kernel) (e : Event) (q : List Event)
    → k.timer_queue ≡ e ∷ q
    → ll_gt e.time k.current_time ≡ true
    → run_events (suc fuel) user k ≡ some k
unfolding run_events
last_round fuel user k e q h g = rw (h, g) refl

Sublist-InOrder : (base : ℕ) {p q : List Event} → Sublist p q → InOrder base q → InOrder base p
Sublist-InOrder base none_left o = tt
Sublist-InOrder base (kept e s) (a, b, o) = (a, Sublist-All _ s b, Sublist-InOrder base s o)
Sublist-InOrder base (dropped e s) (a, b, o) = Sublist-InOrder base s o

-- Time goes on from `base` by `step`.
module _ (base step : ℕ) (b : base < 2 ^ 64) (l : step < 2 ^ 62) where
  abbrev now : ℕ
  now = ll_add base step

  -- A time is later than `now` where more than `step` was left.
  later_iff :
      (t : ℕ) → t < 2 ^ 64 → left_until base t < 2 ^ 63 → ll_gt t now ≡ ltb step (left_until base t)
  later_iff t a c = ground arith

  left_now :
      (t : ℕ)
      → t < 2 ^ 64
      → left_until base t < 2 ^ 63
      → step < left_until base t
      → left_until now t ≡ left_until base t - step
  left_now t a c d = ground arith

  -- More than `step` is left of each, and they are in the order of what is left then.
  on :
      (q : List Event)
      → InOrder base q
      → All (λ (e : Event). step < left_until base e.time) q
      → InOrder now q × All (Later now) q
  on [] o a = (tt, tt)
  on (e ∷ q) ((t, h), c, o) (d, a) =
      let w = left_now e.time t h d in
      let rest = on q o a in
      (
        ((t, omega (arith, w, h)), shifted q c o a, rest.0),
        ((omega (arith, w, d), omega (arith, w, h)), rest.1),
      )
    where
      shifted :
          (q : List Event)
          → All (λ (x : Event). left_until base e.time ≤ left_until base x.time) q
          → InOrder base q
          → All (λ (x : Event). step < left_until base x.time) q
          → All (λ (x : Event). left_until now e.time ≤ left_until now x.time) q
      shifted [] c o a = tt
      shifted (x ∷ q) (u, c) ((v, g), o, r) (f, a) =
          let w = left_now e.time t h d in
          let y = left_now x.time v g f in (omega (arith, w, y, u), shifted q c r a)

  stopped :
      (k : Kernel) (e : Event) (q : List Event)
      → k.timer_queue ≡ e ∷ q
      → k.current_time ≡ now
      → InOrder base (e ∷ q)
      → All IsTimeout (e ∷ q)
      → ll_gt e.time now ≡ true
      → Done now k
  stopped k e q h t (a, c, o) w g =
      let f : step < left_until base e.time = ltb→lt _ _ (sym (later_iff e.time a.0 a.1) ∙ g) in
      let r =
        on (e ∷ q) (a, c, o)
          (
            f,
            All-map (λ (x : Event). left_until base e.time ≤ left_until base x.time)
                (λ (x : Event). step < left_until base x.time) q (λ x u. omega (arith, u, f)) c,
          ) in
      (
        t,
        subst (InOrder now) (sym h) r.0,
        subst (All (Later now)) (sym h) r.1,
        subst (All IsTimeout) (sym h) w,
      )

  run_events_lem :
      (fuel : ℕ) (user : User) (k : Kernel) (q : List Event)
      → k.timer_queue ≡ q
      → length q < fuel
      → k.current_time ≡ now
      → InOrder base q
      → All IsTimeout q
      → (k' : Kernel) × (run_events fuel user k ≡ some k') × Done now k'
  run_events_lem zero user k q e h t o w = absurd (omega arith)
  run_events_lem (suc fuel) user k [] e h t o w = (
    k,
    stop_round fuel user k e,
    (
      t,
      subst (InOrder now) (sym e) tt,
      subst (All (Later now)) (sym e) tt,
      subst (All IsTimeout) (sym e) tt,
    ),
  )
  run_events_lem (suc fuel) user k (x ∷ q) e h t o w = elim (Bool-cases (ll_gt x.time now)) [
    | inl g ↦ (k, last_round fuel user k x q e (ap (ll_gt x.time) t ∙ g), stopped k x q e t o w g)
    | inr g ↦
        let k1 = record k { timer_queue = q } in
        let f = callback-Fewer user x.tmeb k1 w.0 in
        let (k', r, d) =
          run_events_lem fuel user (callback user x.tmeb k1) (callback user x.tmeb k1).timer_queue
            refl (omega (arith, Sublist-length f.1, h)) (f.0 ∙ t) (Sublist-InOrder base f.1 o.2)
            (Sublist-All IsTimeout f.1 w.1) in
        (k', next_round fuel user k x q e (ap (ll_gt x.time) t ∙ g) ∙ r, d)
  ]

-- The part on the task in execution leaves the clock and the timer queue alone.
slice_same :
    (t : ℕ) (k : Kernel)
    → ((time_slice_schedule t k).1.current_time ≡ k.current_time)
      × ((time_slice_schedule t k).1.timer_queue ≡ k.timer_queue)
unfolding time_slice_schedule ready_queue_move_last que_remove_tsk
slice_same t k = (ground arith, ground arith)

count_time_same :
    (k : Kernel)
    → ((count_time k).current_time ≡ k.current_time) × ((count_time k).timer_queue ≡ k.timer_queue)
unfolding count_time
count_time_same k =
    if_rule (λ (x : Kernel). (x.current_time ≡ k.current_time) × (x.timer_queue ≡ k.timer_queue))
      (not (k.ctxtsk == null)) _ k
      (λ _.
        if_rule
          (λ (x : Kernel). (x.current_time ≡ k.current_time) × (x.timer_queue ≡ k.timer_queue))
          (k.schedtsk == k.ctxtsk) _ _ (λ _. slice_same k.ctxtsk _) (λ _. (refl, refl)))
      (λ _. (refl, refl))

-- Where the timer queue holds the timeouts of tasks, in the order in which they are due, and the
-- period is below 2 ^ 62, timer_handler ends in one round more than there are events: the clock is a
-- period further, each event that is left on the queue is due later than that, and they are in order
-- for the next tick.
pub timer_handler-Done :
    (user : User) (k : Kernel)
    → k.current_time < 2 ^ 64
    → k.timer_period < 2 ^ 62
    → InOrder k.current_time k.timer_queue
    → All IsTimeout k.timer_queue
    → (k' : Kernel) × (timer_handler (length k.timer_queue + 1) user k ≡ some k')
      × Done (ll_add k.current_time k.timer_period) k'
unfolding timer_handler
timer_handler-Done user k b l o w =
    let k1 = record k { current_time = ll_add k.current_time k.timer_period } in
    let s = count_time_same k1 in
    run_events_lem k.current_time k.timer_period b l (length k.timer_queue + 1) user (count_time k1)
      k.timer_queue s.1 (omega arith) s.0 o w
