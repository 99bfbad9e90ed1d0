-- ===== src/TimerHandler/Tests.antt =====
-- The theorems on timer_handler and cyclic handlers, at concrete kernels.
use open_t_kernel.Base.{ℕ, ◌≡◌, ◌<◌, ◌≤◌, ◌+◌, refl, arith, some, [], ◌∷◌}
use open_t_kernel.Kernel.{Kernel, Cyccb, wtmeb}
use open_t_kernel.Timer.Order.{left_until}
use open_t_kernel.Cyclic.{User, cyc_next_time}
use open_t_kernel.Cyclic.Next.{start_after, cyc_next_time_lem}
use open_t_kernel.TimerHandler.{timer_handler}
use open_t_kernel.TimerHandler.Due.{Done, timer_handler-Done}
use open_t_kernel.Example.{kernel}

-- The timeouts of tasks 2 and 3: one is due at the next tick.
abbrev ticking : Kernel
ticking = record kernel {
  timer_queue =
      record { time = 9000; tmeb = wtmeb 2 } ∷ record { time = 30000; tmeb = wtmeb 3 } ∷ [];
}

abbrev idle : User
idle handler exinf k = k

timer_handler-Done_example :
    (k' : Kernel) × (timer_handler 3 idle ticking ≡ some k') × Done 15000 k'
timer_handler-Done_example =
    timer_handler-Done idle ticking (omega arith) (omega arith)
      ((omega arith, omega arith), (omega arith, tt), ((omega arith, omega arith), tt, tt))
      (tt, (tt, tt))

-- Cycles of 3000 from 9000 on; three starts are late.
abbrev cycles : Cyccb
cycles = record { exinf = 0; cycatr = 0; cychdr = 700; cycstat = 1; cyctim = 3000; time = 9000 }

cyc_next_time_lem_example :
    (0 < left_until 16500 (cyc_next_time cycles 16500))
    × (left_until 16500 (cyc_next_time cycles 16500) ≤ 3000)
    × ((n : ℕ) × (cyc_next_time cycles 16500 ≡ start_after (n + 1) cycles))
cyc_next_time_lem_example =
    cyc_next_time_lem cycles 16500 (omega arith) (omega arith) (omega arith) (omega arith)
      (omega arith)

next_start : cyc_next_time cycles 16500 ≡ 18000
unfolding cyc_next_time
next_start = refl
