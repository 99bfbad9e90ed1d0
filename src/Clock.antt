-- ===== src/Clock.antt =====
-- kernel/tkernel/src/time_calls.c and timer.h: the system clock and the operating time.
use open_t_kernel.Base.{ℕ, not, if◌then◌else◌, ◌+◌, ◌*◌, ◌/◌, ◌%◌, ◌^◌}
use open_t_kernel.Base.Int.{ℤ, to_ℕ, is_natural}
use open_t_kernel.Kernel.{Kernel, Er, e_ok, e_par}
use open_t_kernel.Timer.{ll_add, ll_sub, ltoll}

-- SYSTIM: the upper and the lower 32 bits of a time in milliseconds.
pub record Systim : Type 0 where
  pub hi : ℕ
  pub lo : ℕ

-- toLSYSTIM
unfoldable pub to_lsystim : Systim → ℕ
to_lsystim time = (time.hi * 2 ^ 32 + time.lo) * 1000 % 2 ^ 64

-- toSYSTIM of a time that is not negative, with the rest in microseconds
unfoldable pub to_systim : ℕ → Systim × ℕ
to_systim ltime =
    let t = ltime / 1000 in
    (
      record { hi = t / 2 ^ 32 % 2 ^ 32; lo = t % 2 ^ 32 },
      ll_sub ltime (t * 1000 % 2 ^ 64) % 2 ^ 32,
    )

-- real_time()
abbrev pub real_time : Kernel → ℕ
real_time k = ll_add k.current_time k.real_time_ofs

-- tk_set_tim
unfoldable pub tk_set_tim : ℤ → ℕ → Kernel → Er × Kernel
unfolding to_lsystim
tk_set_tim hi lo k = if not (is_natural hi) then (e_par, k) else (
  e_ok,
  record k {
    real_time_ofs = ll_sub (to_lsystim (record { hi = to_ℕ hi; lo = lo })) k.current_time;
  },
)

-- tk_set_tim_u
unfoldable pub tk_set_tim_u : ℤ → Kernel → Er × Kernel
tk_set_tim_u tim_u k =
    if not (is_natural tim_u)
    then (e_par, k)
    else (e_ok, record k { real_time_ofs = ll_sub (ltoll tim_u) k.current_time })

-- tk_get_tim and tk_get_tim_u
unfoldable pub tk_get_tim : Kernel → Er × Systim
unfolding to_systim
tk_get_tim k = (e_ok, (to_systim (real_time k)).0)

unfoldable pub tk_get_tim_u : Kernel → Er × ℕ
tk_get_tim_u k = (e_ok, real_time k)

-- tk_get_otm and tk_get_otm_u
unfoldable pub tk_get_otm : Kernel → Er × Systim
unfolding to_systim
tk_get_otm k = (e_ok, (to_systim k.current_time).0)

unfoldable pub tk_get_otm_u : Kernel → Er × ℕ
tk_get_otm_u k = (e_ok, k.current_time)
