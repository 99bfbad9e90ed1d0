-- ===== src/Base/Int.antt =====
-- The signed INT of the system calls' arguments. `negsuc n` is -(n + 1).
use Prim.Native.Nat.{ℕ, ◌+◌, ◌%◌, ◌^◌}
use mathlib.Core.Bool.{Bool, true, false, ◌&&◌}
use open_t_kernel.Base.Tests.{ltb, leb}

pub data ℤ : Type 0 where
  pos : ℕ → ℤ
  negsuc : ℕ → ℤ

abbrev pub to_ℕ : ℤ → ℕ
to_ℕ (pos n) = n
to_ℕ (negsuc n) = 0

-- i > 0
abbrev pub is_positive : ℤ → Bool
is_positive (pos n) = ltb 0 n
is_positive (negsuc n) = false

-- i >= 0
abbrev pub is_natural : ℤ → Bool
is_natural (pos n) = true
is_natural (negsuc n) = false

-- lo <= i && i <= hi, for natural bounds with lo >= 0
abbrev pub in_range : ℕ → ℕ → ℤ → Bool
in_range lo hi (pos n) = elim (leb lo n) [ true ↦ leb n hi | false ↦ false ]
in_range lo hi (negsuc n) = false

-- i > 0, for the 32-bit pattern of an INT
abbrev pub is_int_positive : ℕ → Bool
is_int_positive n = ltb 0 n && ltb n (2 ^ 31)

-- Natural numbers in the order of the INTs, of their 32-bit patterns
abbrev pub int_order : ℕ → ℕ
int_order n = (n + 2 ^ 31) % 2 ^ 32
