-- ===== src/StringLib/Tests.antt =====
-- The memory functions of the string library at small areas.
use open_t_kernel.Base.{◌≡◌, inl, refl, arith, ◌%◌, some}
use open_t_kernel.Base.Int.{negsuc}
use open_t_kernel.Bits.{Bytes}
use open_t_kernel.StringLib.{move, tkl_memmove, tkl_memset, tkl_memcmp}
use open_t_kernel.StringLib.Down.{tkl_memmove_lem}
use open_t_kernel.StringLib.Fill.{filled, tkl_memset_lem}

abbrev memory : Bytes
memory x = x % 200

-- Thirty bytes, two places up, over themselves.
tkl_memmove_lem_example : tkl_memmove 103 101 30 memory ≡ some (move 103 101 30 memory)
tkl_memmove_lem_example = tkl_memmove_lem 103 101 30 memory (inl (omega arith))

tkl_memset_lem_example : tkl_memset 103 258 21 memory ≡ some (filled 103 21 2 memory)
tkl_memset_lem_example = tkl_memset_lem 103 258 21 memory (inl (omega arith))

memcmp_less : tkl_memcmp 10 20 3 memory ≡ negsuc 9
unfolding tkl_memcmp
memcmp_less = refl
