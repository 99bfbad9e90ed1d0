-- ===== src/StringLib.antt =====
-- lib/libstr/src/string.c: memset, memcpy, memmove and memcmp, on the memory of a 32-bit
-- little-endian CPU. A pointer is an address; areas do not pass the end of the address space.
-- A pointer's low two bits are `p % 4`. A word access at an address that is not a multiple of 4 is a
-- fault, which is `none`. A `size_t` that counts down from 0 wraps around.
pub mod Areas
pub mod Fill
pub mod Copy
pub mod Down
mod Tests
use Prim.Native.Nat.{bit_or}
use open_t_kernel.Base.{
  ℕ, zero, suc, ◌+◌, ◌-◌, ◌*◌, ◌/◌, ◌%◌, ◌^◌, Bool, not, ◌&&◌, ◌||◌, leb, ltb, ◌==◌, if◌then◌else◌,
  upd, Option, none, some, ◌>>=◌,
}
use open_t_kernel.Base.Int.{ℤ, pos, negsuc}
use open_t_kernel.Bits.{Bytes}

-- MASZ
abbrev pub masz : ℕ
masz = 4

-- The rounds of `do ... while ( --cnt > 0 );`
abbrev pub rounds : ℕ → ℕ
rounds cnt = if cnt == 0 then 2 ^ 32 else cnt

-- `*m.cp++ = (unsigned char)val;`, so many times
unfoldable pub fill_bytes : ℕ → ℕ → ℕ → Bytes → Bytes
fill_bytes zero cp val mem = mem
fill_bytes (suc k) cp val mem = fill_bytes k (cp + 1) val (upd mem cp (val % 256))

-- A word in its four bytes.
unfoldable pub store_word : ℕ → ℕ → Bytes → Bytes
store_word lp val mem =
    upd (upd (upd (upd mem lp (val % 256)) (lp + 1) (val / 256 % 256)) (lp + 2) (val / 65536 % 256))
      (lp + 3) (val / 16777216 % 256)

-- `*m.lp++ = val;`, so many times
unfoldable pub fill_words : ℕ → ℕ → ℕ → Bytes → Option Bytes
fill_words zero lp val mem = some mem
fill_words (suc k) lp val mem =
    let rest = fill_words k (lp + masz) val (store_word lp val mem) in
    if lp % masz == 0 then rest else none

-- val |= val << 8; val |= val << 16;
unfoldable pub spread : ℕ → ℕ
spread val = let val1 = bit_or val (val * 256 % 2 ^ 32) in bit_or val1 (val1 * 65536 % 2 ^ 32)

-- The word and the trailing bytes of tkl_memset, from `cp` on.
unfoldable pub fill_rest : ℕ → ℕ → ℕ → Bytes → Option Bytes
fill_rest cp val n mem =
    if leb masz n
    then (do
      mem1 ← fill_words (rounds (n / masz)) cp (spread val) mem
      some (fill_bytes (n % masz) (cp + masz * rounds (n / masz)) (spread val) mem1))
    else some (fill_bytes n cp val mem)

-- tkl_memset; `c` is an INT by its bits. From an address that is not a multiple of 4, the area of no bytes wraps
-- around to 2 ^ 32 of them, which pass the end of the address space: what C writes there is not modelled.
unfoldable pub tkl_memset : ℕ → ℕ → ℕ → Bytes → Option Bytes
tkl_memset s c n mem =
    let val = c % 256 in
    let cnt = if ltb n (masz * 2) then n else masz - s % masz in
    if ltb 0 (s % masz)
    then fill_rest (s + rounds cnt) val (n - cnt) (fill_bytes (rounds cnt) s val mem)
    else fill_rest s val n mem

-- A load of `w` bytes, and their store.
unfoldable pub move : ℕ → ℕ → ℕ → Bytes → Bytes
move d s w mem x = if leb d x && ltb x (d + w) then mem (s + (x - d)) else mem x

-- `*d.cp++ = *s.cp++;`, so many times
unfoldable pub copy_bytes : ℕ → ℕ → ℕ → Bytes → Bytes
copy_bytes zero d s mem = mem
copy_bytes (suc k) d s mem = copy_bytes k (d + 1) (s + 1) (move d s 1 mem)

-- `*d.lp++ = *s.lp++;`, so many times
unfoldable pub copy_words : ℕ → ℕ → ℕ → Bytes → Option Bytes
copy_words zero d s mem = some mem
copy_words (suc k) d s mem =
    let rest = copy_words k (d + masz) (s + masz) (move d s masz mem) in
    if (d % masz == 0) && (s % masz == 0) then rest else none

-- The words and the trailing bytes of tkl_memcpy.
unfoldable pub copy_rest : ℕ → ℕ → ℕ → Bytes → Option Bytes
copy_rest d s n mem =
    if leb masz n
    then (do
      mem1 ← copy_words (rounds (n / masz)) d s mem
      some (
          copy_bytes (n % masz) (d + masz * rounds (n / masz)) (s + masz * rounds (n / masz)) mem1))
    else some (copy_bytes n d s mem)

-- tkl_memcpy, and the forward half of tkl_memmove
unfoldable pub tkl_memcpy : ℕ → ℕ → ℕ → Bytes → Option Bytes
tkl_memcpy d s n mem =
    let cnt = if not (s % masz == d % masz) || ltb n (masz * 2) then n else masz - s % masz in
    if not (s % masz == 0) || not (d % masz == 0)
    then copy_rest (d + rounds cnt) (s + rounds cnt) (n - cnt) (copy_bytes (rounds cnt) d s mem)
    else copy_rest d s n mem

-- `*--d.cp = *--s.cp;`, so many times
unfoldable pub copy_bytes_down : ℕ → ℕ → ℕ → Bytes → Bytes
copy_bytes_down zero d s mem = mem
copy_bytes_down (suc k) d s mem = copy_bytes_down k (d - 1) (s - 1) (move (d - 1) (s - 1) 1 mem)

-- `*--d.lp = *--s.lp;`, so many times
unfoldable pub copy_words_down : ℕ → ℕ → ℕ → Bytes → Option Bytes
copy_words_down zero d s mem = some mem
copy_words_down (suc k) d s mem =
    let rest = copy_words_down k (d - masz) (s - masz) (move (d - masz) (s - masz) masz mem) in
    if ((d - masz) % masz == 0) && ((s - masz) % masz == 0) then rest else none

unfoldable pub copy_rest_down : ℕ → ℕ → ℕ → Bytes → Option Bytes
copy_rest_down d s n mem =
    if leb masz n
    then (do
      mem1 ← copy_words_down (rounds (n / masz)) d s mem
      some (
          copy_bytes_down (n % masz) (d - masz * rounds (n / masz)) (s - masz * rounds (n / masz))
            mem1))
    else some (copy_bytes_down n d s mem)

-- The backward half of tkl_memmove, on the ends of the areas.
unfoldable pub memmove_down : ℕ → ℕ → ℕ → Bytes → Option Bytes
memmove_down d s n mem =
    let cnt = if not (s % masz == d % masz) || ltb n (masz * 2) then n else s % masz in
    if not (s % masz == 0) || not (d % masz == 0)
    then copy_rest_down (d - rounds cnt) (s - rounds cnt) (n - cnt)
        (copy_bytes_down (rounds cnt) d s mem)
    else copy_rest_down d s n mem

-- tkl_memmove
unfoldable pub tkl_memmove : ℕ → ℕ → ℕ → Bytes → Option Bytes
tkl_memmove d s n mem = if ltb d s then tkl_memcpy d s n mem else memmove_down (d + n) (s + n) n mem

-- tkl_memcmp: the difference of two chars as an INT
unfoldable pub tkl_memcmp : ℕ → ℕ → ℕ → Bytes → ℤ
tkl_memcmp s1 s2 zero mem = pos 0
tkl_memcmp s1 s2 (suc n) mem =
    let rest = tkl_memcmp (s1 + 1) (s2 + 1) n mem in
    if mem s1 == mem s2
    then rest
    else if ltb (mem s1) (mem s2)
    then negsuc (mem s2 - mem s1 - 1)
    else pos (mem s1 - mem s2)
