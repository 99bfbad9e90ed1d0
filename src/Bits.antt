-- ===== src/Bits.antt =====
-- lib/libsys/src: bitset.c, bitclr.c, bittest.c and bitsearch1.c, for a little-endian CPU.
-- A bit string is a store of bytes, read by index from its base. A shift is written with `/` and
-- `*`, and the low k bits of x as `x % 2 ^ k`.
pub mod And
pub mod Digits
pub mod Lowest
pub mod Words
pub mod Search1
pub mod Store
use Prim.Native.Nat.{bit_and, bit_or}
use open_t_kernel.Base.{
  ℕ, zero, suc, ◌+◌, ◌-◌, ◌*◌, ◌/◌, ◌%◌, ◌^◌, Bool, ltb, leb, ◌==◌, if◌then◌else◌, upd,
}

abbrev pub Bytes : Type 0
Bytes = ℕ → ℕ

-- BitSet
unfoldable pub bit_set : Bytes → ℕ → Bytes
bit_set base offset = upd base (offset / 8) (bit_or (base (offset / 8)) (2 ^ (offset % 8)))

-- BitClr
unfoldable pub bit_clr : Bytes → ℕ → Bytes
bit_clr base offset = upd base (offset / 8) (bit_and (base (offset / 8)) (255 - 2 ^ (offset % 8)))

-- BitTest
unfoldable pub bit_test : Bytes → ℕ → Bool
bit_test base offset = base (offset / 8) / 2 ^ (offset % 8) % 2 == 1

-- The UW that four bytes make.
unfoldable pub word : Bytes → ℕ → ℕ
word base i =
    base (4 * i) + 256 * base (4 * i + 1) + 65536 * base (4 * i + 2) + 16777216 * base (4 * i + 3)

-- One step of the binary search: `if ( !(v & mask) ) { v >>= k; position += k; }`.
abbrev pub narrow : ℕ → ℕ × ℕ → ℕ × ℕ
narrow k (v, position) = if v % 2 ^ k == 0 then (v / 2 ^ k, position + k) else (v, position)

-- The position of the lowest 1 of `v`, counted from `position`.
unfoldable pub lowest : ℕ → ℕ → ℕ
lowest v position = (narrow 1 (narrow 2 (narrow 4 (narrow 8 (narrow 16 (v, position)))))).1

-- The results of the search; `absent` is -1, and `overflow` a `position` that is too large for a W.
pub data Search : Type 0 where
  found : ℕ → Search
  absent overflow out_of_fuel : Search

-- The loop of BitSearch1_w. `skip` is `offset & 31`; the source subtracts it from a `position` of 0
-- before it adds the bits, and here it is subtracted after them.
unfoldable pub search_loop : ℕ → Bytes → (skip width cp v position : ℕ) → Search
search_loop zero base skip width cp v position = out_of_fuel
search_loop (suc fuel) base skip width cp v position =
    let next = if position == 0 then 32 - skip else position + 32 in
    let rest = search_loop fuel base skip width (cp + 1) (word base (cp + 1)) next in
    let at = lowest v position - (if position == 0 then skip else 0) in
    if ltb position width
    then (if v == 0
        then (if leb (2 ^ 31) next then overflow else rest)
        else if leb (2 ^ 31) at
        then overflow
        else if ltb at width
        then found at
        else absent)
    else absent

-- BitSearch1_w, on `width` rounds and one, for an offset that is not negative. A negative width finds nothing,
-- as 0 does.
unfoldable pub bit_search1_w : Bytes → ℕ → ℕ → Search
unfolding search_loop
bit_search1_w base offset width =
    let cp = offset / 32 in
    let skip = offset % 32 in
    let v = if skip == 0 then word base cp else word base cp - word base cp % 2 ^ skip in
    search_loop (width + 1) base skip width cp v 0
