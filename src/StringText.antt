-- ===== src/StringText.antt =====
-- lib/libstr/src/string.c: the functions on text, which ends in a byte 0. A loop that looks for the end
-- has the number of its rounds as fuel, and is `none` where that is spent; a char is a byte.
mod Tests
use open_t_kernel.Base.{
  ℕ, zero, suc, ◌+◌, ◌-◌, ◌*◌, ◌%◌, ◌^◌, Bool, true, false, not, ◌==◌, ◌&&◌, ◌||◌, ltb, leb,
  if◌then◌else◌, upd, Option, none, some, ◌>>=◌,
}
use open_t_kernel.Base.Int.{ℤ, pos, negsuc}
use open_t_kernel.Bits.{Bytes}
use open_t_kernel.StringLib.{fill_bytes}

-- while ( *cp != '\0' ) cp++;
unfoldable pub find_end : ℕ → ℕ → Bytes → Option ℕ
find_end zero cp mem = none
find_end (suc fuel) cp mem =
    let rest = find_end fuel (cp + 1) mem in if mem cp == 0 then some cp else rest

-- tkl_strlen
unfoldable pub tkl_strlen : ℕ → ℕ → Bytes → Option ℕ
tkl_strlen fuel s mem = do cp ← find_end fuel s mem; some (cp - s)

-- tkl_strcmp
unfoldable pub tkl_strcmp : ℕ → ℕ → ℕ → Bytes → Option ℤ
tkl_strcmp zero s1 s2 mem = none
tkl_strcmp (suc fuel) s1 s2 mem =
    let rest = tkl_strcmp fuel (s1 + 1) (s2 + 1) mem in
    if mem s1 == mem s2
    then (if mem s1 == 0 then some (pos 0) else rest)
    else if ltb (mem s1) (mem s2)
    then some (negsuc (mem s2 - mem s1 - 1))
    else some (pos (mem s1 - mem s2))

-- while ( (*dp++ = *src++) != '\0' );
unfoldable pub copy_text : ℕ → ℕ → ℕ → Bytes → Option Bytes
copy_text zero dp src mem = none
copy_text (suc fuel) dp src mem =
    let mem1 = upd mem dp (mem src) in
    let rest = copy_text fuel (dp + 1) (src + 1) mem1 in if mem src == 0 then some mem1 else rest

-- tkl_strcpy
unfoldable pub tkl_strcpy : ℕ → ℕ → ℕ → Bytes → Option Bytes
unfolding copy_text
tkl_strcpy fuel dst src mem = copy_text fuel dst src mem

-- tkl_strncpy; `n` counts down
unfoldable pub tkl_strncpy : ℕ → ℕ → ℕ → Bytes → Bytes
tkl_strncpy dp src zero mem = mem
tkl_strncpy dp src (suc n) mem =
    let mem1 = upd mem dp (mem src) in
    let rest = tkl_strncpy (dp + 1) (src + 1) n mem1 in
    if mem src == 0 then fill_bytes n (dp + 1) 0 mem1 else rest

-- tkl_strcat
unfoldable pub tkl_strcat : ℕ → ℕ → ℕ → Bytes → Option Bytes
tkl_strcat fuel dst src mem = do dp ← find_end fuel dst mem; copy_text fuel dp src mem

-- The second loop of tkl_strncat, and the byte 0 behind it.
unfoldable pub append_text : ℕ → ℕ → ℕ → Bytes → Bytes
append_text dp src zero mem = upd mem dp 0
append_text dp src (suc n) mem =
    let mem1 = upd mem dp (mem src) in
    let rest = append_text (dp + 1) (src + 1) n mem1 in if mem src == 0 then mem1 else rest

-- tkl_strncat
unfoldable pub tkl_strncat : ℕ → ℕ → ℕ → ℕ → Bytes → Option Bytes
tkl_strncat fuel dst src n mem = do dp ← find_end fuel dst mem; some (append_text dp src n mem)

-- while ( (*nptr == ' ' || *nptr == '\t') ) { ++nptr; }
unfoldable pub skip_blanks : ℕ → ℕ → Bytes → Option ℕ
skip_blanks zero p mem = none
skip_blanks (suc fuel) p mem =
    let rest = skip_blanks fuel (p + 1) mem in if mem p == 32 || (mem p == 9) then rest else some p

-- The base, and where the digits begin; 'x' and 'X' are 120 and 88. A negative base is one below 2.
unfoldable pub find_base : ℕ → ℕ → Bytes → ℕ × ℕ
find_base base p mem =
    let x = mem (p + 1) == 88 || (mem (p + 1) == 120) in
    if base == 16
    then (16, if mem p == 48 then (if x then p + 2 else p + 1) else p)
    else if base == 0
    then (if mem p == 48 then (if x then (16, p + 2) else (8, p + 1)) else (10, p))
    else if ltb base 2 || ltb 36 base
    then (10, p)
    else (base, p)

-- The value of a digit or a letter.
unfoldable pub digit : ℕ → Option ℕ
digit c =
    if leb 48 c && leb c 57
    then some (c - 48)
    else if leb 65 c && leb c 90
    then some (c - 65 + 10)
    else if leb 97 c && leb c 122
    then some (c - 97 + 10)
    else none

-- The last loop of tkl_strtoul: the value and the end of the digits.
unfoldable pub read_digits : ℕ → ℕ → ℕ → ℕ → Bytes → Option (ℕ × ℕ)
read_digits zero base value p mem = none
read_digits (suc fuel) base value p mem =
    if mem p == 0 then some (value, p) else elim (digit (mem p)) [
      | none ↦ some (value, p)
      | some i ↦
          if leb base i
          then some (value, p)
          else read_digits fuel base ((value * base + i) % 2 ^ 32) (p + 1) mem
    ]

-- tkl_strtoul: the value and `*endptr`; '-' and '+' are 45 and 43.
unfoldable pub tkl_strtoul : ℕ → ℕ → ℕ → Bytes → Option (ℕ × ℕ)
tkl_strtoul fuel nptr base mem = do
  p ← skip_blanks fuel nptr mem
  let minus = mem p == 45
  let start = find_base base (if minus || (mem p == 43) then p + 1 else p) mem
  r ← read_digits fuel start.0 0 start.1 mem
  some (if minus then r.0 * (2 ^ 32 - 1) % 2 ^ 32 else r.0, r.1)
