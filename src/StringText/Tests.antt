-- ===== src/StringText/Tests.antt =====
-- The text functions at one memory: "-12x" at address 10 and "ab" at address 20.
use open_t_kernel.Base.{◌≡◌, refl, if◌then◌else◌, ◌==◌, some, ◌>>=◌}
use open_t_kernel.Base.Int.{negsuc}
use open_t_kernel.Bits.{Bytes}
use open_t_kernel.StringText.{
  tkl_strlen, tkl_strcmp, tkl_strcat, tkl_strtoul, find_end, copy_text, skip_blanks, find_base,
  digit, read_digits,
}

abbrev text : Bytes
text x =
    if x == 10
    then 45
    else if x == 11
    then 49
    else if x == 12
    then 50
    else if x == 13
    then 120
    else if x == 20
    then 97
    else if x == 21
    then 98
    else 0

length_four : tkl_strlen 9 10 text ≡ some 4
unfolding tkl_strlen find_end
length_four = refl

minus_twelve : tkl_strtoul 9 10 10 text ≡ some (4294967284, 13)
unfolding tkl_strtoul skip_blanks find_base digit read_digits
minus_twelve = refl

first_is_less : tkl_strcmp 9 10 20 text ≡ some (negsuc 51)
unfolding tkl_strcmp
first_is_less = refl

joined_length : (tkl_strcat 9 10 20 text >>= λ mem. tkl_strlen 9 10 mem) ≡ some 6
unfolding tkl_strcat tkl_strlen find_end copy_text
joined_length = refl
