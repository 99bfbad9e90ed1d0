-- ===== src/Printf.antt =====
-- lib/libtm/src/tm_printf.c. A string is the list of its characters before the NUL; what the code sends to
-- its output function, piece by piece, is the list of the characters. A short is its 16-bit pattern.
pub mod Format
pub mod Digits
pub mod Total
pub mod Reads
mod Tests
use Prim.Native.Nat.{bit_and, bit_or}
use open_t_kernel.Base.{
  ℕ, zero, suc, ◌+◌, ◌-◌, ◌*◌, ◌/◌, ◌%◌, ◌^◌, Bool, true, false, not, ◌==◌, ◌&&◌, ◌||◌, ltb, leb,
  if◌then◌else◌, upd, Option, none, some, ◌>>=◌, List, [], ◌∷◌, ◌++◌, length,
}
use open_t_kernel.Bits.{Bytes}
use open_t_kernel.Kernel.{has}

-- An argument: a word of 32 bits, or a pointer to a string.
pub data Arg : Type 0 where
  word : ℕ → Arg
  text : List ℕ → Arg

-- The arguments that are left. `strayed` says that one was read that is missing or of another type, where C
-- leaves open what the code does from then on.
pub record Args : Type 0 where
  pub left : List Arg
  pub strayed : Bool

-- A result, or `undefined` where C leaves it open.
pub data Outcome {ℓ} (A : Type ℓ) : Type ℓ where
  done : A → Outcome A
  undefined : Outcome A

-- va_arg, with the other arguments. Where the arguments stray, the value is of no account.
abbrev word_of : List Arg → ℕ × Args
word_of (word n ∷ args) = (n % 2 ^ 32, record { left = args; strayed = false })
word_of args = (0, record { left = args; strayed = true })

abbrev text_of : List Arg → List ℕ × Args
text_of (text s ∷ args) = (s, record { left = args; strayed = false })
text_of args = ([], record { left = args; strayed = true })

-- `args` is kept as having strayed.
abbrev still : Bool → Args → Args
still b args = record args { strayed = b || args.strayed }

unfoldable pub next_word : Args → ℕ × Args
next_word args = let r = word_of args.left in (r.0, still args.strayed r.1)

unfoldable pub next_text : Args → List ℕ × Args
next_text args = let r = text_of args.left in (r.0, still args.strayed r.1)

-- digits[i]
abbrev pub digit_char : ℕ → ℕ
digit_char i =
    if ltb i 10
    then 48 + i
    else if ltb i 16
    then 87 + i
    else if ltb i 26
    then 48 + (i - 16)
    else 39 + i

-- The loop of outint and the digit behind it, in front of the digits `ds`; `none` where the fuel is spent.
unfoldable pub outint_loop : ℕ → ℕ → ℕ → ℕ → List ℕ → Option (List ℕ)
outint_loop zero val base caps ds = none
outint_loop (suc fuel) val base caps ds =
    let rest = outint_loop fuel (val / base) base caps (digit_char (val % base + caps) ∷ ds) in
    if leb base val then rest else some (digit_char (val + caps) ∷ ds)

-- outint: what it writes in front of `ep`. A round for each digit: a word has 11 digits at most, in base 8.
unfoldable pub outint : ℕ → ℕ → Option (List ℕ)
unfolding outint_loop
outint val base = outint_loop 11 val (bit_and base 0x3f) (bit_and base 0x40 / 4) []

-- F_LEFT, F_PLUS, F_SPACE, F_PREFIX, F_ZERO, for '-', '+', ' ', '#' and '0'; 0 for any other character.
abbrev pub flag_of : ℕ → ℕ
flag_of c =
    if c == 45
    then 0x01
    else if c == 43
    then 0x02
    else if c == 32
    then 0x04
    else if c == 35
    then 0x08
    else if c == 48
    then 0x10
    else 0

-- `Get flags`: the flags, and the format from `c` on.
unfoldable pub get_flags : ℕ → List ℕ → ℕ × List ℕ
get_flags flg [] = (flg, [])
get_flags flg (c ∷ cs) =
    let rest = get_flags (bit_or flg (flag_of c)) cs in
    if flag_of c == 0 then (flg, c ∷ cs) else rest

-- The loops for decimal numbers.
unfoldable pub get_number : ℕ → List ℕ → ℕ × List ℕ
get_number n [] = (n, [])
get_number n (c ∷ cs) =
    let rest = get_number ((n * 10 + (c - 48)) % 2 ^ 16) cs in
    if leb 48 c && leb c 57 then rest else (n, c ∷ cs)

-- Shorts: x - y, x < 0 and x > 0.
abbrev pub short_sub : ℕ → ℕ → ℕ
short_sub x y = (x + (2 ^ 16 - y % 2 ^ 16)) % 2 ^ 16

abbrev pub short_negative : ℕ → Bool
short_negative x = leb (2 ^ 15) x

abbrev pub short_positive : ℕ → Bool
short_positive x = ltb 0 x && ltb x (2 ^ 15)

-- What stands between '%' and the conversion, with the rest of the format and the arguments.
pub record Spec : Type 0 where
  pub flg : ℕ
  pub wid : ℕ
  pub prec : ℕ
  pub qual : ℕ
  pub rest : List ℕ
  pub args : Args

-- `Get field width`
unfoldable pub get_width : ℕ → List ℕ → Args → Spec
unfolding get_number next_word
get_width flg [] args = record {
  flg = flg;
  wid = 0;
  prec = 0xffff;
  qual = 0;
  rest = [];
  args = args;
}
get_width flg (c ∷ cs) args =
    let a = next_word args in
    let wid = a.0 % 2 ^ 16 in
    let n = get_number 0 (c ∷ cs) in
    let s : Spec = record {
      flg = flg;
      wid = wid;
      prec = 0xffff;
      qual = 0;
      rest = cs;
      args = a.1;
    } in
    if not (c == 42)
    then record { flg = flg; wid = n.0; prec = 0xffff; qual = 0; rest = n.1; args = args }
    else if short_negative wid
    then record s { wid = short_sub 0 wid; flg = bit_or flg 0x01 }
    else s

-- `Get precision`
unfoldable pub get_precision : Spec → Spec
unfolding get_number next_word
get_precision s = elim s.rest [
  | [] ↦ s
  | c ∷ cs ↦
      let flg = bit_and s.flg 0xef in
      let n = get_number 0 cs in
      let starred : List ℕ → Spec = λ (ds : List ℕ).
        let a = next_word s.args in
        let p = a.0 % 2 ^ 16 in
        record s { prec = if short_negative p then 0 else p; flg = flg; rest = ds; args = a.1 } in
      let plain : Spec = record s { prec = n.0; flg = flg; rest = n.1 } in
      if not (c == 46)
      then s
      else elim cs [ [] ↦ plain | d ∷ ds ↦ if d == 42 then starred ds else plain ]
]

-- `Get qualifier`: 'h' or 'l'
unfoldable pub get_qualifier : Spec → Spec
get_qualifier s = elim s.rest [
  | [] ↦ s
  | c ∷ cs ↦ if c == 104 || (c == 108) then record s { qual = c; rest = cs } else s
]

-- All of these, from behind '%' on.
unfoldable pub get_spec : List ℕ → Args → Spec
unfolding get_flags get_width get_precision get_qualifier
get_spec cs args = let f = get_flags 0 cs in get_qualifier (get_precision (get_width f.0 f.1 args))
