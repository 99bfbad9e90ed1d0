-- ===== src/Printf/Format.antt =====
-- lib/libtm/src/tm_printf.c: the conversions of _vsprintf, and what it puts out.
use Prim.Native.Nat.{bit_and}
use open_t_kernel.Base.{
  ℕ, zero, suc, ◌+◌, ◌-◌, ◌%◌, ◌^◌, not, ◌==◌, ◌&&◌, ◌||◌, leb, if◌then◌else◌, upd, Option, none,
  false, some, ◌>>=◌, List, [], ◌∷◌, ◌++◌, length,
}
use open_t_kernel.Bits.{Bytes}
use open_t_kernel.Kernel.{has}
use open_t_kernel.Printf.{
  Arg, Args, Outcome, done, undefined, Spec, next_word, next_text, get_spec, outint, short_sub,
  short_negative, short_positive,
}

-- An item to be put out: the variables at the end of the switch, and the characters from `cbs` to `cbe`.
pub record Item : Type 0 where
  pub base : ℕ
  pub sign : ℕ
  pub wid : ℕ
  pub prec : ℕ
  pub chars : List ℕ

-- (short)v, for a word
abbrev pub to_short : ℕ → ℕ
to_short v = if leb (2 ^ 15) (v % 2 ^ 16) then v % 2 ^ 16 + 0xffff_0000 else v % 2 ^ 16

-- The value of 'i', 'd' (105 and 100), 'u', 'X', 'x' and 'o' as the qualifier says.
abbrev pub qualified : ℕ → ℕ → ℕ → ℕ
qualified qual c v =
    if qual == 104 then (if c == 105 || (c == 100) then to_short v else v % 2 ^ 16) else v

-- The sign, for a signed value; 0 is none.
abbrev pub sign_of : ℕ → ℕ → ℕ
sign_of flg v =
    if leb (2 ^ 31) v then 45 else if has flg 0x02 then 43 else if has flg 0x04 then 32 else 0

-- 'X', 'x' and 'o' (88, 120 and 111): the base with the bit for capitals.
abbrev pub base_of : ℕ → ℕ
base_of c = if c == 88 then 0x50 else if c == 120 then 16 else 8

-- The characters of a number.
abbrev pub number_chars : ℕ → ℕ → ℕ → Option (List ℕ)
number_chars v prec base = if v == 0 && (prec == 0) then some [] else outint v base

-- 'i' and 'd'
unfoldable pub signed_item : Spec → ℕ → Option Item
unfolding outint
signed_item s v = do
  let sign = sign_of s.flg v
  let wid = if sign == 0 then s.wid else short_sub s.wid 1
  let u = if leb (2 ^ 31) v then 2 ^ 32 - v else v
  chars ← number_chars u s.prec 10
  some (record { base = 10; sign = sign; wid = wid; prec = s.prec; chars = chars })

-- 'u'
unfoldable pub unsigned_item : Spec → ℕ → Option Item
unfolding outint
unsigned_item s v = do
  chars ← number_chars v s.prec 10
  some (record { base = 10; sign = 0; wid = s.wid; prec = s.prec; chars = chars })

-- 'X', 'x' and 'o'
unfoldable pub based_item : ℕ → Spec → ℕ → Option Item
unfolding outint
based_item c s v = do
  let b = base_of c
  let prefixed = has s.flg 0x08 && not (v == 0)
  let base = if prefixed then b + 0x80 else b
  let wid = if prefixed then short_sub s.wid (if b == 8 then 1 else 2) else s.wid
  chars ← number_chars v s.prec base
  some (record { base = base; sign = 0; wid = wid; prec = s.prec; chars = chars })

-- 'p'
unfoldable pub pointer_item : Spec → ℕ → Option Item
unfolding outint
pointer_item s v = do
  let base = if v == 0 then 10 else 0x90
  let wid = if v == 0 then s.wid else short_sub s.wid 2
  chars ← outint v base
  some (record { base = base; sign = 0; wid = wid; prec = s.prec; chars = chars })

-- The loop of 's' with a precision: the characters, and `prec` behind it.
unfoldable pub cut_text : ℕ → List ℕ → List ℕ × ℕ
cut_text zero cs = ([], 0xffff)
cut_text (suc prec) [] = ([], prec)
cut_text (suc prec) (c ∷ cs) = let r = cut_text prec cs in (c ∷ r.0, r.1)

-- 's'
unfoldable pub text_item : Spec → List ℕ → Item
unfolding cut_text
text_item s t =
    let r = cut_text s.prec t in
    if short_negative s.prec
    then record { base = 10; sign = 0; wid = s.wid; prec = s.prec; chars = t }
    else record { base = 10; sign = 0; wid = s.wid; prec = r.1; chars = r.0 }

-- 'c'
unfoldable pub char_item : Spec → ℕ → Item
char_item s v = record { base = 10; sign = 0; wid = s.wid; prec = 0; chars = v % 256 ∷ [] }

-- while ( --n >= 0 ), for a short: how often it puts out a character, and `n` behind it.
abbrev pub pads : ℕ → ℕ
pads n = if leb n (2 ^ 15) then n else 0

abbrev pub padded : ℕ → ℕ
padded n = if leb n (2 ^ 15) then 0xffff else n - 1

unfoldable pub repeat : ℕ → ℕ → List ℕ
repeat c zero = []
repeat c (suc n) = c ∷ repeat c n

-- "0", "0x" or "0X"
abbrev pub prefix : ℕ → List ℕ
prefix base =
    if has base 0x80
    then (if has base 0x10 then 48 ∷ (if has base 0x40 then 88 else 120) ∷ [] else 48 ∷ [])
    else []

-- From the item length on: what is put out.
unfoldable pub put_item : ℕ → Item → List ℕ
unfolding repeat
put_item flg i =
    let n = length i.chars % 2 ^ 16 in
    let prec = short_sub i.prec n in
    let wid = short_sub i.wid (if short_positive prec then (n + prec) % 2 ^ 16 else n) in
    let lead = bit_and flg 0x11 == 0 in
    let wid1 = if lead then padded wid else wid in
    let fill = not (short_positive prec) && (bit_and flg 0x11 == 0x10) in
    let spaces = if lead then repeat 32 (pads wid) else [] in
    let sign = if i.sign == 0 then [] else i.sign ∷ [] in
    let zeros = repeat 48 (pads (if fill then wid1 else prec)) in
    let tail = repeat 32 (pads (if fill then 0 else wid1)) in
    spaces ++ (sign ++ (prefix i.base ++ (zeros ++ (i.chars ++ tail))))

-- What a conversion leads to: an item, fixed text from this character on, or the end of the format.
pub data Conversion : Type 0 where
  item : Item → Args → Conversion
  fixed : ℕ → Conversion

-- The switch on the conversion `c`; `none` where outint gives none.
unfoldable pub convert : ℕ → Spec → Option Conversion
unfolding signed_item unsigned_item based_item pointer_item text_item char_item next_word next_text
convert c s =
    let w = next_word s.args in
    let v = qualified s.qual c w.0 in
    let as_item = λ (o : Option Item). o >>= (λ i. some (item i w.1)) in
    let t = next_text s.args in
    if c == 105 || (c == 100)
    then as_item (signed_item s v)
    else if c == 117
    then as_item (unsigned_item s v)
    else if c == 88 || (c == 120 || (c == 111))
    then as_item (based_item c s v)
    else if c == 112
    then as_item (pointer_item s w.0)
    else if c == 115
    then some (item (text_item s t.0) t.1)
    else if c == 99
    then some (item (char_item s w.0) w.1)
    else some (fixed c)

-- Characters put out before the others.
abbrev pub before : List ℕ → Outcome (List ℕ) → Outcome (List ℕ)
before cs (done out) = done (cs ++ out)
before cs undefined = undefined

-- The end of the format.
abbrev pub ended : Args → Outcome (List ℕ)
ended args = if args.strayed then undefined else done []

-- What is put out of a format by the rest of the loop.
abbrev pub Rest : Type 0
Rest = List ℕ → Args → Option (Outcome (List ℕ))

-- What follows the switch, with `more` for the rest of the loop on the format `cs`.
unfoldable pub put_conversion : Rest → Spec → List ℕ → Conversion → Option (Outcome (List ℕ))
unfolding put_item
put_conversion more s cs (fixed c) = more cs s.args >>= (λ out. some (before (c ∷ []) out))
put_conversion more s cs (item i args) =
    more cs args >>= (λ out. some (before (put_item s.flg i) out))

-- The switch, at the character behind the specification.
unfoldable pub put_next : Rest → Spec → Option (Outcome (List ℕ))
unfolding convert put_conversion
put_next more s = elim s.rest [
  | [] ↦ some (ended s.args)
  | c ∷ cs ↦ convert c s >>= put_conversion more s cs
]

-- The loop of _vsprintf: all that is put out. A round of fuel for each character of the format and one more;
-- `none` where that is spent.
unfoldable pub put_format : ℕ → Rest
unfolding get_spec put_next
put_format zero fmt args = none
put_format (suc fuel) [] args = some (ended args)
put_format (suc fuel) (c ∷ cs) args =
    if not (c == 37)
    then (put_format fuel cs args >>= (λ out. some (before (c ∷ []) out)))
    else put_next (put_format fuel) (get_spec cs args)

-- _vsprintf
unfoldable pub vsprintf : ℕ → List ℕ → List Arg → Option (Outcome (List ℕ))
unfolding put_format
vsprintf fuel fmt args = put_format fuel fmt (record { left = args; strayed = false })

-- out_buf: characters written one after the other.
unfoldable pub out_buf : ℕ → List ℕ → Bytes → Bytes
out_buf p [] mem = mem
out_buf p (c ∷ cs) mem = out_buf (p + 1) cs (upd mem p c)

-- tm_vsprintf: the length, and the memory. The length is a short.
abbrev pub ended_at : ℕ → Bytes → Outcome (List ℕ) → Outcome (ℕ × Bytes)
ended_at str mem (done out) =
    let len = length out % 2 ^ 16 in
    done (
      len,
      upd (out_buf str out mem) (if short_negative len then str - (2 ^ 16 - len) else str + len) 0,
    )
ended_at str mem undefined = undefined

unfoldable pub tm_vsprintf : ℕ → ℕ → List ℕ → List Arg → Bytes → Option (Outcome (ℕ × Bytes))
unfolding vsprintf out_buf
tm_vsprintf fuel str fmt args mem = vsprintf fuel fmt args >>= (λ out. some (ended_at str mem out))
