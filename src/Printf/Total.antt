-- ===== src/Printf/Total.antt =====
-- lib/libtm/src/tm_printf.c: _vsprintf ends on every format.
use Prim.Native.Nat.{bit_and, bit_or}
use open_t_kernel.Base.{
  ℕ, zero, suc, ◌≡◌, ◌<◌, ◌≤◌, ◌+◌, ◌-◌, ◌*◌, ◌%◌, ◌^◌, refl, ◌∙◌, ap, arith, Bool, false, not,
  ◌&&◌, ◌||◌, ◌==◌, leb, if◌then◌else◌, if_rule, Option, some, ◌>>=◌, List, [], ◌∷◌, length,
}
use open_t_kernel.Kernel.{has}
use open_t_kernel.Printf.{
  Arg, Args, Outcome, word, text, Spec, word_of, next_word, next_text, flag_of, get_flags,
  get_number, get_width, get_precision, get_qualifier, get_spec, outint,
}
use open_t_kernel.Printf.Format.{
  Item, Conversion, item, fixed, qualified, base_of, number_chars, signed_item, unsigned_item,
  based_item, pointer_item, text_item, char_item, convert, put_item, put_conversion, put_next,
  before, ended, Rest, put_format, vsprintf,
}
use open_t_kernel.Printf.Digits.{read_digits-outint}

-- The computation has a result.
abbrev Gives {ℓ} : {A : Type ℓ} → Option A → Type ℓ
Gives {A = A} o = (x : A) × (o ≡ some x)

chained {ℓ κ} :
    {A : Type ℓ} {B : Type κ} (o : Option A) (f : A → Option B)
    → Gives o
    → ((x : A) → Gives (f x))
    → Gives (o >>= f)
chained o f (x, e) g = ((g x).0, ap (λ y. y >>= f) e ∙ (g x).1)

-- A word in a base of the code, capitals and prefix bits included.
digits_given :
    (base val : ℕ)
    → base < 256
    → 8 ≤ bit_and base 0x3f
    → bit_and base 0x3f ≤ 16
    → val < 2 ^ 32
    → Gives (outint val base)
digits_given base val u l h w = let r = read_digits-outint base val 0 (λ i. 0) u l h w in (r.0, r.1)

number_given :
    (v prec base : ℕ)
    → base < 256
    → 8 ≤ bit_and base 0x3f
    → bit_and base 0x3f ≤ 16
    → v < 2 ^ 32
    → Gives (number_chars v prec base)
number_given v prec base u l h w =
    if_rule Gives (v == 0 && (prec == 0)) (some []) (outint v base) (λ _. ([], refl))
      (λ _. digits_given base v u l h w)

based_given :
    (c v prec : ℕ) (p : Bool)
    → v < 2 ^ 32
    → Gives (number_chars v prec (if p then base_of c + 0x80 else base_of c))
based_given c v prec p w =
    let P = λ (b : ℕ). Gives (number_chars v prec (if p then b + 0x80 else b)) in
    if_rule P (c == 88) 0x50 (if c == 120 then 16 else 8)
      (λ _.
        at 0x50 (omega arith) (omega arith) (omega arith) (omega arith) (omega arith) (omega arith))
      (λ _.
        if_rule P (c == 120) 16 8
          (λ _.
            at 16 (omega arith) (omega arith) (omega arith) (omega arith) (omega arith)
              (omega arith))
          (λ _.
            at 8 (omega arith) (omega arith) (omega arith) (omega arith) (omega arith)
              (omega arith)))
  where
    at :
        (b : ℕ)
        → b + 0x80 < 256
        → 8 ≤ bit_and (b + 0x80) 0x3f
        → bit_and (b + 0x80) 0x3f ≤ 16
        → b < 256
        → 8 ≤ bit_and b 0x3f
        → bit_and b 0x3f ≤ 16
        → Gives (number_chars v prec (if p then b + 0x80 else b))
    at b u l h u' l' h' =
        if_rule (λ x. Gives (number_chars v prec x)) p (b + 0x80) b
          (λ _. number_given v prec (b + 0x80) u l h w) (λ _. number_given v prec b u' l' h' w)

word_of_bound : (args : List Arg) → (word_of args).0 < 2 ^ 32
word_of_bound [] = omega arith
word_of_bound (word n ∷ args) = omega arith
word_of_bound (text s ∷ args) = omega arith

word_bound : (args : Args) → (next_word args).0 < 2 ^ 32
unfolding next_word
word_bound args = word_of_bound args.left

qualified_bound : (qual c v : ℕ) → v < 2 ^ 32 → qualified qual c v < 2 ^ 32
qualified_bound qual c v w = ground (arith, w)

signed_given : (s : Spec) (v : ℕ) → v < 2 ^ 32 → Gives (signed_item s v)
unfolding signed_item
signed_given s v w =
    chained (number_chars (if leb (2 ^ 31) v then 2 ^ 32 - v else v) s.prec 10) _
      (number_given (if leb (2 ^ 31) v then 2 ^ 32 - v else v) s.prec 10 (omega arith) (omega arith)
        (omega arith) (ground (arith, w)))
      (λ x. (_, refl))

unsigned_given : (s : Spec) (v : ℕ) → v < 2 ^ 32 → Gives (unsigned_item s v)
unfolding unsigned_item
unsigned_given s v w =
    chained (number_chars v s.prec 10) _
      (number_given v s.prec 10 (omega arith) (omega arith) (omega arith) w) (λ x. (_, refl))

based_item_given : (c : ℕ) (s : Spec) (v : ℕ) → v < 2 ^ 32 → Gives (based_item c s v)
unfolding based_item
based_item_given c s v w =
    chained _ _ (based_given c v s.prec (has s.flg 0x08 && not (v == 0)) w) (λ x. (_, refl))

pointer_given : (s : Spec) (v : ℕ) → v < 2 ^ 32 → Gives (pointer_item s v)
unfolding pointer_item
pointer_given s v w =
    chained (outint v (if v == 0 then 10 else 0x90)) _
      (if_rule (λ b. Gives (outint v b)) (v == 0) 10 0x90
        (λ _. digits_given 10 v (omega arith) (omega arith) (omega arith) w)
        (λ _. digits_given 0x90 v (omega arith) (omega arith) (omega arith) w))
      (λ x. (_, refl))

pub convert_given : (c : ℕ) (s : Spec) → Gives (convert c s)
unfolding convert
convert_given c s =
    let w = next_word s.args in
    let b = word_bound s.args in
    let v = qualified s.qual c w.0 in
    let vb = qualified_bound s.qual c w.0 b in
    let as_item = λ (o : Option Item). o >>= (λ i. some (item i w.1)) in
    let given : (o : Option Item) → Gives o → Gives (as_item o) =
      λ o g. chained o (λ i. some (item i w.1)) g (λ i. (item i w.1, refl)) in
    let t = next_text s.args in
    let e5 = if c == 99 then some (item (char_item s w.0) w.1) else some (fixed c) in
    let e4 = if c == 115 then some (item (text_item s t.0) t.1) else e5 in
    let e3 = if c == 112 then as_item (pointer_item s w.0) else e4 in
    let e2 = if c == 88 || (c == 120 || (c == 111)) then as_item (based_item c s v) else e3 in
    let e1 = if c == 117 then as_item (unsigned_item s v) else e2 in
    let G = λ (o : Option Conversion). Gives o in
    if_rule G (c == 105 || (c == 100)) (as_item (signed_item s v)) e1
      (λ _. given (signed_item s v) (signed_given s v vb))
      (λ _.
        if_rule G (c == 117) (as_item (unsigned_item s v)) e2
          (λ _. given (unsigned_item s v) (unsigned_given s v vb))
          (λ _.
            if_rule G (c == 88 || (c == 120 || (c == 111))) (as_item (based_item c s v)) e3
              (λ _. given (based_item c s v) (based_item_given c s v vb))
              (λ _.
                if_rule G (c == 112) (as_item (pointer_item s w.0)) e4
                  (λ _. given (pointer_item s w.0) (pointer_given s w.0 b))
                  (λ _.
                    if_rule G (c == 115) (some (item (text_item s t.0) t.1)) e5
                      (λ _. (item (text_item s t.0) t.1, refl))
                      (λ _.
                        if_rule G (c == 99) (some (item (char_item s w.0) w.1)) (some (fixed c))
                          (λ _. (item (char_item s w.0) w.1, refl)) (λ _. (fixed c, refl)))))))

-- What is read of the format is shorter than the format.
flags_shorter : (flg : ℕ) (cs : List ℕ) → length (get_flags flg cs).1 ≤ length cs
unfolding get_flags
flags_shorter flg [] = omega arith
flags_shorter flg (c ∷ cs) = ground (arith, flags_shorter (bit_or flg (flag_of c)) cs)

number_shorter : (n : ℕ) (cs : List ℕ) → length (get_number n cs).1 ≤ length cs
unfolding get_number
number_shorter n [] = omega arith
number_shorter n (c ∷ cs) = ground (arith, number_shorter ((n * 10 + (c - 48)) % 2 ^ 16) cs)

width_shorter :
    (flg : ℕ) (cs : List ℕ) (args : Args) → length (get_width flg cs args).rest ≤ length cs
unfolding get_width
width_shorter flg [] args = omega arith
width_shorter flg (c ∷ cs) args = ground (arith, number_shorter 0 (c ∷ cs))

qualifier_shorter :
    (s : Spec) (r : List ℕ) → length (get_qualifier (record s { rest = r })).rest ≤ length r
unfolding get_qualifier
qualifier_shorter s [] = omega arith
qualifier_shorter s (c ∷ cs) = ground arith

precision_shorter :
    (s : Spec) (r : List ℕ) → length (get_precision (record s { rest = r })).rest ≤ length r
unfolding get_precision
precision_shorter s [] = omega arith
precision_shorter s (c ∷ []) = ground (arith, number_shorter 0 [])
precision_shorter s (c ∷ d ∷ ds) = ground (arith, number_shorter 0 (d ∷ ds))

pub spec_shorter : (cs : List ℕ) (args : Args) → length (get_spec cs args).rest ≤ length cs
unfolding get_spec
spec_shorter cs args =
    let f = get_flags 0 cs in
    let w = get_width f.0 f.1 args in
    let p = get_precision w in
    omega (
      arith,
      flags_shorter 0 cs,
      width_shorter f.0 f.1 args,
      precision_shorter w w.rest,
      qualifier_shorter p p.rest,
    )

conversion_given :
    (more : Rest) (s : Spec) (cs : List ℕ) (r : Conversion)
    → ((args : Args) → Gives (more cs args))
    → Gives (put_conversion more s cs r)
unfolding put_conversion
conversion_given more s cs (fixed c) g =
    chained (more cs s.args) (λ out. some (before (c ∷ []) out)) (g s.args)
      (λ out. (before (c ∷ []) out, refl))
conversion_given more s cs (item i args) g =
    chained (more cs args) (λ out. some (before (put_item s.flg i) out)) (g args)
      (λ out. (before (put_item s.flg i) out, refl))

-- The rest of the loop is called on less of the format.
next_given :
    (more : Rest) (s : Spec) (r : List ℕ)
    → ((ds : List ℕ) (args : Args) → length ds < length r → Gives (more ds args))
    → Gives (put_next more (record s { rest = r }))
unfolding put_next
next_given more s [] g = (ended s.args, refl)
next_given more s (c ∷ cs) g =
    let s' : Spec = record s { rest = c ∷ cs } in
    chained (convert c s') (put_conversion more s' cs) (convert_given c s')
      (λ r. conversion_given more s' cs r (λ args. g cs args (omega arith)))

format_given :
    (fuel : ℕ) (fmt : List ℕ) (args : Args) → length fmt < fuel → Gives (put_format fuel fmt args)
unfolding put_format
format_given zero fmt args l = absurd (omega (arith, l))
format_given (suc fuel) [] args l = (ended args, refl)
format_given (suc fuel) (c ∷ cs) args l =
    let s = get_spec cs args in
    if_rule Gives (not (c == 37)) (put_format fuel cs args >>= (λ out. some (before (c ∷ []) out)))
      (put_next (put_format fuel) s)
      (λ _.
        chained (put_format fuel cs args) (λ out. some (before (c ∷ []) out))
          (format_given fuel cs args (omega (arith, l))) (λ out. (before (c ∷ []) out, refl)))
      (λ _.
        next_given (put_format fuel) s s.rest
          (λ ds rest h. format_given fuel ds rest (omega (arith, l, h, spec_shorter cs args))))

-- _vsprintf ends, or reads an argument that is missing or of another type: a round of fuel for each character of
-- the format and one more give what it puts out, or `undefined`.
pub vsprintf_total :
    (fuel : ℕ) (fmt : List ℕ) (args : List Arg)
    → length fmt < fuel
    → (out : Outcome (List ℕ)) × (vsprintf fuel fmt args ≡ some out)
unfolding vsprintf
vsprintf_total fuel fmt args l = format_given fuel fmt (record { left = args; strayed = false }) l
