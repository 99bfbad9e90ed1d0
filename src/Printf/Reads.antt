-- ===== src/Printf/Reads.antt =====
-- lib/libtm/src/tm_printf.c: _vsprintf does not stray from arguments that are words and as many as the format has
-- characters, where the format has no 's'.
use open_t_kernel.Base.{
  ℕ, zero, suc, ◌≡◌, ◌≢◌, ◌<◌, ◌≤◌, ◌+◌, ◌-◌, ◌*◌, ◌%◌, ◌^◌, refl, sym, ◌∙◌, ap, subst, arith, Bool,
  true, false, not, ◌&&◌, ◌||◌, ◌==◌, ==_ne, leb, if_rule, if_false, Option, none, some, ◌>>=◌,
  List, [], ◌∷◌, length, All,
}
use Prim.Native.Nat.{bit_or}
use open_t_kernel.Printf.{
  Arg, Args, Outcome, done, undefined, word, text, Spec, word_of, next_word, flag_of, get_flags,
  get_number, get_width, get_precision, get_qualifier, get_spec, short_negative,
}
use open_t_kernel.Printf.Format.{
  Item, Conversion, item, fixed, qualified, signed_item, unsigned_item, based_item, pointer_item,
  convert, put_item, put_conversion, put_next, before, ended, Rest, put_format, vsprintf,
}
use open_t_kernel.Printf.Total.{convert_given, spec_shorter, vsprintf_total}

abbrev pub IsWord : Arg → Type 0
IsWord (word n) = Unit
IsWord (text s) = ⊥

-- A format without 's', and an argument that is a word for each of its characters.
abbrev pub Suits : List ℕ → List Arg → Type 0
Suits fmt args = All (λ c. c ≢ 115) fmt × (length fmt ≤ length args) × All IsWord args

abbrev Fits : List ℕ → Args → Type 0
Fits cs a = Suits cs a.left × (a.strayed ≡ false)

skip-Fits : (c : ℕ) (cs : List ℕ) (a : Args) → Fits (c ∷ cs) a → Fits cs a
skip-Fits c cs a (((p, ps), l, w), s) = ((ps, omega (arith, l), w), s)

word_left :
    (c : ℕ) (cs : List ℕ) (args : List Arg)
    → Suits (c ∷ cs) args
    → Suits cs (word_of args).1.left × ((word_of args).1.strayed ≡ false)
word_left c cs [] (p, l, w) = absurd (omega (arith, l))
word_left c cs (word n ∷ args) (p, l, w) = ((p.1, omega (arith, l), w.1), refl)
word_left c cs (text s ∷ args) (p, l, w) = absurd w.0

or_false : (a b : Bool) → a ≡ false → b ≡ false → (a || b) ≡ false
or_false true b e h = e
or_false false b e h = h

next_word-Fits : (c : ℕ) (cs : List ℕ) (a : Args) → Fits (c ∷ cs) a → Fits cs (next_word a).1
unfolding next_word
next_word-Fits c cs a (f, s) =
    let r = word_left c cs a.left f in (r.0, or_false a.strayed (word_of a.left).1.strayed s r.1)

flags-Fits : (flg : ℕ) (cs : List ℕ) (a : Args) → Fits cs a → Fits (get_flags flg cs).1 a
unfolding get_flags
flags-Fits flg [] a f = f
flags-Fits flg (c ∷ cs) a f =
    if_rule (λ (r : ℕ × List ℕ). Fits r.1 a) (flag_of c == 0) (flg, c ∷ cs)
      (get_flags (bit_or flg (flag_of c)) cs) (λ _. f)
      (λ _. flags-Fits (bit_or flg (flag_of c)) cs a (skip-Fits c cs a f))

number-Fits : (n : ℕ) (cs : List ℕ) (a : Args) → Fits cs a → Fits (get_number n cs).1 a
unfolding get_number
number-Fits n [] a f = f
number-Fits n (c ∷ cs) a f =
    if_rule (λ (r : ℕ × List ℕ). Fits r.1 a) (leb 48 c && leb c 57)
      (get_number ((n * 10 + (c - 48)) % 2 ^ 16) cs) (n, c ∷ cs)
      (λ _. number-Fits ((n * 10 + (c - 48)) % 2 ^ 16) cs a (skip-Fits c cs a f)) (λ _. f)

-- What is left of the format and of the arguments behind a part of the specification.
abbrev Left : Spec → Type 0
Left s = Fits s.rest s.args

width-Fits : (flg : ℕ) (cs : List ℕ) (a : Args) → Fits cs a → Left (get_width flg cs a)
unfolding get_width
width-Fits flg [] a f = f
width-Fits flg (c ∷ cs) a f =
    if_rule Left (not (c == 42)) _ _ (λ _. number-Fits 0 (c ∷ cs) a f)
      (λ _.
        if_rule Left (short_negative ((next_word a).0 % 2 ^ 16)) _ _ (λ _. next_word-Fits c cs a f)
          (λ _. next_word-Fits c cs a f))

precision-Fits :
    (s : Spec) (r : List ℕ) → Fits r s.args → Left (get_precision (record s { rest = r }))
unfolding get_precision
precision-Fits s [] f = f
precision-Fits s (c ∷ []) f =
    if_rule Left (not (c == 46)) _ _ (λ _. f)
      (λ _. number-Fits 0 [] s.args (skip-Fits c [] s.args f))
precision-Fits s (c ∷ d ∷ ds) f =
    let g = skip-Fits c (d ∷ ds) s.args f in
    if_rule Left (not (c == 46)) _ _ (λ _. f)
      (λ _.
        if_rule Left (d == 42) _ _ (λ _. next_word-Fits d ds s.args g)
          (λ _. number-Fits 0 (d ∷ ds) s.args g))

qualifier-Fits :
    (s : Spec) (r : List ℕ) → Fits r s.args → Left (get_qualifier (record s { rest = r }))
unfolding get_qualifier
qualifier-Fits s [] f = f
qualifier-Fits s (c ∷ cs) f =
    if_rule Left (c == 104 || (c == 108)) _ _ (λ _. skip-Fits c cs s.args f) (λ _. f)

spec-Fits : (cs : List ℕ) (a : Args) → Fits cs a → Left (get_spec cs a)
unfolding get_spec
spec-Fits cs a f =
    let r = get_flags 0 cs in
    let w = get_width r.0 r.1 a in
    let p = get_precision w in
    qualifier-Fits p p.rest (precision-Fits w w.rest (width-Fits r.0 r.1 a (flags-Fits 0 cs a f)))

-- Behind a conversion, with the rest `cs` of the format.
abbrev Behind : List ℕ → Option Conversion → Type 0
Behind cs none = Unit
Behind cs (some (item i a)) = Fits cs a
Behind cs (some (fixed c)) = Unit

as_item-Behind :
    (cs : List ℕ) (a : Args) (o : Option Item)
    → Fits cs a
    → Behind cs (o >>= (λ i. some (item i a)))
as_item-Behind cs a none f = tt
as_item-Behind cs a (some i) f = f

convert-Behind : (c : ℕ) (cs : List ℕ) (s : Spec) → Fits (c ∷ cs) s.args → Behind cs (convert c s)
unfolding convert
convert-Behind c cs s f =
    let w = next_word s.args in
    let g = next_word-Fits c cs s.args f in
    let B = Behind cs in
    if_rule B (c == 105 || (c == 100)) _ _
      (λ _. as_item-Behind cs w.1 (signed_item s (qualified s.qual c w.0)) g)
      (λ _.
        if_rule B (c == 117) _ _
          (λ _. as_item-Behind cs w.1 (unsigned_item s (qualified s.qual c w.0)) g)
          (λ _.
            if_rule B (c == 88 || (c == 120 || (c == 111))) _ _
              (λ _. as_item-Behind cs w.1 (based_item c s (qualified s.qual c w.0)) g)
              (λ _.
                if_rule B (c == 112) _ _ (λ _. as_item-Behind cs w.1 (pointer_item s w.0) g)
                  (λ _.
                    subst B (sym (if_false (c == 115) _ _ (==_ne c 115 f.0.0.0)))
                      (if_rule B (c == 99) _ _ (λ _. g) (λ _. tt))))))

-- Put out, without straying.
abbrev IsDone : Option (Outcome (List ℕ)) → Type 0
IsDone o = (out : List ℕ) × (o ≡ some (done out))

before-IsDone :
    (cs : List ℕ) (o : Option (Outcome (List ℕ)))
    → IsDone o
    → IsDone (o >>= (λ out. some (before cs out)))
before-IsDone cs o (out, e) = (_, ap (λ x. x >>= (λ out. some (before cs out))) e)

ended-IsDone : (a : Args) → a.strayed ≡ false → IsDone (some (ended a))
ended-IsDone a s = ([], ap some (if_false a.strayed undefined (done []) s))

conversion-IsDone :
    (more : Rest) (s : Spec) (cs : List ℕ) (r : Conversion)
    → Fits cs s.args
    → Behind cs (some r)
    → ((a : Args) → Fits cs a → IsDone (more cs a))
    → IsDone (put_conversion more s cs r)
unfolding put_conversion
conversion-IsDone more s cs (fixed c) f b g = before-IsDone (c ∷ []) (more cs s.args) (g s.args f)
conversion-IsDone more s cs (item i a) f b g = before-IsDone (put_item s.flg i) (more cs a) (g a b)

next-IsDone :
    (more : Rest) (s : Spec) (r : List ℕ)
    → Fits r s.args
    → ((ds : List ℕ) (a : Args) → length ds < length r → Fits ds a → IsDone (more ds a))
    → IsDone (put_next more (record s { rest = r }))
unfolding put_next
next-IsDone more s [] f g = ended-IsDone s.args f.1
next-IsDone more s (c ∷ cs) f g =
    let s' : Spec = record s { rest = c ∷ cs } in
    let (r, e) = convert_given c s' in
    let b = subst (Behind cs) e (convert-Behind c cs s' f) in
    let (out, h) =
      conversion-IsDone more s' cs r (skip-Fits c cs s.args f) b (λ a. g cs a (omega arith)) in
    (out, ap (λ o. o >>= put_conversion more s' cs) e ∙ h)

format-IsDone :
    (fuel : ℕ) (fmt : List ℕ) (a : Args)
    → length fmt < fuel
    → Fits fmt a
    → IsDone (put_format fuel fmt a)
unfolding put_format
format-IsDone zero fmt a l f = absurd (omega (arith, l))
format-IsDone (suc fuel) [] a l f = ended-IsDone a f.1
format-IsDone (suc fuel) (c ∷ cs) a l f =
    let s = get_spec cs a in
    let g = skip-Fits c cs a f in
    if_rule IsDone (not (c == 37)) _ _
      (λ _.
        before-IsDone (c ∷ []) (put_format fuel cs a)
          (format-IsDone fuel cs a (omega (arith, l)) g))
      (λ _.
        next-IsDone (put_format fuel) s s.rest (spec-Fits cs a g)
          (λ ds r h. format-IsDone fuel ds r (omega (arith, l, h, spec_shorter cs a))))

vsprintf-IsDone :
    (fuel : ℕ) (fmt : List ℕ) (args : List Arg)
    → length fmt < fuel
    → Suits fmt args
    → IsDone (vsprintf fuel fmt args)
unfolding vsprintf
vsprintf-IsDone fuel fmt args l f =
    format-IsDone fuel fmt (record { left = args; strayed = false }) l (f, refl)

-- _vsprintf ends, or reads an argument that is missing or of another type: a round of fuel for each character of
-- the format and one more give all that it puts out, or `undefined`. It is not `undefined` where the format is
-- without the letter s and has no more characters than there are arguments, which are all words.
pub vsprintf_ends :
    (fuel : ℕ) (fmt : List ℕ) (args : List Arg)
    → length fmt < fuel
    → (out : Outcome (List ℕ)) × (vsprintf fuel fmt args ≡ some out)
      × (¬ (Suits fmt args × (out ≡ undefined)))
vsprintf_ends fuel fmt args l =
    let (out, e) = vsprintf_total fuel fmt args l in
    (
      out,
      e,
      λ (p : Suits fmt args × (out ≡ undefined)).
          let (o, d) = vsprintf-IsDone fuel fmt args l p.0 in
          let h : some (done o) ≡ some undefined = sym d ∙ e ∙ ap some p.1 in cc,
    )
