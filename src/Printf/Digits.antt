-- ===== src/Printf/Digits.antt =====
-- lib/libtm/src/tm_printf.c and lib/libstr/src/string.c: the digits that outint puts out are those that
-- tkl_strtoul reads.
use Prim.Native.Nat.{bit_and}
use open_t_kernel.Base.{
  ℕ, zero, suc, ◌≡◌, ◌≢◌, ◌<◌, ◌≤◌, ◌+◌, ◌*◌, ◌/◌, ◌%◌, ◌^◌, refl, sym, ap, ap₂, ◌∙◌, upd, upd_self,
  upd_ne, ==_ne, subst, arith, ◌⊎◌, inl, inr, Bool, true, false, Bool-cases, ◌==◌, ==_iff, not,
  ◌&&◌, ◌||◌, leb, every, every_lem, if◌then◌else◌, if_true, if_false, Option, some, none, List, [],
  ◌∷◌, length,
}
use native.Mathlib.Nat.{
  pow-suc, div-lt_iff_lt-mul, div-add-mod', mod-lt, mod-eq_of_lt, mul-le-mul_left, div-le_self,
}
use open_t_kernel.Bits.{Bytes}
use open_t_kernel.StringText.{digit, read_digits}
use open_t_kernel.Printf.{digit_char, outint_loop, outint}
use open_t_kernel.Printf.Format.{out_buf}

-- The characters `ds` are digits of the base, and read after `acc` they give `v`.
abbrev Reads : ℕ → ℕ → List ℕ → ℕ → Type 0
Reads base acc [] v = acc ≡ v
Reads base acc (d ∷ ds) v =
    (d ≢ 0)
    × (i : ℕ) × (digit d ≡ some i)
    × (leb base i ≡ false)
    × Reads base ((acc * base + i) % 2 ^ 32) ds v

-- The characters stand at `p`, and behind them a NUL.
abbrev pub TextAt : Bytes → ℕ → List ℕ → Type 0
TextAt mem p [] = mem p ≡ 0
TextAt mem p (d ∷ ds) = (mem p ≡ d) × TextAt mem (p + 1) ds

-- The table `digits` against `digit`, entry by entry.
is_some_of : ℕ → Option ℕ → Bool
is_some_of i none = false
is_some_of i (some j) = j == i

is_some_of_lem : (i : ℕ) (o : Option ℕ) → is_some_of i o ≡ true → o ≡ some i
unfolding is_some_of
is_some_of_lem i none h = cc
is_some_of_lem i (some j) h = ap some ((==_iff j i).0 h)

entry_right : ℕ → ℕ → Bool
unfolding is_some_of
entry_right caps i =
    not (digit_char (i + caps) == 0) && is_some_of i (digit (digit_char (i + caps)))

entries : every 16 (λ i. entry_right 0 i && entry_right 16 i) ≡ true
unfolding entry_right is_some_of digit
entries = refl

both : (a b : Bool) → (a && b) ≡ true → (a ≡ true) × (b ≡ true)
both a b h = ground (arith, h)

nonzero : (d : ℕ) → not (d == 0) ≡ true → d ≢ 0
nonzero d h p = ground (arith, h, p)

entry_lem :
    (caps i : ℕ)
    → (caps ≡ 0) ⊎ (caps ≡ 16)
    → i < 16
    → (digit_char (i + caps) ≢ 0) × (digit (digit_char (i + caps)) ≡ some i)
unfolding entry_right
entry_lem caps i c l =
    let t =
      both (entry_right 0 i) (entry_right 16 i)
        (every_lem 16 (λ j. entry_right 0 j && entry_right 16 j) i entries l) in
    let e : entry_right caps i ≡ true = elim c [
      | inl z ↦ subst (λ x. entry_right x i ≡ true) (sym z) t.0
      | inr z ↦ subst (λ x. entry_right x i ≡ true) (sym z) t.1
    ] in
    let r =
      both (not (digit_char (i + caps) == 0)) (is_some_of i (digit (digit_char (i + caps)))) e in
    (
      (λ p. nonzero (digit_char (i + caps)) r.0 p),
      is_some_of_lem i (digit (digit_char (i + caps))) r.1,
    )

module _ (base caps : ℕ) (low : 8 ≤ base) (high : base ≤ 16) (c : (caps ≡ 0) ⊎ (caps ≡ 16)) where
  -- One digit in front.
  digit_in_front :
      (acc i v : ℕ) (ds : List ℕ)
      → i < base
      → Reads base ((acc * base + i) % 2 ^ 32) ds v
      → Reads base acc (digit_char (i + caps) ∷ ds) v
  digit_in_front acc i v ds l r =
      let e = entry_lem caps i c (omega (arith, l, high)) in (e.0, i, e.1, ground (arith, l), r)

  -- The digits of `val` in front of `ds`: there are enough rounds, and no more digits than rounds.
  loop_Reads :
      (fuel val v : ℕ) (ds : List ℕ)
      → val < 8 ^ fuel
      → val < 2 ^ 32
      → fuel ≢ 0
      → Reads base val ds v
      → (out : List ℕ) × (outint_loop fuel val base caps ds ≡ some out)
        × (length out ≤ fuel + length ds)
        × Reads base 0 out v
  unfolding outint_loop
  loop_Reads zero val v ds f w n r = absurd (n refl)
  loop_Reads (suc fuel) val v ds f w n r = elim (Bool-cases (leb base val)) [
    | inl e ↦
        let m : 8 ^ fuel * 8 ≤ 8 ^ fuel * base = mul-le-mul_left (8 ^ fuel) low in
        let q : val < 8 ^ fuel * base = omega (arith, m, f, pow-suc 8 fuel) in
        let z : fuel ≢ 0 = λ p.
          let k : val < 8 ^ suc 0 = subst (λ x. val < 8 ^ suc x) p f in ground (arith, k, e, low) in
        let d : val / base * base + val % base ≡ val = div-add-mod' val base in
        let next = digit_char (val % base + caps) ∷ ds in
        let (out, o, l, t) =
          loop_Reads fuel (val / base) v next ((div-lt_iff_lt-mul (omega (arith, low))).1 q)
            (omega (arith, w, div-le_self val base)) z
            (digit_in_front (val / base) (val % base) v ds (mod-lt val (omega (arith, low)))
              (subst (λ x. Reads base x ds v) (sym (ap (λ x. x % 2 ^ 32) d ∙ mod-eq_of_lt w)) r)) in
        (out, if_true (leb base val) _ _ e ∙ o, omega (arith, l), t)
    | inr e ↦ (
      digit_char (val + caps) ∷ ds,
      if_false (leb base val) _ _ e,
      omega arith,
      digit_in_front 0 val v ds (ground (arith, e)) (
          subst (λ x. Reads base x ds v)
            (sym (mod-eq_of_lt {n = 0 * base + val} {m = 2 ^ 32} (omega (arith, w)) ∙ omega arith))
            r),
    )
  ]

-- Characters that give `v` are read to the end.
read-Reads :
    (base acc p v : ℕ) (ds : List ℕ) (mem : Bytes)
    → Reads base acc ds v
    → TextAt mem p ds
    → read_digits (suc (length ds)) base acc p mem ≡ some (v, p + length ds)
unfolding read_digits
read-Reads base acc p v [] mem r t =
    if_true (mem p == 0) _ _ (ap (λ x. x == 0) t) ∙ ap₂ (λ x y. some (x, y)) r (omega arith)
read-Reads base acc p v (d ∷ ds) mem (z, i, e, l, r) t =
    if_false (mem p == 0) _ _ (ap (λ x. x == 0) t.0 ∙ ==_ne d 0 z)
    ∙ ap
        (λ o. elim o as (λ (x : Option ℕ). Option (ℕ × ℕ)) [
          | none ↦ some (acc, p)
          | some j ↦
              if leb base j
              then some (acc, p)
              else read_digits (suc (length ds)) base ((acc * base + j) % 2 ^ 32) (p + 1) mem
        ])
        (ap digit t.0 ∙ e)
    ∙ if_false (leb base i) _ _ l
    ∙ read-Reads base ((acc * base + i) % 2 ^ 32) (p + 1) v ds mem r t.1
    ∙ ap (λ x. some (v, x)) (omega arith)

-- out_buf writes nothing in front of its start.
out_buf_before : (q p : ℕ) (ds : List ℕ) (mem : Bytes) → q < p → out_buf p ds mem q ≡ mem q
unfolding out_buf
out_buf_before q p [] mem l = refl
out_buf_before q p (d ∷ ds) mem l =
    out_buf_before q (p + 1) ds (upd mem p d) (omega (arith, l))
    ∙ upd_ne mem p d q (λ e. omega (arith, l, e))

-- The string that out_buf writes, ended by a NUL.
abbrev pub written : ℕ → List ℕ → Bytes → Bytes
written p ds mem = upd (out_buf p ds mem) (p + length ds) 0

written-TextAt : (p : ℕ) (ds : List ℕ) (mem : Bytes) → TextAt (written p ds mem) p ds
unfolding out_buf
written-TextAt p [] mem = ground arith
written-TextAt p (d ∷ ds) mem = (
  upd_ne (out_buf (p + 1) ds (upd mem p d)) (p + suc (length ds)) 0 p (λ e. omega (arith, e))
      ∙ out_buf_before p (p + 1) ds (upd mem p d) (omega arith)
      ∙ upd_self mem p d,
  subst (λ (q : ℕ). TextAt (upd (out_buf (p + 1) ds (upd mem p d)) q 0) (p + 1) ds) (omega arith)
      (written-TextAt (p + 1) ds (upd mem p d)),
)

capital : ℕ → Bool
capital base = (bit_and base 0x40 / 4 == 0) || (bit_and base 0x40 / 4 == 16)

capitals : every 256 capital ≡ true
unfolding capital
capitals = refl

caps_of : (base : ℕ) → base < 256 → (bit_and base 0x40 / 4 ≡ 0) ⊎ (bit_and base 0x40 / 4 ≡ 16)
unfolding capital
caps_of base l = one_of (bit_and base 0x40 / 4) (every_lem 256 capital base capitals l)
  where
    one_of : (x : ℕ) → (x == 0 || (x == 16)) ≡ true → (x ≡ 0) ⊎ (x ≡ 16)
    one_of x h = elim (Bool-cases (x == 0)) [
      | inl e ↦ inl ((==_iff x 0).0 e)
      | inr e ↦ inr (ground (arith, h, e))
    ]

-- For a word and a base of 8 to 16, outint ends and puts out 11 characters at most, of the 14 that cbuf has;
-- written as a string by out_buf, they are read by the loop of tkl_strtoul, in the same base and to the end, as
-- that word.
pub read_digits-outint :
    (base val p : ℕ) (mem : Bytes)
    → base < 256
    → 8 ≤ bit_and base 0x3f
    → bit_and base 0x3f ≤ 16
    → val < 2 ^ 32
    → (ds : List ℕ) × (outint val base ≡ some ds)
      × (length ds ≤ 11)
      × (read_digits (suc (length ds)) (bit_and base 0x3f) 0 p (written p ds mem)
          ≡ some (val, p + length ds))
unfolding outint
read_digits-outint base val p mem u low high w =
    let b = bit_and base 0x3f in
    let (ds, o, l, r) =
      loop_Reads b (bit_and base 0x40 / 4) low high (caps_of base u) 11 val val []
        (omega (arith, w)) w (λ e. ground (arith, e)) refl in
    (
      ds,
      o,
      omega (arith, l),
      read-Reads b 0 p val ds (written p ds mem) r (written-TextAt p ds mem),
    )
