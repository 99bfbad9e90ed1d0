-- ===== src/Base/Lists.antt =====
-- Lists measured by native numbers, and predicates on lists by recursion.
use Prim.Native.Nat.{ℕ, suc, ◌+◌}
use mathlib.Core.Path.{◌≡◌, refl, sym, subst}
use mathlib.Core.Logic.{◌≢◌, inl, inr}
use mathlib.Core.List.{List, [], ◌∷◌, ◌++◌}
use native.Mathlib.Omega.{arith}
use open_t_kernel.Base.Tests.{◌==◌, if◌then◌else◌, Bool-cases, ==_iff}

module _ {ℓ} {A : Type ℓ} where
  abbrev pub length : List A → ℕ
  length [] = 0
  length (x ∷ xs) = suc (length xs)

  pub length-append : (xs ys : List A) → length (xs ++ ys) ≡ length xs + length ys
  length-append [] ys = omega arith
  length-append (x ∷ xs) ys = omega (arith, length-append xs ys)

  -- A predicate of every element.
  abbrev pub All {κ} : (A → Type κ) → List A → Type κ
  All P [] = Unit
  All P (x ∷ xs) = P x × All P xs

  pub All-append {κ} : (P : A → Type κ) (xs ys : List A) → All P xs → All P ys → All P (xs ++ ys)
  All-append P [] ys hx hy = hy
  All-append P (x ∷ xs) ys hx hy = (hx.0, All-append P xs ys hx.1 hy)

  pub All-map {κ ι} :
      (P : A → Type κ) (Q : A → Type ι) (xs : List A) → ((x : A) → P x → Q x) → All P xs → All Q xs
  All-map P Q [] f h = tt
  All-map P Q (x ∷ xs) f h = (f x h.0, All-map P Q xs f h.1)

-- `a` is not in the list.
abbrev pub NotIn : ℕ → List ℕ → Type 0
NotIn a [] = Unit
NotIn a (x ∷ xs) = (a ≢ x) × NotIn a xs

-- No element occurs twice.
abbrev pub Distinct : List ℕ → Type 0
Distinct [] = Unit
Distinct (x ∷ xs) = NotIn x xs × Distinct xs

-- Delete the first occurrence.
unfoldable pub erase : ℕ → List ℕ → List ℕ
erase a [] = []
erase a (x ∷ xs) = if x == a then xs else x ∷ erase a xs

pub erase_of_NotIn : (a : ℕ) (xs : List ℕ) → NotIn a xs → erase a xs ≡ xs
unfolding erase
erase_of_NotIn a [] h = refl
erase_of_NotIn a (x ∷ xs) h = ground (arith, erase_of_NotIn a xs)

pub erase-append : (a : ℕ) (xs ys : List ℕ) → NotIn a xs → erase a (xs ++ a ∷ ys) ≡ xs ++ ys
unfolding erase
erase-append a [] ys h = ground arith
erase-append a (x ∷ xs) ys h = ground (arith, erase-append a xs ys)

pub NotIn-erase : (b a : ℕ) (xs : List ℕ) → NotIn b xs → NotIn b (erase a xs)
unfolding erase
NotIn-erase b a [] h = tt
NotIn-erase b a (x ∷ xs) h = ground (arith, NotIn-erase b a xs)

pub erase-Distinct : (a : ℕ) (xs : List ℕ) → Distinct xs → Distinct (erase a xs)
unfolding erase
erase-Distinct a [] h = tt
erase-Distinct a (x ∷ xs) h = ground (arith, erase-Distinct a xs, NotIn-erase x a xs)

pub erase-NotIn : (a : ℕ) (xs : List ℕ) → Distinct xs → NotIn a (erase a xs)
unfolding erase
erase-NotIn a [] h = tt
erase-NotIn a (x ∷ xs) h = ground (arith, erase-NotIn a xs)

pub All-erase {κ} : (P : ℕ → Type κ) (a : ℕ) (xs : List ℕ) → All P xs → All P (erase a xs)
unfolding erase
All-erase P a [] h = tt
All-erase P a (x ∷ xs) h = ground (arith, All-erase P a xs)

pub NotIn-append : (a : ℕ) (xs ys : List ℕ) → NotIn a xs → NotIn a ys → NotIn a (xs ++ ys)
NotIn-append a [] ys hx hy = hy
NotIn-append a (x ∷ xs) ys hx hy = (hx.0, NotIn-append a xs ys hx.1 hy)

pub NotIn-split : (a : ℕ) (xs ys : List ℕ) → NotIn a (xs ++ ys) → NotIn a xs × NotIn a ys
NotIn-split a [] ys h = (tt, h)
NotIn-split a (x ∷ xs) ys h = let k = NotIn-split a xs ys h.1 in ((h.0, k.0), k.1)

pub Distinct-insert :
    (e : ℕ) (xs ys : List ℕ) → Distinct (xs ++ ys) → NotIn e (xs ++ ys) → Distinct (xs ++ e ∷ ys)
Distinct-insert e [] ys d h = (h, d)
Distinct-insert e (x ∷ xs) ys d h =
    let k = NotIn-split x xs ys d.0 in
    (NotIn-append x xs (e ∷ ys) k.0 (λ p. h.0 (sym p), k.1), Distinct-insert e xs ys d.1 h.1)

pub Distinct-delete :
    (e : ℕ) (xs ys : List ℕ) → Distinct (xs ++ e ∷ ys) → Distinct (xs ++ ys) × NotIn e (xs ++ ys)
Distinct-delete e [] ys d = (d.1, d.0)
Distinct-delete e (x ∷ xs) ys d =
    let k = NotIn-split x xs (e ∷ ys) d.0 in
    let r = Distinct-delete e xs ys d.1 in
    ((NotIn-append x xs ys k.0 k.1.1, r.0), (λ p. k.1.0 (sym p), r.1))

pub Distinct-left : (xs ys : List ℕ) → Distinct (xs ++ ys) → Distinct xs
Distinct-left [] ys d = tt
Distinct-left (x ∷ xs) ys d = ((NotIn-split x xs ys d.0).0, Distinct-left xs ys d.1)

pub Distinct-right : (xs ys : List ℕ) → Distinct (xs ++ ys) → Distinct ys
Distinct-right [] ys d = d
Distinct-right (x ∷ xs) ys d = Distinct-right xs ys d.1

pub All-distinct_map {κ ι} :
    (P : ℕ → Type κ) (Q : ℕ → Type ι) (a : ℕ) (xs : List ℕ)
    → NotIn a xs
    → ((x : ℕ) → x ≢ a → P x → Q x)
    → All P xs
    → All Q xs
All-distinct_map P Q a [] n f h = tt
All-distinct_map P Q a (x ∷ xs) n f h =
    (f x (λ p. n.0 (sym p)) h.0, All-distinct_map P Q a xs n.1 f h.1)

-- An element with a property that `a` lacks is not `a`.
pub NotIn-of_All {κ} : (P : ℕ → Type κ) (a : ℕ) (xs : List ℕ) → ¬ P a → All P xs → NotIn a xs
NotIn-of_All P a [] n h = tt
NotIn-of_All P a (x ∷ xs) n h = ((λ p. n (subst P (sym p) h.0)), NotIn-of_All P a xs n h.1)

-- A predicate of the list without `a`: each element that is not `a` has it.
pub All-erase_map {κ ι} :
    (P : ℕ → Type κ) (Q : ℕ → Type ι) (a : ℕ) (xs : List ℕ)
    → Distinct xs
    → ((x : ℕ) → x ≢ a → P x → Q x)
    → All P xs
    → All Q (erase a xs)
unfolding erase
All-erase_map P Q a [] d f h = tt
All-erase_map P Q a (x ∷ xs) d f h = elim (Bool-cases (x == a)) [
  | inl e ↦ rw e (All-distinct_map P Q a xs (subst (λ z. NotIn z xs) ((==_iff x a).0 e) d.0) f h.1)
  | inr e ↦ rw e (f x (λ p. absurd (ground arith)) h.0, All-erase_map P Q a xs d.1 f h.1)
]

pub All-right {ℓ κ} : {A : Type ℓ} (P : A → Type κ) (xs ys : List A) → All P (xs ++ ys) → All P ys
All-right P [] ys h = h
All-right P (x ∷ xs) ys h = All-right P xs ys h.1

-- An element in the middle, put in or taken out.
pub All-insert {ℓ κ} :
    {A : Type ℓ} (P : A → Type κ) (e : A) (xs ys : List A)
    → P e
    → All P (xs ++ ys)
    → All P (xs ++ e ∷ ys)
All-insert P e [] ys p h = (p, h)
All-insert P e (x ∷ xs) ys p h = (h.0, All-insert P e xs ys p h.1)

pub All-delete {ℓ κ} :
    {A : Type ℓ} (P : A → Type κ) (e : A) (xs ys : List A)
    → All P (xs ++ e ∷ ys)
    → P e × All P (xs ++ ys)
All-delete P e [] ys h = h
All-delete P e (x ∷ xs) ys h = let r = All-delete P e xs ys h.1 in (r.0, (h.0, r.1))
