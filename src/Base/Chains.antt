-- ===== src/Base/Chains.antt =====
-- Chains of cells in a store: each cell holds the address of the next, and 0 ends the chain.
use Prim.Native.Nat.{ℕ}
use mathlib.Core.Path.{◌≡◌, refl, sym, ◌∙◌, subst}
use mathlib.Core.Logic.{◌≢◌}
use mathlib.Core.List.{List, [], ◌∷◌, ◌++◌}
use open_t_kernel.Base.Lists.{NotIn, NotIn-split, Distinct}
use open_t_kernel.Base.Maps.{upd, upd_self, upd_ne}

-- From address `a` the chain leads through the cells of the list.
abbrev pub Linked : (ℕ → ℕ) → ℕ → List ℕ → Type 0
Linked next a [] = a ≡ 0
Linked next a (x ∷ xs) = (a ≡ x) × (x ≢ 0) × Linked next (next x) xs

-- The address that leads to a list, and the last cell of a list that follows `p`.
abbrev pub address : List ℕ → ℕ
address [] = 0
address (x ∷ xs) = x

abbrev pub last_of : ℕ → List ℕ → ℕ
last_of p [] = p
last_of p (x ∷ xs) = last_of x xs

pub address-Linked : (next : ℕ → ℕ) (a : ℕ) (xs : List ℕ) → Linked next a xs → a ≡ address xs
address-Linked next a [] l = l
address-Linked next a (x ∷ xs) l = l.0

-- A store to a cell that is not on the chain.
pub Linked-upd :
    (next : ℕ → ℕ) (b v a : ℕ) (xs : List ℕ)
    → NotIn b xs
    → Linked next a xs
    → Linked (upd next b v) a xs
Linked-upd next b v a [] n c = c
Linked-upd next b v a (x ∷ xs) n (e, z, c) = (
  e,
  z,
  Linked-upd next b v (upd next b v x) xs n.1
      (subst (λ q. Linked next q xs) (sym (upd_ne next b v x (λ q. n.0 (sym q)))) c),
)

-- The store that puts cell `m` behind cell `p`, before the cells that followed `p`.
abbrev pub spliced : (ℕ → ℕ) → ℕ → ℕ → List ℕ → ℕ → ℕ
spliced next p m post = upd (upd next m (address post)) p m

pub spliced-Linked :
    (next : ℕ → ℕ) (a x m : ℕ) (pre post : List ℕ)
    → m ≢ 0
    → NotIn m (x ∷ pre ++ post)
    → Distinct (x ∷ pre ++ post)
    → Linked next a (x ∷ pre ++ post)
    → Linked (spliced next (last_of x pre) m post) a (x ∷ pre ++ m ∷ post)
spliced-Linked next a x m [] post z n d l =
    let f = upd next m (address post) in
    let e : upd f x m m ≡ address post = upd_ne f x m m n.0 ∙ upd_self next m (address post) in
    let t = l.2 in
    (
      l.0,
      l.1,
      (
        upd_self f x m,
        z,
        Linked-upd f x m (upd f x m m) post d.0 (
            Linked-upd next m (address post) (upd f x m m) post n.1
              (subst (λ q. Linked next q post) (address-Linked next (next x) post t ∙ sym e) t)),
      ),
    )
spliced-Linked next a x m (y ∷ pre) post z n d l =
    let f = upd next m (address post) in
    let q = last_of y pre in
    let e : upd f q m x ≡ next x =
      upd_ne f q m x (NotIn-last x y pre (NotIn-split x (y ∷ pre) post d.0).0)
      ∙ upd_ne next m (address post) x (λ p. n.0 (sym p)) in
    (
      l.0,
      l.1,
      spliced-Linked next (upd f q m x) y m pre post z n.1 d.1
          (subst (λ c. Linked next c (y ∷ pre ++ post)) (sym e) l.2),
    )
  where
    NotIn-last : (a b : ℕ) (xs : List ℕ) → NotIn a (b ∷ xs) → a ≢ last_of b xs
    NotIn-last a b [] h = h.0
    NotIn-last a b (c ∷ xs) h = NotIn-last a c xs h.1

pub last_of-Linked :
    (next : ℕ → ℕ) (a x : ℕ) (xs ys : List ℕ) → Linked next a (x ∷ xs ++ ys) → last_of x xs ≢ 0
last_of-Linked next a x [] ys l = l.1
last_of-Linked next a x (y ∷ xs) ys l = last_of-Linked next (next x) y xs ys l.2

pub last_of-append : (m x : ℕ) (xs : List ℕ) → last_of x (xs ++ m ∷ []) ≡ m
last_of-append m x [] = refl
last_of-append m x (y ∷ xs) = last_of-append m y xs
