-- ===== src/Queue/Ring.antt =====
-- The rings of queue.h as lists: what each operation does to the list of a ring.
use open_t_kernel.Base.{ℕ, ◌≡◌, ◌≢◌, sym, List, [], ◌∷◌, ◌++◌, arith, NotIn, Distinct}
use open_t_kernel.Queue.{Links, que_insert}

-- From `a` the `next` pointers lead through `xs` to `b`, and the `prev` pointers lead back.
abbrev pub Chain : Links → ℕ → List ℕ → ℕ → Type 0
Chain m a [] b = (m.next a ≡ b) × (m.prev b ≡ a)
Chain m a (x ∷ xs) b = (m.next a ≡ x) × (m.prev x ≡ a) × Chain m x xs b

-- The ring through the header `que` holds the entries `xs`, in the order of `next`.
pub record IsRing (m : Links) (que : ℕ) (xs : List ℕ) : Type 0 where
  pub links : Chain m que xs que
  pub fresh : NotIn que xs
  pub distinct : Distinct xs

-- The last entry of a chain, or its start.
abbrev pub last : ℕ → List ℕ → ℕ
last a [] = a
last a (x ∷ xs) = last x xs

pub prev-Chain : (m : Links) (a : ℕ) (xs : List ℕ) (b : ℕ) → Chain m a xs b → m.prev b ≡ last a xs
prev-Chain m a [] b c = c.1
prev-Chain m a (x ∷ xs) b c = prev-Chain m x xs b c.2

pub next-last : (m : Links) (a : ℕ) (xs : List ℕ) (b : ℕ) → Chain m a xs b → m.next (last a xs) ≡ b
next-last m a [] b c = c.0
next-last m a (x ∷ xs) b c = next-last m x xs b c.2

pub Chain-append :
    (m : Links) (a : ℕ) (xs : List ℕ) (y : ℕ) (ys : List ℕ) (b : ℕ)
    → Chain m a xs y
    → Chain m y ys b
    → Chain m a (xs ++ y ∷ ys) b
Chain-append m a [] y ys b c d = (c.0, c.1, d)
Chain-append m a (x ∷ xs) y ys b c d = (c.0, c.1, Chain-append m x xs y ys b c.2 d)

pub Chain-split :
    (m : Links) (a : ℕ) (xs : List ℕ) (y : ℕ) (ys : List ℕ) (b : ℕ)
    → Chain m a (xs ++ y ∷ ys) b
    → Chain m a xs y × Chain m y ys b
Chain-split m a [] y ys b c = ((c.0, c.1), c.2)
Chain-split m a (x ∷ xs) y ys b c = let d = Chain-split m x xs y ys b c.2 in ((c.0, c.1, d.0), d.1)

pub last_ne : (a x : ℕ) (xs : List ℕ) → NotIn a (x ∷ xs) → last x xs ≢ a
last_ne a x [] h = λ e. h.0 (sym e)
last_ne a x (y ∷ xs) h = last_ne a y xs h.1

-- Two stores that agree on `next` off `p` and `e`, and on `prev` off `u` and `e`.
module _ (m m' : Links) (p e u : ℕ) (n : (z : ℕ) → z ≢ p → z ≢ e → m'.next z ≡ m.next z)
    (q : (z : ℕ) → z ≢ u → z ≢ e → m'.prev z ≡ m.prev z) where
  pub keep_Chain :
      (a : ℕ) (xs : List ℕ) (b : ℕ)
      → Chain m a xs b
      → NotIn p (a ∷ xs)
      → NotIn e (a ∷ xs)
      → NotIn u xs
      → u ≢ b
      → e ≢ b
      → Chain m' a xs b
  keep_Chain a [] b c hp he hu ub eb = ground (arith, n a, q b)
  keep_Chain a (x ∷ xs) b c hp he hu ub eb =
      (ground (arith, n a), ground (arith, q x), keep_Chain x xs b c.2 hp.1 he.1 hu.1 ub eb)

  -- A chain whose last `next` now leads to `t`.
  pub retarget :
      (t a : ℕ) (xs : List ℕ) (y : ℕ)
      → Chain m a xs y
      → p ≡ last a xs
      → m'.next p ≡ t
      → m'.prev t ≡ p
      → NotIn e (a ∷ xs)
      → NotIn u xs
      → Distinct (a ∷ xs)
      → Chain m' a xs t
  retarget t a [] y c hp nt pt he hu d = ground arith
  retarget t a (x ∷ xs) y c hp nt pt he hu d = (
    ground (arith, n a, last_ne a x xs d.0),
    ground (arith, q x),
    retarget t x xs y c.2 hp nt pt he.1 hu.1 d.1,
  )

-- The stores of a well-placed insertion.
pub insert_fields :
    (e y : ℕ) (m : Links)
    → e ≢ y
    → e ≢ m.prev y
    → let m' = que_insert e y m in
      ((z : ℕ) → z ≢ m.prev y → z ≢ e → m'.next z ≡ m.next z)
      × ((z : ℕ) → z ≢ y → z ≢ e → m'.prev z ≡ m.prev z)
      × (m'.next (m.prev y) ≡ e)
      × (m'.prev e ≡ m.prev y)
      × (m'.next e ≡ y)
      × (m'.prev y ≡ e)
unfolding que_insert
insert_fields e y m ey ep = (
  λ z h k. ground arith,
  λ z h k. ground arith,
  ground arith,
  ground arith,
  ground arith,
  ground arith,
)
