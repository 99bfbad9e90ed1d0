-- ===== src/Semaphore/Spec.antt =====
-- What the wait queue of a semaphore is promised, with no kernel in sight: which tasks get their
-- counts out of `n`, in the order of the queue, and which are left. With `first_fit` (TA_CNT) a task
-- that asks for too much is passed over; without it (TA_FIRST) it blocks those behind it.
use open_t_kernel.Base.{
  ℕ, ◌+◌, ◌-◌, ◌≤◌, ◌<◌, ◌≡◌, refl, arith, Bool, true, false, ltb, if◌then◌else◌, List, [], ◌∷◌,
  All, Bool-cases, inl, inr,
}

module _ (first_fit : Bool) (need : ℕ → ℕ) where
  -- The tasks that stay on the queue.
  unfoldable pub left : ℕ → List ℕ → List ℕ
  left n [] = []
  left n (t ∷ q) =
      if ltb n (need t) then (if first_fit then t ∷ left n q else t ∷ q) else left (n - need t) q

  -- The tasks that get their counts.
  unfoldable pub granted : ℕ → List ℕ → List ℕ
  granted n [] = []
  granted n (t ∷ q) =
      if ltb n (need t) then (if first_fit then granted n q else []) else t ∷ granted (n - need t) q

  -- The counts that remain.
  unfoldable pub balance : ℕ → List ℕ → ℕ
  balance n [] = n
  balance n (t ∷ q) =
      if ltb n (need t) then (if first_fit then balance n q else n) else balance (n - need t) q

  -- One step of the three, by the test of the first task.
  pub pass_over :
      (n t : ℕ) (q : List ℕ)
      → ltb n (need t) ≡ true
      → first_fit ≡ true
      → (left n (t ∷ q) ≡ t ∷ left n q)
        × (granted n (t ∷ q) ≡ granted n q)
        × (balance n (t ∷ q) ≡ balance n q)
  unfolding left granted balance
  pass_over n t q h f = ground arith

  pub stop_at :
      (n t : ℕ) (q : List ℕ)
      → ltb n (need t) ≡ true
      → first_fit ≡ false
      → (left n (t ∷ q) ≡ t ∷ q) × (granted n (t ∷ q) ≡ []) × (balance n (t ∷ q) ≡ n)
  unfolding left granted balance
  stop_at n t q h f = ground arith

  pub grant_to :
      (n t : ℕ) (q : List ℕ)
      → ltb n (need t) ≡ false
      → (left n (t ∷ q) ≡ left (n - need t) q)
        × (granted n (t ∷ q) ≡ t ∷ granted (n - need t) q)
        × (balance n (t ∷ q) ≡ balance (n - need t) q)
  unfolding left granted balance
  grant_to n t q h = ground arith

  -- What a list of tasks asks for together.
  abbrev pub total : List ℕ → ℕ
  total [] = 0
  total (t ∷ q) = need t + total q

  -- No count is lost or made.
  pub balance-granted : (n : ℕ) (q : List ℕ) → balance n q + total (granted n q) ≡ n
  unfolding balance granted
  balance-granted n [] = omega arith
  balance-granted n (t ∷ q) = ground (arith, balance-granted n q, balance-granted (n - need t) q)

  -- With no counts nothing happens.
  pub none_left :
      (q : List ℕ)
      → All (λ t. 0 < need t) q
      → (left 0 q ≡ q) × (granted 0 q ≡ []) × (balance 0 q ≡ 0)
  unfolding balance granted left
  none_left [] h = (refl, refl, refl)
  none_left (t ∷ q) h = ground (arith, none_left q h.1)

  -- A task that asks for more than `n`.
  abbrev pub Short : ℕ → ℕ → Type 0
  Short n t = n < need t

  abbrev pub HeadShort : ℕ → List ℕ → Type 0
  HeadShort n [] = Unit
  HeadShort n (t ∷ q) = Short n t

  pub balance-le : (n : ℕ) (q : List ℕ) → balance n q ≤ n
  balance-le n q = omega (arith, balance-granted n q)

  pub left-HeadShort : (n : ℕ) (q : List ℕ) → HeadShort (balance n q) (left n q)
  unfolding balance left
  left-HeadShort n [] = tt
  left-HeadShort n (t ∷ q) = elim (Bool-cases (ltb n (need t))) [
    | inl e ↦ elim (Bool-cases first_fit) [
      | inl f ↦ rw (e, f) (omega (arith, balance-le n q, lt n t e))
      | inr f ↦ rw (e, f) (lt n t e)
    ]
    | inr e ↦ rw e (left-HeadShort (n - need t) q)
  ]
    where
      lt : (m u : ℕ) → ltb m (need u) ≡ true → m < need u
      lt m u h = ground arith

Short_mono : (need : ℕ → ℕ) (m n t : ℕ) → m ≤ n → n < need t → m < need t
Short_mono need m n t h k = omega arith

-- With TA_CNT nobody is left whose counts are there.
pub left-Short :
    (need : ℕ → ℕ) (n : ℕ) (q : List ℕ)
    → All (Short true need (balance true need n q)) (left true need n q)
unfolding balance left
left-Short need n [] = tt
left-Short need n (t ∷ q) = elim (Bool-cases (ltb n (need t))) [
  | inl e ↦ rw e (
    Short_mono need (balance true need n q) n t (balance-le true need n q) (lt n t e),
    left-Short need n q,
  )
  | inr e ↦ rw e (left-Short need (n - need t) q)
]
  where
    lt : (m u : ℕ) → ltb m (need u) ≡ true → m < need u
    lt m u h = ground arith
