-- ===== src/Wait/Join.antt =====
-- A task joins a wait queue, by priority or at the end.
use open_t_kernel.Base.{
  ℕ, ◌≡◌, ◌≢◌, refl, sym, List, [], ◌∷◌, ◌++◌, All, All-append, NotIn, Distinct, Distinct-insert,
  if_rule, Bool-cases, inl, inr, ltb,
}
use mathlib.Core.List.{append-nil}
use open_t_kernel.Kernel.{has, ta_tpri}
use open_t_kernel.ReadyQueue.{head_or_null}
use open_t_kernel.Wait.{queue_insert_tpri, join_queue, top_of}

module _ (atr : ℕ) (pri : ℕ → ℕ) (t : ℕ) where
  All-insert_tpri {κ} :
      (P : ℕ → Type κ) (q : List ℕ) → P t → All P q → All P (queue_insert_tpri pri t q)
  unfolding queue_insert_tpri
  All-insert_tpri P [] p h = (p, tt)
  All-insert_tpri P (x ∷ q) p h =
      if_rule (All P) (ltb (pri t) (pri x)) (t ∷ x ∷ q) (x ∷ queue_insert_tpri pri t q)
        (λ _. (p, h)) (λ _. (h.0, All-insert_tpri P q p h.1))

  -- What holds of the queue and of the new task holds of the longer queue.
  pub All-join {κ} : (P : ℕ → Type κ) (q : List ℕ) → P t → All P q → All P (join_queue atr pri t q)
  unfolding join_queue
  All-join P q p h =
      if_rule (All P) (has atr ta_tpri) (queue_insert_tpri pri t q) (q ++ t ∷ [])
        (λ _. All-insert_tpri P q p h) (λ _. All-append P q (t ∷ []) h (p, tt))

  Distinct-insert_tpri :
      (q : List ℕ) → NotIn t q → Distinct q → Distinct (queue_insert_tpri pri t q)
  unfolding queue_insert_tpri
  Distinct-insert_tpri [] n d = (tt, tt)
  Distinct-insert_tpri (x ∷ q) n d =
      if_rule Distinct (ltb (pri t) (pri x)) (t ∷ x ∷ q) (x ∷ queue_insert_tpri pri t q)
        (λ _. (n, d))
        (λ _. (All-insert_tpri_ne x q (λ e. n.0 (sym e)) d.0, Distinct-insert_tpri q n.1 d.1))
    where
      All-insert_tpri_ne :
          (y : ℕ) (r : List ℕ) → y ≢ t → NotIn y r → NotIn y (queue_insert_tpri pri t r)
      All-insert_tpri_ne y [] a b = (a, tt)
      All-insert_tpri_ne y (z ∷ r) a b =
          if_rule (NotIn y) (ltb (pri t) (pri z)) (t ∷ z ∷ r) (z ∷ queue_insert_tpri pri t r)
            (λ _. (a, b)) (λ _. (b.0, All-insert_tpri_ne y r a b.1))

  pub Distinct-join : (q : List ℕ) → NotIn t q → Distinct q → Distinct (join_queue atr pri t q)
  unfolding join_queue
  Distinct-join q n d =
      if_rule Distinct (has atr ta_tpri) (queue_insert_tpri pri t q) (q ++ t ∷ [])
        (λ _. Distinct-insert_tpri q n d)
        (λ _. Distinct-insert t q [] (rw append-nil d) (rw append-nil n))

-- The head of a list has a property.
abbrev pub AtHead {κ} : (ℕ → Type κ) → List ℕ → Type κ
AtHead P [] = Unit
AtHead P (t ∷ q) = P t

-- The head of the longer queue is the old head, unless the new task is the one that
-- gcb_top_of_wait_queue finds.
pub AtHead-join {κ} :
    (P : ℕ → Type κ) (atr : ℕ) (pri : ℕ → ℕ) (t : ℕ) (q : List ℕ)
    → AtHead P q
    → (top_of atr pri t q ≡ t → P t)
    → AtHead P (join_queue atr pri t q)
unfolding join_queue queue_insert_tpri top_of
AtHead-join P atr pri t [] h f =
    if_rule (AtHead P) (has atr ta_tpri) (t ∷ []) (t ∷ []) (λ _. f refl) (λ _. f refl)
AtHead-join P atr pri t (x ∷ q) h f = elim (Bool-cases (has atr ta_tpri)) [
  | inl e ↦ elim (Bool-cases (ltb (pri t) (pri x))) [
    | inl l ↦ rw (e, l) (f (rw (e, l) refl))
    | inr l ↦ rw (e, l) h
  ]
  | inr e ↦ rw e h
]

-- The task that gcb_top_of_wait_queue finds before a task joins is the first in line after
-- gcb_make_wait has put the task on the queue.
pub head-join_queue :
    (atr : ℕ) (pri : ℕ → ℕ) (t : ℕ) (q : List ℕ)
    → head_or_null (join_queue atr pri t q) ≡ top_of atr pri t q
unfolding join_queue queue_insert_tpri top_of
head-join_queue atr pri t [] =
    if_rule (λ q. head_or_null q ≡ t) (has atr ta_tpri) (t ∷ []) (t ∷ []) (λ _. refl) (λ _. refl)
head-join_queue atr pri t (x ∷ q) = elim (Bool-cases (has atr ta_tpri)) [
  | inl e ↦ elim (Bool-cases (ltb (pri t) (pri x))) [
    | inl l ↦ rw (e, l) refl
    | inr l ↦ rw (e, l) refl
  ]
  | inr e ↦ rw e refl
]
