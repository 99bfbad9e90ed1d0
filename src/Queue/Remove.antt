-- ===== src/Queue/Remove.antt =====
-- isQueEmpty, QueRemove and QueRemoveNext of queue.h on rings.
use mathlib.Core.List.{append-nil, head?, tail}
use open_t_kernel.Base.{
  ℕ, ◌≡◌, ◌≢◌, ◌↔◌, refl, sym, subst, ◌∙◌, List, [], ◌∷◌, ◌++◌, some, true, ==_self, arith, NotIn,
  Distinct, NotIn-split, NotIn-append, Distinct-delete, Distinct-left,
}
use open_t_kernel.Queue.{Links, is_que_empty, que_remove, que_remove_next}
use open_t_kernel.Queue.Ring.{
  Chain, IsRing, last, prev-Chain, next-last, Chain-append, Chain-split, keep_Chain, retarget,
}
use open_t_kernel.Queue.Insert.{last-NotIn, last-mem}

-- The test finds the empty ring, and no other.
pub is_que_empty_iff :
    (m : Links) (que : ℕ) (xs : List ℕ) → IsRing m que xs → (is_que_empty que m ≡ true) ↔ (xs ≡ [])
unfolding is_que_empty
is_que_empty_iff m que [] r = (λ _. refl, λ _. ground arith)
is_que_empty_iff m que (x ∷ xs) r = (λ h. absurd (ground arith), λ h. absurd (ground arith))

-- The stores of a removal: the neighbours are joined, and no other pointer changes.
abbrev Fields : ℕ → Links → Type 0
Fields e m =
    ((z : ℕ) → z ≢ m.prev e → z ≢ e → (que_remove e m).next z ≡ m.next z)
    × ((z : ℕ) → z ≢ m.next e → z ≢ e → (que_remove e m).prev z ≡ m.prev z)
    × ((que_remove e m).next (m.prev e) ≡ m.next e)
    × ((que_remove e m).prev (m.next e) ≡ m.prev e)

remove-Fields :
    (e : ℕ) (m : Links) → m.next e ≢ e → m.next (m.prev e) ≡ e → e ≢ m.prev e → Fields e m
unfolding que_remove
remove-Fields e m en pe ep =
    (λ z h k. ground arith, λ z h k. ground arith, ground arith, ground arith)

module _ (m : Links) (que : ℕ) (xs : List ℕ) (e : ℕ) where
  remove_links :
      (ys : List ℕ)
      → Chain m que xs e
      → Chain m e ys que
      → NotIn que (xs ++ e ∷ ys)
      → Distinct (xs ++ e ∷ ys)
      → Chain (que_remove e m) que (xs ++ ys) que
  remove_links [] c c' fr d = rw append-nil (
      retarget m (que_remove e m) (m.prev e) e (m.next e) f.0 f.1 que que xs e c
        (prev-Chain m que xs e c) (f.2 ∙ c'.0)
        (subst (λ z. (que_remove e m).prev z ≡ m.prev e) c'.0 f.3) ((λ p. fq.1.0 (sym p)), fe)
        (subst (λ z. NotIn z xs) (sym c'.0) fq.0) (fq.0, Distinct-left xs (e ∷ []) d))
    where
      fq : NotIn que xs × NotIn que (e ∷ [])
      fq = NotIn-split que xs (e ∷ []) fr

      fe : NotIn e xs
      fe = (NotIn-split e xs [] (Distinct-delete e xs [] d).1).0

      f : Fields e m
      f =
          remove-Fields e m (rw c'.0 fq.1.0) (rw (prev-Chain m que xs e c) (next-last m que xs e c))
            (rw (prev-Chain m que xs e c) (last-mem e que xs ((λ p. fq.1.0 (sym p)), fe)))
  remove_links (y ∷ ys) c c' fr d = Chain-append (que_remove e m) que xs y ys que front rest
    where
      fq : NotIn que xs × NotIn que (e ∷ y ∷ ys)
      fq = NotIn-split que xs (e ∷ y ∷ ys) fr

      fe : NotIn e xs × NotIn e (y ∷ ys)
      fe = NotIn-split e xs (y ∷ ys) (Distinct-delete e xs (y ∷ ys) d).1

      d' : Distinct (xs ++ y ∷ ys)
      d' = (Distinct-delete e xs (y ∷ ys) d).0

      ny : NotIn y xs × NotIn y ys
      ny = NotIn-split y xs ys (Distinct-delete y xs ys d').1

      back : m.prev e ≡ last que xs
      back = prev-Chain m que xs e c

      f : Fields e m
      f =
          remove-Fields e m (rw c'.0 (λ p. fe.1.0 (sym p))) (rw back (next-last m que xs e c))
            (rw back (last-mem e que xs ((λ p. fq.1.0 (sym p)), fe.0)))

      front : Chain (que_remove e m) que xs y
      front =
          retarget m (que_remove e m) (m.prev e) e (m.next e) f.0 f.1 y que xs e c back (f.2 ∙ c'.0)
            (subst (λ z. (que_remove e m).prev z ≡ m.prev e) c'.0 f.3) ((λ p. fq.1.0 (sym p)), fe.0)
            (subst (λ z. NotIn z xs) (sym c'.0) ny.0) (fq.0, Distinct-left xs (y ∷ ys) d')

      rest : Chain (que_remove e m) y ys que
      rest =
          keep_Chain m (que_remove e m) (m.prev e) e (m.next e) f.0 f.1 y ys que c'.2
            (subst (λ p. NotIn p (y ∷ ys)) (sym back) (last-NotIn que xs (y ∷ ys) fq.1.1 d')) fe.1
            (subst (λ z. NotIn z ys) (sym c'.0) ny.1) (λ p. fq.1.1.0 (sym p ∙ c'.0))
            (λ p. fq.1.0 (sym p))

-- Removing an entry takes it out of its ring, and leaves the others in their order.
pub que_remove-entry :
    (m : Links) (que : ℕ) (xs : List ℕ) (entry : ℕ) (ys : List ℕ)
    → IsRing m que (xs ++ entry ∷ ys)
    → IsRing (que_remove entry m) que (xs ++ ys)
que_remove-entry m que xs e ys r =
    let c = Chain-split m que xs e ys que r.links in
    let fq = NotIn-split que xs (e ∷ ys) r.fresh in
    record {
      links = remove_links m que xs e ys c.0 c.1 r.fresh r.distinct;
      fresh = NotIn-append que xs ys fq.0 fq.1.1;
      distinct = (Distinct-delete e xs ys r.distinct).0;
    }

-- An entry that stands alone, its pointers on itself, is left as it is.
pub que_remove_alone : (m : Links) (entry : ℕ) → IsRing m entry [] → que_remove entry m ≡ m
unfolding que_remove
que_remove_alone m e r = rw (r.links.0, ==_self) refl

next_ne : (m : Links) (b x : ℕ) (xs : List ℕ) → NotIn x xs → x ≢ b → Chain m x xs b → m.next x ≢ x
next_ne m b x [] h k c = λ p. k (sym p ∙ c.0)
next_ne m b x (y ∷ xs) h k c = λ p. h.0 (sym p ∙ c.0)

next_remove_eq :
    (m : Links) (que x : ℕ) (xs : List ℕ)
    → IsRing m que (x ∷ xs)
    → que_remove_next que m ≡ (some x, que_remove x m)
unfolding que_remove_next que_remove
next_remove_eq m que x xs r =
    ground (arith, next_ne m que x xs r.distinct.0 (λ p. r.fresh.0 (sym p)) r.links.2)

-- On a ring with entries the first is taken out and returned; on the empty ring the result is
-- NULL and nothing changes.
pub que_remove_next-IsRing :
    (m : Links) (que : ℕ) (xs : List ℕ)
    → IsRing m que xs
    → let (entry, m') = que_remove_next que m in (entry ≡ head? xs) × IsRing m' que (tail xs)
unfolding que_remove_next
que_remove_next-IsRing m que [] r = rw (r.links.0, ==_self) (refl, r)
que_remove_next-IsRing m que (x ∷ xs) r =
    rw (next_remove_eq m que x xs r) (refl, que_remove-entry m que [] x xs r)
