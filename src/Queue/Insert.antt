-- ===== src/Queue/Insert.antt =====
-- QueInit and QueInsert of queue.h on rings.
use mathlib.Core.List.{append-nil}
use open_t_kernel.Base.{
  ℕ, ◌≡◌, ◌≢◌, sym, subst, List, [], ◌∷◌, ◌++◌, arith, NotIn, Distinct, NotIn-split, NotIn-append,
  Distinct-insert, Distinct-delete, Distinct-left,
}
use open_t_kernel.Queue.{Links, que_init, que_insert}
use open_t_kernel.Queue.Ring.{
  Chain, IsRing, last, prev-Chain, Chain-append, Chain-split, keep_Chain, retarget, insert_fields,
}

-- An initialised header is an empty ring, whatever it held before.
pub que_init-IsRing : (que : ℕ) (m : Links) → IsRing (que_init que m) que []
unfolding que_init
que_init-IsRing que m = record { links = (ground arith, ground arith); fresh = tt; distinct = tt }

pub last-mem : (e a : ℕ) (xs : List ℕ) → NotIn e (a ∷ xs) → e ≢ last a xs
last-mem e a [] h = h.0
last-mem e a (x ∷ xs) h = last-mem e x xs h.1

pub last-NotIn : (a : ℕ) (xs ys : List ℕ) → NotIn a ys → Distinct (xs ++ ys) → NotIn (last a xs) ys
last-NotIn a [] ys h d = h
last-NotIn a (x ∷ xs) ys h d = last-NotIn x xs ys (NotIn-split x xs ys d.0).1 d.1

-- Inserting a new entry before the header puts it at the end of the ring.
pub que_insert-last :
    (m : Links) (que entry : ℕ) (xs : List ℕ)
    → IsRing m que xs
    → NotIn entry (que ∷ xs)
    → IsRing (que_insert entry que m) que (xs ++ entry ∷ [])
que_insert-last m que e xs r h = record {
  links = Chain-append m' que xs e [] que front (f.4, f.5);
  fresh = NotIn-append que xs (e ∷ []) r.fresh (λ p. h.0 (sym p), tt);
  distinct = Distinct-insert e xs [] (rw append-nil r.distinct) (rw append-nil h.1);
}
  where
    m' : Links
    m' = que_insert e que m

    back : m.prev que ≡ last que xs
    back = prev-Chain m que xs que r.links

    f :
        ((z : ℕ) → z ≢ m.prev que → z ≢ e → m'.next z ≡ m.next z)
        × ((z : ℕ) → z ≢ que → z ≢ e → m'.prev z ≡ m.prev z)
        × (m'.next (m.prev que) ≡ e)
        × (m'.prev e ≡ m.prev que)
        × (m'.next e ≡ que)
        × (m'.prev que ≡ e)
    f = insert_fields e que m h.0 (rw back (last-mem e que xs h))

    front : Chain m' que xs e
    front =
        retarget m m' (m.prev que) e que f.0 f.1 e que xs que r.links back f.2 f.3 h r.fresh
          (r.fresh, r.distinct)

-- Inserting a new entry before an entry of the ring puts it directly in front of that one.
pub que_insert-before :
    (m : Links) (que entry : ℕ) (xs : List ℕ) (y : ℕ) (ys : List ℕ)
    → IsRing m que (xs ++ y ∷ ys)
    → NotIn entry (que ∷ xs ++ y ∷ ys)
    → IsRing (que_insert entry y m) que (xs ++ entry ∷ y ∷ ys)
que_insert-before m que e xs y ys r h = record {
  links = Chain-append m' que xs e (y ∷ ys) que front (f.4, f.5, rest);
  fresh = NotIn-append que xs (e ∷ y ∷ ys) fq.0 (λ p. h.0 (sym p), fq.1);
  distinct = Distinct-insert e xs (y ∷ ys) r.distinct h.1;
}
  where
    m' : Links
    m' = que_insert e y m

    c : Chain m que xs y × Chain m y ys que
    c = Chain-split m que xs y ys que r.links

    back : m.prev y ≡ last que xs
    back = prev-Chain m que xs y c.0

    fq : NotIn que xs × NotIn que (y ∷ ys)
    fq = NotIn-split que xs (y ∷ ys) r.fresh

    fe : NotIn e xs × NotIn e (y ∷ ys)
    fe = NotIn-split e xs (y ∷ ys) h.1

    dy : Distinct (xs ++ ys) × NotIn y (xs ++ ys)
    dy = Distinct-delete y xs ys r.distinct

    ny : NotIn y xs × NotIn y ys
    ny = NotIn-split y xs ys dy.1

    f :
        ((z : ℕ) → z ≢ m.prev y → z ≢ e → m'.next z ≡ m.next z)
        × ((z : ℕ) → z ≢ y → z ≢ e → m'.prev z ≡ m.prev z)
        × (m'.next (m.prev y) ≡ e)
        × (m'.prev e ≡ m.prev y)
        × (m'.next e ≡ y)
        × (m'.prev y ≡ e)
    f = insert_fields e y m fe.1.0 (rw back (last-mem e que xs (h.0, fe.0)))

    front : Chain m' que xs e
    front =
        retarget m m' (m.prev y) e y f.0 f.1 e que xs y c.0 back f.2 f.3 (h.0, fe.0) ny.0
          (fq.0, Distinct-left xs (y ∷ ys) r.distinct)

    apart : NotIn (last que xs) (y ∷ ys)
    apart = last-NotIn que xs (y ∷ ys) fq.1 r.distinct

    rest : Chain m' y ys que
    rest =
        keep_Chain m m' (m.prev y) e y f.0 f.1 y ys que c.1
          (subst (λ p. NotIn p (y ∷ ys)) (sym back) apart) fe.1 ny.1 (λ p. fq.1.0 (sym p)) h.0
