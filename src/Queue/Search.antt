-- ===== src/Queue/Search.antt =====
-- QueSearch and its variants (lib/libsys/src/quetemplate.h) on rings.
use open_t_kernel.Base.{
  ℕ, zero, suc, ◌<◌, ◌≡◌, List, [], ◌∷◌, some, Bool, arith, NotIn, if◌then◌else◌, length,
}
use open_t_kernel.Queue.{Links, que_search_from, que_search}
use open_t_kernel.Queue.Ring.{Chain, IsRing}

-- The first entry that passes, or else `end`.
pub find_or : (ℕ → Bool) → List ℕ → ℕ → ℕ
find_or cond [] end = end
find_or cond (x ∷ xs) end = if cond x then x else find_or cond xs end

search_entries :
    (fuel : ℕ) (cond : ℕ → Bool) (m : Links) (a que : ℕ) (xs : List ℕ)
    → length xs < fuel
    → NotIn que xs
    → Chain m a xs que
    → que_search_from fuel cond (m.next a) que m ≡ some (find_or cond xs que)
unfolding que_search_from find_or
search_entries zero cond m a que xs l f c = absurd (omega arith)
search_entries (suc n) cond m a que [] l f c = ground arith
search_entries (suc n) cond m a que (x ∷ xs) l f c =
    ground (arith, search_entries n cond m x que xs)

-- A round for each entry and one more are enough, and the search ends at the first entry of the
-- ring that passes the test, or at the header if none does.
pub que_search-IsRing :
    (fuel : ℕ) (cond : ℕ → Bool) (m : Links) (que : ℕ) (xs : List ℕ)
    → IsRing m que xs
    → length xs < fuel
    → que_search fuel cond que que m ≡ some (find_or cond xs que)
unfolding que_search
que_search-IsRing fuel cond m que xs r l = search_entries fuel cond m que que xs l r.fresh r.links
