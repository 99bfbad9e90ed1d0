-- ===== src/Queue/Tests.antt =====
-- Rings of three and of two entries, to run the queue operations on.
use open_t_kernel.Base.{ℕ, ◌≡◌, refl, arith, List, [], ◌∷◌, some, ◌==◌, if◌then◌else◌}
use open_t_kernel.Queue.{Links, que_insert, que_remove, que_remove_next, que_search}
use open_t_kernel.Queue.Ring.{IsRing}
use open_t_kernel.Queue.Insert.{que_insert-before}
use open_t_kernel.Queue.Remove.{que_remove-entry, que_remove_next-IsRing}
use open_t_kernel.Queue.Search.{find_or, que_search-IsRing}

-- The ring 1 -> 2 -> 3 -> 1; every other address points to itself.
abbrev next_of : ℕ → ℕ
next_of n = if n == 1 then 2 else if n == 2 then 3 else if n == 3 then 1 else n

abbrev prev_of : ℕ → ℕ
prev_of n = if n == 1 then 3 else if n == 2 then 1 else if n == 3 then 2 else n

abbrev links : Links
links = record { next = next_of; prev = prev_of }

abbrev two_entries : List ℕ
two_entries = 2 ∷ 3 ∷ []

ring : IsRing links 1 (2 ∷ 3 ∷ [])
ring = record {
  links = (refl, refl, (refl, refl, (refl, refl)));
  fresh = ((λ p. ground arith), ((λ p. ground arith), tt));
  distinct = (((λ p. ground arith), tt), (tt, tt));
}

que_insert-before_example : IsRing (que_insert 4 3 links) 1 (2 ∷ 4 ∷ 3 ∷ [])
que_insert-before_example =
    que_insert-before links 1 4 (2 ∷ []) 3 [] ring
      ((λ p. ground arith), ((λ p. ground arith), ((λ p. ground arith), tt)))

que_remove-entry_example : IsRing (que_remove 2 links) 1 (3 ∷ [])
que_remove-entry_example = que_remove-entry links 1 [] 2 (3 ∷ []) ring

que_remove_next-IsRing_example :
    let (entry, m) = que_remove_next 1 links in (entry ≡ some 2) × IsRing m 1 (3 ∷ [])
que_remove_next-IsRing_example = que_remove_next-IsRing links 1 (2 ∷ 3 ∷ []) ring

que_search-IsRing_example :
    que_search 3 (λ x. x == 3) 1 1 links ≡ some (find_or (λ x. x == 3) (2 ∷ 3 ∷ []) 1)
que_search-IsRing_example =
    que_search-IsRing 3 (λ x. x == 3) links 1 (2 ∷ 3 ∷ []) ring (omega arith)
