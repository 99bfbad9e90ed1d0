-- ===== src/Queue.antt =====
-- include/sys/queue.h: the double-link queue (ring), over an explicit store of its two pointers.
-- An address is a number. `next` and `prev` hold the two fields of the QUEUE at each address.
pub mod Ring
pub mod Insert
pub mod Remove
pub mod Search
mod Tests
use open_t_kernel.Base.{
  ℕ, zero, suc, ◌≡◌, Bool, true, false, Option, none, some, not, ltb, ◌==◌, if◌then◌else◌, upd,
}

pub record Links : Type 0 where
  pub next : ℕ → ℕ
  pub prev : ℕ → ℕ

abbrev set_next : ℕ → ℕ → Links → Links
set_next p v m = record m { next = upd m.next p v }

abbrev set_prev : ℕ → ℕ → Links → Links
set_prev p v m = record m { prev = upd m.prev p v }

-- QueInit
unfoldable pub que_init : ℕ → Links → Links
que_init que m = set_prev que que (set_next que que m)

-- isQueEmpty
unfoldable pub is_que_empty : ℕ → Links → Bool
is_que_empty que m = m.next que == que

-- QueInsert: the four stores in the order of the source, each reading the store before it.
unfoldable pub que_insert : ℕ → ℕ → Links → Links
que_insert entry que m =
    let m1 = set_prev entry (m.prev que) m in
    let m2 = set_next entry que m1 in
    let m3 = set_next (m2.prev que) entry m2 in set_prev que entry m3

-- QueRemove
unfoldable pub que_remove : ℕ → Links → Links
que_remove entry m =
    if not (m.next entry == entry)
    then (let m1 = set_next (m.prev entry) (m.next entry) m in
        set_prev (m1.next entry) (m1.prev entry) m1)
    else m

-- QueRemoveNext: `none` is NULL.
unfoldable pub que_remove_next : ℕ → Links → Option ℕ × Links
que_remove_next que m =
    if m.next que == que
    then (none, m)
    else (let entry = m.next que in
        let m1 = set_next que (m.next entry) m in (some entry, set_prev (m1.next entry) que m1))

-- The search loops, from `que` on; `cond` is the comparison with `val`. `none`: out of fuel.
unfoldable pub que_search_from : ℕ → (ℕ → Bool) → ℕ → ℕ → Links → Option ℕ
que_search_from zero cond que end m = none
que_search_from (suc fuel) cond que end m =
    let rest = que_search_from fuel cond (m.next que) end m in
    if que == end then some que else if cond que then some que else rest

-- QueSearch: from `start->next` up to `end`.
unfoldable pub que_search : ℕ → (ℕ → Bool) → ℕ → ℕ → Links → Option ℕ
unfolding que_search_from
que_search fuel cond start end m = que_search_from fuel cond (m.next start) end m
