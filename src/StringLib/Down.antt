-- ===== src/StringLib/Down.antt =====
-- lib/libstr/src/string.c: the half of memmove that goes from the last byte to the first.
use open_t_kernel.Base.{
  ℕ, zero, suc, ◌≡◌, ◌<◌, ◌≤◌, ◌⊎◌, inl, inr, sym, ap, ap₂, ◌∙◌, arith, ◌+◌, ◌-◌, ◌*◌, ◌/◌, ◌%◌,
  true, leb, ltb, ◌||◌, not, if◌then◌else◌, ◌==◌, Bool-cases, if_rule, some, leb→le, ltb→lt,
}
use open_t_kernel.Bits.{Bytes}
use open_t_kernel.StringLib.{
  move, masz, copy_bytes_down, copy_words_down, copy_rest_down, memmove_down, tkl_memmove,
}
use open_t_kernel.StringLib.Areas.{move_none, join_down}
use open_t_kernel.StringLib.Copy.{rounds_lem, tkl_memcpy_lem}

-- The same bytes, named from their end in two ways.
same_end :
    (d s a b : ℕ) (mem : Bytes) → a ≡ b → move (d - a) (s - a) a mem ≡ move (d - b) (s - b) b mem
same_end d s a b mem e = ap (λ x. move (d - x) (s - x) x mem) e

copy_bytes_down_lem :
    (k d s : ℕ) (mem : Bytes)
    → s ≤ d
    → k ≤ s
    → copy_bytes_down k d s mem ≡ move (d - k) (s - k) k mem
unfolding copy_bytes_down
copy_bytes_down_lem zero d s mem u v = sym (move_none (d - 0) (s - 0) mem)
copy_bytes_down_lem (suc k) d s mem u v =
    let e : 1 + k ≡ suc k = omega arith in
    copy_bytes_down_lem k (d - 1) (s - 1) (move (d - 1) (s - 1) 1 mem) (omega arith) (omega arith)
    ∙ (join_down d s 1 k mem u (omega arith) ∙ same_end d s (1 + k) (suc k) mem e)

copy_words_down_lem :
    (k d s : ℕ) (mem : Bytes)
    → d % 4 ≡ 0
    → s % 4 ≡ 0
    → s ≤ d
    → 4 * k ≤ s
    → copy_words_down k d s mem ≡ some (move (d - 4 * k) (s - 4 * k) (4 * k) mem)
unfolding copy_words_down
copy_words_down_lem zero d s mem a b u v = ap some (sym (move_none (d - 0) (s - 0) mem))
copy_words_down_lem (suc k) d s mem a b u v =
    let e : 4 + 4 * k ≡ 4 * suc k = omega arith in
    let a' : (d - 4) % 4 ≡ 0 = omega arith in
    let b' : (s - 4) % 4 ≡ 0 = omega arith in
    rw (a', b')
      (copy_words_down_lem k (d - 4) (s - 4) (move (d - 4) (s - 4) 4 mem) a' b' (omega arith)
          (omega arith)
        ∙ ap some (
            join_down d s 4 (4 * k) mem u (omega arith)
            ∙ same_end d s (4 + 4 * k) (4 * suc k) mem e))

copy_rest_down_lem :
    (d s n : ℕ) (mem : Bytes)
    → ((4 ≤ n) → (d % 4 ≡ 0) × (s % 4 ≡ 0))
    → s ≤ d
    → n ≤ s
    → copy_rest_down d s n mem ≡ some (move (d - n) (s - n) n mem)
unfolding copy_rest_down
copy_rest_down_lem d s n mem a u v = elim (Bool-cases (leb masz n)) [
  | inr e ↦ rw e (ap some (copy_bytes_down_lem n d s mem u v))
  | inl e ↦
      let h : 4 ≤ n = leb→le 4 n e in
      let p : 4 * (n / 4) + n % 4 ≡ n = omega arith in
      rw
        (
          e,
          rounds_lem (n / 4) (omega arith),
          copy_words_down_lem (n / 4) d s mem (a h).0 (a h).1 u (omega arith),
        )
        (ap some (
          copy_bytes_down_lem (n % 4) (d - 4 * (n / 4)) (s - 4 * (n / 4))
            (move (d - 4 * (n / 4)) (s - 4 * (n / 4)) (4 * (n / 4)) mem) (omega arith) (omega arith)
          ∙ (join_down d s (4 * (n / 4)) (n % 4) mem u (omega arith)
              ∙ same_end d s (4 * (n / 4) + n % 4) n mem p)))
]

-- As for tkl_memcpy, from the ends of the areas.
module _ (d s n : ℕ) (some_bytes : (0 < n) ⊎ ((d % 4 ≡ 0) × (s % 4 ≡ 0))) where
  abbrev tail_cnt : ℕ
  tail_cnt = if not (s % masz == d % masz) || ltb n (masz * 2) then n else s % masz

  tail_some :
      ((not (s % masz == 0)) || not (d % masz == 0)) ≡ true → (0 < tail_cnt) × (tail_cnt ≤ n)
  tail_some e = (ground arith, ground arith)

  tail_aligned :
      ((not (s % masz == 0)) || not (d % masz == 0)) ≡ true
      → 4 ≤ n - tail_cnt
      → s ≤ d
      → n ≤ s
      → ((d - tail_cnt) % 4 ≡ 0) × ((s - tail_cnt) % 4 ≡ 0)
  tail_aligned e h u v = (ground arith, ground arith)

memmove_down_lem :
    (d s n : ℕ) (mem : Bytes)
    → (0 < n) ⊎ ((d % 4 ≡ 0) × (s % 4 ≡ 0))
    → s ≤ d
    → n ≤ s
    → memmove_down d s n mem ≡ some (move (d - n) (s - n) n mem)
unfolding memmove_down
memmove_down_lem d s n mem p u v =
    if_rule (λ r. r ≡ some (move (d - n) (s - n) n mem))
      (not (s % masz == 0) || not (d % masz == 0)) _ _
      (λ e.
        let c = tail_cnt d s n p in
        let (b, l) = tail_some d s n p e in
        let w : c + (n - c) ≡ n = omega arith in
        rw (rounds_lem c b, copy_bytes_down_lem c d s mem u (omega arith))
          (copy_rest_down_lem (d - c) (s - c) (n - c) (move (d - c) (s - c) c mem)
              (λ h. tail_aligned d s n p e h u v) (omega arith) (omega arith)
            ∙ ap some
                (join_down d s c (n - c) mem u (omega arith) ∙ same_end d s (c + (n - c)) n mem w)))
      (λ e. copy_rest_down_lem d s n mem (λ h. (ground arith, ground arith)) u v)

-- memmove of an area of at least one byte, or between addresses that are multiples of 4, ends without
-- a fault and moves every byte as it was before, and nothing else, however the areas overlap.
pub tkl_memmove_lem :
    (d s n : ℕ) (mem : Bytes)
    → (0 < n) ⊎ ((d % 4 ≡ 0) × (s % 4 ≡ 0))
    → tkl_memmove d s n mem ≡ some (move d s n mem)
unfolding tkl_memmove
tkl_memmove_lem d s n mem p =
    if_rule (λ r. r ≡ some (move d s n mem)) (ltb d s) _ _
      (λ e. tkl_memcpy_lem d s n mem p (inl (let h = ltb→lt d s e in omega arith)))
      (λ e.
        let h : s ≤ d = ground arith in
        let x : d + n - n ≡ d = omega arith in
        let y : s + n - n ≡ s = omega arith in
        memmove_down_lem (d + n) (s + n) n mem (ends p) (omega arith) (omega arith)
        ∙ ap₂ (λ a b. some (move a b n mem)) x y)
  where
    ends : (0 < n) ⊎ ((d % 4 ≡ 0) × (s % 4 ≡ 0)) → (0 < n) ⊎ (((d + n) % 4 ≡ 0) × ((s + n) % 4 ≡ 0))
    ends p = ground arith
