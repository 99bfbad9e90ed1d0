-- ===== src/StringLib/Copy.antt =====
-- lib/libstr/src/string.c: memcpy and memmove move the bytes of an area.
use open_t_kernel.Base.{
  ℕ, zero, suc, ◌≡◌, ◌<◌, ◌≤◌, ◌⊎◌, inl, inr, sym, ap, ◌∙◌, arith, subst, ◌+◌, ◌-◌, ◌*◌, ◌/◌, ◌%◌,
  true, leb, ltb, ◌||◌, not, if◌then◌else◌, ◌==◌, Bool-cases, if_rule, some, leb→le,
}
use open_t_kernel.Bits.{Bytes}
use open_t_kernel.StringLib.{move, masz, rounds, copy_bytes, copy_words, copy_rest, tkl_memcpy}
use open_t_kernel.StringLib.Areas.{Upward, move_none, join_up}

-- The rest of a way upwards.
later : (d s a b : ℕ) → Upward d s (a + b) → Upward (d + a) (s + a) b
later d s a b (inl h) = inl (omega arith)
later d s a b (inr h) = inr (omega arith)

shorter : (d s a b : ℕ) → Upward d s (a + b) → Upward d s a
shorter d s a b (inl h) = inl h
shorter d s a b (inr h) = inr (omega arith)

pub copy_bytes_lem :
    (k d s : ℕ) (mem : Bytes) → Upward d s k → copy_bytes k d s mem ≡ move d s k mem
unfolding copy_bytes
copy_bytes_lem zero d s mem u = sym (move_none d s mem)
copy_bytes_lem (suc k) d s mem u =
    let e : suc k ≡ 1 + k = omega arith in
    let u' = subst (Upward d s) e u in
    copy_bytes_lem k (d + 1) (s + 1) (move d s 1 mem) (later d s 1 k u')
    ∙ (join_up d s 1 k mem u' ∙ ap (λ n. move d s n mem) (sym e))

pub copy_words_lem :
    (k d s : ℕ) (mem : Bytes)
    → d % 4 ≡ 0
    → s % 4 ≡ 0
    → Upward d s (4 * k)
    → copy_words k d s mem ≡ some (move d s (4 * k) mem)
unfolding copy_words
copy_words_lem zero d s mem a b u = ap some (sym (move_none d s mem))
copy_words_lem (suc k) d s mem a b u =
    let e : 4 * suc k ≡ 4 + 4 * k = omega arith in
    let u' = subst (Upward d s) e u in
    rw (a, b)
      (copy_words_lem k (d + 4) (s + 4) (move d s 4 mem) (omega arith) (omega arith)
          (later d s 4 (4 * k) u')
        ∙ ap some (join_up d s 4 (4 * k) mem u' ∙ ap (λ n. move d s n mem) (sym e)))

-- A loop of at least one round.
pub rounds_lem : (cnt : ℕ) → 0 < cnt → rounds cnt ≡ cnt
rounds_lem cnt h = ground arith

copy_rest_lem :
    (d s n : ℕ) (mem : Bytes)
    → ((4 ≤ n) → (d % 4 ≡ 0) × (s % 4 ≡ 0))
    → Upward d s n
    → copy_rest d s n mem ≡ some (move d s n mem)
unfolding copy_rest
copy_rest_lem d s n mem a u = elim (Bool-cases (leb masz n)) [
  | inr e ↦ rw e (ap some (copy_bytes_lem n d s mem u))
  | inl e ↦
      let h : 4 ≤ n = leb→le 4 n e in
      let p : n ≡ 4 * (n / 4) + n % 4 = omega arith in
      let u' = subst (Upward d s) p u in
      rw
        (
          e,
          rounds_lem (n / 4) (omega arith),
          copy_words_lem (n / 4) d s mem (a h).0 (a h).1 (shorter d s (4 * (n / 4)) (n % 4) u'),
        )
        (ap some (
          copy_bytes_lem (n % 4) (d + 4 * (n / 4)) (s + 4 * (n / 4)) (move d s (4 * (n / 4)) mem)
            (later d s (4 * (n / 4)) (n % 4) u')
          ∙ (join_up d s (4 * (n / 4)) (n % 4) mem u' ∙ ap (λ x. move d s x mem) (sym p))))
]

-- What tkl_memcpy leaves to the words begins at a multiple of 4, or is too short for a word.
module _ (d s n : ℕ) (some_bytes : (0 < n) ⊎ ((d % 4 ≡ 0) × (s % 4 ≡ 0))) where
  abbrev cnt : ℕ
  cnt = if not (s % masz == d % masz) || ltb n (masz * 2) then n else masz - s % masz

  head_some : ((not (s % masz == 0)) || not (d % masz == 0)) ≡ true → (0 < cnt) × (cnt ≤ n)
  head_some e = (ground arith, ground arith)

  head_aligned :
      ((not (s % masz == 0)) || not (d % masz == 0)) ≡ true
      → 4 ≤ n - cnt
      → ((d + cnt) % 4 ≡ 0) × ((s + cnt) % 4 ≡ 0)
  head_aligned e h = (ground arith, ground arith)

-- memcpy of an area of at least one byte, or between addresses that are multiples of 4, ends without
-- a fault and moves every byte, and nothing else, also where the areas overlap and the target begins
-- before the source.
pub tkl_memcpy_lem :
    (d s n : ℕ) (mem : Bytes)
    → (0 < n) ⊎ ((d % 4 ≡ 0) × (s % 4 ≡ 0))
    → Upward d s n
    → tkl_memcpy d s n mem ≡ some (move d s n mem)
unfolding tkl_memcpy
tkl_memcpy_lem d s n mem p u =
    if_rule (λ r. r ≡ some (move d s n mem)) (not (s % masz == 0) || not (d % masz == 0)) _ _
      (λ e.
        let c = cnt d s n p in
        let (b, l) = head_some d s n p e in
        let w : n ≡ c + (n - c) = omega arith in
        let u' = subst (Upward d s) w u in
        rw (rounds_lem c b, copy_bytes_lem c d s mem (shorter d s c (n - c) u'))
          (copy_rest_lem (d + c) (s + c) (n - c) (move d s c mem) (head_aligned d s n p e)
              (later d s c (n - c) u')
            ∙ ap some (join_up d s c (n - c) mem u' ∙ ap (λ x. move d s x mem) (sym w))))
      (λ e. copy_rest_lem d s n mem (λ h. (ground arith, ground arith)) u)
