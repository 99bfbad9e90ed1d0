-- ===== src/StringLib/Areas.antt =====
-- lib/libstr/src/string.c: moves of bytes that follow one another.
use open_t_kernel.Base.{
  ℕ, ◌≡◌, ◌<◌, ◌≤◌, ◌⊎◌, inl, inr, sym, ap, ◌∙◌, arith, fun_ext, ◌+◌, ◌-◌, dec_lt,
}
use open_t_kernel.Bits.{Bytes}
use open_t_kernel.StringLib.{move}

-- Bytes can be moved from the first one on: the target does not begin inside of the source.
abbrev pub Upward : ℕ → ℕ → ℕ → Type 0
Upward d s n = (d ≤ s) ⊎ (s + n ≤ d)

pub move_in :
    (d s w : ℕ) (mem : Bytes) (x : ℕ) → d ≤ x → x < d + w → move d s w mem x ≡ mem (s + (x - d))
unfolding move
move_in d s w mem x h k = ground arith

pub move_out : (d s w : ℕ) (mem : Bytes) (x : ℕ) → (x < d) ⊎ (d + w ≤ x) → move d s w mem x ≡ mem x
unfolding move
move_out d s w mem x h = ground arith

pub move_none : (d s : ℕ) (mem : Bytes) → move d s 0 mem ≡ mem
move_none d s mem = fun_ext (λ x. move_out d s 0 mem x (ground arith))

-- A move to `d1` and then one to `d2`, side by side, where the second reads nothing that the first
-- has written.
join :
    (d1 s1 a d2 s2 b d s n : ℕ) (mem : Bytes)
    → ((x : ℕ)
        → d2 ≤ x
        → x < d2 + b
        → (d ≤ x)
          × (x < d + n)
          × (s2 + (x - d2) ≡ s + (x - d))
          × ((s2 + (x - d2) < d1) ⊎ (d1 + a ≤ s2 + (x - d2))))
    → ((x : ℕ)
        → (x < d2) ⊎ (d2 + b ≤ x)
        → d1 ≤ x
        → x < d1 + a
        → (d ≤ x) × (x < d + n) × (s1 + (x - d1) ≡ s + (x - d)))
    → ((x : ℕ) → (x < d2) ⊎ (d2 + b ≤ x) → (x < d1) ⊎ (d1 + a ≤ x) → (x < d) ⊎ (d + n ≤ x))
    → move d2 s2 b (move d1 s1 a mem) ≡ move d s n mem
join d1 s1 a d2 s2 b d s n mem f g h = fun_ext (λ x. elim (inside d2 b x) [
  | inl i ↦
      let (p, q, r, o) = f x i.0 i.1 in
      move_in d2 s2 b _ x i.0 i.1
      ∙ (move_out d1 s1 a mem _ o ∙ (ap mem r ∙ sym (move_in d s n mem x p q)))
  | inr i ↦ elim (inside d1 a x) [
    | inl j ↦
        let (p, q, r) = g x i j.0 j.1 in
        move_out d2 s2 b _ x i
        ∙ (move_in d1 s1 a mem x j.0 j.1 ∙ (ap mem r ∙ sym (move_in d s n mem x p q)))
    | inr j ↦
        move_out d2 s2 b _ x i ∙ (move_out d1 s1 a mem x j ∙ sym (move_out d s n mem x (h x i j)))
  ]
])
  where
    inside : (d w x : ℕ) → ((d ≤ x) × (x < d + w)) ⊎ ((x < d) ⊎ (d + w ≤ x))
    inside d w x = elim (dec_lt x d) [
      | yes h ↦ inr (inl h)
      | no h ↦ elim (dec_lt x (d + w)) [
        | yes k ↦ inl (omega arith, k)
        | no k ↦ inr (inr (omega arith))
      ]
    ]

pub join_up :
    (d s a b : ℕ) (mem : Bytes)
    → Upward d s (a + b)
    → move (d + a) (s + a) b (move d s a mem) ≡ move d s (a + b) mem
join_up d s a b mem u =
    join d s a (d + a) (s + a) b d s (a + b) mem
      (λ x h k. (omega arith, omega arith, omega arith, ground arith))
      (λ x h k l. (omega arith, omega arith, omega arith)) (λ x h k. ground arith)

-- Towards lower addresses; `d` and `s` are the ends of the areas.
pub join_down :
    (d s a b : ℕ) (mem : Bytes)
    → s ≤ d
    → a + b ≤ s
    → move (d - a - b) (s - a - b) b (move (d - a) (s - a) a mem)
      ≡ move (d - (a + b)) (s - (a + b)) (a + b) mem
join_down d s a b mem u v =
    join (d - a) (s - a) a (d - a - b) (s - a - b) b (d - (a + b)) (s - (a + b)) (a + b) mem
      (λ x h k. (omega arith, omega arith, omega arith, inl (omega arith)))
      (λ x h k l. (omega arith, omega arith, omega arith)) (λ x h k. ground arith)
