-- ===== src/StringLib/Fill.antt =====
-- lib/libstr/src/string.c: memset fills an area.
use open_t_kernel.Base.{
  ℕ, zero, suc, ◌≡◌, ◌<◌, ◌≤◌, ◌⊎◌, inl, inr, refl, sym, ap, ◌∙◌, arith, fun_ext, ◌+◌, ◌-◌, ◌*◌,
  ◌/◌, ◌%◌, true, leb, ltb, ◌&&◌, if◌then◌else◌, ◌==◌, Bool-cases, if_rule, some, leb→le, every,
  every_lem, upd, ==_iff,
}
use open_t_kernel.Bits.{Bytes}
use open_t_kernel.StringLib.{
  masz, fill_bytes, store_word, fill_words, spread, fill_rest, tkl_memset,
}
use open_t_kernel.StringLib.Copy.{rounds_lem}

-- An area with one byte throughout.
unfoldable pub filled : ℕ → ℕ → ℕ → Bytes → Bytes
filled s n v mem x = if leb s x && ltb x (s + n) then v else mem x

filled_none : (s v : ℕ) (mem : Bytes) → filled s 0 v mem ≡ mem
unfolding filled
filled_none s v mem = fun_ext (λ x. ground arith)

filled_one : (cp v : ℕ) (mem : Bytes) → upd mem cp v ≡ filled cp 1 v mem
unfolding filled
filled_one cp v mem = fun_ext (λ x. ground arith)

join_filled :
    (s a b v : ℕ) (mem : Bytes) → filled (s + a) b v (filled s a v mem) ≡ filled s (a + b) v mem
unfolding filled
join_filled s a b v mem = fun_ext (λ x. ground arith)

fill_bytes_lem :
    (k cp val : ℕ) (mem : Bytes) → fill_bytes k cp val mem ≡ filled cp k (val % 256) mem
unfolding fill_bytes
fill_bytes_lem zero cp val mem = sym (filled_none cp (val % 256) mem)
fill_bytes_lem (suc k) cp val mem =
    let e : 1 + k ≡ suc k = omega arith in
    fill_bytes_lem k (cp + 1) val (upd mem cp (val % 256))
    ∙ (ap (filled (cp + 1) k (val % 256)) (filled_one cp (val % 256) mem)
        ∙ (join_filled cp 1 k (val % 256) mem ∙ ap (λ n. filled cp n (val % 256) mem) e))

-- The word that has a byte four times.
spread_table : every 256 (λ v. spread v == v * 16843009) ≡ true
unfolding spread
spread_table = refl

spread_lem : (v : ℕ) → v < 256 → spread v ≡ v * 16843009
spread_lem v l = (==_iff _ _).0 (every_lem 256 (λ v. spread v == v * 16843009) v spread_table l)

store_word_lem :
    (lp v : ℕ) (mem : Bytes) → v < 256 → store_word lp (v * 16843009) mem ≡ filled lp 4 v mem
unfolding store_word filled
store_word_lem lp v mem l =
    let b0 : (v * 16843009) % 256 ≡ v = omega arith in
    let b1 : (v * 16843009) / 256 % 256 ≡ v = omega arith in
    let b2 : (v * 16843009) / 65536 % 256 ≡ v = omega arith in
    let b3 : (v * 16843009) / 16777216 % 256 ≡ v = omega arith in
    fun_ext (λ x. rw (b0, b1, b2, b3) (ground arith))

fill_words_lem :
    (k lp v : ℕ) (mem : Bytes)
    → v < 256
    → lp % 4 ≡ 0
    → fill_words k lp (v * 16843009) mem ≡ some (filled lp (4 * k) v mem)
unfolding fill_words
fill_words_lem zero lp v mem l a = ap some (sym (filled_none lp v mem))
fill_words_lem (suc k) lp v mem l a =
    let e : 4 + 4 * k ≡ 4 * suc k = omega arith in
    rw a (
      fill_words_lem k (lp + 4) v (store_word lp (v * 16843009) mem) l (omega arith)
      ∙ ap some (
          ap (filled (lp + 4) (4 * k) v) (store_word_lem lp v mem l)
          ∙ (join_filled lp 4 (4 * k) v mem ∙ ap (λ n. filled lp n v mem) e)))

low_byte : (v : ℕ) → v < 256 → v * 16843009 % 256 ≡ v
low_byte v l = omega arith

fill_rest_lem :
    (cp v n : ℕ) (mem : Bytes)
    → v < 256
    → ((4 ≤ n) → cp % 4 ≡ 0)
    → fill_rest cp v n mem ≡ some (filled cp n v mem)
unfolding fill_rest
fill_rest_lem cp v n mem l a = elim (Bool-cases (leb masz n)) [
  | inr e ↦
      let w : v % 256 ≡ v = omega arith in
      rw e (ap some (fill_bytes_lem n cp v mem ∙ ap (λ x. filled cp n x mem) w))
  | inl e ↦
      let h : 4 ≤ n = leb→le 4 n e in
      let p : 4 * (n / 4) + n % 4 ≡ n = omega arith in
      rw
        (
          e,
          spread_lem v l,
          rounds_lem (n / 4) (omega arith),
          fill_words_lem (n / 4) cp v mem l (a h),
        )
        (ap some (
          fill_bytes_lem (n % 4) (cp + 4 * (n / 4)) (v * 16843009) (filled cp (4 * (n / 4)) v mem)
          ∙ (ap (λ x. filled (cp + 4 * (n / 4)) (n % 4) x (filled cp (4 * (n / 4)) v mem))
                (low_byte v l)
              ∙ (join_filled cp (4 * (n / 4)) (n % 4) v mem ∙ ap (λ x. filled cp x v mem) p))))
]

-- The bytes that tkl_memset writes before the words.
module _ (s n : ℕ) (some_bytes : (0 < n) ⊎ (s % 4 ≡ 0)) where
  abbrev cnt : ℕ
  cnt = if ltb n (masz * 2) then n else masz - s % masz

  head_some : ltb 0 (s % masz) ≡ true → (0 < cnt) × (cnt ≤ n)
  head_some e = (ground arith, ground arith)

  head_aligned : ltb 0 (s % masz) ≡ true → 4 ≤ n - cnt → (s + cnt) % 4 ≡ 0
  head_aligned e h = ground arith

-- memset of an area of at least one byte, or from a multiple of 4 on, ends without a fault and writes
-- the low byte of `c` to every byte of the area, and nothing else.
pub tkl_memset_lem :
    (s c n : ℕ) (mem : Bytes)
    → (0 < n) ⊎ (s % 4 ≡ 0)
    → tkl_memset s c n mem ≡ some (filled s n (c % 256) mem)
unfolding tkl_memset
tkl_memset_lem s c n mem p =
    let v = c % 256 in
    let l : c % 256 < 256 = omega arith in
    let z : c % 256 % 256 ≡ c % 256 = omega arith in
    if_rule (λ r. r ≡ some (filled s n (c % 256) mem)) (ltb 0 (s % masz)) _ _
      (λ e.
        let k = cnt s n p in
        let (b, j) = head_some s n p e in
        let w : k + (n - k) ≡ n = omega arith in
        rw (rounds_lem k b, fill_bytes_lem k s (c % 256) mem, z)
          (fill_rest_lem (s + k) (c % 256) (n - k) (filled s k (c % 256) mem) l
              (head_aligned s n p e)
            ∙ ap some
                (join_filled s k (n - k) (c % 256) mem ∙ ap (λ x. filled s x (c % 256) mem) w)))
      (λ e. fill_rest_lem s (c % 256) n mem l (λ h. ground arith))
