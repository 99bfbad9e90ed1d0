-- ===== src/Printf/Tests.antt =====
-- Formats and their results, as lists of characters.
use open_t_kernel.Base.{ℕ, suc, ◌≡◌, ◌≤◌, ◌+◌, refl, arith, some, List, [], ◌∷◌, length}
use open_t_kernel.StringText.{read_digits}
use open_t_kernel.Printf.{Outcome, done, undefined, word, text, next_word, next_text, outint}
use open_t_kernel.Printf.Format.{vsprintf}
use open_t_kernel.Printf.Reads.{Suits, vsprintf_ends}
use open_t_kernel.Printf.Digits.{written, read_digits-outint}

-- "%d" of -5 is "-5".
minus_five : vsprintf 9 (37 ∷ 100 ∷ []) (word 4294967291 ∷ []) ≡ some (done (45 ∷ 53 ∷ []))
unfolding vsprintf next_word next_text
minus_five = refl

-- "a%04Xb%%" of 0x2F is "a002Fb%".
padded_hex :
    vsprintf 9 (97 ∷ 37 ∷ 48 ∷ 52 ∷ 88 ∷ 98 ∷ 37 ∷ 37 ∷ []) (word 0x2f ∷ [])
    ≡ some (done (97 ∷ 48 ∷ 48 ∷ 50 ∷ 70 ∷ 98 ∷ 37 ∷ []))
unfolding vsprintf next_word next_text
padded_hex = refl

-- "%-*d|%+.3d" of 4, 7 and 8 is "7   |+008".
starred :
    vsprintf 12
      (37 ∷ 45 ∷ 42 ∷ 100 ∷ 124 ∷ 37 ∷ 43 ∷ 46 ∷ 51 ∷ 100 ∷ [])
      (word 4 ∷ word 7 ∷ word 8 ∷ [])
    ≡ some (done (55 ∷ 32 ∷ 32 ∷ 32 ∷ 124 ∷ 43 ∷ 48 ∷ 48 ∷ 56 ∷ []))
unfolding vsprintf next_word next_text
starred = refl

-- "%.2s" of "abc" is "ab".
cut_short :
    vsprintf 9 (37 ∷ 46 ∷ 50 ∷ 115 ∷ []) (text (97 ∷ 98 ∷ 99 ∷ []) ∷ [])
    ≡ some (done (97 ∷ 98 ∷ []))
unfolding vsprintf next_word next_text
cut_short = refl

-- "%.5s" of "a" is "00a": the precision that is left over is filled up with zeros.
zeros_before_text :
    vsprintf 9 (37 ∷ 46 ∷ 53 ∷ 115 ∷ []) (text (97 ∷ []) ∷ []) ≡ some (done (48 ∷ 48 ∷ 97 ∷ []))
unfolding vsprintf next_word next_text
zeros_before_text = refl

-- "%d%d" of 1 reads an argument that is missing.
one_missing : vsprintf 9 (37 ∷ 100 ∷ 37 ∷ 100 ∷ []) (word 1 ∷ []) ≡ some undefined
unfolding vsprintf next_word next_text
one_missing = refl

read_digits-outint_example :
    (ds : List ℕ) × (outint 48879 0x50 ≡ some ds)
    × (length ds ≤ 11)
    × (read_digits (suc (length ds)) 16 0 100 (written 100 ds (λ i. 7))
        ≡ some (48879, 100 + length ds))
read_digits-outint_example =
    read_digits-outint 0x50 48879 100 (λ i. 7) (omega arith) (omega arith) (omega arith)
      (omega arith)

vsprintf_ends_example :
    (out : Outcome (List ℕ)) × (vsprintf 3 (37 ∷ 35 ∷ []) (word 8 ∷ []) ≡ some out)
    × (¬ (Suits (37 ∷ 35 ∷ []) (word 8 ∷ []) × (out ≡ undefined)))
vsprintf_ends_example = vsprintf_ends 3 (37 ∷ 35 ∷ []) (word 8 ∷ []) (omega arith)
