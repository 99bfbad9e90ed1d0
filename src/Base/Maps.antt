-- ===== src/Base/Maps.antt =====
-- Tables indexed by numbers, as functions.
use Prim.Native.Nat.{ℕ}
use mathlib.Core.Path.{◌≡◌, refl, sym, ap, ◌∙◌, fun_ext}
use mathlib.Core.Logic.{◌≢◌, inl, inr}
use native.Mathlib.Omega.{arith}
use open_t_kernel.Base.Tests.{◌==◌, if◌then◌else◌, Bool-cases, ==_iff}

module _ {ℓ} {A : Type ℓ} where
  -- The table with one entry written.
  abbrev pub upd : (ℕ → A) → ℕ → A → ℕ → A
  upd f i v j = if j == i then v else f j

  pub upd_self : (f : ℕ → A) (i : ℕ) (v : A) → upd f i v i ≡ v
  upd_self f i v = ground arith

  pub upd_ne : (f : ℕ → A) (i : ℕ) (v : A) (j : ℕ) → j ≢ i → upd f i v j ≡ f j
  upd_ne f i v j h = ground arith

  pub upd_thrice : (f : ℕ → A) (i : ℕ) (a b c : A) → upd (upd (upd f i a) i b) i c ≡ upd f i c
  upd_thrice f i a b c =
      fun_ext λ j. elim (Bool-cases (j == i)) [ inl e ↦ rw e refl | inr e ↦ rw e refl ]

  pub upd_twice : (f : ℕ → A) (i : ℕ) (a b : A) → upd (upd f i a) i b ≡ upd f i b
  upd_twice f i a b =
      fun_ext λ j. elim (Bool-cases (j == i)) [ inl e ↦ rw e refl | inr e ↦ rw e refl ]

  -- An entry written as it was.
  pub upd_back : (f : ℕ → A) (i : ℕ) (v : A) → v ≡ f i → upd f i v ≡ f
  upd_back f i v p = fun_ext λ j. elim (Bool-cases (j == i)) [
    | inl e ↦ rw e (p ∙ ap f (sym ((==_iff j i).0 e)))
    | inr e ↦ rw e refl
  ]
