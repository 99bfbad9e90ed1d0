-- ===== src/MsgRing/Copy.antt =====
-- kernel/tkernel/src/messagebuf.c: MEMCPY and the message header on a store of bytes.
use native.Mathlib.Nat.{add-zero}
use open_t_kernel.Base.{subst, ℕ, ◌≡◌, ◌<◌, ◌≤◌, ◌⊎◌, arith, ◌+◌, ◌-◌, ◌*◌, ◌/◌, ◌%◌, ◌^◌}
use open_t_kernel.Bits.{Bytes}
use open_t_kernel.MsgRing.{copy, get_header, put_header}

module _ (dst : Bytes) (at : ℕ) (src : Bytes) (from n : ℕ) where
  pub copy_in : (i : ℕ) → i < n → copy dst at src from n (at + i) ≡ src (from + i)
  unfolding copy
  copy_in i l = let e : at + i - at ≡ i = omega arith in ground arith

  pub copy_out : (x : ℕ) → (x < at) ⊎ (at + n ≤ x) → copy dst at src from n x ≡ dst x
  unfolding copy
  copy_out x l = ground arith

pub header_out : (b : Bytes) (at v x : ℕ) → (x < at) ⊎ (at + 4 ≤ x) → put_header b at v x ≡ b x
unfolding put_header
header_out b at v x l = ground arith

-- The value of four bytes.
four_bytes :
    (v : ℕ)
    → v < 2 ^ 32
    → v % 256 + 256 * (v / 256 % 256) + 65536 * (v / 65536 % 256) + 16777216 * (v / 16777216 % 256)
      ≡ v
four_bytes v l = omega arith

pub get_header-put_header :
    (b : Bytes) (at v : ℕ) → v < 2 ^ 32 → get_header (put_header b at v) at ≡ v
unfolding get_header put_header
get_header-put_header b at v l = grind (arith, four_bytes v l)

pub get_header_same :
    (b b' : Bytes) (at : ℕ)
    → ((j : ℕ) → j < 4 → b' (at + j) ≡ b (at + j))
    → get_header b' at ≡ get_header b at
unfolding get_header
get_header_same b b' at h =
    let e0 : b' at ≡ b at = subst (λ x. b' x ≡ b x) (add-zero at) (h 0 (omega arith)) in
    let e1 = h 1 (omega arith) in let e2 = h 2 (omega arith) in let e3 = h 3 (omega arith) in cc
