-- ===== src/MsgRing/Stored.antt =====
-- kernel/tkernel/src/messagebuf.c: the messages that a message buffer holds.
use open_t_kernel.Base.{
  ℕ, ◌≡◌, ◌<◌, ◌≤◌, refl, sym, ap, ◌∙◌, arith, ◌+◌, ◌-◌, ◌%◌, ◌^◌, List, [], ◌∷◌, ◌++◌, subst,
}
use open_t_kernel.Bits.{Bytes}
use open_t_kernel.Kernel.{Mbfcb}
use open_t_kernel.MsgRing.{get_header, headersz, roundsz}
use open_t_kernel.MsgRing.Copy.{get_header_same}
use open_t_kernel.MsgRing.Wrap.{wrap, wrap_near, wrap_round, roundsz-mod, roundsz-le}

pub record Message : Type 0 where
  pub size : ℕ
  pub content : Bytes

-- The bytes that a message takes.
abbrev pub extent : Message → ℕ
extent m = headersz + roundsz m.size

abbrev pub total : List Message → ℕ
total [] = 0
total (m ∷ ms) = extent m + total ms

-- From place `x` on the ring of `s` bytes has these messages, each a header and its bytes.
abbrev pub Stored : Bytes → ℕ → ℕ → List Message → Type 0
Stored b s x [] = Unit
Stored b s x (m ∷ ms) =
    (m.size < 2 ^ 31)
    × (get_header b (wrap s x) ≡ m.size)
    × ((i : ℕ) → i < m.size → b (wrap s (x + 4 + i)) ≡ m.content i)
    × Stored b s (x + extent m) ms

pub total-append : (ms : List Message) (m : Message) → total (ms ++ m ∷ []) ≡ total ms + extent m
total-append [] m = omega arith
total-append (n ∷ ms) m = omega (arith, total-append ms m)

pub total-mod : (b : Bytes) (s x : ℕ) (ms : List Message) → Stored b s x ms → total ms % 4 ≡ 0
total-mod b s x [] h = refl
total-mod b s x (m ∷ ms) h =
    omega (arith, total-mod b s (x + extent m) ms h.3, roundsz-mod m.size h.0)

pub Stored-append :
    (b : Bytes) (s x : ℕ) (ms : List Message) (m : Message)
    → Stored b s x ms
    → Stored b s (x + total ms) (m ∷ [])
    → Stored b s x (ms ++ m ∷ [])
Stored-append b s x [] m h one = subst (λ y. Stored b s y (m ∷ [])) (omega arith) one
Stored-append b s x (n ∷ ms) m h one = (
  h.0,
  h.1,
  h.2,
  Stored-append b s (x + extent n) ms m h.3 (
      let e : x + total (n ∷ ms) ≡ x + extent n + total ms = omega arith in
      subst (λ y. Stored b s y (m ∷ [])) e one),
)

-- A store elsewhere.
pub Stored-same :
    (b b' : Bytes) (s x : ℕ) (ms : List Message)
    → s % 4 ≡ 0
    → x % 4 ≡ 0
    → ((y : ℕ) → x ≤ y → y < x + total ms → b' (wrap s y) ≡ b (wrap s y))
    → Stored b s x ms
    → Stored b' s x ms
Stored-same b b' s x [] a c f h = tt
Stored-same b b' s x (m ∷ ms) a c f h = (
  h.0,
  get_header_same b b' (wrap s x) (λ j l.
        subst (λ y. b' y ≡ b y) (sym (wrap_near s x j a c l))
          (f (x + j) (omega arith) (omega arith)))
      ∙ h.1,
  λ i l. f (x + 4 + i) (omega arith) (omega (arith, roundsz-le m.size h.0)) ∙ h.2 i l,
  Stored-same b b' s (x + extent m) ms a (omega (arith, roundsz-mod m.size h.0))
      (λ y p q. f y (omega arith) (omega arith)) h.3,
)

-- One round on.
pub Stored-round :
    (b : Bytes) (s x : ℕ) (ms : List Message)
    → s ≤ x
    → x + total ms < s + s
    → Stored b s x ms
    → Stored b s (x - s) ms
Stored-round b s x [] l u h = tt
Stored-round b s x (m ∷ ms) l u h = (
  h.0,
  ap (get_header b) (sym (wrap_round s x l (omega arith))) ∙ h.1,
  λ i j.
      let e : x - s + 4 + i ≡ x + 4 + i - s = omega arith in
      ap b (
        ap (wrap s) e
        ∙ sym (wrap_round s (x + 4 + i) (omega arith) (omega (arith, roundsz-le m.size h.0))))
      ∙ h.2 i j,
  let e : x + extent m - s ≡ x - s + extent m = omega arith in
      subst (λ y. Stored b s y ms) e
        (Stored-round b s (x + extent m) ms (omega arith) (omega arith) h.3),
)

-- What the fields of a control block say where the messages `ms` are in its buffer.
pub record Holds (m : Mbfcb) (ms : List Message) : Type 0 where
  pub rounded : m.bufsz % 4 ≡ 0
  pub is_int : m.bufsz < 2 ^ 31
  pub head_rounded : m.head % 4 ≡ 0
  pub head_in : m.head ≤ m.bufsz - 1
  pub tail_at : m.tail ≡ wrap m.bufsz (m.head + total ms)
  pub used : total ms + m.frbufsz ≡ m.bufsz
  pub stored : Stored m.buffer m.bufsz m.head ms
