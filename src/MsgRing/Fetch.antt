-- ===== src/MsgRing/Fetch.antt =====
-- kernel/tkernel/src/messagebuf.c: mbf_to_msg takes the first of the messages that are stored.
use open_t_kernel.Base.{
  ℕ, ◌≡◌, ◌<◌, ◌≤◌, ◌↔◌, refl, sym, ap, ◌∙◌, arith, ◌+◌, ◌-◌, ◌%◌, ◌^◌, true, subst, dec_lt, List,
  [], ◌∷◌,
}
use open_t_kernel.Bits.{Bytes}
use open_t_kernel.Kernel.{Mbfcb}
use open_t_kernel.MsgRing.{mbf_empty, mbf_to_msg, get_header, roundsz, ring_end, headersz}
use open_t_kernel.MsgRing.Wrap.{
  wrap, wrap_below, wrap_above, wrap_round, ring_end_lem, roundsz-le, roundsz-mod,
}
use open_t_kernel.MsgRing.Parts.{ring_fetch, fetch_in, fetch_out}
use open_t_kernel.MsgRing.Moved.{moved_on}
use open_t_kernel.MsgRing.Stored.{Message, extent, total, Stored, Stored-round, Holds}

-- mbf_empty says whether no message is stored.
pub mbf_empty_iff : (m : Mbfcb) (ms : List Message) → Holds m ms → (mbf_empty m ≡ true) ↔ (ms ≡ [])
mbf_empty_iff m [] h = (λ e. refl, λ e. let u = h.used in ground arith)
mbf_empty_iff m (x ∷ ms) h = (
  λ e. let u = h.used in let v : m.frbufsz ≡ m.bufsz = ground arith in absurd (omega arith),
  λ e. cc,
)

module _ (m : Mbfcb) (a : Message) (ms : List Message) (dst : Bytes) (h : Holds m (a ∷ ms)) where
  abbrev s : ℕ
  s = m.bufsz

  abbrev sz : ℕ
  sz = a.size

  fits : m.head + 4 + roundsz sz ≤ m.head + s
  fits = omega (arith, h.used)

  head_lt : m.head < s
  head_lt = omega (arith, h.head_in, fits)

  small : sz < 2 ^ 31
  small = h.stored.0

  after_header : ring_end s (m.head + headersz) ≡ wrap s (m.head + 4)
  after_header = ring_end_lem s (m.head + 4) (omega (arith, h.head_rounded, h.rounded, head_lt))

  header : get_header m.buffer m.head ≡ sz
  header = ap (get_header m.buffer) (sym (wrap_below s m.head head_lt)) ∙ h.stored.1

  abbrev pub target : Bytes
  target = ring_fetch dst m.buffer s (wrap s (m.head + 4)) sz

  abbrev pub rest : Mbfcb
  rest = record m {
    frbufsz = m.frbufsz + (headersz + roundsz sz);
    head = wrap s (m.head + 4 + roundsz sz);
  }

  pub code : mbf_to_msg m dst ≡ (sz, target, rest)
  unfolding mbf_to_msg
  code =
      rw (header, after_header)
        (ap
          (λ t. (sz, target, record m { frbufsz = m.frbufsz + (headersz + roundsz sz); head = t }))
          (moved_on s (m.head + 4) sz small h.rounded (omega (arith, h.head_rounded))
            (omega (arith, roundsz-le sz small, fits)) (omega (arith, fits, head_lt))))

  pub whole : (i : ℕ) → i < sz → target i ≡ a.content i
  whole i k =
      fetch_in s (m.head + 4) sz (omega (arith, roundsz-le sz small, fits))
        (omega (arith, roundsz-le sz small, fits, head_lt)) m.buffer dst i k
      ∙ h.stored.2 i k

  pub beyond : (i : ℕ) → sz ≤ i → target i ≡ dst i
  beyond =
      fetch_out s (m.head + 4) sz (omega (arith, roundsz-le sz small, fits))
        (omega (arith, roundsz-le sz small, fits, head_lt)) m.buffer dst

  abbrev x : ℕ
  x = m.head + 4 + roundsz sz

  -- The head before and after the end of the ring.
  rest_fields :
      (y : ℕ)
      → y % 4 ≡ 0
      → y ≤ s - 1
      → m.tail ≡ wrap s (y + total ms)
      → Stored m.buffer s y ms
      → Holds (record m { frbufsz = m.frbufsz + (headersz + roundsz sz); head = y }) ms
  rest_fields y b c d e = record {
    rounded = h.rounded;
    is_int = h.is_int;
    head_rounded = b;
    head_in = c;
    tail_at = d;
    used = omega (arith, h.used);
    stored = e;
  }

  after : Stored m.buffer s x ms
  after =
      let e : m.head + extent a ≡ x = omega arith in
      subst (λ y. Stored m.buffer s y ms) e h.stored.3

  x-mod : x % 4 ≡ 0
  x-mod = omega (arith, h.head_rounded, roundsz-mod sz small)

  tail_place : m.tail ≡ wrap s (x + total ms)
  tail_place =
      let e : m.head + total (a ∷ ms) ≡ x + total ms = omega arith in h.tail_at ∙ ap (wrap s) e

  pub left : Holds rest ms
  left = elim (dec_lt x s) [
    | yes c ↦
        subst (λ y. Holds (record m { frbufsz = m.frbufsz + (headersz + roundsz sz); head = y }) ms)
          (sym (wrap_below s x c)) (rest_fields x x-mod (omega arith) tail_place after)
    | no c ↦
        subst (λ y. Holds (record m { frbufsz = m.frbufsz + (headersz + roundsz sz); head = y }) ms)
          (sym (wrap_above s x (omega arith)))
          (rest_fields (x - s) (omega (arith, x-mod, h.rounded)) (omega (arith, fits, head_lt))
            (tail_place ∙ (round (omega arith)))
            (Stored-round m.buffer s x ms (omega arith) (omega (arith, h.used, head_lt)) after))
  ]
    where
      round : s ≤ x → wrap s (x + total ms) ≡ wrap s (x - s + total ms)
      round c =
          let e : x - s + total ms ≡ x + total ms - s = omega arith in
          wrap_round s (x + total ms) (omega arith) (omega (arith, h.used, head_lt))
          ∙ ap (wrap s) (sym e)

-- mbf_to_msg returns the size of the first message that is stored and writes its bytes, and nothing
-- beyond them, to the target; the message buffer then holds the other messages.
pub mbf_to_msg-Holds :
    (m : Mbfcb) (a : Message) (ms : List Message) (dst : Bytes)
    → Holds m (a ∷ ms)
    → let (sz, got, m') = mbf_to_msg m dst in
      (sz ≡ a.size)
      × ((i : ℕ) → i < a.size → got i ≡ a.content i)
      × ((i : ℕ) → a.size ≤ i → got i ≡ dst i)
      × Holds m' ms
mbf_to_msg-Holds m a ms dst h =
    rw (code m a ms dst h) (refl, whole m a ms dst h, beyond m a ms dst h, left m a ms dst h)
