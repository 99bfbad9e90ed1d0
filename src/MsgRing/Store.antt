-- ===== src/MsgRing/Store.antt =====
-- kernel/tkernel/src/messagebuf.c: msg_to_mbf puts a message after those that are stored.
use open_t_kernel.Base.{
  ℕ, ◌≡◌, ◌<◌, ◌≤◌, ◌↔◌, ◌⊎◌, inl, inr, sym, ap, ◌∙◌, arith, ◌+◌, ◌-◌, ◌%◌, ◌^◌, true, leb→le,
  subst, dec_lt, List, [], ◌∷◌, ◌++◌,
}
use open_t_kernel.Bits.{Bytes}
use open_t_kernel.Kernel.{Mbfcb}
use open_t_kernel.MsgRing.{
  mbf_free, msg_to_mbf, put_header, get_header, roundsz, ring_end, headersz,
}
use open_t_kernel.MsgRing.Copy.{header_out, get_header-put_header, get_header_same}
use open_t_kernel.MsgRing.Wrap.{
  wrap, wrap_below, wrap_above, wrap-lt, wrap_near, ring_end_lem, roundsz-le, roundsz_least,
}
use open_t_kernel.MsgRing.Parts.{ring_store, store_in, store_out}
use open_t_kernel.MsgRing.Moved.{moved_on}
use open_t_kernel.MsgRing.Stored.{
  Message, total, Holds, total-append, total-mod, Stored-append, Stored-same,
}

-- The bytes free are a multiple of 4.
frbufsz-mod : (m : Mbfcb) (ms : List Message) → Holds m ms → m.frbufsz % 4 ≡ 0
frbufsz-mod m ms h = omega (arith, h.rounded, h.used, total-mod m.buffer m.bufsz m.head ms h.stored)

-- mbf_free compares with the size as it is, and a message is stored in its rounded size: for a size
-- below 2 ^ 31 it answers yes exactly where the header and the rounded message fit beside the messages
-- that are stored.
pub mbf_free_iff :
    (m : Mbfcb) (ms : List Message) (sz : ℕ)
    → Holds m ms
    → sz < 2 ^ 31
    → (mbf_free m sz ≡ true) ↔ (total ms + (headersz + roundsz sz) ≤ m.bufsz)
mbf_free_iff m ms sz h l = (
  λ e.
      let x : (4 + sz) % 2 ^ 32 ≤ m.frbufsz = leb→le _ _ e in
      omega (
        arith,
        roundsz_least sz l (m.frbufsz - 4) (omega (arith, frbufsz-mod m ms h)) (omega arith),
        h.used,
      ),
  λ e.
      let x : (4 + sz) % 2 ^ 32 ≤ m.frbufsz = omega (arith, roundsz-le sz l, h.used) in
      ground arith,
)

module _ (m : Mbfcb) (ms : List Message) (sz : ℕ) (msg : Bytes) (h : Holds m ms) (l : sz < 2 ^ 31)
    (room : total ms + (headersz + roundsz sz) ≤ m.bufsz) where
  abbrev s : ℕ
  s = m.bufsz

  -- Where the message goes: its header, and its bytes.
  abbrev p : ℕ
  p = m.head + total ms

  p-mod : p % 4 ≡ 0
  p-mod = omega (arith, h.head_rounded, total-mod m.buffer s m.head ms h.stored)

  fits : p + 4 + roundsz sz < s + s
  fits = omega (arith, h.head_in, room)

  tail_in : wrap s p < s
  tail_in = wrap-lt s p (omega (arith, fits))

  tail-mod : wrap s p % 4 ≡ 0
  tail-mod = elim (dec_lt p s) [
    | yes a ↦ let w = wrap_below s p a in omega (arith, p-mod)
    | no a ↦ let w = wrap_above s p (omega arith) in omega (arith, p-mod, h.rounded)
  ]

  -- The place after the header.
  after_header : ring_end s (wrap s p + headersz) ≡ wrap s (p + 4)
  after_header =
      ring_end_lem s (wrap s p + 4) (omega (arith, tail-mod, h.rounded, tail_in))
      ∙ elim (dec_lt p s) [
        | yes a ↦ ap (λ x. wrap s (x + 4)) (wrap_below s p a)
        | no a ↦
            let w = wrap_above s p (omega arith) in
            let i = wrap_below s (wrap s p + 4) (omega (arith, fits)) in
            let j = wrap_above s (p + 4) (omega arith) in i ∙ omega arith
      ]

  abbrev header : Bytes
  header = put_header m.buffer (wrap s p) sz

  abbrev buffer' : Bytes
  buffer' = ring_store header msg s (wrap s (p + 4)) sz

  code : msg_to_mbf m msg sz ≡ record m {
    frbufsz = m.frbufsz - (headersz + roundsz sz);
    buffer = buffer';
    tail = wrap s (p + 4 + roundsz sz);
  }
  unfolding msg_to_mbf
  code =
      rw (h.tail_at, after_header)
        (ap
          (λ t. record m {
            frbufsz = m.frbufsz - (headersz + roundsz sz);
            buffer = buffer';
            tail = t;
          })
          (moved_on s (p + 4) sz l h.rounded (omega (arith, p-mod)) (omega (arith, roundsz-le sz l))
            fits))

  old : (y : ℕ) → m.head ≤ y → y < p → buffer' (wrap s y) ≡ m.buffer (wrap s y)
  old y a b =
      store_out s (p + 4) sz (omega (arith, roundsz-le sz l)) (omega (arith, roundsz-le sz l, fits))
        header msg y (omega arith) (omega (arith, roundsz-le sz l, room))
      ∙ header_out m.buffer (wrap s p) sz (wrap s y) (apart y a b)
    where
      apart : (y : ℕ) → m.head ≤ y → y < p → (wrap s y < wrap s p) ⊎ (wrap s p + 4 ≤ wrap s y)
      apart y a b = elim (dec_lt y s) [
        | yes c ↦
            let v = wrap_below s y c in
            elim (dec_lt p s) [
              | yes d ↦ let w = wrap_below s p d in inl (omega arith)
              | no d ↦ let w = wrap_above s p (omega arith) in inr (omega (arith, room))
            ]
        | no c ↦
            let v = wrap_above s y (omega arith) in
            let w = wrap_above s p (omega arith) in inl (omega arith)
      ]

  new_header : get_header buffer' (wrap s p) ≡ sz
  new_header =
      get_header_same header buffer' (wrap s p) (λ j k.
        subst (λ x. buffer' x ≡ header x) (sym (wrap_near s p j h.rounded p-mod k))
          (store_out s (p + 4) sz (omega (arith, roundsz-le sz l))
            (omega (arith, roundsz-le sz l, fits)) header msg (p + j) (omega arith)
            (omega (arith, roundsz-le sz l, room))))
      ∙ get_header-put_header m.buffer (wrap s p) sz (omega arith)

  new_bytes : (i : ℕ) → i < sz → buffer' (wrap s (p + 4 + i)) ≡ msg i
  new_bytes =
      store_in s (p + 4) sz (omega (arith, roundsz-le sz l)) (omega (arith, roundsz-le sz l, fits))
        header msg

  abbrev pub ms' : List Message
  ms' = ms ++ record { size = sz; content = msg } ∷ []

  next :
      Holds
        (record m {
          frbufsz = m.frbufsz - (headersz + roundsz sz);
          buffer = buffer';
          tail = wrap s (p + 4 + roundsz sz);
        })
        ms'
  next =
      let e = total-append ms (record { size = sz; content = msg }) in
      record {
        rounded = h.rounded;
        is_int = h.is_int;
        head_rounded = h.head_rounded;
        head_in = h.head_in;
        tail_at = ap (wrap s) (omega arith);
        used = omega (arith, h.used);
        stored =
            Stored-append buffer' s m.head ms _
              (Stored-same m.buffer buffer' s m.head ms h.rounded h.head_rounded old h.stored)
              (l, new_header, new_bytes, tt);
      }

-- A message of less than 2 ^ 31 bytes that mbf_free has room for is put after the messages that are
-- stored: msg_to_mbf keeps those, its header and every one of its bytes, wherever the end of the ring
-- falls.
pub msg_to_mbf-Holds :
    (m : Mbfcb) (ms : List Message) (sz : ℕ) (msg : Bytes)
    → Holds m ms
    → sz < 2 ^ 31
    → mbf_free m sz ≡ true
    → Holds (msg_to_mbf m msg sz) (ms ++ record { size = sz; content = msg } ∷ [])
msg_to_mbf-Holds m ms sz msg h l f =
    let room = (mbf_free_iff m ms sz h l).0 f in
    subst (λ x. Holds x (ms' m ms sz msg h l room)) (sym (code m ms sz msg h l room))
      (next m ms sz msg h l room)
