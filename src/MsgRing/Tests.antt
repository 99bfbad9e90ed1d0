-- ===== src/MsgRing/Tests.antt =====
-- The theorems on the ring of a message buffer, at one of 16 bytes whose messages pass its end.
use open_t_kernel.Base.{ℕ, ◌≡◌, ◌<◌, ◌≤◌, refl, arith, ◌+◌, [], ◌∷◌, ◌++◌}
use open_t_kernel.Bits.{Bytes}
use open_t_kernel.Kernel.{Mbfcb}
use open_t_kernel.MsgRing.{msg_to_mbf, mbf_to_msg, copy, get_header, put_header}
use open_t_kernel.MsgRing.Wrap.{wrap}
use open_t_kernel.MsgRing.Stored.{Message, Holds}
use open_t_kernel.MsgRing.Store.{msg_to_mbf-Holds}
use open_t_kernel.MsgRing.Fetch.{mbf_to_msg-Holds}

abbrev empty : Mbfcb
empty = record {
  mbfid = 1;
  exinf = 0;
  mbfatr = 0;
  bufsz = 16;
  maxmsz = 12;
  frbufsz = 16;
  head = 8;
  tail = 8;
  buffer = λ i. 0;
}

empty-Holds : Holds empty []
unfolding wrap
empty-Holds = record {
  rounded = refl;
  is_int = omega arith;
  head_rounded = refl;
  head_in = omega arith;
  tail_at = refl;
  used = refl;
  stored = tt;
}

-- Five bytes 100, 101, ...
abbrev five : Bytes
five i = 100 + i

abbrev message : Message
message = record { size = 5; content = five }

msg_to_mbf-Holds_example : Holds (msg_to_mbf empty five 5) ([] ++ message ∷ [])
msg_to_mbf-Holds_example = msg_to_mbf-Holds empty [] 5 five empty-Holds (omega arith) refl

one-Holds : Holds (msg_to_mbf empty five 5) (message ∷ [])
one-Holds = msg_to_mbf-Holds empty [] 5 five empty-Holds (omega arith) refl

mbf_to_msg-Holds_example :
    let (sz, got, m') = mbf_to_msg (msg_to_mbf empty five 5) (λ i. 7) in
    (sz ≡ 5) × ((i : ℕ) → i < 5 → got i ≡ five i) × ((i : ℕ) → 5 ≤ i → got i ≡ 7) × Holds m' []
mbf_to_msg-Holds_example = mbf_to_msg-Holds (msg_to_mbf empty five 5) message [] (λ i. 7) one-Holds

last_byte : (mbf_to_msg (msg_to_mbf empty five 5) (λ i. 7)).1 4 ≡ 104
unfolding mbf_to_msg msg_to_mbf copy get_header put_header
last_byte = refl
