-- ===== src/Mailbox/Tests.antt =====
-- Messages of the priorities 3, 1 and 1, by their addresses, in a mailbox with TA_MPRI.
use open_t_kernel.Base.{ℕ, ◌≡◌, refl, arith, Option, some, ◌>>=◌, [], ◌∷◌, if◌then◌else◌, ◌==◌}
use open_t_kernel.Base.Int.{pos}
use open_t_kernel.Kernel.{Kernel, e_ok}
use open_t_kernel.Mailbox.{tk_snd_mbx, tk_rcv_mbx_u, queue_insert_mpri}
use open_t_kernel.Mailbox.Chain.{MsgChain}
use open_t_kernel.Mailbox.Insert.{Inserted}
use open_t_kernel.Mailbox.Calls.{Fifo, tk_snd_mbx-Inserted, tk_snd_mbx-Fifo, tk_rcv_mbx_u-MsgChain}
use open_t_kernel.Example.{kernel}

unfoldable sent : Option Kernel
unfolding tk_snd_mbx queue_insert_mpri
sent = do
  a ← tk_snd_mbx 9 (pos 1) 13 kernel
  b ← tk_snd_mbx 9 (pos 1) 21 a.1
  c ← tk_snd_mbx 9 (pos 1) 31 b.1
  some c.1

unfoldable three : Kernel → Option (Option ℕ × Option ℕ × Option ℕ)
unfolding tk_rcv_mbx_u
three k =
    let a = tk_rcv_mbx_u (pos 1) (pos 0) k in
    let b = tk_rcv_mbx_u (pos 1) (pos 0) a.2 in
    let c = tk_rcv_mbx_u (pos 1) (pos 0) b.2 in some (a.1, b.1, c.1)

-- They are received by priority, and equal ones in the order in which they were sent.
received : (sent >>= three) ≡ some (some 21, some 31, some 13)
unfolding sent three tk_snd_mbx queue_insert_mpri tk_rcv_mbx_u
received = refl

-- Mailbox 1 with the messages 21 and 13.
abbrev mailed : ℕ → Kernel
mailed atr = record kernel {
  mbxcb = λ i. record (kernel.mbxcb i) { headmsg = 21; mq_tail = 13; mbxatr = atr };
  nextmsg = λ i. if i == 21 then 13 else 0;
}

two_messages : (atr : ℕ) → MsgChain 1 (mailed atr) (21 ∷ 13 ∷ [])
two_messages atr = record {
  linked = (refl, (λ p. ground arith), (refl, (λ p. ground arith), refl));
  distinct = (((λ p. ground arith), tt), (tt, tt));
}

tk_snd_mbx-Inserted_example :
    (k' : Kernel) × (tk_snd_mbx 3 (pos 1) 42 (mailed 2) ≡ some (e_ok, k'))
    × Inserted 1 42 (21 ∷ 13 ∷ []) (mailed 2) k'
tk_snd_mbx-Inserted_example =
    tk_snd_mbx-Inserted 3 (pos 1) 42 (mailed 2) (21 ∷ 13 ∷ [])
      (record { id_valid = refl; exists = λ p. ground arith; nobody = refl }) refl refl
      (λ p. ground arith) ((λ p. ground arith), ((λ p. ground arith), tt)) (omega arith)
      ((omega arith, tt), (tt, tt)) (two_messages 2)

tk_snd_mbx-Fifo_example :
    (k' : Kernel) × (tk_snd_mbx 0 (pos 1) 42 (mailed 0) ≡ some (e_ok, k'))
    × Fifo 1 k' (21 ∷ 13 ∷ 42 ∷ [])
tk_snd_mbx-Fifo_example =
    tk_snd_mbx-Fifo 0 (pos 1) 42 (mailed 0) (21 ∷ 13 ∷ [])
      (record { id_valid = refl; exists = λ p. ground arith; nobody = refl }) refl
      (λ p. ground arith) ((λ p. ground arith), ((λ p. ground arith), tt)) (two_messages 0, refl)

tk_rcv_mbx_u-MsgChain_example :
    (k' : Kernel) × (tk_rcv_mbx_u (pos 1) (pos 0) (mailed 0) ≡ (e_ok, some 21, k'))
    × MsgChain 1 k' (13 ∷ [])
tk_rcv_mbx_u-MsgChain_example =
    tk_rcv_mbx_u-MsgChain (pos 1) (pos 0) (mailed 0) 21 (13 ∷ [])
      (record {
        id_valid = refl;
        timeout = refl;
        dispatch = refl;
        exists = λ p. ground arith;
        enabled = refl;
      })
      (two_messages 0)
