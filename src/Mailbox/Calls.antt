-- ===== src/Mailbox/Calls.antt =====
-- kernel/tkernel/src/mailbox.c: sending to a mailbox where nobody waits, and receiving from one that has
-- messages.
use open_t_kernel.Base.{
  ℕ, ◌≡◌, ◌≢◌, ◌<◌, refl, sym, ap, ap₂, ◌∙◌, subst, true, false, not, ◌&&◌, ◌==◌, if◌then◌else◌,
  if_true, if_false, last_of-append, Option, some, none, List, [], ◌∷◌, ◌++◌, length, NotIn,
  Distinct, Distinct-insert, Linked, last_of, spliced-Linked, upd, upd_self, ==_ne,
}
use open_t_kernel.Base.Int.{ℤ, to_ℕ, is_int_positive}
use mathlib.Core.List.{append-nil}
use open_t_kernel.Kernel.{Kernel, Mbxcb, Er, e_ok, has, ta_mpri, ttw_mbx, in_ddsp, null}
use open_t_kernel.Timer.{chk_tmout}
use open_t_kernel.ReadyQueue.{is_nil}
use open_t_kernel.Wait.{is_diswai}
use open_t_kernel.Mailbox.{
  chk_mbxid, msg_order, tk_snd_mbx, tk_rcv_mbx_u, mbx_append, queue_insert_mpri, set_mbxcb,
}
use open_t_kernel.Mailbox.Chain.{MsgChain, TailAt, InPriority}
use open_t_kernel.Mailbox.Insert.{Inserted, queue_insert_mpri-Inserted}

-- A message may be stored in the mailbox: it exists, and nobody waits for a message.
pub record Stores (mbxid : ℤ) (k : Kernel) : Type 0 where
  pub id_valid : chk_mbxid mbxid k ≡ true
  pub exists : (k.mbxcb (to_ℕ mbxid)).mbxid ≢ 0
  pub nobody : k.mbx_que (to_ℕ mbxid) ≡ []

-- Where the message goes once the checks are passed.
stored :
    (fuel : ℕ) (mbxid : ℤ) (m : ℕ) (k : Kernel)
    → Stores mbxid k
    → (has (k.mbxcb (to_ℕ mbxid)).mbxatr ta_mpri && not (is_int_positive (k.msgpri m))) ≡ false
    → tk_snd_mbx fuel mbxid m k ≡ (
        if has (k.mbxcb (to_ℕ mbxid)).mbxatr ta_mpri
        then elim (queue_insert_mpri fuel (to_ℕ mbxid) m null k) [
          | none ↦ none
          | some k1 ↦ some (e_ok, k1)
        ]
        else some (e_ok, mbx_append (to_ℕ mbxid) m k))
unfolding tk_snd_mbx
stored fuel mbxid m k s p =
    let id = to_ℕ mbxid in
    if_false (not (chk_mbxid mbxid k)) _ _ (ap not s.id_valid)
    ∙ if_false ((k.mbxcb id).mbxid == 0) _ _ (==_ne (k.mbxcb id).mbxid 0 s.exists)
    ∙ if_false (has (k.mbxcb id).mbxatr ta_mpri && not (is_int_positive (k.msgpri m))) _ _ p
    ∙ if_false (not (is_nil (k.mbx_que id))) _ _ (ap (λ x. not (is_nil x)) s.nobody)

-- A message with a positive priority, sent to a mailbox with TA_MPRI, where nobody waits and whose messages, of
-- which it is none, are in the order of priorities: with a round of fuel for each message and one more, it is accepted and put behind all messages of
-- the same or a higher priority and before all others.
pub tk_snd_mbx-Inserted :
    (fuel : ℕ) (mbxid : ℤ) (m : ℕ) (k : Kernel) (ms : List ℕ)
    → Stores mbxid k
    → has (k.mbxcb (to_ℕ mbxid)).mbxatr ta_mpri ≡ true
    → is_int_positive (k.msgpri m) ≡ true
    → m ≢ null
    → NotIn m ms
    → length ms < fuel
    → InPriority (msg_order k) ms
    → MsgChain (to_ℕ mbxid) k ms
    → (k' : Kernel) × (tk_snd_mbx fuel mbxid m k ≡ some (e_ok, k'))
      × Inserted (to_ℕ mbxid) m ms k k'
tk_snd_mbx-Inserted fuel mbxid m k ms s p n z d f o h =
    let id = to_ℕ mbxid in
    let (k', q, r) = queue_insert_mpri-Inserted id m fuel k ms z d f o h in
    (
      k',
      stored fuel mbxid m k s (ap₂ (λ a b. a && b) p (ap not n))
          ∙ if_true (has (k.mbxcb id).mbxatr ta_mpri) _ _ p
          ∙ ap
              (λ o. elim o as (λ (x : Option Kernel). Option (Er × Kernel)) [
                | none ↦ none
                | some k1 ↦ some (e_ok, k1)
              ])
              q,
      r,
    )

-- The messages in the order in which they were sent, and the pointer to the last.
abbrev pub Fifo : ℕ → Kernel → List ℕ → Type 0
Fifo id k ms = MsgChain id k ms × TailAt id k ms

append-Fifo :
    (id m : ℕ) (k : Kernel) (ms : List ℕ)
    → m ≢ null
    → NotIn m ms
    → Fifo id k ms
    → Fifo id (mbx_append id m k) (ms ++ m ∷ [])
unfolding mbx_append
append-Fifo id m k [] z n (h, t) =
    let c : Mbxcb = record (k.mbxcb id) { headmsg = m; mq_tail = m } in
    let k1 = record k { nextmsg = upd k.nextmsg m null } in
    subst (λ (k' : Kernel). Fifo id k' (m ∷ []))
      (sym (if_true ((k.mbxcb id).headmsg == null) _ _ (ap (λ x. x == null) h.linked)))
      (subst
        (λ (b : Mbxcb).
          MsgChain id (set_mbxcb id c k1) (m ∷ []) × (last_of b.mq_tail (m ∷ []) ≡ b.mq_tail))
        (sym (upd_self k.mbxcb id c))
        (
          record {
            linked =
                subst (λ (b : Mbxcb). Linked k1.nextmsg b.headmsg (m ∷ []))
                  (sym (upd_self k.mbxcb id c)) (refl, z, upd_self k.nextmsg m null);
            distinct = (tt, tt);
          },
          refl,
        ))
append-Fifo id m k (x ∷ xs) z n (h, t) =
    let a = k.mbxcb id in
    let c : Mbxcb = record a { mq_tail = m } in
    let k1 = record k { nextmsg = upd k.nextmsg m null } in
    let k2 = record k1 { nextmsg = upd k1.nextmsg a.mq_tail m } in
    let e = sym (append-nil xs) in
    let l =
      spliced-Linked k.nextmsg a.headmsg x m xs [] z (subst (λ ys. NotIn m (x ∷ ys)) e n)
        (subst (λ ys. Distinct (x ∷ ys)) e h.distinct)
        (subst (λ ys. Linked k.nextmsg a.headmsg (x ∷ ys)) e h.linked) in
    subst (λ (k' : Kernel). Fifo id k' (x ∷ xs ++ m ∷ []))
      (sym (
        if_false (a.headmsg == null) _ _
          (==_ne a.headmsg null (λ y. h.linked.1 (sym h.linked.0 ∙ y)))))
      (subst
        (λ (b : Mbxcb).
          Linked k2.nextmsg b.headmsg (x ∷ xs ++ m ∷ []) × (last_of x (xs ++ m ∷ []) ≡ b.mq_tail)
          → Fifo id (set_mbxcb id c k2) (x ∷ xs ++ m ∷ []))
        (upd_self k.mbxcb id c)
        (λ r. (
          record {
            linked = r.0;
            distinct =
                Distinct-insert m (x ∷ xs) [] (subst (λ ys. Distinct (x ∷ ys)) e h.distinct)
                  (subst (λ ys. NotIn m (x ∷ ys)) e n);
          },
          r.1,
        ))
        (
          subst (λ q. Linked (upd k1.nextmsg q m) a.headmsg (x ∷ xs ++ m ∷ [])) t l,
          last_of-append m x xs,
        ))

-- A message sent to a mailbox without TA_MPRI, where nobody waits, is accepted and comes behind all others, with
-- any fuel.
pub tk_snd_mbx-Fifo :
    (fuel : ℕ) (mbxid : ℤ) (m : ℕ) (k : Kernel) (ms : List ℕ)
    → Stores mbxid k
    → has (k.mbxcb (to_ℕ mbxid)).mbxatr ta_mpri ≡ false
    → m ≢ null
    → NotIn m ms
    → Fifo (to_ℕ mbxid) k ms
    → (k' : Kernel) × (tk_snd_mbx fuel mbxid m k ≡ some (e_ok, k'))
      × Fifo (to_ℕ mbxid) k' (ms ++ m ∷ [])
tk_snd_mbx-Fifo fuel mbxid m k ms s p z n h =
    let id = to_ℕ mbxid in
    (
      mbx_append id m k,
      stored fuel mbxid m k s (ap (λ b. b && not (is_int_positive (k.msgpri m))) p)
          ∙ if_false (has (k.mbxcb id).mbxatr ta_mpri) _ _ p,
      append-Fifo id m k ms z n h,
    )

-- A call of tk_rcv_mbx_u passes the checks.
pub record Receives (mbxid tmout : ℤ) (k : Kernel) : Type 0 where
  pub id_valid : chk_mbxid mbxid k ≡ true
  pub timeout : chk_tmout tmout ≡ true
  pub dispatch : in_ddsp k ≡ false
  pub exists : (k.mbxcb (to_ℕ mbxid)).mbxid ≢ 0
  pub enabled : is_diswai (k.mbxcb (to_ℕ mbxid)).mbxatr (k.tcb k.ctxtsk) ttw_mbx ≡ false

-- A request that passes the checks, at a mailbox that holds messages, is answered with the first of them at once;
-- the mailbox holds the others, in their order.
pub tk_rcv_mbx_u-MsgChain :
    (mbxid tmout : ℤ) (k : Kernel) (x : ℕ) (xs : List ℕ)
    → Receives mbxid tmout k
    → MsgChain (to_ℕ mbxid) k (x ∷ xs)
    → (k' : Kernel) × (tk_rcv_mbx_u mbxid tmout k ≡ (e_ok, some x, k'))
      × MsgChain (to_ℕ mbxid) k' xs
unfolding tk_rcv_mbx_u
tk_rcv_mbx_u-MsgChain mbxid tmout k x xs r h =
    let id = to_ℕ mbxid in
    let c : Mbxcb = record (k.mbxcb id) { headmsg = k.nextmsg (k.mbxcb id).headmsg } in
    let k' = set_mbxcb id c k in
    let e = h.linked.0 in
    (
      k',
      if_false (not (chk_mbxid mbxid k)) _ _ (ap not r.id_valid)
          ∙ if_false (not (chk_tmout tmout)) _ _ (ap not r.timeout)
          ∙ if_false (in_ddsp k) _ _ r.dispatch
          ∙ if_false ((k.mbxcb id).mbxid == 0) _ _ (==_ne (k.mbxcb id).mbxid 0 r.exists)
          ∙ if_false (is_diswai (k.mbxcb id).mbxatr (k.tcb k.ctxtsk) ttw_mbx) _ _ r.enabled
          ∙ if_true (not ((k.mbxcb id).headmsg == null)) _ _
              (ap not (==_ne (k.mbxcb id).headmsg null (λ y. h.linked.1 (sym e ∙ y))))
          ∙ ap (λ y. (e_ok, some y, k')) e,
      record {
        linked =
            subst (λ (b : Mbxcb). Linked k.nextmsg b.headmsg xs) (sym (upd_self k.mbxcb id c))
              (subst (λ y. Linked k.nextmsg (k.nextmsg y) xs) (sym e) h.linked.2);
        distinct = h.distinct.1;
      },
    )
