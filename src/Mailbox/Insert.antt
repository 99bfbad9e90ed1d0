-- ===== src/Mailbox/Insert.antt =====
-- kernel/tkernel/src/mailbox.c: queue_insert_mpri puts a message in its place in the chain.
use open_t_kernel.Base.{
  ℕ, zero, suc, ◌≡◌, ◌≢◌, ◌<◌, ◌≤◌, refl, sym, ap, ◌∙◌, subst, arith, Bool, true, false, not, ◌&&◌,
  leb, leb→le, ◌==◌, Bool-cases, inl, inr, if◌then◌else◌, if_true, if_false, some, List, [], ◌∷◌,
  ◌++◌, length, All, NotIn, Distinct-insert, Linked, Linked-upd, address, address-Linked, last_of,
  spliced-Linked, last_of-Linked, upd, upd_self, ==_ne,
}
use open_t_kernel.Kernel.{Kernel, Mbxcb, null}
use open_t_kernel.Mailbox.{msg_order, next_msg_of, set_next_msg_of, queue_insert_mpri, set_mbxcb}
use open_t_kernel.Mailbox.Chain.{MsgChain, InPriority, InPriority-insert, later}

module _ (id m : ℕ) (k : Kernel) where
  -- The loop goes on at message `x`.
  passes : ℕ → Bool
  passes x = not (x == null) && leb (msg_order k x) (msg_order k m)

  -- What the loop leaves where it stops behind `p`, before the messages `post`.
  linked_in : ℕ → List ℕ → Kernel
  linked_in p post = set_next_msg_of id p m (record k { nextmsg = upd k.nextmsg m (address post) })

  round :
      (fuel p x : ℕ)
      → next_msg_of id p k ≡ x
      → queue_insert_mpri (suc fuel) id m p k ≡ (
          if passes x
          then queue_insert_mpri fuel id m x k
          else some (set_next_msg_of id p m (record k { nextmsg = upd k.nextmsg m x })))
  unfolding queue_insert_mpri passes
  round fuel p x e =
      ap
        (λ y.
          if not (y == null) && leb (msg_order k y) (msg_order k m)
          then queue_insert_mpri fuel id m y k
          else some (set_next_msg_of id p m (record k { nextmsg = upd k.nextmsg m y })))
        e

  -- The place of the message in the rest `ms` of the chain behind `p`.
  record Place (fuel p : ℕ) (ms : List ℕ) : Type 0 where
    pre : List ℕ
    post : List ℕ
    split : ms ≡ pre ++ post
    before : All (λ x. msg_order k x ≤ msg_order k m) pre
    behind : All (λ x. msg_order k m < msg_order k x) post
    result : queue_insert_mpri fuel id m p k ≡ some (linked_in (last_of p pre) post)

  end_stops : passes null ≡ false
  unfolding passes
  end_stops = refl

  goes_on : (y : ℕ) → y ≢ null → leb (msg_order k y) (msg_order k m) ≡ true → passes y ≡ true
  unfolding passes
  goes_on y n c = ground (arith, c)

  stops_at : (y : ℕ) → leb (msg_order k y) (msg_order k m) ≡ false → passes y ≡ false
  unfolding passes
  stops_at y c = ground (arith, c)

  place :
      (fuel p : ℕ) (ms : List ℕ)
      → length ms < fuel
      → InPriority (msg_order k) ms
      → (x : ℕ) → next_msg_of id p k ≡ x
      → Linked k.nextmsg x ms
      → Place fuel p ms
  unfolding linked_in
  place zero p ms f s x e l = absurd (omega (arith, f))
  place (suc fuel) p [] f s x e l = record {
    pre = [];
    post = [];
    split = refl;
    before = tt;
    behind = tt;
    result = round fuel p null (e ∙ l) ∙ if_false (passes null) _ _ end_stops;
  }
  place (suc fuel) p (y ∷ ys) f s x e l = elim (Bool-cases (leb (msg_order k y) (msg_order k m))) [
    | inl c ↦
        let r =
          place fuel y ys (omega (arith, f)) s.1 (k.nextmsg y)
            (if_false (y == null) _ _ (==_ne y null l.1)) l.2 in
        record {
          pre = y ∷ r.pre;
          post = r.post;
          split = ap (λ zs. y ∷ zs) r.split;
          before = (leb→le (msg_order k y) (msg_order k m) c, r.before);
          behind = r.behind;
          result = round fuel p y (e ∙ l.0) ∙ if_true (passes y) _ _ (goes_on y l.1 c) ∙ r.result;
        }
    | inr c ↦ record {
      pre = [];
      post = y ∷ ys;
      split = refl;
      before = tt;
      behind = later (msg_order k) (msg_order k m) y ys (ground (arith, c)) s;
      result = round fuel p y (e ∙ l.0) ∙ if_false (passes y) _ _ (stops_at y c);
    }
  ]

  -- At the head of the chain, and behind its first messages.
  linked_in-MsgChain :
      (pre post : List ℕ)
      → m ≢ null
      → NotIn m (pre ++ post)
      → MsgChain id k (pre ++ post)
      → MsgChain id (linked_in (last_of null pre) post) (pre ++ m ∷ post)
  unfolding linked_in
  linked_in-MsgChain [] post z n h =
      let c : Mbxcb = record (k.mbxcb id) { headmsg = m } in
      let f = upd k.nextmsg m (address post) in
      let l = h.linked in
      let a = k.mbxcb id in
      record {
        linked =
            subst (λ q. Linked f q (m ∷ post))
              (sym (ap (λ (b : Mbxcb). b.headmsg) (upd_self k.mbxcb id c)))
              (
                refl,
                z,
                Linked-upd k.nextmsg m (address post) (f m) post n (
                    subst (λ q. Linked k.nextmsg q post)
                      (address-Linked k.nextmsg a.headmsg post l
                        ∙ sym (upd_self k.nextmsg m (address post)))
                      l),
              );
        distinct = (n, h.distinct);
      }
  linked_in-MsgChain (x ∷ pre) post z n h =
      let q = last_of x pre in
      let k1 = record k { nextmsg = upd k.nextmsg m (address post) } in
      let c : Mbxcb = record (k.mbxcb id) { headmsg = m } in
      let a = (k.mbxcb id).headmsg in
      record {
        linked =
            subst (λ (k' : Kernel). Linked k'.nextmsg (k'.mbxcb id).headmsg (x ∷ pre ++ m ∷ post))
              (sym (
                if_false (q == null) (set_mbxcb id c k1)
                  (record k1 { nextmsg = upd k1.nextmsg q m })
                  (==_ne q null (last_of-Linked k.nextmsg a x pre post h.linked))))
              (spliced-Linked k.nextmsg a x m pre post z n h.distinct h.linked);
        distinct = Distinct-insert m (x ∷ pre) post h.distinct n;
      }

-- The message in its place: behind those of the same or a smaller number of priority, before the others.
pub record Inserted (id m : ℕ) (ms : List ℕ) (k k' : Kernel) : Type 0 where
  pub pre : List ℕ
  pub post : List ℕ
  pub split : ms ≡ pre ++ post
  pub before : All (λ x. msg_order k x ≤ msg_order k m) pre
  pub behind : All (λ x. msg_order k m < msg_order k x) post
  pub chain : MsgChain id k' (pre ++ m ∷ post)
  pub in_order : InPriority (msg_order k) (pre ++ m ∷ post)

-- Where a mailbox holds messages in the order of priorities, a new message is put behind all those of the same or
-- a smaller number of priority and before all others, with a round of fuel for each message and one more.
pub queue_insert_mpri-Inserted :
    (id m fuel : ℕ) (k : Kernel) (ms : List ℕ)
    → m ≢ null
    → NotIn m ms
    → length ms < fuel
    → InPriority (msg_order k) ms
    → MsgChain id k ms
    → (k' : Kernel) × (queue_insert_mpri fuel id m null k ≡ some k') × Inserted id m ms k k'
queue_insert_mpri-Inserted id m fuel k ms z n f s h =
    let r = place id m k fuel null ms f s (k.mbxcb id).headmsg refl h.linked in
    (
      linked_in id m k (last_of null r.pre) r.post,
      r.result,
      record {
        pre = r.pre;
        post = r.post;
        split = r.split;
        before = r.before;
        behind = r.behind;
        chain =
            linked_in-MsgChain id m k r.pre r.post z (subst (NotIn m) r.split n)
              (subst (MsgChain id k) r.split h);
        in_order =
            InPriority-insert (msg_order k) m r.pre r.post
              (subst (InPriority (msg_order k)) r.split s) r.before r.behind;
      },
    )
