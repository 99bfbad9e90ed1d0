-- ===== src/MessageBuf/Wakeup.antt =====
-- kernel/tkernel/src/messagebuf.c: mbf_wakeup takes the messages of the tasks that wait to send, in
-- their order, as long as there is room.
use open_t_kernel.Base.{
  ℕ, ◌≡◌, ◌<◌, refl, sym, ap, ap₂, ◌∙◌, subst, true, false, Bool-cases, inl, inr, List, [], ◌∷◌,
  ◌++◌, All, All-map, ◌^◌, map, ==_self,
}
use mathlib.Core.List.{append_assoc, append-nil}
use open_t_kernel.Kernel.{Kernel, smbf_msg, smbf_msgsz}
use open_t_kernel.Wait.{wait_release_ok}
use open_t_kernel.Wait.Frame.{wait_release_ok-Aside}
use open_t_kernel.Wait.Fields.{wait_release_ok-Fields}
use open_t_kernel.MsgRing.{mbf_free, msg_to_mbf}
use open_t_kernel.MsgRing.Stored.{Message, Holds}
use open_t_kernel.MsgRing.Store.{msg_to_mbf-Holds}
use open_t_kernel.MessageBuf.{mbf_accept, mbf_wakeup, set_mbfcb}

-- The message buffers, and what tasks wait for, stay as they are.
abbrev Kept : Kernel → Kernel → Type 0
Kept k k' = (k'.mbfcb ≡ k.mbfcb) × ((u : ℕ) → (k'.tcb u).winfo ≡ (k.tcb u).winfo)

Kept-refl : (k : Kernel) → Kept k k
Kept-refl k = (refl, λ u. refl)

Kept-trans : (a b c : Kernel) → Kept a b → Kept b c → Kept a c
Kept-trans a b c s t = (t.0 ∙ s.0, λ u. t.1 u ∙ s.1 u)

wait_release_ok-Kept : (t : ℕ) (k : Kernel) → Kept k (wait_release_ok t k)
wait_release_ok-Kept t k = (
  wait_release_ok-Aside (λ k'. k'.mbfcb) (λ k' a b c d e f g h i l m n o p q. refl) t k,
  wait_release_ok-Fields (λ c. c.winfo) (λ c s n e. refl) t k,
)

-- What a task waits to send.
abbrev pub message_of : Kernel → ℕ → Message
message_of k t = record { size = smbf_msgsz (k.tcb t).winfo; content = smbf_msg (k.tcb t).winfo }

-- Its size is an INT.
abbrev pub Sends : Kernel → ℕ → Type 0
Sends k t = smbf_msgsz (k.tcb t).winfo < 2 ^ 31

-- Of the tasks of the line, `served` have had their messages stored behind `ms`, and the next message
-- does not fit.
abbrev pub NoRoom : ℕ → Kernel → Kernel → List ℕ → Type 0
NoRoom id k k' [] = Unit
NoRoom id k k' (t ∷ ts) = mbf_free (k'.mbfcb id) (smbf_msgsz (k.tcb t).winfo) ≡ false

pub record Accepted (id : ℕ) (k k' : Kernel) (ms : List Message) (line served waiting : List ℕ)
    : Type 0 where
  pub split : line ≡ served ++ waiting
  pub holds : Holds (k'.mbfcb id) (ms ++ map (message_of k) served)
  pub no_room : NoRoom id k k' waiting

module _ (id : ℕ) where
  abbrev stored_in : ℕ → Kernel → Kernel
  stored_in t k =
      set_mbfcb id (msg_to_mbf (k.mbfcb id) (smbf_msg (k.tcb t).winfo) (smbf_msgsz (k.tcb t).winfo))
        k

  accept_buffer :
      (t : ℕ) (k : Kernel)
      → (mbf_accept id t k).mbfcb id
        ≡ msg_to_mbf (k.mbfcb id) (smbf_msg (k.tcb t).winfo) (smbf_msgsz (k.tcb t).winfo)
  unfolding mbf_accept
  accept_buffer t k =
      ap (λ f. f id) (wait_release_ok-Kept t (stored_in t k)).0 ∙ rw (==_self id) refl

  accept_winfo : (t : ℕ) (k : Kernel) (u : ℕ) → ((mbf_accept id t k).tcb u).winfo ≡ (k.tcb u).winfo
  unfolding mbf_accept
  accept_winfo t k u = (wait_release_ok-Kept t (stored_in t k)).1 u

  same_messages :
      (t : ℕ) (k : Kernel) (ts : List ℕ)
      → map (message_of (mbf_accept id t k)) ts ≡ map (message_of k) ts
  same_messages t k [] = refl
  same_messages t k (u ∷ ts) =
      ap₂ (λ w rest. record { size = smbf_msgsz w; content = smbf_msg w } ∷ rest)
        (accept_winfo t k u) (same_messages t k ts)

  same_room :
      (t : ℕ) (k k' : Kernel) (ts : List ℕ)
      → NoRoom id (mbf_accept id t k) k' ts
      → NoRoom id k k' ts
  same_room t k k' [] h = tt
  same_room t k k' (u ∷ ts) h =
      subst (λ w. mbf_free (k'.mbfcb id) (smbf_msgsz w) ≡ false) (accept_winfo t k u) h

  keep_going :
      (t : ℕ) (ts : List ℕ) (k : Kernel)
      → mbf_free (k.mbfcb id) (smbf_msgsz (k.tcb t).winfo) ≡ true
      → mbf_wakeup id (t ∷ ts) k ≡ mbf_wakeup id ts (mbf_accept id t k)
  unfolding mbf_wakeup
  keep_going t ts k e = rw e refl

  give_up :
      (t : ℕ) (ts : List ℕ) (k : Kernel)
      → mbf_free (k.mbfcb id) (smbf_msgsz (k.tcb t).winfo) ≡ false
      → mbf_wakeup id (t ∷ ts) k ≡ k
  unfolding mbf_wakeup
  give_up t ts k e = rw e refl

  none_there : (k : Kernel) → mbf_wakeup id [] k ≡ k
  unfolding mbf_wakeup
  none_there k = refl

-- Where a message buffer holds the messages `ms` and the sizes of the messages to send are below
-- 2 ^ 31, mbf_wakeup puts the messages of the first tasks of the line of senders behind them, each
-- whole and in the order of the line, and stops at the first message for which there is no room: it
-- does not pass a task over for a later one with a shorter message.
pub mbf_wakeup-Accepted :
    (id : ℕ) (line : List ℕ) (k : Kernel) (ms : List Message)
    → Holds (k.mbfcb id) ms
    → All (Sends k) line
    → (served : List ℕ) × (waiting : List ℕ) × Accepted id k
        (mbf_wakeup id line k)
        ms
        line
        served
        waiting
mbf_wakeup-Accepted id [] k ms h a = (
  [],
  [],
  rw (none_there id k) (record {
    split = refl;
    holds = subst (Holds (k.mbfcb id)) (sym (append-nil ms)) h;
    no_room = tt;
  }),
)
mbf_wakeup-Accepted id (t ∷ ts) k ms h a =
    elim (Bool-cases (mbf_free (k.mbfcb id) (smbf_msgsz (k.tcb t).winfo))) [
      | inr e ↦ (
        [],
        t ∷ ts,
        rw (give_up id t ts k e) (record {
          split = refl;
          holds = subst (Holds (k.mbfcb id)) (sym (append-nil ms)) h;
          no_room = e;
        }),
      )
      | inl e ↦
          let k1 = mbf_accept id t k in
          let stored =
            msg_to_mbf-Holds (k.mbfcb id) ms (smbf_msgsz (k.tcb t).winfo) (smbf_msg (k.tcb t).winfo)
              h a.0 e in
          let h1 =
            subst (λ m. Holds m (ms ++ message_of k t ∷ [])) (sym (accept_buffer id t k)) stored in
          let (served, waiting, r) = mbf_wakeup-Accepted id ts k1 (ms ++ message_of k t ∷ []) h1 (
            All-map (Sends k) (Sends k1) ts
              (λ u s. subst (λ w. smbf_msgsz w < 2 ^ 31) (sym (accept_winfo id t k u)) s) a.1) in
          (
            t ∷ served,
            waiting,
            rw (keep_going id t ts k e) (record {
              split = ap (λ x. t ∷ x) r.split;
              holds =
                  subst (Holds ((mbf_wakeup id ts k1).mbfcb id))
                    (ap (λ x. (ms ++ message_of k t ∷ []) ++ x) (same_messages id t k served)
                      ∙ append_assoc ms (message_of k t ∷ []) (map (message_of k) served))
                    r.holds;
              no_room = same_room id t k (mbf_wakeup id ts k1) waiting r.no_room;
            }),
          )
    ]
