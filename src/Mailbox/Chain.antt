-- ===== src/Mailbox/Chain.antt =====
-- kernel/tkernel/src/mailbox.c: the messages of a mailbox as a list.
use open_t_kernel.Base.{
  ℕ, ◌≡◌, ◌<◌, ◌≤◌, arith, List, [], ◌∷◌, ◌++◌, All, All-map, All-insert, Distinct, Linked, last_of,
}
use open_t_kernel.Kernel.{Kernel}

-- Mailbox `id` holds the messages `ms`, the first to be received first.
pub record MsgChain (id : ℕ) (k : Kernel) (ms : List ℕ) : Type 0 where
  pub linked : Linked k.nextmsg (k.mbxcb id).headmsg ms
  pub distinct : Distinct ms

-- In a mailbox without TA_MPRI, mq_tail is the last message, if there is one.
abbrev pub TailAt : ℕ → Kernel → List ℕ → Type 0
TailAt id k ms = last_of (k.mbxcb id).mq_tail ms ≡ (k.mbxcb id).mq_tail

-- No message comes before one of a smaller number of priority.
abbrev pub InPriority : (ℕ → ℕ) → List ℕ → Type 0
InPriority pri [] = Unit
InPriority pri (x ∷ xs) = All (λ y. pri x ≤ pri y) xs × InPriority pri xs

pub InPriority-insert :
    (pri : ℕ → ℕ) (m : ℕ) (pre post : List ℕ)
    → InPriority pri (pre ++ post)
    → All (λ x. pri x ≤ pri m) pre
    → All (λ x. pri m < pri x) post
    → InPriority pri (pre ++ m ∷ post)
InPriority-insert pri m [] post s a b =
    (All-map (λ x. pri m < pri x) (λ x. pri m ≤ pri x) post (λ x h. omega (arith, h)) b, s)
InPriority-insert pri m (x ∷ pre) post s a b =
    (All-insert (λ y. pri x ≤ pri y) m pre post a.0 s.0, InPriority-insert pri m pre post s.1 a.1 b)

-- Of a chain in the order of priorities, what comes from a message of a larger number on.
pub later :
    (pri : ℕ → ℕ) (p x : ℕ) (xs : List ℕ)
    → p < pri x
    → InPriority pri (x ∷ xs)
    → All (λ y. p < pri y) (x ∷ xs)
later pri p x xs l s =
    (l, All-map (λ y. pri x ≤ pri y) (λ y. p < pri y) xs (λ y h. omega (arith, h, l)) s.0)
