-- ===== src/ReadyQueue/Sound.antt =====
-- The operations of ready_queue.h keep the bitmap and the highest priority right.
use open_t_kernel.Base.{
  ℕ, ◌≡◌, ◌≢◌, ◌<◌, inl, inr, ◌-◌, refl, sym, ap, ◌∙◌, arith, true, false, ◌==◌, Bool-cases,
  if◌then◌else◌, ==_iff, ==_self, subst, List, [], ◌∷◌, ◌++◌, All, All-map, All-append, All-erase,
  NotIn, NotIn-of_All, erase, erase_of_NotIn, if_rule, fun_ext, dec_lt, ==_ne,
}
use open_t_kernel.Bits.Store.{bit_clr-IsBytes}
use open_t_kernel.Bits.Search1.{bit_search1_w-FirstOne}
use open_t_kernel.Kernel.{Kernel, Tcb, null, num_pri, que_remove_tsk, set_tcb}
use open_t_kernel.ReadyQueue.{
  is_nil, ready_queue_insert, ready_queue_delete, ready_queue_shrink, ready_queue_move_last,
}
use open_t_kernel.ReadyQueue.Frame.{rdy_que-delete, waiting-delete, klockwait-delete}
use open_t_kernel.ReadyQueue.Top.{
  Home, Marks, TopInv, insert-Marks, is_nil-erase, is_nil-append, left-Marks, lower-Marks,
  searched-Marks,
}

-- A store that leaves the priority of a task and its wait for the kernel lock alone.
pub set_tcb-TopInv :
    (t : ℕ) (c : Tcb) (k : Kernel)
    → c.priority ≡ (k.tcb t).priority
    → c.klockwait ≡ (k.tcb t).klockwait
    → TopInv k
    → TopInv (set_tcb t c k)
set_tcb-TopInv t c k p w v = record {
  homes = λ q.
      All-map (Home k q) (Home (set_tcb t c k) q) (k.rdy_que q) (λ u h. ground arith) (v.homes q);
  marks = v.marks;
}

-- A task is put on the queue of its priority.
pub insert-TopInv :
    (t : ℕ) (k : Kernel)
    → TopInv k
    → t ≢ null
    → (k.tcb t).priority < num_pri
    → (k.tcb t).klockwait ≡ false
    → TopInv (ready_queue_insert t k).1
unfolding ready_queue_insert
insert-TopInv t k v z l w = record {
  homes = λ q.
      if_rule (All (Home k' q)) (q == pri) (k.rdy_que pri ++ t ∷ []) (k.rdy_que q)
        (λ e.
          subst (λ x. All (Home k' x) (k.rdy_que pri ++ t ∷ [])) (sym ((==_iff q pri).0 e))
            (All-append (Home k' pri) (k.rdy_que pri) (t ∷ []) (keep_all pri)
              ((z, rw (==_self t) refl, rw (==_self t) w), tt)))
        (λ _. keep_all q);
  marks = insert-Marks t pri k.top_priority k.rdy_que k.bitmap l v.marks;
}
  where
    pri : ℕ
    pri = (k.tcb t).priority

    k' : Kernel
    k' = (ready_queue_insert t k).1

    keep_all : (q : ℕ) → All (Home k' q) (k.rdy_que q)
    keep_all q = All-map (Home k q) (Home k' q) (k.rdy_que q) (λ u h. ground arith) (v.homes q)

-- A task is on no other queue than that of its priority.
pub elsewhere : (t p : ℕ) (k : Kernel) → TopInv k → p ≢ (k.tcb t).priority → NotIn t (k.rdy_que p)
elsewhere t p k v n = NotIn-of_All (Home k p) t (k.rdy_que p) (λ h. n (sym h.1)) (v.homes p)

module _ (t : ℕ) (k : Kernel) (v : TopInv k) (l : (k.tcb t).priority < num_pri) where
  abbrev p : ℕ
  p = (k.tcb t).priority

  abbrev que' : ℕ → List ℕ
  que' q = erase t (k.rdy_que q)

  others : (q : ℕ) → q ≢ p → que' q ≡ k.rdy_que q
  others q n = erase_of_NotIn t (k.rdy_que q) (elsewhere t q k v n)

  homes_left : (q : ℕ) → All (Home k q) (que' q)
  homes_left q = All-erase (Home k q) t (k.rdy_que q) (v.homes q)

  -- The end of ready_queue_delete, on the queues without the task.
  shrink-Marks :
      let k2 = que_remove_tsk t k in
      let k' = ready_queue_shrink p k2 in Marks k'.rdy_que k'.bitmap k'.top_priority
  unfolding que_remove_tsk ready_queue_shrink
  shrink-Marks =
      let m = v.marks in
      let fewer = is_nil-erase t (k.rdy_que p) in
      elim (Bool-cases (is_nil (que' p))) [
        | inr f ↦ rw f (left-Marks p k.top_priority k.rdy_que que' k.bitmap l m others fewer f)
        | inl f ↦ elim (Bool-cases (p == k.top_priority)) [
          | inr e ↦
              rw (f, e)
                (lower-Marks p k.top_priority k.rdy_que que' k.bitmap l m others fewer f
                  (λ x. absurd (ground arith)))
          | inl e ↦
              rw (f, e)
                (searched-Marks p k.top_priority k.rdy_que que' k.bitmap l m others fewer _ f
                  ((==_iff _ _).0 e)
                  (bit_search1_w-FirstOne _ p (num_pri - p) (bit_clr-IsBytes k.bitmap m.bytes p)
                    (omega arith)))
        ]
      ]

-- A task leaves the ready queue.
pub delete-TopInv :
    (t : ℕ) (k : Kernel) → TopInv k → (k.tcb t).priority < num_pri → TopInv (ready_queue_delete t k)
unfolding ready_queue_delete que_remove_tsk
delete-TopInv t k v l = record {
  homes = λ q. subst (All (Home (ready_queue_delete t k) q)) (sym (rdy_que-delete t k q)) (
      All-map (Home k q) (Home (ready_queue_delete t k) q) (erase t (k.rdy_que q))
        (λ u h. (h.0, ap (λ w. w.4) (waiting-delete t k u) ∙ h.1, klockwait-delete t k u h.2))
        (homes_left t k v l q));
  marks = elim (Bool-cases (k.tcb t).klockwait) [
    | inr e ↦ rw e (shrink-Marks t unlocked (record { homes = v.homes; marks = v.marks }) l)
    | inl e ↦
        rw e (subst (λ x. Marks x k.bitmap k.top_priority) (sym (fun_ext (absent_from e))) v.marks)
  ];
}
  where
    unlocked : Kernel
    unlocked = record k { klocktsk = if k.klocktsk == t then null else k.klocktsk }

    absent_from : (k.tcb t).klockwait ≡ true → (q : ℕ) → erase t (k.rdy_que q) ≡ k.rdy_que q
    absent_from e q =
        erase_of_NotIn t (k.rdy_que q)
          (NotIn-of_All (Home k q) t (k.rdy_que q) (λ h. let x = sym e ∙ h.2 in cc) (v.homes q))

-- A task on the ready queue goes to the end of its line.
pub move_last-TopInv :
    (t : ℕ) (k : Kernel)
    → TopInv k
    → Home k (k.tcb t).priority t
    → is_nil (k.rdy_que (k.tcb t).priority) ≡ false
    → TopInv (ready_queue_move_last t k).1
unfolding ready_queue_move_last que_remove_tsk
move_last-TopInv t k v h f = record {
  homes = λ q.
      if_rule (All (Home k' q)) (q == pri) (erase t (k.rdy_que pri) ++ t ∷ [])
        (erase t (k.rdy_que q))
        (λ e.
          subst (λ x. All (Home k' x) (erase t (k.rdy_que pri) ++ t ∷ []))
            (sym ((==_iff q pri).0 e))
            (All-append (Home k' pri) (erase t (k.rdy_que pri)) (t ∷ []) (kept pri)
              (moved t pri h, tt)))
        (λ _. kept q);
  marks =
      left-Marks pri k.top_priority k.rdy_que _ k.bitmap below v.marks others'
        (λ x. let y = sym x ∙ f in cc)
        (rw (==_self pri) (is_nil-append t (erase t (k.rdy_que pri))));
}
  where
    pri : ℕ
    pri = (k.tcb t).priority

    k' : Kernel
    k' = (ready_queue_move_last t k).1

    below : pri < num_pri
    below = elim (dec_lt pri num_pri) [
      | yes l ↦ l
      | no n ↦ let x = sym (v.marks.levels pri (omega arith)) ∙ f in cc
    ]

    moved : (u q : ℕ) → Home k q u → Home k' q u
    moved u q h = ground arith

    kept : (q : ℕ) → All (Home k' q) (erase t (k.rdy_que q))
    kept q =
        All-map (Home k q) (Home k' q) (erase t (k.rdy_que q)) (λ u. moved u q)
          (homes_left t k v below q)

    others' : (q : ℕ) → q ≢ pri → k'.rdy_que q ≡ k.rdy_que q
    others' q n = rw (==_ne q pri n) (others t k v below q n)
