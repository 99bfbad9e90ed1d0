-- ===== src/MemPool/Blocks.antt =====
-- kernel/tkernel/src/mempfix.c: which blocks of a pool are free and which are in use, and what taking and
-- returning a block does to that.
use open_t_kernel.Base.{
  Linked, Linked-upd, ℕ, ◌≡◌, ◌≢◌, ◌<◌, ◌≤◌, ◌+◌, ◌-◌, ◌*◌, ◌%◌, ◌^◌, refl, sym, ap, ◌∙◌, subst,
  arith, false, ◌==◌, ltb, leb, ==_ne, ==_self, List, [], ◌∷◌, ◌++◌, length, length-append, All,
  All-map, All-insert, All-delete, NotIn, NotIn-split, Distinct, NotIn-of_All, Distinct-insert,
  Distinct-delete, upd, upd_self,
}
use native.Mathlib.Nat.{
  add-mul, mul-le-mul_right, mod-eq_of_lt, one-mul, mul-mod_left, zero-mul, mul_comm,
}
use mathlib.Core.List.{append_assoc}
use open_t_kernel.Base.Int.{to_ℕ}
use open_t_kernel.Kernel.{Kernel, Mpfcb, null}
use open_t_kernel.MemPool.{
  mpf_take, mpf_free, set_mpfcb, is_not_block, mempool_end, minsz, new_mpfcb, Cmpf,
}

-- `b` is one of the first `n` blocks of the area.
abbrev pub Carved : Mpfcb → ℕ → ℕ → Type 0
Carved p n b = (i : ℕ) × (i < n) × (b ≡ p.mempool + i * p.blfsz)

-- Of a pool that has given out its first `n` blocks so far, `frees` are on the free list and `outs` in use;
-- all are different, and `frbcnt` counts the blocks that are not in use.
pub record PoolHolds (p : Mpfcb) (next : ℕ → ℕ) (n : ℕ) (frees outs : List ℕ) : Type 0 where
  pub chain : Linked next p.freelist frees
  pub distinct : Distinct (frees ++ outs)
  pub carved : All (Carved p n) (frees ++ outs)
  pub total : length frees + length outs ≡ n
  pub unused_at : p.unused ≡ p.mempool + n * p.blfsz
  pub count : p.frbcnt + length outs ≡ p.mpfcnt
  pub free_few : length frees ≤ p.frbcnt
  pub whole : p.mpfsz ≡ p.mpfcnt * p.blfsz
  pub room : p.mempool + p.mpfsz < 2 ^ 32
  pub based : 0 < p.mempool
  pub sized : 0 < p.blfsz
  pub few : p.mpfcnt < 2 ^ 31

-- The next block of the unused area is none of the carved ones.
block_below : (p : Mpfcb) (n b : ℕ) → 0 < p.blfsz → Carved p n b → b < p.mempool + n * p.blfsz
block_below p n b z (i, l, e) =
    let m : (1 + i) * p.blfsz ≤ n * p.blfsz = mul-le-mul_right p.blfsz (omega (arith, l)) in
    let a : (1 + i) * p.blfsz ≡ p.blfsz + i * p.blfsz =
      add-mul 1 i p.blfsz ∙ ap (λ x. x + i * p.blfsz) (one-mul p.blfsz) in
    omega (arith, m, a, e, z)

Carved-more : (p : Mpfcb) (n b : ℕ) → Carved p n b → Carved p (1 + n) b
Carved-more p n b (i, l, e) = (i, omega (arith, l), e)

-- The first block of the free list comes into use.
abbrev popped : Mpfcb → ℕ → Mpfcb
popped p next = record p { freelist = next; frbcnt = p.frbcnt - 1 }

popped-PoolHolds :
    (p : Mpfcb) (next : ℕ → ℕ) (n b : ℕ) (bs outs : List ℕ)
    → PoolHolds p next n (b ∷ bs) outs
    → PoolHolds (popped p (next b)) next n bs (b ∷ outs)
popped-PoolHolds p next n b bs outs h = record {
  chain = h.chain.2;
  distinct = Distinct-insert b bs outs h.distinct.1 h.distinct.0;
  carved = All-insert (Carved p n) b bs outs h.carved.0 h.carved.1;
  total = omega (arith, h.total);
  unused_at = h.unused_at;
  count = omega (arith, h.count, h.free_few);
  free_few = omega (arith, h.free_few);
  whole = h.whole;
  room = h.room;
  based = h.based;
  sized = h.sized;
  few = h.few;
}

-- The next block of the unused area comes into use.
abbrev cut : Mpfcb → Mpfcb
cut p = record p { unused = (p.unused + p.blfsz) % 2 ^ 32; frbcnt = p.frbcnt - 1 }

cut-PoolHolds :
    (p : Mpfcb) (next : ℕ → ℕ) (n : ℕ) (outs : List ℕ)
    → 0 < p.frbcnt
    → PoolHolds p next n [] outs
    → PoolHolds (cut p) next (1 + n) [] (p.unused ∷ outs)
cut-PoolHolds p next n outs z h =
    let m : (1 + n) * p.blfsz ≤ p.mpfcnt * p.blfsz =
      mul-le-mul_right p.blfsz (omega (arith, h.total, h.count, z)) in
    let a : (1 + n) * p.blfsz ≡ p.blfsz + n * p.blfsz =
      add-mul 1 n p.blfsz ∙ ap (λ x. x + n * p.blfsz) (one-mul p.blfsz) in
    record {
      chain = h.chain;
      distinct = (
        NotIn-of_All (Carved p n) p.unused outs
            (λ c. let l = block_below p n p.unused h.sized c in omega (arith, l, h.unused_at))
            h.carved,
        h.distinct,
      );
      carved = (
        (n, omega arith, h.unused_at),
        All-map (Carved p n) (Carved p (1 + n)) outs (Carved-more p n) h.carved,
      );
      total = omega (arith, h.total);
      unused_at =
          mod-eq_of_lt (omega (arith, m, a, h.unused_at, h.whole, h.room))
          ∙ omega (arith, a, h.unused_at);
      count = omega (arith, h.count, z);
      free_few = omega arith;
      whole = h.whole;
      room = h.room;
      based = h.based;
      sized = h.sized;
      few = h.few;
    }

-- A block in use goes to the head of the free list.
abbrev pushed : Mpfcb → ℕ → Mpfcb
pushed p b = record p { freelist = b; frbcnt = (p.frbcnt + 1) % 2 ^ 32 }

pushed-PoolHolds :
    (p : Mpfcb) (next : ℕ → ℕ) (n b : ℕ) (frees xs ys : List ℕ)
    → PoolHolds p next n frees (xs ++ b ∷ ys)
    → PoolHolds (pushed p b) (upd next b p.freelist) n (b ∷ frees) (xs ++ ys)
pushed-PoolHolds p next n b frees xs ys h =
    let l = sym (append_assoc frees xs (b ∷ ys)) in
    let r = append_assoc frees xs ys in
    let d = Distinct-delete b (frees ++ xs) ys (subst Distinct l h.distinct) in
    let c = All-delete (Carved p n) b (frees ++ xs) ys (subst (All (Carved p n)) l h.carved) in
    let off : NotIn b (frees ++ (xs ++ ys)) = subst (NotIn b) r d.1 in
    let e : length (xs ++ b ∷ ys) ≡ 1 + length (xs ++ ys) =
      omega (arith, length-append xs (b ∷ ys), length-append xs ys) in
    let f : p.frbcnt + 1 < 2 ^ 32 = omega (arith, h.few, h.count, e) in
    record {
      chain = (
        refl,
        (λ z. omega (arith, c.0.2, h.based, z)),
        subst (λ q. Linked (upd next b p.freelist) q frees) (sym (upd_self next b p.freelist))
            (Linked-upd next b p.freelist p.freelist frees (NotIn-split b frees (xs ++ ys) off).0
              h.chain),
      );
      distinct = (off, subst Distinct r d.0);
      carved = (c.0, subst (All (Carved p n)) r c.1);
      total = omega (arith, h.total, e);
      unused_at = h.unused_at;
      count = omega (arith, mod-eq_of_lt f, h.count, e);
      free_few = omega (arith, mod-eq_of_lt f, h.free_few);
      whole = h.whole;
      room = h.room;
      based = h.based;
      sized = h.sized;
      few = h.few;
    }

-- Pool `id` of the kernel.
abbrev pub Pool : ℕ → Kernel → ℕ → List ℕ → List ℕ → Type 0
Pool id k n frees outs = PoolHolds (k.mpfcb id) k.next_free n frees outs

take_cut :
    (id : ℕ) (k : Kernel)
    → (k.mpfcb id).freelist ≡ null
    → mpf_take id k ≡ ((k.mpfcb id).unused, set_mpfcb id (cut (k.mpfcb id)) k)
unfolding mpf_take
take_cut id k e = rw (ap (λ x. x == null) e ∙ ==_self null) refl

take_popped :
    (id : ℕ) (k : Kernel)
    → (k.mpfcb id).freelist ≢ null
    → mpf_take id k ≡ (
      (k.mpfcb id).freelist,
      set_mpfcb id (popped (k.mpfcb id) (k.next_free (k.mpfcb id).freelist)) k,
    )
unfolding mpf_take
take_popped id k n = rw (==_ne (k.mpfcb id).freelist null n) refl

set_mpfcb-Pool :
    (id n : ℕ) (p : Mpfcb) (k : Kernel) (frees outs : List ℕ)
    → PoolHolds p k.next_free n frees outs
    → Pool id (set_mpfcb id p k) n frees outs
set_mpfcb-Pool id n p k frees outs h =
    subst (λ q. PoolHolds q k.next_free n frees outs) (sym (upd_self k.mpfcb id p)) h

-- Where a block is counted as free, a block is taken that is not in use.
pub mpf_take-Pool :
    (id n : ℕ) (k : Kernel) (frees outs : List ℕ)
    → 0 < (k.mpfcb id).frbcnt
    → Pool id k n frees outs
    → (n' : ℕ) × (frees' : List ℕ) × Pool id (mpf_take id k).1 n' frees' ((mpf_take id k).0 ∷ outs)
mpf_take-Pool id n k [] outs z h = (
  1 + n,
  [],
  subst (λ r. Pool id r.1 (1 + n) [] (r.0 ∷ outs)) (sym (take_cut id k h.chain))
      (set_mpfcb-Pool id (1 + n) (cut (k.mpfcb id)) k [] ((k.mpfcb id).unused ∷ outs)
        (cut-PoolHolds (k.mpfcb id) k.next_free n outs z h)),
)
mpf_take-Pool id n k (b ∷ bs) outs z h =
    let e = h.chain.0 in
    let p = k.mpfcb id in
    let q = popped-PoolHolds p k.next_free n b bs outs h in
    (
      n,
      bs,
      subst (λ r. Pool id r.1 n bs (r.0 ∷ outs))
          (sym (take_popped id k (λ y. h.chain.1 (sym e ∙ y))))
          (set_mpfcb-Pool id n (popped p (k.next_free p.freelist)) k bs (p.freelist ∷ outs) (
            subst (λ x. PoolHolds (popped p (k.next_free x)) k.next_free n bs (x ∷ outs)) (sym e)
              q)),
    )

-- Returning a block that is in use.
pub mpf_free-Pool :
    (id n b : ℕ) (k : Kernel) (frees xs ys : List ℕ)
    → Pool id k n frees (xs ++ b ∷ ys)
    → Pool id (mpf_free id b k) n (b ∷ frees) (xs ++ ys)
unfolding mpf_free
mpf_free-Pool id n b k frees xs ys h =
    rw (==_self id) (pushed-PoolHolds (k.mpfcb id) k.next_free n b frees xs ys h)

-- The check of tk_rel_mpf lets every block in use pass.
pub block_accepted :
    (p : Mpfcb) (next : ℕ → ℕ) (n b : ℕ) (frees xs ys : List ℕ)
    → PoolHolds p next n frees (xs ++ b ∷ ys)
    → is_not_block p b ≡ false
unfolding is_not_block
block_accepted p next n b frees xs ys h =
    let l = sym (append_assoc frees xs (b ∷ ys)) in
    let (i, m, e) =
      (All-delete (Carved p n) b (frees ++ xs) ys (subst (All (Carved p n)) l h.carved)).0 in
    let q : (1 + i) * p.blfsz ≤ p.mpfcnt * p.blfsz =
      mul-le-mul_right p.blfsz (omega (arith, m, h.total, h.count, h.free_few)) in
    let a : (1 + i) * p.blfsz ≡ p.blfsz + i * p.blfsz =
      add-mul 1 i p.blfsz ∙ ap (λ x. x + i * p.blfsz) (one-mul p.blfsz) in
    let w : (p.mempool + p.mpfsz) % 2 ^ 32 ≡ p.mempool + p.mpfsz = mod-eq_of_lt h.room in
    let d : b - p.mempool ≡ i * p.blfsz = omega (arith, e) in
    let z : (b - p.mempool) % p.blfsz ≡ 0 = ap (λ x. x % p.blfsz) d ∙ mul-mod_left i p.blfsz in
    let lo : ltb b p.mempool ≡ false = ground (arith, e) in
    let hi : leb (mempool_end p) b ≡ false = ground (arith, w, e, q, a, h.whole, h.sized) in
    rw (lo, hi, z) refl

-- A new pool, of an area that ends below 2 ^ 32 and whose size did not turn over, has no block in use and
-- counts all its blocks as free.
pub new_mpfcb-PoolHolds :
    (id mempool : ℕ) (pk : Cmpf) (next : ℕ → ℕ)
    → 0 < mempool
    → 0 < minsz (to_ℕ pk.blfsz)
    → to_ℕ pk.mpfcnt < 2 ^ 31
    → mempool + minsz (to_ℕ pk.blfsz) * to_ℕ pk.mpfcnt < 2 ^ 32
    → PoolHolds (new_mpfcb id mempool pk) next 0 [] []
unfolding new_mpfcb
new_mpfcb-PoolHolds id mempool pk next b z f r =
    let s = minsz (to_ℕ pk.blfsz) in
    let c = to_ℕ pk.mpfcnt in
    let e : (s * c) % 2 ^ 32 ≡ s * c = mod-eq_of_lt (omega (arith, r)) in
    record {
      chain = refl;
      distinct = tt;
      carved = tt;
      total = omega arith;
      unused_at = omega (arith, zero-mul s);
      count = omega arith;
      free_few = omega arith;
      whole = e ∙ mul_comm s c;
      room = omega (arith, e, r);
      based = b;
      sized = z;
      few = f;
    }
