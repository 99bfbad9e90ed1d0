-- ===== src/MemPool/Tests.antt =====
-- A pool of three blocks of 16 bytes at address 4096, of which the first two are in use.
use open_t_kernel.Base.{ℕ, ◌≡◌, refl, arith, [], ◌∷◌, Option, some, none}
use open_t_kernel.Base.Int.{pos}
use open_t_kernel.Kernel.{Kernel, Mpfcb, Er, e_ok, e_tmout}
use open_t_kernel.Example.{kernel}
use open_t_kernel.Klock.{lock_obj, unlock_obj}
use open_t_kernel.Wait.{gcb_make_wait_with_diswai}
use open_t_kernel.MemPool.{
  Cmpf, new_mpfcb, mpf_get, mpf_take, mpf_wait, mpf_rel, mpf_give, mpf_free, tk_get_mpf_u,
  tk_rel_mpf,
}
use open_t_kernel.MemPool.Blocks.{PoolHolds, new_mpfcb-PoolHolds}
use open_t_kernel.MemPool.Calls.{Got, Returned, mpf_get-Got, mpf_rel-Returned}

abbrev pool : Mpfcb
pool = record {
  mpfid = 1;
  exinf = 0;
  mpfatr = 0;
  mpfcnt = 3;
  blfsz = 16;
  mpfsz = 48;
  frbcnt = 1;
  mempool = 4096;
  unused = 4128;
  freelist = 0;
}

abbrev pooled : Kernel
pooled = record kernel { mpfcb = λ i. pool }

holds : PoolHolds pool kernel.next_free 2 [] (4112 ∷ 4096 ∷ [])
holds = record {
  chain = refl;
  distinct = (((λ p. ground arith), tt), (tt, tt));
  carved = ((1, omega arith, refl), ((0, omega arith, refl), tt));
  total = refl;
  unused_at = refl;
  count = refl;
  free_few = omega arith;
  whole = refl;
  room = omega arith;
  based = omega arith;
  sized = omega arith;
  few = omega arith;
}

mpf_get-Got_example : Got 1 pooled (4112 ∷ 4096 ∷ []) (mpf_get 1 (pos 0) pooled)
mpf_get-Got_example = mpf_get-Got 1 2 (pos 0) pooled [] (4112 ∷ 4096 ∷ []) holds

mpf_rel-Returned_example :
    ((mpf_rel 1 4096 pooled).0 ≡ e_ok)
    × Returned 1 2 4096 [] (4112 ∷ []) [] [] (mpf_rel 1 4096 pooled).1
mpf_rel-Returned_example =
    mpf_rel-Returned 1 2 4096 pooled [] (4112 ∷ []) [] (λ p. ground arith) holds

abbrev packet : Cmpf
packet = record { exinf = 0; mpfatr = 0; mpfcnt = pos 3; blfsz = pos 14 }

new_mpfcb-PoolHolds_example : PoolHolds (new_mpfcb 1 4096 packet) kernel.next_free 0 [] []
new_mpfcb-PoolHolds_example =
    new_mpfcb-PoolHolds 1 4096 packet kernel.next_free (omega arith) (omega arith) (omega arith)
      (omega arith)

-- 65537 blocks of 65536 bytes: the size of the area turns over, and one block is allocated.
turned_over :
    (new_mpfcb 1 4096 (record packet { mpfcnt = pos 65537; blfsz = pos 65536 })).mpfsz ≡ 65536
unfolding new_mpfcb
turned_over = refl

-- The third block is given out; the first is returned, and is the next to be given out.
unfoldable third : Option (Er × Option ℕ) × Kernel
unfolding tk_get_mpf_u mpf_get mpf_take unlock_obj lock_obj
third = tk_get_mpf_u (pos 1) (pos 0) pooled

unfoldable again : Option (Er × Option ℕ) × Kernel
unfolding third tk_get_mpf_u tk_rel_mpf mpf_get mpf_rel mpf_give mpf_free mpf_take unlock_obj
    lock_obj
again = tk_get_mpf_u (pos 1) (pos 0) (tk_rel_mpf (pos 1) 4096 third.1).1

taken : third.0 ≡ some (e_ok, some 4128)
unfolding third tk_get_mpf_u mpf_get mpf_take unlock_obj lock_obj
taken = refl

taken_again : again.0 ≡ some (e_ok, some 4096)
unfolding again third tk_get_mpf_u tk_rel_mpf mpf_get mpf_rel mpf_give mpf_free mpf_take unlock_obj
    lock_obj
taken_again = refl

-- The fourth request polls in vain, and its time-out is recorded.
refused : (tk_get_mpf_u (pos 1) (pos 0) third.1).0 ≡ some (e_tmout, none)
unfolding third tk_get_mpf_u mpf_get mpf_take mpf_wait unlock_obj lock_obj gcb_make_wait_with_diswai
refused = refl
