-- ===== src/Reservation/Exclusion.antt =====
-- Several callers that reserve one resource.
use ls_dbg.Prelude.{
  ℕ, ◌<◌, ◌≡◌, ◌≢◌, false, true, refl, ap, sym, ◌∙◌, List, [], ◌∷◌, subst, arith, lt→leb_false,
}
use ls_dbg.Kernel.{Kernel, Machine, err, neg, ebusy}
use ls_dbg.Reservation.{ResourceGroup, group_size, reservation_at}
use ls_dbg.Reservation.Bits.{IsWord}
use ls_dbg.Reservation.Spec.{
  Request, reserve, relinquish, Taken, spec_step, spec_run, spec_reserve, spec_relinquish,
}
use ls_dbg.Reservation.Refine.{AreDistinct, request, run_requests, Holds, request-Steps}
use ls_dbg.Reservation.Run.{run_requests_refines}

-- None of the requests gives index `i` back.
abbrev pub Avoids : ℕ → List Request → Type 0
Avoids i [] = Unit
Avoids i (r ∷ rs) = (r ≢ relinquish i) × Avoids i rs

spec_step_taken :
    (size i : ℕ) (s : Taken) (r : Request)
    → r ≢ relinquish i
    → s i ≡ true
    → (spec_step size s r).1 i ≡ true
unfolding spec_step spec_reserve spec_relinquish
spec_step_taken size i s (reserve j) ne t = ground arith
spec_step_taken size i s (relinquish j) ne t =
    let other : j ≢ i = λ e. ne (ap relinquish e) in ground arith

spec_run_taken :
    (size i : ℕ) (s : Taken) (rs : List Request)
    → Avoids i rs
    → s i ≡ true
    → (spec_run size s rs).1 i ≡ true
unfolding spec_run
spec_run_taken size i s [] a t = t
spec_run_taken size i s (r ∷ rs) a t =
    spec_run_taken size i (spec_step size s r).1 rs a.1 (spec_step_taken size i s r a.0 t)

module _ {W : Type 0} (k : Kernel W) (peek : W → ℕ) (g : ResourceGroup) where
  run_requests_ptr :
      (rs : List Request) (s : Taken) (m : Machine W)
      → IsWord k (reservation_at k m.epu_ptr g) peek
      → AreDistinct k
      → m.reg_acc_lock ≡ false
      → Holds k peek s m.world
      → (run_requests k g rs m).1.epu_ptr ≡ m.epu_ptr
  unfolding run_requests
  run_requests_ptr [] s m law d free hs = refl
  run_requests_ptr (r ∷ rs) s m law d free hs =
      let now = request-Steps k peek g m law s r d free hs in
      run_requests_ptr rs (spec_step (group_size g) s r).1 (request k g r m).1
        (subst (λ p. IsWord k (reservation_at k p g) peek) (sym now.ptr) law) d now.lock now.holds
      ∙ now.ptr

  -- While a resource is taken, and none of the calls since gives it back, a call that reserves it is
  -- refused with EBUSY, whatever calls on its group came in between. The group's register must be a
  -- plain word, the lock free and the ioctl numbers distinct.
  pub taken_stays_busy :
      (rs : List Request) (s : Taken) (m : Machine W) (i : ℕ)
      → IsWord k (reservation_at k m.epu_ptr g) peek
      → AreDistinct k
      → m.reg_acc_lock ≡ false
      → Holds k peek s m.world
      → i < group_size g
      → s i ≡ true
      → Avoids i rs
      → (request k g (reserve i) (run_requests k g rs m).1).0 ≡ err (neg ebusy)
  unfolding spec_step spec_reserve
  taken_stays_busy rs s m i law d free hs l t avoids =
      let (same, holds, lock) = run_requests_refines k peek g rs s m law d free hs in
      let law' =
        subst (λ p. IsWord k (reservation_at k p g) peek)
          (sym (run_requests_ptr rs s m law d free hs)) law in
      let last =
        request-Steps k peek g (run_requests k g rs m).1 law' (spec_run (group_size g) s rs).1
          (reserve i) d lock holds in
      last.same
      ∙ rw (lt→leb_false (group_size g) i l, spec_run_taken (group_size g) i s rs avoids t) refl
