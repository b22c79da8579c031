-- ===== src/Reservation/Run.antt =====
-- Sequences of reservation calls against the set of `Spec`.
use ls_dbg.Prelude.{ℕ, ◌≡◌, false, refl, sym, List, [], ◌∷◌, subst}
use mathlib.Core.Path.{ap₂}
use ls_dbg.Kernel.{Kernel, Machine}
use ls_dbg.Reservation.{ResourceGroup, group_size, reservation_at}
use ls_dbg.Reservation.Bits.{IsWord}
use ls_dbg.Reservation.Spec.{Request, Taken, spec_step, spec_run}
use ls_dbg.Reservation.Refine.{AreDistinct, request, run_requests, Holds, request-Steps}

module _ {W : Type 0} (k : Kernel W) (peek : W → ℕ) (g : ResourceGroup) where
  -- Any sequence of reserve and relinquish calls on a group, with any indices, gives the same
  -- results as the set of taken indices: success, EBUSY, EPERM or EINVAL; and in the end the
  -- group's register holds the set and the lock is free. The register must be a plain word, the
  -- lock free and the register hold the set at the start, and the ioctl numbers be distinct.
  pub run_requests_refines :
      (rs : List Request) (s : Taken) (m : Machine W)
      → IsWord k (reservation_at k m.epu_ptr g) peek
      → AreDistinct k
      → m.reg_acc_lock ≡ false
      → Holds k peek s m.world
      → ((run_requests k g rs m).0 ≡ (spec_run (group_size g) s rs).0)
        × Holds k peek (spec_run (group_size g) s rs).1 (run_requests k g rs m).1.world
        × ((run_requests k g rs m).1.reg_acc_lock ≡ false)
  unfolding run_requests spec_run
  run_requests_refines [] s m law d free hs = (refl, hs, free)
  run_requests_refines (r ∷ rs) s m law d free hs =
      let now = request-Steps k peek g m law s r d free hs in
      let rest =
        run_requests_refines rs (spec_step (group_size g) s r).1 (request k g r m).1
          (subst (λ p. IsWord k (reservation_at k p g) peek) (sym now.ptr) law) d now.lock
          now.holds in
      (ap₂ ◌∷◌ now.same rest.0, rest.1, rest.2)
