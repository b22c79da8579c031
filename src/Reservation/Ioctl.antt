-- ===== src/Reservation/Ioctl.antt =====
-- Reservations from the ioctl on: what a caller's structure asks for.
use ls_dbg.Prelude.{ap, ◌∙◌, ℕ, ◌≡◌, ◌≢◌, false, true, refl, arith, ◌==◌, ◌||◌, some}
use ls_dbg.Memory.{Memory, load}
use ls_dbg.Kernel.{Kernel, Machine}
use ls_dbg.Reservation.{
  ResourceGroup, epu_counter, epu_group, scu_event, gdpescr, group_size, group_of_id,
  reservation_at, decode_reservation, resource_reservation_size, res_reserve, res_relinq,
  reserve_command, reserve_in, reserve_copied, resource_reserve,
}
use ls_dbg.Reservation.Bits.{IsWord}
use ls_dbg.Reservation.Spec.{Request, reserve, relinquish, Taken, spec_step}
use ls_dbg.Reservation.Refine.{AreDistinct, request, Holds, request-Steps}
use ls_dbg.Ioctl.{dbg_read_reg, dbg_write_reg, reg_access_ioctl}

module _ {W : Type 0} (k : Kernel W) where
  -- The ioctl number of a request
  abbrev pub command : Request → ℕ
  command (reserve i) = res_reserve k
  command (relinquish i) = res_relinq k

  -- The request that a structure and a number make
  abbrev pub index_of : Request → ℕ
  index_of (reserve i) = i
  index_of (relinquish i) = i

  copied :
      (r : Request) (bytes : Memory) (g : ResourceGroup) (m : Machine W)
      → AreDistinct k
      → group_of_id (decode_reservation bytes).resource_grp_id ≡ some g
      → (decode_reservation bytes).res_index ≡ index_of r
      → reserve_copied k (command r) (some bytes) m ≡ request k g r m
  unfolding reserve_copied reserve_in reserve_command request
  copied (reserve i) bytes g m d e q =
      let t : (res_reserve k == res_reserve k) ≡ true = ground arith in rw (e, q, t) refl
  copied (relinquish i) bytes g m d e q =
      let f : (res_relinq k == res_reserve k) ≡ false = ground (arith, d.relinq_ne) in
      let t : (res_relinq k == res_relinq k) ≡ true = ground arith in rw (e, q, f, t) refl

  -- The number of a group in a caller's structure
  abbrev pub group_id : ResourceGroup → ℕ
  group_id epu_counter = 0
  group_id epu_group = 1
  group_id scu_event = 2
  group_id gdpescr = 3

  group_of_id-group_id : (g : ResourceGroup) → group_of_id (group_id g) ≡ some g
  unfolding group_of_id
  group_of_id-group_id epu_counter = refl
  group_of_id-group_id epu_group = refl
  group_of_id-group_id scu_event = refl
  group_of_id-group_id gdpescr = refl

  pub ioctl_request :
      (g : ResourceGroup) (r : Request) (m : Machine W) (arg : ℕ) (bytes : Memory)
      → AreDistinct k
      → command r ≢ dbg_read_reg k
      → command r ≢ dbg_write_reg k
      → k.copy_from_user resource_reservation_size arg m.world ≡ some bytes
      → group_of_id (decode_reservation bytes).resource_grp_id ≡ some g
      → (decode_reservation bytes).res_index ≡ index_of r
      → reg_access_ioctl k (command r) arg m ≡ request k g r m
  unfolding reg_access_ioctl resource_reserve
  ioctl_request g r m arg bytes d no_read no_write e group index =
      let other : (command r == dbg_read_reg k || command r == dbg_write_reg k) ≡ false =
        ground arith in
      rw (other, e) (copied r bytes g m d group index)

  -- An ioctl call whose number asks to reserve or to give back, and whose structure's first four
  -- bytes name a group and the next four an index, takes the step of the set of taken indices: its
  -- result is the step's, and the group's register holds the new set. The register must be a plain
  -- word that holds the set, the lock be free, the structure be readable and the ioctl numbers be
  -- distinct.
  pub ioctl_refines :
      (peek : W → ℕ) (g : ResourceGroup) (r : Request) (s : Taken) (m : Machine W) (arg : ℕ)
      (bytes : Memory)
      → IsWord k (reservation_at k m.epu_ptr g) peek
      → AreDistinct k
      → command r ≢ dbg_read_reg k
      → command r ≢ dbg_write_reg k
      → m.reg_acc_lock ≡ false
      → Holds k peek s m.world
      → k.copy_from_user resource_reservation_size arg m.world ≡ some bytes
      → load 4 bytes 0 ≡ group_id g
      → load 4 bytes 4 ≡ index_of r
      → let (out, m') = reg_access_ioctl k (command r) arg m in
        (out ≡ (spec_step (group_size g) s r).0)
        × Holds k peek (spec_step (group_size g) s r).1 m'.world
  unfolding decode_reservation
  ioctl_refines peek g r s m arg bytes law d no_read no_write free hs e group index =
      let step = request-Steps k peek g m law s r d free hs in
      let named : group_of_id (load 4 bytes 0) ≡ some g =
        ap group_of_id group ∙ group_of_id-group_id g in
      rw (ioctl_request g r m arg bytes d no_read no_write e named index) (step.same, step.holds)
