-- ===== src/Reservation/Fine.antt =====
-- resource_reserve ends and keeps the driver's tables and locks, whatever the devices and the caller
-- do, if its lock is free.
use ls_dbg.Prelude.{ℕ, ◌^◌, ◌≡◌, false, refl, ◌==◌, Option, none, some}
use ls_dbg.Memory.{Memory}
use ls_dbg.Kernel.{Kernel, Machine, neg, enotty}
use ls_dbg.Fine.{IsFine, Fine, if-IsFine, ok-IsFine, err-IsFine, reg_acc_locked-IsFine}
use ls_dbg.Reservation.{
  reservation_at, res_reserve, res_relinq, res_get_usage, ResourceGroup, ResourceReservation,
  reserve_bit, relinquish_bit, get_usage, reserve_command, reserve_in, reserve_copied,
  resource_reserve, group_of_id, decode_reservation, resource_reservation_size,
}

module _ {W : Type 0} (k : Kernel W) where
  reserve_bit-Fine : (reg mask : ℕ) → Fine (reserve_bit k reg mask)
  unfolding reserve_bit
  reserve_bit-Fine reg mask m = if-IsFine m _ _ _ (err-IsFine m _ _ refl) (ok-IsFine m _ tt refl)

  relinquish_bit-Fine : (reg mask : ℕ) → Fine (relinquish_bit k reg mask)
  unfolding relinquish_bit
  relinquish_bit-Fine reg mask m = if-IsFine m _ _ _ (err-IsFine m _ _ refl) (ok-IsFine m _ tt refl)

  get_usage-Fine : (reg usage : ℕ) → Fine (get_usage k reg usage)
  unfolding get_usage
  get_usage-Fine reg usage m =
      if-IsFine m _ _ _ (err-IsFine m _ _ refl)
        (if-IsFine m _ _ _ (ok-IsFine m _ tt refl) (err-IsFine m _ _ refl))

  reserve_command-IsFine :
      (cmd : ℕ) (rr : ResourceReservation) (g : ResourceGroup) (m : Machine W)
      → m.reg_acc_lock ≡ false
      → IsFine m (reserve_command k cmd rr g m)
  unfolding reserve_command
  reserve_command-IsFine cmd rr g m free =
      let reg = reservation_at k m.epu_ptr g in
      let mask = 2 ^ rr.res_index in
      if-IsFine m (cmd == res_reserve k) _ _
        (reg_acc_locked-IsFine (reserve_bit k reg mask) m free (reserve_bit-Fine reg mask))
        (if-IsFine m (cmd == res_relinq k) _ _
          (reg_acc_locked-IsFine (relinquish_bit k reg mask) m free (relinquish_bit-Fine reg mask))
          (if-IsFine m (cmd == res_get_usage k) _ _ (get_usage-Fine reg rr.res_usage m)
            (err-IsFine m m (neg enotty) refl)))

  reserve_in-IsFine :
      (cmd : ℕ) (rr : ResourceReservation) (g : Option ResourceGroup) (m : Machine W)
      → m.reg_acc_lock ≡ false
      → IsFine m (reserve_in k cmd rr g m)
  unfolding reserve_in
  reserve_in-IsFine cmd rr none m free = err-IsFine m _ _ refl
  reserve_in-IsFine cmd rr (some g) m free =
      if-IsFine m _ _ _ (err-IsFine m _ _ refl) (reserve_command-IsFine cmd rr g m free)

  reserve_copied-IsFine :
      (cmd : ℕ) (bytes : Option Memory) (m : Machine W)
      → m.reg_acc_lock ≡ false
      → IsFine m (reserve_copied k cmd bytes m)
  unfolding reserve_copied
  reserve_copied-IsFine cmd none m free = err-IsFine m _ _ refl
  reserve_copied-IsFine cmd (some bytes) m free =
      let rr = decode_reservation bytes in
      reserve_in-IsFine cmd rr (group_of_id rr.resource_grp_id) m free

  pub resource_reserve-IsFine :
      (cmd arg : ℕ) (m : Machine W)
      → m.reg_acc_lock ≡ false
      → IsFine m (resource_reserve k cmd arg m)
  unfolding resource_reserve
  resource_reserve-IsFine cmd arg m free =
      reserve_copied-IsFine cmd (k.copy_from_user resource_reservation_size arg m.world) m free
