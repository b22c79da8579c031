-- ===== src/Reservation.antt =====
-- ls-dbg/module/reg_access.c: `resource_reserve`, the reservation registers of the EPU, one bit to
-- a resource.
pub mod Words
pub mod Bits
pub mod Spec
pub mod Refine
pub mod Run
pub mod Exclusion
pub mod Ioctl
pub mod Fine
use ls_dbg.Prelude.{
  ℕ, ◌+◌, ◌-◌, ◌*◌, ◌%◌, ◌^◌, bit_and, bit_or, ◌==◌, not, leb, ltb, if◌then◌else◌, Option, none,
  some,
}
use ls_dbg.Bits.{has, complement32}
use ls_dbg.Memory.{Memory, load}
use ls_dbg.Kernel.{
  Kernel, Machine, Driver, Outcome, ok, err, hang, pure, fail, and_then, reg_acc_locked, neg, eperm,
  efault, ebusy, einval, enotty,
}
use ls_dbg.TraceIp.{no_of_counters, no_of_scu_events, no_of_counter_groups, no_resrv_regs}

-- `enum RESOURCE_GROUP_ID`; any other value is refused by the code.
pub data ResourceGroup : Type 0 where
  epu_counter epu_group scu_event gdpescr : ResourceGroup

unfoldable pub group_of_id : ℕ → Option ResourceGroup
group_of_id id =
    if id == 0
    then some epu_counter
    else if id == 1
    then some epu_group
    else if id == 2
    then some scu_event
    else if id == 3
    then some gdpescr
    else none

-- How many resources a group has, by the bound that the code checks the index against.
unfoldable pub group_size : ResourceGroup → ℕ
group_size epu_counter = no_of_counters
group_size epu_group = no_of_counter_groups
group_size scu_event = no_of_scu_events
group_size gdpescr = no_of_scu_events

-- LS_DBG_EPU_CNTR_RES_OFFSET_IND and its like
unfoldable pub group_reg : ResourceGroup → ℕ
group_reg epu_counter = 0
group_reg epu_group = 4
group_reg scu_event = 8
group_reg gdpescr = 32

-- The offset of `eprsrv` in `struct epu_v2`
abbrev pub eprsrv_offset : ℕ
eprsrv_offset = 0xF00

-- `struct resource_reservation`, packed: 12 bytes
pub record ResourceReservation : Type 0 where
  pub resource_grp_id : ℕ
  pub res_index : ℕ
  pub res_usage : ℕ

abbrev pub resource_reservation_size : ℕ
resource_reservation_size = 12

unfoldable pub decode_reservation : Memory → ResourceReservation
decode_reservation bytes = record {
  resource_grp_id = load 4 bytes 0;
  res_index = load 4 bytes 4;
  res_usage = load 4 bytes 8;
}

module _ {W : Type 0} (k : Kernel W) where
  -- `&ls_dbg_epu_ptr->eprsrv[EPU_V2_NO_RESRV_REGS - 1 - IND]`
  unfoldable pub reservation_at : ℕ → ResourceGroup → ℕ
  unfolding group_reg
  reservation_at epu_ptr g =
      (epu_ptr + (eprsrv_offset + 4 * (no_resrv_regs - 1 - group_reg g))) % 2 ^ 32

  abbrev pub res_get_usage : ℕ
  res_get_usage = k.iowr b'Z' 95 resource_reservation_size

  abbrev pub res_reserve : ℕ
  res_reserve = k.iowr b'Z' 96 resource_reservation_size

  abbrev pub res_relinq : ℕ
  res_relinq = k.iowr b'Z' 97 resource_reservation_size

  -- The critical section of LS_DBG_RES_RESERVE; the mask is `1 << res_index`.
  unfoldable pub reserve_bit : ℕ → ℕ → Driver W (Unit {0})
  reserve_bit reg mask m =
      let (prev_val, world) = k.ioread32 reg m.world in
      if has prev_val mask
      then (err (neg ebusy), record m { world = world })
      else (ok tt, record m { world = k.iowrite32 (bit_or prev_val mask) reg world })

  -- The critical section of LS_DBG_RES_RELINQ
  unfoldable pub relinquish_bit : ℕ → ℕ → Driver W (Unit {0})
  relinquish_bit reg mask m =
      let (prev_val, world) = k.ioread32 reg m.world in
      if bit_and prev_val mask == 0 then (err (neg eperm), record m { world = world }) else (
        ok tt,
        record m { world = k.iowrite32 (bit_and prev_val (complement32 mask)) reg world },
      )

  unfoldable pub get_usage : ℕ → ℕ → Driver W (Unit {0})
  get_usage reg res_usage m =
      let (val, world) = k.ioread32 reg m.world in
      let (ret, world') = k.put_user 4 val res_usage world in
      if res_usage == 0
      then (err (neg einval), m)
      else if ret == 0
      then (ok tt, record m { world = world' })
      else (err (neg efault), record m { world = world' })

  -- The second switch, for a group and index that the first one accepts.
  unfoldable pub reserve_command : ℕ → ResourceReservation → ResourceGroup → Driver W (Unit {0})
  unfolding reservation_at reserve_bit relinquish_bit get_usage
  reserve_command cmd rr g m =
      let reg = reservation_at m.epu_ptr g in
      let mask = 2 ^ rr.res_index in
      if cmd == res_reserve
      then reg_acc_locked (reserve_bit reg mask) m
      else if cmd == res_relinq
      then reg_acc_locked (relinquish_bit reg mask) m
      else if cmd == res_get_usage
      then get_usage reg rr.res_usage m
      else (err (neg enotty), m)

  unfoldable pub reserve_in : ℕ → ResourceReservation → Option ResourceGroup → Driver W (Unit {0})
  unfolding reserve_command group_size
  reserve_in cmd rr none m = (err (neg einval), m)
  reserve_in cmd rr (some g) m =
      if leb (group_size g) rr.res_index then (err (neg einval), m) else reserve_command cmd rr g m

  unfoldable pub reserve_copied : ℕ → Option Memory → Driver W (Unit {0})
  unfolding reserve_in decode_reservation group_of_id
  reserve_copied cmd none m = (err (neg efault), m)
  reserve_copied cmd (some bytes) m =
      let rr = decode_reservation bytes in reserve_in cmd rr (group_of_id rr.resource_grp_id) m

  unfoldable pub resource_reserve : ℕ → ℕ → Driver W (Unit {0})
  unfolding reserve_copied
  resource_reserve cmd arg m =
      reserve_copied cmd (k.copy_from_user resource_reservation_size arg m.world) m
