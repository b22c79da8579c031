-- ===== src/Capture/Group.antt =====
-- The group of an event (EPGACR's CTCC field) and the registers that a capture reads for it.
use ls_dbg.Prelude.{
  ℕ, ◌+◌, ◌-◌, ◌*◌, ◌/◌, ◌%◌, ◌^◌, ◌≤◌, ◌<◌, ◌≡◌, ◌≢◌, false, true, arith, bit_and,
}
use ls_dbg.Bits.{bit_and_0x70, bit_and_7-le}
use ls_dbg.Kernel.{Kernel, IsKernel, Machine, err, vc_locked, neg, efault}
use ls_dbg.TraceIp.{epu, epgacr_offset, epctrgcr_offset}
use ls_dbg.RegAccess.Tables.{IsMapped, read_reg_io-mapped, read_reg_io-beyond}
use ls_dbg.Vcounters.{vcntrepecr_offset}
use ls_dbg.Capture.{capture_event, vcntepecr_set, read_epu, group_of, epgacr_ctcc_mask}

module _ {W : Type 0} (k : Kernel W) where
  -- The field is shifted left where it should be shifted right: for any group but 0 the offset of
  -- the group's register is at least 0x4000540, far outside the EPU.
  group_far :
      (rv : ℕ)
      → bit_and rv epgacr_ctcc_mask ≢ 0
      → 0x4000000 ≤ (epctrgcr_offset + group_of k rv * 4) % 2 ^ 32
  unfolding group_of
  group_far rv h = omega (arith, bit_and_0x70 rv, bit_and_7-le (rv / 2 / 2 / 2 / 2))

  -- A capture for an event whose CTCC field is not 0 fails with EFAULT after its first register read
  -- and changes nothing but what that read changes, if the EPU is mapped with at most 64 MiB and the
  -- lock is free.
  pub capture_other_group :
      (m : Machine W) (event val rv : ℕ) (w : W)
      → IsKernel k
      → IsMapped k m.maps epu 0x1000
      → (m.maps epu).size ≤ 0x4000000
      → m.vc_lock ≡ false
      → event < 16
      → k.ioread32 ((m.maps epu).base_addr + (epgacr_offset + event * 4)) m.world ≡ (rv, w)
      → bit_and (rv % 2 ^ 32) epgacr_ctcc_mask ≢ 0
      → vcntepecr_set k (k.vcnt_addr + vcntrepecr_offset + event * 4) val m
        ≡ (err (neg efault), record m { world = w })
  unfolding vcntepecr_set vc_locked capture_event read_epu
  capture_other_group m event val rv w law mapped small free l e field =
      let at : (k.vcnt_addr + vcntrepecr_offset + event * 4 - (k.vcnt_addr + vcntrepecr_offset)) / 4
          ≡ event =
        omega arith in
      rw (
        at,
        free,
        read_reg_io-mapped k (record m { vc_lock = true }) epu 0x1000 (epgacr_offset + event * 4)
            (omega arith) mapped (omega arith),
        e,
        read_reg_io-beyond k (record m { world = w; vc_lock = true }) epu
            ((epctrgcr_offset + group_of k (rv % 2 ^ 32) * 4) % 2 ^ 32) law (omega arith)
            (omega (arith, group_far (rv % 2 ^ 32) field)),
      )
