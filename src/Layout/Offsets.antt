-- ===== src/Layout/Offsets.antt =====
-- The offsets of the EPU's registers that the driver writes out (ls-dbg/module/vir_cntrs.h), and the
-- structure of the EPU (ls-common/dcsr_epu_v2.h).
use ls_dbg.Prelude.{ℕ, ◌+◌, ◌*◌, ◌≡◌, refl, arith}
use ls_dbg.TraceIp.{
  epctrisr_offset, epecr_offset, epgacr_offset, epctrgcr_offset, epccr_offset, epctr_offset,
  epcapr_offset,
}
use ls_dbg.Reservation.{eprsrv_offset}
use ls_dbg.Layout.{offset_of}
use ls_dbg.Layout.Blocks.Epu.{epu_v2_fields}

-- For every index, the register that the driver reaches by an offset and four bytes for each element
-- is the element of the structure's field of that name.
pub offsets_agree :
    (i : ℕ)
    → (epctrisr_offset ≡ offset_of epu_v2_fields "epctrisr" 0)
      × (epecr_offset + i * 4 ≡ offset_of epu_v2_fields "epecr" i)
      × (epgacr_offset + i * 4 ≡ offset_of epu_v2_fields "epgacr" i)
      × (epctrgcr_offset + i * 4 ≡ offset_of epu_v2_fields "epctrgcr" i)
      × (epccr_offset + i * 4 ≡ offset_of epu_v2_fields "epccr" i)
      × (epctr_offset + i * 4 ≡ offset_of epu_v2_fields "epctr" i)
      × (epcapr_offset + i * 4 ≡ offset_of epu_v2_fields "epcapr" i)
      × (eprsrv_offset + 4 * i ≡ offset_of epu_v2_fields "eprsrv" i)
unfolding offset_of
offsets_agree i = (
  refl,
  omega arith,
  omega arith,
  omega arith,
  omega arith,
  omega arith,
  omega arith,
  omega arith,
)
