-- ===== src/Tests/Registers.antt =====
-- Register accesses on the board.
use ls_dbg.Prelude.{
  ◌*◌, ℕ, ◌+◌, ◌-◌, ◌/◌, ◌%◌, ◌^◌, ◌<◌, ◌≤◌, ◌≡◌, ◌≢◌, ◌⊎◌, inl, refl, none, some, arith, ◌==◌, leb,
  if◌then◌else◌,
}
use ls_dbg.Memory.{Memory, load}
use ls_dbg.Kernel.{Kernel, ok, err, neg, efault}
use ls_dbg.TraceIp.{epu, vcount}
use ls_dbg.RegAccess.{reg_add_map}
use ls_dbg.RegAccess.Tables.{reg_find_map, reg_add_map-find}
use ls_dbg.Vcounters.{vcounters_size}
use ls_dbg.Ioctl.{
  decode_reg_access, dbg_read_reg, dbg_write_reg, reg_access_ioctl, ls_dbg_read_reg_internal,
  ls_dbg_write_reg_internal,
}
use ls_dbg.Ioctl.Virtual.{counter_round_trip, write_past_end}
use ls_dbg.Ioctl.User.{ioctl_read_physical, ioctl_write_physical}
use ls_dbg.TraceIp.{
  epctrisr_offset, epecr_offset, epgacr_offset, epctrgcr_offset, epccr_offset, epctr_offset,
  epcapr_offset,
}
use ls_dbg.Reservation.{eprsrv_offset}
use ls_dbg.Layout.{offset_of}
use ls_dbg.Layout.Blocks.Epu.{epu_v2_fields}
use ls_dbg.Layout.Offsets.{offsets_agree}
use ls_dbg.Tests.Board.{board, machine, epu-IsMapped, vcount-IsVcountMapped}

abbrev k : Kernel Memory
k = board 9 0 none

reg_add_map-find_example :
    let (r, m') = reg_add_map k 3 0x2000000 0x1000 machine in
    (r ≡ ok tt)
    × ((j : ℕ) → j ≢ 3 → m'.maps j ≡ machine.maps j)
    × (reg_find_map k m'.maps 3 0x20
        ≡ (if leb 0x1000 0x20 then k.err_ptr efault else (0x2000000 + 0x20) % 2 ^ 32))
reg_add_map-find_example = reg_add_map-find k machine 3 0x2000000 0x1000 0x20 (omega arith)

counter_round_trip_example :
    let (r, m') = ls_dbg_write_reg_internal k vcount 81 0x123456789abcdef0 machine in
    (r ≡ ok tt)
    × (ls_dbg_read_reg_internal k vcount 81 m' ≡ (ok 0x123456789abcdef0, m'))
    × ((x : ℕ) → (x < 0x8000 + 81) ⊎ (0x8000 + 81 + 8 ≤ x) → m'.ram x ≡ machine.ram x)
    × (m' ≡ record machine { ram = m'.ram })
counter_round_trip_example =
    counter_round_trip k machine 81 0x123456789abcdef0 (vcount-IsVcountMapped 9 0 none)
      (omega arith) (omega arith) (omega arith)

write_past_end_example :
    let (r, m') = ls_dbg_write_reg_internal k vcount 580 0x123456789abcdef0 machine in
    (r ≡ ok tt)
    × (m'.ram (0x8000 + vcounters_size) ≡ 0x123456789abcdef0 / 256 ^ (vcounters_size - 580) % 256)
write_past_end_example =
    write_past_end k machine 580 0x123456789abcdef0 (vcount-IsVcountMapped 9 0 none) (omega arith)
      (omega arith)

-- Module 7, the EPU, offset 0x30, buffer 0x100, so many bits.
abbrev call : ℕ → Memory
call bits x =
    if x == 0
    then epu
    else if x == 4
    then 0x30
    else if x == 9
    then 1
    else if x == 16
    then bits
    else 0

abbrev called : ℕ → Kernel Memory
called bits = board 9 0 (some (call bits))

call_32 : (decode_reg_access (call 32)).reg_size ≡ 32
unfolding decode_reg_access load
call_32 = refl

call_size : (decode_reg_access (call 16)).reg_size ≡ 16
unfolding decode_reg_access load
call_size = refl

call_module : (decode_reg_access (call 32)).module_id ≡ epu
unfolding decode_reg_access load
call_module = refl

call_offset : (decode_reg_access (call 32)).offset ≡ 0x30
unfolding decode_reg_access load
call_offset = refl

abbrev call_len : ℕ
call_len = if (decode_reg_access (call 32)).reg_size == 32 then 4 else 8

abbrev after_put : Memory
after_put x =
    if (decode_reg_access (call 32)).buffer % 2 ^ 32 == x
    then 6 % 256 ^ call_len
    else machine.world x

ioctl_read_physical_example :
    reg_access_ioctl (called 32) (dbg_read_reg (called 32)) 0 machine
    ≡ ((if 0 == 0 then ok tt else err (neg efault)), record machine { world = after_put })
ioctl_read_physical_example =
    ioctl_read_physical (called 32) machine 0 0x1000 6 0 (call 32) machine.world after_put
      (omega arith) refl (inl call_32) (omega (arith, call_module))
      (rw call_module (epu-IsMapped 9 0 (some (call 32)))) (omega (arith, call_offset)) refl refl

ioctl_write_physical_example :
    reg_access_ioctl (called 32) (dbg_write_reg (called 32)) 0 machine ≡ (
      ok tt,
      record machine {
        world =
            (called 32).iowrite32
              (6 % 2 ^ 32)
              ((machine.maps (decode_reg_access (call 32)).module_id).base_addr
                + (decode_reg_access (call 32)).offset)
              machine.world;
      },
    )
ioctl_write_physical_example =
    ioctl_write_physical (called 32) machine 0 0x1000 6 (call 32) (omega arith) refl call_32
      (omega (arith, call_module)) (rw call_module (epu-IsMapped 9 0 (some (call 32))))
      (omega (arith, call_offset)) refl

offsets_agree_example :
    (epctrisr_offset ≡ offset_of epu_v2_fields "epctrisr" 0)
    × (epecr_offset + 3 * 4 ≡ offset_of epu_v2_fields "epecr" 3)
    × (epgacr_offset + 3 * 4 ≡ offset_of epu_v2_fields "epgacr" 3)
    × (epctrgcr_offset + 3 * 4 ≡ offset_of epu_v2_fields "epctrgcr" 3)
    × (epccr_offset + 3 * 4 ≡ offset_of epu_v2_fields "epccr" 3)
    × (epctr_offset + 3 * 4 ≡ offset_of epu_v2_fields "epctr" 3)
    × (epcapr_offset + 3 * 4 ≡ offset_of epu_v2_fields "epcapr" 3)
    × (eprsrv_offset + 4 * 3 ≡ offset_of epu_v2_fields "eprsrv" 3)
offsets_agree_example = offsets_agree 3
