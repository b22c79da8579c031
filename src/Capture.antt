-- ===== src/Capture.antt =====
-- ls-dbg/module/vir_cntrs.c: `vcntepecr_set`, which captures the counters of an event's group, and
-- `vcntepecr_get`. An event is the index of the register that the source finds by pointer
-- arithmetic.
pub mod Fine
pub mod Lock
pub mod Group
pub mod Value
pub mod Slots
pub mod Quiet
pub mod Stray
pub mod Whole
use ls_dbg.Prelude.{
  ℕ, zero, suc, ◌+◌, ◌-◌, ◌*◌, ◌/◌, ◌%◌, ◌^◌, bit_and, bit_or, ◌==◌, ltb, if◌then◌else◌, true,
  false,
}
use ls_dbg.Bits.{has}
use ls_dbg.Memory.{load, store}
use ls_dbg.Kernel.{
  Kernel, Machine, Driver, Outcome, ok, err, hang, pure, and_then, ◌>>=◌, ◌>>◌, vc_locked,
}
use ls_dbg.TraceIp.{
  epu, epctrisr_offset, epecr_offset, epgacr_offset, epctrgcr_offset, epcapr_offset,
}
use ls_dbg.ShiftLoop.{shift_loop}
use ls_dbg.RegAccess.{read_reg_io, write_reg_io}
use ls_dbg.Vcounters.{vcntr_at, vcntrcapt_at, vcntrepecr_offset, update_vcounters}

abbrev pub epgacr_ctcc_mask : ℕ
epgacr_ctcc_mask = 0x70

abbrev pub epgacr_ctcc_shift : ℕ
epgacr_ctcc_shift = 20

abbrev pub epecr_sts_mask : ℕ
epecr_sts_mask = 0x1000000

module _ {W : Type 0} (k : Kernel W) where
  -- `(u32)reg64` after a read of an EPU register
  unfoldable pub read_epu : ℕ → Driver W ℕ
  read_epu offset = do val ← read_reg_io k epu offset; pure (val % 2 ^ 32)

  -- `group_j = (regVal & EPGACR_CTCC_MASK) << EPGACR_CTCC_SHIFT`
  unfoldable pub group_of : ℕ → ℕ
  group_of reg_val = bit_and reg_val epgacr_ctcc_mask * 2 ^ epgacr_ctcc_shift % 2 ^ 32

  -- The first loop's body at a set bit: the low word of the capture register.
  unfoldable pub save_capture : ℕ → Driver W (Unit {0})
  unfolding read_epu
  save_capture i = do
    reg_val ← read_epu (epcapr_offset + i * 4)
    λ m. (ok tt, record m { ram = store 8 m.ram (vcntrcapt_at k i) reg_val })

  -- The first loop. Its result is the final `i`, which the source uses after the loop.
  unfoldable pub save_captures : ℕ → Driver W ℕ
  unfolding shift_loop save_capture
  save_captures epctrgcr = shift_loop save_capture 32 0 epctrgcr

  -- The second loop's body: a captured value below the saved one means a late overflow.
  unfoldable pub note_overflow : ℕ → ℕ → Driver W (Unit {0})
  note_overflow i reg_val m =
      if ltb reg_val (load 8 m.ram (vcntrcapt_at k i))
      then (
        ok tt,
        record m {
          ram = store 8 m.ram (vcntr_at k i) ((load 8 m.ram (vcntr_at k i) + 1) % 2 ^ 64);
        },
      )
      else (ok tt, m)

  unfoldable pub prepend_count : ℕ → ℕ → Driver W (Unit {0})
  prepend_count i reg_val m =
      let high = load 8 m.ram (vcntr_at k i) * 2 ^ 32 % 2 ^ 64 in
      (ok tt, record m { ram = store 8 m.ram (vcntrcapt_at k i) (bit_or high reg_val) })

  unfoldable pub record_capture : ℕ → Driver W (Unit {0})
  unfolding read_epu note_overflow prepend_count
  record_capture i = do
    reg_val ← read_epu (epcapr_offset + i * 4)
    note_overflow i reg_val
    prepend_count i reg_val

  unfoldable pub record_captures : ℕ → Driver W (Unit {0})
  unfolding shift_loop record_capture
  record_captures epctrgcr = do _ ← shift_loop record_capture 32 0 epctrgcr; pure tt

  -- The "last cycle" update: its outcome is not looked at.
  unfoldable pub last_cycle : ℕ → Driver W (Unit {0})
  last_cycle epctrisr m =
      let r = update_vcounters k epctrisr m in
      let seen : Outcome (Unit {0}) = elim r.0 [ hang ↦ hang | _ ↦ ok tt ] in
      if epctrisr == 0 then (ok tt, m) else (seen, r.1)

  unfoldable pub late_overflows : ℕ → Driver W (Unit {0})
  late_overflows epctrisr m = if epctrisr == 0 then (ok tt, m) else update_vcounters k epctrisr m

  -- The part of `vcntepecr_set` from the group's configuration on.
  unfoldable pub capture_group : ℕ → ℕ → Driver W (Unit {0})
  capture_group event_i epctrgcr = do
    i ← save_captures epctrgcr
    reg_val ← read_epu (epecr_offset + event_i * 4)
    epctrisr ← read_epu (epctrisr_offset + i * 4)
    last_cycle epctrisr
    write_reg_io k epu (epecr_offset + event_i * 4) (bit_or reg_val epecr_sts_mask)
    late ← read_epu epctrisr_offset
    late_overflows late
    record_captures epctrgcr

  unfoldable pub capture_event : ℕ → Driver W (Unit {0})
  capture_event event_i = do
    reg_val ← read_epu (epgacr_offset + event_i * 4)
    epctrgcr ← read_epu ((epctrgcr_offset + group_of reg_val * 4) % 2 ^ 32)
    capture_group event_i epctrgcr

  -- `data` is a pointer into `vcntrepecr`; the value written is not looked at.
  unfoldable pub vcntepecr_set : ℕ → ℕ → Driver W (Unit {0})
  vcntepecr_set data_ptr val =
      vc_locked (capture_event ((data_ptr - (k.vcnt_addr + vcntrepecr_offset)) / 4))

  -- The lock is not given back where the read fails.
  finish_get : ℕ → Outcome ℕ → Driver W ℕ
  finish_get data_ptr (ok val) m =
      (ok (val % 2 ^ 32), record m { ram = store 4 m.ram data_ptr (val % 2 ^ 32); vc_lock = false })
  finish_get data_ptr (err e) m = (err e, m)
  finish_get data_ptr hang m = (hang, m)

  unfoldable pub vcntepecr_get : ℕ → Driver W ℕ
  unfolding finish_get
  vcntepecr_get data_ptr m =
      let counter = (data_ptr - (k.vcnt_addr + vcntrepecr_offset)) / 4 in
      let r = read_reg_io k epu (epecr_offset + counter * 4) (record m { vc_lock = true }) in
      let after = finish_get data_ptr r.0 r.1 in if m.vc_lock then (hang, m) else after
