-- ===== src/Vcounters.antt =====
-- ls-dbg/module/vir_cntrs.c: `struct vcounters ls_dbg_vcnt`, the step of one virtual counter, and
-- the update of the counters from the overflow status register EPCTRISR.
pub mod Count
pub mod Update
pub mod Interrupt
pub mod Fine
use ls_dbg.Prelude.{ℕ, zero, suc, ◌+◌, ◌*◌, ◌/◌, ◌%◌, ◌^◌, ◌==◌, if◌then◌else◌}
use ls_dbg.Bits.{has}
use ls_dbg.Memory.{load, store}
use ls_dbg.Kernel.{
  Kernel, Machine, Driver, Outcome, ok, err, hang, pure, and_then, ◌>>=◌, ◌>>◌, vc_locked,
}
use ls_dbg.TraceIp.{epu, epctrisr_offset, epctr_offset}
use ls_dbg.ShiftLoop.{shift_loop}
use ls_dbg.RegAccess.{read_reg_io, write_reg_io}

-- Offsets in `struct vcounters`; the 64-bit arrays are aligned to 8 bytes, so 4 bytes of padding
-- lie before `vcntr`.
abbrev pub vcntrepecr_offset : ℕ
vcntrepecr_offset = 4

abbrev pub vcntr_offset : ℕ
vcntr_offset = 72

abbrev pub vcntrcapt_offset : ℕ
vcntrcapt_offset = 328

abbrev pub vcounters_size : ℕ
vcounters_size = 584

-- LS_DBG_V_COUNTER_OVFLOW_VALUE
abbrev pub v_counter_ovflow_value : ℕ
v_counter_ovflow_value = 2 ^ 63

-- `irqreturn_t`
pub data IrqReturn : Type 0 where
  irq_none irq_handled : IrqReturn

module _ {W : Type 0} (k : Kernel W) where
  -- The addresses of `vcntr[i]` and `vcntrcapt[i]`
  abbrev pub vcntr_at : ℕ → ℕ
  vcntr_at i = k.vcnt_addr + vcntr_offset + 8 * i

  abbrev pub vcntrcapt_at : ℕ → ℕ
  vcntrcapt_at i = k.vcnt_addr + vcntrcapt_offset + 8 * i

  -- `data` is a pointer into `vcntr` or, from the character device, any address in it.
  abbrev pub vcntr_get : ℕ → Driver W ℕ
  vcntr_get data_ptr m = (ok (load 8 m.ram data_ptr), m)

  abbrev pub vcntr_set : ℕ → ℕ → Driver W (Unit {0})
  vcntr_set data_ptr val m = (ok tt, record m { ram = store 8 m.ram data_ptr val })

  -- The result is 1 on roll over, as in the source, where no caller reads it.
  unfoldable pub v_counter_inc : ℕ → Driver W ℕ
  v_counter_inc ctr m =
      let ram = store 8 m.ram (vcntr_at ctr) ((load 8 m.ram (vcntr_at ctr) + 1) % 2 ^ 64) in
      if has (load 8 ram (vcntr_at ctr)) v_counter_ovflow_value
      then (ok 1, record m { ram = store 8 ram (vcntr_at ctr) 0 })
      else (ok 0, record m { ram = ram })

  -- The body of the loop at a set bit.
  unfoldable pub overflow_counter : ℕ → Driver W (Unit {0})
  overflow_counter cntr_ind = do
    _ ← v_counter_inc cntr_ind
    write_reg_io k epu (epctr_offset + cntr_ind * 4) 0

  -- `while (ctrisr)`: the source counts `ctr` down from 31, and `31 - ctr` is the number of shifts.
  unfoldable pub shift_overflows : ℕ → Driver W (Unit {0})
  unfolding shift_loop overflow_counter
  shift_overflows ctrisr = do _ ← shift_loop overflow_counter 32 0 ctrisr; pure tt

  unfoldable pub update_vcounters : ℕ → Driver W (Unit {0})
  update_vcounters ctrisr = do write_reg_io k epu epctrisr_offset ctrisr; shift_overflows ctrisr

  -- The handler looks at no outcome of `update_vcounters` but to print it.
  after_update : Outcome (Unit {0}) → Outcome IrqReturn
  after_update (ok _) = ok irq_handled
  after_update (err _) = ok irq_handled
  after_update hang = hang

  unfoldable pub handle_status : Outcome ℕ → Driver W IrqReturn
  unfolding after_update
  handle_status (ok val) m =
      let r = vc_locked (update_vcounters (val % 2 ^ 32)) m in
      if val % 2 ^ 32 == 0 then (ok irq_none, m) else (after_update r.0, r.1)
  handle_status (err _) m = (ok irq_handled, m)
  handle_status hang m = (hang, m)

  unfoldable pub cntr_overflow_interrupt : Driver W IrqReturn
  unfolding handle_status
  cntr_overflow_interrupt m = let r = read_reg_io k epu epctrisr_offset m in handle_status r.0 r.1
