-- ===== src/Irq.antt =====
-- ls-dbg/module/vir_cntrs.c: the control register `vcntctrl`, and the overflow interrupt that it
-- binds and unbinds.
pub mod Bind
pub mod Fine
use ls_dbg.Prelude.{
  ℕ, zero, suc, ◌+◌, ◌-◌, ◌*◌, ◌%◌, ◌^◌, bit_or, Bool, true, false, not, ◌&&◌, ◌==◌, if◌then◌else◌,
}
use ls_dbg.Bits.{has}
use ls_dbg.Memory.{load, store}
use ls_dbg.Kernel.{
  Kernel, Machine, Driver, Outcome, ok, err, hang, pure, fail, and_then, ◌>>=◌, ◌>>◌,
}
use ls_dbg.TraceIp.{epu, epctrisr_offset, epccr_offset, no_of_counters}
use ls_dbg.RegAccess.{write_reg_io}

abbrev pub vcntr_enable_mask : ℕ
vcntr_enable_mask = 1

-- `EPCCR_AC_INTR_REQ_VAL << EPCCR_AC_SHIFT | EPCCR_ENABLE_MASK`
abbrev pub epccr_on : ℕ
epccr_on = bit_or (1 * 2 ^ 8) 0x80

module _ {W : Type 0} (k : Kernel W) where
  -- The loop that writes one value to EPCCR of each counter, and stops at the first error.
  unfoldable pub write_epccrs : ℕ → ℕ → ℕ → Driver W (Unit {0})
  write_epccrs zero i val m = (ok tt, m)
  write_epccrs (suc left) i val m =
      and_then (write_reg_io k epu (epccr_offset + i * 4) val m)
        (λ s. write_epccrs left (i + 1) val)

  request : ℕ → Driver W (Unit {0})
  request num m =
      let (ret, world) = k.request_irq num (k.set_irq_flags num m.world) in
      if ret == 0
      then (ok tt, record m { world = world })
      else (err ret, record m { world = world })

  -- With no interrupt in the device tree the source returns the status of its first write: 0.
  bind_num : ℕ → Driver W (Unit {0})
  unfolding request write_epccrs
  bind_num num =
      let on = request num >> write_epccrs no_of_counters 0 epccr_on in
      if num == 0 then pure tt else on

  map_irq : Driver W ℕ
  map_irq m =
      let (num, world) = k.irq_of_parse_and_map m.world in
      (ok num, record m { world = world; intr_num = num })

  unfoldable pub ls_dbg_epu_bind_irq : Driver W (Unit {0})
  unfolding bind_num map_irq
  ls_dbg_epu_bind_irq = do
    write_reg_io k epu epctrisr_offset 0xffffffff
    num ← map_irq
    bind_num num

  release_irq : Machine W → Machine W
  release_irq m =
      if m.intr_num == 0
      then m
      else record m { world = k.free_irq m.intr_num (k.flush_scheduled_work m.world); intr_num = 0 }

  -- The interrupt is freed also where a write failed; the result is that of the writes.
  unfoldable pub ls_dbg_epu_unbind_irq : Driver W (Unit {0})
  unfolding write_epccrs release_irq
  ls_dbg_epu_unbind_irq m =
      let (out, m') = write_epccrs no_of_counters 0 0 m in (out, release_irq m')

  -- Which of the two calls `vcntrctrl_set` makes, by the enable bits of the old and new value.
  unfoldable pub switch_irq : ℕ → ℕ → Driver W (Unit {0})
  switch_irq orig_val new_val =
      if has new_val vcntr_enable_mask
      then (if has orig_val vcntr_enable_mask then pure tt else ls_dbg_epu_bind_irq)
      else (if has orig_val vcntr_enable_mask then ls_dbg_epu_unbind_irq else pure tt)

  -- `data` is `&ls_dbg_vcnt.vcntctrl`. It is written whatever the outcome of the call.
  unfoldable pub vcntrctrl_set : ℕ → Driver W (Unit {0})
  unfolding switch_irq
  vcntrctrl_set val m =
      let (out, m') = switch_irq (load 4 m.ram k.vcnt_addr) (val % 2 ^ 32) m in
      (out, record m' { ram = store 4 m'.ram k.vcnt_addr (val % 2 ^ 32) })

  unfoldable pub vcntrctrl_get : Driver W ℕ
  vcntrctrl_get m = (ok (load 4 m.ram k.vcnt_addr), m)
