-- ===== src/Vcounters/Interrupt.antt =====
-- The overflow interrupt handler, `cntr_overflow_interrupt`, and the range of the counters.
use native.Mathlib.Decide.{ℕ_discrete}
use ls_dbg.Prelude.{
  ℕ, ◌+◌, ◌%◌, ◌^◌, ◌<◌, ◌≡◌, refl, ◌∙◌, true, false, arith, Bool-cases, inl, inr, ◌==◌,
  if◌then◌else◌,
}
use ls_dbg.Kernel.{Kernel, Machine, ok, hang, vc_locked}
use ls_dbg.ShiftLoop.SetBits.{set_bits}
use ls_dbg.TraceIp.{epu, epctrisr_offset}
use ls_dbg.RegAccess.{read_reg_io}
use ls_dbg.RegAccess.Tables.{IsMapped, read_reg_io-mapped}
use ls_dbg.Vcounters.Count.{next_count, vcntr}
use ls_dbg.Vcounters.Update.{counted_all, clear_counters, update_vcounters-eq, update_vcounters_lem}
use ls_dbg.Vcounters.{irq_none, irq_handled, update_vcounters, cntr_overflow_interrupt}

module _ {W : Type 0} (k : Kernel W) where
  -- With the EPU mapped, the handler reads the status register once. If the low 32 bits are 0 it
  -- declines the interrupt and does nothing more, whoever holds the lock. Otherwise it waits for the
  -- lock, which never ends if the lock is held; with the lock it handles the interrupt: each counter
  -- whose bit is set is counted, the status is acknowledged, then EPCTR of these counters is zeroed,
  -- lowest first, and the lock is free again.
  pub cntr_overflow_interrupt_lem :
      (m : Machine W) (status : ℕ) (w : W)
      → IsMapped k m.maps epu 0x1000
      → k.ioread32 ((m.maps epu).base_addr + epctrisr_offset) m.world ≡ (status, w)
      → let base = (m.maps epu).base_addr in
        let c = status % 2 ^ 32 in
        cntr_overflow_interrupt k m ≡ (
          if c == 0
          then (ok irq_none, record m { world = w })
          else if m.vc_lock
          then (hang, record m { world = w })
          else (
            ok irq_handled,
            record m {
              ram = counted_all k (set_bits 32 0 c) m.ram;
              vc_lock = false;
              world =
                  clear_counters k base
                    (set_bits 32 0 c)
                    (k.iowrite32 c (base + epctrisr_offset) w);
            },
          ))
  unfolding cntr_overflow_interrupt vc_locked
  cntr_overflow_interrupt_lem m status w v e =
      let seen : read_reg_io k epu epctrisr_offset m ≡ (ok status, record m { world = w }) =
        read_reg_io-mapped k m epu 0x1000 epctrisr_offset (omega arith) v (omega arith)
        ∙ ground arith in
      rw seen (elim (ℕ_discrete (status % 2 ^ 32) 0) [
        | yes z ↦ let t : (status % 2 ^ 32 == 0) ≡ true = ground arith in rw t refl
        | no nz ↦
            let t : (status % 2 ^ 32 == 0) ≡ false = ground arith in
            elim (Bool-cases m.vc_lock) [
              | inl held ↦ rw (t, held) refl
              | inr free ↦
                  rw (t, free)
                    (rw
                      (update_vcounters-eq k (record m { world = w; vc_lock = true })
                        (status % 2 ^ 32) v (omega arith))
                      refl)
            ]
      ])

  -- No status word ever takes a counter to 2 ^ 63 or beyond: the bound is kept by every update.
  pub update_vcounters-bounded :
      (m : Machine W) (c : ℕ)
      → IsMapped k m.maps epu 0x1000
      → c < 2 ^ 32
      → ((j : ℕ) → j < 32 → vcntr k m.ram j < 2 ^ 63)
      → (j : ℕ) → j < 32
      → vcntr k (update_vcounters k c m).1.ram j < 2 ^ 63
  unfolding next_count
  update_vcounters-bounded m c v h b j l =
      ground (arith, (update_vcounters_lem k m c v h).1 j l, b j l)
