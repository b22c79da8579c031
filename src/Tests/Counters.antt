-- ===== src/Tests/Counters.antt =====
-- Counters and their interrupt on the board.
use ls_dbg.Prelude.{
  ℕ, ◌+◌, ◌-◌, ◌%◌, ◌^◌, ◌<◌, ◌≤◌, ◌≡◌, ◌⊎◌, refl, none, false, arith, ◌==◌, if◌then◌else◌,
}
use ls_dbg.Bits.{bit}
use ls_dbg.Memory.{Memory, load}
use ls_dbg.Kernel.{hang, Kernel, ok}
use ls_dbg.TraceIp.{epctrisr_offset}
use ls_dbg.Vcounters.{irq_none, irq_handled, update_vcounters, cntr_overflow_interrupt}
use ls_dbg.Vcounters.Count.{next_count, vcntr}
use ls_dbg.ShiftLoop.SetBits.{set_bits}
use ls_dbg.Vcounters.Update.{counted_all, clear_counters, update_vcounters_lem}
use ls_dbg.Vcounters.Interrupt.{cntr_overflow_interrupt_lem, update_vcounters-bounded}
use ls_dbg.Tests.Board.{board, epu_base, machine, epu-IsMapped}

abbrev k : Kernel Memory
k = board 9 0 none

-- A count of 2 ^ 63 - 1 rolls over to 0, any other goes up by one.
next_count_rolls : next_count (2 ^ 63 - 1) ≡ 0
unfolding next_count
next_count_rolls = refl

next_count_steps : next_count 41 ≡ 42
unfolding next_count
next_count_steps = refl

-- Bits 0 and 2 are set.
update_vcounters_lem_example :
    let (r, m') = update_vcounters k 5 machine in
    (r ≡ ok tt)
    × ((j : ℕ)
        → j < 32
        → vcntr k m'.ram j
          ≡ (if bit 5 j == 1 then next_count (vcntr k machine.ram j) else vcntr k machine.ram j))
    × ((x : ℕ) → (x < 0x8000 + 72) ⊎ (0x8000 + 328 ≤ x) → m'.ram x ≡ machine.ram x)
    × (m'.world
        ≡ clear_counters k epu_base
            (set_bits 32 0 5)
            (k.iowrite32 5 (epu_base + epctrisr_offset) machine.world))
    × (m' ≡ record machine { ram = m'.ram; world = m'.world })
update_vcounters_lem_example =
    update_vcounters_lem k machine 5 (epu-IsMapped 9 0 none) (omega arith)

cntr_overflow_interrupt_lem_example : cntr_overflow_interrupt k machine ≡ (
    if 6 % 2 ^ 32 == 0
    then (ok irq_none, record machine { world = machine.world })
    else if false
    then (hang, record machine { world = machine.world })
    else (
      ok irq_handled,
      record machine {
        ram = counted_all k (set_bits 32 0 (6 % 2 ^ 32)) machine.ram;
        vc_lock = false;
        world =
            clear_counters k epu_base
              (set_bits 32 0 (6 % 2 ^ 32))
              (k.iowrite32 (6 % 2 ^ 32) (epu_base + epctrisr_offset) machine.world);
      },
    ))
cntr_overflow_interrupt_lem_example =
    cntr_overflow_interrupt_lem k machine 6 machine.world (epu-IsMapped 9 0 none) refl

threes-bounded : (j : ℕ) → j < 32 → vcntr k machine.ram j < 2 ^ 63
unfolding load
threes-bounded j l = omega arith

update_vcounters-bounded_example : vcntr k (update_vcounters k 5 machine).1.ram 2 < 2 ^ 63
update_vcounters-bounded_example =
    update_vcounters-bounded k machine 5 (epu-IsMapped 9 0 none) (omega arith) threes-bounded 2
      (omega arith)
