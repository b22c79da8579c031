-- ===== src/Capture/Stray.antt =====
-- What a capture makes of the register that it reads in place of the overflow status,
-- `vcntepecr_set` in ls-dbg/module/vir_cntrs.c.
use native.Mathlib.Nat.{zero-add}
use ls_dbg.Prelude.{
  ℕ, ◌+◌, ◌-◌, ◌*◌, ◌/◌, ◌%◌, ◌^◌, ◌<◌, ◌≡◌, ◌≢◌, refl, arith, ◌==◌, if◌then◌else◌, ◌∙◌, ap, false,
  true, bit_and, bit_or,
}
use ls_dbg.Bits.{bit}
use ls_dbg.Memory.{Memory}
use ls_dbg.Kernel.{Kernel, Machine, ok, vc_locked}
use ls_dbg.TraceIp.{epu, epctrisr_offset, epecr_offset, epgacr_offset, epctrgcr_offset}
use ls_dbg.ShiftLoop.SetBits.{set_bits, is_hit, is_hit-bit, each}
use ls_dbg.ShiftLoop.Each.{last_index}
use ls_dbg.RegAccess.{write_reg_io}
use ls_dbg.RegAccess.Tables.{IsMapped, write_reg_io-mapped}
use ls_dbg.Vcounters.{vcntrepecr_offset}
use ls_dbg.Vcounters.Count.{next_count, vcntr}
use ls_dbg.Vcounters.Update.{counted_all, clear_counters, update_vcounters-eq, vcntr-counted_all}
use ls_dbg.Capture.{
  last_cycle, late_overflows, capture_group, capture_event, vcntepecr_set, group_of,
  epgacr_ctcc_mask, epecr_sts_mask,
}
use ls_dbg.Capture.Slots.{IsQuiet, slot, save_in, record_in, slot_saved, slot_recorded}
use ls_dbg.Capture.Quiet.{last_index-le, read_epu_quiet, save_captures_quiet, record_captures_quiet}

module _ {W : Type 0} (k : Kernel W) (peek : ℕ → W → ℕ) where
  -- The register that lies `last_index` registers behind EPCTRISR
  abbrev pub stray_register : Machine W → ℕ
  stray_register m =
      let base = (m.maps epu).base_addr in
      let group = peek (base + epctrgcr_offset) m.world in
      peek (base + (epctrisr_offset + last_index 32 0 group * 4)) m.world

  -- The world after an update for that register's word, and then the signal to capture
  unfoldable pub acknowledged : Machine W → ℕ → W
  acknowledged m event =
      let base = (m.maps epu).base_addr in
      let stray = stray_register m in
      k.iowrite32
        (bit_or (peek (base + (epecr_offset + event * 4)) m.world) epecr_sts_mask % 2 ^ 32)
        (base + (epecr_offset + event * 4))
        (clear_counters k base (set_bits 32 0 stray)
          (k.iowrite32 stray (base + epctrisr_offset) m.world))

  module _ (law : IsQuiet k peek) where
    last_cycle_counts :
        (m : Machine W) (c : ℕ)
        → IsMapped k m.maps epu 0x1000
        → c < 2 ^ 32
        → c ≢ 0
        → last_cycle k c m ≡ (
          ok tt,
          record m {
            ram = counted_all k (set_bits 32 0 c) m.ram;
            world =
                clear_counters k
                  (m.maps epu).base_addr
                  (set_bits 32 0 c)
                  (k.iowrite32 c ((m.maps epu).base_addr + epctrisr_offset) m.world);
          },
        )
    unfolding last_cycle
    last_cycle_counts m c v h ne =
        let f : (c == 0) ≡ false = ground arith in rw (f, update_vcounters-eq k m c v h) refl

    late_none : (m : Machine W) → late_overflows k 0 m ≡ (ok tt, m)
    unfolding late_overflows
    late_none m = refl

    -- The memory after the three loops: the first of a capture, the update, the second of a capture
    ram_after : Machine W → ℕ → Memory
    ram_after m event =
        let base = (m.maps epu).base_addr in
        let group = peek (base + epctrgcr_offset) m.world in
        each (record_in k peek base (acknowledged m event)) (set_bits 32 0 group) (
          counted_all k (set_bits 32 0 (stray_register m))
            (each (save_in k peek base m.world) (set_bits 32 0 group) m.ram))

    stray_eq :
        (m : Machine W) (event val : ℕ)
        → let base = (m.maps epu).base_addr in
          IsMapped k m.maps epu 0x1000
          → m.vc_lock ≡ false
          → event < 16
          → bit_and (peek (base + (epgacr_offset + event * 4)) m.world) epgacr_ctcc_mask ≡ 0
          → stray_register m ≢ 0
          → peek (base + epctrisr_offset) (acknowledged m event) ≡ 0
          → vcntepecr_set k (k.vcnt_addr + vcntrepecr_offset + event * 4) val m ≡ (
            ok tt,
            record m { ram = ram_after m event; world = acknowledged m event; vc_lock = false },
          )
    unfolding vcntepecr_set vc_locked capture_event capture_group group_of acknowledged ram_after
    stray_eq m event val v free l group0 stray none_after =
        let base = (m.maps epu).base_addr in
        let group = peek (base + epctrgcr_offset) m.world in
        let c = stray_register m in
        let epecr = peek (base + (epecr_offset + event * 4)) m.world in
        let locked : Machine W = record m { vc_lock = true } in
        let saved : Machine W = record locked {
          ram = each (save_in k peek base m.world) (set_bits 32 0 group) m.ram;
        } in
        let updated : Machine W = record saved {
          ram = counted_all k (set_bits 32 0 c) saved.ram;
          world =
              clear_counters k base (set_bits 32 0 c)
                (k.iowrite32 c (base + epctrisr_offset) m.world);
        } in
        let sent : Machine W = record updated { world = acknowledged m event } in
        let at : (k.vcnt_addr + vcntrepecr_offset + event * 4 - (k.vcnt_addr + vcntrepecr_offset))
              / 4
            ≡ event =
          omega arith in
        let write : write_reg_io k epu (epecr_offset + event * 4) (bit_or epecr epecr_sts_mask)
              updated
            ≡ (ok tt, sent) =
          write_reg_io-mapped k updated epu 0x1000 (epecr_offset + event * 4)
            (bit_or epecr epecr_sts_mask) (omega arith) v (omega arith) in
        rw
          (
            at,
            free,
            read_epu_quiet k peek law locked (epgacr_offset + event * 4) v (omega arith),
            group0,
            read_epu_quiet k peek law locked epctrgcr_offset v (omega arith),
            save_captures_quiet k peek law group locked v (law.word _ m.world),
            read_epu_quiet k peek law saved (epecr_offset + event * 4) v (omega arith),
            read_epu_quiet k peek law saved (epctrisr_offset + last_index 32 0 group * 4) v
                (omega (arith, last_index-le 32 0 group)),
            last_cycle_counts saved c v (law.word _ m.world) stray,
            write,
            read_epu_quiet k peek law sent epctrisr_offset v (omega arith),
            none_after,
            late_none sent,
            record_captures_quiet k peek law group sent v (law.word _ m.world),
          )
          refl

    vcntr-ram_after :
        (m : Machine W) (event j : ℕ)
        → j < 32
        → bit (peek ((m.maps epu).base_addr + epctrgcr_offset) m.world) j ≡ 0
        → vcntr k (ram_after m event) j ≡ (
            if bit (stray_register m) j == 1 then next_count (vcntr k m.ram j) else vcntr k m.ram j)
    unfolding ram_after slot
    vcntr-ram_after m event j h outside =
        let base = (m.maps epu).base_addr in
        let group = peek (base + epctrgcr_offset) m.world in
        let saved = each (save_in k peek base m.world) (set_bits 32 0 group) m.ram in
        let counted = counted_all k (set_bits 32 0 (stray_register m)) saved in
        let hits : (c : ℕ) → is_hit 32 0 c j ≡ (bit c j == 1) =
          λ c. rw zero-add at (is_hit-bit 32 c 0 j h) in
        let miss : is_hit 32 0 group j ≡ false = hits group ∙ ground arith in
        let one = slot_saved k peek law base m.world 32 0 group j m.ram (omega arith) h in
        let two = vcntr-counted_all k 32 0 (stray_register m) j saved (omega arith) h in
        let three =
          slot_recorded k peek law base (acknowledged m event) 32 0 group j counted (omega arith)
            h in
        let kept : vcntr k saved j ≡ vcntr k m.ram j = ap (λ p. p.0) (rw miss at one) in
        ap (λ p. p.0) (rw miss at three) ∙ two ∙ rw (hits (stray_register m), kept) refl

    -- Before the signal a capture reads the register that lies as many registers behind EPCTRISR as
    -- the group word has bits. If that word is not 0, for an event of group 0 and with EPCTRISR 0
    -- after the signal, `vcntepecr_set` succeeds all the same, but takes the word for the overflow
    -- status: each counter outside of the group whose bit is set in it is counted up, whatever
    -- EPCTRISR holds, and every other counter outside of the group is left; the word is written to
    -- EPCTRISR and the hardware counters of its bits are zeroed before the signal is sent. The EPU
    -- is mapped, the lock is free, and reads of the registers do not change them.
    pub stray_register_counts :
        (m : Machine W) (event val : ℕ)
        → let base = (m.maps epu).base_addr in
          let group = peek (base + epctrgcr_offset) m.world in
          IsMapped k m.maps epu 0x1000
          → m.vc_lock ≡ false
          → event < 16
          → bit_and (peek (base + (epgacr_offset + event * 4)) m.world) epgacr_ctcc_mask ≡ 0
          → stray_register m ≢ 0
          → peek (base + epctrisr_offset) (acknowledged m event) ≡ 0
          → let (r, m') = vcntepecr_set k (k.vcnt_addr + vcntrepecr_offset + event * 4) val m in
            (r ≡ ok tt)
            × ((j : ℕ)
                → j < 32
                → bit group j ≡ 0
                → vcntr k m'.ram j ≡ (
                    if bit (stray_register m) j == 1
                    then next_count (vcntr k m.ram j)
                    else vcntr k m.ram j))
            × (m'.world ≡ acknowledged m event)
    stray_register_counts m event val v free l group0 stray none_after =
        rw (stray_eq m event val v free l group0 stray none_after)
          (refl, (λ j h outside. vcntr-ram_after m event j h outside), refl)
