-- ===== src/Capture/Whole.antt =====
-- A capture as a whole: what `vcntepecr_set` leaves in the counters of an event's group.
use native.Mathlib.Nat.{zero-add}
use ls_dbg.Prelude.{
  ℕ, ◌+◌, ◌-◌, ◌*◌, ◌/◌, ◌%◌, ◌^◌, ◌<◌, ◌≡◌, refl, arith, ◌==◌, if◌then◌else◌, ◌∙◌, ap, false, true,
  bit_and, bit_or, inl, inr, Bool-cases,
}
use ls_dbg.Bits.{bit}
use ls_dbg.Kernel.{Kernel, Machine, ok, vc_locked}
use ls_dbg.TraceIp.{epu, epctrisr_offset, epecr_offset, epgacr_offset, epctrgcr_offset}
use ls_dbg.ShiftLoop.SetBits.{set_bits, is_hit, is_hit-bit, each}
use ls_dbg.ShiftLoop.Each.{last_index}
use ls_dbg.RegAccess.{write_reg_io}
use ls_dbg.RegAccess.Tables.{IsMapped, write_reg_io-mapped}
use ls_dbg.Vcounters.{vcntrepecr_offset}
use ls_dbg.Vcounters.Count.{vcntr}
use ls_dbg.Capture.{
  last_cycle, late_overflows, capture_group, capture_event, vcntepecr_set, group_of,
  epgacr_ctcc_mask, epecr_sts_mask,
}
use ls_dbg.Capture.Slots.{
  IsQuiet, captured, capture_reg, slot, save_in, record_in, slot_saved, slot_recorded,
}
use ls_dbg.Capture.Quiet.{last_index-le, read_epu_quiet, save_captures_quiet, record_captures_quiet}

last_cycle_none : {W : Type 0} (k : Kernel W) (m : Machine W) → last_cycle k 0 m ≡ (ok tt, m)
unfolding last_cycle
last_cycle_none k m = refl

late_overflows_none :
    {W : Type 0} (k : Kernel W) (m : Machine W) → late_overflows k 0 m ≡ (ok tt, m)
unfolding late_overflows
late_overflows_none k m = refl

module _ {W : Type 0} (k : Kernel W) (peek : ℕ → W → ℕ) where
  -- The world after the signal to capture: STS set in the event's EPECR
  unfoldable pub signalled : Machine W → ℕ → W
  signalled m event =
      k.iowrite32
        (bit_or (peek ((m.maps epu).base_addr + (epecr_offset + event * 4)) m.world) epecr_sts_mask
          % 2 ^ 32)
        ((m.maps epu).base_addr + (epecr_offset + event * 4)) m.world

  module _ (law : IsQuiet k peek) where
    capture_group_quiet :
        (m : Machine W) (event c : ℕ)
        → IsMapped k m.maps epu 0x1000
        → event < 16
        → c < 2 ^ 32
        → peek ((m.maps epu).base_addr + (epctrisr_offset + last_index 32 0 c * 4)) m.world ≡ 0
        → peek ((m.maps epu).base_addr + epctrisr_offset) (signalled m event) ≡ 0
        → capture_group k event c m ≡ (
          ok tt,
          record m {
            ram =
                each
                  (record_in k peek (m.maps epu).base_addr (signalled m event))
                  (set_bits 32 0 c)
                  (each (save_in k peek (m.maps epu).base_addr m.world) (set_bits 32 0 c) m.ram);
            world = signalled m event;
          },
        )
    unfolding capture_group signalled
    capture_group_quiet m event c v l h none_before none_after =
        let base = (m.maps epu).base_addr in
        let saved : Machine W = record m {
          ram = each (save_in k peek base m.world) (set_bits 32 0 c) m.ram;
        } in
        let sent : Machine W = record saved { world = signalled m event } in
        let write : write_reg_io k epu (epecr_offset + event * 4)
              (bit_or (peek (base + (epecr_offset + event * 4)) m.world) epecr_sts_mask) saved
            ≡ (ok tt, sent) =
          write_reg_io-mapped k saved epu 0x1000 (epecr_offset + event * 4)
            (bit_or (peek (base + (epecr_offset + event * 4)) m.world) epecr_sts_mask) (omega arith)
            v (omega arith) in
        rw
          (
            save_captures_quiet k peek law c m v h,
            read_epu_quiet k peek law saved (epecr_offset + event * 4) v (omega arith),
            read_epu_quiet k peek law saved (epctrisr_offset + last_index 32 0 c * 4) v
                (omega (arith, last_index-le 32 0 c)),
            none_before,
            last_cycle_none k saved,
            write,
            read_epu_quiet k peek law sent epctrisr_offset v (omega arith),
            none_after,
            late_overflows_none k sent,
            record_captures_quiet k peek law c sent v h,
          )
          refl

    whole_eq :
        (m : Machine W) (event val : ℕ)
        → let base = (m.maps epu).base_addr in
          let group = peek (base + epctrgcr_offset) m.world in
          IsMapped k m.maps epu 0x1000
          → m.vc_lock ≡ false
          → event < 16
          → bit_and (peek (base + (epgacr_offset + event * 4)) m.world) epgacr_ctcc_mask ≡ 0
          → peek (base + (epctrisr_offset + last_index 32 0 group * 4)) m.world ≡ 0
          → peek (base + epctrisr_offset) (signalled m event) ≡ 0
          → vcntepecr_set k (k.vcnt_addr + vcntrepecr_offset + event * 4) val m ≡ (
            ok tt,
            record m {
              ram =
                  each
                    (record_in k peek base (signalled m event))
                    (set_bits 32 0 group)
                    (each (save_in k peek base m.world) (set_bits 32 0 group) m.ram);
              world = signalled m event;
              vc_lock = false;
            },
          )
    unfolding vcntepecr_set vc_locked capture_event group_of signalled
    whole_eq m event val v free l group0 none_before none_after =
        let base = (m.maps epu).base_addr in
        let group = peek (base + epctrgcr_offset) m.world in
        let locked : Machine W = record m { vc_lock = true } in
        let at : (k.vcnt_addr + vcntrepecr_offset + event * 4 - (k.vcnt_addr + vcntrepecr_offset))
              / 4
            ≡ event =
          omega arith in
        rw
          (
            at,
            free,
            read_epu_quiet k peek law locked (epgacr_offset + event * 4) v (omega arith),
            group0,
            read_epu_quiet k peek law locked epctrgcr_offset v (omega arith),
            capture_group_quiet locked event group v l (law.word _ m.world) none_before none_after,
          )
          refl

    slots :
        (m : Machine W) (event j : ℕ)
        → j < 32
        → let base = (m.maps epu).base_addr in
          let group = peek (base + epctrgcr_offset) m.world in
          slot k peek
            (each
              (record_in k peek base (signalled m event))
              (set_bits 32 0 group)
              (each (save_in k peek base m.world) (set_bits 32 0 group) m.ram))
            j
          ≡ (if bit group j == 1
              then captured
                  (capture_reg k peek base j (signalled m event))
                  (capture_reg k peek base j m.world)
                  (vcntr k m.ram j)
              else slot k peek m.ram j)
    unfolding slot
    slots m event j h =
        let base = (m.maps epu).base_addr in
        let group = peek (base + epctrgcr_offset) m.world in
        let ram = each (save_in k peek base m.world) (set_bits 32 0 group) m.ram in
        let before = slot_saved k peek law base m.world 32 0 group j m.ram (omega arith) h in
        let after =
          slot_recorded k peek law base (signalled m event) 32 0 group j ram (omega arith) h in
        let hit : is_hit 32 0 group j ≡ (bit group j == 1) =
          rw zero-add at (is_hit-bit 32 group 0 j h) in
        elim (Bool-cases (bit group j == 1)) [
          | inl t ↦
              let saved : slot k peek ram j ≡ (vcntr k m.ram j, capture_reg k peek base j m.world) =
                rw (hit, t) at before in
              let recorded_at : slot k peek
                    (each (record_in k peek base (signalled m event)) (set_bits 32 0 group) ram) j
                  ≡ captured (capture_reg k peek base j (signalled m event)) (slot k peek ram j).1
                      (slot k peek ram j).0 =
                rw (hit, t) at after in
              rw t (
                recorded_at
                ∙ ap (λ p. captured (capture_reg k peek base j (signalled m event)) p.1 p.0) saved)
          | inr f ↦
              let saved : slot k peek ram j ≡ slot k peek m.ram j = rw (hit, f) at before in
              let recorded_at : slot k peek
                    (each (record_in k peek base (signalled m event)) (set_bits 32 0 group) ram) j
                  ≡ slot k peek ram j =
                rw (hit, f) at after in
              rw f (recorded_at ∙ saved)
        ]

    -- A capture for an event of group 0, on two conditions: EPCTRISR reads 0 after the signal, and
    -- before it the register that lies as many registers behind EPCTRISR as the group word has bits
    -- reads 0 too, which is the one that the code reads there; for a group that is not empty it is not
    -- EPCTRISR. Then `vcntepecr_set` succeeds. For each counter of the group, the set bits of EPCTRGCR,
    -- the count goes up by one exactly if the capture register holds less after the signal than before
    -- it, and the captured word is the count's low 32 bits before the 32 bits of the register; every
    -- other counter's two words stay as they were. The world changes by the signal only, STS set in
    -- the event's EPECR, and the driver's state by the memory of the counters only. The EPU is mapped,
    -- the lock is free, and reads of the registers do not change them.
    pub capture_whole :
        (m : Machine W) (event val : ℕ)
        → let base = (m.maps epu).base_addr in
          let group = peek (base + epctrgcr_offset) m.world in
          IsMapped k m.maps epu 0x1000
          → m.vc_lock ≡ false
          → event < 16
          → bit_and (peek (base + (epgacr_offset + event * 4)) m.world) epgacr_ctcc_mask ≡ 0
          → peek (base + (epctrisr_offset + last_index 32 0 group * 4)) m.world ≡ 0
          → peek (base + epctrisr_offset) (signalled m event) ≡ 0
          → let (r, m') = vcntepecr_set k (k.vcnt_addr + vcntrepecr_offset + event * 4) val m in
            (r ≡ ok tt)
            × ((j : ℕ)
                → j < 32
                → slot k peek m'.ram j ≡ (
                    if bit group j == 1
                    then captured
                        (capture_reg k peek base j (signalled m event))
                        (capture_reg k peek base j m.world)
                        (vcntr k m.ram j)
                    else slot k peek m.ram j))
            × (m' ≡ record m { ram = m'.ram; world = signalled m event })
    capture_whole m event val v free l group0 none_before none_after =
        rw (whole_eq m event val v free l group0 none_before none_after)
          (refl, (λ j h. slots m event j h), rw free refl)
