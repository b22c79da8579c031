-- ===== src/Tests/Captures.antt =====
-- Captures on the board.
use ls_dbg.Prelude.{
  ◌&&◌, not, ℕ, ◌==◌, ◌+◌, ◌*◌, ◌%◌, ◌^◌, ◌<◌, ◌≡◌, refl, none, true, arith, ltb, if◌then◌else◌,
}
use ls_dbg.Bits.{has, bit}
use ls_dbg.Memory.{Memory}
use ls_dbg.Kernel.{Kernel, Machine, ok, err, hang, neg, efault}
use ls_dbg.ShiftLoop.{shift_loop}
use ls_dbg.RegAccess.{read_reg_io, reg_find_map_io}
use ls_dbg.Vcounters.{vcntrepecr_offset}
use ls_dbg.Vcounters.Count.{next_count, vcntr}
use ls_dbg.Capture.{
  record_capture, save_captures, save_capture, read_epu, vcntepecr_set, vcntepecr_get,
}
use ls_dbg.Capture.Value.{vcntrcapt, record_capture_value}
use ls_dbg.Capture.Lock.{vcntepecr_get_keeps_lock}
use ls_dbg.Capture.Group.{capture_other_group}
use ls_dbg.ShiftLoop.SetBits.{set_bits}
use ls_dbg.ShiftLoop.Each.{last_index}
use ls_dbg.Capture.Slots.{IsQuiet, captured, capture_reg, slot}
use ls_dbg.Capture.Whole.{signalled, capture_whole}
use ls_dbg.Capture.Stray.{stray_register, acknowledged, stray_register_counts}
use ls_dbg.RegAccess.Tables.{IsMapped}
use ls_dbg.TraceIp.{epu, epctrisr_offset, epctrgcr_offset, epcapr_offset}
use ls_dbg.Tests.Board.{epu_base, maps, board, machine, board-IsKernel, epu-IsMapped}

abbrev k : Kernel Memory
k = board 9 0 none

-- The saved value is above the captured 6, which counts as an overflow.
record_capture_value_example :
    let (r, m') = record_capture k 4 machine in
    let count =
      if ltb 6 (vcntrcapt k machine.ram 4)
      then (vcntr k machine.ram 4 + 1) % 2 ^ 64
      else vcntr k machine.ram 4 in
    (r ≡ ok tt)
    × (vcntr k m'.ram 4 ≡ count)
    × (vcntrcapt k m'.ram 4 ≡ count % 2 ^ 32 * 2 ^ 32 + 6)
    × (m'.world ≡ machine.world)
record_capture_value_example =
    record_capture_value k machine 4 6 machine.world (epu-IsMapped 9 0 none) (omega arith) refl
      (omega arith)

abbrev saved : Machine Memory
saved = (save_captures k 6 machine).1

saved-eq : save_captures k 6 machine ≡ (ok 3, saved)
unfolding save_captures shift_loop save_capture read_epu read_reg_io reg_find_map_io has
saved-eq = refl

abbrev unmapped : Machine Memory
unmapped = record machine { maps = λ j. record { id = j; base_addr = 0; size = 0 } }

vcntepecr_get_keeps_lock_example :
    let (r, m') = vcntepecr_get k 0x8004 unmapped in
    (r ≡ err (neg efault)) × (m'.vc_lock ≡ true) × ((vcntepecr_set k 0x8008 1 m').0 ≡ hang)
vcntepecr_get_keeps_lock_example =
    vcntepecr_get_keeps_lock k unmapped 0x8004 0x8008 1 (board-IsKernel 9 0 none) refl (omega arith)

-- EPGACR reads 0x16: its CTCC field is 1.
abbrev grouped : Machine Memory
grouped = record machine { world = λ x. 0x16 }

capture_other_group_example :
    vcntepecr_set k (0x8000 + vcntrepecr_offset + 3 * 4) 1 grouped
    ≡ (err (neg efault), record grouped { world = grouped.world })
capture_other_group_example =
    capture_other_group k grouped 3 1 0x16 grouped.world (board-IsKernel 9 0 none)
      (epu-IsMapped 9 0 none) (omega arith) refl (omega arith) refl (omega arith)

abbrev peek : ℕ → Memory → ℕ
peek a w = w a % 2 ^ 32

board-IsQuiet : IsQuiet k peek
board-IsQuiet = record { read = λ a w. refl; word = λ a w. omega arith }

-- EPCTRGCR holds counters 0 and 2, EPCAPR of counter 2 holds 9, and all other registers hold 0.
abbrev pair : Machine Memory
pair = record machine {
  world = λ x.
      if x == epu_base + epctrgcr_offset
      then 5
      else if x == epu_base + epcapr_offset + 2 * 4
      then 9
      else 0;
}

capture_whole_example :
    let (r, m') = vcntepecr_set k (0x8000 + vcntrepecr_offset + 3 * 4) 1 pair in
    (r ≡ ok tt)
    × ((j : ℕ)
        → j < 32
        → slot k peek m'.ram j ≡ (
            if bit 5 j == 1
            then captured
                (capture_reg k peek epu_base j (signalled k peek pair 3))
                (capture_reg k peek epu_base j pair.world)
                (vcntr k pair.ram j)
            else slot k peek pair.ram j))
    × (m' ≡ record pair { ram = m'.ram; world = signalled k peek pair 3 })
unfolding signalled last_index
capture_whole_example =
    capture_whole k peek board-IsQuiet pair 3 1 (epu-IsMapped 9 0 none) refl (omega arith) refl refl
      refl

-- EPCTRISR keeps nothing of what is written to it.
abbrev acknowledging : Kernel Memory
acknowledging = record k {
  iowrite32 = λ v a w x. if a == x && not (x == epu_base + epctrisr_offset) then v else w x;
}

acknowledging-IsQuiet : IsQuiet acknowledging peek
acknowledging-IsQuiet = record { read = λ a w. refl; word = λ a w. omega arith }

acknowledging-IsMapped : IsMapped acknowledging maps epu 0x1000
acknowledging-IsMapped = record {
  fits = omega arith;
  in_memory = omega arith;
  no_err = λ off l. ground arith;
}

-- EPCTRGCR holds counters 0 and 2, the third register behind EPCTRISR holds 2, and EPCTRISR 0.
abbrev strayed : Machine Memory
strayed = record machine {
  world = λ x.
      if x == epu_base + epctrgcr_offset
      then 5
      else if x == epu_base + epctrisr_offset + 3 * 4
      then 2
      else 0;
}

stray_register_counts_example :
    let (r, m') = vcntepecr_set acknowledging (0x8000 + vcntrepecr_offset + 3 * 4) 1 strayed in
    (r ≡ ok tt)
    × ((j : ℕ)
        → j < 32
        → bit 5 j ≡ 0
        → vcntr acknowledging m'.ram j ≡ (
            if bit (stray_register acknowledging peek strayed) j == 1
            then next_count (vcntr acknowledging strayed.ram j)
            else vcntr acknowledging strayed.ram j))
    × (m'.world ≡ acknowledged acknowledging peek strayed 3)
unfolding acknowledged last_index set_bits
stray_register_counts_example =
    stray_register_counts acknowledging peek acknowledging-IsQuiet strayed 3 1
      acknowledging-IsMapped refl (omega arith) refl (omega arith) refl
