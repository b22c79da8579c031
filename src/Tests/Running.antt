-- ===== src/Tests/Running.antt =====
-- Calls and interleaved handlers on the board.
use ls_dbg.Prelude.{
  ◌^◌, ◌%◌, ◌+◌, ℕ, ◌==◌, ◌≡◌, ◌≢◌, refl, none, arith, Bool, Bool-cases, inl, inr, true, false, [],
  ◌∷◌,
}
use ls_dbg.Bits.{has}
use ls_dbg.Memory.{Memory, load, store}
use ls_dbg.Kernel.{Kernel, hang, ok}
use ls_dbg.TraceIp.{epu, epctrisr_offset}
use ls_dbg.RegAccess.{read_reg_io}
use ls_dbg.Vcounters.{handle_status, vcntr_at}
use ls_dbg.Vcounters.Count.{next_count, vcntr}
use ls_dbg.Ioctl.Fine.{IsReady}
use ls_dbg.System.{
  Step, Cores, idle, set_event, set_control, interrupt, perform, move, handling, Reach, start,
  later, seen, called, elapsed,
}
use ls_dbg.System.Ready.{Reach-IsReady, Reach-ends}
use ls_dbg.System.Race.{counts_twice, both_pc}
use ls_dbg.System.Sections.{
  outside, counting, loaded, stored, Processors, store_next, enter, loads, stores, tests, leave,
  Moves, still, more, entered, Move,
}
use ls_dbg.System.Sections.Effect.{serially}
use ls_dbg.System.Sections.Serial.{sections_serial}
use ls_dbg.System.Sections.Lost.{set_lost, has_loaded, after_set, after_store}
use ls_dbg.Tests.Board.{board, machine, epu-IsMapped}

abbrev k : Kernel Memory
k = board 9 0 none

abbrev cores : Cores Memory
cores = record { machine = machine; pc = λ i. idle }

machine-IsReady : IsReady k machine
machine-IsReady = record { epu_mapped = epu-IsMapped 9 0 none; vc_free = refl; reg_acc_free = refl }

-- Processor 1 has read its status, then the counters are switched on, the devices change, and event 2
-- is captured.
abbrev busy : Cores Memory
busy =
    let s1 : Cores Memory = record {
      machine = (read_reg_io k epu epctrisr_offset machine).1;
      pc = move (λ i. idle) 1 (handling (read_reg_io k epu epctrisr_offset machine).0);
    } in
    let s2 : Cores Memory = record s1 { machine = (perform k (set_control 1) s1.machine).1 } in
    let s3 : Cores Memory = record s2 { machine = record (s2.machine) { world = λ x. 4 } } in
    record s3 { machine = (perform k (set_event 2 (omega arith) 1) s3.machine).1 }

busy_reached : Reach k cores busy
busy_reached =
    later (later (later (later start (seen 1 refl)) (called (set_control 1))) (elapsed (λ x. 4)))
      (called (set_event 2 (omega arith) 1))

Reach-IsReady_example : IsReady k busy.machine
Reach-IsReady_example = Reach-IsReady k machine-IsReady busy_reached

Reach-ends_example :
    ((perform k interrupt busy.machine).0 ≢ hang) × ((handle_status k (ok 6) busy.machine).0 ≢ hang)
Reach-ends_example = Reach-ends k interrupt 6 machine-IsReady busy_reached

-- Counters 1 and 2 have overflowed once.
counts_twice_example :
    let both = both_pc k 6 in
    let n1 = (handle_status k (ok 6) machine).1 in
    let n2 = (handle_status k (ok 6) n1).1 in
    let s : Cores Memory = record { machine = machine; pc = both } in
    let s1 : Cores Memory = record { machine = n1; pc = move both 0 idle } in
    let s2 : Cores Memory = record { machine = n2; pc = move (move both 0 idle) 1 idle } in
    Reach k cores s
    × Step k s s1
    × (vcntr k n1.ram 2 ≡ next_count (vcntr k machine.ram 2))
    × Step k s1 s2
    × (vcntr k n2.ram 2 ≡ next_count (next_count (vcntr k machine.ram 2)))
counts_twice_example =
    counts_twice k machine 6 2 machine.world machine.world (epu-IsMapped 9 0 none) refl refl refl
      (omega arith) (omega arith) refl

abbrev start_of : Processors Memory
start_of = record { machine = machine; stage = λ i. outside }

abbrev before_count : ℕ
before_count = load 8 machine.ram (vcntr_at k 2)

-- Processor 0 counts counter 2, and then processor 1 has nothing to count.
abbrev in_section : Processors Memory
in_section = record {
  machine = record machine { vc_lock = true };
  stage = move (move (λ i. outside) 0 (counting (2 ∷ []))) 0 (loaded 2 before_count []);
}

abbrev both_done : Processors Memory
both_done =
    let s1 = move in_section.stage 0 (stored 2 []) in
    let s2 = move (move s1 0 (counting [])) 0 outside in
    record {
      machine = record machine { ram = store_next k 2 before_count machine.ram; vc_lock = false };
      stage = move (move s2 1 (counting [])) 1 outside;
    }

to_section : (files : Bool) → Moves k files start_of in_section
to_section files = more (more still (enter 0 (2 ∷ []) refl refl)) (loads 0 2 [] refl)

to_end : Moves k false start_of both_done
unfolding to_section load store has
to_end =
    more
      (more
        (more (more (more (to_section false) (stores 0 2 before_count [] refl)) (tests 0 2 [] refl))
          (leave 0 refl))
        (enter 1 [] refl refl))
      (leave 1 refl)

sections_serial_example : both_done.machine.ram ≡ (serially k ([] ∷ (2 ∷ []) ∷ []) machine).ram
unfolding to_end entered
sections_serial_example = sections_serial k machine both_done to_end refl (λ j.
    elim (Bool-cases (1 == j)) [
      | inl e ↦ rw e refl
      | inr e ↦ elim (Bool-cases (0 == j)) [ inl e' ↦ rw (e, e') refl | inr e' ↦ rw (e, e') refl ]
    ])

set_lost_example :
    let s = has_loaded k machine 2 in
    let s' = after_set k 2 7 s in
    let t = after_store k machine 2 s' in
    Moves k true start_of s
    × (s.machine.vc_lock ≡ true)
    × Move k true s s'
    × (vcntr k s'.machine.ram 2 ≡ 7)
    × Move k true s' t
    × (vcntr k t.machine.ram 2 ≡ (vcntr k machine.ram 2 + 1) % 2 ^ 64)
set_lost_example = set_lost k machine 2 7 refl (omega arith)
