-- ===== src/Tests/Reservations.antt =====
-- Reservations on the board: two callers take the same counter, and one gives it back twice.
use ls_dbg.Prelude.{
  if◌then◌else◌, ℕ, ◌%◌, ◌^◌, ◌≡◌, refl, none, some, false, arith, ◌==◌, List, [], ◌∷◌,
}
use ls_dbg.Bits.{bit}
use ls_dbg.Memory.{Memory, load}
use ls_dbg.Kernel.{Kernel, ok, err, neg, ebusy, eperm, einval}
use ls_dbg.Reservation.{epu_counter, group_size, reservation_at}
use ls_dbg.Reservation.Bits.{IsWord}
use ls_dbg.Reservation.Spec.{Request, reserve, relinquish, Taken, spec_step, spec_run}
use ls_dbg.Reservation.Refine.{AreDistinct, request, run_requests, Holds}
use ls_dbg.Reservation.Run.{run_requests_refines}
use ls_dbg.Reservation.Exclusion.{taken_stays_busy}
use ls_dbg.Reservation.Ioctl.{command, ioctl_refines}
use ls_dbg.Ioctl.{reg_access_ioctl}
use ls_dbg.Tests.Board.{board, epu_base, machine}

abbrev k : Kernel Memory
k = board 9 0 none

abbrev peek : Memory → ℕ
peek w = w (reservation_at k epu_base epu_counter) % 2 ^ 32

abbrev requests : List Request
requests = reserve 3 ∷ reserve 3 ∷ relinquish 3 ∷ relinquish 3 ∷ reserve 32 ∷ []

-- The register reads 6 at the start: counters 1 and 2 are taken.
abbrev taken : Taken
taken j = bit 6 j == 1

spec_run-requests :
    (spec_run 32 taken requests).0
    ≡ ok tt ∷ err (neg ebusy) ∷ ok tt ∷ err (neg eperm) ∷ err (neg einval) ∷ []
unfolding spec_run spec_step
spec_run-requests = refl

peek-IsWord : IsWord k (reservation_at k epu_base epu_counter) peek
peek-IsWord = record { read = λ w. refl; write = λ v w l. ground arith; word = λ w. omega arith }

board-AreDistinct : AreDistinct k
board-AreDistinct = record { relinq_ne = omega arith }

machine-Holds : Holds k peek taken machine.world
machine-Holds j l = refl

run_requests_refines_example :
    ((run_requests k epu_counter requests machine).0
      ≡ (spec_run (group_size epu_counter) taken requests).0)
    × Holds k peek
        (spec_run (group_size epu_counter) taken requests).1
        (run_requests k epu_counter requests machine).1.world
    × ((run_requests k epu_counter requests machine).1.reg_acc_lock ≡ false)
run_requests_refines_example =
    run_requests_refines k peek epu_counter requests taken machine peek-IsWord board-AreDistinct
      refl machine-Holds

-- Counter 2 is taken; others are taken and given back meanwhile.
taken_stays_busy_example :
    (request k epu_counter
      (reserve 2)
      (run_requests k epu_counter (reserve 3 ∷ relinquish 1 ∷ []) machine).1).0
    ≡ err (neg ebusy)
unfolding group_size
taken_stays_busy_example =
    taken_stays_busy k peek epu_counter (reserve 3 ∷ relinquish 1 ∷ []) taken machine 2 peek-IsWord
      board-AreDistinct refl machine-Holds (omega arith) refl
      ((λ e. ground arith), ((λ e. ground arith), tt))

-- The caller's structure: group 0, index 1.
abbrev asked : Memory
asked x = if x == 4 then 1 else 0

abbrev k_asked : Kernel Memory
k_asked = board 9 0 (some asked)

abbrev peek_asked : Memory → ℕ
peek_asked w = w (reservation_at k_asked epu_base epu_counter) % 2 ^ 32

peek_asked-IsWord : IsWord k_asked (reservation_at k_asked epu_base epu_counter) peek_asked
peek_asked-IsWord = record {
  read = λ w. refl;
  write = λ v w l. ground arith;
  word = λ w. omega arith;
}

ioctl_refines_example :
    let (out, m') = reg_access_ioctl k_asked (command k_asked (reserve 1)) 0x100 machine in
    (out ≡ (spec_step (group_size epu_counter) taken (reserve 1)).0)
    × Holds k_asked peek_asked (spec_step (group_size epu_counter) taken (reserve 1)).1 m'.world
unfolding load
ioctl_refines_example =
    ioctl_refines k_asked peek_asked epu_counter (reserve 1) taken machine 0x100 asked
      peek_asked-IsWord (record { relinq_ne = omega arith }) (omega arith) (omega arith) refl
      (λ j l. refl) refl refl refl
