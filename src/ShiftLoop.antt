-- ===== src/ShiftLoop.antt =====
-- The loops of ls-dbg/module/vir_cntrs.c that shift a word to 0: `while (word) { if (word & 1) ...;
-- ++i; word >>= 1; }`, in `update_vcounters` and twice in `vcntepecr_set`.
pub mod SetBits
pub mod Each
pub mod Index
pub mod Fuel
use ls_dbg.Prelude.{ℕ, zero, suc, ◌+◌, ◌/◌, ◌==◌, if◌then◌else◌}
use ls_dbg.Bits.{has}
use ls_dbg.Kernel.{Driver, Outcome, ok, err, hang, and_then}

-- The body is given the number of the set bit, and the loop stops at its first error. The result is
-- the number of shifts made, on top of the first index.
unfoldable pub shift_loop : {W : Type 0} → (ℕ → Driver W (Unit {0})) → ℕ → ℕ → ℕ → Driver W ℕ
shift_loop body zero i word m = if word == 0 then (ok i, m) else (hang, m)
shift_loop body (suc fuel) i word m =
    let rest = λ (s : Unit {0}). shift_loop body fuel (i + 1) (word / 2) in
    let step = if has word 1 then body i m else (ok tt, m) in
    let go = and_then step rest in if word == 0 then (ok i, m) else go
