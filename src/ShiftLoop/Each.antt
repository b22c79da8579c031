-- ===== src/ShiftLoop/Each.antt =====
-- A shift loop whose body always succeeds is its action at each set bit.
use native.Mathlib.Nat.{pow-suc}
use native.Mathlib.Decide.{ℕ_discrete}
use ls_dbg.Prelude.{
  ℕ, zero, suc, ◌+◌, ◌/◌, ◌%◌, ◌^◌, ◌≤◌, ◌<◌, ◌≡◌, ◌≢◌, refl, ◌∙◌, true, false, arith, ◌==◌,
  if◌then◌else◌,
}
use ls_dbg.Bits.{has, has-one}
use ls_dbg.Kernel.{Machine, Driver, ok, and_then}
use ls_dbg.ShiftLoop.{shift_loop}
use ls_dbg.ShiftLoop.SetBits.{set_bits, set_bits-zero, each}

-- The index at which the word is 0: the number of its bits up to the highest set one.
unfoldable pub last_index : ℕ → ℕ → ℕ → ℕ
last_index zero i c = i
last_index (suc n) i c = let rest = last_index n (i + 1) (c / 2) in if c == 0 then i else rest

module _ {W : Type 0} (body : ℕ → Driver W (Unit {0})) where
  pub shift_loop_done :
      (fuel i c : ℕ) (m : Machine W) → c ≡ 0 → shift_loop body fuel i c m ≡ (ok i, m)
  unfolding shift_loop
  shift_loop_done zero i c m z = rw z
  shift_loop_done (suc fuel) i c m z = rw z

  pub shift_loop_next :
      (fuel i c : ℕ) (m : Machine W)
      → c ≢ 0
      → shift_loop body (suc fuel) i c m
        ≡ and_then
            (if has c 1 then body i m else (ok tt, m))
            (λ s. shift_loop body fuel (i + 1) (c / 2))
  unfolding shift_loop
  shift_loop_next fuel i c m ne = let t : (c == 0) ≡ false = ground arith in rw t

  module _ (act : ℕ → Machine W → Machine W) (P : Machine W → Type 0)
      (acts : (i : ℕ) (m : Machine W) → i < 32 → P m → body i m ≡ (ok tt, act i m))
      (keeps : (i : ℕ) (m : Machine W) → P m → P (act i m)) where
    -- Enough fuel: as many rounds as the word has bits.
    pub shift_loop-each :
        (fuel i c : ℕ) (m : Machine W)
        → P m
        → c < 2 ^ fuel
        → i + fuel ≤ 32
        → shift_loop body fuel i c m ≡ (ok (last_index fuel i c), each act (set_bits fuel i c) m)
    unfolding last_index set_bits
    shift_loop-each zero i c m v h l = shift_loop_done zero i c m (omega arith)
    shift_loop-each (suc fuel) i c m v h l = elim (ℕ_discrete c 0) [
      | yes z ↦
          let t : (c == 0) ≡ true = ground arith in
          rw (t, z, set_bits-zero fuel (i + 1)) (shift_loop_done (suc fuel) i 0 m refl)
      | no ne ↦
          let t : (c == 0) ≡ false = ground arith in
          rw t (
            shift_loop_next fuel i c m ne ∙ elim (ℕ_discrete (c % 2) 1) [
              | yes odd ↦
                  let set : (c % 2 == 1) ≡ true = ground arith in
                  rw (has-one c, set, acts i m (omega arith) v)
                    (shift_loop-each fuel (i + 1) (c / 2) (act i m) (keeps i m v)
                      (omega (arith, pow-suc 2 fuel)) (omega arith))
              | no even ↦
                  let clear : (c % 2 == 1) ≡ false = ground arith in
                  rw (has-one c, clear)
                    (shift_loop-each fuel (i + 1) (c / 2) m v (omega (arith, pow-suc 2 fuel))
                      (omega arith))
            ])
    ]
