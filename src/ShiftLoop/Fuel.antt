-- ===== src/ShiftLoop/Fuel.antt =====
-- The end of a shift loop.
use native.Mathlib.Nat.{pow-suc}
use native.Mathlib.Decide.{ℕ_discrete}
use ls_dbg.Prelude.{
  ℕ, zero, suc, ◌+◌, ◌/◌, ◌^◌, ◌<◌, ◌≡◌, ◌≢◌, refl, ◌∙◌, sym, ap, arith, Bool-cases, inl, inr,
  if◌then◌else◌,
}
use ls_dbg.Bits.{has}
use ls_dbg.Kernel.{Machine, Driver, Outcome, ok, err, hang, and_then}
use ls_dbg.ShiftLoop.{shift_loop}
use ls_dbg.ShiftLoop.Each.{shift_loop_done, shift_loop_next}

and_then-ext :
    {W A B : Type 0} (r : Outcome A × Machine W) (f g : A → Driver W B)
    → ((a : A) (m : Machine W) → f a m ≡ g a m)
    → and_then r f ≡ and_then r g
and_then-ext (ok a, m) f g e = e a m
and_then-ext (err c, m) f g e = refl
and_then-ext (hang, m) f g e = refl

and_then_ends :
    {W A B : Type 0} (r : Outcome A × Machine W) (f : A → Driver W B)
    → r.0 ≢ hang
    → ((a : A) (m : Machine W) → (f a m).0 ≢ hang)
    → (and_then r f).0 ≢ hang
and_then_ends (ok a, m) f ne e = e a m
and_then_ends (err c, m) f ne e = λ h. cc
and_then_ends (hang, m) f ne e = absurd (ne refl)

suc-add : (n m : ℕ) → suc n + m ≡ suc (n + m)
suc-add n m = omega arith

module _ {W : Type 0} (body : ℕ → Driver W (Unit {0})) where
  shift_loop_enough :
      (fuel more i c : ℕ) (m : Machine W)
      → c < 2 ^ fuel
      → shift_loop body (fuel + more) i c m ≡ shift_loop body fuel i c m
  shift_loop_enough zero more i c m h =
      let z : c ≡ 0 = omega arith in
      shift_loop_done body (0 + more) i c m z ∙ sym (shift_loop_done body zero i c m z)
  shift_loop_enough (suc fuel) more i c m h = elim (ℕ_discrete c 0) [
    | yes z ↦
        shift_loop_done body (suc fuel + more) i c m z
        ∙ sym (shift_loop_done body (suc fuel) i c m z)
    | no ne ↦
        ap (λ n. shift_loop body n i c m) (suc-add fuel more)
        ∙ shift_loop_next body (fuel + more) i c m ne
        ∙ and_then-ext (if has c 1 then body i m else (ok tt, m)) _ _
            (λ s n. shift_loop_enough fuel more (i + 1) (c / 2) n (omega (arith, pow-suc 2 fuel)))
        ∙ sym (shift_loop_next body fuel i c m ne)
  ]

  body_ends :
      (fuel i c : ℕ) (m : Machine W)
      → ((j : ℕ) (n : Machine W) → (body j n).0 ≢ hang)
      → c < 2 ^ fuel
      → (shift_loop body fuel i c m).0 ≢ hang
  body_ends zero i c m ends h =
      let z : c ≡ 0 = omega arith in let e = shift_loop_done body zero i c m z in λ bad. cc
  body_ends (suc fuel) i c m ends h = elim (ℕ_discrete c 0) [
    | yes z ↦ let e = shift_loop_done body (suc fuel) i c m z in λ bad. cc
    | no ne ↦
        let go : (and_then (if has c 1 then body i m else (ok tt, m))
              (λ s. shift_loop body fuel (i + 1) (c / 2))).0
            ≢ hang =
          and_then_ends _ _
            (elim (Bool-cases (has c 1)) [ inl t ↦ rw t (ends i m) | inr f ↦ rw f (λ bad. cc) ])
            (λ (s : Unit {0}) n.
              body_ends fuel (i + 1) (c / 2) n ends (omega (arith, pow-suc 2 fuel))) in
        rw (shift_loop_next body fuel i c m ne) go
  ]

  -- A shift loop has enough fuel in as many rounds as the word has bits: it ends if its body does, at
  -- every index and on every machine, and more rounds give the same outcome and the same machine.
  pub shift_loop_ends :
      (fuel more i c : ℕ) (m : Machine W)
      → ((j : ℕ) (n : Machine W) → (body j n).0 ≢ hang)
      → c < 2 ^ fuel
      → ((shift_loop body fuel i c m).0 ≢ hang)
        × (shift_loop body (fuel + more) i c m ≡ shift_loop body fuel i c m)
  shift_loop_ends fuel more i c m ends h =
      (body_ends fuel i c m ends h, shift_loop_enough fuel more i c m h)
