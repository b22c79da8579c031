-- ===== src/ShiftLoop/Index.antt =====
-- The number of shifts that a shift loop makes.
use native.Mathlib.Nat.{pow-suc}
use native.Mathlib.Decide.{ℕ_discrete}
use ls_dbg.Prelude.{
  ℕ, zero, suc, ◌+◌, ◌-◌, ◌*◌, ◌/◌, ◌%◌, ◌^◌, ◌≤◌, ◌<◌, ◌≡◌, ◌≢◌, refl, ◌∙◌, sym, ◌⊎◌, inl, inr,
  arith, if◌then◌else◌,
}
use ls_dbg.Bits.{has}
use ls_dbg.Kernel.{Machine, Driver, Outcome, ok, err, hang, and_then}
use ls_dbg.ShiftLoop.{shift_loop}
use ls_dbg.ShiftLoop.Each.{shift_loop_done, shift_loop_next}

module _ {W : Type 0} (body : ℕ → Driver W (Unit {0})) where
  ok-injective :
      {i j : ℕ} {m n : Machine W} → ◌≡◌ {A = Outcome ℕ × Machine W} (ok i, m) (ok j, n) → i ≡ j
  ok-injective e = cc

  -- The index grows by the word's length in bits: 0 for 0, and otherwise one more than the number of
  -- the highest set bit.
  pub shift_loop_index :
      (fuel i c : ℕ) (m n : Machine W) (j : ℕ)
      → shift_loop body fuel i c m ≡ (ok j, n)
      → c < 2 ^ fuel
      → (i ≤ j) × (c < 2 ^ (j - i)) × (2 ^ (j - i) ≤ 2 * c + 1)
  shift_loop_index zero i c m n j e h =
      let z : c ≡ 0 = omega arith in
      let s : i ≡ j = ok-injective (sym (shift_loop_done body zero i c m z) ∙ e) in
      let d : j - i ≡ 0 = omega arith in rw (d, z) (omega arith)
  shift_loop_index (suc fuel) i c m n j e h = elim (ℕ_discrete c 0) [
    | yes z ↦
        let s : i ≡ j = ok-injective (sym (shift_loop_done body (suc fuel) i c m z) ∙ e) in
        let d : j - i ≡ 0 = omega arith in rw (d, z) (omega arith)
    | no more ↦
        go (if has c 1 then body i m else (ok tt, m))
          (sym (shift_loop_next body fuel i c m more) ∙ e) (shift_loop_index fuel (i + 1) (c / 2))
          more
  ]
    where
      grown : (p : ℕ) → (p ≡ 1) ⊎ (p % 2 ≡ 0) → p ≤ 2 * (c / 2) + 1 → c ≢ 0 → 2 * p ≤ 2 * c + 1
      grown p (inl o) l ne = omega arith
      grown p (inr v) l ne = omega arith

      pow-parity : (q : ℕ) → (2 ^ q ≡ 1) ⊎ (2 ^ q % 2 ≡ 0)
      pow-parity zero = inl refl
      pow-parity (suc q) = inr (omega (arith, pow-suc 2 q))

      step :
          (i + 1 ≤ j) × (c / 2 < 2 ^ (j - (i + 1))) × (2 ^ (j - (i + 1)) ≤ 2 * (c / 2) + 1)
          → c ≢ 0
          → (i ≤ j) × (c < 2 ^ (j - i)) × (2 ^ (j - i) ≤ 2 * c + 1)
      step (a, b, d) ne =
          let s : j - i ≡ suc (j - (i + 1)) = omega arith in
          rw s (
            omega arith,
            omega (arith, pow-suc 2 (j - (i + 1))),
            omega (
              arith,
              pow-suc 2 (j - (i + 1)),
              grown (2 ^ (j - (i + 1))) (pow-parity (j - (i + 1))) d ne,
            ),
          )

      go :
          (r : Outcome (Unit {0}) × Machine W)
          → and_then r (λ s. shift_loop body fuel (i + 1) (c / 2)) ≡ (ok j, n)
          → ((p q : Machine W) (t : ℕ)
              → shift_loop body fuel (i + 1) (c / 2) p ≡ (ok t, q)
              → c / 2 < 2 ^ fuel
              → (i + 1 ≤ t) × (c / 2 < 2 ^ (t - (i + 1))) × (2 ^ (t - (i + 1)) ≤ 2 * (c / 2) + 1))
          → c ≢ 0
          → (i ≤ j) × (c < 2 ^ (j - i)) × (2 ^ (j - i) ≤ 2 * c + 1)
      go (ok a, p) q ih ne = step (ih p n j q (omega (arith, pow-suc 2 fuel))) ne
      go (err a, p) q ih ne = absurd (cc)
      go (hang, p) q ih ne = absurd (cc)
