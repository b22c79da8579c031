-- ===== src/Capture/Slots.antt =====
-- The two words of a counter, `vcntr[i]` and `vcntrcapt[i]`, under the two loops of a capture.
use native.Mathlib.Decide.{ℕ_discrete}
use ls_dbg.Prelude.{
  ℕ, ◌+◌, ◌*◌, ◌%◌, ◌^◌, ◌≤◌, ◌<◌, ◌≡◌, arith, ◌==◌, if◌then◌else◌, false, true, inl,
}
use ls_dbg.Memory.{Memory, store, load-store_self, load-store_disjoint}
use ls_dbg.Kernel.{Kernel}
use ls_dbg.TraceIp.{epcapr_offset}
use ls_dbg.ShiftLoop.SetBits.{set_bits, is_hit, each, seen-each}
use ls_dbg.Vcounters.{vcntr_at, vcntrcapt_at}
use ls_dbg.Vcounters.Count.{vcntr}
use ls_dbg.Capture.Value.{
  vcntrcapt, count_after, recorded, vcntr-recorded, vcntrcapt-recorded, vcntr-recorded_ne,
  vcntrcapt-recorded_ne,
}

pair_eq : {a b c d : ℕ} → a ≡ c → b ≡ d → ◌≡◌ {A = ℕ × ℕ} (a, b) (c, d)
pair_eq p q = cc

-- The words of a counter after a capture that reads `after` where the register held `before`
abbrev pub captured : ℕ → ℕ → ℕ → ℕ × ℕ
captured after before count =
    (count_after after count before, count_after after count before % 2 ^ 32 * 2 ^ 32 + after)

module _ {W : Type 0} (k : Kernel W) (peek : ℕ → W → ℕ) where
  -- Registers that a read does not change: it gives the 32-bit word that they hold.
  pub record IsQuiet : Type 0 where
    pub read : (a : ℕ) (w : W) → k.ioread32 a w ≡ (peek a w, w)
    pub word : (a : ℕ) (w : W) → peek a w < 2 ^ 32

  -- Capture register `i` of an EPU at `base`
  abbrev pub capture_reg : ℕ → ℕ → W → ℕ
  capture_reg base i w = peek (base + (epcapr_offset + i * 4)) w

  -- A counter's two words
  unfoldable pub slot : Memory → ℕ → ℕ × ℕ
  slot ram j = (vcntr k ram j, vcntrcapt k ram j)

  -- The two loops, as actions on memory
  unfoldable pub save_in : ℕ → W → ℕ → Memory → Memory
  save_in base w i ram = store 8 ram (vcntrcapt_at k i) (capture_reg base i w)

  unfoldable pub record_in : ℕ → W → ℕ → Memory → Memory
  record_in base w i ram = recorded k ram i (capture_reg base i w)

  module _ (law : IsQuiet) where
    save_IsLocal :
        (base : ℕ) (w : W) (i j : ℕ) (ram : Memory)
        → i < 32
        → j < 32
        → slot (save_in base w i ram) j
          ≡ (if i == j then (vcntr k ram j, capture_reg base j w) else slot ram j)
    unfolding slot save_in
    save_IsLocal base w i j ram l h = elim (ℕ_discrete i j) [
      | yes e ↦
          let t : (i == j) ≡ true = ground arith in
          rw (t, ← e)
            (pair_eq
              (load-store_disjoint 8 8 ram (vcntrcapt_at k i) (vcntr_at k i) (capture_reg base i w)
                (inl (omega arith)))
              (load-store_self 8 ram (vcntrcapt_at k i) (capture_reg base i w)
                (omega (arith, law.word (base + (epcapr_offset + i * 4)) w))))
      | no ne ↦
          let t : (i == j) ≡ false = ground arith in
          rw t (
            pair_eq
              (load-store_disjoint 8 8 ram (vcntrcapt_at k i) (vcntr_at k j) (capture_reg base i w)
                (inl (omega arith)))
              (load-store_disjoint 8 8 ram (vcntrcapt_at k i) (vcntrcapt_at k j)
                (capture_reg base i w) (ground arith)))
    ]

    record_IsLocal :
        (base : ℕ) (w : W) (i j : ℕ) (ram : Memory)
        → i < 32
        → j < 32
        → slot (record_in base w i ram) j ≡ (
            if i == j
            then (
              count_after (capture_reg base j w) (vcntr k ram j) (vcntrcapt k ram j),
              count_after (capture_reg base j w) (vcntr k ram j) (vcntrcapt k ram j)
                    % 2 ^ 32
                    * 2 ^ 32
                  + capture_reg base j w,
            )
            else slot ram j)
    unfolding slot record_in
    record_IsLocal base w i j ram l h = elim (ℕ_discrete i j) [
      | yes e ↦
          let t : (i == j) ≡ true = ground arith in
          rw (t, ← e)
            (pair_eq (vcntr-recorded k ram i (capture_reg base i w) l)
              (vcntrcapt-recorded k ram i (capture_reg base i w) (law.word _ w)))
      | no ne ↦
          let t : (i == j) ≡ false = ground arith in
          rw t (
            pair_eq (vcntr-recorded_ne k ram i j (capture_reg base i w) l h ne)
              (vcntrcapt-recorded_ne k ram i j (capture_reg base i w) l h ne))
    ]

    pub slot_saved :
        (base : ℕ) (w : W) (n i c j : ℕ) (ram : Memory)
        → i + n ≤ 32
        → j < 32
        → slot (each (save_in base w) (set_bits n i c) ram) j
          ≡ (if is_hit n i c j then (vcntr k ram j, capture_reg base j w) else slot ram j)
    unfolding slot
    slot_saved base w =
        seen-each (save_in base w) slot (λ j s. (s.0, capture_reg base j w)) (save_IsLocal base w)

    pub slot_recorded :
        (base : ℕ) (w : W) (n i c j : ℕ) (ram : Memory)
        → i + n ≤ 32
        → j < 32
        → slot (each (record_in base w) (set_bits n i c) ram) j ≡ (
            if is_hit n i c j
            then (
              count_after (capture_reg base j w) (vcntr k ram j) (vcntrcapt k ram j),
              count_after (capture_reg base j w) (vcntr k ram j) (vcntrcapt k ram j)
                    % 2 ^ 32
                    * 2 ^ 32
                  + capture_reg base j w,
            )
            else slot ram j)
    unfolding slot
    slot_recorded base w =
        seen-each (record_in base w) slot
          (λ j s. (
            count_after (capture_reg base j w) s.0 s.1,
            count_after (capture_reg base j w) s.0 s.1 % 2 ^ 32 * 2 ^ 32 + capture_reg base j w,
          ))
          (record_IsLocal base w)
