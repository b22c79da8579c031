-- ===== src/Capture/Value.antt =====
-- The captured value: what one round of the second loop leaves in `vcntr` and `vcntrcapt`, and
-- which status register stands between the loops.
use native.Mathlib.Nat.{mod-eq_of_lt}
use ls_dbg.Prelude.{
  ℕ, ◌+◌, ◌-◌, ◌*◌, ◌%◌, ◌^◌, ◌≤◌, ◌<◌, ◌≡◌, ◌≢◌, refl, arith, ltb, if◌then◌else◌, ◌∙◌, bit_or, ◌⊎◌,
  inl, inr, ap,
}
use ls_dbg.Bits.{bit_or_fields}
use ls_dbg.Memory.{Memory, load, store, load-store_self, load-store_disjoint}
use ls_dbg.Kernel.{Kernel, Machine, ok}
use ls_dbg.TraceIp.{epu, epcapr_offset}
use ls_dbg.ShiftLoop.Index.{shift_loop_index}
use ls_dbg.RegAccess.Tables.{IsMapped, read_reg_io-mapped}
use ls_dbg.Vcounters.{vcntr_at, vcntrcapt_at}
use ls_dbg.Vcounters.Count.{vcntr}
use ls_dbg.Capture.{
  read_epu, record_capture, note_overflow, prepend_count, save_captures, save_capture,
}

-- A count after a capture that reads `after`, where the register held `before` when it was saved
abbrev pub count_after : ℕ → ℕ → ℕ → ℕ
count_after after count before = if ltb after before then (count + 1) % 2 ^ 64 else count

module _ {W : Type 0} (k : Kernel W) where
  abbrev pub vcntrcapt : Memory → ℕ → ℕ
  vcntrcapt ram i = load 8 ram (vcntrcapt_at k i)

  noted : Memory → ℕ → ℕ → Memory
  noted ram i rv =
      if ltb rv (vcntrcapt ram i)
      then store 8 ram (vcntr_at k i) ((vcntr k ram i + 1) % 2 ^ 64)
      else ram

  -- Memory after one round of the second loop, with `rv` in the capture register
  unfoldable pub recorded : Memory → ℕ → ℕ → Memory
  unfolding noted
  recorded ram i rv =
      store 8 (noted ram i rv) (vcntrcapt_at k i)
        (bit_or (vcntr k (noted ram i rv) i * 2 ^ 32 % 2 ^ 64) rv)

  pub record_capture-eq :
      (m : Machine W) (i rv : ℕ) (w : W)
      → IsMapped k m.maps epu 0x1000
      → i < 32
      → k.ioread32 ((m.maps epu).base_addr + (epcapr_offset + i * 4)) m.world ≡ (rv, w)
      → rv < 2 ^ 32
      → record_capture k i m ≡ (ok tt, record m { ram = recorded m.ram i rv; world = w })
  unfolding record_capture read_epu note_overflow prepend_count noted recorded
  record_capture-eq m i rv w mapped l e fits =
      rw
        (
          read_reg_io-mapped k m epu 0x1000 (epcapr_offset + i * 4) (omega arith) mapped
              (omega arith),
          e,
          mod-eq_of_lt fits,
        )
        (ground arith)

  vcntr-noted :
      (ram : Memory) (i rv : ℕ)
      → vcntr k (noted ram i rv) i ≡ count_after rv (vcntr k ram i) (vcntrcapt ram i)
  unfolding noted
  vcntr-noted ram i rv =
      ground
        (arith, load-store_self 8 ram (vcntr_at k i) ((vcntr k ram i + 1) % 2 ^ 64) (omega arith))

  pub vcntr-recorded :
      (ram : Memory) (i rv : ℕ)
      → i < 32
      → vcntr k (recorded ram i rv) i ≡ count_after rv (vcntr k ram i) (vcntrcapt ram i)
  unfolding recorded
  vcntr-recorded ram i rv l =
      load-store_disjoint 8 8 (noted ram i rv) (vcntrcapt_at k i) (vcntr_at k i)
        (bit_or (vcntr k (noted ram i rv) i * 2 ^ 32 % 2 ^ 64) rv) (inl (omega arith))
      ∙ vcntr-noted ram i rv

  -- The count's low word before the captured one
  shifted : (v rv : ℕ) → rv < 2 ^ 32 → bit_or (v * 2 ^ 32 % 2 ^ 64) rv ≡ v % 2 ^ 32 * 2 ^ 32 + rv
  shifted v rv fits =
      let e : v * 2 ^ 32 % 2 ^ 64 ≡ v % 2 ^ 32 * 2 ^ 32 = omega arith in
      rw e (bit_or_fields 32 (v % 2 ^ 32) rv fits)

  pub vcntrcapt-recorded :
      (ram : Memory) (i rv : ℕ)
      → rv < 2 ^ 32
      → vcntrcapt (recorded ram i rv) i
        ≡ count_after rv (vcntr k ram i) (vcntrcapt ram i) % 2 ^ 32 * 2 ^ 32 + rv
  unfolding recorded
  vcntrcapt-recorded ram i rv fits =
      let v = vcntr k (noted ram i rv) i in
      load-store_self 8 (noted ram i rv) (vcntrcapt_at k i) (bit_or (v * 2 ^ 32 % 2 ^ 64) rv)
        (omega (arith, shifted v rv fits))
      ∙ shifted v rv fits
      ∙ ap (λ t. t % 2 ^ 32 * 2 ^ 32 + rv) (vcntr-noted ram i rv)

  -- One round of the second loop for counter `i`, with the EPU mapped and capture register value
  -- `rv`: the count goes up by one exactly if `rv` is below the value saved by the first loop, and
  -- the captured word is then the count's low 32 bits before the 32 bits of `rv`.
  pub record_capture_value :
      (m : Machine W) (i rv : ℕ) (w : W)
      → IsMapped k m.maps epu 0x1000
      → i < 32
      → k.ioread32 ((m.maps epu).base_addr + (epcapr_offset + i * 4)) m.world ≡ (rv, w)
      → rv < 2 ^ 32
      → let (r, m') = record_capture k i m in
        let count =
          if ltb rv (vcntrcapt m.ram i) then (vcntr k m.ram i + 1) % 2 ^ 64 else vcntr k m.ram i in
        (r ≡ ok tt)
        × (vcntr k m'.ram i ≡ count)
        × (vcntrcapt m'.ram i ≡ count % 2 ^ 32 * 2 ^ 32 + rv)
        × (m'.world ≡ w)
  record_capture_value m i rv w mapped l e fits =
      rw (record_capture-eq m i rv w mapped l e fits)
        (refl, vcntr-recorded m.ram i rv l, vcntrcapt-recorded m.ram i rv fits, refl)

  -- Another counter's words stay as they were.
  pub vcntr-recorded_ne :
      (ram : Memory) (i j rv : ℕ)
      → i < 32
      → j < 32
      → i ≢ j
      → vcntr k (recorded ram i rv) j ≡ vcntr k ram j
  unfolding recorded noted
  vcntr-recorded_ne ram i j rv l h ne =
      load-store_disjoint 8 8 (noted ram i rv) (vcntrcapt_at k i) (vcntr_at k j)
        (bit_or (vcntr k (noted ram i rv) i * 2 ^ 32 % 2 ^ 64) rv) (inl (omega arith))
      ∙ ground (
        arith,
        load-store_disjoint 8 8 ram (vcntr_at k i) (vcntr_at k j) ((vcntr k ram i + 1) % 2 ^ 64)
            (apart ne),
      )
    where
      apart : i ≢ j → (vcntr_at k j + 8 ≤ vcntr_at k i) ⊎ (vcntr_at k i + 8 ≤ vcntr_at k j)
      apart ne = ground arith

  pub vcntrcapt-recorded_ne :
      (ram : Memory) (i j rv : ℕ)
      → i < 32
      → j < 32
      → i ≢ j
      → vcntrcapt (recorded ram i rv) j ≡ vcntrcapt ram j
  unfolding recorded noted
  vcntrcapt-recorded_ne ram i j rv l h ne =
      load-store_disjoint 8 8 (noted ram i rv) (vcntrcapt_at k i) (vcntrcapt_at k j)
        (bit_or (vcntr k (noted ram i rv) i * 2 ^ 32 % 2 ^ 64) rv) (apart ne)
      ∙ ground (
        arith,
        load-store_disjoint 8 8 ram (vcntr_at k i) (vcntrcapt_at k j) ((vcntr k ram i + 1) % 2 ^ 64)
            (inr (omega arith)),
      )
    where
      apart :
          i ≢ j
          → (vcntrcapt_at k j + 8 ≤ vcntrcapt_at k i) ⊎ (vcntrcapt_at k i + 8 ≤ vcntrcapt_at k j)
      apart ne = ground arith

  -- The first loop's final index, which the source adds to the offset of the overflow status
  -- register, is the bit length of the group's configuration word: 0 for 0 only, and otherwise
  -- one more than the number of the highest set bit.
  pub save_captures_index :
      (c : ℕ) (m n : Machine W) (j : ℕ)
      → save_captures k c m ≡ (ok j, n)
      → c < 2 ^ 32
      → (c < 2 ^ j) × (2 ^ j ≤ 2 * c + 1)
  unfolding save_captures
  save_captures_index c m n j e h =
      let (from, above, below) = shift_loop_index (save_capture k) 32 0 c m n j e h in
      let d : j - 0 ≡ j = omega arith in (rw (← d) above, rw (← d) below)
