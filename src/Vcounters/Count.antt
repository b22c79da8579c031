-- ===== src/Vcounters/Count.antt =====
-- What `v_counter_inc` does to the counters and to the rest of memory.
use native.Mathlib.Decide.{ℕ_discrete}
use ls_dbg.Prelude.{
  ℕ, ◌+◌, ◌%◌, ◌^◌, ◌≤◌, ◌<◌, ◌≡◌, ◌⊎◌, true, false, arith, ◌==◌, leb, if◌then◌else◌,
}
use ls_dbg.Bits.{has, has-pow, bit_top}
use ls_dbg.Memory.{Memory, load, store, load-store_self, load-store_disjoint, store-outside}
use ls_dbg.Kernel.{Kernel, Machine, ok}
use ls_dbg.Vcounters.{vcntr_at, v_counter_inc, v_counter_ovflow_value}

-- The successor of a counter's value: a 64-bit sum, and 0 where its top bit would be set.
unfoldable pub next_count : ℕ → ℕ
next_count v = if leb (2 ^ 63) ((v + 1) % 2 ^ 64) then 0 else (v + 1) % 2 ^ 64

module _ {W : Type 0} (k : Kernel W) where
  -- `vcntr[i]`, 64 bits
  abbrev pub vcntr : Memory → ℕ → ℕ
  vcntr ram i = load 8 ram (vcntr_at k i)

  bump : Memory → ℕ → Memory
  bump ram i = store 8 ram (vcntr_at k i) ((load 8 ram (vcntr_at k i) + 1) % 2 ^ 64)

  pub counted : Memory → ℕ → Memory
  unfolding bump
  counted ram i =
      if has (load 8 (bump ram i) (vcntr_at k i)) v_counter_ovflow_value
      then store 8 (bump ram i) (vcntr_at k i) 0
      else bump ram i

  pub rolled : Memory → ℕ → ℕ
  unfolding bump
  rolled ram i = if has (load 8 (bump ram i) (vcntr_at k i)) v_counter_ovflow_value then 1 else 0

  pub v_counter_inc-counted :
      (i : ℕ) (m : Machine W)
      → v_counter_inc k i m ≡ (ok (rolled m.ram i), record m { ram = counted m.ram i })
  unfolding v_counter_inc counted rolled
  v_counter_inc-counted i m = ground arith

  pub overflow_test : (v : ℕ) → v < 2 ^ 64 → has v v_counter_ovflow_value ≡ leb (2 ^ 63) v
  overflow_test v h = ground (arith, has-pow v 63, bit_top 63 v)

  vcntr-counted_self : (ram : Memory) (i : ℕ) → vcntr (counted ram i) i ≡ next_count (vcntr ram i)
  unfolding counted next_count
  vcntr-counted_self ram i = ground (
    arith,
    overflow_test ((load 8 ram (vcntr_at k i) + 1) % 2 ^ 64),
    load-store_self 8 ram (vcntr_at k i) ((load 8 ram (vcntr_at k i) + 1) % 2 ^ 64) (omega arith),
    load-store_self 8 (bump ram i) (vcntr_at k i) 0 (omega arith),
  )

  pub counted-outside :
      (ram : Memory) (i x : ℕ)
      → (x < vcntr_at k i) ⊎ (vcntr_at k i + 8 ≤ x)
      → counted ram i x ≡ ram x
  unfolding counted
  counted-outside ram i x h = ground (
    arith,
    store-outside 8 (bump ram i) (vcntr_at k i) 0 x h,
    store-outside 8 ram (vcntr_at k i) ((load 8 ram (vcntr_at k i) + 1) % 2 ^ 64) x h,
  )

  vcntr-counted_ne :
      (ram : Memory) (i j : ℕ) → (i < j) ⊎ (j < i) → vcntr (counted ram i) j ≡ vcntr ram j
  unfolding counted
  vcntr-counted_ne ram i j h = ground (
    arith,
    load-store_disjoint 8 8 (bump ram i) (vcntr_at k i) (vcntr_at k j) 0,
    load-store_disjoint 8 8 ram (vcntr_at k i) (vcntr_at k j)
        ((load 8 ram (vcntr_at k i) + 1) % 2 ^ 64),
  )

  pub vcntr-counted :
      (ram : Memory) (i j : ℕ)
      → vcntr (counted ram i) j ≡ (if i == j then next_count (vcntr ram j) else vcntr ram j)
  vcntr-counted ram i j = elim (ℕ_discrete i j) [
    | yes e ↦ let t : (i == j) ≡ true = ground arith in rw (t, ← e) (vcntr-counted_self ram i)
    | no ne ↦
        let t : (i == j) ≡ false = ground arith in rw t (vcntr-counted_ne ram i j (omega arith))
  ]
