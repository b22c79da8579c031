-- ===== src/Vcounters/Update.antt =====
-- What `update_vcounters` does to the counters, the rest of memory and the bus.
use native.Mathlib.Nat.{mod-eq_of_lt, zero-add}
use ls_dbg.Prelude.{
  ℕ, zero, suc, ◌+◌, ◌*◌, ◌/◌, ◌^◌, ◌≤◌, ◌<◌, ◌≡◌, refl, ◌∙◌, ◌⊎◌, arith, ◌==◌, if◌then◌else◌, List,
  [], ◌∷◌,
}
use ls_dbg.Bits.{bit}
use ls_dbg.Memory.{Memory}
use ls_dbg.Kernel.{Kernel, Machine, ok}
use ls_dbg.TraceIp.{epu, epctrisr_offset, epctr_offset}
use ls_dbg.ShiftLoop.SetBits.{set_bits, is_hit, is_hit-bit, each, seen-each}
use ls_dbg.ShiftLoop.Each.{shift_loop-each}
use ls_dbg.RegAccess.Tables.{IsMapped, write_reg_io-mapped}
use ls_dbg.Vcounters.Count.{
  next_count, vcntr, counted, counted-outside, vcntr-counted, v_counter_inc-counted,
}
use ls_dbg.Vcounters.{vcntr_at, overflow_counter, shift_overflows, update_vcounters}

module _ {W : Type 0} (k : Kernel W) where
  -- A zero written to each of these counters' EPCTR registers, in order.
  abbrev pub clear_counters : ℕ → List ℕ → W → W
  clear_counters base [] w = w
  clear_counters base (i ∷ is) w =
      clear_counters base is (k.iowrite32 0 (base + (epctr_offset + i * 4)) w)

  abbrev pub counted_all : List ℕ → Memory → Memory
  counted_all = each (λ i ram. counted k ram i)

  overflow_counter-mapped :
      (m : Machine W) (i : ℕ)
      → IsMapped k m.maps epu 0x1000
      → i < 32
      → overflow_counter k i m ≡ (
        ok tt,
        record m {
          ram = counted k m.ram i;
          world = k.iowrite32 0 ((m.maps epu).base_addr + (epctr_offset + i * 4)) m.world;
        },
      )
  unfolding overflow_counter
  overflow_counter-mapped m i v l = ground (
    arith,
    v_counter_inc-counted k i m,
    write_reg_io-mapped k (record m { ram = counted k m.ram i }) epu 0x1000 (epctr_offset + i * 4) 0
        (omega arith) v (omega arith),
  )

  overflowed : ℕ → Machine W → Machine W
  overflowed i m = record m {
    ram = counted k m.ram i;
    world = k.iowrite32 0 ((m.maps epu).base_addr + (epctr_offset + i * 4)) m.world;
  }

  each-overflowed :
      (is : List ℕ) (m : Machine W)
      → each overflowed is m ≡ record m {
        ram = counted_all is m.ram;
        world = clear_counters (m.maps epu).base_addr is m.world;
      }
  unfolding overflowed
  each-overflowed [] m = refl
  each-overflowed (i ∷ is) m = each-overflowed is (overflowed i m)

  shift_overflows_lem :
      (c : ℕ) (m : Machine W)
      → IsMapped k m.maps epu 0x1000
      → c < 2 ^ 32
      → shift_overflows k c m ≡ (
        ok tt,
        record m {
          ram = counted_all (set_bits 32 0 c) m.ram;
          world = clear_counters (m.maps epu).base_addr (set_bits 32 0 c) m.world;
        },
      )
  unfolding shift_overflows overflowed
  shift_overflows_lem c m v h =
      rw
        (
          shift_loop-each (overflow_counter k) overflowed (λ n. IsMapped k n.maps epu 0x1000)
              (λ i n l w. overflow_counter-mapped n i w l) (λ i n w. w) 32 0 c m v h (omega arith),
          each-overflowed (set_bits 32 0 c) m,
        )
        refl

  pub update_vcounters-eq :
      (m : Machine W) (c : ℕ)
      → IsMapped k m.maps epu 0x1000
      → c < 2 ^ 32
      → update_vcounters k c m ≡ (
        ok tt,
        record m {
          ram = counted_all (set_bits 32 0 c) m.ram;
          world =
              clear_counters
                (m.maps epu).base_addr
                (set_bits 32 0 c)
                (k.iowrite32 c ((m.maps epu).base_addr + epctrisr_offset) m.world);
        },
      )
  unfolding update_vcounters
  update_vcounters-eq m c v h =
      rw
        (
          write_reg_io-mapped k m epu 0x1000 epctrisr_offset c (omega arith) v (omega arith),
          mod-eq_of_lt h,
        )
        (shift_overflows_lem c _ v h)

  -- The value of each counter after the counters of a list were stepped.
  pub vcntr-counted_all :
      (n i c j : ℕ) (ram : Memory)
      → i + n ≤ 32
      → j < 32
      → vcntr k (counted_all (set_bits n i c) ram) j
        ≡ (if is_hit n i c j then next_count (vcntr k ram j) else vcntr k ram j)
  vcntr-counted_all =
      seen-each (λ i ram. counted k ram i) (vcntr k) (λ i. next_count)
        (λ i j ram h l. vcntr-counted k ram i j)

  -- Nothing outside the array is touched.
  counted_all-outside :
      (n i c x : ℕ) (ram : Memory)
      → (x < vcntr_at k 0) ⊎ (vcntr_at k (i + n) ≤ x)
      → counted_all (set_bits n i c) ram x ≡ ram x
  unfolding set_bits
  counted_all-outside zero i c x ram h = refl
  counted_all-outside (suc n) i c x ram h = ground (
    arith,
    counted_all-outside n (i + 1) (c / 2) x ram,
    counted_all-outside n (i + 1) (c / 2) x (counted k ram i),
    counted-outside k ram i x,
  )

  -- `update_vcounters` with any status word ends with success. It steps exactly the counters whose
  -- bit is set, changes no memory outside the array of counters, acknowledges the status word and
  -- then zeroes the EPCTR registers of those counters in ascending order, and leaves the rest of the
  -- driver's state as it was. The EPU must be mapped.
  pub update_vcounters_lem :
      (m : Machine W) (c : ℕ)
      → IsMapped k m.maps epu 0x1000
      → c < 2 ^ 32
      → let (r, m') = update_vcounters k c m in
        (r ≡ ok tt)
        × ((j : ℕ)
            → j < 32
            → vcntr k m'.ram j
              ≡ (if bit c j == 1 then next_count (vcntr k m.ram j) else vcntr k m.ram j))
        × ((x : ℕ) → (x < k.vcnt_addr + 72) ⊎ (k.vcnt_addr + 328 ≤ x) → m'.ram x ≡ m.ram x)
        × (m'.world
            ≡ clear_counters
                (m.maps epu).base_addr
                (set_bits 32 0 c)
                (k.iowrite32 c ((m.maps epu).base_addr + epctrisr_offset) m.world))
        × (m' ≡ record m { ram = m'.ram; world = m'.world })
  update_vcounters_lem m c v h = rw (update_vcounters-eq m c v h) (
    refl,
    (λ j l. vcntr-counted_all 32 0 c j m.ram (omega arith) l ∙ rw (hit j l)),
    (λ x o. counted_all-outside 32 0 c x m.ram (omega arith)),
    refl,
    refl,
  )
    where
      hit : (j : ℕ) → j < 32 → is_hit 32 0 c j ≡ (bit c j == 1)
      hit j l = rw zero-add at (is_hit-bit 32 c 0 j l)
