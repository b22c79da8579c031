-- ===== src/Capture/Quiet.antt =====
-- The two loops of a capture on registers that a read does not change.
use native.Mathlib.Nat.{mod-eq_of_lt}
use ls_dbg.Prelude.{ℕ, zero, suc, ◌+◌, ◌*◌, ◌/◌, ◌^◌, ◌≤◌, ◌<◌, ◌≡◌, refl, arith, List, [], ◌∷◌}
use ls_dbg.Memory.{Memory}
use ls_dbg.Kernel.{Kernel, Machine, ok}
use ls_dbg.TraceIp.{epu, epcapr_offset}
use ls_dbg.ShiftLoop.SetBits.{set_bits, each}
use ls_dbg.ShiftLoop.Each.{shift_loop-each, last_index}
use ls_dbg.RegAccess.Tables.{IsMapped, read_reg_io-mapped}
use ls_dbg.Capture.{read_epu, save_capture, save_captures, record_capture, record_captures}
use ls_dbg.Capture.Slots.{IsQuiet, save_in, record_in}
use ls_dbg.Capture.Value.{record_capture-eq}

pub last_index-le : (n i c : ℕ) → last_index n i c ≤ i + n
unfolding last_index
last_index-le zero i c = omega arith
last_index-le (suc n) i c = ground (arith, last_index-le n (i + 1) (c / 2))

module _ {W : Type 0} (k : Kernel W) (peek : ℕ → W → ℕ) where
  module _ (law : IsQuiet k peek) where
    pub read_epu_quiet :
        (m : Machine W) (off : ℕ)
        → IsMapped k m.maps epu 0x1000
        → off < 0x1000
        → read_epu k off m ≡ (ok (peek ((m.maps epu).base_addr + off) m.world), m)
    unfolding read_epu
    read_epu_quiet m off v l =
        rw
          (
            read_reg_io-mapped k m epu 0x1000 off (omega arith) v l,
            law.read ((m.maps epu).base_addr + off) m.world,
            mod-eq_of_lt (law.word ((m.maps epu).base_addr + off) m.world),
          )
          refl

    in_ram : (ℕ → W → ℕ → Memory → Memory) → ℕ → Machine W → Machine W
    in_ram act i m = record m { ram = act (m.maps epu).base_addr m.world i m.ram }

    each-in_ram :
        (act : ℕ → W → ℕ → Memory → Memory) (is : List ℕ) (m : Machine W)
        → each (in_ram act) is m
          ≡ record m { ram = each (act (m.maps epu).base_addr m.world) is m.ram }
    unfolding in_ram
    each-in_ram act [] m = refl
    each-in_ram act (i ∷ is) m = each-in_ram act is (in_ram act i m)

    pub save_captures_quiet :
        (c : ℕ) (m : Machine W)
        → IsMapped k m.maps epu 0x1000
        → c < 2 ^ 32
        → save_captures k c m ≡ (
          ok (last_index 32 0 c),
          record m {
            ram = each (save_in k peek (m.maps epu).base_addr m.world) (set_bits 32 0 c) m.ram;
          },
        )
    unfolding save_captures in_ram save_in save_capture
    save_captures_quiet c m v h = rw (← each-in_ram (save_in k peek) (set_bits 32 0 c) m) (
        shift_loop-each (save_capture k) (in_ram (save_in k peek))
          (λ n. IsMapped k n.maps epu 0x1000)
          (λ i n l w. rw (read_epu_quiet n (epcapr_offset + i * 4) w (omega arith)) refl)
          (λ i n w. w) 32 0 c m v h (omega arith))

    pub record_captures_quiet :
        (c : ℕ) (m : Machine W)
        → IsMapped k m.maps epu 0x1000
        → c < 2 ^ 32
        → record_captures k c m ≡ (
          ok tt,
          record m {
            ram = each (record_in k peek (m.maps epu).base_addr m.world) (set_bits 32 0 c) m.ram;
          },
        )
    unfolding record_captures in_ram record_in
    record_captures_quiet c m v h =
        rw
          (
            ← each-in_ram (record_in k peek) (set_bits 32 0 c) m,
            shift_loop-each (record_capture k) (in_ram (record_in k peek))
                (λ n. IsMapped k n.maps epu 0x1000)
                (λ i n l w.
                  record_capture-eq k n i _ n.world w l (law.read _ n.world) (law.word _ n.world))
                (λ i n w. w) 32 0 c m v h (omega arith),
          )
          refl
