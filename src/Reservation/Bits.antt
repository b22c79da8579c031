-- ===== src/Reservation/Bits.antt =====
-- The critical sections of resource_reserve on a reservation register.
use ls_dbg.Prelude.{ℕ, ◌^◌, ◌<◌, ◌≡◌, bit_and, bit_or, arith}
use ls_dbg.Bits.{bit, has-pow, complement32}
use ls_dbg.Kernel.{Kernel, Machine, ok, err, neg, eperm, ebusy}
use ls_dbg.Reservation.{reserve_bit, relinquish_bit}
use ls_dbg.Reservation.Words.{test-clear}

module _ {W : Type 0} (k : Kernel W) where
  -- The register at address `reg` is a plain 32-bit word: a read gives the word that the world
  -- holds and changes nothing, and a write puts the word there. EPRSRV registers are documented so.
  pub record IsWord (reg : ℕ) (peek : W → ℕ) : Type 0 where
    pub read : (w : W) → k.ioread32 reg w ≡ (peek w, w)
    pub write : (v : ℕ) (w : W) → v < 2 ^ 32 → peek (k.iowrite32 v reg w) ≡ v
    pub word : (w : W) → peek w < 2 ^ 32

  module _ (reg : ℕ) (peek : W → ℕ) (law : IsWord reg peek) where
    pub reserve_busy :
        (m : Machine W) (i : ℕ)
        → bit (peek m.world) i ≡ 1
        → reserve_bit k reg (2 ^ i) m ≡ (err (neg ebusy), m)
    unfolding reserve_bit
    reserve_busy m i h = ground (arith, law.read m.world, has-pow (peek m.world) i)

    pub reserve_free :
        (m : Machine W) (i : ℕ)
        → bit (peek m.world) i ≡ 0
        → reserve_bit k reg (2 ^ i) m
          ≡ (ok tt, record m { world = k.iowrite32 (bit_or (peek m.world) (2 ^ i)) reg m.world })
    unfolding reserve_bit
    reserve_free m i h = ground (arith, law.read m.world, has-pow (peek m.world) i)

    pub relinquish_free :
        (m : Machine W) (i : ℕ)
        → bit (peek m.world) i ≡ 0
        → relinquish_bit k reg (2 ^ i) m ≡ (err (neg eperm), m)
    unfolding relinquish_bit
    relinquish_free m i h =
        ground (arith, law.read m.world, has-pow (peek m.world) i, test-clear (peek m.world) i)

    pub relinquish_busy :
        (m : Machine W) (i : ℕ)
        → bit (peek m.world) i ≡ 1
        → relinquish_bit k reg (2 ^ i) m ≡ (
          ok tt,
          record m {
            world = k.iowrite32 (bit_and (peek m.world) (complement32 (2 ^ i))) reg m.world;
          },
        )
    unfolding relinquish_bit
    relinquish_busy m i h =
        ground (arith, law.read m.world, has-pow (peek m.world) i, test-clear (peek m.world) i)
