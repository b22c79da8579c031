-- ===== src/Reservation/Words.antt =====
-- The masks of resource_reserve on a word, bit by bit.
use native.Mathlib.Nat.{pow-suc, le_refl}
use ls_dbg.Prelude.{ℕ, zero, suc, ◌^◌, ◌<◌, ◌≡◌, bit_and, bit_or, arith, ◌==◌, if◌then◌else◌, not}
use ls_dbg.Bits.{
  bit, has, bit-le, bit-bit_and, bit-bit_or, bit-pow, bit-complement, complement32, bit_or-lt,
  bit_and-le, eq_of_bits,
}

pub pow-lt : (i n : ℕ) → i < n → 2 ^ i < 2 ^ n
pow-lt zero zero h = absurd (omega arith)
pow-lt zero (suc n) h = omega (arith, pow_pos n, pow-suc 2 n)
  where
    pow_pos : (i : ℕ) → 0 < 2 ^ i
    pow_pos zero = omega arith
    pow_pos (suc i) = omega (arith, pow-suc 2 i, pow_pos i)
pow-lt (suc i) zero h = absurd (omega arith)
pow-lt (suc i) (suc n) h = omega (arith, pow-suc 2 i, pow-suc 2 n, pow-lt i n (omega arith))

-- Setting bit `i`
pub bit-set : (prev i j : ℕ) → bit (bit_or prev (2 ^ i)) j ≡ (if i == j then 1 else bit prev j)
bit-set prev i j = ground (arith, bit-bit_or j prev (2 ^ i), bit-pow i j, bit-le prev j)

-- Clearing bit `i`
pub bit-clear :
    (prev i j : ℕ)
    → i < 32
    → j < 32
    → bit (bit_and prev (complement32 (2 ^ i))) j ≡ (if i == j then 0 else bit prev j)
bit-clear prev i j h l = ground (
  arith,
  bit-bit_and j prev (complement32 (2 ^ i)),
  bit-complement 32 j (2 ^ i) (pow-lt i 32 h) l,
  bit-pow i j,
  bit-le prev j,
)

-- `prev & mask` is 0 exactly where the bit is.
pub test-clear : (prev i : ℕ) → (bit_and prev (2 ^ i) == 0) ≡ not (has prev (2 ^ i))
unfolding has
test-clear prev i = ground arith

-- Setting a clear bit and clearing it again gives back the word.
pub clear-set :
    (prev i : ℕ)
    → prev < 2 ^ 32
    → i < 32
    → bit prev i ≡ 0
    → bit_and (bit_or prev (2 ^ i)) (complement32 (2 ^ i)) ≡ prev
clear-set prev i p l z =
    eq_of_bits 32 _ prev
      (omega (
        arith,
        bit_and-le (bit_or prev (2 ^ i)) (bit_or prev (2 ^ i)) (complement32 (2 ^ i)) (le_refl _),
        bit_or-lt 32 prev (2 ^ i) p (pow-lt i 32 l),
      ))
      p (λ j h. ground (arith, bit-clear (bit_or prev (2 ^ i)) i j l h, bit-set prev i j))
