-- ===== src/Bits.antt =====
-- Bits of a machine word: the test of one bit, and how `&`, `|` and `~` act on it.
mod Digits
use native.Mathlib.Nat.{pow-suc, le_refl}
use ls_dbg.Prelude.{
  ℕ, zero, suc, ◌+◌, ◌-◌, ◌*◌, ◌/◌, ◌%◌, ◌^◌, ◌≤◌, ◌<◌, min, max, bit_and, bit_or, ◌≡◌, refl, Bool,
  not, arith, ◌==◌, if◌then◌else◌, ◌∙◌, ap, leb,
}
use Digits.{zero-bit_and, bit_and_step, bit_or_step}

-- Bit `i` of `a`, as 0 or 1.
abbrev pub bit : ℕ → ℕ → ℕ
bit a zero = a % 2
bit a (suc i) = bit (a / 2) i

-- The C test `if (x & mask)`.
unfoldable pub has : ℕ → ℕ → Bool
has x mask = not (bit_and x mask == 0)

-- `~x` of a 32-bit word.
abbrev pub complement32 : ℕ → ℕ
complement32 x = 2 ^ 32 - 1 - x

pub bit-le : (a i : ℕ) → bit a i ≤ 1
bit-le a zero = omega arith
bit-le a (suc i) = bit-le (a / 2) i

pub bit-bit_and : (i a b : ℕ) → bit (bit_and a b) i ≡ min (bit a i) (bit b i)
bit-bit_and zero a b = omega (arith, bit_and_step a b)
bit-bit_and (suc i) a b =
    let e : bit_and a b / 2 ≡ bit_and (a / 2) (b / 2) = omega (arith, bit_and_step a b) in
    ap (λ t. bit t i) e ∙ bit-bit_and i (a / 2) (b / 2)

pub bit-bit_or : (i a b : ℕ) → bit (bit_or a b) i ≡ max (bit a i) (bit b i)
bit-bit_or zero a b = omega (arith, bit_or_step a b)
bit-bit_or (suc i) a b =
    let e : bit_or a b / 2 ≡ bit_or (a / 2) (b / 2) = omega (arith, bit_or_step a b) in
    ap (λ t. bit t i) e ∙ bit-bit_or i (a / 2) (b / 2)

bit-zero : (i : ℕ) → bit 0 i ≡ 0
bit-zero zero = refl
bit-zero (suc i) = bit-zero i

pub bit-pow : (i j : ℕ) → bit (2 ^ i) j ≡ (if i == j then 1 else 0)
bit-pow zero zero = refl
bit-pow zero (suc j) = ground (arith, bit-zero j)
bit-pow (suc i) zero = ground (arith, pow-suc 2 i)
bit-pow (suc i) (suc j) =
    let e : 2 ^ suc i / 2 ≡ 2 ^ i = omega (arith, pow-suc 2 i) in
    ap (λ t. bit t j) e ∙ ground (arith, bit-pow i j)

pub bit-complement : (n i a : ℕ) → a < 2 ^ n → i < n → bit (2 ^ n - 1 - a) i ≡ 1 - bit a i
bit-complement zero i a h k = absurd (omega arith)
bit-complement (suc n) zero a h k = omega (arith, pow-suc 2 n)
bit-complement (suc n) (suc i) a h k =
    let e : (2 ^ suc n - 1 - a) / 2 ≡ 2 ^ n - 1 - a / 2 = omega (arith, pow-suc 2 n) in
    ap (λ t. bit t i) e ∙ bit-complement n i (a / 2) (omega (arith, pow-suc 2 n)) (omega arith)

-- A word under a mask is at most the mask.
pub bit_and-le_mask : (bound x mask : ℕ) → x ≤ bound → bit_and x mask ≤ mask
bit_and-le_mask bound zero mask h = omega (arith, zero-bit_and mask)
bit_and-le_mask zero (suc x) mask h = absurd (omega arith)
bit_and-le_mask (suc bound) (suc x) mask h =
    let half = bit_and-le_mask bound (suc x / 2) (mask / 2) (omega arith) in
    omega (arith, half, bit_and_step (suc x) mask)

bit_and-zero : (x : ℕ) → bit_and x 0 ≡ 0
bit_and-zero x = omega (arith, bit_and-le_mask x x 0 (le_refl x))

-- `x & (1 << i)` is that bit in its place.
pub bit_and-pow : (i a : ℕ) → bit_and a (2 ^ i) ≡ bit a i * 2 ^ i
bit_and-pow zero a = omega (arith, bit_and_step a 1, bit_and-zero (a / 2))
bit_and-pow (suc i) a =
    let e : 2 ^ suc i / 2 ≡ 2 ^ i = omega (arith, pow-suc 2 i) in
    let s : bit_and a (2 ^ suc i) ≡ 2 * bit_and (a / 2) (2 ^ i) =
      bit_and_step a (2 ^ suc i) ∙ omega (arith, ap (bit_and (a / 2)) e, pow-suc 2 i) in
    omega (
      arith,
      s,
      bit_and-pow i (a / 2),
      pow-suc 2 i,
      ap (λ (t : ℕ). bit (a / 2) i * t) (pow-suc 2 i),
    )

pow_pos : (i : ℕ) → 0 < 2 ^ i
pow_pos zero = omega arith
pow_pos (suc i) = omega (arith, pow_pos i, pow-suc 2 i)

pub has-pow : (a i : ℕ) → has a (2 ^ i) ≡ (bit a i == 1)
unfolding has
has-pow a i = grind (arith, bit_and-pow i a, bit-le a i, pow_pos i)

pub has-one : (a : ℕ) → has a 1 ≡ (a % 2 == 1)
has-one a = has-pow a 0

-- Words of `n` bits are closed under `|` and `&`, and equal if their bits are.
pub bit_or-lt : (n a b : ℕ) → a < 2 ^ n → b < 2 ^ n → bit_or a b < 2 ^ n
bit_or-lt zero zero zero p q = omega arith
bit_or-lt zero (suc a) b p q = absurd (omega arith)
bit_or-lt zero zero (suc b) p q = absurd (omega arith)
bit_or-lt (suc n) a b p q = omega (
  arith,
  bit_or_step a b,
  pow-suc 2 n,
  bit_or-lt n (a / 2) (b / 2) (omega (arith, pow-suc 2 n)) (omega (arith, pow-suc 2 n)),
)

pub bit_and-le : (n a b : ℕ) → a ≤ n → bit_and a b ≤ a
bit_and-le n zero b h = omega (arith, zero-bit_and b)
bit_and-le zero (suc a) b h = absurd (omega arith)
bit_and-le (suc n) (suc a) b h =
    omega (arith, bit_and_step (suc a) b, bit_and-le n (suc a / 2) (b / 2) (omega arith))

pub eq_of_bits : (n a b : ℕ) → a < 2 ^ n → b < 2 ^ n → ((i : ℕ) → i < n → bit a i ≡ bit b i) → a ≡ b
eq_of_bits zero a b p q h = omega arith
eq_of_bits (suc n) a b p q h = omega (
  arith,
  h 0 (omega arith),
  eq_of_bits n (a / 2) (b / 2) (omega (arith, pow-suc 2 n)) (omega (arith, pow-suc 2 n))
      (λ i l. h (suc i) (omega arith)),
)

-- The top bit of a word of `n + 1` bits.
pub bit_top : (n a : ℕ) → a < 2 ^ suc n → bit a n ≡ (if leb (2 ^ n) a then 1 else 0)
bit_top zero a h = ground arith
bit_top (suc n) a h =
    ground
      (arith, pow-suc 2 n, pow-suc 2 (suc n), bit_top n (a / 2) (omega (arith, pow-suc 2 (suc n))))

pub bit_and_7-le : (a : ℕ) → bit_and a 7 ≤ 7
bit_and_7-le a = bit_and-le_mask a a 7 (le_refl a)

bit_and_0x0e : (a : ℕ) → bit_and a 0x0e ≡ bit_and (a / 2) 7 * 2
bit_and_0x0e a = omega (arith, bit_and_step a 0x0e)

bit_and_0x1c : (a : ℕ) → bit_and a 0x1c ≡ bit_and (a / 2 / 2) 7 * 4
bit_and_0x1c a = omega (arith, bit_and_step a 0x1c, bit_and_0x0e (a / 2))

bit_and_0x38 : (a : ℕ) → bit_and a 0x38 ≡ bit_and (a / 2 / 2 / 2) 7 * 8
bit_and_0x38 a = omega (arith, bit_and_step a 0x38, bit_and_0x1c (a / 2))

-- A field of three bits above four
pub bit_and_0x70 : (a : ℕ) → bit_and a 0x70 ≡ bit_and (a / 2 / 2 / 2 / 2) 7 * 16
bit_and_0x70 a = omega (arith, bit_and_step a 0x70, bit_and_0x38 (a / 2))

bit_or-zero : (n a : ℕ) → a ≤ n → bit_or a 0 ≡ a
bit_or-zero n zero h = refl
bit_or-zero zero (suc a) h = absurd (omega arith)
bit_or-zero (suc n) (suc a) h =
    omega (arith, bit_or_step (suc a) 0, bit_or-zero n (suc a / 2) (omega arith))

-- Fields that do not overlap add up.
pub bit_or_fields : (n high low : ℕ) → low < 2 ^ n → bit_or (high * 2 ^ n) low ≡ high * 2 ^ n + low
bit_or_fields zero high low h =
    let e : low ≡ 0 = omega arith in
    rw e (bit_or-zero (high * 1) (high * 1) (le_refl _) ∙ omega arith)
bit_or_fields (suc n) high low h =
    let p : high * 2 ^ suc n ≡ high * 2 ^ n * 2 =
      omega (arith, ap (λ (t : ℕ). high * t) (pow-suc 2 n)) in
    let e : high * 2 ^ suc n / 2 ≡ high * 2 ^ n = omega (arith, p) in
    omega (
      arith,
      p,
      bit_or_step (high * 2 ^ suc n) low,
      ap (λ t. bit_or t (low / 2)) e,
      bit_or_fields n high (low / 2) (omega (arith, pow-suc 2 n)),
    )
