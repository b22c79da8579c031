-- ===== src/Bits/Digits.antt =====
-- `&` and `|` of words, one binary digit at a time.
use Prim.Native.Nat.{digits, bit_and-bitwise, bit_or-bitwise}
use ls_dbg.Prelude.{
  ℕ, zero, suc, ◌+◌, ◌*◌, ◌/◌, ◌%◌, ◌≤◌, min, max, bit_and, bit_or, ◌≡◌, refl, arith,
}

-- The digit recursion gives the same number whatever the spare fuel.
spare_fuel :
    (z : ℕ → ℕ) (f : ℕ → ℕ → ℕ) (more n a b : ℕ)
    → a ≤ n
    → n ≤ more
    → digits z f more a b ≡ digits z f n a b
spare_fuel z f zero zero zero b p q = refl
spare_fuel z f zero zero (suc a) b p q = absurd (omega arith)
spare_fuel z f zero (suc n) a b p q = absurd (omega arith)
spare_fuel z f (suc more) zero zero b p q = refl
spare_fuel z f (suc more) zero (suc a) b p q = absurd (omega arith)
spare_fuel z f (suc more) (suc n) zero b p q = refl
spare_fuel z f (suc more) (suc n) (suc a) b p q =
    rw (spare_fuel z f more n (suc a / 2) (b / 2) (omega arith) (omega arith))

-- The lowest digit and the rest, for a left word that is not 0.
split_digits :
    (z : ℕ → ℕ) (f : ℕ → ℕ → ℕ) (x y : ℕ)
    → digits z f (suc x) (suc x) y
      ≡ f (suc x % 2) (y % 2) + 2 * digits z f (suc x / 2) (suc x / 2) (y / 2)
split_digits z f x y =
    let rest = spare_fuel z f x (suc x / 2) (suc x / 2) (y / 2) (omega arith) (omega arith) in
    omega (arith, rest)

pub zero-bit_and : (y : ℕ) → bit_and 0 y ≡ 0
zero-bit_and y = bit_and-bitwise 0 y

pub bit_and_step : (x y : ℕ) → bit_and x y ≡ min (x % 2) (y % 2) + 2 * bit_and (x / 2) (y / 2)
bit_and_step zero y = omega (arith, zero-bit_and y, zero-bit_and (y / 2))
bit_and_step (suc x) y =
    let whole = bit_and-bitwise (suc x) y in
    let rest = bit_and-bitwise (suc x / 2) (y / 2) in
    omega (arith, split_digits (λ t. 0) min x y, whole, rest)

pub bit_or_step : (x y : ℕ) → bit_or x y ≡ max (x % 2) (y % 2) + 2 * bit_or (x / 2) (y / 2)
bit_or_step zero y =
    let whole = bit_or-bitwise 0 y in
    let rest = bit_or-bitwise 0 (y / 2) in omega (arith, whole, rest)
bit_or_step (suc x) y =
    let whole = bit_or-bitwise (suc x) y in
    let rest = bit_or-bitwise (suc x / 2) (y / 2) in
    omega (arith, split_digits (λ t. t) max x y, whole, rest)
