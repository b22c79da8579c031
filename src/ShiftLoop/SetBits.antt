-- ===== src/ShiftLoop/SetBits.antt =====
-- The set bits of a word, and what an action for each of them does to slots numbered like them.
use native.Mathlib.Decide.{ℕ_discrete}
use ls_dbg.Prelude.{
  ℕ, zero, suc, ◌+◌, ◌/◌, ◌%◌, ◌≤◌, ◌<◌, ◌≡◌, refl, Bool, ◌&&◌, ◌||◌, true, false, arith, ◌==◌,
  if◌then◌else◌, List, [], ◌∷◌,
}
use ls_dbg.Bits.{bit}

-- The numbers of the set bits of `c` below `n`, counted from `i`, lowest first.
unfoldable pub set_bits : ℕ → ℕ → ℕ → List ℕ
set_bits zero i c = []
set_bits (suc n) i c =
    let rest = set_bits n (i + 1) (c / 2) in if c % 2 == 1 then i ∷ rest else rest

pub set_bits-zero : (n i : ℕ) → set_bits n i 0 ≡ []
unfolding set_bits
set_bits-zero zero i = refl
set_bits-zero (suc n) i = set_bits-zero n (i + 1)

-- Whether `j` is the number of a set bit of `c`, counted from `i`, among `n` bits.
unfoldable pub is_hit : ℕ → ℕ → ℕ → ℕ → Bool
is_hit zero i c j = false
is_hit (suc n) i c j = (c % 2 == 1 && i == j) || is_hit n (i + 1) (c / 2) j

is_hit_below : (n i c j : ℕ) → j < i → is_hit n i c j ≡ false
unfolding is_hit
is_hit_below zero i c j h = refl
is_hit_below (suc n) i c j h = ground (arith, is_hit_below n (i + 1) (c / 2) j)

pub is_hit-bit : (n c i j : ℕ) → j < n → is_hit n i c (i + j) ≡ (bit c j == 1)
unfolding is_hit
is_hit-bit zero c i j h = absurd (omega arith)
is_hit-bit (suc n) c i zero h = ground (arith, is_hit_below n (i + 1) (c / 2) (i + 0))
is_hit-bit (suc n) c i (suc j) h =
    let e : i + suc j ≡ (i + 1) + j = omega arith in
    rw e (ground (arith, is_hit-bit n (c / 2) (i + 1) j))

-- A slot that was changed at bit `i` is not met again.
once :
    {A : Type 0} (f : ℕ → A → A) (n i c j : ℕ) (v : A)
    → (if is_hit n (i + 1) c j
        then f j (if i == j then f j v else v)
        else (if i == j then f j v else v))
      ≡ (if (i == j) || is_hit n (i + 1) c j then f j v else v)
once f n i c j v = elim (ℕ_discrete i j) [
  | yes e ↦
      let t : (i == j) ≡ true = ground arith in rw (t, is_hit_below n (i + 1) c j (omega arith))
  | no ne ↦ let t : (i == j) ≡ false = ground arith in rw t
]

-- One action for each index of a list, in order.
abbrev pub each : {S : Type 0} → (ℕ → S → S) → List ℕ → S → S
each act [] s = s
each act (i ∷ is) s = each act is (act i s)

-- What is seen of slot `j` after an action that changes slot `i` only, as `f` says.
abbrev pub IsLocal : {S A : Type 0} → (ℕ → S → S) → (S → ℕ → A) → (ℕ → A → A) → Type 0
IsLocal {S = S} act seen f =
    (i j : ℕ) (s : S)
    → i < 32
    → j < 32
    → seen (act i s) j ≡ (if i == j then f j (seen s j) else seen s j)

-- Each slot at a set bit is changed once, whatever the others do.
pub seen-each :
    {S A : Type 0} (act : ℕ → S → S) (seen : S → ℕ → A) (f : ℕ → A → A)
    → IsLocal act seen f
    → (n i c j : ℕ) (s : S) → i + n ≤ 32
    → j < 32
    → seen (each act (set_bits n i c) s) j ≡ (if is_hit n i c j then f j (seen s j) else seen s j)
unfolding set_bits is_hit
seen-each act seen f law zero i c j s b l = refl
seen-each act seen f law (suc n) i c j s b l = elim (ℕ_discrete (c % 2) 1) [
  | yes odd ↦
      let t : (c % 2 == 1) ≡ true = ground arith in
      rw
        (
          t,
          seen-each act seen f law n (i + 1) (c / 2) j (act i s) (omega arith) l,
          law i j s (omega arith) l,
        )
        (once f n i (c / 2) j (seen s j))
  | no even ↦
      let t : (c % 2 == 1) ≡ false = ground arith in
      rw t (seen-each act seen f law n (i + 1) (c / 2) j s (omega arith) l)
]
