-- ===== src/Memory.antt =====
-- Byte-addressed memory, and little-endian words in it, as the ARM core stores them.
use native.Mathlib.Nat.{pow-suc, pow-succ', div-div-eq-div-mul, add-zero}
use ls_dbg.Prelude.{
  ℕ, zero, suc, ◌+◌, ◌*◌, ◌/◌, ◌%◌, ◌^◌, ◌≤◌, ◌<◌, ◌≡◌, refl, ◌∙◌, ◌⊎◌, inl, inr, arith, ◌==◌,
  if◌then◌else◌,
}

abbrev pub Memory : Type 0
Memory = ℕ → ℕ

unfoldable pub update : Memory → ℕ → ℕ → Memory
update mem a v x = if a == x then v else mem x

-- `n` bytes from address `a`, least significant first.
unfoldable pub load : ℕ → Memory → ℕ → ℕ
load zero mem a = 0
load (suc n) mem a = mem a + 256 * load n mem (a + 1)

unfoldable pub store : ℕ → Memory → ℕ → ℕ → Memory
unfolding update
store zero mem a v = mem
store (suc n) mem a v = store n (update mem a (v % 256)) (a + 1) (v / 256)

-- A store changes nothing outside its bytes.
pub store-outside :
    (n : ℕ) (mem : Memory) (a v x : ℕ) → (x < a) ⊎ (a + n ≤ x) → store n mem a v x ≡ mem x
unfolding store
store-outside zero mem a v x h = refl
store-outside (suc n) mem a v x h =
    store-outside n (update mem a (v % 256)) (a + 1) (v / 256) x (omega arith) ∙ ground arith

pub load-ext :
    (n : ℕ) (mem mem' : Memory) (a : ℕ)
    → ((x : ℕ) → a ≤ x → x < a + n → mem x ≡ mem' x)
    → load n mem a ≡ load n mem' a
unfolding load
load-ext zero mem mem' a h = refl
load-ext (suc n) mem mem' a h = omega (
  arith,
  h a (omega arith) (omega arith),
  load-ext n mem mem' (a + 1) (λ x p q. h x (omega arith) (omega arith)),
)

pub load-store_disjoint :
    (k n : ℕ) (mem : Memory) (a b v : ℕ)
    → (b + k ≤ a) ⊎ (a + n ≤ b)
    → load k (store n mem a v) b ≡ load k mem b
load-store_disjoint k n mem a b v h =
    load-ext k _ _ b (λ x p q. store-outside n mem a v x (split x p q h))
  where
    split : (x : ℕ) → b ≤ x → x < b + k → (b + k ≤ a) ⊎ (a + n ≤ b) → (x < a) ⊎ (a + n ≤ x)
    split x p q (inl l) = inl (omega arith)
    split x p q (inr r) = inr (omega arith)

-- What is stored is loaded again, if it fits.
pub load-store_self :
    (n : ℕ) (mem : Memory) (a v : ℕ) → v < 256 ^ n → load n (store n mem a v) a ≡ v
unfolding load store
load-store_self zero mem a v h = omega arith
load-store_self (suc n) mem a v h = omega (
  arith,
  load-store_self n (update mem a (v % 256)) (a + 1) (v / 256) (omega (arith, pow-suc 256 n)),
  store-outside n (update mem a (v % 256)) (a + 1) (v / 256) a (inl (omega arith)),
  self,
)
  where
    self : update mem a (v % 256) a ≡ v % 256
    self = ground arith

-- Memory of bytes: a load is a word of its size.
abbrev pub IsBytes : Memory → Type 0
IsBytes mem = (x : ℕ) → mem x < 256

pub store-IsBytes : (n : ℕ) (mem : Memory) (a v : ℕ) → IsBytes mem → IsBytes (store n mem a v)
unfolding store
store-IsBytes zero mem a v h x = h x
store-IsBytes (suc n) mem a v h x =
    store-IsBytes n (update mem a (v % 256)) (a + 1) (v / 256) (λ y. byte y (h y)) x
  where
    byte : (y : ℕ) → mem y < 256 → update mem a (v % 256) y < 256
    byte y p = ground arith

pub load-lt : (n : ℕ) (mem : Memory) (a : ℕ) → IsBytes mem → load n mem a < 256 ^ n
unfolding load
load-lt zero mem a h = omega arith
load-lt (suc n) mem a h = omega (arith, h a, load-lt n mem (a + 1) h, pow-suc 256 n)

-- Byte `i` of what is stored
pub store-inside :
    (n : ℕ) (mem : Memory) (a v i : ℕ) → i < n → store n mem a v (a + i) ≡ v / 256 ^ i % 256
unfolding store
store-inside zero mem a v i h = absurd (omega arith)
store-inside (suc n) mem a v zero h =
    rw add-zero
      (store-outside n (update mem a (v % 256)) (a + 1) (v / 256) a (inl (omega arith)) ∙ self)
  where
    self : update mem a (v % 256) a ≡ v / 1 % 256
    self = ground arith
store-inside (suc n) mem a v (suc i) h =
    let e : a + suc i ≡ a + 1 + i = omega arith in
    rw (e, pow-succ', ← div-div-eq-div-mul)
      (store-inside n (update mem a (v % 256)) (a + 1) (v / 256) i (omega arith))
