-- ===== src/Fine.antt =====
-- Calls that end and leave the driver's tables and locks as they found them, whatever the devices and
-- the callers' memory do.
use native.Mathlib.Nat.{pow-suc}
use ls_dbg.Prelude.{
  ℕ, zero, suc, ◌+◌, ◌/◌, ◌^◌, ◌<◌, ◌≡◌, ◌≢◌, ◌∙◌, refl, ap, true, false, arith, ◌==◌,
  if◌then◌else◌, Bool,
}
use ls_dbg.Bits.{has}
use ls_dbg.Kernel.{
  Machine, MapInfo, Driver, Outcome, ok, err, hang, and_then, vc_locked, reg_acc_locked,
}
use ls_dbg.ShiftLoop.{shift_loop}

-- The map table, `ls_dbg_epu_ptr` and the two locks
abbrev pub kept : {W : Type 0} → Machine W → (ℕ → MapInfo) × ℕ × Bool × Bool
kept m = (m.maps, m.epu_ptr, m.vc_lock, m.reg_acc_lock)

-- A result that is no `hang`, with these as in the machine before.
pub record IsFine {W A : Type 0} (m : Machine W) (r : Outcome A × Machine W) : Type 0 where
  pub ends : r.0 ≢ hang
  pub keeps : kept r.1 ≡ kept m

abbrev pub Fine : {W A : Type 0} → Driver W A → Type 0
Fine {W = W} d = (m : Machine W) → IsFine m (d m)

pub and_then-IsFine :
    {W A B : Type 0} (m : Machine W) (r : Outcome A × Machine W) (f : A → Driver W B)
    → IsFine m r
    → ((a : A) → Fine (f a))
    → IsFine m (and_then r f)
and_then-IsFine m (ok a, n) f h g = record { ends = (g a n).ends; keeps = (g a n).keeps ∙ h.keeps }
and_then-IsFine m (err e, n) f h g = record { ends = λ p. cc; keeps = h.keeps }
and_then-IsFine m (hang, n) f h g = absurd (h.ends refl)

pub if-IsFine :
    {W A : Type 0} (m : Machine W) (b : Bool) (r s : Outcome A × Machine W)
    → IsFine m r
    → IsFine m s
    → IsFine m (if b then r else s)
if-IsFine m true r s h g = h
if-IsFine m false r s h g = g

pub if-Fine :
    {W A : Type 0} (b : Bool) (d e : Driver W A) → Fine d → Fine e → Fine (if b then d else e)
if-Fine true d e h g = h
if-Fine false d e h g = g

pub kept-if :
    {W : Type 0} (b : Bool) (m x y : Machine W)
    → kept x ≡ kept m
    → kept y ≡ kept m
    → kept (if b then x else y) ≡ kept m
kept-if true m x y h g = h
kept-if false m x y h g = g

pub ok-IsFine : {W A : Type 0} (m n : Machine W) (a : A) → kept n ≡ kept m → IsFine m (ok a, n)
ok-IsFine m n a l = record { ends = λ p. cc; keeps = l }

pub err-IsFine :
    {W A : Type 0} (m n : Machine W) (e : ℕ) → kept n ≡ kept m → IsFine {A = A} m (err e, n)
err-IsFine m n e l = record { ends = λ p. cc; keeps = l }

pub done-IsFine : {W A : Type 0} (m : Machine W) (a : A) → IsFine m (ok a, m)
done-IsFine m a = ok-IsFine m m a refl

-- A loop of which every round is fine, with as many rounds of fuel as the word has bits
pub shift_loop-Fine :
    {W : Type 0} (body : ℕ → Driver W (Unit {0}))
    → ((i : ℕ) → Fine (body i))
    → (fuel i c : ℕ) → c < 2 ^ fuel
    → Fine (shift_loop body fuel i c)
unfolding shift_loop
shift_loop-Fine body fine zero i c h m =
    let t : (c == 0) ≡ true = ground arith in rw t (done-IsFine m i)
shift_loop-Fine body fine (suc fuel) i c h m = if-IsFine m (c == 0) _ _ (done-IsFine m i) (
    and_then-IsFine m _ _ (if-IsFine m (has c 1) _ _ (fine i m) (done-IsFine m tt))
      (λ a. shift_loop-Fine body fine fuel (i + 1) (c / 2) (omega (arith, pow-suc 2 fuel))))

-- A fine body under a free lock
pub vc_locked-IsFine :
    {W A : Type 0} (body : Driver W A) (m : Machine W)
    → m.vc_lock ≡ false
    → Fine body
    → IsFine m (vc_locked body m)
unfolding vc_locked
vc_locked-IsFine body m free fine =
    let inside = fine (record m { vc_lock = true }) in
    rw free (record { ends = inside.ends; keeps = ap (λ t. (t.0, t.1, false, t.3)) inside.keeps })

pub reg_acc_locked-IsFine :
    {W A : Type 0} (body : Driver W A) (m : Machine W)
    → m.reg_acc_lock ≡ false
    → Fine body
    → IsFine m (reg_acc_locked body m)
unfolding reg_acc_locked
reg_acc_locked-IsFine body m free fine =
    let inside = fine (record m { reg_acc_lock = true }) in
    rw free (record { ends = inside.ends; keeps = ap (λ t. (t.0, t.1, t.2, false)) inside.keeps })
