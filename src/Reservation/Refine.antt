-- ===== src/Reservation/Refine.antt =====
-- resource_reserve implements the set of `Spec`, under its lock and on its register.
use native.Mathlib.Nat.{le_refl}
use ls_dbg.Prelude.{
  ℕ, ◌^◌, ◌≤◌, ◌<◌, ◌≡◌, ◌≢◌, ◌⊎◌, inl, inr, bit_and, bit_or, true, false, arith, ◌==◌, leb, refl,
  Bool-cases, le→leb, lt→leb_false, leb→le, leb_false→lt, List, [], ◌∷◌, some,
}
use ls_dbg.Bits.{bit, bit-le, complement32, bit_or-lt, bit_and-le}
use ls_dbg.Kernel.{Kernel, Machine, Outcome, err, Driver, neg, einval, reg_acc_locked}
use ls_dbg.Reservation.{
  ResourceGroup, epu_counter, epu_group, scu_event, gdpescr, group_size, reservation_at,
  reserve_bit, relinquish_bit, reserve_command, reserve_in, res_reserve, res_relinq,
}
use ls_dbg.Reservation.Spec.{
  Request, reserve, relinquish, Taken, spec_step, spec_reserve, spec_relinquish, put,
}
use ls_dbg.Reservation.Words.{pow-lt, bit-set, bit-clear}
use ls_dbg.Reservation.Bits.{IsWord, reserve_busy, reserve_free, relinquish_busy, relinquish_free}

group_size-le : (g : ResourceGroup) → group_size g ≤ 32
unfolding group_size
group_size-le epu_counter = omega arith
group_size-le epu_group = omega arith
group_size-le scu_event = omega arith
group_size-le gdpescr = omega arith

module _ {W : Type 0} (k : Kernel W) where
  -- The three ioctl numbers are distinct, as `_IOWR` makes them.
  pub record AreDistinct : Type 0 where
    pub relinq_ne : res_relinq k ≢ res_reserve k

  -- The call that carries a request.
  unfoldable pub request : ResourceGroup → Request → Driver W (Unit {0})
  request g (reserve i) =
      reserve_in k (res_reserve k) (record { resource_grp_id = 0; res_index = i; res_usage = 0 })
        (some g)
  request g (relinquish i) =
      reserve_in k (res_relinq k) (record { resource_grp_id = 0; res_index = i; res_usage = 0 })
        (some g)

  unfoldable pub run_requests :
      ResourceGroup → List Request → Machine W → List (Outcome (Unit {0})) × Machine W
  run_requests g [] m = ([], m)
  run_requests g (r ∷ rs) m =
      let (o, m') = request g r m in let (os, m'') = run_requests g rs m' in (o ∷ os, m'')

  module _ (peek : W → ℕ) where
    -- The register of the group holds the set.
    abbrev pub Holds : Taken → W → Type 0
    Holds s w = (j : ℕ) → j < 32 → (bit (peek w) j == 1) ≡ s j

    pub record Steps (m : Machine W) (spec : Outcome (Unit {0}) × Taken)
        (real : Outcome (Unit {0}) × Machine W) : Type 0 where
      pub same : real.0 ≡ spec.0
      pub holds : Holds spec.1 real.1.world
      pub lock : real.1.reg_acc_lock ≡ false
      pub ptr : real.1.epu_ptr ≡ m.epu_ptr

    module _ (g : ResourceGroup) (m : Machine W)
        (law : IsWord k (reservation_at k m.epu_ptr g) peek) where
      refused :
          (r : Request) (i : ℕ)
          → (r ≡ reserve i) ⊎ (r ≡ relinquish i)
          → group_size g ≤ i
          → request g r m ≡ (err (neg einval), m)
      unfolding request reserve_in
      refused r i (inl e) h = rw (e, le→leb (group_size g) i h)
      refused r i (inr e) h = rw (e, le→leb (group_size g) i h)

      pub reserve_call :
          (i : ℕ)
          → i < group_size g
          → m.reg_acc_lock ≡ false
          → request g (reserve i) m
            ≡ reg_acc_locked (reserve_bit k (reservation_at k m.epu_ptr g) (2 ^ i)) m
      unfolding request reserve_in reserve_command
      reserve_call i h free = rw (lt→leb_false (group_size g) i h) (ground arith)

      pub relinquish_call :
          (i : ℕ)
          → AreDistinct
          → i < group_size g
          → m.reg_acc_lock ≡ false
          → request g (relinquish i) m
            ≡ reg_acc_locked (relinquish_bit k (reservation_at k m.epu_ptr g) (2 ^ i)) m
      unfolding request reserve_in reserve_command
      relinquish_call i d h free =
          rw (lt→leb_false (group_size g) i h) (ground (arith, d.relinq_ne))

      is_taken :
          (s : Taken) (i : ℕ) → i < 32 → Holds s m.world → s i ≡ true → bit (peek m.world) i ≡ 1
      is_taken s i l h t = ground (arith, h i l)

      is_free :
          (s : Taken) (i : ℕ) → i < 32 → Holds s m.world → s i ≡ false → bit (peek m.world) i ≡ 0
      is_free s i l h t = ground (arith, h i l, bit-le (peek m.world) i)

      set_Holds :
          (s : Taken) (i : ℕ)
          → i < 32
          → Holds s m.world
          → Holds
              (put s i true)
              (k.iowrite32 (bit_or (peek m.world) (2 ^ i)) (reservation_at k m.epu_ptr g) m.world)
      set_Holds s i l h j lj =
          rw
            (law.write _ m.world
              (bit_or-lt 32 (peek m.world) (2 ^ i) (law.word m.world) (pow-lt i 32 l)))
            (ground (arith, bit-set (peek m.world) i j, h j lj))

      clear_Holds :
          (s : Taken) (i : ℕ)
          → i < 32
          → Holds s m.world
          → Holds (put s i false) (
              k.iowrite32
                (bit_and (peek m.world) (complement32 (2 ^ i)))
                (reservation_at k m.epu_ptr g)
                m.world)
      clear_Holds s i l h j lj =
          rw (law.write _ m.world fits) (ground (arith, bit-clear (peek m.world) i j l lj, h j lj))
        where
          fits : bit_and (peek m.world) (complement32 (2 ^ i)) < 2 ^ 32
          fits = omega (
            arith,
            law.word m.world,
            bit_and-le (peek m.world) (peek m.world) (complement32 (2 ^ i)) (le_refl _),
          )

      reserve_Steps :
          (s : Taken) (i : ℕ)
          → i < group_size g
          → m.reg_acc_lock ≡ false
          → Holds s m.world
          → Steps m (spec_reserve i s) (request g (reserve i) m)
      unfolding spec_reserve reg_acc_locked
      reserve_Steps s i h free hs = rw (reserve_call i h free) (elim (Bool-cases (s i)) [
        | inl t ↦
            rw
              (
                reserve_busy k _ peek law (record m { reg_acc_lock = true }) i
                    (is_taken s i (omega (arith, group_size-le g)) hs t),
                t,
                free,
              )
              (record { same = refl; holds = hs; lock = refl; ptr = refl })
        | inr f ↦
            rw
              (
                reserve_free k _ peek law (record m { reg_acc_lock = true }) i
                    (is_free s i (omega (arith, group_size-le g)) hs f),
                f,
                free,
              )
              (record {
                same = refl;
                holds = set_Holds s i (omega (arith, group_size-le g)) hs;
                lock = refl;
                ptr = refl;
              })
      ])

      relinquish_Steps :
          (s : Taken) (i : ℕ)
          → AreDistinct
          → i < group_size g
          → m.reg_acc_lock ≡ false
          → Holds s m.world
          → Steps m (spec_relinquish i s) (request g (relinquish i) m)
      unfolding spec_relinquish reg_acc_locked
      relinquish_Steps s i d h free hs = rw (relinquish_call i d h free) (elim (Bool-cases (s i)) [
        | inl t ↦
            rw
              (
                relinquish_busy k _ peek law (record m { reg_acc_lock = true }) i
                    (is_taken s i (omega (arith, group_size-le g)) hs t),
                t,
                free,
              )
              (record {
                same = refl;
                holds = clear_Holds s i (omega (arith, group_size-le g)) hs;
                lock = refl;
                ptr = refl;
              })
        | inr f ↦
            rw
              (
                relinquish_free k _ peek law (record m { reg_acc_lock = true }) i
                    (is_free s i (omega (arith, group_size-le g)) hs f),
                f,
                free,
              )
              (record { same = refl; holds = hs; lock = refl; ptr = refl })
      ])

      pub request-Steps :
          (s : Taken) (r : Request)
          → AreDistinct
          → m.reg_acc_lock ≡ false
          → Holds s m.world
          → Steps m (spec_step (group_size g) s r) (request g r m)
      unfolding spec_step
      request-Steps s (reserve i) d free hs = elim (Bool-cases (leb (group_size g) i)) [
        | inl out ↦
            rw (out, refused (reserve i) i (inl refl) (leb→le _ _ out))
              (record { same = refl; holds = hs; lock = free; ptr = refl })
        | inr fits ↦ rw fits (reserve_Steps s i (leb_false→lt _ _ fits) free hs)
      ]
      request-Steps s (relinquish i) d free hs = elim (Bool-cases (leb (group_size g) i)) [
        | inl out ↦
            rw (out, refused (relinquish i) i (inr refl) (leb→le _ _ out))
              (record { same = refl; holds = hs; lock = free; ptr = refl })
        | inr fits ↦ rw fits (relinquish_Steps s i d (leb_false→lt _ _ fits) free hs)
      ]
