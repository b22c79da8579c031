-- ===== src/System/Sections/Serial.antt =====
-- The handler's sections under `vc_lock` count as if one had run after the other.
use native.Mathlib.Decide.{ℕ_discrete}
use ls_dbg.Prelude.{
  if◌then◌else◌, Bool-cases, ℕ, ◌≡◌, ◌≢◌, ◌⊎◌, inl, inr, refl, ap, sym, ◌∙◌, ◌==◌, Bool, true,
  false, List, arith,
}
use ls_dbg.Memory.{Memory, load}
use ls_dbg.Vcounters.{vcntr_at, v_counter_ovflow_value}
use ls_dbg.Kernel.{Kernel, Machine}
use ls_dbg.Bits.{has}
use ls_dbg.System.{move}
use ls_dbg.System.Sections.Effect.{count_all, serially, count_ram, count_ram-eq, finish}
use ls_dbg.System.Sections.{
  Stage, outside, counting, Processors, Move, enter, loads, stores, tests, resets, stored,
  resetting, leave, sets, elapses, Moves, still, more, note, entered,
}

module _ {W : Type 0} (k : Kernel W) where
  -- The test of the overflow bit decides what the reset will be.
  finish_tested :
      (ctr : ℕ) (ctrs : List ℕ) (ram : Memory)
      → finish k
          (if has (load 8 ram (vcntr_at k ctr)) v_counter_ovflow_value
            then resetting ctr ctrs
            else counting ctrs)
          ram
        ≡ finish k (stored ctr ctrs) ram
  unfolding finish
  finish_tested ctr ctrs ram =
      elim (Bool-cases (has (load 8 ram (vcntr_at k ctr)) v_counter_ovflow_value)) [
        | inl t ↦ rw t refl
        | inr f ↦ rw f refl
      ]

  module _ (files : Bool) (m : Machine W) where
    IsSerial : List (List ℕ) → Memory → Type 0
    IsSerial sections ram = files ≡ false → ram ≡ (serially k sections m).ram

    record IsFree (sections : List (List ℕ)) (s : Processors W) : Type 0 where
      lock : s.machine.vc_lock ≡ false
      all : (j : ℕ) → s.stage j ≡ outside
      serial : IsSerial sections s.machine.ram

    record IsHeld (sections : List (List ℕ)) (s : Processors W) : Type 0 where
      holder : ℕ
      lock : s.machine.vc_lock ≡ true
      others : (j : ℕ) → j ≢ holder → s.stage j ≡ outside
      serial : IsSerial sections (finish k (s.stage holder) s.machine.ram)

    Inv : List (List ℕ) → Processors W → Type 0
    Inv sections s = IsFree sections s ⊎ IsHeld sections s

    -- A processor inside holds the lock.
    is_holder :
        (sections : List (List ℕ)) (s : Processors W) (h : IsHeld sections s) (i : ℕ)
        → s.stage i ≢ outside
        → h.holder ≡ i
    is_holder sections s h i ne = elim (ℕ_discrete i h.holder) [
      | yes e ↦ sym e
      | no n ↦ absurd (ne (h.others i n))
    ]

    inside :
        (sections : List (List ℕ)) (s : Processors W) (i : ℕ)
        → Inv sections s
        → s.stage i ≢ outside
        → (h : IsHeld sections s) × (h.holder ≡ i)
    unfolding Inv
    inside sections s i (inl f) ne = absurd (ne (f.all i))
    inside sections s i (inr h) ne = (h, is_holder sections s h i ne)

    moved_self : (stage : ℕ → Stage) (i : ℕ) (p : Stage) → move stage i p i ≡ p
    moved_self stage i p = let t : (i == i) ≡ true = ground arith in rw t refl

    moved_other : (stage : ℕ → Stage) (i j : ℕ) (p : Stage) → j ≢ i → move stage i p j ≡ stage j
    moved_other stage i j p ne = let f : (i == j) ≡ false = ground arith in rw f refl

    -- The holder goes on.
    go_on-IsHeld :
        (sections : List (List ℕ)) (s : Processors W) (i : ℕ) (p : Stage) (ram : Memory)
        → Inv sections s
        → s.stage i ≢ outside
        → finish k p ram ≡ finish k (s.stage i) s.machine.ram
        → IsHeld sections
            (record { machine = record (s.machine) { ram = ram }; stage = move s.stage i p })
    unfolding IsSerial
    go_on-IsHeld sections s i p ram inv ne e =
        let (h, same) = inside sections s i inv ne in
        record {
          holder = i;
          lock = h.lock;
          others = λ j n. moved_other s.stage i j p n ∙ h.others j (λ q. n (q ∙ same));
          serial = λ alone.
              ap (λ q. finish k q ram) (moved_self s.stage i p)
              ∙ e
              ∙ ap (λ j. finish k (s.stage j) s.machine.ram) (sym same)
              ∙ h.serial alone;
        }

    Move-Inv :
        {s t : Processors W} (sections : List (List ℕ)) (step : Move k files s t)
        → Inv sections s
        → Inv (note k step sections) t
    unfolding Inv finish count_ram IsSerial serially count_all
    Move-Inv {s} sections (enter i ctrs out free) (inl f) = inr (record {
      holder = i;
      lock = refl;
      others = λ j n. moved_other s.stage i j (counting ctrs) n ∙ f.all j;
      serial = λ alone.
          ap (λ q. finish k q s.machine.ram) (moved_self s.stage i (counting ctrs))
          ∙ ap (count_ram k ctrs) (f.serial alone)
          ∙ sym (count_ram-eq k ctrs (serially k sections m));
    })
    Move-Inv sections (enter i ctrs out free) (inr h) = let bad = h.lock in cc
    Move-Inv {s} sections (loads i ctr ctrs e) inv = inr (
        go_on-IsHeld sections s i _ s.machine.ram inv (λ q. cc)
          (sym (ap (λ q. finish k q s.machine.ram) e)))
    Move-Inv {s} sections (stores i ctr v ctrs e) inv =
        inr
          (go_on-IsHeld sections s i _ _ inv (λ q. cc) (sym (ap (λ q. finish k q s.machine.ram) e)))
    Move-Inv {s} sections (tests i ctr ctrs e) inv = inr (
        go_on-IsHeld sections s i _ s.machine.ram inv (λ q. cc)
          (finish_tested ctr ctrs s.machine.ram ∙ sym (ap (λ q. finish k q s.machine.ram) e)))
    Move-Inv {s} sections (resets i ctr ctrs e) inv =
        inr
          (go_on-IsHeld sections s i _ _ inv (λ q. cc) (sym (ap (λ q. finish k q s.machine.ram) e)))
    Move-Inv {s} sections (leave i e) inv =
        let (h, same) = inside sections s i inv (λ q. cc) in
        inl (record {
          lock = refl;
          all = λ j. elim (ℕ_discrete j i) [
            | yes q ↦ ap (move s.stage i outside) q ∙ moved_self s.stage i outside
            | no n ↦ moved_other s.stage i j outside n ∙ h.others j (λ q. n (q ∙ same))
          ];
          serial = λ alone.
              sym (ap (λ q. finish k q s.machine.ram) e)
              ∙ ap (λ j. finish k (s.stage j) s.machine.ram) (sym same)
              ∙ h.serial alone;
        })
    Move-Inv sections (sets ctr val by_file) (inl f) =
        inl (record { lock = f.lock; all = f.all; serial = λ alone. absurd (cc) })
    Move-Inv sections (sets ctr val by_file) (inr h) = inr (record {
      holder = h.holder;
      lock = h.lock;
      others = h.others;
      serial = λ alone. absurd (cc);
    })
    Move-Inv sections (elapses w) (inl f) =
        inl (record { lock = f.lock; all = f.all; serial = f.serial })
    Move-Inv sections (elapses w) (inr h) =
        inr (record { holder = h.holder; lock = h.lock; others = h.others; serial = h.serial })

    Moves-Inv :
        {t : Processors W} (steps : Moves k files (record { machine = m; stage = λ i. outside }) t)
        → m.vc_lock ≡ false
        → Inv (entered k steps) t
    unfolding entered Inv IsSerial serially
    Moves-Inv still free = inl (record { lock = free; all = λ j. refl; serial = λ alone. refl })
    Moves-Inv (more steps step) free = Move-Inv (entered k steps) step (Moves-Inv steps free)

  -- Without writes of the counters' files, once all processors have left their sections, the memory is
  -- what the driver's function makes of the sections entered, each as a whole, in the order in which
  -- they were entered. The lock was free at the start, and no processor in a section.
  pub sections_serial :
      (m : Machine W) (t : Processors W)
      (steps : Moves k false (record { machine = m; stage = λ i. outside }) t)
      → m.vc_lock ≡ false
      → ((j : ℕ) → t.stage j ≡ outside)
      → t.machine.ram ≡ (serially k (entered k steps) m).ram
  unfolding Inv IsSerial finish
  sections_serial m t steps free all = elim (Moves-Inv false m steps free) [
    | inl f ↦ f.serial refl
    | inr h ↦ sym (ap (λ q. finish k q t.machine.ram) (all h.holder)) ∙ h.serial refl
  ]
