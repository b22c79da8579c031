-- ===== src/System/Sections/Effect.antt =====
-- What sections under `vc_lock` do to the memory, each as a whole.
use ls_dbg.Prelude.{if◌then◌else◌, ℕ, ◌≡◌, inl, inr, refl, ap, ◌∙◌, Bool-cases, List, [], ◌∷◌}
use ls_dbg.Bits.{has}
use ls_dbg.Memory.{Memory, load, store}
use ls_dbg.Kernel.{Kernel, Machine}
use ls_dbg.Vcounters.{vcntr_at, v_counter_inc, v_counter_ovflow_value}
use ls_dbg.System.Sections.{Stage, outside, counting, loaded, stored, resetting, store_next}

module _ {W : Type 0} (k : Kernel W) where
  -- The test and the reset together
  abbrev pub roll_over : ℕ → Memory → Memory
  roll_over ctr ram =
      if has (load 8 ram (vcntr_at k ctr)) v_counter_ovflow_value
      then store 8 ram (vcntr_at k ctr) 0
      else ram

  -- The counters of a section counted, by the driver's function
  unfoldable pub count_all : List ℕ → Machine W → Machine W
  count_all [] m = m
  count_all (ctr ∷ ctrs) m = count_all ctrs (v_counter_inc k ctr m).1

  -- Whole sections one after the other, the last one first in the list
  unfoldable pub serially : List (List ℕ) → Machine W → Machine W
  unfolding count_all
  serially [] m = m
  serially (ctrs ∷ sections) m = count_all ctrs (serially sections m)

  -- The same for the memory alone
  unfoldable pub count_ram : List ℕ → Memory → Memory
  count_ram [] ram = ram
  count_ram (ctr ∷ ctrs) ram =
      count_ram ctrs (roll_over ctr (store_next k ctr (load 8 ram (vcntr_at k ctr)) ram))

  v_counter_inc-ram :
      (ctr : ℕ) (m : Machine W)
      → (v_counter_inc k ctr m).1.ram
        ≡ roll_over ctr (store_next k ctr (load 8 m.ram (vcntr_at k ctr)) m.ram)
  unfolding v_counter_inc
  v_counter_inc-ram ctr m =
      let ram = store_next k ctr (load 8 m.ram (vcntr_at k ctr)) m.ram in
      elim (Bool-cases (has (load 8 ram (vcntr_at k ctr)) v_counter_ovflow_value)) [
        | inl t ↦ rw t refl
        | inr f ↦ rw f refl
      ]

  pub count_ram-eq : (ctrs : List ℕ) (m : Machine W) → (count_all ctrs m).ram ≡ count_ram ctrs m.ram
  unfolding count_all count_ram
  count_ram-eq [] m = refl
  count_ram-eq (ctr ∷ ctrs) m =
      count_ram-eq ctrs (v_counter_inc k ctr m).1 ∙ ap (count_ram ctrs) (v_counter_inc-ram ctr m)

  -- What the memory will be when a processor has left its section
  unfoldable pub finish : Stage → Memory → Memory
  unfolding count_ram
  finish outside ram = ram
  finish (counting ctrs) ram = count_ram ctrs ram
  finish (loaded ctr v ctrs) ram = count_ram ctrs (roll_over ctr (store_next k ctr v ram))
  finish (stored ctr ctrs) ram = count_ram ctrs (roll_over ctr ram)
  finish (resetting ctr ctrs) ram = count_ram ctrs (store 8 ram (vcntr_at k ctr) 0)
