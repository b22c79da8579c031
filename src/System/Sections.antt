-- ===== src/System/Sections.antt =====
-- The interrupt handler's counting of overflows under `vc_lock`, in the single loads and stores of
-- `v_counter_inc` in ls-dbg/module/vir_cntrs.c, on several processors. What they do to registers is
-- among the changes of the world; captures and reads of events, which take the lock too, are left
-- out.
pub mod Effect
pub mod Serial
pub mod Lost
use ls_dbg.Prelude.{
  ℕ, ◌+◌, ◌*◌, ◌%◌, ◌^◌, ◌≡◌, ◌==◌, Bool, true, false, if◌then◌else◌, List, [], ◌∷◌,
}
use ls_dbg.Bits.{has}
use ls_dbg.Memory.{Memory, load, store}
use ls_dbg.Kernel.{Kernel, Machine}
use ls_dbg.Vcounters.{vcntr_at, vcntr_set, v_counter_ovflow_value}
use ls_dbg.System.{move}

-- Where a processor stands: outside of the section under the lock; in it, with counters to count; with
-- a counter's value loaded; with the value stored that is one higher; with its overflow bit seen.
pub data Stage : Type 0 where
  outside : Stage
  counting : List ℕ → Stage
  loaded : ℕ → ℕ → List ℕ → Stage
  stored : ℕ → List ℕ → Stage
  resetting : ℕ → List ℕ → Stage

pub record Processors (W : Type 0) : Type 0 where
  pub machine : Machine W
  pub stage : ℕ → Stage

module _ {W : Type 0} (k : Kernel W) where
  -- The store of `++ls_dbg_vcnt.vcntr[ctr]` with the value loaded
  abbrev pub store_next : ℕ → ℕ → Memory → Memory
  store_next ctr v ram = store 8 ram (vcntr_at k ctr) ((v + 1) % 2 ^ 64)

  -- Without `files`, no counter is set through its debugfs file.
  pub data Move (files : Bool) (s : Processors W) : Processors W → Type 0 where
    -- spin_lock_irqsave, with the counters that the section is about to count
    enter :
        (i : ℕ) (ctrs : List ℕ)
        → s.stage i ≡ outside
        → s.machine.vc_lock ≡ false
        → Move files s (record {
          machine = record (s.machine) { vc_lock = true };
          stage = move s.stage i (counting ctrs);
        })
    loads :
        (i ctr : ℕ) (ctrs : List ℕ)
        → s.stage i ≡ counting (ctr ∷ ctrs)
        → Move files s (record s {
          stage = move s.stage i (loaded ctr (load 8 s.machine.ram (vcntr_at k ctr)) ctrs);
        })
    stores :
        (i ctr v : ℕ) (ctrs : List ℕ)
        → s.stage i ≡ loaded ctr v ctrs
        → Move files s (record {
          machine = record (s.machine) { ram = store_next ctr v s.machine.ram };
          stage = move s.stage i (stored ctr ctrs);
        })
    -- The test of the overflow bit, which loads the counter again
    tests :
        (i ctr : ℕ) (ctrs : List ℕ)
        → s.stage i ≡ stored ctr ctrs
        → Move files s (record s {
          stage = move s.stage i (
              if has (load 8 s.machine.ram (vcntr_at k ctr)) v_counter_ovflow_value
              then resetting ctr ctrs
              else counting ctrs);
        })
    resets :
        (i ctr : ℕ) (ctrs : List ℕ)
        → s.stage i ≡ resetting ctr ctrs
        → Move files s (record {
          machine = record (s.machine) { ram = store 8 s.machine.ram (vcntr_at k ctr) 0 };
          stage = move s.stage i (counting ctrs);
        })
    -- spin_unlock_irqrestore
    leave :
        (i : ℕ)
        → s.stage i ≡ counting []
        → Move files s (record {
          machine = record (s.machine) { vc_lock = false };
          stage = move s.stage i outside;
        })
    -- A write of a counter's debugfs file, which takes no lock
    sets :
        (ctr val : ℕ)
        → files ≡ true
        → Move files s (record s { machine = (vcntr_set k (vcntr_at k ctr) val s.machine).1 })
    elapses : (w : W) → Move files s (record s { machine = record (s.machine) { world = w } })

  pub data Moves (files : Bool) (s : Processors W) : Processors W → Type 0 where
    still : Moves files s s
    more : {t u : Processors W} → Moves files s t → Move files t u → Moves files s u

  -- The sections that have been entered, the last one first
  abbrev pub note :
      {files : Bool} {s t : Processors W} → Move files s t → List (List ℕ) → List (List ℕ)
  note (enter i ctrs e free) sections = ctrs ∷ sections
  note _ sections = sections

  unfoldable pub entered : {files : Bool} {s t : Processors W} → Moves files s t → List (List ℕ)
  entered still = []
  entered (more steps step) = note step (entered steps)
