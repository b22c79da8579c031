-- ===== src/System/Sections/Lost.antt =====
-- A write of a counter's debugfs file while a section counts.
use ls_dbg.Prelude.{ℕ, ◌+◌, ◌%◌, ◌^◌, ◌<◌, ◌≡◌, refl, false, true, [], ◌∷◌, arith}
use ls_dbg.Memory.{store, load-store_self}
use ls_dbg.Kernel.{Kernel, Machine}
use ls_dbg.Vcounters.{vcntr_at, vcntr_set}
use ls_dbg.Vcounters.Count.{vcntr}
use ls_dbg.System.{move}
use ls_dbg.System.Sections.{
  outside, counting, loaded, stored, Processors, store_next, enter, loads, stores, sets, Move,
  Moves, still, more,
}

module _ {W : Type 0} (k : Kernel W) where
  -- Processor 0 is in a section, and has loaded counter `ctr`.
  abbrev pub has_loaded : Machine W → ℕ → Processors W
  has_loaded m ctr = record {
    machine = record m { vc_lock = true };
    stage =
        move (move (λ i. outside) 0 (counting (ctr ∷ []))) 0 (loaded ctr (vcntr k m.ram ctr) []);
  }

  abbrev pub after_set : ℕ → ℕ → Processors W → Processors W
  after_set ctr val s = record s { machine = (vcntr_set k (vcntr_at k ctr) val s.machine).1 }

  -- It stores the value that it loaded, one higher.
  abbrev pub after_store : Machine W → ℕ → Processors W → Processors W
  after_store m ctr s = record {
    machine = record (s.machine) { ram = store_next k ctr (vcntr k m.ram ctr) s.machine.ram };
    stage = move s.stage 0 (stored ctr []);
  }

  -- From a machine with the lock free: processor 0 can get into a section and load a counter. While it
  -- is there, holding the lock, a write of the counter's file goes ahead all the same, and the counter
  -- has the value written. The section's store comes next, and the counter is one more than the value
  -- loaded before, whatever was written.
  pub set_lost :
      (m : Machine W) (ctr val : ℕ)
      → m.vc_lock ≡ false
      → val < 2 ^ 64
      → let s = has_loaded m ctr in
        let s' = after_set ctr val s in
        let t = after_store m ctr s' in
        Moves k true (record { machine = m; stage = λ i. outside }) s
        × (s.machine.vc_lock ≡ true)
        × Move k true s s'
        × (vcntr k s'.machine.ram ctr ≡ val)
        × Move k true s' t
        × (vcntr k t.machine.ram ctr ≡ (vcntr k m.ram ctr + 1) % 2 ^ 64)
  set_lost m ctr val free l =
      let v = vcntr k m.ram ctr in
      (
        more (more still (enter 0 (ctr ∷ []) refl free)) (loads 0 ctr [] refl),
        refl,
        sets ctr val refl,
        load-store_self 8 m.ram (vcntr_at k ctr) val l,
        stores 0 ctr v [] refl,
        load-store_self 8 (store 8 m.ram (vcntr_at k ctr) val) (vcntr_at k ctr) ((v + 1) % 2 ^ 64)
            (omega arith),
      )
