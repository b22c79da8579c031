-- ===== src/VcountersInit/Made.antt =====
-- `vcounters_init` where every directory and file can be made.
use ls_dbg.Prelude.{ℕ, zero, suc, ◌+◌, ◌≡◌, refl, none, false}
use ls_dbg.Kernel.{Kernel, Machine, Outcome, ok, err, hang, Driver, and_then, ◌>>◌}
use ls_dbg.TraceIp.{vcount, no_of_counters, no_of_scu_events}
use ls_dbg.RegAccess.{reg_add_map}
use ls_dbg.Vcounters.{vcntr_at, vcntrcapt_at, vcounters_size}
use ls_dbg.Debugfs.{Debugfs, FileName, Mode, vcntrs_ops, vcntctrl_ops, create_current_dir}
use ls_dbg.VcountersInit.{
  numbered_name, add_file, add_x64, counter_files, event_files, vcounters_init,
}

module _ {W : Type 0} (d : Debugfs W) where
  pub record IsMaking : Type 0 where
    pub dir :
        (name : FileName) (parent : ℕ) (w : W)
        → d.is_err_or_null (d.create_dir name parent w).0 ≡ false
    pub x64 :
        (name : FileName) (mode : Mode) (dir addr : ℕ) (w : W)
        → d.is_err_or_null (d.create_x64 name mode dir addr w).0 ≡ false

IsOk : {W A : Type 0} → Outcome A × Machine W → Type 0
IsOk (ok a, m) = Unit {0}
IsOk (err e, m) = ⊥
IsOk (hang, m) = ⊥

and_then-IsOk :
    {W A B : Type 0} (r : Outcome A × Machine W) (f : A → Driver W B)
    → IsOk r
    → ((a : A) (m : Machine W) → IsOk (f a m))
    → IsOk (and_then r f)
unfolding IsOk
and_then-IsOk (ok a, m) f h g = g a m
and_then-IsOk (err e, m) f h g = elim h [ ]
and_then-IsOk (hang, m) f h g = elim h [ ]

ok-IsOk : {W : Type 0} (r : Outcome (Unit {0}) × Machine W) → IsOk r → r.0 ≡ ok tt
unfolding IsOk
ok-IsOk (ok a, m) h = refl
ok-IsOk (err e, m) h = elim h [ ]
ok-IsOk (hang, m) h = elim h [ ]

module _ {W : Type 0} (k : Kernel W) (d : Debugfs W) (law : IsMaking d) where
  counter_files-IsOk : (n i dir : ℕ) (m : Machine W) → IsOk (counter_files k d n i dir m)
  unfolding counter_files IsOk add_file add_x64
  counter_files-IsOk zero i dir m = tt
  counter_files-IsOk (suc n) i dir m =
      and_then-IsOk
        ((add_file k d (numbered_name "vcntr" i) (vcntr_at k i) vcntrs_ops dir
            >> add_x64 k d (numbered_name "vcntrcapt" i) (vcntrcapt_at k i) dir)
          m)
        (λ s. counter_files k d n (i + 1) dir) (rw (law.x64) tt)
        (λ s. counter_files-IsOk n (i + 1) dir)

  event_files-IsOk : (n i dir : ℕ) (m : Machine W) → IsOk (event_files k d n i dir m)
  unfolding event_files IsOk add_file
  event_files-IsOk zero i dir m = tt
  event_files-IsOk (suc n) i dir m = event_files-IsOk n (i + 1) dir _

  pub vcounters_init_made : (parent : ℕ) (m : Machine W) → (vcounters_init k d parent m).0 ≡ ok tt
  unfolding vcounters_init IsOk create_current_dir add_file reg_add_map
  vcounters_init_made parent m =
      let control =
        add_file k d (record { base = "vcntrctrl"; index = none }) k.vcnt_addr vcntctrl_ops in
      let map = reg_add_map k vcount k.vcnt_addr vcounters_size in
      ok-IsOk (vcounters_init k d parent m) (
        and_then-IsOk (create_current_dir d parent (record { base = "vcounters"; index = none }) m)
          _ (rw (law.dir) tt)
          (λ dir m1.
            and_then-IsOk (counter_files k d no_of_counters 0 dir m1)
              (λ s. event_files k d no_of_scu_events 0 dir >> (control dir >> map))
              (counter_files-IsOk no_of_counters 0 dir m1)
              (λ s m2.
                and_then-IsOk (event_files k d no_of_scu_events 0 dir m2) (λ s. control dir >> map)
                  (event_files-IsOk no_of_scu_events 0 dir m2) (λ s m3. tt))))
