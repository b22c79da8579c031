-- ===== src/VcountersInit/Fine.antt =====
-- What `vcounters_init` leaves of the EPU's entry, `ls_dbg_epu_ptr` and the locks.
use ls_dbg.Prelude.{ℕ, zero, suc, ◌+◌, ◌*◌, ◌≡◌, refl, ◌∙◌, ap, none, Bool}
use ls_dbg.Kernel.{Kernel, Machine, MapInfo, Outcome, ok, err, hang, Driver, and_then, ◌>>◌}
use ls_dbg.TraceIp.{epu, vcount, no_of_counters, no_of_scu_events}
use ls_dbg.Fine.{IsFine, Fine, and_then-IsFine, if-IsFine, ok-IsFine, err-IsFine, done-IsFine}
use ls_dbg.RegAccess.{reg_add_map}
use ls_dbg.Vcounters.{vcntr_at, vcntrcapt_at, vcntrepecr_offset, vcounters_size}
use ls_dbg.Debugfs.{Debugfs, FileName, Ops, vcntrs_ops, vcntrepecr_ops, vcntctrl_ops}
use ls_dbg.Debugfs.Fine.{create_current_dir-Fine}
use ls_dbg.VcountersInit.{
  numbered_name, add_file, add_x64, counter_files, event_files, vcounters_init,
}

-- Of the map table, only the entry of the EPU
abbrev pub of_epu : {W : Type 0} → Machine W → MapInfo × ℕ × Bool × Bool
of_epu m = (m.maps epu, m.epu_ptr, m.vc_lock, m.reg_acc_lock)

module _ {W : Type 0} (k : Kernel W) (d : Debugfs W) where
  add_x64-Fine : (name : FileName) (addr dir : ℕ) → Fine (add_x64 k d name addr dir)
  unfolding add_x64
  add_x64-Fine name addr dir m = if-IsFine m _ _ _ (err-IsFine m _ _ refl) (ok-IsFine m _ tt refl)

  add_file-Fine :
      (name : FileName) (addr : ℕ) (ops : Ops) (dir : ℕ) → Fine (add_file k d name addr ops dir)
  unfolding add_file
  add_file-Fine name addr ops dir m = ok-IsFine m _ tt refl

  counter_files-Fine : (n i dir : ℕ) → Fine (counter_files k d n i dir)
  unfolding counter_files
  counter_files-Fine zero i dir m = done-IsFine m tt
  counter_files-Fine (suc n) i dir m =
      and_then-IsFine m _ _
        (and_then-IsFine m _ _
          (add_file-Fine (numbered_name "vcntr" i) (vcntr_at k i) vcntrs_ops dir m)
          (λ s. add_x64-Fine (numbered_name "vcntrcapt" i) (vcntrcapt_at k i) dir))
        (λ s. counter_files-Fine n (i + 1) dir)

  event_files-Fine : (n i dir : ℕ) → Fine (event_files k d n i dir)
  unfolding event_files
  event_files-Fine zero i dir m = done-IsFine m tt
  event_files-Fine (suc n) i dir m =
      and_then-IsFine m _ _
        (add_file-Fine (numbered_name "vcntrepecr" i) (k.vcnt_addr + vcntrepecr_offset + 4 * i)
          vcntrepecr_ops dir m)
        (λ s. event_files-Fine n (i + 1) dir)

  and_then-of_epu :
      {A B : Type 0} (m : Machine W) (r : Outcome A × Machine W) (f : A → Driver W B)
      → IsFine m r
      → ((a : A) (n : Machine W) → of_epu (f a n).1 ≡ of_epu n)
      → of_epu (and_then r f).1 ≡ of_epu m
  and_then-of_epu m (ok a, n) f h g = g a n ∙ ap (λ t. (t.0 epu, t.1, t.2, t.3)) h.keeps
  and_then-of_epu m (err e, n) f h g = ap (λ t. (t.0 epu, t.1, t.2, t.3)) h.keeps
  and_then-of_epu m (hang, n) f h g = absurd (h.ends refl)

  pub vcounters_init-of_epu :
      (parent : ℕ) (m : Machine W) → of_epu (vcounters_init k d parent m).1 ≡ of_epu m
  unfolding vcounters_init reg_add_map
  vcounters_init-of_epu parent m =
      let control =
        add_file k d (record { base = "vcntrctrl"; index = none }) k.vcnt_addr vcntctrl_ops in
      let map = reg_add_map k vcount k.vcnt_addr vcounters_size in
      and_then-of_epu m _ _
        (create_current_dir-Fine d parent (record { base = "vcounters"; index = none }) m)
        (λ dir m1.
          and_then-of_epu m1 (counter_files k d no_of_counters 0 dir m1)
            (λ s. event_files k d no_of_scu_events 0 dir >> (control dir >> map))
            (counter_files-Fine no_of_counters 0 dir m1)
            (λ s m2.
              and_then-of_epu m2 (event_files k d no_of_scu_events 0 dir m2)
                (λ s. control dir >> map) (event_files-Fine no_of_scu_events 0 dir m2)
                (λ s m3.
                  and_then-of_epu m3 (control dir m3) (λ s. map)
                    (add_file-Fine (record { base = "vcntrctrl"; index = none }) k.vcnt_addr
                      vcntctrl_ops dir m3)
                    (λ s n. refl))))
