-- ===== src/VcountersInit.antt =====
-- ls-dbg/module/vir_cntrs.c: `vcounters_init`, which makes the debugfs files of the virtual counters
-- and adds the map of VCOUNT.
pub mod Fine
pub mod Made
use ls_dbg.Prelude.{
  ◌⊎◌, inl, inr, ℕ, zero, suc, ◌+◌, ◌*◌, ◌^◌, ◌≤◌, ◌<◌, ◌≡◌, refl, false, String, if◌then◌else◌,
  none, some, ap, Bool-cases, subst,
}
use ls_dbg.Kernel.{
  Kernel, Machine, MapInfo, Driver, Outcome, ok, err, hang, and_then, ◌>>=◌, ◌>>◌, neg, enomem,
}
use ls_dbg.TraceIp.{vcount, no_of_counters, no_of_scu_events}
use ls_dbg.RegAccess.{reg_add_map}
use ls_dbg.Vcounters.{vcntr_at, vcntrcapt_at, vcntrepecr_offset, vcounters_size}
use ls_dbg.Debugfs.{
  Debugfs, FileName, Ops, vcntrs_ops, vcntrepecr_ops, vcntctrl_ops, rw_mode, create_current_dir,
}
use ls_dbg.Ioctl.Virtual.{IsVcountMapped}

abbrev numbered_name : String → ℕ → FileName
numbered_name base i = record { base = base; index = some i }

module _ {W : Type 0} (k : Kernel W) (d : Debugfs W) where
  -- The outcome of `debugfs_create_file` is not looked at.
  add_file : FileName → ℕ → Ops → ℕ → Driver W (Unit {0})
  add_file name addr ops dir m =
      (ok tt, record m { world = (d.create_file_ops name rw_mode dir addr ops m.world).1 })

  -- DBGFS_CREATE_RW_X64
  add_x64 : FileName → ℕ → ℕ → Driver W (Unit {0})
  add_x64 name addr dir m =
      let (de, world) = d.create_x64 name rw_mode dir addr m.world in
      if d.is_err_or_null de
      then (err (neg enomem), record m { world = world })
      else (ok tt, record m { world = world })

  counter_files : ℕ → ℕ → ℕ → Driver W (Unit {0})
  unfolding add_file add_x64
  counter_files zero i dir m = (ok tt, m)
  counter_files (suc n) i dir m =
      and_then
        ((add_file (numbered_name "vcntr" i) (vcntr_at k i) vcntrs_ops dir
            >> add_x64 (numbered_name "vcntrcapt" i) (vcntrcapt_at k i) dir)
          m)
        (λ s. counter_files n (i + 1) dir)

  event_files : ℕ → ℕ → ℕ → Driver W (Unit {0})
  unfolding add_file
  event_files zero i dir m = (ok tt, m)
  event_files (suc n) i dir m =
      and_then
        (add_file (numbered_name "vcntrepecr" i) (k.vcnt_addr + vcntrepecr_offset + 4 * i)
          vcntrepecr_ops dir m)
        (λ s. event_files n (i + 1) dir)

  unfoldable pub vcounters_init : ℕ → Driver W (Unit {0})
  unfolding counter_files event_files
  vcounters_init parent = do
    dir ← create_current_dir d parent (record { base = "vcounters"; index = none })
    counter_files no_of_counters 0 dir
    event_files no_of_scu_events 0 dir
    add_file (record { base = "vcntrctrl"; index = none }) k.vcnt_addr vcntctrl_ops dir
    reg_add_map k vcount k.vcnt_addr vcounters_size

-- The call ended, with maps of which `P` holds, or without memory and with the maps as they were.
Ends : {W A : Type 0} → ((ℕ → MapInfo) → Type 0) → (ℕ → MapInfo) → Outcome A × Machine W → Type 0
Ends P maps (ok a, m) = P m.maps
Ends P maps (err e, m) = (e ≡ neg enomem) × (m.maps ≡ maps)
Ends P maps (hang, m) = ⊥

abbrev KeepsMaps : {W A : Type 0} → (ℕ → MapInfo) → Outcome A × Machine W → Type 0
KeepsMaps maps = Ends (λ x. x ≡ maps) maps

and_then-Ends :
    {W A B : Type 0} (P : (ℕ → MapInfo) → Type 0) (maps : ℕ → MapInfo) (r : Outcome A × Machine W)
    (f : A → Driver W B)
    → KeepsMaps maps r
    → ((a : A) (m : Machine W) → m.maps ≡ maps → Ends P maps (f a m))
    → Ends P maps (and_then r f)
unfolding Ends
and_then-Ends P maps (ok a, m) f h n = n a m h
and_then-Ends P maps (err e, m) f h n = h
and_then-Ends P maps (hang, m) f h n = elim h [ ]

Ends-cases :
    {W : Type 0} (P : (ℕ → MapInfo) → Type 0) (maps : ℕ → MapInfo)
    (r : Outcome (Unit {0}) × Machine W)
    → Ends P maps r
    → ((r.0 ≡ ok tt) × P (r.1).maps) ⊎ ((r.0 ≡ err (neg enomem)) × ((r.1).maps ≡ maps))
unfolding Ends
Ends-cases P maps (ok a, m) h = inl (refl, h)
Ends-cases P maps (err e, m) h = inr (ap err h.0, h.1)
Ends-cases P maps (hang, m) h = elim h [ ]

module _ {W : Type 0} (k : Kernel W) (d : Debugfs W) where
  create_current_dir-KeepsMaps :
      (parent : ℕ) (name : FileName) (m : Machine W)
      → KeepsMaps m.maps (create_current_dir d parent name m)
  unfolding Ends create_current_dir
  create_current_dir-KeepsMaps parent name m =
      elim (Bool-cases (d.is_err_or_null (d.create_dir name parent m.world).0)) [
        | inl e ↦ rw (e) (refl, refl)
        | inr e ↦ rw (e) refl
      ]

  add_x64-KeepsMaps :
      (name : FileName) (addr dir : ℕ) (m : Machine W)
      → KeepsMaps m.maps (add_x64 k d name addr dir m)
  unfolding Ends add_x64
  add_x64-KeepsMaps name addr dir m =
      elim (Bool-cases (d.is_err_or_null (d.create_x64 name rw_mode dir addr m.world).0)) [
        | inl e ↦ rw (e) (refl, refl)
        | inr e ↦ rw (e) refl
      ]

  counter_files-KeepsMaps :
      (maps : ℕ → MapInfo) (n i dir : ℕ) (m : Machine W)
      → m.maps ≡ maps
      → KeepsMaps maps (counter_files k d n i dir m)
  unfolding Ends counter_files add_file
  counter_files-KeepsMaps maps zero i dir m e = e
  counter_files-KeepsMaps maps (suc n) i dir m e =
      and_then-Ends (λ x. x ≡ maps) maps _ _
        (subst
          (λ maps. KeepsMaps maps (
            add_x64 k d (numbered_name "vcntrcapt" i) (vcntrcapt_at k i) dir
              (add_file k d (numbered_name "vcntr" i) (vcntr_at k i) vcntrs_ops dir m).1))
          e
          (add_x64-KeepsMaps (numbered_name "vcntrcapt" i) (vcntrcapt_at k i) dir
            (add_file k d (numbered_name "vcntr" i) (vcntr_at k i) vcntrs_ops dir m).1))
        (λ a m' e'. counter_files-KeepsMaps maps n (i + 1) dir m' e')

  event_files-KeepsMaps :
      (maps : ℕ → MapInfo) (n i dir : ℕ) (m : Machine W)
      → m.maps ≡ maps
      → KeepsMaps maps (event_files k d n i dir m)
  unfolding Ends event_files add_file
  event_files-KeepsMaps maps zero i dir m e = e
  event_files-KeepsMaps maps (suc n) i dir m e =
      event_files-KeepsMaps maps n (i + 1) dir
        (add_file k d (numbered_name "vcntrepecr" i) (k.vcnt_addr + vcntrepecr_offset + 4 * i)
          vcntrepecr_ops dir m).1
        e

  mapped_whole :
      (m : Machine W)
      → k.vcnt_addr + vcounters_size ≤ 2 ^ 32
      → ((off : ℕ) → off < vcounters_size → k.is_err (k.vcnt_addr + off) ≡ false)
      → IsVcountMapped k (reg_add_map k vcount k.vcnt_addr vcounters_size m).1.maps
  unfolding reg_add_map
  mapped_whole m fits valid = record { base = refl; whole = refl; in_memory = fits; no_err = valid }

  -- `vcounters_init` always ends: either with the whole of `ls_dbg_vcnt` mapped as VCOUNT, or with
  -- ENOMEM and the maps as they were. The structure must lie at valid pointers.
  pub vcounters_init_lem :
      (parent : ℕ) (m : Machine W)
      → k.vcnt_addr + vcounters_size ≤ 2 ^ 32
      → ((off : ℕ) → off < vcounters_size → k.is_err (k.vcnt_addr + off) ≡ false)
      → let (out, m') = vcounters_init k d parent m in
        ((out ≡ ok tt) × IsVcountMapped k m'.maps) ⊎ ((out ≡ err (neg enomem)) × (m'.maps ≡ m.maps))
  unfolding vcounters_init reg_add_map add_file Ends
  vcounters_init_lem parent m fits valid =
      Ends-cases (IsVcountMapped k) m.maps (vcounters_init k d parent m) (
        and_then-Ends (IsVcountMapped k) m.maps _ _
          (create_current_dir-KeepsMaps parent (record { base = "vcounters"; index = none }) m)
          (λ dir m1 e1.
            and_then-Ends (IsVcountMapped k) m.maps _ _
              (counter_files-KeepsMaps m.maps no_of_counters 0 dir m1 e1)
              (λ s m2 e2.
                and_then-Ends (IsVcountMapped k) m.maps (event_files k d no_of_scu_events 0 dir m2)
                  (λ s.
                    add_file k d (record { base = "vcntrctrl"; index = none }) k.vcnt_addr
                      vcntctrl_ops dir
                    >> reg_add_map k vcount k.vcnt_addr vcounters_size)
                  (event_files-KeepsMaps m.maps no_of_scu_events 0 dir m2 e2)
                  (λ s m3 e3. mapped_whole m3 fits valid))))
