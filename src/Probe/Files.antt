-- ===== src/Probe/Files.antt =====
-- The files that the init functions of the devices make, in a file system that refuses a name only if
-- it is taken.
use ls_dbg.Prelude.{ℕ, ◌≡◌, refl, String, Bool, true, none, some, List, [], ◌∷◌}
use ls_dbg.Kernel.{Kernel, Machine, ok, err, neg, enomem}
use ls_dbg.Debugfs.{Debugfs, FileName, Dir}
use ls_dbg.Debugfs.Files.Epu.{epu_files, gdi_files}
use ls_dbg.Debugfs.Files.Trace.{cstf_files, etr_files}
use ls_dbg.Debugfs.Files.Etf.{etf_files}
use ls_dbg.Debugfs.Files.Etm.{etm_files}
use ls_dbg.Debugfs.Files.Core.{core_files}
use ls_dbg.Debugfs.Init.{
  dir, etm_dirs, cstf_dirs, etf_dirs, core_dirs, dcsr_etf_ls1_init, dcsr_etr_ls1_init,
  dcsr_etm_ls1_init, dcsr_cstf_ls1_init, dcsr_epu_ls1_init, dcsr_gdi_ls1_init, dcsr_core_ls1_init,
}
use ls_dbg.Debugfs.Names.{printed, is_new, are_distinct}
use ls_dbg.Debugfs.Devices.{
  is_new_dir, dirs_distinct, AreFolders, AreFree, dirs_complete, dirs_refused,
}
use ls_dbg.Probe.{
  Platform, Kind, etf_kind, etr_kind, etm_kind, cstf_kind, epu_kind, gdi_kind, core_kind,
  dbgfs_init_fn,
}

-- The directories of a device
unfoldable pub dirs_of : Kind → (ℕ → ℕ) → List Dir
unfolding etf_dirs etm_dirs cstf_dirs core_dirs
dirs_of etf_kind mem = etf_dirs mem
dirs_of etr_kind mem = dir "etr" (mem 0) etr_files ∷ []
dirs_of etm_kind mem = etm_dirs mem
dirs_of cstf_kind mem = cstf_dirs mem
dirs_of epu_kind mem = dir "epu" (mem 0) epu_files ∷ []
dirs_of gdi_kind mem = dir "gdi" (mem 0) gdi_files ∷ []
dirs_of core_kind mem = core_dirs mem

-- The name of the first one
abbrev pub first_name : Kind → FileName
first_name etf_kind = record { base = "etf"; index = some 0 }
first_name etr_kind = record { base = "etr"; index = none }
first_name etm_kind = record { base = "etm"; index = some 0 }
first_name cstf_kind = record { base = "cstf"; index = some 0 }
first_name epu_kind = record { base = "epu"; index = none }
first_name gdi_kind = record { base = "gdi"; index = none }
first_name core_kind = record { base = "core"; index = some 0 }

of_kind-dirs_distinct : (kind : Kind) (mem : ℕ → ℕ) → dirs_distinct (dirs_of kind mem) ≡ true
unfolding dirs_of dirs_distinct is_new_dir are_distinct is_new epu_files gdi_files cstf_files
    etr_files etf_files etm_files core_files
of_kind-dirs_distinct etf_kind mem = refl
of_kind-dirs_distinct etr_kind mem = refl
of_kind-dirs_distinct etm_kind mem = refl
of_kind-dirs_distinct cstf_kind mem = refl
of_kind-dirs_distinct epu_kind mem = refl
of_kind-dirs_distinct gdi_kind mem = refl
of_kind-dirs_distinct core_kind mem = refl

module _ {W : Type 0} (k : Kernel W) (p : Platform W) (d : Debugfs W)
    (exists : ℕ → String → W → Bool) (law : AreFolders d exists) where
  -- The init function of each kind of device succeeds in a root directory where the names of the
  -- device's directories are free, in a file system that refuses a name only if it is taken: no name of
  -- a directory or of a file is used twice.
  pub dbgfs_init_fn_complete :
      (kind : Kind) (root : ℕ) (mem : ℕ → ℕ) (m : Machine W)
      → AreFree d exists root (dirs_of kind mem) m.world
      → (dbgfs_init_fn k p d kind root mem m).0 ≡ ok tt
  unfolding dbgfs_init_fn dcsr_etf_ls1_init dcsr_etr_ls1_init dcsr_etm_ls1_init dcsr_cstf_ls1_init
      dcsr_epu_ls1_init dcsr_gdi_ls1_init dcsr_core_ls1_init dirs_of
  dbgfs_init_fn_complete etf_kind root mem m free =
      dirs_complete d exists law root _ m (of_kind-dirs_distinct etf_kind mem) free
  dbgfs_init_fn_complete etr_kind root mem m free =
      dirs_complete d exists law root _ m (of_kind-dirs_distinct etr_kind mem) free
  dbgfs_init_fn_complete etm_kind root mem m free =
      dirs_complete d exists law root _ m (of_kind-dirs_distinct etm_kind mem) free
  dbgfs_init_fn_complete cstf_kind root mem m free =
      dirs_complete d exists law root _ m (of_kind-dirs_distinct cstf_kind mem) free
  dbgfs_init_fn_complete epu_kind root mem m free =
      dirs_complete d exists law root _ (record m { epu_ptr = mem 0 })
        (of_kind-dirs_distinct epu_kind mem) free
  dbgfs_init_fn_complete gdi_kind root mem m free =
      dirs_complete d exists law root _ m (of_kind-dirs_distinct gdi_kind mem) free
  dbgfs_init_fn_complete core_kind root mem m free =
      dirs_complete d exists law root _ m (of_kind-dirs_distinct core_kind mem) free

  -- It fails with ENOMEM where the name of the first directory is taken, as it is by a device of the
  -- same kind.
  dbgfs_init_fn_refused :
      (kind : Kind) (root : ℕ) (mem : ℕ → ℕ) (m : Machine W)
      → exists root (printed (first_name kind)) m.world ≡ true
      → (dbgfs_init_fn k p d kind root mem m).0 ≡ err (neg enomem)
  unfolding dbgfs_init_fn dcsr_etf_ls1_init dcsr_etr_ls1_init dcsr_etm_ls1_init dcsr_cstf_ls1_init
      dcsr_epu_ls1_init dcsr_gdi_ls1_init dcsr_core_ls1_init etf_dirs etm_dirs cstf_dirs core_dirs
  dbgfs_init_fn_refused etf_kind root mem m e = dirs_refused d exists law root _ _ m e
  dbgfs_init_fn_refused etr_kind root mem m e = dirs_refused d exists law root _ _ m e
  dbgfs_init_fn_refused etm_kind root mem m e = dirs_refused d exists law root _ _ m e
  dbgfs_init_fn_refused cstf_kind root mem m e = dirs_refused d exists law root _ _ m e
  dbgfs_init_fn_refused epu_kind root mem m e =
      dirs_refused d exists law root _ _ (record m { epu_ptr = mem 0 }) e
  dbgfs_init_fn_refused gdi_kind root mem m e = dirs_refused d exists law root _ _ m e
  dbgfs_init_fn_refused core_kind root mem m e = dirs_refused d exists law root _ _ m e
