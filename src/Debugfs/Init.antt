-- ===== src/Debugfs/Init.antt =====
-- The init functions of ls-dbg/module/dcsr_*.c: which directories a device gets, and at which of
-- its mapped ranges. `mem_ptr` is the device's array of mapped addresses.
use ls_dbg.Prelude.{ℕ, ◌+◌, String, none, some, List, [], ◌∷◌}
use ls_dbg.Kernel.{Driver}
use ls_dbg.Debugfs.{Debugfs, Dir, File, create_dirs}
use ls_dbg.Debugfs.Files.Epu.{epu_files, gdi_files}
use ls_dbg.Debugfs.Files.Trace.{cstf_files, etr_files}
use ls_dbg.Debugfs.Files.Etf.{etf_files}
use ls_dbg.Debugfs.Files.Etm.{etm_files}
use ls_dbg.Debugfs.Files.Core.{core_files}

abbrev pub dir : String → ℕ → List File → Dir
dir base ptr files = record {
  name = record { base = base; index = none };
  ptr = ptr;
  files = files;
}

abbrev pub indexed_dir : String → ℕ → ℕ → List File → Dir
indexed_dir base i ptr files = record {
  name = record { base = base; index = some i };
  ptr = ptr;
  files = files;
}

-- The two directories of an ETM device, both at the device's first range
unfoldable pub etm_dirs : (ℕ → ℕ) → List Dir
etm_dirs mem_ptr =
    indexed_dir "etm" 0 (mem_ptr 0) etm_files ∷ indexed_dir "etm" 1 (mem_ptr 0) etm_files ∷ []

unfoldable pub cstf_dirs : (ℕ → ℕ) → List Dir
cstf_dirs mem_ptr =
    indexed_dir "cstf" 0 (mem_ptr 0) cstf_files ∷ indexed_dir "cstf" 1 (mem_ptr 0) cstf_files ∷ []

-- The ETF's are each at a range of its own.
unfoldable pub etf_dirs : (ℕ → ℕ) → List Dir
etf_dirs mem_ptr =
    indexed_dir "etf" 0 (mem_ptr 0) etf_files ∷ indexed_dir "etf" 1 (mem_ptr 1) etf_files ∷ []

-- `ptr->pmu_regs[j]` is 0x2000 bytes long.
unfoldable pub core_dirs : (ℕ → ℕ) → List Dir
core_dirs mem_ptr =
    indexed_dir "core" 0 (mem_ptr 0) core_files
    ∷ indexed_dir "core" 1 (mem_ptr 0 + 0x2000) core_files
    ∷ []

module _ {W : Type 0} (d : Debugfs W) where
  unfoldable pub dcsr_etf_ls1_init : ℕ → (ℕ → ℕ) → Driver W (Unit {0})
  unfolding etf_dirs
  dcsr_etf_ls1_init parent mem_ptr = create_dirs d parent (etf_dirs mem_ptr)

  unfoldable pub dcsr_etr_ls1_init : ℕ → (ℕ → ℕ) → Driver W (Unit {0})
  dcsr_etr_ls1_init parent mem_ptr = create_dirs d parent (dir "etr" (mem_ptr 0) etr_files ∷ [])

  unfoldable pub dcsr_etm_ls1_init : ℕ → (ℕ → ℕ) → Driver W (Unit {0})
  unfolding etm_dirs
  dcsr_etm_ls1_init parent mem_ptr = create_dirs d parent (etm_dirs mem_ptr)

  unfoldable pub dcsr_cstf_ls1_init : ℕ → (ℕ → ℕ) → Driver W (Unit {0})
  unfolding cstf_dirs
  dcsr_cstf_ls1_init parent mem_ptr = create_dirs d parent (cstf_dirs mem_ptr)

  -- `ls_dbg_epu_ptr` is set first.
  unfoldable pub dcsr_epu_ls1_init : ℕ → (ℕ → ℕ) → Driver W (Unit {0})
  dcsr_epu_ls1_init parent mem_ptr m =
      create_dirs d parent (dir "epu" (mem_ptr 0) epu_files ∷ []) (record m { epu_ptr = mem_ptr 0 })

  unfoldable pub dcsr_gdi_ls1_init : ℕ → (ℕ → ℕ) → Driver W (Unit {0})
  dcsr_gdi_ls1_init parent mem_ptr = create_dirs d parent (dir "gdi" (mem_ptr 0) gdi_files ∷ [])

  unfoldable pub dcsr_core_ls1_init : ℕ → (ℕ → ℕ) → Driver W (Unit {0})
  unfolding core_dirs
  dcsr_core_ls1_init parent mem_ptr = create_dirs d parent (core_dirs mem_ptr)
