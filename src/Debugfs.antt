-- ===== src/Debugfs.antt =====
-- debugfs files for registers: the macros DBGFS_CREATE_X32 and CREATE_CURRENT_DBGFS_DIR of
-- ls-dbg/module/dbg_private.h, and the lists of files of ls-dbg/module/dcsr_*.c. A name is the base
-- and the number that the source prints behind it. `dev->current_dentry`, which the macro also
-- writes, is read nowhere and left out.
pub mod Files
pub mod Blocks
pub mod Registers
pub mod Init
pub mod Create
pub mod Names
pub mod Complete
pub mod Devices
pub mod Fine
pub mod World
use ls_dbg.Prelude.{
  ℕ, zero, suc, ◌+◌, String, Bool, if◌then◌else◌, Option, none, some, List, [], ◌∷◌, ◌++◌,
}
use ls_dbg.Kernel.{
  Machine, Driver, Outcome, ok, err, hang, and_then, ◌>>=◌, ◌>>◌, pure, fail, neg, enomem,
}

-- DBGFS_RW_MODE, DBGFS_RO_MODE, DBGFS_WO_MODE
pub data Mode : Type 0 where
  rw_mode ro_mode wo_mode : Mode

pub record FileName : Type 0 where
  pub base : String
  pub index : Option ℕ

-- `fops_vcntrs`, `fops_vcntrepecr`, `fops_vcntctrl` of vir_cntrs.c
pub data Ops : Type 0 where
  vcntrs_ops vcntrepecr_ops vcntctrl_ops : Ops

-- linux/debugfs.h: what the driver calls. A directory or file is a pointer; the test is
-- `IS_ERR_OR_NULL`. `create_x32` takes the directory and the address of the register.
pub record Debugfs (W : Type 0) : Type 0 where
  pub create_dir : FileName → ℕ → W → ℕ × W
  pub create_x32 : FileName → Mode → ℕ → ℕ → W → ℕ × W
  pub create_x64 : FileName → Mode → ℕ → ℕ → W → ℕ × W
  -- `debugfs_create_file`, with the driver's operations for the file
  pub create_file_ops : FileName → Mode → ℕ → ℕ → Ops → W → ℕ × W
  pub is_err_or_null : ℕ → Bool
  pub remove_recursive : ℕ → W → W

-- A file, with its register's offset in the device's structure
pub record File : Type 0 where
  pub name : FileName
  pub mode : Mode
  pub offset : ℕ

abbrev pub plain : Mode → String → ℕ → File
plain mode base offset = record {
  name = record { base = base; index = none };
  mode = mode;
  offset = offset;
}

abbrev pub numbered : Mode → String → ℕ → ℕ → File
numbered mode base i offset = record {
  name = record { base = base; index = some i };
  mode = mode;
  offset = offset;
}

-- `for (i = from; ...; ++i)` of so many rounds, each with its files
unfoldable pub for_each : ℕ → ℕ → (ℕ → List File) → List File
for_each zero i files = []
for_each (suc n) i files = files i ++ for_each n (i + 1) files

pub record Dir : Type 0 where
  pub name : FileName
  -- The address of the device's structure
  pub ptr : ℕ
  pub files : List File

module _ {W : Type 0} (d : Debugfs W) where
  -- DBGFS_CREATE_X32
  unfoldable pub create_file : ℕ → ℕ → File → Driver W (Unit {0})
  create_file dir ptr f m =
      let (de, world) = d.create_x32 f.name f.mode dir (ptr + f.offset) m.world in
      if d.is_err_or_null de
      then (err (neg enomem), record m { world = world })
      else (ok tt, record m { world = world })

  unfoldable pub create_files : ℕ → ℕ → List File → Driver W (Unit {0})
  create_files dir ptr [] m = (ok tt, m)
  create_files dir ptr (f ∷ fs) m =
      and_then (create_file dir ptr f m) (λ s. create_files dir ptr fs)

  -- CREATE_CURRENT_DBGFS_DIR
  unfoldable pub create_current_dir : ℕ → FileName → Driver W ℕ
  create_current_dir parent name m =
      let (dentry, world) = d.create_dir name parent m.world in
      if d.is_err_or_null dentry
      then (err (neg enomem), record m { world = world })
      else (ok dentry, record m { world = world })

  -- The body of an init function: its directories in order, each with its files.
  unfoldable pub create_dirs : ℕ → List Dir → Driver W (Unit {0})
  create_dirs parent [] m = (ok tt, m)
  create_dirs parent (x ∷ xs) m =
      and_then (create_current_dir parent x.name m)
        (λ dentry. create_files dentry x.ptr x.files >> create_dirs parent xs)
