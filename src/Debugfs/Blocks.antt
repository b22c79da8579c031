-- ===== src/Debugfs/Blocks.antt =====
-- The kinds of device: the register files and the structure in memory of each.
use Prim.Native.String.{len}
use mathlib.Core.List.{Mem, mem-cons, not-mem-nil}
use mathlib.Core.Logic.Or
use native.Mathlib.Bridge.{le_prop}
use ls_dbg.Prelude.{
  ℕ, ◌+◌, ◌≤◌, ◌≡◌, refl, Bool, true, ◌&&◌, leb, ltb, if◌then◌else◌, List, [], ◌∷◌, Option, none,
  some, arith,
}
use ls_dbg.Layout.{Field, sizeof}
use ls_dbg.Layout.Blocks.Epu.{epu_v2_fields, gdi_fields}
use ls_dbg.Layout.Blocks.Trace.{funnel_fields, etf_fields, etr_fields}
use ls_dbg.Layout.Blocks.Core.{core_pmu_struct_fields, etm_fields}
use ls_dbg.Debugfs.{File, FileName}
use ls_dbg.Debugfs.Files.Epu.{epu_files, gdi_files}
use ls_dbg.Debugfs.Files.Trace.{cstf_files, etr_files}
use ls_dbg.Debugfs.Files.Etf.{etf_files}
use ls_dbg.Debugfs.Files.Etm.{etm_files}
use ls_dbg.Debugfs.Files.Core.{core_files}

pub data Block : Type 0 where
  epu_block gdi_block cstf_block etr_block etf_block etm_block core_block : Block

abbrev pub files_of : Block → List File
files_of epu_block = epu_files
files_of gdi_block = gdi_files
files_of cstf_block = cstf_files
files_of etr_block = etr_files
files_of etf_block = etf_files
files_of etm_block = etm_files
files_of core_block = core_files

abbrev pub fields_of : Block → List Field
fields_of epu_block = epu_v2_fields
fields_of gdi_block = gdi_fields
fields_of cstf_block = funnel_fields
fields_of etr_block = etr_fields
fields_of etf_block = etf_fields
fields_of etm_block = etm_fields
fields_of core_block = core_pmu_struct_fields

-- The CTASSERT lines of the headers
pub block_size : Block → ℕ
block_size gdi_block = 0x380
block_size core_block = 0x2000
block_size _ = 0x1000

pub sizeof-block : (b : Block) → sizeof (fields_of b) ≡ block_size b
unfolding sizeof block_size
sizeof-block epu_block = refl
sizeof-block gdi_block = refl
sizeof-block cstf_block = refl
sizeof-block etr_block = refl
sizeof-block etf_block = refl
sizeof-block etm_block = refl
sizeof-block core_block = refl

digits_of : Option ℕ → ℕ
digits_of none = 0
digits_of (some i) = if ltb i 10 then 1 else if ltb i 100 then 2 else 10

-- The bytes that `sprintf` writes to a name's buffer, the last 0 included; a number above 99, which
-- no file has, counts as the longest one.
pub name_bytes : FileName → ℕ
unfolding digits_of
name_bytes n = len n.base + digits_of n.index + 1

all_fit : List File → Bool
all_fit [] = true
all_fit (f ∷ fs) = leb (name_bytes f.name) 16 && all_fit fs

all_fit_sound : (fs : List File) (f : File) → all_fit fs ≡ true → Mem f fs → name_bytes f.name ≤ 16
unfolding all_fit
all_fit_sound [] f h m = absurd (not-mem-nil m)
all_fit_sound (g ∷ fs) f h m =
    Or.elim le_prop (mem-cons.0 m) (λ e. rw e (ground arith)) (all_fit_sound fs f (ground arith))

fit_table : (b : Block) → all_fit (files_of b) ≡ true
unfolding all_fit name_bytes epu_files gdi_files cstf_files etr_files etf_files etm_files core_files
fit_table epu_block = refl
fit_table gdi_block = refl
fit_table cstf_block = refl
fit_table etr_block = refl
fit_table etf_block = refl
fit_table etm_block = refl
fit_table core_block = refl

-- No name of a register file overruns the buffer of DBFS_REG_NAME_LEN = 16 bytes.
pub names_fit : (b : Block) (f : File) → Mem f (files_of b) → name_bytes f.name ≤ 16
names_fit b f m = all_fit_sound (files_of b) f (fit_table b) m
