-- ===== src/RegAccess.antt =====
-- ls-dbg/module/reg_access.c: the table of mapped modules, and reads and writes of registers that
-- are mapped for I/O. `ls_dbg_read_reg_internal` and `ls_dbg_write_reg_internal` branch on the
-- module: `read_reg_io` and `write_reg_io` are their I/O branch, the only one that the virtual
-- counters call; the other branch calls the virtual counters and stands in `Ioctl`.
pub mod Tables
use ls_dbg.Prelude.{ℕ, ◌+◌, ◌%◌, ◌^◌, ◌==◌, leb, ltb, if◌then◌else◌}
use ls_dbg.Kernel.{
  Kernel, Machine, MapInfo, Driver, Outcome, ok, err, hang, pure, fail, neg, einval, efault,
}
use ls_dbg.TraceIp.{num_io_ids, vcount, num_ids}

module _ {W : Type 0} (k : Kernel W) where
  -- `id < 0` is false of an unsigned enumeration. The entry's own `id` is not written.
  unfoldable pub reg_add_map : ℕ → ℕ → ℕ → Driver W (Unit {0})
  reg_add_map id addr size m = if leb num_ids id then (err (neg einval), m) else (
    ok tt,
    record m {
      maps = λ j. if id == j then record (m.maps j) { base_addr = addr; size = size } else m.maps j;
    },
  )

  unfoldable pub reg_find_map_io : (ℕ → MapInfo) → ℕ → ℕ → ℕ
  reg_find_map_io maps id offset =
      if leb num_io_ids id
      then k.err_ptr einval
      else if leb (maps id).size offset
      then k.err_ptr efault
      else ((maps id).base_addr + offset) % 2 ^ 32

  unfoldable pub reg_find_map_ram : (ℕ → MapInfo) → ℕ → ℕ → ℕ
  reg_find_map_ram maps id offset =
      if ltb id vcount
      then k.err_ptr einval
      else if leb num_ids id
      then k.err_ptr einval
      else if leb (maps id).size offset
      then k.err_ptr efault
      else ((maps id).base_addr + offset) % 2 ^ 32

  unfoldable pub read_reg_io : ℕ → ℕ → Driver W ℕ
  unfolding reg_find_map_io
  read_reg_io id offset m =
      let addr = reg_find_map_io m.maps id offset in
      let (val, world) = k.ioread32 addr m.world in
      if k.is_err addr then (err (k.ptr_err addr), m) else (ok val, record m { world = world })

  unfoldable pub write_reg_io : ℕ → ℕ → ℕ → Driver W (Unit {0})
  unfolding reg_find_map_io
  write_reg_io id offset val m =
      let addr = reg_find_map_io m.maps id offset in
      if k.is_err addr
      then (err (k.ptr_err addr), m)
      else (ok tt, record m { world = k.iowrite32 (val % 2 ^ 32) addr m.world })
