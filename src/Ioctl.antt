-- ===== src/Ioctl.antt =====
-- The character device: reads and writes of physical and virtual registers
-- (`ls_dbg_read_reg_internal`, `vcounter_reg_read` and their write halves), and the ioctl calls of
-- ls-dbg/module/reg_access.c that use them.
pub mod Virtual
pub mod User
pub mod Fine
use ls_dbg.Prelude.{
  ℕ, ◌+◌, ◌-◌, ◌*◌, ◌%◌, ◌^◌, ◌==◌, Bool, ◌&&◌, ◌||◌, not, leb, ltb, if◌then◌else◌, Option, none,
  some,
}
use ls_dbg.Memory.{Memory, load, store}
use ls_dbg.Kernel.{
  Kernel, Machine, Driver, Outcome, ok, err, hang, pure, fail, and_then, ◌>>=◌, ◌>>◌, neg, enomem,
  efault, einval, enotty,
}
use ls_dbg.TraceIp.{is_io_mapped_module, no_of_counters}
use ls_dbg.RegAccess.{reg_find_map_ram, read_reg_io, write_reg_io}
use ls_dbg.Vcounters.{vcntr_get, vcntr_set, vcntrepecr_offset, vcntr_offset, vcntrcapt_offset}
use ls_dbg.Capture.{vcntepecr_set, vcntepecr_get}
use ls_dbg.Reservation.{resource_reserve}

-- `struct reg_access`, packed: 20 bytes
pub record RegAccess : Type 0 where
  pub module_id : ℕ
  pub offset : ℕ
  pub buffer : ℕ
  pub reg_size : ℕ

abbrev pub reg_access_size : ℕ
reg_access_size = 20

unfoldable pub decode_reg_access : Memory → RegAccess
decode_reg_access bytes = record {
  module_id = load 4 bytes 0;
  offset = load 4 bytes 4;
  buffer = load 8 bytes 8;
  reg_size = load 4 bytes 16;
}

module _ {W : Type 0} (k : Kernel W) where
  -- Does pointer `p` lie in the half-open range of offsets into `ls_dbg_vcnt`?
  abbrev pub lies_in : ℕ → ℕ → ℕ → Bool
  lies_in p from to = leb (k.vcnt_addr + from) p && ltb p (k.vcnt_addr + to)

  -- The read's last bound adds 256 elements of 8 bytes to the array, since the pointer is not cast.
  abbrev pub read_end : ℕ
  read_end = vcntrcapt_offset + no_of_counters * 8 * 8

  abbrev pub write_end : ℕ
  write_end = vcntrcapt_offset + no_of_counters * 8

  unfoldable pub vcounter_reg_read : ℕ → Driver W ℕ
  vcounter_reg_read p m =
      if lies_in p 0 vcntrepecr_offset
      then (ok (load 4 m.ram p), m)
      else if lies_in p vcntrepecr_offset vcntr_offset
      then vcntepecr_get k p m
      else if lies_in p vcntr_offset vcntrcapt_offset
      then vcntr_get k p m
      else if lies_in p vcntrcapt_offset read_end
      then (ok (load 8 m.ram p), m)
      else (err (neg enomem), m)

  unfoldable pub vcounter_reg_write : ℕ → ℕ → Driver W (Unit {0})
  vcounter_reg_write p val m =
      if lies_in p 0 vcntrepecr_offset
      then (ok tt, record m { ram = store 4 m.ram p (val % 2 ^ 32) })
      else if lies_in p vcntrepecr_offset vcntr_offset
      then vcntepecr_set k p val m
      else if lies_in p vcntr_offset vcntrcapt_offset
      then vcntr_set k p val m
      else if lies_in p vcntrcapt_offset write_end
      then (ok tt, record m { ram = store 8 m.ram p val })
      else (err (neg enomem), m)

  unfoldable pub ls_dbg_read_reg_internal : ℕ → ℕ → Driver W ℕ
  ls_dbg_read_reg_internal id offset m =
      let p = reg_find_map_ram k m.maps id offset in
      if is_io_mapped_module id
      then read_reg_io k id offset m
      else if k.is_err p
      then (err (k.ptr_err p), m)
      else vcounter_reg_read p m

  unfoldable pub ls_dbg_write_reg_internal : ℕ → ℕ → ℕ → Driver W (Unit {0})
  ls_dbg_write_reg_internal id offset val m =
      let p = reg_find_map_ram k m.maps id offset in
      if is_io_mapped_module id
      then write_reg_io k id offset val m
      else if k.is_err p
      then (err (k.ptr_err p), m)
      else vcounter_reg_write p val m

  -- ioctl numbers: the letter is 'Z'
  abbrev pub dbg_read_reg : ℕ
  dbg_read_reg = k.iowr b'Z' 98 reg_access_size

  abbrev pub dbg_write_reg : ℕ
  dbg_write_reg = k.iowr b'Z' 99 reg_access_size

  unfoldable pub put_value : ℕ → ℕ → ℕ → Driver W (Unit {0})
  put_value bytes addr val m =
      let (ret, world) = k.put_user bytes (val % 256 ^ bytes) addr m.world in
      if ret == 0
      then (ok tt, record m { world = world })
      else (err (neg efault), record m { world = world })

  unfoldable pub get_user64 : ℕ → Machine W → Option ℕ
  get_user64 addr m = elim (k.copy_from_user 8 addr m.world) [
    | none ↦ none
    | some bytes ↦ some (load 8 bytes 0)
  ]

  unfoldable pub or_fault : Option ℕ → Driver W ℕ
  or_fault none m = (err (neg efault), m)
  or_fault (some val) m = (ok val, m)

  -- `get_user` of 32 bits, or `copy_from_user` of 64
  unfoldable pub get_value : ℕ → ℕ → Driver W ℕ
  unfolding get_user64 or_fault
  get_value reg_size addr m =
      or_fault (if reg_size == 32 then k.get_user32 addr m.world else get_user64 addr m) m

  unfoldable pub read_for_user : RegAccess → Driver W (Unit {0})
  read_for_user ra = do
    val ← ls_dbg_read_reg_internal ra.module_id ra.offset
    put_value (if ra.reg_size == 32 then 4 else 8) (ra.buffer % 2 ^ 32) val

  unfoldable pub write_for_user : RegAccess → Driver W (Unit {0})
  write_for_user ra = do
    val ← get_value ra.reg_size (ra.buffer % 2 ^ 32)
    ls_dbg_write_reg_internal ra.module_id ra.offset val

  unfoldable pub access : ℕ → Option Memory → Driver W (Unit {0})
  unfolding read_for_user write_for_user decode_reg_access
  access cmd none m = (err (neg efault), m)
  access cmd (some bytes) m =
      let ra = decode_reg_access bytes in
      if not (ra.reg_size == 32) && not (ra.reg_size == 64)
      then (err (neg einval), m)
      else if cmd == dbg_read_reg
      then read_for_user ra m
      else if cmd == dbg_write_reg
      then write_for_user ra m
      else (err (neg enotty), m)

  unfoldable pub reg_access : ℕ → ℕ → Driver W (Unit {0})
  unfolding access
  reg_access cmd arg m = access cmd (k.copy_from_user reg_access_size arg m.world) m

  unfoldable pub reg_access_ioctl : ℕ → ℕ → Driver W (Unit {0})
  unfolding reg_access
  reg_access_ioctl cmd arg m =
      if cmd == dbg_read_reg || cmd == dbg_write_reg
      then reg_access cmd arg m
      else resource_reserve k cmd arg m
