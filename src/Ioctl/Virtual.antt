-- ===== src/Ioctl/Virtual.antt =====
-- Registers of the virtual module VCOUNT, read and written at any byte offset.
use ls_dbg.Prelude.{ℕ, ◌+◌, ◌-◌, ◌/◌, ◌%◌, ◌^◌, ◌≤◌, ◌<◌, ◌≡◌, false, refl, arith, ◌∙◌, ◌⊎◌}
use native.Mathlib.Nat.{mod-eq_of_lt}
use ls_dbg.Memory.{load, store, load-store_self, store-outside, store-inside}
use ls_dbg.Kernel.{Kernel, IsKernel, Machine, MapInfo, ok, err, neg, efault, einval}
use ls_dbg.TraceIp.{vcount, num_ids}
use ls_dbg.RegAccess.{reg_find_map_ram, reg_find_map_io, read_reg_io, write_reg_io}
use ls_dbg.Vcounters.{vcounters_size, vcntr_offset}
use ls_dbg.Ioctl.{
  ls_dbg_read_reg_internal, ls_dbg_write_reg_internal, vcounter_reg_read, vcounter_reg_write,
}

module _ {W : Type 0} (k : Kernel W) where
  -- The map that `vcounters_init` makes: the whole of `ls_dbg_vcnt`, at valid pointers.
  pub record IsVcountMapped (maps : ℕ → MapInfo) : Type 0 where
    pub base : (maps vcount).base_addr ≡ k.vcnt_addr
    pub whole : (maps vcount).size ≡ vcounters_size
    pub in_memory : k.vcnt_addr + vcounters_size ≤ 2 ^ 32
    pub no_err : (off : ℕ) → off < vcounters_size → k.is_err (k.vcnt_addr + off) ≡ false

  pub find-vcount :
      (maps : ℕ → MapInfo) (off : ℕ)
      → IsVcountMapped maps
      → off < vcounters_size
      → (reg_find_map_ram k maps vcount off ≡ k.vcnt_addr + off)
        × (k.is_err (reg_find_map_ram k maps vcount off) ≡ false)
  unfolding reg_find_map_ram
  find-vcount maps off v l =
      ground (arith, v.no_err off l, mod-eq_of_lt {n = (maps vcount).base_addr + off} {m = 2 ^ 32})

  pub write-counter :
      (m : Machine W) (off val : ℕ)
      → IsVcountMapped m.maps
      → vcntr_offset ≤ off
      → off < vcounters_size
      → ls_dbg_write_reg_internal k vcount off val m
        ≡ (ok tt, record m { ram = store 8 m.ram (k.vcnt_addr + off) val })
  unfolding ls_dbg_write_reg_internal vcounter_reg_write
  write-counter m off val v from to = ground (arith, find-vcount m.maps off v to)

  pub read-counter :
      (m : Machine W) (off : ℕ)
      → IsVcountMapped m.maps
      → vcntr_offset ≤ off
      → off < vcounters_size
      → ls_dbg_read_reg_internal k vcount off m ≡ (ok (load 8 m.ram (k.vcnt_addr + off)), m)
  unfolding ls_dbg_read_reg_internal vcounter_reg_read
  read-counter m off v from to = ground (arith, find-vcount m.maps off v to)

  -- A 64-bit value written to VCOUNT at any offset from `vcntr` on, aligned or not, is read back
  -- unchanged; the write succeeds, and changes nothing but the eight bytes there.
  pub counter_round_trip :
      (m : Machine W) (off val : ℕ)
      → IsVcountMapped m.maps
      → vcntr_offset ≤ off
      → off < vcounters_size
      → val < 2 ^ 64
      → let (r, m') = ls_dbg_write_reg_internal k vcount off val m in
        (r ≡ ok tt)
        × (ls_dbg_read_reg_internal k vcount off m' ≡ (ok val, m'))
        × ((x : ℕ) → (x < k.vcnt_addr + off) ⊎ (k.vcnt_addr + off + 8 ≤ x) → m'.ram x ≡ m.ram x)
        × (m' ≡ record m { ram = m'.ram })
  counter_round_trip m off val v from to fits = rw (write-counter m off val v from to) (
    refl,
    (read-counter (record m { ram = store 8 m.ram (k.vcnt_addr + off) val }) off v from to
        ∙ rw (load-store_self 8 m.ram (k.vcnt_addr + off) val fits)),
    store-outside 8 m.ram (k.vcnt_addr + off) val,
    refl,
  )

  -- A write to one of the last seven offsets of VCOUNT that the map accepts succeeds, and overwrites
  -- the byte behind `ls_dbg_vcnt` with a byte of the user's value.
  pub write_past_end :
      (m : Machine W) (off val : ℕ)
      → IsVcountMapped m.maps
      → vcounters_size - 8 < off
      → off < vcounters_size
      → let (r, m') = ls_dbg_write_reg_internal k vcount off val m in
        (r ≡ ok tt)
        × (m'.ram (k.vcnt_addr + vcounters_size) ≡ val / 256 ^ (vcounters_size - off) % 256)
  write_past_end m off val v from to =
      let at : k.vcnt_addr + vcounters_size ≡ k.vcnt_addr + off + (vcounters_size - off) =
        omega arith in
      rw (write-counter m off val v (omega arith) to, at)
        (refl, store-inside 8 m.ram (k.vcnt_addr + off) val (vcounters_size - off) (omega arith))

  -- Writing the control register through the device stores the low 32 bits of the value and does
  -- nothing else: whatever its enable bit, no interrupt is bound or freed and no device is touched.
  write_control :
      (m : Machine W) (val : ℕ)
      → IsVcountMapped m.maps
      → ls_dbg_write_reg_internal k vcount 0 val m
        ≡ (ok tt, record m { ram = store 4 m.ram (k.vcnt_addr + 0) (val % 2 ^ 32) })
  unfolding ls_dbg_write_reg_internal vcounter_reg_write
  write_control m val v = ground (arith, find-vcount m.maps 0 v)

  -- A read or write with an id that no module has is refused with EINVAL, and nothing changes.
  pub access_unknown :
      (m : Machine W) (id off val : ℕ)
      → IsKernel k
      → num_ids ≤ id
      → (ls_dbg_read_reg_internal k id off m ≡ (err (neg einval), m))
        × (ls_dbg_write_reg_internal k id off val m ≡ (err (neg einval), m))
  unfolding ls_dbg_read_reg_internal ls_dbg_write_reg_internal read_reg_io write_reg_io
      reg_find_map_io reg_find_map_ram
  access_unknown m id off val law h =
      ground (arith, law.err_ptr-is_err einval, law.ptr_err-err_ptr einval)

  -- A read or write at an offset beyond the module's size is refused with EFAULT, for physical and
  -- virtual modules alike, and nothing changes.
  pub access_beyond :
      (m : Machine W) (id off val : ℕ)
      → IsKernel k
      → id < num_ids
      → (m.maps id).size ≤ off
      → (ls_dbg_read_reg_internal k id off m ≡ (err (neg efault), m))
        × (ls_dbg_write_reg_internal k id off val m ≡ (err (neg efault), m))
  unfolding ls_dbg_read_reg_internal ls_dbg_write_reg_internal read_reg_io write_reg_io
      reg_find_map_io reg_find_map_ram
  access_beyond m id off val law h l =
      ground (arith, law.err_ptr-is_err efault, law.ptr_err-err_ptr efault)
