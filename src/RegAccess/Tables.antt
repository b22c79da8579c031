-- ===== src/RegAccess/Tables.antt =====
-- The table of mapped modules: what a lookup gives, and what an access to a mapped register does.
use native.Mathlib.Nat.{mod-eq_of_lt}
use ls_dbg.Prelude.{
  ℕ, ◌+◌, ◌%◌, ◌^◌, ◌≤◌, ◌<◌, ◌≡◌, refl, ◌≢◌, ltb, if◌then◌else◌, false, arith, leb, lt→leb_false,
  le→leb,
}
use ls_dbg.Kernel.{Kernel, IsKernel, Machine, MapInfo, ok, err, neg, efault}
use ls_dbg.TraceIp.{num_io_ids, num_ids}
use ls_dbg.RegAccess.{reg_add_map, reg_find_map_io, reg_find_map_ram, read_reg_io, write_reg_io}

module _ {W : Type 0} (k : Kernel W) where
  -- The first `size` bytes of module `id` are mapped at addresses that are valid pointers.
  pub record IsMapped (maps : ℕ → MapInfo) (id size : ℕ) : Type 0 where
    pub fits : size ≤ (maps id).size
    pub in_memory : (maps id).base_addr + size ≤ 2 ^ 32
    pub no_err : (off : ℕ) → off < size → k.is_err ((maps id).base_addr + off) ≡ false

  pub reg_find_map_io-mapped :
      (maps : ℕ → MapInfo) (id size off : ℕ)
      → id < num_io_ids
      → IsMapped maps id size
      → off < size
      → (reg_find_map_io k maps id off ≡ (maps id).base_addr + off)
        × (k.is_err (reg_find_map_io k maps id off) ≡ false)
  unfolding reg_find_map_io
  reg_find_map_io-mapped maps id size off h v l =
      ground (arith, v.no_err off l, mod-eq_of_lt {n = (maps id).base_addr + off} {m = 2 ^ 32})

  pub read_reg_io-mapped :
      (m : Machine W) (id size off : ℕ)
      → id < num_io_ids
      → IsMapped m.maps id size
      → off < size
      → let (val, world) = k.ioread32 ((m.maps id).base_addr + off) m.world in
        read_reg_io k id off m ≡ (ok val, record m { world = world })
  unfolding read_reg_io
  read_reg_io-mapped m id size off h v l =
      ground (arith, reg_find_map_io-mapped m.maps id size off h v l)

  pub write_reg_io-mapped :
      (m : Machine W) (id size off val : ℕ)
      → id < num_io_ids
      → IsMapped m.maps id size
      → off < size
      → write_reg_io k id off val m ≡ (
        ok tt,
        record m { world = k.iowrite32 (val % 2 ^ 32) ((m.maps id).base_addr + off) m.world },
      )
  unfolding write_reg_io
  write_reg_io-mapped m id size off val h v l =
      ground (arith, reg_find_map_io-mapped m.maps id size off h v l)

  pub read_reg_io-beyond :
      (m : Machine W) (id off : ℕ)
      → IsKernel k
      → id < num_io_ids
      → (m.maps id).size ≤ off
      → read_reg_io k id off m ≡ (err (neg efault), m)
  unfolding read_reg_io reg_find_map_io
  read_reg_io-beyond m id off law h l = rw (
    lt→leb_false num_io_ids id h,
    le→leb (m.maps id).size off l,
    law.err_ptr-is_err efault (omega arith) (omega arith),
    law.ptr_err-err_ptr efault (omega arith) (omega arith),
  )

  pub write_reg_io-beyond :
      (m : Machine W) (id off val : ℕ)
      → IsKernel k
      → id < num_io_ids
      → (m.maps id).size ≤ off
      → write_reg_io k id off val m ≡ (err (neg efault), m)
  unfolding write_reg_io reg_find_map_io
  write_reg_io-beyond m id off val law h l = rw (
    lt→leb_false num_io_ids id h,
    le→leb (m.maps id).size off l,
    law.err_ptr-is_err efault (omega arith) (omega arith),
    law.ptr_err-err_ptr efault (omega arith) (omega arith),
  )

  -- The lookup in the table of the id's kind
  abbrev pub reg_find_map : (ℕ → MapInfo) → ℕ → ℕ → ℕ
  reg_find_map maps id off =
      if ltb id num_io_ids then reg_find_map_io k maps id off else reg_find_map_ram k maps id off

  -- Adding a map for a known id succeeds, leaves every other entry as it was, and a lookup of that
  -- id, in the table of its kind, then gives the base address plus the offset, as a 32-bit sum, for
  -- an offset below the size, and EFAULT as a pointer from the size on.
  pub reg_add_map-find :
      (m : Machine W) (id addr size off : ℕ)
      → id < num_ids
      → let (r, m') = reg_add_map k id addr size m in
        (r ≡ ok tt)
        × ((j : ℕ) → j ≢ id → m'.maps j ≡ m.maps j)
        × (reg_find_map m'.maps id off
            ≡ (if leb size off then k.err_ptr efault else (addr + off) % 2 ^ 32))
  unfolding reg_add_map reg_find_map_io reg_find_map_ram
  reg_add_map-find m id addr size off h =
      let known : leb num_ids id ≡ false = ground arith in
      rw known (refl, (λ j ne. ground arith), ground arith)
