-- ===== src/Ioctl/User.antt =====
-- ioctl calls that read and write registers, from the caller's structure to its buffer.
use ls_dbg.Prelude.{
  ℕ, ◌+◌, ◌%◌, ◌^◌, ◌<◌, ◌≡◌, ◌≢◌, false, true, refl, arith, ◌==◌, not, ◌&&◌, ◌||◌, if◌then◌else◌,
  ◌∙◌, ◌⊎◌, inl, none, some, lt→ltb, le→leb,
}
use ls_dbg.Memory.{Memory}
use ls_dbg.Kernel.{Kernel, Machine, ok, err, neg, efault, einval}
use ls_dbg.TraceIp.{num_io_ids}
use ls_dbg.RegAccess.{read_reg_io, write_reg_io}
use ls_dbg.RegAccess.Tables.{IsMapped, read_reg_io-mapped, write_reg_io-mapped}
use ls_dbg.Ioctl.{
  decode_reg_access, reg_access_size, dbg_read_reg, dbg_write_reg, reg_access_ioctl, read_for_user,
  write_for_user, put_value, get_value, ls_dbg_read_reg_internal, ls_dbg_write_reg_internal,
}

-- The sizes in bits that the driver accepts
abbrev pub IsRegSize : ℕ → Type 0
IsRegSize n = (n ≡ 32) ⊎ (n ≡ 64)

module _ {W : Type 0} (k : Kernel W) where
  -- A register call whose structure cannot be copied fails with EFAULT and changes nothing.
  pub ioctl_fault :
      (m : Machine W) (cmd arg : ℕ)
      → (cmd ≡ dbg_read_reg k) ⊎ (cmd ≡ dbg_write_reg k)
      → k.copy_from_user reg_access_size arg m.world ≡ none
      → reg_access_ioctl k cmd arg m ≡ (err (neg efault), m)
  unfolding reg_access_ioctl
  ioctl_fault m cmd arg c e =
      let known : (cmd == dbg_read_reg k || cmd == dbg_write_reg k) ≡ true = ground arith in
      rw (known, e)

  -- A register call with a size other than 32 or 64 bits fails with EINVAL and changes nothing.
  pub ioctl_bad_size :
      (m : Machine W) (cmd arg : ℕ) (bytes : Memory)
      → (cmd ≡ dbg_read_reg k) ⊎ (cmd ≡ dbg_write_reg k)
      → k.copy_from_user reg_access_size arg m.world ≡ some bytes
      → (decode_reg_access bytes).reg_size ≢ 32
      → (decode_reg_access bytes).reg_size ≢ 64
      → reg_access_ioctl k cmd arg m ≡ (err (neg einval), m)
  unfolding reg_access_ioctl
  ioctl_bad_size m cmd arg bytes c e a b =
      let known : (cmd == dbg_read_reg k || cmd == dbg_write_reg k) ≡ true = ground arith in
      rw (known, e) (ground arith)

  size_known : (n : ℕ) → IsRegSize n → (not (n == 32) && not (n == 64)) ≡ false
  size_known n h = ground arith

  -- A register call on an accepted size does what its command says.
  pub ioctl_dispatch :
      (m : Machine W) (arg : ℕ) (bytes : Memory)
      → dbg_write_reg k ≢ dbg_read_reg k
      → k.copy_from_user reg_access_size arg m.world ≡ some bytes
      → IsRegSize (decode_reg_access bytes).reg_size
      → (reg_access_ioctl k (dbg_read_reg k) arg m ≡ read_for_user k (decode_reg_access bytes) m)
        × (reg_access_ioctl k (dbg_write_reg k) arg m
            ≡ write_for_user k (decode_reg_access bytes) m)
  unfolding reg_access_ioctl
  ioctl_dispatch m arg bytes distinct e size =
      let r : (dbg_read_reg k == dbg_read_reg k) ≡ true = ground arith in
      let w : (dbg_write_reg k == dbg_write_reg k) ≡ true = ground arith in
      let d : (dbg_write_reg k == dbg_read_reg k) ≡ false = ground arith in
      let s = size_known (decode_reg_access bytes).reg_size size in
      (rw (r, e, s, r), rw (d, w, e, s, d, w))

  physical :
      (m : Machine W) (id off val : ℕ)
      → id < num_io_ids
      → (ls_dbg_read_reg_internal k id off m ≡ read_reg_io k id off m)
        × (ls_dbg_write_reg_internal k id off val m ≡ write_reg_io k id off val m)
  unfolding ls_dbg_read_reg_internal ls_dbg_write_reg_internal
  physical m id off val l = rw (lt→ltb id num_io_ids l, le→leb 0 id (omega arith)) (refl, refl)

  -- Reading a mapped physical register by ioctl reads the device once at the register's address and
  -- puts the value, cut to the size asked for, at the buffer's address (its low 32 bits); if that
  -- copy fails the call fails with EFAULT. Only the world outside the driver changes.
  pub ioctl_read_physical :
      (m : Machine W) (arg size val ret : ℕ) (bytes : Memory) (w w' : W)
      → let ra = decode_reg_access bytes in
        let len : ℕ = if ra.reg_size == 32 then 4 else 8 in
        dbg_write_reg k ≢ dbg_read_reg k
        → k.copy_from_user reg_access_size arg m.world ≡ some bytes
        → IsRegSize ra.reg_size
        → ra.module_id < num_io_ids
        → IsMapped k m.maps ra.module_id size
        → ra.offset < size
        → k.ioread32 ((m.maps ra.module_id).base_addr + ra.offset) m.world ≡ (val, w)
        → k.put_user len (val % 256 ^ len) (ra.buffer % 2 ^ 32) w ≡ (ret, w')
        → reg_access_ioctl k (dbg_read_reg k) arg m
          ≡ ((if ret == 0 then ok tt else err (neg efault)), record m { world = w' })
  unfolding read_for_user put_value
  ioctl_read_physical m arg size val ret bytes w w' distinct e sizes id mapped off read put =
      let ra = decode_reg_access bytes in
      (ioctl_dispatch m arg bytes distinct e sizes).0
      ∙ rw
          (
            (physical m ra.module_id ra.offset 0 id).0,
            read_reg_io-mapped k m ra.module_id size ra.offset id mapped off,
            read,
            put,
          )
          (ground arith)

  -- Writing a mapped physical register by ioctl with a 32-bit buffer takes the word at the buffer's
  -- address and writes it to the register's address, and nothing else changes.
  pub ioctl_write_physical :
      (m : Machine W) (arg size val : ℕ) (bytes : Memory)
      → let ra = decode_reg_access bytes in
        dbg_write_reg k ≢ dbg_read_reg k
        → k.copy_from_user reg_access_size arg m.world ≡ some bytes
        → ra.reg_size ≡ 32
        → ra.module_id < num_io_ids
        → IsMapped k m.maps ra.module_id size
        → ra.offset < size
        → k.get_user32 (ra.buffer % 2 ^ 32) m.world ≡ some val
        → reg_access_ioctl k (dbg_write_reg k) arg m ≡ (
          ok tt,
          record m {
            world =
                k.iowrite32 (val % 2 ^ 32) ((m.maps ra.module_id).base_addr + ra.offset) m.world;
          },
        )
  unfolding write_for_user get_value
  ioctl_write_physical m arg size val bytes distinct e size32 id mapped off q =
      let ra = decode_reg_access bytes in
      let t : (ra.reg_size == 32) ≡ true = ground arith in
      (ioctl_dispatch m arg bytes distinct e (inl size32)).1
      ∙ rw (t, q, (physical m ra.module_id ra.offset val id).1)
          (write_reg_io-mapped k m ra.module_id size ra.offset val id mapped off)
