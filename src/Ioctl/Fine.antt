-- ===== src/Ioctl/Fine.antt =====
-- The calls of the character device end and keep the driver's tables and locks, if both locks are free
-- and the EPU is mapped.
use ls_dbg.Prelude.{
  ℕ, ◌%◌, ◌^◌, ◌≡◌, refl, false, arith, ◌==◌, ◌&&◌, ◌||◌, not, if◌then◌else◌, Option, none, some,
  Bool-cases, inl, inr,
}
use ls_dbg.Memory.{Memory, load, store}
use ls_dbg.Kernel.{
  Kernel, Machine, Outcome, ok, err, hang, and_then, neg, enomem, efault, einval, enotty,
}
use ls_dbg.TraceIp.{epu, is_io_mapped_module}
use ls_dbg.Fine.{IsFine, Fine, and_then-IsFine, if-IsFine, ok-IsFine, err-IsFine}
use ls_dbg.RegAccess.{reg_find_map_ram}
use ls_dbg.RegAccess.Tables.{IsMapped}
use ls_dbg.Vcounters.Fine.{read_reg_io-Fine, write_reg_io-Fine}
use ls_dbg.Capture.Lock.{vcntepecr_set-IsFine, vcntepecr_get-IsFine}
use ls_dbg.Reservation.Fine.{resource_reserve-IsFine}
use ls_dbg.Vcounters.{vcntrepecr_offset, vcntr_offset, vcntrcapt_offset}
use ls_dbg.Ioctl.{
  lies_in, read_end, write_end, RegAccess, vcounter_reg_read, vcounter_reg_write,
  ls_dbg_read_reg_internal, ls_dbg_write_reg_internal, put_value, get_value, get_user64, or_fault,
  read_for_user, write_for_user, access, reg_access, reg_access_ioctl, decode_reg_access,
  reg_access_size, dbg_read_reg, dbg_write_reg,
}

module _ {W : Type 0} (k : Kernel W) where
  -- What the calls need: both locks free and the EPU mapped.
  pub record IsReady (m : Machine W) : Type 0 where
    pub epu_mapped : IsMapped k m.maps epu 0x1000
    pub vc_free : m.vc_lock ≡ false
    pub reg_acc_free : m.reg_acc_lock ≡ false

  vcounter_reg_read-IsFine :
      (p : ℕ) (m : Machine W) → IsReady m → IsFine m (vcounter_reg_read k p m)
  unfolding vcounter_reg_read
  vcounter_reg_read-IsFine p m r =
      if-IsFine m (lies_in k p 0 vcntrepecr_offset) _ _ (ok-IsFine m m _ refl)
        (elim (Bool-cases (lies_in k p vcntrepecr_offset vcntr_offset)) [
          | inl t ↦ rw t (vcntepecr_get-IsFine k m p r.epu_mapped r.vc_free (ground arith))
          | inr f ↦ rw f (
              if-IsFine m (lies_in k p vcntr_offset vcntrcapt_offset) _ _
                (ok-IsFine m m (load 8 m.ram p) refl)
                (if-IsFine m (lies_in k p vcntrcapt_offset (read_end k)) _ _
                  (ok-IsFine m m (load 8 m.ram p) refl) (err-IsFine m m (neg enomem) refl)))
        ])

  vcounter_reg_write-IsFine :
      (p val : ℕ) (m : Machine W) → IsReady m → IsFine m (vcounter_reg_write k p val m)
  unfolding vcounter_reg_write
  vcounter_reg_write-IsFine p val m r =
      let stored = λ (n v : ℕ). ok-IsFine m (record m { ram = store n m.ram p v }) tt refl in
      if-IsFine m (lies_in k p 0 vcntrepecr_offset) _ _ (stored 4 (val % 2 ^ 32)) (
        if-IsFine m (lies_in k p vcntrepecr_offset vcntr_offset) _ _
          (vcntepecr_set-IsFine k m p val r.vc_free)
          (if-IsFine m (lies_in k p vcntr_offset vcntrcapt_offset) _ _ (stored 8 val) (
            if-IsFine m (lies_in k p vcntrcapt_offset (write_end k)) _ _ (stored 8 val)
              (err-IsFine m m (neg enomem) refl))))

  read_reg-IsFine :
      (id off : ℕ) (m : Machine W) → IsReady m → IsFine m (ls_dbg_read_reg_internal k id off m)
  unfolding ls_dbg_read_reg_internal
  read_reg-IsFine id off m r =
      let p = reg_find_map_ram k m.maps id off in
      if-IsFine m (is_io_mapped_module id) _ _ (read_reg_io-Fine k id off m) (
        if-IsFine m (k.is_err p) _ _ (err-IsFine m m (k.ptr_err p) refl)
          (vcounter_reg_read-IsFine p m r))

  write_reg-IsFine :
      (id off val : ℕ) (m : Machine W)
      → IsReady m
      → IsFine m (ls_dbg_write_reg_internal k id off val m)
  unfolding ls_dbg_write_reg_internal
  write_reg-IsFine id off val m r =
      let p = reg_find_map_ram k m.maps id off in
      if-IsFine m (is_io_mapped_module id) _ _ (write_reg_io-Fine k id off val m) (
        if-IsFine m (k.is_err p) _ _ (err-IsFine m m (k.ptr_err p) refl)
          (vcounter_reg_write-IsFine p val m r))

  put_value-Fine : (n addr val : ℕ) → Fine (put_value k n addr val)
  unfolding put_value
  put_value-Fine n addr val m = if-IsFine m _ _ _ (ok-IsFine m _ tt refl) (err-IsFine m _ _ refl)

  or_fault_same :
      (v : Option ℕ) (m : Machine W) → ((or_fault k v m).1 ≡ m) × IsFine m (or_fault k v m)
  unfolding or_fault
  or_fault_same none m = (refl, err-IsFine m m (neg efault) refl)
  or_fault_same (some v) m = (refl, ok-IsFine m m v refl)

  get_value_same :
      (size addr : ℕ) (m : Machine W)
      → ((get_value k size addr m).1 ≡ m) × IsFine m (get_value k size addr m)
  unfolding get_value
  get_value_same size addr m =
      or_fault_same (if size == 32 then k.get_user32 addr m.world else get_user64 k addr m) m

  read_for_user-IsFine :
      (ra : RegAccess) (m : Machine W) → IsReady m → IsFine m (read_for_user k ra m)
  unfolding read_for_user
  read_for_user-IsFine ra m r =
      and_then-IsFine m _ _ (read_reg-IsFine ra.module_id ra.offset m r)
        (λ val. put_value-Fine (if ra.reg_size == 32 then 4 else 8) (ra.buffer % 2 ^ 32) val)

  write_for_user-IsFine :
      (ra : RegAccess) (m : Machine W) → IsReady m → IsFine m (write_for_user k ra m)
  unfolding write_for_user
  write_for_user-IsFine ra m r =
      then_write (get_value k ra.reg_size (ra.buffer % 2 ^ 32) m)
        (get_value_same ra.reg_size (ra.buffer % 2 ^ 32) m)
    where
      then_write :
          (v : Outcome ℕ × Machine W)
          → (v.1 ≡ m) × IsFine m v
          → IsFine m (and_then v (λ val. ls_dbg_write_reg_internal k ra.module_id ra.offset val))
      then_write (ok val, n) (e, h) = rw e (write_reg-IsFine ra.module_id ra.offset val m r)
      then_write (err x, n) (e, h) = err-IsFine m n x h.keeps
      then_write (hang, n) (e, h) = absurd (h.ends refl)

  access-IsFine :
      (cmd : ℕ) (bytes : Option Memory) (m : Machine W)
      → IsReady m
      → IsFine m (access k cmd bytes m)
  unfolding access
  access-IsFine cmd none m r = err-IsFine m m (neg efault) refl
  access-IsFine cmd (some bytes) m r =
      let ra = decode_reg_access bytes in
      if-IsFine m (not (ra.reg_size == 32) && not (ra.reg_size == 64)) _ _
        (err-IsFine m m (neg einval) refl)
        (if-IsFine m (cmd == dbg_read_reg k) _ _ (read_for_user-IsFine ra m r) (
          if-IsFine m (cmd == dbg_write_reg k) _ _ (write_for_user-IsFine ra m r)
            (err-IsFine m m (neg enotty) refl)))

  pub reg_access_ioctl-IsFine :
      (cmd arg : ℕ) (m : Machine W) → IsReady m → IsFine m (reg_access_ioctl k cmd arg m)
  unfolding reg_access_ioctl reg_access
  reg_access_ioctl-IsFine cmd arg m r =
      if-IsFine m (cmd == dbg_read_reg k || cmd == dbg_write_reg k) _ _
        (access-IsFine cmd (k.copy_from_user reg_access_size arg m.world) m r)
        (resource_reserve-IsFine k cmd arg m r.reg_acc_free)
