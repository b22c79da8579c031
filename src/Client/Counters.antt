-- ===== src/Client/Counters.antt =====
-- The test program's test of a virtual counter, which is written and read back.
use native.Mathlib.Nat.{mod-eq_of_lt}
use ls_dbg.Prelude.{ℕ, ◌+◌, ◌%◌, ◌^◌, ◌<◌, ◌≡◌, inr, refl, ◌∙◌, ap, arith, ◌==◌, none, some, true}
use ls_dbg.Memory.{Memory, load, store, load-store_self}
use ls_dbg.Kernel.{Kernel, Machine, ok}
use ls_dbg.TraceIp.{vcount}
use ls_dbg.Ioctl.{
  reg_access_size, dbg_read_reg, dbg_write_reg, reg_access_ioctl, read_for_user, write_for_user,
  put_value, get_value, get_user64, or_fault,
}
use ls_dbg.Ioctl.User.{ioctl_dispatch}
use ls_dbg.Ioctl.Virtual.{IsVcountMapped, write-counter, read-counter}
use ls_dbg.Client.{
  Locals, Process, go, vcount_vcntr_offset, vcount_64_test_val, encode_reg_access, ioctl_with,
  read_reg, write_reg, assign, test_read_write_vcount,
}
use ls_dbg.Client.Calls.{decode-encode_reg_access, IsHosted, filled}

module _ {W : Type 0} (k : Kernel W) (u : Locals W) where
  -- `val64` keeps its value while `ra` is filled, and what `put_user` writes to it is read there.
  pub record IsApart : Type 0 where
    pub value_kept :
        (bytes value : Memory) (w : W)
        → k.copy_from_user 8 u.val64_at
            (u.poke reg_access_size u.ra_at bytes (u.poke 8 u.val64_at value w))
          ≡ some value
    pub put_ok : (v : ℕ) (w : W) → (k.put_user 8 v u.val64_at w).0 ≡ 0
    pub put_read :
        (v : ℕ) (w : W) → v < 2 ^ 64 → u.peek 8 u.val64_at (k.put_user 8 v u.val64_at w).1 ≡ v

  abbrev at_counter : ℕ
  at_counter = vcount_vcntr_offset 0

  abbrev access_bytes : Memory
  access_bytes = encode_reg_access vcount at_counter u.val64_at 64

  module _ (host : IsHosted k u) (apart : IsApart) where
    user64 :
        (m : Machine W) (bytes : Memory)
        → k.copy_from_user 8 u.val64_at m.world ≡ some bytes
        → get_user64 k u.val64_at m ≡ some (load 8 bytes 0)
    unfolding get_user64
    user64 m bytes e =
        ap (λ found. elim found [ none ↦ none | some bytes ↦ some (load 8 bytes 0) ]) e

    write_call :
        (p : Process W) (w : W)
        → IsVcountMapped k p.machine.maps
        → p.machine.world ≡ u.poke 8 u.val64_at (store 8 (λ x. 0) 0 vcount_64_test_val) w
        → let m = filled k u reg_access_size u.ra_at access_bytes p in
          reg_access_ioctl k (dbg_write_reg k) u.ra_at m
          ≡ (ok tt, record m { ram = store 8 m.ram (k.vcnt_addr + at_counter) vcount_64_test_val })
    unfolding write_for_user get_value or_fault
    write_call p w v e =
        let m = filled k u reg_access_size u.ra_at access_bytes p in
        let read =
          decode-encode_reg_access vcount at_counter u.val64_at 64 (omega arith) (omega arith)
            (omega (arith, host.val64_fits)) (omega arith) in
        let buffer : u.val64_at % 2 ^ 32 ≡ u.val64_at = mod-eq_of_lt host.val64_fits in
        let taken : k.copy_from_user 8 u.val64_at m.world
            ≡ some (store 8 (λ x. 0) 0 vcount_64_test_val) =
          rw e (apart.value_kept access_bytes _ w) in
        let given : get_user64 k u.val64_at m ≡ some vcount_64_test_val =
          user64 m _ taken
          ∙ ap some (load-store_self 8 (λ x. 0) 0 vcount_64_test_val (omega arith)) in
        (ioctl_dispatch k m u.ra_at access_bytes host.write_ne (host.copied _ _ access_bytes _)
          (inr (ap (λ ra. ra.reg_size) read))).1
        ∙ ap (λ ra. write_for_user k ra m) read
        ∙ rw (buffer, given)
            (write-counter k m at_counter vcount_64_test_val v (omega arith) (omega arith))

    read_call :
        (p : Process W)
        → IsVcountMapped k p.machine.maps
        → load 8 p.machine.ram (k.vcnt_addr + at_counter) ≡ vcount_64_test_val
        → let m = filled k u reg_access_size u.ra_at access_bytes p in
          reg_access_ioctl k (dbg_read_reg k) u.ra_at m
          ≡ (ok tt, record m { world = (k.put_user 8 vcount_64_test_val u.val64_at m.world).1 })
    unfolding read_for_user put_value
    read_call p v e =
        let m = filled k u reg_access_size u.ra_at access_bytes p in
        let read =
          decode-encode_reg_access vcount at_counter u.val64_at 64 (omega arith) (omega arith)
            (omega (arith, host.val64_fits)) (omega arith) in
        let buffer : u.val64_at % 2 ^ 32 ≡ u.val64_at = mod-eq_of_lt host.val64_fits in
        (ioctl_dispatch k m u.ra_at access_bytes host.write_ne (host.copied _ _ access_bytes _)
          (inr (ap (λ ra. ra.reg_size) read))).0
        ∙ ap (λ ra. read_for_user k ra m) read
        ∙ rw
            (
              read-counter k m at_counter v (omega arith) (omega arith),
              e,
              buffer,
              apart.put_ok vcount_64_test_val m.world,
            )
            refl

    -- With `ls_dbg_vcnt` mapped, the test of a virtual counter passes, and the value goes there and
    -- back: no call fails, as `errno` is left alone; the eight bytes at the test's offset hold the value
    -- and no others change; the world is changed by filling the variables and by one `put_user` of the
    -- eight bytes of the value to `val64`, where the program reads it.
    pub test_read_write_vcount_passes :
        (p : Process W)
        → IsVcountMapped k p.machine.maps
        → let value = store 8 (λ x. 0) 0 vcount_64_test_val in
          let filled_ra = u.poke reg_access_size u.ra_at access_bytes in
          let before = filled_ra (filled_ra (u.poke 8 u.val64_at value p.machine.world)) in
          let after = (k.put_user 8 vcount_64_test_val u.val64_at before).1 in
          (test_read_write_vcount k u p ≡ (
            go tt,
            record p {
              machine = record (p.machine) {
                ram = store 8 p.machine.ram (k.vcnt_addr + at_counter) vcount_64_test_val;
                world = after;
              };
            },
          ))
          × (load 8 (test_read_write_vcount k u p).1.machine.ram (k.vcnt_addr + at_counter)
              ≡ vcount_64_test_val)
          × (u.peek 8 u.val64_at after ≡ vcount_64_test_val)
    unfolding test_read_write_vcount assign write_reg read_reg ioctl_with
    test_read_write_vcount_passes p v =
        let start : Process W = (assign k u 8 u.val64_at vcount_64_test_val p).1 in
        let m = filled k u reg_access_size u.ra_at access_bytes start in
        let written : Process W = record start {
          machine = record m { ram = store 8 m.ram (k.vcnt_addr + at_counter) vcount_64_test_val };
        } in
        let n = filled k u reg_access_size u.ra_at access_bytes written in
        let equal : (u.peek 8 u.val64_at (k.put_user 8 vcount_64_test_val u.val64_at n.world).1
              == vcount_64_test_val)
            ≡ true =
          let e = apart.put_read vcount_64_test_val n.world (omega arith) in ground arith in
        rw
          (
            write_call start p.machine.world v refl,
            read_call written v (
                load-store_self 8 m.ram (k.vcnt_addr + at_counter) vcount_64_test_val
                  (omega arith)),
            equal,
          )
          (
            refl,
            load-store_self 8 m.ram (k.vcnt_addr + at_counter) vcount_64_test_val (omega arith),
            apart.put_read vcount_64_test_val n.world (omega arith),
          )
