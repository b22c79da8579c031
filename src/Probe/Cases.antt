-- ===== src/Probe/Cases.antt =====
-- What probing and removing the driver does to its tables.
use ls_dbg.Prelude.{
  ℕ, ◌+◌, ◌<◌, ◌≡◌, ◌≢◌, ◌∙◌, false, ◌==◌, not, ◌||◌, if◌then◌else◌, arith, [], none,
}
use ls_dbg.Kernel.{Kernel, Machine, ok, err, neg, enomem}
use ls_dbg.TraceIp.{etm0, etr, num_ids}
use ls_dbg.RegAccess.{reg_add_map}
use ls_dbg.Debugfs.{Debugfs}
use ls_dbg.Probe.{Platform, Registry, etm_kind, map_range, add_device, remove_devices, register_all}

module _ {W : Type 0} (k : Kernel W) (p : Platform W) (d : Debugfs W) where
  -- Mapping a range leaves every entry but that of its id as it was, and that one too if the range
  -- does not exist; if it does, the entry has the range's address and size from then on.
  pub map_range_lem :
      (m : Machine W) (np id i addr : ℕ) (w : W)
      → p.of_iomap np i m.world ≡ (addr, w)
      → id < num_ids
      → let (got, m') = map_range k p d np id i m in
        (got ≡ addr)
        × ((j : ℕ) → j ≢ id → m'.maps j ≡ m.maps j)
        × ((m'.maps id).base_addr ≡ (if addr == 0 then (m.maps id).base_addr else addr))
        × ((m'.maps id).size ≡ (if addr == 0 then (m.maps id).size else p.resource_size np i w))
        × (m'.world ≡ w)
  unfolding map_range reg_add_map
  map_range_lem m np id i addr w e l = rw e (ground arith)

  -- The second ETM node's second range, if it has one, goes to the entry of the ETR.
  pub second_range_takes_etr :
      (m : Machine W) (np addr : ℕ) (w : W)
      → let m' = (map_range k p d np (etm0 + 1 + 0) 0 m).1 in
        p.of_iomap np 1 m'.world ≡ (addr, w)
        → addr ≢ 0
        → ((add_device k p d "etm" etm0 etm_kind 1 np m).1.maps etr).base_addr ≡ addr
  unfolding add_device
  second_range_takes_etr m np addr w e ne =
      let (got, others, base, size, rest) =
        map_range_lem (map_range k p d np (etm0 + 1 + 0) 0 m).1 np (etm0 + 1 + 1) 1 addr w e
          (omega arith) in
      let t : (addr == 0) ≡ false = ground arith in base ∙ rw t

  -- The probe, from the root directory on, ends in one of three ways: ENOMEM if the directory cannot
  -- be made, the error of the character device's registration, or success. The device list is
  -- emptied on an error and kept on success.
  pub probe_cases :
      (r : Registry W) (root ret : ℕ) (w w' : W)
      → d.create_dir (record { base = "ls-dbg"; index = none }) 0 r.machine.world ≡ (root, w)
      → p.misc_register w ≡ (ret, w')
      → let (out, r') = register_all k p d r in
        (out ≡ (
          if d.is_err_or_null root then err (neg enomem) else if ret == 0 then ok tt else err ret))
        × (r'.dbg_devs ≡ (if d.is_err_or_null root || not (ret == 0) then [] else r.dbg_devs))
        × (r'.dbgfs_root_dentry ≡ root)
  unfolding register_all remove_devices
  probe_cases r root ret w w' e q = rw (e, q) (ground arith)
