-- ===== src/Module.antt =====
-- ls-dbg/module/ls_dbg.c: loading and unloading the module, with the platform bus of Linux.
pub mod Load
use ls_dbg.Prelude.{
  ℕ, ◌+◌, ◌^◌, ◌≤◌, ◌<◌, ◌≡◌, ◌≢◌, ◌⊎◌, inl, inr, refl, true, false, ◌==◌, if◌then◌else◌, arith,
  Bool-cases, none, [], ◌∙◌,
}
use ls_dbg.Kernel.{Kernel, Outcome, ok, err, neg, enomem}
use ls_dbg.Ioctl.Virtual.{IsVcountMapped}
use ls_dbg.Vcounters.{vcounters_size}
use ls_dbg.VcountersInit.{vcounters_init, vcounters_init_lem}
use ls_dbg.Debugfs.{Debugfs}
use ls_dbg.Probe.{Platform, Registry, add_all_devices, dcsr_probe, dcsr_remove}
use ls_dbg.Probe.Cases.{probe_cases}

-- `struct platform_driver`: the callbacks of `dcsr_driver`.
pub record PlatformDriver (W : Type 0) : Type 0 where
  pub probe : Registry W → Outcome (Unit {0}) × Registry W
  pub remove : Registry W → Registry W

-- linux/platform_device.h: registering a driver gives a status and has the bus call the driver's
-- `probe` for each device that matches; unregistering it has the bus call `remove` for each device
-- that it is bound to.
pub record Bus (W : Type 0) : Type 0 where
  pub platform_driver_register : PlatformDriver W → Registry W → ℕ × Registry W
  pub platform_driver_unregister : PlatformDriver W → Registry W → Registry W

module _ {W : Type 0} (k : Kernel W) (p : Platform W) (d : Debugfs W) (b : Bus W) where
  abbrev pub dcsr_driver : PlatformDriver W
  dcsr_driver = record { probe = dcsr_probe k p d; remove = dcsr_remove k p d }

  unfoldable pub dcsr_module_init : Registry W → Outcome (Unit {0}) × Registry W
  dcsr_module_init r =
      let (ret, r') = b.platform_driver_register dcsr_driver r in
      let (out, m) = vcounters_init k d r'.dbgfs_root_dentry r'.machine in
      if ret == 0 then (out, record r' { machine = m }) else (err ret, r')

  unfoldable pub dcsr_module_exit : Registry W → Registry W
  dcsr_module_exit r = b.platform_driver_unregister dcsr_driver r

  -- Loading the module ends in one of three ways. If the driver cannot be registered, it is that
  -- error, and nothing else is done. Otherwise it is success with `ls_dbg_vcnt` mapped as VCOUNT, or
  -- ENOMEM with the maps as the registration left them; in both cases the driver is not unregistered:
  -- the devices stay as the registration left them. The structure must lie at valid pointers.
  pub module_init_cases :
      (r r' : Registry W) (ret : ℕ)
      → k.vcnt_addr + vcounters_size ≤ 2 ^ 32
      → ((off : ℕ) → off < vcounters_size → k.is_err (k.vcnt_addr + off) ≡ false)
      → b.platform_driver_register dcsr_driver r ≡ (ret, r')
      → let (out, r'') = dcsr_module_init r in
        ((ret ≢ 0) × (out ≡ err ret) × (r'' ≡ r'))
        ⊎ ((ret ≡ 0)
            × (r''.dbg_devs ≡ r'.dbg_devs)
            × (((out ≡ ok tt) × IsVcountMapped k r''.machine.maps)
                ⊎ ((out ≡ err (neg enomem)) × (r''.machine.maps ≡ r'.machine.maps))))
  unfolding dcsr_module_init
  module_init_cases r r' ret fits valid e = elim (Bool-cases (ret == 0)) [
    | inl t ↦
        let z : ret ≡ 0 = ground arith in
        rw (e, t) (inr (z, refl, vcounters_init_lem k d r'.dbgfs_root_dentry r'.machine fits valid))
    | inr f ↦ let ne : ret ≢ 0 = ground arith in rw (e, f) (inl (ne, refl, refl))
  ]

  -- If the bus reports success and the probe of the one device it has found fails because the root
  -- directory cannot be made, the module loads all the same: no device is left, and the result is
  -- success with `ls_dbg_vcnt` mapped as VCOUNT, or ENOMEM.
  failed_probe_ignored :
      (r : Registry W) (root : ℕ) (w : W)
      → k.vcnt_addr + vcounters_size ≤ 2 ^ 32
      → ((off : ℕ) → off < vcounters_size → k.is_err (k.vcnt_addr + off) ≡ false)
      → d.create_dir
          (record { base = "ls-dbg"; index = none })
          0
          (add_all_devices k p d r).machine.world
        ≡ (root, w)
      → d.is_err_or_null root ≡ true
      → b.platform_driver_register dcsr_driver r ≡ (0, (dcsr_probe k p d r).1)
      → let (out, r') = dcsr_module_init r in
        ((dcsr_probe k p d r).0 ≡ err (neg enomem))
        × (r'.dbg_devs ≡ [])
        × (((out ≡ ok tt) × IsVcountMapped k r'.machine.maps) ⊎ (out ≡ err (neg enomem)))
  unfolding dcsr_probe
  failed_probe_ignored r root w fits valid e bad q =
      let r1 = add_all_devices k p d r in
      let (out, devs, rest) =
        probe_cases k p d r1 root (p.misc_register w).0 w (p.misc_register w).1 e refl in
      elim (module_init_cases r (dcsr_probe k p d r).1 0 fits valid q) [
        | inl (ne, h, h') ↦ elim (ne refl) [ ]
        | inr (z, kept, inl h) ↦ (rw bad at out, kept ∙ (rw bad at devs), inl h)
        | inr (z, kept, inr h) ↦ (rw bad at out, kept ∙ (rw bad at devs), inr h.0)
      ]
