-- ===== src/Probe/Leaks.antt =====
-- The mapped ranges and the device memory that a probe and the removal of the driver take and give
-- back.
use ls_dbg.Prelude.{
  ℕ, zero, suc, ◌+◌, ◌-◌, ◌≡◌, ◌≢◌, ◌⊎◌, ◌*◌, ◌∙◌, ap, refl, String, inl, inr, Bool-cases, arith,
  List, [], ◌∷◌, ◌==◌, none,
}
use ls_dbg.Kernel.{Kernel, Machine, ok}
use ls_dbg.TraceIp.{etf0, etr, etm0, cstf0, epu, gdi, core, epccr_offset}
use ls_dbg.RegAccess.Tables.{IsMapped}
use ls_dbg.Irq.Bind.{set_epccrs}
use ls_dbg.Debugfs.{Debugfs, FileName}
use ls_dbg.Debugfs.Init.{
  dcsr_etf_ls1_init, dcsr_etr_ls1_init, dcsr_etm_ls1_init, dcsr_cstf_ls1_init, dcsr_epu_ls1_init,
  dcsr_gdi_ls1_init, dcsr_core_ls1_init,
}
use ls_dbg.Debugfs.World.{create_dirs-world}
use ls_dbg.Probe.{
  Platform, Registry, Device, mem_ptr, Kind, etf_kind, etr_kind, etm_kind, cstf_kind, epu_kind,
  gdi_kind, core_kind, dbgfs_init_fn, init_all, add_compatible_devices, add_all_devices,
  remove_devices, register_all, dcsr_probe, dcsr_remove,
}
use ls_dbg.Probe.Balance.{IsCounted, ranges, memory, holds, add_nodes-held, remove_devices-held}
use ls_dbg.Probe.Remove.{stopped, remove_world}

module _ {W : Type 0} (k : Kernel W) (p : Platform W) (d : Debugfs W) (held : W → ℕ)
    (of_range : ℕ → ℕ) (of_device : ℕ) (law : IsCounted k p d held of_range of_device) where
  abbrev due : List Device → ℕ
  due = holds k p d held of_range of_device

  -- What was taken between two states is what the new devices hold.
  Accounted : Registry W → Registry W → Type 0
  Accounted r r' = held r'.machine.world + due r.dbg_devs ≡ held r.machine.world + due r'.dbg_devs

  Accounted-trans : (r1 r2 r3 : Registry W) → Accounted r1 r2 → Accounted r2 r3 → Accounted r1 r3
  unfolding Accounted
  Accounted-trans r1 r2 r3 e e' = omega arith

  added :
      (compatible name : String) (id : ℕ) (kind : Kind) (r : Registry W)
      → Accounted r (add_compatible_devices k p d compatible name id kind r)
  unfolding add_compatible_devices Accounted
  added compatible name id kind r =
      add_nodes-held k p d held of_range of_device law name id kind 0
        (p.compatible_nodes compatible r.machine.world) r

  add_all_devices-held : (r : Registry W) → Accounted r (add_all_devices k p d r)
  unfolding add_all_devices
  add_all_devices-held r =
      let add = add_compatible_devices k p d in
      let r1 = add "fsl,ls1021a-dcsr-etf" "etf" etf0 etf_kind r in
      let r2 = add "fsl,ls1021a-dcsr-etr" "etr" etr etr_kind r1 in
      let r3 = add "fsl,ls1021a-dcsr-etm" "etm" etm0 etm_kind r2 in
      let r4 = add "fsl,ls1021a-dcsr-cstf" "cstf" cstf0 cstf_kind r3 in
      let r5 = add "fsl,ls1021a-dcsr-epu" "epu" epu epu_kind r4 in
      let r6 = add "fsl,ls1021a-dcsr-gdi" "gdi" gdi gdi_kind r5 in
      Accounted-trans r r1 _ (added "fsl,ls1021a-dcsr-etf" "etf" etf0 etf_kind r) (
        Accounted-trans r1 r2 _ (added "fsl,ls1021a-dcsr-etr" "etr" etr etr_kind r1) (
          Accounted-trans r2 r3 _ (added "fsl,ls1021a-dcsr-etm" "etm" etm0 etm_kind r2) (
            Accounted-trans r3 r4 _ (added "fsl,ls1021a-dcsr-cstf" "cstf" cstf0 cstf_kind r3) (
              Accounted-trans r4 r5 _ (added "fsl,ls1021a-dcsr-epu" "epu" epu epu_kind r4) (
                Accounted-trans r5 r6 _ (added "fsl,ls1021a-dcsr-gdi" "gdi" gdi gdi_kind r5)
                  (added "fsl,ls1021a-dcsr-a7cpu" "core" core core_kind r6))))))

  dbgfs_init_fn-held :
      (kind : Kind) (root : ℕ) (mem : ℕ → ℕ) (m : Machine W)
      → held (dbgfs_init_fn k p d kind root mem m).1.world ≡ held m.world
  unfolding dbgfs_init_fn dcsr_etf_ls1_init dcsr_etr_ls1_init dcsr_etm_ls1_init dcsr_cstf_ls1_init
      dcsr_epu_ls1_init dcsr_gdi_ls1_init dcsr_core_ls1_init
  dbgfs_init_fn-held etf_kind root mem m = create_dirs-world d held law.files root _ m
  dbgfs_init_fn-held etr_kind root mem m = create_dirs-world d held law.files root _ m
  dbgfs_init_fn-held etm_kind root mem m = create_dirs-world d held law.files root _ m
  dbgfs_init_fn-held cstf_kind root mem m = create_dirs-world d held law.files root _ m
  dbgfs_init_fn-held epu_kind root mem m =
      create_dirs-world d held law.files root _ (record m { epu_ptr = mem 0 })
  dbgfs_init_fn-held gdi_kind root mem m = create_dirs-world d held law.files root _ m
  dbgfs_init_fn-held core_kind root mem m = create_dirs-world d held law.files root _ m

  init_all-held :
      (root : ℕ) (devs : List Device) (m : Machine W)
      → held (init_all k p d root devs m).world ≡ held m.world
  unfolding init_all
  init_all-held root [] m = refl
  init_all-held root (dev ∷ devs) m =
      init_all-held root devs (dbgfs_init_fn k p d dev.dbgfs_init root (mem_ptr dev) m).1
      ∙ dbgfs_init_fn-held dev.dbgfs_init root (mem_ptr dev) m

  set_epccrs-held : (base n i val : ℕ) (w : W) → held (set_epccrs k base n i val w) ≡ held w
  unfolding set_epccrs
  set_epccrs-held base zero i val w = refl
  set_epccrs-held base (suc n) i val w =
      set_epccrs-held base n (i + 1) val (k.iowrite32 val (base + (epccr_offset + i * 4)) w)
      ∙ law.written val (base + (epccr_offset + i * 4)) w

  stopped-held : (m : Machine W) → held (stopped k p d m) ≡ held m.world
  stopped-held m =
      let off = set_epccrs k (m.maps epu).base_addr 32 0 0 m.world in
      let e = set_epccrs-held (m.maps epu).base_addr 32 0 0 m.world in
      elim (Bool-cases (m.intr_num == 0)) [
        | inl t ↦ rw t e
        | inr f ↦ rw f (law.irq_freed m.intr_num (k.flush_scheduled_work off) ∙ law.flushed off ∙ e)
      ]

  -- From the root directory on: no range and no memory is taken, and an error gives all back.
  register_all-held :
      (r : Registry W)
      → let (out, r') = register_all k p d r in
        ((out ≡ ok tt)
          × (r'.dbg_devs ≡ r.dbg_devs)
          × (held r'.machine.world ≡ held r.machine.world))
        ⊎ ((out ≢ ok tt)
            × (r'.dbg_devs ≡ [])
            × (held r'.machine.world ≡ held r.machine.world - due r.dbg_devs))
  unfolding register_all
  register_all-held r =
      let name : FileName = record { base = "ls-dbg"; index = none } in
      let (root, w) = d.create_dir name 0 r.machine.world in
      let (ret, w') = p.misc_register w in
      let made = law.files.dir name 0 r.machine.world in
      let both = law.registered w ∙ made in
      let give : (u : W) → Registry W = λ u. record {
        machine = record (r.machine) { world = u };
        dbg_devs = r.dbg_devs;
        dbgfs_root_dentry = root;
      } in
      let back = remove_devices-held k p d held of_range of_device law in
      elim (Bool-cases (d.is_err_or_null root)) [
        | inl t ↦ rw t (inr ((λ e. cc), refl, back (give w) ∙ ap (λ n. n - due r.dbg_devs) made))
        | inr f ↦ elim (Bool-cases (ret == 0)) [
          | inl t ↦
              rw (f, t)
                (inl (
                  refl,
                  refl,
                  init_all-held root r.dbg_devs (record (r.machine) { world = w' }) ∙ both,
                ))
          | inr g ↦
              rw (f, g) (inr ((λ e. cc), refl, back (give w') ∙ ap (λ n. n - due r.dbg_devs) both))
        ]
      ]

  -- `held` counts mapped ranges and device memory only: not directories, nor the character device.
  -- Of these, a probe that finds the device list empty takes from the kernel what the devices that it
  -- leaves hold, their mapped ranges and their memory. It succeeds, or it leaves no device, and the
  -- count of ranges and memory is what it was.
  pub probe_accounted :
      (r : Registry W)
      → r.dbg_devs ≡ []
      → let (out, r') = dcsr_probe k p d r in
        (held r'.machine.world ≡ held r.machine.world + due r'.dbg_devs)
        × ((out ≡ ok tt) ⊎ ((r'.dbg_devs ≡ []) × (held r'.machine.world ≡ held r.machine.world)))
  unfolding dcsr_probe Accounted ranges memory
  probe_accounted r empty =
      let r1 = add_all_devices k p d r in
      let taken = add_all_devices-held r in
      let none_yet : due r.dbg_devs ≡ 0 = ap due empty in
      let r' = (register_all k p d r1).1 in
      elim (register_all-held r1) [
        | inl (good, devs, same) ↦
            let now : due r'.dbg_devs ≡ due r1.dbg_devs = ap due devs in (omega arith, inl good)
        | inr (bad, devs, same) ↦
            let now : due r'.dbg_devs ≡ 0 = ap due devs in (omega arith, inr (devs, omega arith))
      ]

  -- A probe from an empty device list followed, whatever the driver did in between as long as the
  -- count of mapped ranges and device memory and the EPU's mapping stand, by the removal of the
  -- driver: no device is left, and the count is what it was before the probe. Directories and the
  -- character device are not counted.
  pub probe_removed :
      (r : Registry W) (m : Machine W)
      → r.dbg_devs ≡ []
      → let r' = (dcsr_probe k p d r).1 in
        held m.world ≡ held r'.machine.world
        → IsMapped k m.maps epu 0x1000
        → let r'' = dcsr_remove k p d (record r' { machine = m }) in
          (r''.dbg_devs ≡ []) × (held r''.machine.world ≡ held r.machine.world)
  unfolding remove_devices
  probe_removed r m empty same v =
      let r' = (dcsr_probe k p d r).1 in
      let taken = (probe_accounted r empty).0 in
      let (devs, machine) = remove_world k p d (record r' { machine = m }) v in
      let s = d.remove_recursive r'.dbgfs_root_dentry (stopped k p d m) in
      let files = law.files.removed r'.dbgfs_root_dentry (stopped k p d m) in
      let off = stopped-held m in
      let back =
        remove_devices-held k p d held of_range of_device law
          (record r' { machine = record m { world = s } }) in
      let out : held (dcsr_remove k p d (record r' { machine = m })).machine.world
          ≡ held s - due r'.dbg_devs =
        ap (λ m. held m.world) machine ∙ law.deregistered _ ∙ back in
      (devs, omega arith)
