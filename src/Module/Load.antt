-- ===== src/Module/Load.antt =====
-- From the loading of the module to the driver in use.
use ls_dbg.Prelude.{
  ℕ, ◌+◌, ◌^◌, ◌≤◌, ◌≡◌, ◌≢◌, refl, ap, sym, subst, ◌∙◌, false, true, none, arith, ◌==◌, List, [],
  String, Bool-cases, inl, inr,
}
use ls_dbg.Kernel.{Kernel, Machine, MapInfo, ok, hang}
use ls_dbg.TraceIp.{epu}
use ls_dbg.Fine.{kept}
use ls_dbg.RegAccess.Tables.{IsMapped}
use ls_dbg.Vcounters.{handle_status}
use ls_dbg.VcountersInit.{vcounters_init}
use ls_dbg.VcountersInit.Fine.{vcounters_init-of_epu}
use ls_dbg.Ioctl.Fine.{IsReady}
use ls_dbg.Debugfs.{Debugfs}
use ls_dbg.Probe.{Platform, Registry, add_all_devices, register_all, remove_devices, dcsr_probe}
use ls_dbg.Probe.Cases.{probe_cases}
use ls_dbg.Probe.Init.{last_epu, init_all-kept}
use ls_dbg.Probe.Epu.{IsTree, HasEpu, add_all_devices-IsPlaced, add_all_devices-unmoved}
use ls_dbg.Module.{Bus, dcsr_driver, dcsr_module_init}
use ls_dbg.System.{Call, perform, Cores, idle, Reach}
use ls_dbg.System.Ready.{Reach-ends}

module _ {W : Type 0} (k : Kernel W) (p : Platform W) (d : Debugfs W) (b : Bus W) where
  -- The root directory can be made and the character device be registered, and the bus probes once.
  pub record IsBoot (r : Registry W) : Type 0 where
    pub root_made :
        (w : W)
        → d.is_err_or_null (d.create_dir (record { base = "ls-dbg"; index = none }) 0 w).0 ≡ false
    pub registered : (w : W) → (p.misc_register w).0 ≡ 0
    pub probed : b.platform_driver_register (dcsr_driver k p d b) r ≡ (0, (dcsr_probe k p d r).1)

  -- The driver's tables point to the EPU at `base`, and the locks are free.
  pub record IsLoaded (base : ℕ) (m : Machine W) : Type 0 where
    pub ready : IsReady k m
    pub at : (m.maps epu).base_addr ≡ base
    pub ptr : m.epu_ptr ≡ base

  IsMapped-ext :
      {maps maps' : ℕ → MapInfo}
      → maps epu ≡ maps' epu
      → IsMapped k maps epu 0x1000
      → IsMapped k maps' epu 0x1000
  IsMapped-ext e v = record {
    fits = subst (λ i. 0x1000 ≤ i.size) e v.fits;
    in_memory = subst (λ i. i.base_addr + 0x1000 ≤ 2 ^ 32) e v.in_memory;
    no_err = λ off l. subst (λ i. k.is_err (i.base_addr + off) ≡ false) e (v.no_err off l);
  }

  -- A probe that succeeds has gone through all its steps.
  register_all-kept :
      (r : Registry W)
      → (register_all k p d r).0 ≡ ok tt
      → kept (register_all k p d r).1.machine ≡ (
        r.machine.maps,
        last_epu r.dbg_devs r.machine.epu_ptr,
        r.machine.vc_lock,
        r.machine.reg_acc_lock,
      )
  unfolding register_all remove_devices
  register_all-kept r e =
      let (root, w) = d.create_dir (record { base = "ls-dbg"; index = none }) 0 r.machine.world in
      let (ret, w') = p.misc_register w in
      elim (Bool-cases (d.is_err_or_null root)) [
        | inl t ↦ let bad = rw t at e in cc
        | inr f ↦ elim (Bool-cases (ret == 0)) [
          | inl t ↦
              rw (f, t) (init_all-kept k p d root r.dbg_devs (record (r.machine) { world = w' }))
          | inr g ↦ let bad = rw (f, g) at e in cc
        ]
      ]

  boot_probe : (r : Registry W) → IsBoot r → (dcsr_probe k p d r).0 ≡ ok tt
  unfolding dcsr_probe
  boot_probe r boot =
      let r1 = add_all_devices k p d r in
      let (root, w) = d.create_dir (record { base = "ls-dbg"; index = none }) 0 r1.machine.world in
      let (ret, w') = p.misc_register w in
      let t : (ret == 0) ≡ true = let z = boot.registered w in ground arith in
      let (out, devs, rest) = probe_cases k p d r1 root ret w w' refl refl in
      out ∙ rw (boot.root_made r1.machine.world, t) refl

  probed-IsLoaded :
      (nodes : String → List ℕ) (addr size : ℕ → ℕ → ℕ) (base : ℕ) (r : Registry W)
      → IsTree k p d nodes addr size
      → HasEpu k p d nodes addr size base
      → r.dbg_devs ≡ []
      → r.machine.vc_lock ≡ false
      → r.machine.reg_acc_lock ≡ false
      → (dcsr_probe k p d r).0 ≡ ok tt
      → IsLoaded base (dcsr_probe k p d r).1.machine
  unfolding dcsr_probe
  probed-IsLoaded nodes addr size base r tree has empty vc acc e =
      let r1 = add_all_devices k p d r in
      let set = add_all_devices-IsPlaced k p d nodes addr size tree base has r empty in
      let still = add_all_devices-unmoved k p d r in
      let done = register_all-kept r1 e in
      record {
        ready = record {
          epu_mapped =
              subst (λ maps. IsMapped k maps epu 0x1000) (sym (ap (λ t. t.0) done)) set.mapped;
          vc_free = ap (λ t. t.2) done ∙ ap (λ t. t.1) still ∙ vc;
          reg_acc_free = ap (λ t. t.3) done ∙ ap (λ t. t.2) still ∙ acc;
        };
        at = ap (λ t. (t.0 epu).base_addr) done ∙ set.at;
        ptr = ap (λ t. t.1) done ∙ set.last _;
      }

  -- `vcounters_init` leaves the driver so, whatever its outcome.
  init-IsLoaded :
      (base parent : ℕ) (m : Machine W)
      → IsLoaded base m
      → IsLoaded base (vcounters_init k d parent m).1
  init-IsLoaded base parent m l =
      let same = vcounters_init-of_epu k d parent m in
      record {
        ready = record {
          epu_mapped = IsMapped-ext (sym (ap (λ t. t.0) same)) l.ready.epu_mapped;
          vc_free = ap (λ t. t.2) same ∙ l.ready.vc_free;
          reg_acc_free = ap (λ t. t.3) same ∙ l.ready.reg_acc_free;
        };
        at = ap (λ t. t.0.base_addr) same ∙ l.at;
        ptr = ap (λ t. t.1) same ∙ l.ptr;
      }

  -- Loading the module on a board whose device tree has one EPU, of a page or more at `base`: the probe
  -- succeeds, the EPU is mapped at `base`, where `ls_dbg_epu_ptr` points as well, and both locks are
  -- free, be the outcome of `vcounters_init` success or an error. The list of devices is empty and
  -- the locks are free at the start, memory for the devices can be had, the root directory can be
  -- made, the character device be registered, and the bus probes once.
  pub module_init-IsLoaded :
      (nodes : String → List ℕ) (addr size : ℕ → ℕ → ℕ) (base : ℕ) (r : Registry W)
      → IsTree k p d nodes addr size
      → HasEpu k p d nodes addr size base
      → IsBoot r
      → r.dbg_devs ≡ []
      → r.machine.vc_lock ≡ false
      → r.machine.reg_acc_lock ≡ false
      → ((dcsr_probe k p d r).0 ≡ ok tt) × IsLoaded base (dcsr_module_init k p d b r).1.machine
  unfolding dcsr_module_init
  module_init-IsLoaded nodes addr size base r tree has boot empty vc acc =
      let e = boot_probe r boot in
      (
        e,
        rw boot.probed (
            init-IsLoaded base _ _
              (probed-IsLoaded nodes addr size base r tree has empty vc acc e)),
      )

  -- After that, whatever calls, interleaved handlers and changes of the world follow, every call
  -- ends, and so does every handler that has read its status.
  pub loaded_ends :
      (nodes : String → List ℕ) (addr size : ℕ → ℕ → ℕ) (base : ℕ) (r : Registry W) (t : Cores W)
      (c : Call) (v : ℕ)
      → IsTree k p d nodes addr size
      → HasEpu k p d nodes addr size base
      → IsBoot r
      → r.dbg_devs ≡ []
      → r.machine.vc_lock ≡ false
      → r.machine.reg_acc_lock ≡ false
      → Reach k (record { machine = (dcsr_module_init k p d b r).1.machine; pc = λ i. idle }) t
      → ((perform k c t.machine).0 ≢ hang) × ((handle_status k (ok v) t.machine).0 ≢ hang)
  loaded_ends nodes addr size base r t c v tree has boot empty vc acc reach =
      let loaded = (module_init-IsLoaded nodes addr size base r tree has boot empty vc acc).1 in
      Reach-ends k c v loaded.ready reach
