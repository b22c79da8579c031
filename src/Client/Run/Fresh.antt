-- ===== src/Client/Run/Fresh.antt =====
-- The driver at the start of a test and at its end.
use ls_dbg.Prelude.{
  ℕ, ◌+◌, ◌^◌, ◌≤◌, ◌<◌, ◌≡◌, ◌==◌, inl, inr, refl, ap, sym, subst, true, false, arith, String,
  List, [],
}
use ls_dbg.Kernel.{Kernel, Machine, Outcome, ok, neg, einval}
use ls_dbg.Fine.{kept}
use ls_dbg.Vcounters.{vcounters_size}
use ls_dbg.Irq.Bind.{unbind_lem}
use ls_dbg.Ioctl.Fine.{IsReady}
use ls_dbg.Ioctl.Virtual.{IsVcountMapped}
use ls_dbg.VcountersInit.Made.{IsMaking, vcounters_init_made}
use ls_dbg.Debugfs.{Debugfs}
use ls_dbg.Probe.{Platform, Registry, dcsr_remove, remove_devices}
use ls_dbg.Probe.Epu.{IsTree, HasEpu}
use ls_dbg.Module.{Bus, dcsr_driver, dcsr_module_init, dcsr_module_exit, module_init_cases}
use ls_dbg.Module.Load.{IsBoot, module_init-IsLoaded}
use ls_dbg.System.Ready.{kept-IsReady}
use ls_dbg.Client.{Locals, Process, go, is_negative}
use ls_dbg.Client.Run.{Session, Shell, insert_module, remove_module, test_setup, test_cleanup}

module _ {W : Type 0} (sh : Shell W) where
  -- The commands call the module's functions, and `insmod` succeeds if the init function does; the
  -- device can be opened and closed, which the driver does not notice; a device without functions for
  -- `read` and `write` refuses them with EINVAL.
  pub record IsShell : Type 0 where
    pub insmod_runs :
        (init : Registry W → Outcome (Unit {0}) × Registry W) (s : Session W)
        → (sh.insmod init s).1.registry ≡ (init s.registry).1
    pub insmod_status :
        (init : Registry W → Outcome (Unit {0}) × Registry W) (s : Session W)
        → (init s.registry).0 ≡ ok tt
        → (sh.insmod init s).0 ≡ 0
    pub rmmod_runs :
        (exit : Registry W → Registry W) (s : Session W)
        → (sh.rmmod exit s).1.registry ≡ exit s.registry
    pub rmmod_status : (exit : Registry W → Registry W) (s : Session W) → (sh.rmmod exit s).0 ≡ 0
    pub opened : (s : Session W) → is_negative (sh.open_rdwr s).0 ≡ false
    pub open_kept :
        (s : Session W) → kept (sh.open_rdwr s).1.registry.machine ≡ kept s.registry.machine
    pub closed : (s : Session W) → is_negative (sh.close s).0 ≡ false
    pub close_kept :
        (s : Session W) → kept (sh.close s).1.registry.machine ≡ kept s.registry.machine
    pub read_refused :
        (a n : ℕ) (q : Process W) → sh.read a n q ≡ (go (neg 1), record q { errno = einval })
    pub write_refused :
        (a n : ℕ) (q : Process W) → sh.write a n q ≡ (go (neg 1), record q { errno = einval })

module _ {W : Type 0} (k : Kernel W) where
  -- No device is listed, and the locks are free.
  pub record IsFresh (r : Registry W) : Type 0 where
    pub empty : r.dbg_devs ≡ []
    pub vc_free : r.machine.vc_lock ≡ false
    pub reg_acc_free : r.machine.reg_acc_lock ≡ false

  -- The driver can serve: the EPU and the virtual counters are mapped, and the locks are free.
  pub record IsServing (m : Machine W) : Type 0 where
    pub ready : IsReady k m
    pub vcounters : IsVcountMapped k m.maps

  pub kept-IsServing : (m n : Machine W) → kept n ≡ kept m → IsServing m → IsServing n
  kept-IsServing m n e s = record {
    ready = kept-IsReady k m n e s.ready;
    vcounters = subst (IsVcountMapped k) (sym (ap (λ t. t.0) e)) s.vcounters;
  }

module _ {W : Type 0} (k : Kernel W) (p : Platform W) (d : Debugfs W) (b : Bus W) where
  -- The board: its memory for `ls_dbg_vcnt`, its files, and its bus, which probes and removes the
  -- one EPU's driver.
  pub record IsBoard : Type 0 where
    pub fits : k.vcnt_addr + vcounters_size ≤ 2 ^ 32
    pub valid : (off : ℕ) → off < vcounters_size → k.is_err (k.vcnt_addr + off) ≡ false
    pub makes : IsMaking d
    pub boot : (r : Registry W) → IsBoot k p d b r
    pub unregistered :
        (r : Registry W)
        → b.platform_driver_unregister (dcsr_driver k p d b) r ≡ dcsr_remove k p d r

  module _ (nodes : String → List ℕ) (addr size : ℕ → ℕ → ℕ) (base : ℕ)
      (tree : IsTree k p d nodes addr size) (has : HasEpu k p d nodes addr size base)
      (board : IsBoard) where
    init_ok : (r : Registry W) → (dcsr_module_init k p d b r).0 ≡ ok tt
    unfolding dcsr_module_init
    init_ok r = rw ((board.boot r).probed) (vcounters_init_made k d board.makes _ _)

    init-IsVcountMapped :
        (r : Registry W) → IsVcountMapped k (dcsr_module_init k p d b r).1.machine.maps
    init-IsVcountMapped r =
        let good = init_ok r in
        elim (module_init_cases k p d b r _ 0 board.fits board.valid (board.boot r).probed) [
          | inl (ne, out, same) ↦ absurd (ne refl)
          | inr (z, devs, inl h) ↦ h.1
          | inr (z, devs, inr h) ↦ let bad = h.0 in cc
        ]

    pub init-IsServing :
        (r : Registry W) → IsFresh k r → IsServing k (dcsr_module_init k p d b r).1.machine
    init-IsServing r fresh = record {
      ready =
          (module_init-IsLoaded k p d b nodes addr size base r tree has (board.boot r) fresh.empty
            fresh.vc_free fresh.reg_acc_free).1.ready;
      vcounters = init-IsVcountMapped r;
    }

    exit-IsFresh : (r : Registry W) → IsServing k r.machine → IsFresh k (dcsr_module_exit k p d b r)
    unfolding dcsr_module_exit dcsr_remove remove_devices
    exit-IsFresh r s =
        rw (board.unregistered r, unbind_lem k r.machine s.ready.epu_mapped)
          (record { empty = refl; vc_free = s.ready.vc_free; reg_acc_free = s.ready.reg_acc_free })

    module _ (u : Locals W) (sh : Shell W) (law : IsShell sh) where
      pub test_setup-IsServing :
          (s : Session W)
          → IsFresh k s.registry
          → let (ready, s') = test_setup k u p d b sh s in
            (ready ≡ true) × IsServing k s'.registry.machine
      unfolding test_setup insert_module
      test_setup-IsServing s fresh =
          let init = dcsr_module_init k p d b in
          let z = law.insmod_status init s (init_ok s.registry) in
          let t : ((sh.insmod init s).0 == 0) ≡ true = ground arith in
          let s' = (sh.insmod init s).1 in
          let loaded : IsServing k s'.registry.machine =
            subst (λ r. IsServing k r.machine) (sym (law.insmod_runs init s))
              (init-IsServing s.registry fresh) in
          rw (t, law.opened s')
            (refl, kept-IsServing k s'.registry.machine _ (law.open_kept s') loaded)

      pub test_cleanup-IsFresh :
          (s : Session W)
          → IsServing k s.registry.machine
          → let (cleaned, s') = test_cleanup k u p d b sh s in
            (cleaned ≡ true) × IsFresh k s'.registry
      unfolding test_cleanup remove_module
      test_cleanup-IsFresh s serving =
          let exit = dcsr_module_exit k p d b in
          let s' = (sh.close s).1 in
          let z = law.rmmod_status exit s' in
          let t : ((sh.rmmod exit s').0 == 0) ≡ true = ground arith in
          let still =
            kept-IsServing k s.registry.machine s'.registry.machine (law.close_kept s) serving in
          rw (law.closed s, t)
            (
              refl,
              subst (IsFresh k) (sym (law.rmmod_runs exit s')) (exit-IsFresh s'.registry still),
            )
