-- ===== src/Probe/Remove.antt =====
-- Taking the driver down.
use ls_dbg.Prelude.{
  ℕ, ◌≡◌, refl, sym, ap, ◌∙◌, inl, inr, Bool-cases, ◌==◌, if◌then◌else◌, List, [], ◌∷◌,
}
use ls_dbg.Kernel.{Kernel, Machine}
use ls_dbg.TraceIp.{epu}
use ls_dbg.RegAccess.Tables.{IsMapped}
use ls_dbg.Irq.Bind.{set_epccrs, unbind_lem}
use ls_dbg.Debugfs.{Debugfs}
use ls_dbg.Probe.{
  Platform, Registry, Device, unmap, unmap_all, free_all, remove_devices, dcsr_remove,
}

module _ {W : Type 0} (k : Kernel W) (p : Platform W) (d : Debugfs W) where
  -- The world once the counters and the interrupt are off.
  abbrev pub stopped : Machine W → W
  stopped m =
      let off = set_epccrs k (m.maps epu).base_addr 32 0 0 m.world in
      if m.intr_num == 0 then off else k.free_irq m.intr_num (k.flush_scheduled_work off)

  -- The removal of the driver as far as the machine's own functions go
  pub remove_world :
      (r : Registry W)
      → IsMapped k r.machine.maps epu 0x1000
      → let gone = d.remove_recursive r.dbgfs_root_dentry (stopped r.machine) in
        let r' = dcsr_remove k p d r in
        (r'.dbg_devs ≡ [])
        × (r'.machine ≡ record (r.machine) {
          intr_num = 0;
          world = p.misc_deregister (free_all k p d r.dbg_devs (unmap_all k p d r.dbg_devs gone));
        })
  unfolding dcsr_remove remove_devices
  remove_world r v = rw (unbind_lem k r.machine v) (refl, refl)

  -- The addresses that are not NULL, in order
  unfoldable pub mapped : List ℕ → List ℕ
  mapped [] = []
  mapped (addr ∷ addrs) = let rest = mapped addrs in if addr == 0 then rest else addr ∷ rest

  -- The two addresses of each device
  unfoldable pub ranges_of : List Device → List ℕ
  ranges_of [] = []
  ranges_of (dev ∷ devs) = dev.mem0 ∷ dev.mem1 ∷ ranges_of devs

  -- The devices with no address left
  unfoldable pub cleared : List Device → List Device
  cleared [] = []
  cleared (dev ∷ devs) = record dev { mem0 = 0; mem1 = 0 } ∷ cleared devs

  -- A call for each element of a list, in order
  unfoldable pub for_all {ℓ} : {A : Type ℓ} → (A → W → W) → List A → W → W
  for_all call [] w = w
  for_all call (a ∷ rest) w = for_all call rest (call a w)

  unmap-for_all :
      (addr : ℕ) (addrs : List ℕ) (w : W)
      → for_all p.iounmap (mapped (addr ∷ addrs)) w
        ≡ for_all p.iounmap (mapped addrs) (unmap k p d addr w)
  unfolding mapped for_all unmap
  unmap-for_all addr addrs w = elim (Bool-cases (addr == 0)) [
    | inl t ↦ rw t refl
    | inr f ↦ rw f refl
  ]

  unmap_all-for_all :
      (devs : List Device) (w : W)
      → unmap_all k p d devs w ≡ for_all p.iounmap (mapped (ranges_of devs)) w
  unfolding unmap_all ranges_of mapped for_all
  unmap_all-for_all [] w = refl
  unmap_all-for_all (dev ∷ devs) w =
      unmap_all-for_all devs _
      ∙ sym (
          unmap-for_all dev.mem0 (dev.mem1 ∷ ranges_of devs) w
          ∙ unmap-for_all dev.mem1 (ranges_of devs) (unmap k p d dev.mem0 w))

  free_all-for_all :
      (devs : List Device) (w : W) → free_all k p d devs w ≡ for_all p.kfree (cleared devs) w
  unfolding free_all cleared for_all
  free_all-for_all [] w = refl
  free_all-for_all (dev ∷ devs) w = free_all-for_all devs _

  -- With the EPU mapped, removing the driver switches all counters off, frees the interrupt if one
  -- is noted, and removes the files; then it unmaps the addresses of all devices that are not NULL,
  -- each once and in the order of the list, frees every device of the list with no address left in
  -- it, and takes the character device away. No device and no interrupt is left, and nothing else
  -- of the machine changes, so that the map table keeps the addresses of the ranges.
  pub dcsr_remove_lem :
      (r : Registry W)
      → IsMapped k r.machine.maps epu 0x1000
      → let gone = d.remove_recursive r.dbgfs_root_dentry (stopped r.machine) in
        let unmapped = for_all p.iounmap (mapped (ranges_of r.dbg_devs)) gone in
        let r' = dcsr_remove k p d r in
        (r'.dbg_devs ≡ [])
        × (r'.machine ≡ record (r.machine) {
          intr_num = 0;
          world = p.misc_deregister (for_all p.kfree (cleared r.dbg_devs) unmapped);
        })
  dcsr_remove_lem r v =
      let gone = d.remove_recursive r.dbgfs_root_dentry (stopped r.machine) in
      let (devs, m) = remove_world r v in
      let unmapped = unmap_all-for_all r.dbg_devs gone in
      let freed = free_all-for_all r.dbg_devs (unmap_all k p d r.dbg_devs gone) in
      let w : free_all k p d r.dbg_devs (unmap_all k p d r.dbg_devs gone)
          ≡ for_all p.kfree (cleared r.dbg_devs)
              (for_all p.iounmap (mapped (ranges_of r.dbg_devs)) gone) =
        freed ∙ ap (for_all p.kfree (cleared r.dbg_devs)) unmapped in
      (devs, m ∙ ap (λ u. record (r.machine) { intr_num = 0; world = p.misc_deregister u }) w)
