-- ===== src/Probe/Balance.antt =====
-- What the devices hold of the kernel: mapped ranges and memory, taken when they are added and given
-- back when they are removed.
use ls_dbg.Prelude.{
  ℕ, ◌+◌, ◌-◌, ◌≡◌, ◌∙◌, refl, String, inl, inr, Bool-cases, arith, List, [], ◌∷◌, ◌==◌, leb,
  if◌then◌else◌,
}
use ls_dbg.Kernel.{Kernel, Machine}
use ls_dbg.TraceIp.{num_ids}
use ls_dbg.RegAccess.{reg_add_map}
use ls_dbg.Debugfs.{Debugfs}
use ls_dbg.Debugfs.World.{IsApartFromFiles}
use ls_dbg.Probe.{
  Platform, Registry, Device, Kind, map_range, add_device, add_nodes, unmap, unmap_all, free_all,
  remove_devices,
}

module _ {W : Type 0} (k : Kernel W) (p : Platform W) (d : Debugfs W) (held : W → ℕ)
    (of_range : ℕ → ℕ) (of_device : ℕ) where
  -- `held` counts the mapped ranges and the device memory that the kernel has given: so much for the
  -- range mapped at an address, and so much for the memory of a device. Nothing else that the driver
  -- calls counts, a directory or the character device neither.
  pub record IsCounted : Type 0 where
    pub no_range : of_range 0 ≡ 0
    pub mapped :
        (np i : ℕ) (w : W) → held (p.of_iomap np i w).1 ≡ held w + of_range (p.of_iomap np i w).0
    pub unmapped : (a : ℕ) (w : W) → held (p.iounmap a w) ≡ held w - of_range a
    pub given : (w : W) → held (p.kzalloc w).1 ≡ held w + (if (p.kzalloc w).0 then of_device else 0)
    pub freed : (dev : Device) (w : W) → held (p.kfree dev w) ≡ held w - of_device
    pub registered : (w : W) → held (p.misc_register w).1 ≡ held w
    pub deregistered : (w : W) → held (p.misc_deregister w) ≡ held w
    pub files : IsApartFromFiles d held
    pub written : (v a : ℕ) (w : W) → held (k.iowrite32 v a w) ≡ held w
    pub flushed : (w : W) → held (k.flush_scheduled_work w) ≡ held w
    pub irq_freed : (n : ℕ) (w : W) → held (k.free_irq n w) ≡ held w

  -- What a list of devices holds: its ranges, and its memory
  unfoldable pub ranges : List Device → ℕ
  ranges [] = 0
  ranges (dev ∷ devs) = of_range dev.mem0 + of_range dev.mem1 + ranges devs

  unfoldable pub memory : List Device → ℕ
  memory [] = 0
  memory (dev ∷ devs) = of_device + memory devs

  abbrev pub holds : List Device → ℕ
  holds devs = ranges devs + memory devs

  module _ (law : IsCounted) where
    map_range-held :
        (np id i : ℕ) (m : Machine W)
        → let (addr, m') = map_range k p d np id i m in held m'.world ≡ held m.world + of_range addr
    unfolding map_range reg_add_map
    map_range-held np id i m =
        let e = law.mapped np i m.world in
        elim (Bool-cases ((p.of_iomap np i m.world).0 == 0)) [
          | inl t ↦ rw t e
          | inr f ↦ elim (Bool-cases (leb num_ids id)) [ inl t ↦ rw (f, t) e | inr g ↦ rw (f, g) e ]
        ]

    add_device-held :
        (name : String) (id : ℕ) (kind : Kind) (index np : ℕ) (m : Machine W)
        → let (dev, m') = add_device k p d name id kind index np m in
          held m'.world ≡ held m.world + of_range dev.mem0 + of_range dev.mem1
    unfolding add_device
    add_device-held name id kind index np m =
        let one = map_range-held np (id + index + 0) 0 m in
        let two =
          map_range-held np (id + index + 1) 1 (map_range k p d np (id + index + 0) 0 m).1 in
        omega arith

    pub add_nodes-held :
        (name : String) (id : ℕ) (kind : Kind) (index : ℕ) (nps : List ℕ) (r : Registry W)
        → let r' = (add_nodes k p d name id kind index nps r).1 in
          held r'.machine.world + holds r.dbg_devs ≡ held r.machine.world + holds r'.dbg_devs
    unfolding add_nodes ranges memory
    add_nodes-held name id kind index [] r = refl
    add_nodes-held name id kind index (np ∷ nps) r =
        let m : Machine W = record (r.machine) { world = (p.kzalloc r.machine.world).1 } in
        let added = add_device k p d name id kind index np m in
        let got = law.given r.machine.world in
        elim (Bool-cases (p.kzalloc r.machine.world).0) [
          | inl t ↦
              let r1 : Registry W = record r {
                machine = added.1;
                dbg_devs = added.0 ∷ r.dbg_devs;
              } in
              let rest = add_nodes-held name id kind (index + 1) nps r1 in
              let here = add_device-held name id kind index np m in
              let more : held m.world ≡ held r.machine.world + of_device = got ∙ rw t refl in
              rw (t, add_nodes) (omega arith)
          | inr f ↦
              let rest = add_nodes-held name id kind index nps (record r { machine = m }) in
              let more : held m.world ≡ held r.machine.world + 0 = got ∙ rw f refl in
              rw (f, add_nodes) (omega arith)
        ]

    unmap-held : (a : ℕ) (w : W) → held (unmap k p d a w) ≡ held w - of_range a
    unfolding unmap
    unmap-held a w =
        let e = law.no_range in
        let e' = law.unmapped a w in
        elim (Bool-cases (a == 0)) [
          | inl t ↦ let z : a ≡ 0 = ground arith in rw (t, z, e) (omega arith)
          | inr f ↦ rw f e'
        ]

    unmap_all-held :
        (devs : List Device) (w : W) → held (unmap_all k p d devs w) ≡ held w - ranges devs
    unfolding unmap_all ranges
    unmap_all-held [] w = omega arith
    unmap_all-held (dev ∷ devs) w =
        let one = unmap-held dev.mem0 w in
        let two = unmap-held dev.mem1 (unmap k p d dev.mem0 w) in
        let rest = unmap_all-held devs (unmap k p d dev.mem1 (unmap k p d dev.mem0 w)) in
        omega arith

    free_all-held :
        (devs : List Device) (w : W) → held (free_all k p d devs w) ≡ held w - memory devs
    unfolding free_all memory
    free_all-held [] w = omega arith
    free_all-held (dev ∷ devs) w =
        let blank : Device = record dev { mem0 = 0; mem1 = 0 } in
        let one = law.freed blank w in
        let rest = free_all-held devs (p.kfree blank w) in omega arith

    pub remove_devices-held :
        (r : Registry W)
        → held (remove_devices k p d r).machine.world ≡ held r.machine.world - holds r.dbg_devs
    unfolding remove_devices
    remove_devices-held r =
        let one = unmap_all-held r.dbg_devs r.machine.world in
        let two = free_all-held r.dbg_devs (unmap_all k p d r.dbg_devs r.machine.world) in
        omega arith
