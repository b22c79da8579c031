-- ===== src/Probe/Init.antt =====
-- What the init functions of the devices leave of the driver's tables, locks and `ls_dbg_epu_ptr`.
use ls_dbg.Prelude.{
  ℕ, ◌+◌, ◌≡◌, refl, ap, ◌∙◌, Bool, List, [], ◌∷◌, String, inl, inr, Bool-cases, ◌==◌, leb,
}
use ls_dbg.Kernel.{Kernel, Machine}
use ls_dbg.Fine.{kept}
use ls_dbg.TraceIp.{num_ids}
use ls_dbg.RegAccess.{reg_add_map}
use ls_dbg.Debugfs.{Debugfs}
use ls_dbg.Debugfs.Init.{
  dcsr_etf_ls1_init, dcsr_etr_ls1_init, dcsr_etm_ls1_init, dcsr_cstf_ls1_init, dcsr_epu_ls1_init,
  dcsr_gdi_ls1_init, dcsr_core_ls1_init,
}
use ls_dbg.Debugfs.Fine.{create_dirs-Fine}
use ls_dbg.Probe.{
  Platform, Registry, Device, mem_ptr, Kind, etf_kind, etr_kind, etm_kind, cstf_kind, epu_kind,
  gdi_kind, core_kind, dbgfs_init_fn, init_all, map_range, add_device, add_nodes,
}

-- The value of `ls_dbg_epu_ptr` after a device's init function
abbrev pub epu_after : Kind → ℕ → ℕ → ℕ
epu_after epu_kind mem0 ptr = mem0
epu_after _ mem0 ptr = ptr

-- and after those of a list of devices
unfoldable pub last_epu : List Device → ℕ → ℕ
last_epu [] ptr = ptr
last_epu (dev ∷ devs) ptr = last_epu devs (epu_after dev.dbgfs_init dev.mem0 ptr)

-- What adding a device leaves
abbrev pub unmoved : {W : Type 0} → Machine W → ℕ × Bool × Bool
unmoved m = (m.epu_ptr, m.vc_lock, m.reg_acc_lock)

module _ {W : Type 0} (k : Kernel W) (p : Platform W) (d : Debugfs W) where
  dbgfs_init_fn-kept :
      (kind : Kind) (root : ℕ) (mem : ℕ → ℕ) (m : Machine W)
      → kept (dbgfs_init_fn k p d kind root mem m).1
        ≡ (m.maps, epu_after kind (mem 0) m.epu_ptr, m.vc_lock, m.reg_acc_lock)
  unfolding dbgfs_init_fn dcsr_etf_ls1_init dcsr_etr_ls1_init dcsr_etm_ls1_init dcsr_cstf_ls1_init
      dcsr_epu_ls1_init dcsr_gdi_ls1_init dcsr_core_ls1_init
  dbgfs_init_fn-kept etf_kind root mem m = (create_dirs-Fine d root _ m).keeps
  dbgfs_init_fn-kept etr_kind root mem m = (create_dirs-Fine d root _ m).keeps
  dbgfs_init_fn-kept etm_kind root mem m = (create_dirs-Fine d root _ m).keeps
  dbgfs_init_fn-kept cstf_kind root mem m = (create_dirs-Fine d root _ m).keeps
  dbgfs_init_fn-kept epu_kind root mem m =
      (create_dirs-Fine d root _ (record m { epu_ptr = mem 0 })).keeps
  dbgfs_init_fn-kept gdi_kind root mem m = (create_dirs-Fine d root _ m).keeps
  dbgfs_init_fn-kept core_kind root mem m = (create_dirs-Fine d root _ m).keeps

  pub init_all-kept :
      (root : ℕ) (devs : List Device) (m : Machine W)
      → kept (init_all k p d root devs m)
        ≡ (m.maps, last_epu devs m.epu_ptr, m.vc_lock, m.reg_acc_lock)
  unfolding init_all last_epu
  init_all-kept root [] m = refl
  init_all-kept root (dev ∷ devs) m =
      init_all-kept root devs (dbgfs_init_fn k p d dev.dbgfs_init root (mem_ptr dev) m).1
      ∙ ap (λ t. (t.0, last_epu devs t.1, t.2, t.3))
          (dbgfs_init_fn-kept dev.dbgfs_init root (mem_ptr dev) m)

  map_range-unmoved :
      (np id i : ℕ) (m : Machine W) → unmoved (map_range k p d np id i m).1 ≡ unmoved m
  unfolding map_range reg_add_map
  map_range-unmoved np id i m = elim (Bool-cases ((p.of_iomap np i m.world).0 == 0)) [
    | inl t ↦ rw t refl
    | inr f ↦ elim (Bool-cases (leb num_ids id)) [ inl t ↦ rw (f, t) refl | inr g ↦ rw (f, g) refl ]
  ]

  add_device-unmoved :
      (name : String) (id : ℕ) (kind : Kind) (index np : ℕ) (m : Machine W)
      → unmoved (add_device k p d name id kind index np m).1 ≡ unmoved m
  unfolding add_device
  add_device-unmoved name id kind index np m =
      map_range-unmoved np (id + index + 1) 1 (map_range k p d np (id + index + 0) 0 m).1
      ∙ map_range-unmoved np (id + index + 0) 0 m

  pub add_nodes-unmoved :
      (name : String) (id : ℕ) (kind : Kind) (index : ℕ) (nps : List ℕ) (r : Registry W)
      → unmoved (add_nodes k p d name id kind index nps r).1.machine ≡ unmoved r.machine
  unfolding add_nodes
  add_nodes-unmoved name id kind index [] r = refl
  add_nodes-unmoved name id kind index (np ∷ nps) r =
      let m : Machine W = record (r.machine) { world = (p.kzalloc r.machine.world).1 } in
      let added = add_device k p d name id kind index np m in
      elim (Bool-cases (p.kzalloc r.machine.world).0) [
        | inl t ↦
            rw (t, add_nodes)
              (add_nodes-unmoved name id kind (index + 1) nps
                  (record r { machine = added.1; dbg_devs = added.0 ∷ r.dbg_devs })
                ∙ add_device-unmoved name id kind index np m)
        | inr f ↦
            rw (f, add_nodes) (add_nodes-unmoved name id kind index nps (record r { machine = m }))
      ]

  -- Devices of another kind leave the EPU's pointer.
  pub add_nodes-last_epu :
      (name : String) (id : ℕ) (kind : Kind) (index : ℕ) (nps : List ℕ) (r : Registry W)
      → ((mem0 ptr : ℕ) → epu_after kind mem0 ptr ≡ ptr)
      → (ptr : ℕ)
      → last_epu (add_nodes k p d name id kind index nps r).1.dbg_devs ptr ≡ last_epu r.dbg_devs ptr
  unfolding add_nodes last_epu add_device
  add_nodes-last_epu name id kind index [] r other ptr = refl
  add_nodes-last_epu name id kind index (np ∷ nps) r other ptr =
      let m : Machine W = record (r.machine) { world = (p.kzalloc r.machine.world).1 } in
      let added = add_device k p d name id kind index np m in
      elim (Bool-cases (p.kzalloc r.machine.world).0) [
        | inl t ↦
            rw (t, add_nodes)
              (add_nodes-last_epu name id kind (index + 1) nps
                  (record r { machine = added.1; dbg_devs = added.0 ∷ r.dbg_devs }) other ptr
                ∙ ap (last_epu r.dbg_devs) (other added.0.mem0 ptr))
        | inr f ↦
            rw (f, add_nodes)
              (add_nodes-last_epu name id kind index nps (record r { machine = m }) other ptr)
      ]
