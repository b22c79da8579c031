-- ===== src/Probe/Epu.antt =====
-- The EPU's entry of the map table and its pointer after the devices of a board have been added.
use ls_dbg.Prelude.{
  ℕ, ◌+◌, ◌^◌, ◌≤◌, ◌<◌, ◌≡◌, ◌≢◌, ◌∙◌, ap, refl, String, true, false, inl, sym, arith, List, [],
  ◌∷◌, ◌==◌, if◌then◌else◌, subst,
}
use ls_dbg.Kernel.{Kernel, Machine, MapInfo}
use ls_dbg.TraceIp.{etf0, etr, etm0, cstf0, epu, gdi, core}
use ls_dbg.RegAccess.Tables.{IsMapped}
use ls_dbg.Debugfs.{Debugfs}
use ls_dbg.Probe.{
  Platform, Registry, Kind, etf_kind, etr_kind, etm_kind, cstf_kind, epu_kind, gdi_kind, core_kind,
  map_range, add_device, add_nodes, add_compatible_devices, add_all_devices,
}
use ls_dbg.Probe.Cases.{map_range_lem}
use ls_dbg.Probe.Nodes.{map_range_others, add_nodes-IsAdded}
use ls_dbg.Probe.Init.{last_epu, unmoved, epu_after, add_nodes-unmoved, add_nodes-last_epu}

module _ {W : Type 0} (k : Kernel W) (p : Platform W) (d : Debugfs W) where
  -- The device tree's nodes and their ranges do not change, and memory for a device can be had.
  pub record IsTree (nodes : String → List ℕ) (addr size : ℕ → ℕ → ℕ) : Type 0 where
    pub compatible : (name : String) (w : W) → p.compatible_nodes name w ≡ nodes name
    pub given : (w : W) → (p.kzalloc w).0 ≡ true
    pub mapped : (np i : ℕ) (w : W) → (p.of_iomap np i w).0 ≡ addr np i
    pub sized : (np i : ℕ) (w : W) → p.resource_size np i w ≡ size np i

  -- The first range of the one EPU node
  pub record HasEpu (nodes : String → List ℕ) (addr size : ℕ → ℕ → ℕ) (base : ℕ) : Type 0 where
    pub np : ℕ
    pub single : nodes "fsl,ls1021a-dcsr-epu" ≡ np ∷ []
    pub there : addr np 0 ≡ base
    pub valid : base ≢ 0
    pub large : 0x1000 ≤ size np 0
    pub in_memory : base + 0x1000 ≤ 2 ^ 32
    pub no_err : (off : ℕ) → off < 0x1000 → k.is_err (base + off) ≡ false

  -- The EPU has its entry and its device.
  pub record IsPlaced (base : ℕ) (r : Registry W) : Type 0 where
    pub mapped : IsMapped k r.machine.maps epu 0x1000
    pub at : (r.machine.maps epu).base_addr ≡ base
    pub last : (ptr : ℕ) → last_epu r.dbg_devs ptr ≡ base

  module _ (nodes : String → List ℕ) (addr size : ℕ → ℕ → ℕ) (tree : IsTree nodes addr size)
      (base : ℕ) (has : HasEpu nodes addr size base) where
    first_range : (w : W) → (p.of_iomap has.np 0 w).0 ≡ base
    first_range w = tree.mapped has.np 0 w ∙ has.there

    -- The EPU's device, and the entry after it has been added
    device_entry :
        (m : Machine W)
        → let (dev, m') = add_device k p d "epu" epu epu_kind 0 has.np m in
          (dev.mem0 ≡ base) × ((m'.maps epu).base_addr ≡ base) × (0x1000 ≤ (m'.maps epu).size)
    unfolding add_device
    device_entry m =
        let w = p.of_iomap has.np 0 m.world in
        let m' = (map_range k p d has.np (epu + 0 + 0) 0 m).1 in
        let (got, others, start, whole, rest) =
          map_range_lem k p d m has.np (epu + 0 + 0) 0 w.0 w.1 refl (omega arith) in
        let same = map_range_others k p d has.np (epu + 0 + 1) 1 m' epu (omega arith) in
        let t : (w.0 == 0) ≡ false =
          let e = first_range m.world in let v = has.valid in ground arith in
        let base_pick : (if w.0 == 0 then (m.maps epu).base_addr else w.0) ≡ w.0 = rw t refl in
        let size_pick : (if w.0 == 0 then (m.maps epu).size else p.resource_size has.np 0 w.1)
            ≡ p.resource_size has.np 0 w.1 =
          rw t refl in
        let length : (m'.maps epu).size ≡ size has.np 0 =
          whole ∙ size_pick ∙ tree.sized has.np 0 w.1 in
        (
          got ∙ first_range m.world,
          ap (λ e. e.base_addr) same ∙ start ∙ base_pick ∙ first_range m.world,
          subst (λ n. 0x1000 ≤ n) (sym (ap (λ e. e.size) same ∙ length)) has.large,
        )

    entry-IsMapped :
        (maps : ℕ → MapInfo)
        → (maps epu).base_addr ≡ base
        → 0x1000 ≤ (maps epu).size
        → IsMapped k maps epu 0x1000
    entry-IsMapped maps e l = record {
      fits = l;
      in_memory = let b = has.in_memory in omega arith;
      no_err = λ off h. rw e (has.no_err off h);
    }

    node-IsPlaced :
        (r : Registry W)
        → ((ptr : ℕ) → last_epu r.dbg_devs ptr ≡ ptr)
        → IsPlaced base (add_nodes k p d "epu" epu epu_kind 0 (has.np ∷ []) r).1
    unfolding add_nodes last_epu
    node-IsPlaced r none =
        let m : Machine W = record (r.machine) { world = (p.kzalloc r.machine.world).1 } in
        let (mem0, start, whole) = device_entry m in
        rw (tree.given r.machine.world, add_nodes)
          (record {
            mapped = entry-IsMapped _ start whole;
            at = start;
            last = λ ptr. none _ ∙ mem0;
          })

    epu-IsPlaced :
        (r : Registry W)
        → ((ptr : ℕ) → last_epu r.dbg_devs ptr ≡ ptr)
        → IsPlaced base (add_compatible_devices k p d "fsl,ls1021a-dcsr-epu" "epu" epu epu_kind r)
    unfolding add_compatible_devices
    epu-IsPlaced r none =
        subst (λ nps. IsPlaced base (add_nodes k p d "epu" epu epu_kind 0 nps r).1)
          (sym (tree.compatible "fsl,ls1021a-dcsr-epu" r.machine.world ∙ has.single))
          (node-IsPlaced r none)

    kept-IsPlaced :
        (compatible name : String) (id : ℕ) (kind : Kind) (r : Registry W)
        → epu < id
        → ((mem0 ptr : ℕ) → epu_after kind mem0 ptr ≡ ptr)
        → IsPlaced base r
        → IsPlaced base (add_compatible_devices k p d compatible name id kind r)
    unfolding add_compatible_devices
    kept-IsPlaced compatible name id kind r l other s =
        let nps = p.compatible_nodes compatible r.machine.world in
        let r' = (add_nodes k p d name id kind 0 nps r).1 in
        let added = (add_nodes-IsAdded k p d name id kind 0 nps r).2 in
        let same : r'.machine.maps epu ≡ r.machine.maps epu =
          added.others epu (inl (omega arith)) in
        let start : (r'.machine.maps epu).base_addr ≡ base = ap (λ e. e.base_addr) same ∙ s.at in
        record {
          mapped =
              entry-IsMapped r'.machine.maps start
                (subst (λ e. 0x1000 ≤ e.size) (sym same) s.mapped.fits);
          at = start;
          last = λ ptr. add_nodes-last_epu k p d name id kind 0 nps r other ptr ∙ s.last ptr;
        }

    same_last :
        (compatible name : String) (id : ℕ) (kind : Kind) (r : Registry W)
        → ((mem0 ptr : ℕ) → epu_after kind mem0 ptr ≡ ptr)
        → (ptr : ℕ)
        → last_epu (add_compatible_devices k p d compatible name id kind r).dbg_devs ptr
          ≡ last_epu r.dbg_devs ptr
    unfolding add_compatible_devices
    same_last compatible name id kind r =
        add_nodes-last_epu k p d name id kind 0 (p.compatible_nodes compatible r.machine.world) r

    -- After all the devices of the board have been added
    pub add_all_devices-IsPlaced :
        (r : Registry W) → r.dbg_devs ≡ [] → IsPlaced base (add_all_devices k p d r)
    unfolding add_all_devices last_epu
    add_all_devices-IsPlaced r empty =
        let add = add_compatible_devices k p d in
        let r1 = add "fsl,ls1021a-dcsr-etf" "etf" etf0 etf_kind r in
        let r2 = add "fsl,ls1021a-dcsr-etr" "etr" etr etr_kind r1 in
        let r3 = add "fsl,ls1021a-dcsr-etm" "etm" etm0 etm_kind r2 in
        let r4 = add "fsl,ls1021a-dcsr-cstf" "cstf" cstf0 cstf_kind r3 in
        let r5 = add "fsl,ls1021a-dcsr-epu" "epu" epu epu_kind r4 in
        let r6 = add "fsl,ls1021a-dcsr-gdi" "gdi" gdi gdi_kind r5 in
        let none : (ptr : ℕ) → last_epu r.dbg_devs ptr ≡ ptr =
          λ ptr. ap (λ devs. last_epu devs ptr) empty in
        kept-IsPlaced "fsl,ls1021a-dcsr-a7cpu" "core" core core_kind r6 (omega arith) (λ a b. refl)
          (kept-IsPlaced "fsl,ls1021a-dcsr-gdi" "gdi" gdi gdi_kind r5 (omega arith) (λ a b. refl)
            (epu-IsPlaced r4 (λ ptr.
              same_last "fsl,ls1021a-dcsr-cstf" "cstf" cstf0 cstf_kind r3 (λ a b. refl) ptr
              ∙ same_last "fsl,ls1021a-dcsr-etm" "etm" etm0 etm_kind r2 (λ a b. refl) ptr
              ∙ same_last "fsl,ls1021a-dcsr-etr" "etr" etr etr_kind r1 (λ a b. refl) ptr
              ∙ same_last "fsl,ls1021a-dcsr-etf" "etf" etf0 etf_kind r (λ a b. refl) ptr
              ∙ none ptr)))

  added :
      (compatible name : String) (id : ℕ) (kind : Kind) (r : Registry W)
      → unmoved (add_compatible_devices k p d compatible name id kind r).machine ≡ unmoved r.machine
  unfolding add_compatible_devices
  added compatible name id kind r =
      add_nodes-unmoved k p d name id kind 0 (p.compatible_nodes compatible r.machine.world) r

  -- Adding devices moves neither `ls_dbg_epu_ptr` nor a lock.
  pub add_all_devices-unmoved :
      (r : Registry W) → unmoved (add_all_devices k p d r).machine ≡ unmoved r.machine
  unfolding add_all_devices
  add_all_devices-unmoved r =
      let add = add_compatible_devices k p d in
      let r1 = add "fsl,ls1021a-dcsr-etf" "etf" etf0 etf_kind r in
      let r2 = add "fsl,ls1021a-dcsr-etr" "etr" etr etr_kind r1 in
      let r3 = add "fsl,ls1021a-dcsr-etm" "etm" etm0 etm_kind r2 in
      let r4 = add "fsl,ls1021a-dcsr-cstf" "cstf" cstf0 cstf_kind r3 in
      let r5 = add "fsl,ls1021a-dcsr-epu" "epu" epu epu_kind r4 in
      let r6 = add "fsl,ls1021a-dcsr-gdi" "gdi" gdi gdi_kind r5 in
      added "fsl,ls1021a-dcsr-a7cpu" "core" core core_kind r6
      ∙ added "fsl,ls1021a-dcsr-gdi" "gdi" gdi gdi_kind r5
      ∙ added "fsl,ls1021a-dcsr-epu" "epu" epu epu_kind r4
      ∙ added "fsl,ls1021a-dcsr-cstf" "cstf" cstf0 cstf_kind r3
      ∙ added "fsl,ls1021a-dcsr-etm" "etm" etm0 etm_kind r2
      ∙ added "fsl,ls1021a-dcsr-etr" "etr" etr etr_kind r1
      ∙ added "fsl,ls1021a-dcsr-etf" "etf" etf0 etf_kind r
