-- ===== src/Probe.antt =====
-- ls-dbg/module/ls_dbg.c: finding, mapping and registering the debug devices, and taking them down.
pub mod Cases
pub mod Nodes
pub mod Init
pub mod Epu
pub mod Balance
pub mod Leaks
pub mod Files
pub mod Remove
use ls_dbg.Prelude.{
  ℕ, zero, suc, ◌+◌, ◌*◌, String, Bool, true, false, if◌then◌else◌, ◌==◌, Option, none, some, List,
  [], ◌∷◌,
}
use ls_dbg.Kernel.{
  Kernel, Machine, Driver, Outcome, ok, err, hang, and_then, ◌>>=◌, ◌>>◌, neg, enomem,
}
use ls_dbg.TraceIp.{etm0, etr, etf0, cstf0, epu, gdi, core}
use ls_dbg.RegAccess.{reg_add_map}
use ls_dbg.Irq.{ls_dbg_epu_unbind_irq}
use ls_dbg.Debugfs.{Debugfs, FileName}
use ls_dbg.Debugfs.Init.{
  dcsr_etf_ls1_init, dcsr_etr_ls1_init, dcsr_etm_ls1_init, dcsr_cstf_ls1_init, dcsr_epu_ls1_init,
  dcsr_gdi_ls1_init, dcsr_core_ls1_init,
}

-- Which `dbgfs_init_fn` a device has. `dev_init_fn` is NULL for all, and the only `dev_remove_fn`,
-- `ls_dbg_epu_cleanup`, returns 0 and does nothing else.
pub data Kind : Type 0 where
  etf_kind etr_kind etm_kind cstf_kind epu_kind gdi_kind core_kind : Kind

-- `struct dbg_device`: of its fields those that are read again. `mem0` and `mem1` are `mem_ptr`.
pub record Device : Type 0 where
  pub dt_idx : ℕ
  pub dbgfs_dir_name : String
  pub mem0 : ℕ
  pub mem1 : ℕ
  pub dbgfs_init : Kind

abbrev pub mem_ptr : Device → ℕ → ℕ
mem_ptr dev i = if i == 0 then dev.mem0 else dev.mem1

-- linux/of_address.h, linux/slab.h, linux/miscdevice.h: the nodes compatible with a string, in
-- order; whether an allocation succeeds; the mapping of a node's range (0 if there is none) and the
-- range's size; their release; the character device.
pub record Platform (W : Type 0) : Type 0 where
  pub compatible_nodes : String → W → List ℕ
  pub kzalloc : W → Bool × W
  pub of_iomap : ℕ → ℕ → W → ℕ × W
  pub resource_size : ℕ → ℕ → W → ℕ
  pub iounmap : ℕ → W → W
  pub kfree : Device → W → W
  pub misc_register : W → ℕ × W
  pub misc_deregister : W → W

-- The machine with the device list, head first, and the debugfs root.
pub record Registry (W : Type 0) : Type 0 where
  pub machine : Machine W
  pub dbg_devs : List Device
  pub dbgfs_root_dentry : ℕ

module _ {W : Type 0} (k : Kernel W) (p : Platform W) (d : Debugfs W) where
  abbrev pub alloc_device : W → Bool × W
  alloc_device w = p.kzalloc w

  abbrev pub reg_access_init : W → ℕ × W
  reg_access_init w = p.misc_register w

  abbrev pub reg_access_cleanup : W → W
  reg_access_cleanup w = p.misc_deregister w

  -- The body of the loop over a node's ranges: the address, and the machine with the map recorded.
  unfoldable pub map_range : ℕ → ℕ → ℕ → Machine W → ℕ × Machine W
  map_range np id i m =
      let (addr, world) = p.of_iomap np i m.world in
      let mapped : Machine W = record m { world = world } in
      if addr == 0
      then (addr, mapped)
      else (addr, (reg_add_map k id addr (p.resource_size np i world) mapped).1)

  -- A node: its device and the machine after the mapping of MAX_MEM_RANGE = 2 ranges.
  unfoldable pub add_device : String → ℕ → Kind → ℕ → ℕ → Machine W → Device × Machine W
  unfolding map_range
  add_device name id kind index np m =
      let (addr0, m') = map_range np (id + index + 0) 0 m in
      let (addr1, m'') = map_range np (id + index + 1) 1 m' in
      (
        record {
          dt_idx = index;
          dbgfs_dir_name = name;
          mem0 = addr0;
          mem1 = addr1;
          dbgfs_init = kind;
        },
        m'',
      )

  -- The loop over the compatible nodes; a node without memory for its device is passed over. The
  -- result of the function is the number of devices, `index` at the end.
  unfoldable pub add_nodes : String → ℕ → Kind → ℕ → List ℕ → Registry W → ℕ × Registry W
  unfolding add_device
  add_nodes name id kind index [] r = (index, r)
  add_nodes name id kind index (np ∷ nps) r =
      let (given, world) = alloc_device r.machine.world in
      let m : Machine W = record (r.machine) { world = world } in
      let (dev, m') = add_device name id kind index np m in
      add_nodes name id kind (if given then index + 1 else index) nps (
        if given
        then record r { machine = m'; dbg_devs = dev ∷ r.dbg_devs }
        else record r { machine = m })

  unfoldable pub add_compatible_devices : String → String → ℕ → Kind → Registry W → Registry W
  unfolding add_nodes
  add_compatible_devices compatible name id kind r =
      (add_nodes name id kind 0 (p.compatible_nodes compatible r.machine.world) r).1

  unfoldable unmap : ℕ → W → W
  unmap addr w = if addr == 0 then w else p.iounmap addr w

  unfoldable pub unmap_all : List Device → W → W
  unfolding unmap
  unmap_all [] w = w
  unmap_all (dev ∷ devs) w = unmap_all devs (unmap dev.mem1 (unmap dev.mem0 w))

  unfoldable pub free_all : List Device → W → W
  free_all [] w = w
  free_all (dev ∷ devs) w = free_all devs (p.kfree (record dev { mem0 = 0; mem1 = 0 }) w)

  unfoldable pub remove_devices : Registry W → Registry W
  unfolding unmap_all free_all
  remove_devices r = record r {
    machine = record (r.machine) {
      world = free_all r.dbg_devs (unmap_all r.dbg_devs r.machine.world);
    };
    dbg_devs = [];
  }

  unfoldable pub dbgfs_init_fn : Kind → ℕ → (ℕ → ℕ) → Driver W (Unit {0})
  dbgfs_init_fn etf_kind = dcsr_etf_ls1_init d
  dbgfs_init_fn etr_kind = dcsr_etr_ls1_init d
  dbgfs_init_fn etm_kind = dcsr_etm_ls1_init d
  dbgfs_init_fn cstf_kind = dcsr_cstf_ls1_init d
  dbgfs_init_fn epu_kind = dcsr_epu_ls1_init d
  dbgfs_init_fn gdi_kind = dcsr_gdi_ls1_init d
  dbgfs_init_fn core_kind = dcsr_core_ls1_init d

  -- The outcome of an init function is not looked at.
  unfoldable pub init_all : ℕ → List Device → Machine W → Machine W
  unfolding dbgfs_init_fn
  init_all root [] m = m
  init_all root (dev ∷ devs) m =
      init_all root devs (dbgfs_init_fn dev.dbgfs_init root (mem_ptr dev) m).1

  unfoldable pub add_all_devices : Registry W → Registry W
  unfolding add_compatible_devices
  add_all_devices r =
      let r1 = add_compatible_devices "fsl,ls1021a-dcsr-etf" "etf" etf0 etf_kind r in
      let r2 = add_compatible_devices "fsl,ls1021a-dcsr-etr" "etr" etr etr_kind r1 in
      let r3 = add_compatible_devices "fsl,ls1021a-dcsr-etm" "etm" etm0 etm_kind r2 in
      let r4 = add_compatible_devices "fsl,ls1021a-dcsr-cstf" "cstf" cstf0 cstf_kind r3 in
      let r5 = add_compatible_devices "fsl,ls1021a-dcsr-epu" "epu" epu epu_kind r4 in
      let r6 = add_compatible_devices "fsl,ls1021a-dcsr-gdi" "gdi" gdi gdi_kind r5 in
      add_compatible_devices "fsl,ls1021a-dcsr-a7cpu" "core" core core_kind r6

  -- From the root directory on.
  unfoldable pub register_all : Registry W → Outcome (Unit {0}) × Registry W
  unfolding remove_devices init_all
  register_all r =
      let (root, w) = d.create_dir (record { base = "ls-dbg"; index = none }) 0 r.machine.world in
      let r1 : Registry W = record r {
        machine = record (r.machine) { world = w };
        dbgfs_root_dentry = root;
      } in
      let (ret, w') = reg_access_init w in
      let r2 : Registry W = record r1 { machine = record (r1.machine) { world = w' } } in
      if d.is_err_or_null root
      then (err (neg enomem), remove_devices r1)
      else if ret == 0
      then (ok tt, record r2 { machine = init_all root r2.dbg_devs r2.machine })
      else (err ret, remove_devices r2)

  unfoldable pub dcsr_probe : Registry W → Outcome (Unit {0}) × Registry W
  unfolding add_all_devices register_all
  dcsr_probe r = register_all (add_all_devices r)

  -- The outcome of the first call is not looked at.
  unfoldable pub dcsr_remove : Registry W → Registry W
  unfolding remove_devices
  dcsr_remove r =
      let m = (ls_dbg_epu_unbind_irq k r.machine).1 in
      let r1 : Registry W = record r {
        machine = record m { world = d.remove_recursive r.dbgfs_root_dentry m.world };
      } in
      let r2 = remove_devices r1 in
      record r2 { machine = record (r2.machine) { world = reg_access_cleanup r2.machine.world } }
