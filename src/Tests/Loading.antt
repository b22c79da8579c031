-- ===== src/Tests/Loading.antt =====
-- Loading and removing the driver on the board.
use ls_dbg.Prelude.{
  ℕ, ◌+◌, ◌≤◌, ◌≡◌, ◌≢◌, ◌⊎◌, refl, none, arith, ◌==◌, if◌then◌else◌, List, [], ◌∷◌,
}
use ls_dbg.Memory.{Memory}
use ls_dbg.Kernel.{Kernel, ok, err, neg, enomem}
use ls_dbg.TraceIp.{etf0}
use ls_dbg.Ioctl.Virtual.{IsVcountMapped}
use ls_dbg.Probe.{Platform, etf_kind, add_nodes, dcsr_remove}
use ls_dbg.Probe.Nodes.{length, IsAdded, add_nodes-IsAdded}
use ls_dbg.Probe.Remove.{stopped, for_all, mapped, ranges_of, cleared, dcsr_remove_lem}
use ls_dbg.Module.{Bus, dcsr_module_init, module_init_cases}
use ls_dbg.Tests.Board.{board, epu-IsMapped}
use ls_dbg.Tests.Devices.{debugfs, platform, registry}

abbrev k : Kernel Memory
k = board 9 0 none

-- A board with one matching device. Registering the driver gives the status `ret`, and probes the
-- device if it is 0.
abbrev bus : ℕ → Bus Memory
bus ret = record {
  platform_driver_register = λ drv r. if ret == 0 then (0, (drv.probe r).1) else (ret, r);
  platform_driver_unregister = λ drv r. drv.remove r;
}

abbrev pl : Platform Memory
pl = platform 0

abbrev nodes : List ℕ
nodes = 0x2000000 ∷ 0x3000000 ∷ []

add_nodes-IsAdded_example :
    let (n, r') = add_nodes k pl (debugfs 1) "etf" etf0 etf_kind 0 nodes registry in
    (0 ≤ n) × (n ≤ 0 + length nodes) × IsAdded k pl (debugfs 1) etf0 0 n registry r'
add_nodes-IsAdded_example = add_nodes-IsAdded k pl (debugfs 1) "etf" etf0 etf_kind 0 nodes registry

dcsr_remove_lem_example :
    let gone =
      (debugfs 1).remove_recursive registry.dbgfs_root_dentry
        (stopped k pl (debugfs 1) registry.machine) in
    let unmapped = pl.iounmap 0x2000000 gone in
    let r' = dcsr_remove k pl (debugfs 1) registry in
    (r'.dbg_devs ≡ [])
    × (r'.machine ≡ record (registry.machine) {
      intr_num = 0;
      world =
          pl.misc_deregister (
            for_all k pl
              (debugfs 1)
              pl.kfree
              (cleared k pl (debugfs 1) registry.dbg_devs)
              unmapped);
    })
unfolding mapped ranges_of for_all
dcsr_remove_lem_example = dcsr_remove_lem k pl (debugfs 1) registry (epu-IsMapped 9 0 none)

-- The registration is refused with EBUSY.
module_init_cases_example :
    let (out, r'') = dcsr_module_init k pl (debugfs 1) (bus (neg 16)) registry in
    ((neg 16 ≢ 0) × (out ≡ err (neg 16)) × (r'' ≡ registry))
    ⊎ ((neg 16 ≡ 0)
        × (r''.dbg_devs ≡ registry.dbg_devs)
        × (((out ≡ ok tt) × IsVcountMapped k r''.machine.maps)
            ⊎ ((out ≡ err (neg enomem)) × (r''.machine.maps ≡ registry.machine.maps))))
module_init_cases_example =
    module_init_cases k pl (debugfs 1) (bus (neg 16)) registry registry (neg 16) (omega arith)
      (λ off l. ground arith) refl
