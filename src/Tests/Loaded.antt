-- ===== src/Tests/Loaded.antt =====
-- Loading the driver on a board that counts what it has given, and shift loops.
use ls_dbg.Prelude.{
  ℕ, ◌+◌, ◌-◌, ◌*◌, ◌^◌, ◌≡◌, ◌≢◌, ◌⊎◌, refl, String, List, [], ◌∷◌, none, false, true, arith, ◌==◌,
  leb, if◌then◌else◌,
}
use ls_dbg.Kernel.{Kernel, Machine, Driver, ok, hang, neg}
use ls_dbg.TraceIp.{epu}
use ls_dbg.RegAccess.Tables.{IsMapped}
use ls_dbg.ShiftLoop.{shift_loop}
use ls_dbg.ShiftLoop.Fuel.{shift_loop_ends}
use ls_dbg.Vcounters.{handle_status}
use ls_dbg.Debugfs.{Debugfs}
use ls_dbg.Probe.{Platform, Registry, dcsr_probe, dcsr_remove}
use ls_dbg.Probe.Epu.{IsTree, HasEpu}
use ls_dbg.Probe.Balance.{IsCounted, holds}
use ls_dbg.Probe.Leaks.{probe_accounted, probe_removed}
use ls_dbg.Module.{Bus, dcsr_module_init}
use ls_dbg.Module.Load.{IsBoot, IsLoaded, module_init-IsLoaded, loaded_ends}
use ls_dbg.System.{Cores, perform, set_counter, idle, elapsed, start, later}

-- Registers read 6, and the interrupt is 9.
abbrev pub kernel : {W : Type 0} → Kernel W
kernel = record {
  ioread32 = λ a w. (6, w);
  iowrite32 = λ v a w. w;
  err_ptr = λ code. neg code;
  is_err = λ p. leb (2 ^ 32 - 4095) p;
  ptr_err = λ p. p;
  copy_from_user = λ n a w. none;
  get_user32 = λ a w. none;
  put_user = λ n v a w. (0, w);
  iowr = λ c n size. (c * 256 + n) * 256 + size;
  irq_of_parse_and_map = λ w. (9, w);
  set_irq_flags = λ n w. w;
  request_irq = λ n w. (0, w);
  flush_scheduled_work = λ w. w;
  free_irq = λ n w. w;
  vcnt_addr = 0x8000;
}

-- The world is the number of bytes given.
abbrev pub k : Kernel ℕ
k = kernel

abbrev pub d : Debugfs ℕ
d = record {
  create_dir = λ name parent w. (1, w);
  create_x32 = λ name mode dir addr w. (1, w);
  create_x64 = λ name mode dir addr w. (1, w);
  create_file_ops = λ name mode dir addr ops w. (1, w);
  is_err_or_null = λ p. p == 0;
  remove_recursive = λ p w. w;
}

-- Each device has one node.
abbrev pub nodes : String → List ℕ
nodes name = 0x1000000 ∷ []

abbrev pub addr : ℕ → ℕ → ℕ
addr np i = if i == 0 then np else 0

abbrev of_range : ℕ → ℕ
of_range a = if a == 0 then 0 else 0x1000

abbrev pub p : Platform ℕ
p = record {
  compatible_nodes = λ name w. nodes name;
  kzalloc = λ w. (true, w + 40);
  of_iomap = λ np i w. (addr np i, w + of_range (addr np i));
  resource_size = λ np i w. 0x1000;
  iounmap = λ a w. w - of_range a;
  kfree = λ dev w. w - 40;
  misc_register = λ w. (0, w);
  misc_deregister = λ w. w;
}

abbrev pub bus : Bus ℕ
bus = record {
  platform_driver_register = λ drv r. (0, (drv.probe r).1);
  platform_driver_unregister = λ drv r. drv.remove r;
}

abbrev pub registry : Registry ℕ
registry = record {
  machine = record {
    maps = λ j. record { id = j; base_addr = 0; size = 0 };
    ram = λ x. 0;
    epu_ptr = 0;
    intr_num = 0;
    vc_lock = false;
    reg_acc_lock = false;
    world = 5;
  };
  dbg_devs = [];
  dbgfs_root_dentry = 0;
}

pub p-IsTree : IsTree k p d nodes addr (λ np i. 0x1000)
p-IsTree = record {
  compatible = λ name w. refl;
  given = λ w. refl;
  mapped = λ np i w. refl;
  sized = λ np i w. refl;
}

pub p-HasEpu : HasEpu k p d nodes addr (λ np i. 0x1000) 0x1000000
p-HasEpu = record {
  np = 0x1000000;
  single = refl;
  there = refl;
  valid = omega arith;
  large = omega arith;
  in_memory = omega arith;
  no_err = λ off l. ground arith;
}

bus-IsBoot : IsBoot k p d bus registry
bus-IsBoot = record { root_made = λ w. refl; registered = λ w. refl; probed = refl }

module_init-IsLoaded_example :
    ((dcsr_probe k p d registry).0 ≡ ok tt)
    × IsLoaded k p d bus 0x1000000 (dcsr_module_init k p d bus registry).1.machine
module_init-IsLoaded_example =
    module_init-IsLoaded k p d bus nodes addr (λ np i. 0x1000) 0x1000000 registry p-IsTree p-HasEpu
      bus-IsBoot refl refl refl

abbrev loaded : Cores ℕ
loaded = record { machine = (dcsr_module_init k p d bus registry).1.machine; pc = λ i. idle }

abbrev later_on : Cores ℕ
later_on = record { machine = record (loaded.machine) { world = 7 }; pc = λ i. idle }

loaded_ends_example :
    ((perform k (set_counter 3 4) later_on.machine).0 ≢ hang)
    × ((handle_status k (ok 8) later_on.machine).0 ≢ hang)
loaded_ends_example =
    loaded_ends k p d bus nodes addr (λ np i. 0x1000) 0x1000000 registry later_on (set_counter 3 4)
      8 p-IsTree p-HasEpu bus-IsBoot refl refl refl (later start (elapsed 7))

p-IsCounted : IsCounted k p d (λ w. w) of_range 40
p-IsCounted = record {
  no_range = refl;
  mapped = λ np i w. refl;
  unmapped = λ a w. refl;
  given = λ w. refl;
  freed = λ dev w. refl;
  registered = λ w. refl;
  deregistered = λ w. refl;
  files = record {
    dir = λ name parent w. refl;
    file = λ name mode dir addr w. refl;
    removed = λ root w. refl;
  };
  written = λ v a w. refl;
  flushed = λ w. refl;
  irq_freed = λ n w. refl;
}

probe_accounted_example :
    let (out, r') = dcsr_probe k p d registry in
    (r'.machine.world ≡ 5 + holds k p d (λ w. w) of_range 40 r'.dbg_devs)
    × ((out ≡ ok tt) ⊎ ((r'.dbg_devs ≡ []) × (r'.machine.world ≡ 5)))
probe_accounted_example = probe_accounted k p d (λ w. w) of_range 40 p-IsCounted registry refl

-- The machine as it stands after the loading, in the world after the probe.
abbrev in_use : Machine ℕ
in_use = record (loaded.machine) { world = (dcsr_probe k p d registry).1.machine.world }

in_use-IsMapped : IsMapped k in_use.maps epu 0x1000
in_use-IsMapped = module_init-IsLoaded_example.1.ready.epu_mapped

probe_removed_example :
    let r' = (dcsr_probe k p d registry).1 in
    let r'' = dcsr_remove k p d (record r' { machine = in_use }) in
    (r''.dbg_devs ≡ []) × (r''.machine.world ≡ 5)
probe_removed_example =
    probe_removed k p d (λ w. w) of_range 40 p-IsCounted registry in_use refl refl in_use-IsMapped

-- A loop that does nothing but count its shifts
abbrev body : ℕ → Driver ℕ (Unit {0})
body j m = (ok tt, m)

shift_loop_ends_example :
    ((shift_loop body 4 0 9 registry.machine).0 ≢ hang)
    × (shift_loop body (4 + 28) 0 9 registry.machine ≡ shift_loop body 4 0 9 registry.machine)
shift_loop_ends_example =
    shift_loop_ends body 4 28 0 9 registry.machine (λ j n bad. cc) (omega arith)
