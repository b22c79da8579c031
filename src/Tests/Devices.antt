-- ===== src/Tests/Devices.antt =====
-- Devices and their files on the board.
use ls_dbg.Prelude.{ℕ, ◌+◌, ◌*◌, ◌≡◌, refl, none, true, arith, ◌==◌, [], ◌∷◌}
use ls_dbg.Memory.{Memory}
use ls_dbg.Kernel.{Kernel}
use ls_dbg.TraceIp.{etm0, etr}
use ls_dbg.RegAccess.{reg_add_map}
use ls_dbg.Debugfs.{Debugfs}
use ls_dbg.Probe.{Platform, Registry, etm_kind, map_range, add_device}
use ls_dbg.Probe.Cases.{second_range_takes_etr}
use ls_dbg.Tests.Board.{board, machine}

abbrev k : Kernel Memory
k = board 9 0 none

-- Directories and files are made at address 1, or not at all if `root` is 0.
abbrev pub debugfs : ℕ → Debugfs Memory
debugfs root = record {
  create_dir = λ name parent w. (root, w);
  create_x32 = λ name mode dir addr w. (1, w);
  create_x64 = λ name mode dir addr w. (1, w);
  create_file_ops = λ name mode dir addr ops w. (1, w);
  is_err_or_null = λ p. p == 0;
  remove_recursive = λ p w. w;
}

-- Range `i` of node `np` is 0x1000 bytes at `np + 0x1000 * i`.
abbrev pub platform : ℕ → Platform Memory
platform ret = record {
  compatible_nodes = λ name w. [];
  kzalloc = λ w. (true, w);
  of_iomap = λ np i w. (np + 0x1000 * i, w);
  resource_size = λ np i w. 0x1000;
  iounmap = λ addr w. w;
  kfree = λ dev w. w;
  misc_register = λ w. (ret, w);
  misc_deregister = λ w. w;
}

second_range_takes_etr_example :
    ((add_device k (platform 0) (debugfs 1) "etm" etm0 etm_kind 1 0x2000000 machine).1.maps
      etr).base_addr
    ≡ 0x2001000
unfolding map_range reg_add_map
second_range_takes_etr_example =
    second_range_takes_etr k (platform 0) (debugfs 1) machine 0x2000000 0x2001000 machine.world refl
      (omega arith)

abbrev pub registry : Registry Memory
registry = record {
  machine = machine;
  dbg_devs =
      record {
        dt_idx = 0;
        dbgfs_dir_name = "etm";
        mem0 = 0x2000000;
        mem1 = 0;
        dbgfs_init = etm_kind;
      }
      ∷ [];
  dbgfs_root_dentry = 0;
}
