-- ===== src/Tests/Runs.antt =====
-- The test of writes on the board of `Loaded`.
use ls_dbg.Prelude.{ℕ, ◌≡◌, refl, arith}
use ls_dbg.Module.{dcsr_module_init}
use ls_dbg.Client.{Locals, Process, failed}
use ls_dbg.Client.Run.{test_simple_write}
use ls_dbg.Client.Run.Fresh.{IsFresh, IsServing, IsBoard, init-IsServing}
use ls_dbg.Client.Run.Sound.{test_simple_write_undecided}
use ls_dbg.Tests.Loaded.{k, d, p, bus, nodes, addr, registry, p-IsTree, p-HasEpu}

abbrev u : Locals ℕ
u = record {
  poke = λ n a bytes w. w;
  peek = λ n a w. 0;
  rr_at = 0x100;
  ra_at = 0x200;
  val_at = 0x300;
  val64_at = 0x400;
}

board-IsBoard : IsBoard k p d bus
board-IsBoard = record {
  fits = omega arith;
  valid = λ off l. ground arith;
  makes = record { dir = λ name parent w. refl; x64 = λ name mode dir addr w. refl };
  boot = λ r. record { root_made = λ w. refl; registered = λ w. refl; probed = refl };
  unregistered = λ r. refl;
}

registry-IsFresh : IsFresh k registry
registry-IsFresh = record { empty = refl; vc_free = refl; reg_acc_free = refl }

abbrev process : Process ℕ
process = record { machine = (dcsr_module_init k p d bus registry).1.machine; errno = 0 }

process-IsServing : IsServing k process.machine
process-IsServing =
    init-IsServing k p d bus nodes addr (λ np i. 0x1000) 0x1000000 p-IsTree p-HasEpu board-IsBoard
      registry registry-IsFresh

-- The caller finds 0.
test_simple_write_undecided_example :
    ((test_simple_write k u 0 process).0 ≡ failed)
    × IsServing k (test_simple_write k u 0 process).1.machine
test_simple_write_undecided_example = test_simple_write_undecided k u 0 process process-IsServing
