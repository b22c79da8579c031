-- ===== src/Tests/Clients.antt =====
-- The test program's tests on a board whose world keeps the registers and the program's variables.
use ls_dbg.Prelude.{
  ◌||◌, ℕ, ◌+◌, ◌-◌, ◌*◌, ◌%◌, ◌^◌, ◌≡◌, refl, some, true, false, arith, ◌==◌, leb, if◌then◌else◌,
}
use ls_dbg.Memory.{Memory, load, store, load-store_self}
use ls_dbg.Kernel.{Kernel, IsKernel, neg}
use ls_dbg.Reservation.{epu_counter, reservation_at}
use ls_dbg.TraceIp.{vcount}
use ls_dbg.Ioctl.{reg_access_size}
use ls_dbg.Client.{
  vcount_vcntr_offset, vcount_64_test_val, encode_reg_access, Locals, Process, go,
  resource_res_error, test_invalid_id, test_invalid_offset, test_invalid_regsize,
  test_invalid_buffer, test_read_write_vcount,
}
use ls_dbg.Client.Calls.{IsHosted}
use ls_dbg.Client.Errors.{error_tests_pass}
use ls_dbg.Client.Holding.{Holding}
use ls_dbg.Client.Counters.{IsApart, test_read_write_vcount_passes}
use ls_dbg.TraceIp.{etm0}
use ls_dbg.Tests.Board.{epu_base, maps}

-- The words of registers, and the bytes of the variable at an address
record Store : Type 0 where
  regs : Memory
  vars : ℕ → Memory

abbrev put_var : ℕ → Memory → Store → Store
put_var a bytes w = record w { vars = λ x. if a == x then bytes else w.vars x }

abbrev k : Kernel Store
k = record {
  ioread32 = λ a w. (w.regs a % 2 ^ 32, w);
  iowrite32 = λ v a w. record w { regs = λ x. if a == x then v else w.regs x };
  err_ptr = λ code. neg code;
  is_err = λ p. leb (2 ^ 32 - 4095) p;
  ptr_err = λ p. p;
  copy_from_user = λ n a w. some (w.vars a);
  get_user32 = λ a w. some (load 4 (w.vars a) 0);
  put_user =
      λ n v a w. (if a == 0 || a == 0xaabbccdd then 14 else 0, put_var a (store n (λ x. 0) 0 v) w);
  iowr = λ c n size. (c * 256 + n) * 256 + size;
  irq_of_parse_and_map = λ w. (9, w);
  set_irq_flags = λ n w. w;
  request_irq = λ n w. (0, w);
  flush_scheduled_work = λ w. w;
  free_irq = λ n w. w;
  vcnt_addr = 0x8000;
}

abbrev u : Locals Store
u = record {
  poke = λ n a bytes w. put_var a bytes w;
  peek = λ n a w. load n (w.vars a) 0;
  rr_at = 0x100;
  ra_at = 0x200;
  val_at = 0x300;
  val64_at = 0x400;
}

-- All registers and variables are 0.
abbrev process : Process Store
process = record {
  machine = record {
    maps = maps;
    ram = λ x. 3;
    epu_ptr = epu_base;
    intr_num = 0;
    vc_lock = false;
    reg_acc_lock = false;
    world = record { regs = λ x. 0; vars = λ a x. 0 };
  };
  errno = 0;
}

k-IsKernel : IsKernel k
k-IsKernel = record {
  err_ptr-is_err = λ code p l. ground arith;
  ptr_err-err_ptr = λ code p l. refl;
}

u-IsHosted : IsHosted k u
u-IsHosted = record {
  copied = λ n a bytes w. let t : (a == a) ≡ true = ground arith in rw t refl;
  reserve_ne = refl;
  relinq_ne = refl;
  usage_ne = refl;
  usage_ne_reserve = omega arith;
  usage_ne_relinq = omega arith;
  write_ne = omega arith;
  val_fits = omega arith;
  val64_fits = omega arith;
}

abbrev reg : Store → ℕ
reg w = w.regs (reservation_at k epu_base epu_counter) % 2 ^ 32

u-IsApart : IsApart k u
u-IsApart = record {
  value_kept = λ bytes value w. refl;
  put_ok = λ v w. refl;
  put_read = λ v w l. load-store_self 8 (λ x. 0) 0 v l;
}

-- ETM0 is mapped as well.
abbrev traced : Process Store
traced = record process {
  machine = record (process.machine) {
    maps = λ j.
        if j == etm0 then record { id = etm0; base_addr = 0x3000000; size = 0x1000 } else maps j;
  };
}

error_tests_pass_example :
    ((resource_res_error k u traced).0 ≡ go tt)
    × ((test_invalid_id k u traced).0 ≡ go tt)
    × ((test_invalid_offset k u traced).0 ≡ go tt)
    × ((test_invalid_buffer k u traced).0 ≡ go tt)
    × ((test_invalid_regsize k u traced).0 ≡ go tt)
error_tests_pass_example =
    error_tests_pass k u u-IsHosted traced k-IsKernel (λ j. ground arith)
      (record { fits = omega arith; in_memory = omega arith; no_err = λ off l. ground arith })
      (λ v w. omega arith) (λ v w. omega arith)

test_read_write_vcount_passes_example :
    let value = store 8 (λ x. 0) 0 vcount_64_test_val in
    let counter = vcount_vcntr_offset 0 in
    let filled_ra =
      u.poke reg_access_size u.ra_at (encode_reg_access vcount counter u.val64_at 64) in
    let before = filled_ra (filled_ra (u.poke 8 u.val64_at value process.machine.world)) in
    let after = (k.put_user 8 vcount_64_test_val u.val64_at before).1 in
    (test_read_write_vcount k u process ≡ (
      go tt,
      record process {
        machine = record (process.machine) {
          ram = store 8 process.machine.ram (k.vcnt_addr + counter) vcount_64_test_val;
          world = after;
        };
      },
    ))
    × (load 8 (test_read_write_vcount k u process).1.machine.ram (k.vcnt_addr + counter)
        ≡ vcount_64_test_val)
    × (u.peek 8 u.val64_at after ≡ vcount_64_test_val)
test_read_write_vcount_passes_example =
    test_read_write_vcount_passes k u u-IsHosted u-IsApart process (record {
      base = refl;
      whole = refl;
      in_memory = omega arith;
      no_err = λ off l. ground arith;
    })
