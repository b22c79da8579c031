-- ===== src/Tests/Board.antt =====
-- A small board: kernel services that work on a store of words, and a driver with the EPU and the
-- virtual counters mapped.
use ls_dbg.Prelude.{
  ℕ, ◌+◌, ◌-◌, ◌*◌, ◌%◌, ◌^◌, refl, Option, some, false, arith, ◌==◌, leb, if◌then◌else◌,
}
use ls_dbg.Memory.{Memory}
use ls_dbg.Kernel.{Kernel, IsKernel, Machine, MapInfo, neg}
use ls_dbg.TraceIp.{epu, vcount}
use ls_dbg.Vcounters.{vcounters_size}
use ls_dbg.RegAccess.Tables.{IsMapped}
use ls_dbg.Ioctl.Virtual.{IsVcountMapped}

-- The world is the words at addresses. What the device tree, the request for the interrupt and the
-- copy from the user give is chosen.
abbrev pub board : ℕ → ℕ → Option Memory → Kernel Memory
board irq ret bytes = record {
  ioread32 = λ a w. (w a % 2 ^ 32, w);
  iowrite32 = λ v a w x. if a == x then v else w x;
  err_ptr = λ code. neg code;
  is_err = λ p. leb (2 ^ 32 - 4095) p;
  ptr_err = λ p. p;
  copy_from_user = λ n a w. bytes;
  get_user32 = λ a w. some (w a);
  put_user = λ n v a w. (0, λ x. if a == x then v else w x);
  iowr = λ c n size. (c * 256 + n) * 256 + size;
  irq_of_parse_and_map = λ w. (irq, w);
  set_irq_flags = λ n w. w;
  request_irq = λ n w. (ret, w);
  flush_scheduled_work = λ w. w;
  free_irq = λ n w. w;
  vcnt_addr = 0x8000;
}

abbrev pub epu_base : ℕ
epu_base = 0x1000000

abbrev pub maps : ℕ → MapInfo
maps j =
    if j == epu
    then record { id = epu; base_addr = epu_base; size = 0x1000 }
    else if j == vcount
    then record { id = vcount; base_addr = 0x8000; size = vcounters_size }
    else record { id = j; base_addr = 0; size = 0 }

-- Every word of the world is 6, and every byte of memory 3.
abbrev pub machine : Machine Memory
machine = record {
  maps = maps;
  ram = λ x. 3;
  epu_ptr = epu_base;
  intr_num = 5;
  vc_lock = false;
  reg_acc_lock = false;
  world = λ x. 6;
}

pub board-IsKernel : (irq ret : ℕ) (bytes : Option Memory) → IsKernel (board irq ret bytes)
board-IsKernel irq ret bytes = record {
  err_ptr-is_err = λ code p l. ground arith;
  ptr_err-err_ptr = λ code p l. refl;
}

pub epu-IsMapped :
    (irq ret : ℕ) (bytes : Option Memory) → IsMapped (board irq ret bytes) maps epu 0x1000
epu-IsMapped irq ret bytes = record {
  fits = omega arith;
  in_memory = omega arith;
  no_err = λ off l. ground arith;
}

pub vcount-IsVcountMapped :
    (irq ret : ℕ) (bytes : Option Memory) → IsVcountMapped (board irq ret bytes) maps
vcount-IsVcountMapped irq ret bytes = record {
  base = refl;
  whole = refl;
  in_memory = omega arith;
  no_err = λ off l. ground arith;
}
