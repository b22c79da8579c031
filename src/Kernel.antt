-- ===== src/Kernel.antt =====
-- What the driver takes from the Linux kernel, and the monad of its functions.
--
-- `Kernel W` lists the kernel services that ls-dbg/module/reg_access.c and vir_cntrs.c call. Their
-- code is not in the repository, so they are parameters. `W` is all that lies outside the driver's
-- own data: the devices behind the bus, the memory of the calling process, the interrupt tables.
-- Words are natural numbers below 2 ^ 32 (`unsigned long`, pointers and error codes of the ARM
-- core) or 2 ^ 64. A negative error code is its bit pattern.
use ls_dbg.Prelude.{ℕ, ◌-◌, ◌^◌, ◌<◌, ◌≡◌, Bool, true, false, Option, if◌then◌else◌}
use ls_dbg.Memory.{Memory}

pub record Kernel (W : Type 0) : Type 0 where
  -- linux/io.h: the value read may depend on the device's state, and change it.
  pub ioread32 : ℕ → W → ℕ × W
  -- The value comes before the address.
  pub iowrite32 : ℕ → ℕ → W → W
  -- linux/err.h: error codes carried in pointers. The argument of `err_ptr` is the positive code.
  pub err_ptr : ℕ → ℕ
  pub is_err : ℕ → Bool
  pub ptr_err : ℕ → ℕ
  -- linux/uaccess.h: `copy_from_user` of so many bytes from an address, `none` unless all of them
  -- were copied; `get_user` of a 32-bit word; `put_user` of so many bytes (value, address).
  pub copy_from_user : ℕ → ℕ → W → Option Memory
  pub get_user32 : ℕ → W → Option ℕ
  pub put_user : ℕ → ℕ → ℕ → W → ℕ × W
  -- asm/ioctl.h: `_IOWR` of a letter, a number and the size of the argument.
  pub iowr : ℕ → ℕ → ℕ → ℕ
  -- linux/interrupt.h, linux/of_irq.h: the interrupt of the EPU node (0 if there is none), and the
  -- handler's registration for it, which returns 0 or an error code.
  pub irq_of_parse_and_map : W → ℕ × W
  pub set_irq_flags : ℕ → W → W
  pub request_irq : ℕ → W → ℕ × W
  pub flush_scheduled_work : W → W
  pub free_irq : ℕ → W → W
  -- Where the linker put `struct vcounters ls_dbg_vcnt`.
  pub vcnt_addr : ℕ

-- `struct map_info` of reg_access.c.
pub record MapInfo : Type 0 where
  pub id : ℕ
  pub base_addr : ℕ
  pub size : ℕ

-- The driver's static data, with the memory in which `ls_dbg_vcnt` lies. `maps` is the array of
-- MAX_TRACE_MODULES entries; the code indexes it below NUM_IDS only. A lock is `true` when held.
pub record Machine (W : Type 0) : Type 0 where
  pub maps : ℕ → MapInfo
  pub ram : Memory
  pub epu_ptr : ℕ
  pub intr_num : ℕ
  pub vc_lock : Bool
  pub reg_acc_lock : Bool
  pub world : W

-- How a call ends: with a value (status 0), with an error code, or never, as when it spins on a
-- lock that nobody gives back.
pub data Outcome (A : Type 0) : Type 0 where
  ok : A → Outcome A
  err : ℕ → Outcome A
  hang : Outcome A

abbrev pub Driver : Type 0 → Type 0 → Type 0
Driver W A = Machine W → Outcome A × Machine W

abbrev pub and_then :
    {W A B : Type 0} → Outcome A × Machine W → (A → Driver W B) → Outcome B × Machine W
and_then (ok a, m) f = f a m
and_then (err e, m) f = (err e, m)
and_then (hang, m) f = (hang, m)

infixl 5 ◌>>=◌ ◌>>◌
abbrev pub ◌>>=◌ : {W A B : Type 0} → Driver W A → (A → Driver W B) → Driver W B
◌>>=◌ d f m = and_then (d m) f

abbrev pub ◌>>◌ : {W B : Type 0} → Driver W (Unit {0}) → Driver W B → Driver W B
d >> k = d >>= λ _. k

abbrev pub pure : {W A : Type 0} → A → Driver W A
pure a m = (ok a, m)

abbrev pub fail : {W A : Type 0} → ℕ → Driver W A
fail e m = (err e, m)

-- The bit pattern of `-code`, and the codes that the driver returns.
abbrev pub neg : ℕ → ℕ
neg code = 2 ^ 32 - code

abbrev pub eperm : ℕ
eperm = 1

abbrev pub enomem : ℕ
enomem = 12

abbrev pub efault : ℕ
efault = 14

abbrev pub ebusy : ℕ
ebusy = 16

abbrev pub einval : ℕ
einval = 22

abbrev pub enotty : ℕ
enotty = 25

-- Run `body` between `spin_lock_irqsave` and `spin_unlock_irqrestore` of `vc_lock`. A lock that is
-- held already is waited for; nothing in one thread of control gives it back.
unfoldable pub vc_locked : {W A : Type 0} → Driver W A → Driver W A
vc_locked body m =
    let r = body (record m { vc_lock = true }) in
    if m.vc_lock then (hang, m) else (r.0, record (r.1) { vc_lock = false })

unfoldable pub reg_acc_locked : {W A : Type 0} → Driver W A → Driver W A
reg_acc_locked body m =
    let r = body (record m { reg_acc_lock = true }) in
    if m.reg_acc_lock then (hang, m) else (r.0, record (r.1) { reg_acc_lock = false })

-- What linux/err.h and linux/uaccess.h document of the services.
pub record IsKernel {W : Type 0} (k : Kernel W) : Type 0 where
  pub err_ptr-is_err : (code : ℕ) → 0 < code → code < 4096 → k.is_err (k.err_ptr code) ≡ true
  pub ptr_err-err_ptr : (code : ℕ) → 0 < code → code < 4096 → k.ptr_err (k.err_ptr code) ≡ neg code
