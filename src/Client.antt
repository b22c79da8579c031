-- ===== src/Client.antt =====
-- test/test_ls_dbg.c: the program that tests the driver through the character device. Its wrappers
-- of `ioctl` and its tests, run on the model of the driver.
pub mod Calls
pub mod Refused
pub mod Errors
pub mod Holding
pub mod Normal
pub mod Counters
pub mod Errno
pub mod Simple
pub mod Run
use ls_dbg.Prelude.{
  ℕ, ◌+◌, ◌-◌, ◌*◌, ◌%◌, ◌^◌, ◌==◌, Bool, true, false, not, ◌&&◌, ◌||◌, leb, if◌then◌else◌,
}
use ls_dbg.Memory.{Memory, store}
use ls_dbg.Kernel.{Kernel, Machine, Outcome, ok, err, hang, neg, eperm, ebusy, einval, efault}
use ls_dbg.TraceIp.{etm0, etm1, etr, etf0, etf1, cstf0, cstf1, epu, vcount, num_ids}
use ls_dbg.Reservation.{resource_reservation_size, res_get_usage, res_reserve, res_relinq}
use ls_dbg.Ioctl.{reg_access_size, dbg_read_reg, dbg_write_reg, reg_access_ioctl}

-- The memory of the program: writing and reading bytes of a local variable, and where the variables
-- `rr`, `ra`, `val` and `val64` are.
pub record Locals (W : Type 0) : Type 0 where
  pub poke : ℕ → ℕ → Memory → W → W
  pub peek : ℕ → ℕ → W → ℕ
  pub rr_at : ℕ
  pub ra_at : ℕ
  pub val_at : ℕ
  pub val64_at : ℕ

-- The machine with the C library's `errno`
pub record Process (W : Type 0) : Type 0 where
  pub machine : Machine W
  pub errno : ℕ

-- `failed` is the `return 0` of an assertion that fails; `stuck` is a call that does not return.
pub data Reply (A : Type 0) : Type 0 where
  go : A → Reply A
  failed : Reply A
  stuck : Reply A

abbrev pub Program : Type 0 → Type 0 → Type 0
Program W A = Process W → Reply A × Process W

abbrev pub go_on : {W A B : Type 0} → Reply A × Process W → (A → Program W B) → Reply B × Process W
go_on (go a, p) f = f a p
go_on (failed, p) f = (failed, p)
go_on (stuck, p) f = (stuck, p)

infixl 5 ◌>>=◌ ◌>>◌
abbrev pub ◌>>=◌ : {W A B : Type 0} → Program W A → (A → Program W B) → Program W B
◌>>=◌ t f p = go_on (t p) f

abbrev pub ◌>>◌ : {W B : Type 0} → Program W (Unit {0}) → Program W B → Program W B
t >> u = t >>= λ _. u

abbrev pub is_negative : ℕ → Bool
is_negative ret = leb (2 ^ 31) ret

-- FAIL_UNLESS; a condition may look at `errno` and the variables.
abbrev pub fail_unless : {W : Type 0} → (Process W → Bool) → Program W (Unit {0})
fail_unless cond p = if cond p then (go tt, p) else (failed, p)

-- What the C library makes of a call's outcome: 0, or -1 with the code in `errno`
abbrev pub returned : {W : Type 0} → ℕ → Outcome (Unit {0}) × Machine W → Reply ℕ × Process W
returned errno (ok a, m) = (go 0, record { machine = m; errno = errno })
returned errno (err e, m) = (go (neg 1), record { machine = m; errno = 2 ^ 32 - e })
returned errno (hang, m) = (stuck, record { machine = m; errno = errno })

-- VCOUNT_VCNTR_OFFSET, as the program computes it
abbrev pub vcount_vcntr_offset : ℕ → ℕ
vcount_vcntr_offset n = 16 * 4 + 0x10 + n * 4

abbrev pub vcount_64_test_val : ℕ
vcount_64_test_val = 0xBAADF00DC5ACCE55

-- The bytes of the two structures
unfoldable pub encode_reservation : ℕ → ℕ → ℕ → Memory
encode_reservation grp index usage = store 4 (store 4 (store 4 (λ x. 0) 0 grp) 4 index) 8 usage

unfoldable pub encode_reg_access : ℕ → ℕ → ℕ → ℕ → Memory
encode_reg_access id offset buffer reg_size =
    store 4 (store 8 (store 4 (store 4 (λ x. 0) 0 id) 4 offset) 8 buffer) 16 reg_size

-- A call, and the assertion on its result that most tests make
unfoldable pub fails_with : {W : Type 0} → ℕ → Program W ℕ → Program W (Unit {0})
fails_with code call = do ret ← call; fail_unless (λ p. is_negative ret && p.errno == code)

unfoldable pub refused_with : {W : Type 0} → ℕ → Program W ℕ → Program W (Unit {0})
refused_with code call = do ret ← call; fail_unless (λ p. ret == 0 && p.errno == code)

unfoldable pub succeeds : {W : Type 0} → Program W ℕ → Program W (Unit {0})
succeeds call = do ret ← call; fail_unless (λ p. ret == 0 && p.errno == 0)

abbrev pub clear_errno : {W : Type 0} → Program W (Unit {0})
clear_errno p = (go tt, record p { errno = 0 })

module _ {W : Type 0} (k : Kernel W) (u : Locals W) where
  -- An assignment to a local variable
  unfoldable pub assign : ℕ → ℕ → ℕ → Program W (Unit {0})
  assign n addr val p = (
    go tt,
    record p {
      machine = record (p.machine) {
        world = u.poke n addr (store n (λ x. 0) 0 val) p.machine.world;
      };
    },
  )

  -- `ioctl` with the address of a local structure of `size` bytes that has just been filled
  unfoldable pub ioctl_with : ℕ → ℕ → ℕ → Memory → Program W ℕ
  ioctl_with cmd size addr bytes p = returned p.errno (
      reg_access_ioctl k cmd addr
        (record (p.machine) { world = u.poke size addr bytes p.machine.world }))

  unfoldable pub reserve_res : ℕ → ℕ → Program W ℕ
  reserve_res res ind =
      ioctl_with (res_reserve k) resource_reservation_size u.rr_at (encode_reservation res ind 0)

  unfoldable pub release_res : ℕ → ℕ → Program W ℕ
  release_res res ind =
      ioctl_with (res_relinq k) resource_reservation_size u.rr_at (encode_reservation res ind 0)

  unfoldable pub get_res_usage : ℕ → ℕ → Program W ℕ
  get_res_usage res usage =
      ioctl_with (res_get_usage k) resource_reservation_size u.rr_at
        (encode_reservation res 0 usage)

  unfoldable pub read_reg : ℕ → ℕ → ℕ → ℕ → Program W ℕ
  unfolding ioctl_with
  read_reg id offset buffer reg_size = do
    ret ←
        ioctl_with (dbg_read_reg k) reg_access_size u.ra_at
          (encode_reg_access id offset buffer reg_size)
    λ p. (go (if is_negative ret then 0 else 1), p)

  unfoldable pub write_reg : ℕ → ℕ → ℕ → ℕ → Program W ℕ
  unfolding ioctl_with
  write_reg id offset buffer reg_size = do
    ret ←
        ioctl_with (dbg_write_reg k) reg_access_size u.ra_at
          (encode_reg_access id offset buffer reg_size)
    λ p. (go (if is_negative ret then 0 else 1), p)

  unfoldable pub resource_res_error : Program W (Unit {0})
  resource_res_error = do
    fails_with einval (reserve_res 0x1000 15)
    fails_with einval (reserve_res 0 0xFF)
    fails_with einval (release_res 0x1000 15)
    fails_with einval (release_res 0 0xFF)

  unfoldable pub test_invalid_id : Program W (Unit {0})
  test_invalid_id = do
    refused_with einval (read_reg num_ids 0 u.val_at 32)
    refused_with einval (read_reg (neg 5) 0 u.val_at 32)
    refused_with einval (read_reg 1000 0 u.val_at 32)
    refused_with efault (read_reg vcount 0x100000 u.val_at 32)

  unfoldable pub test_invalid_offset : Program W (Unit {0})
  test_invalid_offset = do
    refused_with efault (read_reg etm0 0x100000 u.val_at 32)
    refused_with efault (read_reg etm1 0x100000 u.val_at 32)
    refused_with efault (read_reg etr 0x100000 u.val_at 32)
    refused_with efault (read_reg etf0 0x100000 u.val_at 32)
    refused_with efault (read_reg etf1 0x100000 u.val_at 32)
    refused_with efault (read_reg cstf0 0x100000 u.val_at 32)
    refused_with efault (read_reg cstf1 0x100000 u.val_at 32)
    refused_with efault (read_reg epu 0x100000 u.val_at 32)
    refused_with efault (read_reg vcount 0x100000 u.val_at 32)

  unfoldable pub test_invalid_buffer : Program W (Unit {0})
  test_invalid_buffer = do
    refused_with efault (read_reg etm0 0 0 32)
    refused_with efault (read_reg etm0 0 0xaabbccdd 32)

  unfoldable pub test_invalid_regsize : Program W (Unit {0})
  test_invalid_regsize = do
    refused_with einval (read_reg etm0 0 u.val_at 8)
    refused_with einval (read_reg etm0 0 u.val_at 16)
    refused_with einval (read_reg etm0 0 u.val_at 100)

  -- The reservation register of the EPU's counters is read into `val` and compared.
  unfoldable pub register_is : ℕ → Program W (Unit {0})
  register_is expected = do
    ret ← read_reg epu 0xFEC u.val_at 32
    fail_unless (λ p. not (is_negative ret || not (p.errno == 0)))
    fail_unless (λ p. u.peek 4 u.val_at p.machine.world == expected)

  -- The usage is put into `val` and compared; the call's result is not looked at.
  unfoldable pub usage_is : ℕ → Program W (Unit {0})
  usage_is expected = do
    ret ← get_res_usage 0 u.val_at
    fail_unless (λ p. u.peek 4 u.val_at p.machine.world == expected)

  unfoldable pub resource_res_normal : Program W (Unit {0})
  resource_res_normal = do
    assign 4 u.val_at 0
    succeeds (reserve_res 0 15)
    succeeds (reserve_res 0 31)
    succeeds (reserve_res 0 0)
    succeeds (reserve_res 0 1)
    register_is 0x80008003
    usage_is 0x80008003
    succeeds (release_res 0 15)
    register_is 0x80000003
    usage_is 0x80000003
    fails_with ebusy (reserve_res 0 1)
    clear_errno
    register_is 0x80000003
    fails_with eperm (release_res 0 5)
    clear_errno
    register_is 0x80000003
    succeeds (release_res 0 31)
    succeeds (release_res 0 0)
    succeeds (release_res 0 1)
    register_is 0

  -- The value written is in `val64`, where the same value is read back.
  unfoldable pub test_read_write_vcount : Program W (Unit {0})
  test_read_write_vcount = do
    assign 8 u.val64_at vcount_64_test_val
    ret ← write_reg vcount (vcount_vcntr_offset 0) u.val64_at 64
    fail_unless (λ p. not (is_negative ret))
    ret ← read_reg vcount (vcount_vcntr_offset 0) u.val64_at 64
    fail_unless (λ p. not (is_negative ret))
    fail_unless (λ p. u.peek 8 u.val64_at p.machine.world == vcount_64_test_val)

  -- A read, and the assertion of the next test
  unfoldable pub read_any : ℕ → ℕ → ℕ → ℕ → Program W (Unit {0})
  unfolding read_reg
  read_any id offset buffer reg_size = do
    ret ← read_reg id offset buffer reg_size
    fail_unless (λ p. not (is_negative ret))

  -- The offset of the device's id is 0xfcc for all four devices; that of the EPU's counter 14 is 0xa38,
  -- and that of the control register 0.
  unfoldable pub test_simple_read : Program W (Unit {0})
  unfolding read_any
  test_simple_read = do
    read_any etm0 0xfcc u.val_at 32
    read_any etr 0xfcc u.val_at 32
    read_any etf0 0xfcc u.val_at 32
    read_any cstf0 0xfcc u.val_at 32
    read_any epu 0xa38 u.val_at 32
    read_any vcount 0 u.val_at 32
    read_any vcount (vcount_vcntr_offset 0) u.val64_at 64
