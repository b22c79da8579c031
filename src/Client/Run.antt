-- ===== src/Client/Run.antt =====
-- test/test_ls_dbg.c: the tests that use the device as a file or only write, and the loop over all
-- tests, each between the loading and the removal of the module.
pub mod Fresh
pub mod Sound
use ls_dbg.Prelude.{ℕ, ◌==◌, Bool, true, false, not, ◌&&◌, if◌then◌else◌, List, [], ◌∷◌}
use ls_dbg.Kernel.{Kernel, Outcome, einval}
use ls_dbg.TraceIp.{etm0, epu, vcount}
use ls_dbg.Debugfs.{Debugfs}
use ls_dbg.Probe.{Platform, Registry}
use ls_dbg.Module.{Bus, dcsr_module_init, dcsr_module_exit}
use ls_dbg.Client.{
  Locals, Process, Reply, go, failed, stuck, Program, go_on, ◌>>=◌, ◌>>◌, is_negative, fail_unless,
  returned, fails_with, assign, write_reg, vcount_vcntr_offset, vcount_64_test_val,
  resource_res_normal, resource_res_error, test_invalid_id, test_invalid_offset,
  test_invalid_buffer, test_invalid_regsize, test_simple_read, test_read_write_vcount,
}

-- The driver and the program between two tests
pub record Session (W : Type 0) : Type 0 where
  pub registry : Registry W
  pub errno : ℕ

-- The shell's commands `insmod` and `rmmod`, which call the module's init and exit functions and end
-- with a status; `open` and `close` of the device, with their results; `read` and `write` of it; and
-- what the calls of a test do if the device is not open.
pub record Shell (W : Type 0) : Type 0 where
  pub insmod : (Registry W → Outcome (Unit {0}) × Registry W) → Session W → ℕ × Session W
  pub rmmod : (Registry W → Registry W) → Session W → ℕ × Session W
  pub open_rdwr : Session W → ℕ × Session W
  pub close : Session W → ℕ × Session W
  pub read : ℕ → ℕ → Program W ℕ
  pub write : ℕ → ℕ → Program W ℕ
  pub astray : Session W → Session W

-- What a test returns, if it does
abbrev pub result : Reply (Unit {0}) → Reply Bool
result (go a) = go true
result failed = go false
result stuck = stuck

-- The verdict on one test before those on the rest
abbrev pub before :
    {W : Type 0} → Bool → Reply (List Bool) × Session W → Reply (List Bool) × Session W
before verdict (go rest, s) = (go (verdict ∷ rest), s)
before verdict (failed, s) = (failed, s)
before verdict (stuck, s) = (stuck, s)

module _ {W : Type 0} (k : Kernel W) (u : Locals W) where
  -- A write, and the assertion that follows it in the next test
  unfoldable pub write_any : ℕ → ℕ → ℕ → ℕ → Program W (Unit {0})
  unfolding write_reg
  write_any id offset buffer reg_size = do
    ret ← write_reg k u id offset buffer reg_size
    fail_unless (λ p. not (is_negative ret))

  -- `return ret` at the end of a test, as its caller takes it: 0 is a failure.
  unfoldable pub return_value : ℕ → Program W (Unit {0})
  return_value ret p = (if ret == 0 then failed else go tt, p)

  -- The function ends without a return statement: `left` stands for the value that its caller finds
  -- all the same.
  unfoldable pub test_simple_write : ℕ → Program W (Unit {0})
  unfolding write_any return_value
  test_simple_write left = do
    assign k u 4 u.val_at 0xC5ACCE55
    write_any etm0 0xfb0 u.val_at 32
    assign k u 4 u.val_at 0x3A5331AA
    write_any etm0 0xfb0 u.val_at 32
    assign k u 4 u.val_at 0xC5ACCE55
    write_any epu 0xa38 u.val_at 32
    assign k u 8 u.val64_at vcount_64_test_val
    write_any vcount (vcount_vcntr_offset 0) u.val64_at 64
    return_value left

  unfoldable pub test_open_close : Program W (Unit {0})
  test_open_close p = (go tt, p)

  module _ (p : Platform W) (d : Debugfs W) (b : Bus W) (sh : Shell W) where
    unfoldable pub test_read_write : Program W (Unit {0})
    test_read_write = do
      assign k u 4 u.val_at 0
      fails_with einval (sh.read u.val_at 4)
      fails_with einval (sh.write u.val_at 4)

    unfoldable pub insert_module : Session W → Bool × Session W
    insert_module s = let (status, s') = sh.insmod (dcsr_module_init k p d b) s in (status == 0, s')

    unfoldable pub remove_module : Session W → Bool × Session W
    remove_module s = let (status, s') = sh.rmmod (dcsr_module_exit k p d b) s in (status == 0, s')

    unfoldable pub test_setup : Session W → Bool × Session W
    unfolding insert_module
    test_setup s =
        let (inserted, s') = insert_module s in
        let (fd, s'') = sh.open_rdwr s' in
        if inserted then (not (is_negative fd), s'') else (false, s')

    unfoldable pub test_cleanup : Session W → Bool × Session W
    unfolding remove_module
    test_cleanup s =
        let (ret, s') = sh.close s in
        let (removed, s'') = remove_module s' in
        if is_negative ret then (false, s') else (removed, s'')

    -- A test on the driver as it stands
    unfoldable pub call_test : Program W (Unit {0}) → Session W → Reply Bool × Session W
    call_test t s =
        let (reply, q) = t (record { machine = s.registry.machine; errno = s.errno }) in
        (
          result reply,
          record { registry = record (s.registry) { machine = q.machine }; errno = q.errno },
        )

    -- After a test: cleaning up, and the rest. The test passes if no step failed.
    unfoldable pub finish :
        Bool
        → Reply Bool × Session W
        → (Session W → Reply (List Bool) × Session W)
        → Reply (List Bool) × Session W
    unfolding test_cleanup
    finish ready (go passed, s) rest =
        let (cleaned, s') = test_cleanup s in before (ready && passed && cleaned) (rest s')
    finish ready (failed, s) rest = (failed, s)
    finish ready (stuck, s) rest = (stuck, s)

    -- The verdicts on the tests, true for PASS
    unfoldable pub run_tests :
        List (Program W (Unit {0})) → Session W → Reply (List Bool) × Session W
    unfolding test_setup call_test finish
    run_tests [] s = (go [], s)
    run_tests (t ∷ ts) s =
        let (ready, s') = test_setup s in
        finish ready (if ready then call_test t s' else (go false, sh.astray s')) (run_tests ts)

    unfoldable pub all_tests : ℕ → List (Program W (Unit {0}))
    all_tests left =
        test_open_close
        ∷ resource_res_normal k u
        ∷ resource_res_error k u
        ∷ test_invalid_id k u
        ∷ test_invalid_offset k u
        ∷ test_invalid_buffer k u
        ∷ test_invalid_regsize k u
        ∷ test_read_write
        ∷ test_simple_write left
        ∷ test_simple_read k u
        ∷ test_read_write_vcount k u
        ∷ []
