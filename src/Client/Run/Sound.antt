-- ===== src/Client/Run/Sound.antt =====
-- The test program's tests on a driver that can serve: what they need of it and leave of it.
use ls_dbg.Prelude.{ℕ, ◌≡◌, ◌≢◌, ◌∙◌, Bool-cases, inl, inr, ◌==◌, refl, false, arith, if◌then◌else◌}
use ls_dbg.Kernel.{Kernel, neg, einval}
use ls_dbg.TraceIp.{etm0, epu, vcount}
use ls_dbg.Ioctl.{reg_access_size, dbg_write_reg, reg_access_ioctl}
use ls_dbg.Ioctl.Fine.{reg_access_ioctl-IsFine}
use ls_dbg.Debugfs.{Debugfs}
use ls_dbg.Probe.{Platform}
use ls_dbg.Module.{Bus}
use ls_dbg.Client.{
  Locals, Process, Reply, go, failed, stuck, Program, go_on, ◌>>◌, assign, test_simple_read,
  ioctl_with, write_reg, encode_reg_access, fails_with, vcount_vcntr_offset, vcount_64_test_val,
}
use ls_dbg.Client.Calls.{Leads, Passes, Passes-both, filled, answered}
use ls_dbg.Client.Simple.{test_simple_read-Passes}
use ls_dbg.Client.Run.{
  Shell, write_any, return_value, test_simple_write, test_open_close, test_read_write,
}
use ls_dbg.Client.Run.Fresh.{IsShell, IsServing, kept-IsServing}

module _ {W : Type 0} (k : Kernel W) (u : Locals W) where
  abbrev pub Serving : Process W → Type 0
  Serving q = IsServing k q.machine

  assign-Passes : (n addr val : ℕ) → Passes k u Serving (assign k u n addr val)
  unfolding Leads assign
  assign-Passes n addr val q h = (refl, kept-IsServing k q.machine _ refl h)

  write_any-Passes :
      (id offset buffer reg_size : ℕ) → Passes k u Serving (write_any k u id offset buffer reg_size)
  unfolding Leads write_any write_reg ioctl_with
  write_any-Passes id offset buffer reg_size q h =
      let m = filled k u reg_access_size u.ra_at (encode_reg_access id offset buffer reg_size) q in
      let now : IsServing k m = kept-IsServing k q.machine m refl h in
      let fine = reg_access_ioctl-IsFine k (dbg_write_reg k) u.ra_at m now.ready in
      answered (IsServing k) q.errno (reg_access_ioctl k (dbg_write_reg k) u.ra_at m) fine.ends
        (kept-IsServing k m _ fine.keeps now)

  -- What holds of every result of a program holds after a test that passes.
  go_on_sound :
      (Q : Reply (Unit {0}) × Process W → Type 0) (r : Reply (Unit {0}) × Process W)
      (v : Program W (Unit {0}))
      → r.0 ≡ go tt
      → Q (v r.1)
      → Q (go_on r (λ s. v))
  go_on_sound Q (go a, q) v e h = h
  go_on_sound Q (failed, q) v e h = absurd (cc)
  go_on_sound Q (stuck, q) v e h = absurd (cc)

  then_sound :
      (Q : Reply (Unit {0}) × Process W → Type 0) (t v : Program W (Unit {0}))
      → Passes k u Serving t
      → ((q : Process W) → Serving q → Q (v q))
      → (q : Process W) → Serving q
      → Q ((t >> v) q)
  unfolding Leads
  then_sound Q t v sound next q h =
      let (e, still) = sound q h in go_on_sound Q (t q) v e (next (t q).1 still)

  put_then :
      (Q : Reply (Unit {0}) × Process W → Type 0) (n addr val : ℕ) {v : Program W (Unit {0})}
      → ((q : Process W) → Serving q → Q (v q))
      → (q : Process W) → Serving q
      → Q ((assign k u n addr val >> v) q)
  put_then Q n addr val next = then_sound Q _ _ (assign-Passes n addr val) next

  write_then :
      (Q : Reply (Unit {0}) × Process W → Type 0) (id offset buffer reg_size : ℕ)
      {v : Program W (Unit {0})}
      → ((q : Process W) → Serving q → Q (v q))
      → (q : Process W) → Serving q
      → Q ((write_any k u id offset buffer reg_size >> v) q)
  write_then Q id offset buffer reg_size next =
      then_sound Q _ _ (write_any-Passes id offset buffer reg_size) next

  -- With the EPU and the virtual counters mapped and the locks free, the test of writes returns, its
  -- assertions hold whatever the driver answers, and the verdict is decided by the value that the
  -- caller finds in place of a result.
  pub test_simple_write_undecided :
      (left : ℕ) (q : Process W)
      → IsServing k q.machine
      → ((test_simple_write k u left q).0 ≡ (if left == 0 then failed else go tt))
        × IsServing k (test_simple_write k u left q).1.machine
  unfolding test_simple_write return_value
  test_simple_write_undecided left =
      let Q : Reply (Unit {0}) × Process W → Type 0 =
        λ r. (r.0 ≡ (if left == 0 then failed else go tt)) × Serving r.1 in
      put_then Q 4 u.val_at 0xC5ACCE55 (
        write_then Q etm0 0xfb0 u.val_at 32 (
          put_then Q 4 u.val_at 0x3A5331AA (
            write_then Q etm0 0xfb0 u.val_at 32 (
              put_then Q 4 u.val_at 0xC5ACCE55 (
                write_then Q epu 0xa38 u.val_at 32 (
                  put_then Q 8 u.val64_at vcount_64_test_val (
                    write_then Q vcount (vcount_vcntr_offset 0) u.val64_at 64 (λ q h.
                      elim (Bool-cases (left == 0)) [
                        | inl t ↦ rw t (refl, h)
                        | inr f ↦ rw f (refl, h)
                      ]))))))))

  pub test_simple_write-Passes :
      (left : ℕ) → left ≢ 0 → Passes k u Serving (test_simple_write k u left)
  unfolding Leads
  test_simple_write-Passes left ne q h =
      let f : (left == 0) ≡ false = ground arith in
      let (e, still) = test_simple_write_undecided left q h in (e ∙ rw f refl, still)

  pub test_open_close-Passes : Passes k u Serving (test_open_close k u)
  unfolding Leads test_open_close
  test_open_close-Passes q h = (refl, h)

  pub test_simple_read-Serving : Passes k u Serving (test_simple_read k u)
  test_simple_read-Serving =
      test_simple_read-Passes k u (IsServing k) (kept-IsServing k) (λ m h. h.ready)

  refused-Passes :
      (call : Program W ℕ)
      → ((q : Process W) → call q ≡ (go (neg 1), record q { errno = einval }))
      → Passes k u Serving (fails_with einval call)
  unfolding Leads fails_with
  refused-Passes call e q h = rw (e q) (refl, h)

  module _ (p : Platform W) (d : Debugfs W) (b : Bus W) (sh : Shell W) (law : IsShell sh) where
    pub test_read_write-Passes : Passes k u Serving (test_read_write k u p d b sh)
    unfolding test_read_write
    test_read_write-Passes =
        let both = Passes-both k u Serving in
        both _ _ (assign-Passes 4 u.val_at 0) (
          both _ _ (refused-Passes (sh.read u.val_at 4) (law.read_refused u.val_at 4))
            (refused-Passes (sh.write u.val_at 4) (law.write_refused u.val_at 4)))
