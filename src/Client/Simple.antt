-- ===== src/Client/Simple.antt =====
-- The test program's test of reads, which looks at whether the wrapper's result is negative.
use ls_dbg.Prelude.{ℕ, ◌≡◌, refl}
use ls_dbg.Kernel.{Kernel, Machine}
use ls_dbg.TraceIp.{etm0, etr, etf0, cstf0, epu, vcount}
use ls_dbg.Ioctl.{reg_access_size, dbg_read_reg, reg_access_ioctl}
use ls_dbg.Fine.{kept}
use ls_dbg.Ioctl.Fine.{IsReady, reg_access_ioctl-IsFine}
use ls_dbg.System.Ready.{kept-IsReady}
use ls_dbg.Client.{
  Locals, Process, go, encode_reg_access, ioctl_with, read_reg, vcount_vcntr_offset, read_any,
  test_simple_read,
}
use ls_dbg.Client.Calls.{Leads, Passes, Passes-both, filled, answered}

module _ {W : Type 0} (k : Kernel W) (u : Locals W) where
  module _ (P : Machine W → Type 0) (still : (m n : Machine W) → kept n ≡ kept m → P m → P n)
      (ready : (m : Machine W) → P m → IsReady k m) where
    read_any-Passes :
        (id offset buffer reg_size : ℕ)
        → Passes k u (λ p. P p.machine) (read_any k u id offset buffer reg_size)
    unfolding Leads read_any read_reg ioctl_with
    read_any-Passes id offset buffer reg_size p h =
        let m =
          filled k u reg_access_size u.ra_at (encode_reg_access id offset buffer reg_size) p in
        let now : P m = still p.machine m refl h in
        let fine = reg_access_ioctl-IsFine k (dbg_read_reg k) u.ra_at m (ready m now) in
        answered P p.errno (reg_access_ioctl k (dbg_read_reg k) u.ra_at m) fine.ends
          (still m _ fine.keeps now)

    pub test_simple_read-Passes : Passes k u (λ p. P p.machine) (test_simple_read k u)
    unfolding test_simple_read
    test_simple_read-Passes =
        let both = Passes-both k u (λ p. P p.machine) in
        let any = read_any-Passes in
        both _ _ (any etm0 0xfcc u.val_at 32) (
          both _ _ (any etr 0xfcc u.val_at 32) (
            both _ _ (any etf0 0xfcc u.val_at 32) (
              both _ _ (any cstf0 0xfcc u.val_at 32) (
                both _ _ (any epu 0xa38 u.val_at 32) (
                  both _ _ (any vcount 0 u.val_at 32)
                    (any vcount (vcount_vcntr_offset 0) u.val64_at 64))))))

  -- With both locks free and the EPU mapped, the test of reads passes, whatever the driver answers.
  test_simple_read_passes :
      (p : Process W) → IsReady k p.machine → (test_simple_read k u p).0 ≡ go tt
  unfolding Leads
  test_simple_read_passes p ready =
      (test_simple_read-Passes (IsReady k) (kept-IsReady k) (λ m h. h) p ready).0
