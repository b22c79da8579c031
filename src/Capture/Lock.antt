-- ===== src/Capture/Lock.antt =====
-- Who gives `vc_lock` back: `vcntepecr_set` and the interrupt handler always, `vcntepecr_get` only
-- where its read succeeds.
use ls_dbg.Prelude.{
  ℕ, ◌+◌, ◌-◌, ◌*◌, ◌/◌, ◌%◌, ◌^◌, ◌≤◌, ◌<◌, ◌≡◌, ◌≢◌, false, true, refl, arith, ap, sym,
}
use ls_dbg.Memory.{store}
use ls_dbg.Kernel.{Kernel, IsKernel, Machine, ok, err, hang, vc_locked, neg, efault}
use ls_dbg.TraceIp.{epu, epecr_offset}
use ls_dbg.RegAccess.Tables.{IsMapped, read_reg_io-mapped, read_reg_io-beyond}
use ls_dbg.Vcounters.{vcntrepecr_offset, vcntr_offset}
use ls_dbg.Fine.{IsFine, ok-IsFine, vc_locked-IsFine}
use ls_dbg.Capture.{capture_event, vcntepecr_set, vcntepecr_get}
use ls_dbg.Capture.Fine.{capture_event-Fine}

module _ {W : Type 0} (k : Kernel W) where
  -- Started with the lock free, `vcntepecr_set` ends, with success or an error code, and the lock is
  -- free again: on every path, whatever the devices answer and whatever is mapped.
  pub vcntepecr_set_ends :
      (m : Machine W) (data_ptr val : ℕ)
      → m.vc_lock ≡ false
      → ((vcntepecr_set k data_ptr val m).0 ≢ hang)
        × ((vcntepecr_set k data_ptr val m).1.vc_lock ≡ false)
  unfolding vcntepecr_set vc_locked
  vcntepecr_set_ends m data_ptr val free = rw free (
    (capture_event-Fine k ((data_ptr - (k.vcnt_addr + vcntrepecr_offset)) / 4)
        (record m { vc_lock = true })).ends,
    refl,
  )

  pub vcntepecr_set-IsFine :
      (m : Machine W) (data_ptr val : ℕ)
      → m.vc_lock ≡ false
      → IsFine m (vcntepecr_set k data_ptr val m)
  unfolding vcntepecr_set
  vcntepecr_set-IsFine m data_ptr val free =
      vc_locked-IsFine (capture_event k ((data_ptr - (k.vcnt_addr + vcntrepecr_offset)) / 4)) m free
        (capture_event-Fine k ((data_ptr - (k.vcnt_addr + vcntrepecr_offset)) / 4))

  event_of : ℕ → ℕ
  event_of data_ptr = (data_ptr - (k.vcnt_addr + vcntrepecr_offset)) / 4

  get_mapped :
      (m : Machine W) (data_ptr v : ℕ) (w : W)
      → IsMapped k m.maps epu 0x1000
      → m.vc_lock ≡ false
      → data_ptr < k.vcnt_addr + vcntr_offset
      → k.ioread32 ((m.maps epu).base_addr + (epecr_offset + event_of data_ptr * 4)) m.world
        ≡ (v, w)
      → vcntepecr_get k data_ptr m ≡ (
        ok (v % 2 ^ 32),
        record m { ram = store 4 m.ram data_ptr (v % 2 ^ 32); vc_lock = false; world = w },
      )
  unfolding vcntepecr_get event_of
  get_mapped m data_ptr v w mapped free l e = rw (
    free,
    read_reg_io-mapped k (record m { vc_lock = true }) epu 0x1000
        (epecr_offset + event_of data_ptr * 4) (omega arith) mapped (omega arith),
    e,
  )

  -- A read of an event's register gives the lock back if the EPU is mapped.
  pub vcntepecr_get-IsFine :
      (m : Machine W) (data_ptr : ℕ)
      → IsMapped k m.maps epu 0x1000
      → m.vc_lock ≡ false
      → data_ptr < k.vcnt_addr + vcntr_offset
      → IsFine m (vcntepecr_get k data_ptr m)
  vcntepecr_get-IsFine m data_ptr mapped free l =
      rw (get_mapped m data_ptr _ _ mapped free l refl)
        (ok-IsFine m _ _ (ap (λ b. (m.maps, m.epu_ptr, b, m.reg_acc_lock)) (sym free)))

  -- A set that finds the lock held never returns.
  pub vcntepecr_set_held :
      (m : Machine W) (data_ptr val : ℕ)
      → m.vc_lock ≡ true
      → (vcntepecr_set k data_ptr val m).0 ≡ hang
  unfolding vcntepecr_set vc_locked
  vcntepecr_set_held m data_ptr val held = rw held

  -- A read of `vcntrepecr` whose EPU access fails returns the error with the lock still held, so
  -- that any later capture never returns. The failing access here is one beyond the mapped size.
  pub vcntepecr_get_keeps_lock :
      (m : Machine W) (data_ptr later val : ℕ)
      → IsKernel k
      → m.vc_lock ≡ false
      → (m.maps epu).size ≤ epecr_offset
      → let (r, m') = vcntepecr_get k data_ptr m in
        (r ≡ err (neg efault)) × (m'.vc_lock ≡ true) × ((vcntepecr_set k later val m').0 ≡ hang)
  unfolding vcntepecr_get
  vcntepecr_get_keeps_lock m data_ptr later val law free unmapped =
      let counter = (data_ptr - (k.vcnt_addr + vcntrepecr_offset)) / 4 in
      rw
        (
          free,
          read_reg_io-beyond k (record m { vc_lock = true }) epu (epecr_offset + counter * 4) law
              (omega arith) (omega arith),
        )
        (refl, refl, vcntepecr_set_held (record m { vc_lock = true }) later val refl)

  -- With the EPU mapped and the lock free, a read of `vcntrepecr[event]` gives the low word of
  -- EPECR[event], mirrors it in the virtual register, and leaves the lock free.
  vcntepecr_get_mirrors :
      (m : Machine W) (event v : ℕ) (w : W)
      → IsMapped k m.maps epu 0x1000
      → m.vc_lock ≡ false
      → event < 16
      → k.ioread32 ((m.maps epu).base_addr + (epecr_offset + event * 4)) m.world ≡ (v, w)
      → vcntepecr_get k (k.vcnt_addr + vcntrepecr_offset + event * 4) m ≡ (
        ok (v % 2 ^ 32),
        record m {
          ram = store 4 m.ram (k.vcnt_addr + vcntrepecr_offset + event * 4) (v % 2 ^ 32);
          world = w;
        },
      )
  unfolding vcntepecr_get
  vcntepecr_get_mirrors m event v w mapped free l e =
      let at : (k.vcnt_addr + vcntrepecr_offset + event * 4 - (k.vcnt_addr + vcntrepecr_offset)) / 4
          ≡ event =
        omega arith in
      rw (
        at,
        free,
        read_reg_io-mapped k (record m { vc_lock = true }) epu 0x1000 (epecr_offset + event * 4)
            (omega arith) mapped (omega arith),
        e,
      )
