-- ===== src/System/Race.antt =====
-- The handlers of two processors, between the read of the status and the section under the lock.
use ls_dbg.Prelude.{
  ℕ, ◌+◌, ◌%◌, ◌^◌, ◌<◌, ◌≡◌, ◌≢◌, ◌∙◌, refl, ap, sym, subst, true, false, arith, ◌==◌,
}
use ls_dbg.Bits.{bit}
use ls_dbg.Kernel.{Kernel, Machine, ok, vc_locked}
use ls_dbg.TraceIp.{epu, epctrisr_offset}
use ls_dbg.RegAccess.{read_reg_io}
use ls_dbg.RegAccess.Tables.{IsMapped, read_reg_io-mapped}
use ls_dbg.Vcounters.{handle_status}
use ls_dbg.Vcounters.Count.{next_count, vcntr}
use ls_dbg.Vcounters.Update.{update_vcounters-eq, update_vcounters_lem}
use ls_dbg.System.{Cores, Pc, Step, idle, handling, move, seen, handled, Reach, start, later}

module _ {W : Type 0} (k : Kernel W) where
  -- What a handler does with the status that it has read.
  record IsHandled (status : ℕ) (m n : Machine W) : Type 0 where
    counts :
        (j : ℕ)
        → j < 32
        → bit (status % 2 ^ 32) j ≡ 1
        → vcntr k n.ram j ≡ next_count (vcntr k m.ram j)
    maps : n.maps ≡ m.maps
    free : n.vc_lock ≡ false

  handle_status-IsHandled :
      (m : Machine W) (status : ℕ)
      → IsMapped k m.maps epu 0x1000
      → m.vc_lock ≡ false
      → status % 2 ^ 32 ≢ 0
      → IsHandled status m (handle_status k (ok status) m).1
  unfolding handle_status vc_locked
  handle_status-IsHandled m status v free nz =
      let t : (status % 2 ^ 32 == 0) ≡ false = ground arith in
      let c = status % 2 ^ 32 in
      let locked : Machine W = record m { vc_lock = true } in
      rw (t, free)
        (record {
          counts = λ j l b.
              let hit : (bit c j == 1) ≡ true = ground arith in
              (update_vcounters_lem k locked c v (omega arith)).1 j l ∙ rw hit refl;
          maps = rw (update_vcounters-eq k locked c v (omega arith)) refl;
          free = refl;
        })

  -- The handlers of processors 0 and 1 have read the status.
  abbrev pub both_pc : ℕ → ℕ → Pc
  both_pc status = move (move (λ i. idle) 0 (handling (ok status))) 1 (handling (ok status))

  both_seen :
      (m : Machine W) (status : ℕ) (w w' : W)
      → read_reg_io k epu epctrisr_offset m ≡ (ok status, record m { world = w })
      → read_reg_io k epu epctrisr_offset (record m { world = w })
        ≡ (ok status, record m { world = w' })
      → Reach k
          (record { machine = m; pc = λ i. idle })
          (record { machine = record m { world = w' }; pc = both_pc status })
  both_seen m status w w' one two =
      let first : Reach k (record { machine = m; pc = λ i. idle })
          (record {
            machine = record m { world = w };
            pc = move (λ i. idle) 0 (handling (ok status));
          }) =
        subst
          (λ r.
            Reach k (record { machine = m; pc = λ i. idle })
              (record { machine = r.1; pc = move (λ i. idle) 0 (handling r.0) }))
          one (later start (seen 0 refl)) in
      subst
        (λ r.
          Reach k (record { machine = m; pc = λ i. idle })
            (record {
              machine = r.1;
              pc = move (move (λ i. idle) 0 (handling (ok status))) 1 (handling r.0);
            }))
        two (later first (seen 1 refl))

  -- The handlers of processors 0 and 1 both read the same pending status, before either has taken the
  -- lock; then the one and the other does its section. The first counts each counter whose overflow
  -- was pending, and the second counts it again. The EPU is mapped, the lock free, and a read of the
  -- status does not clear it.
  pub counts_twice :
      (m : Machine W) (status j : ℕ) (w w' : W)
      → IsMapped k m.maps epu 0x1000
      → m.vc_lock ≡ false
      → k.ioread32 ((m.maps epu).base_addr + epctrisr_offset) m.world ≡ (status, w)
      → k.ioread32 ((m.maps epu).base_addr + epctrisr_offset) w ≡ (status, w')
      → status % 2 ^ 32 ≢ 0
      → j < 32
      → bit (status % 2 ^ 32) j ≡ 1
      → let both = both_pc status in
        let n : Machine W = record m { world = w' } in
        let n1 = (handle_status k (ok status) n).1 in
        let n2 = (handle_status k (ok status) n1).1 in
        let s : Cores W = record { machine = n; pc = both } in
        let s1 : Cores W = record { machine = n1; pc = move both 0 idle } in
        let s2 : Cores W = record { machine = n2; pc = move (move both 0 idle) 1 idle } in
        Reach k (record { machine = m; pc = λ i. idle }) s
        × Step k s s1
        × (vcntr k n1.ram j ≡ next_count (vcntr k m.ram j))
        × Step k s1 s2
        × (vcntr k n2.ram j ≡ next_count (next_count (vcntr k m.ram j)))
  counts_twice m status j w w' v free first second nz l set =
      let one : read_reg_io k epu epctrisr_offset m ≡ (ok status, record m { world = w }) =
        read_reg_io-mapped k m epu 0x1000 epctrisr_offset (omega arith) v (omega arith)
        ∙ ground arith in
      let two : read_reg_io k epu epctrisr_offset (record m { world = w })
          ≡ (ok status, record m { world = w' }) =
        read_reg_io-mapped k (record m { world = w }) epu 0x1000 epctrisr_offset (omega arith) v
          (omega arith)
        ∙ ground arith in
      let n : Machine W = record m { world = w' } in
      let once = handle_status-IsHandled n status v free nz in
      let twice =
        handle_status-IsHandled (handle_status k (ok status) n).1 status
          (subst (λ maps. IsMapped k maps epu 0x1000) (sym once.maps) v) once.free nz in
      (
        both_seen m status w w' one two,
        handled 0 (ok status) refl,
        once.counts j l set,
        handled 1 (ok status) refl,
        twice.counts j l set ∙ ap next_count (once.counts j l set),
      )
