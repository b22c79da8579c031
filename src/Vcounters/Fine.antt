-- ===== src/Vcounters/Fine.antt =====
-- The register accesses, the update of the counters and the interrupt handler end and keep the
-- driver's tables and locks, whatever the devices do.
use ls_dbg.Prelude.{ℕ, ◌%◌, ◌^◌, ◌<◌, ◌≡◌, ◌∙◌, false, refl, arith, ap, ◌==◌}
use ls_dbg.Kernel.{Kernel, Machine, Outcome, ok, err, hang, vc_locked}
use ls_dbg.TraceIp.{epu, epctrisr_offset}
use ls_dbg.Fine.{
  IsFine, Fine, and_then-IsFine, if-IsFine, ok-IsFine, err-IsFine, done-IsFine, shift_loop-Fine,
  vc_locked-IsFine,
}
use ls_dbg.RegAccess.{read_reg_io, write_reg_io}
use ls_dbg.Vcounters.{
  v_counter_inc, overflow_counter, shift_overflows, update_vcounters, after_update, handle_status,
  cntr_overflow_interrupt, irq_none, irq_handled,
}

module _ {W : Type 0} (k : Kernel W) where
  pub read_reg_io-Fine : (id off : ℕ) → Fine (read_reg_io k id off)
  unfolding read_reg_io
  read_reg_io-Fine id off m = if-IsFine m _ _ _ (err-IsFine m _ _ refl) (ok-IsFine m _ _ refl)

  pub write_reg_io-Fine : (id off val : ℕ) → Fine (write_reg_io k id off val)
  unfolding write_reg_io
  write_reg_io-Fine id off val m = if-IsFine m _ _ _ (err-IsFine m _ _ refl) (ok-IsFine m _ _ refl)

  v_counter_inc-Fine : (i : ℕ) → Fine (v_counter_inc k i)
  unfolding v_counter_inc
  v_counter_inc-Fine i m = if-IsFine m _ _ _ (ok-IsFine m _ _ refl) (ok-IsFine m _ _ refl)

  overflow_counter-Fine : (i : ℕ) → Fine (overflow_counter k i)
  unfolding overflow_counter
  overflow_counter-Fine i m =
      and_then-IsFine m _ _ (v_counter_inc-Fine i m) (λ a. write_reg_io-Fine _ _ _)

  shift_overflows-Fine : (c : ℕ) → c < 2 ^ 32 → Fine (shift_overflows k c)
  unfolding shift_overflows
  shift_overflows-Fine c h m =
      and_then-IsFine m _ _ (shift_loop-Fine (overflow_counter k) overflow_counter-Fine 32 0 c h m)
        (λ i n. done-IsFine n tt)

  pub update_vcounters-Fine : (c : ℕ) → c < 2 ^ 32 → Fine (update_vcounters k c)
  unfolding update_vcounters
  update_vcounters-Fine c h m =
      and_then-IsFine m _ _ (write_reg_io-Fine _ _ _ m) (λ a. shift_overflows-Fine c h)

  after_update-IsFine :
      (m : Machine W) (r : Outcome (Unit {0}) × Machine W)
      → IsFine m r
      → IsFine m (after_update k r.0, r.1)
  unfolding after_update
  after_update-IsFine m (ok a, n) h = ok-IsFine m n irq_handled h.keeps
  after_update-IsFine m (err e, n) h = ok-IsFine m n irq_handled h.keeps
  after_update-IsFine m (hang, n) h = absurd (h.ends refl)

  pub handle_status-IsFine :
      (m : Machine W) (r : Outcome ℕ × Machine W)
      → r.1.vc_lock ≡ false
      → IsFine m r
      → IsFine m (handle_status k r.0 r.1)
  unfolding handle_status
  handle_status-IsFine m (ok val, n) free h =
      let update =
        vc_locked-IsFine (update_vcounters k (val % 2 ^ 32)) n free
          (update_vcounters-Fine (val % 2 ^ 32) (omega arith)) in
      let handled =
        after_update-IsFine n (vc_locked (update_vcounters k (val % 2 ^ 32)) n) update in
      if-IsFine m (val % 2 ^ 32 == 0) _ _ (ok-IsFine m n irq_none h.keeps)
        (record { ends = handled.ends; keeps = handled.keeps ∙ h.keeps })
  handle_status-IsFine m (err e, n) free h = ok-IsFine m n irq_handled h.keeps
  handle_status-IsFine m (hang, n) free h = absurd (h.ends refl)

  pub cntr_overflow_interrupt-IsFine :
      (m : Machine W) → m.vc_lock ≡ false → IsFine m (cntr_overflow_interrupt k m)
  unfolding cntr_overflow_interrupt
  cntr_overflow_interrupt-IsFine m free =
      let seen = read_reg_io-Fine epu epctrisr_offset m in
      handle_status-IsFine m (read_reg_io k epu epctrisr_offset m) (ap (λ t. t.2) seen.keeps ∙ free)
        seen
