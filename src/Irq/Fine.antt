-- ===== src/Irq/Fine.antt =====
-- The control register's calls end and keep the driver's tables and locks, whatever the devices and
-- the kernel's interrupt tables do.
use ls_dbg.Prelude.{ℕ, zero, suc, ◌+◌, ◌%◌, ◌^◌, refl, ◌≡◌, ◌∙◌, ◌==◌}
use ls_dbg.Bits.{has}
use ls_dbg.Memory.{load}
use ls_dbg.Kernel.{Kernel, Machine}
use ls_dbg.TraceIp.{no_of_counters}
use ls_dbg.Fine.{
  kept, kept-if, if-Fine, Fine, and_then-IsFine, if-IsFine, ok-IsFine, err-IsFine, done-IsFine,
}
use ls_dbg.Vcounters.Fine.{write_reg_io-Fine}
use ls_dbg.Irq.{
  write_epccrs, request, bind_num, map_irq, ls_dbg_epu_bind_irq, release_irq, ls_dbg_epu_unbind_irq,
  switch_irq, vcntrctrl_set, epccr_on, vcntr_enable_mask,
}

module _ {W : Type 0} (k : Kernel W) where
  write_epccrs-Fine : (n i val : ℕ) → Fine (write_epccrs k n i val)
  unfolding write_epccrs
  write_epccrs-Fine zero i val m = done-IsFine m tt
  write_epccrs-Fine (suc n) i val m =
      and_then-IsFine m _ _ (write_reg_io-Fine k _ _ _ m) (λ s. write_epccrs-Fine n (i + 1) val)

  request-Fine : (num : ℕ) → Fine (request k num)
  unfolding request
  request-Fine num m = if-IsFine m _ _ _ (ok-IsFine m _ tt refl) (err-IsFine m _ _ refl)

  bind_num-Fine : (num : ℕ) → Fine (bind_num k num)
  unfolding bind_num
  bind_num-Fine num =
      if-Fine (num == 0) _ _ (λ m. done-IsFine m tt)
        (λ m.
          and_then-IsFine m _ _ (request-Fine num m)
            (λ s. write_epccrs-Fine no_of_counters 0 epccr_on))

  bind-Fine : Fine (ls_dbg_epu_bind_irq k)
  unfolding ls_dbg_epu_bind_irq map_irq
  bind-Fine m =
      and_then-IsFine m _ _ (write_reg_io-Fine k _ _ _ m)
        (λ s n. and_then-IsFine n _ _ (ok-IsFine n _ _ refl) (λ num. bind_num-Fine num))

  release_irq-kept : (m : Machine W) → kept (release_irq k m) ≡ kept m
  unfolding release_irq
  release_irq-kept m = kept-if (m.intr_num == 0) m _ _ refl refl

  unbind-Fine : Fine (ls_dbg_epu_unbind_irq k)
  unfolding ls_dbg_epu_unbind_irq
  unbind-Fine m =
      let off = write_epccrs-Fine no_of_counters 0 0 m in
      record { ends = off.ends; keeps = release_irq-kept _ ∙ off.keeps }

  switch_irq-Fine : (old new : ℕ) → Fine (switch_irq k old new)
  unfolding switch_irq
  switch_irq-Fine old new =
      if-Fine (has new vcntr_enable_mask) _ _
        (if-Fine (has old vcntr_enable_mask) _ _ (λ m. done-IsFine m tt) bind-Fine)
        (if-Fine (has old vcntr_enable_mask) _ _ unbind-Fine (λ m. done-IsFine m tt))

  pub vcntrctrl_set-Fine : (val : ℕ) → Fine (vcntrctrl_set k val)
  unfolding vcntrctrl_set
  vcntrctrl_set-Fine val m =
      let inside = switch_irq-Fine (load 4 m.ram k.vcnt_addr) (val % 2 ^ 32) m in
      record { ends = inside.ends; keeps = inside.keeps }
