-- ===== src/Irq/Bind.antt =====
-- Binding and unbinding the overflow interrupt through `vcntctrl`.
use ls_dbg.Prelude.{
  ℕ, zero, suc, ◌+◌, ◌*◌, ◌%◌, ◌^◌, ◌≤◌, ◌<◌, ◌≡◌, ◌≢◌, false, true, refl, arith, ◌==◌,
  if◌then◌else◌, ◌∙◌, inl, inr, Bool-cases, ap,
}
use native.Mathlib.Decide.{ℕ_discrete}
use native.Mathlib.Nat.{mod-eq_of_lt}
use ls_dbg.Bits.{has}
use ls_dbg.Memory.{load, store, load-store_self}
use ls_dbg.Kernel.{Kernel, Machine, ok, err}
use ls_dbg.TraceIp.{epu, epctrisr_offset, epccr_offset}
use ls_dbg.RegAccess.Tables.{IsMapped, write_reg_io-mapped}
use ls_dbg.Irq.{
  write_epccrs, ls_dbg_epu_bind_irq, ls_dbg_epu_unbind_irq, switch_irq, vcntrctrl_set, bind_num,
  epccr_on, vcntr_enable_mask,
}

module _ {W : Type 0} (k : Kernel W) where
  -- One value written to the EPCCR of `n` counters from counter `i` on, in ascending order.
  unfoldable pub set_epccrs : ℕ → ℕ → ℕ → ℕ → W → W
  set_epccrs base zero i val w = w
  set_epccrs base (suc n) i val w =
      set_epccrs base n (i + 1) val (k.iowrite32 val (base + (epccr_offset + i * 4)) w)

  write_epccrs-mapped :
      (n i val : ℕ) (m : Machine W)
      → IsMapped k m.maps epu 0x1000
      → i + n ≤ 32
      → val < 2 ^ 32
      → write_epccrs k n i val m
        ≡ (ok tt, record m { world = set_epccrs (m.maps epu).base_addr n i val m.world })
  unfolding write_epccrs set_epccrs
  write_epccrs-mapped zero i val m v l h = refl
  write_epccrs-mapped (suc n) i val m v l h =
      rw
        (
          write_reg_io-mapped k m epu 0x1000 (epccr_offset + i * 4) val (omega arith) v
              (omega arith),
          mod-eq_of_lt h,
        )
        (write_epccrs-mapped n (i + 1) val _ v (omega arith) h)

  -- The interrupt's start: status cleared, interrupt looked up, and, if there is one, flagged valid,
  -- requested and switched on at all 32 counters.
  abbrev pub looked_up : Machine W → ℕ × W
  looked_up m =
      k.irq_of_parse_and_map
        (k.iowrite32 0xffffffff ((m.maps epu).base_addr + epctrisr_offset) m.world)

  bind_start :
      (m : Machine W) (num : ℕ) (w : W)
      → IsMapped k m.maps epu 0x1000
      → looked_up m ≡ (num, w)
      → ls_dbg_epu_bind_irq k m ≡ bind_num k num (record m { world = w; intr_num = num })
  unfolding ls_dbg_epu_bind_irq
  bind_start m num w v e = rw (
    write_reg_io-mapped k m epu 0x1000 epctrisr_offset 0xffffffff (omega arith) v (omega arith),
    e,
  )

  bind_none : (num : ℕ) (m : Machine W) → num ≡ 0 → bind_num k num m ≡ (ok tt, m)
  unfolding bind_num
  bind_none num m z = let t : (num == 0) ≡ true = ground arith in rw t

  bind_refused :
      (num ret : ℕ) (m : Machine W) (w' : W)
      → num ≢ 0
      → k.request_irq num (k.set_irq_flags num m.world) ≡ (ret, w')
      → ret ≢ 0
      → bind_num k num m ≡ (err ret, record m { world = w' })
  unfolding bind_num
  bind_refused num ret m w' ne e bad =
      let t : (num == 0) ≡ false = ground arith in
      let u : (ret == 0) ≡ false = ground arith in rw (t, e, u)

  bind_granted :
      (num : ℕ) (m : Machine W) (w' : W)
      → IsMapped k m.maps epu 0x1000
      → num ≢ 0
      → k.request_irq num (k.set_irq_flags num m.world) ≡ (0, w')
      → bind_num k num m
        ≡ (ok tt, record m { world = set_epccrs (m.maps epu).base_addr 32 0 epccr_on w' })
  unfolding bind_num
  bind_granted num m w' v ne e =
      let t : (num == 0) ≡ false = ground arith in
      rw (t, e)
        (write_epccrs-mapped 32 0 epccr_on (record m { world = w' }) v (omega arith) (omega arith))

  bind_asked :
      (num ret : ℕ) (m : Machine W) (w' : W)
      → IsMapped k m.maps epu 0x1000
      → num ≢ 0
      → k.request_irq num (k.set_irq_flags num m.world) ≡ (ret, w')
      → bind_num k num m ≡ (
          if ret == 0
          then (ok tt, record m { world = set_epccrs (m.maps epu).base_addr 32 0 epccr_on w' })
          else (err ret, record m { world = w' }))
  bind_asked num ret m w' v ne q = elim (ℕ_discrete ret 0) [
    | yes z ↦
        let t : (ret == 0) ≡ true = ground arith in
        rw t (bind_granted num m w' v ne (q ∙ ap (λ r. (r, w')) z))
    | no bad ↦
        let t : (ret == 0) ≡ false = ground arith in rw t (bind_refused num ret m w' ne q bad)
  ]

  -- With the EPU mapped, binding clears the overflow status and looks the interrupt up. If the
  -- device tree has none, it returns success with nothing bound. If the request is refused, it
  -- returns that error, and no counter is switched on. If it is granted, EPCCR of all 32 counters is
  -- written, in ascending order, with the interrupt action and the enable bit, and it returns
  -- success. The interrupt's number is noted in all three cases.
  pub bind_cases :
      (m : Machine W) (num ret : ℕ) (w w' : W)
      → IsMapped k m.maps epu 0x1000
      → looked_up m ≡ (num, w)
      → k.request_irq num (k.set_irq_flags num w) ≡ (ret, w')
      → ls_dbg_epu_bind_irq k m ≡ (
          if num == 0
          then (ok tt, record m { world = w; intr_num = num })
          else if ret == 0
          then (
            ok tt,
            record m { world = set_epccrs (m.maps epu).base_addr 32 0 epccr_on w'; intr_num = num },
          )
          else (err ret, record m { world = w'; intr_num = num }))
  bind_cases m num ret w w' v e q =
      let start = bind_start m num w v e in
      elim (ℕ_discrete num 0) [
        | yes z ↦
            let t : (num == 0) ≡ true = ground arith in
            rw t (start ∙ bind_none num (record m { world = w; intr_num = num }) z)
        | no ne ↦
            let t : (num == 0) ≡ false = ground arith in
            rw t (start ∙ bind_asked num ret (record m { world = w; intr_num = num }) w' v ne q)
      ]

  -- Unbinding with the EPU mapped writes 0 to EPCCR of all 32 counters, then waits for pending work
  -- and frees the interrupt if one is noted, and returns success with none noted.
  pub unbind_lem :
      (m : Machine W)
      → IsMapped k m.maps epu 0x1000
      → let off = set_epccrs (m.maps epu).base_addr 32 0 0 m.world in
        ls_dbg_epu_unbind_irq k m ≡ (
          ok tt,
          record m {
            world =
                if m.intr_num == 0 then off else k.free_irq m.intr_num (k.flush_scheduled_work off);
            intr_num = 0;
          },
        )
  unfolding ls_dbg_epu_unbind_irq
  unbind_lem m v = rw (write_epccrs-mapped 32 0 0 m v (omega arith) (omega arith)) (ground arith)

  -- `vcntctrl`
  abbrev pub control : Machine W → ℕ
  control m = load 4 m.ram k.vcnt_addr

  -- A write that leaves the enable bit as it is stores the value and calls nothing.
  pub set_same_enable :
      (m : Machine W) (val : ℕ)
      → has (control m) vcntr_enable_mask ≡ has (val % 2 ^ 32) vcntr_enable_mask
      → vcntrctrl_set k val m ≡ (ok tt, record m { ram = store 4 m.ram k.vcnt_addr (val % 2 ^ 32) })
  unfolding vcntrctrl_set switch_irq
  set_same_enable m val e = elim (Bool-cases (has (val % 2 ^ 32) vcntr_enable_mask)) [
    | inl t ↦ rw (e, t)
    | inr f ↦ rw (e, f)
  ]

  -- Enabling when the device tree has no interrupt succeeds, and the control register says enabled,
  -- although no interrupt is bound.
  pub enable_without_irq :
      (m : Machine W) (val : ℕ) (w : W)
      → IsMapped k m.maps epu 0x1000
      → looked_up m ≡ (0, w)
      → has (control m) vcntr_enable_mask ≡ false
      → has (val % 2 ^ 32) vcntr_enable_mask ≡ true
      → let (r, m') = vcntrctrl_set k val m in
        (r ≡ ok tt)
        × (has (control m') vcntr_enable_mask ≡ true)
        × (m'.intr_num ≡ 0)
        × (m'.world ≡ w)
  unfolding vcntrctrl_set switch_irq
  enable_without_irq m val w v e off on =
      rw
        (
          on,
          off,
          bind_start m 0 w v e,
          bind_none 0 (record m { world = w; intr_num = 0 }) refl,
          load-store_self 4 m.ram k.vcnt_addr (val % 2 ^ 32) (omega arith),
        )
        (refl, on, refl, refl)

  enable_refused :
      (m : Machine W) (val num ret : ℕ) (w w' : W)
      → IsMapped k m.maps epu 0x1000
      → looked_up m ≡ (num, w)
      → num ≢ 0
      → k.request_irq num (k.set_irq_flags num w) ≡ (ret, w')
      → ret ≢ 0
      → has (control m) vcntr_enable_mask ≡ false
      → has (val % 2 ^ 32) vcntr_enable_mask ≡ true
      → vcntrctrl_set k val m ≡ (
        err ret,
        record m { ram = store 4 m.ram k.vcnt_addr (val % 2 ^ 32); world = w'; intr_num = num },
      )
  unfolding vcntrctrl_set switch_irq
  enable_refused m val num ret w w' v e ne q bad off on = rw (
    on,
    off,
    bind_start m num w v e,
    bind_refused num ret (record m { world = w; intr_num = num }) w' ne q bad,
  )

  -- Enabling when the request for the interrupt is refused reports the error, yet the control
  -- register says enabled; enabling again then succeeds without a new request.
  pub enable_twice :
      (m : Machine W) (val num ret : ℕ) (w w' : W)
      → IsMapped k m.maps epu 0x1000
      → looked_up m ≡ (num, w)
      → num ≢ 0
      → k.request_irq num (k.set_irq_flags num w) ≡ (ret, w')
      → ret ≢ 0
      → has (control m) vcntr_enable_mask ≡ false
      → has (val % 2 ^ 32) vcntr_enable_mask ≡ true
      → let (r, m') = vcntrctrl_set k val m in
        let (again, m'') = vcntrctrl_set k val m' in
        (r ≡ err ret) × (again ≡ ok tt) × (m''.world ≡ w')
  enable_twice m val num ret w w' v e ne q bad off on =
      let first = enable_refused m val num ret w w' v e ne q bad off on in
      let n : Machine W = record m {
        ram = store 4 m.ram k.vcnt_addr (val % 2 ^ 32);
        world = w';
        intr_num = num;
      } in
      let stored : control n ≡ val % 2 ^ 32 =
        load-store_self 4 m.ram k.vcnt_addr (val % 2 ^ 32) (omega arith) in
      rw (first, set_same_enable n val (ap (λ c. has c vcntr_enable_mask) stored))
        (refl, refl, refl)
