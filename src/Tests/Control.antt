-- ===== src/Tests/Control.antt =====
-- The control register and the interrupt's binding on the board.
use ls_dbg.Prelude.{◌%◌, ◌^◌, ◌≡◌, refl, none, true, false, arith, ◌==◌, if◌then◌else◌}
use ls_dbg.Bits.{has}
use ls_dbg.Memory.{Memory, load}
use ls_dbg.Kernel.{Kernel, Machine, ok, err, neg, ebusy}
use ls_dbg.Irq.{ls_dbg_epu_bind_irq, vcntrctrl_set, vcntr_enable_mask, epccr_on}
use ls_dbg.Irq.Bind.{set_epccrs, looked_up, bind_cases, enable_twice}
use ls_dbg.Tests.Board.{board, epu_base, machine, epu-IsMapped}

abbrev off : Machine Memory
off = record machine { ram = λ x. 2; intr_num = 0 }

-- The interrupt is found and granted; found and refused; not found.
abbrev granting : Kernel Memory
granting = board 9 0 none

abbrev refusing : Kernel Memory
refusing = board 9 (neg ebusy) none

abbrev missing : Kernel Memory
missing = board 0 0 none

abbrev cleared : Kernel Memory → Memory
cleared k = (looked_up k off).1

bind_cases_example : ls_dbg_epu_bind_irq granting off ≡ (
    if 9 == 0
    then (ok tt, record off { world = cleared granting; intr_num = 9 })
    else if 0 == 0
    then (
      ok tt,
      record off {
        world = set_epccrs granting epu_base 32 0 epccr_on (cleared granting);
        intr_num = 9;
      },
    )
    else (err 0, record off { world = cleared granting; intr_num = 9 }))
bind_cases_example =
    bind_cases granting off 9 0 (cleared granting) (cleared granting) (epu-IsMapped 9 0 none) refl
      refl

off_enable : has (load 4 off.ram 0x8000) vcntr_enable_mask ≡ false
unfolding load has
off_enable = refl

on_enable : has (1 % 2 ^ 32) vcntr_enable_mask ≡ true
unfolding has
on_enable = refl

enable_twice_example :
    let (r, m') = vcntrctrl_set refusing 1 off in
    let (again, m'') = vcntrctrl_set refusing 1 m' in
    (r ≡ err (neg ebusy)) × (again ≡ ok tt) × (m''.world ≡ cleared refusing)
enable_twice_example =
    enable_twice refusing off 1 9 (neg ebusy) (cleared refusing) (cleared refusing)
      (epu-IsMapped 9 (neg ebusy) none) refl (omega arith) refl (omega arith) off_enable on_enable
