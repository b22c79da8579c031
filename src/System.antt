-- ===== src/System.antt =====
-- The driver in use: the calls that the kernel and user programs make to it, through the interrupt,
-- the debugfs files of the virtual counters (the `fops_*` of ls-dbg/module/vir_cntrs.c) and the
-- character device, in any order, while the devices and the callers' memory change at will; the
-- interrupt handlers of several processors interleave with them.
pub mod Ready
pub mod Race
pub mod Sections
use ls_dbg.Prelude.{ℕ, ◌+◌, ◌*◌, ◌<◌, ◌≡◌, ◌==◌, if◌then◌else◌}
use ls_dbg.Kernel.{Kernel, Machine, Outcome, ok, err, hang}
use ls_dbg.TraceIp.{no_of_scu_events, epu, epctrisr_offset}
use ls_dbg.RegAccess.{read_reg_io}
use ls_dbg.Vcounters.{
  vcntr_at, vcntr_get, vcntr_set, vcntrepecr_offset, handle_status, cntr_overflow_interrupt,
}
use ls_dbg.Capture.{vcntepecr_get, vcntepecr_set}
use ls_dbg.Irq.{vcntrctrl_get, vcntrctrl_set}
use ls_dbg.Ioctl.{reg_access_ioctl}

pub data Call : Type 0 where
  interrupt : Call
  get_counter : ℕ → Call
  set_counter : ℕ → ℕ → Call
  get_event : (i : ℕ) → i < no_of_scu_events → Call
  set_event : (i : ℕ) → i < no_of_scu_events → ℕ → Call
  get_control : Call
  set_control : ℕ → Call
  ioctl : ℕ → ℕ → Call

-- The status of a call, without the value that it may give.
abbrev pub status : {W A : Type 0} → Outcome A × Machine W → Outcome (Unit {0}) × Machine W
status (ok a, m) = (ok tt, m)
status (err e, m) = (err e, m)
status (hang, m) = (hang, m)

-- Where a processor stands in `cntr_overflow_interrupt`: not in it, or with the status read.
pub data Pc : Type 0 where
  idle : Pc
  handling : Outcome ℕ → Pc

-- The driver on several processors. The sections under a lock are single steps.
pub record Cores (W : Type 0) : Type 0 where
  pub machine : Machine W
  pub pc : ℕ → Pc

abbrev pub move : {A : Type 0} → (ℕ → A) → ℕ → A → ℕ → A
move pc i p j = if i == j then p else pc j

module _ {W : Type 0} (k : Kernel W) where
  -- The address of `vcntrepecr[i]`, which its debugfs file passes as `data`
  abbrev pub event_at : ℕ → ℕ
  event_at i = k.vcnt_addr + vcntrepecr_offset + 4 * i

  unfoldable pub perform : Call → Machine W → Outcome (Unit {0}) × Machine W
  perform interrupt m = status (cntr_overflow_interrupt k m)
  perform (get_counter i) m = status (vcntr_get k (vcntr_at k i) m)
  perform (set_counter i val) m = vcntr_set k (vcntr_at k i) val m
  perform (get_event i l) m = status (vcntepecr_get k (event_at i) m)
  perform (set_event i l val) m = vcntepecr_set k (event_at i) val m
  perform get_control m = status (vcntrctrl_get k m)
  perform (set_control val) m = vcntrctrl_set k val m
  perform (ioctl cmd arg) m = reg_access_ioctl k cmd arg m

  -- A processor's handler reads the status without the lock, and takes the lock later: other
  -- processors run in between.
  pub data Step (s : Cores W) : Cores W → Type 0 where
    seen :
        (i : ℕ)
        → s.pc i ≡ idle
        → Step s (record {
          machine = (read_reg_io k epu epctrisr_offset s.machine).1;
          pc = move s.pc i (handling (read_reg_io k epu epctrisr_offset s.machine).0);
        })
    handled :
        (i : ℕ) (o : Outcome ℕ)
        → s.pc i ≡ handling o
        → Step s (record { machine = (handle_status k o s.machine).1; pc = move s.pc i idle })
    called : (c : Call) → Step s (record { machine = (perform c s.machine).1; pc = s.pc })
    -- All that lies outside the driver may change.
    elapsed : (w : W) → Step s (record { machine = record (s.machine) { world = w }; pc = s.pc })

  pub data Reach (s : Cores W) : Cores W → Type 0 where
    start : Reach s s
    later : {t u : Cores W} → Reach s t → Step t u → Reach s u
