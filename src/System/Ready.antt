-- ===== src/System/Ready.antt =====
-- What the calls to a loaded driver need of the machine and leave of it.
use ls_dbg.Prelude.{ℕ, ◌≡◌, ◌≢◌, refl, ap, sym, ◌∙◌, subst, arith}
use ls_dbg.Kernel.{Kernel, Machine, Outcome, ok, err, hang}
use ls_dbg.TraceIp.{epu, epctrisr_offset}
use ls_dbg.Fine.{kept, IsFine, ok-IsFine, err-IsFine}
use ls_dbg.RegAccess.Tables.{IsMapped}
use ls_dbg.Vcounters.{handle_status}
use ls_dbg.Vcounters.Fine.{read_reg_io-Fine, handle_status-IsFine, cntr_overflow_interrupt-IsFine}
use ls_dbg.Capture.Lock.{vcntepecr_get-IsFine, vcntepecr_set-IsFine}
use ls_dbg.Irq.{vcntrctrl_get}
use ls_dbg.Irq.Fine.{vcntrctrl_set-Fine}
use ls_dbg.Ioctl.Fine.{IsReady, reg_access_ioctl-IsFine}
use ls_dbg.System.{
  Call, interrupt, get_counter, set_counter, get_event, set_event, get_control, set_control, ioctl,
  status, perform, Cores, Step, seen, handled, called, elapsed, Reach, start, later,
}

status-IsFine :
    {W A : Type 0} (m : Machine W) (r : Outcome A × Machine W) → IsFine m r → IsFine m (status r)
status-IsFine m (ok a, n) h = ok-IsFine m n tt h.keeps
status-IsFine m (err e, n) h = err-IsFine m n e h.keeps
status-IsFine m (hang, n) h = absurd (h.ends refl)

module _ {W : Type 0} (k : Kernel W) where
  perform-IsFine : (c : Call) (m : Machine W) → IsReady k m → IsFine m (perform k c m)
  unfolding perform vcntrctrl_get
  perform-IsFine interrupt m r = status-IsFine m _ (cntr_overflow_interrupt-IsFine k m r.vc_free)
  perform-IsFine (get_counter i) m r = ok-IsFine m m tt refl
  perform-IsFine (set_counter i val) m r = ok-IsFine m _ tt refl
  perform-IsFine (get_event i l) m r =
      status-IsFine m _ (vcntepecr_get-IsFine k m _ r.epu_mapped r.vc_free (omega arith))
  perform-IsFine (set_event i l val) m r = vcntepecr_set-IsFine k m _ val r.vc_free
  perform-IsFine get_control m r = ok-IsFine m m tt refl
  perform-IsFine (set_control val) m r = vcntrctrl_set-Fine k val m
  perform-IsFine (ioctl cmd arg) m r = reg_access_ioctl-IsFine k cmd arg m r

  -- A call keeps the map of the EPU, and leaves the locks free.
  pub kept-IsReady : (m n : Machine W) → kept n ≡ kept m → IsReady k m → IsReady k n
  kept-IsReady m n e r = record {
    epu_mapped = subst (λ maps. IsMapped k maps epu 0x1000) (sym (ap (λ t. t.0) e)) r.epu_mapped;
    vc_free = ap (λ t. t.2) e ∙ r.vc_free;
    reg_acc_free = ap (λ t. t.3) e ∙ r.reg_acc_free;
  }

  handled_keeps :
      (o : Outcome ℕ) (m : Machine W) → IsReady k m → kept (handle_status k o m).1 ≡ kept m
  unfolding handle_status
  handled_keeps (ok v) m r =
      (handle_status-IsFine k m (ok v, m) r.vc_free (ok-IsFine m m v refl)).keeps
  handled_keeps (err e) m r =
      (handle_status-IsFine k m (err e, m) r.vc_free (err-IsFine m m e refl)).keeps
  handled_keeps hang m r = refl

  Step-IsReady : {s t : Cores W} → Step k s t → IsReady k s.machine → IsReady k t.machine
  Step-IsReady {s} (seen i e) r =
      kept-IsReady s.machine _ (read_reg_io-Fine k epu epctrisr_offset s.machine).keeps r
  Step-IsReady {s} (handled i o e) r = kept-IsReady s.machine _ (handled_keeps o s.machine r) r
  Step-IsReady {s} (called c) r = kept-IsReady s.machine _ (perform-IsFine c s.machine r).keeps r
  Step-IsReady {s} (elapsed w) r = kept-IsReady s.machine _ refl r

  -- From a machine with both locks free and the EPU mapped, any calls, with any arguments, any
  -- interleaving of interrupt handlers, and any changes of the world lead to such a machine again.
  pub Reach-IsReady : {s t : Cores W} → IsReady k s.machine → Reach k s t → IsReady k t.machine
  Reach-IsReady r start = r
  Reach-IsReady r (later h st) = Step-IsReady st (Reach-IsReady r h)

  -- Nor does anything hang there: each call ends, with success or an error code, and so does each
  -- handler that has read its status.
  pub Reach-ends :
      {s t : Cores W} (c : Call) (v : ℕ)
      → IsReady k s.machine
      → Reach k s t
      → ((perform k c t.machine).0 ≢ hang) × ((handle_status k (ok v) t.machine).0 ≢ hang)
  Reach-ends {t = t} c v r h =
      let now = Reach-IsReady r h in
      (
        (perform-IsFine c t.machine now).ends,
        (handle_status-IsFine k t.machine (ok v, t.machine) now.vc_free
            (ok-IsFine t.machine t.machine v refl)).ends,
      )
