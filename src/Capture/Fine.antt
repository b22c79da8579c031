-- ===== src/Capture/Fine.antt =====
-- A capture ends and keeps the tables and locks, whatever the devices do.
use ls_dbg.Prelude.{ℕ, ◌%◌, ◌^◌, ◌<◌, ◌∙◌, refl, arith}
use ls_dbg.Kernel.{Kernel, Machine, Driver, Outcome, ok, err, hang, and_then, pure}
use ls_dbg.TraceIp.{epu}
use ls_dbg.Fine.{
  IsFine, Fine, and_then-IsFine, if-IsFine, ok-IsFine, err-IsFine, done-IsFine, shift_loop-Fine,
}
use ls_dbg.RegAccess.{read_reg_io}
use ls_dbg.Vcounters.{update_vcounters}
use ls_dbg.Vcounters.Fine.{read_reg_io-Fine, write_reg_io-Fine, update_vcounters-Fine}
use ls_dbg.Capture.{
  read_epu, save_capture, save_captures, record_capture, record_captures, note_overflow,
  prepend_count, last_cycle, late_overflows, capture_group, capture_event,
}

module _ {W : Type 0} (k : Kernel W) where
  -- What `read_epu` hands on is a 32-bit word.
  read_epu_then :
      {A : Type 0} (off : ℕ) (m : Machine W) (f : ℕ → Driver W A)
      → ((v : ℕ) → v < 2 ^ 32 → Fine (f v))
      → IsFine m (and_then (read_epu k off m) f)
  unfolding read_epu
  read_epu_then {A} off m f h = split (read_reg_io k epu off m) (read_reg_io-Fine k epu off m)
    where
      split :
          (r : Outcome ℕ × Machine W)
          → IsFine m r
          → IsFine m (and_then (and_then r (λ val. pure (val % 2 ^ 32))) f)
      split (ok val, n) g =
          let fine = h (val % 2 ^ 32) (omega arith) n in
          record { ends = fine.ends; keeps = fine.keeps ∙ g.keeps }
      split (err e, n) g = err-IsFine m n e g.keeps
      split (hang, n) g = absurd (g.ends refl)

  save_capture-Fine : (i : ℕ) → Fine (save_capture k i)
  unfolding save_capture
  save_capture-Fine i m = read_epu_then _ m _ (λ v l n. ok-IsFine n _ tt refl)

  save_captures-Fine : (c : ℕ) → c < 2 ^ 32 → Fine (save_captures k c)
  unfolding save_captures
  save_captures-Fine c h = shift_loop-Fine (save_capture k) save_capture-Fine 32 0 c h

  note_overflow-Fine : (i v : ℕ) → Fine (note_overflow k i v)
  unfolding note_overflow
  note_overflow-Fine i v m = if-IsFine m _ _ _ (ok-IsFine m _ tt refl) (done-IsFine m tt)

  prepend_count-Fine : (i v : ℕ) → Fine (prepend_count k i v)
  unfolding prepend_count
  prepend_count-Fine i v m = ok-IsFine m _ tt refl

  record_capture-Fine : (i : ℕ) → Fine (record_capture k i)
  unfolding record_capture
  record_capture-Fine i m =
      read_epu_then _ m _
        (λ v l n. and_then-IsFine n _ _ (note_overflow-Fine i v n) (λ a. prepend_count-Fine i v))

  record_captures-Fine : (c : ℕ) → c < 2 ^ 32 → Fine (record_captures k c)
  unfolding record_captures
  record_captures-Fine c h m =
      and_then-IsFine m _ _ (shift_loop-Fine (record_capture k) record_capture-Fine 32 0 c h m)
        (λ i n. done-IsFine n tt)

  late_overflows-Fine : (c : ℕ) → c < 2 ^ 32 → Fine (late_overflows k c)
  unfolding late_overflows
  late_overflows-Fine c h m = if-IsFine m _ _ _ (done-IsFine m tt) (update_vcounters-Fine k c h m)

  last_cycle-Fine : (c : ℕ) → c < 2 ^ 32 → Fine (last_cycle k c)
  unfolding last_cycle
  last_cycle-Fine c h m =
      if-IsFine m _ _ _ (done-IsFine m tt)
        (seen (update_vcounters k c m) (update_vcounters-Fine k c h m))
    where
      seen :
          (r : Outcome (Unit {0}) × Machine W)
          → IsFine m r
          → IsFine m ((let s : Outcome (Unit {0}) = elim r.0 [ hang ↦ hang | _ ↦ ok tt ] in s), r.1)
      seen (ok a, n) g = ok-IsFine m n tt g.keeps
      seen (err e, n) g = ok-IsFine m n tt g.keeps
      seen (hang, n) g = absurd (g.ends refl)

  capture_group-Fine : (event c : ℕ) → c < 2 ^ 32 → Fine (capture_group k event c)
  unfolding capture_group
  capture_group-Fine event c h m = and_then-IsFine m _ _ (save_captures-Fine c h m) (λ i n.
      read_epu_then _ n _ (λ v l p. read_epu_then _ p _ (λ s ls q.
        and_then-IsFine q _ _ (last_cycle-Fine s ls q) (λ a r.
          and_then-IsFine r _ _ (write_reg_io-Fine k _ _ _ r) (λ b t.
            read_epu_then _ t _ (λ late ll u.
              and_then-IsFine u _ _ (late_overflows-Fine late ll u)
                (λ d. record_captures-Fine c h)))))))

  pub capture_event-Fine : (event : ℕ) → Fine (capture_event k event)
  unfolding capture_event
  capture_event-Fine event m =
      read_epu_then _ m _ (λ v l n. read_epu_then _ n _ (λ c h. capture_group-Fine event c h))
