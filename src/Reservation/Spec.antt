-- ===== src/Reservation/Spec.antt =====
-- What the reservation calls promise: each group is a set of taken indices, and a call either
-- changes the set by its index or refuses.
use ls_dbg.Prelude.{ℕ, ◌==◌, leb, if◌then◌else◌, Bool, true, false, List, [], ◌∷◌}
use ls_dbg.Kernel.{Outcome, ok, err, neg, eperm, ebusy, einval}

pub data Request : Type 0 where
  reserve relinquish : ℕ → Request

abbrev pub Taken : Type 0
Taken = ℕ → Bool

abbrev pub put : Taken → ℕ → Bool → Taken
put s i b j = if i == j then b else s j

unfoldable pub spec_reserve : ℕ → Taken → Outcome (Unit {0}) × Taken
spec_reserve i s = if s i then (err (neg ebusy), s) else (ok tt, put s i true)

unfoldable pub spec_relinquish : ℕ → Taken → Outcome (Unit {0}) × Taken
spec_relinquish i s = if s i then (ok tt, put s i false) else (err (neg eperm), s)

-- A group of `size` resources
unfoldable pub spec_step : ℕ → Taken → Request → Outcome (Unit {0}) × Taken
unfolding spec_reserve spec_relinquish
spec_step size s (reserve i) = if leb size i then (err (neg einval), s) else spec_reserve i s
spec_step size s (relinquish i) = if leb size i then (err (neg einval), s) else spec_relinquish i s

unfoldable pub spec_run : ℕ → Taken → List Request → List (Outcome (Unit {0})) × Taken
spec_run size s [] = ([], s)
spec_run size s (r ∷ rs) =
    let (o, s') = spec_step size s r in let (os, s'') = spec_run size s' rs in (o ∷ os, s'')
