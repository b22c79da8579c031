-- ===== src/Debugfs/Names.antt =====
-- The names of the register files, as the source prints them.
use Prim.Native.String.{◌++◌, slice}
use text.Mathlib.Text.{◌==◌}
use ls_dbg.Prelude.{
  ℕ, ◌+◌, ◌/◌, ◌%◌, String, Bool, true, not, ◌&&◌, ltb, if◌then◌else◌, Option, none, some, List, [],
  ◌∷◌,
}
use ls_dbg.Debugfs.{FileName, File}

digit : ℕ → String
digit i = slice "0123456789" i (i + 1)

decimal : Option ℕ → String
unfolding digit
decimal none = ""
decimal (some i) = if ltb i 10 then digit i else digit (i / 10) ++ digit (i % 10)

-- `sprintf` of a base and a number below 100
unfoldable pub printed : FileName → String
unfolding decimal
printed n = n.base ++ decimal n.index

unfoldable pub is_new : String → List File → Bool
unfolding printed
is_new s [] = true
is_new s (f ∷ fs) = not (s == printed f.name) && is_new s fs

unfoldable pub are_distinct : List File → Bool
unfolding is_new
are_distinct [] = true
are_distinct (f ∷ fs) = is_new (printed f.name) fs && are_distinct fs
