-- ===== src/Debugfs/Registers.antt =====
-- The files of each kind of device against the registers of its structure in memory.
use mathlib.Core.List.{Perm}
use mathlib.Core.List.Perm
use text.Mathlib.Text.{◌==◌ as same_text}
use ls_dbg.Prelude.{
  ℕ, zero, suc, ◌+◌, ◌*◌, ◌==◌, Bool, true, false, List, [], ◌∷◌, ◌++◌, Option, none, some,
  if◌then◌else◌,
}
use ls_dbg.Layout.{Field}
use ls_dbg.Debugfs.{File}

elements : ℕ → ℕ → ℕ → List ℕ
elements base width zero = []
elements base width (suc n) = base ∷ elements (base + width) width n

-- The offsets of a structure's registers, each element of an array by itself, the reserved ranges
-- left out; `base` is the offset of the first field.
unfoldable pub registers : ℕ → List Field → List ℕ
unfolding elements
registers base [] = []
registers base (f ∷ fs) =
    (if same_text f.name "reserved" then [] else elements base f.width f.count)
    ++ registers (base + f.width * f.count) fs

unfoldable pub offsets : List File → List ℕ
offsets [] = []
offsets (f ∷ fs) = f.offset ∷ offsets fs

put_back : ℕ → Option (List ℕ) → Option (List ℕ)
put_back m none = none
put_back m (some ns) = some (m ∷ ns)

-- A list without the first occurrence of a number, if it has one
take_out : ℕ → List ℕ → Option (List ℕ)
unfolding put_back
take_out n [] = none
take_out n (m ∷ ms) = let rest = put_back m (take_out n ms) in if n == m then some ms else rest

same_numbers : List ℕ → List ℕ → Bool
unfolding take_out
same_numbers [] [] = true
same_numbers [] (m ∷ ms) = false
same_numbers (n ∷ ns) ms = elim (take_out n ms) [ none ↦ false | some rest ↦ same_numbers ns rest ]
