-- ===== src/Layout.antt =====
-- Packed C structures of registers: fields in order, their offsets and the total size. The headers
-- ls-common/dcsr_*.h are such lists, in `Blocks`.
pub mod Blocks
pub mod Offsets
use text.Mathlib.Text.{◌==◌ as str_eq}
use ls_dbg.Prelude.{ℕ, ◌+◌, ◌*◌, String, if◌then◌else◌, List, [], ◌∷◌}

-- `count` elements of `width` bytes
pub record Field : Type 0 where
  pub name : String
  pub width : ℕ
  pub count : ℕ

abbrev pub u32 : String → Field
u32 name = record { name = name; width = 4; count = 1 }

abbrev pub u32s : String → ℕ → Field
u32s name count = record { name = name; width = 4; count = count }

abbrev pub reserved : ℕ → Field
reserved count = record { name = "reserved"; width = 1; count = count }

-- An array of structures
abbrev pub structs : String → ℕ → ℕ → Field
structs name width count = record { name = name; width = width; count = count }

unfoldable pub sizeof : List Field → ℕ
sizeof [] = 0
sizeof (f ∷ fs) = f.width * f.count + sizeof fs

-- `offsetof(struct, name[i])`; the size of the structure if no field has the name.
unfoldable pub offset_of : List Field → String → ℕ → ℕ
offset_of [] name i = 0
offset_of (f ∷ fs) name i =
    let rest = f.width * f.count + offset_of fs name i in
    if str_eq f.name name then f.width * i else rest
