-- ===== src/Debugfs/Complete.antt =====
-- The directories of the devices in a file system that refuses a name only if it is taken.
use text.Mathlib.Text.{◌==◌}
use ls_dbg.Prelude.{ℕ, ◌+◌, ◌≡◌, refl, String, Bool, true, false, not, ◌&&◌, List, [], ◌∷◌}
use ls_dbg.Debugfs.{Debugfs, FileName, Mode, File}
use ls_dbg.Debugfs.Create.{made, after_files, AllMade}
use ls_dbg.Debugfs.Names.{printed, is_new, are_distinct}

pub and-left : (a b : Bool) → (a && b) ≡ true → a ≡ true
and-left true b h = refl
and-left false b h = h

pub and-right : (a b : Bool) → (a && b) ≡ true → b ≡ true
and-right true b h = h
and-right false b h = cc

pub not-true : (a : Bool) → not a ≡ true → a ≡ false
not-true true h = cc
not-true false h = refl

module _ {W : Type 0} (d : Debugfs W) (exists : ℕ → String → W → Bool) where
  -- Whether a directory has a file of a name: `debugfs_create_x32` makes one unless it is there, keeps
  -- those that are, and makes no other.
  pub record IsFolder : Type 0 where
    pub makes :
        (name : FileName) (mode : Mode) (dir addr : ℕ) (w : W)
        → exists dir (printed name) w ≡ false
        → d.is_err_or_null (d.create_x32 name mode dir addr w).0 ≡ false
    pub there :
        (name : FileName) (mode : Mode) (dir addr : ℕ) (w : W)
        → exists dir (printed name) w ≡ false
        → exists dir (printed name) (d.create_x32 name mode dir addr w).1 ≡ true
    pub stays :
        (name : FileName) (mode : Mode) (dir addr : ℕ) (s : String) (w : W)
        → exists dir s w ≡ true
        → exists dir s (d.create_x32 name mode dir addr w).1 ≡ true
    pub others :
        (name : FileName) (mode : Mode) (dir addr : ℕ) (s : String) (w : W)
        → (printed name == s) ≡ false
        → exists dir s w ≡ false
        → exists dir s (d.create_x32 name mode dir addr w).1 ≡ false

  abbrev pub AllAre : Bool → ℕ → List File → W → Type 0
  AllAre b dir [] w = Unit {0}
  AllAre b dir (f ∷ fs) w = (exists dir (printed f.name) w ≡ b) × AllAre b dir fs w

  module _ (law : IsFolder) where
    made-AllAre :
        (dir ptr : ℕ) (f : File) (fs : List File) (w : W)
        → is_new (printed f.name) fs ≡ true
        → AllAre false dir fs w
        → AllAre false dir fs (made d dir ptr f w).1
    unfolding is_new
    made-AllAre dir ptr f [] w new free = tt
    made-AllAre dir ptr f (g ∷ fs) w new free =
        let this = not-true _ (and-left _ _ new) in
        (
          law.others f.name f.mode dir (ptr + f.offset) (printed g.name) w this free.0,
          made-AllAre dir ptr f fs w (and-right _ _ new) free.1,
        )

    stays_after :
        (dir ptr : ℕ) (s : String) (fs : List File) (w : W)
        → exists dir s w ≡ true
        → exists dir s (after_files d dir ptr fs w) ≡ true
    unfolding after_files
    stays_after dir ptr s [] w e = e
    stays_after dir ptr s (f ∷ fs) w e =
        stays_after dir ptr s fs (made d dir ptr f w).1
          (law.stays f.name f.mode dir (ptr + f.offset) s w e)

    pub files_complete :
        (dir ptr : ℕ) (fs : List File) (w : W)
        → are_distinct fs ≡ true
        → AllAre false dir fs w
        → AllMade d dir ptr fs w × AllAre true dir fs (after_files d dir ptr fs w)
    unfolding after_files are_distinct
    files_complete dir ptr [] w distinct free = (tt, tt)
    files_complete dir ptr (f ∷ fs) w distinct free =
        let w' = (made d dir ptr f w).1 in
        let (all, there) =
          files_complete dir ptr fs w' (and-right _ _ distinct)
            (made-AllAre dir ptr f fs w (and-left _ _ distinct) free.1) in
        (
          (law.makes f.name f.mode dir (ptr + f.offset) w free.0, all),
          (
            stays_after dir ptr (printed f.name) fs w'
                (law.there f.name f.mode dir (ptr + f.offset) w free.0),
            there,
          ),
        )
