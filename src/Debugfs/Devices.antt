-- ===== src/Debugfs/Devices.antt =====
-- The init functions of the devices in a file system that refuses a name only if it is taken.
use text.Mathlib.Text.{◌==◌}
use ls_dbg.Prelude.{ℕ, ◌+◌, ◌≡◌, ◌≢◌, refl, String, Bool, true, false, not, ◌&&◌, List, [], ◌∷◌}
use ls_dbg.Kernel.{Machine, ok, err, neg, enomem}
use ls_dbg.Debugfs.{Debugfs, FileName, Mode, File, Dir, create_current_dir, create_dirs}
use ls_dbg.Debugfs.Create.{made, after_files, create_files_all}
use ls_dbg.Debugfs.Names.{printed, are_distinct}
use ls_dbg.Debugfs.Complete.{IsFolder, AllAre, files_complete, and-left, and-right, not-true}

unfoldable pub is_new_dir : String → List Dir → Bool
is_new_dir s [] = true
is_new_dir s (x ∷ xs) = not (s == printed x.name) && is_new_dir s xs

-- No two directories have the same name, and no two files of a directory.
unfoldable pub dirs_distinct : List Dir → Bool
unfolding is_new_dir
dirs_distinct [] = true
dirs_distinct (x ∷ xs) =
    are_distinct x.files && (is_new_dir (printed x.name) xs && dirs_distinct xs)

module _ {W : Type 0} (d : Debugfs W) (exists : ℕ → String → W → Bool) where
  -- `debugfs_create_dir` makes an empty directory if and only if the name is free, and what is made in
  -- one directory is in no other.
  pub record AreFolders : Type 0 where
    pub folder : IsFolder d exists
    pub makes :
        (name : FileName) (parent : ℕ) (w : W)
        → exists parent (printed name) w ≡ false
        → d.is_err_or_null (d.create_dir name parent w).0 ≡ false
    pub refuses :
        (name : FileName) (parent : ℕ) (w : W)
        → exists parent (printed name) w ≡ true
        → d.is_err_or_null (d.create_dir name parent w).0 ≡ true
    pub empty :
        (name : FileName) (parent : ℕ) (s : String) (w : W)
        → exists parent (printed name) w ≡ false
        → exists (d.create_dir name parent w).0 s (d.create_dir name parent w).1 ≡ false
    pub apart :
        (name : FileName) (parent : ℕ) (w : W)
        → exists parent (printed name) w ≡ false
        → (d.create_dir name parent w).0 ≢ parent
    pub others :
        (name : FileName) (parent : ℕ) (s : String) (w : W)
        → (printed name == s) ≡ false
        → exists parent s w ≡ false
        → exists parent s (d.create_dir name parent w).1 ≡ false
    pub elsewhere :
        (name : FileName) (mode : Mode) (dir addr parent : ℕ) (s : String) (w : W)
        → dir ≢ parent
        → exists parent s w ≡ false
        → exists parent s (d.create_x32 name mode dir addr w).1 ≡ false

  -- The names of the directories are free.
  abbrev pub AreFree : ℕ → List Dir → W → Type 0
  AreFree parent [] w = Unit {0}
  AreFree parent (x ∷ xs) w = (exists parent (printed x.name) w ≡ false) × AreFree parent xs w

  module _ (law : AreFolders) where
    empty-AllAre :
        (dir : ℕ) (fs : List File) (w : W)
        → ((s : String) → exists dir s w ≡ false)
        → AllAre d exists false dir fs w
    empty-AllAre dir [] w e = tt
    empty-AllAre dir (f ∷ fs) w e = (e (printed f.name), empty-AllAre dir fs w e)

    files_elsewhere :
        (dir ptr parent : ℕ) (s : String) (fs : List File) (w : W)
        → dir ≢ parent
        → exists parent s w ≡ false
        → exists parent s (after_files d dir ptr fs w) ≡ false
    unfolding after_files
    files_elsewhere dir ptr parent s [] w ne e = e
    files_elsewhere dir ptr parent s (f ∷ fs) w ne e =
        files_elsewhere dir ptr parent s fs (made d dir ptr f w).1 ne
          (law.elsewhere f.name f.mode dir (ptr + f.offset) parent s w ne e)

    dir-AreFree :
        (x : Dir) (parent : ℕ) (xs : List Dir) (w : W)
        → exists parent (printed x.name) w ≡ false
        → is_new_dir (printed x.name) xs ≡ true
        → AreFree parent xs w
        → let (dir, w') = d.create_dir x.name parent w in
          AreFree parent xs (after_files d dir x.ptr x.files w')
    unfolding is_new_dir
    dir-AreFree x parent [] w e new free = tt
    dir-AreFree x parent (y ∷ ys) w e new free =
        let (dir, w') = d.create_dir x.name parent w in
        (
          files_elsewhere dir x.ptr parent (printed y.name) x.files w' (law.apart x.name parent w e)
              (law.others x.name parent (printed y.name) w (not-true _ (and-left _ _ new)) free.0),
          dir-AreFree x parent ys w e (and-right _ _ new) free.1,
        )

    pub dirs_complete :
        (parent : ℕ) (xs : List Dir) (m : Machine W)
        → dirs_distinct xs ≡ true
        → AreFree parent xs m.world
        → (create_dirs d parent xs m).0 ≡ ok tt
    unfolding create_dirs dirs_distinct create_current_dir
    dirs_complete parent [] m distinct free = refl
    dirs_complete parent (x ∷ xs) m distinct free =
        let (dir, w') = d.create_dir x.name parent m.world in
        let inner : Machine W = record m { world = w' } in
        let later = and-right _ _ distinct in
        let (all, there) =
          files_complete d exists law.folder dir x.ptr x.files w' (and-left _ _ distinct)
            (empty-AllAre dir x.files w' (λ s. law.empty x.name parent s m.world free.0)) in
        rw (law.makes x.name parent m.world free.0, create_files_all d dir x.ptr x.files inner all)
          (dirs_complete parent xs (record m { world = after_files d dir x.ptr x.files w' })
            (and-right _ _ later)
            (dir-AreFree x parent xs m.world free.0 (and-left _ _ later) free.1))

    pub dirs_refused :
        (parent : ℕ) (x : Dir) (xs : List Dir) (m : Machine W)
        → exists parent (printed x.name) m.world ≡ true
        → (create_dirs d parent (x ∷ xs) m).0 ≡ err (neg enomem)
    unfolding create_dirs create_current_dir
    dirs_refused parent x xs m e = rw (law.refuses x.name parent m.world e) refl
