-- ===== src/Debugfs/Create.antt =====
-- Creating a directory's files: all of them in order, or those up to the first that fails.
use ls_dbg.Prelude.{ℕ, ◌+◌, ◌≡◌, refl, true, false, ◌∙◌, List, [], ◌∷◌, ◌++◌}
use ls_dbg.Kernel.{Machine, ok, err, neg, enomem}
use ls_dbg.Debugfs.{Debugfs, File, create_file, create_files}

module _ {W : Type 0} (d : Debugfs W) where
  -- What `debugfs_create_x32` gives for a file of directory `dir` with registers at `ptr`
  abbrev pub made : ℕ → ℕ → File → W → ℕ × W
  made dir ptr f w = d.create_x32 f.name f.mode dir (ptr + f.offset) w

  -- The world after these files were made, in order.
  unfoldable pub after_files : ℕ → ℕ → List File → W → W
  after_files dir ptr [] w = w
  after_files dir ptr (f ∷ fs) w = after_files dir ptr fs (made dir ptr f w).1

  -- None of these files fails when they are made in order.
  abbrev pub AllMade : ℕ → ℕ → List File → W → Type 0
  AllMade dir ptr [] w = Unit
  AllMade dir ptr (f ∷ fs) w =
      (d.is_err_or_null (made dir ptr f w).0 ≡ false) × AllMade dir ptr fs (made dir ptr f w).1

  create_files_next :
      (dir ptr : ℕ) (f : File) (fs : List File) (m : Machine W)
      → d.is_err_or_null (made dir ptr f m.world).0 ≡ false
      → create_files d dir ptr (f ∷ fs) m
        ≡ create_files d dir ptr fs (record m { world = (made dir ptr f m.world).1 })
  unfolding create_files create_file
  create_files_next dir ptr f fs m e = rw e refl

  -- If no file fails, all are made, in order, and the call succeeds; nothing of the driver changes.
  pub create_files_all :
      (dir ptr : ℕ) (fs : List File) (m : Machine W)
      → AllMade dir ptr fs m.world
      → create_files d dir ptr fs m ≡ (ok tt, record m { world = after_files dir ptr fs m.world })
  unfolding create_files after_files
  create_files_all dir ptr [] m a = refl
  create_files_all dir ptr (f ∷ fs) m a =
      create_files_next dir ptr f fs m a.0
      ∙ create_files_all dir ptr fs (record m { world = (made dir ptr f m.world).1 }) a.1

  -- If some files are made and the next one fails, the call stops there with ENOMEM: the files behind
  -- it are not made.
  create_files_stops :
      (dir ptr : ℕ) (fs : List File) (f : File) (rest : List File) (m : Machine W)
      → AllMade dir ptr fs m.world
      → d.is_err_or_null (made dir ptr f (after_files dir ptr fs m.world)).0 ≡ true
      → create_files d dir ptr (fs ++ f ∷ rest) m
        ≡ (err (neg enomem), record m { world = after_files dir ptr (fs ++ f ∷ []) m.world })
  unfolding create_files create_file after_files
  create_files_stops dir ptr [] f rest m a e = rw e refl
  create_files_stops dir ptr (g ∷ fs) f rest m a e =
      create_files_next dir ptr g (fs ++ f ∷ rest) m a.0
      ∙ create_files_stops dir ptr fs f rest (record m { world = (made dir ptr g m.world).1 }) a.1 e
