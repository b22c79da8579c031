-- ===== src/Debugfs/Fine.antt =====
-- Making directories and files ends and keeps the driver's tables and locks.
use ls_dbg.Prelude.{ℕ, refl, List, [], ◌∷◌}
use ls_dbg.Fine.{Fine, and_then-IsFine, if-IsFine, ok-IsFine, err-IsFine, done-IsFine}
use ls_dbg.Debugfs.{
  Debugfs, FileName, File, Dir, create_file, create_files, create_current_dir, create_dirs,
}

module _ {W : Type 0} (d : Debugfs W) where
  create_file-Fine : (dir ptr : ℕ) (f : File) → Fine (create_file d dir ptr f)
  unfolding create_file
  create_file-Fine dir ptr f m = if-IsFine m _ _ _ (err-IsFine m _ _ refl) (ok-IsFine m _ tt refl)

  create_files-Fine : (dir ptr : ℕ) (fs : List File) → Fine (create_files d dir ptr fs)
  unfolding create_files
  create_files-Fine dir ptr [] m = done-IsFine m tt
  create_files-Fine dir ptr (f ∷ fs) m =
      and_then-IsFine m _ _ (create_file-Fine dir ptr f m) (λ s. create_files-Fine dir ptr fs)

  pub create_current_dir-Fine :
      (parent : ℕ) (name : FileName) → Fine (create_current_dir d parent name)
  unfolding create_current_dir
  create_current_dir-Fine parent name m =
      if-IsFine m _ _ _ (err-IsFine m _ _ refl) (ok-IsFine m _ _ refl)

  pub create_dirs-Fine : (parent : ℕ) (xs : List Dir) → Fine (create_dirs d parent xs)
  unfolding create_dirs
  create_dirs-Fine parent [] m = done-IsFine m tt
  create_dirs-Fine parent (x ∷ xs) m =
      and_then-IsFine m _ _ (create_current_dir-Fine parent x.name m) (λ dentry n.
        and_then-IsFine n _ _ (create_files-Fine dentry x.ptr x.files n)
          (λ s. create_dirs-Fine parent xs))
