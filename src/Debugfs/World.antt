-- ===== src/Debugfs/World.antt =====
-- What making directories and files does not change of the world.
use ls_dbg.Prelude.{ℕ, ◌+◌, ◌≡◌, refl, ◌∙◌, List, [], ◌∷◌, Bool-cases, inl, inr}
use ls_dbg.Kernel.{Machine, Driver, Outcome, ok, err, hang, and_then, ◌>>◌}
use ls_dbg.Debugfs.{
  Debugfs, FileName, File, Mode, Dir, create_file, create_files, create_current_dir, create_dirs,
}

module _ {W : Type 0} (d : Debugfs W) (f : W → ℕ) where
  -- `f` does not depend on directories and files.
  pub record IsApartFromFiles : Type 0 where
    pub dir : (name : FileName) (parent : ℕ) (w : W) → f (d.create_dir name parent w).1 ≡ f w
    pub file :
        (name : FileName) (mode : Mode) (dir addr : ℕ) (w : W)
        → f (d.create_x32 name mode dir addr w).1 ≡ f w
    pub removed : (root : ℕ) (w : W) → f (d.remove_recursive root w) ≡ f w

  Keeps : {A : Type 0} → Driver W A → Type 0
  Keeps g = (m : Machine W) → f (g m).1.world ≡ f m.world

  and_then-Keeps :
      {A B : Type 0} (m : Machine W) (r : Outcome A × Machine W) (g : A → Driver W B)
      → f r.1.world ≡ f m.world
      → ((a : A) → Keeps (g a))
      → f (and_then r g).1.world ≡ f m.world
  unfolding Keeps
  and_then-Keeps m (ok a, n) g h e = e a n ∙ h
  and_then-Keeps m (err c, n) g h e = h
  and_then-Keeps m (hang, n) g h e = h

  module _ (law : IsApartFromFiles) where
    create_file-Keeps : (dir ptr : ℕ) (x : File) → Keeps (create_file d dir ptr x)
    unfolding create_file Keeps
    create_file-Keeps dir ptr x m =
        let e = law.file x.name x.mode dir (ptr + x.offset) m.world in
        elim (Bool-cases
          (d.is_err_or_null (d.create_x32 x.name x.mode dir (ptr + x.offset) m.world).0)) [
            | inl t ↦ rw t e
            | inr g ↦ rw g e
          ]

    create_files-Keeps : (dir ptr : ℕ) (fs : List File) → Keeps (create_files d dir ptr fs)
    unfolding create_files Keeps
    create_files-Keeps dir ptr [] m = refl
    create_files-Keeps dir ptr (x ∷ fs) m =
        and_then-Keeps m _ _ (create_file-Keeps dir ptr x m) (λ s. create_files-Keeps dir ptr fs)

    create_current_dir-Keeps :
        (parent : ℕ) (name : FileName) → Keeps (create_current_dir d parent name)
    unfolding create_current_dir Keeps
    create_current_dir-Keeps parent name m =
        let e = law.dir name parent m.world in
        elim (Bool-cases (d.is_err_or_null (d.create_dir name parent m.world).0)) [
          | inl t ↦ rw t e
          | inr g ↦ rw g e
        ]

    pub create_dirs-world :
        (parent : ℕ) (xs : List Dir) (m : Machine W)
        → f (create_dirs d parent xs m).1.world ≡ f m.world
    unfolding create_dirs Keeps
    create_dirs-world parent [] m = refl
    create_dirs-world parent (x ∷ xs) m =
        and_then-Keeps m (create_current_dir d parent x.name m)
          (λ dentry. create_files d dentry x.ptr x.files >> create_dirs d parent xs)
          (create_current_dir-Keeps parent x.name m)
          (λ dentry n.
            and_then-Keeps n (create_files d dentry x.ptr x.files n) (λ s. create_dirs d parent xs)
              (create_files-Keeps dentry x.ptr x.files n) (λ s. create_dirs-world parent xs))
