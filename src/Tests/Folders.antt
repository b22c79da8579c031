-- ===== src/Tests/Folders.antt =====
-- The init function of the ETM in a file system that knows which names are taken.
use text.Mathlib.Text
use text.Mathlib.TextEquality.{eq_iff}
use ls_dbg.Prelude.{
  ℕ, zero, suc, ◌≡◌, refl, String, Bool, true, false, ◌||◌, ◌&&◌, ◌==◌, [], if◌then◌else◌, arith,
}
use ls_dbg.Kernel.{Machine, ok}
use ls_dbg.Debugfs.{Debugfs, FileName}
use ls_dbg.Debugfs.Names.{printed}
use ls_dbg.Debugfs.Complete.{IsFolder}
use ls_dbg.Debugfs.Devices.{AreFolders}
use ls_dbg.Probe.{Platform, etm_kind, dbgfs_init_fn}
use ls_dbg.Debugfs.Init.{etm_dirs}
use ls_dbg.Probe.Files.{dirs_of, dbgfs_init_fn_complete}
use ls_dbg.Tests.Loaded.{kernel}

abbrev same : String → String → Bool
same s t = Text.◌==◌ s t

-- Which names are taken in a directory. The directory made in directory `n` is `n + 1`.
abbrev Folders : Type 0
Folders = ℕ → String → Bool

abbrev taken : ℕ → String → Folders → Bool
taken dir s w = w dir s

abbrev put : FileName → ℕ → Folders → Folders
put name parent w dir s = (dir == parent && same (printed name) s) || w dir s

abbrev put_dir : FileName → ℕ → Folders → Folders
put_dir name parent w dir s = if dir == suc parent then false else put name parent w dir s

is_zero : ℕ → Bool
is_zero zero = true
is_zero (suc n) = false

abbrev d : Debugfs Folders
d = record {
  create_dir =
      λ name parent w. (if w parent (printed name) then 0 else suc parent, put_dir name parent w);
  create_x32 = λ name mode dir addr w. (if w dir (printed name) then 0 else 1, put name dir w);
  create_x64 = λ name mode dir addr w. (1, w);
  create_file_ops = λ name mode dir addr ops w. (1, w);
  is_err_or_null = is_zero;
  remove_recursive = λ p w. w;
}

or_true : (a b : Bool) → b ≡ true → (a || b) ≡ true
or_true true b e = refl
or_true false b e = e

self : (n : ℕ) → (n == n) ≡ true
self n = ground arith

self_text : (s : String) → same s s ≡ true
self_text s = (eq_iff s s).1 refl

below : (n : ℕ) → (n == suc n) ≡ false
below n = ground arith

d-IsFolder : IsFolder d taken
unfolding is_zero
d-IsFolder = record {
  makes = λ name mode dir addr w e. rw e refl;
  there = λ name mode dir addr w e. rw (self dir, self_text (printed name)) refl;
  stays = λ name mode dir addr s w e. or_true (dir == dir && same (printed name) s) (w dir s) e;
  others = λ name mode dir addr s w e f. rw (self dir, e, f) refl;
}

d-AreFolders : AreFolders d taken
unfolding is_zero
d-AreFolders = record {
  folder = d-IsFolder;
  makes = λ name parent w e. rw e refl;
  refuses = λ name parent w e. rw e refl;
  empty = λ name parent s w e. rw (e, self (suc parent)) refl;
  apart = λ name parent w e. rw e (λ q. omega arith);
  others = λ name parent s w e f. rw (below parent, self parent, e, f) refl;
  elsewhere = λ name mode dir addr parent s w ne e.
      let f : (parent == dir) ≡ false = ground arith in rw (f, e) refl;
}

abbrev m : Machine Folders
m = record {
  maps = λ j. record { id = j; base_addr = 0; size = 0 };
  ram = λ x. 0;
  epu_ptr = 0;
  intr_num = 0;
  vc_lock = false;
  reg_acc_lock = false;
  world = λ dir s. false;
}

abbrev pl : Platform Folders
pl = record {
  compatible_nodes = λ name w. [];
  kzalloc = λ w. (true, w);
  of_iomap = λ np i w. (np, w);
  resource_size = λ np i w. 0x1000;
  iounmap = λ addr w. w;
  kfree = λ dev w. w;
  misc_register = λ w. (0, w);
  misc_deregister = λ w. w;
}

dbgfs_init_fn_complete_example : (dbgfs_init_fn kernel pl d etm_kind 1 (λ i. 0x2000000) m).0 ≡ ok tt
unfolding dirs_of etm_dirs
dbgfs_init_fn_complete_example =
    dbgfs_init_fn_complete kernel pl d taken d-AreFolders etm_kind 1 (λ i. 0x2000000) m
      (refl, (refl, tt))
