-- ===== src/Recover/File/Recovery.antt =====
-- What `main` writes for one inode.
use cs.Prelude.{◌≡◌, ◌⊎◌, ◌++◌, take, ℤ, pos_part}
use cs.Recover.Image.{Image, max_block_number}
use cs.Recover.Inode.{Inode}
use cs.Recover.Run.{State, Env, Run}
use cs.Recover.Copy.Outcome.{Benign, Kept}
use cs.Recover.File.Spec.{file_data}

module _ (m : Image) (env : Env) where
  -- The result of copying the file of inode `f`.
  abbrev pub CopiedFile : Inode → State → ℤ → State → Type 0
  CopiedFile f s r t =
      Kept (max_block_number m) s t
      × ((t.out ≡ s.out ++ take (pos_part f.size) (file_data m f)) ⊎ ¬ Benign env)
