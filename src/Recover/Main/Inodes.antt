-- ===== src/Recover/Main/Inodes.antt =====
-- What the loop of `main` does for one inode, and that it ends.
use Prim.Native.String.{String}
use cs.Prelude.{ℕ, ◌^◌, ◌<◌, ◌≡◌, ◌⊎◌, true, some, List, [], ◌∷◌, ◌++◌, take, pos_part}
use cs.Recover.Image.{Image, max_block_number}
use cs.Recover.Inode.{Inode, check_inode, gen_error}
use cs.Recover.Inode.Laws.{IsValid}
use cs.Recover.Run.{Recovered, State, Env}
use cs.Recover.Copy.Outcome.{Benign, Marked}
use cs.Recover.File.Spec.{file_data}
use cs.Recover.Extension.{guess_file_extension}

-- The file that has been kept: its number, the bytes `xs`, and no extension or a guess of it.
pub record IsFile (number : ℕ) (xs : List ℕ) (file : Recovered) : Type 0 where
  pub number_is : file.number ≡ number
  pub bytes_are : file.bytes ≡ xs
  pub named :
      (file.extension ≡ "")
      ⊎ ((stale : List ℕ) × (guess_file_extension stale (some xs) ≡ some file.extension))

module _ (env : Env) (opens : (t : ℕ) → env.fopen_ok t ≡ true) where
  -- One file more, with the bytes of the output.
  abbrev Named : State → ℕ → State → Type 0
  Named s number t =
      (t.used ≡ s.used)
      × (file : Recovered) × IsFile number s.out file
      × (t.files ≡ s.files ++ (file ∷ []))

  module _ (m : Image) (small : m.size < 2 ^ 31) where
    -- What is left after one inode. If it is valid there is one file more. Its bytes are the first
    -- `size` of the inode's data, if the system has refused nothing. If not, nothing has changed.
    abbrev pub Handled : Inode → ℕ → State → State → Type 0
    Handled f number s t =
        Marked (max_block_number m) t
        × (((check_inode (max_block_number m) f ≡ gen_error) × (t ≡ s))
            ⊎ (IsValid (max_block_number m) f
                × (xs : List ℕ) × (file : Recovered) × IsFile number xs file
                × (t.files ≡ s.files ++ (file ∷ []))
                × ((xs ≡ take (pos_part f.size) (file_data m f)) ⊎ ¬ Benign env)))
