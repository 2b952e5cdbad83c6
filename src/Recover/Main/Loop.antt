-- ===== src/Recover/Main/Loop.antt =====
-- The loop of `main` ends, and the counts that it leaves behind add up.
use cs.Prelude.{ℕ, ◌+◌, ◌^◌, ◌<◌, ◌≡◌, length}
use cs.Recover.Image.{Image, max_block_number}
use cs.Recover.Inode.{Inode}
use cs.Recover.Search.Laws.{Outcome}
use cs.Recover.Run.{State, Env, Run, ok, exit, fault}
use cs.Recover.Copy.Outcome.{Marked}
use cs.Recover.Main.{Counts}

-- A run that ends, by `P` if it returns; it may also leave by `exit` or by a fault.
pub data Ends {A : Type 0} (P : A → State → Type 0) : Run A → Type 0 where
  returned : {a : A} {s : State} → P a s → Ends P (ok a s)
  exited : {s : State} → Ends P (exit s)
  faulted : Ends P fault

module _ (env : Env) (m : Image) (small : m.size < 2 ^ 31) where
  abbrev StillMarked : {A : Type 0} → A → State → Type 0
  StillMarked _ t = Marked (max_block_number m) t

-- The counts cover all blocks, and the blocks that are listed are those counted as unused.
abbrev pub Covers : ℕ → Counts → Type 0
Covers max c = (c.unk_count + c.dbk_count + c.ibk_count ≡ max) × (length c.unused ≡ c.unk_count)
