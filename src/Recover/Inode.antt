-- ===== src/Recover/Inode.antt =====
-- `struct inode` and `check_inode` of Asmt_6/recover.h and Asmt_6/recover.c.
pub mod Laws
use cs.Prelude.{
  ℕ, zero, suc, ◌+◌, ◌*◌, ◌<◌, ◌≡◌, Bool, true, false, ◌||◌, Option, none, some, List, [], ◌∷◌,
  arith, if◌then◌else◌, ℤ, pos, negsuc, pos_part, neg_part, ltb_ℤ, leb_ℤ, All,
}
use cs.Recover.Image.{Image, int_size, load_int, ◌>>=◌}

abbrev pub n_dblocks : ℕ
n_dblocks = 12

abbrev pub n_iblocks : ℕ
n_iblocks = 3

-- `sizeof (inode_t)`: 25 `int`s.
abbrev pub inode_size : ℕ
inode_size = 100

pub record Inode : Type 0 where
  pub foo : ℤ
  pub nlink : ℤ
  pub uid : ℤ
  pub gid : ℤ
  pub size : ℤ
  pub ctime : ℤ
  pub mtime : ℤ
  pub atime : ℤ
  pub dblocks : List ℤ
  pub iblocks : List ℤ
  pub i2block : ℤ
  pub i3block : ℤ

-- An array field of `n` elements.
unfoldable pub load_ints : Image → ℕ → ℕ → Option (List ℤ)
load_ints m a zero = some []
load_ints m a (suc n) = do x ← load_int m a; xs ← load_ints m (a + int_size) n; some (x ∷ xs)

-- The fields behind a pointer to an inode; the function reads all of them.
unfoldable pub load_inode : Image → ℕ → Option Inode
load_inode m a = do
  foo ← load_int m a
  nlink ← load_int m (a + 4)
  uid ← load_int m (a + 8)
  gid ← load_int m (a + 12)
  size ← load_int m (a + 16)
  ctime ← load_int m (a + 20)
  mtime ← load_int m (a + 24)
  atime ← load_int m (a + 28)
  dblocks ← load_ints m (a + 32) n_dblocks
  iblocks ← load_ints m (a + 80) n_iblocks
  i2block ← load_int m (a + 92)
  i3block ← load_int m (a + 96)
  some (record {
    foo = foo;
    nlink = nlink;
    uid = uid;
    gid = gid;
    size = size;
    ctime = ctime;
    mtime = mtime;
    atime = atime;
    dblocks = dblocks;
    iblocks = iblocks;
    i2block = i2block;
    i3block = i3block;
  })

-- The test of one block number: `(b < 0) || (b >= max_block_number)`.
abbrev pub out_of_range : ℕ → ℤ → Bool
out_of_range max b = ltb_ℤ b (pos 0) || leb_ℤ (pos max) b

-- A loop over an array of block numbers that returns `GEN_ERROR` at the first bad one.
unfoldable pub any_out_of_range : ℕ → List ℤ → Bool
any_out_of_range max [] = false
any_out_of_range max (b ∷ bs) = if out_of_range max b then true else any_out_of_range max bs

abbrev pub gen_error : ℤ
gen_error = negsuc 0

unfoldable pub check_inode : ℕ → Inode → ℤ
check_inode max node =
    if any_out_of_range max node.dblocks
    then gen_error
    else (if any_out_of_range max node.iblocks
        then gen_error
        else (if out_of_range max node.i2block
            then gen_error
            else (if out_of_range max node.i3block then gen_error else pos 0)))

-- A number of a block that lies within the file.
abbrev pub IsBlock : ℕ → ℤ → Type 0
IsBlock max b = (n : ℕ) × (b ≡ pos n) × (n < max)
