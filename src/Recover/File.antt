-- ===== src/Recover/File.antt =====
-- The copying of one file in `main` of Asmt_6/recover.c, level of indirection by level.
pub mod Spec
pub mod Levels
pub mod Deeper
pub mod Recovery
use cs.Prelude.{
  ℕ, ◌/◌, Bool, true, false, ◌||◌, not, ◌&&◌, List, [], ◌∷◌, if◌then◌else◌, take, ℤ, pos, pos_part,
  ◌+ℤ◌, ◌-ℤ◌, ltb_ℤ, leb_ℤ, eqb_ℤ,
}
use cs.Recover.Image.{Image, block_size}
use cs.Recover.Inode.{Inode, gen_error}
use cs.Recover.Run.{State, Env, Cmd, pure, ◌>>=◌, die}
use cs.Recover.Copy.{
  block_copy_error, no_pointers_in_iblock, copy_dblock, unwind_iblock, copy_i1block,
}

-- `if (bytes_copied >= 0) data_copied += bytes_copied;`
abbrev pub advance : ℤ → ℤ → ℤ
advance data_copied bytes_copied =
    if leb_ℤ (pos 0) bytes_copied then data_copied +ℤ bytes_copied else data_copied

-- `block > data_file_stat.st_size / BLOCK_SIZE`
abbrev pub is_wild : Image → ℤ → Bool
is_wild m b = ltb_ℤ (pos (m.size / block_size)) b

module _ (env : Env) (m : Image) (size : ℤ) where
  -- The loop over `dblocks`, from `data_copied` bytes.
  unfoldable pub copy_direct : List ℤ → ℤ → Cmd ℤ
  copy_direct [] data_copied = pure data_copied
  copy_direct (b ∷ bs) data_copied =
      if leb_ℤ (pos 0) b
      then (do
        bytes_copied ← copy_dblock env m b (size -ℤ data_copied)
        if eqb_ℤ bytes_copied gen_error || eqb_ℤ bytes_copied block_copy_error
            then die
            else copy_direct bs (advance data_copied bytes_copied))
      else pure data_copied

  -- One indirect block: its copy, and the check of the result.
  unfoldable pub copy_indirect_block : ℤ → ℤ → Cmd ℤ
  copy_indirect_block b data_copied = do
    bytes_copied ← copy_i1block env m b (size -ℤ data_copied)
    if eqb_ℤ bytes_copied block_copy_error then die else pure (advance data_copied bytes_copied)

  -- The loop over `iblocks`.
  unfoldable pub copy_indirect : List ℤ → ℤ → Cmd ℤ
  copy_indirect [] data_copied = pure data_copied
  copy_indirect (b ∷ bs) data_copied =
      if leb_ℤ (pos 0) b
      then (do data_copied' ← copy_indirect_block b data_copied; copy_indirect bs data_copied')
      else pure data_copied

  -- The loop over the numbers that an I2 block holds: a wild one is passed over.
  unfoldable pub copy_i1_entries : List ℤ → ℤ → Cmd ℤ
  copy_i1_entries [] data_copied = pure data_copied
  copy_i1_entries (b ∷ bs) data_copied =
      if leb_ℤ (pos 0) b
      then (do
        data_copied' ← if is_wild m b then pure data_copied else copy_indirect_block b data_copied
        copy_i1_entries bs data_copied')
      else pure data_copied

  -- The doubly indirect block.
  unfoldable pub copy_double : ℤ → ℤ → Cmd ℤ
  copy_double i2block data_copied = do
    (i1block_count, i1block_buffer) ← unwind_iblock env m i2block
    if eqb_ℤ i1block_count no_pointers_in_iblock
        then die
        else copy_i1_entries (take (pos_part i1block_count) i1block_buffer) data_copied

  -- The loop over the numbers that the I3 block holds. The code unwinds `f->i2block` for each of
  -- them, and not the block that the number names. A negative number is passed over.
  unfoldable pub copy_i2_entries : ℤ → List ℤ → ℤ → Cmd ℤ
  copy_i2_entries i2block [] data_copied = pure data_copied
  copy_i2_entries i2block (b ∷ bs) data_copied = do
    data_copied' ←
        if leb_ℤ (pos 0) b && not (is_wild m b)
        then copy_double i2block data_copied
        else pure data_copied
    copy_i2_entries i2block bs data_copied'

  -- The triply indirect block.
  unfoldable pub copy_triple : ℤ → ℤ → ℤ → Cmd ℤ
  copy_triple i2block i3block data_copied = do
    (i2block_count, i2block_buffer) ← unwind_iblock env m i3block
    if eqb_ℤ i2block_count no_pointers_in_iblock
        then die
        else copy_i2_entries i2block (take (pos_part i2block_count) i2block_buffer) data_copied

  -- `if (data_copied < f->size)`
  abbrev pub if_more : (ℤ → Cmd ℤ) → ℤ → Cmd ℤ
  if_more copy data_copied = if ltb_ℤ data_copied size then copy data_copied else pure data_copied

-- All levels in turn, each only while bytes are missing.
unfoldable pub copy_file : Env → Image → Inode → Cmd ℤ
copy_file env m f = do
  direct ← copy_direct env m f.size f.dblocks (pos 0)
  indirect ← if_more env m f.size (copy_indirect env m f.size f.iblocks) direct
  double ← if_more env m f.size (copy_double env m f.size f.i2block) indirect
  if_more env m f.size (copy_triple env m f.size f.i2block f.i3block) double
