-- ===== src/Recover/Copy.antt =====
-- `copy_dblock`, `unwind_iblock` and `copy_i1block` of Asmt_6/recover.c.
pub mod Outcome
pub mod Blocks
pub mod Took
pub mod Indirect
use cs.Prelude.{
  ℕ, zero, suc, ◌+◌, ◌-◌, ◌*◌, ◌^◌, Bool, true, false, ◌||◌, not, Option, none, some, List, [], ◌∷◌,
  ◌++◌, ltb, ◌==◌, if◌then◌else◌, length, get_elem?, set, take, ℤ, pos, negsuc, pos_part, ◌+ℤ◌,
  ◌-ℤ◌, ltb_ℤ, leb_ℤ, eqb_ℤ,
}
use cs.Recover.Image.{Image, block_size, int_size, max_block_number, load_bytes, words}
use cs.Recover.Inode.{gen_error, out_of_range}
use cs.Recover.Run.{State, Env, Run, ok, fault, Cmd, pure, ◌>>=◌, ◌>>◌, ask}

abbrev pub neg_byte_req : ℤ
neg_byte_req = negsuc 1

abbrev pub no_pointers_in_iblock : ℤ
no_pointers_in_iblock = negsuc 2

abbrev pub block_copy_error : ℤ
block_copy_error = negsuc 3

-- `IS_UNKNOW`, `IS_DBLOCK`, `IS_IBLOCK`
abbrev pub is_unknow : ℕ
is_unknow = 0

abbrev pub is_dblock : ℕ
is_dblock = 1

abbrev pub is_iblock : ℕ
is_iblock = 2

-- `used_block_array[block_num] = mark`: a fault outside of the array.
unfoldable pub mark_block : ℤ → ℕ → Cmd (Unit {0})
mark_block (pos n) mark s =
    if ltb n (length s.used) then ok tt (record s { used = set s.used n mark }) else fault
mark_block (negsuc n) mark s = fault

-- The `memcpy` of `n` bytes from `from_ptr + (BLOCK_SIZE * block_num)`. The product is an `int`: its
-- overflow is a fault, and so is an address in front of the mapping.
unfoldable pub load_block : Image → ℤ → ℕ → Cmd (List ℕ)
load_block m (negsuc b) n s = fault
load_block m (pos b) n s =
    if ltb (block_size * b) (2 ^ 31)
    then elim (load_bytes m (m.base + block_size * b) n) [ none ↦ fault | some xs ↦ ok xs s ]
    else fault

-- `fwrite` writes as many of the bytes as the system says, and returns their number.
unfoldable pub write_out : Env → List ℕ → Cmd ℕ
write_out env xs s =
    let n = env.fwrite s.tick (length xs) in
    ok n (record s { out = s.out ++ take n xs; tick = s.tick + 1 })

-- The loop of `unwind_iblock`: the position of the first number that is out of range.
unfoldable pub valid_prefix : Image → List ℤ → ℕ
valid_prefix m [] = 0
valid_prefix m (b ∷ bs) = if out_of_range (max_block_number m) b then 0 else suc (valid_prefix m bs)

-- `if (bytes > BLOCK_SIZE) bytes = BLOCK_SIZE;`
unfoldable pub clip : ℕ → ℕ
clip bytes = if ltb block_size bytes then block_size else bytes

-- The end of `copy_i1block`: its early return, or the mark and the count.
unfoldable pub after_blocks : ℤ → Option ℤ → Cmd ℤ
after_blocks block_num none = pure block_copy_error
after_blocks block_num (some data_copied) = do mark_block block_num is_iblock; pure data_copied

module _ (env : Env) (m : Image) where
  -- The end of `copy_dblock`: the write of the buffer, its check, and the mark.
  unfoldable pub write_block : ℤ → ℕ → List ℕ → Cmd ℤ
  write_block block_num n copy_buffer = do
    written ← write_out env copy_buffer
    if not (written == n)
        then pure block_copy_error
        else do mark_block block_num is_dblock; pure (pos n)

  unfoldable pub copy_dblock : ℤ → ℤ → Cmd ℤ
  copy_dblock block_num bytes = if ltb_ℤ bytes (pos 0) then pure neg_byte_req else do
    let n = clip (pos_part bytes)
    allocated ← ask env.malloc_ok
    if not allocated
        then pure gen_error
        else do copy_buffer ← load_block m block_num n; write_block block_num n copy_buffer

  -- `block_buffer[block_pos]`, which lies behind the array if the loop has not left early.
  unfoldable pub buffer_at : List ℤ → ℕ → Cmd ℤ
  buffer_at block_buffer block_pos = elim (get_elem? block_buffer block_pos) [
    | some b ↦ pure b
    | none ↦ ask env.beyond
  ]

  -- The result and what the call leaves in `block_buffer`.
  unfoldable pub unwind_iblock : ℤ → Cmd (ℤ × List ℤ)
  unwind_iblock block_num = do
    bytes ← load_block m block_num block_size
    let block_buffer = words bytes
    let block_pos = valid_prefix m block_buffer
    b ← buffer_at block_buffer block_pos
    if eqb_ℤ b (pos 0)
        then pure (no_pointers_in_iblock, block_buffer)
        else do mark_block block_num is_iblock; pure (pos block_pos, block_buffer)

  -- The loop of `copy_i1block` over the block numbers; `none` is its early return.
  unfoldable pub copy_blocks : ℤ → List ℤ → ℤ → Cmd (Option ℤ)
  copy_blocks bytes [] data_copied = pure (some data_copied)
  copy_blocks bytes (b ∷ bs) data_copied = do
    bytes_copied ← copy_dblock b (bytes -ℤ data_copied)
    if eqb_ℤ bytes_copied block_copy_error || eqb_ℤ bytes_copied gen_error
        then pure none
        else copy_blocks bytes bs (data_copied +ℤ bytes_copied)

  unfoldable pub copy_i1block : ℤ → ℤ → Cmd ℤ
  copy_i1block block_num bytes = if ltb_ℤ bytes (pos 0) then pure neg_byte_req else do
    (block_count, block_buffer) ← unwind_iblock block_num
    if eqb_ℤ block_count no_pointers_in_iblock then pure no_pointers_in_iblock else do
      copied ← copy_blocks bytes (take (pos_part block_count) block_buffer) (pos 0)
      after_blocks block_num copied
