-- ===== src/Recover/Main.antt =====
-- `main` of Asmt_6/recover.c: the loop over the inodes found, and the count of the blocks at the end.
pub mod Inodes
pub mod Loop
use Prim.Native.String.{String}
use cs.Prelude.{
  ℕ, zero, suc, ◌+◌, ◌/◌, not, Option, none, some, List, [], ◌∷◌, ◌++◌, ltb, ◌==◌, if◌then◌else◌,
  replicate, ℤ, pos, ltb_ℤ, eqb_ℤ,
}
use cs.Recover.Image.{Image, int_size, map_end, max_block_number}
use cs.Recover.Inode.{Inode, inode_size, load_inode, check_inode, gen_error}
use cs.Recover.Search.{found, not_found, segv, no_fuel, find_inode}
use cs.Recover.Run.{Recovered, State, Env, ok, fault, out_of_fuel, Cmd, pure, ◌>>=◌, ◌>>◌, die, ask}
use cs.Recover.Copy.{is_unknow, is_dblock, is_iblock}
use cs.Recover.File.{copy_file}
use cs.Recover.Extension.{guess_file_extension}

-- `fopen (output_file_name, "w")` empties the output file.
unfoldable pub truncate : Cmd (Unit {0})
truncate s = ok tt (record s { out = [] })

-- The output file is closed under its final name.
unfoldable pub keep_file : ℕ → String → Cmd (Unit {0})
keep_file number extension s =
    let file : Recovered = record { number = number; extension = extension; bytes = s.out } in
    ok tt (record s { files = s.files ++ (file ∷ []) })

module _ (env : Env) where
  -- `fork`, and `mv` in the child. If `mv` cannot be run the file keeps its number for a name.
  unfoldable pub rename_file : ℕ → String → Cmd (Unit {0})
  rename_file number extension = do
    forked ← ask env.fork_ok
    if not forked
        then die
        else do renamed ← ask env.mv_ok; keep_file number (if renamed then extension else "")

  -- The guess of the extension. A null result is a fault of the `strcat` that follows.
  unfoldable pub name_file : ℕ → Cmd (Unit {0})
  name_file number s =
      (do
        reopened ← ask env.fopen_ok
        stale ← ask env.stale
        elim (guess_file_extension stale (if reopened then some s.out else none)) [
          | none ↦ λ _. fault
          | some extension ↦ rename_file number extension
        ])
        s

  module _ (m : Image) where
    -- The body of the loop for one inode.
    unfoldable pub recover_inode : Inode → ℕ → Cmd (Unit {0})
    recover_inode f file_num =
        if eqb_ℤ (check_inode (max_block_number m) f) gen_error then pure tt else do
          opened ← ask env.fopen_ok
          if not opened then die else do truncate; copied ← copy_file env m f; name_file file_num

    -- The loop, from `search_ptr`. The next search starts behind the inode that was found.
    unfoldable pub recover_loop : ℤ → ℤ → ℕ → ℕ → ℕ → Cmd (Unit {0})
    recover_loop uid gid zero search_ptr file_num = λ _. out_of_fuel
    recover_loop uid gid (suc fuel) search_ptr file_num =
        elim (find_inode m search_ptr (map_end m) uid gid) [
          | not_found ↦ pure tt
          | segv ↦ λ _. fault
          | no_fuel ↦ λ _. out_of_fuel
          | found f ↦ elim (load_inode m f) [
            | none ↦ λ _. fault
            | some node ↦ do
              recover_inode node file_num
              recover_loop uid gid fuel (f + inode_size) (file_num + 1)
          ]
        ]

-- What the last loop of `main` prints and counts.
pub record Counts : Type 0 where
  pub unused : List ℕ
  pub unk_count : ℕ
  pub dbk_count : ℕ
  pub ibk_count : ℕ

-- The three tests for one entry of `used_block_array`.
unfoldable pub count_block : ℕ → ℕ → Counts → Counts
count_block block_pos mark c = record {
  unused = if mark == is_unknow then c.unused ++ (block_pos ∷ []) else c.unused;
  unk_count = if mark == is_unknow then c.unk_count + 1 else c.unk_count;
  dbk_count = if mark == is_dblock then c.dbk_count + 1 else c.dbk_count;
  ibk_count = if mark == is_iblock then c.ibk_count + 1 else c.ibk_count;
}

unfoldable pub count_loop : ℕ → List ℕ → Counts → Counts
count_loop block_pos [] c = c
count_loop block_pos (mark ∷ marks) c =
    count_loop (block_pos + 1) marks (count_block block_pos mark c)

abbrev pub no_counts : Counts
no_counts = record { unused = []; unk_count = 0; dbk_count = 0; ibk_count = 0 }

-- Each round finds an inode behind the one before.
abbrev pub recover_fuel : Image → ℕ
recover_fuel m = m.size / int_size + 1

unfoldable pub report : Cmd Counts
report s = ok (count_loop 0 s.used no_counts) s

-- `memset` of the new `used_block_array`.
unfoldable pub clear_used : ℕ → Cmd (Unit {0})
clear_used max s = ok tt (record s { used = replicate max is_unknow })

-- What `main` does once the file is mapped.
unfoldable pub scan_image : Env → Image → ℤ → ℤ → Cmd Counts
scan_image env m search_uid search_gid = do
  allocated ← ask env.malloc_ok
  if not allocated then die else do
    clear_used (max_block_number m)
    recover_loop env m search_uid search_gid (recover_fuel m) m.base 0
    counts ← report
    unmapped ← ask env.munmap_ok
    if not unmapped then die else pure counts

-- `argc` and the values of the first two arguments; the image is `none` if the file cannot be opened
-- or mapped. Only the user's number is checked: the test of the group compares a pointer.
unfoldable pub main : Env → ℕ → ℤ → ℤ → Option Image → Cmd Counts
main env argc search_uid search_gid image =
    if ltb argc 4
    then die
    else (if ltb_ℤ search_uid (pos 0)
        then die
        else elim image [ none ↦ die | some m ↦ scan_image env m search_uid search_gid ])
