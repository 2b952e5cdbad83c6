-- ===== src/Recover/Examples.antt =====
-- Tests of the model of Asmt_6/recover.c, and its theorems at a small image.
use cs.Prelude.{
  ℕ, ◌+◌, ◌*◌, ◌≡◌, refl, true, some, [], ◌∷◌, ◌==◌, if◌then◌else◌, arith, replicate, pos,
}
use cs.Recover.Image.{Image, byte_at, load_byte, load_int, map_end}
use cs.Recover.Image.Laws.{IsMapping}
use cs.Recover.Inode.{Inode, load_ints, load_inode}
use cs.Recover.Search.{found, find_inode, find_loop, try_word}
use cs.Recover.Search.Laws.{Outcome, find_inode-Outcome}
use cs.Recover.Run.{State, Env}
use cs.Recover.Copy.{is_unknow}
use cs.Recover.Extension.{guess_file_extension, guess_from, fill_buffer, check_loop}

-- Four blocks. The first holds an inode of user 7 and group 9, for a file of five bytes; each of its
-- blocks is block 0.
abbrev small_content : ℕ → ℕ
small_content i = if i == 8 then 7 else (if i == 12 then 9 else (if i == 16 then 5 else 0))

abbrev small_image : Image
small_image = record { base = 4096; size = 4096; slack = 0; content = small_content }

abbrev small_inode : Inode
small_inode = record {
  foo = pos 0;
  nlink = pos 0;
  uid = pos 7;
  gid = pos 9;
  size = pos 5;
  ctime = pos 0;
  mtime = pos 0;
  atime = pos 0;
  dblocks = replicate 12 (pos 0);
  iblocks = replicate 3 (pos 0);
  i2block = pos 0;
  i3block = pos 0;
}

-- A system that refuses nothing.
abbrev willing : Env
willing = record {
  malloc_ok = λ t. true;
  fwrite = λ t n. n;
  fopen_ok = λ t. true;
  fork_ok = λ t. true;
  mv_ok = λ t. true;
  munmap_ok = λ t. true;
  beyond = λ t. pos 1;
  stale = λ t. replicate 20 0;
}

abbrev fresh : State
fresh = record { used = replicate 4 is_unknow; out = []; files = []; tick = 0 }

small_image-IsMapping : IsMapping small_image
small_image-IsMapping = omega arith

load_inode_runs : load_inode small_image 4096 ≡ some small_inode
unfolding load_inode load_ints load_int load_byte byte_at
load_inode_runs = refl

find_inode_runs : find_inode small_image 4096 8192 (pos 7) (pos 9) ≡ found 4096
unfolding find_inode find_loop try_word load_int load_byte byte_at
find_inode_runs = refl

find_inode-Outcome_example :
    Outcome small_image
      (pos 7)
      (pos 9)
      0
      (find_inode small_image (4096 + 4 * 0) (map_end small_image) (pos 7) (pos 9))
find_inode-Outcome_example = find_inode-Outcome small_image (pos 7) (pos 9) small_image-IsMapping 0

-- An empty file: the guess is what the buffer happened to hold.
guess_of_empty : guess_file_extension (0x4D ∷ 0x5A ∷ replicate 18 0) (some []) ≡ some ".exe"
unfolding guess_file_extension guess_from fill_buffer check_loop
guess_of_empty = refl
