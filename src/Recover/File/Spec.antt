-- ===== src/Recover/File/Spec.antt =====
-- What a file holds, as an inode lays it out, and what the program makes of its last level.
use cs.Prelude.{List, [], ◌∷◌, ◌++◌, ℕ, ℤ}
use cs.Recover.Image.{Image}
use cs.Recover.Inode.{Inode}
use cs.Recover.Copy.Blocks.{pointers}
use cs.Recover.Copy.Indirect.{blocks_data, i1_data}

-- The bytes behind several indirect blocks.
unfoldable pub i1s_data : Image → List ℤ → List ℕ
i1s_data m [] = []
i1s_data m (b ∷ bs) = i1_data m b ++ i1s_data m bs

-- The bytes behind a doubly indirect block.
unfoldable pub i2_data : Image → ℤ → List ℕ
i2_data m b = i1s_data m (pointers m b)

-- The bytes of the doubly indirect block `b`, once for each of `bs`.
unfoldable pub repeated : Image → ℤ → List ℤ → List ℕ
repeated m b [] = []
repeated m b (_ ∷ bs) = i2_data m b ++ repeated m b bs

-- The bytes that are copied: those of the direct, the indirect and the doubly indirect blocks; then
-- those of the doubly indirect block again, once for each block that the triply indirect one names.
unfoldable pub file_data : Image → Inode → List ℕ
file_data m f =
    blocks_data m f.dblocks
    ++ (i1s_data m f.iblocks
        ++ (i2_data m f.i2block ++ repeated m f.i2block (pointers m f.i3block)))

-- The bytes behind several doubly indirect blocks.
unfoldable pub i2s_data : Image → List ℤ → List ℕ
i2s_data m [] = []
i2s_data m (b ∷ bs) = i2_data m b ++ i2s_data m bs

-- The bytes behind the direct, the indirect and the doubly indirect blocks.
unfoldable pub three_levels : Image → Inode → List ℕ
three_levels m f = blocks_data m f.dblocks ++ (i1s_data m f.iblocks ++ i2_data m f.i2block)

-- The bytes of the file that an inode describes: the triply indirect block names doubly indirect
-- blocks, and each of them is unwound.
unfoldable pub original : Image → Inode → List ℕ
original m f = three_levels m f ++ i2s_data m (pointers m f.i3block)
