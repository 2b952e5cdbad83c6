-- ===== src/Recover/Inode/Laws.antt =====
-- What `check_inode` accepts.
use cs.Prelude.{
  ℕ, ◌≡◌, refl, ◌↔◌, ◌⊎◌, inl, inr, false, List, [], ◌∷◌, arith, Bool-cases, ℤ, pos, negsuc, All,
}
use cs.Recover.Inode.{Inode, IsBlock, out_of_range, any_out_of_range, check_inode, gen_error}

-- Every block that the inode refers to lies within the file.
pub record IsValid (max : ℕ) (node : Inode) : Type 0 where
  pub direct : All (IsBlock max) node.dblocks
  pub indirect : All (IsBlock max) node.iblocks
  pub double : IsBlock max node.i2block
  pub triple : IsBlock max node.i3block

pub out_of_range-IsBlock : (max : ℕ) (b : ℤ) → out_of_range max b ≡ false → IsBlock max b
out_of_range-IsBlock max (pos n) h = (n, refl, ground arith)
out_of_range-IsBlock max (negsuc n) h = ground arith

IsBlock-out_of_range : (max : ℕ) (b : ℤ) → IsBlock max b → out_of_range max b ≡ false
IsBlock-out_of_range max b (n, e, h) = ground arith

any_out_of_range-All :
    (max : ℕ) (bs : List ℤ) → any_out_of_range max bs ≡ false → All (IsBlock max) bs
unfolding any_out_of_range
any_out_of_range-All max [] h = tt
any_out_of_range-All max (b ∷ bs) h = elim (Bool-cases (out_of_range max b)) [
  | inl bad ↦ cc (rw bad at h)
  | inr good ↦ (out_of_range-IsBlock max b good, any_out_of_range-All max bs (rw good at h))
]

All-any_out_of_range :
    (max : ℕ) (bs : List ℤ) → All (IsBlock max) bs → any_out_of_range max bs ≡ false
unfolding any_out_of_range
All-any_out_of_range max [] h = refl
All-any_out_of_range max (b ∷ bs) h =
    rw (IsBlock-out_of_range max b h.0) (All-any_out_of_range max bs h.1)

check_inode_sound : (max : ℕ) (node : Inode) → check_inode max node ≡ pos 0 → IsValid max node
unfolding check_inode
check_inode_sound max node h = record {
  direct = any_out_of_range-All max node.dblocks (ground arith);
  indirect = any_out_of_range-All max node.iblocks (ground arith);
  double = out_of_range-IsBlock max node.i2block (ground arith);
  triple = out_of_range-IsBlock max node.i3block (ground arith);
}

check_inode_complete : (max : ℕ) (node : Inode) → IsValid max node → check_inode max node ≡ pos 0
unfolding check_inode
check_inode_complete max node v = rw (
  All-any_out_of_range max node.dblocks v.direct,
  All-any_out_of_range max node.iblocks v.indirect,
  IsBlock-out_of_range max node.i2block v.double,
  IsBlock-out_of_range max node.i3block v.triple,
)

-- check_inode returns 0 exactly for inodes whose block numbers all lie in the file, and GEN_ERROR
-- otherwise.
pub check_inode-IsValid :
    (max : ℕ) (node : Inode)
    → ((check_inode max node ≡ pos 0) ↔ IsValid max node)
      × ((check_inode max node ≡ pos 0) ⊎ (check_inode max node ≡ gen_error))
unfolding check_inode
check_inode-IsValid max node =
    ((check_inode_sound max node, check_inode_complete max node), ground arith)
