-- ===== src/Recover/Copy/Blocks.antt =====
-- Copying one block, and the block numbers of an indirect block.
use cs.Prelude.{
  ℕ, ◌+◌, ◌*◌, ◌^◌, ◌≤◌, ◌<◌, ◌≡◌, ◌≢◌, refl, sym, ◌∙◌, ◌⊎◌, inl, inr, true, false, List, [], ◌∷◌,
  ◌++◌, arith, Bool-cases, some, lt→ltb, length, get_elem?, set, take, All, All-set, length-set,
  take_all, ℤ, pos, min, pos_part, ltb_ℤ, ◌==◌, ==_iff, ap,
}
use cs.Recover.Image.{Image, block_size, max_block_number, words, slice}
use cs.Recover.Image.Laws.{load_bytes-slice, length-slice, take-slice}
use cs.Recover.Inode.{IsBlock, out_of_range, gen_error}
use cs.Recover.Inode.Laws.{out_of_range-IsBlock}
use cs.Recover.Run.{State, Env, ok}
use cs.Recover.Copy.{
  block_copy_error, clip, is_dblock, mark_block, load_block, write_out, write_block, copy_dblock,
  valid_prefix,
}
use cs.Recover.Copy.Outcome.{mono, Benign, Marked, Kept, Safe, returns}

-- The bytes of a block.
abbrev pub block_data : Image → ℤ → List ℕ
block_data m b = slice m (block_size * pos_part b) block_size

-- The block numbers in an indirect block, up to the first that lies outside of the file.
pub pointers : Image → ℤ → List ℤ
pointers m b = let ws = words (block_data m b) in take (valid_prefix m ws) ws

pub take-valid_prefix :
    (m : Image) (b : ℤ)
    → take (valid_prefix m (words (block_data m b))) (words (block_data m b)) ≡ pointers m b
unfolding pointers
take-valid_prefix m b = refl

valid_prefix-All :
    (m : Image) (bs : List ℤ) → All (IsBlock (max_block_number m)) (take (valid_prefix m bs) bs)
unfolding valid_prefix
valid_prefix-All m [] = tt
valid_prefix-All m (b ∷ bs) = elim (Bool-cases (out_of_range (max_block_number m) b)) [
  | inl bad ↦ rw bad tt
  | inr good ↦ rw good (out_of_range-IsBlock _ b good, valid_prefix-All m bs)
]

zero_in_range : (max : ℕ) (c : ℤ) → 0 < max → out_of_range max c ≡ true → c ≢ pos 0
zero_in_range max c some_block bad e = ground arith

-- The number that ended the prefix is out of range, so it is not 0.
pub valid_prefix-stop :
    (m : Image) (bs : List ℤ) {b : ℤ}
    → 0 < max_block_number m
    → get_elem? bs (valid_prefix m bs) ≡ some b
    → b ≢ pos 0
unfolding valid_prefix
valid_prefix-stop m [] some_block e = cc
valid_prefix-stop m (c ∷ bs) {b} some_block e =
    elim (Bool-cases (out_of_range (max_block_number m) c)) [
      | inl bad ↦
          λ zero_block. zero_in_range (max_block_number m) c some_block bad (cc (rw bad at e))
      | inr good ↦ valid_prefix-stop m bs some_block (rw good at e)
    ]

pub pointers-All : (m : Image) (b : ℤ) → All (IsBlock (max_block_number m)) (pointers m b)
unfolding pointers
pointers-All m b = valid_prefix-All m (words (block_data m b))

module _ {max : ℕ} where
  pub mark_block-Kept :
      (mark : ℕ) {b : ℤ} {s : State}
      → mark ≤ 2
      → IsBlock max b
      → Marked max s
      → (t : State) × (mark_block b mark s ≡ ok tt t) × Kept max s t × (t.out ≡ s.out)
  unfolding mark_block
  mark_block-Kept mark {b} {s} small (n, e, inside) v = (
    record s { used = set s.used n mark },
    rw (e, lt→ltb n (length s.used) (omega (arith, v.size))),
    record {
      marked = record {
        size = length-set s.used n mark ∙ v.size;
        marks = All-set (λ u. u ≤ 2) s.used n mark small v.marks;
      };
      files = refl;
    },
    refl,
  )

module _ (m : Image) (small : m.size < 2 ^ 31) where
  pub load_block-ok :
      (n : ℕ) {b : ℤ} (s : State)
      → n ≤ block_size
      → IsBlock (max_block_number m) b
      → load_block m b n s ≡ ok (slice m (block_size * pos_part b) n) s
  unfolding load_block
  load_block-ok n {b} s le (k, e, inside) = rw (
    e,
    lt→ltb (block_size * k) (2 ^ 31) (omega arith),
    load_bytes-slice m n (m.base + block_size * k) (block_size * k) refl (omega arith),
  )

  copy_buffer-take :
      (n : ℕ) (b : ℤ) → slice m (block_size * pos_part b) (clip n) ≡ take n (block_data m b)
  unfolding clip
  copy_buffer-take n b =
      let e : clip n ≡ min n block_size = ground arith in
      rw (take-slice m n (block_size * pos_part b) block_size, ← e)

  length-buffer : (n : ℕ) (b : ℤ) → length (take n (block_data m b)) ≡ clip n
  length-buffer n b =
      rw (← copy_buffer-take n b) (length-slice m (block_size * pos_part b) (clip n))

  clip-le : (n : ℕ) → clip n ≤ block_size
  unfolding clip
  clip-le n = ground arith

  module _ (env : Env) where
    write_block-Safe :
        (n : ℕ) (xs : List ℕ) {b : ℤ} {s : State}
        → length xs ≡ n
        → IsBlock (max_block_number m) b
        → Marked (max_block_number m) s
        → Safe env
            (λ r t.
              Kept (max_block_number m) s t
              × (((r ≡ pos n) × (t.out ≡ s.out ++ xs)) ⊎ ((¬ Benign env) × (r ≡ block_copy_error))))
            (write_block env m b n xs s)
    unfolding write_block write_out
    write_block-Safe n xs {b} {s} len is v =
        elim (Bool-cases (env.fwrite s.tick (length xs) == n)) [
          | inl all ↦
              let done : env.fwrite s.tick (length xs) ≡ n = (==_iff _ _).0 all in
              let (t, marked, kept, out) =
                mark_block-Kept {max = max_block_number m} is_dblock {b = b}
                  {s = record s {
                    out = s.out ++ take (env.fwrite s.tick (length xs)) xs;
                    tick = s.tick + 1;
                  }}
                  (omega arith) is (record { size = v.size; marks = v.marks }) in
              rw (write_block, write_out, all, marked)
                (returns (
                  record { marked = kept.marked; files = kept.files },
                  inl (refl, out ∙ ap (λ ys. s.out ++ ys) (rw done (take_all n xs (omega arith)))),
                ))
          | inr short ↦
              rw (write_block, write_out, short)
                (returns (
                  record { marked = record { size = v.size; marks = v.marks }; files = refl },
                  inr (
                    λ sys. cc ((==_iff _ n).1 (sys.writes s.tick (length xs) ∙ len), short),
                    refl,
                  ),
                ))
        ]

    -- `copy_dblock` has written the first `n` bytes of the data and says how many these are, or the
    -- system has refused something and it returns one of its two errors.
    abbrev pub Copied : State → ℕ → List ℕ → ℤ → State → Type 0
    Copied s n xs r t =
        Kept (max_block_number m) s t
        × (((r ≡ pos (length (take n xs))) × (t.out ≡ s.out ++ take n xs))
            ⊎ ((¬ Benign env) × ((r ≡ gen_error) ⊎ (r ≡ block_copy_error))))

    -- copy_dblock appends the wanted part of one block, returns its length and marks the block, or
    -- returns one of two errors if the system refused something.
    pub copy_dblock-Copied :
        (n : ℕ) {b : ℤ} {s : State}
        → IsBlock (max_block_number m) b
        → Marked (max_block_number m) s
        → Safe env (Copied s n (block_data m b)) (copy_dblock env m b (pos n) s)
    unfolding copy_dblock
    copy_dblock-Copied n {b} {s} is v =
        let nonneg : ltb_ℤ (pos n) (pos 0) ≡ false = ground arith in
        rw (copy_dblock, nonneg)
          (elim (Bool-cases (env.malloc_ok s.tick)) [
            | inr refused ↦ rw refused (
                returns (
                  record { marked = record { size = v.size; marks = v.marks }; files = refl },
                  inr (λ sys. cc (sys.allocates s.tick, refused), inl refl),
                ))
            | inl allocated ↦
                rw
                  (
                    allocated,
                    load_block-ok (clip n) (record s { tick = s.tick + 1 }) (clip-le n) is,
                  )
                  (rw (copy_buffer-take n b) (
                    mono
                      (write_block-Safe (clip n) (take n (block_data m b)) (length-buffer n b) is
                        (record { size = v.size; marks = v.marks }))
                      λ r t p. (
                        record { marked = p.0.marked; files = p.0.files },
                        elim p.1 [
                          | inl (len, out) ↦ inl (len ∙ ap pos (sym (length-buffer n b)), out)
                          | inr (bad, e) ↦ inr (bad, inr e)
                        ],
                      )))
          ])
