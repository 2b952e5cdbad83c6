-- ===== src/Recover/Copy/Indirect.antt =====
-- Unwinding an indirect block, and copying the blocks that it names.
use cs.Prelude.{
  ℕ, ◌+◌, ◌-◌, ◌^◌, ◌≤◌, ◌<◌, ◌≡◌, refl, ◌∙◌, ◌⊎◌, inl, inr, ◌≢◌, true, false, ◌||◌, List, [], ◌∷◌,
  ◌++◌, arith, Bool-cases, Option-cases, Option, none, some, length, length-append, pos_part, ◌*◌,
  get_elem?, take, All, ℤ, pos, eqb_ℤ, eqb_ℤ_iff, ltb_ℤ, ap, pos-sub, pos-add,
}
use cs.Recover.Image.{Image, max_block_number, words, block_size}
use cs.Recover.Image.Laws.{length-slice}
use cs.Recover.Inode.{IsBlock, gen_error}
use cs.Recover.Run.{State, Env, and_then, pure}
use cs.Recover.Copy.{
  block_copy_error, no_pointers_in_iblock, is_iblock, mark_block, valid_prefix, buffer_at,
  unwind_iblock, copy_blocks, after_blocks, copy_i1block,
}
use cs.Recover.Copy.Outcome.{Benign, Marked, Kept, Kept-trans, Safe, returns, bind, mono}
use cs.Recover.Copy.Took.{Took, Took-one, Took-le, Took-nil, Took-append}
use cs.Recover.Copy.Blocks.{
  block_data, pointers, pointers-All, take-valid_prefix, valid_prefix-stop, mark_block-Kept,
  load_block-ok, copy_dblock-Copied,
}

-- The bytes of several blocks, in order.
unfoldable pub blocks_data : Image → List ℤ → List ℕ
blocks_data m [] = []
blocks_data m (b ∷ bs) = block_data m b ++ blocks_data m bs

pub length-blocks_data :
    (m : Image) (bs : List ℤ) → length (blocks_data m bs) ≡ block_size * length bs
unfolding blocks_data
length-blocks_data m [] = refl
length-blocks_data m (b ∷ bs) = omega (
  arith,
  length-append (block_data m b) (blocks_data m bs),
  length-slice m (block_size * pos_part b) block_size,
  length-blocks_data m bs,
)

-- The bytes behind an indirect block.
pub i1_data : Image → ℤ → List ℕ
i1_data m b = blocks_data m (pointers m b)

pub count-ne-error : (k : ℕ) → eqb_ℤ (pos k) no_pointers_in_iblock ≡ false
count-ne-error k = ground arith

module _ (m : Image) (small : m.size < 2 ^ 31) (env : Env) where
  abbrev max : ℕ
  max = max_block_number m

  -- The result of unwinding block `b`: the whole block, and the length of its valid prefix.
  abbrev pub Unwound : State → ℤ → ℤ × List ℤ → State → Type 0
  Unwound s b (r, buffer) t =
      Kept (max_block_number m) s t
      × (t.out ≡ s.out)
      × (buffer ≡ words (block_data m b))
      × ((r ≡ pos (valid_prefix m buffer)) ⊎ ((¬ Benign env) × (r ≡ no_pointers_in_iblock)))

  -- unwind_iblock leaves the whole block in the buffer and returns the length of its valid prefix,
  -- unless the word behind a full buffer is 0.
  pub unwind_iblock-Unwound :
      {b : ℤ} {s : State}
      → IsBlock (max_block_number m) b
      → Marked (max_block_number m) s
      → Safe env (Unwound s b) (unwind_iblock env m b s)
  unfolding unwind_iblock buffer_at
  unwind_iblock-Unwound {b} {s} is v =
      rw (unwind_iblock, load_block-ok m small block_size s (omega arith) is)
        (elim (Option-cases (get_elem? ws stop)) [
          | inr (c, e) ↦
              rw (buffer_at, e, nonzero (valid_prefix-stop m ws some_block e))
                (marked s v refl refl)
          | inl e ↦
              rw (buffer_at, e)
                (elim (Bool-cases (eqb_ℤ (env.beyond s.tick) (pos 0))) [
                  | inl zero_there ↦ rw zero_there (
                      returns (
                        record { marked = record { size = v.size; marks = v.marks }; files = refl },
                        refl,
                        refl,
                        inr (λ sys. sys.nonzero s.tick ((eqb_ℤ_iff _ _).0 zero_there), refl),
                      ))
                  | inr other ↦ rw other (
                      marked (record s { tick = s.tick + 1 })
                        (record { size = v.size; marks = v.marks }) refl refl)
                ])
        ])
    where
      ws : List ℤ
      ws = words (block_data m b)

      stop : ℕ
      stop = valid_prefix m ws

      some_block : 0 < max_block_number m
      some_block = let (k, e, inside) = is in omega arith

      nonzero : {c : ℤ} → c ≢ pos 0 → eqb_ℤ c (pos 0) ≡ false
      nonzero {c} ne = elim (Bool-cases (eqb_ℤ c (pos 0))) [
        | inl same ↦ absurd (ne ((eqb_ℤ_iff _ _).0 same))
        | inr other ↦ other
      ]

      marked :
          (t : State)
          → Marked (max_block_number m) t
          → t.out ≡ s.out
          → t.files ≡ s.files
          → Safe env (Unwound s b) (and_then (mark_block b is_iblock t) λ _. pure (pos stop, ws))
      marked t w same_out same_files =
          let (u, e, kept, out) = mark_block-Kept is_iblock {b = b} {s = t} (omega arith) is w in
          rw e (
            returns (
              record { marked = kept.marked; files = kept.files ∙ same_files },
              out ∙ same_out,
              refl,
              inl refl,
            ))

  copy_blocks-Took :
      (n acc : ℕ) (bs : List ℤ) (s : State)
      → acc ≤ n
      → All (IsBlock (max_block_number m)) bs
      → Marked (max_block_number m) s
      → Safe env
          (λ r t.
            Kept (max_block_number m) s t
            × (((k : ℕ) × (r ≡ some (pos k)) × Took n acc (blocks_data m bs) s k t)
                ⊎ ((¬ Benign env) × (r ≡ none))))
          (copy_blocks env m (pos n) bs (pos acc) s)
  unfolding copy_blocks blocks_data
  copy_blocks-Took n acc [] s le is v =
      returns (record { marked = v; files = refl }, inl (acc, refl, Took-nil refl))
  copy_blocks-Took n acc (b ∷ bs) s le is v =
      rw (copy_blocks, pos-sub le)
        (bind (copy_dblock-Copied m small env (n - acc) is.0 v) λ r t p. elim p.1 [
          | inl (len, out) ↦
              let k : ℕ = acc + length (take (n - acc) (block_data m b)) in
              let fine : (eqb_ℤ (pos (length (take (n - acc) (block_data m b)))) block_copy_error
                    || eqb_ℤ (pos (length (take (n - acc) (block_data m b)))) gen_error)
                  ≡ false =
                ground arith in
              let took : Took n acc (block_data m b) s k t = Took-one out in
              rw (len, fine, pos-add)
                (mono (copy_blocks-Took n k bs t (Took-le le took) is.1 p.0.marked) λ q u rest. (
                  Kept-trans p.0 rest.0,
                  elim rest.1 [
                    | inl (l, e, more) ↦ inl (l, e, Took-append le took more)
                    | inr bad ↦ inr bad
                  ],
                ))
          | inr (bad, e) ↦
              let stop : (eqb_ℤ r block_copy_error || eqb_ℤ r gen_error) ≡ true = ground arith in
              rw stop (returns (p.0, inr (bad, refl)))
        ])

  -- `copy_i1block` has written the first `n` bytes behind the indirect block and says how many these
  -- are, or the system has misbehaved and it returns one of two errors.
  abbrev pub CopiedIndirect : State → ℕ → ℤ → ℤ → State → Type 0
  CopiedIndirect s n b r t =
      Kept (max_block_number m) s t
      × (((k : ℕ) × (r ≡ pos k) × Took n 0 (i1_data m b) s k t)
          ⊎ ((¬ Benign env) × ((r ≡ no_pointers_in_iblock) ⊎ (r ≡ block_copy_error))))

  -- copy_i1block appends the wanted part of the blocks behind an indirect block and returns their
  -- number, or an error if the system misbehaved, and never faults.
  pub copy_i1block-Copied :
      (n : ℕ) {b : ℤ} {s : State}
      → IsBlock (max_block_number m) b
      → Marked (max_block_number m) s
      → Safe env (CopiedIndirect s n b) (copy_i1block env m b (pos n) s)
  unfolding copy_i1block after_blocks i1_data
  copy_i1block-Copied n {b} {s} is v =
      let nonneg : ltb_ℤ (pos n) (pos 0) ≡ false = ground arith in
      rw (copy_i1block, nonneg)
        (bind (unwind_iblock-Unwound is v) λ (r, buffer) t (kept, same, whole, prefix).
          elim prefix [
            | inr (bad, e) ↦ rw e (returns (kept, inr (bad, inl refl)))
            | inl e ↦
                rw (e, whole, count-ne-error, take-valid_prefix)
                  (bind
                    (copy_blocks-Took n 0 (pointers m b) t (omega arith) (pointers-All m b)
                      kept.marked)
                    (finish t kept same))
          ])
    where
      finish :
          (t : State)
          → Kept (max_block_number m) s t
          → t.out ≡ s.out
          → (q : Option ℤ) (u : State)
          → Kept (max_block_number m) t u
            × (((k : ℕ) × (q ≡ some (pos k)) × Took n 0 (blocks_data m (pointers m b)) t k u)
                ⊎ ((¬ Benign env) × (q ≡ none)))
          → Safe env (CopiedIndirect s n b) (after_blocks b q u)
      finish t kept same q u (kept', inl (k, e, took)) =
          let (w, e', kept'', out) =
            mark_block-Kept is_iblock {b = b} {s = u} (omega arith) is kept'.marked in
          rw (e, after_blocks, e')
            (returns (
              Kept-trans kept (Kept-trans kept' kept''),
              inl (
                k,
                refl,
                record {
                  count = took.count;
                  out =
                      out
                      ∙ took.out
                      ∙ ap (λ ys. ys ++ take (n - 0) (blocks_data m (pointers m b))) same;
                },
              ),
            ))
      finish t kept same q u (kept', inr (bad, e)) =
          rw (e, after_blocks) (returns (Kept-trans kept kept', inr (bad, inr refl)))
