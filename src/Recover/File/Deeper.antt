-- ===== src/Recover/File/Deeper.antt =====
-- The double and triple levels of `main`'s copy, and the four levels in turn.
use cs.Prelude.{
  ℕ, ◌^◌, ◌≤◌, ◌<◌, ◌≡◌, refl, inl, inr, Bool-cases, List, [], ◌∷◌, arith, All, ℤ, pos, ltb_ℤ,
}
use cs.Recover.Image.{Image, max_block_number}
use cs.Recover.Inode.{Inode, IsBlock}
use cs.Recover.Inode.Laws.{IsValid}
use cs.Recover.Run.{State, Env, Cmd}
use cs.Recover.Copy.Outcome.{Marked, Kept-refl, Safe, returns, exits, bind, mono}
use cs.Recover.Copy.Took.{Took-nil, Took-full}
use cs.Recover.Copy.Blocks.{pointers, pointers-All, take-valid_prefix}
use cs.Recover.Copy.Indirect.{count-ne-error, unwind_iblock-Unwound}
use cs.Recover.File.{copy_indirect, copy_double, copy_i2_entries, copy_triple, if_more, copy_file}
use cs.Recover.File.Spec.{i2_data, repeated, file_data}
use cs.Recover.File.Levels.{
  IsBlock-nonneg, IsBlock-not-wild, Level, Level-append, Level-from, copy_direct-Level,
  copy_indirect-Level, copy_i1_entries-Level,
}

module _ (m : Image) (small : m.size < 2 ^ 31) (env : Env) (n : ℕ) where
  copy_double-Level :
      (acc : ℕ) {b : ℤ} (s : State)
      → acc ≤ n
      → IsBlock (max_block_number m) b
      → Marked (max_block_number m) s
      → Safe env (Level m small env n acc (i2_data m b) s) (copy_double env m (pos n) b (pos acc) s)
  unfolding copy_double i2_data
  copy_double-Level acc {b} s le is v =
      bind (unwind_iblock-Unwound m small env is v) λ (r, buffer) t (kept, same, whole, prefix).
        elim prefix [
          | inr (bad, e) ↦ rw e (exits bad)
          | inl e ↦
              rw (e, whole, count-ne-error, take-valid_prefix)
                (mono
                  (copy_i1_entries-Level m small env n acc (pointers m b) t le (pointers-All m b)
                    kept.marked)
                  λ r' u rest. Level-from m small env n kept same rest)
        ]

  copy_i2_entries-Level :
      (acc : ℕ) {b : ℤ} (bs : List ℤ) (s : State)
      → acc ≤ n
      → IsBlock (max_block_number m) b
      → All (IsBlock (max_block_number m)) bs
      → Marked (max_block_number m) s
      → Safe env
          (Level m small env n acc (repeated m b bs) s)
          (copy_i2_entries env m (pos n) b bs (pos acc) s)
  unfolding copy_i2_entries repeated
  copy_i2_entries-Level acc [] s le is all v =
      returns (Kept-refl v, acc, refl, le, inl (Took-nil refl))
  copy_i2_entries-Level acc {b} (c ∷ bs) s le is all v =
      rw (copy_i2_entries, IsBlock-nonneg all.0, IsBlock-not-wild m all.0)
        (bind (copy_double-Level acc s le is v) λ r t (kept, k, e, le', took). rw e (
          mono (copy_i2_entries-Level k bs t le' is all.1 kept.marked)
            λ r' u rest. Level-append m small env n le kept took rest))

  copy_triple-Level :
      (acc : ℕ) {b c : ℤ} (s : State)
      → acc ≤ n
      → IsBlock (max_block_number m) b
      → IsBlock (max_block_number m) c
      → Marked (max_block_number m) s
      → Safe env
          (Level m small env n acc (repeated m b (pointers m c)) s)
          (copy_triple env m (pos n) b c (pos acc) s)
  unfolding copy_triple
  copy_triple-Level acc {b} {c} s le is is' v =
      bind (unwind_iblock-Unwound m small env is' v) λ (r, buffer) t (kept, same, whole, prefix).
        elim prefix [
          | inr (bad, e) ↦ rw e (exits bad)
          | inl e ↦
              rw (e, whole, count-ne-error, take-valid_prefix)
                (mono
                  (copy_i2_entries-Level acc (pointers m c) t le is (pointers-All m c) kept.marked)
                  λ r' u rest. Level-from m small env n kept same rest)
        ]

  -- A level that is entered only while bytes are missing.
  if_more-Level :
      (copy : ℤ → Cmd ℤ) {acc : ℕ} {xs : List ℕ} {s : State}
      → acc ≤ n
      → Marked (max_block_number m) s
      → Safe env (Level m small env n acc xs s) (copy (pos acc) s)
      → Safe env (Level m small env n acc xs s) (if_more env m (pos n) copy (pos acc) s)
  if_more-Level copy {acc} {xs} le v go = elim (Bool-cases (ltb_ℤ (pos acc) (pos n))) [
    | inl more ↦ rw more go
    | inr done ↦
        let full : n ≤ acc = ground arith in
        rw done (returns (Kept-refl v, acc, refl, le, inl (Took-full full refl)))
  ]

  -- The four levels in turn, for a size that is not negative.
  pub copy_levels :
      (f : Inode) (s : State)
      → f.size ≡ pos n
      → IsValid (max_block_number m) f
      → Marked (max_block_number m) s
      → Safe env (Level m small env n 0 (file_data m f) s) (copy_file env m f s)
  unfolding copy_file file_data
  copy_levels f s e is v = rw e (
      bind (copy_direct-Level m small env n 0 f.dblocks s (omega arith) is.direct v)
        λ r1 t1 (kept1, k1, e1, le1, took1). rw e1 (
          mono
            (bind
              (if_more-Level (copy_indirect env m (pos n) f.iblocks) le1 kept1.marked
                (copy_indirect-Level m small env n k1 f.iblocks t1 le1 is.indirect kept1.marked))
              λ r2 t2 (kept2, k2, e2, le2, took2). rw e2 (
                mono
                  (bind
                    (if_more-Level (copy_double env m (pos n) f.i2block) le2 kept2.marked
                      (copy_double-Level k2 t2 le2 is.double kept2.marked))
                    λ r3 t3 (kept3, k3, e3, le3, took3). rw e3 (
                      mono
                        (if_more-Level (copy_triple env m (pos n) f.i2block f.i3block) le3
                          kept3.marked
                          (copy_triple-Level k3 t3 le3 is.double is.triple kept3.marked))
                        λ r4 t4 level. Level-append m small env n le2 kept3 took3 level))
                  λ r4 t4 level. Level-append m small env n le1 kept2 took2 level))
            λ r4 t4 level. Level-append m small env n (omega arith) kept1 took1 level))
