-- ===== src/Recover/File/Levels.antt =====
-- Each level of `main`'s copy takes the bytes behind its blocks, as far as they are wanted.
use cs.Prelude.{
  ℕ, ◌+◌, ◌-◌, ◌^◌, ◌≤◌, ◌<◌, ◌≡◌, refl, ◌∙◌, ◌⊎◌, inl, inr, true, false, ◌||◌, List, [], ◌∷◌, ◌++◌,
  arith, length, take, All, ℤ, pos, eqb_ℤ, leb_ℤ, ap, pos-sub, pos-add,
}
use cs.Recover.Image.{Image, max_block_number}
use cs.Recover.Inode.{IsBlock, gen_error}
use cs.Recover.Run.{State, Env}
use cs.Recover.Copy.{block_copy_error}
use cs.Recover.Copy.Outcome.{
  Benign, Marked, Kept, Kept-trans, Kept-refl, Safe, returns, exits, bind, mono,
}
use cs.Recover.Copy.Took.{Took, Took-one, Took-shift, Took-le, Took-nil, Took-append}
use cs.Recover.Copy.Blocks.{block_data, copy_dblock-Copied}
use cs.Recover.Copy.Indirect.{blocks_data, i1_data, copy_i1block-Copied}
use cs.Recover.File.{
  advance, is_wild, copy_direct, copy_indirect_block, copy_indirect, copy_i1_entries,
}
use cs.Recover.File.Spec.{i1s_data}

pub IsBlock-nonneg : {max : ℕ} {b : ℤ} → IsBlock max b → leb_ℤ (pos 0) b ≡ true
IsBlock-nonneg is = ground arith

pub IsBlock-not-wild : (m : Image) {b : ℤ} → IsBlock (max_block_number m) b → is_wild m b ≡ false
IsBlock-not-wild m is = ground arith

pos-fine : (k : ℕ) → (eqb_ℤ (pos k) gen_error || eqb_ℤ (pos k) block_copy_error) ≡ false
pos-fine k = ground arith

advance-pos : (acc k : ℕ) → advance (pos acc) (pos k) ≡ pos (acc + k)
advance-pos acc k =
    let e : leb_ℤ (pos 0) (pos k) ≡ true = ground arith in rw (advance, e) (pos-add acc k)

module _ (m : Image) (small : m.size < 2 ^ 31) (env : Env) (n : ℕ) where
  -- `r` is the new `data_copied`: the bytes of `xs` have been taken, or the system has misbehaved.
  abbrev pub Level : ℕ → List ℕ → State → ℤ → State → Type 0
  Level acc xs s r t =
      Kept (max_block_number m) s t
      × (k : ℕ) × (r ≡ pos k)
      × (k ≤ n)
      × (Took n acc xs s k t ⊎ ¬ Benign env)

  -- Two steps in turn.
  pub Level-append :
      {acc k : ℕ} {xs ys : List ℕ} {s t u : State} {r : ℤ}
      → acc ≤ n
      → Kept (max_block_number m) s t
      → (Took n acc xs s k t ⊎ ¬ Benign env)
      → Level k ys t r u
      → Level acc (xs ++ ys) s r u
  Level-append le kept (inl first) (kept', l, e, le', inl second) =
      (Kept-trans kept kept', l, e, le', inl (Took-append le first second))
  Level-append le kept (inr bad) (kept', l, e, le', _) = (Kept-trans kept kept', l, e, le', inr bad)
  Level-append le kept (inl _) (kept', l, e, le', inr bad) =
      (Kept-trans kept kept', l, e, le', inr bad)

  -- A level after a step that has written nothing.
  pub Level-from :
      {acc : ℕ} {xs : List ℕ} {s t u : State} {r : ℤ}
      → Kept (max_block_number m) s t
      → t.out ≡ s.out
      → Level acc xs t r u
      → Level acc xs s r u
  Level-from {acc} {xs} kept same (kept', l, e, le, inl took) = (
    Kept-trans kept kept',
    l,
    e,
    le,
    inl (record { count = took.count; out = took.out ∙ ap (λ ys. ys ++ take (n - acc) xs) same }),
  )
  Level-from kept same (kept', l, e, le, inr bad) = (Kept-trans kept kept', l, e, le, inr bad)

  pub copy_direct-Level :
      (acc : ℕ) (bs : List ℤ) (s : State)
      → acc ≤ n
      → All (IsBlock (max_block_number m)) bs
      → Marked (max_block_number m) s
      → Safe env (Level acc (blocks_data m bs) s) (copy_direct env m (pos n) bs (pos acc) s)
  unfolding copy_direct blocks_data
  copy_direct-Level acc [] s le is v = returns (Kept-refl v, acc, refl, le, inl (Took-nil refl))
  copy_direct-Level acc (b ∷ bs) s le is v =
      rw (copy_direct, IsBlock-nonneg is.0, pos-sub le)
        (bind (copy_dblock-Copied m small env (n - acc) is.0 v) λ r t p. elim p.1 [
          | inl (len, out) ↦
              let k : ℕ = length (take (n - acc) (block_data m b)) in
              let took : Took n acc (block_data m b) s (acc + k) t = Took-one out in
              rw (len, pos-fine k, advance-pos acc k)
                (mono (copy_direct-Level (acc + k) bs t (Took-le le took) is.1 p.0.marked)
                  λ r' u rest. Level-append le p.0 (inl took) rest)
          | inr (bad, e) ↦
              let stop : (eqb_ℤ r gen_error || eqb_ℤ r block_copy_error) ≡ true = ground arith in
              rw stop (exits bad)
        ])

  copy_indirect_block-Level :
      (acc : ℕ) {b : ℤ} (s : State)
      → acc ≤ n
      → IsBlock (max_block_number m) b
      → Marked (max_block_number m) s
      → Safe env (Level acc (i1_data m b) s) (copy_indirect_block env m (pos n) b (pos acc) s)
  unfolding copy_indirect_block
  copy_indirect_block-Level acc {b} s le is v =
      rw (copy_indirect_block, pos-sub le)
        (bind (copy_i1block-Copied m small env (n - acc) is v) λ r t p. elim p.1 [
          | inl (k, e, took) ↦
              rw (e, copied-fine k, advance-pos acc k)
                (returns (
                  p.0,
                  acc + k,
                  refl,
                  omega (arith, Took-le le (Took-shift took)),
                  inl (Took-shift took),
                ))
          | inr (bad, inl e) ↦ rw e (returns (p.0, acc, refl, le, inr bad))
          | inr (bad, inr e) ↦ rw e (exits bad)
        ])
    where
      copied-fine : (k : ℕ) → eqb_ℤ (pos k) block_copy_error ≡ false
      copied-fine k = ground arith

  pub copy_indirect-Level :
      (acc : ℕ) (bs : List ℤ) (s : State)
      → acc ≤ n
      → All (IsBlock (max_block_number m)) bs
      → Marked (max_block_number m) s
      → Safe env (Level acc (i1s_data m bs) s) (copy_indirect env m (pos n) bs (pos acc) s)
  unfolding copy_indirect i1s_data
  copy_indirect-Level acc [] s le is v = returns (Kept-refl v, acc, refl, le, inl (Took-nil refl))
  copy_indirect-Level acc (b ∷ bs) s le is v =
      rw (copy_indirect, IsBlock-nonneg is.0)
        (bind (copy_indirect_block-Level acc s le is.0 v) λ r t (kept, k, e, le', took). rw e (
          mono (copy_indirect-Level k bs t le' is.1 kept.marked)
            λ r' u rest. Level-append le kept took rest))

  pub copy_i1_entries-Level :
      (acc : ℕ) (bs : List ℤ) (s : State)
      → acc ≤ n
      → All (IsBlock (max_block_number m)) bs
      → Marked (max_block_number m) s
      → Safe env (Level acc (i1s_data m bs) s) (copy_i1_entries env m (pos n) bs (pos acc) s)
  unfolding copy_i1_entries i1s_data
  copy_i1_entries-Level acc [] s le is v = returns (Kept-refl v, acc, refl, le, inl (Took-nil refl))
  copy_i1_entries-Level acc (b ∷ bs) s le is v =
      rw (copy_i1_entries, IsBlock-nonneg is.0, IsBlock-not-wild m is.0)
        (bind (copy_indirect_block-Level acc s le is.0 v) λ r t (kept, k, e, le', took). rw e (
          mono (copy_i1_entries-Level k bs t le' is.1 kept.marked)
            λ r' u rest. Level-append le kept took rest))
