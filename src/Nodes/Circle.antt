-- ===== src/Nodes/Circle.antt =====
-- Closing a chain of nodes into a circle, as `uthread_create` of Asmt_4/uthread.c does.
use native.Mathlib.Decide.{ℕ_discrete}
use cs.Prelude.{
  ℕ, ◌<◌, ◌≡◌, refl, sym, ap, subst, ◌∙◌, Option, none, some, List, [], ◌∷◌, ◌++◌, arith, All,
}
use cs.Counting.{count, count-append, count-one, Distinct}
use cs.Exec.{done}
use cs.Nodes.{Node, Nodes, load, relink, next_in, datum_in}
use cs.Nodes.Chains.{Chain, Chain-relink_last}
use cs.Nodes.Retie.{last, Here, Here-relink, tied, tied-Chain, datum_in-tied}

-- The last pointer of a buffer, and those before it.
pub last-append : (t : ℕ) (ts : List ℕ) → (xs : List ℕ) × (t ∷ ts ≡ xs ++ (last t ts ∷ []))
last-append t [] = ([], refl)
last-append t (u ∷ ts) = let (xs, e) = last-append u ts in (t ∷ xs, ap (λ zs. t ∷ zs) e)

pub All-of_count : {P : ℕ → Type 0} (xs : List ℕ) → ((a : ℕ) → 0 < count a xs → P a) → All P xs
All-of_count [] f = tt
All-of_count (x ∷ xs) f = (f x (ground arith), All-of_count xs (λ a o. f a (omega (arith, o))))

module _ {D : Type 0} where
  pub Chain-Here :
      (h : Nodes D) (p q a : ℕ) (ts : List ℕ) → Chain h p ts q → 0 < count a ts → Here h a
  Chain-Here h p q a [] path o = absurd (omega arith)
  Chain-Here h p q a (t ∷ ts) (e, n, at, rest) o = elim (ℕ_discrete a t) [
    | yes same ↦ subst (Here h) (sym same) (here (h t) at)
    | no other ↦ Chain-Here h n q a ts rest (ground arith)
  ]
    where
      here : {k : ℕ} (c : Option (Node D)) → next_in c ≡ some k → (m : Node D) × (c ≡ some m)
      here none e = absurd (ground (arith, e))
      here (some m) e = (m, refl)

  pub next_in-Here : (h : Nodes D) (a : ℕ) → Here h a → (q : ℕ) × (next_in (h a) ≡ some q)
  next_in-Here h a (n, e) = (n.next, ap next_in e)

  pub Here-tied : (t : ℕ) (ts : List ℕ) (h : Nodes D) (a : ℕ) → Here h a → Here (tied t ts h) a
  unfolding tied
  Here-tied t [] h a here = here
  Here-tied t (u ∷ ts) h a here = Here-tied u ts (relink h t u) a (Here-relink h t u a here)

  -- The heap once the circle is closed.
  abbrev pub circled : ℕ → List ℕ → Nodes D → Nodes D
  circled b bs h = relink (tied b bs h) (last b bs) b

  pub circled-Chain :
      (b : ℕ) (bs : List ℕ) (h : Nodes D)
      → Distinct (b ∷ bs)
      → All (Here h) (b ∷ bs)
      → Here h (last b bs)
      → Chain (circled b bs h) b (b ∷ bs) b
  circled-Chain b bs h d all here =
      let (q, at) = next_in-Here h (last b bs) here in
      let path : Chain (tied b bs h) b (b ∷ bs) q = tied-Chain b bs h q d all at in
      let (xs, e) = last-append b bs in
      let out : count (last b bs) xs ≡ 0 = omega (
        arith,
        d (last b bs),
        count-append (last b bs) xs (last b bs ∷ []),
        ap (count (last b bs)) e,
        count-one (last b bs),
      ) in
      subst (λ zs. Chain (circled b bs h) b zs b) (sym e)
        (Chain-relink_last (tied b bs h) b q b (last b bs) xs out
          (subst (λ zs. Chain (tied b bs h) b zs q) e path))

  pub datum_in-circled :
      (b : ℕ) (bs : List ℕ) (h : Nodes D) (a : ℕ) → datum_in (circled b bs h a) ≡ datum_in (h a)
  datum_in-circled b bs h a = ground arith ∙ datum_in-tied b bs h a

  pub circled-last :
      (b : ℕ) (bs : List ℕ) (h : Nodes D)
      → Here h (last b bs)
      → (n : Node D) × (circled b bs h (last b bs) ≡ some n) × (n.next ≡ b)
  circled-last b bs h here =
      let (n, e) = Here-tied b bs h (last b bs) here in (record n { next = b }, ground arith, refl)

  pub load-Here : (h : Nodes D) (a : ℕ) (n : Node D) → h a ≡ some n → load h a ≡ done n
  load-Here h a n e = ground (arith, e)
