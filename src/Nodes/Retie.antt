-- ===== src/Nodes/Retie.antt =====
-- Tying the nodes of a buffer into a chain, in the order of the buffer.
use native.Mathlib.Decide.{ℕ_discrete}
use cs.Prelude.{ℕ, ◌<◌, ◌≡◌, ◌≢◌, refl, ap, ◌∙◌, some, List, [], ◌∷◌, arith, All}
use cs.Counting.{count, Distinct}
use cs.Exec.{done}
use cs.Nodes.{Node, Nodes, relink, set_next, retie, next_in, datum_in}
use cs.Nodes.Chains.{Chain}

abbrev pub last : ℕ → List ℕ → ℕ
last t [] = t
last t (u ∷ ts) = last u ts

pub count-last : (t : ℕ) (ts : List ℕ) → 0 < count (last t ts) (t ∷ ts)
count-last t [] = ground arith
count-last t (u ∷ ts) = omega (arith, count-last u ts)

module _ {D : Type 0} where
  -- A node is there.
  abbrev pub Here : Nodes D → ℕ → Type 0
  Here h a = (n : Node D) × (h a ≡ some n)

  -- The heap that the loop leaves behind.
  unfoldable pub tied : ℕ → List ℕ → Nodes D → Nodes D
  tied t [] h = h
  tied t (u ∷ ts) h = tied u ts (relink h t u)

  pub Here-relink : (h : Nodes D) (a q b : ℕ) → Here h b → Here (relink h a q) b
  Here-relink h a q b (n, e) = elim (ℕ_discrete a b) [
    | yes same ↦ (record n { next = q }, ground arith)
    | no other ↦ (n, ground arith)
  ]

  pub All-Here-relink :
      (h : Nodes D) (a q : ℕ) (ts : List ℕ) → All (Here h) ts → All (Here (relink h a q)) ts
  All-Here-relink h a q [] all = tt
  All-Here-relink h a q (t ∷ ts) all = (Here-relink h a q t all.0, All-Here-relink h a q ts all.1)

  pub set_next-relink : (h : Nodes D) (a q : ℕ) → Here h a → set_next h a q ≡ done (relink h a q)
  unfolding set_next
  set_next-relink h a q (n, e) = ground arith

  pub retie-tied :
      (t : ℕ) (ts : List ℕ) (h : Nodes D)
      → All (Here h) (t ∷ ts)
      → retie (t ∷ ts) h ≡ done (tied t ts h)
  unfolding retie tied
  retie-tied t [] h all = refl
  retie-tied t (u ∷ ts) h all =
      rw (retie, set_next-relink h t u all.0)
        (retie-tied u ts (relink h t u) (All-Here-relink h t u (u ∷ ts) all.1))

  -- The fields other than `next` stay as they were.
  pub datum_in-tied :
      (t : ℕ) (ts : List ℕ) (h : Nodes D) (a : ℕ) → datum_in (tied t ts h a) ≡ datum_in (h a)
  unfolding tied
  datum_in-tied t [] h a = refl
  datum_in-tied t (u ∷ ts) h a = datum_in-tied u ts (relink h t u) a ∙ ground arith

  pub tied_outside :
      (t : ℕ) (ts : List ℕ) (h : Nodes D) (a : ℕ) → count a (t ∷ ts) ≡ 0 → tied t ts h a ≡ h a
  unfolding tied
  tied_outside t [] h a out = refl
  tied_outside t (u ∷ ts) h a out = tied_outside u ts (relink h t u) a (ground arith) ∙ ground arith

  -- The buffer is a chain, up to where its last node points.
  pub tied-Chain :
      (t : ℕ) (ts : List ℕ) (h : Nodes D) (q : ℕ)
      → Distinct (t ∷ ts)
      → All (Here h) (t ∷ ts)
      → next_in (h (last t ts)) ≡ some q
      → Chain (tied t ts h) t (t ∷ ts) q
  unfolding tied
  tied-Chain t [] h q d all e = (refl, q, e, refl)
  tied-Chain t (u ∷ ts) h q d all e =
      let out : count t (u ∷ ts) ≡ 0 = ground (arith, d t) in
      let far : t ≢ last u ts =
        λ same. absurd (omega (arith, count-last u ts, ap (λ a. count a (u ∷ ts)) same)) in
      let there : h t ≡ some all.0.0 = all.0.1 in
      (
        refl,
        u,
        ap next_in (tied_outside u ts (relink h t u) t out) ∙ ground arith,
        tied-Chain u ts (relink h t u) q (λ a. omega (arith, d a))
            (All-Here-relink h t u (u ∷ ts) all.1) (ground arith),
      )
