-- ===== src/Nodes/Chains.antt =====
-- Chains along `next`, and the loop that walks one.
use cs.Prelude.{
  ℕ, zero, suc, ◌≤◌, ◌≡◌, refl, Option, none, some, List, [], ◌∷◌, ◌++◌, arith, length,
}
use cs.Counting.{count}
use cs.Exec.{done}
use cs.Nodes.{Node, Nodes, update, relink, collect, next_in}

module _ {D : Type 0} where
  -- From `p` the `next` pointers lead through the nodes `ts` to `q`.
  abbrev pub Chain : Nodes D → ℕ → List ℕ → ℕ → Type 0
  Chain h p [] q = p ≡ q
  Chain h p (t ∷ ts) q = (p ≡ t) × (n : ℕ) × (next_in (h t) ≡ some n) × Chain h n ts q

  pub Chain-append :
      (h : Nodes D) (p m q : ℕ) (xs ys : List ℕ)
      → Chain h p xs m
      → Chain h m ys q
      → Chain h p (xs ++ ys) q
  Chain-append h p m q [] ys e path = rw e path
  Chain-append h p m q (x ∷ xs) ys (e, n, at, rest) path =
      (e, n, at, Chain-append h n m q xs ys rest path)

  pub Chain-split :
      (h : Nodes D) (p q : ℕ) (xs ys : List ℕ)
      → Chain h p (xs ++ ys) q
      → (m : ℕ) × Chain h p xs m × Chain h m ys q
  Chain-split h p q [] ys path = (p, refl, path)
  Chain-split h p q (x ∷ xs) ys (e, n, at, rest) =
      let (m, front, back) = Chain-split h n q xs ys rest in (m, (e, n, at, front), back)

  -- A chain does not see a write elsewhere.
  pub Chain-update :
      (h : Nodes D) (p q a : ℕ) (c : Option (Node D)) (ts : List ℕ)
      → count a ts ≡ 0
      → Chain h p ts q
      → Chain (update h a c) p ts q
  Chain-update h p q a c [] out e = e
  Chain-update h p q a c (t ∷ ts) out (e, n, at, rest) =
      (e, n, ground arith, Chain-update h n q a c ts (ground arith) rest)

  -- Every node of a chain is there.
  pub count-zero_of_none :
      (h : Nodes D) (p q a : ℕ) (ts : List ℕ) → Chain h p ts q → h a ≡ none → count a ts ≡ 0
  count-zero_of_none h p q a [] path e = refl
  count-zero_of_none h p q a (t ∷ ts) (e', n, at, rest) e =
      ground (arith, count-zero_of_none h n q a ts rest e)

  -- The walk finds the nodes of the chain.
  pub collect-Chain :
      (room : ℕ) (h : Nodes D) (p stop : ℕ) (ts : List ℕ)
      → count stop ts ≡ 0
      → length ts ≤ room
      → Chain h p ts stop
      → collect room p stop h ≡ done ts
  unfolding collect
  collect-Chain zero h p stop [] out le e = ground arith
  collect-Chain (suc room) h p stop [] out le e = ground arith
  collect-Chain zero h p stop (t ∷ ts) out le path = absurd (omega arith)
  collect-Chain (suc room) h p stop (t ∷ ts) out le (e, n, at, rest) =
      ground (arith, collect-Chain room h n stop ts (ground arith) (omega arith) rest)

  -- The end of a chain may be moved.
  pub Chain-relink_last :
      (h : Nodes D) (p q r t : ℕ) (xs : List ℕ)
      → count t xs ≡ 0
      → Chain h p (xs ++ (t ∷ [])) q
      → Chain (relink h t r) p (xs ++ (t ∷ [])) r
  Chain-relink_last h p q r t [] out (e, n, at, rest) = (e, r, ground arith, refl)
  Chain-relink_last h p q r t (x ∷ xs) out (e, n, at, rest) =
      (e, n, ground arith, Chain-relink_last h n q r t xs (ground arith) rest)
