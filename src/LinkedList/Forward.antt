-- ===== src/LinkedList/Forward.antt =====
-- Well-formed lists, followed along `next`, and the operations on them.
use native.Mathlib.Decide.{ℕ_discrete}
use cs.Prelude.{ℕ, ◌<◌, ◌≡◌, refl, ap, ◌∙◌, Option, none, some, List, [], ◌∷◌, ◌++◌, arith, length}
use cs.Exec.{done}
use cs.Counting.{count, Distinct}
use cs.Nodes.{Node, relink, with_next, next_in}
use cs.Nodes.Chains.{Chain}
use cs.Nodes.Retie.{last, Here}
use cs.LinkedList.{Item, Items, ListT, null, with_prev, put_prev, set_prev}

-- The tail pointer of a list that is not empty.
abbrev pub IsTail : ℕ → List ℕ → Type 0
IsTail tail [] = Unit
IsTail tail (t ∷ ts) = tail ≡ last t ts

-- The items `ts`, from the head on.
pub record IsList (h : Items) (l : ListT) (ts : List ℕ) : Type 0 where
  pub chain : Chain h l.head ts null
  pub distinct : Distinct ts
  pub real : count null ts ≡ 0
  pub size : l.length ≡ length ts
  pub end : IsTail l.tail ts

abbrev pub data_in : Option (Node Item) → ℕ
data_in none = null
data_in (some n) = n.datum.data_ptr

-- What the list holds.
abbrev pub contents : Items → List ℕ → List ℕ
contents h [] = []
contents h (t ∷ ts) = data_in (h t) ∷ contents h ts

-- Contents are read at the listed items alone.
pub contents-agree :
    (h k : Items) (ts : List ℕ)
    → ((a : ℕ) → 0 < count a ts → data_in (k a) ≡ data_in (h a))
    → contents k ts ≡ contents h ts
contents-agree h k [] same = refl
contents-agree h k (t ∷ ts) same =
    rw (same t (ground arith), contents-agree h k ts (λ a i. same a (omega (arith, i)))) refl

pub contents-append :
    (h : Items) (xs ys : List ℕ) → contents h (xs ++ ys) ≡ contents h xs ++ contents h ys
contents-append h [] ys = refl
contents-append h (x ∷ xs) ys = ap (λ zs. data_in (h x) ∷ zs) (contents-append h xs ys)

-- Back pointers do not matter to a chain.
pub Chain-put_prev :
    (h : Items) (a p s q : ℕ) (ts : List ℕ) → Chain h s ts q → Chain (put_prev h a p) s ts q
Chain-put_prev h a p s q [] path = path
Chain-put_prev h a p s q (t ∷ ts) (e, n, at, rest) =
    (e, n, same ∙ at, Chain-put_prev h a p n q ts rest)
  where
    next_same : (c : Option (Node Item)) → next_in (with_prev p c) ≡ next_in c
    next_same none = refl
    next_same (some m) = refl

    same : next_in (put_prev h a p t) ≡ next_in (h t)
    same = elim (ℕ_discrete a t) [
      | yes eq ↦ (ground arith ∙ next_same (h a)) ∙ ap (λ b. next_in (h b)) eq
      | no ne ↦ ground arith
    ]

pub data_in-put_prev : (h : Items) (a p t : ℕ) → data_in (put_prev h a p t) ≡ data_in (h t)
data_in-put_prev h a p t = elim (ℕ_discrete a t) [
  | yes eq ↦ (ground arith ∙ data_same (h a)) ∙ ap (λ b. data_in (h b)) eq
  | no ne ↦ ground arith
]
  where
    data_same : (c : Option (Node Item)) → data_in (with_prev p c) ≡ data_in c
    data_same none = refl
    data_same (some m) = refl

pub data_in-relink : (h : Items) (a q t : ℕ) → data_in (relink h a q t) ≡ data_in (h t)
data_in-relink h a q t = elim (ℕ_discrete a t) [
  | yes eq ↦ (ground arith ∙ data_same (h a)) ∙ ap (λ b. data_in (h b)) eq
  | no ne ↦ ground arith
]
  where
    data_same : (c : Option (Node Item)) → data_in (with_next q c) ≡ data_in c
    data_same none = refl
    data_same (some m) = refl

pub Here-put_prev : (h : Items) (a p b : ℕ) → Here h b → Here (put_prev h a p) b
Here-put_prev h a p b (n, e) = elim (ℕ_discrete a b) [
  | yes same ↦ (record n { datum = record { prev = p; data_ptr = n.datum.data_ptr } }, ground arith)
  | no other ↦ (n, ground arith)
]

pub set_prev-put_prev : (h : Items) (a p : ℕ) → Here h a → set_prev h a p ≡ done (put_prev h a p)
unfolding set_prev
set_prev-put_prev h a p (n, e) = ground arith
