-- ===== src/LinkedList/Tied.antt =====
-- The retying of the items in `list_insert_sorted` of Asmt_3/list_t.c.
use native.Mathlib.Decide.{ℕ_discrete}
use cs.Prelude.{ℕ, ◌≡◌, ◌≢◌, refl, ap, ◌∙◌, Option, none, some, List, [], ◌∷◌, arith, All}
use cs.Exec.{done}
use cs.Counting.{count, Distinct}
use cs.Nodes.{Node, relink, next_in}
use cs.Nodes.Chains.{Chain}
use cs.Nodes.Retie.{last, All-Here-relink, count-last, Here, Here-relink, set_next-relink}
use cs.LinkedList.{Item, Items, with_prev, put_prev, tie_items}
use cs.LinkedList.Forward.{
  data_in, data_in-put_prev, data_in-relink, Here-put_prev, set_prev-put_prev,
}

pub next_in-put_prev : (h : Items) (a p b : ℕ) → next_in (put_prev h a p b) ≡ next_in (h b)
next_in-put_prev h a p b = elim (ℕ_discrete a b) [
  | yes eq ↦ (ground arith ∙ next_same (h a)) ∙ ap (λ c. next_in (h c)) eq
  | no ne ↦ ground arith
]
  where
    next_same : (c : Option (Node Item)) → next_in (with_prev p c) ≡ next_in c
    next_same none = refl
    next_same (some m) = refl

pub All-Here-put_prev :
    (h : Items) (a p : ℕ) (ts : List ℕ) → All (Here h) ts → All (Here (put_prev h a p)) ts
All-Here-put_prev h a p [] all = tt
All-Here-put_prev h a p (t ∷ ts) all =
    (Here-put_prev h a p t all.0, All-Here-put_prev h a p ts all.1)

-- One round of the loop.
abbrev pub tie_pair : ℕ → ℕ → Items → Items
tie_pair b c h = put_prev (relink h b c) c b

unfoldable pub tied_items : ℕ → List ℕ → Items → Items
tied_items b [] h = h
tied_items b (c ∷ rest) h = tied_items c rest (tie_pair b c h)

pub All-Here-tie_pair :
    (h : Items) (b c : ℕ) (ts : List ℕ) → All (Here h) ts → All (Here (tie_pair b c h)) ts
All-Here-tie_pair h b c ts all =
    All-Here-put_prev (relink h b c) c b ts (All-Here-relink h b c ts all)

pub tie_items-tied :
    (b : ℕ) (rest : List ℕ) (h : Items)
    → All (Here h) (b ∷ rest)
    → tie_items (b ∷ rest) h ≡ done (tied_items b rest h)
unfolding tie_items tied_items
tie_items-tied b [] h all = refl
tie_items-tied b (c ∷ rest) h all =
    rw
      (
        tie_items,
        set_next-relink h b c all.0,
        set_prev-put_prev (relink h b c) c b (Here-relink h b c c all.1.0),
      )
      (tie_items-tied c rest (tie_pair b c h) (All-Here-tie_pair h b c (c ∷ rest) all.1))

pub data_in-tied_items :
    (b : ℕ) (rest : List ℕ) (h : Items) (a : ℕ) → data_in (tied_items b rest h a) ≡ data_in (h a)
unfolding tied_items
data_in-tied_items b [] h a = refl
data_in-tied_items b (c ∷ rest) h a =
    data_in-tied_items c rest (tie_pair b c h) a
    ∙ data_in-put_prev (relink h b c) c b a
    ∙ data_in-relink h b c a

next_in-tie_pair : (h : Items) (b c a : ℕ) → b ≢ a → next_in (tie_pair b c h a) ≡ next_in (h a)
next_in-tie_pair h b c a ne = next_in-put_prev (relink h b c) c b a ∙ ground arith

pub next_in-tied_outside :
    (b : ℕ) (rest : List ℕ) (h : Items) (a : ℕ)
    → count a (b ∷ rest) ≡ 0
    → next_in (tied_items b rest h a) ≡ next_in (h a)
unfolding tied_items
next_in-tied_outside b [] h a out = refl
next_in-tied_outside b (c ∷ rest) h a out =
    next_in-tied_outside c rest (tie_pair b c h) a (ground arith)
    ∙ next_in-tie_pair h b c a (λ e. absurd (ground (arith, out, e)))

pub tied_items-Chain :
    (b : ℕ) (rest : List ℕ) (h : Items) (q : ℕ)
    → Distinct (b ∷ rest)
    → All (Here h) (b ∷ rest)
    → next_in (h (last b rest)) ≡ some q
    → Chain (tied_items b rest h) b (b ∷ rest) q
unfolding tied_items
tied_items-Chain b [] h q d all e = (refl, q, e, refl)
tied_items-Chain b (c ∷ rest) h q d all e =
    let out : count b (c ∷ rest) ≡ 0 = ground (arith, d b) in
    let far : b ≢ last c rest =
      λ same. absurd (omega (arith, count-last c rest, out, ap (λ a. count a (c ∷ rest)) same)) in
    let (n, at) = all.0 in
    let to : next_in (tie_pair b c h b) ≡ some c =
      next_in-put_prev (relink h b c) c b b ∙ ground (arith, at) in
    (
      refl,
      c,
      next_in-tied_outside c rest (tie_pair b c h) b out ∙ to,
      tied_items-Chain c rest (tie_pair b c h) q (λ a. omega (arith, d a))
          (All-Here-tie_pair h b c (c ∷ rest) all.1) (next_in-tie_pair h b c (last c rest) far ∙ e),
    )
