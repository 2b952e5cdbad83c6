-- ===== src/LinkedList/Retied.antt =====
-- The sorted items of `list_insert_sorted` of Asmt_3/list_t.c become a list, whatever their number.
use cs.Prelude.{
  ℕ, ◌≡◌, ◌≢◌, refl, ap, ◌∙◌, true, false, some, List, [], ◌∷◌, arith, ◌==◌, ltb, length, All,
}
use cs.Exec.{done}
use cs.Counting.{count, Distinct}
use cs.Nodes.{relink, set_next, next_in}
use cs.Nodes.Chains.{Chain}
use cs.Nodes.Retie.{last, All-Here-relink, count-last, Here, Here-relink, set_next-relink}
use cs.LinkedList.{Items, ListT, null, put_prev, set_prev, before_last, tie_many, retie_list}
use cs.LinkedList.Forward.{
  data_in, data_in-put_prev, data_in-relink, Here-put_prev, set_prev-put_prev,
}
use cs.LinkedList.Tied.{
  next_in-put_prev, All-Here-put_prev, tied_items, tie_items-tied, data_in-tied_items,
  next_in-tied_outside, tied_items-Chain,
}

-- A list of items that has been retied.
abbrev pub Retied : Items → ListT → ℕ → List ℕ → Type 0
Retied h l a rest =
    (h' : Items) × (retie_list (a ∷ rest) h l
      ≡ done (h', record l { head = a; tail = last a rest }))
    × Chain h' a (a ∷ rest) null
    × ((t : ℕ) → data_in (h' t) ≡ data_in (h t))

module _ (h : Items) (l : ListT) (a : ℕ) where
  -- The ends are marked first.
  abbrev ended : List ℕ → Items
  ended rest = relink (put_prev h a null) (last a rest) null

  All-Here-ended : (rest ts : List ℕ) → All (Here h) ts → All (Here (ended rest)) ts
  All-Here-ended rest ts all =
      All-Here-relink (put_prev h a null) (last a rest) null ts (All-Here-put_prev h a null ts all)

  data_in-ended : (rest : List ℕ) (t : ℕ) → data_in (ended rest t) ≡ data_in (h t)
  data_in-ended rest t =
      data_in-relink (put_prev h a null) (last a rest) null t ∙ data_in-put_prev h a null t

  next_in-ended :
      (rest : List ℕ) → Here h (last a rest) → next_in (ended rest (last a rest)) ≡ some null
  next_in-ended rest here =
      let (n, at) = Here-put_prev h a null (last a rest) here in ground (arith, at)

  set_ends :
      (rest : List ℕ)
      → Here h a
      → Here h (last a rest)
      → (set_prev h a null ≡ done (put_prev h a null))
        × (set_next (put_prev h a null) (last a rest) null ≡ done (ended rest))
  set_ends rest top end = (
    set_prev-put_prev h a null top,
    set_next-relink (put_prev h a null) (last a rest) null
        (Here-put_prev h a null (last a rest) end),
  )

  retie-one : l.length ≡ 1 → Here h a → Retied h l a []
  unfolding retie_list
  retie-one size top =
      let (e1, e2) = set_ends [] top top in
      let not_two : (l.length == 2) ≡ false = ground (arith, size) in
      let not_many : ltb 2 l.length ≡ false = ground (arith, size) in
      (
        ended [],
        rw (retie_list, e1, e2, not_two, not_many) refl,
        (refl, null, next_in-ended [] top, refl),
        data_in-ended [],
      )

  retie-two :
      (b : ℕ)
      → l.length ≡ 2
      → Distinct (a ∷ b ∷ [])
      → All (Here h) (a ∷ b ∷ [])
      → Retied h l a (b ∷ [])
  unfolding retie_list tied_items
  retie-two b size d all =
      let h2 = ended (b ∷ []) in
      let all2 = All-Here-ended (b ∷ []) (a ∷ b ∷ []) all in
      let (e1, e2) = set_ends (b ∷ []) all.0 all.1.0 in
      let e3 = set_next-relink h2 a b all2.0 in
      let e4 = set_prev-put_prev (relink h2 a b) b a (Here-relink h2 a b b all2.1.0) in
      let two : (l.length == 2) ≡ true = ground (arith, size) in
      let not_many : ltb 2 l.length ≡ false = ground (arith, size) in
      (
        tied_items a (b ∷ []) h2,
        rw (retie_list, e1, e2, two, e3, e4, not_many) refl,
        tied_items-Chain a (b ∷ []) h2 null d all2 (next_in-ended (b ∷ []) all.1.0),
        λ t. data_in-tied_items a (b ∷ []) h2 t ∙ data_in-ended (b ∷ []) t,
      )

  retie-many :
      (b c : ℕ) (rest : List ℕ)
      → let ts = a ∷ b ∷ c ∷ rest in
        l.length ≡ length ts
        → Distinct ts
        → All (Here h) ts
        → Here h (last c rest)
        → Retied h l a (b ∷ c ∷ rest)
  unfolding retie_list tie_many
  retie-many b c rest size d all end =
      let ts = a ∷ b ∷ c ∷ rest in
      let z = last c rest in
      let h2 = ended (b ∷ c ∷ rest) in
      let all2 = All-Here-ended (b ∷ c ∷ rest) ts all in
      let (e1, e2) = set_ends (b ∷ c ∷ rest) all.0 end in
      let end2 : Here h2 z =
        Here-relink (put_prev h a null) z null z (Here-put_prev h a null z end) in
      let y = before_last a b (c ∷ rest) in
      let h3 = put_prev (relink h2 a b) z y in
      let e3 = set_next-relink h2 a b all2.0 in
      let e4 = set_prev-put_prev (relink h2 a b) z y (Here-relink h2 a b z end2) in
      let all3 : All (Here h3) (b ∷ c ∷ rest) =
        All-Here-put_prev (relink h2 a b) z y (b ∷ c ∷ rest)
          (All-Here-relink h2 a b (b ∷ c ∷ rest) all2.1) in
      let e5 = tie_items-tied b (c ∷ rest) h3 all3 in
      let not_two : (l.length == 2) ≡ false = ground (arith, size) in
      let many : ltb 2 l.length ≡ true = ground (arith, size) in
      let out : count a (b ∷ c ∷ rest) ≡ 0 = ground (arith, d a) in
      let far : a ≢ z =
        λ e. absurd (omega (arith, out, count-last c rest, ap (λ t. count t (b ∷ c ∷ rest)) e)) in
      let (n, at) = all2.0 in
      let first : next_in (h3 a) ≡ some b =
        next_in-put_prev (relink h2 a b) z y a ∙ ground (arith, at) in
      let tip : next_in (h3 z) ≡ some null =
        next_in-put_prev (relink h2 a b) z y z
        ∙ skip h2 a b z far
        ∙ next_in-ended (b ∷ c ∷ rest) end in
      (
        tied_items b (c ∷ rest) h3,
        rw (retie_list, e1, e2, not_two, many, e3, e4, e5) refl,
        (
          refl,
          b,
          next_in-tied_outside b (c ∷ rest) h3 a out ∙ first,
          tied_items-Chain b (c ∷ rest) h3 null (λ t. omega (arith, d t)) all3 tip,
        ),
        λ t.
            data_in-tied_items b (c ∷ rest) h3 t
            ∙ data_in-put_prev (relink h2 a b) z y t
            ∙ data_in-relink h2 a b t
            ∙ data_in-ended (b ∷ c ∷ rest) t,
      )
    where
      skip : (k : Items) (p q t : ℕ) → p ≢ t → next_in (relink k p q t) ≡ next_in (k t)
      skip k p q t ne = ground arith

pub retie_list-Retied :
    (h : Items) (l : ListT) (a : ℕ) (rest : List ℕ)
    → l.length ≡ length (a ∷ rest)
    → Distinct (a ∷ rest)
    → All (Here h) (a ∷ rest)
    → Here h (last a rest)
    → Retied h l a rest
retie_list-Retied h l a [] size d all end = retie-one h l a size end
retie_list-Retied h l a (b ∷ []) size d all end = retie-two h l a b size d all
retie_list-Retied h l a (b ∷ c ∷ rest) size d all end = retie-many h l a b c rest size d all end
