-- ===== src/LinkedList/Rotate.antt =====
-- `list_rotate_one` of Asmt_3/list_t.c.
use cs.Prelude.{
  ℕ, ◌≡◌, ◌≢◌, refl, sym, ap, subst, ◌∙◌, true, false, some, List, [], ◌∷◌, ◌++◌, arith, ltb,
  length-append,
}
use cs.Exec.{done}
use cs.Counting.{count, count-append}
use cs.Nodes.{relink, load, next_in}
use cs.Nodes.Chains.{Chain, Chain-append, Chain-update}
use cs.Nodes.Retie.{last, count-last, Here, Here-relink, set_next-relink}
use cs.Nodes.Circle.{Chain-Here, load-Here}
use cs.Nodes.Removal.{Chain-move_end, last-append_cons}
use cs.LinkedList.{Items, ListT, null, put_prev, list_rotate_one}
use cs.LinkedList.Forward.{
  IsList, data_in, contents, contents-agree, contents-append, Chain-put_prev, data_in-put_prev,
  data_in-relink, Here-put_prev, set_prev-put_prev,
}

-- Another node may be relinked afterwards.
next_in-relinked :
    (k : Items) (a q b r : ℕ) → b ≢ a → Here k a → next_in (relink (relink k a q) b r a) ≡ some q
next_in-relinked k a q b r ne (n, e) = ground (arith, e, ne)

abbrev pub rotated : List ℕ → List ℕ
rotated [] = []
rotated (t ∷ ts) = ts ++ (t ∷ [])

module _ (h : Items) (l : ListT) (t u : ℕ) (us : List ℕ) where
  abbrev prepared : Items
  prepared = put_prev (put_prev h u null) l.head l.tail

  abbrev turned : Items
  turned = relink (relink prepared l.head null) l.tail l.head

  list_rotate_one-several :
      IsList h l (t ∷ u ∷ us)
      → let l' = record l { head = u; tail = l.head } in
        (list_rotate_one h l ≡ done (turned, l'))
        × IsList turned l' (u ∷ (us ++ (t ∷ [])))
        × (contents turned (u ∷ (us ++ (t ∷ []))) ≡ contents h (u ∷ us) ++ (data_in (h t) ∷ []))
  unfolding list_rotate_one
  list_rotate_one-several is =
      let ts = t ∷ u ∷ us in
      let (old, at) = Chain-Here h l.head null t ts is.chain (ground arith) in
      let ld : load h l.head ≡ done old = load-Here h l.head old (ap h is.chain.0 ∙ at) in
      let more : ltb 1 l.length ≡ true = ground (arith, is.size) in
      let to : old.next ≡ u = ground (arith, at, is.chain.2, is.chain.3.0) in
      let top : Here h l.head = (old, ap h is.chain.0 ∙ at) in
      let second : Here h u = Chain-Here h l.head null u ts is.chain (ground arith) in
      let end : Here h l.tail =
        subst (Here h) (sym is.end)
          (Chain-Here h l.head null (last u us) ts is.chain (omega (arith, count-last u us))) in
      let p1 = set_prev-put_prev h u null second in
      let p2 =
        set_prev-put_prev (put_prev h u null) l.head l.tail (Here-put_prev h u null l.head top) in
      let here : (a : ℕ) → Here h a → Here prepared a =
        λ a x. Here-put_prev (put_prev h u null) l.head l.tail a (Here-put_prev h u null a x) in
      let n1 = set_next-relink prepared l.head null (here l.head top) in
      let n2 =
        set_next-relink (relink prepared l.head null) l.tail l.head
          (Here-relink prepared l.head null l.tail (here l.tail end)) in
      let apart : count l.head (u ∷ us) ≡ 0 = ground (arith, is.distinct t, is.chain.0) in
      let other : l.tail ≢ l.head = λ e.
        absurd
          (omega (arith, apart, count-last u us, ap (λ a. count a (u ∷ us)) (sym is.end ∙ e))) in
      let rest : Chain h u (u ∷ us) null = (refl, is.chain.3.1, is.chain.3.2, is.chain.3.3) in
      let rest' : Chain prepared u (u ∷ us) null =
        Chain-put_prev (put_prev h u null) l.head l.tail u null (u ∷ us)
          (Chain-put_prev h u null u null (u ∷ us) rest) in
      let cut : Chain (relink prepared l.head null) u (u ∷ us) null =
        Chain-update prepared u null l.head _ (u ∷ us) apart rest' in
      let front : Chain turned u (u ∷ us) l.head =
        subst (λ a. Chain (relink (relink prepared l.head null) a l.head) u (u ∷ us) l.head)
          (sym is.end)
          (Chain-move_end (relink prepared l.head null) u null l.head u us
            (λ a. omega (arith, is.distinct a)) cut) in
      let stop : next_in (turned l.head) ≡ some null =
        next_in-relinked prepared l.head null l.tail l.head other (here l.head top) in
      let tip : Chain turned l.head (t ∷ []) null =
        (is.chain.0, null, ap (λ a. next_in (turned a)) (sym is.chain.0) ∙ stop, refl) in
      let kept : (a : ℕ) → data_in (turned a) ≡ data_in (h a) = λ a.
        data_in-relink (relink prepared l.head null) l.tail l.head a
        ∙ data_in-relink prepared l.head null a
        ∙ data_in-put_prev (put_prev h u null) l.head l.tail a
        ∙ data_in-put_prev h u null a in
      let ts' = (u ∷ us) ++ (t ∷ []) in
      (
        rw (list_rotate_one, more, ld, to, p1, p2, n1, n2) refl,
        record {
          chain = Chain-append turned u l.head null (u ∷ us) (t ∷ []) front tip;
          distinct = λ a. omega (arith, sym (count-append a (u ∷ us) (t ∷ [])), is.distinct a);
          real = omega (arith, sym (count-append null (u ∷ us) (t ∷ [])), is.real);
          size = omega (arith, is.size, length-append us (t ∷ []));
          end = is.chain.0 ∙ sym (last-append_cons u us t []);
        },
        contents-agree h turned ts' (λ a i. kept a) ∙ contents-append h (u ∷ us) (t ∷ []),
      )

-- For a well-formed list list_rotate_one moves the first item to the end and keeps the order of
-- the others; a list of none or one stays.
pub list_rotate_one-IsList :
    (h : Items) (l : ListT) (ts : List ℕ)
    → IsList h l ts
    → (h' : Items) × (l' : ListT) × (list_rotate_one h l ≡ done (h', l'))
      × IsList h' l' (rotated ts)
      × (contents h' (rotated ts) ≡ rotated (contents h ts))
unfolding list_rotate_one
list_rotate_one-IsList h l [] is =
    let few : ltb 1 l.length ≡ false = ground (arith, is.size) in
    (h, l, rw (list_rotate_one, few) refl, is, refl)
list_rotate_one-IsList h l (t ∷ []) is =
    let few : ltb 1 l.length ≡ false = ground (arith, is.size) in
    (h, l, rw (list_rotate_one, few) refl, is, refl)
list_rotate_one-IsList h l (t ∷ u ∷ us) is =
    let (run, is', held) = list_rotate_one-several h l t u us is in (_, _, run, is', held)
