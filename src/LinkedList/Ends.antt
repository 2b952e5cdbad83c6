-- ===== src/LinkedList/Ends.antt =====
-- `list_insert_tail` and `list_remove_head` of Asmt_3/list_t.c, and the walk of `list_visit_items`.
use cs.Prelude.{
  ℕ, zero, suc, ◌+◌, ◌^◌, ◌≤◌, ◌<◌, ◌≡◌, ◌≢◌, refl, sym, ap, subst, ◌∙◌, true, false, none, some,
  List, [], ◌∷◌, ◌++◌, arith, ◌==◌, length, length-append,
}
use cs.Exec.{done}
use cs.Counting.{count, count-append}
use cs.Nodes.{update, relink, load}
use cs.Nodes.Chains.{Chain, Chain-append, Chain-update, count-zero_of_none}
use cs.Nodes.Retie.{last, count-last, Here, Here-relink, set_next-relink}
use cs.Nodes.Circle.{Chain-Here, load-Here}
use cs.Nodes.Removal.{Chain-move_end, last-append_cons}
use cs.LinkedList.{
  Items, ListT, null, increment, decrement, put_prev, list_item_init, list_visit_items,
  list_insert_tail, list_remove_head,
}
use cs.LinkedList.Forward.{
  IsTail, IsList, data_in, contents, contents-agree, contents-append, Chain-put_prev,
  data_in-put_prev, data_in-relink, set_prev-put_prev,
}

pub increment-small : (n : ℕ) → n + 1 < 2 ^ 32 → increment n ≡ n + 1
increment-small n small = omega (arith, small)

pub decrement-small : (n : ℕ) → n < 2 ^ 32 → decrement (suc n) ≡ n
decrement-small n small = omega (arith, small)

-- The visitor is called on each item once, in order.
pub list_visit_items-Chain :
    (fuel : ℕ) (h : Items) (p : ℕ) (ts : List ℕ)
    → Chain h p ts null
    → count null ts ≡ 0
    → length ts ≤ fuel
    → list_visit_items fuel p h ≡ done ts
unfolding list_visit_items
list_visit_items-Chain zero h p [] path real room = rw path refl
list_visit_items-Chain (suc fuel) h p [] path real room = rw path refl
list_visit_items-Chain zero h p (t ∷ ts) path real room = absurd (omega arith)
list_visit_items-Chain (suc fuel) h p (t ∷ ts) path real room =
    let (n, at) = Chain-Here h p null t (t ∷ ts) path (ground arith) in
    let ld : load h p ≡ done n = load-Here h p n (ap h path.0 ∙ at) in
    let on : (t == null) ≡ false = ground (arith, real) in
    let to : path.1 ≡ n.next = ground (arith, at, path.2) in
    let rest =
      list_visit_items-Chain fuel h n.next ts (subst (λ a. Chain h a ts null) to path.3)
        (ground (arith, real)) (omega arith) in
    rw (list_visit_items, ld, path.0, on, rest) refl

module _ (h : Items) (l : ListT) (new v : ℕ) where
  abbrev with_item : Items
  with_item = update h new (some (list_item_init v))

  insert-empty :
      IsList h l []
      → new ≢ null
      → let l' : ListT = record { head = new; tail = new; length = increment l.length } in
        (list_insert_tail new v h l ≡ done (with_item, l'))
        × IsList with_item l' (new ∷ [])
        × (contents with_item (new ∷ []) ≡ v ∷ [])
  unfolding list_insert_tail list_item_init
  insert-empty is real =
      let far : (new == null) ≡ false = ground arith in
      let size : (l.length == 0) ≡ true = ground (arith, is.size) in
      (
        rw (list_insert_tail, far, size) refl,
        record {
          chain = (refl, null, ground arith, refl);
          distinct = λ a. ground arith;
          real = ground arith;
          size = ap increment is.size ∙ increment-small 0 (omega arith);
          end = refl;
        },
        ground arith,
      )

  insert-after :
      (t : ℕ) (us : List ℕ)
      → IsList h l (t ∷ us)
      → new ≢ null
      → h new ≡ none
      → length (t ∷ us) + 1 < 2 ^ 32
      → let h' = put_prev (relink with_item l.tail new) new l.tail in
        let l' = record l { tail = new; length = increment l.length } in
        (list_insert_tail new v h l ≡ done (h', l'))
        × IsList h' l' ((t ∷ us) ++ (new ∷ []))
        × (contents h' ((t ∷ us) ++ (new ∷ [])) ≡ contents h (t ∷ us) ++ (v ∷ []))
  unfolding list_insert_tail list_item_init
  insert-after t us is real free small =
      let ts = t ∷ us in
      let k = relink with_item l.tail new in
      let h' = put_prev k new l.tail in
      let far : (new == null) ≡ false = ground arith in
      let size : (l.length == 0) ≡ false = ground (arith, is.size) in
      let out = count-zero_of_none h l.head null new ts is.chain free in
      let apart : l.tail ≢ new =
        λ e. absurd (omega (arith, out, count-last t us, ap (λ a. count a ts) (sym is.end ∙ e))) in
      let path : Chain with_item l.head ts null =
        Chain-update h l.head null new _ ts out is.chain in
      let end : Here with_item l.tail =
        subst (Here with_item) (sym is.end)
          (Chain-Here with_item l.head null (last t us) ts path (count-last t us)) in
      let own : Here with_item new = (list_item_init v, ground arith) in
      let move = set_next-relink with_item l.tail new end in
      let back = set_prev-put_prev k new l.tail (Here-relink with_item l.tail new new own) in
      let front : Chain k l.head ts new =
        subst (λ a. Chain (relink with_item a new) l.head ts new) (sym is.end)
          (Chain-move_end with_item l.head null new t us is.distinct path) in
      let tip : Chain k new (new ∷ []) null = (refl, null, ground arith, refl) in
      let kept : (a : ℕ) → data_in (h' a) ≡ data_in (with_item a) =
        λ a. data_in-put_prev k new l.tail a ∙ data_in-relink with_item l.tail new a in
      let old : contents h' ts ≡ contents h ts =
        contents-agree h h' ts (λ a i. kept a ∙ ground (arith, i, out)) in
      (
        rw (list_insert_tail, far, size, move, back) refl,
        record {
          chain =
              Chain-put_prev k new l.tail l.head null (ts ++ (new ∷ []))
                (Chain-append k l.head new null ts (new ∷ []) front tip);
          distinct = λ a. ground (arith, sym (count-append a ts (new ∷ [])), is.distinct a, out);
          real = ground (arith, sym (count-append null ts (new ∷ [])), is.real);
          size =
              ap increment is.size
              ∙ increment-small (length ts) small
              ∙ omega (arith, length-append us (new ∷ []));
          end = sym (last-append_cons t us new []);
        },
        contents-append h' ts (new ∷ [])
            ∙ ap (λ ds. ds ++ contents h' (new ∷ [])) old
            ∙ ap (λ d. contents h ts ++ (d ∷ [])) (kept new ∙ ground arith),
      )

-- For a well-formed list of fewer than 2 ^ 32 - 1 items, and an address from malloc that is not
-- null and in no use, list_insert_tail returns a well-formed list with the new item behind the
-- others; they keep their data, and the new one has what was given.
pub list_insert_tail-IsList :
    (h : Items) (l : ListT) (new v : ℕ) (ts : List ℕ)
    → IsList h l ts
    → new ≢ null
    → h new ≡ none
    → length ts + 1 < 2 ^ 32
    → (h' : Items) × (l' : ListT) × (list_insert_tail new v h l ≡ done (h', l'))
      × IsList h' l' (ts ++ (new ∷ []))
      × (contents h' (ts ++ (new ∷ [])) ≡ contents h ts ++ (v ∷ []))
list_insert_tail-IsList h l new v [] is real free small =
    let (run, is', held) = insert-empty h l new v is real in (_, _, run, is', held)
list_insert_tail-IsList h l new v (t ∷ us) is real free small =
    let (run, is', held) = insert-after h l new v t us is real free small in (_, _, run, is', held)

-- For a well-formed list of one to 2 ^ 32 items list_remove_head gives the data of the first one
-- to data_delete, frees it, and leaves the others, with their data, as a well-formed list.
pub list_remove_head-IsList :
    (h : Items) (l : ListT) (t : ℕ) (ts : List ℕ)
    → IsList h l (t ∷ ts)
    → length ts < 2 ^ 32
    → (h' : Items) × (l' : ListT) × (list_remove_head h l ≡ done (h', l', some (data_in (h t))))
      × IsList h' l' ts
      × (contents h' ts ≡ contents h ts)
      × (h' t ≡ none)
unfolding list_remove_head
list_remove_head-IsList h l t ts is small =
    let (n, at) = Chain-Here h l.head null t (t ∷ ts) is.chain (ground arith) in
    let ld : load h l.head ≡ done n = load-Here h l.head n (ap h is.chain.0 ∙ at) in
    let on : (t == null) ≡ false = ground (arith, is.real) in
    let to : is.chain.1 ≡ n.next = ground (arith, at, is.chain.2) in
    let out : count t ts ≡ 0 = ground (arith, is.distinct t) in
    let held : some n.datum.data_ptr ≡ some (data_in (h t)) = ap some (sym (ap data_in at)) in
    let rest =
      Chain-update h n.next null t none ts out (subst (λ a. Chain h a ts null) to is.chain.3) in
    (
      update h t none,
      record l { head = n.next; length = decrement l.length },
      rw (list_remove_head, ld, is.chain.0, on, held) refl,
      record {
        chain = rest;
        distinct = λ a. omega (arith, is.distinct a);
        real = omega (arith, is.real);
        size = ap decrement is.size ∙ decrement-small (length ts) small;
        end = shorter_end ts is.end;
      },
      contents-agree h (update h t none) ts (λ a i. ground (arith, i, out)),
      ground arith,
    )
  where
    shorter_end : (us : List ℕ) → l.tail ≡ last t us → IsTail l.tail us
    shorter_end [] e = tt
    shorter_end (u ∷ us) e = e
