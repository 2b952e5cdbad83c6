-- ===== src/LinkedList/Sorted.antt =====
-- `list_insert_sorted` of Asmt_3/list_t.c.
use cs.Prelude.{
  ℕ, ◌+◌, ◌^◌, ◌<◌, ◌≡◌, ◌≢◌, refl, sym, ap, subst, ◌∙◌, none, List, [], ◌∷◌, ◌++◌, arith, length,
  length-append, ℤ,
}
use cs.Exec.{done}
use cs.Counting.{count, count-append, Distinct}
use cs.Nodes.{load}
use cs.Nodes.Chains.{Chain}
use cs.Nodes.Retie.{last, count-last, Here}
use cs.Nodes.Circle.{Chain-Here, load-Here, All-of_count}
use cs.LinkedList.{Items, ListT, null, list_insert_tail, copy_items, list_insert_sorted}
use cs.LinkedList.Forward.{IsList, data_in, contents, contents-agree}
use cs.LinkedList.Ends.{list_insert_tail-IsList}
use cs.Qsort.{Qsort, IsComparison, Ordered}
use cs.Counting.{SameItems, length-SameItems}
use cs.LinkedList.Retied.{retie_list-Retied}

copy_items-Chain :
    (h : Items) (p q : ℕ) (ts : List ℕ) → Chain h p ts q → copy_items (length ts) p h ≡ done ts
unfolding copy_items
copy_items-Chain h p q [] path = refl
copy_items-Chain h p q (t ∷ ts) path =
    let (n, at) = Chain-Here h p q t (t ∷ ts) path (ground arith) in
    let ld : load h p ≡ done n = load-Here h p n (ap h path.0 ∙ at) in
    let to : path.1 ≡ n.next = ground (arith, at, path.2) in
    rw
      (
        copy_items,
        ld,
        path.0,
        copy_items-Chain h n.next q ts (subst (λ a. Chain h a ts q) to path.3),
      )
      refl

-- For a comparison that is total and transitive and reads nothing but the data of the items:
-- inserting into a well-formed list of fewer than 2 ^ 32 - 1 items, with an address from malloc
-- that is not null and in no use, returns a well-formed list of the items before and the new one,
-- in order. Every item keeps its data, and the new one has what was given.
pub list_insert_sorted-IsList :
    (qsort : Qsort) (compare : Items → ℕ → ℕ → ℤ) (h : Items) (l : ListT) (new v : ℕ) (ts : List ℕ)
    → ((k : Items) → IsComparison (compare k))
    → ((j k : Items) → ((t : ℕ) → data_in (j t) ≡ data_in (k t)) → compare j ≡ compare k)
    → IsList h l ts
    → new ≢ null
    → h new ≡ none
    → length ts + 1 < 2 ^ 32
    → (h' : Items) × (l' : ListT) × (ts' : List ℕ) × (list_insert_sorted qsort compare new v h l
        ≡ done (h', l'))
      × IsList h' l' ts'
      × SameItems ts' (new ∷ ts)
      × Ordered (compare h') ts'
      × (contents h' (ts ++ (new ∷ [])) ≡ contents h ts ++ (v ∷ []))
unfolding list_insert_sorted
list_insert_sorted-IsList qsort compare h l new v ts is_compare reads is real free small =
    let (k, l1, run, is1, held) = list_insert_tail-IsList h l new v ts is real free small in
    let items = ts ++ (new ∷ []) in
    let copied : copy_items l1.length l1.head k ≡ done items =
      subst (λ n. copy_items n l1.head k ≡ done items) (sym is1.size)
        (copy_items-Chain k l1.head null items is1.chain) in
    go k l1 run is1 held copied (qsort.sort (compare k) items) (qsort.same (compare k) items)
      (qsort.ordered (compare k) items (is_compare k)) refl
  where
    go :
        (k : Items) (l1 : ListT)
        → list_insert_tail new v h l ≡ done (k, l1)
        → IsList k l1 (ts ++ (new ∷ []))
        → contents k (ts ++ (new ∷ [])) ≡ contents h ts ++ (v ∷ [])
        → copy_items l1.length l1.head k ≡ done (ts ++ (new ∷ []))
        → (sorted : List ℕ) → SameItems sorted (ts ++ (new ∷ []))
        → Ordered (compare k) sorted
        → qsort.sort (compare k) (ts ++ (new ∷ [])) ≡ sorted
        → (h' : Items) × (l' : ListT) × (ts' : List ℕ) × (list_insert_sorted qsort compare new v h l
            ≡ done (h', l'))
          × IsList h' l' ts'
          × SameItems ts' (new ∷ ts)
          × Ordered (compare h') ts'
          × (contents h' (ts ++ (new ∷ [])) ≡ contents h ts ++ (v ∷ []))
    go k l1 run is1 held copied [] same ordered e =
        absurd
          (omega (arith, length-SameItems [] (ts ++ (new ∷ [])) same, length-append ts (new ∷ [])))
    go k l1 run is1 held copied (a ∷ rest) same ordered e =
        let items = ts ++ (new ∷ []) in
        let here : (t : ℕ) → 0 < count t (a ∷ rest) → Here k t =
          λ t i. Chain-Here k l1.head null t items is1.chain (omega (arith, i, same t)) in
        let size : l1.length ≡ length (a ∷ rest) =
          is1.size ∙ sym (length-SameItems (a ∷ rest) items same) in
        let d : Distinct (a ∷ rest) = λ t. omega (arith, same t, is1.distinct t) in
        let (h', tie, path, kept) =
          retie_list-Retied k l1 a rest size d (All-of_count {P = Here k} (a ∷ rest) here)
            (here (last a rest) (count-last a rest)) in
        (
          h',
          record l1 { head = a; tail = last a rest },
          a ∷ rest,
          rw (list_insert_sorted, run, copied, e) tie,
          record {
            chain = path;
            distinct = d;
            real = omega (arith, same null, is1.real);
            size = size;
            end = refl;
          },
          λ t. omega (arith, same t, sym (count-append t ts (new ∷ []))),
          subst (λ f. Ordered f (a ∷ rest)) (sym (reads h' k kept)) ordered,
          contents-agree k h' items (λ t i. kept t) ∙ held,
        )
