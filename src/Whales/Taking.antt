-- ===== src/Whales/Taking.antt =====
-- `dequeue` of Asmt_5/whales/whales.c, and the new whale in the heap.
use cs.Prelude.{
  ℕ, ◌<◌, ◌≡◌, ◌≢◌, refl, sym, ap, subst, ◌∙◌, false, none, some, List, ◌∷◌, arith, ◌==◌,
}
use cs.Exec.{done}
use cs.Counting.{count}
use cs.Nodes.{Node, update, next_in}
use cs.Nodes.Chains.{Chain, count-zero_of_none}
use cs.Nodes.Retie.{last, Here}
use cs.Nodes.Circle.{Chain-Here, load-Here}
use cs.Whales.{null, Whale, Whales, malloc_whale, dequeue}
use cs.Whales.Queue.{
  IsQueue, IsQueue-agree, Chain-agree, retailed, next_in-retailed, Here-retailed, tail_in-retailed,
  set_tail-retailed, tail_in,
}

module _ (h : Whales) (q t : ℕ) (ts : List ℕ) (is : IsQueue h q (t ∷ ts)) where
  abbrev pub taken : Whales
  taken = retailed h t (last t ts)

  first : Here h t
  first = Chain-Here h q null t (q ∷ t ∷ ts) is.chain (ground arith)

  head : Here h q
  head = Chain-Here h q null q (q ∷ t ∷ ts) is.chain (ground arith)

  pub dequeue-taken : dequeue q h ≡ done (t, taken)
  unfolding dequeue
  dequeue-taken =
      let (n, at) = head in
      let (m, at') = Here-retailed h t (last t ts) q head in
      let to : n.next ≡ t = ground (arith, at, is.chain.2, is.chain.3.0) in
      let to' : m.next ≡ t =
        ground
          (arith, sym (ap next_in at') ∙ next_in-retailed h t (last t ts) q ∙ ap next_in at, to) in
      let end : n.datum.tail ≡ last t ts = sym (ap tail_in at) ∙ is.end in
      rw
        (
          dequeue,
          load-Here h q n at,
          to,
          end,
          set_tail-retailed h t (last t ts) first,
          load-Here taken q m at',
          to',
        )
        refl

  pub taken-IsQueue : IsQueue taken t ts
  taken-IsQueue =
      let rest = is.chain.3 in
      record {
        chain =
            subst (λ a. Chain taken a (t ∷ ts) null) rest.0
              (Chain-agree h taken is.chain.1 null (t ∷ ts)
                (λ a i. next_in-retailed h t (last t ts) a) rest);
        distinct = λ a. omega (arith, is.distinct a);
        real = omega (arith, is.real);
        end = tail_in-retailed h t (last t ts) first;
      }

-- The heap with a new whale.
abbrev pub with_whale : Whales → ℕ → Node Whale → ℕ → Whales
with_whale h temp junk id =
    update h temp
      (some (record { next = junk.next; datum = record { id = id; tail = junk.datum.tail } }))

pub malloc_whale-granted :
    (h : Whales) (temp : ℕ) (junk : Node Whale) (id : ℕ)
    → temp ≢ null
    → malloc_whale temp junk id h ≡ done (with_whale h temp junk id)
malloc_whale-granted h temp junk id real =
    let far : (temp == null) ≡ false = ground (arith, real) in rw far refl

pub with_whale-IsQueue :
    (h : Whales) (temp : ℕ) (junk : Node Whale) (id q : ℕ) (ts : List ℕ)
    → h temp ≡ none
    → IsQueue h q ts
    → (count temp (q ∷ ts) ≡ 0) × IsQueue (with_whale h temp junk id) q ts
with_whale-IsQueue h temp junk id q ts free is =
    let out = count-zero_of_none h q null temp (q ∷ ts) is.chain free in
    let apart : (a : ℕ) → 0 < count a (q ∷ ts) → temp ≢ a =
      λ a i e. absurd (omega (arith, i, out, ap (λ b. count b (q ∷ ts)) e)) in
    (out, IsQueue-agree h (with_whale h temp junk id) q ts (λ a i. ground (arith, apart a i)) is)
