-- ===== src/Whales/Queue.antt =====
-- The queues of Asmt_5/whales/whales.c: a head that stands for no waiting whale, and the whales behind it.
use native.Mathlib.Decide.{ℕ_discrete}
use cs.Prelude.{
  ℕ, ◌<◌, ◌≡◌, ◌≢◌, refl, sym, ap, ◌∙◌, Option, none, some, List, [], ◌∷◌, ◌++◌, arith,
}
use cs.Exec.{done}
use cs.Counting.{count, Distinct, count-append}
use cs.Nodes.{Node, update, relink, with_next, next_in}
use cs.Nodes.Chains.{Chain, Chain-append}
use cs.Nodes.Retie.{last, count-last, Here, Here-relink, set_next-relink}
use cs.Nodes.Circle.{Chain-Here, load-Here}
use cs.Nodes.Removal.{Chain-move_end, last-append_cons}
use cs.Whales.{null, Whale, Whales, with_tail, set_tail, enqueue}

abbrev pub id_in : Option (Node Whale) → ℕ
id_in none = 0
id_in (some n) = n.datum.id

abbrev pub tail_in : Option (Node Whale) → ℕ
tail_in none = 0
tail_in (some n) = n.datum.tail

abbrev pub ids : Whales → List ℕ → List ℕ
ids h [] = []
ids h (t ∷ ts) = id_in (h t) ∷ ids h ts

-- The queue at `q`, with the nodes `ts` behind its head.
pub record IsQueue (h : Whales) (q : ℕ) (ts : List ℕ) : Type 0 where
  pub chain : Chain h q (q ∷ ts) null
  pub distinct : Distinct (q ∷ ts)
  pub real : count null (q ∷ ts) ≡ 0
  pub end : tail_in (h q) ≡ last q ts

-- Two heaps that agree on the nodes.
pub ids-agree :
    (h h' : Whales) (ts : List ℕ)
    → ((a : ℕ) → 0 < count a ts → id_in (h' a) ≡ id_in (h a))
    → ids h' ts ≡ ids h ts
ids-agree h h' [] same = refl
ids-agree h h' (t ∷ ts) same =
    ap (λ i. i ∷ ids h' ts) (same t (ground arith))
    ∙ ap (◌∷◌ (id_in (h t))) (ids-agree h h' ts (λ a i. same a (omega (arith, i))))

pub Chain-agree :
    (h h' : Whales) (p q : ℕ) (ts : List ℕ)
    → ((a : ℕ) → 0 < count a ts → next_in (h' a) ≡ next_in (h a))
    → Chain h p ts q
    → Chain h' p ts q
Chain-agree h h' p q [] same e = e
Chain-agree h h' p q (t ∷ ts) same (e, n, at, rest) = (
  e,
  n,
  same t (ground arith) ∙ at,
  Chain-agree h h' n q ts (λ a i. same a (omega (arith, i))) rest,
)

pub IsQueue-agree :
    (h h' : Whales) (q : ℕ) (ts : List ℕ)
    → ((a : ℕ) → 0 < count a (q ∷ ts) → h' a ≡ h a)
    → IsQueue h q ts
    → IsQueue h' q ts
IsQueue-agree h h' q ts same is = record {
  chain = Chain-agree h h' q null (q ∷ ts) (λ a i. ap next_in (same a i)) is.chain;
  distinct = is.distinct;
  real = is.real;
  end = ap tail_in (same q (ground arith)) ∙ is.end;
}

abbrev put_in : ℕ → Option (Node Whale) → Option (Node Whale)
put_in t none = none
put_in t (some n) = some (with_tail t n)

-- The heap after `a->tail = t`.
abbrev pub retailed : Whales → ℕ → ℕ → Whales
retailed h a t = update h a (put_in t (h a))

pub set_tail-retailed : (h : Whales) (a t : ℕ) → Here h a → set_tail h a t ≡ done (retailed h a t)
unfolding set_tail
set_tail-retailed h a t (n, e) = ground arith

-- What the two kinds of writes leave alone.
id_in-with_next : (q : ℕ) (c : Option (Node Whale)) → id_in (with_next q c) ≡ id_in c
id_in-with_next q none = refl
id_in-with_next q (some n) = refl

tail_in-with_next : (q : ℕ) (c : Option (Node Whale)) → tail_in (with_next q c) ≡ tail_in c
tail_in-with_next q none = refl
tail_in-with_next q (some n) = refl

id_in-put_in : (t : ℕ) (c : Option (Node Whale)) → id_in (put_in t c) ≡ id_in c
id_in-put_in t none = refl
id_in-put_in t (some n) = refl

next_in-put_in : (t : ℕ) (c : Option (Node Whale)) → next_in (put_in t c) ≡ next_in c
next_in-put_in t none = refl
next_in-put_in t (some n) = refl

module _ (h : Whales) (a t b : ℕ) where
  pub id_in-relink : id_in (relink h a t b) ≡ id_in (h b)
  id_in-relink = ground (arith, id_in-with_next t (h a))

  pub tail_in-relink : tail_in (relink h a t b) ≡ tail_in (h b)
  tail_in-relink = ground (arith, tail_in-with_next t (h a))

  pub id_in-retailed : id_in (retailed h a t b) ≡ id_in (h b)
  id_in-retailed = ground (arith, id_in-put_in t (h a))

  pub next_in-retailed : next_in (retailed h a t b) ≡ next_in (h b)
  next_in-retailed = ground (arith, next_in-put_in t (h a))

  pub Here-retailed : Here h b → Here (retailed h a t) b
  Here-retailed (n, e) = elim (ℕ_discrete a b) [
    | yes same ↦ (with_tail t n, ground arith)
    | no other ↦ (n, ground arith)
  ]

pub tail_in-retailed : (h : Whales) (a t : ℕ) → Here h a → tail_in (retailed h a t a) ≡ t
tail_in-retailed h a t (n, e) = ground arith

-- The heap after `enqueue`.
abbrev pub queued : Whales → ℕ → List ℕ → ℕ → Whales
queued h q ts temp = relink (retailed (relink h (last q ts) temp) q temp) temp null

-- Only the new node, the head and the last node change, and no `id` does.
pub queued-id :
    (h : Whales) (q : ℕ) (ts : List ℕ) (temp a : ℕ) → id_in (queued h q ts temp a) ≡ id_in (h a)
queued-id h q ts temp a =
    id_in-relink (retailed (relink h (last q ts) temp) q temp) temp null a
    ∙ id_in-retailed (relink h (last q ts) temp) q temp a
    ∙ id_in-relink h (last q ts) temp a

pub queued-outside :
    (h : Whales) (q : ℕ) (ts : List ℕ) (temp a : ℕ)
    → a ≢ temp
    → count a (q ∷ ts) ≡ 0
    → queued h q ts temp a ≡ h a
queued-outside h q ts temp a ne out =
    let far : a ≢ last q ts =
      λ e. absurd (omega (arith, out, count-last q ts, ap (λ b. count b (q ∷ ts)) e)) in
    ground (arith, ne, out, far)

module _ (h : Whales) (q : ℕ) (ts : List ℕ) (temp : ℕ) (is : IsQueue h q ts) where
  head : Here h q
  head = Chain-Here h q null q (q ∷ ts) is.chain (ground arith)

  end_node : Here h (last q ts)
  end_node = Chain-Here h q null (last q ts) (q ∷ ts) is.chain (count-last q ts)

  abbrev tied : Whales
  tied = relink h (last q ts) temp

  head_tied : Here tied q
  head_tied = Here-relink h (last q ts) temp q head

  pub enqueue-queued : Here h temp → enqueue q temp h ≡ done (queued h q ts temp)
  unfolding enqueue
  enqueue-queued there =
      let (n, at) = head in
      let e : n.datum.tail ≡ last q ts = sym (ap tail_in at) ∙ is.end in
      let k = retailed tied q temp in
      let (m, at') = Here-retailed tied q temp q head_tied in
      let e' : m.datum.tail ≡ temp =
        sym (ap tail_in at') ∙ tail_in-retailed tied q temp head_tied in
      let own : Here k temp =
        Here-retailed tied q temp temp (Here-relink h (last q ts) temp temp there) in
      rw
        (
          enqueue,
          load-Here h q n at,
          e,
          set_next-relink h (last q ts) temp end_node,
          set_tail-retailed tied q temp head_tied,
          load-Here k q m at',
          e',
          set_next-relink k temp null own,
        )
        refl

  pub queued-IsQueue :
      Here h temp
      → count temp (q ∷ ts) ≡ 0
      → temp ≢ null
      → IsQueue (queued h q ts temp) q (ts ++ (temp ∷ []))
  queued-IsQueue there out real =
      let k = retailed tied q temp in
      let h' = queued h q ts temp in
      let path : Chain tied q (q ∷ ts) temp =
        Chain-move_end h q null temp q ts is.distinct is.chain in
      let apart : (a : ℕ) → 0 < count a (q ∷ ts) → temp ≢ a =
        λ a i e. absurd (omega (arith, i, out, ap (λ b. count b (q ∷ ts)) e)) in
      let front : Chain h' q (q ∷ ts) temp =
        Chain-agree tied h' q temp (q ∷ ts)
          (λ a i. ground (arith, apart a i, next_in-retailed tied q temp a)) path in
      let (n, own) = Here-retailed tied q temp temp (Here-relink h (last q ts) temp temp there) in
      let tip : next_in (h' temp) ≡ some null = ground (arith, own) in
      record {
        chain = Chain-append h' q temp null (q ∷ ts) (temp ∷ []) front (refl, null, tip, refl);
        distinct =
            λ a. ground (arith, sym (count-append a (q ∷ ts) (temp ∷ [])), is.distinct a, out);
        real = ground (arith, sym (count-append null (q ∷ ts) (temp ∷ [])), is.real);
        end =
            tail_in-relink k temp null q
            ∙ tail_in-retailed tied q temp head_tied
            ∙ sym (last-append_cons q ts temp []);
      }
