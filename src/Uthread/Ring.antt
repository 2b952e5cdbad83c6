-- ===== src/Uthread/Ring.antt =====
-- The circle of threads.
use native.Mathlib.Decide.{ℕ_discrete}
use cs.Prelude.{
  ℕ, ◌<◌, ◌≡◌, sym, ap, subst, ◌⊎◌, inl, inr, some, List, [], ◌∷◌, ◌++◌, arith, ℤ, pos, ◌≤ℤ◌, ltb_ℤ,
  All, Bool-cases,
}
use cs.Counting.{count, count-append, count-split, Distinct, SameItems}
use cs.Qsort.{IsComparison, Ordered}
use cs.Nodes.{Node, Nodes}
use cs.Nodes.Chains.{Chain, Chain-append, Chain-split}
use cs.Nodes.Circle.{Chain-Here}
use cs.Nodes.Retie.{last}
use cs.Uthread.{Thread, Sched, pri_in, uthread_priority_sort}

-- From the current thread the pointers lead through the threads `zs` back to it.
pub record IsCycle (s : Sched) (zs : List ℕ) : Type 0 where
  pub chain : Chain s.threads s.current_thread (s.current_thread ∷ zs) s.current_thread
  pub distinct : Distinct (s.current_thread ∷ zs)

-- The head, `t`, and the threads `ts` after it, in the order of their priority, up to the tail.
pub record IsRing (s : Sched) (t : ℕ) (ts : List ℕ) : Type 0 where
  pub head : s.head_thread ≡ t
  pub tail : s.tail_thread ≡ last t ts
  pub chain : Chain s.threads t (t ∷ ts) t
  pub distinct : Distinct (t ∷ ts)
  pub running : 0 < count s.current_thread (t ∷ ts)
  pub sorted : Ordered (uthread_priority_sort s.threads) (t ∷ ts)

abbrev pub pri_of : Nodes Thread → ℕ → ℤ
pri_of h a = pri_in (h a)

pub priority-le :
    (h : Nodes Thread) (a b : ℕ) → uthread_priority_sort h a b ≤ℤ pos 0 → pri_of h a ≤ℤ pri_of h b
unfolding uthread_priority_sort
priority-le h a b le = ground arith

pub le-priority :
    (h : Nodes Thread) (a b : ℕ) → pri_of h a ≤ℤ pri_of h b → uthread_priority_sort h a b ≤ℤ pos 0
unfolding uthread_priority_sort
le-priority h a b le = ground arith

pub priority-IsComparison : (h : Nodes Thread) → IsComparison (uthread_priority_sort h)
priority-IsComparison h = record {
  total = λ a b. total a b;
  transitive =
      λ a b c x y. le-priority h a c (omega (arith, priority-le h a b x, priority-le h b c y));
}
  where
    total :
        (a b : ℕ) → (uthread_priority_sort h a b ≤ℤ pos 0) ⊎ (uthread_priority_sort h b a ≤ℤ pos 0)
    total a b = elim (Bool-cases (ltb_ℤ (pri_of h b) (pri_of h a))) [
      | inl more ↦ inr (le-priority h b a (ground arith))
      | inr less ↦ inl (le-priority h a b (ground arith))
    ]

-- A circle looks the same from the current thread.
pub IsRing-IsCycle :
    {s : Sched} {t : ℕ} {ts : List ℕ}
    → IsRing s t ts
    → (zs : List ℕ) × IsCycle s zs × SameItems (s.current_thread ∷ zs) (t ∷ ts)
IsRing-IsCycle {s} {t} {ts} ring =
    let cur = s.current_thread in
    let (xs, ys, e) = count-split cur (t ∷ ts) ring.running in
    let path : Chain s.threads t (xs ++ (cur ∷ ys)) t =
      subst (λ zs. Chain s.threads t zs t) e ring.chain in
    let (m, front, back) = Chain-split s.threads t t xs (cur ∷ ys) path in
    let back' : Chain s.threads cur (cur ∷ ys) t =
      subst (λ p. Chain s.threads p (cur ∷ ys) t) back.0 back in
    let same : SameItems (cur ∷ (ys ++ xs)) (t ∷ ts) =
      λ a. omega (arith, count-append a ys xs, count-append a xs (cur ∷ ys), ap (count a) e) in
    (
      ys ++ xs,
      record {
        chain =
            Chain-append s.threads cur t cur (cur ∷ ys) xs back'
              (subst (λ p. Chain s.threads t xs p) back.0 front);
        distinct = λ a. omega (arith, same a, ring.distinct a);
      },
      same,
    )

pub All-count : (P : ℕ → Type 0) (a : ℕ) (xs : List ℕ) → All P xs → 0 < count a xs → P a
All-count P a [] all o = absurd (omega arith)
All-count P a (x ∷ xs) all o = elim (ℕ_discrete a x) [
  | yes e ↦ subst P (sym e) all.0
  | no ne ↦ All-count P a xs all.1 (ground arith)
]

-- No thread goes before the head.
pub head-first :
    {s : Sched} {t : ℕ} {ts : List ℕ} (ring : IsRing s t ts) (a : ℕ)
    → 0 < count a (t ∷ ts)
    → pri_of s.threads t ≤ℤ pri_of s.threads a
head-first {s} {t} {ts} ring a o = elim (ℕ_discrete a t) [
  | yes e ↦ subst (λ b. pri_of s.threads t ≤ℤ pri_of s.threads b) (sym e) (ground arith)
  | no ne ↦ priority-le s.threads t a (
      All-count (λ y. uthread_priority_sort s.threads t y ≤ℤ pos 0) a ts ring.sorted.0
        (ground arith))
]

-- The node of the current thread, and the thread that it leads to.
pub record Current (s : Sched) (t : ℕ) (ts : List ℕ) : Type 0 where
  pub old : Node Thread
  pub next : Node Thread
  pub at : s.threads s.current_thread ≡ some old
  pub to : s.threads old.next ≡ some next
  pub in_ring : 0 < count old.next (t ∷ ts)

pub IsRing-Current : {s : Sched} {t : ℕ} {ts : List ℕ} → IsRing s t ts → Current s t ts
IsRing-Current {s} {t} {ts} ring =
    let (zs, cycle, same) = IsRing-IsCycle ring in
    let cur = s.current_thread in
    let (old, at) = Chain-Here s.threads cur cur cur (cur ∷ zs) cycle.chain (ground arith) in
    let e : cycle.chain.1 ≡ old.next = ground (arith, at, cycle.chain.2) in
    let inside : 0 < count old.next (cur ∷ zs) =
      second old.next cur zs (subst (λ n. Chain s.threads n zs cur) e cycle.chain.3) in
    let (next, to) = Chain-Here s.threads cur cur old.next (cur ∷ zs) cycle.chain inside in
    record {
      old = old;
      next = next;
      at = at;
      to = to;
      in_ring = omega (arith, inside, same old.next);
    }
  where
    second : (n cur : ℕ) (zs : List ℕ) → Chain s.threads n zs cur → 0 < count n (cur ∷ zs)
    second n cur [] e = ground (arith, e)
    second n cur (z ∷ zs) path = ground (arith, path.0)
