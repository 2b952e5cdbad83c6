-- ===== src/Uthread/Leave.antt =====
-- `uthread_exit` of Asmt_4/uthread.c: the current thread leaves the circle.
pub mod Head
pub mod Unlinked
pub mod Inner
use native.Mathlib.Decide.{ℕ_discrete}
use cs.Prelude.{
  ℕ, zero, suc, ◌+◌, ◌≤◌, ◌<◌, ◌≡◌, ◌≢◌, refl, sym, ap, subst, ◌∙◌, Bool, true, false, Bool-cases,
  ◌⊎◌, inl, inr, Option, none, some, List, [], ◌∷◌, ◌++◌, append-nil, arith, ◌==◌, if◌then◌else◌,
  length, length-append, All, ℤ, pos, ◌≤ℤ◌, ltb_ℤ,
}
use cs.Exec.{Exec, done, exit, fault, ◌>>=◌}
use cs.Counting.{count, count-append, count-one, count-split, Distinct, SameItems}
use cs.Qsort.{Ordered}
use cs.Qsort.Orders.{Ordered-agree, Ordered-remove}
use cs.Nodes.{Node, Nodes, update, relink, with_next, load, set_next, next_in, datum_in}
use cs.Nodes.Chains.{Chain, Chain-update, Chain-split}
use cs.Nodes.Retie.{last, count-last, Here, set_next-relink}
use cs.Nodes.Circle.{Chain-Here, load-Here}
use cs.Nodes.Removal.{Chain-move_end, Chain-unlink, last-append_cons}
use cs.Uthread.{
  Thread, Sched, null, pri_in, uthread_priority_sort, find_prev, unlink_current, free_stack,
  uthread_exit,
}
use cs.Uthread.Ring.{IsRing, pri_of, priority-le, le-priority, head-first, Current, IsRing-Current}

-- What `uthread_exit` does to the threads.
pub record Left (s : Sched) (t : ℕ) (ts : List ℕ) (s' : Sched) : Type 0 where
  pub t' : ℕ
  pub ts' : List ℕ
  pub ring : IsRing s' t' ts'
  pub same : SameItems (s.current_thread ∷ t' ∷ ts') (t ∷ ts)
  pub freed : s'.threads s.current_thread ≡ none
  pub live : s'.live_uthreads ≡ s.live_uthreads
  pub next :
      (s'.current_thread ≡ t')
      ⊎ (pri_of s'.threads s'.current_thread ≤ℤ pri_of s.threads s.current_thread)

-- The order depends on the priorities of the listed threads alone.
pub Ordered-priority :
    (h k : Nodes Thread) (ys : List ℕ)
    → ((a : ℕ) → 0 < count a ys → pri_of k a ≡ pri_of h a)
    → Ordered (uthread_priority_sort h) ys
    → Ordered (uthread_priority_sort k) ys
unfolding uthread_priority_sort
Ordered-priority h k ys same =
    Ordered-agree (uthread_priority_sort h) (uthread_priority_sort k) ys
      (λ a b i j. rw (same a i, same b j) refl)

-- Another thread's priority is the same once `c` is freed.
pub pri_of-freed :
    (h : Nodes Thread) (p n c a : ℕ) → c ≢ a → pri_of (update (relink h p n) c none) a ≡ pri_of h a
pri_of-freed h p n c a ne = elim (ℕ_discrete p a) [
  | yes e ↦ (ground arith ∙ same_pri (h p)) ∙ ap (pri_of h) e
  | no other ↦ ground arith
]
  where
    same_pri : (c : Option (Node Thread)) → pri_in (with_next n c) ≡ pri_in c
    same_pri none = refl
    same_pri (some m) = refl
