-- ===== src/Uthread/Leave/Head.antt =====
-- `uthread_exit` of Asmt_4/uthread.c, called by the head of the circle.
use cs.Prelude.{ℕ, ◌≡◌, refl, ap, subst, true, false, inl, none, some, List, ◌∷◌, arith, ◌==◌}
use cs.Exec.{done}
use cs.Counting.{count, Distinct}
use cs.Nodes.{update, relink, set_next}
use cs.Nodes.Chains.{Chain, Chain-update}
use cs.Nodes.Retie.{last, count-last, Here, set_next-relink}
use cs.Nodes.Circle.{Chain-Here, load-Here}
use cs.Nodes.Removal.{Chain-move_end}
use cs.Uthread.{Sched, unlink_current, free_stack, uthread_exit}
use cs.Uthread.Ring.{IsRing, IsRing-Current}
use cs.Uthread.Leave.{Left, Ordered-priority, pri_of-freed}

-- The state after the head has left.
abbrev pub without_head : Sched → ℕ → List ℕ → Sched
without_head s u us = record s {
  threads = update (relink s.threads (last u us) u) s.current_thread none;
  current_thread = u;
  head_thread = u;
}

pub without_head-Left :
    (s : Sched) (t u : ℕ) (us : List ℕ)
    → IsRing s t (u ∷ us)
    → s.current_thread ≡ t
    → Left s t (u ∷ us) (without_head s u us)
without_head-Left s t u us ring top =
    let h = s.threads in
    let cur = s.current_thread in
    let others : count cur (u ∷ us) ≡ 0 = ground (arith, ring.distinct cur, top) in
    let d : Distinct (u ∷ us) = λ a. omega (arith, ring.distinct a) in
    let rest : Chain h u (u ∷ us) t = (refl, ring.chain.3.1, ring.chain.3.2, ring.chain.3.3) in
    record {
      t' = u;
      ts' = us;
      ring = record {
        head = refl;
        tail = ring.tail;
        chain =
            Chain-update (relink h (last u us) u) u u cur none (u ∷ us) others
              (Chain-move_end h u t u u us d rest);
        distinct = d;
        running = ground arith;
        sorted =
            Ordered-priority h (without_head s u us).threads (u ∷ us)
              (λ a i.
                pri_of-freed h (last u us) u cur a
                  (λ e. absurd (omega (arith, i, others, ap (λ b. count b (u ∷ us)) e))))
              ring.sorted.1;
      };
      same = λ a. rw top refl;
      freed = ground arith;
      live = refl;
      next = inl refl;
    }

pub uthread_exit-head :
    (s : Sched) (t u : ℕ) (us : List ℕ)
    → IsRing s t (u ∷ us)
    → s.current_thread ≡ t
    → uthread_exit s ≡ done (without_head s u us)
unfolding uthread_exit unlink_current free_stack
uthread_exit-head s t u us ring top =
    let h = s.threads in
    let cur = s.current_thread in
    let c = IsRing-Current ring in
    let ld = load-Here h cur c.old c.at in
    let at : h t ≡ some c.old = subst (λ a. h a ≡ some c.old) top c.at in
    let to : c.old.next ≡ u = ground (arith, at, ring.chain.2, ring.chain.3.0) in
    let at_head : (cur == s.head_thread) ≡ true = ground (arith, ring.head, top) in
    let apart : (cur == u) ≡ false = ground (arith, ring.distinct cur, top) in
    let end : Here h (last u us) =
      Chain-Here h t t (last u us) (t ∷ u ∷ us) ring.chain (omega (arith, count-last u us)) in
    let move : set_next h s.tail_thread c.old.next ≡ done (relink h (last u us) u) =
      rw (ring.tail, to) (set_next-relink h (last u us) u end) in
    rw (uthread_exit, ld, at_head, move, to, apart) refl
