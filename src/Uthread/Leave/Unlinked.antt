-- ===== src/Uthread/Leave/Unlinked.antt =====
-- A thread that is not the head, and the circle without it, for `uthread_exit` of Asmt_4/uthread.c.
use cs.Prelude.{
  ℕ, zero, suc, ◌≤◌, ◌<◌, ◌≡◌, ◌≢◌, refl, sym, ap, subst, ◌⊎◌, inl, inr, none, some, List, [], ◌∷◌,
  ◌++◌, arith, length, length-append, ◌≤ℤ◌,
}
use cs.Exec.{done}
use cs.Counting.{count, count-append}
use cs.Nodes.{Node, Nodes, update, relink, next_in}
use cs.Nodes.Chains.{Chain, Chain-split}
use cs.Nodes.Retie.{last, count-last, Here}
use cs.Nodes.Circle.{Chain-Here}
use cs.Nodes.Removal.{Chain-unlink}
use cs.Uthread.{Thread, Sched, uthread_priority_sort, find_prev}
use cs.Uthread.Ring.{IsRing, pri_of}
use cs.Uthread.Leave.{Left, Ordered-priority, pri_of-freed}
use cs.Qsort.Orders.{Ordered-remove}

-- The loop finds the thread before the one that leaves.
pub find_prev-last :
    (fuel t c : ℕ) (ws : List ℕ) (h : Nodes Thread)
    → Chain h t (t ∷ ws) c
    → count c (t ∷ ws) ≡ 0
    → length ws < fuel
    → find_prev fuel t c h ≡ done (last t ws)
unfolding find_prev
find_prev-last zero t c ws h path out room = absurd (omega arith)
find_prev-last (suc fuel) t c [] h path out room = ground arith
find_prev-last (suc fuel) t c (w ∷ ws) h path out room = ground (
  arith,
  find_prev-last fuel w c ws h (refl, path.3.1, path.3.2, path.3.3) (ground arith) (omega arith),
)

-- The state after a thread that is not the head has left; `n` was after it, and `c` runs now.
abbrev pub without : Sched → ℕ → List ℕ → List ℕ → ℕ → ℕ → Sched
without s t ws ys n c = record s {
  threads = update (relink s.threads (last t ws) n) s.current_thread none;
  current_thread = c;
  tail_thread = last t (ws ++ ys);
}

module _ (s : Sched) (t : ℕ) (ws ys : List ℕ)
    (ring : IsRing s t (ws ++ (s.current_thread ∷ ys))) where
  counts :
      (a : ℕ)
      → count a (s.current_thread ∷ t ∷ (ws ++ ys)) ≡ count a (t ∷ (ws ++ (s.current_thread ∷ ys)))
  counts a = omega (arith, count-append a ws ys, count-append a ws (s.current_thread ∷ ys))

  pub without-Left :
      (n c : ℕ)
      → next_in (s.threads s.current_thread) ≡ some n
      → 0 < count c (t ∷ (ws ++ ys))
      → (c ≡ t) ⊎ (pri_of s.threads c ≤ℤ pri_of s.threads s.current_thread)
      → Left s t (ws ++ (s.current_thread ∷ ys)) (without s t ws ys n c)
  without-Left n c at inside next =
      let h = s.threads in
      let cur = s.current_thread in
      let gone : count cur (t ∷ (ws ++ ys)) ≡ 0 = ground (arith, counts cur, ring.distinct cur) in
      let kept : (a : ℕ)
          → 0 < count a (t ∷ (ws ++ ys))
          → pri_of (without s t ws ys n c).threads a ≡ pri_of h a =
        λ a i.
          pri_of-freed h (last t ws) n cur a
            (λ e. absurd (omega (arith, i, gone, ap (λ b. count b (t ∷ (ws ++ ys))) e))) in
      record {
        t' = t;
        ts' = ws ++ ys;
        ring = record {
          head = ring.head;
          tail = refl;
          chain = Chain-unlink h t cur n t ws ys ring.distinct ring.chain at;
          distinct = λ a. omega (arith, counts a, ring.distinct a);
          running = inside;
          sorted =
              Ordered-priority h (without s t ws ys n c).threads (t ∷ (ws ++ ys)) kept
                (Ordered-remove (uthread_priority_sort h) cur (t ∷ ws) ys ring.sorted);
        };
        same = counts;
        freed = ground arith;
        live = refl;
        next = elim next [ inl e ↦ inl e | inr le ↦ inr (rw (kept c inside) le) ];
      }

  -- The thread that the current one points to.
  pub after_current :
      (old : Node Thread) → s.threads s.current_thread ≡ some old → Chain s.threads old.next ys t
  after_current old at =
      let (m, front, back) =
        Chain-split s.threads t t (t ∷ ws) (s.current_thread ∷ ys) ring.chain in
      let e : back.1 ≡ old.next = ground (arith, at, back.2) in
      subst (λ a. Chain s.threads a ys t) e back.3

  pub prev_found :
      s.current_thread ≢ t
      → length (t ∷ (ws ++ (s.current_thread ∷ ys))) ≤ s.live_uthreads
      → find_prev s.live_uthreads s.head_thread s.current_thread s.threads ≡ done (last t ws)
  prev_found low room =
      let cur = s.current_thread in
      let (m, front, back) = Chain-split s.threads t t (t ∷ ws) (cur ∷ ys) ring.chain in
      let out : count cur (t ∷ ws) ≡ 0 =
        ground (arith, ring.distinct cur, count-append cur (t ∷ ws) (cur ∷ ys)) in
      subst (λ a. find_prev s.live_uthreads a cur s.threads ≡ done (last t ws)) (sym ring.head)
        (find_prev-last s.live_uthreads t cur ws s.threads
          (subst (λ a. Chain s.threads t (t ∷ ws) a) back.0 front) out
          (omega (arith, room, length-append ws (cur ∷ ys))))

  pub prev_Here : Here s.threads (last t ws)
  prev_Here =
      Chain-Here s.threads t t (last t ws) (t ∷ (ws ++ (s.current_thread ∷ ys))) ring.chain
        (omega (arith, count-last t ws, count-append (last t ws) (t ∷ ws) (s.current_thread ∷ ys)))
