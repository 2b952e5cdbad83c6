-- ===== src/Uthread/Leave/Inner.antt =====
-- `uthread_exit` of Asmt_4/uthread.c, called by a thread that is not the head.
use cs.Prelude.{
  ℕ, ◌≤◌, ◌<◌, ◌≡◌, ◌≢◌, refl, sym, ap, ◌∙◌, true, false, Bool-cases, ◌⊎◌, inl, inr, some, List, [],
  ◌∷◌, ◌++◌, append-nil, arith, ◌==◌, length, ◌≤ℤ◌, ltb_ℤ,
}
use cs.Exec.{done}
use cs.Counting.{count, count-append}
use cs.Nodes.{relink, set_next, next_in}
use cs.Nodes.Retie.{last, count-last, set_next-relink}
use cs.Nodes.Circle.{load-Here}
use cs.Nodes.Removal.{last-append_cons}
use cs.Uthread.{Sched, pri_in, unlink_current, free_stack, uthread_exit}
use cs.Uthread.Ring.{IsRing, pri_of, head-first, IsRing-Current}
use cs.Uthread.Leave.{Left}
use cs.Uthread.Leave.Unlinked.{without, without-Left, after_current, prev_found, prev_Here}

uthread_exit-tail :
    (s : Sched) (t : ℕ) (ws : List ℕ)
    → IsRing s t (ws ++ (s.current_thread ∷ []))
    → s.current_thread ≢ t
    → length (t ∷ (ws ++ (s.current_thread ∷ []))) ≤ s.live_uthreads
    → uthread_exit s ≡ done (without s t ws [] t t)
unfolding uthread_exit unlink_current free_stack
uthread_exit-tail s t ws ring low room =
    let h = s.threads in
    let cur = s.current_thread in
    let c = IsRing-Current ring in
    let ld = load-Here h cur c.old c.at in
    let to : c.old.next ≡ t = after_current s t ws [] ring c.old c.at in
    let below : (cur == s.head_thread) ≡ false = ground (arith, ring.head) in
    let prev = prev_found s t ws [] ring low room in
    let ld_next = load-Here h c.old.next c.next c.to in
    let pri_next : pri_of h t ≡ c.next.datum.pri = ap (pri_of h) (sym to) ∙ ap pri_in c.to in
    let pri_old : pri_of h cur ≡ c.old.datum.pri = ap pri_in c.at in
    let not_lower : ltb_ℤ c.old.datum.pri c.next.datum.pri ≡ false =
      ground (arith, head-first ring cur ring.running, pri_next, pri_old) in
    let at_tail : (cur == s.tail_thread) ≡ true =
      ground (arith, ring.tail, last-append_cons t ws cur []) in
    let move : set_next h (last t ws) s.head_thread ≡ done (relink h (last t ws) t) =
      rw ring.head (set_next-relink h (last t ws) t (prev_Here s t ws [] ring)) in
    let apart : (cur == t) ≡ false = ground arith in
    rw
      (
        uthread_exit,
        ld,
        below,
        prev,
        ld_next,
        not_lower,
        at_tail,
        move,
        ring.head,
        append-nil ws,
        apart,
      )
      refl

-- Who runs after a thread between the head and the tail has left.
uthread_exit-middle :
    (s : Sched) (t : ℕ) (ws : List ℕ) (y : ℕ) (ys : List ℕ)
    → IsRing s t (ws ++ (s.current_thread ∷ y ∷ ys))
    → s.current_thread ≢ t
    → length (t ∷ (ws ++ (s.current_thread ∷ y ∷ ys))) ≤ s.live_uthreads
    → (c : ℕ) × (uthread_exit s ≡ done (without s t ws (y ∷ ys) y c))
      × ((c ≡ t) ⊎ ((c ≡ y) × (pri_of s.threads y ≤ℤ pri_of s.threads s.current_thread)))
      × (next_in (s.threads s.current_thread) ≡ some y)
unfolding uthread_exit unlink_current free_stack
uthread_exit-middle s t ws y ys ring low room =
    let h = s.threads in
    let cur = s.current_thread in
    let c = IsRing-Current ring in
    let ld = load-Here h cur c.old c.at in
    let to : c.old.next ≡ y = (after_current s t ws (y ∷ ys) ring c.old c.at).0 in
    let at : next_in (h cur) ≡ some y = ap next_in c.at ∙ ap some to in
    let below : (cur == s.head_thread) ≡ false = ground (arith, ring.head) in
    let prev = prev_found s t ws (y ∷ ys) ring low room in
    let ld_next = load-Here h c.old.next c.next c.to in
    let pri_next : pri_of h y ≡ c.next.datum.pri = ap (pri_of h) (sym to) ∙ ap pri_in c.to in
    let pri_old : pri_of h cur ≡ c.old.datum.pri = ap pri_in c.at in
    let tail : s.tail_thread ≡ last t (ws ++ (y ∷ ys)) =
      ring.tail ∙ last-append_cons t ws cur (y ∷ ys) ∙ sym (last-append_cons t ws y ys) in
    let split = count-append cur ws (cur ∷ y ∷ ys) in
    let alone : count cur (y ∷ ys) ≡ 0 = ground (arith, ring.distinct cur, split) in
    let not_y : (cur == y) ≡ false = ground (arith, alone) in
    let not_t : (cur == t) ≡ false = ground arith in
    let not_last : cur ≢ last y ys =
      λ e. absurd (omega (arith, alone, count-last y ys, ap (λ a. count a (y ∷ ys)) e)) in
    let not_tail : (cur == s.tail_thread) ≡ false =
      ground (arith, tail, last-append_cons t ws y ys, not_last) in
    let move : set_next h (last t ws) c.old.next ≡ done (relink h (last t ws) y) =
      rw to (set_next-relink h (last t ws) y (prev_Here s t ws (y ∷ ys) ring)) in
    elim (Bool-cases (ltb_ℤ c.old.datum.pri c.next.datum.pri)) [
      | inl lower ↦ (
        t,
        rw (uthread_exit, ld, below, prev, ld_next, lower, move, ring.head, tail, not_t) refl,
        inl refl,
        at,
      )
      | inr not_lower ↦ (
        y,
        rw (uthread_exit, ld, below, prev, ld_next, not_lower, not_tail, move, to, tail, not_y)
            refl,
        inr (refl, ground (arith, pri_next, pri_old)),
        at,
      )
    ]

-- A thread that is not the head leaves the circle as it was without it.
pub uthread_exit-inner :
    (s : Sched) (t : ℕ) (ws ys : List ℕ)
    → IsRing s t (ws ++ (s.current_thread ∷ ys))
    → s.current_thread ≢ t
    → length (t ∷ (ws ++ (s.current_thread ∷ ys))) ≤ s.live_uthreads
    → (s' : Sched) × (uthread_exit s ≡ done s') × Left s t (ws ++ (s.current_thread ∷ ys)) s'
uthread_exit-inner s t ws [] ring low room =
    let c = IsRing-Current ring in
    let at = ap next_in c.at ∙ ap some (after_current s t ws [] ring c.old c.at) in
    (
      without s t ws [] t t,
      uthread_exit-tail s t ws ring low room,
      without-Left s t ws [] ring t t at (ground arith) (inl refl),
    )
uthread_exit-inner s t ws (y ∷ ys) ring low room =
    let (c, run, chosen, at) = uthread_exit-middle s t ws y ys ring low room in
    let inside : 0 < count c (t ∷ (ws ++ (y ∷ ys))) = elim chosen [
      | inl top ↦ ground arith
      | inr after ↦ ground (arith, count-append c ws (y ∷ ys), after.0)
    ] in
    let next : (c ≡ t) ⊎ (pri_of s.threads c ≤ℤ pri_of s.threads s.current_thread) = elim chosen [
      | inl top ↦ inl top
      | inr after ↦ inr (rw after.0 after.1)
    ] in
    (without s t ws (y ∷ ys) y c, run, without-Left s t ws (y ∷ ys) ring y c at inside next)
