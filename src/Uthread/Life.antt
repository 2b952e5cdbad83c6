-- ===== src/Uthread/Life.antt =====
-- The calls of Asmt_4/uthread.c one after the other, from `uthread_init` on.
use cs.Prelude.{
  ℕ, ◌+◌, ◌≤◌, ◌<◌, ◌≡◌, ◌≢◌, refl, sym, ap, subst, ◌∙◌, true, false, none, some, List, [], ◌∷◌,
  ◌++◌, arith, ◌==◌, length, length-append, ℤ, pos,
}
use native.Mathlib.Decide.{ℕ_discrete}
use cs.Exec.{done, exit, fault}
use cs.Counting.{count, count-split}
use cs.Qsort.{Qsort}
use cs.Nodes.{update}
use cs.Nodes.Chains.{Chain, Chain-update, count-zero_of_none}
use cs.Nodes.Circle.{load-Here}
use cs.Nodes.Retie.{set_next-relink}
use cs.Uthread.{Sched, null, uthread_create, unlink_current, free_stack, uthread_exit}
use cs.Uthread.Ring.{IsCycle, IsRing, IsRing-Current}
use cs.Uthread.Create.{gather}
use cs.Uthread.Leave.{Left}
use cs.Uthread.Leave.Head.{without_head, uthread_exit-head, without_head-Left}
use cs.Uthread.Leave.Inner.{uthread_exit-inner}

-- If the circle of threads, ordered by priority, has at least two, and no more than were ever
-- made, then uthread_exit returns. It frees the current thread, and the circle consists of the
-- other threads, in order, with the head and tail pointers at its ends. The thread that runs next
-- is the head or has at least the priority of the one that left.
pub uthread_exit-Left :
    (s : Sched) (t u : ℕ) (us : List ℕ)
    → IsRing s t (u ∷ us)
    → length (t ∷ u ∷ us) ≤ s.live_uthreads
    → (s' : Sched) × (uthread_exit s ≡ done s') × Left s t (u ∷ us) s'
uthread_exit-Left s t u us ring room = elim (ℕ_discrete s.current_thread t) [
  | yes top ↦ (
    without_head s u us,
    uthread_exit-head s t u us ring top,
    without_head-Left s t u us ring top,
  )
  | no low ↦
      let cur = s.current_thread in
      let (ws, ys, e) = count-split cur (u ∷ us) (ground (arith, ring.running)) in
      let (s', run, left) =
        uthread_exit-inner s t ws ys (subst (IsRing s t) e ring) low
          (omega (arith, room, ap length e)) in
      (s', run, subst (λ zs. Left s t zs s') (sym e) left)
]

-- When the only thread of the circle calls uthread_exit the process ends with status 0.
pub uthread_exit-last : (s : Sched) (t : ℕ) → IsRing s t [] → uthread_exit s ≡ exit (pos 0)
unfolding uthread_exit unlink_current free_stack
uthread_exit-last s t ring =
    let c = IsRing-Current ring in
    let cur = s.current_thread in
    let top : cur ≡ t = ground (arith, ring.running) in
    let ld = load-Here s.threads cur c.old c.at in
    let at_head : (cur == s.head_thread) ≡ true = ground (arith, ring.head, top) in
    let to : c.old.next ≡ cur = ground (arith, c.in_ring, top) in
    let at : s.threads s.tail_thread ≡ some c.old =
      subst (λ a. s.threads a ≡ some c.old) (top ∙ sym ring.tail) c.at in
    let move = set_next-relink s.threads s.tail_thread c.old.next (c.old, at) in
    let self : (cur == c.old.next) ≡ true = ground (arith, to) in
    rw (uthread_exit, ld, at_head, move, self) refl

-- If more threads were made than are in the circle then uthread_create faults, although getcontext
-- succeeds and malloc returns an address in no use: it sorts an entry of its buffer that it never
-- wrote.
pub uthread_create-fault :
    (qsort : Qsort) (fresh junk stack : ℕ) (pri : ℤ) (s : Sched) (zs : List ℕ)
    → IsCycle s zs
    → length (s.current_thread ∷ zs) < s.live_uthreads
    → fresh ≢ null
    → s.threads fresh ≡ none
    → uthread_create qsort true fresh junk stack pri s ≡ fault
unfolding uthread_create
uthread_create-fault qsort fresh junk stack pri s zs cycle more real free =
    let cur = s.current_thread in
    let h =
      update s.threads fresh
        (some (record { next = junk; datum = record { pri = pri; stack = stack } })) in
    let out = count-zero_of_none s.threads cur cur fresh (cur ∷ zs) cycle.chain free in
    let path : Chain h cur (cur ∷ zs) cur =
      Chain-update s.threads cur cur fresh _ (cur ∷ zs) out cycle.chain in
    let once : count cur zs ≡ 0 = ground (arith, cycle.distinct cur) in
    let (n, at, got) = gather h cur (s.live_uthreads + 1) zs path once (omega (arith, more)) in
    let far : (fresh == null) ≡ false = ground arith in
    let short : (length (zs ++ (cur ∷ fresh ∷ [])) == s.live_uthreads + 1) ≡ false =
      ground (arith, more, length-append zs (cur ∷ fresh ∷ [])) in
    rw (uthread_create, far, at, got, short) refl
