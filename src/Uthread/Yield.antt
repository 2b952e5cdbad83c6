-- ===== src/Uthread/Yield.antt =====
-- `uthread_yield` of Asmt_4/uthread.c: who runs next.
use cs.Prelude.{ℕ, ◌<◌, ◌≡◌, refl, ap, Bool-cases, inl, inr, List, ◌∷◌, arith, ◌==◌, ◌≤ℤ◌, ltb_ℤ}
use cs.Exec.{done}
use cs.Counting.{count}
use cs.Nodes.Circle.{load-Here}
use cs.Uthread.{Sched, pri_in, uthread_yield}
use cs.Uthread.Ring.{IsRing, pri_of, head-first, IsRing-Current}

-- The circle does not depend on who runs.
pub IsRing-switch :
    {s : Sched} {t : ℕ} {ts : List ℕ} (ring : IsRing s t ts) (c : ℕ)
    → 0 < count c (t ∷ ts)
    → IsRing (record s { current_thread = c }) t ts
IsRing-switch ring c o = record {
  head = ring.head;
  tail = ring.tail;
  chain = ring.chain;
  distinct = ring.distinct;
  running = o;
  sorted = ring.sorted;
}

-- If the threads are a circle ordered by priority then uthread_yield returns and changes nothing
-- but the current thread, which is again in the circle and has at least the priority of the one
-- that yields.
pub uthread_yield-Switch :
    (s : Sched) (t : ℕ) (ts : List ℕ)
    → IsRing s t ts
    → (c : ℕ) × (uthread_yield s ≡ done (record s { current_thread = c }))
      × IsRing (record s { current_thread = c }) t ts
      × (pri_of s.threads c ≤ℤ pri_of s.threads s.current_thread)
unfolding uthread_yield
uthread_yield-Switch s t ts ring =
    let c = IsRing-Current ring in
    let cur = s.current_thread in
    let first : pri_of s.threads t ≤ℤ pri_of s.threads cur = head-first ring cur ring.running in
    let ld = load-Here s.threads cur c.old c.at in
    let ld_next = load-Here s.threads c.old.next c.next c.to in
    elim (Bool-cases (cur == c.old.next)) [
      | inl alone ↦ (
        cur,
        rw (uthread_yield, ld, alone) refl,
        IsRing-switch ring cur ring.running,
        ground arith,
      )
      | inr several ↦ elim (Bool-cases (ltb_ℤ c.old.datum.pri c.next.datum.pri)) [
        | inl lower ↦ elim (Bool-cases (cur == s.head_thread)) [
          | inl top ↦ (
            cur,
            rw (uthread_yield, ld, several, ld_next, lower, top) refl,
            IsRing-switch ring cur ring.running,
            ground arith,
          )
          | inr below ↦ (
            t,
            rw (uthread_yield, ld, several, ld_next, lower, below)
                (ap (λ a. done (record s { current_thread = a })) ring.head),
            IsRing-switch ring t (ground arith),
            first,
          )
        ]
        | inr higher ↦ (
          c.old.next,
          rw (uthread_yield, ld, several, ld_next, higher) refl,
          IsRing-switch ring c.old.next c.in_ring,
          ground (arith, ap pri_in c.at, ap pri_in c.to),
        )
      ]
    ]
