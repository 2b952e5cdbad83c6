-- ===== src/Uthread/Steps.antt =====
-- Every state of the scheduler of Asmt_4/uthread.c that its calls lead to.
use cs.Prelude.{
  ℕ, ◌≤◌, ◌≡◌, ◌≢◌, refl, sym, ap, subst, ◌∙◌, Bool, true, false, ◌⊎◌, inl, inr, none, some, List,
  [], ◌∷◌, arith, ◌==◌, if◌then◌else◌, length, ℤ, pos, Bool-cases,
}
use cs.Exec.{Exec, done, fault, done_injective, fault≢done, exit≢done}
use cs.Counting.{length-SameItems}
use cs.Qsort.{Qsort}
use cs.Nodes.Circle.{Chain-Here, load-Here}
use cs.Nodes.{update}
use cs.Uthread.{
  Sched, Sys, null, require, uthread_init, uthread_create, uthread_yield, find_prev, unlink_current,
  uthread_exit,
}
use cs.Uthread.Ring.{IsCycle, IsRing, IsRing-IsCycle}
use cs.Uthread.Create.{Created, uthread_create-Created}
use cs.Uthread.Yield.{uthread_yield-Switch}
use cs.Uthread.Life.{uthread_exit-Left, uthread_exit-last, uthread_create-fault}

-- The static variables as the program starts.
abbrev pub boot : Sched
boot = record {
  threads = λ a. none;
  current_thread = null;
  tail_thread = null;
  head_thread = null;
  uthread_id = 0;
  live_uthreads = 0;
}

-- The calls that return. `malloc` gives an address that is in no use.
pub data Step (qsort : Qsort) : Sched → Sched → Type 0 where
  creates :
      {s s' : Sched} (fresh junk stack id : ℕ) (pri : ℤ)
      → fresh ≢ null
      → s.threads fresh ≡ none
      → uthread_create qsort true fresh junk stack pri s ≡ done (s', id)
      → Step qsort s s'
  yields : {s s' : Sched} → uthread_yield s ≡ done s' → Step qsort s s'
  exits : {s s' : Sched} → uthread_exit s ≡ done s' → Step qsort s s'

pub data Reachable (qsort : Qsort) : Sched → Type 0 where
  inits :
      {s : Sched} (sys : Sys) (fresh : ℕ) → uthread_init sys fresh boot ≡ done s → Reachable qsort s
  steps : {s s' : Sched} → Reachable qsort s → Step qsort s s' → Reachable qsort s'

-- Before the first `uthread_create`: the calling thread alone, and no head.
pub record IsSolo (s : Sched) : Type 0 where
  pub cycle : IsCycle s []
  pub live : s.live_uthreads ≡ 1
  pub headless : s.head_thread ≡ null
  pub empty : s.threads null ≡ none

-- After it: a ring, of at most as many threads as were ever made.
pub record IsCrowd (s : Sched) : Type 0 where
  pub t : ℕ
  pub ts : List ℕ
  pub ring : IsRing s t ts
  pub room : length (t ∷ ts) ≤ s.live_uthreads

-- A call that is required to succeed did, if the run goes on.
require-done : {A : Type 0} (ok : Bool) (e : Exec A) (a : A) → require ok e ≡ done a → e ≡ done a
require-done true e a run = run
require-done false e a run = absurd (exit≢done run)

-- The state that `uthread_init` makes.
abbrev inited : ℕ → Sched
inited fresh = record boot {
  threads =
      update boot.threads fresh
        (some (record { next = fresh; datum = record { pri = pos 9; stack = null } }));
  current_thread = fresh;
  tail_thread = fresh;
  live_uthreads = 1;
}

abbrev configured : Sys → ℕ → Exec Sched
configured sys fresh = require sys.getcontext_ok (
    require sys.cleanup_ok
      (require sys.setitimer_ok (require sys.sigaction_ok (done (inited fresh)))))

pub uthread_init-IsSolo :
    (sys : Sys) (fresh : ℕ) (s : Sched) → uthread_init sys fresh boot ≡ done s → IsSolo s
unfolding uthread_init
uthread_init-IsSolo sys fresh s run = elim (Bool-cases (fresh == null)) [
  | inl nil ↦ absurd (
      fault≢done {a = s}
        (subst (λ b. (if b then fault else configured sys fresh) ≡ done s) nil run))
  | inr real ↦
      let e : inited fresh ≡ s = done_injective (
        require-done sys.sigaction_ok _ s (
          require-done sys.setitimer_ok _ s (
            require-done sys.cleanup_ok _ s (
              require-done sys.getcontext_ok _ s
                (subst (λ b. (if b then fault else configured sys fresh) ≡ done s) real run))))) in
      subst IsSolo e (record {
        cycle = record { chain = (refl, fresh, ground arith, refl); distinct = λ a. ground arith };
        live = refl;
        headless = refl;
        empty = ground arith;
      })
]

Created-IsCrowd :
    {s : Sched} {fresh : ℕ} {pri : ℤ} {zs : List ℕ} {s' : Sched}
    → length (s.current_thread ∷ zs) ≤ s.live_uthreads
    → Created s fresh pri zs s'
    → IsCrowd s'
Created-IsCrowd {s} {fresh} {pri} {zs} {s'} room created = record {
  t = created.t;
  ts = created.ts;
  ring = created.ring;
  room = omega (
    arith,
    room,
    created.live,
    length-SameItems (created.t ∷ created.ts) (fresh ∷ s.current_thread ∷ zs) created.same,
  );
}

creates-IsCrowd :
    (qsort : Qsort) (fresh junk stack id : ℕ) (pri : ℤ) (s s' : Sched) (zs : List ℕ)
    → IsCycle s zs
    → length (s.current_thread ∷ zs) ≤ s.live_uthreads
    → fresh ≢ null
    → s.threads fresh ≡ none
    → uthread_create qsort true fresh junk stack pri s ≡ done (s', id)
    → IsCrowd s'
creates-IsCrowd qsort fresh junk stack id pri s s' zs cycle room real free run =
    elim (Bool-cases (s.live_uthreads == length (s.current_thread ∷ zs))) [
      | inl full ↦
          let (s1, run1, created) =
            uthread_create-Created qsort fresh junk stack pri s zs cycle (ground (arith, full)) real
              free in
          let e : s1 ≡ s' = ap (λ r. r.0) (done_injective (sym run1 ∙ run)) in
          subst IsCrowd e (Created-IsCrowd room created)
      | inr more ↦ absurd (
          fault≢done (
            sym (
              uthread_create-fault qsort fresh junk stack pri s zs cycle (ground (arith, more)) real
                free)
            ∙ run))
    ]

yields-alone : (s : Sched) → IsCycle s [] → uthread_yield s ≡ done s
unfolding uthread_yield
yields-alone s cycle =
    let cur = s.current_thread in
    let (old, at) = Chain-Here s.threads cur cur cur (cur ∷ []) cycle.chain (ground arith) in
    let self : (cur == old.next) ≡ true = ground (arith, at, cycle.chain.2, cycle.chain.3) in
    rw (uthread_yield, load-Here s.threads cur old at, self) refl

-- If uthread_exit is called after uthread_init and before any uthread_create it faults: the head
-- pointer is still null.
pub uthread_exit-headless : (s : Sched) → IsSolo s → uthread_exit s ≡ fault
unfolding uthread_exit unlink_current find_prev
uthread_exit-headless s solo =
    let cur = s.current_thread in
    let (old, at) = Chain-Here s.threads cur cur cur (cur ∷ []) solo.cycle.chain (ground arith) in
    let real : cur ≢ null = λ e. absurd (ground (arith, at, solo.empty, ap s.threads e)) in
    let below : (cur == s.head_thread) ≡ false = ground (arith, solo.headless, real) in
    let lost : find_prev s.live_uthreads s.head_thread cur s.threads ≡ fault =
      rw (solo.live, solo.headless) (ground (arith, solo.empty)) in
    rw (uthread_exit, load-Here s.threads cur old at, below, lost) refl

-- In every state that uthread_init and then returning calls of uthread_create, uthread_yield and
-- uthread_exit lead to there is either the one thread that called uthread_init, with no head, or a
-- circle ordered by priority that holds the current thread and at most as many threads as were
-- ever made.
pub Reachable-IsHealthy : (qsort : Qsort) (s : Sched) → Reachable qsort s → IsSolo s ⊎ IsCrowd s
Reachable-IsHealthy qsort s (inits sys fresh run) = inl (uthread_init-IsSolo sys fresh s run)
Reachable-IsHealthy qsort s (steps {s = s0} before step) =
    after (Reachable-IsHealthy qsort s0 before) step
  where
    after : {s0 s : Sched} → IsSolo s0 ⊎ IsCrowd s0 → Step qsort s0 s → IsSolo s ⊎ IsCrowd s
    after {s0} {s} (inl solo) (creates fresh junk stack id pri real free run) = inr (
        creates-IsCrowd qsort fresh junk stack id pri s0 s [] solo.cycle (omega (arith, solo.live))
          real free run)
    after {s0} {s} (inl solo) (yields run) =
        inl (subst IsSolo (done_injective (sym (yields-alone s0 solo.cycle) ∙ run)) solo)
    after {s0} {s} (inl solo) (exits run) =
        absurd (fault≢done (sym (uthread_exit-headless s0 solo) ∙ run))
    after {s0} {s} (inr crowd) (creates fresh junk stack id pri real free run) =
        let (zs, cycle, same) = IsRing-IsCycle crowd.ring in
        let room : length (s0.current_thread ∷ zs) ≤ s0.live_uthreads = omega (
          arith,
          crowd.room,
          length-SameItems (s0.current_thread ∷ zs) (crowd.t ∷ crowd.ts) same,
        ) in
        inr (creates-IsCrowd qsort fresh junk stack id pri s0 s zs cycle room real free run)
    after {s0} {s} (inr crowd) (yields run) =
        let (c, run', ring, le) = uthread_yield-Switch s0 crowd.t crowd.ts crowd.ring in
        inr (
          subst IsCrowd (done_injective (sym run' ∙ run))
            (record { t = crowd.t; ts = crowd.ts; ring = ring; room = crowd.room }))
    after {s0} {s} (inr crowd) (exits run) =
        inr (leave s0 s crowd.t crowd.ts crowd.ring crowd.room run)
      where
        leave :
            (s0 s : Sched) (t : ℕ) (ts : List ℕ)
            → IsRing s0 t ts
            → length (t ∷ ts) ≤ s0.live_uthreads
            → uthread_exit s0 ≡ done s
            → IsCrowd s
        leave s0 s t [] ring room run = absurd (exit≢done (sym (uthread_exit-last s0 t ring) ∙ run))
        leave s0 s t (u ∷ us) ring room run =
            let (s1, run1, left) = uthread_exit-Left s0 t u us ring room in
            subst IsCrowd (done_injective (sym run1 ∙ run)) (record {
              t = left.t';
              ts = left.ts';
              ring = left.ring;
              room = omega (
                arith,
                room,
                left.live,
                length-SameItems (s0.current_thread ∷ left.t' ∷ left.ts') (t ∷ u ∷ us) left.same,
              );
            })
