-- ===== src/Uthread/Create.antt =====
-- `uthread_create` of Asmt_4/uthread.c: the new thread joins the circle at its priority.
use mathlib.Core.Path.{fun_ext}
use native.Mathlib.Decide.{ℕ_discrete}
use cs.Prelude.{
  ℕ, ◌+◌, ◌≤◌, ◌<◌, ◌≡◌, ◌≢◌, refl, sym, ap, subst, ◌∙◌, true, false, Option, none, some, List, [],
  ◌∷◌, ◌++◌, arith, ◌==◌, length, length-append, All, ℤ,
}
use cs.Exec.{done, ◌>>=◌}
use cs.Counting.{count, count-append, Distinct, SameItems}
use cs.Qsort.{Qsort, Ordered}
use cs.Nodes.{Node, Nodes, update, load, collect, datum_in}
use cs.Nodes.Chains.{Chain, Chain-update, collect-Chain, count-zero_of_none}
use cs.Nodes.Retie.{last, count-last, Here, set_next-relink, retie-tied, tied}
use cs.Nodes.Circle.{
  All-of_count, Chain-Here, Here-tied, circled, circled-Chain, circled-last, datum_in-circled,
}
use cs.Uthread.{Thread, Sched, null, pri_in, uthread_priority_sort, tie_circle, uthread_create}
use cs.Uthread.Ring.{IsCycle, IsRing, pri_of, priority-IsComparison}

-- Only `next` tells one heap from the other.
pub pri_in-datum : (c d : Option (Node Thread)) → datum_in c ≡ datum_in d → pri_in c ≡ pri_in d
pri_in-datum none none e = refl
pri_in-datum none (some n) e = absurd (ground (arith, e))
pri_in-datum (some m) none e = absurd (ground (arith, e))
pri_in-datum (some m) (some n) e = ground (arith, e)

pub priority-datum :
    (h k : Nodes Thread)
    → ((a : ℕ) → datum_in (h a) ≡ datum_in (k a))
    → uthread_priority_sort h ≡ uthread_priority_sort k
unfolding uthread_priority_sort
priority-datum h k same = fun_ext (λ a.
    fun_ext (λ b. rw (pri_in-datum (h a) (k a) (same a), pri_in-datum (h b) (k b) (same b)) refl))

pub tie_circle_lem :
    (h : Nodes Thread) (b : ℕ) (bs : List ℕ) (s : Sched)
    → All (Here h) (b ∷ bs)
    → Here h (last b bs)
    → tie_circle h (b ∷ bs) s
      ≡ done (record s { threads = circled b bs h; head_thread = b; tail_thread = last b bs })
unfolding tie_circle
tie_circle_lem h b bs s all here =
    let (n, at, e) = circled-last b bs h here in
    rw
      (
        retie-tied b bs h all,
        set_next-relink (tied b bs h) (last b bs) b (Here-tied b bs h (last b bs) here),
      )
      (ground (arith, at, e))

-- What `uthread_create` does to the threads.
pub record Created (s : Sched) (fresh : ℕ) (pri : ℤ) (zs : List ℕ) (s' : Sched) : Type 0 where
  pub t : ℕ
  pub ts : List ℕ
  pub ring : IsRing s' t ts
  pub same : SameItems (t ∷ ts) (fresh ∷ s.current_thread ∷ zs)
  pub current : s'.current_thread ≡ s.current_thread
  pub live : s'.live_uthreads ≡ s.live_uthreads + 1
  pub priority : pri_of s'.threads fresh ≡ pri
  pub others : (a : ℕ) → a ≢ fresh → datum_in (s'.threads a) ≡ datum_in (s.threads a)

pub gather :
    (h : Nodes Thread) (cur live : ℕ) (zs : List ℕ)
    → Chain h cur (cur ∷ zs) cur
    → count cur zs ≡ 0
    → length zs ≤ live
    → (n : Node Thread) × (load h cur ≡ done n) × (collect live n.next cur h ≡ done zs)
gather h cur live zs path out room =
    let (n, at) = Chain-Here h cur cur cur (cur ∷ zs) path (ground arith) in
    let e : path.1 ≡ n.next = ground (arith, at, path.2) in
    (n, ground (arith, at), rw (sym e) (collect-Chain live h path.1 cur zs out room path.3))

-- The rest of `uthread_create`, once the buffer is filled.
uthread_create-buffer :
    (qsort : Qsort) (fresh junk stack : ℕ) (pri : ℤ) (s : Sched) (zs : List ℕ)
    → fresh ≢ null
    → length (zs ++ (s.current_thread ∷ fresh ∷ [])) ≡ s.live_uthreads + 1
    → let h =
        update s.threads fresh
          (some (record { next = junk; datum = record { pri = pri; stack = stack } })) in
      Chain h s.current_thread (s.current_thread ∷ zs) s.current_thread
      → count s.current_thread zs ≡ 0
      → uthread_create qsort true fresh junk stack pri s ≡ (do
        s' ←
            tie_circle h
              (qsort.sort (uthread_priority_sort h) (zs ++ (s.current_thread ∷ fresh ∷ [])))
              (record s { live_uthreads = s.live_uthreads + 1; uthread_id = s.uthread_id + 1 })
        done (s', s.uthread_id + 1))
unfolding uthread_create
uthread_create-buffer qsort fresh junk stack pri s zs real size path out =
    let h =
      update s.threads fresh
        (some (record { next = junk; datum = record { pri = pri; stack = stack } })) in
    let (n, at, got) =
      gather h s.current_thread (s.live_uthreads + 1) zs path out
        (omega (arith, size, length-append zs (s.current_thread ∷ fresh ∷ []))) in
    let far : (fresh == null) ≡ false = ground arith in
    let full : (length (zs ++ (s.current_thread ∷ fresh ∷ [])) == s.live_uthreads + 1) ≡ true =
      ground arith in
    rw (uthread_create, far, at, got, full) refl

-- A buffer of distinct threads, sorted, becomes a ring.
pub record Joined (h : Nodes Thread) (buf : List ℕ) (s s' : Sched) : Type 0 where
  pub t : ℕ
  pub ts : List ℕ
  pub ring : IsRing s' t ts
  pub same : SameItems (t ∷ ts) buf
  pub current : s'.current_thread ≡ s.current_thread
  pub live : s'.live_uthreads ≡ s.live_uthreads
  pub datums : (a : ℕ) → datum_in (s'.threads a) ≡ datum_in (h a)

tie_circle-Joined :
    (h : Nodes Thread) (sorted buf : List ℕ) (s : Sched)
    → SameItems sorted buf
    → Distinct buf
    → ((a : ℕ) → 0 < count a buf → Here h a)
    → Ordered (uthread_priority_sort h) sorted
    → 0 < count s.current_thread buf
    → (s' : Sched) × (tie_circle h sorted s ≡ done s') × Joined h buf s s'
tie_circle-Joined h [] buf s same d heres ordered running =
    absurd (omega (arith, same s.current_thread))
tie_circle-Joined h (b ∷ bs) buf s same d heres ordered running =
    let all : All (Here h) (b ∷ bs) =
      All-of_count {P = Here h} (b ∷ bs) (λ a o. heres a (omega (arith, o, same a))) in
    let end : Here h (last b bs) =
      heres (last b bs) (omega (arith, same (last b bs), count-last b bs)) in
    let distinct : Distinct (b ∷ bs) = λ a. omega (arith, same a, d a) in
    let datums : (a : ℕ) → datum_in (circled b bs h a) ≡ datum_in (h a) = datum_in-circled b bs h in
    (
      record s { threads = circled b bs h; head_thread = b; tail_thread = last b bs },
      tie_circle_lem h b bs s all end,
      record {
        t = b;
        ts = bs;
        ring = record {
          head = refl;
          tail = refl;
          chain = circled-Chain b bs h distinct all end;
          distinct = distinct;
          running = omega (arith, same s.current_thread);
          sorted =
              subst (λ f. Ordered f (b ∷ bs)) (sym (priority-datum (circled b bs h) h datums))
                ordered;
        };
        same = same;
        current = refl;
        live = refl;
        datums = datums;
      },
    )

-- If all threads that were ever made are in the circle, the call of getcontext succeeds, and
-- malloc returns an address that is not null and in no use, then uthread_create returns the next
-- thread number. The circle has the new thread besides the others, ordered by priority, the
-- current thread still runs, the new thread has the given priority, and the others keep theirs.
pub uthread_create-Created :
    (qsort : Qsort) (fresh junk stack : ℕ) (pri : ℤ) (s : Sched) (zs : List ℕ)
    → IsCycle s zs
    → s.live_uthreads ≡ length (s.current_thread ∷ zs)
    → fresh ≢ null
    → s.threads fresh ≡ none
    → (s' : Sched) × (uthread_create qsort true fresh junk stack pri s
        ≡ done (s', s.uthread_id + 1))
      × Created s fresh pri zs s'
uthread_create-Created qsort fresh junk stack pri s zs cycle live real free =
    let cur = s.current_thread in
    let h =
      update s.threads fresh
        (some (record { next = junk; datum = record { pri = pri; stack = stack } })) in
    let out : count fresh (cur ∷ zs) ≡ 0 =
      count-zero_of_none s.threads cur cur fresh (cur ∷ zs) cycle.chain free in
    let path : Chain h cur (cur ∷ zs) cur =
      Chain-update s.threads cur cur fresh _ (cur ∷ zs) out cycle.chain in
    let once : count cur zs ≡ 0 = ground (arith, cycle.distinct cur) in
    let size : length (zs ++ (cur ∷ fresh ∷ [])) ≡ s.live_uthreads + 1 =
      omega (arith, live, length-append zs (cur ∷ fresh ∷ [])) in
    let buf = zs ++ (cur ∷ fresh ∷ []) in
    let same : SameItems buf (fresh ∷ cur ∷ zs) =
      λ a. omega (arith, count-append a zs (cur ∷ fresh ∷ [])) in
    let new : h fresh ≡ some (record { next = junk; datum = record { pri = pri; stack = stack } }) =
      ground arith in
    let heres : (a : ℕ) → 0 < count a buf → Here h a = λ a o. elim (ℕ_discrete fresh a) [
      | yes e ↦ subst (Here h) e (_, new)
      | no ne ↦ Chain-Here h cur cur a (cur ∷ zs) path (ground (arith, o, same a))
    ] in
    let s1 = record s { live_uthreads = s.live_uthreads + 1; uthread_id = s.uthread_id + 1 } in
    let (s', tie, joined) =
      tie_circle-Joined h (qsort.sort (uthread_priority_sort h) buf) buf s1
        (qsort.same (uthread_priority_sort h) buf)
        (λ a. ground (arith, same a, cycle.distinct a, out)) heres
        (qsort.ordered (uthread_priority_sort h) buf (priority-IsComparison h))
        (ground (arith, same cur)) in
    (
      s',
      uthread_create-buffer qsort fresh junk stack pri s zs real size path once ∙ rw tie refl,
      record {
        t = joined.t;
        ts = joined.ts;
        ring = joined.ring;
        same = λ a. joined.same a ∙ same a;
        current = joined.current;
        live = joined.live;
        priority = pri_in-datum (s'.threads fresh) (h fresh) (joined.datums fresh) ∙ ap pri_in new;
        others = λ a ne. joined.datums a ∙ ground arith;
      },
    )
