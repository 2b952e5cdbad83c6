-- ===== src/Prodcon/Cv/Deadlock.antt =====
-- All threads of Asmt_5/prodcon/prodcon_cv.cpp asleep: the consumers signal before a producer waits.
use cs.Prelude.{
  ℕ, zero, suc, ◌+◌, ◌<◌, ◌≡◌, refl, ap, Bool, true, false, none, some, pos, ltb_ℤ, if◌then◌else◌,
  arith, subst,
}
use cs.Exec.{done}
use cs.Prodcon.Cv.{
  Worker, a_producer, a_consumer, Place, locks, checks, locks_signal, signals, unlocks_signal,
  unlocks, locks_wait, waits, asleep, woken, unlocks_wait, locks_item, moves_item, unlocks_item,
  Counts, count_at, put_count, Market, threads, call, leave, acts, all_at_locks, opened, Reachable,
  starts, steps,
}

-- `k` threads have not started, and `d` sleep.
abbrev pub rest : ℕ → ℕ → Counts
rest k d = record (all_at_locks k) { at_asleep = d }

-- One more stands at a place.
abbrev at_place : Place → ℕ → ℕ → Counts
at_place p k d = put_count p 1 (rest k d)

module _ (n : ℕ) (row : ℕ → ℕ) where
  abbrev scene : Counts → Counts → Bool → Bool → Bool → Market
  scene p c m r w = record (opened n row) {
    producers = p;
    consumers = c;
    mutex = m;
    can_read_mutex = r;
    can_write_mutex = w;
  }

  consumer_sleeps :
      (k d : ℕ)
      → 0 < n
      → Reachable n row (scene (rest n 0) (rest (suc k) d) false false false)
      → Reachable n row (scene (rest n 0) (rest k (suc d)) false false false)
  unfolding call
  consumer_sleeps k d some_place path =
      let empty : ltb_ℤ (pos 0) (pos n) ≡ true = ground (arith, some_place) in
      let p = rest n 0 in
      let s1 = scene p (at_place checks k d) true false false in
      let s2 = scene p (at_place locks_signal k d) true false false in
      let s3 = scene p (at_place signals k d) true false true in
      let s4 = scene p (at_place unlocks_signal k d) true false true in
      let s5 = scene p (at_place unlocks k d) true false false in
      let s6 = scene p (at_place locks_wait k d) false false false in
      let s7 = scene p (at_place waits k d) false true false in
      let s0' = scene p (rest k d) true false false in
      let r1 = steps {s' = s1} path (acts a_consumer locks k (done (checks, s0')) refl refl refl) in
      let r2 = steps {s' = s2} r1 (
        acts a_consumer checks 0 (done (locks_signal, s0')) refl
          (ap (λ b. some (done (if b then locks_signal else unlocks, s0'))) empty) refl) in
      let r3 = steps {s' = s3} r2 (acts a_consumer locks_signal 0 _ refl refl refl) in
      let r4 = steps {s' = s4} r3 (acts a_consumer signals 0 _ refl refl refl) in
      let r5 = steps {s' = s5} r4 (acts a_consumer unlocks_signal 0 _ refl refl refl) in
      let r6 = steps {s' = s6} r5 (acts a_consumer unlocks 0 _ refl refl refl) in
      let r7 = steps {s' = s7} r6 (acts a_consumer locks_wait 0 _ refl refl refl) in
      steps r7 (acts a_consumer waits 0 _ refl refl refl)

  producer_sleeps :
      (k d c : ℕ)
      → Reachable n row (scene (rest (suc k) d) (rest 0 c) false false false)
      → Reachable n row (scene (rest k (suc d)) (rest 0 c) false false false)
  unfolding call
  producer_sleeps k d c path =
      let q = rest 0 c in
      let s1 = scene (at_place checks k d) q true false false in
      let s2 = scene (at_place unlocks k d) q true false false in
      let s3 = scene (at_place locks_wait k d) q false false false in
      let s4 = scene (at_place waits k d) q false false true in
      let r1 = steps {s' = s1} path (acts a_producer locks k _ refl refl refl) in
      let r2 = steps {s' = s2} r1 (acts a_producer checks 0 _ refl refl refl) in
      let r3 = steps {s' = s3} r2 (acts a_producer unlocks 0 _ refl refl refl) in
      let r4 = steps {s' = s4} r3 (acts a_producer locks_wait 0 _ refl refl refl) in
      steps r4 (acts a_producer waits 0 _ refl refl refl)

  consumers_sleep :
      (k d : ℕ)
      → 0 < n
      → Reachable n row (scene (rest n 0) (rest k d) false false false)
      → Reachable n row (scene (rest n 0) (rest 0 (k + d)) false false false)
  consumers_sleep zero d some_place path =
      subst (λ m. Reachable n row (scene (rest n 0) (rest 0 m) false false false)) (omega arith)
        path
  consumers_sleep (suc k) d some_place path =
      subst (λ m. Reachable n row (scene (rest n 0) (rest 0 m) false false false)) (omega arith)
        (consumers_sleep k (suc d) some_place (consumer_sleeps k d some_place path))

  producers_sleep :
      (k d c : ℕ)
      → Reachable n row (scene (rest k d) (rest 0 c) false false false)
      → Reachable n row (scene (rest 0 (k + d)) (rest 0 c) false false false)
  producers_sleep zero d c path =
      subst (λ m. Reachable n row (scene (rest 0 m) (rest 0 c) false false false)) (omega arith)
        path
  producers_sleep (suc k) d c path =
      subst (λ m. Reachable n row (scene (rest 0 m) (rest 0 c) false false false)) (omega arith)
        (producers_sleep k (suc d) c (producer_sleeps k d c path))

-- No thread of a kind can make a call.
abbrev pub AllWait : Market → Type 0
AllWait s =
    (w : Worker) (from : Place) (k : ℕ)
    → count_at from (threads w s) ≡ suc k
    → call w from (leave w from k s) ≡ none

rest_waits :
    (w : Worker) (from : Place) (s : Market) (m k : ℕ)
    → count_at from (rest 0 m) ≡ suc k
    → call w from s ≡ none
unfolding call
rest_waits w locks s m k e = absurd (omega (arith, e))
rest_waits w checks s m k e = absurd (omega (arith, e))
rest_waits w locks_signal s m k e = absurd (omega (arith, e))
rest_waits w signals s m k e = absurd (omega (arith, e))
rest_waits w unlocks_signal s m k e = absurd (omega (arith, e))
rest_waits w unlocks s m k e = absurd (omega (arith, e))
rest_waits w locks_wait s m k e = absurd (omega (arith, e))
rest_waits w waits s m k e = absurd (omega (arith, e))
rest_waits w asleep s m k e = refl
rest_waits w woken s m k e = absurd (omega (arith, e))
rest_waits w unlocks_wait s m k e = absurd (omega (arith, e))
rest_waits w locks_item s m k e = absurd (omega (arith, e))
rest_waits w moves_item s m k e = absurd (omega (arith, e))
rest_waits w unlocks_item s m k e = absurd (omega (arith, e))

-- For a buffer of any length but 0 the threads of prodcon_cv.cpp can get into a state in which as
-- many producers and as many consumers as the buffer is long wait for a condition variable, and no
-- thread can make a call.
pub deadlock :
    (n : ℕ) (row : ℕ → ℕ)
    → 0 < n
    → (s : Market) × Reachable n row s
      × (s.producers.at_asleep ≡ n)
      × (s.consumers.at_asleep ≡ n)
      × AllWait s
deadlock n row some_place =
    let all = producers_sleep n row n 0 (n + 0) (consumers_sleep n row n 0 some_place starts) in
    (
      scene n row (rest 0 (n + 0)) (rest 0 (n + 0)) false false false,
      all,
      omega arith,
      omega arith,
      waits_all,
    )
  where
    waits_all : AllWait (scene n row (rest 0 (n + 0)) (rest 0 (n + 0)) false false false)
    waits_all a_producer from k e = rest_waits a_producer from _ (n + 0) k e
    waits_all a_consumer from k e = rest_waits a_consumer from _ (n + 0) k e
