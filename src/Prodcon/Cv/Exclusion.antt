-- ===== src/Prodcon/Cv/Exclusion.antt =====
-- No two threads of Asmt_5/prodcon/prodcon_cv.cpp hold `mutex`.
use cs.Prelude.{
  ℕ, zero, suc, ◌+◌, ◌≤◌, ◌≡◌, refl, sym, ap, ◌∙◌, subst, Bool, true, false, some, arith,
  if◌then◌else◌, inl, inr, Bool-cases,
}
use cs.Exec.{done, bind-done, done_injective}
use cs.Prodcon.{remove_item, insert_item}
use cs.Prodcon.Sem.Stocked.{some_injective}
use cs.Prodcon.Cv.{
  Worker, a_producer, a_consumer, Place, locks, checks, locks_signal, signals, unlocks_signal,
  unlocks, locks_wait, waits, asleep, woken, unlocks_wait, locks_item, moves_item, unlocks_item,
  Counts, count_at, put_count, Market, threads, with_threads, other, with_signal, signal_held,
  can_signal, handle_item, wake_first, wake_one, if_free, call, leave, enter, Step, acts, wakes,
  Reachable, starts, steps,
}

-- The places between the lock and the unlock of `mutex`.
abbrev pub weight : Place → ℕ
weight checks = 1
weight locks_signal = 1
weight signals = 1
weight unlocks_signal = 1
weight unlocks = 1
weight moves_item = 1
weight unlocks_item = 1
weight _ = 0

abbrev pub inside : Counts → ℕ
inside c =
    c.at_checks + c.at_locks_signal + c.at_signals + c.at_unlocks_signal + c.at_unlocks
    + c.at_moves_item + c.at_unlocks_item

abbrev pub all_inside : Market → ℕ
all_inside s = inside s.producers + inside s.consumers

abbrev flag : Bool → ℕ
flag b = if b then 1 else 0

inside-leave :
    (from : Place) (n : ℕ) (c : Counts)
    → count_at from c ≡ suc n
    → inside c ≡ weight from + inside (put_count from n c)
inside-leave locks n c e = omega (arith, e)
inside-leave checks n c e = omega (arith, e)
inside-leave locks_signal n c e = omega (arith, e)
inside-leave signals n c e = omega (arith, e)
inside-leave unlocks_signal n c e = omega (arith, e)
inside-leave unlocks n c e = omega (arith, e)
inside-leave locks_wait n c e = omega (arith, e)
inside-leave waits n c e = omega (arith, e)
inside-leave asleep n c e = omega (arith, e)
inside-leave woken n c e = omega (arith, e)
inside-leave unlocks_wait n c e = omega (arith, e)
inside-leave locks_item n c e = omega (arith, e)
inside-leave moves_item n c e = omega (arith, e)
inside-leave unlocks_item n c e = omega (arith, e)

inside-enter :
    (to : Place) (c : Counts) → inside (put_count to (suc (count_at to c)) c) ≡ weight to + inside c
inside-enter locks c = omega arith
inside-enter checks c = omega arith
inside-enter locks_signal c = omega arith
inside-enter signals c = omega arith
inside-enter unlocks_signal c = omega arith
inside-enter unlocks c = omega arith
inside-enter locks_wait c = omega arith
inside-enter waits c = omega arith
inside-enter asleep c = omega arith
inside-enter woken c = omega arith
inside-enter unlocks_wait c = omega arith
inside-enter locks_item c = omega arith
inside-enter moves_item c = omega arith
inside-enter unlocks_item c = omega arith

all_inside-leave :
    (w : Worker) (from : Place) (n : ℕ) (s : Market)
    → count_at from (threads w s) ≡ suc n
    → all_inside s ≡ weight from + all_inside (leave w from n s)
all_inside-leave a_producer from n s e = omega (arith, inside-leave from n s.producers e)
all_inside-leave a_consumer from n s e = omega (arith, inside-leave from n s.consumers e)

all_inside-enter :
    (w : Worker) (to : Place) (s : Market) → all_inside (enter w to s) ≡ weight to + all_inside s
all_inside-enter a_producer to s = omega (arith, inside-enter to s.producers)
all_inside-enter a_consumer to s = omega (arith, inside-enter to s.consumers)

mutex-with_threads : (w : Worker) (c : Counts) (s : Market) → (with_threads w c s).mutex ≡ s.mutex
mutex-with_threads a_producer c s = refl
mutex-with_threads a_consumer c s = refl

-- What a thread has done that gets to a place.
abbrev Fits : Place → Market → Type 0
Fits to s = weight to + all_inside s ≡ flag s.mutex

Fits-with_signal :
    (w : Worker) (b : Bool) (p : Place) (s : Market) → Fits p s → Fits p (with_signal w b s)
Fits-with_signal a_producer b p s fits = fits
Fits-with_signal a_consumer b p s fits = fits

inside-wake_first : (n : ℕ) (c : Counts) → inside (wake_first n c) ≡ inside c
inside-wake_first zero c = refl
inside-wake_first (suc n) c = refl

Fits-wake_one : (w : Worker) (p : Place) (s : Market) → Fits p s → Fits p (wake_one w s)
Fits-wake_one a_producer p s fits =
    omega (arith, fits, inside-wake_first s.producers.at_asleep s.producers)
Fits-wake_one a_consumer p s fits =
    omega (arith, fits, inside-wake_first s.consumers.at_asleep s.consumers)

-- From one place to another without `mutex`.
Fits-place : (p q : Place) (s : Market) → weight p ≡ weight q → Fits p s → Fits q s
Fits-place p q s same fits = omega (arith, same, fits)

Fits-handle_item :
    (w : Worker) (p : Place) (s s' : Market) → handle_item w s ≡ done s' → Fits p s → Fits p s'
Fits-handle_item a_producer p s s' run fits =
    let (b, _, e) = bind-done (insert_item b'A' s.items) _ s' run in
    subst (Fits p) (done_injective e) fits
Fits-handle_item a_consumer p s s' run fits =
    let (x, _, e) = bind-done (remove_item s.items) _ s' run in
    subst (Fits p) (done_injective e) fits

released : (s : Market) → 1 + all_inside s ≡ flag s.mutex → 0 + all_inside s ≡ 0
released s fits = ground (arith, fits)

-- Where a call leads.
abbrev FitsAt : Place × Market → Type 0
FitsAt x = Fits x.0 x.1

some_done : (x y : Place × Market) → some (done x) ≡ some (done y) → FitsAt x → FitsAt y
some_done x y run fits = subst FitsAt (done_injective (some_injective run)) fits

frees :
    (b : Bool) (to : Place) (s : Market) (y : Place × Market)
    → if_free b to s ≡ some (done y)
    → (b ≡ false → FitsAt (to, s))
    → FitsAt y
frees true to s y run fits = absurd (ground (arith, run))
frees false to s y run fits = some_done (to, s) y run (fits refl)

call-Fits :
    (w : Worker) (from : Place) (s : Market) (y : Place × Market)
    → call w from s ≡ some (done y)
    → Fits from s
    → FitsAt y
unfolding call
call-Fits w locks s y run fits =
    frees s.mutex checks (record s { mutex = true }) y run (λ e. ground (arith, fits, e))
call-Fits w checks s y run fits = elim (Bool-cases (can_signal w s)) [
  | inl e ↦ some_done (locks_signal, s) y (rw e at run) fits
  | inr e ↦ some_done (unlocks, s) y (rw e at run) fits
]
call-Fits w locks_signal s y run fits =
    frees (signal_held w s) signals (with_signal w true s) y run
      (λ e. Fits-with_signal w true signals s fits)
call-Fits w signals s y run fits =
    some_done (unlocks_signal, wake_one (other w) s) y run
      (Fits-wake_one (other w) unlocks_signal s fits)
call-Fits w unlocks_signal s y run fits =
    some_done (unlocks, with_signal w false s) y run (Fits-with_signal w false unlocks s fits)
call-Fits w unlocks s y run fits =
    some_done (locks_wait, record s { mutex = false }) y run (released s fits)
call-Fits w locks_wait s y run fits =
    frees (signal_held (other w) s) waits (with_signal (other w) true s) y run
      (λ e. Fits-with_signal (other w) true waits s fits)
call-Fits w waits s y run fits =
    some_done (asleep, with_signal (other w) false s) y run
      (Fits-with_signal (other w) false asleep s fits)
call-Fits w asleep s y run fits = absurd (ground (arith, run))
call-Fits w woken s y run fits =
    frees (signal_held (other w) s) unlocks_wait (with_signal (other w) true s) y run
      (λ e. Fits-with_signal (other w) true unlocks_wait s fits)
call-Fits w unlocks_wait s y run fits =
    some_done (locks_item, with_signal (other w) false s) y run
      (Fits-with_signal (other w) false locks_item s fits)
call-Fits w locks_item s y run fits =
    frees s.mutex moves_item (record s { mutex = true }) y run (λ e. ground (arith, fits, e))
call-Fits w moves_item s y run fits =
    let (s', e, r) = bind-done (handle_item w s) _ y (some_injective run) in
    subst FitsAt (done_injective r) (Fits-handle_item w unlocks_item s s' e fits)
call-Fits w unlocks_item s y run fits =
    some_done (locks, record s { mutex = false }) y run (released s fits)

-- The number of threads between the lock and the unlock.
Step-all_inside :
    (s s' : Market) → Step s (done s') → all_inside s ≡ flag s.mutex → all_inside s' ≡ flag s'.mutex
Step-all_inside s s' (acts w from n called at run end) fits =
    let (y, e, r) = bind-done called _ s' end in
    let left = leave w from n s in
    let before : Fits from left =
      sym (all_inside-leave w from n s at) ∙ fits ∙ ap flag (sym (mutex-with_threads w _ s)) in
    let after = call-Fits w from left y (run ∙ ap some e) before in
    subst (λ t. all_inside t ≡ flag t.mutex) (done_injective r)
      (all_inside-enter w y.0 y.1 ∙ after ∙ ap flag (sym (mutex-with_threads w _ y.1)))
Step-all_inside s s' (wakes w n at end) fits =
    let left = leave w asleep n s in
    subst (λ t. all_inside t ≡ flag t.mutex) (done_injective end)
      (all_inside-enter w woken left
        ∙ sym (all_inside-leave w asleep n s at)
        ∙ fits
        ∙ ap flag (sym (mutex-with_threads w _ left ∙ mutex-with_threads w _ s)))

-- In every state that the steps of prodcon_cv.cpp lead to, at most one of all producers and
-- consumers is between a lock and the unlock of mutex that follows.
pub Reachable-one_inside : (n : ℕ) (row : ℕ → ℕ) (s : Market) → Reachable n row s → all_inside s ≤ 1
Reachable-one_inside n row s path = at_most (inside_of s path)
  where
    inside_of : (s : Market) → Reachable n row s → all_inside s ≡ flag s.mutex
    inside_of s starts = refl
    inside_of s (steps {s = before} path step) =
        Step-all_inside before s step (inside_of before path)

    at_most : all_inside s ≡ flag s.mutex → all_inside s ≤ 1
    at_most e = ground (arith, e)
