-- ===== src/Philosophers/Moves.antt =====
-- Every step of Asmt_5/philosophers/philosophers.c keeps the table safe.
use native.Mathlib.Decide.{ℕ_discrete}
use cs.Prelude.{
  put, put-same, put-other, ℕ, ◌+◌, ◌%◌, ◌≤◌, ◌<◌, ◌≡◌, ◌≢◌, refl, sym, ap, subst, ◌∙◌, true, false,
  Option, none, some, arith, ◌⊎◌, inl, inr,
}
use cs.Philosophers.{
  PhilState, state_thinking, state_hungry, state_eating, Pc, think, try_lock, lock_can_eat,
  cond_wait, asleep, woken, unlock_can_eat, lock_chopsticks, pickup_right, pickup_left, eat,
  putdown_right, putdown_left, lock_to_signal, cond_signal, unlock_signalled, stop_eating,
  unlock_chopsticks, rest, Table, left, right, act, Step, acts, wakes, Reachable, starts, steps,
}
use native.Mathlib.Nat.{mod-eq_of_lt, mod_self}
use cs.Philosophers.Places.{critical, dining, has_right, has_left, is_eating, dining-critical}
use cs.Philosophers.Exclusion.{Safe, moved, outside, inside, enters}

abbrev table_or : Table → Option Table → Table
table_or t none = t
table_or t (some t') = t'

some_injective : {t t' : Table} → some t ≡ some t' → t ≡ t'
some_injective {t} e = ap (table_or t) e

-- A call that waits while the lock `o` is held.
waits :
    (o : Option ℕ) (x t' : Table)
    → elim o [ none ↦ some x | some j ↦ none ] ≡ some t'
    → (o ≡ none) × (x ≡ t')
waits none x t' run = (refl, some_injective run)
waits (some j) x t' run = absurd (ground (arith, run))

-- `pthread_mutex_trylock`
tries :
    (o : Option ℕ) (x y t' : Table)
    → elim o [ none ↦ some x | some j ↦ some y ] ≡ some t'
    → ((o ≡ none) × (x ≡ t')) ⊎ (y ≡ t')
tries none x y t' run = inl (refl, some_injective run)
tries (some j) x y t' run = inr (some_injective run)

apart : (n i : ℕ) → i < n → 2 ≤ n → right n i ≢ left i
apart n i below two e = elim (last_or (i + 1) n (omega arith)) [
  | inl small ↦ absurd (omega (arith, e, mod-eq_of_lt {n = i + 1} {m = n} small))
  | inr last ↦ absurd (omega (arith, e, last, mod_self n, ap (λ k. k % n) last))
]
  where
    last_or : (a b : ℕ) → a ≤ b → (a < b) ⊎ (a ≡ b)
    last_or a b le = elim (ℕ_discrete a b) [ yes same ↦ inr same | no ne ↦ inl (omega (arith, ne)) ]

module _ (n i : ℕ) (t : Table) (safe : Safe n t) (below : i < n) (two : 2 ≤ n) where
  -- A state that the move sets.
  others : (v : PhilState) (j : ℕ) → i ≢ j → put t.state i v j ≡ t.state j
  others v j ne = put-other t.state i j v ne

  keep_right : (q : Pc) → t.pc i ≡ q → has_right q ≡ true → t.down (right n i) ≡ false
  keep_right q at h = safe.rights i below (ap has_right at ∙ h)

  keep_left : (q : Pc) → t.pc i ≡ q → has_left q ≡ true → t.down (left i) ≡ false
  keep_left q at h = safe.lefts i below (ap has_left at ∙ h)

  -- The holder moves on and touches nothing.
  holds :
      (q p : Pc) (c : Option ℕ)
      → t.pc i ≡ q
      → critical q ≡ true
      → dining p ≡ true
      → (has_right p ≡ true → has_right q ≡ true)
      → (has_left p ≡ true → has_left q ≡ true)
      → Safe n (moved i p t t.manipulation t.state t.down c)
  holds q p c at before after r l =
      inside n i t safe q p t.manipulation t.state t.down c at before
        (λ h. safe.holder i (ap critical at ∙ before)) (λ h. after) (λ j ne. refl)
        (λ b h. keep_right q at (r h)) (λ b h. keep_left q at (l h))

  pub act-Safe : (q : Pc) (t' : Table) → t.pc i ≡ q → act n i q t ≡ some t' → Safe n t'
  unfolding act
  act-Safe think t' at run = subst (Safe n) (some_injective run) (
      outside n i t safe think try_lock (put t.state i state_hungry) t.can_eat at refl refl
        (λ h. absurd (ground (arith, h, ap is_eating (put-same t.state i state_hungry))))
        (others state_hungry))
  act-Safe try_lock t' at run = elim (tries t.manipulation _ _ t' run) [
    | inl (free, e) ↦ subst (Safe n) e (enters n i t safe t.can_eat free)
    | inr e ↦ subst (Safe n) e (
        outside n i t safe try_lock lock_can_eat t.state t.can_eat at refl refl (λ h. h)
          (λ j ne. refl))
  ]
  act-Safe lock_can_eat t' at run =
      let (free, e) = waits t.can_eat _ t' run in
      subst (Safe n) e (
        outside n i t safe lock_can_eat cond_wait t.state (some i) at refl refl (λ h. h)
          (λ j ne. refl))
  act-Safe cond_wait t' at run =
      subst (Safe n) (some_injective run)
        (outside n i t safe cond_wait asleep t.state none at refl refl (λ h. h) (λ j ne. refl))
  act-Safe asleep t' at run = absurd (ground (arith, run))
  act-Safe woken t' at run =
      let (free, e) = waits t.can_eat _ t' run in
      subst (Safe n) e (
        outside n i t safe woken unlock_can_eat t.state (some i) at refl refl (λ h. h)
          (λ j ne. refl))
  act-Safe unlock_can_eat t' at run = subst (Safe n) (some_injective run) (
      outside n i t safe unlock_can_eat lock_chopsticks t.state none at refl refl (λ h. h)
        (λ j ne. refl))
  act-Safe lock_chopsticks t' at run =
      let (free, e) = waits t.manipulation _ t' run in
      subst (Safe n) e (enters n i t safe t.can_eat free)
  act-Safe pickup_right t' at run = subst (Safe n) (some_injective run) (
      inside n i t safe pickup_right pickup_left t.manipulation t.state
        (put t.down (right n i) false) t.can_eat at refl (λ h. safe.holder i (ap critical at))
        (λ h. refl) (λ j ne. refl) (λ b h. put-same t.down (right n i) false)
        (λ b h. absurd (ground (arith, h))))
  act-Safe pickup_left t' at run = subst (Safe n) (some_injective run) (
      inside n i t safe pickup_left eat t.manipulation (put t.state i state_eating)
        (put t.down (left i) false) t.can_eat at refl (λ h. safe.holder i (ap critical at))
        (λ h. refl) (others state_eating)
        (λ b h.
          put-other t.down (left i) (right n i) false (λ e. apart n i below two (sym e))
          ∙ keep_right pickup_left at refl)
        (λ b h. put-same t.down (left i) false))
  act-Safe eat t' at run =
      subst (Safe n) (some_injective run)
        (holds eat putdown_right t.can_eat at refl refl (λ h. h) (λ h. h))
  act-Safe putdown_right t' at run = subst (Safe n) (some_injective run) (
      inside n i t safe putdown_right putdown_left t.manipulation t.state
        (put t.down (right n i) true) t.can_eat at refl (λ h. safe.holder i (ap critical at))
        (λ h. refl) (λ j ne. refl) (λ b h. absurd (ground (arith, h)))
        (λ b h.
          put-other t.down (right n i) (left i) true (apart n i below two)
          ∙ keep_left putdown_right at refl))
  act-Safe putdown_left t' at run = subst (Safe n) (some_injective run) (
      inside n i t safe putdown_left lock_to_signal t.manipulation t.state
        (put t.down (left i) true) t.can_eat at refl (λ h. safe.holder i (ap critical at))
        (λ h. refl) (λ j ne. refl) (λ b h. absurd (ground (arith, h)))
        (λ b h. absurd (ground (arith, h))))
  act-Safe lock_to_signal t' at run =
      let (free, e) = waits t.can_eat _ t' run in
      subst (Safe n) e (holds lock_to_signal cond_signal (some i) at refl refl (λ h. h) (λ h. h))
  act-Safe cond_signal t' at run =
      subst (Safe n) (some_injective run)
        (holds cond_signal unlock_signalled t.can_eat at refl refl (λ h. h) (λ h. h))
  act-Safe unlock_signalled t' at run =
      subst (Safe n) (some_injective run)
        (holds unlock_signalled stop_eating none at refl refl (λ h. h) (λ h. h))
  act-Safe stop_eating t' at run = subst (Safe n) (some_injective run) (
      inside n i t safe stop_eating unlock_chopsticks t.manipulation (put t.state i state_thinking)
        t.down t.can_eat at refl (λ h. safe.holder i (ap critical at))
        (λ h. absurd (ground (arith, h, ap is_eating (put-same t.state i state_thinking))))
        (others state_thinking) (λ b h. absurd (ground (arith, h)))
        (λ b h. absurd (ground (arith, h))))
  act-Safe unlock_chopsticks t' at run = subst (Safe n) (some_injective run) (
      inside n i t safe unlock_chopsticks rest none t.state t.down t.can_eat at refl
        (λ h. absurd (ground (arith, h)))
        (λ h. absurd (ground (arith, safe.eater i h, ap dining at))) (λ j ne. refl)
        (λ b h. absurd (ground (arith, h))) (λ b h. absurd (ground (arith, h))))
  act-Safe rest t' at run =
      subst (Safe n) (some_injective run)
        (outside n i t safe rest think t.state t.can_eat at refl refl (λ h. h) (λ j ne. refl))

-- In every state that the philosophers lead to.
pub Reachable-Safe : (n : ℕ) (t : Table) → 2 ≤ n → Reachable n t → Safe n t
Reachable-Safe n t two starts = record {
  holder = λ i h. absurd (ground (arith, h));
  eater = λ i h. absurd (ground (arith, h));
  rights = λ i b h. absurd (ground (arith, h));
  lefts = λ i b h. absurd (ground (arith, h));
}
Reachable-Safe n t two (steps {t = t0} before step) = after step (Reachable-Safe n t0 two before)
  where
    after : {t0 t1 : Table} → Step n t0 t1 → Safe n t0 → Safe n t1
    after {t0} {t1} (acts i below run) safe = act-Safe n i t0 safe below two (t0.pc i) t1 refl run
    after {t0} {t1} (wakes j at) safe =
        outside n j t0 safe asleep woken t0.state t0.can_eat at refl refl (λ h. h) (λ i ne. refl)

-- With at least two philosophers, in every state that their steps lead to at most one has the
-- state STATE_EATING.
pub Reachable-exclusive :
    (n : ℕ) (t : Table) (i j : ℕ)
    → 2 ≤ n
    → i ≢ j
    → Reachable n t
    → t.state i ≡ state_eating
    → t.state j ≢ state_eating
Reachable-exclusive n t i j two other reach eat_i = λ eat_j.
    let safe = Reachable-Safe n t two reach in
    let hold_i = safe.holder i (dining-critical (t.pc i) (safe.eater i (ap is_eating eat_i))) in
    let hold_j = safe.holder j (dining-critical (t.pc j) (safe.eater j (ap is_eating eat_j))) in
    absurd (other (ground (arith, sym hold_i ∙ hold_j)))

-- With at least two philosophers, in every state that their steps lead to a philosopher in the
-- call of phil_sleep with which it eats has its left and its right chopstick up.
pub Reachable-chopsticks :
    (n : ℕ) (t : Table) (i : ℕ)
    → 2 ≤ n
    → i < n
    → Reachable n t
    → t.pc i ≡ eat
    → (t.down (left i) ≡ false) × (t.down (right n i) ≡ false)
Reachable-chopsticks n t i two below reach at =
    let safe = Reachable-Safe n t two reach in
    (safe.lefts i below (ap has_left at), safe.rights i below (ap has_right at))
