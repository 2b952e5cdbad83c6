-- ===== src/Philosophers.antt =====
-- The threads of Asmt_5/philosophers/philosophers.c, one step at a time.
pub mod Places
pub mod Exclusion
pub mod Moves
mod Examples
use cs.Prelude.{
  put, ℕ, ◌+◌, ◌%◌, ◌<◌, ◌≡◌, Bool, true, false, Option, none, some, ◌==◌, if◌then◌else◌,
}

pub data PhilState : Type 0 where
  state_thinking : PhilState
  state_hungry : PhilState
  state_eating : PhilState

-- Where a philosopher stands in the loop: before the call that the name says.
pub data Pc : Type 0 where
  think : Pc
  try_lock : Pc
  lock_can_eat : Pc
  cond_wait : Pc
  asleep : Pc
  woken : Pc
  unlock_can_eat : Pc
  lock_chopsticks : Pc
  pickup_right : Pc
  pickup_left : Pc
  eat : Pc
  putdown_right : Pc
  putdown_left : Pc
  lock_to_signal : Pc
  cond_signal : Pc
  unlock_signalled : Pc
  stop_eating : Pc
  unlock_chopsticks : Pc
  rest : Pc

-- `chopstick_manipulation_lock` and `canEat_mutex` are held by a philosopher or free.
pub record Table : Type 0 where
  pub pc : ℕ → Pc
  pub state : ℕ → PhilState
  pub down : ℕ → Bool
  pub manipulation : Option ℕ
  pub can_eat : Option ℕ

abbrev pub left : ℕ → ℕ
left i = i

abbrev pub right : ℕ → ℕ → ℕ
right n i = (i + 1) % n

abbrev pub go : ℕ → Pc → Table → Table
go i p t = record t { pc = put t.pc i p }

-- The call that philosopher `i` of `n` makes at a place in the loop; `none` while it has to wait.
unfoldable pub act : ℕ → ℕ → Pc → Table → Option Table
act n i think t = some (go i try_lock (record t { state = put t.state i state_hungry }))
act n i try_lock t = elim t.manipulation [
  | none ↦ some (go i pickup_right (record t { manipulation = some i }))
  | some j ↦ some (go i lock_can_eat t)
]
act n i lock_can_eat t = elim t.can_eat [
  | none ↦ some (go i cond_wait (record t { can_eat = some i }))
  | some j ↦ none
]
act n i cond_wait t = some (go i asleep (record t { can_eat = none }))
act n i asleep t = none
act n i woken t = elim t.can_eat [
  | none ↦ some (go i unlock_can_eat (record t { can_eat = some i }))
  | some j ↦ none
]
act n i unlock_can_eat t = some (go i lock_chopsticks (record t { can_eat = none }))
act n i lock_chopsticks t = elim t.manipulation [
  | none ↦ some (go i pickup_right (record t { manipulation = some i }))
  | some j ↦ none
]
act n i pickup_right t = some (go i pickup_left (record t { down = put t.down (right n i) false }))
act n i pickup_left t =
    some
      (go i eat (record t { down = put t.down (left i) false; state = put t.state i state_eating }))
act n i eat t = some (go i putdown_right t)
act n i putdown_right t = some (go i putdown_left (record t { down = put t.down (right n i) true }))
act n i putdown_left t = some (go i lock_to_signal (record t { down = put t.down (left i) true }))
act n i lock_to_signal t = elim t.can_eat [
  | none ↦ some (go i cond_signal (record t { can_eat = some i }))
  | some j ↦ none
]
act n i cond_signal t = some (go i unlock_signalled t)
act n i unlock_signalled t = some (go i stop_eating (record t { can_eat = none }))
act n i stop_eating t =
    some (go i unlock_chopsticks (record t { state = put t.state i state_thinking }))
act n i unlock_chopsticks t = some (go i rest (record t { manipulation = none }))
act n i rest t = some (go i think t)

-- A step of one of the philosophers. A signal wakes one that sleeps; one may also wake without a signal.
pub data Step (n : ℕ) : Table → Table → Type 0 where
  acts : {t t' : Table} (i : ℕ) → i < n → act n i (t.pc i) t ≡ some t' → Step n t t'
  wakes : {t : Table} (j : ℕ) → t.pc j ≡ asleep → Step n t (go j woken t)

-- `main` puts the chopsticks down, and every philosopher thinks.
abbrev pub laid : Table
laid = record {
  pc = λ i. think;
  state = λ i. state_thinking;
  down = λ c. true;
  manipulation = none;
  can_eat = none;
}

pub data Reachable (n : ℕ) : Table → Type 0 where
  starts : Reachable n laid
  steps : {t t' : Table} → Reachable n t → Step n t t' → Reachable n t'
