-- ===== src/Philosophers/Places.antt =====
-- The places of a philosopher's loop in Asmt_5/philosophers/philosophers.c between the calls that lock and
-- release the chopsticks.
use cs.Prelude.{◌≡◌, refl, Bool, true, false, arith}
use cs.Philosophers.{
  PhilState, state_eating, Pc, think, try_lock, lock_can_eat, cond_wait, asleep, woken,
  unlock_can_eat, lock_chopsticks, pickup_right, pickup_left, eat, putdown_right, putdown_left,
  lock_to_signal, cond_signal, unlock_signalled, stop_eating, unlock_chopsticks, rest,
}

-- Between the lock of the chopsticks and its release.
abbrev pub critical : Pc → Bool
critical pickup_right = true
critical pickup_left = true
critical eat = true
critical putdown_right = true
critical putdown_left = true
critical lock_to_signal = true
critical cond_signal = true
critical unlock_signalled = true
critical stop_eating = true
critical unlock_chopsticks = true
critical _ = false

-- Where a philosopher's state may be `STATE_EATING`.
abbrev pub dining : Pc → Bool
dining unlock_chopsticks = false
dining p = critical p

abbrev pub has_right : Pc → Bool
has_right pickup_left = true
has_right eat = true
has_right putdown_right = true
has_right _ = false

abbrev pub has_left : Pc → Bool
has_left eat = true
has_left putdown_right = true
has_left putdown_left = true
has_left _ = false

abbrev pub is_eating : PhilState → Bool
is_eating state_eating = true
is_eating _ = false

pub dining-critical : (p : Pc) → dining p ≡ true → critical p ≡ true
dining-critical think h = absurd (ground (arith, h))
dining-critical try_lock h = absurd (ground (arith, h))
dining-critical lock_can_eat h = absurd (ground (arith, h))
dining-critical cond_wait h = absurd (ground (arith, h))
dining-critical asleep h = absurd (ground (arith, h))
dining-critical woken h = absurd (ground (arith, h))
dining-critical unlock_can_eat h = absurd (ground (arith, h))
dining-critical lock_chopsticks h = absurd (ground (arith, h))
dining-critical pickup_right h = refl
dining-critical pickup_left h = refl
dining-critical eat h = refl
dining-critical putdown_right h = refl
dining-critical putdown_left h = refl
dining-critical lock_to_signal h = refl
dining-critical cond_signal h = refl
dining-critical unlock_signalled h = refl
dining-critical stop_eating h = refl
dining-critical unlock_chopsticks h = absurd (ground (arith, h))
dining-critical rest h = absurd (ground (arith, h))

pub right-critical : (p : Pc) → has_right p ≡ true → critical p ≡ true
right-critical think h = absurd (ground (arith, h))
right-critical try_lock h = absurd (ground (arith, h))
right-critical lock_can_eat h = absurd (ground (arith, h))
right-critical cond_wait h = absurd (ground (arith, h))
right-critical asleep h = absurd (ground (arith, h))
right-critical woken h = absurd (ground (arith, h))
right-critical unlock_can_eat h = absurd (ground (arith, h))
right-critical lock_chopsticks h = absurd (ground (arith, h))
right-critical pickup_right h = absurd (ground (arith, h))
right-critical pickup_left h = refl
right-critical eat h = refl
right-critical putdown_right h = refl
right-critical putdown_left h = absurd (ground (arith, h))
right-critical lock_to_signal h = absurd (ground (arith, h))
right-critical cond_signal h = absurd (ground (arith, h))
right-critical unlock_signalled h = absurd (ground (arith, h))
right-critical stop_eating h = absurd (ground (arith, h))
right-critical unlock_chopsticks h = absurd (ground (arith, h))
right-critical rest h = absurd (ground (arith, h))

pub left-critical : (p : Pc) → has_left p ≡ true → critical p ≡ true
left-critical think h = absurd (ground (arith, h))
left-critical try_lock h = absurd (ground (arith, h))
left-critical lock_can_eat h = absurd (ground (arith, h))
left-critical cond_wait h = absurd (ground (arith, h))
left-critical asleep h = absurd (ground (arith, h))
left-critical woken h = absurd (ground (arith, h))
left-critical unlock_can_eat h = absurd (ground (arith, h))
left-critical lock_chopsticks h = absurd (ground (arith, h))
left-critical pickup_right h = absurd (ground (arith, h))
left-critical pickup_left h = absurd (ground (arith, h))
left-critical eat h = refl
left-critical putdown_right h = refl
left-critical putdown_left h = refl
left-critical lock_to_signal h = absurd (ground (arith, h))
left-critical cond_signal h = absurd (ground (arith, h))
left-critical unlock_signalled h = absurd (ground (arith, h))
left-critical stop_eating h = absurd (ground (arith, h))
left-critical unlock_chopsticks h = absurd (ground (arith, h))
left-critical rest h = absurd (ground (arith, h))
