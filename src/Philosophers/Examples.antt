-- ===== src/Philosophers/Examples.antt =====
-- Two philosophers of Asmt_5/philosophers/philosophers.c; the first one gets to eat.
use cs.Prelude.{put, ◌≢◌, refl, false, some, arith}
use cs.Philosophers.{
  state_hungry, state_eating, try_lock, pickup_right, pickup_left, eat, Table, go, act, acts, laid,
  Reachable, starts, steps,
}
use cs.Philosophers.Moves.{Reachable-exclusive}

abbrev hungry : Table
hungry = go 0 try_lock (record laid { state = put laid.state 0 state_hungry })

abbrev locked : Table
locked = go 0 pickup_right (record hungry { manipulation = some 0 })

abbrev right_up : Table
right_up = go 0 pickup_left (record locked { down = put locked.down 1 false })

abbrev served : Table
served = go 0 eat (record right_up {
  down = put right_up.down 0 false;
  state = put right_up.state 0 state_eating;
})

served-Reachable : Reachable 2 served
unfolding act
served-Reachable =
    steps {t = right_up}
      (steps {t = locked}
        (steps {t = hungry} (steps {t = laid} starts (acts 0 (omega arith) refl))
          (acts 0 (omega arith) refl))
        (acts 0 (omega arith) refl))
      (acts 0 (omega arith) refl)

Reachable-exclusive_example : served.state 1 ≢ state_eating
Reachable-exclusive_example =
    Reachable-exclusive 2 served 0 1 (omega arith) (omega arith) served-Reachable refl
