-- ===== src/Prodcon/Cv/Examples.antt =====
-- Asmt_5/prodcon/prodcon_cv.cpp with a buffer of two places.
use cs.Prelude.{true, ℕ, ◌≤◌, ◌≡◌, refl, arith}
use cs.Prodcon.Cv.{
  Market, a_consumer, locks, checks, put_count, call, acts, opened, Reachable, starts, steps,
}
use cs.Prodcon.Cv.Exclusion.{all_inside, Reachable-one_inside}
use cs.Prodcon.Cv.Deadlock.{rest, AllWait, deadlock}

abbrev empty_row : ℕ → ℕ
empty_row column = b' '

-- A consumer has locked `mutex`.
abbrev one_in : Market
one_in = record (opened 2 empty_row) { consumers = put_count checks 1 (rest 1 0); mutex = true }

one_in-Reachable : Reachable 2 empty_row one_in
unfolding call
one_in-Reachable = steps {s = opened 2 empty_row} starts (acts a_consumer locks 1 _ refl refl refl)

Reachable-one_inside_example : all_inside one_in ≤ 1
Reachable-one_inside_example = Reachable-one_inside 2 empty_row one_in one_in-Reachable

deadlock_example :
    (s : Market) × Reachable 2 empty_row s
    × (s.producers.at_asleep ≡ 2)
    × (s.consumers.at_asleep ≡ 2)
    × AllWait s
deadlock_example = deadlock 2 empty_row (omega arith)
