-- ===== src/Whales/Examples.antt =====
-- Three whales of Asmt_5/whales: a female waits, a male finds her, and a second male is the matchmaker.
use cs.Prelude.{ℕ, ◌+◌, ◌≤◌, ◌≡◌, refl, Bool, true, false, none, List, [], ◌∷◌, arith}
use cs.Exec.{done, result_or}
use cs.Nodes.{Node, set_next}
use cs.Whales.{
  Whale, Whales, Sea, started, whale_init, set_tail, enqueue, dequeue, both_queued, take_pair,
  make_match, create_male, create_female, create_whale,
}
use cs.Whales.Pods.{whale_arrives, view, Holds}
use cs.Whales.Starting.{started-Holds}
use cs.Whales.Arrivals.{create_whale-Holds}
use cs.Whales.Stuck.{male_comes, female_comes, Reachable, starts, steps, matings, Reachable-stuck}
use cs.Whales.Simple.{create_whales, initial, Tallied, created-Tallied}

abbrev nothing : Whales
nothing a = none

abbrev junk : Node Whale
junk = record { next = 99; datum = record { id = 98; tail = 97 } }

abbrev sea : Sea
sea = started 1 2 nothing

abbrev after_one : Sea
after_one = result_or sea (create_female 3 junk 5 sea)

abbrev after_two : Sea
after_two = result_or sea (create_male 4 junk 6 after_one)

abbrev after_three : Sea
after_three = result_or sea (create_male 5 junk 7 after_two)

first_run : create_female 3 junk 5 sea ≡ done after_one
unfolding create_female enqueue set_tail set_next
first_run = refl

second_run : create_male 4 junk 6 after_one ≡ done after_two
unfolding create_male create_female enqueue set_tail set_next
second_run = refl

third_run : create_male 5 junk 7 after_two ≡ done after_three
unfolding create_male create_female enqueue set_tail set_next make_match take_pair both_queued
    dequeue
third_run = refl

sea_run : whale_init 1 2 nothing ≡ done sea
unfolding whale_init
sea_run = refl

three-Reachable : Reachable sea after_three
three-Reachable =
    steps (steps (steps starts (female_comes 3 junk 5 first_run)) (male_comes 4 junk 6 second_run))
      (male_comes 5 junk 7 third_run)

Reachable-stuck_example :
    matings after_three.lines + after_three.male + after_three.female
    ≤ after_three.wait_male + after_three.wait_fem + after_three.wait_maker
Reachable-stuck_example = Reachable-stuck 1 2 nothing sea after_three sea_run three-Reachable

sea-Holds : Holds sea [] []
sea-Holds = started-Holds 1 2 nothing (ground arith) (ground arith) (ground arith)

create_whale-Holds_example :
    (s' : Sea) × (tm' : List ℕ) × (tf' : List ℕ) × (create_whale false 3 junk 6 sea ≡ done s')
    × Holds s' tm' tf'
    × (view s' tm' tf' ≡ whale_arrives false 6 (view sea [] []))
create_whale-Holds_example =
    create_whale-Holds 3 junk 6 (ground arith) false sea [] [] sea-Holds refl

abbrev three_whales : List (Bool × ℕ)
three_whales = (false, 5) ∷ (true, 6) ∷ (true, 7) ∷ []

created-Tallied_example : Tallied 3 (create_whales three_whales initial)
created-Tallied_example = created-Tallied three_whales
