-- ===== src/Water/Examples.antt =====
-- Two H and an O of Asmt_5/h2o/h2o_sem.cpp become water.
use cs.Prelude.{ℕ, ◌+◌, ◌-◌, ◌/◌, ◌≡◌, refl, true, false, none, [], ◌∷◌, min, ltb, Text, arith}
use cs.Exec.{done}
use cs.Stats.{Floats, read_digits}
use cs.Stats.Decimal.{decimal}
use cs.Stats.Streams.{printed_text}
use cs.Stats.Water.{AtomLog, h_created, o_created, water, printed_atoms, take_atom}
use cs.Stats.Water.Piped.{empty_atom_tally, water_lines, actions, actions_of, piped-water}
use cs.Stats.Programs.{FloatOutput, atom_report, run}
use cs.Water.{
  Atoms, create_h, create_o, create_atom, Moves, first_waits, first_prints, second_waits,
  second_posts_h2, second_posts_both, second_prints, posts_o, waits_o, prints_o, creates, moves,
  no_atoms, Reachable, starts, steps,
}
use cs.Water.Balance.{settled-water}

abbrev one_h : Atoms
one_h = record no_atoms { num_h = 1; h_first_waits = 1 }

abbrev two_h : Atoms
two_h = record one_h { num_h = 2; h_second_waits = 1 }

abbrev all_created : Atoms
all_created = record two_h { o_posts = 1; created_o = 1 }

abbrev o_posted : Atoms
o_posted = record all_created { o_avail = 1; o_posts = 0; o_waits = 1 }

abbrev o_taken : Atoms
o_taken = record o_posted { o_avail = 0; h_second_waits = 0; h_second_posts_h2 = 1 }

abbrev h2_posted : Atoms
h2_posted = record o_taken { h2_avail = 1; h_second_posts_h2 = 0; h_second_posts_both = 1 }

abbrev both_posted : Atoms
both_posted = record h2_posted { h_both_avail = 1; h_second_posts_both = 0; h_second_prints = 1 }

abbrev second_done : Atoms
second_done = record both_posted { h_second_prints = 0; water_second = 1 }

abbrev o_woken : Atoms
o_woken = record second_done { h_both_avail = 0; o_waits = 0; o_prints = 1 }

abbrev o_done : Atoms
o_done = record o_woken { o_prints = 0; water_o = 1 }

abbrev first_woken : Atoms
first_woken = record o_done { h2_avail = 0; h_first_waits = 0; h_first_prints = 1 }

abbrev finished : Atoms
finished = record first_woken { h_first_prints = 0; water_first = 1 }

finished-Reachable : Reachable finished
unfolding create_atom create_h create_o
finished-Reachable =
    steps {s = first_woken}
      (steps {s = o_done}
        (steps {s = o_woken}
          (steps {s = second_done}
            (steps {s = both_posted}
              (steps {s = h2_posted}
                (steps {s = o_taken}
                  (steps {s = o_posted}
                    (steps {s = all_created}
                      (steps {s = two_h}
                        (steps {s = one_h} (steps {s = no_atoms} starts (creates true))
                          (creates true))
                        (creates false))
                      (moves (posts_o refl)))
                    (moves (second_waits refl refl)))
                  (moves (second_posts_h2 refl)))
                (moves (second_posts_both refl)))
              (moves (second_prints refl)))
            (moves (waits_o refl refl)))
          (moves (prints_o refl)))
        (moves (first_waits refl refl)))
      (moves (first_prints refl))

finished-settled : (s : Atoms) → ¬ Moves finished s
finished-settled s (first_waits e f) = absurd (omega (arith, e))
finished-settled s (first_prints e) = absurd (omega (arith, e))
finished-settled s (second_waits e f) = absurd (omega (arith, e))
finished-settled s (second_posts_h2 e) = absurd (omega (arith, e))
finished-settled s (second_posts_both e) = absurd (omega (arith, e))
finished-settled s (second_prints e) = absurd (omega (arith, e))
finished-settled s (posts_o e) = absurd (omega (arith, e))
finished-settled s (waits_o e f) = absurd (omega (arith, e))
finished-settled s (prints_o e) = absurd (omega (arith, e))

settled-water_example :
    (finished.water_o ≡ min 1 (2 / 2))
    × (finished.water_first ≡ min 1 (2 / 2))
    × (finished.water_second ≡ min 1 (2 / 2))
settled-water_example = settled-water finished finished-Reachable finished-settled

-- Natural numbers in the place of the numbers of type `float`.
abbrev naturals : Floats ℕ
naturals = record { zero_time = 0; add = ◌+◌; sub = ◌-◌; less = ltb; atof = read_digits 0 }

abbrev natural_output : FloatOutput ℕ
natural_output = record { show = decimal; over = ◌/◌ }

abbrev noon : Text
noon = b'1' ∷ b'2' ∷ []

abbrev three_atoms : AtomLog
three_atoms =
    (noon, 0, h_created)
    ∷ (noon, 1, h_created)
    ∷ (noon, 2, o_created)
    ∷ (noon, 1, water)
    ∷ (noon, 2, water)
    ∷ (noon, 0, water)
    ∷ []

three_atoms-printed : actions three_atoms ≡ actions_of finished-Reachable
unfolding finished-Reachable
three_atoms-printed = refl

piped-water_example :
    (average : Text) × (run
        (take_atom naturals)
        (atom_report natural_output)
        (empty_atom_tally naturals)
        (λ name. none)
        (printed_text (printed_atoms three_atoms))
        []
      ≡ done (water_lines 2 1 (min 1 (2 / 2)) average))
piped-water_example =
    piped-water naturals natural_output (λ name. none) (printed_text (printed_atoms three_atoms))
      finished finished-Reachable three_atoms finished-settled three_atoms-printed (ground arith)
      refl
