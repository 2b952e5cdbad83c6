-- ===== src/Stats/Examples.antt =====
-- Some lines of Asmt_5, with natural numbers in the place of the numbers of type `float`.
use cs.Prelude.{
  ℕ, ◌+◌, ◌-◌, ◌/◌, ◌≡◌, Bool, true, false, List, [], ◌∷◌, ◌++◌, ltb, pos, Text, arith,
}
use cs.Exec.{done}
use cs.Whales.{female_created, male_created, found_mate, became_matchmaker, mated}
use cs.Stats.{Floats, read_digits, event, parse_line, read_stream}
use cs.Stats.Printing.{event_line, parse_line-event}
use cs.Stats.Streams.{printed_text}
use cs.Stats.Whales.{Tally, take_whale, empty_tally, mated_text}
use cs.Stats.Decimal.{decimal}
use cs.Stats.Programs.{FloatOutput}
use cs.Stats.Whales.Counted.{Log, logged, printed, Counts, read_stream-Counts}
use cs.Stats.Philosophers.{Totals}
use cs.Stats.Water.{
  AtomTally, AtomLog, h_created, water, take_atom, printed_atoms, AtomCounts,
  read_stream-AtomCounts,
}

abbrev naturals : Floats ℕ
naturals = record { zero_time = 0; add = ◌+◌; sub = ◌-◌; less = ltb; atof = read_digits 0 }

abbrev noon : Text
noon = b'1' ∷ b'2' ∷ []

parse_line-event_example :
    parse_line (event_line noon 3 mated_text)
    ≡ done (event (noon ++ (b')' ∷ b' ' ∷ [])) (pos 3) mated_text)
parse_line-event_example = parse_line-event noon 3 mated_text (ground arith) (ground arith)

abbrev whale_log : Log
whale_log = (noon, 1, female_created) ∷ (noon, 2, male_created) ∷ (noon, 2, found_mate) ∷ []

read_stream-Counts_example :
    (c' : Tally ℕ) × (read_stream
        (take_whale naturals)
        (printed_text (printed whale_log))
        (empty_tally naturals)
      ≡ done c')
    × Counts (empty_tally naturals) c' (logged whale_log)
read_stream-Counts_example =
    read_stream-Counts naturals whale_log (empty_tally naturals) (ground arith)

abbrev no_times : Totals ℕ
no_times = record {
  thinking_times = [];
  hungry_times = [];
  eating_times = [];
  last_state_change_times = [];
  last_time = 0;
}

abbrev atom_log : AtomLog
atom_log = (noon, 0, h_created) ∷ (noon, 0, water) ∷ []

abbrev no_counts : AtomTally ℕ
no_counts = record {
  num_atoms = 0;
  num_h = 0;
  num_o = 0;
  num_water = 0;
  total_time_to_water = 0;
  atom_times = [];
}

read_stream-AtomCounts_example :
    (c' : AtomTally ℕ) × (read_stream
        (take_atom naturals)
        (printed_text (printed_atoms atom_log))
        no_counts
      ≡ done c')
    × AtomCounts no_counts c' atom_log
read_stream-AtomCounts_example = read_stream-AtomCounts naturals atom_log no_counts (ground arith)

abbrev natural_output : FloatOutput ℕ
natural_output = record { show = decimal; over = ◌/◌ }

abbrev sexes : List (Bool × ℕ)
sexes = (false, 1) ∷ (true, 2) ∷ (true, 3) ∷ []

-- A female, a male that finds her, and a matchmaker.
abbrev three_whales : Log
three_whales =
    (noon, 1, female_created)
    ∷ (noon, 2, male_created)
    ∷ (noon, 2, found_mate)
    ∷ (noon, 3, male_created)
    ∷ (noon, 3, became_matchmaker)
    ∷ (noon, 3, mated)
    ∷ []
