-- ===== src/Stats/Whales/Counted.antt =====
-- What Asmt_5/whales/whales_stats.cc counts in the lines that the programs for the whales print.
use cs.Prelude.{
  ℕ, suc, ◌+◌, ◌-◌, ◌≡◌, refl, ◌∙◌, List, [], ◌∷◌, ◌++◌, length, replicate, Text, arith,
}
use cs.Exec.{done}
use cs.Whales.{Action, male_created, female_created, found_mate, became_matchmaker, mated}
use cs.Whales.Simple.{times}
use cs.Stats.{Floats, read_stream}
use cs.Stats.Printing.{Without}
use cs.Stats.Streams.{Printed, printed_text, IsTime, AllTimes, take_all, read_stream-printed}
use cs.Stats.Whales.{
  male_created_text, female_created_text, found_mate_text, became_matchmaker_text, mated_text,
  Tally, count_action, take_whale,
}

abbrev pub action_text : Action → Text
action_text male_created = male_created_text
action_text female_created = female_created_text
action_text found_mate = found_mate_text
action_text became_matchmaker = became_matchmaker_text
action_text mated = mated_text

-- The lines of whales, by their time, number and action, and what is printed for them.
abbrev pub Log : Type 0
Log = List (Text × ℕ × Action)

abbrev pub logged : Log → List (ℕ × Action)
logged [] = []
logged ((t, i, a) ∷ es) = (i, a) ∷ logged es

abbrev pub printed : Log → Printed
printed [] = []
printed ((t, i, a) ∷ es) = (t, i, action_text a) ∷ printed es

abbrev pub LogTimes : Log → Type 0
LogTimes [] = Unit
LogTimes ((t, i, a) ∷ es) = IsTime t × LogTimes es

action_text-line : (a : Action) → Without b'\n' (action_text a)
action_text-line male_created = ground arith
action_text-line female_created = ground arith
action_text-line found_mate = ground arith
action_text-line became_matchmaker = ground arith
action_text-line mated = ground arith

printed-AllTimes : (es : Log) → LogTimes es → AllTimes (printed es)
printed-AllTimes [] all = tt
printed-AllTimes ((t, i, a) ∷ es) all = ((all.0, action_text-line a), printed-AllTimes es all.1)

-- The counters after some lines.
pub record Counts {F : Type 0} (c c' : Tally F) (log : List (ℕ × Action)) : Type 0 where
  pub males : c'.num_males ≡ c.num_males + times male_created log
  pub females : c'.num_females ≡ c.num_females + times female_created log
  pub whales : c'.num_whales ≡ c.num_whales + times male_created log + times female_created log
  pub matches : c'.num_matches ≡ c.num_matches + times found_mate log
  pub matings : c'.num_mated ≡ c.num_mated + times mated log
  pub makers : c'.num_matchmakers ≡ c.num_matchmakers + times became_matchmaker log

module _ {F : Type 0} (floats : Floats F) where
  action-Counts :
      (t : F) (i : ℕ) (v : List F) (a : Action) (c : Tally F)
      → Counts c
          (count_action floats t i (action_text a) (record c { whale_times = v }))
          ((i, a) ∷ [])
  action-Counts t i v male_created c = record {
    males = omega arith;
    females = omega arith;
    whales = omega arith;
    matches = omega arith;
    matings = omega arith;
    makers = omega arith;
  }
  action-Counts t i v female_created c = record {
    males = omega arith;
    females = omega arith;
    whales = omega arith;
    matches = omega arith;
    matings = omega arith;
    makers = omega arith;
  }
  action-Counts t i v found_mate c = record {
    males = omega arith;
    females = omega arith;
    whales = omega arith;
    matches = omega arith;
    matings = omega arith;
    makers = omega arith;
  }
  action-Counts t i v became_matchmaker c = record {
    males = omega arith;
    females = omega arith;
    whales = omega arith;
    matches = omega arith;
    matings = omega arith;
    makers = omega arith;
  }
  action-Counts t i v mated c = record {
    males = omega arith;
    females = omega arith;
    whales = omega arith;
    matches = omega arith;
    matings = omega arith;
    makers = omega arith;
  }

  both-Counts :
      (c c' c'' : Tally F) (e : ℕ × Action) (log : List (ℕ × Action))
      → Counts c c' (e ∷ [])
      → Counts c' c'' log
      → Counts c c'' (e ∷ log)
  both-Counts c c' c'' (i, a) log one more = record {
    males = omega (arith, one.males, more.males);
    females = omega (arith, one.females, more.females);
    whales = omega (arith, one.whales, more.whales);
    matches = omega (arith, one.matches, more.matches);
    matings = omega (arith, one.matings, more.matings);
    makers = omega (arith, one.makers, more.makers);
  }

  take_all-Counts :
      (es : Log) (c : Tally F)
      → (c' : Tally F) × (take_all (take_whale floats) (printed es) c ≡ done c')
        × Counts c c' (logged es)
  unfolding take_whale
  take_all-Counts [] c = (
    c,
    refl,
    record {
      males = omega arith;
      females = omega arith;
      whales = omega arith;
      matches = omega arith;
      matings = omega arith;
      makers = omega arith;
    },
  )
  take_all-Counts ((t, i, a) ∷ es) c =
      let room = c.whale_times ++ replicate (suc i - length c.whale_times) floats.zero_time in
      let time = floats.atof (t ++ (b')' ∷ b' ' ∷ [])) in
      let e = count_action floats time i (action_text a) (record c { whale_times = room }) in
      let (c', run, more) = take_all-Counts es e in
      (c', run, both-Counts c e c' (i, a) (logged es) (action-Counts time i room a c) more)

  -- For any lines that the programs for the whales print, with neither a closing parenthesis nor a
  -- colon nor the end of a line in the times, whales_stats.cc reads all of them without an error,
  -- and its counters grow by the number of lines with each action, that of the whales by the lines
  -- for males and females together.
  pub read_stream-Counts :
      (es : Log) (c : Tally F)
      → LogTimes es
      → (c' : Tally F) × (read_stream (take_whale floats) (printed_text (printed es)) c ≡ done c')
        × Counts c c' (logged es)
  read_stream-Counts es c all =
      let (c', run, counts) = take_all-Counts es c in
      (
        c',
        read_stream-printed (take_whale floats) (printed es) c (printed-AllTimes es all) ∙ run,
        counts,
      )
