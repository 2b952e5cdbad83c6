-- ===== src/Stats/Whales/Piped.antt =====
-- Asmt_5/whales/whales_stats.cc on what Asmt_5/whales/whalesnew.c prints.
use cs.Prelude.{ℕ, ◌+◌, ◌/◌, List, [], ◌∷◌, ◌++◌, Text}
use cs.Whales.{Action}
use cs.Stats.Decimal.{decimal}
use cs.Stats.Programs.{
  whales_label, males_label, females_label, matchmakers_label, matches_label, copulations_label,
  time_to_mate_label,
}

-- The lines from the first one on.
abbrev pub first_to_last : List (ℕ × Action) → List (ℕ × Action)
first_to_last [] = []
first_to_last (e ∷ lines) = first_to_last lines ++ (e ∷ [])

-- What is printed for so many whales, lines `Found Mate` and lines `Mated`.
abbrev pub whale_lines : ℕ → ℕ → ℕ → ℕ → ℕ → Text → List Text
whale_lines males females makers found matings average =
    []
    ∷ []
    ∷ (whales_label ++ decimal (males + females))
    ∷ (males_label ++ decimal males)
    ∷ (females_label ++ decimal females)
    ∷ (matchmakers_label ++ decimal makers)
    ∷ (matches_label ++ decimal (found / 2))
    ∷ (copulations_label ++ decimal (matings / 2))
    ∷ (time_to_mate_label ++ average)
    ∷ []
