-- ===== src/Stats/Programs.antt =====
-- The three programs of Asmt_5 that count lines, as whole programs: what they print, and `main`
-- (whales/whales_stats.cc, philosophers/philosophers_stats.cc, h2o/h2o_stats.cpp).
use cs.Prelude.{
  ℕ, suc, ◌*◌, ◌/◌, false, Option, none, some, List, [], ◌∷◌, ◌++◌, if◌then◌else◌, ℤ, pos, Text,
}
use cs.Exec.{Exec, done, exit, ◌>>=◌}
use cs.Stats.{lines_of, read_stream}
use cs.Stats.Decimal.{decimal}
use cs.Stats.Whales.{Tally, read_args, opened_file}
use cs.Stats.Philosophers.{Totals}
use cs.Stats.Water.{AtomTally}

-- `cout << x`, and `x / n`.
pub record FloatOutput (F : Type 0) : Type 0 where
  pub show : F → Text
  pub over : F → ℕ → F

abbrev pub whales_label : Text
whales_label =
    b'T' ∷ b'o' ∷ b't' ∷ b'a' ∷ b'l' ∷ b' ' ∷ b'W' ∷ b'h' ∷ b'a' ∷ b'l' ∷ b'e' ∷ b's' ∷ b':' ∷ b' '
    ∷ []

abbrev pub males_label : Text
males_label =
    b'T' ∷ b'o' ∷ b't' ∷ b'a' ∷ b'l' ∷ b' ' ∷ b'M' ∷ b'a' ∷ b'l' ∷ b'e' ∷ b's' ∷ b':' ∷ b' ' ∷ []

abbrev pub females_label : Text
females_label =
    b'T' ∷ b'o' ∷ b't' ∷ b'a' ∷ b'l' ∷ b' ' ∷ b'F' ∷ b'e' ∷ b'm' ∷ b'a' ∷ b'l' ∷ b'e' ∷ b's' ∷ b':'
    ∷ b' ' ∷ []

abbrev pub matchmakers_label : Text
matchmakers_label =
    b'T' ∷ b'o' ∷ b't' ∷ b'a' ∷ b'l' ∷ b' ' ∷ b'M' ∷ b'a' ∷ b't' ∷ b'c' ∷ b'h' ∷ b'M' ∷ b'a' ∷ b'k'
    ∷ b'e' ∷ b'r' ∷ b's' ∷ b':' ∷ b' ' ∷ []

abbrev pub matches_label : Text
matches_label =
    b'T' ∷ b'o' ∷ b't' ∷ b'a' ∷ b'l' ∷ b' ' ∷ b'M' ∷ b'a' ∷ b't' ∷ b'c' ∷ b'h' ∷ b'e' ∷ b's' ∷ b':'
    ∷ b' ' ∷ []

abbrev pub copulations_label : Text
copulations_label =
    b'T' ∷ b'o' ∷ b't' ∷ b'a' ∷ b'l' ∷ b' ' ∷ b'#' ∷ b' ' ∷ b'C' ∷ b'o' ∷ b'p' ∷ b'u' ∷ b'l' ∷ b'a'
    ∷ b't' ∷ b'i' ∷ b'o' ∷ b'n' ∷ b's' ∷ b':' ∷ b' ' ∷ []

abbrev pub time_to_mate_label : Text
time_to_mate_label =
    b'A' ∷ b'v' ∷ b'e' ∷ b'r' ∷ b'a' ∷ b'g' ∷ b'e' ∷ b' ' ∷ b'T' ∷ b'i' ∷ b'm' ∷ b'e' ∷ b' ' ∷ b'T'
    ∷ b'o' ∷ b' ' ∷ b'M' ∷ b'a' ∷ b't' ∷ b'e' ∷ b':' ∷ b' ' ∷ []

abbrev pub atoms_label : Text
atoms_label =
    b'T' ∷ b'o' ∷ b't' ∷ b'a' ∷ b'l' ∷ b' ' ∷ b'A' ∷ b't' ∷ b'o' ∷ b'm' ∷ b's' ∷ b':' ∷ b' ' ∷ []

abbrev pub h_label : Text
h_label = b'T' ∷ b'o' ∷ b't' ∷ b'a' ∷ b'l' ∷ b' ' ∷ b'H' ∷ b':' ∷ b' ' ∷ []

abbrev pub o_label : Text
o_label = b'T' ∷ b'o' ∷ b't' ∷ b'a' ∷ b'l' ∷ b' ' ∷ b'O' ∷ b':' ∷ b' ' ∷ []

abbrev pub water_label : Text
water_label =
    b'T' ∷ b'o' ∷ b't' ∷ b'a' ∷ b'l' ∷ b' ' ∷ b'W' ∷ b'a' ∷ b't' ∷ b'e' ∷ b'r' ∷ b' ' ∷ b'M' ∷ b'o'
    ∷ b'l' ∷ b'e' ∷ b'c' ∷ b'u' ∷ b'l' ∷ b'e' ∷ b's' ∷ b':' ∷ b' ' ∷ []

abbrev pub time_to_water_label : Text
time_to_water_label =
    b'A' ∷ b'v' ∷ b'e' ∷ b'r' ∷ b'a' ∷ b'g' ∷ b'e' ∷ b' ' ∷ b'T' ∷ b'i' ∷ b'm' ∷ b'e' ∷ b' ' ∷ b'T'
    ∷ b'o' ∷ b' ' ∷ b'W' ∷ b'a' ∷ b't' ∷ b'e' ∷ b'r' ∷ b':' ∷ b' ' ∷ []

abbrev pub thinking_label : Text
thinking_label =
    b'T' ∷ b'o' ∷ b't' ∷ b'a' ∷ b'l' ∷ b' ' ∷ b'T' ∷ b'h' ∷ b'i' ∷ b'n' ∷ b'k' ∷ b'i' ∷ b'n' ∷ b'g'
    ∷ b' ' ∷ b'T' ∷ b'i' ∷ b'm' ∷ b'e' ∷ b's' ∷ b':' ∷ b' ' ∷ []

abbrev pub hungry_label : Text
hungry_label =
    b'T' ∷ b'o' ∷ b't' ∷ b'a' ∷ b'l' ∷ b' ' ∷ b'H' ∷ b'u' ∷ b'n' ∷ b'g' ∷ b'r' ∷ b'y' ∷ b' ' ∷ b'T'
    ∷ b'i' ∷ b'm' ∷ b'e' ∷ b's' ∷ b':' ∷ b' ' ∷ []

abbrev pub eating_label : Text
eating_label =
    b'T' ∷ b'o' ∷ b't' ∷ b'a' ∷ b'l' ∷ b' ' ∷ b'E' ∷ b'a' ∷ b't' ∷ b'i' ∷ b'n' ∷ b'g' ∷ b' ' ∷ b'T'
    ∷ b'i' ∷ b'm' ∷ b'e' ∷ b's' ∷ b':' ∷ b' ' ∷ []

abbrev pub philosopher_label : Text
philosopher_label =
    b'p' ∷ b'h' ∷ b'i' ∷ b'l' ∷ b'o' ∷ b's' ∷ b'o' ∷ b'p' ∷ b'h' ∷ b'e' ∷ b'r' ∷ b' ' ∷ []

module _ {F : Type 0} (output : FloatOutput F) where
  -- `printStats` of whales_stats.cc, line by line.
  unfoldable pub whale_report : Tally F → List Text
  whale_report c =
      []
      ∷ []
      ∷ (whales_label ++ decimal c.num_whales)
      ∷ (males_label ++ decimal c.num_males)
      ∷ (females_label ++ decimal c.num_females)
      ∷ (matchmakers_label ++ decimal c.num_matchmakers)
      ∷ (matches_label ++ decimal (c.num_matches / 2))
      ∷ (copulations_label ++ decimal (c.num_mated / 2))
      ∷ (time_to_mate_label ++ output.show (output.over c.total_time_to_mate (2 * c.num_mated)))
      ∷ []

  -- `printStats` of h2o_stats.cpp.
  unfoldable pub atom_report : AtomTally F → List Text
  atom_report c =
      []
      ∷ []
      ∷ (atoms_label ++ decimal c.num_atoms)
      ∷ (h_label ++ decimal c.num_h)
      ∷ (o_label ++ decimal c.num_o)
      ∷ (water_label ++ decimal (c.num_water / 3))
      ∷ (time_to_water_label ++ output.show (output.over c.total_time_to_water c.num_water))
      ∷ []

  -- The times of the philosophers from number `i` on.
  abbrev pub times_report : ℕ → List F → List Text
  times_report i [] = []
  times_report i (t ∷ ts) =
      (philosopher_label ++ (decimal i ++ (b':' ∷ b' ' ∷ output.show t))) ∷ times_report (suc i) ts

  -- `printStats` of philosophers_stats.cc.
  unfoldable pub philosopher_report : Totals F → List Text
  philosopher_report c =
      ([] ∷ [] ∷ thinking_label ∷ times_report 0 c.thinking_times)
      ++ (([] ∷ [] ∷ hungry_label ∷ times_report 0 c.hungry_times)
          ++ ([] ∷ [] ∷ eating_label ∷ times_report 0 c.eating_times))

-- The stream that is read: `cin`, or the file.
abbrev pub input : (Text → Option Text) → Text → Option Text → Exec Text
input fopen cin none = done cin
input fopen cin (some name) = elim (fopen name) [ none ↦ exit (pos 0) | some text ↦ done text ]

-- `main`: the lines that are read are printed too, if that is wanted, and then the counts.
unfoldable pub run {ℓ} :
    {S : Type ℓ}
    → (Text → ℤ → Text → S → Exec S)
    → (S → List Text)
    → S
    → (Text → Option Text)
    → Text
    → List Text
    → Exec (List Text)
run take report start fopen cin args = do
  (show_output, have_file) ← read_args args false false
  file ← opened_file args
  text ← input fopen cin file
  c ← read_stream take text start
  done ((if show_output then lines_of text else []) ++ report c)
