-- ===== src/Stats/Whales.antt =====
-- The counts of Asmt_5/whales/whales_stats.cc.
pub mod Counted
pub mod Piped
use cs.Prelude.{
  ℕ, zero, suc, ◌+◌, ◌≤◌, ◌<◌, ◌≡◌, refl, sym, ap, ◌∙◌, subst, Bool, true, false, ◌&&◌, ◌||◌,
  Option, none, some, List, [], ◌∷◌, ◌++◌, append_assoc, map, ◌==◌, if◌then◌else◌, set, ℤ, pos,
  negsuc, Text, eqb_text, All, arith, length,
}
use cs.Exec.{Exec, done, exit, ◌>>=◌}
use cs.Whales.{Action, male_created, female_created, found_mate, became_matchmaker, mated}
use cs.Stats.{Floats, grow, get_time}

abbrev pub male_created_text : Text
male_created_text =
    b'M' ∷ b'a' ∷ b'l' ∷ b'e' ∷ b' ' ∷ b'C' ∷ b'r' ∷ b'e' ∷ b'a' ∷ b't' ∷ b'e' ∷ b'd' ∷ []

abbrev pub female_created_text : Text
female_created_text =
    b'F' ∷ b'e' ∷ b'm' ∷ b'a' ∷ b'l' ∷ b'e' ∷ b' ' ∷ b'C' ∷ b'r' ∷ b'e' ∷ b'a' ∷ b't' ∷ b'e' ∷ b'd'
    ∷ []

abbrev pub found_mate_text : Text
found_mate_text = b'F' ∷ b'o' ∷ b'u' ∷ b'n' ∷ b'd' ∷ b' ' ∷ b'M' ∷ b'a' ∷ b't' ∷ b'e' ∷ []

abbrev pub became_matchmaker_text : Text
became_matchmaker_text =
    b'B' ∷ b'e' ∷ b'c' ∷ b'a' ∷ b'm' ∷ b'e' ∷ b' ' ∷ b'M' ∷ b'a' ∷ b't' ∷ b'c' ∷ b'h' ∷ b'M' ∷ b'a'
    ∷ b'k' ∷ b'e' ∷ b'r' ∷ []

abbrev pub mated_text : Text
mated_text = b'M' ∷ b'a' ∷ b't' ∷ b'e' ∷ b'd' ∷ []

-- The global counters.
pub record Tally (F : Type 0) : Type 0 where
  pub num_whales : ℕ
  pub num_males : ℕ
  pub num_females : ℕ
  pub num_matchmakers : ℕ
  pub num_matches : ℕ
  pub num_mated : ℕ
  pub total_time_to_mate : F
  pub whale_times : List F

module _ {F : Type 0} (floats : Floats F) where
  abbrev pub empty_tally : Tally F
  empty_tally = record {
    num_whales = 0;
    num_males = 0;
    num_females = 0;
    num_matchmakers = 0;
    num_matches = 0;
    num_mated = 0;
    total_time_to_mate = floats.zero_time;
    whale_times = [];
  }

  -- What a whale's line changes; `i` is its number, for which there is a place.
  abbrev pub count_action : F → ℕ → Text → Tally F → Tally F
  count_action t i action c =
      if eqb_text action male_created_text
      then record c {
        num_males = suc c.num_males;
        num_whales = suc c.num_whales;
        whale_times = set c.whale_times i t;
      }
      else if eqb_text action female_created_text
      then record c {
        num_females = suc c.num_females;
        num_whales = suc c.num_whales;
        whale_times = set c.whale_times i t;
      }
      else if eqb_text action found_mate_text
      then record c { num_matches = suc c.num_matches }
      else if eqb_text action mated_text
      then record c {
        num_mated = suc c.num_mated;
        total_time_to_mate =
            floats.add c.total_time_to_mate
              (floats.sub t (get_time floats.zero_time c.whale_times i));
      }
      else if eqb_text action became_matchmaker_text
      then record c { num_matchmakers = suc c.num_matchmakers }
      else c

  -- The body of the loop behind the parsing.
  unfoldable pub take_whale : Text → ℤ → Text → Tally F → Exec (Tally F)
  take_whale t whale action c = do
    (i, times) ← grow floats.zero_time whale c.whale_times
    done (count_action (floats.atof t) i action (record c { whale_times = times }))

-- The options: `-o` or `-O` for the output, and any number of others; one argument that is a file.
abbrev pub is_show_option : Text → Bool
is_show_option arg = eqb_text arg (b'-' ∷ b'o' ∷ []) || eqb_text arg (b'-' ∷ b'O' ∷ [])

abbrev pub is_option : Text → Bool
is_option [] = false
is_option (c ∷ arg) = c == b'-'

-- `showOutput` and `haveFile` after the loop over the arguments.
unfoldable pub read_args : List Text → Bool → Bool → Exec (Bool × Bool)
read_args [] show_output have_file = done (show_output, have_file)
read_args (arg ∷ args) show_output have_file =
    if is_show_option arg
    then read_args args true have_file
    else if is_option arg
    then read_args args show_output have_file
    else if have_file
    then exit (pos 1)
    else read_args args show_output true

-- The file that `main` opens, if any: `argv[1]`.
unfoldable pub opened_file : List Text → Exec (Option Text)
opened_file args = do
  (show_output, have_file) ← read_args args false false
  done (if have_file then first_of args else none)
  where
    first_of : List Text → Option Text
    first_of [] = none
    first_of (arg ∷ args) = some arg
