-- ===== src/Stats/Water.antt =====
-- The counts of Asmt_5/h2o/h2o_stats.cpp, and what it counts in the lines of Asmt_5/h2o/h2o_sem.cpp.
pub mod Piped
use cs.Prelude.{
  ℕ, suc, ◌+◌, ◌-◌, ◌≡◌, refl, ◌∙◌, List, [], ◌∷◌, ◌++◌, if◌then◌else◌, length, replicate, set, ℤ,
  Text, eqb_text, arith,
}
use cs.Exec.{Exec, done, ◌>>=◌}
use cs.Stats.{Floats, grow, get_time, read_stream}
use cs.Stats.Printing.{Without}
use cs.Stats.Streams.{Printed, printed_text, IsTime, AllTimes, take_all, read_stream-printed}

pub data AtomAction : Type 0 where
  h_created : AtomAction
  o_created : AtomAction
  water : AtomAction

abbrev pub h_created_text : Text
h_created_text = b'H' ∷ b' ' ∷ b'C' ∷ b'r' ∷ b'e' ∷ b'a' ∷ b't' ∷ b'e' ∷ b'd' ∷ []

abbrev pub o_created_text : Text
o_created_text = b'O' ∷ b' ' ∷ b'C' ∷ b'r' ∷ b'e' ∷ b'a' ∷ b't' ∷ b'e' ∷ b'd' ∷ []

abbrev pub water_text : Text
water_text = b'W' ∷ b'a' ∷ b't' ∷ b'e' ∷ b'r' ∷ []

-- The global counters.
pub record AtomTally (F : Type 0) : Type 0 where
  pub num_atoms : ℕ
  pub num_h : ℕ
  pub num_o : ℕ
  pub num_water : ℕ
  pub total_time_to_water : F
  pub atom_times : List F

-- The lines of the atoms, by their time, number and action, and what is printed for them.
abbrev pub AtomLog : Type 0
AtomLog = List (Text × ℕ × AtomAction)

abbrev pub atom_text : AtomAction → Text
atom_text h_created = h_created_text
atom_text o_created = o_created_text
atom_text water = water_text

abbrev pub printed_atoms : AtomLog → Printed
printed_atoms [] = []
printed_atoms ((t, i, a) ∷ es) = (t, i, atom_text a) ∷ printed_atoms es

abbrev pub AtomTimes : AtomLog → Type 0
AtomTimes [] = Unit
AtomTimes ((t, i, a) ∷ es) = IsTime t × AtomTimes es

-- How many lines have an action.
abbrev pub is_atom_action : AtomAction → AtomAction → ℕ
is_atom_action h_created h_created = 1
is_atom_action o_created o_created = 1
is_atom_action water water = 1
is_atom_action a b = 0

abbrev pub lines_with : AtomAction → AtomLog → ℕ
lines_with a [] = 0
lines_with a ((t, i, b) ∷ es) = is_atom_action a b + lines_with a es

atom_text-line : (a : AtomAction) → Without b'\n' (atom_text a)
atom_text-line h_created = ground arith
atom_text-line o_created = ground arith
atom_text-line water = ground arith

printed_atoms-AllTimes : (es : AtomLog) → AtomTimes es → AllTimes (printed_atoms es)
printed_atoms-AllTimes [] all = tt
printed_atoms-AllTimes ((t, i, a) ∷ es) all =
    ((all.0, atom_text-line a), printed_atoms-AllTimes es all.1)

-- The counters after some lines.
pub record AtomCounts {F : Type 0} (c c' : AtomTally F) (es : AtomLog) : Type 0 where
  pub atoms : c'.num_atoms ≡ c.num_atoms + lines_with h_created es + lines_with o_created es
  pub hydrogen : c'.num_h ≡ c.num_h + lines_with h_created es
  pub oxygen : c'.num_o ≡ c.num_o + lines_with o_created es
  pub waters : c'.num_water ≡ c.num_water + lines_with water es

module _ {F : Type 0} (floats : Floats F) where
  -- What an atom's line changes; `i` is its number, for which there is a place.
  abbrev pub count_atom : F → ℕ → Text → AtomTally F → AtomTally F
  count_atom t i action c =
      if eqb_text action h_created_text
      then record c {
        num_atoms = suc c.num_atoms;
        num_h = suc c.num_h;
        atom_times = set c.atom_times i t;
      }
      else if eqb_text action o_created_text
      then record c {
        num_atoms = suc c.num_atoms;
        num_o = suc c.num_o;
        atom_times = set c.atom_times i t;
      }
      else if eqb_text action water_text
      then record c {
        num_water = suc c.num_water;
        total_time_to_water =
            floats.add c.total_time_to_water
              (floats.sub t (get_time floats.zero_time c.atom_times i));
      }
      else c

  -- The body of the loop of `readStream` behind the parsing.
  unfoldable pub take_atom : Text → ℤ → Text → AtomTally F → Exec (AtomTally F)
  take_atom t atom action c = do
    (i, times) ← grow floats.zero_time atom c.atom_times
    done (count_atom (floats.atof t) i action (record c { atom_times = times }))

  -- A first line, and the others.
  atom-AtomCounts :
      (time : F) (t : Text) (i : ℕ) (a : AtomAction) (v : List F) (c c' : AtomTally F)
      (es : AtomLog)
      → AtomCounts (count_atom time i (atom_text a) (record c { atom_times = v })) c' es
      → AtomCounts c c' ((t, i, a) ∷ es)
  atom-AtomCounts time t i h_created v c c' es more = record {
    atoms = omega (arith, more.atoms);
    hydrogen = omega (arith, more.hydrogen);
    oxygen = omega (arith, more.oxygen);
    waters = omega (arith, more.waters);
  }
  atom-AtomCounts time t i o_created v c c' es more = record {
    atoms = omega (arith, more.atoms);
    hydrogen = omega (arith, more.hydrogen);
    oxygen = omega (arith, more.oxygen);
    waters = omega (arith, more.waters);
  }
  atom-AtomCounts time t i water v c c' es more = record {
    atoms = omega (arith, more.atoms);
    hydrogen = omega (arith, more.hydrogen);
    oxygen = omega (arith, more.oxygen);
    waters = omega (arith, more.waters);
  }

  take_all-AtomCounts :
      (es : AtomLog) (c : AtomTally F)
      → (c' : AtomTally F) × (take_all take_atom (printed_atoms es) c ≡ done c')
        × AtomCounts c c' es
  unfolding take_atom
  take_all-AtomCounts [] c = (
    c,
    refl,
    record {
      atoms = omega arith;
      hydrogen = omega arith;
      oxygen = omega arith;
      waters = omega arith;
    },
  )
  take_all-AtomCounts ((t, i, a) ∷ es) c =
      let room = c.atom_times ++ replicate (suc i - length c.atom_times) floats.zero_time in
      let time = floats.atof (t ++ (b')' ∷ b' ' ∷ [])) in
      let e = count_atom time i (atom_text a) (record c { atom_times = room }) in
      let (c', run, more) = take_all-AtomCounts es e in
      (c', run, atom-AtomCounts time t i a room c c' es more)

  pub read_stream-AtomCounts :
      (es : AtomLog) (c : AtomTally F)
      → AtomTimes es
      → (c' : AtomTally F) × (read_stream take_atom (printed_text (printed_atoms es)) c ≡ done c')
        × AtomCounts c c' es
  read_stream-AtomCounts es c all =
      let (c', run, counts) = take_all-AtomCounts es c in
      (
        c',
        read_stream-printed take_atom (printed_atoms es) c (printed_atoms-AllTimes es all) ∙ run,
        counts,
      )
