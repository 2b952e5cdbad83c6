-- ===== src/Stats/Water/Piped.antt =====
-- Asmt_5/h2o/h2o_stats.cpp on what Asmt_5/h2o/h2o_sem.cpp prints.
use cs.Prelude.{
  ℕ, suc, ◌+◌, ◌/◌, ◌≡◌, refl, ap, ◌∙◌, true, false, Option, List, [], ◌∷◌, ◌++◌, min, Text, arith,
}
use cs.Exec.{done}
use cs.Water.{
  Atoms, create_h, create_o, create_atom, Moves, first_waits, first_prints, second_waits,
  second_posts_h2, second_posts_both, second_prints, posts_o, waits_o, prints_o, Step, creates,
  moves, Reachable, starts, steps,
}
use cs.Water.Balance.{settled-water}
use cs.Stats.{Floats}
use cs.Stats.Streams.{printed_text}
use cs.Stats.Decimal.{decimal}
use cs.Stats.Whales.{read_args, opened_file}
use cs.Stats.Water.{
  AtomAction, h_created, o_created, water, AtomTally, AtomLog, printed_atoms, AtomTimes, lines_with,
  is_atom_action, take_atom, read_stream-AtomCounts,
}
use cs.Stats.Programs.{
  FloatOutput, atom_report, run, atoms_label, h_label, o_label, water_label, time_to_water_label,
}

-- What a call prints.
abbrev pub printed_in : {s s' : Atoms} → Moves s s' → List AtomAction
printed_in (first_prints e) = water ∷ []
printed_in (second_prints e) = water ∷ []
printed_in (prints_o e) = water ∷ []
printed_in (first_waits e f) = []
printed_in (second_waits e f) = []
printed_in (second_posts_h2 e) = []
printed_in (second_posts_both e) = []
printed_in (posts_o e) = []
printed_in (waits_o e f) = []

abbrev pub printed_at : {s s' : Atoms} → Step s s' → List AtomAction
printed_at (creates true) = h_created ∷ []
printed_at (creates false) = o_created ∷ []
printed_at (moves move) = printed_in move

-- The actions in the lines that the atoms print, in order.
abbrev pub actions_of : {s : Atoms} → Reachable s → List AtomAction
actions_of starts = []
actions_of (steps path step) = actions_of path ++ printed_at step

abbrev pub actions : AtomLog → List AtomAction
actions [] = []
actions ((t, i, a) ∷ es) = a ∷ actions es

abbrev often : AtomAction → List AtomAction → ℕ
often a [] = 0
often a (b ∷ bs) = is_atom_action a b + often a bs

often-append :
    (a : AtomAction) (bs cs : List AtomAction) → often a (bs ++ cs) ≡ often a bs + often a cs
often-append a [] cs = omega arith
often-append a (b ∷ bs) cs = omega (arith, often-append a bs cs)

often-lines_with : (a : AtomAction) (es : AtomLog) → lines_with a es ≡ often a (actions es)
often-lines_with a [] = refl
often-lines_with a ((t, i, b) ∷ es) = omega (arith, often-lines_with a es)

-- The lines tell how many atoms there are, and how many have become water.
record Told (s : Atoms) (bs : List AtomAction) : Type 0 where
  hydrogen : often h_created bs ≡ s.num_h
  oxygen : often o_created bs ≡ s.created_o
  waters : often water bs ≡ s.water_first + s.water_second + s.water_o

-- A thread that prints `Water`, and one that prints nothing.
prints-Told :
    (s s' : Atoms) (bs : List AtomAction)
    → s'.num_h ≡ s.num_h
    → s'.created_o ≡ s.created_o
    → s'.water_first + s'.water_second + s'.water_o
      ≡ suc (s.water_first + s.water_second + s.water_o)
    → Told s bs
    → Told s' (bs ++ (water ∷ []))
prints-Told s s' bs h o w t = record {
  hydrogen = omega (arith, t.hydrogen, h, often-append h_created bs (water ∷ []));
  oxygen = omega (arith, t.oxygen, o, often-append o_created bs (water ∷ []));
  waters = omega (arith, t.waters, w, often-append water bs (water ∷ []));
}

silent-Told :
    (s s' : Atoms) (bs : List AtomAction)
    → s'.num_h ≡ s.num_h
    → s'.created_o ≡ s.created_o
    → s'.water_first + s'.water_second + s'.water_o ≡ s.water_first + s.water_second + s.water_o
    → Told s bs
    → Told s' (bs ++ [])
silent-Told s s' bs h o w t = record {
  hydrogen = omega (arith, t.hydrogen, h, often-append h_created bs []);
  oxygen = omega (arith, t.oxygen, o, often-append o_created bs []);
  waters = omega (arith, t.waters, w, often-append water bs []);
}

Moves-Told :
    (s s' : Atoms) (bs : List AtomAction) (move : Moves s s')
    → Told s bs
    → Told s' (bs ++ printed_in move)
Moves-Told s s' bs (first_prints e) = prints-Told s s' bs refl refl (omega arith)
Moves-Told s s' bs (second_prints e) = prints-Told s s' bs refl refl (omega arith)
Moves-Told s s' bs (prints_o e) = prints-Told s s' bs refl refl (omega arith)
Moves-Told s s' bs (first_waits e f) = silent-Told s s' bs refl refl refl
Moves-Told s s' bs (second_waits e f) = silent-Told s s' bs refl refl refl
Moves-Told s s' bs (second_posts_h2 e) = silent-Told s s' bs refl refl refl
Moves-Told s s' bs (second_posts_both e) = silent-Told s s' bs refl refl refl
Moves-Told s s' bs (posts_o e) = silent-Told s s' bs refl refl refl
Moves-Told s s' bs (waits_o e f) = silent-Told s s' bs refl refl refl

-- A step adds its lines.
Step-Told :
    (s s' : Atoms) (step : Step s s') (bs : List AtomAction)
    → Told s bs
    → Told s' (bs ++ printed_at step)
unfolding create_atom create_h create_o
Step-Told s s' (creates true) bs t = record {
  hydrogen = ground (arith, t.hydrogen, often-append h_created bs (h_created ∷ []));
  oxygen = ground (arith, t.oxygen, often-append o_created bs (h_created ∷ []));
  waters = ground (arith, t.waters, often-append water bs (h_created ∷ []));
}
Step-Told s s' (creates false) bs t = record {
  hydrogen = omega (arith, t.hydrogen, often-append h_created bs (o_created ∷ []));
  oxygen = omega (arith, t.oxygen, often-append o_created bs (o_created ∷ []));
  waters = omega (arith, t.waters, often-append water bs (o_created ∷ []));
}
Step-Told s s' (moves move) bs t = Moves-Told s s' bs move t

Reachable-Told : (s : Atoms) (path : Reachable s) → Told s (actions_of path)
Reachable-Told s starts = record { hydrogen = refl; oxygen = refl; waters = refl }
Reachable-Told s (steps {s = before} path step) =
    Step-Told before s step (actions_of path) (Reachable-Told before path)

abbrev pub empty_atom_tally : {F : Type 0} → Floats F → AtomTally F
empty_atom_tally floats = record {
  num_atoms = 0;
  num_h = 0;
  num_o = 0;
  num_water = 0;
  total_time_to_water = floats.zero_time;
  atom_times = [];
}

-- What is printed for so many atoms and molecules.
abbrev pub water_lines : ℕ → ℕ → ℕ → Text → List Text
water_lines h o molecules average =
    []
    ∷ []
    ∷ (atoms_label ++ decimal (h + o))
    ∷ (h_label ++ decimal h)
    ∷ (o_label ++ decimal o)
    ∷ (water_label ++ decimal molecules)
    ∷ (time_to_water_label ++ average)
    ∷ []

atom_report-lines :
    {F : Type 0} (output : FloatOutput F) (c : AtomTally F) (h o molecules : ℕ)
    → c.num_atoms ≡ h + o
    → c.num_h ≡ h
    → c.num_o ≡ o
    → c.num_water / 3 ≡ molecules
    → atom_report output c
      ≡ water_lines h o molecules (output.show (output.over c.total_time_to_water c.num_water))
unfolding atom_report
atom_report-lines output c h o molecules atoms hydrogen oxygen waters =
    rw (atoms, hydrogen, oxygen, waters) refl

-- If the atoms of h2o_sem.cpp have reached a state in which no thread can move, and h2o_stats.cpp,
-- started without arguments, reads the lines that they have printed on the way, with any numbers
-- and with neither a closing parenthesis nor a colon nor the end of a line in the times, then it
-- prints the number of H and O as atoms, the numbers of H and of O, and as water molecules the
-- number of O or of pairs of H, whichever is smaller.
pub piped-water :
    {F : Type 0} (floats : Floats F) (output : FloatOutput F) (fopen : Text → Option Text)
    (cin : Text) (s : Atoms) (path : Reachable s) (es : AtomLog)
    → ((s' : Atoms) → ¬ Moves s s')
    → actions es ≡ actions_of path
    → AtomTimes es
    → cin ≡ printed_text (printed_atoms es)
    → (average : Text) × (run
          (take_atom floats)
          (atom_report output)
          (empty_atom_tally floats)
          fopen
          cin
          []
        ≡ done (water_lines s.num_h s.created_o (min s.created_o (s.num_h / 2)) average))
unfolding run read_args opened_file
piped-water floats output fopen cin s path es settled same times piped =
    let told = Reachable-Told s path in
    let (c, read, counts) = read_stream-AtomCounts floats es (empty_atom_tally floats) times in
    let (o, first, second) = settled-water s path settled in
    let count : (a : AtomAction) → lines_with a es ≡ often a (actions_of path) =
      λ a. often-lines_with a es ∙ ap (often a) same in
    let h : c.num_h ≡ s.num_h = omega (arith, counts.hydrogen, count h_created, told.hydrogen) in
    let oxygen : c.num_o ≡ s.created_o =
      omega (arith, counts.oxygen, count o_created, told.oxygen) in
    let atoms : c.num_atoms ≡ s.num_h + s.created_o =
      omega (arith, counts.atoms, count h_created, count o_created, told.hydrogen, told.oxygen) in
    let molecules : c.num_water / 3 ≡ min s.created_o (s.num_h / 2) =
      omega (arith, counts.waters, count water, told.waters, o, first, second) in
    (
      output.show (output.over c.total_time_to_water c.num_water),
      rw (piped, read) (ap done (atom_report-lines output c _ _ _ atoms h oxygen molecules)),
    )
