-- ===== src/Stats/Philosophers.antt =====
-- The times that Asmt_5/philosophers/philosophers_stats.cc adds up.
use cs.Prelude.{
  ℕ, suc, ◌-◌, ◌≡◌, ◌≢◌, Bool, List, [], ◌∷◌, ◌++◌, if◌then◌else◌, length, set, replicate, ℤ, Text,
  eqb_text,
}
use cs.Exec.{Exec, done, ◌>>=◌}
use cs.Stats.{Floats, grow, get_time}

-- The vectors, by the number of the philosopher.
pub record Totals (F : Type 0) : Type 0 where
  pub thinking_times : List F
  pub hungry_times : List F
  pub eating_times : List F
  pub last_state_change_times : List F
  pub last_time : F

-- The three states by their letters.
abbrev pub hungry_text : Text
hungry_text = b'H' ∷ []

abbrev pub eating_text : Text
eating_text = b'E' ∷ []

abbrev pub thinking_text : Text
thinking_text = b'T' ∷ []

module _ {F : Type 0} (floats : Floats F) where
  -- `v[i] += d`, after `v` has been made long enough.
  abbrev pub add_time : ℕ → F → List F → List F
  add_time i d v =
      let room = v ++ replicate (suc i - length v) floats.zero_time in
      set room i (floats.add (get_time floats.zero_time room i) d)

  -- A change of state ends the time in the state before it. Other actions are left out.
  abbrev pub change_state : F → ℕ → Text → Totals F → Totals F
  change_state t i action c =
      let d = floats.sub t (get_time floats.zero_time c.last_state_change_times i) in
      let last = set c.last_state_change_times i t in
      if eqb_text action hungry_text
      then record c {
        thinking_times = add_time i d c.thinking_times;
        last_state_change_times = last;
        last_time = t;
      }
      else if eqb_text action eating_text
      then record c {
        hungry_times = add_time i d c.hungry_times;
        last_state_change_times = last;
        last_time = t;
      }
      else if eqb_text action thinking_text
      then record c {
        eating_times = add_time i d c.eating_times;
        last_state_change_times = last;
        last_time = t;
      }
      else c

  -- The body of the loop of `readStream` behind the parsing. A time that is too early only makes a message.
  unfoldable pub take_philosopher : Text → ℤ → Text → Totals F → Exec (Totals F)
  take_philosopher t phil action c = do
    (i, last) ← grow floats.zero_time phil c.last_state_change_times
    done (change_state (floats.atof t) i action (record c { last_state_change_times = last }))

  abbrev time_of : List F → ℕ → F
  time_of v i = get_time floats.zero_time v i

  -- A total after a line of philosopher `i`, which may end what the total counts.
  abbrev pub Total : Bool → F → ℕ → List F → List F → Type 0
  Total ends d i v v' =
      (time_of v' i ≡ (if ends then floats.add (time_of v i) d else time_of v i))
      × ((j : ℕ) → i ≢ j → time_of v' j ≡ time_of v j)

  abbrev pub elapsed : Text → ℕ → Totals F → F
  elapsed t i c = floats.sub (floats.atof t) (time_of c.last_state_change_times i)

  -- What a line changes.
  pub record Changed (t : Text) (i : ℕ) (action : Text) (c c' : Totals F) : Type 0 where
    pub thinking :
        Total (eqb_text action hungry_text) (elapsed t i c) i c.thinking_times c'.thinking_times
    pub hungry :
        Total (eqb_text action eating_text) (elapsed t i c) i c.hungry_times c'.hungry_times
    pub eating :
        Total (eqb_text action thinking_text) (elapsed t i c) i c.eating_times c'.eating_times
    pub others :
        (j : ℕ) → i ≢ j → time_of c'.last_state_change_times j ≡ time_of c.last_state_change_times j

  module _ (t : Text) (i : ℕ) (c : Totals F) where
    abbrev last : List F
    last =
        c.last_state_change_times
        ++ replicate (suc i - length c.last_state_change_times) floats.zero_time

    abbrev with_room : Totals F
    with_room = record c { last_state_change_times = last }

    abbrev room_elapsed : F
    room_elapsed = floats.sub (floats.atof t) (time_of last i)
