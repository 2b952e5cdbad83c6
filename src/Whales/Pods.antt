-- ===== src/Whales/Pods.antt =====
-- The waiting whales of Asmt_5/whales/whales.c as two lists, and how the queues on the heap stand for them.
use cs.Prelude.{ℕ, ◌+◌, ◌≤◌, ◌≡◌, refl, List, [], ◌∷◌, ◌++◌, length, Bool, if◌then◌else◌}
use cs.Counting.{count}
use cs.Whales.{Sea, Action, male_created, female_created, found_mate, became_matchmaker, mated}
use cs.Whales.Queue.{IsQueue, ids}

-- Per sex the whale that left its queue last, which is `0` at first, and the ones that wait.
pub record Pod : Type 0 where
  pub males : List ℕ
  pub females : List ℕ
  pub told : List (ℕ × Action)

-- Two wait: they mate, and the new one is the matchmaker.
abbrev matching : ℕ → List ℕ → List ℕ → List (ℕ × Action) → Pod
matching i (m0 ∷ m ∷ ms) (f0 ∷ f ∷ fs) told = record {
  males = m ∷ ms;
  females = f ∷ fs;
  told = (i, mated) ∷ (i, became_matchmaker) ∷ told;
}
matching i ms fs told = record { males = ms; females = fs; told = told }

abbrev pub match_up : ℕ → Pod → Pod
match_up i pod = matching i pod.males pod.females pod.told

-- A male finds a mate if there is a female and no male that waits.
abbrev male_joins : ℕ → List ℕ → List ℕ → List (ℕ × Action) → Pod
male_joins i (m0 ∷ []) (f0 ∷ f ∷ fs) told = record {
  males = m0 ∷ i ∷ [];
  females = f0 ∷ f ∷ fs;
  told = (f0, found_mate) ∷ (i, found_mate) ∷ told;
}
male_joins i ms (f0 ∷ []) told = record { males = ms ++ (i ∷ []); females = f0 ∷ []; told = told }
male_joins i ms fs told = matching i ms fs told

abbrev pub male_arrives : ℕ → Pod → Pod
male_arrives i pod = male_joins i pod.males pod.females ((i, male_created) ∷ pod.told)

abbrev female_joins : ℕ → List ℕ → List ℕ → List (ℕ × Action) → Pod
female_joins i (m0 ∷ m ∷ ms) (f0 ∷ []) told = record {
  males = m0 ∷ m ∷ ms;
  females = f0 ∷ i ∷ [];
  told = (i, found_mate) ∷ (m0, found_mate) ∷ told;
}
female_joins i (m0 ∷ []) fs told = record { males = m0 ∷ []; females = fs ++ (i ∷ []); told = told }
female_joins i ms fs told = matching i ms fs told

abbrev pub female_arrives : ℕ → Pod → Pod
female_arrives i pod = female_joins i pod.males pod.females ((i, female_created) ∷ pod.told)

abbrev pub whale_arrives : Bool → ℕ → Pod → Pod
whale_arrives is_male i pod = if is_male then male_arrives i pod else female_arrives i pod

abbrev pub view : Sea → List ℕ → List ℕ → Pod
view s tm tf = record {
  males = ids s.whales (s.male_q ∷ tm);
  females = ids s.whales (s.female_q ∷ tf);
  told = s.lines;
}

-- Two queues without a node in common, and the counters say how many wait.
pub record Holds (s : Sea) (tm tf : List ℕ) : Type 0 where
  pub males : IsQueue s.whales s.male_q tm
  pub females : IsQueue s.whales s.female_q tf
  pub apart : (a : ℕ) → count a (s.male_q ∷ tm) + count a (s.female_q ∷ tf) ≤ 1
  pub male_count : s.male ≡ length tm
  pub female_count : s.female ≡ length tf

pub male_joins-alone :
    (i m0 f0 : ℕ) (ms : List ℕ) (told : List (ℕ × Action))
    → male_joins i (m0 ∷ ms) (f0 ∷ []) told
      ≡ record { males = (m0 ∷ ms) ++ (i ∷ []); females = f0 ∷ []; told = told }
male_joins-alone i m0 f0 [] told = refl
male_joins-alone i m0 f0 (m ∷ ms) told = refl

abbrev pub pod_of : List ℕ → List ℕ → List (ℕ × Action) → Pod
pod_of ms fs told = record { males = ms; females = fs; told = told }

pub Pod-ext :
    {a b a' b' : List ℕ} {c c' : List (ℕ × Action)}
    → a ≡ a'
    → b ≡ b'
    → c ≡ c'
    → pod_of a b c ≡ pod_of a' b' c'
Pod-ext e f g = rw (e, f, g) refl
