-- ===== src/Whales/Simple.antt =====
-- The counters of Asmt_5/whales/whalesnew.c: whales that do not wait for each other.
use cs.Prelude.{
  ℕ, suc, ◌+◌, ◌-◌, ◌*◌, ◌≤◌, ◌≡◌, refl, Bool, true, false, List, [], ◌∷◌, ◌==◌, ltb, length,
  if◌then◌else◌, ◌⊎◌, inl, arith, subst,
}
use cs.Whales.{Action, male_created, female_created, found_mate, became_matchmaker, mated}

-- The counters, and the lines that are printed, the last one first.
pub record Counters : Type 0 where
  pub male : ℕ
  pub female : ℕ
  pub matepresent : ℕ
  pub lines : List (ℕ × Action)

abbrev pub initial : Counters
initial = record { male = 0; female = 0; matepresent = 0; lines = [] }

unfoldable pub create_male : ℕ → Counters → Counters
create_male id c =
    if c.matepresent == 1
    then record c {
      matepresent = 0;
      lines = (id, mated) ∷ (id, became_matchmaker) ∷ (id, male_created) ∷ c.lines;
    }
    else if ltb 0 c.female
    then record c {
      female = c.female - 1;
      matepresent = 1;
      lines = (id, found_mate) ∷ (id, male_created) ∷ c.lines;
    }
    else record c { male = suc c.male; lines = (id, male_created) ∷ c.lines }

unfoldable pub create_female : ℕ → Counters → Counters
create_female id c =
    if c.matepresent == 1
    then record c {
      matepresent = 0;
      lines = (id, mated) ∷ (id, became_matchmaker) ∷ (id, female_created) ∷ c.lines;
    }
    else if ltb 0 c.male
    then record c {
      male = c.male - 1;
      matepresent = 1;
      lines = (id, found_mate) ∷ (id, female_created) ∷ c.lines;
    }
    else record c { female = suc c.female; lines = (id, female_created) ∷ c.lines }

-- `create_whale`; `is_male` is what `rand` decides.
unfoldable pub create_whale : Bool → ℕ → Counters → Counters
create_whale is_male id c = if is_male then create_male id c else create_female id c

-- One whale after the other.
abbrev pub create_whales : List (Bool × ℕ) → Counters → Counters
create_whales [] c = c
create_whales ((is_male, id) ∷ ws) c = create_whales ws (create_whale is_male id c)

-- How often a line says that a whale has done something.
abbrev pub is_action : Action → Action → ℕ
is_action male_created male_created = 1
is_action female_created female_created = 1
is_action found_mate found_mate = 1
is_action became_matchmaker became_matchmaker = 1
is_action mated mated = 1
is_action a b = 0

abbrev pub times : Action → List (ℕ × Action) → ℕ
times a [] = 0
times a ((i, b) ∷ ls) = is_action a b + times a ls

-- `n` whales have been created.
pub record Tallied (n : ℕ) (c : Counters) : Type 0 where
  pub one_sex : (c.male ≡ 0) ⊎ (c.female ≡ 0)
  pub one_pair : c.matepresent ≤ 1
  pub everyone : n ≡ c.male + c.female + 2 * c.matepresent + 3 * times mated c.lines
  pub pairs : times found_mate c.lines ≡ c.matepresent + times mated c.lines
  pub makers : times became_matchmaker c.lines ≡ times mated c.lines
  pub created : times male_created c.lines + times female_created c.lines ≡ n

create_male-Tallied : (n id : ℕ) (c : Counters) → Tallied n c → Tallied (suc n) (create_male id c)
unfolding create_male
create_male-Tallied n id c t = record {
  one_sex = ground (arith, t.one_sex);
  one_pair = ground (arith, t.one_pair);
  everyone = ground (arith, t.everyone, t.one_pair);
  pairs = ground (arith, t.pairs, t.one_pair);
  makers = ground (arith, t.makers);
  created = ground (arith, t.created);
}

create_female-Tallied :
    (n id : ℕ) (c : Counters) → Tallied n c → Tallied (suc n) (create_female id c)
unfolding create_female
create_female-Tallied n id c t = record {
  one_sex = ground (arith, t.one_sex);
  one_pair = ground (arith, t.one_pair);
  everyone = ground (arith, t.everyone, t.one_pair);
  pairs = ground (arith, t.pairs, t.one_pair);
  makers = ground (arith, t.makers);
  created = ground (arith, t.created);
}

create_whales-Tallied :
    (ws : List (Bool × ℕ)) (n : ℕ) (c : Counters)
    → Tallied n c
    → Tallied (length ws + n) (create_whales ws c)
unfolding create_whale
create_whales-Tallied [] n c t = subst (λ m. Tallied m c) (omega arith) t
create_whales-Tallied ((true, id) ∷ ws) n c t =
    subst (λ m. Tallied m (create_whales ws (create_male id c))) (omega arith)
      (create_whales-Tallied ws (suc n) (create_male id c) (create_male-Tallied n id c t))
create_whales-Tallied ((false, id) ∷ ws) n c t =
    subst (λ m. Tallied m (create_whales ws (create_female id c))) (omega arith)
      (create_whales-Tallied ws (suc n) (create_female id c) (create_female-Tallied n id c t))

-- However many whales whalesnew.c creates, one after the other, in the end whales of at most one
-- sex are left, at most one pair waits for a matchmaker, there are as many lines Became MatchMaker
-- as Mated, as many Found Mate as pairs that have mated or wait, and the whales created are those
-- that are left, two for the waiting pair, and three for each line Mated.
pub created-Tallied : (ws : List (Bool × ℕ)) → Tallied (length ws) (create_whales ws initial)
created-Tallied ws =
    subst (λ m. Tallied m (create_whales ws initial)) (omega arith)
      (create_whales-Tallied ws 0 initial (record {
        one_sex = inl refl;
        one_pair = omega arith;
        everyone = refl;
        pairs = refl;
        makers = refl;
        created = refl;
      }))
