-- ===== src/Whales/Stuck.antt =====
-- How many whales of Asmt_5/whales/whales.c wait for ever: a matchmaker posts once for two mates.
use cs.Prelude.{
  ℕ, suc, ◌+◌, ◌≤◌, ◌<◌, ◌≡◌, refl, ap, subst, Bool, true, false, List, [], ◌∷◌, inl, inr,
  Bool-cases, and_false, arith, ◌==◌, ltb,
}
use cs.Exec.{done, ◌>>=◌, bind-done, done_injective, fault≢done}
use cs.Nodes.{Node, load}
use cs.Whales.{
  null, Whale, Whales, Action, male_created, female_created, became_matchmaker, mated, Sea,
  print_line, malloc_whale, enqueue, dequeue, whale_init, both_queued, take_pair, make_match,
  create_male, create_female, Passes, mate_came_to_male, mate_came_to_female, maker_came,
}

-- A whale is created, or one gets through a `sem_wait`.
pub data Step (s s' : Sea) : Type 0 where
  male_comes :
      (temp : ℕ) (junk : Node Whale) (id : ℕ) → create_male temp junk id s ≡ done s' → Step s s'
  female_comes :
      (temp : ℕ) (junk : Node Whale) (id : ℕ) → create_female temp junk id s ≡ done s' → Step s s'
  goes_on : Passes s s' → Step s s'

pub data Reachable (s0 : Sea) : Sea → Type 0 where
  starts : Reachable s0 s0
  steps : {s s' : Sea} → Reachable s0 s → Step s s' → Reachable s0 s'

-- The lines `Mated`.
abbrev pub matings : List (ℕ × Action) → ℕ
matings [] = 0
matings ((i, mated) ∷ ls) = suc (matings ls)
matings ((i, _) ∷ ls) = matings ls

abbrev pub waiting : Sea → ℕ
waiting s = s.wait_male + s.wait_fem + s.wait_maker

abbrev pub Balanced : Sea → Type 0
Balanced s = matings s.lines + s.male + s.female + s.maker_avail ≡ waiting s

-- The two queues are left out.
abbrev Alike : Sea → Sea → Type 0
Alike s t =
    (t.lines ≡ s.lines)
    × (t.male ≡ s.male)
    × (t.female ≡ s.female)
    × (t.maker_avail ≡ s.maker_avail)
    × (waiting t ≡ waiting s)

take_pair-Balanced : (both : Bool) (s s' : Sea) → take_pair both s ≡ done s' → Alike s s'
unfolding take_pair
take_pair-Balanced false s s' run =
    subst (Alike s) (done_injective run) (refl, refl, refl, refl, refl)
take_pair-Balanced true s s' run =
    let (one, _, run') = bind-done (dequeue s.male_q s.whales) _ s' run in
    let (two, _, run'') = bind-done (dequeue s.female_q one.1) _ s' run' in
    subst (Alike s) (done_injective run'') (refl, refl, refl, refl, refl)

make_match-Balanced :
    (id : ℕ) (s s' : Sea)
    → 0 < s.male
    → 0 < s.female
    → Balanced s
    → make_match id s ≡ done s'
    → Balanced s'
unfolding make_match
make_match-Balanced id s s' m f balanced run =
    let t = print_line id mated (print_line id became_matchmaker s) in
    let (both, _, run') = bind-done (both_queued s) _ s' run in
    let (u, e, run'') = bind-done (take_pair both t) _ s' run' in
    let (lines, male, female, maker, waits) = take_pair-Balanced both t u e in
    subst Balanced (done_injective run'')
      (omega (arith, m, f, balanced, ap matings lines, male, female, maker, waits))

-- A whale that joins a queue.
join_run :
    (q temp : ℕ) (junk : Node Whale) (id : ℕ) (h : Whales) (f : Whales → Sea) (s' : Sea)
    → (do h ← malloc_whale temp junk id h; h ← enqueue q temp h; done (f h)) ≡ done s'
    → (h' : Whales) × (f h' ≡ s')
join_run q temp junk id h f s' run =
    let (one, _, run') = bind-done (malloc_whale temp junk id h) _ s' run in
    let (two, _, run'') = bind-done (enqueue q temp one) _ s' run' in (two, done_injective run'')

create_male-Balanced :
    (temp : ℕ) (junk : Node Whale) (id : ℕ) (s s' : Sea)
    → Balanced s
    → create_male temp junk id s ≡ done s'
    → Balanced s'
unfolding create_male
create_male-Balanced temp junk id s s' balanced run = elim (Bool-cases (ltb 0 s.female)) [
  | inl females ↦ elim (Bool-cases (ltb 0 s.male)) [
    | inl males ↦
        make_match-Balanced id (print_line id male_created s) s' (ground (arith, males))
          (ground (arith, females)) balanced (rw (males, females) at run)
    | inr males ↦
        let (f, _, run') = bind-done (load s.whales s.female_q) _ s' (rw (males, females) at run) in
        let (h, e) = join_run s.male_q temp junk id s.whales _ s' run' in
        subst Balanced e (omega (arith, balanced))
  ]
  | inr females ↦
      let (h, e) =
        join_run s.male_q temp junk id s.whales _ s'
          (rw (females, and_false (ltb 0 s.male)) at run) in
      subst Balanced e (omega (arith, balanced))
]

create_female-Balanced :
    (temp : ℕ) (junk : Node Whale) (id : ℕ) (s s' : Sea)
    → Balanced s
    → create_female temp junk id s ≡ done s'
    → Balanced s'
unfolding create_female
create_female-Balanced temp junk id s s' balanced run = elim (Bool-cases (ltb 0 s.male)) [
  | inl males ↦ elim (Bool-cases (ltb 0 s.female)) [
    | inl females ↦
        make_match-Balanced id (print_line id female_created s) s' (ground (arith, males))
          (ground (arith, females)) balanced (rw (males, females) at run)
    | inr females ↦
        let (m, _, run') = bind-done (load s.whales s.male_q) _ s' (rw (males, females) at run) in
        let (h, e) = join_run s.female_q temp junk id s.whales _ s' run' in
        subst Balanced e (omega (arith, balanced))
  ]
  | inr males ↦
      let (h, e) = join_run s.female_q temp junk id s.whales _ s' (rw males at run) in
      subst Balanced e (omega (arith, balanced))
]

Passes-Balanced : (s s' : Sea) → Balanced s → Passes s s' → Balanced s'
Passes-Balanced s s' balanced (mate_came_to_male a w) = omega (arith, balanced, a, w)
Passes-Balanced s s' balanced (mate_came_to_female a w) = omega (arith, balanced, a, w)
Passes-Balanced s s' balanced (maker_came a w) = omega (arith, balanced, a, w)

whale_init-Balanced : (m f : ℕ) (h : Whales) (s : Sea) → whale_init m f h ≡ done s → Balanced s
unfolding whale_init
whale_init-Balanced m f h s run = elim (Bool-cases (m == null)) [
  | inl e ↦ absurd (fault≢done (rw e at run))
  | inr e ↦ elim (Bool-cases (f == null)) [
    | inl e' ↦ absurd (fault≢done (rw (e, e') at run))
    | inr e' ↦ subst Balanced (done_injective (rw (e, e') at run)) refl
  ]
]

-- If whaleInit returns a state, then in every state that the creation of whales and their passing
-- of semaphores lead to from there at least as many whales wait at a semaphore as there are in the
-- two queues and lines with Mated together: for every pair that has mated a whale more waits than
-- can be matched.
pub Reachable-stuck :
    (m f : ℕ) (h : Whales) (s0 s : Sea)
    → whale_init m f h ≡ done s0
    → Reachable s0 s
    → matings s.lines + s.male + s.female ≤ s.wait_male + s.wait_fem + s.wait_maker
Reachable-stuck m f h s0 s init path = omega (arith, balance s path)
  where
    balance : (s : Sea) → Reachable s0 s → Balanced s
    balance s starts = whale_init-Balanced m f h s0 init
    balance s (steps {s = before} path (male_comes temp junk id run)) =
        create_male-Balanced temp junk id before s (balance before path) run
    balance s (steps {s = before} path (female_comes temp junk id run)) =
        create_female-Balanced temp junk id before s (balance before path) run
    balance s (steps {s = before} path (goes_on step)) =
        Passes-Balanced before s (balance before path) step
