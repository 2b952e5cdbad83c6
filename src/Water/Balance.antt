-- ===== src/Water/Balance.antt =====
-- How many atoms of Asmt_5/h2o/h2o_sem.cpp become water.
use cs.Prelude.{
  ℕ, zero, suc, ◌+◌, ◌/◌, ◌≤◌, ◌≡◌, ◌≢◌, refl, Bool, true, false, min, arith, ◌⊎◌, inl, inr,
}
use cs.Water.{
  Atoms, create_h, create_o, create_atom, Moves, first_waits, first_prints, second_waits,
  second_posts_h2, second_posts_both, second_prints, posts_o, waits_o, prints_o, creates, moves,
  Reachable, starts, steps,
}

-- The second H that have got an O.
abbrev pub pairs : Atoms → ℕ
pairs s = s.h_second_posts_h2 + s.h_second_posts_both + s.h_second_prints + s.water_second

pub record Balanced (s : Atoms) : Type 0 where
  pub firsts : s.h_first_waits + s.h_first_prints + s.water_first + s.num_h / 2 ≡ s.num_h
  pub seconds : s.h_second_waits + pairs s ≡ s.num_h / 2
  pub oxygen : s.o_avail + s.o_posts + pairs s ≡ s.created_o
  pub posted_h2 : s.h2_avail + s.h_first_prints + s.water_first + s.h_second_posts_h2 ≡ pairs s
  pub posted_both :
      s.h_both_avail + s.o_prints + s.water_o + s.h_second_posts_h2 + s.h_second_posts_both
      ≡ pairs s
  pub each_o : s.o_posts + s.o_waits + s.o_prints + s.water_o ≡ s.created_o

create_h-Balanced : (s : Atoms) → Balanced s → Balanced (create_h s)
unfolding create_h
create_h-Balanced s b = record {
  firsts = ground (arith, b.firsts, b.seconds);
  seconds = ground (arith, b.firsts, b.seconds);
  oxygen = ground (arith, b.oxygen);
  posted_h2 = ground (arith, b.posted_h2);
  posted_both = ground (arith, b.posted_both);
  each_o = ground (arith, b.each_o);
}

create_o-Balanced : (s : Atoms) → Balanced s → Balanced (create_o s)
unfolding create_o
create_o-Balanced s b = record {
  firsts = b.firsts;
  seconds = b.seconds;
  oxygen = omega (arith, b.oxygen);
  posted_h2 = b.posted_h2;
  posted_both = b.posted_both;
  each_o = omega (arith, b.each_o);
}

create_atom-Balanced : (is_h : Bool) (s : Atoms) → Balanced s → Balanced (create_atom is_h s)
unfolding create_atom
create_atom-Balanced true s b = create_h-Balanced s b
create_atom-Balanced false s b = create_o-Balanced s b

Moves-Balanced : (s s' : Atoms) → Balanced s → Moves s s' → Balanced s'
Moves-Balanced s s' b (first_waits a e) = record {
  firsts = omega (arith, b.firsts, a, e);
  seconds = omega (arith, b.seconds, a, e);
  oxygen = omega (arith, b.oxygen, a, e);
  posted_h2 = omega (arith, b.posted_h2, a, e);
  posted_both = omega (arith, b.posted_both, a, e);
  each_o = omega (arith, b.each_o, a, e);
}
Moves-Balanced s s' b (first_prints a) = record {
  firsts = omega (arith, b.firsts, a);
  seconds = omega (arith, b.seconds, a);
  oxygen = omega (arith, b.oxygen, a);
  posted_h2 = omega (arith, b.posted_h2, a);
  posted_both = omega (arith, b.posted_both, a);
  each_o = omega (arith, b.each_o, a);
}
Moves-Balanced s s' b (second_waits a e) = record {
  firsts = omega (arith, b.firsts, a, e);
  seconds = omega (arith, b.seconds, a, e);
  oxygen = omega (arith, b.oxygen, a, e);
  posted_h2 = omega (arith, b.posted_h2, a, e);
  posted_both = omega (arith, b.posted_both, a, e);
  each_o = omega (arith, b.each_o, a, e);
}
Moves-Balanced s s' b (second_posts_h2 a) = record {
  firsts = omega (arith, b.firsts, a);
  seconds = omega (arith, b.seconds, a);
  oxygen = omega (arith, b.oxygen, a);
  posted_h2 = omega (arith, b.posted_h2, a);
  posted_both = omega (arith, b.posted_both, a);
  each_o = omega (arith, b.each_o, a);
}
Moves-Balanced s s' b (second_posts_both a) = record {
  firsts = omega (arith, b.firsts, a);
  seconds = omega (arith, b.seconds, a);
  oxygen = omega (arith, b.oxygen, a);
  posted_h2 = omega (arith, b.posted_h2, a);
  posted_both = omega (arith, b.posted_both, a);
  each_o = omega (arith, b.each_o, a);
}
Moves-Balanced s s' b (second_prints a) = record {
  firsts = omega (arith, b.firsts, a);
  seconds = omega (arith, b.seconds, a);
  oxygen = omega (arith, b.oxygen, a);
  posted_h2 = omega (arith, b.posted_h2, a);
  posted_both = omega (arith, b.posted_both, a);
  each_o = omega (arith, b.each_o, a);
}
Moves-Balanced s s' b (posts_o a) = record {
  firsts = omega (arith, b.firsts, a);
  seconds = omega (arith, b.seconds, a);
  oxygen = omega (arith, b.oxygen, a);
  posted_h2 = omega (arith, b.posted_h2, a);
  posted_both = omega (arith, b.posted_both, a);
  each_o = omega (arith, b.each_o, a);
}
Moves-Balanced s s' b (waits_o a e) = record {
  firsts = omega (arith, b.firsts, a, e);
  seconds = omega (arith, b.seconds, a, e);
  oxygen = omega (arith, b.oxygen, a, e);
  posted_h2 = omega (arith, b.posted_h2, a, e);
  posted_both = omega (arith, b.posted_both, a, e);
  each_o = omega (arith, b.each_o, a, e);
}
Moves-Balanced s s' b (prints_o a) = record {
  firsts = omega (arith, b.firsts, a);
  seconds = omega (arith, b.seconds, a);
  oxygen = omega (arith, b.oxygen, a);
  posted_h2 = omega (arith, b.posted_h2, a);
  posted_both = omega (arith, b.posted_both, a);
  each_o = omega (arith, b.each_o, a);
}

Reachable-Balanced : (s : Atoms) → Reachable s → Balanced s
Reachable-Balanced s starts = record {
  firsts = refl;
  seconds = refl;
  oxygen = refl;
  posted_h2 = refl;
  posted_both = refl;
  each_o = refl;
}
Reachable-Balanced s (steps {s = before} path (creates true)) =
    create_atom-Balanced true before (Reachable-Balanced before path)
Reachable-Balanced s (steps {s = before} path (creates false)) =
    create_atom-Balanced false before (Reachable-Balanced before path)
Reachable-Balanced s (steps {s = before} path (moves move)) =
    Moves-Balanced before s (Reachable-Balanced before path) move

-- In every state that the atoms of h2o_sem.cpp lead to, no more O, no more first H and no more
-- second H have become water than there are O, and than there are pairs of H.
pub water-bounds :
    (s : Atoms)
    → Reachable s
    → (s.water_o ≤ min s.created_o (s.num_h / 2))
      × (s.water_first ≤ min s.created_o (s.num_h / 2))
      × (s.water_second ≤ min s.created_o (s.num_h / 2))
water-bounds s path =
    let b = Reachable-Balanced s path in
    let h = b.seconds in
    let o = b.oxygen in
    (omega (arith, h, o, b.posted_both), omega (arith, h, o, b.posted_h2), omega (arith, h, o))

-- A kind of thread that cannot move is not there.
none_left : (n : ℕ) → ((k : ℕ) → n ≢ suc k) → n ≡ 0
none_left zero stuck = refl
none_left (suc n) stuck = absurd (stuck n refl)

waits_or : (n m : ℕ) → ((k l : ℕ) → n ≡ suc k → m ≢ suc l) → (n ≡ 0) ⊎ (m ≡ 0)
waits_or zero m stuck = inl refl
waits_or (suc n) zero stuck = inr refl
waits_or (suc n) (suc m) stuck = absurd (stuck n m refl refl)

-- In every state that the atoms of h2o_sem.cpp lead to in which no thread can move, as many O have
-- become water, as many H that came first and as many that came second, as there are O or pairs of
-- H, whichever are fewer.
pub settled-water :
    (s : Atoms)
    → Reachable s
    → ((s' : Atoms) → ¬ Moves s s')
    → (s.water_o ≡ min s.created_o (s.num_h / 2))
      × (s.water_first ≡ min s.created_o (s.num_h / 2))
      × (s.water_second ≡ min s.created_o (s.num_h / 2))
settled-water s path settled =
    let b = Reachable-Balanced s path in
    let fp = none_left s.h_first_prints (λ k e. settled _ (first_prints e)) in
    let sh = none_left s.h_second_posts_h2 (λ k e. settled _ (second_posts_h2 e)) in
    let sb = none_left s.h_second_posts_both (λ k e. settled _ (second_posts_both e)) in
    let sp = none_left s.h_second_prints (λ k e. settled _ (second_prints e)) in
    let op = none_left s.o_posts (λ k e. settled _ (posts_o e)) in
    let ow = none_left s.o_prints (λ k e. settled _ (prints_o e)) in
    let first = waits_or s.h_first_waits s.h2_avail (λ k l e f. settled _ (first_waits e f)) in
    let second = waits_or s.h_second_waits s.o_avail (λ k l e f. settled _ (second_waits e f)) in
    let oxygen = waits_or s.o_waits s.h_both_avail (λ k l e f. settled _ (waits_o e f)) in
    (
      omega (
        arith, b.seconds, b.oxygen, b.posted_both, b.each_o, fp, sh, sb, sp, op, ow, second, oxygen,
      ),
      omega (
        arith, b.firsts, b.seconds, b.oxygen, b.posted_h2, fp, sh, sb, sp, op, ow, first, second,
      ),
      omega (arith, b.seconds, b.oxygen, fp, sh, sb, sp, op, ow, second),
    )
