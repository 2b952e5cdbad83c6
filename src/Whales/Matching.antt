-- ===== src/Whales/Matching.antt =====
-- The matchmaker of Asmt_5/whales/whales.c.
use cs.Prelude.{ℕ, suc, ◌-◌, ◌≡◌, ◌≢◌, refl, ◌∙◌, true, false, List, ◌∷◌, arith, ◌==◌}
use cs.Exec.{done}
use cs.Nodes.{Node, load}
use cs.Nodes.Circle.{Chain-Here, load-Here}
use cs.Nodes.Retie.{last}
use cs.Whales.{
  null, Whale, Whales, Sea, mated, became_matchmaker, print_line, both_queued, take_pair,
  make_match,
}
use cs.Whales.Queue.{IsQueue, IsQueue-agree, ids, ids-agree, retailed, id_in-retailed}
use cs.Whales.Taking.{dequeue-taken, taken-IsQueue}
use cs.Whales.Pods.{match_up, view, Holds}

-- A queue with a whale behind its head.
load-head :
    (h : Whales) (q t : ℕ) (ts : List ℕ)
    → IsQueue h q (t ∷ ts)
    → (n : Node Whale) × (load h q ≡ done n) × ((n.next == null) ≡ false)
load-head h q t ts is =
    let (n, at) = Chain-Here h q null q (q ∷ t ∷ ts) is.chain (ground arith) in
    let to : n.next ≡ t = ground (arith, at, is.chain.2, is.chain.3.0) in
    let real : t ≢ null = λ e. absurd (ground (arith, is.real, e)) in
    (n, load-Here h q n at, ground (arith, to, real))

both_queued-true :
    (s : Sea) (m f : ℕ) (ms fs : List ℕ)
    → IsQueue s.whales s.male_q (m ∷ ms)
    → IsQueue s.whales s.female_q (f ∷ fs)
    → both_queued s ≡ done true
unfolding both_queued
both_queued-true s m f ms fs males females =
    let (n, at, far) = load-head s.whales s.male_q m ms males in
    let (n', at', far') = load-head s.whales s.female_q f fs females in
    rw (both_queued, at, far, at', far') refl

module _ (s : Sea) (m f : ℕ) (ms fs : List ℕ) (holds : Holds s (m ∷ ms) (f ∷ fs)) where
  abbrev one : Whales
  one = retailed s.whales m (last m ms)

  abbrev two : Whales
  two = retailed one f (last f fs)

  females_in_one : IsQueue one s.female_q (f ∷ fs)
  females_in_one =
      IsQueue-agree s.whales one s.female_q (f ∷ fs)
        (λ a i.
          let far : m ≢ a = λ e. absurd (ground (arith, holds.apart a, i, e)) in
          ground (arith, far))
        holds.females

  abbrev matched : ℕ → Sea
  matched id = record (print_line id mated (print_line id became_matchmaker s)) {
    whales = two;
    male_q = m;
    female_q = f;
    male = s.male - 1;
    female = s.female - 1;
    maker_avail = suc s.maker_avail;
    returned = suc s.returned;
  }

  make_match-matched : (id : ℕ) → make_match id s ≡ done (matched id)
  unfolding make_match take_pair
  make_match-matched id =
      rw
        (
          make_match,
          both_queued-true s m f ms fs holds.males holds.females,
          take_pair,
          dequeue-taken s.whales s.male_q m ms holds.males,
          dequeue-taken one s.female_q f fs females_in_one,
        )
        refl

  matched-Holds : (id : ℕ) → Holds (matched id) ms fs
  matched-Holds id = record {
    males =
        IsQueue-agree one two m ms
          (λ a i.
            let far : f ≢ a = λ e. absurd (ground (arith, holds.apart a, i, e)) in
            ground (arith, far))
          (taken-IsQueue s.whales s.male_q m ms holds.males);
    females = taken-IsQueue one s.female_q f fs females_in_one;
    apart = λ a. omega (arith, holds.apart a);
    male_count = omega (arith, holds.male_count);
    female_count = omega (arith, holds.female_count);
  }

  kept : (ts : List ℕ) → ids two ts ≡ ids s.whales ts
  kept ts =
      ids-agree s.whales two ts
        (λ a i. id_in-retailed one f (last f fs) a ∙ id_in-retailed s.whales m (last m ms) a)

  pub make_match-Holds :
      (id : ℕ)
      → (s' : Sea) × (make_match id s ≡ done s')
        × Holds s' ms fs
        × (view s' ms fs ≡ match_up id (view s (m ∷ ms) (f ∷ fs)))
  make_match-Holds id =
      (matched id, make_match-matched id, matched-Holds id, rw (kept (m ∷ ms), kept (f ∷ fs)) refl)
