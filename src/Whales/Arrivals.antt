-- ===== src/Whales/Arrivals.antt =====
-- `create_male` and `create_female` of Asmt_5/whales/whales.c on the queues, next to the two lists.
use cs.Prelude.{
  ℕ, suc, ◌≡◌, ◌≢◌, refl, sym, ap, ◌∙◌, Bool, true, false, none, some, List, [], ◌∷◌, ◌++◌, arith,
  ltb, and_false, length-append,
}
use cs.Exec.{done}
use cs.Nodes.{Node, load}
use cs.Nodes.Circle.{Chain-Here, load-Here}
use cs.Whales.{
  null, Whale, Whales, Sea, Action, male_created, female_created, found_mate, print_line,
  malloc_whale, create_male, create_female, create_whale,
}
use cs.Whales.Queue.{IsQueue, ids, id_in}
use cs.Whales.Taking.{with_whale, malloc_whale-granted}
use cs.Whales.Pods.{
  male_arrives, female_arrives, whale_arrives, male_joins-alone, Pod-ext, view, Holds,
}
use cs.Whales.Matching.{make_match-Holds}
use cs.Whales.Joining.{joined, Joined, enqueue-Joined}

-- The head of a queue can be read.
load-queue :
    (h : Whales) (q : ℕ) (ts : List ℕ)
    → IsQueue h q ts
    → (n : Node Whale) × (load h q ≡ done n) × (h q ≡ some n)
load-queue h q ts is =
    let (n, at) = Chain-Here h q null q (q ∷ ts) is.chain (ground arith) in
    (n, load-Here h q n at, at)

printed :
    (s : Sea) (i : ℕ) (a : Action) {tm tf : List ℕ} → Holds s tm tf → Holds (print_line i a s) tm tf
printed s i a holds = record {
  males = holds.males;
  females = holds.females;
  apart = holds.apart;
  male_count = holds.male_count;
  female_count = holds.female_count;
}

module _ (temp : ℕ) (junk : Node Whale) (id : ℕ) (real : temp ≢ null) where
  -- What the functions do to the queue of a male, or of a female.
  male_joined :
      (s : Sea) (tm tf : List ℕ)
      → Holds s tm tf
      → s.whales temp ≡ none
      → Joined s.whales s.male_q s.female_q tm tf temp junk id
  male_joined s tm tf holds free =
      enqueue-Joined s.whales s.male_q s.female_q tm tf temp junk id holds.males holds.females
        holds.apart real free

  female_joined :
      (s : Sea) (tm tf : List ℕ)
      → Holds s tm tf
      → s.whales temp ≡ none
      → Joined s.whales s.female_q s.male_q tf tm temp junk id
  female_joined s tm tf holds free =
      enqueue-Joined s.whales s.female_q s.male_q tf tm temp junk id holds.females holds.males
        (λ a. omega (arith, holds.apart a)) real free

  granted : (s : Sea) → malloc_whale temp junk id s.whales ≡ done (with_whale s.whales temp junk id)
  granted s = malloc_whale-granted s.whales temp junk id real

  -- The states after a male has found a mate, or waits alone.
  abbrev male_found : Sea → List ℕ → ℕ → Sea
  male_found s tm f =
      record (print_line f found_mate (print_line id found_mate (print_line id male_created s))) {
        whales = joined s.whales s.male_q s.female_q tm [] temp junk id;
        male = suc s.male;
        male_avail = suc s.male_avail;
        wait_maker = suc s.wait_maker;
      }

  abbrev male_alone : Sea → List ℕ → Sea
  male_alone s tm = record (print_line id male_created s) {
    whales = joined s.whales s.male_q s.female_q tm [] temp junk id;
    male = suc s.male;
    male_avail = suc s.male_avail;
    wait_fem = suc s.wait_fem;
  }

  create_male-Holds :
      (s : Sea) (tm tf : List ℕ)
      → Holds s tm tf
      → s.whales temp ≡ none
      → (s' : Sea) × (tm' : List ℕ) × (tf' : List ℕ) × (create_male temp junk id s ≡ done s')
        × Holds s' tm' tf'
        × (view s' tm' tf' ≡ male_arrives id (view s tm tf))
  unfolding create_male
  create_male-Holds s (m ∷ ms) (f ∷ fs) holds free =
      let t = print_line id male_created s in
      let males : ltb 0 s.male ≡ true = ground (arith, holds.male_count) in
      let females : ltb 0 s.female ≡ true = ground (arith, holds.female_count) in
      let (s', run, holds', seen) =
        make_match-Holds t m f ms fs (printed s id male_created holds) id in
      (s', ms, fs, rw (create_male, males, females) run, holds', seen)
  create_male-Holds s [] (f ∷ fs) holds free =
      let males : ltb 0 s.male ≡ false = ground (arith, holds.male_count) in
      let females : ltb 0 s.female ≡ true = ground (arith, holds.female_count) in
      let j = male_joined s [] (f ∷ fs) holds free in
      let (n, ld, at) = load-queue s.whales s.female_q (f ∷ fs) holds.females in
      (
        male_found s [] n.datum.id,
        temp ∷ [],
        f ∷ fs,
        rw (create_male, males, females, ld, granted s, j.run) refl,
        record {
          males = j.queue;
          females = j.other;
          apart = j.apart;
          male_count = ap suc holds.male_count;
          female_count = holds.female_count;
        },
        Pod-ext j.queue_ids j.other_ids (
            ap (λ c. (id_in c, found_mate) ∷ (id, found_mate) ∷ (id, male_created) ∷ s.lines)
              (sym at)),
      )
  create_male-Holds s tm [] holds free =
      let females : ltb 0 s.female ≡ false = ground (arith, holds.female_count) in
      let j = male_joined s tm [] holds free in
      (
        male_alone s tm,
        tm ++ (temp ∷ []),
        [],
        rw (create_male, females, and_false (ltb 0 s.male), granted s, j.run) refl,
        record {
          males = j.queue;
          females = j.other;
          apart = j.apart;
          male_count = omega (arith, holds.male_count, length-append tm (temp ∷ []));
          female_count = holds.female_count;
        },
        Pod-ext j.queue_ids j.other_ids refl
            ∙ sym (male_joins-alone id _ _ (ids s.whales tm) ((id, male_created) ∷ s.lines)),
      )

  abbrev female_found : Sea → List ℕ → ℕ → Sea
  female_found s tf m =
      record (print_line id found_mate (print_line m found_mate (print_line id female_created s))) {
        whales = joined s.whales s.female_q s.male_q tf [] temp junk id;
        female = suc s.female;
        fem_avail = suc s.fem_avail;
        wait_maker = suc s.wait_maker;
      }

  abbrev female_alone : Sea → List ℕ → Sea
  female_alone s tf = record (print_line id female_created s) {
    whales = joined s.whales s.female_q s.male_q tf [] temp junk id;
    female = suc s.female;
    fem_avail = suc s.fem_avail;
    wait_male = suc s.wait_male;
  }

  create_female-Holds :
      (s : Sea) (tm tf : List ℕ)
      → Holds s tm tf
      → s.whales temp ≡ none
      → (s' : Sea) × (tm' : List ℕ) × (tf' : List ℕ) × (create_female temp junk id s ≡ done s')
        × Holds s' tm' tf'
        × (view s' tm' tf' ≡ female_arrives id (view s tm tf))
  unfolding create_female
  create_female-Holds s (m ∷ ms) (f ∷ fs) holds free =
      let t = print_line id female_created s in
      let males : ltb 0 s.male ≡ true = ground (arith, holds.male_count) in
      let females : ltb 0 s.female ≡ true = ground (arith, holds.female_count) in
      let (s', run, holds', seen) =
        make_match-Holds t m f ms fs (printed s id female_created holds) id in
      (s', ms, fs, rw (create_female, males, females) run, holds', seen)
  create_female-Holds s (m ∷ ms) [] holds free =
      let males : ltb 0 s.male ≡ true = ground (arith, holds.male_count) in
      let females : ltb 0 s.female ≡ false = ground (arith, holds.female_count) in
      let j = female_joined s (m ∷ ms) [] holds free in
      let (n, ld, at) = load-queue s.whales s.male_q (m ∷ ms) holds.males in
      (
        female_found s [] n.datum.id,
        m ∷ ms,
        temp ∷ [],
        rw (create_female, males, females, ld, granted s, j.run) refl,
        record {
          males = j.other;
          females = j.queue;
          apart = λ a. omega (arith, j.apart a);
          male_count = holds.male_count;
          female_count = ap suc holds.female_count;
        },
        Pod-ext j.other_ids j.queue_ids (
            ap (λ c. (id, found_mate) ∷ (id_in c, found_mate) ∷ (id, female_created) ∷ s.lines)
              (sym at)),
      )
  create_female-Holds s [] tf holds free =
      let males : ltb 0 s.male ≡ false = ground (arith, holds.male_count) in
      let j = female_joined s [] tf holds free in
      (
        female_alone s tf,
        [],
        tf ++ (temp ∷ []),
        rw (create_female, males, granted s, j.run) refl,
        record {
          males = j.other;
          females = j.queue;
          apart = λ a. omega (arith, j.apart a);
          male_count = holds.male_count;
          female_count = omega (arith, holds.female_count, length-append tf (temp ∷ []));
        },
        Pod-ext j.other_ids j.queue_ids refl,
      )

  -- If the two queues of whales.c are well formed and have no node in common, the counters say how
  -- many whales wait in them, and malloc returns an address that is not null and in no use, then
  -- create_whale runs up to its first sem_wait without a fault. The queues are well formed again,
  -- and they, the counters and the printed lines are those of two plain lists: a whale that finds
  -- one of the other sex and none of its own joins and prints its own number and that of the whale
  -- that left the other queue last, a whale that finds both takes the first two off, any other
  -- joins.
  pub create_whale-Holds :
      (is_male : Bool) (s : Sea) (tm tf : List ℕ)
      → Holds s tm tf
      → s.whales temp ≡ none
      → (s' : Sea) × (tm' : List ℕ) × (tf' : List ℕ) × (create_whale is_male temp junk id s
          ≡ done s')
        × Holds s' tm' tf'
        × (view s' tm' tf' ≡ whale_arrives is_male id (view s tm tf))
  unfolding create_whale
  create_whale-Holds true s tm tf holds free = create_male-Holds s tm tf holds free
  create_whale-Holds false s tm tf holds free = create_female-Holds s tm tf holds free
