-- ===== src/RoundRobin/Refinement.antt =====
-- The threads of Asmt_3/uthread.c as a plain queue, which the list on the heap implements.
use cs.Prelude.{
  ℕ, suc, ◌+◌, ◌-◌, ◌^◌, ◌<◌, ◌≡◌, ◌≢◌, refl, sym, ap, ◌∙◌, true, false, none, some, List, [], ◌∷◌,
  ◌++◌, arith, ◌==◌, ltb, length, length-append, ℤ, pos,
}
use cs.Exec.{done}
use cs.Nodes.{Node, load}
use cs.Nodes.Circle.{Chain-Here, load-Here}
use cs.LinkedList.{Items, ListT, null, list_init}
use cs.LinkedList.Forward.{IsList, data_in, contents}
use cs.LinkedList.Ends.{list_insert_tail-IsList}
use cs.LinkedList.Rotate.{rotated, list_rotate_one-IsList}
use cs.RoundRobin.{put_thread, System, thread_init, uthread_init, uthread_create, uthread_yield}

-- The abstract state: the threads in the queue, the one that runs first.
pub record Holds (s : System) (queue : List ℕ) : Type 0 where
  pub ts : List ℕ
  pub list : IsList s.items s.thread_queue ts
  pub held : contents s.items ts ≡ queue
  pub bound : length ts < 2 ^ 32

pub length-contents : (h : Items) (ts : List ℕ) → length (contents h ts) ≡ length ts
length-contents h [] = refl
length-contents h (t ∷ ts) = ap suc (length-contents h ts)

-- The head of the list can be read.
pub load-head :
    (h : Items) (l : ListT) (t : ℕ) (ts : List ℕ)
    → IsList h l (t ∷ ts)
    → (n : Node _) × (load h l.head ≡ done n) × (n.datum.data_ptr ≡ data_in (h t))
load-head h l t ts is =
    let (n, at) = Chain-Here h l.head null t (t ∷ ts) is.chain (ground arith) in
    (n, load-Here h l.head n (ap h is.chain.0 ∙ at), sym (ap data_in at))

length-rotated : (ts : List ℕ) → length (rotated ts) ≡ length ts
length-rotated [] = refl
length-rotated (t ∷ ts) = omega (arith, length-append ts (t ∷ []))

-- If the queue of threads is well formed and shorter than 2 ^ 32 - 1, and malloc returns addresses
-- that are not null, that of the item in no use, then uthread_create returns the next number, and
-- the threads in the queue are those before and the new one at the end, with its priority and
-- number.
pub uthread_create-Holds :
    (new_thread new_item : ℕ) (pri : ℤ) (s : System) (queue : List ℕ)
    → Holds s queue
    → new_thread ≢ null
    → new_item ≢ null
    → s.items new_item ≡ none
    → length queue + 1 < 2 ^ 32
    → (s' : System) × (uthread_create new_thread new_item pri s ≡ done (s', s.thread_id))
      × Holds s' (queue ++ (new_thread ∷ []))
      × (s'.threads
          ≡ put_thread s.threads new_thread (some (record { pri = pri; id = s.thread_id })))
unfolding uthread_create thread_init
uthread_create-Holds new_thread new_item pri s queue holds real real_item free small =
    let far : (new_thread == null) ≡ false = ground arith in
    let size : length holds.ts ≡ length queue =
      sym (length-contents s.items holds.ts) ∙ ap length holds.held in
    let (items, l, run, is, held) =
      list_insert_tail-IsList s.items s.thread_queue new_item new_thread holds.ts holds.list
        real_item free (omega (arith, small, size)) in
    let number : s.thread_id + 1 - 1 ≡ s.thread_id = omega arith in
    (
      record {
        items = items;
        thread_queue = l;
        threads = put_thread s.threads new_thread (some (record { pri = pri; id = s.thread_id }));
        thread_id = s.thread_id + 1;
      },
      rw (uthread_create, far, run, number) refl,
      record {
        ts = holds.ts ++ (new_item ∷ []);
        list = is;
        held = held ∙ ap (λ q. q ++ (new_thread ∷ [])) holds.held;
        bound = omega (arith, small, size, length-append holds.ts (new_item ∷ []));
      },
      refl,
    )

-- A thread that yields goes to the end of the queue, and the next one runs.
pub uthread_yield-Holds :
    (s : System) (d e : ℕ) (queue : List ℕ)
    → Holds s (d ∷ e ∷ queue)
    → (s' : System) × (uthread_yield s ≡ done (s', some e)) × Holds s' (e ∷ (queue ++ (d ∷ [])))
unfolding uthread_yield
uthread_yield-Holds s d e queue holds = go holds.ts holds.list holds.held holds.bound
  where
    go :
        (ts : List ℕ)
        → IsList s.items s.thread_queue ts
        → contents s.items ts ≡ d ∷ e ∷ queue
        → length ts < 2 ^ 32
        → (s' : System) × (uthread_yield s ≡ done (s', some e)) × Holds s' (e ∷ (queue ++ (d ∷ [])))
    go [] is held bound = absurd (ground (arith, ap length held))
    go (t ∷ []) is held bound = absurd (ground (arith, ap length held))
    go (t ∷ u ∷ us) is held bound =
        let (items, l, run, is', held') =
          list_rotate_one-IsList s.items s.thread_queue (t ∷ u ∷ us) is in
        let (n, ld, e_n) = load-head s.items s.thread_queue t (u ∷ us) is in
        let (n', ld', e_n') = load-head items l u (us ++ (t ∷ [])) is' in
        let more : ltb 1 s.thread_queue.length ≡ true = ground (arith, is.size) in
        let queue' : contents items (u ∷ (us ++ (t ∷ []))) ≡ e ∷ (queue ++ (d ∷ [])) =
          held' ∙ ap rotated held in
        let runs : n'.datum.data_ptr ≡ e = e_n' ∙ ground (arith, queue') in
        (
          record s { items = items; thread_queue = l },
          rw (uthread_yield, more, ld, run, ld', runs) refl,
          record {
            ts = u ∷ (us ++ (t ∷ []));
            list = is';
            held = queue';
            bound = omega (arith, bound, length-append us (t ∷ []));
          },
        )

-- If malloc returns addresses that are not null, that of the item in no use, then uthread_init
-- returns, and the queue holds the calling thread alone, with priority 0 and number 0.
pub uthread_init-Holds :
    (new_thread new_item : ℕ) (s : System)
    → new_thread ≢ null
    → new_item ≢ null
    → s.items new_item ≡ none
    → (s' : System) × (uthread_init new_thread new_item s ≡ done s')
      × Holds s' (new_thread ∷ [])
      × (s'.threads ≡ put_thread s.threads new_thread (some (record { pri = pos 0; id = 0 })))
unfolding uthread_init thread_init list_init
uthread_init-Holds new_thread new_item s real real_item free =
    let far : (new_thread == null) ≡ false = ground arith in
    let empty : IsList s.items list_init [] = record {
      chain = refl;
      distinct = λ a. omega arith;
      real = refl;
      size = refl;
      end = tt;
    } in
    let (items, l, run, is, held) =
      list_insert_tail-IsList s.items list_init new_item new_thread [] empty real_item free
        (omega arith) in
    (
      record {
        items = items;
        thread_queue = l;
        threads = put_thread s.threads new_thread (some (record { pri = pos 0; id = 0 }));
        thread_id = 1;
      },
      rw (uthread_init, far, run) refl,
      record { ts = new_item ∷ []; list = is; held = held; bound = omega arith },
      refl,
    )
