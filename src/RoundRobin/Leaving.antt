-- ===== src/RoundRobin/Leaving.antt =====
-- `uthread_exit` of Asmt_3/uthread.c on the plain queue of threads.
use cs.Prelude.{
  ℕ, ◌^◌, ◌<◌, ◌≡◌, refl, sym, ap, ◌∙◌, true, false, none, some, List, [], ◌∷◌, arith, leb, length,
  pos,
}
use cs.Exec.{done, exit}
use cs.LinkedList.{Items, ListT, list_remove_head}
use cs.LinkedList.Forward.{IsList, data_in, contents}
use cs.LinkedList.Ends.{list_remove_head-IsList}
use cs.RoundRobin.{put_thread, System, thread_data_delete, uthread_handler, uthread_exit}
use cs.RoundRobin.Refinement.{Holds, length-contents, load-head}

-- The list after the handler has removed its head.
removal :
    (s : System) (d : ℕ) (queue : List ℕ)
    → Holds s (d ∷ queue)
    → (t : ℕ) × (ts : List ℕ) × (items : Items) × (l : ListT) × (list_remove_head s.items
          s.thread_queue
        ≡ done (items, l, some d))
      × IsList items l ts
      × (contents items ts ≡ queue)
      × (length ts < 2 ^ 32)
removal s d queue holds = go holds.ts holds.list holds.held holds.bound
  where
    go :
        (ts : List ℕ)
        → IsList s.items s.thread_queue ts
        → contents s.items ts ≡ d ∷ queue
        → length ts < 2 ^ 32
        → (t : ℕ) × (ts : List ℕ) × (items : Items) × (l : ListT) × (list_remove_head s.items
              s.thread_queue
            ≡ done (items, l, some d))
          × IsList items l ts
          × (contents items ts ≡ queue)
          × (length ts < 2 ^ 32)
    go [] is held bound = absurd (ground (arith, ap length held))
    go (t ∷ ts) is held bound =
        let (items, l, run, is', kept, gone) =
          list_remove_head-IsList s.items s.thread_queue t ts is (omega (arith, bound)) in
        let first : data_in (s.items t) ≡ d = ground (arith, held) in
        (
          t,
          ts,
          items,
          l,
          run ∙ ap (λ a. done (items, l, some a)) first,
          is',
          kept ∙ ground (arith, held),
          omega (arith, bound),
        )

-- If the queue of threads is well formed and has at least two, then uthread_exit takes the first
-- one off, frees it, and gives the processor to the next one.
pub uthread_exit-Holds :
    (s : System) (d e : ℕ) (queue : List ℕ)
    → Holds s (d ∷ e ∷ queue)
    → (s' : System) × (uthread_exit s ≡ done (s', e))
      × Holds s' (e ∷ queue)
      × (s'.threads ≡ put_thread s.threads d none)
unfolding uthread_exit uthread_handler thread_data_delete
uthread_exit-Holds s d e queue holds =
    let (t, ts, items, l, run, is, held, bound) = removal s d (e ∷ queue) holds in
    next ts items l run is held bound
  where
    next :
        (ts : List ℕ) (items : Items) (l : ListT)
        → list_remove_head s.items s.thread_queue ≡ done (items, l, some d)
        → IsList items l ts
        → contents items ts ≡ e ∷ queue
        → length ts < 2 ^ 32
        → (s' : System) × (uthread_exit s ≡ done (s', e))
          × Holds s' (e ∷ queue)
          × (s'.threads ≡ put_thread s.threads d none)
    next [] items l run is held bound = absurd (ground (arith, ap length held))
    next (u ∷ us) items l run is held bound =
        let (n, ld, e_n) = load-head items l u us is in
        let some_left : leb 1 l.length ≡ true = ground (arith, is.size) in
        let runs : n.datum.data_ptr ≡ e = e_n ∙ ground (arith, held) in
        (
          record s { items = items; thread_queue = l; threads = put_thread s.threads d none },
          rw (uthread_exit, run, some_left, ld, runs) refl,
          record { ts = u ∷ us; list = is; held = held; bound = bound },
          refl,
        )

-- If the only thread of a well-formed queue calls uthread_exit, the process ends.
pub uthread_exit-last_thread :
    (s : System) (d : ℕ) → Holds s (d ∷ []) → uthread_exit s ≡ exit (pos 0)
unfolding uthread_exit uthread_handler thread_data_delete
uthread_exit-last_thread s d holds =
    let (t, ts, items, l, run, is, held, bound) = removal s d [] holds in
    let none_left : leb 1 l.length ≡ false =
      ground (arith, is.size, sym (length-contents items ts) ∙ ap length held) in
    rw (uthread_exit, run, none_left) refl
