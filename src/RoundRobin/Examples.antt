-- ===== src/RoundRobin/Examples.antt =====
-- Tests of the model of Asmt_3/uthread.c, and its theorems at a few threads.
use cs.Prelude.{ℕ, ◌≡◌, refl, Option, none, some, [], ◌∷◌, arith, pos}
use cs.Exec.{done}
use cs.Nodes.{Node, update}
use cs.LinkedList.{Item, ListT, Items, list_init, list_visit_items}
use cs.LinkedList.Forward.{IsList}
use cs.RoundRobin.{System, put_thread, uthread_create, uthread_exit}
use cs.RoundRobin.Refinement.{Holds, uthread_create-Holds}
use cs.RoundRobin.Leaving.{uthread_exit-Holds}

abbrev blank : System
blank = record { items = λ a. none; thread_queue = list_init; threads = λ a. none; thread_id = 0 }

abbrev item : ℕ → ℕ → ℕ → Option (Node Item)
item next prev v = some (record { next = next; datum = record { prev = prev; data_ptr = v } })

-- The items 1 and 2, for the threads 10 and 20.
abbrev pair : Items
pair = update (update (λ a. none) 1 (item 2 0 10)) 2 (item 0 1 20)

abbrev pair_list : ListT
pair_list = record { head = 1; tail = 2; length = 2 }

pair-IsList : IsList pair pair_list (1 ∷ 2 ∷ [])
pair-IsList = record {
  chain = (refl, 2, refl, (refl, 0, refl, refl));
  distinct = λ a. ground arith;
  real = refl;
  size = refl;
  end = refl;
}

abbrev pair_system : System
pair_system = record { items = pair; thread_queue = pair_list; threads = λ a. none; thread_id = 2 }

pair-Holds : Holds pair_system (10 ∷ 20 ∷ [])
pair-Holds = record { ts = 1 ∷ 2 ∷ []; list = pair-IsList; held = refl; bound = omega arith }

visited : list_visit_items 2 1 pair ≡ done (1 ∷ 2 ∷ [])
unfolding list_visit_items
visited = refl

uthread_create-Holds_example :
    (s' : System) × (uthread_create 30 3 (pos 5) pair_system ≡ done (s', 2))
    × Holds s' (10 ∷ 20 ∷ 30 ∷ [])
    × (s'.threads ≡ put_thread (λ a. none) 30 (some (record { pri = pos 5; id = 2 })))
uthread_create-Holds_example =
    uthread_create-Holds 30 3 (pos 5) pair_system (10 ∷ 20 ∷ []) pair-Holds (omega arith)
      (omega arith) refl (omega arith)

uthread_exit-Holds_example :
    (s' : System) × (uthread_exit pair_system ≡ done (s', 20))
    × Holds s' (20 ∷ [])
    × (s'.threads ≡ put_thread (λ a. none) 10 none)
uthread_exit-Holds_example = uthread_exit-Holds pair_system 10 20 [] pair-Holds

abbrev single_system : System
single_system = record {
  items = update (λ a. none) 2 (item 0 1 20);
  thread_queue = record { head = 2; tail = 2; length = 1 };
  threads = λ a. none;
  thread_id = 2;
}

single-Holds : Holds single_system (20 ∷ [])
single-Holds = record {
  ts = 2 ∷ [];
  list = record {
    chain = (refl, 0, refl, refl);
    distinct = λ a. ground arith;
    real = refl;
    size = refl;
    end = refl;
  };
  held = refl;
  bound = omega arith;
}

-- Items compared by the numbers that they hold.
