-- ===== src/Uthread/Examples.antt =====
-- Tests of the model of Asmt_4/uthread.c, and its theorems at a few threads.
use cs.Prelude.{ℕ, ◌≡◌, refl, true, ◌⊎◌, none, some, [], ◌∷◌, arith, ℤ, pos}
use cs.Exec.{done, fault}
use cs.Qsort.Insertion.{insertion}
use cs.Nodes.{Node, update}
use cs.Uthread.{
  Thread, Sched, Sys, uthread_priority_sort, uthread_init, uthread_create, uthread_yield,
  uthread_exit,
}
use cs.Uthread.Ring.{IsRing}
use cs.Uthread.Create.{Created, uthread_create-Created}
use cs.Uthread.Leave.{Left}
use cs.Uthread.Life.{uthread_exit-Left, uthread_create-fault}
use cs.Uthread.Steps.{
  boot, creates, inits, steps, IsSolo, IsCrowd, uthread_init-IsSolo, Reachable-IsHealthy,
}
use cs.Uthread.Mutex.{
  Records, Mutex, uthread_wait_record_priority_sort, uthread_mutex_lock, uthread_mutex_unlock,
}
use cs.Uthread.Mutex.Queue.{IsQueue, Joined}
use cs.Uthread.Mutex.Enqueue.{uthread_mutex_lock-Joined}
use cs.Uthread.Mutex.Dequeue.{Released}
use cs.Uthread.Mutex.Unlock.{uthread_mutex_unlock-Released}

abbrev all_ok : Sys
all_ok = record {
  getcontext_ok = true;
  cleanup_ok = true;
  setitimer_ok = true;
  sigaction_ok = true;
}

abbrev thread_node : ℕ → ℤ → Node Thread
thread_node n p = record { next = n; datum = record { pri = p; stack = 0 } }

-- The main thread at address 1, alone.
abbrev one : Sched
one = record boot {
  threads = update (λ a. none) 1 (some (thread_node 1 (pos 9)));
  current_thread = 1;
  tail_thread = 1;
  live_uthreads = 1;
}

-- A thread of priority 3 at address 2 before the main thread, which runs.
abbrev two : Sched
two = record {
  threads =
      update (update (λ a. none) 1 (some (thread_node 2 (pos 9)))) 2 (some (thread_node 1 (pos 3)));
  current_thread = 1;
  tail_thread = 1;
  head_thread = 2;
  uthread_id = 1;
  live_uthreads = 2;
}

-- The thread has left.
abbrev back : Sched
back = record one { head_thread = 1; uthread_id = 1; live_uthreads = 2 }

init_one : uthread_init all_ok 1 boot ≡ done one
unfolding uthread_init
init_one = refl

one-IsSolo : IsSolo one
one-IsSolo = uthread_init-IsSolo all_ok 1 one init_one

two-IsRing : IsRing two 2 (1 ∷ [])
unfolding uthread_priority_sort
two-IsRing = record {
  head = refl;
  tail = refl;
  chain = (refl, 1, refl, (refl, 2, refl, refl));
  distinct = λ a. ground arith;
  running = omega arith;
  sorted = ((omega arith, tt), (tt, tt));
}

back-IsRing : IsRing back 1 []
back-IsRing = record {
  head = refl;
  tail = refl;
  chain = (refl, 1, refl, refl);
  distinct = λ a. ground arith;
  running = omega arith;
  sorted = (tt, tt);
}

-- Main yields to the thread at once; the thread does not yield to main.
two_yields : uthread_yield two ≡ done (record two { current_thread = 2 })
unfolding uthread_yield
two_yields = refl

two_stays :
    uthread_yield (record two { current_thread = 2 }) ≡ done (record two { current_thread = 2 })
unfolding uthread_yield
two_stays = refl

uthread_create-Created_example :
    (s' : Sched) × (uthread_create insertion true 2 7 100 (pos 3) one ≡ done (s', 1))
    × Created one 2 (pos 3) [] s'
uthread_create-Created_example =
    uthread_create-Created insertion 2 7 100 (pos 3) one [] one-IsSolo.cycle refl (omega arith) refl

uthread_exit-Left_example : (s' : Sched) × (uthread_exit two ≡ done s') × Left two 2 (1 ∷ []) s'
uthread_exit-Left_example = uthread_exit-Left two 2 1 [] two-IsRing (omega arith)

uthread_create-fault_example : uthread_create insertion true 2 7 100 (pos 3) back ≡ fault
uthread_create-fault_example =
    uthread_create-fault insertion 2 7 100 (pos 3) back []
      (record { chain = back-IsRing.chain; distinct = back-IsRing.distinct }) (omega arith)
      (omega arith) refl

-- The state after the first `uthread_create`.
one_more :
    (s' : Sched) × (uthread_create insertion true 2 7 100 (pos 3) one ≡ done (s', 1))
    × Created one 2 (pos 3) [] s'
one_more =
    uthread_create-Created insertion 2 7 100 (pos 3) one [] one-IsSolo.cycle refl (omega arith) refl

Reachable-IsHealthy_example : IsSolo one_more.0 ⊎ IsCrowd one_more.0
Reachable-IsHealthy_example =
    Reachable-IsHealthy insertion one_more.0
      (steps (inits all_ok 1 init_one) (creates 2 7 100 1 (pos 3) (omega arith) refl one_more.1))

-- A record of the main thread at address 5, which holds the lock.
abbrev queue : Records
queue = update (λ a. none) 5 (some (record { next = 0; datum = 1 }))

abbrev locked : Mutex
locked = record {
  locking_thread = 1;
  wait_queue_length = pos 1;
  wait_queue_head = 5;
  wait_queue_tail = 5;
}

abbrev preempting : Sched
preempting = record two { current_thread = 2 }

queue-IsQueue : IsQueue two.threads queue locked (5 ∷ [])
queue-IsQueue = record {
  chain = (refl, 0, refl, refl);
  distinct = λ a. ground arith;
  real = refl;
  size = refl;
  sorted = (tt, tt);
  holder = λ filled. (5, omega arith, refl);
}

uthread_mutex_lock-Joined_example :
    (h' : Records) × (m' : Mutex) × (uthread_mutex_lock insertion true true 6 preempting queue
        locked
      ≡ done (h', m'))
    × Joined two.threads queue locked (5 ∷ []) 6 2 h' m'
uthread_mutex_lock-Joined_example =
    uthread_mutex_lock-Joined insertion preempting queue locked 6 (5 ∷ []) queue-IsQueue
      (omega arith) refl

-- The record of thread 2 stands before it.
abbrev two_records : Records
two_records =
    update (update (λ a. none) 5 (some (record { next = 0; datum = 1 }))) 6
      (some (record { next = 5; datum = 2 }))

abbrev contended : Mutex
contended = record {
  locking_thread = 1;
  wait_queue_length = pos 2;
  wait_queue_head = 6;
  wait_queue_tail = 5;
}

two_records-IsQueue : IsQueue two.threads two_records contended (6 ∷ 5 ∷ [])
unfolding uthread_wait_record_priority_sort
two_records-IsQueue = record {
  chain = (refl, 5, refl, (refl, 0, refl, refl));
  distinct = λ a. ground arith;
  real = refl;
  size = refl;
  sorted = ((omega arith, tt), (tt, tt));
  holder = λ filled. (5, omega arith, refl);
}

uthread_mutex_unlock-Released_example :
    (h' : Records) × (m' : Mutex) × (uthread_mutex_unlock true true two_records contended
      ≡ done (h', m'))
    × Released two.threads two_records contended (6 ∷ 5 ∷ []) h' m'
uthread_mutex_unlock-Released_example =
    uthread_mutex_unlock-Released two.threads two_records contended (6 ∷ 5 ∷ []) two_records-IsQueue
      (omega arith)
