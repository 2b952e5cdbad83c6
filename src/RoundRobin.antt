-- ===== src/RoundRobin.antt =====
-- The threads of Asmt_3/uthread.c and Asmt_3/thread_t.c: a queue, whose head runs.
pub mod Refinement
pub mod Leaving
pub mod Turns
mod Examples
use cs.Prelude.{
  ℕ, zero, suc, ◌+◌, ◌-◌, Bool, true, false, Option, none, some, ◌==◌, if◌then◌else◌, ltb, leb, ℤ,
  pos, ◌-ℤ◌,
}
use cs.Exec.{Exec, done, exit, fault, ◌>>=◌}
use cs.Nodes.{Node, Nodes, load}
use cs.LinkedList.{
  Item, Items, ListT, null, list_init, list_insert_tail, list_remove_head, list_rotate_one,
}

-- `pri` and `id` of `thread_t`.
pub record ThreadT : Type 0 where
  pub pri : ℤ
  pub id : ℕ

abbrev pub Threads : Type 0
Threads = ℕ → Option ThreadT

abbrev pub put_thread : Threads → ℕ → Option ThreadT → Threads
put_thread threads a c b = if a == b then c else threads b

-- `thread_queue` with the list items, `thread_id`, and the threads that the items point to.
pub record System : Type 0 where
  pub items : Items
  pub thread_queue : ListT
  pub threads : Threads
  pub thread_id : ℕ

-- `malloc` is not checked here: a null pointer is dereferenced.
unfoldable pub thread_init : Threads → ℕ → ℤ → ℕ → Exec Threads
thread_init threads t pri id =
    if t == null then fault else done (put_thread threads t (some (record { pri = pri; id = id })))

-- `free` of the thread.
unfoldable pub thread_data_delete : Option ℕ → Threads → Threads
thread_data_delete none threads = threads
thread_data_delete (some t) threads = put_thread threads t none

abbrev pub pri_of : Option ThreadT → ℤ
pri_of none = pos 0
pri_of (some t) = t.pri

unfoldable pub thread_compare_pri : Threads → ℕ → ℕ → ℤ
thread_compare_pri threads t1 t2 = pri_of (threads t1) -ℤ pri_of (threads t2)

-- `new_thread` and `new_item` are what `malloc` returns, here and below.
unfoldable pub uthread_init : ℕ → ℕ → System → Exec System
uthread_init new_thread new_item s = do
  threads ← thread_init s.threads new_thread (pos 0) 0
  (items, queue) ← list_insert_tail new_item new_thread s.items list_init
  done (record { items = items; thread_queue = queue; threads = threads; thread_id = 1 })

unfoldable pub uthread_create : ℕ → ℕ → ℤ → System → Exec (System × ℕ)
uthread_create new_thread new_item pri s = do
  threads ← thread_init s.threads new_thread pri s.thread_id
  (items, queue) ← list_insert_tail new_item new_thread s.items s.thread_queue
  let thread_id = s.thread_id + 1
  done (
    record { items = items; thread_queue = queue; threads = threads; thread_id = thread_id },
    thread_id - 1,
  )

-- The thread that gets the processor, if there is a switch.
unfoldable pub uthread_yield : System → Exec (System × Option ℕ)
uthread_yield s =
    if ltb 1 s.thread_queue.length
    then (do
      cur_head ← load s.items s.thread_queue.head
      (items, queue) ← list_rotate_one s.items s.thread_queue
      new_head ← load items queue.head
      done (record s { items = items; thread_queue = queue }, some new_head.datum.data_ptr))
    else done (s, none)

-- The handler, each time that it is entered: the thread that gets the processor. Its end ends the
-- process.
unfoldable pub uthread_handler : System → Exec (System × ℕ)
uthread_handler s = do
  (items, queue, removed) ← list_remove_head s.items s.thread_queue
  let threads = thread_data_delete removed s.threads
  if leb 1 queue.length
      then (do
        new_head ← load items queue.head
        done (
          record s { items = items; thread_queue = queue; threads = threads },
          new_head.datum.data_ptr,
        ))
      else exit (pos 0)

-- It enters the handler's context.
unfoldable pub uthread_exit : System → Exec (System × ℕ)
uthread_exit s = uthread_handler s
