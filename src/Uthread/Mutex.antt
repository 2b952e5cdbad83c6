-- ===== src/Uthread/Mutex.antt =====
-- The mutexes of Asmt_4/uthread.c: a queue of wait records, ordered by the priority of the threads.
pub mod Queue
pub mod Enqueue
pub mod Dequeue
pub mod Unlock
pub mod Destroy
pub mod Await
use cs.Prelude.{
  ℕ, zero, suc, ◌+◌, Bool, true, false, not, Option, none, some, List, [], ◌∷◌, ◌++◌, ◌==◌,
  if◌then◌else◌, length, ℤ, pos, negsuc, ltb_ℤ, eqb_ℤ, ◌+ℤ◌, ◌-ℤ◌,
}
use cs.Exec.{Exec, done, exit, fault, out_of_fuel, ◌>>=◌}
use cs.Qsort.{Qsort}
use cs.Nodes.{Node, Nodes, update, load, set_next, collect, retie}
use cs.Nodes.Retie.{last}
use cs.Uthread.{Thread, Sched, null, require, pri_in, uthread_yield}

-- The records of a wait queue: the datum of a node is the waiting thread.
abbrev pub Records : Type 0
Records = Nodes ℕ

pub record Mutex : Type 0 where
  pub locking_thread : ℕ
  pub wait_queue_length : ℤ
  pub wait_queue_head : ℕ
  pub wait_queue_tail : ℕ

unfoldable pub uthread_mutex_init : Mutex → Mutex
uthread_mutex_init lock_var = record {
  locking_thread = null;
  wait_queue_length = pos 0;
  wait_queue_head = null;
  wait_queue_tail = null;
}

-- The contents of a new record.
unfoldable pub uthread_wait_record_init : ℕ → Node ℕ
uthread_wait_record_init current_thread = record { next = null; datum = current_thread }

abbrev pub thread_in : Option (Node ℕ) → ℕ
thread_in none = null
thread_in (some n) = n.datum

abbrev pub pri_at : Nodes Thread → Records → ℕ → ℤ
pri_at threads h a = pri_in (threads (thread_in (h a)))

-- The comparison of records by the priority of their threads.
unfoldable pub uthread_wait_record_priority_sort : Nodes Thread → Records → ℕ → ℕ → ℤ
uthread_wait_record_priority_sort threads h key with =
    if ltb_ℤ (pri_at threads h key) (pri_at threads h with)
    then negsuc 0
    else (if ltb_ℤ (pri_at threads h with) (pri_at threads h key) then pos 1 else pos 0)

-- The sorted buffer becomes the queue; its end is set before the entries are tied.
unfoldable pub tie_queue : Records → List ℕ → Mutex → Exec (Records × Mutex)
tie_queue h [] m = fault
tie_queue h (b ∷ bs) m = do
  h1 ← set_next h (last b bs) null
  h2 ← retie (b ∷ bs) h1
  done (h2, record m { wait_queue_head = b; wait_queue_tail = last b bs })

-- The number of entries of a buffer that is allocated for an `int`.
abbrev pub entries : ℤ → ℕ
entries (pos n) = n
entries (negsuc n) = 0

-- `uthread_mutex_lock` while the signals are blocked. `fresh` is what `malloc` returns.
unfoldable pub enqueue : Qsort → Nodes Thread → ℕ → ℕ → Records → Mutex → Exec (Records × Mutex)
enqueue qsort threads current_thread fresh records lock_var =
    if fresh == null
    then fault
    else (let h = update records fresh (some (uthread_wait_record_init current_thread)) in
        let len = lock_var.wait_queue_length +ℤ pos 1 in
        let m = record lock_var { wait_queue_length = len } in
        if eqb_ℤ len (pos 1)
        then done (
          h,
          record m {
            wait_queue_head = fresh;
            wait_queue_tail = fresh;
            locking_thread = current_thread;
          },
        )
        else (do
          waits ← collect (entries len) m.wait_queue_head null h
          let wait_buf = waits ++ (fresh ∷ [])
          if not (eqb_ℤ (pos (length wait_buf)) len)
              then fault
              else tie_queue h (qsort.sort (uthread_wait_record_priority_sort threads h) wait_buf)
                  m))

-- The loop at the end of `uthread_mutex_lock`, for a thread that has the processor back.
unfoldable pub await : ℕ → Mutex → Sched → Exec Sched
await zero lock_var s = if s.current_thread == lock_var.locking_thread then done s else out_of_fuel
await (suc fuel) lock_var s =
    if s.current_thread == lock_var.locking_thread
    then done s
    else uthread_yield s >>= await fuel lock_var

-- `uthread_mutex_lock`, up to the loop. The flags say whether the calls of `sigprocmask` succeed.
unfoldable pub uthread_mutex_lock :
    Qsort → Bool → Bool → ℕ → Sched → Records → Mutex → Exec (Records × Mutex)
uthread_mutex_lock qsort block_ok restore_ok fresh s records lock_var = require block_ok (do
  r ← enqueue qsort s.threads s.current_thread fresh records lock_var
  require restore_ok (done r))

-- The loop that looks for the record of the locking thread: the record before it, and it.
unfoldable pub find_record : ℕ → ℕ → ℕ → ℕ → Records → Exec (ℕ × ℕ)
find_record zero search_prev_p search_p locking_thread h = out_of_fuel
find_record (suc fuel) search_prev_p search_p locking_thread h = do
  n ← load h search_p
  if n.datum == locking_thread
      then done (search_prev_p, search_p)
      else (if n.next == null
          then exit (negsuc 0)
          else find_record fuel search_p n.next locking_thread h)

-- The record of the locking thread is taken out of a queue of more than one.
unfoldable pub take_record : Records → Mutex → Exec (ℕ × Records × Mutex)
take_record h lock_var = do
  first ← load h lock_var.wait_queue_head
  if first.datum == lock_var.locking_thread
      then done (lock_var.wait_queue_head, h, record lock_var { wait_queue_head = first.next })
      else (do
        (search_prev_p, search_p) ←
            find_record (entries lock_var.wait_queue_length) lock_var.wait_queue_head first.next
              lock_var.locking_thread h
        found ← load h search_p
        h1 ← set_next h search_prev_p found.next
        done (search_p, h1, lock_var))

-- `uthread_mutex_unlock` while the signals are blocked.
unfoldable pub dequeue : Records → Mutex → Exec (ℕ × Records × Mutex)
dequeue h lock_var =
    if eqb_ℤ lock_var.wait_queue_length (pos 1)
    then done (
      lock_var.wait_queue_head,
      h,
      record lock_var { wait_queue_head = null; wait_queue_tail = null },
    )
    else (do
      (old_record, h1, m) ← take_record h lock_var
      head ← load h1 m.wait_queue_head
      done (old_record, h1, record m { locking_thread = head.datum }))

unfoldable pub uthread_mutex_unlock : Bool → Bool → Records → Mutex → Exec (Records × Mutex)
uthread_mutex_unlock block_ok restore_ok records lock_var = require block_ok (do
  (old_record, h, m) ← dequeue records lock_var
  require restore_ok (
      done
        (update h old_record none, record m { wait_queue_length = m.wait_queue_length -ℤ pos 1 })))

-- The loop of `uthread_mutex_destroy`.
unfoldable pub uthread_mutex_destroy : ℕ → Records → Mutex → Exec (Records × Mutex)
uthread_mutex_destroy zero h lock_var =
    if lock_var.wait_queue_head == null then done (h, lock_var) else out_of_fuel
uthread_mutex_destroy (suc fuel) h lock_var =
    if lock_var.wait_queue_head == null then done (h, lock_var) else (do
      n ← load h lock_var.wait_queue_head
      uthread_mutex_destroy fuel (update h lock_var.wait_queue_head none)
          (record lock_var { wait_queue_head = n.next }))
