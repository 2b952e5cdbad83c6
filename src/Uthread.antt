-- ===== src/Uthread.antt =====
-- The scheduler of Asmt_4/uthread.c: threads in a circle, ordered by priority.
pub mod Ring
pub mod Create
pub mod Yield
pub mod Leave
pub mod Life
pub mod Steps
pub mod Mutex
mod Examples
use cs.Prelude.{
  ℕ, zero, suc, ◌+◌, Bool, true, false, not, Option, none, some, List, [], ◌∷◌, ◌++◌, ◌==◌,
  if◌then◌else◌, length, ℤ, pos, negsuc, ltb_ℤ,
}
use cs.Exec.{Exec, done, exit, fault, out_of_fuel, ◌>>=◌}
use cs.Qsort.{Qsort}
use cs.Nodes.{Node, Nodes, update, load, set_next, collect, retie}
use cs.Nodes.Retie.{last}

-- `pri` and `stack` of `uthread_t`; `next` is the node's.
pub record Thread : Type 0 where
  pub pri : ℤ
  pub stack : ℕ

-- The static variables. `live_uthreads` counts the calls that have made a thread.
pub record Sched : Type 0 where
  pub threads : Nodes Thread
  pub current_thread : ℕ
  pub tail_thread : ℕ
  pub head_thread : ℕ
  pub uthread_id : ℕ
  pub live_uthreads : ℕ

-- What the system calls of `uthread_init` answer.
pub record Sys : Type 0 where
  pub getcontext_ok : Bool
  pub cleanup_ok : Bool
  pub setitimer_ok : Bool
  pub sigaction_ok : Bool

-- `exit (-1)` unless the call has succeeded.
abbrev pub require {ℓ} : {A : Type ℓ} → Bool → Exec A → Exec A
require ok e = if ok then e else exit (negsuc 0)

abbrev pub null : ℕ
null = 0

-- The calling thread becomes the only one. `fresh` is what `malloc` returns.
unfoldable pub uthread_init : Sys → ℕ → Sched → Exec Sched
uthread_init sys fresh s =
    if not (s.current_thread == null)
    then done s
    else (if fresh == null
        then fault
        else require sys.getcontext_ok (
            require sys.cleanup_ok (
              require sys.setitimer_ok (
                require sys.sigaction_ok (
                  done (record s {
                    threads = update s.threads fresh (
                        some
                          (record { next = fresh; datum = record { pri = pos 9; stack = null } }));
                    current_thread = fresh;
                    tail_thread = fresh;
                    live_uthreads = s.live_uthreads + 1;
                  }))))))

abbrev pub pri_in : Option (Node Thread) → ℤ
pri_in none = pos 0
pri_in (some n) = n.datum.pri

-- The comparison by priority that `qsort` is given.
unfoldable pub uthread_priority_sort : Nodes Thread → ℕ → ℕ → ℤ
uthread_priority_sort h key with =
    if ltb_ℤ (pri_in (h key)) (pri_in (h with))
    then negsuc 0
    else (if ltb_ℤ (pri_in (h with)) (pri_in (h key)) then pos 1 else pos 0)

-- The end of `uthread_create`: the sorted buffer is tied into a circle, and the circle is checked.
unfoldable pub tie_circle : Nodes Thread → List ℕ → Sched → Exec Sched
tie_circle h [] s = fault
tie_circle h (b ∷ bs) s = do
  h1 ← retie (b ∷ bs) h
  h2 ← set_next h1 (last b bs) b
  t ← load h2 (last b bs)
  if t.next == b
      then done (record s { threads = h2; head_thread = b; tail_thread = last b bs })
      else fault

-- A new thread. `fresh` and `stack` are what `malloc` returns, `junk` what it leaves in `next`. The
-- buffer has an entry for each live thread; it is a fault if one of them was never written, or if
-- there are too few.
unfoldable pub uthread_create : Qsort → Bool → ℕ → ℕ → ℕ → ℤ → Sched → Exec (Sched × ℕ)
uthread_create qsort getcontext_ok fresh junk stack pri s =
    if fresh == null
    then fault
    else require getcontext_ok (do
      let h =
          update s.threads fresh
            (some (record { next = junk; datum = record { pri = pri; stack = stack } }))
      let live = s.live_uthreads + 1
      t ← load h s.current_thread
      others ← collect live t.next s.current_thread h
      let thread_buf = others ++ (s.current_thread ∷ fresh ∷ [])
      if not (length thread_buf == live) then fault else do
        s' ←
            tie_circle h (qsort.sort (uthread_priority_sort h) thread_buf)
              (record s { live_uthreads = live; uthread_id = s.uthread_id + 1 })
        done (s', s.uthread_id + 1))

-- The state in which the next thread runs; the same state if the caller goes on.
unfoldable pub uthread_yield : Sched → Exec Sched
uthread_yield s = do
  old ← load s.threads s.current_thread
  if s.current_thread == old.next then done s else do
    next ← load s.threads old.next
    if ltb_ℤ old.datum.pri next.datum.pri
        then (if s.current_thread == s.head_thread
            then done s
            else done (record s { current_thread = s.head_thread }))
        else done (record s { current_thread = old.next })

-- The signal handler of the timer.
unfoldable pub uthread_yield_handler : ℕ → Sched → Exec Sched
uthread_yield_handler signum s = uthread_yield s

-- The loop for the thread before `old_thread`.
unfoldable pub find_prev : ℕ → ℕ → ℕ → Nodes Thread → Exec ℕ
find_prev zero prev_thread old_thread h = out_of_fuel
find_prev (suc fuel) prev_thread old_thread h = do
  n ← load h prev_thread
  if n.next == old_thread then done prev_thread else find_prev fuel n.next old_thread h

-- The part of `uthread_exit` that chooses the next thread and unties the current one.
unfoldable pub unlink_current : Sched → Exec Sched
unlink_current s = do
  old ← load s.threads s.current_thread
  if s.current_thread == s.head_thread
      then (do
        h ← set_next s.threads s.tail_thread old.next
        done (record s { threads = h; current_thread = old.next; head_thread = old.next }))
      else (do
        prev_thread ← find_prev s.live_uthreads s.head_thread s.current_thread s.threads
        next ← load s.threads old.next
        if ltb_ℤ old.datum.pri next.datum.pri
            then (do
              h ← set_next s.threads prev_thread old.next
              done (record s { threads = h; current_thread = s.head_thread }))
            else (if s.current_thread == s.tail_thread
                then (do
                  h ← set_next s.threads prev_thread s.head_thread
                  done (record s {
                    threads = h;
                    tail_thread = prev_thread;
                    current_thread = s.head_thread;
                  }))
                else (do
                  h ← set_next s.threads prev_thread old.next
                  done (record s { threads = h; current_thread = old.next }))))

-- `free_stack`, on the context of its own: the retired thread is freed. If it is still the current one
-- it was the last, and the process ends.
unfoldable pub free_stack : ℕ → Sched → Exec Sched
free_stack retired_thread s =
    let s' = record s { threads = update s.threads retired_thread none } in
    if retired_thread == s.current_thread then exit (pos 0) else done s'

unfoldable pub uthread_exit : Sched → Exec Sched
uthread_exit s = do s' ← unlink_current s; free_stack s.current_thread s'
