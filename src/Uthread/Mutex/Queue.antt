-- ===== src/Uthread/Mutex/Queue.antt =====
-- The wait queue of a mutex, and how a thread joins it.
use mathlib.Core.Path.{fun_ext}
use cs.Prelude.{
  ℕ, ◌<◌, ◌≡◌, ◌≢◌, refl, ◌∙◌, Option, none, some, List, ◌∷◌, arith, ◌==◌, if◌then◌else◌, length,
  All, pos,
}
use cs.Exec.{done}
use cs.Counting.{count, Distinct, SameItems}
use cs.Qsort.{IsComparison, Ordered}
use cs.Qsort.Orders.{by_key, by_key-IsComparison}
use cs.Nodes.{Node, Nodes, relink, datum_in}
use cs.Nodes.Chains.{Chain}
use cs.Nodes.Retie.{
  last, Here, All-Here-relink, set_next-relink, retie-tied, tied, tied-Chain, datum_in-tied,
}
use cs.Uthread.{Thread, null}
use cs.Uthread.Mutex.{
  Records, Mutex, thread_in, pri_at, uthread_wait_record_priority_sort, tie_queue,
}

-- The records `rs`, in the order of their threads' priorities. If there is one, one is the record of
-- the locking thread. The tail pointer is not part of it: nothing reads what it points to.
pub record IsQueue (threads : Nodes Thread) (h : Records) (m : Mutex) (rs : List ℕ) : Type 0 where
  pub chain : Chain h m.wait_queue_head rs null
  pub distinct : Distinct rs
  pub real : count null rs ≡ 0
  pub size : m.wait_queue_length ≡ pos (length rs)
  pub sorted : Ordered (uthread_wait_record_priority_sort threads h) rs
  pub holder : 0 < length rs → (r : ℕ) × (0 < count r rs) × (thread_in (h r) ≡ m.locking_thread)

pub wait_record-IsComparison :
    (threads : Nodes Thread) (h : Records)
    → IsComparison (uthread_wait_record_priority_sort threads h)
unfolding uthread_wait_record_priority_sort by_key
wait_record-IsComparison threads h = by_key-IsComparison (pri_at threads h)

pub thread_in-datum : (c d : Option (Node ℕ)) → datum_in c ≡ datum_in d → thread_in c ≡ thread_in d
thread_in-datum none none e = refl
thread_in-datum none (some n) e = absurd (ground (arith, e))
thread_in-datum (some m) none e = absurd (ground (arith, e))
thread_in-datum (some m) (some n) e = ground (arith, e)

-- The order does not depend on the `next` pointers.
pub wait_record-datum :
    (threads : Nodes Thread) (h k : Records)
    → ((a : ℕ) → thread_in (h a) ≡ thread_in (k a))
    → uthread_wait_record_priority_sort threads h ≡ uthread_wait_record_priority_sort threads k
unfolding uthread_wait_record_priority_sort
wait_record-datum threads h k same = fun_ext (λ a. fun_ext (λ b. rw (same a, same b) refl))

-- The records once the sorted buffer is tied.
abbrev pub queued : ℕ → List ℕ → Records → Records
queued b bs h = tied b bs (relink h (last b bs) null)

pub tie_queue-queued :
    (h : Records) (b : ℕ) (bs : List ℕ) (m : Mutex)
    → All (Here h) (b ∷ bs)
    → Here h (last b bs)
    → tie_queue h (b ∷ bs) m
      ≡ done (queued b bs h, record m { wait_queue_head = b; wait_queue_tail = last b bs })
unfolding tie_queue
tie_queue-queued h b bs m all end =
    rw
      (
        tie_queue,
        set_next-relink h (last b bs) null end,
        retie-tied b bs (relink h (last b bs) null)
            (All-Here-relink h (last b bs) null (b ∷ bs) all),
      )
      refl

pub datum_in-queued :
    (h : Records) (b : ℕ) (bs : List ℕ) (a : ℕ) → datum_in (queued b bs h a) ≡ datum_in (h a)
datum_in-queued h b bs a = datum_in-tied b bs (relink h (last b bs) null) a ∙ ground arith

pub queued-Chain :
    (h : Records) (b : ℕ) (bs : List ℕ)
    → Distinct (b ∷ bs)
    → All (Here h) (b ∷ bs)
    → Here h (last b bs)
    → Chain (queued b bs h) b (b ∷ bs) null
queued-Chain h b bs d all (n, at) =
    tied-Chain b bs (relink h (last b bs) null) null d
      (All-Here-relink h (last b bs) null (b ∷ bs) all) (ground (arith, at))

-- How a queue looks after the thread `me` has joined with the record `fresh`.
pub record Joined (threads : Nodes Thread) (h : Records) (m : Mutex) (rs : List ℕ) (fresh me : ℕ)
    (h' : Records) (m' : Mutex) : Type 0 where
  pub rs' : List ℕ
  pub queue : IsQueue threads h' m' rs'
  pub same : SameItems rs' (fresh ∷ rs)
  pub own : thread_in (h' fresh) ≡ me
  pub others : (a : ℕ) → a ≢ fresh → thread_in (h' a) ≡ thread_in (h a)
  pub holder : m'.locking_thread ≡ (if length rs == 0 then me else m.locking_thread)
