-- ===== src/Uthread/Mutex/Enqueue.antt =====
-- `uthread_mutex_lock` of Asmt_4/uthread.c: a thread joins the wait queue.
use native.Mathlib.Decide.{ℕ_discrete}
use cs.Prelude.{
  ℕ, ◌+◌, ◌<◌, ◌≡◌, ◌≢◌, refl, sym, ap, subst, ◌∙◌, true, false, none, some, List, [], ◌∷◌, ◌++◌,
  arith, ◌==◌, length, length-append, All, pos, ◌+ℤ◌, pos-add, eqb_ℤ,
}
use cs.Exec.{done}
use cs.Counting.{count, count-append, Distinct, SameItems, length-SameItems}
use cs.Qsort.{Qsort, Ordered}
use cs.Nodes.{Nodes, update, collect}
use cs.Nodes.Chains.{Chain, Chain-update, collect-Chain, count-zero_of_none}
use cs.Nodes.Retie.{last, count-last, Here}
use cs.Nodes.Circle.{All-of_count, Chain-Here}
use cs.Uthread.{Thread, Sched, null}
use cs.Uthread.Mutex.Queue.{
  IsQueue, Joined, wait_record-IsComparison, thread_in-datum, wait_record-datum, queued,
  tie_queue-queued, datum_in-queued, queued-Chain,
}
use cs.Uthread.Mutex.{
  Records, Mutex, uthread_wait_record_init, thread_in, uthread_wait_record_priority_sort, tie_queue,
  entries, enqueue, uthread_mutex_lock,
}

-- The heap with the new record.
abbrev pub with_record : Records → ℕ → ℕ → Records
with_record h fresh me = update h fresh (some (uthread_wait_record_init me))

module _ (threads : Nodes Thread) (h : Records) (m : Mutex) (fresh me : ℕ) where
  longer : (n : ℕ) → m.wait_queue_length ≡ pos n → m.wait_queue_length +ℤ pos 1 ≡ pos (n + 1)
  longer n e = ap (λ z. z +ℤ pos 1) e ∙ pos-add n 1

  abbrev lengthened : Mutex
  lengthened = record m { wait_queue_length = m.wait_queue_length +ℤ pos 1 }

  -- A thread that finds the queue empty has the lock.
  abbrev alone : Mutex
  alone = record lengthened {
    wait_queue_head = fresh;
    wait_queue_tail = fresh;
    locking_thread = me;
  }

  enqueue-alone :
      (qsort : Qsort)
      → m.wait_queue_length ≡ pos 0
      → fresh ≢ null
      → enqueue qsort threads me fresh h m ≡ done (with_record h fresh me, alone)
  unfolding enqueue
  enqueue-alone qsort size real =
      let far : (fresh == null) ≡ false = ground arith in
      let one : eqb_ℤ (m.wait_queue_length +ℤ pos 1) (pos 1) ≡ true =
        ap (λ z. eqb_ℤ z (pos 1)) (longer 0 size) in
      rw (enqueue, far, one) refl

  alone-Joined :
      IsQueue threads h m []
      → fresh ≢ null
      → Joined threads h m [] fresh me (with_record h fresh me) alone
  unfolding uthread_wait_record_init
  alone-Joined queue real = record {
    rs' = fresh ∷ [];
    queue = record {
      chain = (refl, null, ground arith, refl);
      distinct = λ a. ground arith;
      real = ground arith;
      size = longer 0 queue.size;
      sorted = (tt, tt);
      holder = λ filled. (fresh, ground arith, ground arith);
    };
    same = λ a. refl;
    own = ground arith;
    others = λ a ne. ground arith;
    holder = refl;
  }

  -- The others are collected and sorted together with the new record.
  enqueue-several :
      (qsort : Qsort) (r : ℕ) (rs : List ℕ)
      → IsQueue threads h m (r ∷ rs)
      → fresh ≢ null
      → h fresh ≡ none
      → let k = with_record h fresh me in
        enqueue qsort threads me fresh h m
        ≡ tie_queue k
            (qsort.sort (uthread_wait_record_priority_sort threads k) (r ∷ (rs ++ (fresh ∷ []))))
            lengthened
  unfolding enqueue
  enqueue-several qsort r rs queue real free =
      let k = with_record h fresh me in
      let far : (fresh == null) ≡ false = ground arith in
      let len = longer (length (r ∷ rs)) queue.size in
      let more : eqb_ℤ (m.wait_queue_length +ℤ pos 1) (pos 1) ≡ false =
        ap (λ z. eqb_ℤ z (pos 1)) len ∙ ground arith in
      let room : entries (m.wait_queue_length +ℤ pos 1) ≡ length (r ∷ rs) + 1 = ap entries len in
      let out = count-zero_of_none h m.wait_queue_head null fresh (r ∷ rs) queue.chain free in
      let path : Chain k m.wait_queue_head (r ∷ rs) null =
        Chain-update h m.wait_queue_head null fresh _ (r ∷ rs) out queue.chain in
      let got : collect (entries (m.wait_queue_length +ℤ pos 1)) m.wait_queue_head null k
          ≡ done (r ∷ rs) =
        collect-Chain _ k m.wait_queue_head null (r ∷ rs) queue.real (omega (arith, room)) path in
      let full : eqb_ℤ (pos (length (r ∷ (rs ++ (fresh ∷ []))))) (m.wait_queue_length +ℤ pos 1)
          ≡ true =
        ap (λ z. eqb_ℤ (pos (length (r ∷ (rs ++ (fresh ∷ []))))) z) len
        ∙ ground (arith, length-append rs (fresh ∷ [])) in
      rw (enqueue, far, more, got, full) refl

  kept_new : with_record h fresh me fresh ≡ some (record { next = null; datum = me })
  unfolding uthread_wait_record_init
  kept_new = ground arith

  -- A sorted buffer of the queue's records and the new one is the new queue.
  sorted-Joined :
      (rs sorted : List ℕ)
      → IsQueue threads h m rs
      → 0 < length rs
      → fresh ≢ null
      → h fresh ≡ none
      → SameItems sorted (fresh ∷ rs)
      → Ordered (uthread_wait_record_priority_sort threads (with_record h fresh me)) sorted
      → (h' : Records) × (m' : Mutex) × (tie_queue (with_record h fresh me) sorted lengthened
          ≡ done (h', m'))
        × Joined threads h m rs fresh me h' m'
  sorted-Joined rs [] queue several real free same ordered =
      absurd (omega (arith, length-SameItems [] (fresh ∷ rs) same))
  sorted-Joined rs (b ∷ bs) queue several real free same ordered =
      let k = with_record h fresh me in
      let out = count-zero_of_none h m.wait_queue_head null fresh rs queue.chain free in
      let new : k fresh ≡ some (record { next = null; datum = me }) = kept_new in
      let path : Chain k m.wait_queue_head rs null =
        Chain-update h m.wait_queue_head null fresh _ rs out queue.chain in
      let heres : (a : ℕ) → 0 < count a (b ∷ bs) → Here k a = λ a o. elim (ℕ_discrete fresh a) [
        | yes e ↦ subst (Here k) e (_, new)
        | no ne ↦ Chain-Here k m.wait_queue_head null a rs path (ground (arith, o, same a))
      ] in
      let all : All (Here k) (b ∷ bs) = All-of_count {P = Here k} (b ∷ bs) heres in
      let end = heres (last b bs) (count-last b bs) in
      let distinct : Distinct (b ∷ bs) = λ a. ground (arith, same a, queue.distinct a, out) in
      let threads_same : (a : ℕ) → thread_in (queued b bs k a) ≡ thread_in (k a) =
        λ a. thread_in-datum _ _ (datum_in-queued k b bs a) in
      let others : (a : ℕ) → a ≢ fresh → thread_in (queued b bs k a) ≡ thread_in (h a) =
        λ a ne. threads_same a ∙ ground arith in
      let (r, inside, holds) = queue.holder several in
      let apart : r ≢ fresh = λ e. absurd (omega (arith, inside, out, ap (λ a. count a rs) e)) in
      (
        queued b bs k,
        record lengthened { wait_queue_head = b; wait_queue_tail = last b bs },
        tie_queue-queued k b bs lengthened all end,
        record {
          rs' = b ∷ bs;
          queue = record {
            chain = queued-Chain k b bs distinct all end;
            distinct = distinct;
            real = ground (arith, same null, queue.real);
            size =
                longer (length rs) queue.size
                ∙ ap pos (omega (arith, length-SameItems (b ∷ bs) (fresh ∷ rs) same));
            sorted =
                subst (λ f. Ordered f (b ∷ bs))
                  (sym (wait_record-datum threads (queued b bs k) k threads_same)) ordered;
            holder = λ filled. (r, omega (arith, inside, same r), others r apart ∙ holds);
          };
          same = same;
          own = threads_same fresh ∙ ap thread_in new;
          others = others;
          holder = ground arith;
        },
      )

-- A thread joins the queue at its priority; who holds the lock changes only if the queue was empty.
pub enqueue-Joined :
    (qsort : Qsort) (threads : Nodes Thread) (h : Records) (m : Mutex) (fresh me : ℕ) (rs : List ℕ)
    → IsQueue threads h m rs
    → fresh ≢ null
    → h fresh ≡ none
    → (h' : Records) × (m' : Mutex) × (enqueue qsort threads me fresh h m ≡ done (h', m'))
      × Joined threads h m rs fresh me h' m'
enqueue-Joined qsort threads h m fresh me [] queue real free = (
  with_record h fresh me,
  alone threads h m fresh me,
  enqueue-alone threads h m fresh me qsort queue.size real,
  alone-Joined threads h m fresh me queue real,
)
enqueue-Joined qsort threads h m fresh me (r ∷ rs) queue real free =
    let f = uthread_wait_record_priority_sort threads (with_record h fresh me) in
    let buf = r ∷ (rs ++ (fresh ∷ [])) in
    let (h', m', run, joined) =
      sorted-Joined threads h m fresh me (r ∷ rs) (qsort.sort f buf) queue (omega arith) real free
        (λ a. omega (arith, qsort.same f buf a, count-append a rs (fresh ∷ [])))
        (qsort.ordered f buf (wait_record-IsComparison threads (with_record h fresh me))) in
    (h', m', enqueue-several threads h m fresh me qsort r rs queue real free ∙ run, joined)

-- If a wait queue is well formed, the signals can be blocked and restored, and malloc returns an
-- address that is not null and in no use, then the part of uthread_mutex_lock before its loop
-- returns. The queue has a record of the current thread besides the others, ordered by priority.
-- The current thread holds the lock if the queue was empty, and otherwise the lock stays where it
-- was.
pub uthread_mutex_lock-Joined :
    (qsort : Qsort) (s : Sched) (h : Records) (m : Mutex) (fresh : ℕ) (rs : List ℕ)
    → IsQueue s.threads h m rs
    → fresh ≢ null
    → h fresh ≡ none
    → (h' : Records) × (m' : Mutex) × (uthread_mutex_lock qsort true true fresh s h m
        ≡ done (h', m'))
      × Joined s.threads h m rs fresh s.current_thread h' m'
unfolding uthread_mutex_lock
uthread_mutex_lock-Joined qsort s h m fresh rs queue real free =
    let (h', m', run, joined) =
      enqueue-Joined qsort s.threads h m fresh s.current_thread rs queue real free in
    (h', m', rw (uthread_mutex_lock, run) refl, joined)
