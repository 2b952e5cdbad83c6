-- ===== src/Uthread/Mutex/Unlock.antt =====
-- `uthread_mutex_unlock` of Asmt_4/uthread.c, wherever the record stands in the queue.
use native.Mathlib.Decide.{ℕ_discrete}
use cs.Prelude.{
  ℕ, ◌+◌, ◌<◌, ◌≡◌, ◌≢◌, refl, sym, ap, subst, ◌∙◌, true, false, none, some, List, [], ◌∷◌, ◌++◌,
  arith, ◌==◌, length, length-append, All, pos, ◌-ℤ◌, eqb_ℤ,
}
use cs.Exec.{done}
use cs.Counting.{count, count-append, count-one, SameItems, length-SameItems}
use cs.Qsort.Orders.{Ordered-remove}
use cs.Nodes.{Node, Nodes, update, relink, load, next_in}
use cs.Nodes.Chains.{Chain}
use cs.Nodes.Retie.{last, count-last, Here, set_next-relink}
use cs.Nodes.Circle.{Chain-Here, load-Here}
use cs.Nodes.Removal.{Chain-unlink}
use cs.Uthread.{Thread, null}
use cs.Uthread.Mutex.{
  Records, Mutex, thread_in, uthread_wait_record_priority_sort, entries, find_record, take_record,
  dequeue, uthread_mutex_unlock,
}
use cs.Uthread.Mutex.Dequeue.{
  first-split, find_record-first, Released, thread_in-freed, Ordered-threads, shorter, unlock-last,
  unlock-first,
}
use cs.Uthread.Mutex.Queue.{IsQueue}

-- The thread of a record stays when a record is relinked.
load-relink :
    (h : Records) (p n a : ℕ)
    → Here h a
    → (k : Node ℕ) × (load (relink h p n) a ≡ done k) × (k.datum ≡ thread_in (h a))
load-relink h p n a (k, at) = elim (ℕ_discrete p a) [
  | yes e ↦
      let at_p : h p ≡ some k = ap h e ∙ at in
      (record k { next = n }, ground (arith, at_p), sym (ap thread_in at))
  | no other ↦ (k, ground (arith, at), sym (ap thread_in at))
]

module _ (threads : Nodes Thread) (h : Records) (m : Mutex) (t c : ℕ) (ws ys : List ℕ) where
  -- The state after the record `c`, which `n` follows, has left.
  abbrev unlinked : ℕ → Records
  unlinked n = update (relink h (last t ws) n) c none

  abbrev handed_over : Mutex
  handed_over = record m {
    wait_queue_length = m.wait_queue_length -ℤ pos 1;
    locking_thread = thread_in (h t);
  }

  unlock-inner :
      IsQueue threads h m (t ∷ (ws ++ (c ∷ ys)))
      → thread_in (h t) ≢ m.locking_thread
      → All (λ u. thread_in (h u) ≢ m.locking_thread) ws
      → thread_in (h c) ≡ m.locking_thread
      → (n : ℕ) × (next_in (h c) ≡ some n)
        × (uthread_mutex_unlock true true h m ≡ done (unlinked n, handed_over))
  unfolding uthread_mutex_unlock dequeue take_record
  unlock-inner queue top all held =
      let rs = t ∷ (ws ++ (c ∷ ys)) in
      let head = m.wait_queue_head in
      let size : length rs ≡ 2 + length ws + length ys = omega (arith, length-append ws (c ∷ ys)) in
      let several : eqb_ℤ m.wait_queue_length (pos 1) ≡ false =
        ap (λ z. eqb_ℤ z (pos 1)) queue.size ∙ ground (arith, size) in
      let room : entries m.wait_queue_length ≡ length rs = ap entries queue.size in
      let (n, at) = Chain-Here h head null t rs queue.chain (ground arith) in
      let in_c : 0 < count c rs = omega (arith, count-append c (t ∷ ws) (c ∷ ys), count-one c) in
      let (nc, at_c) = Chain-Here h head null c rs queue.chain in_c in
      let ld : load h head ≡ done n = load-Here h head n (ap h queue.chain.0 ∙ at) in
      let ld_c = load-Here h c nc at_c in
      let miss : (n.datum == m.locking_thread) ≡ false = ground (arith, ap thread_in at, top) in
      let to : queue.chain.1 ≡ n.next = ground (arith, at, queue.chain.2) in
      let rest : Chain h n.next (ws ++ (c ∷ ys)) null =
        subst (λ a. Chain h a (ws ++ (c ∷ ys)) null) to queue.chain.3 in
      let find : find_record (entries m.wait_queue_length) head n.next m.locking_thread h
          ≡ done (last head ws, c) =
        find_record-first (entries m.wait_queue_length) head n.next m.locking_thread c ws ys h rest
          (omega (arith, queue.real)) all held (omega (arith, room, size)) in
      let in_p : 0 < count (last t ws) rs =
        omega (arith, count-last t ws, count-append (last t ws) (t ∷ ws) (c ∷ ys)) in
      let move =
        set_next-relink h (last t ws) nc.next
          (Chain-Here h head null (last t ws) rs queue.chain in_p) in
      let (k, ld_k, e_k) = load-relink h (last t ws) nc.next t (n, at) in
      (
        nc.next,
        ap next_in at_c,
        rw (uthread_mutex_unlock, several, ld, miss, find, ld_c, queue.chain.0, move, ld_k, e_k)
            refl,
      )

  unlinked-Released :
      (n : ℕ)
      → next_in (h c) ≡ some n
      → IsQueue threads h m (t ∷ (ws ++ (c ∷ ys)))
      → thread_in (h c) ≡ m.locking_thread
      → Released threads h m (t ∷ (ws ++ (c ∷ ys))) (unlinked n) handed_over
  unlinked-Released n at queue held =
      let rs' = t ∷ (ws ++ ys) in
      let same : SameItems (c ∷ rs') (t ∷ (ws ++ (c ∷ ys))) =
        λ a. omega (arith, count-append a ws ys, count-append a ws (c ∷ ys)) in
      let gone : count c rs' ≡ 0 = ground (arith, same c, queue.distinct c) in
      let others : (a : ℕ) → a ≢ c → thread_in (unlinked n a) ≡ thread_in (h a) =
        thread_in-freed h (last t ws) n c in
      let kept : (a : ℕ) → 0 < count a rs' → thread_in (unlinked n a) ≡ thread_in (h a) =
        λ a i. others a (λ e. absurd (omega (arith, i, gone, ap (λ b. count b rs') e))) in
      let path : Chain h t (t ∷ (ws ++ (c ∷ ys))) null =
        (refl, queue.chain.1, queue.chain.2, queue.chain.3) in
      record {
        r = c;
        rs' = rs';
        queue = record {
          chain =
              subst (λ a. Chain (unlinked n) a rs' null) (sym queue.chain.0)
                (Chain-unlink h t c n null ws ys queue.distinct path at);
          distinct = λ a. omega (arith, same a, queue.distinct a);
          real = omega (arith, same null, queue.real);
          size = shorter threads h m (length rs') (
              queue.size
              ∙ ap pos (omega (arith, length-SameItems (c ∷ rs') (t ∷ (ws ++ (c ∷ ys))) same)));
          sorted = Ordered-threads threads h (unlinked n) rs' kept (
              Ordered-remove (uthread_wait_record_priority_sort threads h) c (t ∷ ws) ys
                queue.sorted);
          holder = λ filled. (t, ground arith, kept t (ground arith));
        };
        same = same;
        held = held;
        freed = ground arith;
        others = others;
        next = λ b bs e. ap (λ a. thread_in (h a)) (ground (arith, e));
      }

-- If a wait queue is well formed and not empty and the signals can be blocked and restored, then
-- uthread_mutex_unlock returns. The record of the locking thread, wherever it stands, leaves the
-- queue and is freed, the others stay in order, and the thread of the first of them holds the
-- lock.
pub uthread_mutex_unlock-Released :
    (threads : Nodes Thread) (h : Records) (m : Mutex) (rs : List ℕ)
    → IsQueue threads h m rs
    → 0 < length rs
    → (h' : Records) × (m' : Mutex) × (uthread_mutex_unlock true true h m ≡ done (h', m'))
      × Released threads h m rs h' m'
uthread_mutex_unlock-Released threads h m [] queue some_record = absurd (omega (arith, some_record))
uthread_mutex_unlock-Released threads h m (r ∷ []) queue some_record =
    let (run, released) = unlock-last threads h m r queue in (_, _, run, released)
uthread_mutex_unlock-Released threads h m (r ∷ q ∷ qs) queue some_record =
    let (a, inside, holds) = queue.holder some_record in
    let (us, c, ys, split, all, found) =
      first-split h m.locking_thread a (r ∷ q ∷ qs) inside holds in
    pick us c ys split all found
  where
    pick :
        (us : List ℕ) (c : ℕ) (ys : List ℕ)
        → r ∷ q ∷ qs ≡ us ++ (c ∷ ys)
        → All (λ u. thread_in (h u) ≢ m.locking_thread) us
        → thread_in (h c) ≡ m.locking_thread
        → (h' : Records) × (m' : Mutex) × (uthread_mutex_unlock true true h m ≡ done (h', m'))
          × Released threads h m (r ∷ q ∷ qs) h' m'
    pick [] c ys split all found =
        let e : r ≡ c = ground (arith, split) in
        let (run, released) =
          unlock-first threads h m r q qs queue (ap (λ b. thread_in (h b)) e ∙ found) in
        (_, _, run, released)
    pick (t ∷ ws) c ys split all found =
        let queue' = subst (IsQueue threads h m) split queue in
        let (n, at, run) = unlock-inner threads h m t c ws ys queue' all.0 all.1 found in
        (
          unlinked threads h m t c ws ys n,
          handed_over threads h m t c ws ys,
          run,
          subst
              (λ zs.
                Released threads h m zs (unlinked threads h m t c ws ys n)
                  (handed_over threads h m t c ws ys))
              (sym split) (unlinked-Released threads h m t c ws ys n at queue' found),
        )
