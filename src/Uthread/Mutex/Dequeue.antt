-- ===== src/Uthread/Mutex/Dequeue.antt =====
-- `uthread_mutex_unlock` of Asmt_4/uthread.c: the record of the locking thread leaves the queue.
use native.Mathlib.Decide.{ℕ_discrete}
use cs.Prelude.{
  ℕ, zero, suc, ◌<◌, ◌≡◌, ◌≢◌, refl, sym, ap, subst, ◌∙◌, true, false, Option, none, some, List, [],
  ◌∷◌, ◌++◌, arith, ◌==◌, length, All, pos, ◌-ℤ◌, pos-sub, eqb_ℤ,
}
use cs.Exec.{done}
use cs.Counting.{count, SameItems}
use cs.Qsort.{Ordered}
use cs.Qsort.Orders.{Ordered-agree}
use cs.Nodes.{Node, Nodes, update, relink, with_next, load}
use cs.Nodes.Chains.{Chain, Chain-update}
use cs.Nodes.Retie.{last}
use cs.Nodes.Circle.{Chain-Here, load-Here}
use cs.Uthread.{Thread, null}
use cs.Uthread.Mutex.{
  Records, Mutex, thread_in, uthread_wait_record_priority_sort, find_record, take_record, dequeue,
  uthread_mutex_unlock,
}
use cs.Uthread.Mutex.Queue.{IsQueue}

-- The first record with a given thread.
pub first-split :
    (h : Records) (thread r : ℕ) (rs : List ℕ)
    → 0 < count r rs
    → thread_in (h r) ≡ thread
    → (us : List ℕ) × (c : ℕ) × (ys : List ℕ) × (rs ≡ us ++ (c ∷ ys))
      × All (λ u. thread_in (h u) ≢ thread) us
      × (thread_in (h c) ≡ thread)
first-split h thread r [] inside e = absurd (omega arith)
first-split h thread r (x ∷ rs) inside e = elim (ℕ_discrete (thread_in (h x)) thread) [
  | yes same ↦ ([], x, rs, refl, tt, same)
  | no other ↦
      let apart : r ≢ x = λ eq. other (subst (λ a. thread_in (h a) ≡ thread) eq e) in
      let (us, c, ys, split, all, found) = first-split h thread r rs (ground arith) e in
      (x ∷ us, c, ys, ap (λ zs. x ∷ zs) split, (other, all), found)
]

-- The loop finds it, and the record before it.
pub find_record-first :
    (fuel prev p thread c : ℕ) (us ys : List ℕ) (h : Records)
    → Chain h p (us ++ (c ∷ ys)) null
    → count null (us ++ (c ∷ ys)) ≡ 0
    → All (λ u. thread_in (h u) ≢ thread) us
    → thread_in (h c) ≡ thread
    → length us < fuel
    → find_record fuel prev p thread h ≡ done (last prev us, c)
unfolding find_record
find_record-first zero prev p thread c us ys h path real all found room = absurd (omega arith)
find_record-first (suc fuel) prev p thread c [] ys h path real all found room =
    let (n, at) = Chain-Here h p null c (c ∷ ys) path (ground arith) in
    let ld : load h p ≡ done n = load-Here h p n (ap h path.0 ∙ at) in
    let hit : (n.datum == thread) ≡ true = ground (arith, ap thread_in at, found) in
    rw (find_record, ld, hit, path.0) refl
find_record-first (suc fuel) prev p thread c (u ∷ us) ys h path real all found room =
    let (n, at) = Chain-Here h p null u (u ∷ (us ++ (c ∷ ys))) path (ground arith) in
    let ld : load h p ≡ done n = load-Here h p n (ap h path.0 ∙ at) in
    let miss : (n.datum == thread) ≡ false = ground (arith, ap thread_in at, all.0) in
    let to : path.1 ≡ n.next = ground (arith, at, path.2) in
    let rest : Chain h n.next (us ++ (c ∷ ys)) null =
      subst (λ a. Chain h a (us ++ (c ∷ ys)) null) to path.3 in
    let on : (n.next == null) ≡ false = next_real us n.next rest (ground (arith, real)) in
    rw (find_record, ld, miss, on, path.0)
      (find_record-first fuel u n.next thread c us ys h rest (ground (arith, real)) all.1 found
        (omega arith))
  where
    next_real :
        (vs : List ℕ) (a : ℕ)
        → Chain h a (vs ++ (c ∷ ys)) null
        → count null (vs ++ (c ∷ ys)) ≡ 0
        → (a == null) ≡ false
    next_real [] a path real = ground (arith, path.0, real)
    next_real (v ∷ vs) a path real = ground (arith, path.0, real)

-- How a queue looks after the record `r` of the locking thread has left it.
pub record Released (threads : Nodes Thread) (h : Records) (m : Mutex) (rs : List ℕ) (h' : Records)
    (m' : Mutex) : Type 0 where
  pub r : ℕ
  pub rs' : List ℕ
  pub queue : IsQueue threads h' m' rs'
  pub same : SameItems (r ∷ rs') rs
  pub held : thread_in (h r) ≡ m.locking_thread
  pub freed : h' r ≡ none
  pub others : (a : ℕ) → a ≢ r → thread_in (h' a) ≡ thread_in (h a)
  pub next : (a : ℕ) (bs : List ℕ) → rs' ≡ a ∷ bs → m'.locking_thread ≡ thread_in (h a)

-- Freeing a record and relinking another leaves the other records' threads.
pub thread_in-freed :
    (h : Records) (p n c a : ℕ)
    → a ≢ c
    → thread_in (update (relink h p n) c none a) ≡ thread_in (h a)
thread_in-freed h p n c a ne = elim (ℕ_discrete p a) [
  | yes e ↦ (ground arith ∙ same_thread (h p)) ∙ ap (λ b. thread_in (h b)) e
  | no other ↦ ground arith
]
  where
    same_thread : (c : Option (Node ℕ)) → thread_in (with_next n c) ≡ thread_in c
    same_thread none = refl
    same_thread (some m) = refl

-- The comparison does not look at records that are not listed.
pub Ordered-threads :
    (threads : Nodes Thread) (h k : Records) (ys : List ℕ)
    → ((a : ℕ) → 0 < count a ys → thread_in (k a) ≡ thread_in (h a))
    → Ordered (uthread_wait_record_priority_sort threads h) ys
    → Ordered (uthread_wait_record_priority_sort threads k) ys
unfolding uthread_wait_record_priority_sort
Ordered-threads threads h k ys same =
    Ordered-agree (uthread_wait_record_priority_sort threads h)
      (uthread_wait_record_priority_sort threads k) ys (λ a b i j. rw (same a i, same b j) refl)

module _ (threads : Nodes Thread) (h : Records) (m : Mutex) where
  pub shorter : (n : ℕ) → m.wait_queue_length ≡ pos (suc n) → m.wait_queue_length -ℤ pos 1 ≡ pos n
  shorter n e =
      ap (λ z. z -ℤ pos 1) e ∙ pos-sub {a = suc n} {b = 1} (omega arith) ∙ ap pos (omega arith)

  -- The only record leaves.
  pub unlock-last :
      (r : ℕ)
      → IsQueue threads h m (r ∷ [])
      → let m' = record m {
        wait_queue_head = null;
        wait_queue_tail = null;
        wait_queue_length = m.wait_queue_length -ℤ pos 1;
      } in
        (uthread_mutex_unlock true true h m ≡ done (update h r none, m'))
        × Released threads h m (r ∷ []) (update h r none) m'
  unfolding uthread_mutex_unlock dequeue
  unlock-last r queue =
      let one : eqb_ℤ m.wait_queue_length (pos 1) ≡ true = ap (λ z. eqb_ℤ z (pos 1)) queue.size in
      let (a, inside, holds) = queue.holder (omega arith) in
      let e : a ≡ r = ground arith in
      (
        rw (uthread_mutex_unlock, one, queue.chain.0) refl,
        record {
          r = r;
          rs' = [];
          queue = record {
            chain = refl;
            distinct = λ b. omega arith;
            real = refl;
            size = shorter 0 queue.size;
            sorted = tt;
            holder = λ filled. absurd (omega (arith, filled));
          };
          same = λ b. refl;
          held = subst (λ b. thread_in (h b) ≡ m.locking_thread) e holds;
          freed = ground arith;
          others = λ b ne. ground arith;
          next = λ b bs no_record. absurd (ground (arith, ap length no_record));
        },
      )

  -- The queue has several records, and the first is that of the locking thread.
  pub unlock-first :
      (r q : ℕ) (qs : List ℕ)
      → IsQueue threads h m (r ∷ q ∷ qs)
      → thread_in (h r) ≡ m.locking_thread
      → let m' = record m {
        wait_queue_head = q;
        wait_queue_length = m.wait_queue_length -ℤ pos 1;
        locking_thread = thread_in (h q);
      } in
        (uthread_mutex_unlock true true h m ≡ done (update h r none, m'))
        × Released threads h m (r ∷ q ∷ qs) (update h r none) m'
  unfolding uthread_mutex_unlock dequeue take_record
  unlock-first r q qs queue held =
      let head = m.wait_queue_head in
      let several : eqb_ℤ m.wait_queue_length (pos 1) ≡ false =
        ap (λ z. eqb_ℤ z (pos 1)) queue.size ∙ ground arith in
      let (n, at) = Chain-Here h head null r (r ∷ q ∷ qs) queue.chain (ground arith) in
      let (n1, at1) = Chain-Here h head null q (r ∷ q ∷ qs) queue.chain (ground arith) in
      let ld : load h head ≡ done n = load-Here h head n (ap h queue.chain.0 ∙ at) in
      let to : n.next ≡ q = ground (arith, at, queue.chain.2, queue.chain.3.0) in
      let hit : (n.datum == m.locking_thread) ≡ true = ground (arith, held, ap thread_in at) in
      let ld1 : load h n.next ≡ done n1 = load-Here h n.next n1 (ap h to ∙ at1) in
      let next : n1.datum ≡ thread_in (h q) = sym (ap thread_in at1) in
      let apart : count r (q ∷ qs) ≡ 0 = ground (arith, queue.distinct r) in
      let others : (a : ℕ) → a ≢ r → thread_in (update h r none a) ≡ thread_in (h a) =
        λ a ne. ground arith in
      let kept : (a : ℕ) → 0 < count a (q ∷ qs) → thread_in (update h r none a) ≡ thread_in (h a) =
        λ a i. others a (λ e. absurd (omega (arith, i, apart, ap (λ b. count b (q ∷ qs)) e))) in
      let rest : Chain h q (q ∷ qs) null =
        (refl, queue.chain.3.1, queue.chain.3.2, queue.chain.3.3) in
      (
        rw (uthread_mutex_unlock, several, ld, hit, ld1, to, next, queue.chain.0) refl,
        record {
          r = r;
          rs' = q ∷ qs;
          queue = record {
            chain = Chain-update h q null r none (q ∷ qs) apart rest;
            distinct = λ a. omega (arith, queue.distinct a);
            real = omega (arith, queue.real);
            size = shorter (length (q ∷ qs)) queue.size;
            sorted = Ordered-threads threads h (update h r none) (q ∷ qs) kept queue.sorted.1;
            holder = λ filled. (q, ground arith, kept q (ground arith));
          };
          same = λ b. refl;
          held = held;
          freed = ground arith;
          others = others;
          next = λ b bs e. ap (λ a. thread_in (h a)) (ground (arith, e));
        },
      )
