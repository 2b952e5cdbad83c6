-- ===== src/Uthread/Mutex/Destroy.antt =====
-- `uthread_mutex_destroy` of Asmt_4/uthread.c.
use native.Mathlib.Decide.{ℕ_discrete}
use cs.Prelude.{
  ℕ, zero, suc, ◌≤◌, ◌<◌, ◌≡◌, refl, ap, subst, ◌∙◌, false, none, List, [], ◌∷◌, arith, ◌==◌,
  length,
}
use cs.Exec.{done}
use cs.Counting.{count, Distinct}
use cs.Nodes.{Nodes, update, load}
use cs.Nodes.Chains.{Chain, Chain-update}
use cs.Nodes.Circle.{Chain-Here, load-Here}
use cs.Uthread.{Thread, null}
use cs.Uthread.Mutex.Queue.{IsQueue}
use cs.Uthread.Mutex.{Records, Mutex, uthread_mutex_destroy}

-- All the records of a list are freed.
abbrev pub freed : List ℕ → Records → Records
freed [] h = h
freed (r ∷ rs) h = freed rs (update h r none)

freed_nothing : (rs : List ℕ) (h : Records) (a : ℕ) → h a ≡ none → freed rs h a ≡ none
freed_nothing [] h a nothing = nothing
freed_nothing (r ∷ rs) h a nothing = freed_nothing rs (update h r none) a (ground arith)

pub freed-none : (rs : List ℕ) (h : Records) (a : ℕ) → 0 < count a rs → freed rs h a ≡ none
freed-none [] h a inside = absurd (omega (arith, inside))
freed-none (r ∷ rs) h a inside = elim (ℕ_discrete a r) [
  | yes e ↦ freed_nothing rs (update h r none) a (ground arith)
  | no ne ↦ freed-none rs (update h r none) a (ground arith)
]

pub freed_outside : (rs : List ℕ) (h : Records) (a : ℕ) → count a rs ≡ 0 → freed rs h a ≡ h a
freed_outside [] h a out = refl
freed_outside (r ∷ rs) h a out = freed_outside rs (update h r none) a (ground arith) ∙ ground arith

-- With as much fuel as there are records the loop ends, and frees them all.
uthread_mutex_destroy-freed :
    (fuel : ℕ) (rs : List ℕ) (h : Records) (m : Mutex)
    → Chain h m.wait_queue_head rs null
    → Distinct rs
    → count null rs ≡ 0
    → length rs ≤ fuel
    → uthread_mutex_destroy fuel h m ≡ done (freed rs h, record m { wait_queue_head = null })
unfolding uthread_mutex_destroy
uthread_mutex_destroy-freed zero [] h m path d real room = rw (uthread_mutex_destroy, path) refl
uthread_mutex_destroy-freed (suc fuel) [] h m path d real room =
    rw (uthread_mutex_destroy, path) refl
uthread_mutex_destroy-freed zero (r ∷ rs) h m path d real room = absurd (omega arith)
uthread_mutex_destroy-freed (suc fuel) (r ∷ rs) h m path d real room =
    let head = m.wait_queue_head in
    let (n, at) = Chain-Here h head null r (r ∷ rs) path (ground arith) in
    let ld : load h head ≡ done n = load-Here h head n (ap h path.0 ∙ at) in
    let on : (r == null) ≡ false = ground (arith, real) in
    let to : path.1 ≡ n.next = ground (arith, at, path.2) in
    let rest : Chain (update h r none) n.next rs null =
      Chain-update h n.next null r none rs (ground (arith, d r))
        (subst (λ a. Chain h a rs null) to path.3) in
    rw (uthread_mutex_destroy, ld, path.0, on)
      (uthread_mutex_destroy-freed fuel rs (update h r none) (record m { wait_queue_head = n.next })
        rest (λ a. omega (arith, d a)) (omega (arith, real)) (omega arith))

-- For a well-formed wait queue uthread_mutex_destroy ends after as many rounds as there are
-- records; it frees all of them and no other, and leaves the head null.
pub uthread_mutex_destroy-all :
    (threads : Nodes Thread) (h : Records) (m : Mutex) (rs : List ℕ) (fuel : ℕ)
    → IsQueue threads h m rs
    → length rs ≤ fuel
    → (h' : Records) × (uthread_mutex_destroy fuel h m
        ≡ done (h', record m { wait_queue_head = null }))
      × ((a : ℕ) → 0 < count a rs → h' a ≡ none)
      × ((a : ℕ) → count a rs ≡ 0 → h' a ≡ h a)
uthread_mutex_destroy-all threads h m rs fuel queue room = (
  freed rs h,
  uthread_mutex_destroy-freed fuel rs h m queue.chain queue.distinct queue.real room,
  freed-none rs h,
  freed_outside rs h,
)
