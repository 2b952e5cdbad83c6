-- ===== src/Whales.antt =====
-- The matching of whales in Asmt_5/whales/whales.c.
pub mod Simple
pub mod Queue
pub mod Taking
pub mod Pods
pub mod Matching
pub mod Joining
pub mod Starting
pub mod Arrivals
pub mod Stuck
mod Examples
use cs.Prelude.{
  ℕ, zero, suc, ◌+◌, ◌-◌, ◌≡◌, Bool, true, false, Option, none, some, List, [], ◌∷◌, ◌==◌, ◌&&◌,
  ltb, if◌then◌else◌,
}
use cs.Exec.{Exec, done, fault, ◌>>=◌}
use cs.Nodes.{Node, Nodes, update, load, set_next}

abbrev pub null : ℕ
null = 0

-- `id` and `tail` of `whale_t`; `next` is the node's.
pub record Whale : Type 0 where
  pub id : ℕ
  pub tail : ℕ

abbrev pub Whales : Type 0
Whales = Nodes Whale

pub data Action : Type 0 where
  male_created : Action
  female_created : Action
  found_mate : Action
  became_matchmaker : Action
  mated : Action

-- The queues, the counters, the semaphores; the lines that are printed, the last one first; and how many
-- whales wait for which semaphores, or have returned.
pub record Sea : Type 0 where
  pub whales : Whales
  pub male_q : ℕ
  pub female_q : ℕ
  pub male : ℕ
  pub female : ℕ
  pub male_avail : ℕ
  pub fem_avail : ℕ
  pub maker_avail : ℕ
  pub lines : List (ℕ × Action)
  pub wait_male : ℕ
  pub wait_fem : ℕ
  pub wait_maker : ℕ
  pub returned : ℕ

abbrev pub print_line : ℕ → Action → Sea → Sea
print_line i action s = record s { lines = (i, action) ∷ s.lines }

abbrev pub with_tail : ℕ → Node Whale → Node Whale
with_tail t n = record { next = n.next; datum = record { id = n.datum.id; tail = t } }

-- `a->tail = t`
unfoldable pub set_tail : Whales → ℕ → ℕ → Exec Whales
set_tail h a t = do n ← load h a; done (update h a (some (with_tail t n)))

-- `malloc` for a new whale, with whatever the memory held, and the write of its `id`.
abbrev pub malloc_whale : ℕ → Node Whale → ℕ → Whales → Exec Whales
malloc_whale temp junk id h =
    if temp == null
    then fault
    else done (
        update h temp
          (some (record { next = junk.next; datum = record { id = id; tail = junk.datum.tail } })))

-- The three lines that put `temp` at the end of the queue `q`.
unfoldable pub enqueue : ℕ → ℕ → Whales → Exec Whales
enqueue q temp h = do
  head ← load h q
  h ← set_next h head.datum.tail temp
  h ← set_tail h q temp
  head ← load h q
  set_next h head.datum.tail null

-- `q->next->tail = q->tail; q = q->next`
unfoldable pub dequeue : ℕ → Whales → Exec (ℕ × Whales)
dequeue q h = do
  head ← load h q
  h ← set_tail h head.next head.datum.tail
  head ← load h q
  done (head.next, h)

-- Two empty queues, with their heads at `m` and `f`.
abbrev pub started : ℕ → ℕ → Whales → Sea
started m f h = record {
  whales =
      update (update h m (some (record { next = null; datum = record { id = 0; tail = m } }))) f
        (some (record { next = null; datum = record { id = 0; tail = f } }));
  male_q = m;
  female_q = f;
  male = 0;
  female = 0;
  male_avail = 0;
  fem_avail = 0;
  maker_avail = 0;
  lines = [];
  wait_male = 0;
  wait_fem = 0;
  wait_maker = 0;
  returned = 0;
}

-- `whaleInit`, with the two addresses that `malloc` returns, and the other globals as they are at first.
unfoldable pub whale_init : ℕ → ℕ → Whales → Exec Sea
whale_init m f h = if m == null then fault else if f == null then fault else done (started m f h)

-- Are there whales behind the heads of both queues?
unfoldable pub both_queued : Sea → Exec Bool
both_queued s = do
  m ← load s.whales s.male_q
  if m.next == null then done false else (do f ← load s.whales s.female_q; done (not_null f.next))
  where
    not_null : ℕ → Bool
    not_null p = if p == null then false else true

-- The two ways of taking a pair off the queues.
unfoldable pub take_pair : Bool → Sea → Exec Sea
take_pair true s = do
  (m, h) ← dequeue s.male_q s.whales
  (f, h) ← dequeue s.female_q h
  done (record s { whales = h; male_q = m; female_q = f })
take_pair false s = done (record s { male_q = null; female_q = null })

-- What the matchmaker does, in either function.
unfoldable pub make_match : ℕ → Sea → Exec Sea
make_match id s = do
  both ← both_queued s
  s ← take_pair both (print_line id mated (print_line id became_matchmaker s))
  done (record s {
    male = s.male - 1;
    female = s.female - 1;
    maker_avail = suc s.maker_avail;
    returned = suc s.returned;
  })

-- `create_male` up to the first call of `sem_wait`; `temp` and `junk` are what `malloc` gives.
unfoldable pub create_male : ℕ → Node Whale → ℕ → Sea → Exec Sea
create_male temp junk id s0 =
    let s = print_line id male_created s0 in
    if ltb 0 s.male && ltb 0 s.female
    then make_match id s
    else if ltb 0 s.female
    then (do
      f ← load s.whales s.female_q
      h ← malloc_whale temp junk id s.whales
      h ← enqueue s.male_q temp h
      done (record (print_line f.datum.id found_mate (print_line id found_mate s)) {
        whales = h;
        male = suc s.male;
        male_avail = suc s.male_avail;
        wait_maker = suc s.wait_maker;
      }))
    else (do
      h ← malloc_whale temp junk id s.whales
      h ← enqueue s.male_q temp h
      done (record s {
        whales = h;
        male = suc s.male;
        male_avail = suc s.male_avail;
        wait_fem = suc s.wait_fem;
      }))

-- `create_female` up to the first call of `sem_wait`
unfoldable pub create_female : ℕ → Node Whale → ℕ → Sea → Exec Sea
create_female temp junk id s0 =
    let s = print_line id female_created s0 in
    if ltb 0 s.male && ltb 0 s.female
    then make_match id s
    else if ltb 0 s.male
    then (do
      m ← load s.whales s.male_q
      h ← malloc_whale temp junk id s.whales
      h ← enqueue s.female_q temp h
      done (record (print_line id found_mate (print_line m.datum.id found_mate s)) {
        whales = h;
        female = suc s.female;
        fem_avail = suc s.fem_avail;
        wait_maker = suc s.wait_maker;
      }))
    else (do
      h ← malloc_whale temp junk id s.whales
      h ← enqueue s.female_q temp h
      done (record s {
        whales = h;
        female = suc s.female;
        fem_avail = suc s.fem_avail;
        wait_male = suc s.wait_male;
      }))

-- `create_whale`; `is_male` is what `rand` decides.
unfoldable pub create_whale : Bool → ℕ → Node Whale → ℕ → Sea → Exec Sea
create_whale is_male temp junk id s =
    if is_male then create_male temp junk id s else create_female temp junk id s

-- A whale gets through a `sem_wait`. After the first one, for a mate, it waits for a matchmaker.
pub data Passes (s : Sea) : Sea → Type 0 where
  mate_came_to_male :
      {n : ℕ} {w : ℕ}
      → s.fem_avail ≡ suc n
      → s.wait_fem ≡ suc w
      → Passes s (record s { fem_avail = n; wait_fem = w; wait_maker = suc s.wait_maker })
  mate_came_to_female :
      {n : ℕ} {w : ℕ}
      → s.male_avail ≡ suc n
      → s.wait_male ≡ suc w
      → Passes s (record s { male_avail = n; wait_male = w; wait_maker = suc s.wait_maker })
  maker_came :
      {n : ℕ} {w : ℕ}
      → s.maker_avail ≡ suc n
      → s.wait_maker ≡ suc w
      → Passes s (record s { maker_avail = n; wait_maker = w; returned = suc s.returned })
