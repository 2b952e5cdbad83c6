-- ===== src/Nodes.antt =====
-- Heaps of nodes with a `next` pointer, as in the thread and wait lists of Asmt_4/uthread.c.
pub mod Chains
pub mod Retie
pub mod Circle
pub mod Removal
use cs.Prelude.{ℕ, zero, suc, ◌≡◌, Option, none, some, List, [], ◌∷◌, ◌==◌, if◌then◌else◌}
use cs.Exec.{Exec, done, fault, ◌>>=◌}

-- A node: its `next` pointer, and the fields that relinking leaves alone.
pub record Node (D : Type 0) : Type 0 where
  pub next : ℕ
  pub datum : D

-- `none` at an address that holds no node; address 0 is `NULL`.
abbrev pub Nodes : Type 0 → Type 0
Nodes D = ℕ → Option (Node D)

module _ {D : Type 0} where
  abbrev pub update : Nodes D → ℕ → Option (Node D) → Nodes D
  update h a c b = if a == b then c else h b

  -- A dereference.
  abbrev pub load : Nodes D → ℕ → Exec (Node D)
  load h a = elim (h a) [ none ↦ fault | some n ↦ done n ]

  abbrev pub with_next : ℕ → Option (Node D) → Option (Node D)
  with_next q none = none
  with_next q (some n) = some (record n { next = q })

  abbrev pub relink : Nodes D → ℕ → ℕ → Nodes D
  relink h a q = update h a (with_next q (h a))

  -- `a->next = q`
  unfoldable pub set_next : Nodes D → ℕ → ℕ → Exec (Nodes D)
  set_next h a q = do n ← load h a; done (relink h a q)

  -- The loop that copies pointers into a buffer, from `p` until `stop`; `room` entries are left in the
  -- buffer.
  unfoldable pub collect : ℕ → ℕ → ℕ → Nodes D → Exec (List ℕ)
  collect zero p stop h = if p == stop then done [] else fault
  collect (suc room) p stop h =
      if p == stop
      then done []
      else (do n ← load h p; rest ← collect room n.next stop h; done (p ∷ rest))

  -- The loop that ties each entry of a buffer to the next one.
  unfoldable pub retie : List ℕ → Nodes D → Exec (Nodes D)
  retie (a ∷ b ∷ rest) h = set_next h a b >>= retie (b ∷ rest)
  retie _ h = done h

  abbrev pub next_in : Option (Node D) → Option ℕ
  next_in none = none
  next_in (some n) = some n.next

  abbrev pub datum_in : Option (Node D) → Option D
  datum_in none = none
  datum_in (some n) = some n.datum
