-- ===== src/LinkedList.antt =====
-- The lists of Asmt_3/list_t.c and Asmt_3/list_item_t.c; Asmt_1 has the same code, without
-- `list_rotate_one`.
pub mod Forward
pub mod Ends
pub mod Rotate
pub mod Tied
pub mod Retied
pub mod Sorted
pub mod Outside
use cs.Prelude.{
  ℕ, zero, suc, ◌+◌, ◌-◌, ◌^◌, ◌%◌, Bool, true, false, Option, none, some, List, [], ◌∷◌, ◌++◌,
  ◌==◌, if◌then◌else◌, ltb, ℤ, negsuc,
}
use cs.Exec.{Exec, done, exit, fault, out_of_fuel, ◌>>=◌}
use cs.Qsort.{Qsort}
use cs.Nodes.{Node, Nodes, update, load, set_next}
use cs.Nodes.Retie.{last}

-- `prev` and `data` of `list_item_t`; `next` is the node's.
pub record Item : Type 0 where
  pub prev : ℕ
  pub data_ptr : ℕ

abbrev pub Items : Type 0
Items = Nodes Item

-- `list_t`, without its two functions, which are parameters.
pub record ListT : Type 0 where
  pub head : ℕ
  pub tail : ℕ
  pub length : ℕ

abbrev pub null : ℕ
null = 0

-- `length` is an `unsigned int`.
abbrev pub increment : ℕ → ℕ
increment n = (n + 1) % 2 ^ 32

abbrev pub decrement : ℕ → ℕ
decrement n = (n + (2 ^ 32 - 1)) % 2 ^ 32

abbrev pub with_prev : ℕ → Option (Node Item) → Option (Node Item)
with_prev p none = none
with_prev p (some n) = some (record n { datum = record { prev = p; data_ptr = n.datum.data_ptr } })

abbrev pub put_prev : Items → ℕ → ℕ → Items
put_prev h a p = update h a (with_prev p (h a))

-- `a->prev = p`
unfoldable pub set_prev : Items → ℕ → ℕ → Exec Items
set_prev h a p = do n ← load h a; done (put_prev h a p)

unfoldable pub list_init : ListT
list_init = record { head = null; tail = null; length = 0 }

unfoldable pub list_item_init : ℕ → Node Item
list_item_init v = record { next = null; datum = record { prev = null; data_ptr = v } }

-- The items that the visitor is called on, in order.
unfoldable pub list_visit_items : ℕ → ℕ → Items → Exec (List ℕ)
list_visit_items zero current_item h = if current_item == null then done [] else out_of_fuel
list_visit_items (suc fuel) current_item h = if current_item == null then done [] else (do
  n ← load h current_item
  rest ← list_visit_items fuel n.next h
  done (current_item ∷ rest))

-- `new` is what `malloc` returns.
unfoldable pub list_insert_tail : ℕ → ℕ → Items → ListT → Exec (Items × ListT)
list_insert_tail new v h l =
    if new == null
    then exit (negsuc 0)
    else (let h1 = update h new (some (list_item_init v)) in
        if l.length == 0
        then done (h1, record { head = new; tail = new; length = increment l.length })
        else (do
          h2 ← set_next h1 l.tail new
          h3 ← set_prev h2 new l.tail
          done (h3, record l { tail = new; length = increment l.length })))

-- The loop that copies as many pointers as the list is long.
unfoldable pub copy_items : ℕ → ℕ → Items → Exec (List ℕ)
copy_items zero current_item h = done []
copy_items (suc i) current_item h = do
  n ← load h current_item
  rest ← copy_items i n.next h
  done (current_item ∷ rest)

-- The loop that ties the items from the second on.
unfoldable pub tie_items : List ℕ → Items → Exec Items
tie_items (a ∷ b ∷ rest) h = do h1 ← set_next h a b; h2 ← set_prev h1 b a; tie_items (b ∷ rest) h2
tie_items _ h = done h

-- The last item but one.
abbrev pub before_last : ℕ → ℕ → List ℕ → ℕ
before_last a b [] = a
before_last a b (c ∷ rest) = before_last b c rest

-- What is done for more than two items.
unfoldable pub tie_many : ℕ → List ℕ → Items → Exec Items
tie_many a [] h = fault
tie_many a (b ∷ rest) h = do
  h1 ← set_next h a b
  h2 ← set_prev h1 (last b rest) (before_last a b rest)
  tie_items (b ∷ rest) h2

-- The sorted array becomes the list.
unfoldable pub retie_list : List ℕ → Items → ListT → Exec (Items × ListT)
retie_list [] h l = fault
retie_list (a ∷ rest) h l = do
  h1 ← set_prev h a null
  h2 ← set_next h1 (last a rest) null
  h3 ←
      (if l.length == 2
        then set_next h2 a (last a rest) >>= (λ k. set_prev k (last a rest) a)
        else done h2)
  h4 ← (if ltb 2 l.length then tie_many a rest h3 else done h3)
  done (h4, record l { head = a; tail = last a rest })

-- `compare` is given the items' addresses, and reads the heap.
unfoldable pub list_insert_sorted :
    Qsort → (Items → ℕ → ℕ → ℤ) → ℕ → ℕ → Items → ListT → Exec (Items × ListT)
list_insert_sorted qsort compare new v h l = do
  (h1, l1) ← list_insert_tail new v h l
  items ← copy_items l1.length l1.head h1
  retie_list (qsort.sort (compare h1) items) h1 l1

-- The heap, the list, and what `data_delete` is called on: the pointer to the data of the removed item.
unfoldable pub list_remove_head : Items → ListT → Exec (Items × ListT × Option ℕ)
list_remove_head h l = if l.head == null then done (h, l, none) else (do
  n ← load h l.head
  done (
    update h l.head none,
    record l { head = n.next; length = decrement l.length },
    some n.datum.data_ptr,
  ))

unfoldable pub list_rotate_one : Items → ListT → Exec (Items × ListT)
list_rotate_one h l =
    if ltb 1 l.length
    then (do
      old ← load h l.head
      h1 ← set_prev h old.next null
      h2 ← set_prev h1 l.head l.tail
      h3 ← set_next h2 l.head null
      h4 ← set_next h3 l.tail l.head
      done (h4, record l { head = old.next; tail = l.head }))
    else done (h, l)
