-- ===== src/Harness/Modes.antt =====
-- The modes of Asmt_1/harness.c that fill a list with the words of a file, and `main`; the functions for
-- strings of Asmt_1/list_item_t.c, and the removal of Asmt_1/list_t.c.
pub mod Owned
pub mod Showing
pub mod Inserting
pub mod Filling
pub mod Tailing
pub mod Removing
pub mod Reordered
pub mod Sorting
mod Examples
use cs.Prelude.{
  ℕ, zero, suc, ◌/◌, Bool, true, false, ◌&&◌, Option, none, some, List, [], ◌∷◌, ◌++◌, ◌==◌,
  if◌then◌else◌, length, replicate, put, ℤ, negsuc, Text, eqb_text,
}
use cs.Exec.{Exec, done, exit, fault, out_of_fuel, ◌>>=◌}
use cs.Nodes.{load}
use cs.LinkedList.{
  Items, ListT, null, list_init, list_insert_tail, list_insert_sorted, list_remove_head,
  list_visit_items,
}
use cs.LinkedList.Forward.{data_in}
use cs.Qsort.{Qsort}
use cs.Harness.{fgetc, is_end, read_line, c_string, echo}
use cs.Harness.Strcmp.{strcmp}

-- The buffers that `malloc` has granted, by their addresses.
abbrev pub Strings : Type 0
Strings = ℕ → Option (List ℕ)

pub record Store : Type 0 where
  pub items : Items
  pub list : ListT
  pub strings : Strings

-- What `malloc` returns for a round of a loop: a buffer, the bytes that it happens to hold, and an item.
pub record Grant : Type 0 where
  pub buf : ℕ
  pub junk : List ℕ
  pub item : ℕ

unfoldable pub no_store : Store
unfolding list_init
no_store = record { items = λ a. none; list = list_init; strings = λ a. none }

-- `malloc (41)`, with the test of its result or without.
unfoldable pub malloc_buf : Bool → Grant → Strings → Exec Strings
malloc_buf tested g strings =
    if g.buf == null
    then (if tested then exit (negsuc 0) else done strings)
    else done (put strings g.buf (some g.junk))

unfoldable pub free_buf : ℕ → Strings → Exec Strings
free_buf a strings =
    if a == null
    then done strings
    else elim (strings a) [ none ↦ fault | some b ↦ done (put strings a none) ]

-- `read_line (f, buf, 41)` into the buffer at an address.
unfoldable pub read_into : ℕ → Strings → List ℕ → Exec (Bool × Strings × List ℕ)
read_into a strings f = elim (strings a) [
  | none ↦ let (c, rest) = fgetc f in if is_end c then done (false, strings, rest) else fault
  | some buf ↦
      let (more, buf', rest) = read_line 41 buf f in done (more, put strings a (some buf'), rest)
]

-- The text of a buffer, if it is there and has an end.
abbrev pub buffer_text : Option (List ℕ) → Option Text
buffer_text none = none
buffer_text (some buf) = c_string buf

-- `(char *)((*arg)->data)`
abbrev pub text_at : Strings → Items → ℕ → Option Text
text_at strings h a = buffer_text (strings (data_in (h a)))

abbrev pub text_or_nil : Option Text → Text
text_or_nil none = []
text_or_nil (some t) = t

-- Only used where both texts have an end.
abbrev pub list_item_compare_string : Strings → Items → ℕ → ℕ → ℤ
list_item_compare_string strings h a b =
    strcmp (text_or_nil (text_at strings h a)) (text_or_nil (text_at strings h b))

abbrev pub has_text : Option Text → Bool
has_text none = false
has_text (some t) = true

abbrev pub all_texts : Strings → Items → List ℕ → Bool
all_texts strings h [] = true
all_texts strings h (a ∷ ts) = has_text (text_at strings h a) && all_texts strings h ts

-- `qsort` compares every item with another one, if there are two: all of them need an end.
abbrev pub comparable : Store → List ℕ → ℕ → Bool
comparable s [] buf = true
comparable s (a ∷ ts) buf =
    has_text (buffer_text (s.strings buf)) && all_texts s.strings s.items (a ∷ ts)

unfoldable pub insert_tail : Grant → Store → Exec Store
insert_tail g s = do
  (h, l) ← list_insert_tail g.item g.buf s.items s.list
  done (record s { items = h; list = l })

unfoldable pub insert_sorted : Qsort → Grant → Store → Exec Store
insert_sorted qsort g s = do
  ts ← list_visit_items s.list.length s.list.head s.items
  (h, l) ← list_insert_sorted qsort (list_item_compare_string s.strings) g.item g.buf s.items s.list
  if comparable s ts g.buf then done (record s { items = h; list = l }) else fault

-- The first `malloc`, and the loop, with the `malloc` at its end; `free` of the last buffer.
unfoldable pub fill :
    Bool → Bool → (Grant → Store → Exec Store) → List Grant → List ℕ → Store → Exec Store
fill first later insert [] f s = out_of_fuel
fill first later insert (g ∷ gs) f s = do
  strings ← malloc_buf first g s.strings
  (more, strings, rest) ← read_into g.buf strings f
  (if more
      then insert g (record s { strings = strings }) >>= fill later later insert gs rest
      else (do strings ← free_buf g.buf strings; done (record s { strings = strings })))

-- `printf ("%s\n")` of an item.
unfoldable pub print_data_string : Store → ℕ → Exec Text
print_data_string s a = do
  n ← load s.items a
  elim (buffer_text (s.strings n.datum.data_ptr)) [ none ↦ fault | some t ↦ done t ]

unfoldable pub print_each : Store → List ℕ → Exec (List Text)
print_each s [] = done []
print_each s (a ∷ ts) = do t ← print_data_string s a; rest ← print_each s ts; done (t ∷ rest)

-- `list_visit_items (&list, print_data_string)`
unfoldable pub print_list : Store → Exec (List Text)
print_list s = do ts ← list_visit_items s.list.length s.list.head s.items; print_each s ts

-- "You cannot remove from an empty list."
abbrev pub empty_message : Text
empty_message =
    b'Y' ∷ b'o' ∷ b'u' ∷ b' ' ∷ b'c' ∷ b'a' ∷ b'n' ∷ b'n' ∷ b'o' ∷ b't' ∷ b' ' ∷ b'r' ∷ b'e' ∷ b'm'
    ∷ b'o' ∷ b'v' ∷ 101 ∷ b' ' ∷ b'f' ∷ b'r' ∷ b'o' ∷ b'm' ∷ b' ' ∷ b'a' ∷ b'n' ∷ b' ' ∷ b'e' ∷ b'm'
    ∷ b'p' ∷ b't' ∷ b'y' ∷ b' ' ∷ 108 ∷ b'i' ∷ b's' ∷ b't' ∷ b'.' ∷ []

-- `list_remove_head` with `string_data_delete`, and what it prints.
unfoldable pub remove_head : Store → Exec (List Text × Store)
remove_head s = do
  (h, l, freed) ← list_remove_head s.items s.list
  elim freed [
    | none ↦ done (empty_message ∷ [], s)
    | some d ↦ do
      strings ← free_buf d s.strings
      done ([], record { items = h; list = l; strings = strings })
  ]

unfoldable pub cleanup_list : ℕ → Store → Exec Store
cleanup_list zero s = if s.list.head == null then done s else out_of_fuel
cleanup_list (suc fuel) s =
    if s.list.head == null then done s else remove_head s >>= (λ r. cleanup_list fuel r.1)

abbrev pub dashes : Text
dashes = replicate 40 b'-'

-- The loop that removes three heads a round.
unfoldable pub remove_sets : ℕ → Store → Exec (List Text × Store)
remove_sets zero s = done ([], s)
remove_sets (suc i) s = do
  (a, s) ← remove_head s
  (b, s) ← remove_head s
  (c, s) ← remove_head s
  shown ← print_list s
  (more, s) ← remove_sets i s
  done (a ++ (b ++ (c ++ (dashes ∷ (shown ++ more)))), s)

-- The modes `tail` and `sort`.
unfoldable pub list_mode :
    (Grant → Store → Exec Store) → List Grant → List ℕ → Exec (List Text × Store)
list_mode insert gs f = do
  s ← fill true true insert gs f no_store
  lines ← print_list s
  s ← cleanup_list s.list.length s
  done (lines, s)

-- "Running tail-remove"
abbrev pub running_message : Text
running_message =
    b'R' ∷ b'u' ∷ b'n' ∷ b'n' ∷ b'i' ∷ b'n' ∷ b'g' ∷ b' ' ∷ b't' ∷ b'a' ∷ b'i' ∷ b'l' ∷ b'-' ∷ b'r'
    ∷ b'e' ∷ b'm' ∷ 111 ∷ b'v' ∷ b'e' ∷ []

unfoldable pub tail_remove_mode : List Grant → List ℕ → Exec (List Text × Store)
tail_remove_mode gs f = do
  s ← fill true false insert_tail gs f no_store
  first ← print_list s
  (sets, s) ← remove_sets (s.list.length / 3) s
  s ← cleanup_list s.list.length s
  rest ← print_list s
  done (running_message ∷ (first ++ (sets ++ (dashes ∷ rest))), s)

abbrev pub echo_word : Text
echo_word = b'e' ∷ b'c' ∷ b'h' ∷ b'o' ∷ []

abbrev pub tail_word : Text
tail_word = b't' ∷ b'a' ∷ b'i' ∷ b'l' ∷ []

abbrev pub sort_word : Text
sort_word = b's' ∷ b'o' ∷ b'r' ∷ b't' ∷ []

abbrev pub tail_remove_word : Text
tail_remove_word = b't' ∷ b'a' ∷ b'i' ∷ b'l' ∷ b'-' ∷ b'r' ∷ b'e' ∷ b'm' ∷ b'o' ∷ b'v' ∷ b'e' ∷ []

-- `echo_buf` is what the stack holds.
abbrev pub run_mode : Qsort → List Grant → List ℕ → Text → List ℕ → Exec (List Text × Store)
run_mode qsort gs echo_buf mode f =
    if eqb_text mode echo_word
    then (do lines ← echo (suc (length f)) echo_buf f; done (lines, no_store))
    else if eqb_text mode tail_word
    then list_mode insert_tail gs f
    else if eqb_text mode sort_word
    then list_mode (insert_sorted qsort) gs f
    else if eqb_text mode tail_remove_word
    then tail_remove_mode gs f
    else done ([], no_store)

-- `main`, with the words behind the program's name, and what `fopen` gives: the lines that are printed,
-- and the memory at the end.
unfoldable pub main :
    Qsort → (Text → Option (List ℕ)) → List Grant → List ℕ → List Text → Exec (List Text × Store)
main qsort fopen gs echo_buf (name ∷ mode ∷ []) = elim (fopen name) [
  | none ↦ exit (negsuc 0)
  | some f ↦ run_mode qsort gs echo_buf mode f
]
main qsort fopen gs echo_buf _ = exit (negsuc 0)
