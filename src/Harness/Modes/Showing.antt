-- ===== src/Harness/Modes/Showing.antt =====
-- What the modes of Asmt_1/harness.c print of their list.
use cs.Prelude.{
  ℕ, ◌≡◌, refl, sym, ap, ◌∙◌, Option, none, some, List, [], ◌∷◌, arith, map, Text, All,
}
use cs.Exec.{done}
use cs.Nodes.{Node}
use cs.Nodes.Retie.{Here}
use cs.Nodes.Circle.{Chain-Here, All-of_count}
use cs.LinkedList.{Item, null}
use cs.LinkedList.Forward.{data_in, contents}
use cs.LinkedList.Ends.{list_visit_items-Chain}
use cs.Harness.Modes.{Store, buffer_text, print_data_string, print_each, print_list}
use cs.Harness.Modes.Owned.{Owned, texts}

abbrev pub head_or : Option Text → List (Option Text) → Option Text
head_or d [] = d
head_or d (t ∷ ts) = t

abbrev pub tail_or_nil : List (Option Text) → List (Option Text)
tail_or_nil [] = []
tail_or_nil (t ∷ ts) = ts

print_data_string-text :
    (s : Store) (a : ℕ) (n : Node Item) (t : Text)
    → s.items a ≡ some n
    → buffer_text (s.strings n.datum.data_ptr) ≡ some t
    → print_data_string s a ≡ done t
unfolding print_data_string
print_data_string-text s a n t at shown = ground (arith, at, shown)

print_each-texts :
    (s : Store) (ts : List ℕ) (lines : List Text)
    → All (Here s.items) ts
    → texts s.strings (contents s.items ts) ≡ map some lines
    → print_each s ts ≡ done lines
unfolding print_each
print_each-texts s [] [] here same = refl
print_each-texts s [] (t ∷ lines) here same = absurd (ground (arith, same))
print_each-texts s (a ∷ ts) [] here same = absurd (ground (arith, same))
print_each-texts s (a ∷ ts) (t ∷ lines) here same =
    let (n, at) = here.0 in
    let shown : buffer_text (s.strings n.datum.data_ptr) ≡ some t =
      ap (λ c. buffer_text (s.strings (data_in c))) (sym at) ∙ ap (head_or none) same in
    rw
      (
        print_each,
        print_data_string-text s a n t at shown,
        print_each-texts s ts lines here.1 (ap tail_or_nil same),
      )
      refl

-- If every item of the list has a text, the texts are printed, in order.
pub print_list-texts :
    (s : Store) (ts : List ℕ) (lines : List Text)
    → Owned s ts
    → texts s.strings (contents s.items ts) ≡ map some lines
    → print_list s ≡ done lines
unfolding print_list
print_list-texts s ts lines own same =
    let is = own.list in
    let visited =
      list_visit_items-Chain s.list.length s.items s.list.head ts is.chain is.real
        (omega (arith, is.size)) in
    let here =
      All-of_count {P = Here s.items} ts
        (λ t i. Chain-Here s.items s.list.head null t ts is.chain i) in
    rw (print_list, visited) (print_each-texts s ts lines here same)
