-- ===== src/Harness/Modes/Removing.antt =====
-- The mode `tail-remove` of Asmt_1/harness.c.
use cs.Prelude.{
  ℕ, zero, suc, ◌*◌, ◌/◌, ◌^◌, ◌≤◌, ◌<◌, ◌≡◌, refl, sym, ap, ◌∙◌, subst, true, false, Option, some,
  List, [], ◌∷◌, ◌++◌, arith, length, map, Text, All,
}
use cs.Exec.{done, ◌>>=◌}
use cs.Qsort.{Qsort}
use cs.LinkedList.{list_visit_items}
use cs.LinkedList.Forward.{contents}
use cs.Harness.Echo.{IsWord, text, drop}
use cs.Harness.Modes.{
  Store, Grant, no_store, remove_head, remove_sets, print_list, print_each, tail_remove_mode, main,
  dashes, running_message, tail_remove_word,
}
use cs.Harness.Modes.Owned.{Owned, texts, IsFreed, remove_head-Owned, cleanup_list-empty}
use cs.Harness.Modes.Showing.{print_list-texts, tail_or_nil}
use cs.Harness.Modes.Filling.{IsSupply, buffer_lines}
use cs.Harness.Modes.Tailing.{Lists, fill_tail-Lists, length-lines}

-- The first line goes.
remove_head-Lists :
    (s : Store) (line : Text) (lines : List Text)
    → Lists s (line ∷ lines)
    → length lines < 2 ^ 32
    → (s' : Store) × (remove_head s ≡ done ([], s')) × Lists s' lines
remove_head-Lists s line lines p small = go p.ts p.own p.held p.as_long
  where
    go :
        (ts : List ℕ)
        → Owned s ts
        → texts s.strings (contents s.items ts) ≡ map some (line ∷ lines)
        → length ts ≡ length (line ∷ lines)
        → (s' : Store) × (remove_head s ≡ done ([], s')) × Lists s' lines
    go [] own held as_long = absurd (omega (arith, as_long))
    go (t ∷ ts) own held as_long =
        let (s', run, own', kept) = remove_head-Owned s t ts own (omega (arith, as_long, small)) in
        (
          s',
          run,
          record {
            ts = ts;
            own = own';
            held = kept ∙ ap tail_or_nil held;
            as_long = omega (arith, as_long);
          },
        )

-- What a number of rounds prints.
abbrev pub sets : ℕ → List Text → List Text
sets zero lines = []
sets (suc i) lines = dashes ∷ (drop 3 lines ++ sets i (drop 3 lines))

remove_sets-sets :
    (i : ℕ) (s : Store) (lines : List Text)
    → Lists s lines
    → i * 3 ≤ length lines
    → length lines < 2 ^ 32
    → (s' : Store) × (lines' : List Text) × (remove_sets i s ≡ done (sets i lines, s'))
      × Lists s' lines'
      × (length lines' < 2 ^ 32)
unfolding remove_sets
remove_sets-sets zero s lines p room small = (s, lines, refl, p, small)
remove_sets-sets (suc i) s [] p room small = absurd (omega (arith, room))
remove_sets-sets (suc i) s (a ∷ []) p room small = absurd (omega (arith, room))
remove_sets-sets (suc i) s (a ∷ b ∷ []) p room small = absurd (omega (arith, room))
remove_sets-sets (suc i) s (a ∷ b ∷ c ∷ lines) p room small =
    let (s1, run1, p1) = remove_head-Lists s a (b ∷ c ∷ lines) p (omega (arith, small)) in
    let (s2, run2, p2) = remove_head-Lists s1 b (c ∷ lines) p1 (omega (arith, small)) in
    let (s3, run3, p3) = remove_head-Lists s2 c lines p2 (omega (arith, small)) in
    let shown = print_list-texts s3 p3.ts lines p3.own p3.held in
    let (s', lines', rest, p', small') =
      remove_sets-sets i s3 lines p3 (omega (arith, room)) (omega (arith, small)) in
    (s', lines', rw (remove_sets, run1, run2, run3, shown, rest) refl, p', small')

-- An empty list is printed as nothing.
print_list-empty : (s : Store) → IsFreed s → print_list s ≡ done []
unfolding print_list print_each list_visit_items
print_list-empty s freed = go s.list.length
  where
    go : (n : ℕ) → ((list_visit_items n s.list.head s.items) >>= print_each s) ≡ done []
    go zero = rw freed.no_head refl
    go (suc n) = rw freed.no_head refl

-- If the file that main of harness.c opens is made of words, each at the end of a line, none empty
-- or longer than 40 characters and none with a separator or a null byte, fewer than 2 ^ 32 words,
-- malloc grants buffers and items for one round more than there are words, all at different
-- addresses that are not null and in no use, and every buffer has a null byte behind its word,
-- then the mode tail-remove ends and frees all items and buffers. It prints Running tail-remove,
-- then the texts of the buffers, each the word and what the buffer held behind it up to the first
-- null byte, in order, then for every full three of them a line of dashes and the texts without
-- the first three more, and at the end a line of dashes.
pub tail_remove-prints :
    (qsort : Qsort) (fopen : Text → Option (List ℕ)) (gs : List Grant) (echo_buf : List ℕ)
    (name : Text) (ws lines : List Text)
    → fopen name ≡ some (text ws)
    → All IsWord ws
    → length ws < length gs
    → length ws < 2 ^ 32
    → IsSupply no_store gs
    → buffer_lines ws gs ≡ map some lines
    → (s : Store) × (main qsort fopen gs echo_buf (name ∷ tail_remove_word ∷ [])
        ≡ done (running_message ∷ (lines ++ (sets (length lines / 3) lines ++ (dashes ∷ []))), s))
      × IsFreed s
unfolding main tail_remove_mode
tail_remove-prints qsort fopen gs echo_buf name ws lines opened words room small supply shown =
    let (s, run, p) = fill_tail-Lists true false gs ws lines words room small supply shown in
    let few : length lines < 2 ^ 32 = omega (arith, small, length-lines ws gs lines room shown) in
    let first = print_list-texts s p.ts lines p.own p.held in
    let size : s.list.length ≡ length lines = p.own.list.size ∙ p.as_long in
    let (s1, lines1, removed, p1, few1) =
      remove_sets-sets (length lines / 3) s lines p (omega arith) few in
    let removed' : remove_sets (s.list.length / 3) s ≡ done (sets (length lines / 3) lines, s1) =
      subst (λ n. remove_sets (n / 3) s ≡ done (sets (length lines / 3) lines, s1)) (sym size)
        removed in
    let (s2, cleaned, freed) =
      cleanup_list-empty s1.list.length s1 p1.ts p1.own (omega (arith, p1.as_long, few1))
        (omega (arith, p1.own.list.size)) in
    (
      s2,
      rw (main, opened, tail_remove_mode, run, first, removed', cleaned, print_list-empty s2 freed)
          refl,
      freed,
    )
