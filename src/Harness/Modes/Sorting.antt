-- ===== src/Harness/Modes/Sorting.antt =====
-- The mode `sort` of Asmt_1/harness.c.
use mathlib.Core.List.{Perm}
use mathlib.Core.List.Perm
use cs.Prelude.{
  ℕ, ◌^◌, ◌<◌, ◌≡◌, ◌≢◌, refl, sym, ap, ◌∙◌, subst, true, Option, none, some, List, [], ◌∷◌, ◌++◌,
  arith, length, length-append, map, Text, All,
}
use cs.Exec.{done}
use cs.Counting.{count, count-append, SameItems, length-SameItems}
use cs.Qsort.{Qsort, Ordered}
use cs.LinkedList.{Items}
use cs.LinkedList.Forward.{contents}
use cs.LinkedList.Ends.{list_visit_items-Chain}
use cs.LinkedList.Sorted.{list_insert_sorted-IsList}
use cs.LinkedList.Outside.{list_insert_sorted-Absent}
use cs.Harness.{c_string}
use cs.Harness.Echo.{IsWord, text}
use cs.Harness.Modes.{
  Strings, Store, Grant, no_store, text_at, all_texts, comparable, list_item_compare_string,
  insert_sorted, main, sort_word,
}
use cs.Harness.Modes.Owned.{Owned, texts, IsFreed}
use cs.Harness.Modes.Inserting.{old_texts, inserted-Owned}
use cs.Harness.Modes.Filling.{IsSupply, buffer_lines, KeepsLines, fill-lines}
use cs.Harness.Modes.Tailing.{no_store-Owned, texts-new, list_mode-texts, length-lines}
use cs.Harness.Modes.Reordered.{
  InOrder, compare-IsComparison, compare_reads, texts-map, value, map-value, value-some, map-some,
  map-Perm, Ordered-InOrder,
}

all_texts-true :
    (strings : Strings) (h : Items) (ts : List ℕ) (ls : List Text)
    → texts strings (contents h ts) ≡ map some ls
    → all_texts strings h ts ≡ true
all_texts-true strings h [] ls e = refl
all_texts-true strings h (t ∷ ts) [] e = absurd (ground (arith, e))
all_texts-true strings h (t ∷ ts) (l ∷ ls) e = ground (arith, e, all_texts-true strings h ts ls)

comparable-true :
    (s : Store) (ts : List ℕ) (g_buf : ℕ) (buf : List ℕ) (line : Text) (ls : List Text)
    → s.strings g_buf ≡ some buf
    → c_string buf ≡ some line
    → texts s.strings (contents s.items ts) ≡ map some ls
    → comparable s ts g_buf ≡ true
comparable-true s [] g_buf buf line ls at shown held = refl
comparable-true s (t ∷ ts) g_buf buf line ls at shown held =
    let all = all_texts-true s.strings s.items (t ∷ ts) ls held in rw (at, shown) all

-- The list has the lines as its texts, in the order of `strcmp`.
record Sorts (s : Store) (lines : List Text) : Type 0 where
  ts : List ℕ
  own : Owned s ts
  sorted : List Text
  held : texts s.strings (contents s.items ts) ≡ map some sorted
  perm : Perm sorted lines
  ordered : Ordered (list_item_compare_string s.strings s.items) ts
  as_long : length ts ≡ length lines

insert_sorted-KeepsLines : (qsort : Qsort) → KeepsLines (insert_sorted qsort) Sorts
unfolding insert_sorted
insert_sorted-KeepsLines qsort s g buf strings lines line p free filled shown small =
    let is = p.own.list in
    let old = old_texts s g buf strings p.ts p.own free filled ∙ p.held in
    let (h, l, ts', run, is', same, ordered, held) =
      list_insert_sorted-IsList qsort (list_item_compare_string strings) s.items s.list g.item g.buf
        p.ts (compare-IsComparison strings) (compare_reads strings) is free.item_real free.item_free
        (omega (arith, small, p.as_long)) in
    let absent : (a : ℕ) → s.items a ≡ none → g.item ≢ a → h a ≡ none = λ a out other.
      list_insert_sorted-Absent a qsort (list_item_compare_string strings) g.item g.buf s.items
        s.list out other (h, l) run in
    let all = p.ts ++ (g.item ∷ []) in
    let same' : SameItems ts' all = λ a. omega (arith, same a, count-append a p.ts (g.item ∷ [])) in
    let visited =
      list_visit_items-Chain s.list.length s.items s.list.head p.ts is.chain is.real
        (omega (arith, is.size)) in
    let tested =
      comparable-true (record s { strings = strings }) p.ts g.buf buf line p.sorted filled.new_buf
        shown old in
    let f = text_at strings h in
    let before : map f all ≡ map some (p.sorted ++ (line ∷ [])) =
      sym (texts-map strings h all)
      ∙ ap (texts strings) held
      ∙ texts-new g.buf buf line strings (contents s.items p.ts) p.sorted filled.new_buf shown
          old in
    let there : (a : ℕ) → 0 < count a ts' → f a ≡ some (value f a) =
      λ a i. value-some f all (p.sorted ++ (line ∷ [])) before a (omega (arith, i, same' a)) in
    (
      record { items = h; list = l; strings = strings },
      rw (insert_sorted, visited, run, tested) refl,
      record {
        ts = ts';
        own = inserted-Owned s g buf strings p.ts p.own free filled h l ts' is' same' held absent;
        sorted = map (value f) ts';
        held = texts-map strings h ts' ∙ map-some f ts' there;
        perm =
            Perm.trans
              (subst (λ zs. Perm (map (value f) ts') zs)
                (map-value f all (p.sorted ++ (line ∷ [])) before) (map-Perm f ts' all same'))
              (Perm.append_right (line ∷ []) p.perm);
        ordered = ordered;
        as_long = omega (
          arith,
          length-SameItems ts' all same',
          p.as_long,
          length-append p.ts (g.item ∷ []),
          length-append lines (line ∷ []),
        );
      },
      refl,
      absent,
    )

-- If the file that main of harness.c opens is made of words, each at the end of a line, none empty
-- or longer than 40 characters and none with a separator or a null byte, fewer than 2 ^ 32 words,
-- malloc grants buffers and items for one round more than there are words, all at different
-- addresses that are not null and in no use, and every buffer has a null byte behind its word,
-- then the mode sort ends and frees all items and buffers. It prints the texts of the buffers,
-- each the word and what the buffer held behind it up to the first null byte, reordered so that
-- strcmp finds none greater than a later one.
pub sort-prints :
    (qsort : Qsort) (fopen : Text → Option (List ℕ)) (gs : List Grant) (echo_buf : List ℕ)
    (name : Text) (ws lines : List Text)
    → fopen name ≡ some (text ws)
    → All IsWord ws
    → length ws < length gs
    → length ws < 2 ^ 32
    → IsSupply no_store gs
    → buffer_lines ws gs ≡ map some lines
    → (sorted : List Text) × (s : Store) × (main qsort fopen gs echo_buf (name ∷ sort_word ∷ [])
        ≡ done (sorted, s))
      × Perm sorted lines
      × InOrder sorted
      × IsFreed s
unfolding main
sort-prints qsort fopen gs echo_buf name ws lines opened words room small supply shown =
    let (s, run, p) =
      fill-lines (insert_sorted qsort) Sorts (insert_sorted-KeepsLines qsort) true true gs ws []
        lines no_store words room supply shown (omega (arith, small))
        (record {
          ts = [];
          own = no_store-Owned;
          sorted = [];
          held = refl;
          perm = Perm.refl [];
          ordered = tt;
          as_long = refl;
        }) in
    let (s', mode, freed) =
      list_mode-texts (insert_sorted qsort) gs (text ws) s p.ts p.sorted run p.own p.held
        (omega (arith, p.as_long, small, length-lines ws gs lines room shown)) in
    let f = text_at s.strings s.items in
    let all : map (value f) p.ts ≡ p.sorted =
      map-value f p.ts p.sorted (sym (texts-map s.strings s.items p.ts) ∙ p.held) in
    (
      p.sorted,
      s',
      rw (main, opened) mode,
      p.perm,
      subst InOrder all (Ordered-InOrder f p.ts p.ordered),
      freed,
    )
