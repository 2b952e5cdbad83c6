-- ===== src/Harness/Modes/Tailing.antt =====
-- The mode `tail` of Asmt_1/harness.c.

use cs.Prelude.{
  ℕ, suc, ◌^◌, ◌<◌, ◌≡◌, refl, ap, ◌∙◌, Bool, true, Option, some, List, [], ◌∷◌, ◌++◌, arith,
  length, length-append, map, Text, All,
}
use cs.Exec.{Exec, done}
use cs.Qsort.{Qsort}
use cs.LinkedList.Forward.{contents}
use cs.Harness.{c_string}
use cs.Harness.Echo.{IsWord, text}
use cs.Harness.Modes.{
  Strings, Store, Grant, no_store, insert_tail, fill, list_mode, main, tail_word,
}
use cs.Harness.Modes.Owned.{Owned, texts, IsFreed, cleanup_list-empty}
use cs.Harness.Modes.Showing.{print_list-texts}
use cs.Harness.Modes.Inserting.{old_texts, insert_tail-Owned}
use cs.Harness.Modes.Filling.{IsSupply, buffer_lines, KeepsLines, fill-lines}

-- The list has the lines as its texts, in order.
pub record Lists (s : Store) (lines : List Text) : Type 0 where
  pub ts : List ℕ
  pub own : Owned s ts
  pub held : texts s.strings (contents s.items ts) ≡ map some lines
  pub as_long : length ts ≡ length lines

pub no_store-Owned : Owned no_store []
unfolding no_store
no_store-Owned = record {
  list = record { chain = refl; distinct = λ a. omega arith; real = refl; size = refl; end = tt };
  distinct = λ b. omega arith;
  real = refl;
  there = λ b i. absurd (omega (arith, i));
  no_item = λ a out. refl;
  no_string = λ b out. refl;
}

-- The texts of the old buffers and of the new one.
pub texts-new :
    (g_buf : ℕ) (buf : List ℕ) (line : Text) (strings : Strings) (bs : List ℕ) (lines : List Text)
    → strings g_buf ≡ some buf
    → c_string buf ≡ some line
    → texts strings bs ≡ map some lines
    → texts strings (bs ++ (g_buf ∷ [])) ≡ map some (lines ++ (line ∷ []))
texts-new g_buf buf line strings [] [] at shown held = ground (arith, at, shown)
texts-new g_buf buf line strings [] (t ∷ lines) at shown held = absurd (ground (arith, held))
texts-new g_buf buf line strings (b ∷ bs) [] at shown held = absurd (ground (arith, held))
texts-new g_buf buf line strings (b ∷ bs) (t ∷ lines) at shown held =
    ground (arith, held, texts-new g_buf buf line strings bs lines at shown)

insert_tail-KeepsLines : KeepsLines insert_tail Lists
insert_tail-KeepsLines s g buf strings lines line p free filled shown small =
    let (s', run, own, held, same, absent) =
      insert_tail-Owned s g buf strings p.ts p.own free filled (omega (arith, small, p.as_long)) in
    let old = old_texts s g buf strings p.ts p.own free filled ∙ p.held in
    (
      s',
      run,
      record {
        ts = p.ts ++ (g.item ∷ []);
        own = own;
        held =
            ap (λ f. texts f (contents s'.items (p.ts ++ (g.item ∷ [])))) same
            ∙ ap (texts strings) held
            ∙ texts-new g.buf buf line strings (contents s.items p.ts) lines filled.new_buf shown
                old;
        as_long =
            omega
              (arith, p.as_long, length-append p.ts (g.item ∷ []), length-append lines (line ∷ []));
      },
      same,
      absent,
    )

-- A mode prints the texts of the list that was filled, and frees everything.
pub list_mode-texts :
    (insert : Grant → Store → Exec Store) (gs : List Grant) (f : List ℕ) (s : Store) (ts : List ℕ)
    (lines : List Text)
    → fill true true insert gs f no_store ≡ done s
    → Owned s ts
    → texts s.strings (contents s.items ts) ≡ map some lines
    → length ts < 2 ^ 32
    → (s' : Store) × (list_mode insert gs f ≡ done (lines, s')) × IsFreed s'
unfolding list_mode
list_mode-texts insert gs f s ts lines run own held small =
    let shown = print_list-texts s ts lines own held in
    let (s', cleaned, freed) =
      cleanup_list-empty s.list.length s ts own small (omega (arith, own.list.size)) in
    (s', rw (list_mode, run, shown, cleaned) refl, freed)

pub fill_tail-Lists :
    (first later : Bool) (gs : List Grant) (ws lines : List Text)
    → All IsWord ws
    → length ws < length gs
    → length ws < 2 ^ 32
    → IsSupply no_store gs
    → buffer_lines ws gs ≡ map some lines
    → (s : Store) × (fill first later insert_tail gs (text ws) no_store ≡ done s) × Lists s lines
fill_tail-Lists first later gs ws lines words room small supply shown =
    fill-lines insert_tail Lists insert_tail-KeepsLines first later gs ws [] lines no_store words
      room supply shown (omega (arith, small))
      (record { ts = []; own = no_store-Owned; held = refl; as_long = refl })

pub length-lines :
    (ws : List Text) (gs : List Grant) (lines : List Text)
    → length ws < length gs
    → buffer_lines ws gs ≡ map some lines
    → length lines ≡ length ws
length-lines [] gs [] room shown = refl
length-lines [] gs (t ∷ lines) room shown = absurd (ground (arith, shown))
length-lines (w ∷ ws) [] lines room shown = absurd (omega (arith, room))
length-lines (w ∷ ws) (g ∷ gs) [] room shown = absurd (ground (arith, shown))
length-lines (w ∷ ws) (g ∷ gs) (t ∷ lines) room shown =
    ap suc (length-lines ws gs lines (omega (arith, room)) (ground (arith, shown)))

-- If the file that main of harness.c opens is made of words, each at the end of a line, none empty
-- or longer than 40 characters and none with a separator or a null byte, fewer than 2 ^ 32 words,
-- malloc grants buffers and items for one round more than there are words, all at different
-- addresses that are not null and in no use, and every buffer has a null byte behind its word,
-- then the mode tail ends and frees all items and buffers. It prints the texts of the buffers,
-- each the word and what the buffer held behind it up to the first null byte, in order.
pub tail-prints :
    (qsort : Qsort) (fopen : Text → Option (List ℕ)) (gs : List Grant) (echo_buf : List ℕ)
    (name : Text) (ws lines : List Text)
    → fopen name ≡ some (text ws)
    → All IsWord ws
    → length ws < length gs
    → length ws < 2 ^ 32
    → IsSupply no_store gs
    → buffer_lines ws gs ≡ map some lines
    → (s : Store) × (main qsort fopen gs echo_buf (name ∷ tail_word ∷ []) ≡ done (lines, s))
      × IsFreed s
unfolding main
tail-prints qsort fopen gs echo_buf name ws lines opened words room small supply shown =
    let (s, run, p) = fill_tail-Lists true true gs ws lines words room small supply shown in
    let (s', mode, freed) =
      list_mode-texts insert_tail gs (text ws) s p.ts lines run p.own p.held
        (omega (arith, p.as_long, small, length-lines ws gs lines room shown)) in
    (s', rw (main, opened) mode, freed)
