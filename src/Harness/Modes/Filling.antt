-- ===== src/Harness/Modes/Filling.antt =====
-- The loop of Asmt_1/harness.c that fills the list with the words of a file, with any insertion.
use native.Mathlib.Decide.{ℕ_discrete}
use mathlib.Core.Path.{fun_ext}
use cs.Prelude.{
  ℕ, ◌+◌, ◌^◌, ◌<◌, ◌≡◌, ◌≢◌, refl, sym, subst, ap, ◌∙◌, Bool, true, false, Option, none, some,
  List, [], ◌∷◌, ◌++◌, append-nil, append_assoc, arith, ◌==◌, ltb, length, length-append, map, put,
  Text, All,
}
use cs.Exec.{Exec, done}
use cs.Counting.{count, Distinct}
use cs.LinkedList.{null}
use cs.Harness.{c_string}
use cs.Harness.Echo.{drop, IsWord, text, newline-is_end, read_line-word, read_line-eof}
use cs.Harness.Modes.{Strings, Store, Grant, malloc_buf, free_buf, read_into, fill}
use cs.Harness.Modes.Showing.{head_or, tail_or_nil}
use cs.Harness.Modes.Inserting.{IsFree, Filled}

abbrev pub bufs : List Grant → List ℕ
bufs [] = []
bufs (g ∷ gs) = g.buf ∷ bufs gs

abbrev pub new_items : List Grant → List ℕ
new_items [] = []
new_items (g ∷ gs) = g.item ∷ new_items gs

-- What `malloc` grants: addresses that are not null, in no use and all different, and 41 bytes.
pub record IsSupply (s : Store) (gs : List Grant) : Type 0 where
  pub bufs_real : count null (bufs gs) ≡ 0
  pub items_real : count null (new_items gs) ≡ 0
  pub bufs_distinct : Distinct (bufs gs)
  pub items_distinct : Distinct (new_items gs)
  pub bufs_free : (b : ℕ) → 0 < count b (bufs gs) → s.strings b ≡ none
  pub items_free : (a : ℕ) → 0 < count a (new_items gs) → s.items a ≡ none
  pub sizes : All (λ g. length g.junk ≡ 41) gs

-- What stands in the buffers up to the first null byte when the words have been read.
abbrev pub buffer_lines : List Text → List Grant → List (Option Text)
buffer_lines [] gs = []
buffer_lines (w ∷ ws) [] = []
buffer_lines (w ∷ ws) (g ∷ gs) = c_string (w ++ drop (length w) g.junk) ∷ buffer_lines ws gs

abbrev holding : Strings → Grant → Strings
holding strings g = put strings g.buf (some g.junk)

module _ (s : Store) (g : Grant) (gs : List Grant) (supply : IsSupply s (g ∷ gs)) where
  IsSupply-IsFree : IsFree s g
  IsSupply-IsFree = record {
    buf_real = λ e. ground (arith, supply.bufs_real, e);
    item_real = λ e. ground (arith, supply.items_real, e);
    buf_free = supply.bufs_free g.buf (ground arith);
    item_free = supply.items_free g.item (ground arith);
  }

  malloc_buf-granted : (tested : Bool) → malloc_buf tested g s.strings ≡ done (holding s.strings g)
  unfolding malloc_buf
  malloc_buf-granted tested =
      let e : (g.buf == null) ≡ false = ground (arith, IsSupply-IsFree.buf_real) in
      rw (malloc_buf, e) refl

  -- What is left of the supply after a round.
  IsSupply-rest :
      (buf : List ℕ) (strings : Strings) (s' : Store)
      → Filled g buf s.strings strings
      → s'.strings ≡ strings
      → ((a : ℕ) → s.items a ≡ none → g.item ≢ a → s'.items a ≡ none)
      → IsSupply s' gs
  IsSupply-rest buf strings s' filled same absent = record {
    bufs_real = ground (arith, supply.bufs_real);
    items_real = ground (arith, supply.items_real);
    bufs_distinct = λ b. omega (arith, supply.bufs_distinct b);
    items_distinct = λ a. omega (arith, supply.items_distinct a);
    bufs_free = λ b i.
        ap (λ f. f b) same
        ∙ filled.old_bufs b (λ e. ground (arith, supply.bufs_distinct b, i, e))
        ∙ supply.bufs_free b (omega (arith, i));
    items_free = λ a i.
        absent a (supply.items_free a (omega (arith, i)))
          (λ e. ground (arith, supply.items_distinct a, i, e));
    sizes = supply.sizes.1;
  }

  -- A round that reads a word.
  read_into-word :
      (w rest : List ℕ)
      → IsWord w
      → let buf = w ++ drop (length w) g.junk in
        read_into g.buf (holding s.strings g) (w ++ (10 ∷ rest))
        ≡ done (true, put (holding s.strings g) g.buf (some buf), rest)
  unfolding read_into
  read_into-word w rest is =
      let at : holding s.strings g g.buf ≡ some g.junk = ground arith in
      let read =
        read_line-word 41 g.junk w rest 10 is.no_end newline-is_end (omega (arith, is.small))
          (omega (arith, supply.sizes.0)) in
      let more : ltb 0 (length w) ≡ true = ground (arith, is.some_char) in
      rw (read_into, at, read, more) refl

  word-Filled : (buf : List ℕ) → Filled g buf s.strings (put (holding s.strings g) g.buf (some buf))
  word-Filled buf = record { new_buf = ground arith; old_bufs = λ b other. ground (arith, other) }

  -- The last round reads nothing, and its buffer is freed.
  read_into-eof :
      read_into g.buf (holding s.strings g) []
      ≡ done (false, put (holding s.strings g) g.buf (some g.junk), [])
  unfolding read_into
  read_into-eof =
      let at : holding s.strings g g.buf ≡ some g.junk = ground arith in
      rw (read_into, at, read_line-eof 40 g.junk) refl

  free_last : free_buf g.buf (put (holding s.strings g) g.buf (some g.junk)) ≡ done s.strings
  unfolding free_buf
  free_last =
      let e : (g.buf == null) ≡ false = ground (arith, IsSupply-IsFree.buf_real) in
      let strings = put (holding s.strings g) g.buf (some g.junk) in
      let at : strings g.buf ≡ some g.junk = ground arith in
      rw (free_buf, e, at) (ap done (fun_ext back))
    where
      back :
          (b : ℕ) → put (put (holding s.strings g) g.buf (some g.junk)) g.buf none b ≡ s.strings b
      back b = elim (ℕ_discrete g.buf b) [
        | yes same ↦ ground (arith, same, IsSupply-IsFree.buf_free)
        | no other ↦ ground (arith, other)
      ]

module _ (insert : Grant → Store → Exec Store) (P : Store → List Text → Type 0) where
  -- A round keeps `P`, with the text of its buffer.
  abbrev pub KeepsLines : Type 0
  KeepsLines =
      (s : Store) (g : Grant) (buf : List ℕ) (strings : Strings) (lines : List Text) (line : Text)
      → P s lines
      → IsFree s g
      → Filled g buf s.strings strings
      → c_string buf ≡ some line
      → length lines + 1 < 2 ^ 32
      → (s' : Store) × (insert g (record s { strings = strings }) ≡ done s')
        × P s' (lines ++ (line ∷ []))
        × (s'.strings ≡ strings)
        × ((a : ℕ) → s.items a ≡ none → g.item ≢ a → s'.items a ≡ none)

  pub fill-lines :
      KeepsLines
      → (first later : Bool) (gs : List Grant) (ws before lines : List Text) (s : Store)
      → All IsWord ws
      → length ws < length gs
      → IsSupply s gs
      → buffer_lines ws gs ≡ map some lines
      → length before + length ws < 2 ^ 32
      → P s before
      → (s' : Store) × (fill first later insert gs (text ws) s ≡ done s') × P s' (before ++ lines)
  unfolding fill
  fill-lines keeps first later [] ws before lines s words room supply shown small p =
      absurd (omega arith)
  fill-lines keeps first later (g ∷ gs) [] before [] s words room supply shown small p = (
    s,
    rw
        (
          fill,
          malloc_buf-granted s g gs supply first,
          read_into-eof s g gs supply,
          free_last s g gs supply,
        )
        refl,
    subst (P s) (sym (append-nil before)) p,
  )
  fill-lines keeps first later (g ∷ gs) [] before (t ∷ lines) s words room supply shown small p =
      absurd (ground (arith, shown))
  fill-lines keeps first later (g ∷ gs) (w ∷ ws) before [] s words room supply shown small p =
      absurd (ground (arith, shown))
  fill-lines keeps first later (g ∷ gs) (w ∷ ws) before (t ∷ lines) s words room supply shown small
        p =
      let buf = w ++ drop (length w) g.junk in
      let strings = put (holding s.strings g) g.buf (some buf) in
      let filled = word-Filled s g gs supply buf in
      let (s1, run, p1, same, absent) =
        keeps s g buf strings before t p (IsSupply-IsFree s g gs supply) filled
          (ap (head_or none) shown) (omega (arith, small)) in
      let (s', rest, p') =
        fill-lines keeps later later gs ws (before ++ (t ∷ [])) lines s1 words.1
          (omega (arith, room)) (IsSupply-rest s g gs supply buf strings s1 filled same absent)
          (ap tail_or_nil shown) (omega (arith, small, length-append before (t ∷ []))) p1 in
      (
        s',
        rw
            (
              fill,
              malloc_buf-granted s g gs supply first,
              read_into-word s g gs supply w (text ws) words.0,
              run,
            )
            rest,
        subst (P s') (append_assoc before (t ∷ []) lines) p',
      )
