-- ===== src/Harness/Modes/Inserting.antt =====
-- What an insertion of Asmt_1/harness.c makes of its memory.
use native.Mathlib.Decide.{ℕ_discrete}
use cs.Prelude.{
  ℕ, ◌+◌, ◌^◌, ◌<◌, ◌≡◌, ◌≢◌, refl, sym, ap, ◌∙◌, none, some, List, [], ◌∷◌, ◌++◌, arith, length,
  Bool-cases, ltb, inl, inr,
}
use cs.Exec.{done}
use cs.Counting.{count, count-append, SameItems}
use cs.LinkedList.{Items, ListT, null}
use cs.LinkedList.Forward.{IsList, contents}
use cs.LinkedList.Ends.{list_insert_tail-IsList}
use cs.LinkedList.Outside.{list_insert_tail-Absent}
use cs.Harness.Modes.{Strings, Store, Grant, insert_tail}
use cs.Harness.Modes.Owned.{Owned, texts, texts-agree, count-contents}

-- Addresses that `malloc` may return: not null, and in no use.
pub record IsFree (s : Store) (g : Grant) : Type 0 where
  pub buf_real : g.buf ≢ null
  pub item_real : g.item ≢ null
  pub buf_free : s.strings g.buf ≡ none
  pub item_free : s.items g.item ≡ none

-- The buffers after the words of a round have been read into the granted one.
pub record Filled (g : Grant) (buf : List ℕ) (before after : Strings) : Type 0 where
  pub new_buf : after g.buf ≡ some buf
  pub old_bufs : (b : ℕ) → g.buf ≢ b → after b ≡ before b

module _ (s : Store) (g : Grant) (buf : List ℕ) (strings : Strings) (ts : List ℕ) (own : Owned s ts)
    (free : IsFree s g) (filled : Filled g buf s.strings strings) where
  -- The granted buffer is none of the list's.
  new_buf-out : count g.buf (contents s.items ts) ≡ 0
  new_buf-out = elim (Bool-cases (ltb 0 (count g.buf (contents s.items ts)))) [
    | inl inside ↦
        let (old, at) = own.there g.buf (ground (arith, inside)) in
        absurd (ground (arith, at, free.buf_free))
    | inr outside ↦ ground (arith, outside)
  ]

  pub old_texts : texts strings (contents s.items ts) ≡ texts s.strings (contents s.items ts)
  old_texts = texts-agree s.strings strings (contents s.items ts) (λ b i.
      filled.old_bufs b
        (λ e. absurd (omega (arith, i, new_buf-out, ap (λ c. count c (contents s.items ts)) e))))

  -- A list of the old items and the new one, in any order, with its buffers.
  pub inserted-Owned :
      (h : Items) (l : ListT) (ts' : List ℕ)
      → IsList h l ts'
      → SameItems ts' (ts ++ (g.item ∷ []))
      → contents h (ts ++ (g.item ∷ [])) ≡ contents s.items ts ++ (g.buf ∷ [])
      → ((a : ℕ) → s.items a ≡ none → g.item ≢ a → h a ≡ none)
      → Owned (record { items = h; list = l; strings = strings }) ts'
  inserted-Owned h l ts' is same held absent =
      let all : (b : ℕ)
          → count b (contents h ts') ≡ count b (contents s.items ts) + count b (g.buf ∷ []) =
        λ b.
          count-contents h b ts' (ts ++ (g.item ∷ [])) same
          ∙ ap (count b) held
          ∙ sym (count-append b (contents s.items ts) (g.buf ∷ [])) in
      record {
        list = is;
        distinct = λ b. ground (arith, all b, own.distinct b, new_buf-out);
        real = ground (arith, all null, own.real, free.buf_real);
        there = λ b i. elim (ℕ_discrete g.buf b) [
          | yes e ↦ (buf, ap strings (sym e) ∙ filled.new_buf)
          | no other ↦
              let (old, at) = own.there b (ground (arith, all b, i, other)) in
              (old, filled.old_bufs b other ∙ at)
        ];
        no_item = λ a out.
            let split = count-append a ts (g.item ∷ []) in
            absent a (own.no_item a (omega (arith, same a, out, split)))
              (λ e. ground (arith, same a, out, split, e));
        no_string = λ b out.
            filled.old_bufs b (λ e. ground (arith, all b, out, e))
            ∙ own.no_string b (omega (arith, all b, out));
      }

  -- `list_insert_tail`
  pub insert_tail-Owned :
      length ts + 1 < 2 ^ 32
      → (s' : Store) × (insert_tail g (record s { strings = strings }) ≡ done s')
        × Owned s' (ts ++ (g.item ∷ []))
        × (contents s'.items (ts ++ (g.item ∷ [])) ≡ contents s.items ts ++ (g.buf ∷ []))
        × (s'.strings ≡ strings)
        × ((a : ℕ) → s.items a ≡ none → g.item ≢ a → s'.items a ≡ none)
  unfolding insert_tail
  insert_tail-Owned small =
      let (h, l, run, is, held) =
        list_insert_tail-IsList s.items s.list g.item g.buf ts own.list free.item_real
          free.item_free small in
      let absent : (a : ℕ) → s.items a ≡ none → g.item ≢ a → h a ≡ none =
        λ a out other. list_insert_tail-Absent a g.item g.buf s.items s.list out other (h, l) run in
      (
        record { items = h; list = l; strings = strings },
        rw (insert_tail, run) refl,
        inserted-Owned h l (ts ++ (g.item ∷ [])) is (λ a. refl) held absent,
        held,
        refl,
        absent,
      )
