-- ===== src/Harness/Modes/Owned.antt =====
-- The memory of Asmt_1/harness.c: every item of the list has its own buffer, and there is nothing else.
use native.Mathlib.Decide.{ℕ_discrete}
use cs.Prelude.{
  ℕ, zero, suc, ◌^◌, ◌≤◌, ◌<◌, ◌≡◌, ◌≢◌, refl, sym, ap, ◌∙◌, false, Option, none, some, List, [],
  ◌∷◌, ◌++◌, arith, ◌==◌, length, map, put, Text,
}
use cs.Exec.{done}
use cs.Counting.{count, count-append, Distinct, SameItems, SameItems-rest}
use cs.LinkedList.{Items, null}
use cs.LinkedList.Forward.{IsList, data_in, contents, contents-append}
use cs.LinkedList.Ends.{list_remove_head-IsList}
use cs.LinkedList.Outside.{list_remove_head-Absent}
use cs.Harness.Modes.{Strings, Store, buffer_text, free_buf, remove_head, cleanup_list}

pub record Owned (s : Store) (ts : List ℕ) : Type 0 where
  pub list : IsList s.items s.list ts
  pub distinct : Distinct (contents s.items ts)
  pub real : count null (contents s.items ts) ≡ 0
  pub there :
      (b : ℕ) → 0 < count b (contents s.items ts) → (buf : List ℕ) × (s.strings b ≡ some buf)
  pub no_item : (a : ℕ) → count a ts ≡ 0 → s.items a ≡ none
  pub no_string : (b : ℕ) → count b (contents s.items ts) ≡ 0 → s.strings b ≡ none

-- The texts of some buffers.
abbrev pub texts : Strings → List ℕ → List (Option Text)
texts strings bs = map (λ b. buffer_text (strings b)) bs

pub texts-agree :
    (strings strings' : Strings) (bs : List ℕ)
    → ((b : ℕ) → 0 < count b bs → strings' b ≡ strings b)
    → texts strings' bs ≡ texts strings bs
texts-agree strings strings' [] same = refl
texts-agree strings strings' (b ∷ bs) same =
    rw (same b (ground arith), texts-agree strings strings' bs (λ c i. same c (omega (arith, i))))
      refl

-- The pointers to the data, in another order of the items.
pub count-contents :
    (h : Items) (b : ℕ) (ys xs : List ℕ)
    → SameItems ys xs
    → count b (contents h ys) ≡ count b (contents h xs)
count-contents h b [] [] same = refl
count-contents h b [] (x ∷ xs) same = absurd (ground (arith, same x))
count-contents h b (y ∷ ys) xs same =
    let (front, back, e, rest) = SameItems-rest y ys xs same in
    let d = data_in (h y) in
    omega (
      arith,
      count-contents h b ys (front ++ back) rest,
      ap (λ zs. count b (contents h zs)) e,
      ap (count b) (contents-append h front back),
      ap (count b) (contents-append h front (y ∷ back)),
      count-append b (contents h front) (contents h back),
      count-append b (contents h front) (d ∷ contents h back),
    )

-- The memory when `b` is freed, and nothing else.
free_buf-done :
    (b : ℕ) (strings : Strings) (buf : List ℕ)
    → b ≢ null
    → strings b ≡ some buf
    → free_buf b strings ≡ done (put strings b none)
unfolding free_buf
free_buf-done b strings buf real at =
    let e : (b == null) ≡ false = ground (arith, real) in rw (free_buf, e, at) refl

-- The first item goes, with its buffer.
pub remove_head-Owned :
    (s : Store) (t : ℕ) (ts : List ℕ)
    → Owned s (t ∷ ts)
    → length ts < 2 ^ 32
    → (s' : Store) × (remove_head s ≡ done ([], s'))
      × Owned s' ts
      × (texts s'.strings (contents s'.items ts) ≡ texts s.strings (contents s.items ts))
unfolding remove_head
remove_head-Owned s t ts own small =
    let (h', l', run, is, held, gone) =
      list_remove_head-IsList s.items s.list t ts own.list small in
    let d = data_in (s.items t) in
    let strings' = put s.strings d none in
    let (buf, at) = own.there d (ground arith) in
    let far : d ≢ null = λ e. absurd (ground (arith, own.real, ap (count null) held, e)) in
    let freed = free_buf-done d s.strings buf far at in
    let same : (b : ℕ) → 0 < count b (contents s.items ts) → strings' b ≡ s.strings b =
      λ b i. ground (arith, own.distinct d, i) in
    (
      record { items = h'; list = l'; strings = strings' },
      rw (remove_head, run, freed) refl,
      record {
        list = is;
        distinct = λ b. rw held (omega (arith, own.distinct b));
        real = rw held (omega (arith, own.real));
        there = λ b i.
            let j : 0 < count b (contents s.items ts) = omega (arith, i, ap (count b) held) in
            let (old, there) = own.there b (omega (arith, j)) in (old, same b j ∙ there);
        no_item = λ a out. elim (ℕ_discrete t a) [
          | yes e ↦ ap h' (sym e) ∙ gone
          | no other ↦
              list_remove_head-Absent a s.items s.list (own.no_item a (ground (arith, out, other)))
                _ run
        ];
        no_string = λ b out. ground (arith, ap (count b) held, own.no_string b, out);
      },
      ap (texts strings') held ∙ texts-agree s.strings strings' (contents s.items ts) same,
    )

-- What `cleanup_list` leaves.
pub record IsFreed (s : Store) : Type 0 where
  pub no_head : s.list.head ≡ null
  pub items_gone : (a : ℕ) → s.items a ≡ none
  pub strings_gone : (b : ℕ) → s.strings b ≡ none

Owned-nil : (s : Store) → Owned s [] → IsFreed s
Owned-nil s own = record {
  no_head = own.list.chain;
  items_gone = λ a. own.no_item a refl;
  strings_gone = λ b. own.no_string b refl;
}

-- `cleanup_list` ends after as many rounds as there are items, with an empty list and no memory left.
pub cleanup_list-empty :
    (fuel : ℕ) (s : Store) (ts : List ℕ)
    → Owned s ts
    → length ts < 2 ^ 32
    → length ts ≤ fuel
    → (s' : Store) × (cleanup_list fuel s ≡ done s') × IsFreed s'
unfolding cleanup_list
cleanup_list-empty zero s [] own small room =
    (s, rw (cleanup_list, own.list.chain) refl, Owned-nil s own)
cleanup_list-empty (suc fuel) s [] own small room =
    (s, rw (cleanup_list, own.list.chain) refl, Owned-nil s own)
cleanup_list-empty zero s (t ∷ ts) own small room = absurd (omega arith)
cleanup_list-empty (suc fuel) s (t ∷ ts) own small room =
    let on : (s.list.head == null) ≡ false = ground (arith, own.list.real, own.list.chain.0) in
    let (s1, run, own1, kept) = remove_head-Owned s t ts own (omega arith) in
    let (s', rest, freed) = cleanup_list-empty fuel s1 ts own1 (omega arith) (omega arith) in
    (s', rw (cleanup_list, on, run) rest, freed)
