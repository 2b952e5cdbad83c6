-- ===== src/Harness/Modes/Reordered.antt =====
-- The texts of a list of Asmt_1/harness.c in another order, and in the order of `strcmp`.
use mathlib.Core.List.{Perm, perm_middle, map-append}
use mathlib.Core.List.Perm
use native.Mathlib.Decide.{ℕ_discrete}
use mathlib.Core.Path.{fun_ext}
use cs.Prelude.{
  ℕ, ◌<◌, ◌≡◌, refl, sym, ap, ◌∙◌, subst, Option, none, some, List, [], ◌∷◌, ◌++◌, arith, map, Text,
  All, ℤ, pos, ◌≤ℤ◌,
}
use cs.Counting.{count, SameItems, SameItems-rest}
use cs.Qsort.{IsComparison, Ordered}
use cs.LinkedList.{Items}
use cs.LinkedList.Forward.{data_in, contents}
use cs.Harness.Strcmp.{strcmp, strcmp_total, strcmp_trans}
use cs.Harness.Modes.{buffer_text, Strings, text_at, text_or_nil, list_item_compare_string}
use cs.Harness.Modes.Owned.{texts}
use cs.Harness.Modes.Showing.{head_or, tail_or_nil}

-- Texts in the order of `strcmp`.
abbrev pub InOrder : List Text → Type 0
InOrder [] = Unit
InOrder (t ∷ ts) = All (λ u. strcmp t u ≤ℤ pos 0) ts × InOrder ts

-- The comparison orders its arguments, whatever the memory holds.
pub compare-IsComparison :
    (strings : Strings) (h : Items) → IsComparison (list_item_compare_string strings h)
compare-IsComparison strings h = record {
  total =
      λ a b. strcmp_total (text_or_nil (text_at strings h a)) (text_or_nil (text_at strings h b));
  transitive = λ a b c.
      strcmp_trans (text_or_nil (text_at strings h a)) (text_or_nil (text_at strings h b))
        (text_or_nil (text_at strings h c));
}

pub compare_reads :
    (strings : Strings) (j k : Items)
    → ((t : ℕ) → data_in (j t) ≡ data_in (k t))
    → list_item_compare_string strings j ≡ list_item_compare_string strings k
compare_reads strings j k same =
    let compare_by : (ℕ → ℕ) → ℕ → ℕ → ℤ = λ f a b.
      strcmp (text_or_nil (buffer_text (strings (f a))))
        (text_or_nil (buffer_text (strings (f b)))) in
    ap compare_by (fun_ext same)

pub texts-map :
    (strings : Strings) (h : Items) (ts : List ℕ)
    → texts strings (contents h ts) ≡ map (text_at strings h) ts
texts-map strings h [] = refl
texts-map strings h (t ∷ ts) = ap (λ xs. text_at strings h t ∷ xs) (texts-map strings h ts)

-- Values of a function on a reordered list.
module _ (f : ℕ → Option Text) where
  abbrev pub value : ℕ → Text
  value a = text_or_nil (f a)

  pub map-value : (xs : List ℕ) (ls : List Text) → map f xs ≡ map some ls → map value xs ≡ ls
  map-value [] [] e = refl
  map-value [] (t ∷ ls) e = absurd (ground (arith, e))
  map-value (x ∷ xs) [] e = absurd (ground (arith, e))
  map-value (x ∷ xs) (t ∷ ls) e = ground (arith, e, map-value xs ls)

  pub value-some :
      (xs : List ℕ) (ls : List Text)
      → map f xs ≡ map some ls
      → (a : ℕ) → 0 < count a xs
      → f a ≡ some (value a)
  value-some [] ls e a i = absurd (omega (arith, i))
  value-some (x ∷ xs) [] e a i = absurd (ground (arith, e))
  value-some (x ∷ xs) (t ∷ ls) e a i =
      let at : f x ≡ some t = ap (head_or none) e in
      elim (ℕ_discrete x a) [
        | yes same ↦ subst (λ b. f b ≡ some (value b)) same (at ∙ ap some (sym (ap text_or_nil at)))
        | no other ↦ value-some xs ls (ap tail_or_nil e) a (ground (arith, i, other))
      ]

  pub map-some :
      (ys : List ℕ)
      → ((a : ℕ) → 0 < count a ys → f a ≡ some (value a))
      → map f ys ≡ map some (map value ys)
  map-some [] is = refl
  map-some (y ∷ ys) is = rw (is y (ground arith), map-some ys (λ a i. is a (omega (arith, i)))) refl

  pub map-Perm : (ys xs : List ℕ) → SameItems ys xs → Perm (map value ys) (map value xs)
  map-Perm [] [] same = Perm.refl []
  map-Perm [] (x ∷ xs) same = absurd (ground (arith, same x))
  map-Perm (y ∷ ys) xs same =
      let (front, back, e, rest) = SameItems-rest y ys xs same in
      let split : map value xs ≡ map value front ++ (value y ∷ map value back) =
        ap (map value) e ∙ map-append value front (y ∷ back) in
      let joined : map value (front ++ back) ≡ map value front ++ map value back =
        map-append value front back in
      subst (λ zs. Perm (map value (y ∷ ys)) zs) (sym split)
        (Perm.trans
          (Perm.cons (value y)
            (subst (λ zs. Perm (map value ys) zs) joined (map-Perm ys (front ++ back) rest)))
          (Perm.symm (perm_middle (map value front) (map value back))))

  All-value :
      (t : ℕ) (ts : List ℕ)
      → All (λ u. strcmp (value t) (value u) ≤ℤ pos 0) ts
      → All (λ u. strcmp (value t) u ≤ℤ pos 0) (map value ts)
  All-value t [] all = tt
  All-value t (u ∷ ts) all = (all.0, All-value t ts all.1)

  pub Ordered-InOrder :
      (ts : List ℕ) → Ordered (λ a b. strcmp (value a) (value b)) ts → InOrder (map value ts)
  Ordered-InOrder [] o = tt
  Ordered-InOrder (t ∷ ts) o = (All-value t ts o.0, Ordered-InOrder ts o.1)
