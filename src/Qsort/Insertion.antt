-- ===== src/Qsort/Insertion.antt =====
-- An insertion sort meets the contract of `qsort`.
use cs.Prelude.{
  ℕ, suc, ◌≡◌, refl, inl, inr, Bool-cases, List, [], ◌∷◌, arith, if◌then◌else◌, length, All, ℤ, pos,
  ◌≤ℤ◌, leb_ℤ,
}
use cs.Counting.{count}
use cs.Qsort.{IsComparison, Ordered, Qsort}

module _ (compare : ℕ → ℕ → ℤ) where
  unfoldable pub insert : ℕ → List ℕ → List ℕ
  insert x [] = x ∷ []
  insert x (y ∷ ys) = if leb_ℤ (compare x y) (pos 0) then x ∷ y ∷ ys else y ∷ insert x ys

  unfoldable pub insertion_sort : List ℕ → List ℕ
  insertion_sort [] = []
  insertion_sort (x ∷ xs) = insert x (insertion_sort xs)

  count-insert : (a x : ℕ) (ys : List ℕ) → count a (insert x ys) ≡ count a (x ∷ ys)
  unfolding insert
  count-insert a x [] = refl
  count-insert a x (y ∷ ys) = ground (arith, count-insert a x ys)

  pub count-insertion_sort : (a : ℕ) (xs : List ℕ) → count a (insertion_sort xs) ≡ count a xs
  unfolding insertion_sort
  count-insertion_sort a [] = refl
  count-insertion_sort a (x ∷ xs) =
      omega (arith, count-insert a x (insertion_sort xs), count-insertion_sort a xs)

  length-insert : (x : ℕ) (ys : List ℕ) → length (insert x ys) ≡ suc (length ys)
  unfolding insert
  length-insert x [] = refl
  length-insert x (y ∷ ys) = ground (arith, length-insert x ys)

  pub length-insertion_sort : (xs : List ℕ) → length (insertion_sort xs) ≡ length xs
  unfolding insertion_sort
  length-insertion_sort [] = refl
  length-insertion_sort (x ∷ xs) =
      omega (arith, length-insert x (insertion_sort xs), length-insertion_sort xs)

  module _ (is : IsComparison compare) where
    All-trans :
        (x y : ℕ) (ys : List ℕ)
        → compare x y ≤ℤ pos 0
        → All (λ z. compare y z ≤ℤ pos 0) ys
        → All (λ z. compare x z ≤ℤ pos 0) ys
    All-trans x y [] le all = tt
    All-trans x y (z ∷ ys) le all = (is.transitive x y z le all.0, All-trans x y ys le all.1)

    All-insert :
        (x y : ℕ) (ys : List ℕ)
        → compare y x ≤ℤ pos 0
        → All (λ z. compare y z ≤ℤ pos 0) ys
        → All (λ z. compare y z ≤ℤ pos 0) (insert x ys)
    unfolding insert
    All-insert x y [] le all = (le, tt)
    All-insert x y (z ∷ ys) le all = elim (Bool-cases (leb_ℤ (compare x z) (pos 0))) [
      | inl small ↦ rw small (le, all)
      | inr large ↦ rw large (all.0, All-insert x y ys le all.1)
    ]

    Ordered-insert : (x : ℕ) (ys : List ℕ) → Ordered compare ys → Ordered compare (insert x ys)
    unfolding insert
    Ordered-insert x [] o = (tt, tt)
    Ordered-insert x (y ∷ ys) o = elim (Bool-cases (leb_ℤ (compare x y) (pos 0))) [
      | inl small ↦
          let le : compare x y ≤ℤ pos 0 = ground arith in
          rw small ((le, All-trans x y ys le o.0), o)
      | inr large ↦
          let le : compare y x ≤ℤ pos 0 = ground (arith, is.total x y) in
          rw large (All-insert x y ys le o.0, Ordered-insert x ys o.1)
    ]

    pub Ordered-insertion_sort : (xs : List ℕ) → Ordered compare (insertion_sort xs)
    unfolding insertion_sort
    Ordered-insertion_sort [] = tt
    Ordered-insertion_sort (x ∷ xs) =
        Ordered-insert x (insertion_sort xs) (Ordered-insertion_sort xs)

abbrev pub insertion : Qsort
insertion = record {
  sort = insertion_sort;
  same = λ compare xs a. count-insertion_sort compare a xs;
  size = length-insertion_sort;
  ordered = λ compare xs is. Ordered-insertion_sort compare is xs;
}
