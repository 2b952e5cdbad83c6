-- ===== src/Counting.antt =====
-- Lists of pointers by the number of times that each occurs: membership, distinctness, reordering.
use native.Mathlib.Decide.{ℕ_discrete}
use cs.Prelude.{
  ℕ, ◌+◌, ◌≤◌, ◌<◌, ◌≡◌, refl, ap, List, [], ◌∷◌, ◌++◌, arith, ◌==◌, if◌then◌else◌, length,
  length-append,
}

abbrev pub count : ℕ → List ℕ → ℕ
count a [] = 0
count a (x ∷ xs) = (if a == x then 1 else 0) + count a xs

pub count-one : (a : ℕ) → count a (a ∷ []) ≡ 1
count-one a = ground arith

-- No pointer occurs twice.
abbrev pub Distinct : List ℕ → Type 0
Distinct xs = (a : ℕ) → count a xs ≤ 1

-- The same pointers, each as often.
abbrev pub SameItems : List ℕ → List ℕ → Type 0
SameItems before after = (p : ℕ) → count p before ≡ count p after

-- The occurrences in two parts of a list.
pub count-append :
    (p : ℕ) (front back : List ℕ) → count p front + count p back ≡ count p (front ++ back)
count-append p [] back = omega arith
count-append p (t ∷ front) back = omega (arith, count-append p front back)

-- Where a pointer occurs the list can be split.
pub count-split :
    (a : ℕ) (ts : List ℕ) → 0 < count a ts → (xs : List ℕ) × (ys : List ℕ) × (ts ≡ xs ++ (a ∷ ys))
count-split a [] h = absurd (omega arith)
count-split a (t ∷ ts) h = elim (ℕ_discrete a t) [
  | yes e ↦ ([], ts, rw e)
  | no ne ↦ let (xs, ys, e) = count-split a ts (ground arith) in (t ∷ xs, ys, rw e)
]

-- A reordering has the length of the list.
pub length-SameItems : (xs ys : List ℕ) → SameItems xs ys → length xs ≡ length ys
length-SameItems [] [] same = refl
length-SameItems [] (y ∷ ys) same = absurd (ground (arith, same y))
length-SameItems (x ∷ xs) ys same =
    let (front, back, e) = count-split x ys (ground (arith, same x)) in
    let rest : SameItems xs (front ++ back) = λ a.
      omega (
        arith,
        same a,
        ap (count a) e,
        count-append a front back,
        count-append a front (x ∷ back),
      ) in
    omega (
      arith,
      length-SameItems xs (front ++ back) rest,
      length-append front back,
      length-append front (x ∷ back),
      ap length e,
    )

-- The rest of a reordering, without its first pointer.
pub SameItems-rest :
    (x : ℕ) (xs ys : List ℕ)
    → SameItems (x ∷ xs) ys
    → (front : List ℕ) × (back : List ℕ) × (ys ≡ front ++ (x ∷ back)) × SameItems xs (front ++ back)
SameItems-rest x xs ys same =
    let (front, back, e) = count-split x ys (ground (arith, same x)) in
    (
      front,
      back,
      e,
      λ a. omega (
        arith,
        same a,
        ap (count a) e,
        count-append a front back,
        count-append a front (x ∷ back),
      ),
    )
