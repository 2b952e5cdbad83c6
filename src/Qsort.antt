-- ===== src/Qsort.antt =====
-- The C library's `qsort` on an array of pointers, as the programs rely on it. The order of elements
-- that compare equal is left open, as the C standard leaves it.
pub mod Insertion
pub mod Orders
use cs.Prelude.{ℕ, ◌≡◌, ◌⊎◌, List, [], ◌∷◌, length, All, ℤ, pos, ◌≤ℤ◌}
use cs.Counting.{SameItems}

-- A comparison function that orders its arguments.
pub record IsComparison (compare : ℕ → ℕ → ℤ) : Type 0 where
  pub total : (a b : ℕ) → (compare a b ≤ℤ pos 0) ⊎ (compare b a ≤ℤ pos 0)
  pub transitive : (a b c : ℕ) → compare a b ≤ℤ pos 0 → compare b c ≤ℤ pos 0 → compare a c ≤ℤ pos 0

abbrev pub Ordered : (ℕ → ℕ → ℤ) → List ℕ → Type 0
Ordered compare [] = Unit
Ordered compare (x ∷ xs) = All (λ y. compare x y ≤ℤ pos 0) xs × Ordered compare xs

-- A sorting function: it reorders its array, into ascending order.
pub record Qsort : Type 0 where
  pub sort : (ℕ → ℕ → ℤ) → List ℕ → List ℕ
  pub same : (compare : ℕ → ℕ → ℤ) (xs : List ℕ) → SameItems (sort compare xs) xs
  pub size : (compare : ℕ → ℕ → ℤ) (xs : List ℕ) → length (sort compare xs) ≡ length xs
  pub ordered :
      (compare : ℕ → ℕ → ℤ) (xs : List ℕ) → IsComparison compare → Ordered compare (sort compare xs)
