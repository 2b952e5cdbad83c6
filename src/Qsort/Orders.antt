-- ===== src/Qsort/Orders.antt =====
-- Ordered lists of pointers: keys, parts of a list, and comparisons that agree on it.
use cs.Prelude.{
  ℕ, ◌<◌, ◌≡◌, subst, ◌⊎◌, inl, inr, Bool-cases, List, [], ◌∷◌, ◌++◌, arith, if◌then◌else◌, All, ℤ,
  pos, negsuc, ◌≤ℤ◌, ltb_ℤ,
}
use cs.Counting.{count}
use cs.Qsort.{IsComparison, Ordered}

-- A comparison by an integer that each pointer leads to.
unfoldable pub by_key : (ℕ → ℤ) → ℕ → ℕ → ℤ
by_key key a b =
    if ltb_ℤ (key a) (key b) then negsuc 0 else (if ltb_ℤ (key b) (key a) then pos 1 else pos 0)

module _ (key : ℕ → ℤ) where
  pub by_key-le : (a b : ℕ) → by_key key a b ≤ℤ pos 0 → key a ≤ℤ key b
  unfolding by_key
  by_key-le a b le = ground arith

  pub le-by_key : (a b : ℕ) → key a ≤ℤ key b → by_key key a b ≤ℤ pos 0
  unfolding by_key
  le-by_key a b le = ground arith

  pub by_key-IsComparison : IsComparison (by_key key)
  by_key-IsComparison = record {
    total = total;
    transitive = λ a b c x y. le-by_key a c (omega (arith, by_key-le a b x, by_key-le b c y));
  }
    where
      total : (a b : ℕ) → (by_key key a b ≤ℤ pos 0) ⊎ (by_key key b a ≤ℤ pos 0)
      total a b = elim (Bool-cases (ltb_ℤ (key b) (key a))) [
        | inl more ↦ inr (le-by_key b a (ground arith))
        | inr less ↦ inl (le-by_key a b (ground arith))
      ]

pub All-remove :
    (P : ℕ → Type 0) (c : ℕ) (xs ys : List ℕ) → All P (xs ++ (c ∷ ys)) → All P (xs ++ ys)
All-remove P c [] ys all = all.1
All-remove P c (x ∷ xs) ys all = (all.0, All-remove P c xs ys all.1)

pub Ordered-remove :
    (f : ℕ → ℕ → ℤ) (c : ℕ) (xs ys : List ℕ) → Ordered f (xs ++ (c ∷ ys)) → Ordered f (xs ++ ys)
Ordered-remove f c [] ys o = o.1
Ordered-remove f c (x ∷ xs) ys o =
    (All-remove (λ y. f x y ≤ℤ pos 0) c xs ys o.0, Ordered-remove f c xs ys o.1)

module _ (f g : ℕ → ℕ → ℤ) where
  All-agree :
      (t : ℕ) (ys : List ℕ)
      → ((b : ℕ) → 0 < count b ys → f t b ≡ g t b)
      → All (λ y. f t y ≤ℤ pos 0) ys
      → All (λ y. g t y ≤ℤ pos 0) ys
  All-agree t [] same all = tt
  All-agree t (y ∷ ys) same all = (
    subst (λ z. z ≤ℤ pos 0) (same y (ground arith)) all.0,
    All-agree t ys (λ b o. same b (omega (arith, o))) all.1,
  )

  -- Comparisons that agree on a list order it alike.
  pub Ordered-agree :
      (ys : List ℕ)
      → ((a b : ℕ) → 0 < count a ys → 0 < count b ys → f a b ≡ g a b)
      → Ordered f ys
      → Ordered g ys
  Ordered-agree [] same o = tt
  Ordered-agree (y ∷ ys) same o = (
    All-agree y ys (λ b i. same y b (ground arith) (omega (arith, i))) o.0,
    Ordered-agree ys (λ a b i j. same a b (omega (arith, i)) (omega (arith, j))) o.1,
  )
