-- ===== src/Harness/Strcmp.antt =====
-- `strcmp` of the C library on texts without null bytes, and the order that it stands for.
use cs.Prelude.{
  ◌⊎◌, inl, inr, [], ◌∷◌, arith, ◌==◌, ltb, if◌then◌else◌, ℤ, pos, negsuc, ◌≤ℤ◌, Text, Bool-cases,
}

abbrev pub strcmp : Text → Text → ℤ
strcmp [] [] = pos 0
strcmp [] (d ∷ b) = negsuc 0
strcmp (c ∷ a) [] = pos 1
strcmp (c ∷ a) (d ∷ b) = if c == d then strcmp a b else (if ltb c d then negsuc 0 else pos 1)

pub strcmp_total : (a b : Text) → (strcmp a b ≤ℤ pos 0) ⊎ (strcmp b a ≤ℤ pos 0)
strcmp_total [] [] = inl (omega arith)
strcmp_total [] (d ∷ b) = inl (omega arith)
strcmp_total (c ∷ a) [] = inr (omega arith)
strcmp_total (c ∷ a) (d ∷ b) = elim (strcmp_total a b) [
  | inl le ↦ elim (Bool-cases (ltb d c)) [
    | inl more ↦ inr (ground arith)
    | inr less ↦ inl (ground arith)
  ]
  | inr ge ↦ elim (Bool-cases (ltb c d)) [
    | inl less ↦ inl (ground arith)
    | inr more ↦ inr (ground arith)
  ]
]

pub strcmp_trans : (a b c : Text) → strcmp a b ≤ℤ pos 0 → strcmp b c ≤ℤ pos 0 → strcmp a c ≤ℤ pos 0
strcmp_trans [] b [] le le' = omega arith
strcmp_trans [] b (z ∷ c) le le' = omega arith
strcmp_trans (x ∷ a) [] c le le' = absurd (omega (arith, le))
strcmp_trans (x ∷ a) (y ∷ b) [] le le' = absurd (omega (arith, le'))
strcmp_trans (x ∷ a) (y ∷ b) (z ∷ c) le le' = ground (arith, strcmp_trans a b c)
