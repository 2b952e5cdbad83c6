-- ===== src/Prelude/Texts.antt =====
-- Texts as lists of bytes, and their comparison.
use Prim.Native.Nat.{ℕ}
use mathlib.Core.Path.{◌≡◌, refl}
use mathlib.Core.Bool.{Bool, true, false, ◌&&◌}
use mathlib.Core.List.{List, [], ◌∷◌}
use native.Mathlib.Omega.{arith}
use cs.Prelude.Tests.{◌==◌}

abbrev pub Text : Type 0
Text = List ℕ

-- `strcmp (a, b) == 0`, or `a == b` for strings of C++.
abbrev pub eqb_text : Text → Text → Bool
eqb_text [] [] = true
eqb_text (c ∷ a) (d ∷ b) = (c == d) && eqb_text a b
eqb_text _ _ = false

pub eqb_text_sound : (a b : Text) → eqb_text a b ≡ true → a ≡ b
eqb_text_sound [] [] e = refl
eqb_text_sound [] (d ∷ b) e = absurd (ground (arith, e))
eqb_text_sound (c ∷ a) [] e = absurd (ground (arith, e))
eqb_text_sound (c ∷ a) (d ∷ b) e =
    let same : c ≡ d = ground (arith, e) in
    let rest : a ≡ b = eqb_text_sound a b (ground (arith, e)) in rw (same, rest) refl
