-- ===== src/Shell/Splitting.antt =====
-- The tokens that `strtok` finds in a line of Asmt_2/shell.c, and the loop that stores them.
use cs.Prelude.{
  ℕ, zero, suc, ◌<◌, ◌≡◌, refl, ◌∙◌, true, false, none, some, List, [], ◌∷◌, ◌++◌, map, ◌==◌,
  length, replicate, All, arith,
}
use cs.Exec.{done, ◌>>=◌}
use cs.Shell.{Cells, Token, is_delimiter, skip, scan, token_at, strtok}

-- A character of a word.
abbrev pub IsLetter : ℕ → Type 0
IsLetter c = (is_delimiter c ≡ false) × ((c == 0) ≡ false)

abbrev pub IsWord : Token → Type 0
IsWord w = (0 < length w) × All IsLetter w

-- A line of words: each with the number of spaces behind it beyond the one that parts it from the next.
abbrev pub body : List (Token × ℕ) → List ℕ
body [] = b'\n' ∷ []
body ((w, k) ∷ []) = w ++ (replicate k b' ' ++ (b'\n' ∷ []))
body ((w, k) ∷ v ∷ ws) = w ++ (b' ' ∷ (replicate k b' ' ++ body (v ∷ ws)))

abbrev pub words : List (Token × ℕ) → List Token
words [] = []
words ((w, k) ∷ ws) = w ∷ words ws

abbrev pub AllWords : List (Token × ℕ) → Type 0
AllWords ws = All IsWord (words ws)

-- In memory, with zero bytes behind it.
abbrev pub memory : List ℕ → ℕ → Cells
memory text z = map some text ++ replicate (suc z) (some 0)

-- The calls of `strtok` give these tokens.
abbrev pub Splits : Cells → List Token → Type 0
Splits cells [] = strtok cells ≡ done none
Splits cells (w ∷ ws) = (rest : Cells) × (strtok cells ≡ done (some (w, rest))) × Splits rest ws

strtok-spaces :
    (k : ℕ) (text : List ℕ) (z : ℕ)
    → strtok (memory (replicate k b' ' ++ text) z) ≡ strtok (memory text z)
unfolding strtok skip
strtok-spaces zero text z = refl
strtok-spaces (suc k) text z = strtok-spaces k text z

scan-word :
    (w : Token) (d : ℕ) (text : List ℕ) (z : ℕ)
    → All IsLetter w
    → is_delimiter d ≡ true
    → (d == 0) ≡ false
    → scan (memory (w ++ (d ∷ text)) z) ≡ done (w, memory text z)
unfolding scan
scan-word [] d text z all is real = rw (scan, is, real) refl
scan-word (c ∷ w) d text z all is real =
    rw (scan, all.0.1, all.0.0, scan-word w d text z all.1 is real) refl

token_at-letter :
    (c : ℕ) (cells : Cells)
    → (c == 0) ≡ false
    → token_at (some c ∷ cells) ≡ (do (t, more) ← scan (some c ∷ cells); done (some (t, more)))
token_at-letter zero cells real = absurd (ground (arith, real))
token_at-letter (suc c) cells real = refl

strtok-word :
    (w : Token) (d : ℕ) (text : List ℕ) (z : ℕ)
    → IsWord w
    → is_delimiter d ≡ true
    → (d == 0) ≡ false
    → strtok (memory (w ++ (d ∷ text)) z) ≡ done (some (w, memory text z))
unfolding strtok skip
strtok-word [] d text z (some_letter, all) is real = absurd (omega (arith, some_letter))
strtok-word (c ∷ w) d text z (some_letter, all) is real =
    rw
      (
        strtok,
        skip,
        all.0.0,
        token_at-letter c (memory (w ++ (d ∷ text)) z) all.0.1,
        scan-word (c ∷ w) d text z all is real,
      )
      refl

-- `strtok` passes spaces in front of a line.
Splits-spaces :
    (k : ℕ) (text : List ℕ) (z : ℕ) (ws : List Token)
    → Splits (memory text z) ws
    → Splits (memory (replicate k b' ' ++ text) z) ws
Splits-spaces k text z [] e = strtok-spaces k text z ∙ e
Splits-spaces k text z (w ∷ ws) (rest, e, more) = (rest, strtok-spaces k text z ∙ e, more)

Splits-end : (k z : ℕ) → Splits (memory (replicate k b' ' ++ (b'\n' ∷ [])) z) []
unfolding strtok skip
Splits-end k z = Splits-spaces k (b'\n' ∷ []) z [] refl

Splits-nothing : (z : ℕ) → Splits (memory [] z) []
unfolding strtok skip
Splits-nothing z = refl

pub body-Splits :
    (ws : List (Token × ℕ)) (z : ℕ) → AllWords ws → Splits (memory (body ws) z) (words ws)
body-Splits [] z all = Splits-end 0 z
body-Splits ((w, zero) ∷ []) z all =
    (memory [] z, strtok-word w b'\n' [] z all.0 refl refl, Splits-nothing z)
body-Splits ((w, suc k) ∷ []) z all =
    (_, strtok-word w b' ' (replicate k b' ' ++ (b'\n' ∷ [])) z all.0 refl refl, Splits-end k z)
body-Splits ((w, k) ∷ v ∷ ws) z all =
    let text = replicate k b' ' ++ body (v ∷ ws) in
    (
      memory text z,
      strtok-word w b' ' text z all.0 refl refl,
      Splits-spaces k (body (v ∷ ws)) z (words (v ∷ ws)) (body-Splits (v ∷ ws) z all.1),
    )
