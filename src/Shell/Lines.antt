-- ===== src/Shell/Lines.antt =====
-- A line of words through the input buffer and the tokens of Asmt_2/shell.c.
use cs.Prelude.{
  ℕ, zero, suc, ◌+◌, ◌-◌, ◌^◌, ◌≤◌, ◌<◌, ◌≡◌, refl, sym, ap, ◌∙◌, Bool, some, List, [], ◌∷◌, ◌++◌,
  append_assoc, map, length, length-append, replicate, All, arith,
}
use cs.Exec.{done}
use cs.Shell.{Input, Token, base_size, read_loop, tokenize, read_tokens}
use cs.Shell.Splitting.{IsLetter, AllWords, body, words, memory, body-Splits}
use cs.Shell.Storing.{length-map, tokenize-Splits}
use cs.Shell.Reading.{Inside, buffer_of, read_loop-line}

-- A line without its end.
abbrev pub open_line : List (Token × ℕ) → List ℕ
open_line [] = []
open_line ((w, k) ∷ []) = w ++ replicate k b' '
open_line ((w, k) ∷ v ∷ ws) = w ++ (b' ' ∷ (replicate k b' ' ++ open_line (v ∷ ws)))

body-open_line : (ws : List (Token × ℕ)) → body ws ≡ open_line ws ++ (b'\n' ∷ [])
body-open_line [] = refl
body-open_line ((w, k) ∷ []) = sym (append_assoc w (replicate k b' ') (b'\n' ∷ []))
body-open_line ((w, k) ∷ v ∷ ws) =
    let spaces = replicate k b' ' in
    let rest = open_line (v ∷ ws) in
    ap (λ t. w ++ (b' ' ∷ (spaces ++ t))) (body-open_line (v ∷ ws))
    ∙ ap (λ t. w ++ (b' ' ∷ t)) (sym (append_assoc spaces rest (b'\n' ∷ [])))
    ∙ sym (append_assoc w (b' ' ∷ (spaces ++ rest)) (b'\n' ∷ []))

Inside-append : (xs ys : List ℕ) → All Inside xs → All Inside ys → All Inside (xs ++ ys)
Inside-append [] ys a b = b
Inside-append (x ∷ xs) ys a b = (a.0, Inside-append xs ys a.1 b)

Inside-word : (w : Token) → All IsLetter w → All Inside w
Inside-word [] all = tt
Inside-word (c ∷ w) all = (ground (arith, all.0.0), Inside-word w all.1)

Inside-spaces : (k : ℕ) → All Inside (replicate k b' ')
Inside-spaces zero = tt
Inside-spaces (suc k) = (refl, Inside-spaces k)

open_line-Inside : (ws : List (Token × ℕ)) → AllWords ws → All Inside (open_line ws)
open_line-Inside [] all = tt
open_line-Inside ((w, k) ∷ []) all =
    Inside-append w (replicate k b' ') (Inside-word w all.0.1) (Inside-spaces k)
open_line-Inside ((w, k) ∷ v ∷ ws) all =
    Inside-append w (b' ' ∷ (replicate k b' ' ++ open_line (v ∷ ws))) (Inside-word w all.0.1) (
      refl,
      Inside-append (replicate k b' ') (open_line (v ∷ ws)) (Inside-spaces k)
          (open_line-Inside (v ∷ ws) all.1),
    )

words-short : (ws : List (Token × ℕ)) → AllWords ws → length (words ws) ≤ length (open_line ws)
words-short [] all = omega arith
words-short ((w, k) ∷ []) all = omega (arith, all.0.0, length-append w (replicate k b' '))
words-short ((w, k) ∷ v ∷ ws) all =
    let spaces : List ℕ = replicate k b' ' in
    omega (
      arith,
      all.0.0,
      words-short (v ∷ ws) all.1,
      length-append w (b' ' ∷ (spaces ++ open_line (v ∷ ws))),
      length-append spaces (open_line (v ∷ ws)),
    )

abbrev pub zeroed : ℕ → Input
zeroed size = buffer_of (replicate base_size (some 0)) size

-- If a line is made of words that are not empty and have no space, end of line or null byte in
-- them, fewer than 20, parted by one or more spaces, and shorter than the 80 bytes of the input
-- buffer, and the buffer is filled with null bytes, as it is for every line but the first, then
-- the shell reads that line and no more of the input and gets back these words.
pub read_tokens-words :
    (can_grow : ℕ → Bool) (size : ℕ) (ws : List (Token × ℕ)) (rest : List ℕ)
    → AllWords ws
    → length (words ws) < 20
    → length (body ws) < base_size
    → base_size ≤ size
    → size < 2 ^ 32
    → (b : Input) × (read_tokens can_grow (zeroed size) (body ws ++ rest)
        ≡ done (b, rest, words ws))
      × (b.buf_size ≡ size)
unfolding read_tokens
read_tokens-words can_grow size ws rest all few short fits small =
    let line = open_line ws in
    let fuel = suc (length (body ws ++ rest)) in
    let long : length (body ws) ≡ length line + 1 =
      ap length (body-open_line ws) ∙ length-append line (b'\n' ∷ []) in
    let z = base_size - length (body ws) - 1 in
    let all_cells : length line + suc (suc z) ≡ base_size = omega (arith, long, short) in
    let text : line ++ (b'\n' ∷ rest) ≡ body ws ++ rest =
      sym (append_assoc line (b'\n' ∷ []) rest) ∙ ap (λ t. t ++ rest) (sym (body-open_line ws)) in
    let cells = memory (body ws) z in
    let read : read_loop can_grow fuel 0 0 (zeroed size) (body ws ++ rest)
        ≡ done (buffer_of cells size, rest) =
      ap (λ t. read_loop can_grow fuel 0 0 (zeroed size) t) (sym text)
      ∙ ap
          (λ n.
            read_loop can_grow fuel 0 0 (buffer_of (replicate n (some 0)) size)
              (line ++ (b'\n' ∷ rest)))
          (sym all_cells)
      ∙ read_loop-line can_grow fuel 0 0 size (suc z) [] line rest refl (open_line-Inside ws all)
          refl (omega (arith, long, short)) small
          (omega (arith, long, length-append (body ws) rest))
      ∙ ap (λ t. done (buffer_of (memory t z) size, rest)) (sym (body-open_line ws)) in
    let cut : tokenize can_grow cells ≡ done (words ws) =
      tokenize-Splits can_grow cells (words ws) (body-Splits ws z all)
        (omega (
          arith,
          words-short ws all,
          long,
          length-append (map some (body ws)) (replicate (suc z) (some 0)),
          length-map some (body ws),
        ))
        few in
    (buffer_of cells size, rw (read_tokens, read, cut) refl, refl)
