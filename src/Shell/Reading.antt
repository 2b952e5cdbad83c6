-- ===== src/Shell/Reading.antt =====
-- The loop of Asmt_2/shell.c that reads a line into the input buffer.
use cs.Prelude.{
  ℕ, zero, suc, ◌+◌, ◌^◌, ◌%◌, ◌<◌, ◌≡◌, refl, ap, ◌∙◌, Bool, false, some, List, [], ◌∷◌, ◌++◌,
  append_assoc, map, ◌==◌, length, length-append, replicate, All, arith,
}
use cs.Exec.{done}
use cs.Shell.{Cells, Input, store, make_room, read_loop}
use cs.Shell.Storing.{store-append}

-- A character that does not end a line.
abbrev pub Inside : ℕ → Type 0
Inside c = (c == b'\n') ≡ false

abbrev pub buffer_of : Cells → ℕ → Input
buffer_of cells size = record { cells = cells; buf_size = size }

make_room-spare :
    (can_grow : ℕ → Bool) (pos : ℕ) (b : Input)
    → (pos == b.buf_size) ≡ false
    → make_room can_grow pos b ≡ done b
unfolding make_room
make_room-spare can_grow pos b spare = rw (make_room, spare) refl

read_loop-ended :
    (can_grow : ℕ → Bool) (fuel pos : ℕ) (b : Input) (text : List ℕ)
    → read_loop can_grow fuel b'\n' pos b text ≡ done (b, text)
unfolding read_loop
read_loop-ended can_grow zero pos b text = refl
read_loop-ended can_grow (suc fuel) pos b text = refl

-- One character that fits.
pub read_loop-step :
    (can_grow : ℕ → Bool) (fuel in_char pos : ℕ) (b : Input) (cells : Cells) (c : ℕ) (text : List ℕ)
    → Inside in_char
    → (pos == b.buf_size) ≡ false
    → pos + 1 < 2 ^ 32
    → store b.cells pos (some c) ≡ done cells
    → read_loop can_grow (suc fuel) in_char pos b (c ∷ text)
      ≡ read_loop can_grow fuel c (pos + 1) (buffer_of cells b.buf_size) text
unfolding read_loop
read_loop-step can_grow fuel in_char pos b cells c text inside spare small stored =
    let next : (pos + 1) % 2 ^ 32 ≡ pos + 1 = omega (arith, small) in
    rw (read_loop, inside, make_room-spare can_grow pos b spare, stored, next) refl

-- A line that fits into what is left of the buffer.
pub read_loop-line :
    (can_grow : ℕ → Bool) (fuel in_char pos size k : ℕ) (seen line rest : List ℕ)
    → Inside in_char
    → All Inside line
    → pos ≡ length seen
    → pos + length line < size
    → size < 2 ^ 32
    → length line < fuel
    → read_loop can_grow fuel in_char pos
        (buffer_of (map some seen ++ replicate (length line + suc k) (some 0)) size)
        (line ++ (b'\n' ∷ rest))
      ≡ done
          (buffer_of (map some (seen ++ (line ++ (b'\n' ∷ []))) ++ replicate k (some 0)) size, rest)
read_loop-line can_grow zero in_char pos size k seen line rest inside all at room small enough =
    absurd (omega arith)
read_loop-line can_grow (suc fuel) in_char pos size k seen [] rest inside all at room small enough =
    let b = buffer_of (map some seen ++ (some 0 ∷ replicate k (some 0))) size in
    let plus : 0 + suc k ≡ suc k = omega arith in
    ap
      (λ n.
        read_loop can_grow (suc fuel) in_char pos
          (buffer_of (map some seen ++ replicate n (some 0)) size) (b'\n' ∷ rest))
      plus
    ∙ read_loop-step can_grow fuel in_char pos b _ b'\n' rest inside (ground arith) (omega arith)
        (store-append some seen (some 0) (replicate k (some 0)) b'\n' pos at)
    ∙ read_loop-ended can_grow fuel (pos + 1) _ rest
read_loop-line can_grow (suc fuel) in_char pos size k seen (c ∷ line) rest inside all at room small
      enough =
    let n = length line + suc k in
    let b = buffer_of (map some seen ++ (some 0 ∷ replicate n (some 0))) size in
    let plus : suc (length line) + suc k ≡ suc n = omega arith in
    let text = line ++ (b'\n' ∷ rest) in
    ap
      (λ n.
        read_loop can_grow (suc fuel) in_char pos
          (buffer_of (map some seen ++ replicate n (some 0)) size) (c ∷ text))
      plus
    ∙ read_loop-step can_grow fuel in_char pos b _ c text inside (ground arith) (omega arith)
        (store-append some seen (some 0) (replicate n (some 0)) c pos at)
    ∙ read_loop-line can_grow fuel c (pos + 1) size k (seen ++ (c ∷ [])) line rest all.0 all.1
        (omega (arith, at, length-append seen (c ∷ []))) (omega arith) small (omega arith)
    ∙ ap (λ t. done (buffer_of (map some t ++ replicate k (some 0)) size, rest))
        (append_assoc seen (c ∷ []) (line ++ (b'\n' ∷ [])))

-- At the end of the input: the loop reads the byte 255 over and over.
