-- ===== src/Shell.antt =====
-- The shell of Asmt_2/shell.c: the input buffer, the tokens of a line, and the main loop.
pub mod Child
pub mod Words
pub mod Running
pub mod Reading
pub mod Splitting
pub mod Storing
pub mod Lines
pub mod Overflow
mod Examples
use cs.Prelude.{
  ℕ, zero, suc, ◌+◌, ◌-◌, ◌^◌, ◌%◌, Bool, true, false, not, ◌||◌, Option, none, some, List, [], ◌∷◌,
  ◌++◌, ◌==◌, ltb, if◌then◌else◌, length, set, take, replicate, negsuc,
}
use cs.Exec.{Exec, done, exit, fault, out_of_fuel, ◌>>=◌}

-- A byte of allocated memory, `none` before the first write to it.
abbrev pub Cells : Type 0
Cells = List (Option ℕ)

abbrev pub Token : Type 0
Token = List ℕ

-- An entry of `token_buf` or `param_buf`.
pub data Entry : Type 0 where
  unwritten : Entry
  null : Entry
  pointer : Token → Entry

-- `realloc`: what fits is kept, and more room holds anything; `can_grow` says which sizes are granted.
abbrev pub realloc {ℓ} : {A : Type ℓ} → (ℕ → Bool) → A → ℕ → List A → Exec (List A)
realloc can_grow junk size cells =
    if can_grow size
    then done (take size cells ++ replicate (size - length cells) junk)
    else exit (negsuc 0)

-- A write to place `i`; one outside of the memory is a fault.
abbrev pub store {ℓ} : {A : Type ℓ} → List A → ℕ → A → Exec (List A)
store cells i v = if ltb i (length cells) then done (set cells i v) else fault

-- `input_buf` and `buf_size`.
pub record Input : Type 0 where
  pub cells : Cells
  pub buf_size : ℕ

abbrev pub base_size : ℕ
base_size = 80

-- `malloc` at the start of `main`.
abbrev pub first_input : Input
first_input = record { cells = replicate base_size none; buf_size = base_size }

-- `getchar`, as a `char`: the end of the input is the byte 255.
abbrev pub getchar : List ℕ → ℕ × List ℕ
getchar [] = (255, [])
getchar (c ∷ text) = (c, text)

-- A full buffer is made larger.
unfoldable pub make_room : (ℕ → Bool) → ℕ → Input → Exec Input
make_room can_grow buf_pos b =
    if buf_pos == b.buf_size
    then (let size = (b.buf_size + 40) % 2 ^ 32 in
        do
          cells ← realloc can_grow none size b.cells
          done (record { cells = cells; buf_size = size }))
    else done b

-- The loop that reads a line; it has read `in_char` last.
unfoldable pub read_loop : (ℕ → Bool) → ℕ → ℕ → ℕ → Input → List ℕ → Exec (Input × List ℕ)
read_loop can_grow zero in_char buf_pos b text =
    if in_char == b'\n' then done (b, text) else out_of_fuel
read_loop can_grow (suc fuel) in_char buf_pos b text =
    if in_char == b'\n' then done (b, text) else (do
      b ← make_room can_grow buf_pos b
      let (c, text) = getchar text in
          do
            cells ← store b.cells buf_pos (some c)
            read_loop can_grow fuel c ((buf_pos + 1) % 2 ^ 32) (record b { cells = cells }) text)

abbrev pub is_delimiter : ℕ → Bool
is_delimiter c = (c == b' ') || (c == b'\n')

-- `strtok` with the delimiters " \n": the delimiters in front of a token. To read a byte that was never
-- written, or one outside of the memory, is a fault.
unfoldable pub skip : Cells → Exec Cells
skip [] = fault
skip (none ∷ cells) = fault
skip (some c ∷ cells) =
    let rest = skip cells in if is_delimiter c then rest else done (some c ∷ cells)

-- `strtok`: the token, and where the next call goes on.
unfoldable pub scan : Cells → Exec (Token × Cells)
scan [] = fault
scan (none ∷ cells) = fault
scan (some c ∷ cells) =
    let rest = scan cells in
    if c == 0
    then done ([], some c ∷ cells)
    else if is_delimiter c
    then done ([], cells)
    else (do (t, more) ← rest; done (c ∷ t, more))

-- The token that starts behind the delimiters, if the text does not end there.
abbrev pub token_at : Cells → Exec (Option (Token × Cells))
token_at (some zero ∷ cells) = done none
token_at cells = do (t, more) ← scan cells; done (some (t, more))

unfoldable pub strtok : Cells → Exec (Option (Token × Cells))
strtok cells = do at ← skip cells; token_at at

-- A full `token_buf` is made larger.
unfoldable pub more_tokens : (ℕ → Bool) → ℕ → List Entry → Exec (List Entry)
more_tokens can_grow token_pos buf =
    if token_pos == length buf then realloc can_grow unwritten (length buf + 10) buf else done buf

-- The loop over the tokens.
unfoldable pub token_loop :
    (ℕ → Bool) → ℕ → Option (Token × Cells) → ℕ → List Entry → Exec (List Entry)
token_loop can_grow fuel none token_pos buf = done buf
token_loop can_grow zero (some token) token_pos buf = out_of_fuel
token_loop can_grow (suc fuel) (some (token, rest)) token_pos buf = do
  buf ← store buf token_pos (pointer token)
  next ← strtok rest
  buf ← more_tokens can_grow (token_pos + 1) buf
  token_loop can_grow fuel next (token_pos + 1) buf

-- The tokens up to the first NULL pointer. The test reads an entry before it looks at the size.
unfoldable pub count_tokens : List Entry → Exec (List Token)
count_tokens [] = fault
count_tokens (unwritten ∷ buf) = fault
count_tokens (null ∷ buf) = done []
count_tokens (pointer t ∷ buf) = do ts ← count_tokens buf; done (t ∷ ts)

-- A line in the buffer is cut into tokens.
unfoldable pub tokenize : (ℕ → Bool) → Cells → Exec (List Token)
tokenize can_grow cells = do
  first ← strtok cells
  buf ← token_loop can_grow (length cells) first 0 (replicate 20 null)
  count_tokens buf

-- A line is read and cut into tokens; the rest of the input is left.
unfoldable pub read_tokens : (ℕ → Bool) → Input → List ℕ → Exec (Input × List ℕ × List Token)
read_tokens can_grow b text = do
  (b, text) ← read_loop can_grow (suc (length text)) 0 0 b text
  ts ← tokenize can_grow b.cells
  done (b, text, ts)

-- The buffer for the next line: `buf_size` stays what it was.
unfoldable pub reset_input : (ℕ → Bool) → Input → Exec Input
reset_input can_grow b = do
  cells ← realloc can_grow none base_size b.cells
  done (record b { cells = replicate base_size (some 0) })
