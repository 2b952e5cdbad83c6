-- ===== src/Harness.antt =====
-- The reading of words in Asmt_1/harness.c, and its mode `echo`.
pub mod Echo
pub mod Ending
pub mod Strcmp
pub mod Modes
mod Examples
use cs.Prelude.{
  ℕ, zero, suc, ◌+◌, ◌<◌, Bool, true, false, ◌||◌, Option, none, some, List, [], ◌∷◌, ◌==◌,
  if◌then◌else◌, ltb, set, replicate,
}
use cs.Exec.{Exec, done, fault, out_of_fuel, ◌>>=◌}
use cs.LinkedList.{Items, ListT, null, list_remove_head}

-- `EOF` as a `char`.
abbrev pub eof : ℕ
eof = 255

-- A file is the bytes that are left of it. `fgetc` goes on to answer `EOF` at the end.
abbrev pub fgetc : List ℕ → ℕ × List ℕ
fgetc [] = (eof, [])
fgetc (b ∷ bs) = (b, bs)

-- A space, the end of a line or of the file.
unfoldable pub is_end : ℕ → Bool
is_end c = c == eof || (c == 32 || c == 10)

-- The loop of `read_line`, with `room` rounds left: the result, the buffer, and the rest of the file.
unfoldable pub read_loop : ℕ → ℕ → List ℕ → List ℕ → Bool × List ℕ × List ℕ
read_loop zero i buf f = (true, buf, f)
read_loop (suc room) i buf f =
    let (c, rest) = fgetc f in
    let more = read_loop room (i + 1) (set buf i c) rest in
    if is_end c then (ltb 0 i, buf, rest) else more

unfoldable pub read_line : ℕ → List ℕ → List ℕ → Bool × List ℕ × List ℕ
read_line buf_size buf f = read_loop buf_size 0 buf f

-- What `printf ("%s")` prints of a buffer; `none` if it reads on behind the end.
abbrev pub c_string : List ℕ → Option (List ℕ)
c_string [] = none
c_string (c ∷ cs) =
    if c == 0 then some [] else elim (c_string cs) [ none ↦ none | some s ↦ some (c ∷ s) ]

-- The mode `echo`: the lines that are printed.
unfoldable pub echo : ℕ → List ℕ → List ℕ → Exec (List (List ℕ))
echo zero echo_buf input_file = out_of_fuel
echo (suc fuel) echo_buf input_file =
    let (more, buf, rest) = read_line 41 echo_buf input_file in
    let lines = echo fuel (replicate 41 0) rest in
    if more
    then elim (c_string buf) [ none ↦ fault | some s ↦ lines >>= (λ ls. done (s ∷ ls)) ]
    else done []
