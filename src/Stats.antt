-- ===== src/Stats.antt =====
-- The lines that the programs of Asmt_5 print, as the programs that count them read them
-- (Asmt_5/whales/whales_stats.cc, Asmt_5/philosophers/philosophers_stats.cc, Asmt_5/h2o/h2o_stats.cpp).
pub mod Decimal
pub mod Printing
pub mod Streams
pub mod Whales
pub mod Philosophers
pub mod Water
pub mod Programs
mod Examples
use cs.Prelude.{
  ℕ, zero, suc, ◌+◌, ◌-◌, ◌*◌, Bool, true, false, ◌&&◌, ◌||◌, Option, none, some, List, [], ◌∷◌,
  ◌++◌, ◌==◌, ltb, leb, if◌then◌else◌, length, take, replicate, ℤ, pos, negsuc, Text, get_or,
}
use cs.Exec.{Exec, done, exit, ◌>>=◌}

-- The numbers of type `float`, and `atof`.
pub record Floats (F : Type 0) : Type 0 where
  pub zero_time : F
  pub add : F → F → F
  pub sub : F → F → F
  pub less : F → F → Bool
  pub atof : Text → F

-- An exception that nothing catches: the process is aborted.
abbrev pub aborts {ℓ} : {A : Type ℓ} → Exec A
aborts = exit (pos 134)

-- `line.find (c)`, as an `int`: `none` for `npos`, which is -1.
abbrev pub find : ℕ → Text → Option ℕ
find c [] = none
find c (d ∷ line) = let rest = find c line in if c == d then some 0 else suc_of rest
  where
    suc_of : Option ℕ → Option ℕ
    suc_of none = none
    suc_of (some i) = some (suc i)

abbrev pub drop : ℕ → Text → Text
drop zero line = line
drop (suc n) [] = []
drop (suc n) (c ∷ line) = drop n line

-- `line.substr (i, n)`; a place behind the end throws `out_of_range`.
abbrev pub substr : ℕ → ℕ → Text → Exec Text
substr i n line = if leb i (length line) then done (take n (drop i line)) else aborts

abbrev pub is_digit : ℕ → Bool
is_digit c = leb b'0' c && leb c b'9'

-- The digits in front, behind a number that was read before.
abbrev pub read_digits : ℕ → Text → ℕ
read_digits n [] = n
read_digits n (c ∷ line) =
    let more = read_digits (n * 10 + (c - b'0')) line in if is_digit c then more else n

abbrev pub is_space : ℕ → Bool
is_space c = (c == b' ') || (leb 9 c && leb c 13)

abbrev pub negate : ℕ → ℤ
negate zero = pos 0
negate (suc n) = negsuc n

-- A sign and digits.
abbrev pub read_signed : Text → ℤ
read_signed [] = pos 0
read_signed (c ∷ line) =
    if c == b'-'
    then negate (read_digits 0 line)
    else if c == b'+'
    then pos (read_digits 0 line)
    else pos (read_digits 0 (c ∷ line))

-- `atoi`, for numbers that an `int` can hold.
abbrev pub atoi : Text → ℤ
atoi [] = pos 0
atoi (c ∷ line) = let rest = atoi line in if is_space c then rest else read_signed (c ∷ line)

-- A line that is left out, one with an error message, or the three fields.
pub data Line : Type 0 where
  skipped : Line
  rejected : Line
  event : (time : Text) → (id : ℤ) → (action : Text) → Line

-- `colonIdx - rParenIdx - 1` characters; a negative number, as a `size_t`, is more than there are.
abbrev pub id_length : ℕ → ℕ → Text → ℕ
id_length paren colon line = if ltb paren colon then colon - paren - 1 else length line

-- The body of the loop of `readStream` up to the action.
unfoldable pub parse_fields : ℕ → ℕ → Text → Exec Line
parse_fields paren colon line = if (paren == 0) || (colon == 0) then done rejected else (do
  t ← substr 3 (paren - 1) line
  id ← substr (paren + 1) (id_length paren colon line) line
  action ← substr (colon + 2) (length line - (colon + 2)) line
  done (event t (atoi id) action))

unfoldable pub parse_line : Text → Exec Line
parse_line [] = done skipped
parse_line (c ∷ rest) =
    if c == b'('
    then elim (find b')' (c ∷ rest)) [
      | none ↦ done rejected
      | some paren ↦ elim (find b':' (c ∷ rest)) [
        | none ↦ done rejected
        | some colon ↦ parse_fields paren colon (c ∷ rest)
      ]
    ]
    else done skipped

-- `while (id >= v.size ()) v.push_back (zero)`: a negative `id` is a huge number as a `size_t`, and the
-- memory is used up.
abbrev pub grow {ℓ} : {A : Type ℓ} → A → ℤ → List A → Exec (ℕ × List A)
grow zero_value (pos id) v = done (id, v ++ replicate (suc id - length v) zero_value)
grow zero_value (negsuc id) v = aborts

-- `v[i]`, at a place that there is.
abbrev pub get_time {ℓ} : {A : Type ℓ} → A → List A → ℕ → A
get_time zero_value v i = get_or v i zero_value

-- The calls of `getline`: what stands between the ends of lines.
abbrev pub cons_first : ℕ → List Text → List Text
cons_first c [] = (c ∷ []) ∷ []
cons_first c (line ∷ rest) = (c ∷ line) ∷ rest

abbrev pub lines_of : Text → List Text
lines_of [] = [] ∷ []
lines_of (c ∷ text) =
    let rest = lines_of text in if c == b'\n' then [] ∷ rest else cons_first c rest

-- What `readStream` does with a line; `take` is its body behind the parsing.
abbrev pub take_line {ℓ} : {S : Type ℓ} → (Text → ℤ → Text → S → Exec S) → Line → S → Exec S
take_line take (event t id action) c = take t id action c
take_line take _ c = done c

-- The loop of `readStream` over the lines.
unfoldable pub read_lines {ℓ} :
    {S : Type ℓ} → (Text → ℤ → Text → S → Exec S) → List Text → S → Exec S
read_lines take [] c = done c
read_lines take (line ∷ rest) c = do
  fields ← parse_line line
  c ← take_line take fields c
  read_lines take rest c

unfoldable pub read_stream {ℓ} : {S : Type ℓ} → (Text → ℤ → Text → S → Exec S) → Text → S → Exec S
read_stream take text c = read_lines take (lines_of text) c
