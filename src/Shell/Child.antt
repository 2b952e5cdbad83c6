-- ===== src/Shell/Child.antt =====
-- What a command of Asmt_2/shell.c runs, with its redirection, and the main loop.
use cs.Prelude.{
  eqb_text, ℕ, zero, suc, ◌+◌, Bool, true, false, not, ◌||◌, List, [], ◌∷◌, ◌++◌, ltb,
  if◌then◌else◌, length, get_or, replicate, negsuc,
}
use cs.Exec.{Exec, done, exit, out_of_fuel, ◌>>=◌}
use cs.Shell.{Token, Entry, unwritten, null, pointer, Input, read_tokens, count_tokens, reset_input}

abbrev pub into : Token
into = b'>' ∷ []

abbrev pub onto : Token
onto = b'>' ∷ b'>' ∷ []

abbrev pub out_of : Token
out_of = b'<' ∷ []

abbrev pub background : Token
background = b'&' ∷ []

abbrev pub exit_word : Token
exit_word = b'e' ∷ b'x' ∷ b'i' ∷ b't' ∷ []

abbrev pub is_redirect : Token → Bool
is_redirect t = eqb_text t into || (eqb_text t onto || eqb_text t out_of)

-- The loop of `find_redirect` from position `i` on.
abbrev pub find_from : ℕ → List Token → ℕ
find_from i [] = 0
find_from i (t ∷ ts) = if is_redirect t then i else find_from (suc i) ts

unfoldable pub find_redirect : List Token → ℕ
find_redirect ts = find_from 0 ts

-- The loop that fills the first `n` entries of `param_buf`, and whether it sees `&`: then the entries from
-- there on are not written.
abbrev pub fill_params : ℕ → List Token → Bool × List Entry
fill_params zero ts = (false, [])
fill_params (suc n) [] = (false, [])
fill_params (suc n) (t ∷ ts) =
    let (is_background, entries) = fill_params n ts in
    if eqb_text t background
    then (true, replicate (suc n) unwritten)
    else (is_background, pointer t ∷ entries)

-- What happens to `stdout` and `stdin`.
pub data Redirect : Type 0 where
  inherits : Redirect
  discards : Redirect
  writes_to : Token → Redirect
  appends_to : Token → Redirect
  reads_from : Token → Redirect

-- The redirection by an operator, with the name behind it.
abbrev pub redirect_by : Token → Token → Redirect
redirect_by operator name =
    if eqb_text operator into
    then writes_to name
    else if eqb_text operator onto
    then appends_to name
    else if eqb_text operator out_of
    then reads_from name
    else inherits

-- The redirection by the token at `at`; without one behind it the name is empty.
abbrev pub redirect_at : List Token → ℕ → Redirect
redirect_at ts at =
    redirect_by (get_or ts at []) (if ltb (at + 1) (length ts) then get_or ts (at + 1) [] else [])

pub record Process : Type 0 where
  pub args : List Token
  pub redirect : Redirect

abbrev pub opens : (Redirect → Bool) → Redirect → Bool
opens can_open inherits = true
opens can_open redirect = can_open redirect

-- `param_buf_size`; `at` is the position that `find_redirect` gives.
abbrev pub param_buf_size : ℕ → List Token → ℕ
param_buf_size at ts = if ltb 0 at then at else length ts

abbrev pub redirection : ℕ → Bool → List Token → Redirect
redirection at is_background ts =
    if ltb 0 at then redirect_at ts at else if is_background then discards else inherits

-- The files are opened, and `execvp` reads `param_buf` up to the NULL pointer; `can_open` says which calls
-- of `fopen` succeed.
abbrev pub execute : (Redirect → Bool) → Redirect → List Entry → Exec Process
execute can_open redirect params =
    if opens can_open redirect
    then (do
      args ← count_tokens (params ++ (null ∷ []))
      done (record { args = args; redirect = redirect }))
    else exit (negsuc 0)

-- The child up to `execvp`.
unfoldable pub child : (Redirect → Bool) → List Token → Exec Process
child can_open ts =
    let at = find_redirect ts in
    let (is_background, params) = fill_params (param_buf_size at ts) ts in
    execute can_open (redirection at is_background ts) params

-- The last token of a line that has one.
abbrev pub last_token : List Token → Token
last_token [] = []
last_token (t ∷ []) = t
last_token (t ∷ u ∷ ts) = last_token (u ∷ ts)

-- What a line makes the shell do: nothing, end, or start a child and perhaps wait for it.
pub data Command : Type 0 where
  nothing : Command
  leaves : Command
  starts_child : Exec Process → (waits : Bool) → Command

-- What the system grants: sizes for `realloc`, files for `fopen`, and `fork` by the line's number.
pub record System : Type 0 where
  pub can_grow : ℕ → Bool
  pub can_open : Redirect → Bool
  pub can_fork : ℕ → Bool

unfoldable pub run_line : System → ℕ → List Token → Exec Command
run_line sys line [] = done nothing
run_line sys line (t ∷ ts) =
    if eqb_text t exit_word
    then done leaves
    else if sys.can_fork line
    then done (
        starts_child (child sys.can_open (t ∷ ts))
          (not (eqb_text (last_token (t ∷ ts)) background)))
    else exit (negsuc 0)

-- `exit` ends the main loop.
abbrev after : Command → Exec (List Command) → Exec (List Command)
after leaves rest = done (leaves ∷ [])
after command rest = do commands ← rest; done (command ∷ commands)

-- The main loop on at most `fuel` lines, and the lines' commands.
unfoldable pub shell_loop : System → ℕ → ℕ → Input → List ℕ → Exec (List Command)
shell_loop sys zero line b text = out_of_fuel
shell_loop sys (suc fuel) line b text = do
  (b, text, ts) ← read_tokens sys.can_grow b text
  command ← run_line sys line ts
  b ← reset_input sys.can_grow b
  after command (shell_loop sys fuel (suc line) b text)
