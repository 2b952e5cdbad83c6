-- ===== src/Recover/Run.antt =====
-- How the functions of Asmt_6/recover.c run: the state that they change, what the system answers to
-- their calls, and runs that end by `exit (-1)` or by a fault.
use Prim.Native.String.{String}
use cs.Prelude.{ℕ, ◌+◌, Bool, List, ℤ}

-- A file that has been recovered: its number, its extension if `mv` renamed it, its bytes.
pub record Recovered : Type 0 where
  pub number : ℕ
  pub extension : String
  pub bytes : List ℕ

-- `used` is `used_block_array`, `out` the bytes of the output file that is open, `files` those that
-- are finished, and `tick` the number of calls that the system has answered.
pub record State : Type 0 where
  pub used : List ℕ
  pub out : List ℕ
  pub files : List Recovered
  pub tick : ℕ

-- What the system answers to the call number `tick`: whether `malloc`, `fopen`, `fork` and `munmap` succeed,
-- whether `mv` could be run, how many of `n` bytes `fwrite` has written; and what the memory holds
-- that the program reads without having written it: the `int` behind a full `block_buffer`, and
-- `buffer` in `guess_file_extension`.
pub record Env : Type 0 where
  pub malloc_ok : ℕ → Bool
  pub fwrite : ℕ → ℕ → ℕ
  pub fopen_ok : ℕ → Bool
  pub fork_ok : ℕ → Bool
  pub mv_ok : ℕ → Bool
  pub munmap_ok : ℕ → Bool
  pub beyond : ℕ → ℤ
  pub stale : ℕ → List ℕ

pub data Run (A : Type 0) : Type 0 where
  ok : A → State → Run A
  exit : State → Run A
  fault : Run A
  out_of_fuel : Run A

abbrev pub Cmd : Type 0 → Type 0
Cmd A = State → Run A

abbrev pub pure : {A : Type 0} → A → Cmd A
pure a s = ok a s

abbrev pub and_then : {A B : Type 0} → Run A → (A → Cmd B) → Run B
and_then (ok a s) k = k a s
and_then (exit s) k = exit s
and_then fault k = fault
and_then out_of_fuel k = out_of_fuel

infixl 5 ◌>>=◌ ◌>>◌
abbrev pub ◌>>=◌ : {A B : Type 0} → Cmd A → (A → Cmd B) → Cmd B
◌>>=◌ m k s = and_then (m s) k

abbrev pub ◌>>◌ : {B : Type 0} → Cmd (Unit {0}) → Cmd B → Cmd B
m >> k = m >>= λ _. k

-- `exit (-1)`
abbrev pub die : {A : Type 0} → Cmd A
die s = exit s

-- An answer of the system; the next call gets the next one.
abbrev pub ask : {A : Type 0} → (ℕ → A) → Cmd A
ask answer s = ok (answer s.tick) (record s { tick = s.tick + 1 })
