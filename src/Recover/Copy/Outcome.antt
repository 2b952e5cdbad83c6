-- ===== src/Recover/Copy/Outcome.antt =====
-- Runs without a fault, in any environment, and what more holds if the system refuses nothing.
use cs.Prelude.{ℕ, ◌≤◌, ◌≡◌, ◌≢◌, refl, ◌∙◌, true, All, length, pos}
use cs.Recover.Run.{State, Env, Run, ok, exit, Cmd, and_then}

-- `malloc` and `fork` succeed, `fwrite` writes all, and the `int` behind a full `block_buffer` is not 0.
pub record Benign (env : Env) : Type 0 where
  pub allocates : (t : ℕ) → env.malloc_ok t ≡ true
  pub writes : (t n : ℕ) → env.fwrite t n ≡ n
  pub forks : (t : ℕ) → env.fork_ok t ≡ true
  pub nonzero : (t : ℕ) → env.beyond t ≢ pos 0

-- `used_block_array` has an entry for each block, and each holds one of the three marks.
pub record Marked (max : ℕ) (s : State) : Type 0 where
  pub size : length s.used ≡ max
  pub marks : All (λ u. u ≤ 2) s.used

-- What no copying function touches, and what each keeps.
pub record Kept (max : ℕ) (s t : State) : Type 0 where
  pub marked : Marked max t
  pub files : t.files ≡ s.files

pub Kept-trans : {max : ℕ} {s t u : State} → Kept max s t → Kept max t u → Kept max s u
Kept-trans a b = record { marked = b.marked; files = b.files ∙ a.files }

pub Kept-refl : {max : ℕ} {s : State} → Marked max s → Kept max s s
Kept-refl v = record { marked = v; files = refl }

-- No fault, `exit` only if the system has refused something, and `P` of the result.
pub data Safe (env : Env) {A : Type 0} (P : A → State → Type 0) : Run A → Type 0 where
  returns : {a : A} {s : State} → P a s → Safe env P (ok a s)
  exits : {s : State} → ¬ Benign env → Safe env P (exit s)

module _ {env : Env} {A : Type 0} {P : A → State → Type 0} where
  pub bind :
      {B : Type 0} {Q : B → State → Type 0} {r : Run A} {k : A → Cmd B}
      → Safe env P r
      → ((a : A) (s : State) → P a s → Safe env Q (k a s))
      → Safe env Q (and_then r k)
  bind (returns p) next = next _ _ p
  bind (exits bad) next = exits bad

  pub mono :
      {Q : A → State → Type 0} {r : Run A}
      → Safe env P r
      → ((a : A) (s : State) → P a s → Q a s)
      → Safe env Q r
  mono (returns p) weaken = returns (weaken _ _ p)
  mono (exits bad) weaken = exits bad
