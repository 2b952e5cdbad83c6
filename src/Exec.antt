-- ===== src/Exec.antt =====
-- Runs of C code over an explicit heap: they return, leave by `exit`, or fault.
use cs.Prelude.{refl, ℤ, ◌≡◌, ap, subst, ◌≢◌, Bool, true, false, arith}

-- A fault is everything that C leaves undefined: a null or dangling pointer, an overrun of a buffer, a
-- value that was never written.
pub data Exec {ℓ} (A : Type ℓ) : Type ℓ where
  done : A → Exec A
  exit : ℤ → Exec A
  fault : Exec A
  out_of_fuel : Exec A

infixl 5 ◌>>=◌
abbrev pub ◌>>=◌ {ℓ κ} : {A : Type ℓ} {B : Type κ} → Exec A → (A → Exec B) → Exec B
done a >>= f = f a
exit code >>= f = exit code
fault >>= f = fault
out_of_fuel >>= f = out_of_fuel

module _ {ℓ} {A : Type ℓ} where
  abbrev pub result_or : A → Exec A → A
  result_or a (done b) = b
  result_or a _ = a

  pub done_injective : {a b : A} → done a ≡ done b → a ≡ b
  done_injective {a} e = ap (result_or a) e

  abbrev is_done : Exec A → Bool
  is_done (done b) = true
  is_done _ = false

  pub fault≢done : {a : A} → fault ≢ done a
  fault≢done e = absurd (ground (arith, ap is_done e))

  pub exit≢done : {a : A} {code : ℤ} → exit code ≢ done a
  exit≢done e = absurd (ground (arith, ap is_done e))

-- A run in two parts that returns: what its first part returns.
pub bind-done {ℓ κ} :
    {A : Type ℓ} {B : Type κ} (r : Exec A) (f : A → Exec B) (b : B)
    → (r >>= f) ≡ done b
    → (a : A) × (r ≡ done a) × (f a ≡ done b)
bind-done (done a) f b run = (a, refl, run)
bind-done (exit code) f b run = absurd (exit≢done run)
bind-done fault f b run = absurd (fault≢done run)
bind-done out_of_fuel f b run = absurd (ground (arith, ap is_done run))

-- What a run returns, if it returns, has a property.
abbrev pub Gives {ℓ κ} : {A : Type ℓ} → Exec A → (A → Type κ) → Type (ℓ ⊔ κ)
Gives r P = (a : _) → r ≡ done a → P a

module _ {ℓ κ} {A : Type ℓ} (P : A → Type κ) where
  pub gives-done : (a : A) → P a → Gives (done a) P
  gives-done a p b e = subst P (done_injective e) p

  pub gives-fault : Gives fault P
  gives-fault b e = absurd (fault≢done e)

  pub gives-exit : (code : ℤ) → Gives (exit code) P
  gives-exit code b e = absurd (exit≢done e)

pub gives-bind {ℓ κ μ ν} :
    {A : Type ℓ} {B : Type κ} (P : A → Type μ) (Q : B → Type ν) (r : Exec A) (f : A → Exec B)
    → Gives r P
    → ((a : A) → P a → Gives (f a) Q)
    → Gives (r >>= f) Q
gives-bind P Q r f first rest b run =
    let (a, run_a, run_b) = bind-done r f b run in rest a (first a run_a) b run_b
