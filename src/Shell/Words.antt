-- ===== src/Shell/Words.antt =====
-- What the loops of `execute_command` in Asmt_2/shell.c make of plain words and operators.
use cs.Prelude.{
  eqb_text, ℕ, zero, suc, ◌+◌, ◌≡◌, refl, Bool, true, false, List, [], ◌∷◌, ◌++◌, ltb,
  if◌then◌else◌, length, get_or, replicate, All, arith, map, Bool-cases, inl, inr,
}
use cs.Exec.{done, fault}
use cs.Shell.{Token, Entry, unwritten, null, pointer, count_tokens}
use cs.Shell.Child.{
  into, onto, out_of, background, is_redirect, find_from, fill_params, Redirect, writes_to,
  appends_to, reads_from, redirect_by, opens,
}

-- A word that is no operator.
abbrev pub IsPlain : Token → Type 0
IsPlain t = (is_redirect t ≡ false) × (eqb_text t background ≡ false)

pub find_from-plain :
    (i : ℕ) (ts : List Token) (op : Token) (rest : List Token)
    → All IsPlain ts
    → is_redirect op ≡ true
    → find_from i (ts ++ (op ∷ rest)) ≡ i + length ts
find_from-plain i [] op rest all is = ground (arith, is)
find_from-plain i (t ∷ ts) op rest all is =
    ground (arith, all.0.0, find_from-plain (suc i) ts op rest all.1 is)

pub find_from-none : (i : ℕ) (ts : List Token) → All IsPlain ts → find_from i ts ≡ 0
find_from-none i [] all = refl
find_from-none i (t ∷ ts) all = ground (arith, all.0.0, find_from-none (suc i) ts all.1)

pub fill_params-plain :
    (ts : List Token) (rest : List Token)
    → All IsPlain ts
    → fill_params (length ts) (ts ++ rest) ≡ (false, map pointer ts)
fill_params-plain [] rest all = refl
fill_params-plain (t ∷ ts) rest all = rw (all.0.1, fill_params-plain ts rest all.1) refl

pub count_tokens-all : (ts : List Token) → count_tokens (map pointer ts ++ (null ∷ [])) ≡ done ts
unfolding count_tokens
count_tokens-all [] = refl
count_tokens-all (t ∷ ts) = rw (count_tokens, count_tokens-all ts) refl

pub get_or-append :
    (ts rest : List Token) (k n : ℕ)
    → n ≡ length ts + k
    → get_or (ts ++ rest) n [] ≡ get_or rest k []
get_or-append [] rest k n e = let same : n ≡ k = omega (arith, e) in rw same refl
get_or-append (t ∷ ts) rest k zero e = absurd (omega (arith, e))
get_or-append (t ∷ ts) rest k (suc n) e = get_or-append ts rest k n (omega (arith, e))

-- The redirection that an operator with a name means.
abbrev pub meant : Token → Token → Redirect
meant op name =
    if eqb_text op into
    then writes_to name
    else if eqb_text op onto
    then appends_to name
    else reads_from name

pub redirect_by-meant :
    (op name : Token) → is_redirect op ≡ true → redirect_by op name ≡ meant op name
redirect_by-meant op name is = elim (Bool-cases (eqb_text op into)) [
  | inl e ↦ rw e refl
  | inr e ↦ elim (Bool-cases (eqb_text op onto)) [
    | inl e' ↦ rw (e, e') refl
    | inr e' ↦
        let e'' : eqb_text op out_of ≡ true = ground (arith, is, e, e') in rw (e, e', e'') refl
  ]
]

-- Behind the last token there is the empty name.
pub get_or_inside :
    (ts : List Token) (n : ℕ) → (if ltb n (length ts) then get_or ts n [] else []) ≡ get_or ts n []
get_or_inside [] n = ground arith
get_or_inside (t ∷ ts) zero = ground arith
get_or_inside (t ∷ ts) (suc n) = ground (arith, get_or_inside ts n)

-- What `&` leaves in `param_buf`.
pub find_from-background :
    (i : ℕ) (ts rest : List Token)
    → All IsPlain ts
    → All IsPlain rest
    → find_from i (ts ++ (background ∷ rest)) ≡ 0
find_from-background i [] rest all more = find_from-none (suc i) rest more
find_from-background i (t ∷ ts) rest all more =
    ground (arith, all.0.0, find_from-background (suc i) ts rest all.1 more)

pub fill_params-background :
    (ts rest : List Token) (k n : ℕ)
    → n ≡ length ts + suc k
    → All IsPlain ts
    → fill_params n (ts ++ (background ∷ rest))
      ≡ (true, map pointer ts ++ replicate (suc k) unwritten)
fill_params-background [] rest k n e all = let same : n ≡ suc k = omega (arith, e) in rw same refl
fill_params-background (t ∷ ts) rest k zero e all = absurd (omega (arith, e))
fill_params-background (t ∷ ts) rest k (suc n) e all =
    rw (all.0.1, fill_params-background ts rest k n (omega (arith, e)) all.1) refl

pub count_tokens-unwritten :
    (ts : List Token) (more end : List Entry)
    → count_tokens ((map pointer ts ++ (unwritten ∷ more)) ++ end) ≡ fault
unfolding count_tokens
count_tokens-unwritten [] more end = refl
count_tokens-unwritten (t ∷ ts) more end =
    rw (count_tokens, count_tokens-unwritten ts more end) refl

pub opens-meant :
    (can_open : Redirect → Bool) (op name : Token)
    → opens can_open (meant op name) ≡ can_open (meant op name)
opens-meant can_open op name = elim (Bool-cases (eqb_text op into)) [
  | inl e ↦ rw e refl
  | inr e ↦ elim (Bool-cases (eqb_text op onto)) [
    | inl e' ↦ rw (e, e') refl
    | inr e' ↦ rw (e, e') refl
  ]
]
