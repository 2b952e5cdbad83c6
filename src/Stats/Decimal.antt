-- ===== src/Stats/Decimal.antt =====
-- Numbers as `printf` writes them, and back.
use cs.Prelude.{
  ℕ, zero, suc, ◌+◌, ◌-◌, ◌*◌, ◌/◌, ◌%◌, ◌≤◌, ◌<◌, ◌≡◌, refl, sym, ap, ◌∙◌, subst, true, false, [],
  ◌∷◌, ◌++◌, ◌==◌, ltb, if◌then◌else◌, length, length-append, pos, Text, ◌⊎◌, inl, inr, All, arith,
}
use cs.Stats.{is_digit, read_digits, is_space, atoi}

-- `%d` of a number that is not negative; the fuel is the number itself.
abbrev digits : ℕ → ℕ → Text
digits zero n = (b'0' + n % 10) ∷ []
digits (suc fuel) n =
    let front = digits fuel (n / 10) in
    if ltb n 10 then (b'0' + n) ∷ [] else front ++ ((b'0' + n % 10) ∷ [])

abbrev pub decimal : ℕ → Text
decimal n = digits n n

abbrev AllDigits : Text → Type 0
AllDigits ds = All (λ c. is_digit c ≡ true) ds

AllDigits-append : (ds es : Text) → AllDigits ds → AllDigits es → AllDigits (ds ++ es)
AllDigits-append [] es a b = b
AllDigits-append (d ∷ ds) es a b = (a.0, AllDigits-append ds es a.1 b)

digit_ok : (d : ℕ) → d < 10 → is_digit (b'0' + d) ≡ true
digit_ok d small = ground arith

digits-small : (fuel n : ℕ) → n < 10 → digits (suc fuel) n ≡ (b'0' + n) ∷ []
digits-small fuel n small = let e : ltb n 10 ≡ true = ground arith in rw e refl

digits-large :
    (fuel n : ℕ) → 10 ≤ n → digits (suc fuel) n ≡ digits fuel (n / 10) ++ ((b'0' + n % 10) ∷ [])
digits-large fuel n large = let e : ltb n 10 ≡ false = ground arith in rw e refl

lt_or : (n : ℕ) → (n < 10) ⊎ (10 ≤ n)
lt_or n = ground arith

digits-AllDigits : (fuel n : ℕ) → AllDigits (digits fuel n)
digits-AllDigits zero n = (digit_ok (n % 10) (omega arith), tt)
digits-AllDigits (suc fuel) n = elim (lt_or n) [
  | inl small ↦ subst AllDigits (sym (digits-small fuel n small)) (digit_ok n small, tt)
  | inr large ↦ subst AllDigits (sym (digits-large fuel n large)) (
      AllDigits-append (digits fuel (n / 10)) ((b'0' + n % 10) ∷ [])
        (digits-AllDigits fuel (n / 10)) (digit_ok (n % 10) (omega arith), tt))
]

read_digits-append :
    (a : ℕ) (ds es : Text)
    → AllDigits ds
    → read_digits a (ds ++ es) ≡ read_digits (read_digits a ds) es
read_digits-append a [] es all = refl
read_digits-append a (d ∷ ds) es all =
    rw all.0 (read_digits-append (a * 10 + (d - b'0')) ds es all.1)

read_digits-one : (a d : ℕ) → d < 10 → read_digits a ((b'0' + d) ∷ []) ≡ a * 10 + d
read_digits-one a d small = rw (digit_ok d small) (omega arith)

read_digits-digits : (fuel n : ℕ) → n ≤ fuel → read_digits 0 (digits fuel n) ≡ n
read_digits-digits zero n le = read_digits-one 0 (n % 10) (omega arith) ∙ omega (arith, le)
read_digits-digits (suc fuel) n le = elim (lt_or n) [
  | inl small ↦
      ap (read_digits 0) (digits-small fuel n small) ∙ read_digits-one 0 n small ∙ omega arith
  | inr large ↦
      ap (read_digits 0) (digits-large fuel n large)
      ∙ read_digits-append 0 (digits fuel (n / 10)) ((b'0' + n % 10) ∷ [])
          (digits-AllDigits fuel (n / 10))
      ∙ read_digits-one (read_digits 0 (digits fuel (n / 10))) (n % 10) (omega arith)
      ∙ omega (arith, read_digits-digits fuel (n / 10) (omega (arith, le, large)))
]

-- A text that begins with a digit.
atoi-digits : (ds : Text) → AllDigits ds → 0 < length ds → atoi ds ≡ pos (read_digits 0 ds)
atoi-digits [] all some_digit = absurd (omega arith)
atoi-digits (c ∷ ds) all some_digit =
    let digit = all.0 in
    let space : is_space c ≡ false = ground (arith, digit) in
    let minus : (c == b'-') ≡ false = ground (arith, digit) in
    let plus : (c == b'+') ≡ false = ground (arith, digit) in rw (space, minus, plus) refl

digits-nonempty : (fuel n : ℕ) → 0 < length (digits fuel n)
digits-nonempty zero n = omega arith
digits-nonempty (suc fuel) n = elim (lt_or n) [
  | inl small ↦ subst (λ ds. 0 < length ds) (sym (digits-small fuel n small)) (omega arith)
  | inr large ↦
      subst (λ ds. 0 < length ds) (sym (digits-large fuel n large))
        (omega (arith, length-append (digits fuel (n / 10)) ((b'0' + n % 10) ∷ [])))
]

pub atoi-decimal : (n : ℕ) → atoi (b' ' ∷ decimal n) ≡ pos n
atoi-decimal n =
    atoi-digits (decimal n) (digits-AllDigits n n) (digits-nonempty n n)
    ∙ ap pos (read_digits-digits n n (omega arith))

-- Neither a parenthesis nor a colon is a digit.
pub decimal-apart : (n c : ℕ) → is_digit c ≡ false → All (λ d. (c == d) ≡ false) (decimal n)
decimal-apart n c other = apart (decimal n) (digits-AllDigits n n)
  where
    apart : (ds : Text) → AllDigits ds → All (λ d. (c == d) ≡ false) ds
    apart [] all = tt
    apart (d ∷ ds) all = (ground (arith, all.0, other), apart ds all.1)
