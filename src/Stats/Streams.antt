-- ===== src/Stats/Streams.antt =====
-- What `readStream` of the programs of Asmt_5 does with the lines that the other programs print.
use cs.Prelude.{ℕ, ◌≡◌, refl, false, List, [], ◌∷◌, ◌++◌, ◌==◌, ℤ, pos, Text, arith}
use cs.Exec.{Exec, done, exit, fault, out_of_fuel, ◌>>=◌}
use cs.Stats.{parse_line, lines_of, read_lines, read_stream}
use cs.Stats.Decimal.{decimal, decimal-apart}
use cs.Stats.Printing.{event_line, Without, Without-append, parse_line-event}

-- Lines by their time, number and action, the first line first.
abbrev pub Printed : Type 0
Printed = List (Text × ℕ × Text)

abbrev pub printed_text : Printed → Text
printed_text [] = []
printed_text ((t, i, a) ∷ es) = event_line t i a ++ (b'\n' ∷ printed_text es)

-- `%f` writes neither a parenthesis nor a colon nor the end of a line, and an action has no end of a line.
abbrev pub IsTime : Text → Type 0
IsTime t = Without b')' t × Without b':' t × Without b'\n' t

abbrev pub AllTimes : Printed → Type 0
AllTimes [] = Unit
AllTimes ((t, i, a) ∷ es) = (IsTime t × Without b'\n' a) × AllTimes es

event_line-line :
    (t : Text) (i : ℕ) (a : Text)
    → Without b'\n' t
    → Without b'\n' a
    → Without b'\n' (event_line t i a)
event_line-line t i a clear more = (
  refl,
  (
    refl,
    (
      refl,
      Without-append b'\n' t _ clear (
        refl,
        (
          refl,
          Without-append b'\n' (decimal i) _ (decimal-apart i b'\n' refl) (refl, (refl, more)),
        ),
      ),
    ),
  ),
)

lines_of-line :
    (line rest : Text)
    → Without b'\n' line
    → lines_of (line ++ (b'\n' ∷ rest)) ≡ line ∷ lines_of rest
lines_of-line [] rest clear = refl
lines_of-line (c ∷ line) rest clear =
    let e : (c == b'\n') ≡ false = ground (arith, clear.0) in
    rw (e, lines_of-line line rest clear.1) refl

bind-cong {ℓ κ} :
    {A : Type ℓ} {B : Type κ} (m : Exec A) {f g : A → Exec B}
    → ((a : A) → f a ≡ g a)
    → (m >>= f) ≡ (m >>= g)
bind-cong (done a) same = same a
bind-cong (exit code) same = refl
bind-cong fault same = refl
bind-cong out_of_fuel same = refl

-- The lines one after the other.
abbrev pub take_all {ℓ} : {S : Type ℓ} → (Text → ℤ → Text → S → Exec S) → Printed → S → Exec S
take_all take [] c = done c
take_all take ((t, i, a) ∷ es) c = do
  c ← take (t ++ (b')' ∷ b' ' ∷ [])) (pos i) a c
  take_all take es c

pub read_stream-printed {ℓ} :
    {S : Type ℓ} (take : Text → ℤ → Text → S → Exec S) (es : Printed) (c : S)
    → AllTimes es
    → read_stream take (printed_text es) c ≡ take_all take es c
unfolding read_stream read_lines parse_line
read_stream-printed take [] c all = refl
read_stream-printed take ((t, i, a) ∷ es) c ((time, action), all) =
    let (no_paren, no_colon, no_end) = time in
    let split =
      lines_of-line (event_line t i a) (printed_text es) (event_line-line t i a no_end action) in
    let parsed = parse_line-event t i a no_paren no_colon in
    rw (read_stream, split, read_lines, parsed)
      (bind-cong (take (t ++ (b')' ∷ b' ' ∷ [])) (pos i) a c)
        (λ c. read_stream-printed take es c all))
