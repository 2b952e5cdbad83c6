-- ===== src/Stats/Printing.antt =====
-- The lines `(t=TIME) ID: ACTION` that the programs of Asmt_5 print, and what is read from them.
use cs.Prelude.{
  ℕ, ◌+◌, ◌-◌, ◌≡◌, refl, sym, ap, ◌∙◌, true, false, ◌||◌, none, some, [], ◌∷◌, ◌++◌, append-nil,
  append_assoc, ◌==◌, leb, if◌then◌else◌, length, length-append, take, pos, Text, All, arith,
}
use cs.Exec.{done}
use cs.Stats.{find, drop, substr, rejected, event, id_length, parse_fields, parse_line, aborts}
use cs.Stats.Decimal.{decimal, atoi-decimal, decimal-apart}

-- `printf ("(t=%f) %d: %s\n", time, id, action)`, without the end of the line.
abbrev pub event_line : Text → ℕ → Text → Text
event_line time id action =
    b'(' ∷ b't' ∷ b'=' ∷ (time ++ (b')' ∷ b' ' ∷ (decimal id ++ (b':' ∷ b' ' ∷ action))))

-- The character does not occur.
abbrev pub Without : ℕ → Text → Type 0
Without c text = All (λ d. (c == d) ≡ false) text

pub Without-append : (c : ℕ) (xs ys : Text) → Without c xs → Without c ys → Without c (xs ++ ys)
Without-append c [] ys a b = b
Without-append c (x ∷ xs) ys a b = (a.0, Without-append c xs ys a.1 b)

find-first : (c : ℕ) (xs ys : Text) → Without c xs → find c (xs ++ (c ∷ ys)) ≡ some (length xs)
find-first c [] ys all = let e : (c == c) ≡ true = ground arith in rw e refl
find-first c (x ∷ xs) ys all = rw (all.0, find-first c xs ys all.1) refl

drop-append : (xs ys : Text) → drop (length xs) (xs ++ ys) ≡ ys
drop-append [] ys = refl
drop-append (x ∷ xs) ys = drop-append xs ys

take-prefix : (xs ys : Text) → take (length xs) (xs ++ ys) ≡ xs
take-prefix [] ys = refl
take-prefix (x ∷ xs) ys = ap (◌∷◌ x) (take-prefix xs ys)

-- The middle of three parts.
substr-middle :
    (line front mid back : Text) (i n : ℕ)
    → line ≡ front ++ (mid ++ back)
    → i ≡ length front
    → n ≡ length mid
    → substr i n line ≡ done mid
substr-middle line front mid back i n parts at size =
    let inside : leb i (length line) ≡ true =
      ground (arith, at, ap length parts, length-append front (mid ++ back)) in
    ap (λ b. if b then done (take n (drop i line)) else aborts) inside
    ∙ ap (λ l. done (take n (drop i l))) parts
    ∙ ap (λ i. done (take n (drop i (front ++ (mid ++ back))))) at
    ∙ ap (λ l. done (take n l)) (drop-append front (mid ++ back))
    ∙ ap (λ n. done (take n (mid ++ back))) size
    ∙ ap done (take-prefix mid back)

module _ (time : Text) (id : ℕ) (action : Text) where
  abbrev line : Text
  line = event_line time id action

  abbrev opening : Text
  opening = b'(' ∷ b't' ∷ b'=' ∷ []

  abbrev rest : Text
  rest = decimal id ++ (b':' ∷ b' ' ∷ action)

  -- The place of the parenthesis, and of the colon.
  abbrev paren : ℕ
  paren = length (opening ++ time)

  abbrev colon : ℕ
  colon = length ((opening ++ time) ++ (b')' ∷ b' ' ∷ decimal id))

  time_field : substr 3 (paren - 1) line ≡ done (time ++ (b')' ∷ b' ' ∷ []))
  time_field =
      substr-middle line opening (time ++ (b')' ∷ b' ' ∷ [])) rest 3 (paren - 1)
        (ap (λ t. opening ++ t) (sym (append_assoc time (b')' ∷ b' ' ∷ []) rest))) refl
        (omega (arith, length-append time (b')' ∷ b' ' ∷ []), length-append opening time))

  id_field : substr (paren + 1) (colon - paren - 1) line ≡ done (b' ' ∷ decimal id)
  id_field =
      substr-middle line (opening ++ (time ++ (b')' ∷ []))) (b' ' ∷ decimal id)
        (b':' ∷ b' ' ∷ action) (paren + 1) (colon - paren - 1)
        (ap (λ t. opening ++ t) (sym (append_assoc time (b')' ∷ []) (b' ' ∷ rest))))
        (omega (arith, length-append time (b')' ∷ [])))
        (omega (arith, length-append time (b')' ∷ b' ' ∷ decimal id)))

  action_field : substr (colon + 2) (length line - (colon + 2)) line ≡ done action
  action_field =
      let end = b')' ∷ b' ' ∷ (decimal id ++ (b':' ∷ b' ' ∷ [])) in
      let tail : end ++ (action ++ []) ≡ b')' ∷ b' ' ∷ rest =
        ap (λ t. b')' ∷ b' ' ∷ t)
          (append_assoc (decimal id) (b':' ∷ b' ' ∷ []) (action ++ [])
            ∙ ap (λ a. decimal id ++ (b':' ∷ b' ' ∷ a)) (append-nil action)) in
      let parts : line ≡ (opening ++ (time ++ end)) ++ (action ++ []) =
        ap (λ t. opening ++ t)
          (sym (append_assoc time end (action ++ []) ∙ ap (λ t. time ++ t) tail)) in
      let size = length-append time end in
      let size' = length-append (decimal id) (b':' ∷ b' ' ∷ []) in
      let size'' = length-append time (b')' ∷ b' ' ∷ decimal id) in
      substr-middle line (opening ++ (time ++ end)) action [] (colon + 2)
        (length line - (colon + 2)) parts (omega (arith, size, size', size''))
        (omega (
          arith,
          ap length parts,
          length-append (opening ++ (time ++ end)) (action ++ []),
          ap length (append-nil action),
          size,
          size',
          size'',
        ))

  find-paren : Without b')' time → find b')' line ≡ some paren
  find-paren clear = find-first b')' (opening ++ time) (b' ' ∷ rest) (refl, (refl, (refl, clear)))

  find-colon : Without b':' time → find b':' line ≡ some colon
  find-colon clear =
      let front : Text = b')' ∷ b' ' ∷ decimal id in
      ap (λ t. find b':' (opening ++ t)) (sym (append_assoc time front (b':' ∷ b' ' ∷ action)))
      ∙ find-first b':' ((opening ++ time) ++ front) (b' ' ∷ action) (
        refl,
        (
          refl,
          (refl, Without-append b':' time front clear (refl, (refl, decimal-apart id b':' refl))),
        ),
      )

  fields : parse_fields paren colon line ≡ done (event (time ++ (b')' ∷ b' ' ∷ [])) (pos id) action)
  unfolding parse_fields
  fields =
      let found : ((paren == 0) || (colon == 0)) ≡ false = ground arith in
      let between : id_length paren colon line ≡ colon - paren - 1 =
        ground (arith, length-append time (b')' ∷ b' ' ∷ decimal id)) in
      rw (parse_fields, found, time_field, between, id_field, action_field)
        (ap (λ z. done (event (time ++ (b')' ∷ b' ' ∷ [])) z action)) (atoi-decimal id))

  -- A line (t=TIME) ID: ACTION, as the programs of Asmt_5 print it, with neither a closing
  -- parenthesis nor a colon in the time, is read back by readStream as the number ID, the action,
  -- and the time with the two characters behind it.
  pub parse_line-event :
      Without b')' time
      → Without b':' time
      → parse_line line ≡ done (event (time ++ (b')' ∷ b' ' ∷ [])) (pos id) action)
  unfolding parse_line
  parse_line-event no_paren no_colon =
      ap
        (λ o. elim o [
          | none ↦ done rejected
          | some paren ↦ elim (find b':' line) [
            | none ↦ done rejected
            | some colon ↦ parse_fields paren colon line
          ]
        ])
        (find-paren no_paren)
      ∙ ap (λ o. elim o [ none ↦ done rejected | some colon ↦ parse_fields paren colon line ])
          (find-colon no_colon)
      ∙ fields
