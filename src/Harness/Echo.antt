-- ===== src/Harness/Echo.antt =====
-- What `read_line` and the mode `echo` of Asmt_1/harness.c do with a file of words.
use cs.Prelude.{
  ℕ, zero, suc, ◌+◌, ◌-◌, ◌≤◌, ◌<◌, ◌≡◌, refl, sym, ap, subst, ◌∙◌, true, false, none, some, List,
  [], ◌∷◌, ◌++◌, append_assoc, append-nil, arith, ◌==◌, ltb, length, length-append, set, replicate,
  All,
}
use cs.Exec.{done, fault}
use cs.Harness.{is_end, read_loop, read_line, c_string, echo}

abbrev pub drop {ℓ} : {A : Type ℓ} → ℕ → List A → List A
drop zero xs = xs
drop (suc n) [] = []
drop (suc n) (x ∷ xs) = drop n xs

-- Bytes that are no separators.
abbrev pub NoEnd : List ℕ → Type 0
NoEnd = All (λ c. is_end c ≡ false)

set-append :
    (pre old : List ℕ) (o c : ℕ) → set (pre ++ (o ∷ old)) (length pre) c ≡ (pre ++ (c ∷ [])) ++ old
set-append [] old o c = refl
set-append (p ∷ pre) old o c = ap (λ zs. p ∷ zs) (set-append pre old o c)

read_loop-word :
    (room : ℕ) (pre old w rest : List ℕ) (sep : ℕ)
    → NoEnd w
    → is_end sep ≡ true
    → length w < room
    → length w ≤ length old
    → read_loop room (length pre) (pre ++ old) (w ++ (sep ∷ rest))
      ≡ (ltb 0 (length pre + length w), pre ++ (w ++ drop (length w) old), rest)
unfolding read_loop
read_loop-word zero pre old w rest sep word end small fits = absurd (omega arith)
read_loop-word (suc room) pre old [] rest sep word end small fits =
    rw end (ap (λ n. (ltb 0 n, pre ++ old, rest)) (omega arith))
read_loop-word (suc room) pre [] (c ∷ w) rest sep word end small fits = absurd (omega arith)
read_loop-word (suc room) pre (o ∷ old) (c ∷ w) rest sep word end small fits =
    let pre' = pre ++ (c ∷ []) in
    let size : length pre' ≡ length pre + 1 =
      length-append pre (c ∷ []) ∙ ap (λ n. length pre + n) (omega arith) in
    let count : length pre' + length w ≡ length pre + length (c ∷ w) = omega (arith, size) in
    let read = read_loop-word room pre' old w rest sep word.1 end (omega arith) (omega arith) in
    rw (word.0, set-append pre old o c, sym size)
      (read
        ∙ ap (λ n. (ltb 0 n, pre' ++ (w ++ drop (length w) old), rest)) count
        ∙ ap (λ b. (ltb 0 (length pre + length (c ∷ w)), b, rest))
            (append_assoc pre (c ∷ []) (w ++ drop (length w) old)))

-- When a file begins with a word and a separator, the word has no separator in it and is shorter
-- than the limit, and the buffer is no shorter than the limit, read_line writes the word to the
-- start of the buffer, leaves the rest of the buffer, reads up to the separator, and answers
-- whether the word is not empty.
pub read_line-word :
    (buf_size : ℕ) (buf w rest : List ℕ) (sep : ℕ)
    → NoEnd w
    → is_end sep ≡ true
    → length w < buf_size
    → buf_size ≤ length buf
    → read_line buf_size buf (w ++ (sep ∷ rest))
      ≡ (ltb 0 (length w), w ++ drop (length w) buf, rest)
unfolding read_line
read_line-word buf_size buf w rest sep word end small fits =
    read_loop-word buf_size [] buf w rest sep word end small (omega arith)
    ∙ ap (λ n. (ltb 0 n, w ++ drop (length w) buf, rest)) (omega arith)

read_loop-full :
    (room : ℕ) (pre old w rest : List ℕ)
    → NoEnd w
    → length w ≡ room
    → length w ≤ length old
    → read_loop room (length pre) (pre ++ old) (w ++ rest)
      ≡ (true, pre ++ (w ++ drop (length w) old), rest)
unfolding read_loop
read_loop-full zero pre old [] rest word full fits = refl
read_loop-full zero pre old (c ∷ w) rest word full fits = absurd (omega arith)
read_loop-full (suc room) pre old [] rest word full fits = absurd (omega arith)
read_loop-full (suc room) pre [] (c ∷ w) rest word full fits = absurd (omega arith)
read_loop-full (suc room) pre (o ∷ old) (c ∷ w) rest word full fits =
    let pre' = pre ++ (c ∷ []) in
    let size : length pre' ≡ length pre + 1 =
      length-append pre (c ∷ []) ∙ ap (λ n. length pre + n) (omega arith) in
    rw (word.0, set-append pre old o c, sym size)
      (read_loop-full room pre' old w rest word.1 (omega arith) (omega arith)
        ∙ ap (λ b. (true, b, rest)) (append_assoc pre (c ∷ []) (w ++ drop (length w) old)))

-- A long word.
pub read_line-full :
    (buf w rest : List ℕ)
    → NoEnd w
    → length w ≡ length buf
    → read_line (length buf) buf (w ++ rest) ≡ (true, w, rest)
unfolding read_line
read_line-full buf w rest word full =
    read_loop-full (length buf) [] buf w rest word full (omega arith)
    ∙ ap (λ b. (true, b, rest))
        (ap (λ d. w ++ d) (drop_all (length w) buf (omega arith)) ∙ append-nil w)
  where
    drop_all : (n : ℕ) (xs : List ℕ) → length xs ≤ n → drop n xs ≡ []
    drop_all zero [] le = refl
    drop_all zero (x ∷ xs) le = absurd (omega arith)
    drop_all (suc n) [] le = refl
    drop_all (suc n) (x ∷ xs) le = drop_all n xs (omega arith)

-- The words of a file, each at the end of a line.
abbrev pub text : List (List ℕ) → List ℕ
text [] = []
text (w ∷ ws) = w ++ (10 ∷ text ws)

-- A word that fits the buffer together with a null byte.
pub record IsWord (w : List ℕ) : Type 0 where
  pub no_end : NoEnd w
  pub no_null : All (λ c. (c == 0) ≡ false) w
  pub some_char : 0 < length w
  pub small : length w ≤ 40

c_string-word :
    (w rest : List ℕ) → All (λ c. (c == 0) ≡ false) w → c_string (w ++ (0 ∷ rest)) ≡ some w
c_string-word [] rest all = refl
c_string-word (c ∷ w) rest all = rw (all.0, c_string-word w rest all.1) refl

-- `memset (buf, '\0', n)`
abbrev pub zeros : ℕ → List ℕ
zeros n = replicate n 0

drop-zeros : (n m : ℕ) → n ≤ m → drop n (zeros m) ≡ zeros (m - n)
drop-zeros zero m le = ap (λ k. zeros k) (omega arith)
drop-zeros (suc n) zero le = absurd (omega arith)
drop-zeros (suc n) (suc m) le = drop-zeros n m (omega arith) ∙ ap (λ k. zeros k) (omega arith)

zeros-positive : (n : ℕ) → 0 < n → zeros n ≡ 0 ∷ zeros (n - 1)
zeros-positive zero h = absurd (omega arith)
zeros-positive (suc n) h = ap (λ k. 0 ∷ zeros k) (omega arith)

pub newline-is_end : is_end 10 ≡ true
unfolding is_end
newline-is_end = refl

pub read_line-eof : (n : ℕ) (buf : List ℕ) → read_line (suc n) buf [] ≡ (false, buf, [])
unfolding read_line read_loop is_end
read_line-eof n buf = refl

-- For a file of words, each followed by the end of a line, none empty or longer than 40 characters
-- and none with a separator or a null byte, the mode echo, with a buffer of null bytes and more
-- rounds than there are words, prints exactly the words, in order, and ends.
pub echo-text :
    (fuel : ℕ) (ws : List (List ℕ))
    → All IsWord ws
    → length ws < fuel
    → echo fuel (zeros 41) (text ws) ≡ done ws
unfolding echo
echo-text zero ws words room = absurd (omega arith)
echo-text (suc fuel) [] words room = rw (echo, read_line-eof 40 (zeros 41)) refl
echo-text (suc fuel) (w ∷ ws) words room =
    let is = words.0 in
    let read =
      read_line-word 41 (zeros 41) w (text ws) 10 is.no_end newline-is_end (omega (arith, is.small))
        (omega arith) in
    let pad : drop (length w) (zeros 41) ≡ 0 ∷ zeros (41 - length w - 1) =
      drop-zeros (length w) 41 (omega (arith, is.small))
      ∙ zeros-positive (41 - length w) (omega (arith, is.small)) in
    let more : ltb 0 (length w) ≡ true = ground (arith, is.some_char) in
    rw
      (
        echo,
        read,
        more,
        pad,
        c_string-word w (zeros (41 - length w - 1)) is.no_null,
        ap (λ r. r.2) read,
        echo-text fuel ws words.1 (omega arith),
      )
      refl

c_string-open : (w : List ℕ) → All (λ c. (c == 0) ≡ false) w → c_string w ≡ none
c_string-open [] all = refl
c_string-open (c ∷ w) all = rw (all.0, c_string-open w all.1) refl

-- If a file begins with 41 characters that are neither separators nor null bytes, the mode echo
-- faults: the buffer is full, and the printing reads on behind its end.
pub echo-fault :
    (fuel : ℕ) (buf w rest : List ℕ)
    → length buf ≡ 41
    → length w ≡ 41
    → NoEnd w
    → All (λ c. (c == 0) ≡ false) w
    → echo (suc fuel) buf (w ++ rest) ≡ fault
unfolding echo
echo-fault fuel buf w rest size long no_end no_null =
    let read : read_line 41 buf (w ++ rest) ≡ (true, w, rest) =
      subst (λ n. read_line n buf (w ++ rest) ≡ (true, w, rest)) size
        (read_line-full buf w rest no_end (omega (arith, size, long))) in
    rw (echo, read, c_string-open w no_null) refl
