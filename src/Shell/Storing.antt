-- ===== src/Shell/Storing.antt =====
-- Places that the loops of Asmt_2/shell.c fill one after the other, and the tokens that it stores.
use cs.Prelude.{
  ℕ, zero, suc, ◌+◌, ◌≤◌, ◌<◌, ◌≡◌, refl, sym, ap, ◌∙◌, Bool, true, false, Option, none, some, List,
  [], ◌∷◌, ◌++◌, append-nil, append_assoc, map, ◌==◌, ltb, if◌then◌else◌, length, length-append,
  length-replicate, set, replicate, arith,
}
use cs.Exec.{done, done_injective, fault}
use cs.Shell.{
  Cells, Token, Entry, null, pointer, store, strtok, more_tokens, token_loop, count_tokens,
  tokenize,
}
use cs.Shell.Splitting.{Splits}

module _ {ℓ κ} {A : Type ℓ} {B : Type κ} (f : A → B) where
  pub length-map : (xs : List A) → length (map f xs) ≡ length xs
  length-map [] = refl
  length-map (x ∷ xs) = ap suc (length-map xs)

  set-append :
      (seen : List A) (old : B) (rest : List B) (v : A)
      → set (map f seen ++ (old ∷ rest)) (length seen) (f v) ≡ map f (seen ++ (v ∷ [])) ++ rest
  set-append [] old rest v = refl
  set-append (x ∷ seen) old rest v = ap (◌∷◌ (f x)) (set-append seen old rest v)

  -- The next place is written.
  pub store-append :
      (seen : List A) (old : B) (rest : List B) (v : A) (n : ℕ)
      → n ≡ length seen
      → store (map f seen ++ (old ∷ rest)) n (f v) ≡ done (map f (seen ++ (v ∷ [])) ++ rest)
  store-append seen old rest v n e =
      let cells = map f seen ++ (old ∷ rest) in
      let inside : ltb n (length cells) ≡ true =
        ground (arith, e, length-append (map f seen) (old ∷ rest), length-map seen) in
      ap (λ b. if b then done (set cells n (f v)) else fault) inside
      ∙ ap done (ap (λ i. set cells i (f v)) e ∙ set-append seen old rest v)

-- `token_buf` with some tokens, and room for others.
abbrev holding : List Token → ℕ → List Entry
holding seen r = map pointer seen ++ replicate r null

length-holding : (seen : List Token) (r : ℕ) → length (holding seen r) ≡ length seen + r
length-holding seen r = omega (
  arith,
  length-append (map pointer seen) (replicate r null),
  length-map pointer seen,
  length-replicate r null,
)

count_tokens-holding : (seen : List Token) (r : ℕ) → count_tokens (holding seen (suc r)) ≡ done seen
unfolding count_tokens
count_tokens-holding [] r = refl
count_tokens-holding (t ∷ seen) r = rw (count_tokens, count_tokens-holding seen r) refl

strtok-Splits :
    (cells : Cells) (ws : List Token)
    → Splits cells ws
    → (next : Option (Token × Cells)) × (strtok cells ≡ done next)
strtok-Splits cells [] e = (none, e)
strtok-Splits cells (w ∷ ws) (rest, e, more) = (some (w, rest), e)

token_loop-Splits :
    (can_grow : ℕ → Bool) (fuel : ℕ) (cells : Cells) (ws : List Token) (seen : List Token)
    (r pos : ℕ) (next : Option (Token × Cells))
    → Splits cells ws
    → strtok cells ≡ done next
    → pos ≡ length seen
    → length ws ≤ fuel
    → length ws < r
    → (r' : ℕ) × (token_loop can_grow fuel next pos (holding seen r)
        ≡ done (holding (seen ++ ws) (suc r')))
unfolding token_loop more_tokens
token_loop-Splits can_grow fuel cells [] seen zero pos next e found at enough room =
    absurd (omega arith)
token_loop-Splits can_grow fuel cells [] seen (suc r) pos next e found at enough room =
    (r, rw (done_injective (sym found ∙ e), token_loop, append-nil seen) refl)
token_loop-Splits can_grow zero cells (w ∷ ws) seen r pos next split found at enough room =
    absurd (omega arith)
token_loop-Splits can_grow (suc fuel) cells (w ∷ ws) seen zero pos next split found at enough room =
    absurd (omega arith)
token_loop-Splits can_grow (suc fuel) cells (w ∷ ws) seen (suc r) pos next split found at enough
      room =
    let (rest, e, more) = split in
    let now = seen ++ (w ∷ []) in
    let grown : pos + 1 ≡ length now = omega (arith, at, length-append seen (w ∷ [])) in
    let spare : (pos + 1 == length (holding now r)) ≡ false =
      ground (arith, length-holding now r, grown) in
    let (after, found') = strtok-Splits rest ws more in
    let (r', later) =
      token_loop-Splits can_grow fuel rest ws now r (pos + 1) after more found' grown (omega arith)
        (omega arith) in
    (
      r',
      rw
          (
            done_injective (sym found ∙ e),
            token_loop,
            store-append pointer seen null (replicate r null) w pos at,
            found',
            more_tokens,
            spare,
          )
          (later ∙ ap (λ ts. done (holding ts (suc r'))) (append_assoc seen (w ∷ []) ws)),
    )

-- Fewer tokens than `token_buf` has places.
pub tokenize-Splits :
    (can_grow : ℕ → Bool) (cells : Cells) (ws : List Token)
    → Splits cells ws
    → length ws ≤ length cells
    → length ws < 20
    → tokenize can_grow cells ≡ done ws
unfolding tokenize
tokenize-Splits can_grow cells ws split enough room =
    let (next, found) = strtok-Splits cells ws split in
    let (r, run) =
      token_loop-Splits can_grow (length cells) cells ws [] 20 0 next split found refl enough
        room in
    rw (tokenize, found, run) (count_tokens-holding ws r)
