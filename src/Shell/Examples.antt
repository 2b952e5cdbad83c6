-- ===== src/Shell/Examples.antt =====
-- Lines of Asmt_2/shell.c: `ls  -l`, a redirection, a command in the background, a line that is too long.
use cs.Prelude.{
  ℕ, zero, suc, ◌≡◌, refl, Bool, true, Option, none, List, [], ◌∷◌, ◌++◌, length, replicate,
  length-replicate, arith, All,
}
use cs.Exec.{done, fault, out_of_fuel, ◌>>=◌}
use cs.Shell.{Input, Token, base_size, first_input, read_loop, read_tokens, reset_input}
use cs.Shell.Child.{into, background, Redirect, writes_to, child}
use cs.Shell.Splitting.{body}
use cs.Shell.Reading.{Inside, buffer_of}
use cs.Shell.Lines.{zeroed, read_tokens-words}
use cs.Shell.Running.{ran, child-redirect, child-background}
use cs.Shell.Overflow.{reset_input-overflow, read_loop-endless}

abbrev grants : ℕ → Bool
grants size = true

abbrev opens_all : Redirect → Bool
opens_all r = true

abbrev ls : Token
ls = b'l' ∷ b's' ∷ []

abbrev long_option : Token
long_option = b'-' ∷ b'l' ∷ []

abbrev two_words : List (Token × ℕ)
two_words = (ls, 1) ∷ (long_option, 0) ∷ []

read_tokens-words_example :
    (b : Input) × (read_tokens grants (zeroed 80) (body two_words ++ (b'x' ∷ []))
      ≡ done (b, b'x' ∷ [], ls ∷ long_option ∷ []))
    × (b.buf_size ≡ 80)
read_tokens-words_example =
    read_tokens-words grants 80 two_words (b'x' ∷ [])
      (
        (omega arith, ((refl, refl), ((refl, refl), tt))),
        ((omega arith, ((refl, refl), ((refl, refl), tt))), tt),
      )
      (omega arith) (omega arith) (omega arith) (omega arith)

child-redirect_example :
    child opens_all (ls ∷ into ∷ long_option ∷ []) ≡ done (ran (ls ∷ []) (writes_to long_option))
child-redirect_example =
    child-redirect opens_all ls [] ((refl, refl), tt) into (long_option ∷ []) refl

child-background_example : child opens_all (ls ∷ background ∷ []) ≡ fault
child-background_example = child-background opens_all ls [] ((refl, refl), tt) [] tt

Inside-replicate : (n : ℕ) → All Inside (replicate n b'x')
Inside-replicate zero = tt
Inside-replicate (suc n) = (refl, Inside-replicate n)

abbrev long_line : List ℕ
long_line = replicate 90 b'x'

abbrev stale : Input
stale = buffer_of [] 120

reset_input-overflow_example :
    (do
      b ← reset_input grants stale
      read_loop grants (suc (length (long_line ++ []))) 0 0 b (long_line ++ []))
    ≡ fault
reset_input-overflow_example =
    reset_input-overflow grants stale long_line [] refl (omega arith) (omega arith)
      (Inside-replicate 90) (omega arith)

read_loop-endless_example : read_loop grants 1000 0 0 first_input (b'x' ∷ []) ≡ out_of_fuel
read_loop-endless_example =
    read_loop-endless grants 1000 0 0 first_input (b'x' ∷ []) (λ size. refl) refl (refl, tt)
      (length-replicate {A = Option ℕ} base_size none) (omega arith) (omega arith) (omega arith)
