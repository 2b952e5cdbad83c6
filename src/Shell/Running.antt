-- ===== src/Shell/Running.antt =====
-- Commands of Asmt_2/shell.c: with a redirection, in the background.
use cs.Prelude.{
  ℕ, suc, ◌+◌, ◌≡◌, sym, ap, ◌∙◌, Bool, true, false, List, [], ◌∷◌, ◌++◌, ltb, if◌then◌else◌,
  length, length-append, get_or, replicate, negsuc, All, arith, map, append-nil,
}
use cs.Exec.{done, exit, fault, ◌>>=◌}
use cs.Shell.{Token, Entry, unwritten, null, pointer}
use cs.Shell.Child.{
  background, is_redirect, find_from, find_redirect, fill_params, Redirect, inherits, discards,
  redirect_by, redirect_at, param_buf_size, redirection, execute, Process, opens, child,
}
use cs.Shell.Words.{
  IsPlain, find_from-plain, find_from-none, fill_params-plain, count_tokens-all, get_or-append,
  meant, redirect_by-meant, get_or_inside, find_from-background, fill_params-background,
  count_tokens-unwritten, opens-meant,
}

abbrev pub ran : List Token → Redirect → Process
ran cmd redirect = record { args = cmd; redirect = redirect }

-- The two parts of the child.
child-parts :
    (can_open : Redirect → Bool) (ts : List Token) (at : ℕ) (filled : Bool × List Entry)
    → find_redirect ts ≡ at
    → fill_params (param_buf_size at ts) ts ≡ filled
    → child can_open ts ≡ execute can_open (redirection at filled.0 ts) filled.1
unfolding child
child-parts can_open ts at filled found params =
    ap
      (λ a.
        let f = fill_params (param_buf_size a ts) ts in execute can_open (redirection a f.0 ts) f.1)
      found
    ∙ ap (λ f. execute can_open (redirection at f.0 ts) f.1) params

execute-all :
    (can_open : Redirect → Bool) (r : Redirect) (ts : List Token)
    → execute can_open r (map pointer ts)
      ≡ (if opens can_open r then done (ran ts r) else exit (negsuc 0))
execute-all can_open r ts =
    ap
      (λ args. if opens can_open r then (args >>= (λ args. done (ran args r))) else exit (negsuc 0))
      (count_tokens-all ts)

module _ (can_open : Redirect → Bool) (c : Token) (cmd : List Token)
    (plain : All IsPlain (c ∷ cmd)) where
  abbrev line : Token → List Token → List Token
  line op rest = (c ∷ cmd) ++ (op ∷ rest)

  abbrev name_in : List Token → ℕ → Token
  name_in ts n = if ltb n (length ts) then get_or ts n [] else []

  redirection-meant :
      (op : Token) (rest : List Token)
      → is_redirect op ≡ true
      → redirection (suc (length cmd)) false (line op rest) ≡ meant op (get_or rest 0 [])
  redirection-meant op rest is =
      let here : get_or (line op rest) (suc (length cmd)) [] ≡ op =
        get_or-append (c ∷ cmd) (op ∷ rest) 0 (suc (length cmd)) (omega arith) in
      let next : get_or (line op rest) (suc (length cmd) + 1) [] ≡ get_or rest 0 [] =
        get_or-append (c ∷ cmd) (op ∷ rest) 1 (suc (length cmd) + 1) (omega arith) in
      let on : ltb 0 (suc (length cmd)) ≡ true = ground arith in
      let name = get_or_inside (line op rest) (suc (length cmd) + 1) ∙ next in
      ap (λ b. if b then redirect_at (line op rest) (suc (length cmd)) else inherits) on
      ∙ ap (λ o. redirect_by o (name_in (line op rest) (suc (length cmd) + 1))) here
      ∙ ap (redirect_by op) name
      ∙ redirect_by-meant op (get_or rest 0 []) is

  -- For a command of plain words, neither a redirection nor the word &, with a redirection and any
  -- words behind it, the child opens the file named by the word behind the redirection, or by the
  -- empty name, for writing, appending or reading as the redirection says, and runs the words
  -- before it. If the file cannot be opened it exits with -1.
  pub child-redirect :
      (op : Token) (rest : List Token)
      → is_redirect op ≡ true
      → child can_open (line op rest) ≡ (
          if can_open (meant op (get_or rest 0 []))
          then done (ran (c ∷ cmd) (meant op (get_or rest 0 [])))
          else exit (negsuc 0))
  unfolding find_redirect
  child-redirect op rest is =
      let at : find_from 0 (line op rest) ≡ suc (length cmd) =
        find_from-plain 0 (c ∷ cmd) op rest plain is ∙ omega arith in
      let size : param_buf_size (suc (length cmd)) (line op rest) ≡ length (c ∷ cmd) =
        ground arith in
      child-parts can_open (line op rest) (suc (length cmd)) (false, map pointer (c ∷ cmd)) at
        (ap (λ n. fill_params n (line op rest)) size
          ∙ fill_params-plain (c ∷ cmd) (op ∷ rest) plain)
      ∙ ap (λ r. execute can_open r (map pointer (c ∷ cmd))) (redirection-meant op rest is)
      ∙ execute-all can_open (meant op (get_or rest 0 [])) (c ∷ cmd)
      ∙ ap (λ b. if b then done (ran (c ∷ cmd) (meant op (get_or rest 0 []))) else exit (negsuc 0))
          (opens-meant can_open op (get_or rest 0 []))

  pub child-plain : child can_open (c ∷ cmd) ≡ done (ran (c ∷ cmd) inherits)
  unfolding find_redirect
  child-plain =
      child-parts can_open (c ∷ cmd) 0 (false, map pointer (c ∷ cmd))
        (find_from-none 0 (c ∷ cmd) plain)
        (ap (fill_params (length (c ∷ cmd))) (sym (append-nil (c ∷ cmd)))
          ∙ fill_params-plain (c ∷ cmd) [] plain)
      ∙ execute-all can_open inherits (c ∷ cmd)

  -- For a command of plain words, with the word & and any other plain words behind it, execvp is
  -- called with an array that has an entry which was never written, unless /dev/null cannot be
  -- opened, when the child exits with -1.
  pub child-background :
      (rest : List Token)
      → All IsPlain rest
      → child can_open (line background rest)
        ≡ (if can_open discards then fault else exit (negsuc 0))
  unfolding find_redirect
  child-background rest all =
      let size : param_buf_size 0 (line background rest) ≡ length (c ∷ cmd) + suc (length rest) =
        ground (arith, length-append (c ∷ cmd) (background ∷ rest)) in
      let params = map pointer (c ∷ cmd) ++ replicate (suc (length rest)) unwritten in
      child-parts can_open (line background rest) 0 (true, params)
        (find_from-background 0 (c ∷ cmd) rest plain all)
        (fill_params-background (c ∷ cmd) rest (length rest)
          (param_buf_size 0 (line background rest)) size plain)
      ∙ ap
          (λ args.
            if can_open discards
            then (args >>= (λ args. done (ran args discards)))
            else exit (negsuc 0))
          (count_tokens-unwritten (c ∷ cmd) (replicate (length rest) unwritten) (null ∷ []))
