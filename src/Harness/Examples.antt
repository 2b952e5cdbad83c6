-- ===== src/Harness/Examples.antt =====
-- Tests of the model of Asmt_1/harness.c, and its theorems at small files.
use cs.Prelude.{ℕ, ◌≡◌, refl, false, List, [], ◌∷◌, ◌++◌, ◌==◌, arith, replicate, All-replicate}
use cs.Exec.{done, fault}
use cs.Harness.{is_end, read_loop, read_line, echo}
use cs.Harness.Echo.{NoEnd, zeros, echo-fault}

-- `hi`
abbrev hi : List ℕ
hi = 104 ∷ 105 ∷ []

hi-NoEnd : NoEnd hi
unfolding is_end
hi-NoEnd = (refl, (refl, tt))

letters-NoEnd : NoEnd (replicate 41 104)
unfolding is_end
letters-NoEnd = All-replicate (λ c. is_end c ≡ false) 41 104 refl

-- An empty word ends the echo: of `hi`, an empty line, and `hi`, the last is never read.
stops_early : echo 5 (zeros 41) (hi ++ (10 ∷ 10 ∷ (hi ++ (10 ∷ [])))) ≡ done (hi ∷ [])
unfolding echo read_line read_loop is_end
stops_early = refl

echo-fault_example : echo 1 (zeros 41) (replicate 41 104 ++ (10 ∷ [])) ≡ fault
echo-fault_example =
    echo-fault 0 (zeros 41) (replicate 41 104) (10 ∷ []) (omega arith) (omega arith) letters-NoEnd
      (All-replicate (λ c. (c == 0) ≡ false) 41 104 refl)
