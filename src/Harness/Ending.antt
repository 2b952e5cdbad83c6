-- ===== src/Harness/Ending.antt =====
-- The mode `echo` of Asmt_1/harness.c ends on every file.
use cs.Prelude.{
  ℕ, zero, suc, ◌+◌, ◌≤◌, ◌<◌, ◌≡◌, ◌≢◌, refl, Bool-cases, inl, inr, Option-cases, true, List, [],
  ◌∷◌, arith, length, set, replicate,
}
use cs.Exec.{Exec, done, exit, fault, out_of_fuel, ◌>>=◌}
use cs.Harness.{is_end, read_loop, read_line, c_string, echo}

-- A file never grows.
read_loop-le : (room i : ℕ) (buf f : List ℕ) → length ((read_loop room i buf f).2) ≤ length f
unfolding read_loop is_end
read_loop-le zero i buf f = omega arith
read_loop-le (suc room) i buf [] = omega arith
read_loop-le (suc room) i buf (b ∷ f) = ground (arith, read_loop-le room (i + 1) (set buf i b) f)

-- A word has a character.
read_line-lt :
    (n : ℕ) (buf f : List ℕ)
    → (read_line (suc n) buf f).0 ≡ true
    → length ((read_line (suc n) buf f).2) < length f
unfolding read_line read_loop is_end
read_line-lt n buf [] more = absurd (ground (arith, more))
read_line-lt n buf (b ∷ f) more = ground (arith, more, read_loop-le n 1 (set buf 0 b) f)

line_added-ends :
    (line : List ℕ) (r : Exec (List (List ℕ)))
    → r ≢ out_of_fuel
    → (r >>= (λ lines. done (line ∷ lines))) ≢ out_of_fuel
line_added-ends line (done lines) ends e = ground (arith, e)
line_added-ends line (exit code) ends e = ground (arith, e)
line_added-ends line fault ends e = ground (arith, e)
line_added-ends line out_of_fuel ends e = ends refl

-- With more rounds than the file has characters left, echo does not run out of them.
pub echo-ends : (fuel : ℕ) (buf f : List ℕ) → length f < fuel → echo fuel buf f ≢ out_of_fuel
unfolding echo
echo-ends zero buf f room = absurd (omega arith)
echo-ends (suc fuel) buf f room =
    let read = read_line 41 buf f in
    elim (Bool-cases read.0) [
      | inr end ↦ rw end (λ e. ground (arith, e))
      | inl more ↦ elim (Option-cases (c_string read.1)) [
        | inl open_end ↦ rw (more, open_end) (λ e. ground (arith, e))
        | inr (line, text) ↦
            rw (more, text)
              (line_added-ends line (echo fuel (replicate 41 0) read.2) (
                echo-ends fuel (replicate 41 0) read.2
                  (omega (arith, room, read_line-lt 40 buf f more))))
      ]
    ]
