-- ===== src/Recover/Copy/Took.antt =====
-- How far a copy has come: `k` bytes of at most `n`, of which the step has added those of `xs` that
-- were still wanted after the first `acc`.
use cs.Prelude.{
  ℕ, ◌+◌, ◌-◌, ◌≤◌, ◌≡◌, refl, sym, ◌∙◌, List, [], ◌++◌, append-nil, append_assoc, arith, length,
  length-append, length-take, take, take-nil, take-append, ap,
}
use cs.Recover.Run.{State}

pub record Took (n acc : ℕ) (xs : List ℕ) (s : State) (k : ℕ) (t : State) : Type 0 where
  pub count : k ≡ acc + length (take (n - acc) xs)
  pub out : t.out ≡ s.out ++ take (n - acc) xs

module _ {n acc : ℕ} where
  pub Took-le : {k : ℕ} {xs : List ℕ} {s t : State} → acc ≤ n → Took n acc xs s k t → k ≤ n
  Took-le {xs} h took = omega (arith, took.count, length-take (n - acc) xs)

  pub Took-nil : {s t : State} → t.out ≡ s.out → Took n acc [] s acc t
  Took-nil {s} same = record {
    count = rw (take-nil (n - acc)) (omega arith);
    out = rw (take-nil (n - acc)) (same ∙ sym (append-nil s.out));
  }

  -- Nothing is wanted any more.
  pub Took-full : {xs : List ℕ} {s t : State} → n ≤ acc → t.out ≡ s.out → Took n acc xs s acc t
  Took-full {xs} {s} full same =
      let e : n - acc ≡ 0 = omega arith in
      record { count = rw e (omega arith); out = rw e (same ∙ sym (append-nil s.out)) }

  pub Took-one :
      {xs : List ℕ} {s t : State}
      → t.out ≡ s.out ++ take (n - acc) xs
      → Took n acc xs s (acc + length (take (n - acc) xs)) t
  Took-one e = record { count = refl; out = e }

  -- The rest of a copy, counted from its start.
  pub Took-shift :
      {k : ℕ} {xs : List ℕ} {s t : State} → Took (n - acc) 0 xs s k t → Took n acc xs s (acc + k) t
  Took-shift {xs} took =
      let e : n - acc - 0 ≡ n - acc = omega arith in
      record {
        count = omega (arith, took.count, ap (λ j. length (take j xs)) e);
        out = rw e at took.out;
      }

  pub Took-append :
      {k l : ℕ} {xs ys : List ℕ} {s t u : State}
      → acc ≤ n
      → Took n acc xs s k t
      → Took n k ys t l u
      → Took n acc (xs ++ ys) s l u
  Took-append {k} {l} {xs} {ys} {s} {t} {u} h first second =
      let rest : n - k ≡ n - acc - length xs =
        omega (arith, first.count, length-take (n - acc) xs) in
      let split = take-append (n - acc) (n - k) xs ys rest in
      record {
        count = omega (
          arith,
          first.count,
          second.count,
          ap length split,
          length-append (take (n - acc) xs) (take (n - k) ys),
        );
        out =
            second.out
            ∙ ap (λ zs. zs ++ take (n - k) ys) first.out
            ∙ append_assoc s.out (take (n - acc) xs) (take (n - k) ys)
            ∙ ap (λ zs. s.out ++ zs) (sym split);
      }
