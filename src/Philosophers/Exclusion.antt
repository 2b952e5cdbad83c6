-- ===== src/Philosophers/Exclusion.antt =====
-- Who holds the chopsticks in Asmt_5/philosophers/philosophers.c.
use native.Mathlib.Decide.{ℕ_discrete}
use cs.Prelude.{
  put, put-same, put-other, ℕ, ◌<◌, ◌≡◌, ◌≢◌, refl, sym, ap, subst, ◌∙◌, Bool, true, false, Option,
  none, some, arith,
}
use cs.Philosophers.{PhilState, Pc, pickup_right, Table, left, right}
use cs.Philosophers.Places.{
  critical, dining, has_right, has_left, is_eating, dining-critical, right-critical, left-critical,
}

pub record Safe (n : ℕ) (t : Table) : Type 0 where
  pub holder : (i : ℕ) → critical (t.pc i) ≡ true → t.manipulation ≡ some i
  pub eater : (i : ℕ) → is_eating (t.state i) ≡ true → dining (t.pc i) ≡ true
  pub rights : (i : ℕ) → i < n → has_right (t.pc i) ≡ true → t.down (right n i) ≡ false
  pub lefts : (i : ℕ) → i < n → has_left (t.pc i) ≡ true → t.down (left i) ≡ false

-- What a move of philosopher `i` to the place `p` has to keep.
record Kept (n i : ℕ) (p : Pc) (t : Table) (m : Option ℕ) (e : ℕ → PhilState) (d : ℕ → Bool)
    : Type 0 where
  own : critical p ≡ true → m ≡ some i
  eats : is_eating (e i) ≡ true → dining p ≡ true
  own_right : i < n → has_right p ≡ true → d (right n i) ≡ false
  own_left : i < n → has_left p ≡ true → d (left i) ≡ false
  states : (j : ℕ) → i ≢ j → e j ≡ t.state j
  other : (j : ℕ) → i ≢ j → critical (t.pc j) ≡ true → (m ≡ some j) × ((c : ℕ) → d c ≡ t.down c)

abbrev pub moved : ℕ → Pc → Table → Option ℕ → (ℕ → PhilState) → (ℕ → Bool) → Option ℕ → Table
moved i p t m e d c = record {
  pc = put t.pc i p;
  state = e;
  down = d;
  manipulation = m;
  can_eat = c;
}

moved-Safe :
    (n i : ℕ) (p : Pc) (t : Table) (m : Option ℕ) (e : ℕ → PhilState) (d : ℕ → Bool) (c : Option ℕ)
    → Kept n i p t m e d
    → Safe n t
    → Safe n (moved i p t m e d c)
moved-Safe n i p t m e d c kept safe = record {
  holder = λ j h.
      split j (λ k. m ≡ some k) (λ q. critical q ≡ true) h kept.own (λ ne g. (kept.other j ne g).0);
  eater = eater;
  rights = λ j below h.
      split j (λ k. k < n → d (right n k) ≡ false) (λ q. has_right q ≡ true) h
        (λ g b. kept.own_right b g)
        (λ ne g b. (kept.other j ne (right-critical (t.pc j) g)).1 (right n j) ∙ safe.rights j b g)
        below;
  lefts = λ j below h.
      split j (λ k. k < n → d (left k) ≡ false) (λ q. has_left q ≡ true) h
        (λ g b. kept.own_left b g)
        (λ ne g b. (kept.other j ne (left-critical (t.pc j) g)).1 (left j) ∙ safe.lefts j b g)
        below;
}
  where
    split :
        (j : ℕ) (P : ℕ → Type 0) (Q : Pc → Type 0)
        → Q (put t.pc i p j)
        → (Q p → P i)
        → (i ≢ j → Q (t.pc j) → P j)
        → P j
    split j P Q h f g = elim (ℕ_discrete i j) [
      | yes same ↦
          subst P same
            (f (subst Q (put-same t.pc i p) (subst (λ k. Q (put t.pc i p k)) (sym same) h)))
      | no other ↦ g other (subst Q (put-other t.pc i j p other) h)
    ]

    eater : (j : ℕ) → is_eating (e j) ≡ true → dining (put t.pc i p j) ≡ true
    eater j h = elim (ℕ_discrete i j) [
      | yes same ↦
          subst (λ k. dining (put t.pc i p k) ≡ true) same
            (ap dining (put-same t.pc i p)
              ∙ kept.eats (subst (λ k. is_eating (e k) ≡ true) (sym same) h))
      | no other ↦
          ap dining (put-other t.pc i j p other)
          ∙ safe.eater j (sym (ap is_eating (kept.states j other)) ∙ h)
    ]

module _ (n i : ℕ) (t : Table) (safe : Safe n t) where
  -- A move outside of the critical section changes neither the chopsticks nor the lock.
  pub outside :
      (q p : Pc) (e : ℕ → PhilState) (c : Option ℕ)
      → t.pc i ≡ q
      → critical q ≡ false
      → critical p ≡ false
      → (is_eating (e i) ≡ true → is_eating (t.state i) ≡ true)
      → ((j : ℕ) → i ≢ j → e j ≡ t.state j)
      → Safe n (moved i p t t.manipulation e t.down c)
  outside q p e c at before after eats states =
      moved-Safe n i p t t.manipulation e t.down c
        (record {
          own = λ h. absurd (ground (arith, h, after));
          eats = λ h. absurd (
              ground
                (arith, ap critical at, before, dining-critical (t.pc i) (safe.eater i (eats h))));
          own_right = λ b h. absurd (ground (arith, right-critical p h, after));
          own_left = λ b h. absurd (ground (arith, left-critical p h, after));
          states = states;
          other = λ j ne h. (safe.holder j h, λ c. refl);
        })
        safe

  -- A move of the holder of the lock.
  pub inside :
      (q p : Pc) (m : Option ℕ) (e : ℕ → PhilState) (d : ℕ → Bool) (c : Option ℕ)
      → t.pc i ≡ q
      → critical q ≡ true
      → (critical p ≡ true → m ≡ some i)
      → (is_eating (e i) ≡ true → dining p ≡ true)
      → ((j : ℕ) → i ≢ j → e j ≡ t.state j)
      → (i < n → has_right p ≡ true → d (right n i) ≡ false)
      → (i < n → has_left p ≡ true → d (left i) ≡ false)
      → Safe n (moved i p t m e d c)
  inside q p m e d c at before own eats states rights lefts =
      moved-Safe n i p t m e d c
        (record {
          own = own;
          eats = eats;
          own_right = rights;
          own_left = lefts;
          states = states;
          other = λ j ne h. absurd (ne (alone j h));
        })
        safe
    where
      alone : (j : ℕ) → critical (t.pc j) ≡ true → i ≡ j
      alone j h = ground (arith, sym (safe.holder i (ap critical at ∙ before)) ∙ safe.holder j h)

  -- A free lock is taken.
  pub enters :
      (c : Option ℕ)
      → t.manipulation ≡ none
      → Safe n (moved i pickup_right t (some i) t.state t.down c)
  enters c free =
      moved-Safe n i pickup_right t (some i) t.state t.down c
        (record {
          own = λ h. refl;
          eats = λ h. refl;
          own_right = λ b h. absurd (ground (arith, h));
          own_left = λ b h. absurd (ground (arith, h));
          states = λ j ne. refl;
          other = λ j ne h. absurd (ground (arith, safe.holder j h, free));
        })
        safe
