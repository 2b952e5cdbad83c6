-- ===== src/Recover/Search/Laws.antt =====
-- What `find_inode` finds: the first place with the owner and the group, or none.
use cs.Prelude.{
  ℕ, zero, suc, ◌+◌, ◌-◌, ◌*◌, ◌/◌, ◌≤◌, ◌<◌, ◌≡◌, refl, inl, inr, none, some, arith, Bool-cases,
  leb, ℤ, eqb_ℤ, eqb_ℤ_iff, true, false,
}
use cs.Recover.Image.{Image, int_size, map_end, load_int, int_at}
use native.Mathlib.Decide.{dec_lt, dec_le}
use cs.Recover.Image.Laws.{IsMapping, load_int-some, load_int-none}
use cs.Recover.Search.{Found, found, not_found, segv, try_word, find_loop, find_inode, Hit}

-- No place from word `s` up to word `e`.
abbrev pub NoHit : Image → ℤ → ℤ → ℕ → ℕ → Type 0
NoHit m uid gid s e = (j : ℕ) → s ≤ j → j < e → ¬ Hit m uid gid j

-- The outcome of a search from word `s`.
pub data Outcome (m : Image) (uid gid : ℤ) (s : ℕ) : Found → Type 0 where
  first :
      (i : ℕ)
      → s ≤ i
      → 4 * i + 4 ≤ m.size
      → 4 * i + 8 ≤ m.size + m.slack
      → Hit m uid gid i
      → NoHit m uid gid s i
      → Outcome m uid gid s (found (m.base + 4 * i - 8))
  absent : NoHit m uid gid s (m.size / 4) → Outcome m uid gid s not_found
  overrun :
      (i : ℕ)
      → m.slack ≡ 0
      → 4 * i + 4 ≡ m.size
      → int_at m (4 * i) ≡ uid
      → NoHit m uid gid s i
      → Outcome m uid gid s segv

module _ (m : Image) (uid gid : ℤ) where
  NoHit-cons : (s e : ℕ) → ¬ Hit m uid gid s → NoHit m uid gid (suc s) e → NoHit m uid gid s e
  NoHit-cons s e miss clear j sj je = elim (dec_lt s j) [
    | yes above ↦ clear j above je
    | no below ↦ let eq : j ≡ s = omega arith in rw eq miss
  ]

  later :
      {s : ℕ} {r : Found} → ¬ Hit m uid gid s → Outcome m uid gid (suc s) r → Outcome m uid gid s r
  later {s} miss (first i si in_file fits hit clear) =
      first i (omega arith) in_file fits hit (NoHit-cons s i miss clear)
  later {s} miss (absent clear) = absent (NoHit-cons s (m.size / 4) miss clear)
  later {s} miss (overrun i full last own clear) =
      overrun i full last own (NoHit-cons s i miss clear)

  -- One word: owner and group fit, one of them does not, or the group lies behind the mapping.
  module _ (map : IsMapping m) (s p : ℕ) (at : p ≡ m.base + 4 * s)
      (inside : 4 * s + 4 ≤ m.size) where
    load_owner : load_int m p ≡ some (int_at m (4 * s))
    load_owner = rw at (load_int-some m (4 * s) (omega arith))

    load_group :
        4 * s + 8 ≤ m.size + m.slack → load_int m (p + int_size) ≡ some (int_at m (4 * s + 4))
    load_group h =
        let e : p + int_size ≡ m.base + (4 * s + 4) = omega arith in
        rw e (load_int-some m (4 * s + 4) (omega arith))

    load_group_behind : ¬ (4 * s + 8 ≤ m.size + m.slack) → load_int m (p + int_size) ≡ none
    load_group_behind h =
        let behind : m.size + m.slack ≤ 4 * s + 4 = omega (arith, map.whole) in
        let e : p + int_size ≡ m.base + (4 * s + 4) = omega arith in
        rw e (load_int-none m (4 * s + 4) behind)

    try_word-Outcome :
        {r : Found}
        → Outcome m uid gid (suc s) r
        → Outcome m uid gid s (try_word m (map_end m) uid gid p r)
    unfolding try_word
    try_word-Outcome {r} rest =
        rw (try_word, load_owner)
          (elim (Bool-cases (eqb_ℤ (int_at m (4 * s)) uid)) [
            | inr other ↦ rw other (later (λ hit. cc ((eqb_ℤ_iff _ _).1 hit.0, other)) rest)
            | inl own ↦ rw own (elim (dec_le (4 * s + 8) (m.size + m.slack)) [
              | no out ↦ rw (load_group_behind out) (
                  overrun s (omega (arith, map.whole)) (omega (arith, map.whole))
                    ((eqb_ℤ_iff _ _).0 own) (λ j sj js. absurd (omega arith)))
              | yes fits ↦
                  rw (load_group fits) (elim (Bool-cases (eqb_ℤ (int_at m (4 * s + 4)) gid)) [
                    | inl same ↦
                        let e : p - 2 * int_size ≡ m.base + 4 * s - 8 = omega arith in
                        rw (same, e)
                          (first s (omega arith) inside fits
                            ((eqb_ℤ_iff _ _).0 own, (eqb_ℤ_iff _ _).0 same)
                            (λ j sj js. absurd (omega arith)))
                    | inr other ↦ rw other (later (λ hit. cc ((eqb_ℤ_iff _ _).1 hit.1, other)) rest)
                  ])
            ])
          ])

  find_loop-Outcome :
      IsMapping m
      → (fuel s p : ℕ) → p ≡ m.base + 4 * s
      → m.size / 4 < fuel + s
      → 0 < fuel
      → Outcome m uid gid s (find_loop m (map_end m) uid gid fuel p)
  unfolding find_loop
  find_loop-Outcome map zero s p at enough some_fuel = elim some_fuel [ ]
  find_loop-Outcome map (suc fuel) s p at enough some_fuel =
      elim (dec_lt (m.base + m.size - int_size) p) [
        | yes past ↦
            let stop : leb p (map_end m - int_size) ≡ false = ground arith in
            rw stop (absent (λ j sj je. absurd (omega (arith, map.above))))
        | no inside ↦
            let go : leb p (map_end m - int_size) ≡ true = ground arith in
            rw go (
              try_word-Outcome map s p at (omega (arith, map.above)) (
                find_loop-Outcome map fuel (suc s) (p + int_size) (omega arith) (omega arith)
                  (omega (arith, map.above))))
      ]

  -- The search ends and returns the first place with owner and group, or none, or overruns only at
  -- a last word equal to the owner in a file that fills its last page.
  pub find_inode-Outcome :
      IsMapping m
      → (s : ℕ) → Outcome m uid gid s (find_inode m (m.base + 4 * s) (map_end m) uid gid)
  unfolding find_inode
  find_inode-Outcome map s =
      find_loop-Outcome map _ s (m.base + 4 * s) refl (omega arith) (omega arith)
