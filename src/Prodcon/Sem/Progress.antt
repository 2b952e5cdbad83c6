-- ===== src/Prodcon/Sem/Progress.antt =====
-- The threads of Asmt_5/prodcon/prodcon_sem.cpp do not all wait.
use cs.Prelude.{
  ℕ, zero, suc, ◌+◌, ◌<◌, ◌≡◌, refl, ap, ◌∙◌, false, ◌⊎◌, inl, inr, Option-cases, Option, none,
  some, arith,
}
use cs.Exec.{Exec}
use cs.Prodcon.Sem.{
  Producer, waits_to_write, locks_to_write, inserts, unlocks_written, posts_read, Consumer,
  waits_to_read, locks_to_read, removes, unlocks_taken, posts_write, Worker, Shop, produce, consume,
  Step, produces, consumes, Reachable,
}
use cs.Prodcon.Sem.Stocked.{
  claimed, written, wanted, emptied, producer_inside, consumer_inside, holder,
}
use cs.Prodcon.Sem.Moves.{Reachable-Stocked}

zero_or : (n : ℕ) → (n ≡ 0) ⊎ ((m : ℕ) × (n ≡ suc m))
zero_or zero = inl refl
zero_or (suc m) = inr (m, refl)

module _ {ℓ} {A : Type ℓ} where
  passed :
      (n m : ℕ) (f : ℕ → A) → n ≡ suc m → elim n [ zero ↦ none | suc m ↦ some (f m) ] ≡ some (f m)
  passed zero m f e = absurd (omega (arith, e))
  passed (suc n) m f e = ap (λ m. some (f m)) (omega (arith, e))

  locked :
      (o : Option Worker) (a : A) → o ≡ none → elim o [ none ↦ some a | some w ↦ none ] ≡ some a
  locked o a e = ap (λ o. elim o [ none ↦ some a | some w ↦ none ]) e

producer_moves :
    (s : Shop) (p : Producer)
    → s.producer ≡ p
    → ((r : Exec Shop) × Step s r)
      ⊎ ((s.can_write + claimed p ≡ 0) ⊎ ((w : Worker) × (s.mutex ≡ some w)))
        × (producer_inside p ≡ false)
        × (written p ≡ 0)
unfolding produce
producer_moves s waits_to_write at = elim (zero_or s.can_write) [
  | inl e ↦ inr (inl (omega (arith, e)), refl, refl)
  | inr (m, e) ↦ inl (_, produces (ap (λ p. produce p s) at ∙ passed s.can_write m _ e))
]
producer_moves s locks_to_write at = elim (Option-cases s.mutex) [
  | inl e ↦ inl (_, produces (ap (λ p. produce p s) at ∙ locked s.mutex _ e))
  | inr held ↦ inr (inr held, refl, refl)
]
producer_moves s inserts at = inl (_, produces (ap (λ p. produce p s) at))
producer_moves s unlocks_written at = inl (_, produces (ap (λ p. produce p s) at))
producer_moves s posts_read at = inl (_, produces (ap (λ p. produce p s) at))

consumer_moves :
    (s : Shop) (c : Consumer)
    → s.consumer ≡ c
    → ((r : Exec Shop) × Step s r)
      ⊎ ((s.can_read + wanted c ≡ 0) ⊎ ((w : Worker) × (s.mutex ≡ some w)))
        × (consumer_inside c ≡ false)
        × (emptied c ≡ 0)
unfolding consume
consumer_moves s waits_to_read at = elim (zero_or s.can_read) [
  | inl e ↦ inr (inl (omega (arith, e)), refl, refl)
  | inr (m, e) ↦ inl (_, consumes (ap (λ p. consume p s) at ∙ passed s.can_read m _ e))
]
consumer_moves s locks_to_read at = elim (Option-cases s.mutex) [
  | inl e ↦ inl (_, consumes (ap (λ p. consume p s) at ∙ locked s.mutex _ e))
  | inr held ↦ inr (inr held, refl, refl)
]
consumer_moves s removes at = inl (_, consumes (ap (λ p. consume p s) at))
consumer_moves s unlocks_taken at = inl (_, consumes (ap (λ p. consume p s) at))
consumer_moves s posts_write at = inl (_, consumes (ap (λ p. consume p s) at))

-- If the buffer has a place, then in every state that the steps of prodcon_sem.cpp lead to the
-- producer or the consumer can make a step: the two never both wait.
pub Reachable-moves :
    (n : ℕ) (row : ℕ → ℕ) (s : Shop) → 0 < n → Reachable n row s → (r : Exec Shop) × Step s r
Reachable-moves n row s some_place path = elim (producer_moves s s.producer refl) [
  | inl move ↦ move
  | inr (p, p_out, p_none) ↦ elim (consumer_moves s s.consumer refl) [
    | inl move ↦ move
    | inr (c, c_out, c_none) ↦
        let stocked = Reachable-Stocked n row s path in
        let free =
          stocked.held
          ∙ ap (λ b. holder b (consumer_inside s.consumer)) p_out
          ∙ ap (holder false) c_out in
        absurd (elim p [
          | inr (w, e) ↦ ground (arith, e, free)
          | inl no_place ↦ elim c [
            | inr (w, e) ↦ ground (arith, e, free)
            | inl no_item ↦
                omega (arith, stocked.reads, stocked.writes, p_none, c_none, no_place, no_item)
          ]
        ])
  ]
]
