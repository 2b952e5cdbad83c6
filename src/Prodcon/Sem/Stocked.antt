-- ===== src/Prodcon/Sem/Stocked.antt =====
-- The two semaphores of Asmt_5/prodcon/prodcon_sem.cpp count the items and the places.
use cs.Prelude.{
  ℕ, zero, suc, ◌+◌, ◌≤◌, ◌<◌, ◌≡◌, refl, sym, ap, ◌∙◌, Bool, true, false, Option, none, some, ◌⊎◌,
  inl, inr, arith,
}
use cs.Exec.{done, fault≢done}
use cs.Prodcon.{Buffer, insert_item}
use cs.Prodcon.Filled.{Filled, insert_item-outside}
use cs.Prodcon.Sem.{
  Producer, locks_to_write, inserts, unlocks_written, posts_read, Consumer, locks_to_read, removes,
  unlocks_taken, posts_write, Worker, the_producer, the_consumer, Shop,
}

-- Places that the producer has claimed and not written.
abbrev pub claimed : Producer → ℕ
claimed locks_to_write = 1
claimed inserts = 1
claimed _ = 0

-- Items that the producer has written and not announced.
abbrev pub written : Producer → ℕ
written unlocks_written = 1
written posts_read = 1
written _ = 0

-- Items that the consumer has claimed and not read.
abbrev pub wanted : Consumer → ℕ
wanted locks_to_read = 1
wanted removes = 1
wanted _ = 0

-- Places that the consumer has emptied and not announced.
abbrev pub emptied : Consumer → ℕ
emptied unlocks_taken = 1
emptied posts_write = 1
emptied _ = 0

-- Who has to hold `mutex`.
abbrev pub producer_inside : Producer → Bool
producer_inside inserts = true
producer_inside unlocks_written = true
producer_inside _ = false

abbrev pub consumer_inside : Consumer → Bool
consumer_inside removes = true
consumer_inside unlocks_taken = true
consumer_inside _ = false

-- `none` exactly when neither is inside.
abbrev pub holder : Bool → Bool → Option Worker
holder true _ = some the_producer
holder false true = some the_consumer
holder false false = none

pub record Stocked (n : ℕ) (s : Shop) : Type 0 where
  pub count : ℕ
  pub filled : Filled s.items count
  pub capacity : s.items.bufferlen ≡ n
  pub in_bounds : 0 < count → count < n
  pub reads : s.can_read + written s.producer + wanted s.consumer ≡ count
  pub writes : s.can_write + claimed s.producer + emptied s.consumer + count ≡ n
  pub held : s.mutex ≡ holder (producer_inside s.producer) (consumer_inside s.consumer)
  pub apart : (producer_inside s.producer ≡ true) → consumer_inside s.consumer ≡ false

module _ {ℓ} {A : Type ℓ} where
  abbrev some_or : A → Option A → A
  some_or a none = a
  some_or a (some b) = b

  pub some_injective : {a b : A} → some a ≡ some b → a ≡ b
  some_injective {a} e = ap (some_or a) e

  -- `sem_wait`
  pub passes :
      (n : ℕ) (f : ℕ → A) (a : A)
      → elim n [ zero ↦ none | suc m ↦ some (f m) ] ≡ some a
      → (m : ℕ) × (n ≡ suc m) × (f m ≡ a)
  passes zero f a run = absurd (ground (arith, run))
  passes (suc m) f a run = (m, refl, some_injective run)

  -- `pthread_mutex_lock`
  pub locks :
      (o : Option Worker) (x a : A)
      → elim o [ none ↦ some x | some w ↦ none ] ≡ some a
      → (o ≡ none) × (x ≡ a)
  locks none x a run = (refl, some_injective run)
  locks (some w) x a run = absurd (ground (arith, run))

-- A write that is not a fault has room.
pub insert_item-room :
    (b b' : Buffer) (k : ℕ) → Filled b k → insert_item b'A' b ≡ done b' → k + 1 < b.bufferlen
insert_item-room b b' k filled run = elim (lt_or (k + 1) b.bufferlen) [
  | inl room ↦ room
  | inr full ↦ absurd (fault≢done (sym (insert_item-outside b k filled full) ∙ run))
]
  where
    lt_or : (a c : ℕ) → (a < c) ⊎ (c ≤ a)
    lt_or a c = ground arith

pub holder-apart : (p c : Bool) → holder p c ≡ none → (p ≡ false) × (c ≡ false)
holder-apart true c e = absurd (ground (arith, e))
holder-apart false true e = absurd (ground (arith, e))
holder-apart false false e = (refl, refl)
